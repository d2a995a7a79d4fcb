-- ===== src/Identity/Tests.antt =====
-- The identity service's stores at concrete inputs.
use doc_lens.Base.{micros, ◌≡◌, refl, [], ◌∷◌, none, some, string_eq, lookup, arith}
use doc_lens.Identity.Users
use doc_lens.Identity.Users.{User, Memory, zero_user, normal_email}
use doc_lens.Identity.Postgres.{Tables, Server, find_user, create_user, user_by_email}
use doc_lens.Identity.Postgres.Refines.{answer_in_micros, SameUsers, postgres_refines_memory}

abbrev ann : User
ann = record zero_user {
  id = "usr_1";
  organization_id = "org_1";
  email = "ann@x.org";
  created_at = some 1001;
}

abbrev bob : User
bob = record zero_user { id = "usr_2"; organization_id = "org_1"; email = " Bob@x.org" }

abbrev a_server : Server
a_server = record {
  fault = λ s. none;
  duplicate_token = "duplicate";
  unknown_user = "unknown";
  sha256 = λ text. [];
}

abbrev one_row : Tables
one_row = record { users = record ann { created_at = some 1000 } ∷ []; refresh_tokens = [] }

abbrev one_user : Memory
one_user = record {
  users_by_id = ("usr_1", ann) ∷ [];
  user_id_by_email = ("ann@x.org", "usr_1") ∷ [];
  refresh_tokens = [];
}

one_user_same : SameUsers one_row one_user
unfolding find_user lookup micros
one_user_same = record {
  by_email = λ email. ground arith;
  by_id = λ id. ground arith;
  known = λ email. ground arith;
}

postgres_refines_memory_example :
    ((create_user a_server 5 bob one_row).0 ≡ (Users.create_user 5 bob one_user).0)
    × SameUsers (create_user a_server 5 bob one_row).1 (Users.create_user 5 bob one_user).1
    × (user_by_email a_server "ANN@x.org" one_row
        ≡ (answer_in_micros (Users.user_by_email "ANN@x.org" one_user).0, one_row))
    × ((Users.user_by_email "ANN@x.org" one_user).1 ≡ one_user)
unfolding lookup
postgres_refines_memory_example =
    postgres_refines_memory a_server 5 bob "ANN@x.org" one_row one_user (λ s. refl) one_user_same
      refl
