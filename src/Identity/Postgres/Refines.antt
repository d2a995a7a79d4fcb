-- ===== src/Identity/Postgres/Refines.antt =====
-- The PostgreSQL store of doclens-identity-service/internal/store beside the in-memory one.
use doc_lens.Base.{
  some_micros, Result, ℕ, String, ◌≡◌, inl, inr, refl, Bool, true, false, ◌||◌, List, [], ◌∷◌, ◌++◌,
  Option, none, some, any, ◌==◌, string_eq, eq_iff, eq_refl, if◌then◌else◌, ok, err, arith, lookup,
  insert, lookup-insert, Bool-cases, Option-cases, ◌>>=◌,
}
use doc_lens.Identity.Users
use doc_lens.Identity.Users.{
  User, UserError, Memory, user_exists, user_not_found, normal_email, or_now, user_at,
}
use doc_lens.Identity.Postgres.{
  Tables, Server, Step, begin, insert_user, select_user, commit, stored_user, user_row, find_user,
  create_user, create_in, add_user, user_by_email, transaction,
}

abbrev pub is_some : {A : Type 0} → Option A → Bool
is_some none = false
is_some (some a) = true

-- The user whom an address leads to in the maps.
abbrev pub user_of : Memory → Option String → Option User
user_of m none = none
user_of m (some id) = lookup id m.users_by_id

-- A user, and an answer with one, with the time of creation in microseconds.
abbrev pub in_micros : Option User → Option User
in_micros none = none
in_micros (some user) = some (record user { created_at = some_micros user.created_at })

abbrev pub answer_in_micros : Result UserError User → Result UserError User
answer_in_micros (ok user) = ok (record user { created_at = some_micros user.created_at })
answer_in_micros (err e) = err e

-- The tables and the maps hold the same users, the tables with their times in microseconds.
pub record SameUsers (d : Tables) (m : Memory) : Type 0 where
  pub by_email :
      (email : String)
      → find_user email d.users ≡ in_micros (user_of m (lookup email m.user_id_by_email))
  pub by_id : (id : String) → any (λ row. row.id == id) d.users ≡ is_some (lookup id m.users_by_id)
  pub known :
      (email : String)
      → is_some (lookup email m.user_id_by_email) ≡ is_some (find_user email d.users)

find_user-append :
    (email : String) (rows : List User) (user : User)
    → find_user email (rows ++ user ∷ []) ≡ elim (find_user email rows) [
      | some row ↦ some row
      | none ↦ if user.email == email then some user else none
    ]
unfolding find_user
find_user-append email [] user = refl
find_user-append email (row ∷ rows) user = ground (arith, find_user-append email rows user)

any_id-append :
    (id : String) (rows : List User) (user : User)
    → any (λ row. row.id == id) (rows ++ user ∷ [])
      ≡ (any (λ row. row.id == id) rows || user.id == id)
any_id-append id [] user = ground arith
any_id-append id (row ∷ rows) user = ground (arith, any_id-append id rows user)

unique_split :
    (id email : String) (rows : List User)
    → any (λ row. row.id == id || row.email == email) rows
      ≡ (any (λ row. row.id == id) rows || is_some (find_user email rows))
unfolding find_user
unique_split id email [] = refl
unique_split id email (row ∷ rows) = ground (arith, unique_split id email rows)

module _ (q : Server) (works : (s : Step) → q.fault s ≡ none) where
  -- What a creation does, by whether the id or the address is taken.
  create_user_taken :
      (now : ℕ) (user : User) (d : Tables)
      → any (λ row. row.id == user.id || row.email == normal_email user.email) d.users ≡ true
      → create_user q now user d ≡ (err user_exists, d)
  unfolding create_user create_in add_user stored_user transaction ◌>>=◌
  create_user_taken now user d taken = ground (arith, works begin, works insert_user, works commit)

  create_user_free :
      (now : ℕ) (user : User) (d : Tables)
      → any (λ row. row.id == user.id || row.email == normal_email user.email) d.users ≡ false
      → create_user q now user d ≡ (
        ok (stored_user now user),
        record d { users = d.users ++ user_row (stored_user now user) ∷ [] },
      )
  unfolding create_user create_in add_user stored_user transaction ◌>>=◌
  create_user_free now user d free = ground (arith, works begin, works insert_user, works commit)

-- The maps with one more user.
with_user : (now : ℕ) (user : User) (m : Memory) → Memory
with_user now user m = record m {
  users_by_id = insert user.id (stored_user now user) m.users_by_id;
  user_id_by_email = insert (normal_email user.email) user.id m.user_id_by_email;
}

memory_taken :
    (now : ℕ) (user : User) (m : Memory) (id : String)
    → lookup (normal_email user.email) m.user_id_by_email ≡ some id
    → Users.create_user now user m ≡ (err user_exists, m)
unfolding Users.create_user
memory_taken now user m id taken = ground (arith, taken)

memory_free :
    (now : ℕ) (user : User) (m : Memory)
    → lookup (normal_email user.email) m.user_id_by_email ≡ none
    → Users.create_user now user m ≡ (ok (stored_user now user), with_user now user m)
unfolding Users.create_user Users.add_user stored_user with_user
memory_free now user m free = ground (arith, free)

with_user_by_email :
    (now : ℕ) (user : User) (d : Tables) (m : Memory) (email : String)
    → SameUsers d m
    → lookup user.id m.users_by_id ≡ none
    → lookup (normal_email user.email) m.user_id_by_email ≡ none
    → find_user email (d.users ++ user_row (stored_user now user) ∷ [])
      ≡ in_micros
          (user_of (with_user now user m) (lookup email (with_user now user m).user_id_by_email))
unfolding with_user stored_user
with_user_by_email now user d m email h fresh free =
    elim (Bool-cases (normal_email user.email == email)) [
      | inl same ↦ ground (
        arith,
        find_user-append email d.users (user_row (stored_user now user)),
        lookup-insert (normal_email user.email) email user.id m.user_id_by_email,
        lookup-insert user.id user.id (stored_user now user) m.users_by_id,
        eq_refl user.id,
        (eq_iff (normal_email user.email) email).0 same,
        h.known email,
      )
      | inr other ↦ elim (Option-cases (lookup email m.user_id_by_email)) [
        | inl missing ↦ ground (
          arith,
          find_user-append email d.users (user_row (stored_user now user)),
          lookup-insert (normal_email user.email) email user.id m.user_id_by_email,
          h.by_email email,
        )
        | inr (id, found) ↦ ground (
          arith,
          find_user-append email d.users (user_row (stored_user now user)),
          lookup-insert (normal_email user.email) email user.id m.user_id_by_email,
          lookup-insert user.id id (stored_user now user) m.users_by_id,
          eq_iff user.id id,
          h.known email,
          h.by_email email,
        )
      ]
    ]

with_user-SameUsers :
    (now : ℕ) (user : User) (d : Tables) (m : Memory)
    → SameUsers d m
    → lookup user.id m.users_by_id ≡ none
    → lookup (normal_email user.email) m.user_id_by_email ≡ none
    → SameUsers
        (record d { users = d.users ++ user_row (stored_user now user) ∷ [] })
        (with_user now user m)
unfolding with_user stored_user
with_user-SameUsers now user d m h fresh free = record {
  by_email = λ email. with_user_by_email now user d m email h fresh free;
  by_id = λ id. ground (
    arith,
    any_id-append id d.users (user_row (stored_user now user)),
    h.by_id id,
    lookup-insert user.id id (stored_user now user) m.users_by_id,
  );
  known = λ email. ground (
    arith,
    find_user-append email d.users (user_row (stored_user now user)),
    h.known email,
    lookup-insert (normal_email user.email) email user.id m.user_id_by_email,
  );
}

create_alike :
    (q : Server) (now : ℕ) (user : User) (d : Tables) (m : Memory)
    → ((s : Step) → q.fault s ≡ none)
    → SameUsers d m
    → lookup user.id m.users_by_id ≡ none
    → ((create_user q now user d).0 ≡ (Users.create_user now user m).0)
      × SameUsers (create_user q now user d).1 (Users.create_user now user m).1
create_alike q now user d m works h fresh =
    elim (Option-cases (lookup (normal_email user.email) m.user_id_by_email)) [
      | inl free ↦
          rw
            (
              create_user_free q works now user d
                  (ground (arith, split, h.by_id user.id, h.known address, fresh, free)),
              memory_free now user m free,
            )
            (refl, with_user-SameUsers now user d m h fresh free)
      | inr (id, taken) ↦
          rw
            (
              create_user_taken q works now user d (ground (arith, split, h.known address, taken)),
              memory_taken now user m id taken,
            )
            (refl, h)
    ]
  where
    address : String
    address = normal_email user.email

    split : any (λ row. row.id == user.id || row.email == normal_email user.email) d.users ≡ (
        any (λ row. row.id == user.id) d.users
        || is_some (find_user (normal_email user.email) d.users))
    split = unique_split user.id (normal_email user.email) d.users

find_alike :
    (q : Server) (email : String) (d : Tables) (m : Memory)
    → q.fault select_user ≡ none
    → SameUsers d m
    → user_by_email q email d ≡ (answer_in_micros (Users.user_by_email email m).0, d)
unfolding user_by_email Users.user_by_email user_at ◌>>=◌
find_alike q email d m works h =
    elim (Option-cases (lookup (normal_email email) m.user_id_by_email)) [
      | inl missing ↦ ground (arith, works, h.by_email (normal_email email), missing)
      | inr (id, found) ↦
          ground
            (arith, works, h.by_email (normal_email email), h.known (normal_email email), found)
    ]

search_changes_nothing : (email : String) (m : Memory) → (Users.user_by_email email m).1 ≡ m
unfolding Users.user_by_email
search_changes_nothing email m = ground arith

-- With no step failing and the same users, but for times that the tables keep in microseconds, the two
-- stores answer alike: to a creation with an id that no user has, exactly, and to a search by
-- address with the same user, its time of creation cut to microseconds on PostgreSQL. The creation
-- leaves them with the same users in this sense again, and the search changes neither.
pub postgres_refines_memory :
    (q : Server) (now : ℕ) (user : User) (email : String) (d : Tables) (m : Memory)
    → ((s : Step) → q.fault s ≡ none)
    → SameUsers d m
    → lookup user.id m.users_by_id ≡ none
    → ((create_user q now user d).0 ≡ (Users.create_user now user m).0)
      × SameUsers (create_user q now user d).1 (Users.create_user now user m).1
      × (user_by_email q email d ≡ (answer_in_micros (Users.user_by_email email m).0, d))
      × ((Users.user_by_email email m).1 ≡ m)
postgres_refines_memory q now user email d m works h fresh =
    let (alike, same) = create_alike q now user d m works h fresh in
    (alike, same, find_alike q email d m (works select_user) h, search_changes_nothing email m)
