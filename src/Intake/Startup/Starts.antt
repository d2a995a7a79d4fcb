-- ===== src/Intake/Startup/Starts.antt =====
-- When the document intake service starts, for any environment.
use doc_lens.Base.{
  ℤ, pos, String, ◌≡◌, refl, ap, sym, ◌∙◌, Bool, true, false, not, ◌&&◌, ◌||◌, List, Option, none,
  some, ◌==◌, string_eq, Result, ok, err, arith, ltb_ℤ, trim_space, trim_space_idem, require_some,
  pure, ◌>>=◌, Exec, continue,
}
use doc_lens.Env.{Env, Parsers, positive_env}
use doc_lens.Intake.Pool.{UploadPool, new_upload_pool, not_positive}
use doc_lens.Intake.Storage.{new_r2_object_storage}
use doc_lens.Intake.Config.{Config, load, pool_config}
use doc_lens.Intake.Startup.{
  Resource, storage_dir, r2_config, postgres, migration_file, migration, rabbitmq, listener,
  External, open_resource, uses_r2, is_complete, choose_storage, choose_store, choose_publisher,
  start,
}

positive_env_positive :
    (env : Env) (parse : String → Option ℤ) (key : String) (fallback : ℤ)
    → ltb_ℤ (pos 0) fallback ≡ true
    → not_positive (positive_env env parse key fallback) ≡ false
unfolding positive_env
positive_env_positive env parse key fallback h = ground arith

abbrev pub is_ok : {E A : Type 0} → Result E A → Bool
is_ok (ok a) = true
is_ok (err e) = false

abbrev pub is_given : {A : Type 0} → Option A → Bool
is_given none = false
is_given (some a) = true

-- The configuration of the pool that an environment gives is accepted.
pool_accepted :
    (p : Parsers) (env : Env) → is_given (new_upload_pool (pool_config (load p env))) ≡ true
unfolding new_upload_pool pool_config load
pool_accepted p env = ground (
  arith,
  positive_env_positive env p.atoi "DOCUMENT_INTAKE_UPLOAD_WORKERS" (pos 8) refl,
  positive_env_positive env p.parse_float "DOCUMENT_INTAKE_TENANT_UPLOAD_RATE" (pos 5) refl,
  positive_env_positive env p.atoi "DOCUMENT_INTAKE_TENANT_UPLOAD_BURST" (pos 10) refl,
  positive_env_positive env p.atoi "DOCUMENT_INTAKE_STORAGE_FAILURE_THRESHOLD" (pos 5) refl,
  positive_env_positive env p.parse_duration "DOCUMENT_INTAKE_STORAGE_CIRCUIT_OPEN"
      (pos 30_000_000_000) refl,
)

module _ {S A B : Type 0} where
  is_ok-continue :
      (r : Result String A) (f : A → Exec S String B) (t : S) (b c : Bool)
      → is_ok r ≡ b
      → ((a : A) → r ≡ ok a → is_ok (f a t).0 ≡ c)
      → is_ok (continue r f t).0 ≡ (b && c)
  is_ok-continue (ok a) f t b c h k = ground (arith, h, k a refl)
  is_ok-continue (err e) f t b c h k = ground (arith, h)

  -- Two parts succeed when each does, the second wherever the first leads.
  is_ok-bind :
      (m : Exec S String A) (f : A → Exec S String B) (s : S) (b c : Bool)
      → is_ok (m s).0 ≡ b
      → ((a : A) (t : S) → (m s).0 ≡ ok a → is_ok (f a t).0 ≡ c)
      → is_ok ((m >>= f) s).0 ≡ (b && c)
  unfolding ◌>>=◌
  is_ok-bind m f s b c h k = is_ok-continue (m s).0 f (m s).1 b c h (λ a e. k a (m s).1 e)

pool_is_ok :
    {S : Type 0} (o : Option UploadPool) (message : String) (s : S)
    → is_given o ≡ true
    → is_ok (require_some {S = S} o message s).0 ≡ true
unfolding require_some
pool_is_ok none message s h = ground arith
pool_is_ok (some pool) message s h = refl

same_ok : {a b : Bool} → ◌≡◌ {A = Result String Bool} (ok a) (ok b) → a ≡ b
same_ok h = ground arith

is_ok-pure : {S A : Type 0} (a : A) (s : S) → is_ok (pure {E = String} a s).0 ≡ true
unfolding pure
is_ok-pure a s = refl

module _ {W : Type 0} (x : External W) (opens : (r : Resource) → x.fails r ≡ false) where
  open_is_ok :
      (r : Resource) (message : String) (opened : List Resource)
      → is_ok (open_resource x r message opened).0 ≡ true
  unfolding open_resource
  open_is_ok r message opened = ground (arith, opens r)

  storage_chosen :
      (c : Config) (opened : List Resource)
      → trim_space c.r2_bucket ≡ c.r2_bucket
      → is_ok (choose_storage x c opened).0 ≡ (not (uses_r2 x c) || is_complete x c)
  unfolding choose_storage open_resource is_complete new_r2_object_storage ◌>>=◌
  storage_chosen c opened trimmed = ground (arith, opens r2_config, trimmed)

  store_chosen :
      (c : Config) (opened : List Resource)
      → (choose_store x c opened).0 ≡ ok (not (c.database_url == ""))
  unfolding choose_store open_resource ◌>>=◌
  store_chosen c opened = ground (arith, opens postgres, opens migration_file, opens migration)

  publisher_chosen :
      (c : Config) (on_postgres : Bool) (opened : List Resource)
      → is_ok (choose_publisher x c on_postgres opened).0 ≡ (c.rabbitmq_url == "" || on_postgres)
  unfolding choose_publisher open_resource ◌>>=◌
  publisher_chosen c on_postgres opened = ground (arith, opens rabbitmq)

  -- The steps of a start, one by one.
  start_steps :
      (p : Parsers) (env : Env) (opened : List Resource)
      → is_ok (start x (load p env) opened).0 ≡ (
          true
          && ((not (uses_r2 x (load p env)) || is_complete x (load p env))
              && (true
                  && (((load p env).rabbitmq_url == "" || not ((load p env).database_url == ""))
                      && (true && (true && true))))))
  unfolding start
  start_steps p env opened =
      let c = load p env in
      is_ok-bind _ _ opened _ _ (open_is_ok storage_dir _ opened) (λ a t e.
        is_ok-bind _ _ t _ _ (storage_chosen c t (unfold load in trim_space_idem (env "R2_BUCKET")))
          (λ r2 t e. is_ok-bind _ _ t _ _ (ap is_ok (store_chosen c t)) (λ on_postgres t' e.
            is_ok-bind _ _ t' _ _
              (publisher_chosen c on_postgres t'
                ∙ ap (λ (b : Bool). c.rabbitmq_url == "" || b) (same_ok (sym e ∙ store_chosen c t)))
              (λ publishes t e.
                is_ok-bind _ _ t _ _ (pool_is_ok _ _ t (pool_accepted p env)) (λ pool t e.
                  is_ok-bind _ _ t _ _ (open_is_ok listener _ t) (λ a t e. is_ok-pure _ t))))))

  -- With every resource opening, the service starts in any environment, whatever its values parse
  -- to, exactly when the R2 endpoint and bucket are both blank or none of the R2 endpoint, keys and
  -- bucket is, and the RabbitMQ URL is blank or the database's is not.
  pub start_ok_iff :
      (p : Parsers) (env : Env) (opened : List Resource)
      → is_ok (start x (load p env) opened).0 ≡ (
          (trim_space (env "R2_ENDPOINT") == "" && trim_space (env "R2_BUCKET") == ""
            || (not (trim_space (env "R2_ENDPOINT") == "")
                && not (trim_space (env "R2_ACCESS_KEY_ID") == "")
                && not (trim_space (env "R2_SECRET_ACCESS_KEY") == "")
                && not (trim_space (env "R2_BUCKET") == "")))
          && (trim_space (env "RABBITMQ_URL") == "" || not (trim_space (env "DATABASE_URL") == "")))
  unfolding load uses_r2 is_complete
  start_ok_iff p env opened = start_steps p env opened ∙ ground arith
