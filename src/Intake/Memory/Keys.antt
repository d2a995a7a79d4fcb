-- ===== src/Intake/Memory/Keys.antt =====
-- In a document of `MemoryStore`, non-empty idempotency keys are distinct.
use mathlib.Core.List.{map-append}
use doc_lens.Base.{
  ℕ, ℤ, String, ◌≡◌, refl, ap, sym, subst, map, ◌∙◌, List, [], ◌∷◌, ◌++◌, none, arith, eq_iff,
  string_eq,
}
use doc_lens.Intake.Types.{UploadRecord}
use doc_lens.Intake.Memory.{find_key, confirm_record}
use doc_lens.Intake.Memory.History.{Confirms}

-- No two uploads have the same non-empty key.
abbrev pub KeysDistinct : List UploadRecord → Type 0
KeysDistinct [] = Unit
KeysDistinct (u ∷ us) = (find_key u.idempotency_key us ≡ none) × KeysDistinct us

find_key-none-append :
    (key : String) (us : List UploadRecord) (u : UploadRecord)
    → find_key key us ≡ none
    → find_key key (u ∷ []) ≡ none
    → find_key key (us ++ u ∷ []) ≡ none
unfolding find_key
find_key-none-append key [] u h k = k
find_key-none-append key (x ∷ us) u h k = ground (arith, find_key-none-append key us u)

-- Whether one key meets another is the same both ways.
find_key_swap :
    (u x : UploadRecord)
    → find_key u.idempotency_key (x ∷ []) ≡ none
    → find_key x.idempotency_key (u ∷ []) ≡ none
unfolding find_key
find_key_swap u x h = ground (
  arith,
  eq_iff u.idempotency_key "",
  eq_iff x.idempotency_key "",
  eq_iff u.idempotency_key x.idempotency_key,
  eq_iff x.idempotency_key u.idempotency_key,
)

find_key-none-cons :
    (key : String) (x : UploadRecord) (us : List UploadRecord)
    → find_key key (x ∷ us) ≡ none
    → (find_key key (x ∷ []) ≡ none) × (find_key key us ≡ none)
unfolding find_key
find_key-none-cons key x us h = ground arith

pub KeysDistinct-append :
    (us : List UploadRecord) (u : UploadRecord)
    → find_key u.idempotency_key us ≡ none
    → KeysDistinct us
    → KeysDistinct (us ++ u ∷ [])
KeysDistinct-append [] u h k = (unfold find_key in refl, tt)
KeysDistinct-append (x ∷ us) u h k =
    let (one, others) = find_key-none-cons u.idempotency_key x us h in
    (
      find_key-none-append x.idempotency_key us u k.0 (find_key_swap u x one),
      KeysDistinct-append us u others k.1,
    )

abbrev pub keys : List UploadRecord → List String
keys = map λ u. u.idempotency_key

find_key-none_same_keys :
    (key : String) (us vs : List UploadRecord)
    → keys us ≡ keys vs
    → find_key key us ≡ none
    → find_key key vs ≡ none
unfolding find_key
find_key-none_same_keys key [] [] e h = refl
find_key-none_same_keys key [] (v ∷ vs) e h = cc
find_key-none_same_keys key (u ∷ us) [] e h = cc
find_key-none_same_keys key (u ∷ us) (v ∷ vs) e h =
    ground (arith, find_key-none_same_keys key us vs)

pub KeysDistinct-same_keys :
    (us vs : List UploadRecord) → keys us ≡ keys vs → KeysDistinct us → KeysDistinct vs
KeysDistinct-same_keys [] [] e h = tt
KeysDistinct-same_keys [] (v ∷ vs) e h = cc
KeysDistinct-same_keys (u ∷ us) [] e h = cc
KeysDistinct-same_keys (u ∷ us) (v ∷ vs) e h =
    let same : u.idempotency_key ≡ v.idempotency_key = cc in
    let rest : keys us ≡ keys vs = cc in
    (
      subst (λ k. find_key k vs ≡ none) same
          (find_key-none_same_keys u.idempotency_key us vs rest h.0),
      KeysDistinct-same_keys us vs rest h.1,
    )

pub Confirms-keys :
    {now : ℕ} {id : String} {size : ℤ} {checksum : String} {us vs : List UploadRecord}
    {v : UploadRecord}
    → Confirms now id size checksum us v vs
    → keys us ≡ keys vs
unfolding confirm_record
Confirms-keys {v = v} c =
    ap keys c.before
    ∙ map-append _ c.front (c.old ∷ c.rest)
    ∙ ap (λ k. keys c.front ++ k ∷ keys c.rest)
        (sym (ap (λ (x : UploadRecord). x.idempotency_key) c.new))
    ∙ sym (map-append _ c.front (v ∷ c.rest))
    ∙ sym (ap keys c.after)
