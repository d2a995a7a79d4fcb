-- ===== src/Gateway/Limiter/Cleanup.antt =====
-- When forgetting clients changes no answer.
use doc_lens.Base.{
  ℕ, ◌-◌, ◌+◌, ◌*◌, ◌≤◌, String, Bool, true, false, not, ◌≡◌, refl, ap, ◌∙◌, sym, inl, inr, Option,
  none, some, arith, ltb, lookup, lookup-insert_self, lookup-keep, only_if, if◌then◌else◌,
  Bool-cases, Option-cases,
}
use doc_lens.Gateway.Limiter.{
  token, Bucket, Limiter, first_bucket, refill, put_bucket, allow_known, allow_found, allow,
  cleanup,
}

-- What a client's call of `allow` answers, and the bucket that it leaves.
abbrev outcome : String → Bool × Limiter → Bool × Option Bucket
outcome key (allowed, l) = (allowed, lookup key l.clients)

mul_mono : (r a b : ℕ) → a ≤ b → a * r ≤ b * r
mul_mono r a b h = grind arith

-- A bucket that was full again before now is full later.
refill_full :
    (l : Limiter) (later max_age : ℕ) (b : Bucket)
    → l.burst * token ≤ max_age * l.rate
    → b.seen + max_age ≤ later
    → refill l later b ≡ l.burst * token
unfolding refill
refill_full l later max_age b full old =
    omega (arith, mul_mono l.rate max_age (later - b.seen) (omega arith))

full_as_new :
    (l : Limiter) (later max_age : ℕ) (key : String) (b : Bucket)
    → 1 ≤ l.burst
    → l.burst * token ≤ max_age * l.rate
    → b.seen + max_age ≤ later
    → outcome key (allow_known later key b l)
      ≡ (true, some (record { tokens = l.burst * token - token; seen = later }))
unfolding allow_known put_bucket
full_as_new l later max_age key b burst full old =
    let e = refill_full l later max_age b full old in
    let enough : ltb (refill l later b) token ≡ false = rw e (ground arith) in
    rw enough (rw e (ap (λ o. (true, o)) (lookup-insert_self key _ l.clients)))

new_outcome :
    (l : Limiter) (later : ℕ) (key : String)
    → outcome key (allow_found later key none l)
      ≡ (true, some (record { tokens = l.burst * token - token; seen = later }))
unfolding allow_found put_bucket first_bucket
new_outcome l later key = ap (λ o. (true, o)) (lookup-insert_self key _ l.clients)

abbrev spent : ℕ → ℕ → Bool × Option Bucket
spent later tokens =
    if ltb tokens token
    then (false, some (record { tokens = tokens; seen = later }))
    else (true, some (record { tokens = tokens - token; seen = later }))

known_outcome :
    (l : Limiter) (later : ℕ) (key : String) (b : Bucket)
    → outcome key (allow_known later key b l) ≡ spent later (refill l later b)
unfolding allow_known put_bucket
known_outcome l later key b = elim (Bool-cases (ltb (refill l later b) token)) [
  | inl low ↦ rw low (ap (λ o. (false, o)) (lookup-insert_self key _ l.clients))
  | inr enough ↦ rw enough (ap (λ o. (true, o)) (lookup-insert_self key _ l.clients))
]

refill_kept :
    (l : Limiter) (now max_age later : ℕ) (b : Bucket)
    → refill (cleanup now max_age l) later b ≡ refill l later b
unfolding refill cleanup
refill_kept l now max_age later b = refl

new_kept :
    (l : Limiter) (now max_age later : ℕ) (key : String)
    → outcome key (allow_found later key none (cleanup now max_age l))
      ≡ outcome key (allow_found later key none l)
new_kept l now max_age later key =
    unfold cleanup in
    (new_outcome (cleanup now max_age l) later key ∙ sym (new_outcome l later key))

lookup-cleanup :
    (l : Limiter) (now max_age : ℕ) (key : String)
    → lookup key (cleanup now max_age l).clients
      ≡ only_if (λ b. not (ltb b.seen (now - max_age))) (lookup key l.clients)
unfolding cleanup
lookup-cleanup l now max_age key = lookup-keep _ key l.clients

found_known :
    (l : Limiter) (later : ℕ) (key : String) (b : Bucket)
    → outcome key (allow_found later key (some b) l) ≡ outcome key (allow_known later key b l)
unfolding allow_found
found_known l later key b = refl

outcome_kept :
    (key : String) (now max_age later : ℕ) (l : Limiter)
    → 1 ≤ l.burst
    → l.burst * token ≤ max_age * l.rate
    → now ≤ later
    → outcome key (allow later key (cleanup now max_age l)) ≡ outcome key (allow later key l)
unfolding allow
outcome_kept key now max_age later l burst full after = elim (Option-cases (lookup key l.clients)) [
  | inl new ↦ rw (lookup-cleanup l now max_age key, new) (new_kept l now max_age later key)
  | inr (b, old) ↦ elim (Bool-cases (ltb b.seen (now - max_age))) [
    | inl gone ↦
        rw (lookup-cleanup l now max_age key, old, gone)
          (new_kept l now max_age later key
            ∙ new_outcome l later key
            ∙ sym (full_as_new l later max_age key b burst full (ground arith))
            ∙ sym (found_known l later key b))
    | inr fresh ↦
        rw (lookup-cleanup l now max_age key, old, fresh)
          (found_known (cleanup now max_age l) later key b
            ∙ known_outcome (cleanup now max_age l) later key b
            ∙ ap (spent later) (refill_kept l now max_age later b)
            ∙ sym (known_outcome l later key b)
            ∙ sym (found_known l later key b))
  ]
]

-- When the burst is positive and a bucket fills up within `max_age`, a cleanup changes no answer: whatever client calls at
-- or after the cleanup is answered as it would be without it, and has the same bucket then.
pub cleanup_is_unseen :
    (key : String) (now max_age later : ℕ) (l : Limiter)
    → 1 ≤ l.burst
    → l.burst * token ≤ max_age * l.rate
    → now ≤ later
    → ((allow later key (cleanup now max_age l)).0 ≡ (allow later key l).0)
      × (lookup key (allow later key (cleanup now max_age l)).1.clients
          ≡ lookup key (allow later key l).1.clients)
cleanup_is_unseen key now max_age later l burst full after =
    let e = outcome_kept key now max_age later l burst full after in
    (ap (λ (o : Bool × Option Bucket). o.0) e, ap (λ (o : Bool × Option Bucket). o.1) e)
