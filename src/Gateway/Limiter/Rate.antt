-- ===== src/Gateway/Limiter/Rate.antt =====
-- How many requests of one client the limiter lets through over time.
use doc_lens.Base.{
  ℕ, ◌+◌, ◌-◌, ◌*◌, ◌≤◌, String, Bool, false, ◌≡◌, refl, ap, inl, inr, List, [], ◌∷◌, Option, none,
  some, arith, eq_iff, ◌==◌, string_eq, ltb, lookup, lookup-insert, lookup-insert_self,
  if◌then◌else◌, Bool-cases, Option-cases,
}
use doc_lens.Gateway.Limiter.{
  token, Bucket, Limiter, first_bucket, refill, put_bucket, allow_known, allow_found, allow,
}

-- A call: when, and for which client.
abbrev pub Call : Type 0
Call = ℕ × String

unfoldable pub granted : String → Limiter → Call → ℕ
granted key l (now, k) = if k == key then (if (allow now k l).0 then 1 else 0) else 0

-- How many calls of the client are let through.
unfoldable pub grants : String → Limiter → List Call → ℕ
grants key l [] = 0
grants key l ((now, k) ∷ calls) = granted key l (now, k) + grants key (allow now k l).1 calls

-- The calls' times do not fall, from `t` on.
abbrev pub Chronological : ℕ → List Call → Type 0
Chronological t [] = Unit
Chronological t ((now, k) ∷ calls) = (t ≤ now) × Chronological now calls

abbrev pub end_time : ℕ → List Call → ℕ
end_time t [] = t
end_time t ((now, k) ∷ calls) = end_time now calls

abbrev level : Limiter → Option Bucket → ℕ
level l none = l.burst * token
level l (some b) = b.tokens

abbrev since : ℕ → Option Bucket → ℕ
since t none = t
since t (some b) = b.seen

mul_mono : (r a b : ℕ) → a ≤ b → r * a ≤ r * b
mul_mono r a b h = grind arith

elapsed_mul : (a b r : ℕ) → a ≤ b → (b - a) * r + r * a ≡ r * b
elapsed_mul a b r h = grind arith

-- What one call may spend of the client's tokens and refills.
record Spends (key : String) (t t' n : ℕ) (l l' : Limiter) : Type 0 where
  spent :
      n * token + level l' (lookup key l'.clients) + l.rate * since t (lookup key l.clients)
      ≤ level l (lookup key l.clients) + l.rate * since t' (lookup key l'.clients)
  rate : l'.rate ≡ l.rate
  burst : l'.burst ≡ l.burst
  past : since t' (lookup key l'.clients) ≤ t'

abbrev counted : Bool → ℕ
counted b = if b then 1 else 0

refill_spends :
    (l : Limiter) (now : ℕ) (b : Bucket)
    → b.seen ≤ now
    → refill l now b + l.rate * b.seen ≤ b.tokens + l.rate * now
unfolding refill
refill_spends l now b h = omega (arith, elapsed_mul b.seen now l.rate h)

-- A known client's bucket with `tokens` left, after `n` calls let through.
known-Spends :
    (key : String) (t now n tokens : ℕ) (b : Bucket) (l : Limiter)
    → lookup key l.clients ≡ some b
    → t ≤ now
    → b.seen ≤ t
    → n * token + tokens + l.rate * b.seen ≤ b.tokens + l.rate * now
    → Spends key t now n l (put_bucket key (record { tokens = tokens; seen = now }) l)
unfolding put_bucket
known-Spends key t now n tokens b l e h past paid = record {
  spent =
      rw (e, lookup-insert_self key (record { tokens = tokens; seen = now }) l.clients)
        (omega (arith, paid));
  rate = refl;
  burst = refl;
  past =
      rw (lookup-insert_self key (record { tokens = tokens; seen = now }) l.clients) (omega arith);
}

allow_own :
    (key : String) (t now : ℕ) (o : Option Bucket) (l : Limiter)
    → lookup key l.clients ≡ o
    → 1 ≤ l.burst
    → t ≤ now
    → since t o ≤ t
    → Spends key t now (counted (allow_found now key o l).0) l (allow_found now key o l).1
unfolding allow_found allow_known put_bucket refill first_bucket
allow_own key t now none l e burst h past = record {
  spent =
      rw (e, lookup-insert_self key (unfold first_bucket in first_bucket l now) l.clients)
        (omega (arith, mul_mono l.rate t now h));
  rate = refl;
  burst = refl;
  past =
      rw (lookup-insert_self key (unfold first_bucket in first_bucket l now) l.clients)
        (omega arith);
}
allow_own key t now (some b) l e burst h past =
    elim (Bool-cases (ltb (unfold refill in refill l now b) token)) [
      | inl low ↦ rw low (
          known-Spends key t now 0 (refill l now b) b l e h past
            (omega (arith, refill_spends l now b past_now)))
      | inr enough ↦ rw enough (
          known-Spends key t now 1 (refill l now b - token) b l e h past
            (ground (arith, refill_spends l now b past_now)))
    ]
  where
    past_now : b.seen ≤ now
    past_now = omega arith

kept :
    (key k : String) (now : ℕ) (l : Limiter)
    → (k == key) ≡ false
    → (lookup key (allow now k l).1.clients ≡ lookup key l.clients)
      × ((allow now k l).1.rate ≡ l.rate)
      × ((allow now k l).1.burst ≡ l.burst)
unfolding allow allow_found allow_known put_bucket
kept key k now l other = elim (Option-cases (lookup k l.clients)) [
  | inl new ↦ rw new (ground (arith, lookup-insert k key (first_bucket l now) l.clients))
  | inr (b, old) ↦
      let low : Bucket = record { tokens = refill l now b; seen = now } in
      let paid : Bucket = record { tokens = refill l now b - token; seen = now } in
      rw old (ground (arith, lookup-insert k key low l.clients, lookup-insert k key paid l.clients))
]

allow_other :
    (key k : String) (t now : ℕ) (l : Limiter)
    → (k == key) ≡ false
    → t ≤ now
    → since t (lookup key l.clients) ≤ t
    → Spends key t now 0 l (allow now k l).1
allow_other key k t now l other h past =
    let (same, r, b) = kept key k now l other in
    elim (Option-cases (lookup key l.clients)) [
      | inl new ↦ record {
        spent = rw (same, new, b) (omega (arith, mul_mono l.rate t now h));
        rate = r;
        burst = b;
        past = rw (same, new) (omega arith);
      }
      | inr (c, old) ↦ record {
        spent = rw (same, old) (omega arith);
        rate = r;
        burst = b;
        past = rw (same, old) (omega (arith, rw old at past));
      }
    ]

allow-Spends :
    (key k : String) (t now : ℕ) (l : Limiter)
    → 1 ≤ l.burst
    → t ≤ now
    → since t (lookup key l.clients) ≤ t
    → Spends key t now (granted key l (now, k)) l (allow now k l).1
unfolding granted
allow-Spends key k t now l burst h past = elim (Bool-cases (k == key)) [
  | inl same ↦
      let e : k ≡ key = (eq_iff k key).0 same in
      rw same
        (rw e (unfold allow in allow_own key t now (lookup key l.clients) l refl burst h past))
  | inr other ↦ rw other (allow_other key k t now l other h past)
]

grants_bound :
    (key : String) (l : Limiter) (calls : List Call) (t : ℕ)
    → 1 ≤ l.burst
    → Chronological t calls
    → since t (lookup key l.clients) ≤ t
    → grants key l calls * token + l.rate * since t (lookup key l.clients)
      ≤ level l (lookup key l.clients) + l.rate * end_time t calls
unfolding grants
grants_bound key l [] t burst chron past = omega (arith, mul_mono l.rate _ t past)
grants_bound key l ((now, k) ∷ calls) t burst (h, chron) past =
    let s = allow-Spends key k t now l burst h past in
    let times = λ (n : ℕ). ap (λ (r : ℕ). r * n) s.rate in
    omega (
      arith,
      s.spent,
      grants_bound key (allow now k l).1 calls now (omega (arith, s.burst)) chron s.past,
      times (since now (lookup key (allow now k l).1.clients)),
      times (end_time now calls),
    )

end_time_le : (t : ℕ) (calls : List Call) → Chronological t calls → t ≤ end_time t calls
end_time_le t [] chron = omega arith
end_time_le t ((now, k) ∷ calls) (h, chron) = omega (arith, end_time_le now calls chron)

-- From a limiter with a positive burst that has not seen a client, under any calls of any clients at
-- times that do not fall, the client's calls that are let through number at most the burst and the
-- rate times the time that passed.
pub allowed-le-rate :
    (key : String) (l : Limiter) (calls : List Call) (t : ℕ)
    → 1 ≤ l.burst
    → lookup key l.clients ≡ none
    → Chronological t calls
    → grants key l calls * token ≤ l.burst * token + l.rate * (end_time t calls - t)
allowed-le-rate key l calls t burst new chron =
    let bound = grants_bound key l calls t burst chron in
    omega (
      arith,
      elapsed_mul t (end_time t calls) l.rate (end_time_le t calls chron),
      rw new at (bound (rw new (omega arith))),
    )
