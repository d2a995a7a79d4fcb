-- ===== src/Intake/Pool/Rate.antt =====
-- How many uploads of one tenant the pool lets in over time.
use doc_lens.Base.{
  ℕ, ◌+◌, ◌-◌, ◌*◌, ◌≤◌, String, ◌≡◌, refl, ap, inl, inr, List, [], ◌∷◌, none, arith, eq_iff, ◌==◌,
  string_eq, lookup, ok, err, Bool-cases, if◌then◌else◌,
}
use doc_lens.Intake.Pool.{
  token, UploadPool, acquire, failure, release, success, Event, acquires, releases, succeeds, fails,
  step,
}
use doc_lens.Intake.Pool.Spending.{
  level, since, Spends, mul_mono, elapsed_mul, same_buckets, acquire-Spends, acquire_other,
}

-- 1 if the event is an upload of `org` that is let in.
unfoldable pub granted : String → UploadPool → Event → ℕ
granted org p (acquires now o) =
    if o == org then elim (acquire now o p).0 [ ok _ ↦ 1 | err _ ↦ 0 ] else 0
granted org p _ = 0

-- How many uploads of `org` are let in.
unfoldable pub grants : String → UploadPool → List Event → ℕ
grants org p [] = 0
grants org p (e ∷ es) = granted org p e + grants org (step p e) es

abbrev pub time_after : ℕ → Event → ℕ
time_after t (acquires now o) = now
time_after t (fails now) = now
time_after t _ = t

-- The events' times do not fall, from `t` on.
abbrev pub Chronological : ℕ → List Event → Type 0
Chronological t [] = Unit
Chronological t (e ∷ es) = (t ≤ time_after t e) × Chronological (time_after t e) es

abbrev pub end_time : ℕ → List Event → ℕ
end_time t [] = t
end_time t (e ∷ es) = end_time (time_after t e) es

failure_other :
    (p : UploadPool) (now : ℕ)
    → ((failure now p).tenants ≡ p.tenants)
      × ((failure now p).tenant_rate ≡ p.tenant_rate)
      × ((failure now p).tenant_burst ≡ p.tenant_burst)
unfolding failure
failure_other p now = (ground arith, ground arith, ground arith)

step-Spends :
    (p : UploadPool) (e : Event) (t : ℕ) (org : String)
    → t ≤ time_after t e
    → since t (lookup org p.tenants) ≤ t
    → Spends org t (time_after t e) (granted org p e) p (step p e)
unfolding step granted release success
step-Spends p (acquires now o) t org h past = elim (Bool-cases (o == org)) [
  | inl same ↦
      let e : o ≡ org = (eq_iff o org).0 same in rw same (rw e (acquire-Spends p now t org h past))
  | inr other ↦
      let (l, r, b) = acquire_other p now org o other in
      rw other (same_buckets org t now p _ l r b h past)
]
step-Spends p releases t org h past = same_buckets org t t p _ refl refl refl h past
step-Spends p succeeds t org h past = same_buckets org t t p _ refl refl refl h past
step-Spends p (fails now) t org h past =
    let (l, r, b) = failure_other p now in same_buckets org t now p _ (ap (lookup org) l) r b h past

grants_bound :
    (p : UploadPool) (es : List Event) (t : ℕ) (org : String)
    → Chronological t es
    → since t (lookup org p.tenants) ≤ t
    → grants org p es * token + p.tenant_rate * since t (lookup org p.tenants)
      ≤ level p (lookup org p.tenants) + p.tenant_rate * end_time t es
unfolding grants
grants_bound p [] t org chron past = omega (arith, mul_mono p.tenant_rate _ t past)
grants_bound p (e ∷ es) t org (h, chron) past =
    let k = step-Spends p e t org h past in
    let times = λ (n : ℕ). ap (λ (r : ℕ). r * n) k.rate in
    omega (
      arith,
      k.spent,
      grants_bound (step p e) es (time_after t e) org chron k.past,
      times (since (time_after t e) (lookup org (step p e).tenants)),
      times (end_time (time_after t e) es),
    )

end_time_le : (t : ℕ) (es : List Event) → Chronological t es → t ≤ end_time t es
end_time_le t [] chron = omega arith
end_time_le t (e ∷ es) (h, chron) = omega (arith, end_time_le (time_after t e) es chron)

-- From a pool in which a tenant has no bucket, under any events of any tenants at times that do
-- not fall, the tenant's uploads that are let in number at most the burst and the rate times the
-- time that passed.
pub grants-le-rate :
    (p : UploadPool) (es : List Event) (t : ℕ) (org : String)
    → lookup org p.tenants ≡ none
    → Chronological t es
    → grants org p es * token ≤ p.tenant_burst * token + p.tenant_rate * (end_time t es - t)
grants-le-rate p es t org new chron =
    let bound = grants_bound p es t org chron in
    omega (
      arith,
      elapsed_mul t (end_time t es) p.tenant_rate (end_time_le t es chron),
      rw new at (bound (rw new (omega arith))),
    )
