-- ===== src/Sharing/Confidence/Bounds.antt =====
-- Confidence stays in the unit interval, whatever the observer's record.
use experience_hub.Prelude.{ℕ, ◌+◌, ◌≤◌, ◌≡◌, refl, some, arith, ok}
use experience_hub.Floats.{FloatOps}
use experience_hub.Scoring.{one}
use experience_hub.Experiences.Events.Valid.{corroborated_confidence}
use experience_hub.Sharing.Confidence.{
  observer_trust, initial_adoption_confidence, corroboration_delta,
}

module _ (ops : FloatOps) where
  trust_unit : (alpha beta : ℕ) → 2 ≤ alpha → ops.ratio alpha (alpha + beta) ≤ one ops
  trust_unit alpha beta h =
      ops.ratio_cross alpha (alpha + beta) 1 1 (omega arith) (omega arith) (omega arith)

  trust_grows :
      (alpha beta more : ℕ)
      → 2 ≤ alpha
      → ops.ratio alpha (alpha + beta) ≤ ops.ratio (alpha + more) (alpha + more + beta)
  trust_grows alpha beta more h =
      ops.ratio_cross alpha (alpha + beta) (alpha + more) (alpha + more + beta) (omega arith)
        (omega arith) (grind arith)

  -- For counts of at least two and a publisher's confidence between 0 and 1, trust and adopted
  -- confidence are defined; trust is at most 1, the adopted confidence is at most the publisher's,
  -- and more successes lower neither.
  pub adoption-Bounded :
      (alpha beta more publisher_confidence : ℕ)
      → 2 ≤ alpha
      → 2 ≤ beta
      → publisher_confidence ≤ one ops
      → (trust trust' c c' : ℕ) × (observer_trust ops (some alpha) (some beta) ≡ ok trust)
        × (observer_trust ops (some (alpha + more)) (some beta) ≡ ok trust')
        × (initial_adoption_confidence ops publisher_confidence trust ≡ ok c)
        × (initial_adoption_confidence ops publisher_confidence trust' ≡ ok c')
        × (trust ≤ one ops)
        × (trust ≤ trust')
        × (c ≤ publisher_confidence)
        × (c ≤ c')
  unfolding observer_trust initial_adoption_confidence
  adoption-Bounded alpha beta more p h k u =
      let t : ℕ = ops.ratio alpha (alpha + beta) in
      let t' : ℕ = ops.ratio (alpha + more) (alpha + more + beta) in
      let b = trust_unit alpha beta h in
      let b' = trust_unit (alpha + more) beta (omega arith) in
      let grows = trust_grows alpha beta more h in
      (
        t,
        t',
        ops.mul p t,
        ops.mul p t',
        ground arith,
        ground arith,
        ground arith,
        ground arith,
        b,
        grows,
        ops.mul_shrinks p t b,
        ops.mul_mono p t p t' (omega arith) grows,
      )

  -- For a confidence and a trust between 0 and 1 the contribution of a corroboration is defined;
  -- adding it gives the confidence that the corroborated event prescribes, which is no lower than
  -- before and at most 1.
  pub corroboration-Bounded :
      (current trust : ℕ)
      → current ≤ one ops
      → trust ≤ one ops
      → (delta : ℕ) × (corroboration_delta ops current trust ≡ ok delta)
        × (corroborated_confidence ops current trust ≡ ops.add current delta)
        × (current ≤ ops.add current delta)
        × (ops.add current delta ≤ one ops)
  unfolding corroboration_delta corroborated_confidence
  corroboration-Bounded current trust c t =
      let room : ℕ = ops.sub (one ops) current in
      let fifth : ops.ratio 20 100 ≤ one ops =
        ops.ratio_cross 20 100 1 1 (omega arith) (omega arith) (omega arith) in
      let weighted : ℕ = ops.mul room (ops.ratio 20 100) in
      let s = ops.mul_shrinks room (ops.ratio 20 100) fifth in
      let s' = ops.mul_shrinks weighted trust t in
      let delta : ℕ = ops.mul weighted trust in
      let mono = ops.add_mono current delta current room (omega arith) (omega arith) in
      let top = ops.complement current c in
      (delta, ground arith, refl, ops.add_grows current delta, omega arith)
