-- ===== src/Tests/Scores.antt =====
-- Examples for Scoring, Sharing and the lease.
use experience_hub.Prelude.{
  ℕ, ◌+◌, ◌≤◌, ◌<◌, ◌≡◌, ◌⊎◌, refl, none, some, [], ◌∷◌, true, false, arith, ltb, if◌then◌else◌, ok,
}
use experience_hub.Scoring.{
  ActivationResult, AccessUpdate, one, inputs_valid, causal_anchor, record_access, activation_at,
}
use experience_hub.Scoring.Laws.{accessed, activation_decays, record_access_lem}
use experience_hub.Experiences.Events.Valid.{corroborated_confidence}
use experience_hub.Sharing.Confidence.{
  observer_trust, initial_adoption_confidence, corroboration_delta,
}
use experience_hub.Sharing.Confidence.Bounds.{adoption-Bounded, corroboration-Bounded}
use experience_hub.Lifecycle.Lease.{claim, release, claim_lease, release_lease, steps}
use experience_hub.Lifecycle.Lease.Exclusion.{held, claim-Exclusive}
use experience_hub.Tests.Fixed.{fixed}
use experience_hub.Tests.Samples.{config, day, inputs}

activation_decays_example :
    (r r' : ActivationResult) × (activation_at fixed inputs day config ≡ some r)
    × (activation_at fixed inputs (day + day) config ≡ some r')
    × (r.score ≤ one fixed)
    × (r.recency ≤ one fixed)
    × (r.frequency ≤ one fixed)
    × (r.decayed_strength ≤ 2500)
    × (r'.score ≤ r.score)
    × (r'.recency ≤ r.recency)
    × (r'.frequency ≤ r.frequency)
    × (r'.decayed_strength ≤ r.decayed_strength)
unfolding inputs_valid
activation_decays_example = activation_decays fixed inputs config day (day + day) refl (omega arith)

record_access_lem_example :
    (u : AccessUpdate) × (record_access fixed inputs day config
      ≡ (if ltb day (causal_anchor fixed inputs) then none else some u))
    × (u.access_count ≡ 4)
    × (inputs_valid fixed (accessed fixed inputs config u) ≡ true)
    × ((day < causal_anchor fixed inputs)
        ⊎ (causal_anchor fixed (accessed fixed inputs config u) ≡ day))
unfolding inputs_valid
record_access_lem_example = record_access_lem fixed inputs config day refl

adoption-Bounded_example :
    (trust trust' c c' : ℕ) × (observer_trust fixed (some 3) (some 2) ≡ ok trust)
    × (observer_trust fixed (some 7) (some 2) ≡ ok trust')
    × (initial_adoption_confidence fixed 800 trust ≡ ok c)
    × (initial_adoption_confidence fixed 800 trust' ≡ ok c')
    × (trust ≤ one fixed)
    × (trust ≤ trust')
    × (c ≤ 800)
    × (c ≤ c')
adoption-Bounded_example =
    adoption-Bounded fixed 3 2 4 800 (omega arith) (omega arith) (omega arith)

corroboration-Bounded_example :
    (delta : ℕ) × (corroboration_delta fixed 400 600 ≡ ok delta)
    × (corroborated_confidence fixed 400 600 ≡ fixed.add 400 delta)
    × (400 ≤ fixed.add 400 delta)
    × (fixed.add 400 delta ≤ one fixed)
corroboration-Bounded_example = corroboration-Bounded fixed 400 600 (omega arith) (omega arith)

claim-Exclusive_example :
    (steps (held 5 1000 300) (claim 6 1100 300 ∷ release 6 ∷ []) ≡ held 5 1000 300)
    × (claim_lease (steps (held 5 1000 300) (claim 6 1100 300 ∷ release 6 ∷ [])) 8 1200 300
        ≡ ok (false, held 5 1000 300))
    × ((release_lease (steps (held 5 1000 300) (claim 6 1100 300 ∷ release 6 ∷ [])) 5).0 ≡ true)
unfolding claim_lease
claim-Exclusive_example =
    claim-Exclusive 5 1000 300 none (held 5 1000 300) (claim 6 1100 300 ∷ release 6 ∷ []) 8 1200 300
      refl (((λ e. cc), omega arith), ((λ e. cc), tt)) (λ e. cc) (omega arith) (omega arith)
