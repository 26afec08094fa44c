-- ===== src/Lifecycle/Plan/Shape.antt =====
-- A plan is for its record, and archives only with a transition.
use experience_hub.Prelude.{
  Result, err, ℕ, ◌≡◌, refl, Bool, false, not, ◌&&◌, Option, none, some, ◌∷◌, ◌++◌, arith, ok,
  is_some, ok-injective, >>=-eq-ok, Bool-cases, inl, inr, ltb,
}
use mathlib.Core.Option.{some-injective}
use experience_hub.Floats.{FloatOps}
use experience_hub.Scoring.{LifecycleConfig}
use experience_hub.Experiences.State.{Temperature}
use experience_hub.Experiences.Events.{lifecycle_evaluated}
use experience_hub.Lifecycle.Evaluate.{LifecycleEvaluation}
use experience_hub.Lifecycle.Plan.{
  LifecycleRecord, LifecycleMutation, is_archived, experience_event, archive_events,
  transition_events, mutation_of, planned, plan_mutation, evaluated_state,
}

-- The parts of a mutation that a run relies on.
abbrev pub IsPlanOf : LifecycleRecord → LifecycleMutation → Type 0
IsPlanOf r m = (m.lifecycle_record ≡ r) × ((m.archives && not m.transitioned) ≡ false)

archives_transition : (t : Option Temperature) → (is_archived t && not (is_some t)) ≡ false
archives_transition none = refl
archives_transition (some t) = ground arith

module _ (ops : FloatOps) (config : LifecycleConfig) (r : LifecycleRecord) (at cycle_id : ℕ)
    (deps : Bool) where
  mutation_of-IsPlanOf :
      (e : LifecycleEvaluation) (m : LifecycleMutation)
      → mutation_of ops r at cycle_id e ≡ ok (some m)
      → IsPlanOf r m
  unfolding mutation_of evaluated_state experience_event
  mutation_of-IsPlanOf e m h = elim (Bool-cases e.eligible) [
    | inl t ↦
        let (first, u, h₁) =
          >>=-eq-ok
            (experience_event ops r at (
              lifecycle_evaluated r.experience_id cycle_id at e.threshold_target r.state
                (evaluated_state r.state at e)))
            _ (rw (t, mutation_of) at h) in
        let (archive, v, h₂) =
          >>=-eq-ok
            (archive_events ops r at cycle_id (evaluated_state r.state at e)
              (is_archived e.transition))
            _ h₁ in
        let (change, w, h₃) =
          >>=-eq-ok
            (transition_events ops r at cycle_id (evaluated_state r.state at e) e.transition) _
            h₂ in
        let built : LifecycleMutation = record {
          lifecycle_record = r;
          resulting_state = change.1;
          events = first ∷ archive ++ change.0;
          transitioned = is_some e.transition;
          archives = is_archived e.transition;
        } in
        let same : built ≡ m = some-injective built m (ok-injective h₃) in
        rw (← same) (refl, archives_transition e.transition)
    | inr f ↦ let none_of = ok-injective (rw (f, mutation_of) at h) in cc
  ]

  planned-IsPlanOf :
      (e : Result LifecycleEvaluation) (m : LifecycleMutation)
      → planned ops r at cycle_id e ≡ ok (some m)
      → IsPlanOf r m
  unfolding planned
  planned-IsPlanOf (err e) m h = ground (arith, h)
  planned-IsPlanOf (ok e) m h = mutation_of-IsPlanOf e m h

  pub plan_mutation-IsPlanOf :
      (m : LifecycleMutation)
      → plan_mutation ops r config at cycle_id deps ≡ ok (some m)
      → IsPlanOf r m
  unfolding plan_mutation planned
  plan_mutation-IsPlanOf m h = elim (Bool-cases (ltb at r.latest_causal_at)) [
    | inl t ↦ let raised = rw (t, plan_mutation) at h in cc
    | inr f ↦ planned-IsPlanOf _ m (rw (f, plan_mutation) at h)
  ]
