-- ===== src/Lifecycle/Plan/Accepted.antt =====
-- A plan made in time never fails, and the mutation writer accepts its events.
use experience_hub.Prelude.{
  ℕ, ◌≤◌, ◌≡◌, refl, ◌∙◌, Bool, true, Option, none, some, arith, ok, Bool-cases, inl, inr, ◌⊎◌,
}
use experience_hub.Floats.{FloatOps}
use experience_hub.Scoring.{LifecycleConfig}
use experience_hub.Experiences.State.{archived, temperature_eq, state_valid}
use experience_hub.Experiences.State.Fields.{temperature_eq→≡}
use experience_hub.Experiences.Writer.Apply.{accepts}
use experience_hub.Lifecycle.Evaluate.{
  LifecycleEvaluation, no_op, latest_anchor, evaluated_recently, evaluate_transition,
}
use experience_hub.Lifecycle.Evaluate.Laws.{
  decided, decided-valid, IsEligible, evaluate_eligible, evaluate_ineligible, IsInRange,
}
use experience_hub.Lifecycle.Plan.{LifecycleRecord, LifecycleMutation, mutation_of, plan_mutation}
use experience_hub.Lifecycle.Plan.Build.{decided-coherent, plan_to, mutation_of-plan}
use experience_hub.Lifecycle.Plan.Checks.{StartsAt, plan-StartsAt, plan-accepted, resulting_valid}

-- What a plan amounts to: no mutation for an experience that is not eligible, and otherwise events
-- that the writer accepts, from the recorded state to a valid one.
abbrev pub IsAccepted :
    FloatOps → LifecycleConfig → LifecycleRecord → ℕ → Option LifecycleMutation → Type 0
IsAccepted ops config r at none =
    (r.state.temperature ≡ archived)
    ⊎ (evaluated_recently ops r.state.last_lifecycle_evaluated_at at config ≡ true)
IsAccepted ops config r at (some m) =
    IsEligible ops config r.state at
    × (accepts config r.experience_id m.resulting_state m.events ≡ true)
    × (state_valid ops m.resulting_state ≡ true)
    × StartsAt r.state at m.events

module _ (ops : FloatOps) (config : LifecycleConfig) (r : LifecycleRecord) (at cycle_id : ℕ)
    (deps : Bool) where
  planned_at :
      latest_anchor r.state r.created_at ≤ r.latest_causal_at
      → r.latest_causal_at ≤ at
      → latest_anchor r.state r.created_at ≤ at
  planned_at h k = omega arith

  plan_mutation-eq :
      (e : LifecycleEvaluation)
      → r.latest_causal_at ≤ at
      → evaluate_transition ops r.state r.created_at at config deps ≡ ok e
      → plan_mutation ops r config at cycle_id deps ≡ mutation_of ops r at cycle_id e
  unfolding plan_mutation
  plan_mutation-eq e le x = ground (arith, x)

  mutation_of-no_op : mutation_of ops r at cycle_id (no_op r.state) ≡ ok none
  unfolding mutation_of
  mutation_of-no_op = refl

  -- If the configured minimum interval and archive age are timedeltas, then for a valid recorded
  -- state whose causal times the record bounds, a plan at a time not before
  -- that bound raises nothing: it is no mutation exactly for an archived or just evaluated
  -- experience, and otherwise its events start from the recorded state, pass every check of the
  -- mutation writer, and end in a valid state.
  pub plan-IsAccepted :
      IsInRange ops config
      → state_valid ops r.state ≡ true
      → r.state.experience_id ≡ r.experience_id
      → latest_anchor r.state r.created_at ≤ r.latest_causal_at
      → r.latest_causal_at ≤ at
      → (plan : Option LifecycleMutation) × (plan_mutation ops r config at cycle_id deps ≡ ok plan)
        × IsAccepted ops config r at plan
  unfolding decided
  plan-IsAccepted ranged v anchor bound le =
      elim (Bool-cases (temperature_eq r.state.temperature archived)) [
        | inl gone ↦ idle (inl gone) (inl (temperature_eq→≡ _ _ gone))
        | inr live ↦
            elim (Bool-cases
              (evaluated_recently ops r.state.last_lifecycle_evaluated_at at config)) [
                | inl recent ↦ idle (inr recent) (inr recent)
                | inr fresh ↦ busy (live, fresh)
              ]
      ]
    where
      e : LifecycleEvaluation
      e = decided ops config r.state r.created_at at deps

      idle :
          (temperature_eq r.state.temperature archived ≡ true)
            ⊎ (evaluated_recently ops r.state.last_lifecycle_evaluated_at at config ≡ true)
          → (r.state.temperature ≡ archived)
            ⊎ (evaluated_recently ops r.state.last_lifecycle_evaluated_at at config ≡ true)
          → (plan : Option LifecycleMutation) × (plan_mutation ops r config at cycle_id deps
              ≡ ok plan)
            × IsAccepted ops config r at plan
      idle h i = (
        none,
        plan_mutation-eq (no_op r.state) le (
              evaluate_ineligible ops config r.state r.created_at at deps ranged v
                (planned_at bound le) h)
            ∙ mutation_of-no_op,
        i,
      )

      busy :
          IsEligible ops config r.state at
          → (plan : Option LifecycleMutation) × (plan_mutation ops r config at cycle_id deps
              ≡ ok plan)
            × IsAccepted ops config r at plan
      busy el =
          let fits = decided-coherent ops config r.state r.created_at at deps in
          (
            some (plan_to ops config r at cycle_id e anchor e.transition),
            plan_mutation-eq e le (
                  evaluate_eligible ops config r.state r.created_at at deps ranged v
                    (planned_at bound le) el)
                ∙ mutation_of-plan ops config r at cycle_id e anchor e.transition refl refl fits,
            (
              el,
              plan-accepted ops config r at cycle_id e anchor e.transition fits,
              resulting_valid ops config r at cycle_id e anchor e.transition v
                  (decided-valid ops config r.state r.created_at at deps v),
              plan-StartsAt ops config r at cycle_id e anchor e.transition,
            ),
          )
