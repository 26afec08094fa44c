-- ===== src/Lifecycle/Evaluate/Decisions.antt =====
-- What evaluate_transition decides: demotion with hysteresis, archival, and the pin.
use experience_hub.Prelude.{
  ℕ, ◌+◌, ◌-◌, ◌≤◌, ◌<◌, ◌≡◌, ◌⊎◌, inl, inr, ◌↔◌, Bool, true, false, none, some, ok, arith,
  Bool-cases, min, ltb, if◌then◌else◌,
}
use experience_hub.Floats.{FloatOps}
use experience_hub.Scoring.{LifecycleConfig, config_valid}
use experience_hub.Experiences.State.{
  State, Temperature, hot, warm, cold, archived, temperature_eq, state_valid,
}
use experience_hub.Experiences.Events.{ThresholdTarget, demote_warm, demote_cold}
use experience_hub.Lifecycle.Evaluate.{
  LifecycleEvaluation, no_op, latest_anchor, evaluated_recently, archive_due, target_of,
  counter_after_target, transition_after, evaluate_transition,
}
use experience_hub.Lifecycle.Evaluate.Laws.{
  scores, goal, decided, IsEligible, evaluate_eligible, evaluate_ineligible, IsInRange,
}

-- The threshold below which an unpinned experience counts towards its demotion, and what it is
-- demoted to.
abbrev pub IsBelow : LifecycleConfig → State → ℕ → Type 0
IsBelow config state score =
    (state.pinned ≡ false)
    × ((state.temperature ≡ hot) × (score < config.hot_to_warm_threshold)
        ⊎ (state.temperature ≡ warm) × (score < config.warm_to_cold_threshold))

abbrev pub cooler : Temperature → Temperature
cooler hot = warm
cooler warm = cold
cooler t = t

abbrev is_demotion : ThresholdTarget → Bool
is_demotion demote_warm = true
is_demotion demote_cold = true
is_demotion _ = false

module _ (ops : FloatOps) (config : LifecycleConfig) (state : State) (created_at at : ℕ)
    (deps : Bool) where
  -- If the configured intervals are timedeltas, an eligible evaluation below the threshold counts
  -- one more, up to the configured number of cycles, and demotes by one temperature exactly when
  -- the count reaches that number.
  pub demotion_hysteresis :
      config_valid ops config ≡ true
      → IsInRange ops config
      → state_valid ops state ≡ true
      → latest_anchor state created_at ≤ at
      → IsEligible ops config state at
      → IsBelow config state (scores ops config state created_at at deps).score
      → (e : LifecycleEvaluation) × (evaluate_transition ops state created_at at config deps ≡ ok e)
        × (e.counter_after ≡ min config.demotion_cycles (state.consecutive_below_threshold + 1))
        × (e.transition ≡ (
            if ltb (state.consecutive_below_threshold + 1) config.demotion_cycles
            then none
            else some (cooler state.temperature)))
  unfolding decided goal target_of counter_after_target transition_after config_valid
  demotion_hysteresis c fits v le el below = (
    decided ops config state created_at at deps,
    evaluate_eligible ops config state created_at at deps fits v le el,
    ground arith,
    ground arith,
  )

  demotion-IsBelow :
      is_demotion (goal ops config state created_at at deps) ≡ true
      → IsBelow config state (scores ops config state created_at at deps).score
  unfolding goal target_of
  demotion-IsBelow h = ground arith

  no_demotion_resets :
      is_demotion (goal ops config state created_at at deps) ≡ false
      → ((decided ops config state created_at at deps).counter_after ≡ 0)
        × (((decided ops config state created_at at deps).transition ≡ none)
            ⊎ ((decided ops config state created_at at deps).transition ≡ some hot)
            ⊎ ((decided ops config state created_at at deps).transition ≡ some archived))
  unfolding decided counter_after_target transition_after
  no_demotion_resets h = (ground arith, ground arith)

  -- If the configured intervals are timedeltas, at or above the threshold an eligible evaluation of
  -- a hot or warm experience resets the count and does not demote; so does every eligible
  -- evaluation of a cold one.
  pub recovery_resets :
      IsInRange ops config
      → state_valid ops state ≡ true
      → latest_anchor state created_at ≤ at
      → IsEligible ops config state at
      → ¬ IsBelow config state (scores ops config state created_at at deps).score
      → (e : LifecycleEvaluation) × (evaluate_transition ops state created_at at config deps ≡ ok e)
        × (e.counter_after ≡ 0)
        × ((e.transition ≡ none) ⊎ (e.transition ≡ some hot) ⊎ (e.transition ≡ some archived))
  recovery_resets fits v le el above =
      elim (Bool-cases (is_demotion (goal ops config state created_at at deps))) [
        | inl h ↦ absurd (above (demotion-IsBelow h))
        | inr h ↦ (
          decided ops config state created_at at deps,
          evaluate_eligible ops config state created_at at deps fits v le el,
          (no_demotion_resets h).0,
          (no_demotion_resets h).1,
        )
      ]

  -- The conditions of archival.
  abbrev pub IsArchivable : Type 0
  IsArchivable =
      (state.temperature ≡ cold)
      × (evaluated_recently ops state.last_lifecycle_evaluated_at at config ≡ false)
      × (state.pinned ≡ false)
      × (deps ≡ false)
      × (ops.timedelta_days config.archive_after_days ≤ at - state.last_transition_at)
      × (state.importance < config.archive_importance_threshold)
      × (state.confidence < config.archive_confidence_threshold)
      × ((scores ops config state created_at at deps).decayed_strength
          < config.archive_strength_threshold)

  decided_archives :
      evaluated_recently ops state.last_lifecycle_evaluated_at at config ≡ false
      → ((decided ops config state created_at at deps).transition ≡ some archived) ↔ IsArchivable
  unfolding decided goal target_of counter_after_target transition_after archive_due
  decided_archives fresh = (λ h. ground arith, λ h. ground arith)

  no_op_archives :
      (temperature_eq state.temperature archived ≡ true)
        ⊎ (evaluated_recently ops state.last_lifecycle_evaluated_at at config ≡ true)
      → ((no_op state).transition ≡ some archived) ↔ IsArchivable
  no_op_archives h = (λ e. cc, λ c. ground arith)

  -- If the configured intervals are timedeltas, an evaluation archives exactly a cold experience
  -- that is not pinned, was not evaluated within the minimum interval, has no active dependents,
  -- has been cold for the configured days, and whose importance, confidence and decayed strength
  -- are all below their thresholds.
  pub archive_exact :
      IsInRange ops config
      → state_valid ops state ≡ true
      → latest_anchor state created_at ≤ at
      → (e : LifecycleEvaluation) × (evaluate_transition ops state created_at at config deps ≡ ok e)
        × ((e.transition ≡ some archived) ↔ IsArchivable)
  archive_exact fits v le = elim (Bool-cases (temperature_eq state.temperature archived)) [
    | inl gone ↦ idle (inl gone)
    | inr live ↦
        elim (Bool-cases (evaluated_recently ops state.last_lifecycle_evaluated_at at config)) [
          | inl recent ↦ idle (inr recent)
          | inr fresh ↦ (
            decided ops config state created_at at deps,
            evaluate_eligible ops config state created_at at deps fits v le (live, fresh),
            decided_archives fresh,
          )
        ]
  ]
    where
      idle :
          (temperature_eq state.temperature archived ≡ true)
            ⊎ (evaluated_recently ops state.last_lifecycle_evaluated_at at config ≡ true)
          → (e : LifecycleEvaluation) × (evaluate_transition ops state created_at at config deps
              ≡ ok e)
            × ((e.transition ≡ some archived) ↔ IsArchivable)
      idle h = (
        no_op state,
        evaluate_ineligible ops config state created_at at deps fits v le h,
        no_op_archives h,
      )
