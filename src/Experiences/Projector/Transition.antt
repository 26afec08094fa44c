-- ===== src/Experiences/Projector/Transition.antt =====
-- _apply_temperature_changed of src/experience_hub/experiences/projector.py: the predecessor that
-- each cause demands.
use experience_hub.Prelude.{
  ℕ, Bool, true, false, not, ◌&&◌, Option, none, some, ltb, ◌==◌, opt_eq, if◌then◌else◌, Result,
  ◌>>=◌, ◌>>◌,
}
use experience_hub.Scoring.{LifecycleConfig}
use experience_hub.Experiences.State.{State, warm, temperature_eq, state_eq}
use experience_hub.Experiences.Events.{
  Payload, ThresholdTarget, promote_hot, demote_warm, demote_cold, Cause, cold_reactivation,
  confirmation, pin, lifecycle_activation, lifecycle_demotion, policy_archive, restore,
  capsule_corroboration, reactivated, confirmed, pinned, corroborated, archived_event, restored,
}
use experience_hub.Storage.EventStore.{StoredEvent}
use experience_hub.Experiences.Projector.Sources.{Sources, Decoded, of_experience, checked}
use experience_hub.Experiences.Projector.Context.{StateContext}
use experience_hub.Experiences.Projector.Checks.{
  evaluation_in, target_eq, prior_payload, require_paired_predecessor,
}

-- `after` of a payload of one class.
abbrev reactivated_in : Decoded → Option State
reactivated_in (of_experience (reactivated _ _ _ _ _ a)) = some a
reactivated_in _ = none

abbrev confirmed_in : Decoded → Option State
confirmed_in (of_experience (confirmed _ _ _ _ a)) = some a
confirmed_in _ = none

abbrev pinned_in : Decoded → Option State
pinned_in (of_experience (pinned _ _ _ a)) = some a
pinned_in _ = none

abbrev corroborated_in : Decoded → Option State
corroborated_in (of_experience (corroborated _ _ _ _ _ _ a)) = some a
corroborated_in _ = none

abbrev restored_in : Decoded → Option State
restored_in (of_experience (restored _ _ _ a)) = some a
restored_in _ = none

abbrev archiving_in : Decoded → Option (ℕ × State)
archiving_in (of_experience (archived_event _ cycle_id _ _ a)) = some (cycle_id, a)
archiving_in _ = none

-- isinstance(...) and prior_payload.after == payload.before
abbrev left_state : Option State → State → Bool
left_state none b = false
left_state (some a) b = state_eq a b

abbrev archived_by : Option (ℕ × State) → Option ℕ → State → Bool
archived_by none cycle_id b = false
archived_by (some (prior_cycle, a)) cycle_id b = state_eq a b && opt_eq (some prior_cycle) cycle_id

abbrev evaluated_to :
    Option (ℕ × ThresholdTarget × State)
    → Option ℕ
    → State
    → ThresholdTarget
    → (State → Bool)
    → Bool
evaluated_to none cycle_id b expected enough = false
evaluated_to (some (prior_cycle, goal, a)) cycle_id b expected enough =
    state_eq a b && opt_eq (some prior_cycle) cycle_id && target_eq goal expected && enough a

module _ (config : LifecycleConfig) where
  unfoldable pub predecessor_fits : Cause → Option ℕ → State → State → Decoded → Bool
  predecessor_fits cold_reactivation cycle_id b a prior = left_state (reactivated_in prior) b
  predecessor_fits confirmation cycle_id b a prior = left_state (confirmed_in prior) b
  predecessor_fits pin cycle_id b a prior = left_state (pinned_in prior) b
  predecessor_fits capsule_corroboration cycle_id b a prior = left_state (corroborated_in prior) b
  predecessor_fits lifecycle_activation cycle_id b a prior =
      evaluated_to (evaluation_in prior) cycle_id b promote_hot (λ s. true)
  predecessor_fits lifecycle_demotion cycle_id b a prior =
      evaluated_to (evaluation_in prior) cycle_id b
        (if temperature_eq a.temperature warm then demote_warm else demote_cold)
        (λ s. not (ltb s.consecutive_below_threshold config.demotion_cycles))
  predecessor_fits policy_archive cycle_id b a prior = archived_by (archiving_in prior) cycle_id b
  predecessor_fits restore cycle_id b a prior = left_state (restored_in prior) b

  unfoldable pub temperature_changed_checks :
      {P C : Type 0}
      → Sources P C
      → StoredEvent Payload
      → StateContext P
      → Cause
      → Option ℕ
      → State
      → State
      → Result (Unit {0})
  unfolding predecessor_fits require_paired_predecessor
  temperature_changed_checks sources event context cause cycle_id b a = do
    checked (a.last_transition_at == event.row.occurred_at)
    prior ← prior_payload sources context.prior_event
    checked (predecessor_fits cause cycle_id b a prior)
    require_paired_predecessor event context.prior_event
