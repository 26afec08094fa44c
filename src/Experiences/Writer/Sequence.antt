-- ===== src/Experiences/Writer/Sequence.antt =====
-- _require_exact_lifecycle_sequence and its two helpers, of
-- src/experience_hub/experiences/transitions.py: `false` is the ValueError.
use experience_hub.Prelude.{
  ℕ, Bool, true, false, not, ◌&&◌, ◌||◌, Option, some, List, [], ◌∷◌, leb, ◌==◌, opt_eq, is_some,
  if◌then◌else◌, length, any,
}
use experience_hub.Scoring.{LifecycleConfig}
use experience_hub.Experiences.State.{State, hot, cold, archived, temperature_eq}
use experience_hub.Experiences.Events.{
  Payload, temperature_changed, lifecycle_evaluated, confirmed, refuted, corroborated, pinned,
  unpinned, archived_event, restored, Cause, cold_reactivation, confirmation, pin,
  lifecycle_activation, lifecycle_demotion, policy_archive, restore, capsule_corroboration,
  ThresholdTarget, no_target, promote_hot, archive,
}

abbrev pub cause_eq : Cause → Cause → Bool
cause_eq cold_reactivation cold_reactivation = true
cause_eq confirmation confirmation = true
cause_eq pin pin = true
cause_eq lifecycle_activation lifecycle_activation = true
cause_eq lifecycle_demotion lifecycle_demotion = true
cause_eq policy_archive policy_archive = true
cause_eq restore restore = true
cause_eq capsule_corroboration capsule_corroboration = true
cause_eq _ _ = false

-- isinstance tests
abbrev pub is_corroborated : Payload → Bool
is_corroborated (corroborated _ _ _ _ _ _ _) = true
is_corroborated _ = false

abbrev pub is_confirmed : Payload → Bool
is_confirmed (confirmed _ _ _ _ _) = true
is_confirmed _ = false

abbrev pub is_pinned : Payload → Bool
is_pinned (pinned _ _ _ _) = true
is_pinned _ = false

abbrev pub is_restored : Payload → Bool
is_restored (restored _ _ _ _) = true
is_restored _ = false

-- `isinstance(p, ExperienceTemperatureChangedV1) and p.cause == cause`
abbrev pub changes_by : Cause → Payload → Bool
changes_by cause (temperature_changed _ c _ _ _) = cause_eq c cause
changes_by cause _ = false

abbrev pub is_capsule_event : Payload → Bool
is_capsule_event p = is_corroborated p || changes_by capsule_corroboration p

-- task6_temperature_causes
abbrev pub is_protocol_cause : Cause → Bool
is_protocol_cause cold_reactivation = false
is_protocol_cause capsule_corroboration = false
is_protocol_cause _ = true

-- An instance of task6_payload_types, or a temperature change for one of the causes.
abbrev pub is_protocol_event : Payload → Bool
is_protocol_event (archived_event _ _ _ _ _) = true
is_protocol_event (confirmed _ _ _ _ _) = true
is_protocol_event (lifecycle_evaluated _ _ _ _ _ _) = true
is_protocol_event (pinned _ _ _ _) = true
is_protocol_event (refuted _ _ _ _ _) = true
is_protocol_event (restored _ _ _ _) = true
is_protocol_event (unpinned _ _ _ _) = true
is_protocol_event (temperature_changed _ cause _ _ _) = is_protocol_cause cause
is_protocol_event _ = false

unfoldable pub matches_temperature_sequence : (Payload → Bool) → Cause → List Payload → Bool
matches_temperature_sequence is_head cause (p ∷ temperature_changed _ c cycle_id _ _ ∷ []) =
    is_head p && cause_eq c cause && not (is_some cycle_id)
matches_temperature_sequence is_head cause _ = false

unfoldable pub matches_lifecycle_temperature_sequence : ℕ → Cause → List Payload → Bool
matches_lifecycle_temperature_sequence first_cycle cause
      (p ∷ temperature_changed _ c cycle_id _ _ ∷ []) =
    cause_eq c cause && opt_eq cycle_id (some first_cycle)
matches_lifecycle_temperature_sequence first_cycle cause _ = false

unfoldable pub matches_archive_sequence : ℕ → List Payload → Bool
matches_archive_sequence first_cycle
      (p ∷ archived_event _ archive_cycle _ _ _ ∷ temperature_changed _ c cycle_id _ _ ∷ []) =
    archive_cycle == first_cycle && cause_eq c policy_archive && opt_eq cycle_id (some first_cycle)
matches_archive_sequence first_cycle _ = false

unfoldable pub head_is : (Payload → Bool) → List Payload → Bool
head_is test [] = false
head_is test (p ∷ _) = test p

-- The corroboration branch.
unfoldable pub exact_corroboration : List Payload → State → Bool → Bool
unfolding matches_temperature_sequence head_is
exact_corroboration payloads first_before by_owner =
    by_owner
    && not (temperature_eq first_before.temperature archived)
    && head_is is_corroborated payloads
    && (if temperature_eq first_before.temperature cold
        then matches_temperature_sequence is_corroborated capsule_corroboration payloads
        else length payloads == 1)

-- The branch of a lifecycle evaluation, by its threshold target.
unfoldable pub exact_evaluation :
    ThresholdTarget → ℕ → State → List Payload → LifecycleConfig → Bool
unfolding matches_lifecycle_temperature_sequence matches_archive_sequence
exact_evaluation no_target cycle_id a payloads config = length payloads == 1
exact_evaluation promote_hot cycle_id a payloads config =
    matches_lifecycle_temperature_sequence cycle_id lifecycle_activation payloads
exact_evaluation archive cycle_id a payloads config = matches_archive_sequence cycle_id payloads
exact_evaluation _ cycle_id a payloads config =
    if leb config.demotion_cycles a.consecutive_below_threshold
    then matches_lifecycle_temperature_sequence cycle_id lifecycle_demotion payloads
    else length payloads == 1

-- The branches on the first payload.
unfoldable pub exact_from_head :
    Payload → List Payload → State → Bool → Option ℕ → LifecycleConfig → Bool
unfolding matches_temperature_sequence exact_evaluation
exact_from_head (confirmed _ _ _ _ _) payloads first_before by_owner actor config =
    by_owner
    && not (temperature_eq first_before.temperature archived)
    && (if temperature_eq first_before.temperature hot
        then length payloads == 1
        else matches_temperature_sequence is_confirmed confirmation payloads)
exact_from_head (refuted _ _ _ _ _) payloads first_before by_owner actor config =
    by_owner && not (temperature_eq first_before.temperature archived) && length payloads == 1
exact_from_head (pinned _ _ _ _) payloads first_before by_owner actor config =
    by_owner
    && not (temperature_eq first_before.temperature archived)
    && (if temperature_eq first_before.temperature hot
        then length payloads == 1
        else matches_temperature_sequence is_pinned pin payloads)
exact_from_head (unpinned _ _ _ _) payloads first_before by_owner actor config =
    by_owner && not (temperature_eq first_before.temperature archived) && length payloads == 1
exact_from_head (restored _ _ _ _) payloads first_before by_owner actor config =
    by_owner
    && temperature_eq first_before.temperature archived
    && matches_temperature_sequence is_restored restore payloads
exact_from_head (lifecycle_evaluated _ cycle_id _ goal _ a) payloads first_before by_owner actor
      config =
    not (is_some actor) && exact_evaluation goal cycle_id a payloads config
exact_from_head _ payloads first_before by_owner actor config = false

abbrev pub exact_protocol :
    List Payload → List Payload → State → Bool → Option ℕ → LifecycleConfig → Bool
exact_protocol [] payloads first_before by_owner actor config = false
exact_protocol (p ∷ _) payloads first_before by_owner actor config =
    exact_from_head p payloads first_before by_owner actor config

-- _require_exact_lifecycle_sequence
unfoldable pub exact_lifecycle_sequence :
    List Payload → State → Option ℕ → ℕ → LifecycleConfig → Bool
unfolding exact_corroboration exact_from_head
exact_lifecycle_sequence payloads first_before actor owner config =
    let by_owner : Bool = opt_eq actor (some owner) in
    if any is_capsule_event payloads
    then exact_corroboration payloads first_before by_owner
    else if any is_protocol_event payloads
    then exact_protocol payloads payloads first_before by_owner actor config
    else true
