-- ===== src/Tests/Projections.antt =====
-- Examples for the projector: an experience that is created and pinned.
use experience_hub.Prelude.{
  ℕ, ◌*◌, ◌≡◌, refl, true, false, Option, none, some, List, [], ◌∷◌, map, String, ◌==◌,
  if◌then◌else◌, arith, ok,
}
use experience_hub.Experiences.State.{State, hot, state_valid, changes_within, same, state_eq}
use experience_hub.Experiences.Events.{
  Payload, created, version_created, pinned, lifecycle_evaluated, pin_event_fields, no_fields,
}
use experience_hub.Experiences.Events.Valid.{valid}
use experience_hub.Scoring.{
  inputs_valid, activation_at, decay_strength, weighted_score, half_life_factor, nonnegative_hours,
}
use experience_hub.Experiences.Events.Pending.{event_type}
use experience_hub.Storage.EventStore.{StoredEvent}
use experience_hub.Experiences.Projector.Rows.{
  select_row, insert_row, update_row, count_rows, replace_row, snapshot_parameters,
  snapshot_from_mapping,
}
use experience_hub.Experiences.Projector.Sources.{
  Sources, Identity, Version, Decoded, is_state_event_type, event_at, experience_named,
  experience_of, of_experience,
}
use experience_hub.Lifecycle.Evaluate.{LifecycleEvaluation, latest_anchor, evaluated_recently}
use experience_hub.Lifecycle.Evaluate.Laws.{decided, evaluate_eligible}
use experience_hub.Lifecycle.Plan.{evaluated_state}
use experience_hub.Experiences.Projector.Checks.{lifecycle_evaluated_checks}
use experience_hub.Experiences.Projector.Decided.{evaluated-checks}
use experience_hub.Experiences.Projector.Context.{
  StateContext, require_allowed_changes, require_materialization,
}
use experience_hub.Experiences.Projector.Apply.{
  Projection, OnlineEvent, rebuild, online, replay_ledger, apply, stored_event_from_row,
  with_payload,
}
use experience_hub.Experiences.Projector.Effect.{IsProjected}
use experience_hub.Experiences.Projector.Replay.{
  last_row, DecodesValid, applied-IsProjected, rebuild-last_row, online-rebuild,
}
use experience_hub.Experiences.Projector.Consistent.{IsConsistent, rebuild-IsConsistent}
use experience_hub.Tests.Fixed.{fixed}
use experience_hub.Tests.Samples.{config-IsInRange, config, day, hot_state}

abbrev first_state : State
first_state = record {
  experience_id = 7;
  owner_agent_id = 1;
  current_version_id = 70;
  current_content_hash = 99;
  temperature = hot;
  importance = 100;
  confidence = 200;
  activation_score = 360;
  source_trust = 1000;
  access_count = 0;
  access_strength = 0;
  strength_updated_at = 1000;
  last_accessed_at = none;
  last_transition_at = 1000;
  last_lifecycle_evaluated_at = none;
  consecutive_below_threshold = 0;
  pinned = false;
}

abbrev pinned_state : State
pinned_state = record first_state { pinned = true }

abbrev event_number : ℕ → String → Payload → StoredEvent Payload
event_number n type p = record {
  event_id = n;
  row = record {
    key = record { aggregate_type = "experience"; aggregate_id = 7 };
    sequence = n;
    event_type = type;
    payload = p;
    actor_agent_id = some 1;
    causation_id = 5;
    occurred_at = 1000;
  };
}

abbrev ledger : List (StoredEvent Payload)
ledger =
    event_number 1 "experience.created" (created 7 70 first_state)
    ∷ event_number 2 "experience.version_created"
        (version_created 7 70 1 none [] first_state first_state)
    ∷ event_number 3 "experience.pinned" (pinned 7 none first_state pinned_state)
    ∷ []

abbrev decode : String → Payload → Option Decoded
decode type p = if valid fixed p then some (of_experience p) else none

decode-DecodesValid : DecodesValid fixed decode
decode-DecodesValid t q p h = ground arith

abbrev identities : ℕ → Option Identity
identities id = if id == 7 then some (record { owner_agent_id = 1; created_at = 1000 }) else none

abbrev versions : ℕ → Option Version
versions id =
    if id == 70
    then some (record {
      version_id = 70;
      experience_id = 7;
      version_number = 1;
      supersedes_version_id = none;
      content_hash = 99;
      created_at = 1000;
    })
    else none

abbrev sources : Sources Payload ℕ
sources = record {
  identity = identities;
  version = versions;
  content = λ id version_id. some 0;
  ledger = ledger;
  decode = decode;
  adoptions = [];
  capsule = λ id. none;
}

abbrev last_session : Projection Payload
last_session = record { rows = snapshot_parameters pinned_state 3 ∷ []; cached = none }

rebuilt : rebuild fixed config sources none ≡ ok last_session
unfolding rebuild snapshot_parameters state_valid changes_within same state_eq pin_event_fields
    no_fields valid replay_ledger is_state_event_type inputs_valid activation_at decay_strength
    weighted_score half_life_factor nonnegative_hours select_row insert_row snapshot_from_mapping
    event_at experience_named update_row count_rows event_type replace_row require_allowed_changes
    require_materialization
rebuilt = refl

rebuild-last_row_example : select_row 7 last_session.rows ≡ last_row decode 7 none ledger
rebuild-last_row_example =
    rebuild-last_row fixed config sources decode-DecodesValid none last_session 7 rebuilt

rebuild-IsConsistent_example : IsConsistent fixed last_session.rows
rebuild-IsConsistent_example =
    rebuild-IsConsistent fixed config sources decode-DecodesValid none last_session rebuilt

abbrev step_of : StoredEvent Payload → OnlineEvent Payload ℕ
step_of e = record { sources = sources; cached = none; event = e }

abbrev steps : List (OnlineEvent Payload ℕ)
steps = map step_of ledger

kept_online : online fixed config [] steps ≡ ok last_session.rows
unfolding online snapshot_parameters state_valid changes_within same state_eq pin_event_fields
    no_fields valid is_state_event_type inputs_valid activation_at decay_strength weighted_score
    half_life_factor nonnegative_hours select_row insert_row snapshot_from_mapping event_at
    experience_named update_row count_rows event_type replace_row require_allowed_changes
    require_materialization
kept_online = refl

online-rebuild_example : select_row 7 last_session.rows ≡ select_row 7 last_session.rows
online-rebuild_example =
    online-rebuild fixed config decode decode-DecodesValid steps sources none last_session.rows
      last_session 7 (refl, (refl, (refl, tt))) refl refl kept_online rebuilt

abbrev pinning : StoredEvent Payload
pinning = event_number 3 "experience.pinned" (pinned 7 none first_state pinned_state)

abbrev before_pinning : Projection Payload
before_pinning = record { rows = snapshot_parameters first_state 2 ∷ []; cached = none }

pinning_applied :
    apply fixed config sources before_pinning
      (with_payload pinning (of_experience pinning.row.payload))
    ≡ ok last_session
unfolding apply snapshot_parameters state_valid changes_within same state_eq pin_event_fields
    no_fields valid experience_of is_state_event_type inputs_valid activation_at decay_strength
    weighted_score half_life_factor nonnegative_hours select_row insert_row snapshot_from_mapping
    event_at experience_named update_row count_rows event_type replace_row require_allowed_changes
    require_materialization
pinning_applied = refl

applied-IsProjected_example :
    (p : Payload) × (decode "experience.pinned" pinning.row.payload ≡ some (of_experience p))
    × IsProjected fixed sources p (with_payload pinning p) before_pinning.rows last_session.rows
unfolding stored_event_from_row valid changes_within same pin_event_fields
applied-IsProjected_example =
    applied-IsProjected fixed config sources decode-DecodesValid before_pinning last_session pinning
      (with_payload pinning (of_experience pinning.row.payload)) refl pinning_applied

-- The hot experience of the samples, evaluated after thirty days.
abbrev evaluation : LifecycleEvaluation
evaluation = decided fixed config hot_state 0 (30 * day) false

abbrev evaluated_event : StoredEvent Payload
evaluated_event = record {
  event_id = 9;
  row = record {
    key = record { aggregate_type = "experience"; aggregate_id = 7 };
    sequence = 4;
    event_type = "experience.lifecycle_evaluated";
    payload =
        lifecycle_evaluated 7 55 (30 * day) evaluation.threshold_target hot_state
          (evaluated_state hot_state (30 * day) evaluation);
    actor_agent_id = none;
    causation_id = 6;
    occurred_at = 30 * day;
  };
}

abbrev context : StateContext Payload
context = record {
  identity = record { owner_agent_id = 1; created_at = 0 };
  version = record {
    version_id = 70;
    experience_id = 7;
    version_number = 1;
    supersedes_version_id = none;
    content_hash = 99;
    created_at = 0;
  };
  prior_event = pinning;
}

evaluated-checks_example :
    lifecycle_evaluated_checks fixed config evaluated_event context hot_state
      (evaluated_state hot_state (30 * day) evaluation)
      (30 * day)
      evaluation.threshold_target
    ≡ ok tt
unfolding state_valid latest_anchor evaluated_recently decided
evaluated-checks_example =
    evaluated-checks fixed config hot_state 0 (30 * day) false evaluation evaluated_event context
      refl
      (evaluate_eligible fixed config hot_state 0 (30 * day) false config-IsInRange refl
        (omega arith) (refl, refl))
      refl refl refl
