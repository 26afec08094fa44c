-- ===== src/Experiences/Projector/Source.antt =====
-- The created and version-created events of src/experience_hub/experiences/projector.py: their
-- checks against the source rows.
use text.Mathlib.Text.{◌==◌ as str_eq}
use experience_hub.Prelude.{
  ℕ, ◌+◌, Bool, true, false, not, ◌&&◌, Option, none, some, List, ltb, leb, ◌==◌, opt_eq, is_some,
  if◌then◌else◌, Result, ok, err, assertion_error, ◌>>=◌, ◌>>◌,
}
use experience_hub.Floats.{FloatOps}
use experience_hub.Scoring.{LifecycleConfig}
use experience_hub.Experiences.State.{State, changes_within, state_eq}
use experience_hub.Experiences.Events.{Payload, correction_fields, no_fields}
use experience_hub.Experiences.Events.Valid.{is_close}
use experience_hub.Storage.EventStore.{StoredEvent}
use experience_hub.Experiences.Projector.Rows.{Row, snapshot_parameters, insert_row}
use experience_hub.Experiences.Projector.Sources.{
  Identity, Version, Sources, found, checked, load_source_anchors,
}
use experience_hub.Experiences.Projector.Context.{
  latest_state_time, current_snapshot, store_state_event, materialized_at, require_materialization,
  prior_checkpoint,
}

-- is_valid_version_event_sequence of src/experience_hub/experiences/events.py
unfoldable pub is_valid_version_event_sequence : ℕ → ℕ → Bool
is_valid_version_event_sequence version_number sequence =
    if version_number == 1 then sequence == 2 else ltb 1 version_number && ltb 2 sequence

-- The initial values of a created event's state.
unfoldable pub is_initial : Identity → Version → StoredEvent Payload → State → Bool
is_initial identity version event a =
    identity.owner_agent_id == a.owner_agent_id
    && identity.created_at == event.row.occurred_at
    && version.version_number == 1
    && not (is_some version.supersedes_version_id)
    && version.content_hash == a.current_content_hash
    && a.strength_updated_at == event.row.occurred_at
    && a.last_transition_at == event.row.occurred_at
    && not (is_some a.last_accessed_at)
    && not (is_some a.last_lifecycle_evaluated_at)
    && a.access_count == 0
    && a.access_strength == 0
    && a.consecutive_below_threshold == 0
    && not a.pinned

module _ (ops : FloatOps) (config : LifecycleConfig) {P C : Type 0} (sources : Sources P C) where
  unfoldable pub created_checks : StoredEvent Payload → ℕ → ℕ → State → Result (Unit {0})
  unfolding load_source_anchors is_initial materialized_at
  created_checks event experience_id version_id a = do
    checked (
        str_eq event.row.event_type "experience.created"
        && event.row.key.aggregate_id == experience_id
        && event.row.sequence == 1)
    (identity, version, content) ← load_source_anchors sources event experience_id version_id
    checked (is_initial identity version event a)
    m ←
        materialized_at ops config
          (record {
            importance = a.importance;
            confidence = a.confidence;
            access_count = 0;
            access_strength = 0;
            strength_updated_at = event.row.occurred_at;
            last_accessed_at = none;
            created_at = identity.created_at;
          })
          event.row.occurred_at
    checked (is_close ops m.score a.activation_score)

  -- _apply_created
  unfoldable pub apply_created : List Row → StoredEvent Payload → ℕ → ℕ → State → Result (List Row)
  unfolding created_checks current_snapshot
  apply_created rows event experience_id version_id a = do
    created_checks event experience_id version_id a
    present ← current_snapshot ops rows experience_id
    checked (not (is_some present))
    insert_row ops (snapshot_parameters a event.event_id) rows

  -- The version that a correction supersedes, and its checks.
  unfoldable pub superseded_version : ℕ → ℕ → Option ℕ → State → Result (Option Version)
  superseded_version experience_id version_number supersedes b = elim (ltb 1 version_number) [
    | false ↦ ok none
    | true ↦ elim supersedes [
      | none ↦ err assertion_error
      | some id ↦ (do
        superseded ← found (sources.version id)
        checked (
            superseded.experience_id == experience_id
            && superseded.version_id == b.current_version_id
            && superseded.version_number + 1 == version_number
            && superseded.content_hash == b.current_content_hash)
        ok (some superseded))
    ]
  ]

  -- The checks of a correction's state, its clock and its materialization.
  correction_checks :
      StoredEvent Payload
      → Identity
      → StoredEvent P
      → Option Version
      → ℕ
      → Option ℕ
      → State
      → State
      → Result (Unit {0})
  unfolding latest_state_time
  correction_checks event identity prior none version_id supersedes b a = err assertion_error
  correction_checks event identity prior (some superseded) version_id supersedes b a = do
    checked (
        changes_within correction_fields b a
        && opt_eq supersedes (some b.current_version_id)
        && a.current_version_id == version_id)
    checked (
        not (
          ltb event.row.occurred_at
            (latest_state_time identity.created_at superseded.created_at prior.row.occurred_at b)))
    require_materialization ops config identity b a event.row.occurred_at b.confidence

  unfoldable pub version_effect_checks :
      StoredEvent Payload
      → Identity
      → StoredEvent P
      → Option Version
      → ℕ
      → ℕ
      → Option ℕ
      → State
      → State
      → Result (Unit {0})
  unfolding correction_checks
  version_effect_checks event identity prior superseded version_number version_id supersedes b a =
      elim (version_number == 1) [
        | true ↦ checked (changes_within no_fields b a)
        | false ↦ correction_checks event identity prior superseded version_id supersedes b a
      ]

  -- _apply_version
  unfoldable pub apply_version :
      List Row
      → StoredEvent Payload
      → (experience_id version_id version_number : ℕ) → Option ℕ
      → State
      → State
      → Result (List Row)
  unfolding is_valid_version_event_sequence load_source_anchors superseded_version current_snapshot
      prior_checkpoint version_effect_checks
  apply_version rows event experience_id version_id version_number supersedes b a = do
    checked (
        str_eq event.row.event_type "experience.version_created"
        && event.row.key.aggregate_id == experience_id
        && leb 2 event.row.sequence)
    checked (is_valid_version_event_sequence version_number event.row.sequence)
    (identity, version, content) ← load_source_anchors sources event experience_id version_id
    checked (
        identity.owner_agent_id == a.owner_agent_id
        && version.version_number == version_number
        && opt_eq version.supersedes_version_id supersedes
        && version.content_hash == a.current_content_hash)
    superseded ← superseded_version experience_id version_number supersedes b
    present ← current_snapshot ops rows experience_id
    (current, prior_event_id) ← found present
    checked (state_eq current b)
    prior ← prior_checkpoint sources event experience_id prior_event_id
    version_effect_checks event identity prior superseded version_number version_id supersedes b a
    store_state_event ops rows event a
