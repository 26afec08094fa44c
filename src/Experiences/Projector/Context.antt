-- ===== src/Experiences/Projector/Context.antt =====
-- The checks that every state event shares, of ExperienceProjector in
-- src/experience_hub/experiences/projector.py: the current row, the prior checkpoint and the clock.
use text.Mathlib.Text.{◌==◌ as str_eq}
use experience_hub.Prelude.{
  ℕ, ◌≡◌, ◌+◌, Bool, not, ◌&&◌, Option, none, some, List, max, ltb, leb, ◌==◌, opt_eq, Result, ok,
  err, require, value_error, ◌>>=◌, ◌>>◌,
}
use experience_hub.Floats.{FloatOps}
use experience_hub.Scoring.{
  LifecycleConfig, ActivationInputs, ActivationResult, max_option, inputs_valid, activation_at,
}
use experience_hub.Experiences.State.{State, Field, temperature_eq, state_eq, changes_within}
use experience_hub.Experiences.Events.{Payload}
use experience_hub.Experiences.Events.Valid.{is_close}
use experience_hub.Storage.EventStore.{StoredEvent}
use experience_hub.Experiences.Projector.Rows.{
  Row, select_row, snapshot_from_mapping, snapshot_parameters, update_row,
}
use experience_hub.Experiences.Projector.Sources.{
  Identity, Version, Sources, experience_named, found, checked, event_at, is_state_event_type,
}

-- `max(causal_times)`
unfoldable pub latest_state_time : ℕ → ℕ → ℕ → State → ℕ
latest_state_time identity_created version_created prior_occurred s =
    max_option
      (max_option
        (max (max (max (max identity_created version_created) prior_occurred) s.strength_updated_at)
          s.last_transition_at)
        s.last_accessed_at)
      s.last_lifecycle_evaluated_at

-- _require_allowed_changes
unfoldable pub require_allowed_changes : (Field → Bool) → State → State → Result (Unit {0})
require_allowed_changes allowed b a = do
  checked (changes_within allowed b a)
  checked (temperature_eq b.temperature a.temperature)

-- `result.rowcount != 1`
abbrev pub affected_one : List Row × ℕ → Result (List Row)
affected_one (rows, count) = do checked (count == 1); ok rows

-- What _state_event_context returns.
pub record StateContext (P : Type 0) : Type 0 where
  pub identity : Identity
  pub version : Version
  pub prior_event : StoredEvent P

-- ActivationInputs(...) of a snapshot with a given confidence, and activation_at; their ValueError
-- is not caught.
unfoldable pub activation_inputs_of : State → ℕ → ℕ → ActivationInputs
activation_inputs_of s confidence created_at = record {
  importance = s.importance;
  confidence = confidence;
  access_count = s.access_count;
  access_strength = s.access_strength;
  strength_updated_at = s.strength_updated_at;
  last_accessed_at = s.last_accessed_at;
  created_at = created_at;
}

abbrev pub returned {ℓ} : {A : Type ℓ} → Option A → Result A
returned none = err value_error
returned (some a) = ok a

pub returned-ok {ℓ} : {A : Type ℓ} (o : Option A) {a : A} → returned o ≡ ok a → o ≡ some a
returned-ok none h = cc
returned-ok (some a) h = cc

module _ {P C : Type 0} (sources : Sources P C) where
  -- The event that the current row comes from: it is the one before, of the same experience.
  unfoldable pub prior_checkpoint : StoredEvent Payload → ℕ → ℕ → Result (StoredEvent P)
  prior_checkpoint event experience_id prior_event_id = do
    prior ← found (event_at prior_event_id sources.ledger)
    checked (
        str_eq prior.row.key.aggregate_type "experience"
        && prior.row.key.aggregate_id == experience_id
        && is_state_event_type prior.row.event_type
        && prior.row.sequence + 1 == event.row.sequence
        && ltb prior.event_id event.event_id)
    payload ← found (sources.decode prior.row.event_type prior.row.payload)
    checked (opt_eq (experience_named payload) (some experience_id))
    ok prior

module _ (ops : FloatOps) where
  -- _current_snapshot
  unfoldable pub current_snapshot : List Row → ℕ → Result (Option (State × ℕ))
  current_snapshot rows experience_id = elim (select_row experience_id rows) [
    | none ↦ ok none
    | some row ↦ (do
      snapshot ← snapshot_from_mapping ops row
      ok (some (snapshot, row.projection_event_id)))
  ]

  -- _store_state_event
  unfoldable pub store_state_event : List Row → StoredEvent Payload → State → Result (List Row)
  store_state_event rows event a = do
    updated ← update_row ops (snapshot_parameters a event.event_id) rows
    affected_one updated

  unfoldable pub materialized_at : LifecycleConfig → ActivationInputs → ℕ → Result ActivationResult
  materialized_at config inputs at = do
    require (inputs_valid ops inputs) value_error
    returned (activation_at ops inputs at config)

  -- _require_materialization
  unfoldable pub require_materialization :
      LifecycleConfig → Identity → State → State → ℕ → ℕ → Result (Unit {0})
  unfolding materialized_at activation_inputs_of
  require_materialization config identity b a occurred_at confidence = do
    m ← materialized_at config (activation_inputs_of b confidence identity.created_at) occurred_at
    checked (
        a.strength_updated_at == occurred_at
        && is_close ops a.access_strength m.decayed_strength
        && is_close ops a.activation_score m.score)

  module _ {P C : Type 0} (sources : Sources P C) where
    -- _state_event_context
    unfoldable pub state_event_context :
        List Row → StoredEvent Payload → ℕ → State → Result (StateContext P)
    unfolding current_snapshot prior_checkpoint latest_state_time
    state_event_context rows event experience_id b = do
      checked (
          str_eq event.row.key.aggregate_type "experience"
          && event.row.key.aggregate_id == experience_id
          && leb 3 event.row.sequence)
      present ← current_snapshot rows experience_id
      (current, prior_event_id) ← found present
      checked (state_eq current b)
      identity ← found (sources.identity experience_id)
      version ← found (sources.version b.current_version_id)
      checked (
          identity.owner_agent_id == b.owner_agent_id
          && version.experience_id == experience_id
          && version.content_hash == b.current_content_hash)
      prior ← prior_checkpoint sources event experience_id prior_event_id
      checked (
          not (
            ltb event.row.occurred_at
              (latest_state_time identity.created_at version.created_at prior.row.occurred_at b)))
      ok (record { identity = identity; version = version; prior_event = prior })
