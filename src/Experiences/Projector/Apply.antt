-- ===== src/Experiences/Projector/Apply.antt =====
-- ExperienceProjector._apply, apply and rebuild of src/experience_hub/experiences/projector.py. The
-- state of the session is the table and the index of adoption events that it keeps.
use text.Mathlib.Text.{◌==◌ as str_eq}
use experience_hub.Prelude.{
  Bool, true, false, not, ◌&&◌, Option, some, List, [], ◌∷◌, Result, ok, err,
  projection_integrity_error, ◌>>=◌, ◌>>◌,
}
use experience_hub.Floats.{FloatOps}
use experience_hub.Scoring.{LifecycleConfig}
use experience_hub.Experiences.State.{State}
use experience_hub.Experiences.Events.{
  Payload, created, version_created, accessed, reactivated, temperature_changed,
  lifecycle_evaluated, confirmed, refuted, corroborated, pinned, unpinned, archived_event, restored,
}
use experience_hub.Experiences.Events.Pending.{event_type}
use experience_hub.Experiences.Events.Valid.{
  confirmed_confidence, refuted_confidence, corroborated_confidence,
}
use experience_hub.Storage.EventStore.{StoredEvent}
use experience_hub.Experiences.Projector.Rows.{Row}
use experience_hub.Experiences.Projector.Sources.{
  Sources, Decoded, of_experience, of_adoption, of_other, experience_of, checked,
  is_state_event_type,
}
use experience_hub.Experiences.Projector.Context.{
  StateContext, state_event_context, store_state_event, returned,
}
use experience_hub.Experiences.Projector.Provenance.{Index, require_provenance}
use experience_hub.Experiences.Projector.Checks.{
  in_archive, accessed_checks, reactivated_checks, lifecycle_evaluated_checks, confidence_checks,
  confidence_changes, pin_checks, archived_checks, restored_checks,
}
use experience_hub.Experiences.Projector.Transition.{temperature_changed_checks}
use experience_hub.Experiences.Projector.Source.{apply_created, apply_version}

pub record Projection (P : Type 0) : Type 0 where
  pub rows : List Row
  pub cached : Option (Index P)

abbrev pub with_payload : {P Q : Type 0} → StoredEvent P → Q → StoredEvent Q
with_payload e p = record {
  event_id = e.event_id;
  row = record {
    key = e.row.key;
    sequence = e.row.sequence;
    event_type = e.row.event_type;
    payload = p;
    actor_agent_id = e.row.actor_agent_id;
    causation_id = e.row.causation_id;
    occurred_at = e.row.occurred_at;
  };
}

-- stored_event_from_row; the error of the registry is not caught.
unfoldable pub stored_event_from_row :
    {P C : Type 0} → Sources P C → StoredEvent P → Result (StoredEvent Decoded)
stored_event_from_row sources e = do
  decoded ← returned (sources.decode e.row.event_type e.row.payload)
  ok (with_payload e decoded)

-- What precedes the context: an archived experience cannot be accessed.
abbrev may_access : Payload → Bool
may_access (accessed _ _ b _) = not (in_archive b)
may_access _ = true

module _ (ops : FloatOps) (config : LifecycleConfig) {P C : Type 0} (sources : Sources P C) where
  -- The checks of an event in its context; only corroboration reads the index of the session.
  unfoldable pub state_checks :
      Option (Index P) → StoredEvent Payload → StateContext P → Payload → Result (Option (Index P))
  unfolding accessed_checks reactivated_checks lifecycle_evaluated_checks confidence_checks
      confidence_changes pin_checks archived_checks restored_checks temperature_changed_checks
  state_checks cached event c (accessed id version_id b a) = do
    accessed_checks ops config event c b a
    ok cached
  state_checks cached event c (reactivated id query_hash mode signal b a) = do
    reactivated_checks ops config event c b a
    ok cached
  state_checks cached event c (lifecycle_evaluated id cycle_id evaluated_at goal b a) = do
    lifecycle_evaluated_checks ops config event c b a evaluated_at goal
    ok cached
  state_checks cached event c (confirmed id reason evidence b a) = do
    confidence_changes ops config event c b a
    confidence_checks ops config event c b a (confirmed_confidence ops b.confidence)
    ok cached
  state_checks cached event c (refuted id reason evidence b a) = do
    confidence_changes ops config event c b a
    confidence_checks ops config event c b a (refuted_confidence ops b.confidence)
    ok cached
  state_checks cached event c (corroborated id adoption_id capsule_id root trust b a) = do
    confidence_changes ops config event c b a
    index ←
        require_provenance ops sources cached event c.identity id adoption_id capsule_id root trust
          b
    confidence_checks ops config event c b a (corroborated_confidence ops b.confidence trust)
    ok (some index)
  state_checks cached event c (pinned id reason b a) = do
    pin_checks ops config event c b a (not b.pinned && a.pinned)
    ok cached
  state_checks cached event c (unpinned id reason b a) = do
    pin_checks ops config event c b a (b.pinned && not a.pinned)
    ok cached
  state_checks cached event c (archived_event id cycle_id reason b a) = do
    archived_checks ops config event c b a sources cycle_id reason
    ok cached
  state_checks cached event c (restored id reason b a) = do
    restored_checks ops config event c b a sources
    ok cached
  state_checks cached event c (temperature_changed id cause cycle_id b a) = do
    temperature_changed_checks config sources event c cause cycle_id b a
    ok cached
  state_checks cached event c (created _ _ _) = err projection_integrity_error
  state_checks cached event c (version_created _ _ _ _ _ _ _) = err projection_integrity_error

  -- The methods _apply_accessed to _apply_temperature_changed.
  unfoldable pub apply_state_event :
      Projection P → StoredEvent Payload → Payload → State → State → Result (Projection P)
  unfolding state_event_context state_checks store_state_event
  apply_state_event session event p b a = do
    checked (str_eq event.row.event_type (event_type p))
    checked (may_access p)
    context ← state_event_context ops sources session.rows event (experience_of p) b
    cached ← state_checks session.cached event context p
    rows ← store_state_event ops session.rows event a
    ok (record { rows = rows; cached = cached })

  abbrev with_rows : Projection P → Result (List Row) → Result (Projection P)
  with_rows session result = do rows ← result; ok (record session { rows = rows })

  -- The dispatch on the class of the payload.
  unfoldable pub apply_payload :
      Projection P → StoredEvent Payload → Payload → Result (Projection P)
  unfolding apply_created apply_version apply_state_event
  apply_payload session event (created id version_id a) =
      with_rows session (apply_created ops config sources session.rows event id version_id a)
  apply_payload session event (version_created id version_id number supersedes links b a) =
      with_rows session
        (apply_version ops config sources session.rows event id version_id number supersedes b a)
  apply_payload session event (accessed id version_id b a) =
      apply_state_event session event (accessed id version_id b a) b a
  apply_payload session event (reactivated id query_hash mode signal b a) =
      apply_state_event session event (reactivated id query_hash mode signal b a) b a
  apply_payload session event (temperature_changed id cause cycle_id b a) =
      apply_state_event session event (temperature_changed id cause cycle_id b a) b a
  apply_payload session event (lifecycle_evaluated id cycle_id evaluated_at goal b a) =
      apply_state_event session event (lifecycle_evaluated id cycle_id evaluated_at goal b a) b a
  apply_payload session event (confirmed id reason evidence b a) =
      apply_state_event session event (confirmed id reason evidence b a) b a
  apply_payload session event (refuted id reason evidence b a) =
      apply_state_event session event (refuted id reason evidence b a) b a
  apply_payload session event (corroborated id adoption_id capsule_id root trust b a) =
      apply_state_event session event (corroborated id adoption_id capsule_id root trust b a) b a
  apply_payload session event (pinned id reason b a) =
      apply_state_event session event (pinned id reason b a) b a
  apply_payload session event (unpinned id reason b a) =
      apply_state_event session event (unpinned id reason b a) b a
  apply_payload session event (archived_event id cycle_id reason b a) =
      apply_state_event session event (archived_event id cycle_id reason b a) b a
  apply_payload session event (restored id reason b a) =
      apply_state_event session event (restored id reason b a) b a

  unfoldable pub apply_decoded :
      Projection P → StoredEvent Decoded → Decoded → Result (Projection P)
  unfolding apply_payload
  apply_decoded session event (of_experience p) = apply_payload session (with_payload event p) p
  apply_decoded session event (of_adoption c) = err projection_integrity_error
  apply_decoded session event (of_other id) = err projection_integrity_error

  -- _apply
  unfoldable pub apply : Projection P → StoredEvent Decoded → Result (Projection P)
  unfolding apply_decoded
  apply session event = do
    checked (str_eq event.row.key.aggregate_type "experience")
    apply_decoded session event event.row.payload

  -- The loop of rebuild over the ledger, which stands in the order of the event identifiers.
  unfoldable pub replay_ledger : Projection P → List (StoredEvent P) → Result (Projection P)
  unfolding apply stored_event_from_row
  replay_ledger session [] = ok session
  replay_ledger session (e ∷ es) = elim (is_state_event_type e.row.event_type) [
    | false ↦ replay_ledger session es
    | true ↦ (do
      event ← stored_event_from_row sources e
      next ← apply session event
      replay_ledger next es)
  ]

  -- rebuild, whose table is new.
  unfoldable pub rebuild : Option (Index P) → Result (Projection P)
  rebuild cached = replay_ledger (record { rows = []; cached = cached }) sources.ledger

-- An event of the ledger with what the session sees when the event is appended.
pub record OnlineEvent (P C : Type 0) : Type 0 where
  pub sources : Sources P C
  pub cached : Option (Index P)
  pub event : StoredEvent P

module _ (ops : FloatOps) (config : LifecycleConfig) {P C : Type 0} where
  -- apply of each event in its own session, for the events of the projector's types.
  unfoldable pub online : List Row → List (OnlineEvent P C) → Result (List Row)
  unfolding apply stored_event_from_row
  online rows [] = ok rows
  online rows (s ∷ rest) = elim (is_state_event_type s.event.row.event_type) [
    | false ↦ online rows rest
    | true ↦ (do
      event ← stored_event_from_row s.sources s.event
      next ← apply ops config s.sources (record { rows = rows; cached = s.cached }) event
      online next.rows rest)
  ]
