-- ===== src/Experiences/Writer/Apply.antt =====
-- apply_ordered_events of src/experience_hub/experiences/transitions.py. What the database holds for
-- the experience and the outcome of appending the events are arguments; the result is the events that
-- were appended and the codecs to rewrite.
use text.Mathlib.Text.{◌==◌ as str_eq}
use experience_hub.Prelude.{
  ℕ, Bool, true, false, not, ◌&&◌, ◌||◌, Option, none, some, List, [], ◌∷◌, map, max, ltb, ◌==◌,
  opt_eq, is_some, if◌then◌else◌, any, Result, ok, err, require, value_error, replayable, ◌>>=◌,
  ◌>>◌,
}
use experience_hub.Scoring.{LifecycleConfig, max_option}
use experience_hub.Experiences.State.{
  State, Temperature, hot, warm, cold, archived, temperature_eq, state_eq,
}
use experience_hub.Experiences.Events.{Payload, accessed, reactivated, cold_reactivation}
use experience_hub.Experiences.Events.Pending.{PendingEvent, event_type}
use experience_hub.Experiences.Events.Valid.{before, after}
use experience_hub.Experiences.Writer.Sequence.{changes_by, exact_lifecycle_sequence}

pub data PayloadCodec : Type 0 where
  plain zlib : PayloadCodec

-- preferred_payload_codec of src/experience_hub/experiences/content.py
unfoldable pub preferred_payload_codec : Temperature → PayloadCodec
preferred_payload_codec hot = plain
preferred_payload_codec warm = plain
preferred_payload_codec _ = zlib

abbrev pub is_access : Payload → Bool
is_access (accessed _ _ _ _) = true
is_access _ = false

abbrev pub is_reactivation : Payload → Bool
is_reactivation (reactivated _ _ _ _ _ _) = true
is_reactivation _ = false

-- `previous_after is None or before == previous_after`
abbrev pub follows : Option State → State → Bool
follows none b = true
follows (some s) b = state_eq b s

-- The checks of one event against the first event and the state that the event before it left.
unfoldable pub event_fits :
    ℕ → ℕ → Option ℕ → ℕ → Option State → PendingEvent Payload → State → State → Bool
event_fits experience_id owner actor occurred_at previous event b a =
    str_eq event.aggregate_type "experience"
    && event.aggregate_id == experience_id
    && str_eq event.event_type (event_type event.payload)
    && b.experience_id == experience_id
    && a.experience_id == experience_id
    && b.owner_agent_id == owner
    && a.owner_agent_id == owner
    && opt_eq event.actor_agent_id actor
    && (opt_eq event.actor_agent_id (some owner) || not (is_some event.actor_agent_id))
    && follows previous b
    && event.occurred_at == occurred_at

-- The loop over the events: the state after the last one, or `none` for the ValueError.
unfoldable pub chain :
    ℕ → ℕ → Option ℕ → ℕ → Option State → List (PendingEvent Payload) → Option State
unfolding event_fits
chain experience_id owner actor occurred_at previous [] = previous
chain experience_id owner actor occurred_at previous (e ∷ rest) = elim (before e.payload) [
  | none ↦ none
  | some b ↦
      elim (event_fits experience_id owner actor occurred_at previous e b (after e.payload)) [
        | true ↦ chain experience_id owner actor occurred_at (some (after e.payload)) rest
        | false ↦ none
      ]
]

-- `resulting_state` is that of the experience, of its owner, and the last `after`.
abbrev pub ends_in : State → ℕ → ℕ → Option State → Bool
ends_in resulting experience_id owner none = false
ends_in resulting experience_id owner (some last) =
    resulting.experience_id == experience_id
    && resulting.owner_agent_id == owner
    && state_eq last resulting

unfoldable pub is_reactivation_chain : List Payload → Bool
is_reactivation_chain (p ∷ q ∷ r ∷ []) =
    is_access p && is_reactivation q && changes_by cold_reactivation r
is_reactivation_chain _ = false

unfoldable pub is_single_access : List Payload → Bool
is_single_access (p ∷ []) = is_access p
is_single_access _ = false

-- The rules for retrieval events, on the tests that they name.
unfoldable pub access_rules : Bool → Bool → Bool → Bool → Bool → Bool → Bool → Bool → Bool
access_rules has_access has_reactivation has_transition is_cold is_archived chained single
      by_owner =
    let needs_chain : Bool = has_reactivation || has_transition || has_access && is_cold in
    not (has_access && is_archived)
    && (not (has_access || has_reactivation) || by_owner)
    && (not needs_chain || chained)
    && (not (has_access && not needs_chain) || single)

unfoldable pub exact_access : List Payload → State → Bool → Bool
unfolding is_reactivation_chain is_single_access
exact_access payloads first_before by_owner =
    access_rules (any is_access payloads) (any is_reactivation payloads)
      (any (changes_by cold_reactivation) payloads) (temperature_eq first_before.temperature cold)
      (temperature_eq first_before.temperature archived) (is_reactivation_chain payloads)
      (is_single_access payloads) by_owner

abbrev pub payloads_of : List (PendingEvent Payload) → List Payload
payloads_of [] = []
payloads_of (e ∷ rest) = e.payload ∷ payloads_of rest

-- Every check that precedes the reads of the database, from the first event's `before` state.
unfoldable pub accepts_from :
    LifecycleConfig → ℕ → State → List (PendingEvent Payload) → PendingEvent Payload → State → Bool
unfolding chain exact_access
accepts_from config experience_id resulting events first first_before =
    let owner : ℕ = first_before.owner_agent_id in
    let actor : Option ℕ = first.actor_agent_id in
    ends_in resulting experience_id owner
      (chain experience_id owner actor first.occurred_at none events)
    && exact_lifecycle_sequence (payloads_of events) first_before actor owner config
    && exact_access (payloads_of events) first_before (opt_eq actor (some owner))

abbrev pub accepts_head :
    LifecycleConfig
    → ℕ
    → State
    → List (PendingEvent Payload)
    → PendingEvent Payload
    → Option State
    → Bool
accepts_head config experience_id resulting events first none = false
accepts_head config experience_id resulting events first (some b) =
    accepts_from config experience_id resulting events first b

unfoldable pub accepts : LifecycleConfig → ℕ → State → List (PendingEvent Payload) → Bool
unfolding accepts_from
accepts config experience_id resulting [] = false
accepts config experience_id resulting (e ∷ rest) =
    accepts_head config experience_id resulting (e ∷ rest) e (before e.payload)

-- What the database holds for an owned experience: the rows of get_owned_current and the
-- identifiers of its versions, whose loading may fail its integrity checks.
pub record Current : Type 0 where
  pub identity_created_at : ℕ
  pub version_created_at : ℕ
  pub projection_occurred_at : ℕ
  pub locked : State
  pub version_ids : Result (List ℕ)

-- `max(causal_times)`
unfoldable pub latest_causal : Current → ℕ
latest_causal c =
    max_option
      (max_option
        (max
          (max (max (max c.identity_created_at c.version_created_at) c.projection_occurred_at)
            c.locked.strength_updated_at)
          c.locked.last_transition_at)
        c.locked.last_accessed_at)
      c.locked.last_lifecycle_evaluated_at

pub record ExperienceRecord : Type 0 where
  pub experience_id : ℕ
  pub owner_agent_id : ℕ
  pub current_version_id : ℕ
  pub current_content_hash : ℕ
  pub temperature : Temperature

pub record Applied : Type 0 where
  pub appended : List (PendingEvent Payload)
  pub rewritten : List (ℕ × PayloadCodec)
  pub result : ExperienceRecord

-- The versions to rewrite, loaded only if the temperature changes.
unfoldable pub rewrites : State → Current → Result (List (ℕ × PayloadCodec))
unfolding preferred_payload_codec
rewrites resulting c =
    if temperature_eq c.locked.temperature resulting.temperature then ok [] else (do
      ids ← c.version_ids
      ok (map (λ v. (v, preferred_payload_codec resulting.temperature)) ids))

-- What writing the events comes to: the error of uow.append_events, which is that of the event store
-- or of the projectors that it calls, or the error of re-encoding the versions after it, or nothing.
abbrev pub Append : Type 0
Append = List (PendingEvent Payload) → Result (Unit {0})

-- The checks against the locked rows, and the effect.
unfoldable pub apply_current :
    Append → ℕ → State → List (PendingEvent Payload) → State → ℕ → Option Current → Result Applied
unfolding latest_causal rewrites
apply_current append experience_id resulting events first_before occurred_at none =
    err (replayable "experience_not_found" "Experience was not found" [] 404)
apply_current append experience_id resulting events first_before occurred_at (some c) = do
  require (state_eq first_before c.locked) value_error
  require (not (ltb occurred_at (latest_causal c)))
      (replayable "clock_regression" "Command time precedes existing experience state" [] 409)
  codecs ← rewrites resulting c
  append events
  ok (record {
    appended = events;
    rewritten = codecs;
    result = record {
      experience_id = experience_id;
      owner_agent_id = first_before.owner_agent_id;
      current_version_id = resulting.current_version_id;
      current_content_hash = resulting.current_content_hash;
      temperature = resulting.temperature;
    };
  })

abbrev apply_head :
    Append
    → ℕ
    → State
    → List (PendingEvent Payload)
    → ℕ
    → (ℕ → Option Current)
    → Option State
    → Result Applied
apply_head append experience_id resulting events occurred_at lookup none = err value_error
apply_head append experience_id resulting events occurred_at lookup (some b) =
    apply_current append experience_id resulting events b occurred_at (lookup b.owner_agent_id)

-- `lookup` is get_owned_current for the experience, by the owner.
unfoldable pub apply_ordered_events :
    LifecycleConfig
    → ℕ
    → State
    → List (PendingEvent Payload)
    → (ℕ → Option Current)
    → Append
    → Result Applied
unfolding accepts apply_current
apply_ordered_events config experience_id resulting [] lookup append = err value_error
apply_ordered_events config experience_id resulting (e ∷ rest) lookup append = do
  require (accepts config experience_id resulting (e ∷ rest)) value_error
  apply_head append experience_id resulting (e ∷ rest) e.occurred_at lookup (before e.payload)
