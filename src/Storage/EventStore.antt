-- ===== src/Storage/EventStore.antt =====
-- EventStore.append of src/experience_hub/storage/event_store.py, over the stored rows in the order
-- of their event identifiers. Payloads are opaque; a payload has a class, which may declare an event
-- type, and the registry binds event types to classes.
pub mod Numbering
use text.Mathlib.Text.{◌==◌ as str_eq}
use experience_hub.Prelude.{
  ℕ, suc, ◌+◌, Bool, true, false, not, ◌&&◌, Option, none, some, List, [], ◌∷◌, ◌++◌, String, max,
  ◌==◌, opt_eq, if◌then◌else◌, any, length, Result, ok, err, require, value_error, runtime_error,
  ◌>>=◌, ◌>>◌,
}
use experience_hub.Experiences.Events.Pending.{PendingEvent}

pub record Key : Type 0 where
  pub aggregate_type : String
  pub aggregate_id : ℕ

unfoldable pub key_eq : Key → Key → Bool
key_eq a b = str_eq a.aggregate_type b.aggregate_type && a.aggregate_id == b.aggregate_id

module _ {P : Type 0} where
  abbrev pub key_of : PendingEvent P → Key
  key_of e = record { aggregate_type = e.aggregate_type; aggregate_id = e.aggregate_id }

-- A DomainEventRow before its identifier is assigned.
pub record EventRow (P : Type 0) : Type 0 where
  pub key : Key
  pub sequence : ℕ
  pub event_type : String
  pub payload : P
  pub actor_agent_id : Option ℕ
  pub causation_id : ℕ
  pub occurred_at : ℕ

-- The rows in the order of insertion: the identifier of a row is one more than its place.
pub record EventLog (P : Type 0) : Type 0 where
  pub rows : List (EventRow P)
  pub receipts : List ℕ

pub record StoredEvent (P : Type 0) : Type 0 where
  pub event_id : ℕ
  pub row : EventRow P

-- The maximum of a column, which is NULL over no rows.
abbrev pub max_with : ℕ → Option ℕ → Option ℕ
max_with n none = some n
max_with n (some m) = some (max n m)

module _ {P : Type 0} where
  -- select(func.max(sequence)).where(...)
  unfoldable pub max_sequence : Key → List (EventRow P) → Option ℕ
  max_sequence k [] = none
  max_sequence k (r ∷ rs) =
      let rest : Option ℕ = max_sequence k rs in
      if key_eq r.key k then max_with r.sequence rest else rest

-- next_sequences.get(aggregate), and the assignment of an entry.
unfoldable pub next_sequence : Key → List (Key × ℕ) → Option ℕ
next_sequence k [] = none
next_sequence k ((j, n) ∷ rest) = if key_eq j k then some n else next_sequence k rest

abbrev pub or_zero : Option ℕ → ℕ
or_zero none = 0
or_zero (some n) = n

-- The sequence of the next event of an aggregate: the one that the loop keeps, or else the one
-- after the greatest stored sequence.
unfoldable pub sequence_for : {P : Type 0} → List (EventRow P) → Key → Option ℕ → ℕ
sequence_for rows k (some n) = n
sequence_for rows k none = or_zero (max_sequence k rows) + 1

-- The classes of payloads: what class a payload has, what event type a class declares, and the
-- class that the registry binds to an event type.
pub record PayloadClasses (P : Type 0) : Type 0 where
  pub class_of : P → ℕ
  pub declared_type : ℕ → Option String
  pub registered : String → Option ℕ

module _ {P : Type 0} where
  abbrev pub row_of : ℕ → ℕ → PendingEvent P → EventRow P
  row_of causation_id sequence e = record {
    key = key_of e;
    sequence = sequence;
    event_type = e.event_type;
    payload = e.payload;
    actor_agent_id = e.actor_agent_id;
    causation_id = causation_id;
    occurred_at = e.occurred_at;
  }

  -- Identifiers follow the order of insertion.
  unfoldable pub with_ids : ℕ → List (EventRow P) → List (StoredEvent P)
  with_ids id [] = []
  with_ids id (r ∷ rs) = record { event_id = id; row = r } ∷ with_ids (id + 1) rs

module _ {P : Type 0} (classes : PayloadClasses P) where
  open classes use {class_of, declared_type, registered}

  abbrev declares : Option String → String → Bool
  declares none t = false
  declares (some declared) t = str_eq declared t

  -- The checks of one event; every failure is a ValueError.
  unfoldable pub event_registered : PendingEvent P → Bool
  event_registered e =
      declares (declared_type (class_of e.payload)) e.event_type
      && opt_eq (registered e.event_type) (some (class_of e.payload))

  -- The loop over the events, from the stored rows and the sequences allocated so far.
  unfoldable pub allocate :
      ℕ → List (EventRow P) → List (Key × ℕ) → List (PendingEvent P) → Result (List (EventRow P))
  allocate causation_id rows next [] = ok []
  allocate causation_id rows next (e ∷ es) =
      let n : ℕ = sequence_for rows (key_of e) (next_sequence (key_of e) next) in
      let rest : Result (List (EventRow P)) = (do
        later ← allocate causation_id rows ((key_of e, n + 1) ∷ next) es
        ok (row_of causation_id n e ∷ later)) in
      if event_registered e then rest else err value_error

  unfoldable pub append :
      EventLog P → ℕ → List (PendingEvent P) → Bool → Result (EventLog P × List (StoredEvent P))
  append log causation_id events immediate = do
    require immediate runtime_error
    require (any (λ r. r == causation_id) log.receipts) value_error
    rows ← allocate causation_id log.rows [] events
    ok (record log { rows = log.rows ++ rows }, with_ids (length log.rows + 1) rows)
