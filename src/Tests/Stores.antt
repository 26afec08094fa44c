-- ===== src/Tests/Stores.antt =====
-- Examples for the event store and the receipts.
use experience_hub.Prelude.{
  ℕ, ◌≤◌, suc, ◌≡◌, refl, sym, ap, none, some, List, [], ◌∷◌, ◌++◌, true, false, ok, err,
  replayable, key_conflict, ok-injective,
}
use experience_hub.Experiences.Events.Pending.{PendingEvent}
use experience_hub.Storage.EventStore.{
  EventRow, EventLog, PayloadClasses, with_ids, event_registered, allocate, append, max_sequence,
  key_eq, next_sequence, sequence_for,
}
use experience_hub.Storage.EventStore.Numbering.{count, NumberedAfter, Records, append-Numbered}
use experience_hub.Storage.Idempotency.{
  attach_resource, attachable, CommandRequest, raw, Receipt, completed, scope_eq, row_count,
  completable, update_where, receipt_valid, find_scope, new_row, with_response, StoredResponse,
  complete_cas,
}
use experience_hub.Storage.Idempotency.Executor.{
  Session, command_result, error_response, Handler, Preflight, execute, reserve, allowed_response,
  allowed_headers, is_allowed_header,
}
use experience_hub.Storage.Idempotency.Rows.{KeptRows-refl}
use experience_hub.Storage.Idempotency.Attach.{
  AllAttached, has_resource, attach_resource-IsAttached,
}
use experience_hub.Storage.Idempotency.Fresh.{HandlerKeeps, PreflightKeeps, reservation}
use experience_hub.Storage.Idempotency.Replay.{existing_receipt, replay, replayable_error}

abbrev classes : PayloadClasses ℕ
classes = record {
  class_of = λ p. 1;
  declared_type = λ c. some "agent.created";
  registered = λ t. some 1;
}

abbrev event_for : ℕ → PendingEvent ℕ
event_for id = record {
  aggregate_type = "agent";
  aggregate_id = id;
  event_type = "agent.created";
  payload = id;
  actor_agent_id = none;
  occurred_at = 10;
}

abbrev row_for : ℕ → ℕ → EventRow ℕ
row_for id sequence = record {
  key = record { aggregate_type = "agent"; aggregate_id = id };
  sequence = sequence;
  event_type = "agent.created";
  payload = id;
  actor_agent_id = none;
  causation_id = 9;
  occurred_at = 10;
}

abbrev log : EventLog ℕ
log = record { rows = row_for 3 1 ∷ []; receipts = 9 ∷ [] }

abbrev new_rows : List (EventRow ℕ)
new_rows = row_for 3 2 ∷ row_for 4 1 ∷ row_for 3 3 ∷ []

append-Numbered_example :
    (new : List (EventRow ℕ)) × ((row_for 3 1 ∷ []) ++ new_rows ≡ (row_for 3 1 ∷ []) ++ new)
    × (with_ids 2 new_rows ≡ with_ids 2 new)
    × Records 9 (event_for 3 ∷ event_for 4 ∷ event_for 3 ∷ []) new
    × NumberedAfter [] ((row_for 3 1 ∷ []) ++ new_rows)
unfolding append allocate event_registered count sequence_for next_sequence max_sequence key_eq
append-Numbered_example =
    append-Numbered classes log (record log { rows = (row_for 3 1 ∷ []) ++ new_rows }) 9
      (event_for 3 ∷ event_for 4 ∷ event_for 3 ∷ []) true (with_ids 2 new_rows) (refl, tt) refl

abbrev request : CommandRequest
request = record {
  scope = record {
    caller_scope = "system:local";
    operation_scope = "lifecycle.run";
    idempotency_key = "k1";
  };
  request_hash = 11;
}

abbrev reply : StoredResponse
reply = record {
  status_code = 200;
  body = raw "{}";
  content_type = "application/json";
  headers = ("etag", "1") ∷ ("x-debug", "1") ∷ [];
}

-- A handler that counts its runs, and one that fails.
abbrev counting : Handler ℕ
counting s c = ok (reply, record s { domain = suc s.domain })

abbrev failing : Handler ℕ
failing s c = err (replayable "resource_not_found" "The command resource was not found" [] 404)

abbrev checks : Preflight ℕ
checks s now = ok s

abbrev empty : Session ℕ
empty = record { domain = 0; receipts = [] }

counting-keeps : HandlerKeeps counting
counting-keeps s t c r h =
    rw (← ap (λ (p : StoredResponse × Session ℕ). p.1.receipts) (ok-injective h))
      (KeptRows-refl s.receipts)

checks-keeps : PreflightKeeps checks
checks-keeps s t now h = ap (λ (u : Session ℕ). u.receipts) (sym (ok-injective h))

abbrev stored_reply : StoredResponse
stored_reply = record reply { headers = ("etag", "1") ∷ [] }

abbrev finished : Receipt
finished = record {
  receipt_id = 5;
  scope = request.scope;
  request_hash = 11;
  state = completed;
  result_resource_type = none;
  result_resource_id = none;
  response = some stored_reply;
  created_at = 100;
  completed_at = some 130;
}

abbrev after_run : Session ℕ
after_run = record { domain = 1; receipts = finished ∷ [] }

run_once :
    execute request counting checks 100 130 5 empty
    ≡ ok (command_result stored_reply false, after_run)
unfolding execute reserve find_scope complete_cas row_count completable scope_eq allowed_response
    update_where allowed_headers is_allowed_header
run_once = refl

replay_example :
    execute request failing checks 200 210 6 after_run
    ≡ ok (command_result stored_reply true, after_run)
unfolding find_scope
replay_example =
    replay request counting checks 100 130 5 empty counting-keeps checks-keeps failing checks 200
      210 6 (command_result stored_reply false) after_run refl run_once

existing_receipt_example :
    execute (record request { request_hash = 12 }) counting checks 300 310 7 after_run
    ≡ err key_conflict
unfolding find_scope receipt_valid scope_eq
existing_receipt_example =
    existing_receipt (record request { request_hash = 12 }) counting checks 300 310 7 after_run
      finished refl refl

abbrev failure : StoredResponse
failure = error_response "resource_not_found" "The command resource was not found" [] 404

replayable_error_example :
    execute request failing checks 100 130 5 empty
    ≡ ok (
      command_result failure false,
      record empty {
        receipts = with_response failure 130 (new_row (reservation request 100 5)) ∷ [];
      },
    )
unfolding find_scope
replayable_error_example =
    replayable_error request failing checks 100 130 5 empty empty "resource_not_found"
      "The command resource was not found" [] 404 refl refl refl refl

-- A receipt whose handler is at work, beside the finished one.
abbrev started : Receipt
started = new_row (record {
  receipt_id = 6;
  scope = record request.scope { idempotency_key = "k2" };
  request_hash = 12;
  created_at = 140;
})

abbrev attached : List Receipt
attached =
    finished
    ∷ record started { result_resource_type = some "lifecycle_cycle"; result_resource_id = some 55 }
    ∷ []

attach_resource-IsAttached_example :
    AllAttached 6 "lifecycle_cycle" 55 (finished ∷ started ∷ []) attached
    × (1 ≤ row_count (has_resource 6 "lifecycle_cycle" 55) attached)
unfolding attach_resource row_count attachable update_where
attach_resource-IsAttached_example =
    attach_resource-IsAttached 6 "lifecycle_cycle" 55 (finished ∷ started ∷ []) attached refl
