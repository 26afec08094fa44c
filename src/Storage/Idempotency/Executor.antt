-- ===== src/Storage/Idempotency/Executor.antt =====
-- CommandExecutor.execute of src/experience_hub/storage/idempotency.py. A session is the domain's
-- tables and the receipt table; a handler raises, or returns its response and the new session.
use text.Mathlib.Text.{◌==◌ as str_eq}
use experience_hub.Prelude.{
  ℕ, Bool, true, false, ◌||◌, Option, none, some, List, [], ◌∷◌, ◌++◌, String, max, if◌then◌else◌,
  Result, ok, err, value_error, replayable, ◌>>=◌,
}
use experience_hub.Storage.Idempotency.{
  Scope, CommandRequest, Body, error_body, in_progress_body, StoredResponse, stored_response,
  Receipt, ReceiptReservation, ReceiptDecision, new_receipt, completed_receipt, in_progress_receipt,
  find_scope, decide, new_row, complete_cas,
}

pub record Session (D : Type 0) : Type 0 where
  pub domain : D
  pub receipts : List Receipt

pub record CommandContext : Type 0 where
  pub receipt_id : ℕ
  pub scope : Scope
  pub request_hash : ℕ

abbrev pub command_context : ReceiptReservation → CommandContext
command_context v = record {
  receipt_id = v.receipt_id;
  scope = v.scope;
  request_hash = v.request_hash;
}

pub record CommandResult : Type 0 where
  pub status_code : ℕ
  pub body : Body
  pub content_type : String
  pub headers : List (String × String)
  pub replayed : Bool

unfoldable pub is_allowed_header : String → Bool
is_allowed_header name =
    str_eq name "content-location"
    || str_eq name "etag"
    || str_eq name "last-modified"
    || str_eq name "location"
    || str_eq name "retry-after"

unfoldable pub allowed_headers : List (String × String) → List (String × String)
allowed_headers [] = []
allowed_headers ((name, value) ∷ rest) =
    let others : List (String × String) = allowed_headers rest in
    if is_allowed_header name then (name, value) ∷ others else others

-- _allowed_response; what a handler returns passed the checks of its constructor, and so does it with
-- fewer headers.
unfoldable pub allowed_response : StoredResponse → StoredResponse
allowed_response r = record r { headers = allowed_headers r.headers }

-- _result
abbrev pub command_result : StoredResponse → Bool → CommandResult
command_result r replayed = record {
  status_code = r.status_code;
  body = r.body;
  content_type = r.content_type;
  headers = r.headers;
  replayed = replayed;
}

-- _in_progress_result
unfoldable pub in_progress_result : Receipt → CommandResult
in_progress_result r =
    command_result
      (record {
        status_code = 409;
        body = in_progress_body r.receipt_id r.result_resource_type r.result_resource_id;
        content_type = "application/json";
        headers = ("retry-after", "1") ∷ [];
      })
      false

-- The arguments of the error's StoredResponse, whose constructor checks them.
abbrev pub error_response : String → String → List (String × String) → ℕ → StoredResponse
error_response code message details status_code = record {
  status_code = status_code;
  body = error_body code message details;
  content_type = "application/json";
  headers = [];
}

-- CommandHandler
abbrev pub Handler : Type 0 → Type 0
Handler D = Session D → CommandContext → Result (StoredResponse × Session D)

-- ReservationPreflight
abbrev pub Preflight : Type 0 → Type 0
Preflight D = Session D → ℕ → Result (Session D)

module _ {D : Type 0} where
  abbrev with_decision : Session D → Result ReceiptDecision → Result (ReceiptDecision × Session D)
  with_decision s m = do decision ← m; ok (decision, s)

  -- reserve, for a scope that has no row: `now` is the clock's reading and `new_id` the new
  -- identifier.
  unfoldable pub reserve_new :
      CommandRequest → Preflight D → ℕ → ℕ → Session D → Result (ReceiptDecision × Session D)
  reserve_new request preflight now new_id s = do
    checked ← preflight s now
    let v : ReceiptReservation = record {
      receipt_id = new_id;
      scope = request.scope;
      request_hash = request.request_hash;
      created_at = now;
    }
    ok (new_receipt v, record checked { receipts = checked.receipts ++ new_row v ∷ [] })

  reserve_found :
      CommandRequest
      → Preflight D
      → ℕ
      → ℕ
      → Session D
      → Option Receipt
      → Result (ReceiptDecision × Session D)
  unfolding reserve_new
  reserve_found request preflight now new_id s (some r) = with_decision s (decide request r)
  reserve_found request preflight now new_id s none = reserve_new request preflight now new_id s

  unfoldable pub reserve :
      CommandRequest → Preflight D → ℕ → ℕ → Session D → Result (ReceiptDecision × Session D)
  unfolding reserve_found
  reserve request preflight now new_id s =
      reserve_found request preflight now new_id s (find_scope request.scope s.receipts)

  -- The nested transaction of the handler: a replayable error is rolled back and is the response;
  -- any other error leaves the command.
  unfoldable pub savepoint :
      Session D → Result (StoredResponse × Session D) → Result (StoredResponse × Session D)
  unfolding stored_response
  savepoint s (ok result) = ok result
  savepoint s (err (replayable code message details status_code)) = do
    response ← stored_response (error_response code message details status_code)
    ok (response, s)
  savepoint s (err e) = err e

  abbrev respond : Session D → Option StoredResponse → Result (CommandResult × Session D)
  respond s none = err value_error
  respond s (some response) = ok (command_result response true, s)

  -- What follows the reservation; `later` is the clock's reading at completion.
  unfoldable pub dispatch :
      Handler D → ℕ → ReceiptDecision → Session D → Result (CommandResult × Session D)
  unfolding savepoint
  dispatch handler later (completed_receipt r) s = respond s r.response
  dispatch handler later (in_progress_receipt r) s = ok (in_progress_result r, s)
  dispatch handler later (new_receipt v) s = do
    (response, done) ← savepoint s (handler s (command_context v))
    let stored : StoredResponse = allowed_response response
    rows ← complete_cas done.receipts v.receipt_id stored (max v.created_at later) (some v)
    ok (command_result stored false, record done { receipts = rows })

  -- execute: an error is raised out of the transaction, which is then rolled back.
  unfoldable pub execute :
      CommandRequest
      → Handler D
      → Preflight D
      → ℕ
      → ℕ
      → ℕ
      → Session D
      → Result (CommandResult × Session D)
  unfolding dispatch
  execute request handler preflight now later new_id s = do
    (decision, reserved) ← reserve request preflight now new_id s
    dispatch handler later decision reserved
