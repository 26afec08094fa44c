-- ===== src/Storage/Idempotency/Replay.antt =====
-- What a command and its retries do to the receipts and to the domain.
use experience_hub.Prelude.{
  leb, ◌&&◌, false, List, Bool-cases, value_error, ℕ, ◌≡◌, refl, ap, ◌∙◌, inl, inr, true, false,
  none, some, [], ◌∷◌, ◌++◌, String, arith, max, ◌==◌, ==_refl, if◌then◌else◌, ok, err, replayable,
  key_conflict,
}
use experience_hub.Storage.Idempotency.{
  CommandRequest, Receipt, receipt_valid, record_of, find_scope, decide, new_row, StoredResponse,
  with_response, complete_cas, response_valid, stored_response,
}
use experience_hub.Storage.Idempotency.Executor.{
  Session, command_context, CommandResult, command_result, error_response, allowed_response,
  allowed_headers, Handler, Preflight, reserve, reserve_new, savepoint, dispatch, execute,
}
use experience_hub.Storage.Idempotency.Rows.{KeptRows-refl, completed_row, completed_last}
use experience_hub.Storage.Idempotency.Fresh.{
  HandlerKeeps, PreflightKeeps, answer, reservation, reserved_by, IsFresh-inversion, completed_rows,
}

response_valid_of :
    (code message : String) (details : List (String × String)) (status_code : ℕ)
    → (leb 100 status_code && leb status_code 599) ≡ true
    → response_valid (error_response code message details status_code) ≡ true
unfolding response_valid
response_valid_of code message details status_code t = ground (arith, t)

response_invalid_of :
    (code message : String) (details : List (String × String)) (status_code : ℕ)
    → (leb 100 status_code && leb status_code 599) ≡ false
    → response_valid (error_response code message details status_code) ≡ false
unfolding response_valid
response_invalid_of code message details status_code n = ground (arith, n)

module _ {D : Type 0} (request : CommandRequest) (handler : Handler D) (preflight : Preflight D)
    (now later new_id : ℕ) (s : Session D) where
  -- A request whose scope has a receipt changes nothing and calls neither its handler nor its
  -- preflight: with another request hash it is a conflict, and otherwise its answer is the stored
  -- response of a completed receipt, marked as replayed, or that the operation is in progress.
  pub existing_receipt :
      (r : Receipt)
      → find_scope request.scope s.receipts ≡ some r
      → receipt_valid r ≡ true
      → execute request handler preflight now later new_id s
        ≡ (if r.request_hash == request.request_hash then ok (answer r, s) else err key_conflict)
  unfolding execute reserve dispatch decide record_of receipt_valid
  existing_receipt r f v = ground (arith, f)

module _ {D : Type 0} (request : CommandRequest) (handler : Handler D) (preflight : Preflight D)
    (now later new_id : ℕ) (s : Session D) where
  module _ (keeps : HandlerKeeps handler) (preflight_keeps : PreflightKeeps preflight) where
    -- A command that succeeded with no earlier receipt of its scope is carried out once: repeating
    -- its request, with any handler, preflight, clock and identifiers, gives the same answer, marked
    -- as replayed, and changes nothing. The handler and the preflight of the first run leave the
    -- receipts as they are, but for the resource of an unfinished one.
    pub replay :
        (handler' : Handler D) (preflight' : Preflight D) (now' later' new_id' : ℕ)
        (result : CommandResult) (t : Session D)
        → find_scope request.scope s.receipts ≡ none
        → execute request handler preflight now later new_id s ≡ ok (result, t)
        → execute request handler' preflight' now' later' new_id' t
          ≡ ok (record result { replayed = true }, t)
    replay handler' preflight' now' later' new_id' result t f h =
        let (r, found, valid, hash, same) =
          completed_rows request handler preflight now later new_id s keeps preflight_keeps result t
            (IsFresh-inversion request handler preflight now later new_id s result t f h) f in
        existing_receipt request handler' preflight' now' later' new_id' t r found valid
        ∙ rw (hash, ==_refl request.request_hash) (ap (λ (a : CommandResult). ok (a, t)) same)

  -- A command with no receipt of its scope, whose preflight keeps the receipts and whose handler
  -- raises a replayable error, leaves the domain as the preflight left it and records one more
  -- receipt, completed with the error's response, which is also the answer; with a status outside
  -- 100..599 that response cannot be made, and the command raises a ValueError.
  pub replayable_error :
      (checked : Session D) (code message : String) (details : List (String × String))
      (status_code : ℕ)
      → find_scope request.scope s.receipts ≡ none
      → preflight s now ≡ ok checked
      → checked.receipts ≡ s.receipts
      → handler
          (reserved_by (reservation request now new_id) checked)
          (command_context (reservation request now new_id))
        ≡ err (replayable code message details status_code)
      → execute request handler preflight now later new_id s ≡ (
          if leb 100 status_code && leb status_code 599
          then ok (
            command_result (error_response code message details status_code) false,
            record checked {
              receipts =
                  s.receipts
                  ++ with_response
                      (error_response code message details status_code)
                      (max now later)
                      (new_row (reservation request now new_id))
                    ∷ [];
            },
          )
          else err value_error)
  unfolding execute reserve reserve_new dispatch complete_cas savepoint allowed_response
      allowed_headers stored_response response_valid
  replayable_error checked code message details status_code f p same h =
      let response : StoredResponse = error_response code message details status_code in
      let (b, kept, counted, found) =
        completed_row (reservation request now new_id) response (max now later) s.receipts _ f
          (KeptRows-refl _) in
      elim (Bool-cases (leb 100 status_code && leb status_code 599)) [
        | inl t ↦ rw (
          f,
          p,
          h,
          same,
          response_valid_of code message details status_code t,
          t,
          counted,
          completed_last (reservation request now new_id) response (max now later) s.receipts f,
        )
        | inr n ↦ rw (f, p, h, response_invalid_of code message details status_code n, n) refl
      ]
