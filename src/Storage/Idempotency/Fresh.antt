-- ===== src/Storage/Idempotency/Fresh.antt =====
-- How a command whose scope has no receipt succeeds, and what it leaves.
use experience_hub.Prelude.{
  ℕ, ◌≡◌, sym, ap, ◌∙◌, ◌⊎◌, inl, inr, Bool, true, false, Option, none, some, List, [], ◌∷◌, ◌++◌,
  max, Result, ok, err, replayable, >>=-eq-ok, ok-injective,
}
use experience_hub.Storage.Idempotency.{
  CommandRequest, Receipt, ReceiptReservation, ReceiptDecision, new_receipt, is_in_progress,
  receipt_valid, find_scope, new_row, StoredResponse, stored_response, with_response, complete_cas,
  completable, update_where,
}
use experience_hub.Storage.Idempotency.Executor.{
  Session, CommandContext, command_context, CommandResult, command_result, error_response,
  in_progress_result, allowed_response, Handler, Preflight, reserve, reserve_new, savepoint,
  dispatch, execute,
}
use experience_hub.Storage.Idempotency.Rows.{
  KeptRows, KeptRows-refl, completed_row, completed-valid, kept_hash,
}

-- A handler or preflight changes no receipt, except to give an unfinished one its resource.
module _ {D : Type 0} where
  abbrev pub HandlerKeeps : Handler D → Type 0
  HandlerKeeps handler =
      (s t : Session D) (c : CommandContext) (r : StoredResponse)
      → handler s c ≡ ok (r, t)
      → KeptRows s.receipts t.receipts

  abbrev pub PreflightKeeps : Preflight D → Type 0
  PreflightKeeps preflight =
      (s t : Session D) (now : ℕ) → preflight s now ≡ ok t → t.receipts ≡ s.receipts

-- The answer to a request whose scope has a receipt.
abbrev answer_state : Receipt → Bool → Option StoredResponse → CommandResult
answer_state r true response = in_progress_result r
answer_state r false none = in_progress_result r
answer_state r false (some response) = command_result response true

abbrev pub answer : Receipt → CommandResult
answer r = answer_state r (is_in_progress r.state) r.response

savepoint-inversion :
    {D : Type 0} (s : Session D) (m : Result (StoredResponse × Session D)) (r : StoredResponse)
    (t : Session D)
    → savepoint s m ≡ ok (r, t)
    → (m ≡ ok (r, t)) ⊎ (t ≡ s)
unfolding savepoint
savepoint-inversion s (ok x) r t h = inl h
savepoint-inversion s (err (replayable code message details status)) r t h =
    let (x, y, z) = >>=-eq-ok (stored_response (error_response code message details status)) _ h in
    inr (sym (ap (λ (m : StoredResponse × Session _). m.1) (ok-injective z)))
savepoint-inversion s (err e) r t h = cc

-- The reservation that a request without a receipt gets, and its row in the table.
abbrev pub reservation : CommandRequest → ℕ → ℕ → ReceiptReservation
reservation request now new_id = record {
  receipt_id = new_id;
  scope = request.scope;
  request_hash = request.request_hash;
  created_at = now;
}

abbrev pub reserved_by : {D : Type 0} → ReceiptReservation → Session D → Session D
reserved_by v checked = record checked { receipts = checked.receipts ++ new_row v ∷ [] }

module _ {D : Type 0} (request : CommandRequest) (handler : Handler D) (preflight : Preflight D)
    (now later new_id : ℕ) (s : Session D) where
  -- How a command without a receipt succeeds.
  pub record IsFresh (result : CommandResult) (t : Session D) : Type 0 where
    pub checked : Session D
    pub preflighted : preflight s now ≡ ok checked
    pub response : StoredResponse
    pub done : Session D
    pub handled :
        savepoint (reserved_by (reservation request now new_id) checked) (
          handler
            (reserved_by (reservation request now new_id) checked)
            (command_context (reservation request now new_id)))
        ≡ ok (response, done)
    pub rows : List Receipt
    pub completion :
        complete_cas done.receipts new_id
          (allowed_response response)
          (max now later)
          (some (reservation request now new_id))
        ≡ ok rows
    pub result_eq : result ≡ command_result (allowed_response response) false
    pub session_eq : t ≡ record done { receipts = rows }

  pub IsFresh-inversion :
      (result : CommandResult) (t : Session D)
      → find_scope request.scope s.receipts ≡ none
      → execute request handler preflight now later new_id s ≡ ok (result, t)
      → IsFresh result t
  unfolding execute reserve reserve_new dispatch
  IsFresh-inversion result t f h =
      let (made, x, h₁) =
        >>=-eq-ok (reserve_new request preflight now new_id s)
          (λ (m : ReceiptDecision × Session D). dispatch handler later m.0 m.1) (rw f at h) in
      let (checked, p, y) = >>=-eq-ok (preflight s now) _ x in
      let decided = ok-injective y in
      let h₂ : dispatch handler later (new_receipt (reservation request now new_id))
            (reserved_by (reservation request now new_id) checked)
          ≡ ok (result, t) =
        rw (← decided) at h₁ in
      let (out, q, h₃) =
        >>=-eq-ok
          (savepoint (reserved_by (reservation request now new_id) checked) (
            handler (reserved_by (reservation request now new_id) checked)
              (command_context (reservation request now new_id))))
          _ h₂ in
      let (rows, c, z) =
        >>=-eq-ok
          (complete_cas out.1.receipts new_id (allowed_response out.0) (max now later)
            (some (reservation request now new_id)))
          _ h₃ in
      let last = ok-injective z in
      record {
        checked = checked;
        preflighted = p;
        response = out.0;
        done = out.1;
        handled = q;
        rows = rows;
        completion = c;
        result_eq = sym (ap (λ (m : CommandResult × Session D). m.0) last);
        session_eq = sym (ap (λ (m : CommandResult × Session D). m.1) last);
      }

  module _ (keeps : HandlerKeeps handler) (preflight_keeps : PreflightKeeps preflight) where
    pub handled-KeptRows :
        (result : CommandResult) (t : Session D) (x : IsFresh result t)
        → KeptRows (s.receipts ++ new_row (reservation request now new_id) ∷ []) x.done.receipts
    handled-KeptRows result t x =
        rw (← preflight_keeps s x.checked now x.preflighted)
          (elim (savepoint-inversion (reserved_by (reservation request now new_id) x.checked) _
            x.response x.done x.handled) [
              | inl h ↦ keeps _ _ _ _ h
              | inr e ↦ rw e (KeptRows-refl _)
            ])

    pub completed_rows :
        (result : CommandResult) (t : Session D) (x : IsFresh result t)
        → find_scope request.scope s.receipts ≡ none
        → (r : Receipt) × (find_scope request.scope t.receipts ≡ some r)
          × (receipt_valid r ≡ true)
          × (r.request_hash ≡ request.request_hash)
          × (answer r ≡ record result { replayed = true })
    unfolding complete_cas
    completed_rows result t x f =
        let stored : StoredResponse = allowed_response x.response in
        let at : ℕ = max now later in
        let (b, kept, counted, found) =
          completed_row (reservation request now new_id) stored at s.receipts x.done.receipts f
            (handled-KeptRows result t x) in
        let rows : update_where (completable new_id (some (reservation request now new_id)))
              (with_response stored at) x.done.receipts
            ≡ x.rows =
          ok-injective (rw counted at x.completion) in
        (
          with_response stored at b,
          ap (λ (u : Session D). find_scope request.scope u.receipts) x.session_eq
              ∙ ap (find_scope request.scope) (sym rows)
              ∙ found,
          completed-valid (reservation request now new_id) stored at b kept,
          kept_hash (reservation request now new_id) stored at b kept,
          rw x.result_eq,
        )
