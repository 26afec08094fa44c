-- ===== src/Lifecycle/Run/Receipts.antt =====
-- find_completed_resource of src/experience_hub/storage/idempotency.py, and
-- _completed_cycle_response of src/experience_hub/lifecycle/service.py.
use text.Mathlib.Text.{◌==◌ as str_eq}
use experience_hub.Prelude.{
  ℕ, Bool, true, false, not, ◌&&◌, ◌||◌, Option, none, some, List, [], ◌∷◌, String, ltb, leb, ◌==◌,
  opt_eq, is_some, if◌then◌else◌, Result, ok, err, runtime_error, ◌>>=◌,
}
use experience_hub.Storage.Idempotency.{
  Receipt, StoredResponse, Body, lifecycle_body, is_in_progress, record_of,
}

-- 200 <= response_status_code < 300, which NULL is not.
abbrev is_success : Option StoredResponse → Bool
is_success none = false
is_success (some r) = leb 200 r.status_code && ltb r.status_code 300

abbrev has_type : String → Option String → Bool
has_type resource_type none = false
has_type resource_type (some t) = str_eq t resource_type

-- The WHERE clause.
unfoldable pub completed_for : String → ℕ → Receipt → Bool
completed_for resource_type resource_id r =
    has_type resource_type r.result_resource_type
    && opt_eq r.result_resource_id (some resource_id)
    && not (is_in_progress r.state)
    && is_success r.response

-- The ORDER BY clause; NULL comes first.
abbrev completed_before : Option ℕ → Option ℕ → Bool
completed_before none none = false
completed_before none (some t) = true
completed_before (some s) none = false
completed_before (some s) (some t) = ltb s t

unfoldable pub ordered_before : Receipt → Receipt → Bool
ordered_before a b =
    completed_before a.completed_at b.completed_at
    || opt_eq a.completed_at b.completed_at
      && (ltb a.created_at b.created_at
          || a.created_at == b.created_at && ltb a.receipt_id b.receipt_id)

abbrev pub earlier_of : Receipt → Option Receipt → Receipt
earlier_of r none = r
earlier_of r (some s) = if ordered_before s r then s else r

unfoldable pub first_completed : String → ℕ → List Receipt → Option Receipt
unfolding completed_for ordered_before
first_completed resource_type resource_id [] = none
first_completed resource_type resource_id (r ∷ rs) =
    let rest : Option Receipt = first_completed resource_type resource_id rs in
    if completed_for resource_type resource_id r then some (earlier_of r rest) else rest

unfoldable pub find_completed_resource : String → ℕ → List Receipt → Result (Option Receipt)
unfolding first_completed
find_completed_resource resource_type resource_id rows =
    elim (first_completed resource_type resource_id rows) [
      | none ↦ ok none
      | some r ↦ (do found ← record_of r; ok (some found))
    ]

-- decode_lifecycle_result, on the values whose canonical JSON is stored: the result is valid, and of
-- the receipt's cycle.
abbrev decoded_for : Option ℕ → Body → Bool
decoded_for id (lifecycle_body cycle_id evaluated_at evaluated transitions archives ideas) =
    leb transitions evaluated && leb archives transitions && opt_eq id (some cycle_id)
decoded_for id _ = false

unfoldable pub completed_cycle_response : Receipt → Result StoredResponse
completed_cycle_response receipt = elim receipt.response [
  | none ↦ err runtime_error
  | some r ↦
      if r.status_code == 200
        && has_type "lifecycle_cycle" receipt.result_resource_type
        && is_some receipt.result_resource_id
        && decoded_for receipt.result_resource_id r.body
      then ok (record {
        status_code = 200;
        body = r.body;
        content_type = "application/json";
        headers = [];
      })
      else err runtime_error
]
