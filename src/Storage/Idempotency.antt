-- ===== src/Storage/Idempotency.antt =====
-- ReceiptStore of src/experience_hub/storage/idempotency.py, over the rows of the receipt table in
-- the order of their insertion. A response body is the value whose canonical JSON is stored.
pub mod Executor
pub mod Rows
pub mod Attach
pub mod Fresh
pub mod Replay
use text.Mathlib.Text.{◌==◌ as str_eq}
use experience_hub.Prelude.{
  ℕ, suc, ◌+◌, Bool, true, false, not, ◌&&◌, ◌||◌, Option, none, some, List, [], ◌∷◌, ◌++◌, String,
  max, leb, all, ◌==◌, opt_eq, bool_eq, is_some, if◌then◌else◌, Result, ok, err, require,
  value_error, idempotency_integrity_error, lookup_error, key_conflict, ◌>>=◌, ◌>>◌,
}

-- The unique key of a receipt: caller scope, operation scope and idempotency key.
pub record Scope : Type 0 where
  pub caller_scope : String
  pub operation_scope : String
  pub idempotency_key : String

unfoldable pub scope_eq : Scope → Scope → Bool
scope_eq a b =
    str_eq a.caller_scope b.caller_scope
    && str_eq a.operation_scope b.operation_scope
    && str_eq a.idempotency_key b.idempotency_key

pub record CommandRequest : Type 0 where
  pub scope : Scope
  pub request_hash : ℕ

pub data Body : Type 0 where
  raw : String → Body
  error_body : (code message : String) (details : List (String × String)) → Body
  in_progress_body :
      (receipt_id : ℕ) (resource_type : Option String) (resource_id : Option ℕ) → Body
  lifecycle_body :
      (cycle_id evaluated_at : ℕ)
      (evaluated_count transition_count archive_count idea_archive_count : ℕ)
      → Body

abbrev pub opt_str_eq : Option String → Option String → Bool
opt_str_eq none none = true
opt_str_eq (some a) (some b) = str_eq a b
opt_str_eq _ _ = false

unfoldable pub headers_eq : List (String × String) → List (String × String) → Bool
headers_eq [] [] = true
headers_eq ((n, v) ∷ hs) ((m, w) ∷ ks) = str_eq n m && str_eq v w && headers_eq hs ks
headers_eq _ _ = false

unfoldable pub body_eq : Body → Body → Bool
unfolding headers_eq
body_eq (raw a) (raw b) = str_eq a b
body_eq (error_body a m d) (error_body b n e) = str_eq a b && str_eq m n && headers_eq d e
body_eq (in_progress_body i t r) (in_progress_body j u s) = i == j && opt_str_eq t u && opt_eq r s
body_eq (lifecycle_body c t e n a i) (lifecycle_body d u f m b j) =
    c == d && t == u && e == f && n == m && a == b && i == j
body_eq _ _ = false

pub record StoredResponse : Type 0 where
  pub status_code : ℕ
  pub body : Body
  pub content_type : String
  pub headers : List (String × String)

-- StoredResponse.__post_init__, for a content type and header names that are stripped, and the names
-- in lower case: `false` is its ValueError.
unfoldable pub response_valid : StoredResponse → Bool
response_valid r =
    leb 100 r.status_code
    && leb r.status_code 599
    && not (str_eq r.content_type "")
    && all (λ (h : String × String). not (str_eq h.0 "")) r.headers

-- What the constructor returns.
unfoldable pub stored_response : StoredResponse → Result StoredResponse
unfolding response_valid
stored_response r = do require (response_valid r) value_error; ok r

unfoldable pub response_eq : StoredResponse → StoredResponse → Bool
unfolding body_eq headers_eq
response_eq a b =
    a.status_code == b.status_code
    && body_eq a.body b.body
    && str_eq a.content_type b.content_type
    && headers_eq a.headers b.headers

pub data ReceiptState : Type 0 where
  in_progress completed : ReceiptState

abbrev pub is_in_progress : ReceiptState → Bool
is_in_progress in_progress = true
is_in_progress completed = false

-- A row of the receipt table, and the ReceiptRecord that is read from it.
pub record Receipt : Type 0 where
  pub receipt_id : ℕ
  pub scope : Scope
  pub request_hash : ℕ
  pub state : ReceiptState
  pub result_resource_type : Option String
  pub result_resource_id : Option ℕ
  pub response : Option StoredResponse
  pub created_at : ℕ
  pub completed_at : Option ℕ

-- ReceiptRecord.__post_init__
unfoldable pub receipt_valid : Receipt → Bool
receipt_valid r =
    bool_eq (is_some r.result_resource_type) (is_some r.result_resource_id)
    && (if is_in_progress r.state
        then not (is_some r.response) && not (is_some r.completed_at)
        else is_some r.response && is_some r.completed_at)

-- _record
unfoldable pub record_of : Receipt → Result Receipt
record_of r = if receipt_valid r then ok r else err value_error

pub record ReceiptReservation : Type 0 where
  pub receipt_id : ℕ
  pub scope : Scope
  pub request_hash : ℕ
  pub created_at : ℕ

pub data ReceiptDecision : Type 0 where
  new_receipt : ReceiptReservation → ReceiptDecision
  completed_receipt in_progress_receipt : Receipt → ReceiptDecision

-- The row of a scope, or of an identifier.
unfoldable pub find_scope : Scope → List Receipt → Option Receipt
find_scope k [] = none
find_scope k (r ∷ rs) = if scope_eq r.scope k then some r else find_scope k rs

unfoldable pub find_id : ℕ → List Receipt → Option Receipt
find_id i [] = none
find_id i (r ∷ rs) = if r.receipt_id == i then some r else find_id i rs

-- An UPDATE with its WHERE clause, and its row count.
unfoldable pub update_where : (Receipt → Bool) → (Receipt → Receipt) → List Receipt → List Receipt
update_where test change [] = []
update_where test change (r ∷ rs) = (if test r then change r else r) ∷ update_where test change rs

unfoldable pub row_count : (Receipt → Bool) → List Receipt → ℕ
row_count test [] = 0
row_count test (r ∷ rs) = let rest : ℕ = row_count test rs in if test r then suc rest else rest

abbrev decide_state : Receipt → ReceiptState → ReceiptDecision
decide_state r in_progress = in_progress_receipt r
decide_state r completed = completed_receipt r

-- The decision on an existing row.
unfoldable pub decide : CommandRequest → Receipt → Result ReceiptDecision
decide request r = do
  require (r.request_hash == request.request_hash) key_conflict
  valid ← record_of r
  ok (decide_state valid valid.state)

abbrev pub new_row : ReceiptReservation → Receipt
new_row v = record {
  receipt_id = v.receipt_id;
  scope = v.scope;
  request_hash = v.request_hash;
  state = in_progress;
  result_resource_type = none;
  result_resource_id = none;
  response = none;
  created_at = v.created_at;
  completed_at = none;
}

-- The WHERE clause of attach_resource, and the values that it sets.
unfoldable pub attachable : ℕ → Receipt → Bool
attachable receipt_id r =
    r.receipt_id == receipt_id
    && is_in_progress r.state
    && not (is_some r.result_resource_type)
    && not (is_some r.result_resource_id)

abbrev pub with_resource : String → ℕ → Receipt → Receipt
with_resource resource_type resource_id r = record r {
  result_resource_type = some resource_type;
  result_resource_id = some resource_id;
}

-- `existing != requested`, for the row of a receipt whose update matched no row.
unfoldable pub attached_already : String → ℕ → List Receipt → Option Receipt → Result (List Receipt)
attached_already resource_type resource_id rows none = err lookup_error
attached_already resource_type resource_id rows (some r) =
    if opt_str_eq r.result_resource_type (some resource_type)
      && opt_eq r.result_resource_id (some resource_id)
    then ok rows
    else err idempotency_integrity_error

-- attach_resource, for a resource type that is trimmed and not blank.
unfoldable pub attach_resource : List Receipt → ℕ → String → ℕ → Result (List Receipt)
unfolding attached_already
attach_resource rows receipt_id resource_type resource_id =
    if row_count (attachable receipt_id) rows == 1
    then ok (update_where (attachable receipt_id) (with_resource resource_type resource_id) rows)
    else attached_already resource_type resource_id rows (find_id receipt_id rows)

-- The identity of a reservation, which complete_existing does not compare.
unfoldable pub same_identity : Option ReceiptReservation → Receipt → Bool
same_identity none r = true
same_identity (some v) r = scope_eq r.scope v.scope && r.request_hash == v.request_hash

unfoldable pub completable : ℕ → Option ReceiptReservation → Receipt → Bool
unfolding same_identity
completable receipt_id v r =
    r.receipt_id == receipt_id && is_in_progress r.state && same_identity v r

abbrev pub with_response : StoredResponse → ℕ → Receipt → Receipt
with_response response completed_at r = record r {
  state = completed;
  response = some response;
  completed_at = some completed_at;
}

abbrev has_response : StoredResponse → Option StoredResponse → Bool
has_response response none = false
has_response response (some stored) = response_eq stored response

-- The checks after a compare-and-set that matched no row.
unfoldable pub completed_already :
    Option ReceiptReservation
    → StoredResponse
    → List Receipt
    → Option Receipt
    → Result (List Receipt)
unfolding same_identity
completed_already v response rows none = err lookup_error
completed_already v response rows (some r) =
    if not (same_identity v r)
    then err idempotency_integrity_error
    else if not (is_in_progress r.state) && has_response response r.response
    then ok rows
    else err idempotency_integrity_error

-- _complete_cas: complete has a reservation, complete_existing has none.
unfoldable pub complete_cas :
    List Receipt → ℕ → StoredResponse → ℕ → Option ReceiptReservation → Result (List Receipt)
unfolding completed_already
complete_cas rows receipt_id response completed_at v =
    if row_count (completable receipt_id v) rows == 1
    then ok (update_where (completable receipt_id v) (with_response response completed_at) rows)
    else completed_already v response rows (find_id receipt_id rows)
