-- ===== src/Lifecycle/Run.antt =====
-- LifecycleService.run of src/experience_hub/lifecycle/service.py, with LifecycleResult of
-- contracts.py. The cycle's identifier and the hash of the expected request are arguments, as are
-- what the repository lists and what the idea planner returns; the writer finds the stored row of an
-- experience by its owner. An experience is listed once, so that no row changes before its turn.
pub mod Ideas
pub mod Receipts
pub mod Cycle
pub mod Released
use text.Mathlib.Text.{◌==◌ as str_eq}
use experience_hub.Prelude.{
  String, ℕ, ◌+◌, Bool, true, false, not, ◌&&◌, ◌||◌, Option, none, some, List, [], ◌∷◌, ◌++◌, ltb,
  leb, ◌==◌, is_some, if◌then◌else◌, length, tally, Result, ok, err, require, value_error,
  runtime_error, overflow_error, replayable, ◌>>=◌, ◌>>◌,
}
use experience_hub.Floats.{FloatOps, max_timedelta}
use experience_hub.Scoring.{LifecycleConfig}
use experience_hub.Experiences.Events.{Payload}
use experience_hub.Experiences.Events.Pending.{PendingEvent}
use experience_hub.Experiences.Writer.Apply.{Append, Current, Applied, apply_ordered_events}
use experience_hub.Storage.Idempotency.{
  Receipt, StoredResponse, Body, lifecycle_body, Scope, scope_eq, find_id, record_of,
  attach_resource,
}
use experience_hub.Storage.Idempotency.Executor.{CommandContext}
use experience_hub.Lifecycle.Lease.{LeaseRow, claim_lease, release_lease}
use experience_hub.Lifecycle.Plan.{LifecycleRecord, LifecycleMutation, plan_mutation}
use experience_hub.Lifecycle.Run.Ideas.{IdeaArchived, ordered_idea_events}
use experience_hub.Lifecycle.Run.Receipts.{find_completed_resource, completed_cycle_response}

pub record LifecycleResult : Type 0 where
  pub cycle_id : ℕ
  pub evaluated_at : ℕ
  pub evaluated_count : ℕ
  pub transition_count : ℕ
  pub archive_count : ℕ
  pub idea_archive_count : ℕ

-- The validators of LifecycleResult, and encode_lifecycle_result.
unfoldable pub lifecycle_result_valid : LifecycleResult → Bool
lifecycle_result_valid r =
    leb r.transition_count r.evaluated_count && leb r.archive_count r.transition_count

abbrev pub encode_lifecycle_result : LifecycleResult → Body
encode_lifecycle_result r =
    lifecycle_body r.cycle_id r.evaluated_at r.evaluated_count r.transition_count r.archive_count
      r.idea_archive_count

abbrev pub cycle_response : LifecycleResult → StoredResponse
cycle_response r = record {
  status_code = 200;
  body = encode_lifecycle_result r;
  content_type = "application/json";
  headers = [];
}

-- What a run works on: the receipts, the lease, and the events that it appends.
pub record World : Type 0 where
  pub receipts : List Receipt
  pub lease : Option LeaseRow
  pub appended : List (PendingEvent Payload)
  pub appended_ideas : List (PendingEvent IdeaArchived)

pub data LifecycleRunMode : Type 0 where
  manual background : LifecycleRunMode

abbrev pub is_manual : LifecycleRunMode → Bool
is_manual manual = true
is_manual background = false

-- `plan is not None`
unfoldable pub eligible_plans : List (Option LifecycleMutation) → List LifecycleMutation
eligible_plans [] = []
eligible_plans (none ∷ rest) = eligible_plans rest
eligible_plans (some m ∷ rest) = m ∷ eligible_plans rest

-- sum(plan.transitioned for plan in plans), and the same of `archived`.
unfoldable pub transitions_in : List LifecycleMutation → ℕ
transitions_in [] = 0
transitions_in (m ∷ ms) = tally m.transitioned (transitions_in ms)

unfoldable pub archives_in : List LifecycleMutation → ℕ
archives_in [] = 0
archives_in (m ∷ ms) = tally m.archives (archives_in ms)

abbrev mode_text : LifecycleRunMode → String
mode_text manual = "manual"
mode_text background = "background"

abbrev pub run_error : LifecycleRunMode → Bool → Result (Unit {0})
run_error mode acquired = require acquired (
    replayable "lifecycle_in_progress" "Another lifecycle cycle is already in progress"
      (("mode", mode_text mode) ∷ []) 409)

abbrev pub authorized : Bool → Result (Unit {0})
authorized test =
    require test (replayable "resource_not_found" "The command resource was not found" [] 404)

-- The time of a request that omits it: that of its receipt.
unfoldable pub requested_at : List Receipt → CommandContext → Option ℕ → Result ℕ
requested_at receipts command (some at) = ok at
requested_at receipts command none = elim (find_id command.receipt_id receipts) [
  | none ↦ err (replayable "resource_not_found" "The command resource was not found" [] 404)
  | some row ↦ (do
    r ← record_of row
    authorized (scope_eq r.scope command.scope && r.request_hash == command.request_hash)
    ok r.created_at)
]

-- uow.append_events, if there are idea events.
abbrev pub append_all_ideas :
    (List (PendingEvent IdeaArchived) → Result (Unit {0}))
    → List (PendingEvent IdeaArchived)
    → Result (Unit {0})
append_all_ideas append [] = ok tt
append_all_ideas append (e ∷ es) = append (e ∷ es)

-- What a run reads and is given; no two of its plans write the same events, so that the outcome of
-- the writes is given by the events alone.
pub record RunInputs : Type 0 where
  pub immediate : Bool
  pub evaluated_at : Option ℕ  -- none if it was omitted
  pub mode : LifecycleRunMode
  pub clock_now : ℕ
  pub expected_hash : Option ℕ → LifecycleRunMode → ℕ
  pub cycle_of : ℕ → ℕ
  pub listed : Result (List LifecycleRecord)
  pub has_active_dependents : ℕ → Bool
  pub lookup : ℕ → ℕ → Option Current
  pub idea_events : Result (List (PendingEvent IdeaArchived))
  pub append_events : Append
  pub append_ideas : List (PendingEvent IdeaArchived) → Result (Unit {0})

-- A completed cycle is answered again, otherwise the body runs.
unfoldable pub once :
    List Receipt → ℕ → World → Result (StoredResponse × World) → Result (StoredResponse × World)
unfolding find_completed_resource completed_cycle_response
once receipts cycle_id world body = do
  prior ← find_completed_resource "lifecycle_cycle" cycle_id receipts
  elim prior [
    | none ↦ body
    | some r ↦ (do response ← completed_cycle_response r; ok (response, world))
  ]

-- The finally statement: the owner's lease is released, whatever the body did.
unfoldable pub releasing :
    World → ℕ → Result (StoredResponse × World) → Result (StoredResponse × World)
unfolding release_lease
releasing world owner_id body = do
  let (released, lease) = release_lease world.lease owner_id
  require released runtime_error
  (response, after) ← body
  ok (response, record after { lease = lease })

module _ (ops : FloatOps) (config : LifecycleConfig) where
  -- The plans of the listed experiences, in their order.
  unfoldable pub plan_all :
      (ℕ → Bool) → ℕ → ℕ → List LifecycleRecord → Result (List (Option LifecycleMutation))
  plan_all dependents at cycle_id [] = ok []
  plan_all dependents at cycle_id (r ∷ rs) = do
    plan ← plan_mutation ops r config at cycle_id (dependents r.experience_id)
    rest ← plan_all dependents at cycle_id rs
    ok (plan ∷ rest)

  -- The writer on each plan: the events that it appends.
  unfoldable pub apply_all :
      (ℕ → ℕ → Option Current)
      → Append
      → List LifecycleMutation
      → Result (List (PendingEvent Payload))
  apply_all lookup append [] = ok []
  apply_all lookup append (m ∷ ms) = do
    applied ←
        apply_ordered_events config m.lifecycle_record.experience_id m.resulting_state m.events
          (lookup m.lifecycle_record.experience_id) append
    rest ← apply_all lookup append ms
    ok (applied.appended ++ rest)

  -- The body of the try statement.
  unfoldable pub run_cycle : RunInputs → (cycle_id at : ℕ) → World → Result (StoredResponse × World)
  unfolding plan_all apply_all eligible_plans transitions_in archives_in ordered_idea_events
      lifecycle_result_valid
  run_cycle inputs cycle_id at world = do
    listed ← inputs.listed
    plans ← plan_all inputs.has_active_dependents at cycle_id listed
    let eligible : List LifecycleMutation = eligible_plans plans
    appended ← apply_all inputs.lookup inputs.append_events eligible
    supplied ← inputs.idea_events
    ideas ← ordered_idea_events supplied at cycle_id
    append_all_ideas inputs.append_ideas ideas
    let result : LifecycleResult = record {
      cycle_id = cycle_id;
      evaluated_at = at;
      evaluated_count = length eligible;
      transition_count = transitions_in eligible;
      archive_count = archives_in eligible;
      idea_archive_count = length ideas;
    }
    require (lifecycle_result_valid result) value_error
    ok (
      cycle_response result,
      record world {
        appended = world.appended ++ appended;
        appended_ideas = world.appended_ideas ++ ideas;
      },
    )

  -- What runs when the cycle is not complete: the claim, the second look, the body, the release.
  unfoldable pub leased :
      RunInputs → CommandContext → (cycle_id at : ℕ) → World → Result (StoredResponse × World)
  unfolding once releasing run_cycle claim_lease
  leased inputs command cycle_id at world = do
    require (leb (ops.timedelta_seconds config.lease_duration_seconds) max_timedelta) overflow_error
    (acquired, lease) ←
        claim_lease world.lease command.receipt_id inputs.clock_now
          (ops.timedelta_seconds config.lease_duration_seconds)
    run_error inputs.mode acquired
    let claimed : World = record world { lease = lease }
    releasing claimed command.receipt_id
        (once claimed.receipts cycle_id claimed (run_cycle inputs cycle_id at claimed))

  unfoldable pub run : RunInputs → CommandContext → World → Result (StoredResponse × World)
  unfolding requested_at once leased
  run inputs command world = do
    require inputs.immediate runtime_error
    authorized (
        str_eq command.scope.caller_scope "system:local"
        && str_eq command.scope.operation_scope "lifecycle.run")
    require (is_some inputs.evaluated_at || is_manual inputs.mode) value_error
    at ← requested_at world.receipts command inputs.evaluated_at
    require (leb at inputs.clock_now) (
        replayable "invalid_evaluated_at"
          "Lifecycle evaluation time must be UTC-aware and not in the future" [] 422)
    authorized (command.request_hash == inputs.expected_hash inputs.evaluated_at inputs.mode)
    let cycle_id : ℕ = inputs.cycle_of at
    receipts ← attach_resource world.receipts command.receipt_id "lifecycle_cycle" cycle_id
    let attached : World = record world { receipts = receipts }
    once receipts cycle_id attached (leased inputs command cycle_id at attached)
