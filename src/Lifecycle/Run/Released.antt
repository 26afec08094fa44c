-- ===== src/Lifecycle/Run/Released.antt =====
-- The finally statement of LifecycleService.run: the lease after a run.
use experience_hub.Prelude.{
  ℕ, ◌≡◌, ◌≢◌, ◌⊎◌, require-ok, overflow_error, ◌&&◌, ◌||◌, is_some, leb, ◌==◌, require,
  value_error, runtime_error, replayable, ◌>>=◌, sym, ap, ◌∙◌, Bool, true, false, Option, none,
  some, List, [], ok, Result, >>=-eq-ok, Bool-cases, inl, inr, ok-injective, ==_refl, arith,
}
use text.Mathlib.Text.{◌==◌ as str_eq}
use experience_hub.Floats.{FloatOps, max_timedelta}
use experience_hub.Scoring.{LifecycleConfig}
use experience_hub.Storage.Idempotency.{Receipt, StoredResponse, attach_resource}
use experience_hub.Storage.Idempotency.Executor.{CommandContext}
use experience_hub.Lifecycle.Lease.{
  LeaseRow, free_lease, held_by_other, claim_lease, release_lease, ensure_lease,
}
use experience_hub.Lifecycle.Run.{
  World, RunInputs, LifecycleRunMode, authorized, requested_at, run_error, is_manual, once, leased,
  run_cycle, releasing, run,
}
use experience_hub.Lifecycle.Run.Receipts.{find_completed_resource, completed_cycle_response}

-- The stored response of a completed cycle, and nothing done.
abbrev pub IsAnswered : List Receipt → ℕ → World → StoredResponse → World → Type 0
IsAnswered receipts cycle_id before response after =
    (r : Receipt) × (find_completed_resource "lifecycle_cycle" cycle_id receipts ≡ ok (some r))
    × (completed_cycle_response r ≡ ok response)
    × (after ≡ before)

once-cases :
    (receipts : List Receipt) (cycle_id : ℕ) (world : World)
    (body : Result (StoredResponse × World)) (response : StoredResponse) (after : World)
    → once receipts cycle_id world body ≡ ok (response, after)
    → IsAnswered receipts cycle_id world response after
      ⊎ ((find_completed_resource "lifecycle_cycle" cycle_id receipts ≡ ok none)
          × (body ≡ ok (response, after)))
unfolding once
once-cases receipts cycle_id world body response after h =
    let (prior, p, h₁) =
      >>=-eq-ok (find_completed_resource "lifecycle_cycle" cycle_id receipts) _ h in
    answered prior p h₁
  where
    answered :
        (prior : Option Receipt)
        → find_completed_resource "lifecycle_cycle" cycle_id receipts ≡ ok prior
        → elim prior [
          | none ↦ body
          | some r ↦ (do response ← completed_cycle_response r; ok (response, world))
        ]
          ≡ ok (response, after)
        → IsAnswered receipts cycle_id world response after
          ⊎ ((find_completed_resource "lifecycle_cycle" cycle_id receipts ≡ ok none)
              × (body ≡ ok (response, after)))
    answered none p e = inr (p, e)
    answered (some r) p e =
        let (found, q, e₁) = >>=-eq-ok (completed_cycle_response r) _ e in
        let same = ok-injective e₁ in
        inl (
          r,
          p,
          q ∙ ap (λ (x : StoredResponse × World). ok x.0) same,
          sym (ap (λ (x : StoredResponse × World). x.1) same),
        )

releasing-cases :
    (world : World) (owner_id : ℕ) (body : Result (StoredResponse × World))
    (response : StoredResponse) (after : World)
    → releasing world owner_id body ≡ ok (response, after)
    → (end : World) × (body ≡ ok (response, end))
      × (after ≡ record end { lease = (release_lease world.lease owner_id).1 })
unfolding releasing
releasing-cases world owner_id body response after h =
    let (u, p, h₁) = >>=-eq-ok (require (release_lease world.lease owner_id).0 runtime_error) _ h in
    let ((answer, end), q, h₂) = >>=-eq-ok body _ h₁ in
    let same = ok-injective h₂ in
    (
      end,
      q ∙ ap (λ (x : StoredResponse × World). ok (x.0, end)) same,
      sym (ap (λ (x : StoredResponse × World). x.1) same),
    )

contradicts : (r : Receipt) → ok none ≢ ok (some r)
contradicts r e = cc

claim-released :
    (table lease : Option LeaseRow) (owner_id at ttl : ℕ) (acquired : Bool) (u : Unit {0})
    (mode : LifecycleRunMode)
    → claim_lease table owner_id at ttl ≡ ok (acquired, lease)
    → run_error mode acquired ≡ ok u
    → (held_by_other (ensure_lease table) owner_id at ≡ false)
      × ((release_lease lease owner_id).1 ≡ some free_lease)
unfolding claim_lease release_lease held_by_other
claim-released table lease owner_id at ttl true u mode h q =
    elim (Bool-cases (held_by_other (ensure_lease table) owner_id at)) [
      | inl t ↦ ground (arith, h)
      | inr f ↦ (f, ground (arith, h, f, ==_refl owner_id))
    ]
claim-released table lease owner_id at ttl false u mode h q = cc

module _ (ops : FloatOps) (config : LifecycleConfig) (inputs : RunInputs) (command : CommandContext)
    (world : World) where
  -- The cycle ran while the owner held the lease, which no other owner held, and which is free
  -- afterwards.
  abbrev pub IsRun : (cycle_id at : ℕ) → World → StoredResponse → World → Type 0
  IsRun cycle_id at before response after =
      (lease : Option LeaseRow) × (end : World) × (find_completed_resource "lifecycle_cycle"
          cycle_id before.receipts
        ≡ ok none)
      × (held_by_other (ensure_lease before.lease) command.receipt_id inputs.clock_now ≡ false)
      × (claim_lease before.lease command.receipt_id inputs.clock_now
            (ops.timedelta_seconds config.lease_duration_seconds)
          ≡ ok (true, lease))
      × (run_cycle ops config inputs cycle_id at (record before { lease = lease })
          ≡ ok (response, end))
      × (after ≡ record end { lease = some free_lease })

  leased-IsRun :
      (cycle_id at : ℕ) (before : World) (response : StoredResponse) (after : World)
      → find_completed_resource "lifecycle_cycle" cycle_id before.receipts ≡ ok none
      → leased ops config inputs command cycle_id at before ≡ ok (response, after)
      → IsRun cycle_id at before response after
  unfolding leased
  leased-IsRun cycle_id at before response after none_yet h =
      let (w, z, h₀) =
        >>=-eq-ok
          (require (leb (ops.timedelta_seconds config.lease_duration_seconds) max_timedelta)
            overflow_error)
          _ h in
      let ((acquired, lease), p, h₁) =
        >>=-eq-ok
          (claim_lease before.lease command.receipt_id inputs.clock_now
            (ops.timedelta_seconds config.lease_duration_seconds))
          _ h₀ in
      let (u, q, h₂) = >>=-eq-ok (run_error inputs.mode acquired) _ h₁ in
      let claimed : World = record before { lease = lease } in
      let (free, gone) =
        claim-released before.lease lease command.receipt_id inputs.clock_now
          (ops.timedelta_seconds config.lease_duration_seconds) acquired u inputs.mode p q in
      let (end, x, y) = releasing-cases claimed command.receipt_id _ response after h₂ in
      elim (once-cases before.receipts cycle_id claimed
        (run_cycle ops config inputs cycle_id at claimed) response end x) [
          | inl (r, found, _, _) ↦ absurd (contradicts r (sym none_yet ∙ found))
          | inr (_, ran) ↦ (
            lease,
            end,
            none_yet,
            free,
            p ∙ ap (λ (b : Bool). ok (b, lease)) (require-ok acquired _ q),
            ran,
            y ∙ ap (λ (l : Option LeaseRow). record end { lease = l }) gone,
          )
        ]

  abbrev pub IsReleased : StoredResponse → World → Type 0
  IsReleased response after =
      (at : ℕ) × (receipts : List Receipt) × (requested_at world.receipts command
          inputs.evaluated_at
        ≡ ok at)
      × (attach_resource world.receipts command.receipt_id "lifecycle_cycle" (inputs.cycle_of at)
          ≡ ok receipts)
      × (IsAnswered receipts (inputs.cycle_of at) (record world { receipts = receipts }) response
            after
          ⊎ IsRun (inputs.cycle_of at) at (record world { receipts = receipts }) response after)

  -- If a run returns, then either the cycle had a completed receipt, whose response it answers and
  -- beyond its own receipt's resource nothing changes; or it had none, no other owner held an
  -- unexpired lease, the body ran with the lease that the command claimed, and what it left is the
  -- result, with the lease free.
  pub run-IsReleased :
      (response : StoredResponse) (after : World)
      → run ops config inputs command world ≡ ok (response, after)
      → IsReleased response after
  unfolding run
  run-IsReleased response after h =
      let (u₁, p₁, h₁) = >>=-eq-ok (require inputs.immediate runtime_error) _ h in
      let (u₂, p₂, h₂) =
        >>=-eq-ok
          (authorized (
            str_eq command.scope.caller_scope "system:local"
            && str_eq command.scope.operation_scope "lifecycle.run"))
          _ h₁ in
      let (u₃, p₃, h₃) =
        >>=-eq-ok (require (is_some inputs.evaluated_at || is_manual inputs.mode) value_error) _
          h₂ in
      let (at, p₄, h₄) = >>=-eq-ok (requested_at world.receipts command inputs.evaluated_at) _ h₃ in
      let (u₅, p₅, h₅) =
        >>=-eq-ok
          (require (leb at inputs.clock_now) (
            replayable "invalid_evaluated_at"
              "Lifecycle evaluation time must be UTC-aware and not in the future" [] 422))
          _ h₄ in
      let (u₆, p₆, h₆) =
        >>=-eq-ok
          (authorized
            (command.request_hash == inputs.expected_hash inputs.evaluated_at inputs.mode))
          _ h₅ in
      let (receipts, p₇, h₇) =
        >>=-eq-ok
          (attach_resource world.receipts command.receipt_id "lifecycle_cycle" (inputs.cycle_of at))
          _ h₆ in
      let attached : World = record world { receipts = receipts } in
      elim (once-cases receipts (inputs.cycle_of at) attached
        (leased ops config inputs command (inputs.cycle_of at) at attached) response after h₇) [
          | inl same ↦ (at, receipts, p₄, p₇, inl same)
          | inr (none_yet, done) ↦ (
            at,
            receipts,
            p₄,
            p₇,
            inr (leased-IsRun (inputs.cycle_of at) at attached response after none_yet done),
          )
        ]
