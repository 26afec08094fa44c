-- ===== src/Lifecycle/Lease.antt =====
-- The lifecycle lease of src/experience_hub/lifecycle/repository.py: the single row of its table,
-- which is absent until the first claim. Owners are UUIDs; times and durations are microseconds.
pub mod Exclusion
use experience_hub.Prelude.{
  ℕ, ◌+◌, Bool, true, false, ◌&&◌, not, Option, none, some, List, [], ◌∷◌, ltb, ◌==◌, opt_eq,
  is_some, if◌then◌else◌, Result, ok, err, require, value_error, overflow_error, leb, ◌>>=◌, ◌>>◌,
}
use experience_hub.Floats.{max_datetime}

-- LifecycleLeaseRow
pub record LeaseRow : Type 0 where
  pub owner_id : Option ℕ
  pub acquired_at : Option ℕ
  pub expires_at : Option ℕ

abbrev pub free_lease : LeaseRow
free_lease = record { owner_id = none; acquired_at = none; expires_at = none }

-- The row after ensure_lease.
abbrev pub ensure_lease : Option LeaseRow → LeaseRow
ensure_lease none = free_lease
ensure_lease (some lease) = lease

abbrev later_than : Option ℕ → ℕ → Bool
later_than none at = false
later_than (some t) at = ltb at t

-- Another owner holds the row, and has not let it expire.
unfoldable pub held_by_other : LeaseRow → ℕ → ℕ → Bool
held_by_other lease owner_id at =
    is_some lease.owner_id
    && not (opt_eq lease.owner_id (some owner_id))
    && is_some lease.expires_at
    && later_than lease.expires_at at

-- claim_lease: whether it was acquired, and the table.
unfoldable pub claim_lease : Option LeaseRow → ℕ → ℕ → ℕ → Result (Bool × Option LeaseRow)
unfolding held_by_other
claim_lease table owner_id at ttl = do
  require (ltb 0 ttl) value_error
  let lease : LeaseRow = ensure_lease table
  let free : Result (Bool × Option LeaseRow) = (do
    require (leb (at + ttl) max_datetime) overflow_error
    ok (
      true,
      some (record {
        owner_id = some owner_id;
        acquired_at = some at;
        expires_at = some (at + ttl);
      }),
    ))
  if held_by_other lease owner_id at then ok (false, some lease) else free

-- release_lease: whether it was released, and the table.
unfoldable pub release_lease : Option LeaseRow → ℕ → Bool × Option LeaseRow
release_lease none owner_id = (false, none)
release_lease (some lease) owner_id =
    if opt_eq lease.owner_id (some owner_id) then (true, some free_lease) else (false, some lease)

-- What the users of the lease do to it, one transaction after another.
pub data Step : Type 0 where
  claim : (owner_id at ttl : ℕ) → Step
  release : (owner_id : ℕ) → Step

abbrev table_of : Option LeaseRow → Result (Bool × Option LeaseRow) → Option LeaseRow
table_of table (ok (_, next)) = next
table_of table (err _) = table

-- The table after a transaction, which a failure leaves as it was.
unfoldable pub step : Option LeaseRow → Step → Option LeaseRow
unfolding claim_lease release_lease
step table (claim owner_id at ttl) = table_of table (claim_lease table owner_id at ttl)
step table (release owner_id) = (release_lease table owner_id).1

unfoldable pub steps : Option LeaseRow → List Step → Option LeaseRow
unfolding step
steps table [] = table
steps table (s ∷ rest) = steps (step table s) rest
