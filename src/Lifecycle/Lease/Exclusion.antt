-- ===== src/Lifecycle/Lease/Exclusion.antt =====
-- Who holds the lease while it has not expired.
use experience_hub.Prelude.{
  ℕ, ◌+◌, ◌<◌, ◌≡◌, ◌≢◌, refl, ap, ◌∙◌, true, false, Option, some, List, [], ◌∷◌, arith, ok,
  ==_refl,
}
use experience_hub.Lifecycle.Lease.{
  LeaseRow, Step, claim, release, held_by_other, claim_lease, release_lease, step, steps,
}

-- A transaction of another owner, made before the lease expires.
abbrev pub IsForeign : ℕ → ℕ → Step → Type 0
IsForeign owner expiry (claim other at ttl) = (other ≢ owner) × (at < expiry)
IsForeign owner expiry (release other) = other ≢ owner

abbrev pub AllForeign : ℕ → ℕ → List Step → Type 0
AllForeign owner expiry [] = Unit
AllForeign owner expiry (s ∷ rest) = IsForeign owner expiry s × AllForeign owner expiry rest

abbrev pub held : ℕ → ℕ → ℕ → Option LeaseRow
held owner at ttl =
    some (record { owner_id = some owner; acquired_at = some at; expires_at = some (at + ttl) })

module _ (owner at ttl : ℕ) where
  foreign_step :
      (s : Step) → IsForeign owner (at + ttl) s → step (held owner at ttl) s ≡ held owner at ttl
  unfolding step claim_lease release_lease held_by_other
  foreign_step (claim other later other_ttl) (n, l) = ground arith
  foreign_step (release other) n = ground arith

  foreign_steps :
      (rest : List Step)
      → AllForeign owner (at + ttl) rest
      → steps (held owner at ttl) rest ≡ held owner at ttl
  unfolding steps
  foreign_steps [] h = refl
  foreign_steps (s ∷ rest) h =
      ap (λ table. steps table rest) (foreign_step s h.0) ∙ foreign_steps rest h.1

  acquired :
      (table next : Option LeaseRow)
      → claim_lease table owner at ttl ≡ ok (true, next)
      → next ≡ held owner at ttl
  unfolding claim_lease
  acquired table next c = ground arith

  refused :
      (other later other_ttl : ℕ)
      → other ≢ owner
      → later < at + ttl
      → 0 < other_ttl
      → claim_lease (held owner at ttl) other later other_ttl ≡ ok (false, held owner at ttl)
  unfolding claim_lease held_by_other
  refused other later other_ttl n l p = ground arith

  released : (release_lease (held owner at ttl) owner).0 ≡ true
  unfolding release_lease
  released = ground (arith, ==_refl owner)

  -- An owner who acquires the lease keeps it: whatever other owners claim before it expires, or
  -- release, the row stays as the owner's claim wrote it, a claim by another owner fails, and the
  -- owner's release then succeeds.
  pub claim-Exclusive :
      (table : Option LeaseRow) (next : Option LeaseRow) (rest : List Step)
      (other later other_ttl : ℕ)
      → claim_lease table owner at ttl ≡ ok (true, next)
      → AllForeign owner (at + ttl) rest
      → other ≢ owner
      → later < at + ttl
      → 0 < other_ttl
      → (steps next rest ≡ held owner at ttl)
        × (claim_lease (steps next rest) other later other_ttl ≡ ok (false, held owner at ttl))
        × ((release_lease (steps next rest) owner).0 ≡ true)
  claim-Exclusive table next rest other later other_ttl c f n l p =
      let same : steps next rest ≡ held owner at ttl =
        ap (λ t. steps t rest) (acquired table next c) ∙ foreign_steps rest f in
      (
        same,
        ap (λ t. claim_lease t other later other_ttl) same ∙ refused other later other_ttl n l p,
        ap (λ t. (release_lease t owner).0) same ∙ released,
      )
