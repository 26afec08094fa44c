-- ===== src/Storage/Idempotency/Rows.antt =====
-- The receipt table under the updates of its rows.
use text.Mathlib.TextPositions.{eq_refl}
use experience_hub.Prelude.{
  ℕ, ◌≡◌, refl, ap, ◌⊎◌, inl, inr, Bool, true, false, none, some, List, [], ◌∷◌, ◌++◌, String,
  arith, Bool-cases,
}
use experience_hub.Storage.Idempotency.{
  Scope, scope_eq, Receipt, is_in_progress, receipt_valid, ReceiptReservation, new_row, find_scope,
  update_where, row_count, StoredResponse, with_resource, with_response, same_identity, completable,
}

pub scope_eq_refl : (k : Scope) → scope_eq k k ≡ true
unfolding scope_eq
scope_eq_refl k =
    ground (arith, eq_refl k.caller_scope, eq_refl k.operation_scope, eq_refl k.idempotency_key)

-- A row that is kept as it is, or an unfinished one that is given its resource.
abbrev pub IsKept : Receipt → Receipt → Type 0
IsKept a b =
    (a ≡ b)
    ⊎ ((resource_type : String) × (resource_id : ℕ) × (is_in_progress a.state ≡ true)
        × (b ≡ with_resource resource_type resource_id a))

-- The table is kept row by row.
abbrev pub KeptRows : List Receipt → List Receipt → Type 0
KeptRows [] [] = Unit
KeptRows (a ∷ as') (b ∷ bs) = IsKept a b × KeptRows as' bs
KeptRows _ _ = ⊥

pub KeptRows-refl : (rows : List Receipt) → KeptRows rows rows
KeptRows-refl [] = tt
KeptRows-refl (r ∷ rows) = (inl refl, KeptRows-refl rows)

kept_scope : (a b : Receipt) → IsKept a b → b.scope ≡ a.scope
kept_scope a b (inl e) = rw (← e)
kept_scope a b (inr (t, i, p, e)) = rw e

module _ (v : ReceiptReservation) (response : StoredResponse) (at : ℕ) where
  abbrev pub test : Receipt → Bool
  test = completable v.receipt_id (some v)

  -- The row of the reservation, as a handler leaves it, is completed.
  reserved-completable : (b : Receipt) → IsKept (new_row v) b → test b ≡ true
  unfolding completable same_identity
  reserved-completable b (inl e) = rw (← e) (ground (arith, scope_eq_refl v.scope))
  reserved-completable b (inr (t, i, p, e)) = rw e (ground (arith, scope_eq_refl v.scope))

  other-not_completable :
      (a b : Receipt) → IsKept a b → scope_eq a.scope v.scope ≡ false → test b ≡ false
  unfolding completable same_identity
  other-not_completable a b (inl e) n = rw (← e) (ground arith)
  other-not_completable a b (inr (t, i, p, e)) n = rw e (ground arith)

  pub completed_row :
      (rows done : List Receipt)
      → find_scope v.scope rows ≡ none
      → KeptRows (rows ++ new_row v ∷ []) done
      → (b : Receipt) × IsKept (new_row v) b
        × (row_count test done ≡ 1)
        × (find_scope v.scope (update_where test (with_response response at) done)
            ≡ some (with_response response at b))
  unfolding find_scope update_where row_count
  completed_row [] [] f k = elim k [ ]
  completed_row [] (b ∷ c ∷ done) f k = elim k.1 [ ]
  completed_row [] (b ∷ []) f k =
      let t : test b ≡ true = reserved-completable b k.0 in
      (b, k.0, rw t, rw t (rw (kept_scope (new_row v) b k.0) (rw (scope_eq_refl v.scope))))
  completed_row (a ∷ rows) [] f k = elim k [ ]
  completed_row (a ∷ rows) (b ∷ done) f k = elim (Bool-cases (scope_eq a.scope v.scope)) [
    | inl t ↦ cc (rw t at f)
    | inr n ↦
        let (r, kept, counted, found) = completed_row rows done (rw n at f) k.1 in
        let other : test b ≡ false = other-not_completable a b k.0 n in
        let scope : scope_eq b.scope v.scope ≡ false = rw (kept_scope a b k.0) n in
        (r, kept, rw other counted, rw other (rw scope found))
  ]

  -- With no other row of its scope, completing the reservation's row changes that row alone.
  pub completed_last :
      (rows : List Receipt)
      → find_scope v.scope rows ≡ none
      → update_where test (with_response response at) (rows ++ new_row v ∷ [])
        ≡ rows ++ with_response response at (new_row v) ∷ []
  unfolding find_scope update_where
  completed_last [] f = rw (reserved-completable (new_row v) (inl refl))
  completed_last (a ∷ rows) f = elim (Bool-cases (scope_eq a.scope v.scope)) [
    | inl t ↦ cc (rw t at f)
    | inr n ↦
        rw (other-not_completable a a (inl refl) n)
          (ap (λ rest. a ∷ rest) (completed_last rows (rw n at f)))
  ]

  pub completed-valid :
      (b : Receipt) → IsKept (new_row v) b → receipt_valid (with_response response at b) ≡ true
  unfolding receipt_valid
  completed-valid b (inl e) = rw (← e)
  completed-valid b (inr (t, i, p, e)) = rw e

  pub kept_hash : (b : Receipt) → IsKept (new_row v) b → b.request_hash ≡ v.request_hash
  kept_hash b (inl e) = rw (← e)
  kept_hash b (inr (t, i, p, e)) = rw e
