-- ===== src/Storage/Idempotency/Attach.antt =====
-- Attaching a resource, which is what handlers do to their own receipt.
use text.Mathlib.TextPositions.{eq_refl}
use experience_hub.Prelude.{
  ℕ, ◌≤◌, ◌≡◌, refl, inl, inr, ◌⊎◌, Bool, true, ◌&&◌, Option, none, some, List, [], ◌∷◌, String,
  arith, ◌==◌, ==_refl, Bool-cases, ok, ok-injective, opt_eq,
}
use experience_hub.Storage.Idempotency.{
  Receipt, opt_str_eq, is_in_progress, find_id, update_where, row_count, attachable, with_resource,
  attached_already, attach_resource,
}

module _ (receipt_id : ℕ) (resource_type : String) (resource_id : ℕ) where
  -- A row that is left as it is, or the named one, unfinished and without a resource, which is
  -- given the resource and keeps its other columns.
  abbrev pub IsAttached : Receipt → Receipt → Type 0
  IsAttached a b =
      (a ≡ b)
      ⊎ ((a.receipt_id ≡ receipt_id)
          × (is_in_progress a.state ≡ true)
          × (a.result_resource_type ≡ none)
          × (a.result_resource_id ≡ none)
          × (b ≡ with_resource resource_type resource_id a))

  abbrev pub AllAttached : List Receipt → List Receipt → Type 0
  AllAttached [] [] = Unit
  AllAttached (a ∷ as') (b ∷ bs) = IsAttached a b × AllAttached as' bs
  AllAttached _ _ = ⊥

  -- The named row, with the resource.
  abbrev pub has_resource : Receipt → Bool
  has_resource r =
      r.receipt_id == receipt_id
      && opt_str_eq r.result_resource_type (some resource_type)
      && opt_eq r.result_resource_id (some resource_id)

  AllAttached-refl : (rows : List Receipt) → AllAttached rows rows
  AllAttached-refl [] = tt
  AllAttached-refl (r ∷ rows) = (inl refl, AllAttached-refl rows)

  attachable-IsAttached :
      (r : Receipt)
      → attachable receipt_id r ≡ true
      → IsAttached r (with_resource resource_type resource_id r)
  unfolding attachable
  attachable-IsAttached r t = ground arith

  update-AllAttached :
      (rows : List Receipt)
      → AllAttached rows
          (update_where (attachable receipt_id) (with_resource resource_type resource_id) rows)
  unfolding update_where
  update-AllAttached [] = tt
  update-AllAttached (r ∷ rows) = elim (Bool-cases (attachable receipt_id r)) [
    | inl t ↦ rw t (attachable-IsAttached r t, update-AllAttached rows)
    | inr n ↦ rw n (inl refl, update-AllAttached rows)
  ]

  updated-has_resource :
      (r : Receipt)
      → attachable receipt_id r ≡ true
      → has_resource (with_resource resource_type resource_id r) ≡ true
  unfolding attachable
  updated-has_resource r t = ground (arith, eq_refl resource_type, ==_refl resource_id)

  row_count-update :
      (rows : List Receipt)
      → row_count (attachable receipt_id) rows
        ≤ row_count has_resource
            (update_where (attachable receipt_id) (with_resource resource_type resource_id) rows)
  unfolding update_where row_count
  row_count-update [] = omega arith
  row_count-update (r ∷ rows) =
      let rest = row_count-update rows in
      elim (Bool-cases (attachable receipt_id r)) [
        | inl t ↦ rw (t, updated-has_resource r t) (omega arith)
        | inr n ↦ rw n (ground (arith, rest))
      ]

  found-has_resource :
      (rows : List Receipt) (r : Receipt)
      → find_id receipt_id rows ≡ some r
      → opt_str_eq r.result_resource_type (some resource_type) ≡ true
      → opt_eq r.result_resource_id (some resource_id) ≡ true
      → 1 ≤ row_count has_resource rows
  unfolding find_id row_count
  found-has_resource [] r f p q = ground arith
  found-has_resource (a ∷ rows) r f p q = elim (Bool-cases (a.receipt_id == receipt_id)) [
    | inl t ↦ ground (arith, f)
    | inr n ↦ ground (arith, found-has_resource rows r (rw n at f) p q)
  ]

  already-IsAttached :
      (rows out : List Receipt) (found : Option Receipt)
      → find_id receipt_id rows ≡ found
      → attached_already resource_type resource_id rows found ≡ ok out
      → AllAttached rows out × (1 ≤ row_count has_resource out)
  unfolding attached_already
  already-IsAttached rows out none f h = ground arith
  already-IsAttached rows out (some r) f h =
      elim (Bool-cases (opt_str_eq r.result_resource_type (some resource_type))) [
        | inl t ↦ elim (Bool-cases (opt_eq r.result_resource_id (some resource_id))) [
          | inl u ↦
              rw (← ok-injective (rw (t, u) at h))
                (AllAttached-refl rows, found-has_resource rows r f t u)
          | inr m ↦ ground (arith, h)
        ]
        | inr n ↦ ground (arith, h)
      ]

  -- Attaching a resource succeeds with the table in which at most the named row has changed, which
  -- was unfinished and without a resource, and in which the named row has the resource.
  pub attach_resource-IsAttached :
      (rows out : List Receipt)
      → attach_resource rows receipt_id resource_type resource_id ≡ ok out
      → AllAttached rows out × (1 ≤ row_count has_resource out)
  unfolding attach_resource
  attach_resource-IsAttached rows out h =
      elim (Bool-cases (row_count (attachable receipt_id) rows == 1)) [
        | inl t ↦
            rw (← ok-injective (rw t at h))
              (update-AllAttached rows, ground (arith, row_count-update rows))
        | inr n ↦ already-IsAttached rows out (find_id receipt_id rows) refl (rw n at h)
      ]
