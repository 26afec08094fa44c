-- ===== src/Inspiration/Dedup/Order.antt =====
-- The order of the batches: each operator once, and in the canonical order.
use experience_hub.Prelude.{
  ℕ, ◌+◌, ◌≤◌, ◌≡◌, inl, inr, refl, Bool, true, false, List, [], ◌∷◌, arith, any, Bool-cases, leb,
}
use experience_hub.Inspiration.Dedup.{
  InspirationOperator, operator_order, operator_eq, ValidatedOperatorBatch, insert_batch,
  sorted_batches, distinct_batches,
}

-- The batches are of operators from the k-th on, each once and in order.
abbrev pub Ascending : ℕ → List ValidatedOperatorBatch → Type 0
Ascending k [] = Unit
Ascending k (b ∷ bs) =
    (k ≤ operator_order b.operator) × Ascending (operator_order b.operator + 1) bs

abbrev among : InspirationOperator → List ValidatedOperatorBatch → Bool
among operator bs = any (λ (c : ValidatedOperatorBatch). operator_eq operator c.operator) bs

insert-absent :
    (operator : InspirationOperator) (b : ValidatedOperatorBatch) (bs : List ValidatedOperatorBatch)
    → operator_eq operator b.operator ≡ false
    → among operator bs ≡ false
    → among operator (insert_batch b bs) ≡ false
unfolding insert_batch
insert-absent operator b [] n h = ground arith
insert-absent operator b (c ∷ cs) n h = ground (arith, insert-absent operator b cs n (ground arith))

sorted-absent :
    (operator : InspirationOperator) (bs : List ValidatedOperatorBatch)
    → among operator bs ≡ false
    → among operator (sorted_batches bs) ≡ false
unfolding sorted_batches
sorted-absent operator [] h = refl
sorted-absent operator (b ∷ bs) h =
    insert-absent operator b (sorted_batches bs) (ground arith)
      (sorted-absent operator bs (ground arith))

insert-Ascending :
    (k : ℕ) (b : ValidatedOperatorBatch) (bs : List ValidatedOperatorBatch)
    → k ≤ operator_order b.operator
    → among b.operator bs ≡ false
    → Ascending k bs
    → Ascending k (insert_batch b bs)
unfolding insert_batch
insert-Ascending k b [] le n h = (le, tt)
insert-Ascending k b (c ∷ cs) le n (h, hs) =
    elim (Bool-cases (leb (operator_order b.operator) (operator_order c.operator))) [
      | inl t ↦ rw (insert_batch, t) (le, (ground arith, hs))
      | inr f ↦
          rw (insert_batch, f)
            (
              h,
              insert-Ascending (operator_order c.operator + 1) b cs (ground arith) (ground arith)
                  hs,
            )
    ]

pub sorted-Ascending :
    (bs : List ValidatedOperatorBatch)
    → distinct_batches bs ≡ true
    → Ascending 0 (sorted_batches bs)
unfolding sorted_batches distinct_batches
sorted-Ascending [] h = tt
sorted-Ascending (b ∷ bs) h =
    insert-Ascending 0 b (sorted_batches bs) (omega arith)
      (sorted-absent b.operator bs (ground arith)) (sorted-Ascending bs (ground arith))
