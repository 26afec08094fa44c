-- ===== src/Inspiration/Dedup/Batches.antt =====
-- The ideas of an operator before those of later operators, under the checks of the result.
use experience_hub.Prelude.{
  ℕ, ◌+◌, ◌≤◌, ◌<◌, ◌≡◌, ◌⊎◌, inl, inr, refl, true, false, List, [], ◌∷◌, ◌++◌, arith, length, all,
  All, ==_refl,
}
use experience_hub.Inspiration.Dedup.{
  InspirationOperator, operator_order, operator_eq, OperatorOutcome, RetainedIdea, ordered_from,
  contiguous_from, outcomes_from, persisted_by, has_outcome, count_matches, idea_valid,
}
use experience_hub.Inspiration.Dedup.Own.{AreNumbered}

-- The ideas are of operators from the k-th on.
abbrev pub AllFrom : ℕ → List RetainedIdea → Type 0
AllFrom k ideas = All (λ i. k ≤ operator_order i.operator) ideas

pub from_less : (j k : ℕ) (is : List RetainedIdea) → j ≤ k → AllFrom k is → AllFrom j is
from_less j k [] le h = tt
from_less j k (i ∷ is) le (p, h) = (omega arith, from_less j k is le h)

absent_contiguous :
    (operator : InspirationOperator) (n : ℕ) (rest : List RetainedIdea)
    → AllFrom (operator_order operator + 1) rest
    → contiguous_from operator n rest ≡ true
unfolding contiguous_from
absent_contiguous operator n [] h = refl
absent_contiguous operator n (i ∷ is) (p, h) = ground (arith, absent_contiguous operator n is h)

absent_persisted :
    (operator : InspirationOperator) (rest : List RetainedIdea)
    → AllFrom (operator_order operator + 1) rest
    → persisted_by operator rest ≡ 0
unfolding persisted_by
absent_persisted operator [] h = refl
absent_persisted operator (i ∷ is) (p, h) = ground (arith, absent_persisted operator is h)

module _ (operator : InspirationOperator) (rest : List RetainedIdea)
    (later : AllFrom (operator_order operator + 1) rest) where
  pub own_from :
      (n : ℕ) (own : List RetainedIdea)
      → AreNumbered operator n own
      → AllFrom (operator_order operator) (own ++ rest)
  own_from n [] h = from_less _ _ rest (omega arith) later
  own_from n (i ∷ is) (p, q, h) = (rw (p) (omega arith), own_from (n + 1) is h)

  pub own_ordered :
      (n : ℕ) (own : List RetainedIdea) (order ordinal : ℕ)
      → AreNumbered operator n own
      → (order < operator_order operator) ⊎ ((order ≡ operator_order operator) × (ordinal ≤ n))
      → ((o m : ℕ) → o ≤ operator_order operator → ordered_from o m rest ≡ true)
      → ordered_from order ordinal (own ++ rest) ≡ true
  unfolding ordered_from
  own_ordered n [] order ordinal h (inl less) follow = follow order ordinal (omega arith)
  own_ordered n [] order ordinal h (inr (same, le)) follow = follow order ordinal (omega arith)
  own_ordered n (i ∷ is) order ordinal (p, q, h) (inl less) follow = rw (p) (
      ground (
        arith,
        own_ordered (n + 1) is (operator_order operator) i.ordinal h (inr (refl, omega arith))
            follow,
      ))
  own_ordered n (i ∷ is) order ordinal (p, q, h) (inr (same, le)) follow = rw (p) (
      ground (
        arith,
        own_ordered (n + 1) is (operator_order operator) i.ordinal h (inr (refl, omega arith))
            follow,
      ))

  pub own_contiguous :
      (n : ℕ) (own : List RetainedIdea)
      → AreNumbered operator n own
      → contiguous_from operator n (own ++ rest) ≡ true
  unfolding contiguous_from
  own_contiguous n [] h = absent_contiguous operator n rest later
  own_contiguous n (i ∷ is) (p, q, h) =
      rw (p) (ground (arith, ==_refl (operator_order operator), own_contiguous (n + 1) is h))

  pub other_contiguous :
      (other : InspirationOperator) (n m : ℕ) (own : List RetainedIdea)
      → operator_eq operator other ≡ false
      → AreNumbered operator n own
      → contiguous_from other m rest ≡ true
      → contiguous_from other m (own ++ rest) ≡ true
  unfolding contiguous_from
  other_contiguous other n m [] d h c = c
  other_contiguous other n m (i ∷ is) d (p, q, h) c =
      rw (p, d) (other_contiguous other (n + 1) m is d h c)

  pub own_persisted :
      (n : ℕ) (own : List RetainedIdea)
      → AreNumbered operator n own
      → persisted_by operator (own ++ rest) ≡ length own
  unfolding persisted_by
  own_persisted n [] h = absent_persisted operator rest later
  own_persisted n (i ∷ is) (p, q, h) =
      rw (p) (ground (arith, ==_refl (operator_order operator), own_persisted (n + 1) is h))

  other_persisted :
      (other : InspirationOperator) (n : ℕ) (own : List RetainedIdea)
      → operator_order operator < operator_order other
      → AreNumbered operator n own
      → persisted_by other (own ++ rest) ≡ persisted_by other rest
  unfolding persisted_by
  other_persisted other n [] d h = refl
  other_persisted other n (i ∷ is) d (p, q, h) =
      rw (p) (ground (arith, other_persisted other (n + 1) is d h))

  pub counts_kept :
      (n k : ℕ) (own : List RetainedIdea) (outcomes : List OperatorOutcome)
      → AreNumbered operator n own
      → operator_order operator < k
      → outcomes_from k outcomes ≡ true
      → all (count_matches rest) outcomes ≡ true
      → all (count_matches (own ++ rest)) outcomes ≡ true
  unfolding outcomes_from
  counts_kept n k own [] h l f c = refl
  counts_kept n k own (o ∷ os) h l f c = ground (
    arith,
    other_persisted o.operator n own (ground arith) h,
    counts_kept n (operator_order o.operator + 1) own os h (ground arith) (ground arith)
        (ground arith),
  )

  pub own_valid :
      (n : ℕ) (own : List RetainedIdea)
      → AreNumbered operator n own
      → 1 ≤ n
      → n + length own ≤ 4
      → all idea_valid rest ≡ true
      → all idea_valid (own ++ rest) ≡ true
  own_valid n [] h le few v = v
  own_valid n (i ∷ is) (p, q, h) le few v =
      ground (arith, own_valid (n + 1) is h (omega arith) (omega arith) v)

  pub own_has :
      (n : ℕ) (own : List RetainedIdea) (o : OperatorOutcome) (os : List OperatorOutcome)
      → AreNumbered operator n own
      → o.operator ≡ operator
      → all (has_outcome (o ∷ os)) rest ≡ true
      → all (has_outcome (o ∷ os)) (own ++ rest) ≡ true
  own_has n [] o os h e r = r
  own_has n (i ∷ is) o os (p, q, h) e r =
      rw (p, e) (ground (arith, ==_refl (operator_order operator), own_has (n + 1) is o os h e r))

pub has_more :
    (o : OperatorOutcome) (os : List OperatorOutcome) (is : List RetainedIdea)
    → all (has_outcome os) is ≡ true
    → all (has_outcome (o ∷ os)) is ≡ true
has_more o os [] h = refl
has_more o os (i ∷ is) h = ground (arith, has_more o os is (ground arith))
