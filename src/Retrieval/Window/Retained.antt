-- ===== src/Retrieval/Window/Retained.antt =====
-- What the relevance window retains.
use Prim.Native.Nat.{zero}
use experience_hub.Prelude.{
  ℕ, suc, ◌≤◌, ◌<◌, ◌≡◌, refl, ap, ◌⊎◌, inl, inr, true, List, [], ◌∷◌, arith, leb, leb→le, length,
  All, Bool-cases, ok,
}
use experience_hub.Floats.{FloatOps}
use experience_hub.Scoring.{one}
use experience_hub.Retrieval.Ranked.{RankedCandidate, unrepeated, sort_ranked_candidates}
use experience_hub.Retrieval.Ranked.Stable.{Pairwise, count}
use experience_hub.Retrieval.Ranked.Order.{ranks_before, sort_ranked_candidates_lem}
use experience_hub.Retrieval.Window.{
  take, strongest, at_least, window_minimum, retain_relevance_window,
}

module _ (P : RankedCandidate → Type 0) where
  All-take : (n : ℕ) (cs : List RankedCandidate) → All P cs → All P (take n cs)
  unfolding take
  All-take zero cs h = tt
  All-take (suc n) [] h = tt
  All-take (suc n) (c ∷ cs) h = (h.0, All-take n cs h.1)

  All-at_least : (m : ℕ) (cs : List RankedCandidate) → All P cs → All P (at_least m cs)
  unfolding at_least
  All-at_least m [] h = tt
  All-at_least m (c ∷ cs) h = elim (Bool-cases (leb m c.ranking_relevance)) [
    | inl t ↦ rw t (h.0, All-at_least m cs h.1)
    | inr n ↦ rw n (All-at_least m cs h.1)
  ]

module _ (R : RankedCandidate → RankedCandidate → Type 0) where
  Pairwise-take : (n : ℕ) (cs : List RankedCandidate) → Pairwise R cs → Pairwise R (take n cs)
  unfolding take
  Pairwise-take zero cs h = tt
  Pairwise-take (suc n) [] h = tt
  Pairwise-take (suc n) (c ∷ cs) h = (All-take (R c) n cs h.0, Pairwise-take n cs h.1)

  Pairwise-at_least :
      (m : ℕ) (cs : List RankedCandidate) → Pairwise R cs → Pairwise R (at_least m cs)
  unfolding at_least
  Pairwise-at_least m [] h = tt
  Pairwise-at_least m (c ∷ cs) h = elim (Bool-cases (leb m c.ranking_relevance)) [
    | inl t ↦ rw t (All-at_least (R c) m cs h.0, Pairwise-at_least m cs h.1)
    | inr n ↦ rw n (Pairwise-at_least m cs h.1)
  ]

at_least-Relevant :
    (m : ℕ) (cs : List RankedCandidate) → All (λ c. m ≤ c.ranking_relevance) (at_least m cs)
unfolding at_least
at_least-Relevant m [] = tt
at_least-Relevant m (c ∷ cs) = elim (Bool-cases (leb m c.ranking_relevance)) [
  | inl t ↦ rw t (leb→le m c.ranking_relevance t, at_least-Relevant m cs)
  | inr n ↦ rw n (at_least-Relevant m cs)
]

length-take : (n : ℕ) (cs : List RankedCandidate) → length (take n cs) ≤ n
unfolding take
length-take zero cs = omega arith
length-take (suc n) [] = omega arith
length-take (suc n) (c ∷ cs) = omega (arith, length-take n cs)

take-nonempty : (n : ℕ) (cs : List RankedCandidate) → 1 ≤ n → 0 < length cs → 0 < length (take n cs)
unfolding take
take-nonempty zero cs h k = omega arith
take-nonempty (suc n) [] h k = omega arith
take-nonempty (suc n) (c ∷ cs) h k = omega arith

strongest-at_least :
    (m : ℕ) (c : RankedCandidate) (cs : List RankedCandidate)
    → m ≤ strongest (c ∷ cs)
    → 0 < length (at_least m (c ∷ cs))
unfolding strongest at_least
strongest-at_least m c [] h = ground arith
strongest-at_least m c (d ∷ cs) h = ground (arith, strongest-at_least m d cs)

-- A nonempty list stays so.
some_retained :
    (m : ℕ) (ordered : List RankedCandidate)
    → m ≤ strongest ordered
    → 0 < length ordered
    → 0 < length (at_least m ordered)
some_retained m [] h k = omega arith
some_retained m (c ∷ cs) h k = strongest-at_least m c cs h

length-count : (cs : List RankedCandidate) → count (λ c. true) cs ≡ length cs
unfolding count
length-count [] = refl
length-count (c ∷ cs) = ap suc (length-count cs)

one_retained :
    (limit m : ℕ) (candidates ordered : List RankedCandidate)
    → 1 ≤ limit
    → m ≤ strongest ordered
    → count (λ c. true) ordered ≡ count (λ c. true) candidates
    → (length candidates ≡ 0) ⊎ (0 < length (take limit (at_least m ordered)))
one_retained limit m [] ordered lo le e = inl refl
one_retained limit m (c ∷ cs) ordered lo le e = inr (
    take-nonempty limit (at_least m ordered) lo
      (some_retained m ordered le (omega (arith, e, length-count ordered, length-count (c ∷ cs)))))

module _ (ops : FloatOps) where
  window-le-strongest :
      (ordered : List RankedCandidate) → window_minimum ops ordered ≤ strongest ordered
  unfolding window_minimum
  window-le-strongest ordered =
      let s : ℕ = strongest ordered in
      let r : ℕ = ops.ratio 85 100 in
      let unit : r ≤ one ops =
        ops.ratio_cross 85 100 1 1 (omega arith) (omega arith) (omega arith) in
      omega (arith, ops.mul_comm r s, ops.mul_shrinks s r unit)

  -- For a limit between 1 and 50 and distinct identifiers the window is defined. It retains at most
  -- `limit` candidates, in the order of their ranks, each with at least 0.85 of the strongest
  -- relevance, and it retains one whenever there is one.
  pub retain_relevance_window_lem :
      (candidates : List RankedCandidate) (limit : ℕ)
      → 1 ≤ limit
      → limit ≤ 50
      → unrepeated candidates ≡ true
      → (ordered retained : List RankedCandidate) × (sort_ranked_candidates candidates ≡ ok ordered)
        × (retain_relevance_window ops candidates limit ≡ ok retained)
        × (length retained ≤ limit)
        × Pairwise (λ a b. ranks_before a b ≡ true) retained
        × All (λ c. window_minimum ops ordered ≤ c.ranking_relevance) retained
        × ((length candidates ≡ 0) ⊎ (0 < length retained))
  unfolding retain_relevance_window
  retain_relevance_window_lem candidates limit lo hi d =
      let (ordered, sorts, ranks, same) = sort_ranked_candidates_lem candidates d in
      let m : ℕ = window_minimum ops ordered in
      (
        ordered,
        take limit (at_least m ordered),
        sorts,
        ground (arith, sorts),
        length-take limit (at_least m ordered),
        Pairwise-take _ limit (at_least m ordered) (Pairwise-at_least _ m ordered ranks),
        All-take _ limit (at_least m ordered) (at_least-Relevant m ordered),
        one_retained limit m candidates ordered lo (window-le-strongest ordered) (same (λ c. true)),
      )
