-- ===== src/Retrieval/Ranked/Order.antt =====
-- The order of the ranked candidates.
use experience_hub.Prelude.{◌≡◌, ◌∙◌, Bool, true, ◌&&◌, ◌||◌, List, arith, ltb, leb, ◌==◌, ok}
use experience_hub.Retrieval.Ranked.{
  RankedCandidate, stable_sort, by_id, by_version_time, by_relevance, by_score, unrepeated,
  sort_ranked_candidates,
}
use experience_hub.Retrieval.Ranked.Stable.{
  Pairwise, Pairwise-map, Pairwise-all, count, count-stable_sort, stable_sort-Refined,
}

-- Greater scores first, then greater relevance, then later versions, then lesser identifiers.
abbrev pub ranks_before : RankedCandidate → RankedCandidate → Bool
ranks_before a b =
    ltb b.score a.score
    || a.score == b.score
      && (ltb b.ranking_relevance a.ranking_relevance
          || a.ranking_relevance == b.ranking_relevance
            && (ltb b.current_version_created_at a.current_version_created_at
                || a.current_version_created_at == b.current_version_created_at
                  && leb a.experience_id b.experience_id))

abbrev sorted : List RankedCandidate → List RankedCandidate
sorted candidates =
    stable_sort by_score
      (stable_sort by_relevance (stable_sort by_version_time (stable_sort by_id candidates)))

count-sorted :
    (p : RankedCandidate → Bool) (cs : List RankedCandidate) → count p (sorted cs) ≡ count p cs
count-sorted p cs =
    count-stable_sort by_score p _
    ∙ count-stable_sort by_relevance p _
    ∙ count-stable_sort by_version_time p _
    ∙ count-stable_sort by_id p cs

sorted-RanksBefore :
    (cs : List RankedCandidate) → Pairwise (λ a b. ranks_before a b ≡ true) (sorted cs)
sorted-RanksBefore cs =
    Pairwise-map _ (λ a b. ranks_before a b ≡ true) (sorted cs) (λ a b h. ground arith)
      (stable_sort-Refined by_score _ (λ x y h. ground arith) (λ x y z h k. ground arith) _
        (stable_sort-Refined by_relevance _ (λ x y h. ground arith) (λ x y z h k. ground arith) _
          (stable_sort-Refined by_version_time _ (λ x y h. ground arith) (λ x y z h k. ground arith)
            _
            (stable_sort-Refined by_id (λ x y. Unit {0}) (λ x y h. ground arith)
              (λ x y z h k. ground arith) cs (Pairwise-all cs)))))

-- For distinct identifiers the four sorts are defined and amount to one order: greater scores first,
-- then greater relevance, then later versions, then lesser identifiers. The candidates are the same:
-- any test counts as many of them before as after.
pub sort_ranked_candidates_lem :
    (candidates : List RankedCandidate)
    → unrepeated candidates ≡ true
    → (ordered : List RankedCandidate) × (sort_ranked_candidates candidates ≡ ok ordered)
      × Pairwise (λ a b. ranks_before a b ≡ true) ordered
      × ((p : RankedCandidate → Bool) → count p ordered ≡ count p candidates)
unfolding sort_ranked_candidates
sort_ranked_candidates_lem candidates d =
    (sorted candidates, ground arith, sorted-RanksBefore candidates, λ p. count-sorted p candidates)
