-- ===== src/Retrieval/Ranked.antt =====
-- sort_ranked_candidates of src/experience_hub/retrieval/ranking.py
pub mod Stable
pub mod Order
use experience_hub.Prelude.{
  ℕ, Bool, true, false, not, ◌&&◌, List, [], ◌∷◌, ltb, ◌==◌, any, if◌then◌else◌, Result, ok,
  require, value_error, ◌>>=◌, ◌>>◌,
}
use experience_hub.Experiences.State.{Temperature}

-- Every score passes _unit_float.
pub record RankedCandidate : Type 0 where
  pub experience_id : ℕ
  pub temperature : Temperature
  pub current_version_created_at : ℕ
  pub score : ℕ
  pub ranking_relevance : ℕ
  pub lexical_or_trigram_relevance : ℕ
  pub mechanism_relevance : ℕ
  pub word_tag_coverage : ℕ
  pub trigram_coverage : ℕ
  pub activation : ℕ
  pub confidence : ℕ
  pub importance : ℕ
  pub source_trust : ℕ

-- Python's sort is stable: an element goes before those that do not come strictly before it.
module _ {A : Type 0} (comes_before : A → A → Bool) where
  unfoldable pub stable_insert : A → List A → List A
  stable_insert x [] = x ∷ []
  stable_insert x (y ∷ ys) =
      let rest : List A = stable_insert x ys in if comes_before y x then y ∷ rest else x ∷ y ∷ ys

  unfoldable pub stable_sort : List A → List A
  unfolding stable_insert
  stable_sort [] = []
  stable_sort (x ∷ xs) = stable_insert x (stable_sort xs)

-- The keys of the four sorts; with `reverse=True` the greater key comes first.
abbrev pub by_id : RankedCandidate → RankedCandidate → Bool
by_id a b = ltb a.experience_id b.experience_id

abbrev pub by_version_time : RankedCandidate → RankedCandidate → Bool
by_version_time a b = ltb b.current_version_created_at a.current_version_created_at

abbrev pub by_relevance : RankedCandidate → RankedCandidate → Bool
by_relevance a b = ltb b.ranking_relevance a.ranking_relevance

abbrev pub by_score : RankedCandidate → RankedCandidate → Bool
by_score a b = ltb b.score a.score

unfoldable pub unrepeated : List RankedCandidate → Bool
unrepeated [] = true
unrepeated (c ∷ cs) =
    not (any (λ (d : RankedCandidate). d.experience_id == c.experience_id) cs) && unrepeated cs

unfoldable pub sort_ranked_candidates : List RankedCandidate → Result (List RankedCandidate)
unfolding stable_sort unrepeated
sort_ranked_candidates candidates = do
  require (unrepeated candidates) value_error
  ok (
      stable_sort by_score
        (stable_sort by_relevance (stable_sort by_version_time (stable_sort by_id candidates))))
