-- ===== src/Retrieval/Window.antt =====
-- retain_relevance_window of src/experience_hub/retrieval/ranking.py
pub mod Retained
use Prim.Native.Nat.{zero}
use experience_hub.Prelude.{
  ℕ, suc, Bool, true, false, ◌&&◌, List, [], ◌∷◌, max, leb, if◌then◌else◌, Result, ok, require,
  value_error, ◌>>=◌, ◌>>◌,
}
use experience_hub.Floats.{FloatOps}
use experience_hub.Retrieval.Ranked.{RankedCandidate, sort_ranked_candidates}

-- values[:limit]
unfoldable pub take : ℕ → List RankedCandidate → List RankedCandidate
take zero cs = []
take (suc n) [] = []
take (suc n) (c ∷ cs) = c ∷ take n cs

unfoldable pub strongest : List RankedCandidate → ℕ
strongest [] = 0
strongest (c ∷ cs) = max c.ranking_relevance (strongest cs)

unfoldable pub at_least : ℕ → List RankedCandidate → List RankedCandidate
at_least minimum [] = []
at_least minimum (c ∷ cs) =
    let rest : List RankedCandidate = at_least minimum cs in
    if leb minimum c.ranking_relevance then c ∷ rest else rest

-- RELEVANCE_WINDOW_RATIO * strongest
unfoldable pub window_minimum : FloatOps → List RankedCandidate → ℕ
unfolding strongest
window_minimum ops ordered = ops.mul (ops.ratio 85 100) (strongest ordered)

-- Of no candidates the maximum is not taken; none are retained then.
unfoldable pub retain_relevance_window :
    FloatOps → List RankedCandidate → ℕ → Result (List RankedCandidate)
unfolding take at_least window_minimum
retain_relevance_window ops candidates limit = do
  require (leb 1 limit && leb limit 50) value_error
  ordered ← sort_ranked_candidates candidates
  ok (take limit (at_least (window_minimum ops ordered) ordered))
