-- ===== src/Retrieval/FinalScore.antt =====
-- final_score and passes_relevance_threshold of src/experience_hub/retrieval/ranking.py
pub mod Bounds
use experience_hub.Prelude.{
  ℕ, Bool, ◌&&◌, ◌||◌, min, max, leb, if◌then◌else◌, Result, ok, err, value_error,
}
use experience_hub.Floats.{FloatOps}
use experience_hub.Scoring.{one}
use experience_hub.Retrieval.{RetrievalMode, focused, associative}

-- The five arguments of final_score.
pub record Components : Type 0 where
  pub ranking_relevance : ℕ
  pub activation : ℕ
  pub confidence : ℕ
  pub importance : ℕ
  pub source_trust : ℕ

module _ (ops : FloatOps) where
  open ops use {ratio, add, mul}

  -- Every argument passes _unit_float.
  unfoldable pub components_valid : Components → Bool
  components_valid c =
      leb c.ranking_relevance (one ops)
      && leb c.activation (one ops)
      && leb c.confidence (one ops)
      && leb c.importance (one ops)
      && leb c.source_trust (one ops)

  unfoldable pub blended : Components → ℕ
  blended c =
      add
        (add
          (add (add (mul (ratio 50 100) c.ranking_relevance) (mul (ratio 20 100) c.activation))
            (mul (ratio 15 100) c.confidence))
          (mul (ratio 10 100) c.importance))
        (mul (ratio 5 100) c.source_trust)

  unfoldable pub final_score : Components → Result ℕ
  unfolding components_valid blended
  final_score c =
      if components_valid c then ok (min (one ops) (max 0 (blended c))) else err value_error

  passes : RetrievalMode → ℕ → ℕ → Bool
  passes focused lexical mechanism = leb (ratio 5 100) lexical
  passes associative lexical mechanism = leb (ratio 2 100) lexical || leb (ratio 2 100) mechanism

  unfoldable pub passes_relevance_threshold : RetrievalMode → ℕ → ℕ → Result Bool
  unfolding passes
  passes_relevance_threshold mode lexical mechanism =
      if leb lexical (one ops) && leb mechanism (one ops)
      then ok (passes mode lexical mechanism)
      else err value_error
