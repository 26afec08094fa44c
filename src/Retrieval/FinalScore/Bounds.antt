-- ===== src/Retrieval/FinalScore/Bounds.antt =====
-- The final score respects its components.
use experience_hub.Prelude.{ℕ, ◌≤◌, ◌≡◌, true, arith, min, max, ok}
use experience_hub.Floats.{FloatOps}
use experience_hub.Scoring.{one}
use experience_hub.Retrieval.FinalScore.{Components, components_valid, blended, final_score}

-- No component of the second is less than that of the first.
pub record Dominates (c d : Components) : Type 0 where
  pub relevance : c.ranking_relevance ≤ d.ranking_relevance
  pub activation : c.activation ≤ d.activation
  pub confidence : c.confidence ≤ d.confidence
  pub importance : c.importance ≤ d.importance
  pub trust : c.source_trust ≤ d.source_trust

module _ (ops : FloatOps) (c d : Components) where
  weigh : (w x y : ℕ) → x ≤ y → ops.mul w x ≤ ops.mul w y
  weigh w x y h = ops.mul_mono w x w y (omega arith) h

  blended_mono : Dominates c d → blended ops c ≤ blended ops d
  unfolding blended
  blended_mono h =
      ops.add_mono _ _ _ _
        (ops.add_mono _ _ _ _
          (ops.add_mono _ _ _ _
            (ops.add_mono _ _ _ _ (weigh _ _ _ h.relevance) (weigh _ _ _ h.activation))
            (weigh _ _ _ h.confidence))
          (weigh _ _ _ h.importance))
        (weigh _ _ _ h.trust)

  -- The final score of components between 0 and 1 is defined and between 0 and 1, and it does not
  -- fall when no component does.
  pub final_score-Monotone :
      components_valid ops c ≡ true
      → components_valid ops d ≡ true
      → Dominates c d
      → (s s' : ℕ) × (final_score ops c ≡ ok s)
        × (final_score ops d ≡ ok s')
        × (s ≤ one ops)
        × (s ≤ s')
  unfolding final_score
  final_score-Monotone v w h = (
    min (one ops) (max 0 (blended ops c)),
    min (one ops) (max 0 (blended ops d)),
    ground arith,
    ground arith,
    omega arith,
    omega (arith, blended_mono h),
  )
