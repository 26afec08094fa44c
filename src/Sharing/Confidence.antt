-- ===== src/Sharing/Confidence.antt =====
-- src/experience_hub/sharing/confidence.py
pub mod Bounds
use experience_hub.Prelude.{
  ℕ, ◌+◌, Bool, ◌&&◌, Option, none, some, leb, if◌then◌else◌, Result, ok, err, value_error,
}
use experience_hub.Floats.{FloatOps}
use experience_hub.Scoring.{one}

module _ (ops : FloatOps) where
  trust_of : ℕ → ℕ → Result ℕ
  trust_of alpha beta =
      if leb 2 alpha && leb 2 beta then ok (ops.ratio alpha (alpha + beta)) else err value_error

  -- observer_trust
  unfoldable pub observer_trust : Option ℕ → Option ℕ → Result ℕ
  unfolding trust_of
  observer_trust none none = trust_of 2 2
  observer_trust (some alpha) (some beta) = trust_of alpha beta
  observer_trust _ _ = err value_error

  -- Both values pass _unit_float.
  abbrev unit_pair : ℕ → ℕ → Bool
  unit_pair a b = leb a (one ops) && leb b (one ops)

  unfoldable pub initial_adoption_confidence : ℕ → ℕ → Result ℕ
  initial_adoption_confidence publisher_confidence trust =
      if unit_pair publisher_confidence trust
      then ok (ops.mul publisher_confidence trust)
      else err value_error

  unfoldable pub corroboration_delta : ℕ → ℕ → Result ℕ
  corroboration_delta current_confidence trust =
      if unit_pair current_confidence trust
      then ok (ops.mul (ops.mul (ops.sub (one ops) current_confidence) (ops.ratio 20 100)) trust)
      else err value_error
