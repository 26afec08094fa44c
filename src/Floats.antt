-- ===== src/Floats.antt =====
-- Python's finite, non-negative `float` values: such a double is a whole number of units of
-- 2 ^ -1074, so it is kept as that number. Comparisons, `min` and `max` are then those of the
-- numbers. The rounded operations and the functions of the `math` module are a parameter; the
-- laws are the monotonicity and exactness that correctly rounded arithmetic has.
use experience_hub.Prelude.{ℕ, ◌*◌, ◌≤◌, ◌<◌, ◌≡◌}

-- timedelta.max and datetime.max, in microseconds; past them is an OverflowError.
abbrev pub max_timedelta : ℕ
max_timedelta = 86399999999999999999

abbrev pub max_datetime : ℕ
max_datetime = 315537897599999999

pub record FloatOps : Type 0 where
  pub ratio : ℕ → ℕ → ℕ  -- the double nearest to the quotient of two integers
  pub add : ℕ → ℕ → ℕ
  pub sub : ℕ → ℕ → ℕ  -- only used where the result is not negative
  pub mul : ℕ → ℕ → ℕ
  pub div : ℕ → ℕ → ℕ
  pub exp_neg : ℕ → ℕ  -- math.exp(-x)
  pub log : ℕ → ℕ  -- math.log, at 2.0
  pub log1p : ℕ → ℕ  -- math.log1p
  pub timedelta_seconds : ℕ → ℕ  -- the microseconds of timedelta(seconds=x), whether it fits or not
  pub timedelta_days : ℕ → ℕ  -- those of timedelta(days=x)
  pub ratio_cross : (a b c d : ℕ) → 0 < b → 0 < d → a * d ≤ c * b → ratio a b ≤ ratio c d
  pub ratio_mono : (a b d : ℕ) → a ≤ b → ratio a d ≤ ratio b d
  pub add_mono : (a b c d : ℕ) → a ≤ c → b ≤ d → add a b ≤ add c d
  pub mul_mono : (a b c d : ℕ) → a ≤ c → b ≤ d → mul a b ≤ mul c d
  pub mul_comm : (a b : ℕ) → mul a b ≡ mul b a
  pub mul_shrinks : (a b : ℕ) → b ≤ ratio 1 1 → mul a b ≤ a
  pub div_mono : (a b d : ℕ) → a ≤ b → div a d ≤ div b d
  pub exp_neg_antitone : (a b : ℕ) → a ≤ b → exp_neg b ≤ exp_neg a
  pub exp_neg-le-one : (a : ℕ) → exp_neg a ≤ ratio 1 1
  pub log1p_mono : (a b : ℕ) → a ≤ b → log1p a ≤ log1p b
  pub add_grows : (a b : ℕ) → a ≤ add a b
  pub complement : (a : ℕ) → a ≤ ratio 1 1 → add a (sub (ratio 1 1) a) ≤ ratio 1 1
  pub sub_self : (a : ℕ) → sub a a ≡ 0
