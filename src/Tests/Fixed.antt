-- ===== src/Tests/Fixed.antt =====
-- Fixed-point arithmetic with a thousand units to the one, as an instance of the operations.
use Prim.Native.Nat.{zero}
use native.Mathlib.Nat.{
  le-div_iff_mul-le, div-mul-le_self, le_trans, div-le_of_le-mul, div-zero, le_of_mul-le-mul_right,
}
use experience_hub.Prelude.{ℕ, suc, ◌+◌, ◌-◌, ◌*◌, ◌/◌, ◌≤◌, ◌<◌, ◌≡◌, ap, arith}
use experience_hub.Floats.{FloatOps}

pub div_mono : (a b d : ℕ) → a ≤ b → a / d ≤ b / d
div_mono a b zero h = omega (arith, div-zero a)
div_mono a b (suc d) h =
    (le-div_iff_mul-le {k = suc d} (omega arith)).1 (le_trans (div-mul-le_self a (suc d)) h)

pub mul_le : (a b c d : ℕ) → a ≤ c → b ≤ d → a * b ≤ c * d
mul_le a b c d h k = grind arith

pub exp_antitone : (a b : ℕ) → a ≤ b → 1000000 / (1000 + b) ≤ 1000000 / (1000 + a)
exp_antitone a b h = (le-div_iff_mul-le {k = 1000 + a} (omega arith)).1 (
    le_trans
      (mul_le (1000000 / (1000 + b)) (1000 + a) (1000000 / (1000 + b)) (1000 + b) (omega arith)
        (omega arith))
      (div-mul-le_self 1000000 (1000 + b)))

pub exp_bound : (a : ℕ) → 1000000 / (1000 + a) ≤ 1000
exp_bound a = div-le_of_le-mul (1000 + a) (omega arith)

pub mul_shrinks : (a b : ℕ) → b ≤ 1000 → a * b / 1000 ≤ a
mul_shrinks a b h =
    div-le_of_le-mul 1000 (le_trans (mul_le a b a 1000 (omega arith) h) (omega arith))

pub ratio_cross : (a b c d : ℕ) → 0 < b → 0 < d → a * d ≤ c * b → a * 1000 / b ≤ c * 1000 / d
ratio_cross a b c d p q h =
    let x : ℕ = a * 1000 / b in
    let w : x * b * d ≤ a * 1000 * d =
      mul_le (x * b) d (a * 1000) d (div-mul-le_self (a * 1000) b) (omega arith) in
    (le-div_iff_mul-le {k = d} q).1 (le_of_mul-le-mul_right {k = b} (scaled x w) p)
  where
    scaled : (x : ℕ) → x * b * d ≤ a * 1000 * d → x * d * b ≤ c * 1000 * b
    scaled x w = grind arith

pub swap : (a b : ℕ) → a * b ≡ b * a
swap a b = omega arith

abbrev pub fixed : FloatOps
fixed = record {
  ratio = λ a b. a * 1000 / b;
  add = λ a b. a + b;
  sub = λ a b. a - b;
  mul = λ a b. a * b / 1000;
  div = λ a b. a * 1000 / b;
  exp_neg = λ a. 1000000 / (1000 + a);
  log = λ a. a * 693 / 2000;
  log1p = λ a. a;
  timedelta_seconds = λ a. a * 1000;
  timedelta_days = λ a. a * 86400000;
  ratio_cross = ratio_cross;
  ratio_mono = λ a b d h. div_mono (a * 1000) (b * 1000) d (omega arith);
  add_mono = λ a b c d h k. omega arith;
  mul_mono = λ a b c d h k. div_mono (a * b) (c * d) 1000 (mul_le a b c d h k);
  sub_self = λ a. omega arith;
  mul_comm = λ a b. ap (λ n. n / 1000) (swap a b);
  mul_shrinks = mul_shrinks;
  div_mono = λ a b d h. div_mono (a * 1000) (b * 1000) d (omega arith);
  exp_neg_antitone = exp_antitone;
  exp_neg-le-one = exp_bound;
  log1p_mono = λ a b h. h;
  add_grows = λ a b. omega arith;
  complement = λ a h. omega arith;
}
