-- ===== src/Prelude/Results.antt =====
-- Exceptions as values, with the content of a replayable one; the messages of the others are left
-- out.
use Prim.Native.Nat.{ℕ}
use Prim.Native.String.{String}
use mathlib.Core.Path.{◌≡◌, refl}
use mathlib.Core.List.{List}
use mathlib.Core.Bool.{Bool, true, false}

pub data Error : Type 0 where
  value_error runtime_error source_integrity_error idempotency_integrity_error : Error
  lookup_error key_conflict assertion_error : Error
  projection_integrity_error integrity_error overflow_error : Error
  replayable : (code message : String) (details : List (String × String)) (status_code : ℕ) → Error

-- An exception that was raised, or the value that was returned.
pub data Result {ℓ} (A : Type ℓ) : Type ℓ where
  err : (raised : Error) → Result A
  ok : (value : A) → Result A

pub ok-injective {ℓ} : {A : Type ℓ} {a b : A} → ok a ≡ ok b → a ≡ b
ok-injective h = cc

module _ {ℓ κ} {A : Type ℓ} {B : Type κ} where
  infixl 5 ◌>>=◌ ◌>>◌
  abbrev pub ◌>>=◌ : Result A → (A → Result B) → Result B
  err raised >>= next = err raised
  ok value >>= next = next value

  abbrev pub ◌>>◌ : Result A → Result B → Result B
  first >> second = first >>= λ _. second

  -- A chain that returns went through its first part.
  pub >>=-eq-ok :
      (first : Result A) (next : A → Result B) {b : B}
      → (first >>= next) ≡ ok b
      → (a : A) × (first ≡ ok a) × (next a ≡ ok b)
  >>=-eq-ok (err raised) next h = cc
  >>=-eq-ok (ok value) next h = (value, refl, h)

-- `if not test: raise error`
abbrev pub require : Bool → Error → Result (Unit {0})
require false error = err error
require true error = ok tt

pub require-ok : (t : Bool) (e : Error) {u : Unit {0}} → require t e ≡ ok u → t ≡ true
require-ok true e h = refl
require-ok false e h = cc

-- A chain that returns passed the test that it begins with.
pub require-then {ℓ} :
    {A : Type ℓ} (t : Bool) (e : Error) (next : Result A) {a : A}
    → (require t e >> next) ≡ ok a
    → (t ≡ true) × (next ≡ ok a)
require-then true e next h = (refl, h)
require-then false e next h = cc
