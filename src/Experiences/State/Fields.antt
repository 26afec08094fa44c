-- ===== src/Experiences/State/Fields.antt =====
-- Fields that an event may not change are equal in its two snapshots.
use experience_hub.Prelude.{
  ◌≡◌, refl, ◌⊎◌, inl, inr, Bool, true, false, List, [], ◌∷◌, arith, all, ==_refl, opt_eq_refl,
  bool_eq_refl,
}
use experience_hub.Experiences.State.{
  State, Temperature, hot, warm, cold, archived, temperature_eq, Field, same, model_fields,
  changed_among, changes_within, state_eq,
}

pub temperature_eq_refl : (t : Temperature) → temperature_eq t t ≡ true
temperature_eq_refl hot = refl
temperature_eq_refl warm = refl
temperature_eq_refl cold = refl
temperature_eq_refl archived = refl

pub temperature_eq→≡ : (t u : Temperature) → temperature_eq t u ≡ true → t ≡ u
temperature_eq→≡ t u h = ground arith

pub state_eq_refl : (s : State) → state_eq s s ≡ true
unfolding state_eq
state_eq_refl s = simp (==_refl, opt_eq_refl, bool_eq_refl, temperature_eq_refl)

abbrev In : Field → List Field → Type 0
In f [] = ⊥
In f (g ∷ gs) = (g ≡ f) ⊎ In f gs

listed : (f : Field) → In f model_fields
unfolding model_fields
listed f = ground arith

all_changed :
    (allowed : Field → Bool) (fs : List Field) (b a : State) (f : Field)
    → all allowed (changed_among fs b a) ≡ true
    → In f fs
    → allowed f ≡ false
    → same f b a ≡ true
unfolding changed_among
all_changed allowed [] b a f h i n = absurd i
all_changed allowed (g ∷ gs) b a f h (inl e) n =
    let m : allowed g ≡ false = rw e n in rw (← e) (ground arith)
all_changed allowed (g ∷ gs) b a f h (inr i) n =
    ground
      (arith, λ (k : all allowed (changed_among gs b a) ≡ true). all_changed allowed gs b a f k i n)

-- A field outside the allowed set is unchanged.
pub unchanged :
    (allowed : Field → Bool) (b a : State) (f : Field)
    → changes_within allowed b a ≡ true
    → allowed f ≡ false
    → same f b a ≡ true
unfolding changes_within
unchanged allowed b a f h n = all_changed allowed model_fields b a f h (listed f) n

within_among :
    (allowed : Field → Bool) (fs : List Field) (b a : State)
    → ((f : Field) → allowed f ≡ false → same f b a ≡ true)
    → all allowed (changed_among fs b a) ≡ true
unfolding changed_among
within_among allowed [] b a h = refl
within_among allowed (g ∷ gs) b a h = ground (arith, within_among allowed gs b a h, h g)

-- Snapshots that agree outside the allowed set pass the test.
pub changes_within_of_same :
    (allowed : Field → Bool) (b a : State)
    → ((f : Field) → allowed f ≡ false → same f b a ≡ true)
    → changes_within allowed b a ≡ true
unfolding changes_within
changes_within_of_same allowed b a h = within_among allowed model_fields b a h

-- Snapshots that compare equal are equal.
pub state_eq→≡ : (b a : State) → state_eq b a ≡ true → b ≡ a
unfolding state_eq
state_eq→≡ b a h = ground arith
