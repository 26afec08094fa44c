-- ===== src/Retrieval/Ranked/Stable.antt =====
-- A stable sort refines the order that the list had.
use experience_hub.Prelude.{
  ℕ, tally, tally-swap, ◌≡◌, refl, ap, ◌∙◌, ◌⊎◌, inl, inr, Bool, true, false, List, [], ◌∷◌,
  Bool-cases, All,
}
use experience_hub.Retrieval.Ranked.{stable_insert, stable_sort}

module _ {A : Type 0} where
  -- The relation holds of every element and each later one.
  abbrev pub Pairwise : (A → A → Type 0) → List A → Type 0
  Pairwise R [] = Unit
  Pairwise R (x ∷ xs) = All (R x) xs × Pairwise R xs

  -- How many elements pass a test.
  unfoldable pub count : (A → Bool) → List A → ℕ
  count p [] = 0
  count p (x ∷ xs) = tally (p x) (count p xs)

  pub All-map : (P Q : A → Type 0) (xs : List A) → ((x : A) → P x → Q x) → All P xs → All Q xs
  All-map P Q [] f h = tt
  All-map P Q (x ∷ xs) f h = (f x h.0, All-map P Q xs f h.1)

  pub Pairwise-map :
      (R S : A → A → Type 0) (xs : List A)
      → ((x y : A) → R x y → S x y)
      → Pairwise R xs
      → Pairwise S xs
  Pairwise-map R S [] f h = tt
  Pairwise-map R S (x ∷ xs) f h = (All-map (R x) (S x) xs (f x) h.0, Pairwise-map R S xs f h.1)

  pub Pairwise-all : (xs : List A) → Pairwise (λ x y. Unit {0}) xs
  Pairwise-all [] = tt
  Pairwise-all (x ∷ xs) = (everything xs, Pairwise-all xs)
    where
      everything : (ys : List A) → All (λ y. Unit {0}) ys
      everything [] = tt
      everything (y ∷ ys) = (tt, everything ys)

module _ {A : Type 0} (comes_before : A → A → Bool) where
  count-insert :
      (p : A → Bool) (x : A) (ys : List A)
      → count p (stable_insert comes_before x ys) ≡ count p (x ∷ ys)
  unfolding count stable_insert
  count-insert p x [] = refl
  count-insert p x (y ∷ ys) = elim (Bool-cases (comes_before y x)) [
    | inl t ↦ rw t (ap (tally (p y)) (count-insert p x ys) ∙ tally-swap (p y) (p x) (count p ys))
    | inr n ↦ rw n refl
  ]

  pub count-stable_sort :
      (p : A → Bool) (xs : List A) → count p (stable_sort comes_before xs) ≡ count p xs
  unfolding count stable_sort
  count-stable_sort p [] = refl
  count-stable_sort p (x ∷ xs) =
      count-insert p x (stable_sort comes_before xs) ∙ ap (tally (p x)) (count-stable_sort p xs)

  All-stable_insert :
      (P : A → Type 0) (x : A) (ys : List A)
      → P x
      → All P ys
      → All P (stable_insert comes_before x ys)
  unfolding stable_insert
  All-stable_insert P x [] p h = (p, tt)
  All-stable_insert P x (y ∷ ys) p h = elim (Bool-cases (comes_before y x)) [
    | inl t ↦ rw t (h.0, All-stable_insert P x ys p h.1)
    | inr n ↦ rw n (p, h)
  ]

  All-stable_sort : (P : A → Type 0) (xs : List A) → All P xs → All P (stable_sort comes_before xs)
  unfolding stable_sort
  All-stable_sort P [] h = tt
  All-stable_sort P (x ∷ xs) h =
      All-stable_insert P x (stable_sort comes_before xs) h.0 (All-stable_sort P xs h.1)

  module _ (R : A → A → Type 0)
      (asymmetric : (x y : A) → comes_before x y ≡ true → comes_before y x ≡ false)
      (transitive : (x y z : A)
        → comes_before y x ≡ false
        → comes_before z y ≡ false
        → comes_before z x ≡ false) where
    -- The key decides, and on equal keys the order that the list had.
    abbrev pub Refined : A → A → Type 0
    Refined x y = (comes_before y x ≡ false) × ((comes_before x y ≡ true) ⊎ R x y)

    after_insert :
        (x y : A) (ys : List A)
        → comes_before y x ≡ false
        → All (Refined y) ys
        → All (R x) ys
        → All (Refined x) ys
    after_insert x y [] n h r = tt
    after_insert x y (z ∷ ys) n h r =
        ((transitive x y z n h.0.0, inr r.0), after_insert x y ys n h.1 r.1)

    insert-Refined :
        (x : A) (ys : List A)
        → All (R x) ys
        → Pairwise Refined ys
        → Pairwise Refined (stable_insert comes_before x ys)
    unfolding stable_insert
    insert-Refined x [] r h = (tt, tt)
    insert-Refined x (y ∷ ys) r h = elim (Bool-cases (comes_before y x)) [
      | inl t ↦ rw t (
        All-stable_insert (Refined y) x ys (asymmetric y x t, inl t) h.0,
        insert-Refined x ys r.1 h.1,
      )
      | inr n ↦ rw n (((n, inr r.0), after_insert x y ys n h.0 r.1), h)
    ]

    pub stable_sort-Refined :
        (xs : List A) → Pairwise R xs → Pairwise Refined (stable_sort comes_before xs)
    unfolding stable_sort
    stable_sort-Refined [] h = tt
    stable_sort-Refined (x ∷ xs) h =
        insert-Refined x (stable_sort comes_before xs) (All-stable_sort (R x) xs h.0)
          (stable_sort-Refined xs h.1)
