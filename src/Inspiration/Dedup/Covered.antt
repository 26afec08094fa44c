-- ===== src/Inspiration/Dedup/Covered.antt =====
-- What the loop over the drafts of a batch discards.
use experience_hub.Prelude.{
  ℕ, ◌+◌, ◌≡◌, refl, sym, ◌∙◌, Bool, true, ◌||◌, List, [], ◌∷◌, ◌++◌, arith, length, length-append,
  leb, Bool-cases, inl, inr, All, ==_refl,
}
use mathlib.Core.Path.{subst}
use mathlib.Core.List.{append-nil, append_assoc}
use experience_hub.Inspiration.Dedup.{
  InspirationOperator, IdeaDraft, Digests, RetainedIdea, from_draft, is_duplicate, retain_drafts,
  max_ideas_per_operator, max_ideas_per_run,
}

module _ (digests : Digests) (operator : InspirationOperator) (before : List RetainedIdea) where
  -- A limit is reached, or the draft is a duplicate of a retained idea.
  unfoldable pub is_covered : List RetainedIdea → IdeaDraft → Bool
  is_covered own d =
      leb max_ideas_per_operator (length own)
      || leb max_ideas_per_run (length (before ++ own))
      || is_duplicate digests d (before ++ own)

  duplicate_append :
      (d : IdeaDraft) (xs ys : List RetainedIdea)
      → is_duplicate digests d xs ≡ true
      → is_duplicate digests d (xs ++ ys) ≡ true
  unfolding is_duplicate
  duplicate_append d [] ys h = absurd (ground (arith, h))
  duplicate_append d (x ∷ xs) ys h = elim (Bool-cases (is_duplicate digests d xs)) [
    | inl t ↦ ground (arith, duplicate_append d xs ys t)
    | inr f ↦ ground arith
  ]

  own_duplicate :
      (d : IdeaDraft) (xs : List RetainedIdea) (n : ℕ)
      → is_duplicate digests d (xs ++ from_draft digests operator n d ∷ []) ≡ true
  unfolding is_duplicate
  own_duplicate d [] n = ground (arith, ==_refl (digests.hash_mechanism d.mechanism))
  own_duplicate d (x ∷ xs) n = ground (arith, own_duplicate d xs n)

  covered_append :
      (own more : List RetainedIdea) (d : IdeaDraft)
      → is_covered own d ≡ true
      → is_covered (own ++ more) d ≡ true
  unfolding is_covered
  covered_append own more d h =
      let grown = length-append own more in
      let total = length-append before (own ++ more) in
      let less = length-append before own in
      elim (Bool-cases (is_duplicate digests d (before ++ own))) [
        | inl t ↦
            let k =
              rw (append_assoc before own more) at (duplicate_append d (before ++ own) more t) in
            rw k (ground arith)
        | inr f ↦ ground (arith, h, f, grown, total, less)
      ]

  item_covered :
      (own : List RetainedIdea) (d : IdeaDraft)
      → is_covered (own ++ from_draft digests operator (length own + 1) d ∷ []) d ≡ true
  unfolding is_covered
  item_covered own d =
      let item : RetainedIdea = from_draft digests operator (length own + 1) d in
      let k =
        rw (append_assoc before own (item ∷ [])) at
          (own_duplicate d (before ++ own) (length own + 1)) in
      rw k (ground arith)

  retain_drafts-extends :
      (own : List RetainedIdea) (discarded : ℕ) (ds : List IdeaDraft)
      → (more : List RetainedIdea) × ((retain_drafts digests operator before own discarded ds).0
          ≡ own ++ more)
  unfolding retain_drafts is_covered
  retain_drafts-extends own discarded [] = ([], sym (append-nil own))
  retain_drafts-extends own discarded (d ∷ ds) = elim (Bool-cases (is_covered own d)) [
    | inl t ↦
        let (more, e) = retain_drafts-extends own (discarded + 1) ds in
        (more, rw (retain_drafts, t) e)
    | inr f ↦
        let item : RetainedIdea = from_draft digests operator (length own + 1) d in
        let (more, e) = retain_drafts-extends (own ++ item ∷ []) discarded ds in
        (item ∷ more, rw (retain_drafts, f) (e ∙ append_assoc own (item ∷ []) more))
  ]

  abbrev pub AllCovered : List RetainedIdea → List IdeaDraft → Type 0
  AllCovered own ds = All (λ d. is_covered own d ≡ true) ds

  -- Every draft of a batch is in the end a duplicate of an idea that the batch or an earlier one
  -- retained, itself included, unless three of the operator or nine in all are retained.
  pub retain_drafts-covers :
      (own : List RetainedIdea) (discarded : ℕ) (ds : List IdeaDraft)
      → AllCovered (retain_drafts digests operator before own discarded ds).0 ds
  unfolding retain_drafts is_covered
  retain_drafts-covers own discarded [] = tt
  retain_drafts-covers own discarded (d ∷ ds) = elim (Bool-cases (is_covered own d)) [
    | inl t ↦
        let (more, e) = retain_drafts-extends own (discarded + 1) ds in
        let same : retain_drafts digests operator before own (discarded + 1) ds
            ≡ retain_drafts digests operator before own discarded (d ∷ ds) =
          rw (retain_drafts, t) refl in
        subst (λ (p : List RetainedIdea × ℕ). AllCovered p.0 (d ∷ ds)) same
          (rw e (covered_append own more d t), retain_drafts-covers own (discarded + 1) ds)
    | inr f ↦
        let item : RetainedIdea = from_draft digests operator (length own + 1) d in
        let (more, e) = retain_drafts-extends (own ++ item ∷ []) discarded ds in
        let same : retain_drafts digests operator before (own ++ item ∷ []) discarded ds
            ≡ retain_drafts digests operator before own discarded (d ∷ ds) =
          rw (retain_drafts, f) refl in
        subst (λ (p : List RetainedIdea × ℕ). AllCovered p.0 (d ∷ ds)) same
          (
            rw e (covered_append (own ++ item ∷ []) more d (item_covered own d)),
            retain_drafts-covers (own ++ item ∷ []) discarded ds,
          )
  ]
