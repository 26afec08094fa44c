-- ===== src/Inspiration/Dedup/Own.antt =====
-- What a batch retains: ideas of its operator, numbered from 1, none a duplicate of one before it.
use experience_hub.Prelude.{
  ℕ, ◌+◌, ◌≤◌, ◌≡◌, refl, false, ◌||◌, List, [], ◌∷◌, ◌++◌, arith, length, length-append, leb,
  Bool-cases, inl, inr,
}
use mathlib.Core.List.{append-nil, append_assoc}
use experience_hub.Inspiration.Dedup.{
  InspirationOperator, IdeaDraft, Digests, RetainedIdea, from_draft, is_duplicate, retain_drafts,
  max_ideas_per_operator, max_ideas_per_run,
}

-- Ideas of an operator with consecutive ordinals, three at most.
abbrev pub AreNumbered : InspirationOperator → ℕ → List RetainedIdea → Type 0
AreNumbered operator n [] = Unit
AreNumbered operator n (i ∷ is) =
    (i.operator ≡ operator) × (i.ordinal ≡ n) × AreNumbered operator (n + 1) is

numbered_snoc :
    (operator : InspirationOperator) (n : ℕ) (is : List RetainedIdea) (i : RetainedIdea)
    → AreNumbered operator n is
    → i.operator ≡ operator
    → i.ordinal ≡ length is + n
    → AreNumbered operator n (is ++ i ∷ [])
numbered_snoc operator n [] i h o k = (o, omega arith, tt)
numbered_snoc operator n (j ∷ js) i (p, q, h) o k =
    (p, q, numbered_snoc operator (n + 1) js i h o (omega arith))

module _ (digests : Digests) where
  -- No idea is a duplicate of one before it, those of `before` included.
  abbrev pub AllDistinct : List RetainedIdea → List RetainedIdea → Type 0
  AllDistinct before [] = Unit
  AllDistinct before (i ∷ is) =
      (is_duplicate digests i.draft before ≡ false) × AllDistinct (before ++ i ∷ []) is

  pub distinct_append :
      (before is js : List RetainedIdea)
      → AllDistinct before is
      → AllDistinct (before ++ is) js
      → AllDistinct before (is ++ js)
  distinct_append before [] js h k = rw (append-nil before) at k
  distinct_append before (i ∷ is) js (d, h) k =
      (d, distinct_append (before ++ i ∷ []) is js h (rw (append_assoc before (i ∷ []) is) k))

  -- What the loop over the drafts keeps true, and that it counts every draft once.
  pub record IsOwn (operator : InspirationOperator) (before own : List RetainedIdea) : Type 0 where
    pub numbered : AreNumbered operator 1 own
    pub few : length own ≤ max_ideas_per_operator
    pub fits_run : length (before ++ own) ≤ max_ideas_per_run
    pub distinct : AllDistinct before own

  IsOwn-next :
      (operator : InspirationOperator) (before own : List RetainedIdea) (d : IdeaDraft)
      → IsOwn operator before own
      → (leb max_ideas_per_operator (length own)
          || leb max_ideas_per_run (length (before ++ own))
          || is_duplicate digests d (before ++ own))
        ≡ false
      → IsOwn operator before (own ++ from_draft digests operator (length own + 1) d ∷ [])
  IsOwn-next operator before own d h f =
      let item : RetainedIdea = from_draft digests operator (length own + 1) d in
      let grown = length-append own (item ∷ []) in
      let total = length-append before own in
      let after = length-append before (own ++ item ∷ []) in
      record {
        numbered = numbered_snoc operator 1 own item h.numbered refl refl;
        few = ground (arith, grown);
        fits_run = ground (arith, grown, total, after);
        distinct = distinct_append before own (item ∷ []) h.distinct (ground arith, tt);
      }

  pub retain_drafts-IsOwn :
      (operator : InspirationOperator) (before own : List RetainedIdea) (discarded : ℕ)
      (ds : List IdeaDraft)
      → IsOwn operator before own
      → IsOwn operator before (retain_drafts digests operator before own discarded ds).0
        × (length (retain_drafts digests operator before own discarded ds).0
              + (retain_drafts digests operator before own discarded ds).1
            ≡ length own + discarded + length ds)
  unfolding retain_drafts
  retain_drafts-IsOwn operator before own discarded [] h = (h, omega arith)
  retain_drafts-IsOwn operator before own discarded (d ∷ ds) h =
      elim (Bool-cases (
        leb max_ideas_per_operator (length own)
        || leb max_ideas_per_run (length (before ++ own))
        || is_duplicate digests d (before ++ own))) [
          | inl t ↦
              let (k, n) = retain_drafts-IsOwn operator before own (discarded + 1) ds h in
              rw (retain_drafts, t) (k, omega (arith, n))
          | inr f ↦
              let item : RetainedIdea = from_draft digests operator (length own + 1) d in
              let (k, n) =
                retain_drafts-IsOwn operator before (own ++ item ∷ []) discarded ds
                  (IsOwn-next operator before own d h f) in
              rw (retain_drafts, f) (k, omega (arith, n, length-append own (item ∷ [])))
        ]
