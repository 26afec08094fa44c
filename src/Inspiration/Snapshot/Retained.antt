-- ===== src/Inspiration/Snapshot/Retained.antt =====
-- What the items that freeze retains are, and what the validators of a snapshot need of them.
use experience_hub.Prelude.{
  ℕ, ◌+◌, ◌≤◌, ◌<◌, ◌≡◌, refl, true, false, List, [], ◌∷◌, ◌++◌, arith, length, length-append, any,
  all, ◌==◌, Bool-cases, inl, inr, ==→≡,
}
use mathlib.Core.List.{append-nil, append_assoc}
use experience_hub.Inspiration.Snapshot.Size.{SnapshotItem}
use experience_hub.Inspiration.Snapshot.{
  EvidenceCandidate, Frame, prefix, fits, with_excerpt, fits_cut, snapshot_item, ranks_from,
  distinct_items,
}
use experience_hub.Inspiration.Snapshot.Excerpt.{IsLargest}

module _ (frame : Frame) where
  -- The item of the next candidate.
  abbrev pub next_item : List SnapshotItem → EvidenceCandidate → SnapshotItem
  next_item existing c =
      snapshot_item frame c (frame.new_id (length existing)) (length existing + 1)

  -- The items that are added to those that exist: the candidates in their order, whole as long as
  -- they fit; then one more with the longest fitting prefix of its excerpt, if one with an empty
  -- excerpt fits.
  pub data Retained : List SnapshotItem → List EvidenceCandidate → List SnapshotItem → Type 0 where
    all_whole : {existing : List SnapshotItem} → Retained existing [] []
    no_room :
        {existing : List SnapshotItem} {c : EvidenceCandidate} {cs : List EvidenceCandidate}
        → fits (existing ++ with_excerpt (next_item existing c) [] ∷ []) ≡ false
        → Retained existing (c ∷ cs) []
    cut :
        {existing : List SnapshotItem} {c : EvidenceCandidate} {cs : List EvidenceCandidate} (r : ℕ)
        → fits (existing ++ next_item existing c ∷ []) ≡ false
        → IsLargest (fits_cut existing (next_item existing c)) 0 (length c.excerpt) r
        → Retained existing (c ∷ cs) (with_excerpt (next_item existing c) (prefix r c.excerpt) ∷ [])
    whole :
        {existing : List SnapshotItem} {c : EvidenceCandidate} {cs : List EvidenceCandidate}
        {added : List SnapshotItem}
        → fits (existing ++ next_item existing c ∷ []) ≡ true
        → Retained (existing ++ next_item existing c ∷ []) cs added
        → Retained existing (c ∷ cs) (next_item existing c ∷ added)

  pub length-grown :
      (existing : List SnapshotItem) (c : EvidenceCandidate)
      → length (existing ++ next_item existing c ∷ []) ≡ length existing + 1
  length-grown existing c = length-append existing (next_item existing c ∷ [])

  pub Retained-fits :
      (existing added : List SnapshotItem) (cs : List EvidenceCandidate)
      → Retained existing cs added
      → fits existing ≡ true
      → fits (existing ++ added) ≡ true
  unfolding fits_cut snapshot_item
  Retained-fits existing [] cs all_whole t = rw (append-nil existing) t
  Retained-fits existing [] cs (no_room f) t = rw (append-nil existing) t
  Retained-fits existing added cs (cut r f largest) t = largest.passes
  Retained-fits existing added cs (whole {c = c} {cs = others} {added = more} f rest) t =
      rw (← append_assoc existing (next_item existing c ∷ []) more)
        (Retained-fits (existing ++ next_item existing c ∷ []) more others rest f)

  pub Retained-ranks :
      (existing added : List SnapshotItem) (cs : List EvidenceCandidate)
      → Retained existing cs added
      → (ranks_from (length existing + 1) added ≡ true)
        × (all (λ (i : SnapshotItem). i.run_id == frame.run_id) added ≡ true)
        × (length added ≤ length cs)
  unfolding ranks_from snapshot_item
  Retained-ranks existing added cs all_whole = (refl, refl, omega arith)
  Retained-ranks existing added cs (no_room f) = (refl, refl, omega arith)
  Retained-ranks existing added cs (cut r f largest) = ground arith
  Retained-ranks existing added cs (whole {c = c} {cs = others} {added = more} f rest) =
      let (ranks, runs, len) =
        Retained-ranks (existing ++ next_item existing c ∷ []) more others rest in
      (
        ground (arith, rw (length-grown existing c) at ranks),
        ground (arith, runs),
        omega (arith, len),
      )

  module _ (drawn : (i j : ℕ) → frame.new_id i ≡ frame.new_id j → i ≡ j) where
    other_id : (i j : ℕ) → i < j → (frame.new_id i == frame.new_id j) ≡ false
    other_id i j l = elim (Bool-cases (frame.new_id i == frame.new_id j)) [
      | inl t ↦ let same = drawn i j (==→≡ _ _ t) in absurd (omega arith)
      | inr f ↦ f
    ]

    -- Their identifiers are drawn after those of the existing items.
    Retained-fresh :
        (existing added : List SnapshotItem) (cs : List EvidenceCandidate)
        → Retained existing cs added
        → (k : ℕ) → k < length existing
        → any (λ (j : SnapshotItem). frame.new_id k == j.snapshot_item_id) added ≡ false
    unfolding snapshot_item
    Retained-fresh existing added cs all_whole k l = refl
    Retained-fresh existing added cs (no_room f) k l = refl
    Retained-fresh existing added cs (cut r f largest) k l =
        ground (arith, other_id k (length existing) l)
    Retained-fresh existing added cs (whole {c = c} {cs = others} {added = more} f rest) k l =
        ground (
          arith,
          other_id k (length existing) l,
          Retained-fresh (existing ++ next_item existing c ∷ []) more others rest k
              (rw (length-grown existing c) (omega arith)),
        )

    pub Retained-distinct :
        (existing added : List SnapshotItem) (cs : List EvidenceCandidate)
        → Retained existing cs added
        → distinct_items added ≡ true
    unfolding distinct_items snapshot_item
    Retained-distinct existing added cs all_whole = refl
    Retained-distinct existing added cs (no_room f) = refl
    Retained-distinct existing added cs (cut r f largest) = refl
    Retained-distinct existing added cs (whole {c = c} {cs = others} {added = more} f rest) =
        ground (
          arith,
          Retained-fresh (existing ++ next_item existing c ∷ []) more others rest (length existing)
              (rw (length-grown existing c) (omega arith)),
          Retained-distinct (existing ++ next_item existing c ∷ []) more others rest,
        )
