-- ===== src/Inspiration/Snapshot/Frozen.antt =====
-- The snapshot that freeze returns.
use experience_hub.Prelude.{
  ℕ, zero, suc, ◌+◌, ◌≤◌, ◌≡◌, refl, sym, ◌∙◌, true, false, List, [], ◌∷◌, ◌++◌, arith, length, all,
  ◌==◌, Bool-cases, inl, inr, ok,
}
use mathlib.Core.List.{map-append, append-nil, append_assoc}
use experience_hub.Inspiration.Snapshot.Size.{
  Text, SnapshotItem, joined_size, item_size, snapshot_size,
}
use experience_hub.Inspiration.Snapshot.{
  EvidenceCandidate, Frame, FrozenSnapshot, max_snapshot_items, max_snapshot_utf8_bytes, prefix,
  fits, with_excerpt, fits_cut, snapshot_item, retain, ranks_from, distinct_items, snapshot_valid,
  sort_candidates, freeze,
}
use experience_hub.Inspiration.Snapshot.Excerpt.{IsLargest, largest_fitting_excerpt-IsLargest}
use experience_hub.Inspiration.Snapshot.Retained.{
  next_item, Retained, all_whole, no_room, cut, whole, Retained-fits, Retained-ranks,
  Retained-distinct,
}

module _ (frame : Frame) where
  -- A size does not depend on the identifier.
  fits-same :
      (existing : List SnapshotItem) (a b : SnapshotItem)
      → item_size a ≡ item_size b
      → fits (existing ++ a ∷ []) ≡ fits (existing ++ b ∷ [])
  unfolding fits snapshot_size joined_size
  fits-same existing a b e =
      rw (map-append item_size existing (a ∷ []), map-append item_size existing (b ∷ []), e) refl

  -- The provisional item, with the placeholder identifier.
  abbrev provisional : List SnapshotItem → EvidenceCandidate → SnapshotItem
  provisional existing c = snapshot_item frame c 0 (length existing + 1)

  fits-next :
      (existing : List SnapshotItem) (c : EvidenceCandidate) (text : Text)
      → fits (existing ++ with_excerpt (provisional existing c) text ∷ [])
        ≡ fits (existing ++ with_excerpt (next_item frame existing c) text ∷ [])
  unfolding item_size snapshot_item
  fits-next existing c text = fits-same existing _ _ refl

  fits_whole :
      (existing : List SnapshotItem) (c : EvidenceCandidate)
      → fits (existing ++ provisional existing c ∷ [])
        ≡ fits (existing ++ next_item frame existing c ∷ [])
  unfolding item_size snapshot_item
  fits_whole existing c = fits-same existing _ _ refl

  IsLargest-next :
      (existing : List SnapshotItem) (c : EvidenceCandidate) (r : ℕ)
      → IsLargest (fits_cut existing (provisional existing c)) 0 (length c.excerpt) r
      → IsLargest (fits_cut existing (next_item frame existing c)) 0 (length c.excerpt) r
  unfolding fits_cut snapshot_item
  IsLargest-next existing c r l = record {
    least = l.least;
    most = l.most;
    passes = sym (fits-next existing c (prefix r c.excerpt)) ∙ l.passes;
    fails = λ k less most. sym (fits-next existing c (prefix k c.excerpt)) ∙ l.fails k less most;
  }

  -- One candidate that does not fit whole.
  cut_or_none :
      (existing : List SnapshotItem) (c : EvidenceCandidate) (cs : List EvidenceCandidate)
      → fits (existing ++ provisional existing c ∷ []) ≡ false
      → (added : List SnapshotItem) × (retain frame existing (c ∷ cs) ≡ existing ++ added)
        × Retained frame existing (c ∷ cs) added
  unfolding retain snapshot_item
  cut_or_none existing c cs f =
      elim (Bool-cases (fits (existing ++ with_excerpt (provisional existing c) [] ∷ []))) [
        | inl t ↦
            let (r, x, largest, enough) =
              largest_fitting_excerpt-IsLargest existing (provisional existing c) 0 t in
            (
              with_excerpt (next_item frame existing c) (prefix r c.excerpt) ∷ [],
              rw (retain, f, t, x) refl,
              cut r (sym (fits_whole existing c) ∙ f) (IsLargest-next existing c r largest),
            )
        | inr n ↦ (
          [],
          rw (retain, f, n) (sym (append-nil existing)),
          no_room (sym (fits-next existing c []) ∙ n),
        )
      ]

  retain-Retained :
      (existing : List SnapshotItem) (cs : List EvidenceCandidate)
      → (added : List SnapshotItem) × (retain frame existing cs ≡ existing ++ added)
        × Retained frame existing cs added
  unfolding retain
  retain-Retained existing [] = ([], sym (append-nil existing), all_whole)
  retain-Retained existing (c ∷ cs) =
      elim (Bool-cases (fits (existing ++ provisional existing c ∷ []))) [
        | inl t ↦
            let (added, x, rest) =
              retain-Retained (existing ++ next_item frame existing c ∷ []) cs in
            (
              next_item frame existing c ∷ added,
              rw (retain, t) (x ∙ append_assoc existing (next_item frame existing c ∷ []) added),
              whole (sym (fits_whole existing c) ∙ t) rest,
            )
        | inr f ↦ cut_or_none existing c cs f
      ]

  length-prefix : (n : ℕ) (cs : List EvidenceCandidate) → length (prefix n cs) ≤ n
  unfolding prefix
  length-prefix zero cs = omega arith
  length-prefix (suc n) [] = omega arith
  length-prefix (suc n) (c ∷ cs) = omega (arith, length-prefix n cs)

  fits_size :
      (items : List SnapshotItem)
      → fits items ≡ true
      → snapshot_size items ≤ max_snapshot_utf8_bytes
  unfolding fits
  fits_size items t = ground arith

  snapshot_valid_of :
      (s : FrozenSnapshot)
      → length s.items ≤ max_snapshot_items
      → ranks_from 1 s.items ≡ true
      → distinct_items s.items ≡ true
      → all (λ (i : SnapshotItem). i.run_id == s.run_id) s.items ≡ true
      → snapshot_valid s ≡ true
  unfolding snapshot_valid
  snapshot_valid_of s l r d a = rw (r, d, a) (ground arith)

  -- If no identifier is drawn twice, freeze returns a snapshot, whose canonical JSON has at most
  -- 24576 bytes and whose items are the first of the sorted candidates, twelve at most, as long as
  -- they fit whole, and then one more with the longest fitting prefix of its excerpt, if any fits.
  pub freeze-Retained :
      (owned capsules : List EvidenceCandidate)
      → ((i j : ℕ) → frame.new_id i ≡ frame.new_id j → i ≡ j)
      → (items : List SnapshotItem) × (freeze frame owned capsules
          ≡ ok (record {
            run_id = frame.run_id;
            items = items;
            snapshot_hash = frame.hash_snapshot items;
            frozen_at = frame.captured_at;
          }))
        × Retained frame [] (prefix max_snapshot_items (sort_candidates (owned ++ capsules))) items
        × (snapshot_size items ≤ max_snapshot_utf8_bytes)
  unfolding freeze
  freeze-Retained owned capsules drawn =
      let cs : List EvidenceCandidate =
        prefix max_snapshot_items (sort_candidates (owned ++ capsules)) in
      let (items, x, retained) = retain-Retained [] cs in
      let (ranks, runs, len) = Retained-ranks frame [] items cs retained in
      let bound = length-prefix max_snapshot_items (sort_candidates (owned ++ capsules)) in
      let valid =
        snapshot_valid_of
          (record {
            run_id = frame.run_id;
            items = items;
            snapshot_hash = frame.hash_snapshot items;
            frozen_at = frame.captured_at;
          })
          (omega (arith, len, bound)) ranks (Retained-distinct frame drawn [] items cs retained)
          runs in
      (
        items,
        rw (x, valid) refl,
        retained,
        fits_size items (Retained-fits frame [] items cs retained refl),
      )
