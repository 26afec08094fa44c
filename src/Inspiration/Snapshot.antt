-- ===== src/Inspiration/Snapshot.antt =====
-- SnapshotBuilder.freeze of src/experience_hub/inspiration/snapshot.py, with the models of its items.
-- The candidates that the two readers give are arguments, so are the identifiers that are drawn and
-- the digests. The UUIDs are numbers, and a text is the list of its code points.
pub mod Size
pub mod Excerpt
pub mod Retained
pub mod Frozen
use experience_hub.Prelude.{
  ℕ, zero, suc, ◌+◌, ◌-◌, ◌/◌, Bool, true, false, not, ◌&&◌, ◌||◌, List, [], ◌∷◌, ◌++◌, ltb, leb,
  ◌==◌, if◌then◌else◌, any, all, length, Result, ok, require, value_error, ◌>>=◌, ◌>>◌,
}
use experience_hub.Inspiration.Snapshot.Size.{
  Text, EvidenceSourceType, experience, capsule, EvidenceSourceState, SnapshotItem, snapshot_size,
}

abbrev pub max_snapshot_items : ℕ
max_snapshot_items = 12

abbrev pub max_snapshot_utf8_bytes : ℕ
max_snapshot_utf8_bytes = 24576

pub record EvidenceCandidate : Type 0 where
  pub source_type : EvidenceSourceType
  pub source_id : ℕ
  pub source_version_id : ℕ
  pub source_state : EvidenceSourceState
  pub source_trust : ℕ
  pub relevance : ℕ
  pub summary : Text
  pub mechanism : Text
  pub applicability : List Text
  pub tags : List Text
  pub falsifiers : List Text
  pub excerpt : Text
  pub content_hash : ℕ

abbrev pub source_order : EvidenceSourceType → ℕ
source_order experience = 0
source_order capsule = 1

-- _candidate_sort_key, compared.
unfoldable pub sorts_before : EvidenceCandidate → EvidenceCandidate → Bool
sorts_before a b =
    ltb b.relevance a.relevance
    || a.relevance == b.relevance
      && (ltb (source_order a.source_type) (source_order b.source_type)
          || source_order a.source_type == source_order b.source_type
            && (ltb a.source_id b.source_id
                || a.source_id == b.source_id && ltb a.source_version_id b.source_version_id))

-- candidates.sort, which is stable.
unfoldable pub insert_candidate :
    EvidenceCandidate → List EvidenceCandidate → List EvidenceCandidate
unfolding sorts_before
insert_candidate c [] = c ∷ []
insert_candidate c (d ∷ ds) =
    let rest : List EvidenceCandidate = insert_candidate c ds in
    if sorts_before d c then d ∷ rest else c ∷ d ∷ ds

unfoldable pub sort_candidates : List EvidenceCandidate → List EvidenceCandidate
unfolding insert_candidate
sort_candidates [] = []
sort_candidates (c ∷ cs) = insert_candidate c (sort_candidates cs)

-- A slice `[:n]`.
unfoldable pub prefix : {A : Type 0} → ℕ → List A → List A
prefix zero xs = []
prefix (suc n) [] = []
prefix (suc n) (x ∷ xs) = x ∷ prefix n xs

-- _fits
unfoldable pub fits : List SnapshotItem → Bool
unfolding snapshot_size
fits items = leb (snapshot_size items) max_snapshot_utf8_bytes

abbrev pub with_excerpt : SnapshotItem → Text → SnapshotItem
with_excerpt item excerpt = record item { excerpt = excerpt }

-- The candidate of the search: the existing items and the item, its excerpt cut.
unfoldable pub fits_cut : List SnapshotItem → SnapshotItem → ℕ → Bool
unfolding fits prefix
fits_cut existing item middle =
    fits (existing ++ with_excerpt item (prefix middle item.excerpt) ∷ [])

-- The loop on `low` and `high`; each turn takes one unit of fuel.
unfoldable pub largest_cut : (fuel : ℕ) → (ℕ → Bool) → (low high : ℕ) → ℕ
largest_cut zero test low high = low
largest_cut (suc fuel) test low high = elim (ltb low high) [
  | false ↦ low
  | true ↦
      let middle : ℕ = (low + high + 1) / 2 in
      elim (test middle) [
        | true ↦ largest_cut fuel test middle high
        | false ↦ largest_cut fuel test low (middle - 1)
      ]
]

-- _largest_fitting_excerpt
unfoldable pub largest_fitting_excerpt : List SnapshotItem → SnapshotItem → Text
unfolding largest_cut fits_cut
largest_fitting_excerpt existing item =
    prefix (largest_cut (length item.excerpt) (fits_cut existing item) 0 (length item.excerpt))
      item.excerpt

-- What freeze is given beside the candidates.
pub record Frame : Type 0 where
  pub run_id : ℕ
  pub captured_at : ℕ
  pub new_id : ℕ → ℕ  -- of each item, in the order they are retained
  pub stable_evidence_key : EvidenceSourceType → ℕ → ℕ → ℕ → ℕ
  pub hash_snapshot : List SnapshotItem → ℕ

-- _snapshot_item
unfoldable pub snapshot_item :
    Frame → EvidenceCandidate → (snapshot_item_id rank : ℕ) → SnapshotItem
snapshot_item frame c snapshot_item_id rank = record {
  snapshot_item_id = snapshot_item_id;
  stable_evidence_key =
      frame.stable_evidence_key c.source_type c.source_id c.source_version_id c.content_hash;
  run_id = frame.run_id;
  source_type = c.source_type;
  source_id = c.source_id;
  source_version_id = c.source_version_id;
  source_state = c.source_state;
  source_trust = c.source_trust;
  rank = rank;
  summary = c.summary;
  mechanism = c.mechanism;
  applicability = c.applicability;
  tags = c.tags;
  falsifiers = c.falsifiers;
  excerpt = c.excerpt;
  content_hash = c.content_hash;
  captured_at = frame.captured_at;
}

-- The loop over the candidates. The placeholder identifier is 0.
unfoldable pub retain : Frame → List SnapshotItem → List EvidenceCandidate → List SnapshotItem
unfolding fits snapshot_item largest_fitting_excerpt
retain frame retained [] = retained
retain frame retained (c ∷ cs) =
    let rank : ℕ = length retained + 1 in
    let provisional : SnapshotItem = snapshot_item frame c 0 rank in
    let item : SnapshotItem = snapshot_item frame c (frame.new_id (length retained)) rank in
    elim (fits (retained ++ provisional ∷ [])) [
      | true ↦ retain frame (retained ++ item ∷ []) cs
      | false ↦ elim (fits (retained ++ with_excerpt provisional [] ∷ [])) [
        | true ↦ retained ++ with_excerpt item (largest_fitting_excerpt retained provisional) ∷ []
        | false ↦ retained
      ]
    ]

pub record FrozenSnapshot : Type 0 where
  pub run_id : ℕ
  pub items : List SnapshotItem
  pub snapshot_hash : ℕ
  pub frozen_at : ℕ

-- `tuple(range(1, len(values) + 1))`, from any start.
unfoldable pub ranks_from : ℕ → List SnapshotItem → Bool
ranks_from rank [] = true
ranks_from rank (i ∷ is) = i.rank == rank && ranks_from (rank + 1) is

unfoldable pub distinct_items : List SnapshotItem → Bool
distinct_items [] = true
distinct_items (i ∷ is) =
    not (any (λ (j : SnapshotItem). i.snapshot_item_id == j.snapshot_item_id) is)
    && distinct_items is

-- The validators of FrozenSnapshot.
unfoldable pub snapshot_valid : FrozenSnapshot → Bool
unfolding ranks_from distinct_items
snapshot_valid s =
    leb (length s.items) max_snapshot_items
    && ranks_from 1 s.items
    && distinct_items s.items
    && all (λ (i : SnapshotItem). i.run_id == s.run_id) s.items

unfoldable pub freeze : Frame → (owned capsules : List EvidenceCandidate) → Result FrozenSnapshot
unfolding sort_candidates prefix retain snapshot_valid
freeze frame owned capsules = do
  let candidates : List EvidenceCandidate = sort_candidates (owned ++ capsules)
  let items : List SnapshotItem = retain frame [] (prefix max_snapshot_items candidates)
  let snapshot : FrozenSnapshot = record {
    run_id = frame.run_id;
    items = items;
    snapshot_hash = frame.hash_snapshot items;
    frozen_at = frame.captured_at;
  }
  require (snapshot_valid snapshot) value_error
  ok snapshot
