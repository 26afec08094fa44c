-- ===== src/Tests/Snapshots.antt =====
-- Examples for the snapshot of evidence.
use experience_hub.Prelude.{ℕ, zero, suc, ◌+◌, ◌≤◌, ◌≡◌, refl, List, [], ◌∷◌, ok, length, arith}
use experience_hub.Inspiration.Snapshot.Size.{
  Text, experience, capsule, warm, quarantined, SnapshotItem, snapshot_size, sum, character_size,
  string_size, joined_size, item_size,
}
use experience_hub.Inspiration.Snapshot.{
  EvidenceCandidate, Frame, max_snapshot_items, max_snapshot_utf8_bytes, prefix, fits, fits_cut,
  largest_cut, snapshot_item, largest_fitting_excerpt, sort_candidates, freeze,
}
use experience_hub.Inspiration.Snapshot.Excerpt.{IsLargest, largest_fitting_excerpt-IsLargest}
use experience_hub.Inspiration.Snapshot.Retained.{Retained}
use experience_hub.Inspiration.Snapshot.Frozen.{freeze-Retained}

abbrev repeated : ℕ → Text
repeated zero = []
repeated (suc n) = 7 ∷ repeated n

-- A candidate of which almost nothing more fits: a bell character takes six bytes.
abbrev large : EvidenceCandidate
large = record {
  source_type = experience;
  source_id = 1;
  source_version_id = 2;
  source_state = warm;
  source_trust = 10;
  relevance = 20;
  summary = 97 ∷ [];
  mechanism = 98 ∷ [];
  applicability = [];
  tags = (99 ∷ []) ∷ [];
  falsifiers = repeated 4000 ∷ [];
  excerpt = repeated 60;
  content_hash = 3;
}

abbrev small : EvidenceCandidate
small = record large {
  source_type = capsule;
  source_id = 4;
  source_state = quarantined;
  relevance = 30;
  falsifiers = [];
}

abbrev frame : Frame
frame = record {
  run_id = 9;
  captured_at = 100;
  new_id = λ n. n + 50;
  stable_evidence_key = λ t id version digest. digest;
  hash_snapshot = λ items. length items;
}

abbrev item : SnapshotItem
item = snapshot_item frame large 0 1

largest_fitting_excerpt-IsLargest_example :
    (r : ℕ) × (largest_fitting_excerpt [] item ≡ prefix r item.excerpt)
    × IsLargest (fits_cut [] item) 0 (length item.excerpt) r
    × (largest_cut (length item.excerpt + 3) (fits_cut [] item) 0 (length item.excerpt) ≡ r)
unfolding fits snapshot_item snapshot_size joined_size item_size string_size sum character_size
largest_fitting_excerpt-IsLargest_example = largest_fitting_excerpt-IsLargest [] item 3 refl

freeze-Retained_example :
    (items : List SnapshotItem) × (freeze frame (large ∷ []) (small ∷ [])
      ≡ ok (record { run_id = 9; items = items; snapshot_hash = length items; frozen_at = 100 }))
    × Retained frame [] (prefix max_snapshot_items (sort_candidates (large ∷ small ∷ []))) items
    × (snapshot_size items ≤ max_snapshot_utf8_bytes)
freeze-Retained_example = freeze-Retained frame (large ∷ []) (small ∷ []) (λ i j e. omega arith)
