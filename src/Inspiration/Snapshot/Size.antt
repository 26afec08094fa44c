-- ===== src/Inspiration/Snapshot/Size.antt =====
-- snapshot_canonical_bytes of src/experience_hub/inspiration/hashing.py and canonical_json_bytes of
-- src/experience_hub/canonical.py: how many bytes the canonical JSON of a snapshot has. The keys
-- stand for their lengths; a UUID is 36 characters, a digest 64.
use experience_hub.Prelude.{ℕ, ◌+◌, ◌||◌, List, [], ◌∷◌, map, ltb, ◌==◌, if◌then◌else◌}

abbrev pub Text : Type 0
Text = List ℕ

pub data EvidenceSourceType : Type 0 where
  experience capsule : EvidenceSourceType

pub data EvidenceSourceState : Type 0 where
  hot warm cold quarantined : EvidenceSourceState

pub record SnapshotItem : Type 0 where
  pub snapshot_item_id : ℕ
  pub stable_evidence_key : ℕ
  pub run_id : ℕ
  pub source_type : EvidenceSourceType
  pub source_id : ℕ
  pub source_version_id : ℕ
  pub source_state : EvidenceSourceState
  pub source_trust : ℕ
  pub rank : ℕ
  pub summary : Text
  pub mechanism : Text
  pub applicability : List Text
  pub tags : List Text
  pub falsifiers : List Text
  pub excerpt : Text
  pub content_hash : ℕ
  pub captured_at : ℕ

-- A character in a JSON string: a quote, a backslash and the controls with a short form take two
-- bytes, another control six, and the rest what UTF-8 takes.
unfoldable pub character_size : ℕ → ℕ
character_size c =
    if c == 34 || c == 92 || c == 8 || c == 9 || c == 10 || c == 12 || c == 13
    then 2
    else if ltb c 32
    then 6
    else if ltb c 128
    then 1
    else if ltb c 2048
    then 2
    else if ltb c 65536
    then 3
    else 4

unfoldable pub sum : List ℕ → ℕ
sum [] = 0
sum (n ∷ ns) = n + sum ns

unfoldable pub string_size : Text → ℕ
unfolding sum character_size
string_size text = 2 + sum (map character_size text)

-- The parts of an array or an object, with the commas between them.
unfoldable pub joined_size : List ℕ → ℕ
joined_size [] = 0
joined_size (n ∷ []) = n
joined_size (n ∷ m ∷ rest) = n + 1 + joined_size (m ∷ rest)

abbrev pub bracketed_size : List ℕ → ℕ
bracketed_size parts = 2 + joined_size parts

abbrev pub strings_size : List Text → ℕ
strings_size texts = bracketed_size (map string_size texts)

-- A member of an object: its key in quotes, the colon and the value.
abbrev pub member_size : ℕ → ℕ → ℕ
member_size key_length value = key_length + 3 + value

abbrev pub type_size : EvidenceSourceType → ℕ
type_size experience = 12
type_size capsule = 9

abbrev pub state_size : EvidenceSourceState → ℕ
state_size hot = 5
state_size warm = 6
state_size cold = 6
state_size quarantined = 13

-- The digits of a rank, which is at most 12.
abbrev pub rank_size : ℕ → ℕ
rank_size rank = if ltb rank 10 then 1 else 2

abbrev uuid_size : ℕ
uuid_size = 38

abbrev digest_size : ℕ
digest_size = 66

-- The members of _snapshot_document in the order of their keys, sort_keys being set.
unfoldable pub item_size : SnapshotItem → ℕ
unfolding joined_size string_size
item_size i = bracketed_size (
    member_size 13 (strings_size i.applicability)
    ∷ member_size 12 digest_size
    ∷ member_size 7 (string_size i.excerpt)
    ∷ member_size 10 (strings_size i.falsifiers)
    ∷ member_size 9 (string_size i.mechanism)
    ∷ member_size 4 (rank_size i.rank)
    ∷ member_size 9 uuid_size
    ∷ member_size 12 (state_size i.source_state)
    ∷ member_size 11 (type_size i.source_type)
    ∷ member_size 17 uuid_size
    ∷ member_size 19 digest_size
    ∷ member_size 7 (string_size i.summary)
    ∷ member_size 4 (strings_size i.tags)
    ∷ [])

-- len(snapshot_canonical_bytes(items))
unfoldable pub snapshot_size : List SnapshotItem → ℕ
unfolding joined_size item_size
snapshot_size items = bracketed_size (member_size 5 (bracketed_size (map item_size items)) ∷ [])
