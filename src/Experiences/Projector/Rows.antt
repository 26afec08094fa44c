-- ===== src/Experiences/Projector/Rows.antt =====
-- The rows of the experience_state table and their conversion from and to a snapshot, of
-- src/experience_hub/experiences/projector.py, with the constraints of the table. A column is kept as
-- the value that its text or number is read as: the spelling of a UUID, a datetime or a float in the
-- database, and the errors of reading a malformed one, are left out.
pub mod Table
use text.Mathlib.Text.{◌==◌ as str_eq}
use experience_hub.Prelude.{
  ℕ, Bool, true, false, not, ◌&&◌, ◌||◌, Option, none, some, List, [], ◌∷◌, String, ltb, leb, ◌==◌,
  if◌then◌else◌, any, tally, Result, ok, err, require, value_error, integrity_error, ◌>>=◌, ◌>>◌,
}
use experience_hub.Floats.{FloatOps}
use experience_hub.Scoring.{one, max_access_strength}
use experience_hub.Experiences.State.{
  State, Temperature, hot, warm, cold, archived, state_valid, digest_bound,
}

pub record Row : Type 0 where
  pub experience_id : ℕ
  pub owner_agent_id : ℕ
  pub current_version_id : ℕ
  pub current_content_hash : ℕ
  pub temperature : String
  pub importance : ℕ
  pub confidence : ℕ
  pub activation_score : ℕ
  pub source_trust : ℕ
  pub access_count : ℕ
  pub access_strength : ℕ
  pub strength_updated_at : ℕ
  pub last_accessed_at : Option ℕ
  pub last_transition_at : ℕ
  pub last_lifecycle_evaluated_at : Option ℕ
  pub consecutive_below_threshold : ℕ
  pub pinned : ℕ
  pub projection_event_id : ℕ

-- The values of the enumeration, and the one that a text names.
unfoldable pub temperature_value : Temperature → String
temperature_value hot = "hot"
temperature_value warm = "warm"
temperature_value cold = "cold"
temperature_value archived = "archived"

unfoldable pub temperature_named : String → Option Temperature
temperature_named text =
    if str_eq text "hot"
    then some hot
    else if str_eq text "warm"
    then some warm
    else if str_eq text "cold"
    then some cold
    else if str_eq text "archived"
    then some archived
    else none

-- int(pinned), and _boolean
unfoldable pub integer_of : Bool → ℕ
integer_of true = 1
integer_of false = 0

unfoldable pub boolean_of : ℕ → Option Bool
boolean_of value = if value == 0 then some false else if value == 1 then some true else none

abbrev pub snapshot_of : Row → Temperature → Bool → State
snapshot_of row t pin = record {
  experience_id = row.experience_id;
  owner_agent_id = row.owner_agent_id;
  current_version_id = row.current_version_id;
  current_content_hash = row.current_content_hash;
  temperature = t;
  importance = row.importance;
  confidence = row.confidence;
  activation_score = row.activation_score;
  source_trust = row.source_trust;
  access_count = row.access_count;
  access_strength = row.access_strength;
  strength_updated_at = row.strength_updated_at;
  last_accessed_at = row.last_accessed_at;
  last_transition_at = row.last_transition_at;
  last_lifecycle_evaluated_at = row.last_lifecycle_evaluated_at;
  consecutive_below_threshold = row.consecutive_below_threshold;
  pinned = pin;
}

unfoldable pub snapshot_parameters : State → ℕ → Row
unfolding temperature_value integer_of
snapshot_parameters s event_id = record {
  experience_id = s.experience_id;
  owner_agent_id = s.owner_agent_id;
  current_version_id = s.current_version_id;
  current_content_hash = s.current_content_hash;
  temperature = temperature_value s.temperature;
  importance = s.importance;
  confidence = s.confidence;
  activation_score = s.activation_score;
  source_trust = s.source_trust;
  access_count = s.access_count;
  access_strength = s.access_strength;
  strength_updated_at = s.strength_updated_at;
  last_accessed_at = s.last_accessed_at;
  last_transition_at = s.last_transition_at;
  last_lifecycle_evaluated_at = s.last_lifecycle_evaluated_at;
  consecutive_below_threshold = s.consecutive_below_threshold;
  pinned = integer_of s.pinned;
  projection_event_id = event_id;
}

-- The first row of an experience.
unfoldable pub select_row : ℕ → List Row → Option Row
select_row id [] = none
select_row id (r ∷ rs) = if r.experience_id == id then some r else select_row id rs

-- The rows of an experience become the given one; every other row stays.
unfoldable pub replace_row : Row → List Row → List Row
replace_row new [] = []
replace_row new (r ∷ rs) =
    (if r.experience_id == new.experience_id then new else r) ∷ replace_row new rs

unfoldable pub count_rows : ℕ → List Row → ℕ
count_rows id [] = 0
count_rows id (r ∷ rs) = tally (r.experience_id == id) (count_rows id rs)

-- Another experience of the owner has this content.
unfoldable pub content_taken : Row → List Row → Bool
content_taken new rows =
    any
      (λ (r : Row).
        not (r.experience_id == new.experience_id)
        && r.owner_agent_id == new.owner_agent_id
        && r.current_content_hash == new.current_content_hash)
      rows

module _ (ops : FloatOps) where
  valid_snapshot : Row → Option Temperature → Option Bool → Result State
  valid_snapshot row (some t) (some pin) =
      if state_valid ops (snapshot_of row t pin)
      then ok (snapshot_of row t pin)
      else err value_error
  valid_snapshot row _ _ = err value_error

  unfoldable pub snapshot_from_mapping : Row → Result State
  unfolding valid_snapshot temperature_named boolean_of
  snapshot_from_mapping row =
      valid_snapshot row (temperature_named row.temperature) (boolean_of row.pinned)

  -- The CHECK constraints.
  unfoldable pub row_checks : Row → Bool
  row_checks r =
      (str_eq r.temperature "hot"
        || str_eq r.temperature "warm"
        || str_eq r.temperature "cold"
        || str_eq r.temperature "archived")
      && leb r.importance (one ops)
      && leb r.confidence (one ops)
      && leb r.activation_score (one ops)
      && leb r.source_trust (one ops)
      && leb r.access_strength (max_access_strength ops)
      && (r.pinned == 0 || r.pinned == 1)
      && ltb 0 r.projection_event_id
      && ltb r.current_content_hash digest_bound

  -- INSERT
  unfoldable pub insert_row : Row → List Row → Result (List Row)
  unfolding row_checks content_taken
  insert_row new rows = do
    require (row_checks new) integrity_error
    require (not (any (λ (r : Row). r.experience_id == new.experience_id) rows)) integrity_error
    require (not (content_taken new rows)) integrity_error
    ok (new ∷ rows)

  -- UPDATE ... WHERE experience_id = :experience_id, with the number of rows that it affects.
  unfoldable pub update_row : Row → List Row → Result (List Row × ℕ)
  unfolding row_checks content_taken
  update_row new rows =
      let affected : ℕ = count_rows new.experience_id rows in
      if affected == 0 then ok (rows, 0) else (do
        require (row_checks new) integrity_error
        require (not (content_taken new rows)) integrity_error
        ok (replace_row new rows, affected))
