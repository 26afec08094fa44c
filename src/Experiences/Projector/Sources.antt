-- ===== src/Experiences/Projector/Sources.antt =====
-- What the projector reads of the authoritative tables: the source rows, the event ledger with its
-- registry, and the adoptions and capsules, of src/experience_hub/experiences/projector.py. The
-- stored form of an event's payload is opaque, and so is the content of a version.
use text.Mathlib.Text.{◌==◌ as str_eq}
use experience_hub.Prelude.{
  ℕ, ◌≡◌, Bool, ◌&&◌, ◌||◌, Option, none, some, List, [], ◌∷◌, String, ◌==◌, if◌then◌else◌, Result,
  ok, err, require, projection_integrity_error, ◌>>=◌, ◌>>◌,
}
use experience_hub.Storage.EventStore.{StoredEvent}
use experience_hub.Experiences.Events.{
  Payload, created, version_created, accessed, reactivated, temperature_changed,
  lifecycle_evaluated, confirmed, refuted, corroborated, pinned, unpinned, archived_event, restored,
}

-- ExperienceRow and ExperienceVersionRow, under their keys.
pub record Identity : Type 0 where
  pub owner_agent_id : ℕ
  pub created_at : ℕ

pub record Version : Type 0 where
  pub version_id : ℕ
  pub experience_id : ℕ
  pub version_number : ℕ
  pub supersedes_version_id : Option ℕ
  pub content_hash : ℕ
  pub created_at : ℕ

pub record CapsuleAdopted : Type 0 where
  pub item_id : ℕ
  pub capsule_id : ℕ
  pub adopter_agent_id : ℕ
  pub adoption_id : ℕ
  pub resulting_experience_id : ℕ
  pub root_fingerprint : ℕ
  pub created : Bool
  pub corroboration_applied : Bool

-- An entry of a provenance chain.
pub record Provenance : Type 0 where
  pub capsule_id : ℕ
  pub publisher_agent_id : ℕ

pub record Adoption : Type 0 where
  pub adoption_id : ℕ
  pub adopter_agent_id : ℕ
  pub capsule_id : ℕ
  pub resulting_experience_id : ℕ
  pub root_fingerprint : ℕ
  pub corroboration_applied : Bool
  pub captured_trust : ℕ
  pub adopted_at : ℕ
  pub provenance_chain : List Provenance

-- The chain of a capsule is `none` if its text is not an array.
pub record Capsule : Type 0 where
  pub capsule_id : ℕ
  pub publisher_agent_id : ℕ
  pub root_fingerprint : ℕ
  pub source_content_hash : ℕ
  pub created_at : ℕ
  pub provenance_chain : Option (List Provenance)

-- A decoded payload: of an experience, of an adoption, or of another class, which may have an
-- experience ID.
pub data Decoded : Type 0 where
  of_experience : (payload : Payload) → Decoded
  of_adoption : (adopted : CapsuleAdopted) → Decoded
  of_other : (experience_id : Option ℕ) → Decoded

-- The field `experience_id` of a payload.
unfoldable pub experience_of : Payload → ℕ
experience_of (created id _ _) = id
experience_of (version_created id _ _ _ _ _ _) = id
experience_of (accessed id _ _ _) = id
experience_of (reactivated id _ _ _ _ _) = id
experience_of (temperature_changed id _ _ _ _) = id
experience_of (lifecycle_evaluated id _ _ _ _ _) = id
experience_of (confirmed id _ _ _ _) = id
experience_of (refuted id _ _ _ _) = id
experience_of (corroborated id _ _ _ _ _ _) = id
experience_of (pinned id _ _ _) = id
experience_of (unpinned id _ _ _) = id
experience_of (archived_event id _ _ _ _) = id
experience_of (restored id _ _ _) = id

-- getattr(payload, "experience_id", None)
unfoldable pub experience_named : Decoded → Option ℕ
unfolding experience_of
experience_named (of_experience p) = some (experience_of p)
experience_named (of_adoption c) = none
experience_named (of_other id) = id

-- `P` is the stored form of payloads and `C` the content of versions. `decode` is the registry's,
-- `none` for its errors. `content` is what loading the payload row of a version and verifying it
-- against the experience yields, `none` where the row is missing or corrupt.
pub record Sources (P C : Type 0) : Type 0 where
  pub identity : ℕ → Option Identity
  pub version : ℕ → Option Version
  pub content : ℕ → ℕ → Option C
  pub ledger : List (StoredEvent P)
  pub decode : String → P → Option Decoded
  pub adoptions : List Adoption
  pub capsule : ℕ → Option Capsule

-- session.get, where a missing row is an integrity error.
abbrev pub found {ℓ} : {A : Type ℓ} → Option A → Result A
found none = err projection_integrity_error
found (some a) = ok a

-- `if test: raise _fail(...)`, for the negation of the test.
abbrev pub checked : Bool → Result (Unit {0})
checked test = require test projection_integrity_error

pub found-ok {ℓ} : {A : Type ℓ} (o : Option A) {a : A} → found o ≡ ok a → o ≡ some a
found-ok none h = cc
found-ok (some a) h = cc

-- The row of the ledger with an identifier.
unfoldable pub event_at : {P : Type 0} → ℕ → List (StoredEvent P) → Option (StoredEvent P)
event_at id [] = none
event_at id (e ∷ es) = if e.event_id == id then some e else event_at id es

-- The adoption with an identifier.
unfoldable pub adoption_at : ℕ → List Adoption → Option Adoption
adoption_at id [] = none
adoption_at id (x ∷ xs) = if x.adoption_id == id then some x else adoption_at id xs

-- STATE_EXPERIENCE_EVENT_TYPES
unfoldable pub is_state_event_type : String → Bool
is_state_event_type t =
    str_eq t "experience.created"
    || str_eq t "experience.version_created"
    || str_eq t "experience.accessed"
    || str_eq t "experience.reactivated"
    || str_eq t "experience.temperature_changed"
    || str_eq t "experience.lifecycle_evaluated"
    || str_eq t "experience.confirmed"
    || str_eq t "experience.refuted"
    || str_eq t "experience.pinned"
    || str_eq t "experience.unpinned"
    || str_eq t "experience.archived"
    || str_eq t "experience.restored"
    || str_eq t "experience.corroborated"

module _ {P C : Type 0} (sources : Sources P C) where
  -- _load_source_anchors
  unfoldable pub load_source_anchors : StoredEvent Payload → ℕ → ℕ → Result (Identity × Version × C)
  load_source_anchors event experience_id version_id = do
    identity ← found (sources.identity experience_id)
    version ← found (sources.version version_id)
    content ← found (sources.content experience_id version_id)
    checked (
        event.row.key.aggregate_id == experience_id
        && version.experience_id == experience_id
        && version.created_at == event.row.occurred_at)
    ok (identity, version, content)
