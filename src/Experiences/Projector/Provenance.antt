-- ===== src/Experiences/Projector/Provenance.antt =====
-- The adoptions behind a corroborated event, of src/experience_hub/experiences/projector.py: the
-- index of the adoption events, which the session keeps, and the checks of the provenance.
use text.Mathlib.Text.{◌==◌ as str_eq}
use experience_hub.Prelude.{
  ℕ, Bool, true, false, not, ◌&&◌, Option, none, some, List, [], ◌∷◌, ◌++◌, ltb, leb, ◌==◌, opt_eq,
  bool_eq, is_some, if◌then◌else◌, any, Result, ok, err, projection_integrity_error, ◌>>=◌, ◌>>◌,
}
use experience_hub.Floats.{FloatOps}
use experience_hub.Experiences.State.{State}
use experience_hub.Experiences.Events.{Payload}
use experience_hub.Experiences.Events.Valid.{is_close}
use experience_hub.Storage.EventStore.{StoredEvent}
use experience_hub.Experiences.Projector.Sources.{
  Identity, Sources, Decoded, of_experience, of_adoption, of_other, CapsuleAdopted, Adoption,
  Capsule, Provenance, adoption_at, found, checked,
}

-- The events of adoptions, by adoption ID.
abbrev pub Index : Type 0 → Type 0
Index P = List (ℕ × (StoredEvent P × CapsuleAdopted))

unfoldable pub indexed : {P : Type 0} → ℕ → Index P → Option (StoredEvent P × CapsuleAdopted)
indexed id [] = none
indexed id ((k, pair) ∷ rest) = if k == id then some pair else indexed id rest

module _ {P C : Type 0} (sources : Sources P C) where
  -- The checks of one row of the index.
  index_entry : StoredEvent P → Index P → Decoded → Result (ℕ × (StoredEvent P × CapsuleAdopted))
  unfolding indexed
  index_entry e index (of_adoption c) = do
    checked (
        str_eq e.row.key.aggregate_type "inbox_item"
        && e.row.key.aggregate_id == c.item_id
        && e.row.sequence == 2
        && opt_eq e.row.actor_agent_id (some c.adopter_agent_id)
        && not (is_some (indexed c.adoption_id index)))
    ok (c.adoption_id, (e, c))
  index_entry e index (of_experience p) = err projection_integrity_error
  index_entry e index (of_other id) = err projection_integrity_error

  unfoldable pub index_rows : List (StoredEvent P) → Index P → Result (Index P)
  unfolding index_entry
  index_rows [] index = ok index
  index_rows (e ∷ es) index = elim (str_eq e.row.event_type "capsule.adopted") [
    | false ↦ index_rows es index
    | true ↦ (do
      decoded ← found (sources.decode e.row.event_type e.row.payload)
      entry ← index_entry e index decoded
      index_rows es (entry ∷ index))
  ]

  -- _adoption_event_index, where `cached` is the entry of session.info.
  unfoldable pub adoption_event_index : Option (Index P) → Bool → Result (Index P)
  unfolding index_rows
  adoption_event_index (some index) false = ok index
  adoption_event_index (some index) true = index_rows sources.ledger []
  adoption_event_index none refresh = index_rows sources.ledger []

  -- select(AdoptionRecordRow).where(...)
  unfoldable pub other_adoptions : ℕ → ℕ → ℕ → List Adoption → List Adoption
  other_adoptions experience_id root adoption_id [] = []
  other_adoptions experience_id root adoption_id (x ∷ xs) =
      let rest : List Adoption = other_adoptions experience_id root adoption_id xs in
      if x.resulting_experience_id == experience_id
        && x.root_fingerprint == root
        && not (x.adoption_id == adoption_id)
      then x ∷ rest
      else rest

  -- The index of the session, read anew if an adoption is missing from it.
  unfoldable pub index_for : Option (Index P) → List Adoption → Result (Index P)
  unfolding adoption_event_index indexed
  index_for cached others = do
    index ← adoption_event_index cached false
    elim (any (λ (x : Adoption). not (is_some (indexed x.adoption_id index))) others) [
      | false ↦ ok index
      | true ↦ adoption_event_index (some index) true
    ]

  -- The event of a prior adoption records what its row holds.
  unfoldable pub records_adoption : StoredEvent P → CapsuleAdopted → Adoption → Bool
  records_adoption e c x =
      c.adopter_agent_id == x.adopter_agent_id
      && c.capsule_id == x.capsule_id
      && c.resulting_experience_id == x.resulting_experience_id
      && c.root_fingerprint == x.root_fingerprint
      && bool_eq c.corroboration_applied x.corroboration_applied
      && e.row.occurred_at == x.adopted_at

  -- The loop over the other adoptions, with its breaks: `prior_sources_valid` and
  -- `not overlapping_root`.
  unfoldable pub prior_sources : Index P → ℕ → List Adoption → Bool × Bool
  unfolding indexed records_adoption
  prior_sources index event_id [] = (true, true)
  prior_sources index event_id (x ∷ xs) = elim (indexed x.adoption_id index) [
    | none ↦ (false, true)
    | some (e, c) ↦ elim (records_adoption e c x) [
      | false ↦ (false, true)
      | true ↦ elim (ltb e.event_id event_id) [
        | true ↦ (true, false)
        | false ↦ prior_sources index event_id xs
      ]
    ]
  ]

-- canonical_json_bytes(expected_chain) == provenance_chain
unfoldable pub chain_eq : List Provenance → List Provenance → Bool
chain_eq [] [] = true
chain_eq (x ∷ xs) (y ∷ ys) =
    x.capsule_id == y.capsule_id && x.publisher_agent_id == y.publisher_agent_id && chain_eq xs ys
chain_eq _ _ = false

unfoldable pub provenance_matches : Capsule → Option (List Provenance) → List Provenance → Bool
unfolding chain_eq
provenance_matches capsule none chain = false
provenance_matches capsule (some parent) chain =
    chain_eq
      (parent
        ++ (record {
          capsule_id = capsule.capsule_id;
          publisher_agent_id = capsule.publisher_agent_id;
        }
            ∷ []))
      chain

module _ (ops : FloatOps) {P C : Type 0} (sources : Sources P C) where
  -- The source checks of _apply_corroborated: the index of the session after them.
  unfoldable pub require_provenance :
      Option (Index P)
      → StoredEvent Payload
      → Identity
      → (experience_id adoption_id capsule_id root captured_trust : ℕ) → State
      → Result (Index P)
  unfolding other_adoptions index_for prior_sources provenance_matches
  require_provenance cached event identity experience_id adoption_id capsule_id root trust b = do
    adoption ← found (adoption_at adoption_id sources.adoptions)
    capsule ← found (sources.capsule capsule_id)
    let others : List Adoption =
        other_adoptions sources experience_id root adoption_id sources.adoptions
    index ← index_for sources cached others
    let (sources_valid, no_overlap) = prior_sources sources index event.event_id others
    checked (
        adoption.adopter_agent_id == b.owner_agent_id
        && adoption.capsule_id == capsule_id
        && adoption.resulting_experience_id == experience_id
        && adoption.root_fingerprint == root
        && adoption.corroboration_applied
        && adoption.adopted_at == event.row.occurred_at
        && is_close ops adoption.captured_trust trust
        && capsule.root_fingerprint == root
        && capsule.source_content_hash == b.current_content_hash
        && leb capsule.created_at event.row.occurred_at
        && identity.owner_agent_id == adoption.adopter_agent_id
        && provenance_matches capsule capsule.provenance_chain adoption.provenance_chain
        && sources_valid
        && no_overlap)
    ok index
