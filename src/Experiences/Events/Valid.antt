-- ===== src/Experiences/Events/Valid.antt =====
-- The validators of the payload classes of src/experience_hub/experiences/events.py: `false` is the
-- ValueError that building the payload raises. A payload is one after its field validators,
-- so that its evidence is in the canonical order that canonicalize_evidence gives it.
use experience_hub.Prelude.{
  ℕ, ◌+◌, Bool, true, not, ◌&&◌, ◌||◌, Option, none, some, List, [], ◌∷◌, ltb, leb, ◌==◌, opt_eq,
  is_some, if◌then◌else◌, any,
}
use experience_hub.Floats.{FloatOps}
use experience_hub.Scoring.{one}
use experience_hub.Experiences.State.{
  State, cold, archived, Field, temperature_eq, state_eq, changes_within, digest_bound,
}
use experience_hub.Experiences.Events.Evidence.{is_canonical}
use experience_hub.Experiences.Events.{
  Payload, created, version_created, accessed, reactivated, temperature_changed,
  lifecycle_evaluated, confirmed, refuted, corroborated, pinned, unpinned, archived_event, restored,
  VersionLinkRef, Cause, policy_due, reason_eq, relation_rank, permits, is_cycle_cause,
  correction_fields, access_fields, temperature_change_fields, lifecycle_evaluation_fields,
  confidence_event_fields, pin_event_fields, restore_event_fields, no_fields,
}

-- The experience ID of the payload is that of both snapshots.
unfoldable pub anchored : ℕ → State → State → Bool
anchored id b a = id == b.experience_id && id == a.experience_id

-- `sorted(pairs) == pairs` by (target.bytes, relation.value)
unfoldable pub pair_le : VersionLinkRef → VersionLinkRef → Bool
unfolding relation_rank
pair_le x y =
    ltb x.target_experience_id y.target_experience_id
    || x.target_experience_id == y.target_experience_id
      && leb (relation_rank x.relation) (relation_rank y.relation)

unfoldable pub same_pair : VersionLinkRef → VersionLinkRef → Bool
unfolding relation_rank
same_pair x y =
    x.target_experience_id == y.target_experience_id
    && relation_rank x.relation == relation_rank y.relation

unfoldable pub in_canonical_order : List VersionLinkRef → Bool
unfolding pair_le
in_canonical_order [] = true
in_canonical_order (x ∷ []) = true
in_canonical_order (x ∷ y ∷ rest) = pair_le x y && in_canonical_order (y ∷ rest)

-- len(set(pairs)) == len(pairs)
unfoldable pub without_duplicates : List VersionLinkRef → Bool
unfolding same_pair
without_duplicates [] = true
without_duplicates (x ∷ rest) = not (any (same_pair x) rest) && without_duplicates rest

-- The checks of ExperienceVersionCreatedV1 after those of the links.
unfoldable pub version_effect_valid : ℕ → ℕ → Option ℕ → State → State → Bool
version_effect_valid version_number version_id supersedes b a =
    if version_number == 1
    then not (is_some supersedes) && state_eq b a
    else opt_eq supersedes (some b.current_version_id)
      && not (version_id == b.current_version_id)
      && changes_within correction_fields b a

-- _LifecycleStateEventV1.validate_state_anchors_and_fields
unfoldable pub state_event_valid : (Field → Bool) → ℕ → State → State → Bool
unfolding anchored
state_event_valid allowed id b a =
    anchored id b a && changes_within allowed b a && temperature_eq b.temperature a.temperature

-- ExperienceTemperatureChangedV1.validate_semantics
unfoldable pub temperature_change_valid : ℕ → Cause → Option ℕ → State → State → Bool
unfolding anchored
temperature_change_valid id cause cycle_id b a =
    anchored id b a
    && permits cause b.temperature a.temperature
    && (if is_cycle_cause cause then is_some cycle_id else not (is_some cycle_id))
    && changes_within temperature_change_fields b a
    && a.consecutive_below_threshold == 0

-- ExperienceAccessedV1.validate_semantics
unfoldable pub access_valid : ℕ → ℕ → State → State → Bool
unfolding anchored
access_valid id version_id b a =
    anchored id b a
    && version_id == b.current_version_id
    && version_id == a.current_version_id
    && not (temperature_eq b.temperature archived)
    && changes_within access_fields b a
    && a.access_count == b.access_count + 1
    && opt_eq a.last_accessed_at (some a.strength_updated_at)

module _ (ops : FloatOps) where
  open ops use {ratio, add, sub, mul}

  -- math.isclose(a, b, rel_tol=0.0, abs_tol=1e-12)
  unfoldable pub is_close : ℕ → ℕ → Bool
  is_close a b = leb (if leb a b then sub b a else sub a b) (ratio 1 1000000000000)

  unfoldable pub confirmed_confidence : ℕ → ℕ
  confirmed_confidence c = add c (mul (sub (one ops) c) (ratio 20 100))

  unfoldable pub refuted_confidence : ℕ → ℕ
  refuted_confidence c = mul c (ratio 65 100)

  unfoldable pub corroborated_confidence : ℕ → ℕ → ℕ
  corroborated_confidence c trust = add c (mul (mul (sub (one ops) c) (ratio 20 100)) trust)

  unfoldable pub valid : Payload → Bool
  unfolding anchored version_effect_valid state_event_valid temperature_change_valid access_valid
      without_duplicates in_canonical_order is_close confirmed_confidence refuted_confidence
      corroborated_confidence
  valid (created id version_id a) = id == a.experience_id && version_id == a.current_version_id
  valid (version_created id version_id version_number supersedes links b a) =
      leb 1 version_number
      && anchored id b a
      && b.owner_agent_id == a.owner_agent_id
      && a.current_version_id == version_id
      && not (any (λ (l : VersionLinkRef). l.target_experience_id == id) links)
      && without_duplicates links
      && in_canonical_order links
      && version_effect_valid version_number version_id supersedes b a
  valid (accessed id version_id b a) = access_valid id version_id b a
  valid (reactivated id query_hash mode signal b a) =
      ltb query_hash digest_bound
      && leb signal (one ops)
      && anchored id b a
      && state_eq b a
      && temperature_eq b.temperature cold
  valid (temperature_changed id cause cycle_id b a) = temperature_change_valid id cause cycle_id b a
  valid (lifecycle_evaluated id cycle_id evaluated_at goal b a) =
      state_event_valid lifecycle_evaluation_fields id b a
      && opt_eq a.last_lifecycle_evaluated_at (some evaluated_at)
      && a.strength_updated_at == evaluated_at
  valid (confirmed id reason evidence b a) =
      is_canonical evidence
      && state_event_valid confidence_event_fields id b a
      && is_close a.confidence (confirmed_confidence b.confidence)
  valid (refuted id reason evidence b a) =
      is_canonical evidence
      && state_event_valid confidence_event_fields id b a
      && is_close a.confidence (refuted_confidence b.confidence)
  valid (corroborated id adoption_id capsule_id root_fingerprint captured_trust b a) =
      ltb root_fingerprint digest_bound
      && leb captured_trust (one ops)
      && state_event_valid confidence_event_fields id b a
      && is_close a.confidence (corroborated_confidence b.confidence captured_trust)
  valid (pinned id reason b a) =
      state_event_valid pin_event_fields id b a && not b.pinned && a.pinned
  valid (unpinned id reason b a) =
      state_event_valid pin_event_fields id b a && b.pinned && not a.pinned
  valid (archived_event id cycle_id reason b a) =
      state_event_valid no_fields id b a
      && state_eq b a
      && temperature_eq b.temperature cold
      && reason_eq reason policy_due
  valid (restored id reason b a) =
      state_event_valid restore_event_fields id b a
      && temperature_eq b.temperature archived
      && temperature_eq a.temperature archived

-- The `before` and `after` fields; a created payload has no `before`.
unfoldable pub before : Payload → Option State
before (created _ _ _) = none
before (version_created _ _ _ _ _ b a) = some b
before (accessed _ _ b a) = some b
before (reactivated _ _ _ _ b a) = some b
before (temperature_changed _ _ _ b a) = some b
before (lifecycle_evaluated _ _ _ _ b a) = some b
before (confirmed _ _ _ b a) = some b
before (refuted _ _ _ b a) = some b
before (corroborated _ _ _ _ _ b a) = some b
before (pinned _ _ b a) = some b
before (unpinned _ _ b a) = some b
before (archived_event _ _ _ b a) = some b
before (restored _ _ b a) = some b

unfoldable pub after : Payload → State
after (created _ _ a) = a
after (version_created _ _ _ _ _ b a) = a
after (accessed _ _ b a) = a
after (reactivated _ _ _ _ b a) = a
after (temperature_changed _ _ _ b a) = a
after (lifecycle_evaluated _ _ _ _ b a) = a
after (confirmed _ _ _ b a) = a
after (refuted _ _ _ b a) = a
after (corroborated _ _ _ _ _ b a) = a
after (pinned _ _ b a) = a
after (unpinned _ _ b a) = a
after (archived_event _ _ _ b a) = a
after (restored _ _ b a) = a
