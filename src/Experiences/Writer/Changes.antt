-- ===== src/Experiences/Writer/Changes.antt =====
-- An accepted sequence of events changes the temperature at most once, for a cause of its actor.
use experience_hub.Prelude.{
  ℕ, ◌≡◌, refl, inl, inr, Bool, true, false, Option, none, some, List, [], ◌∷◌, arith, opt_eq,
  if◌then◌else◌, any, Bool-cases, length, ◌==◌,
}
use experience_hub.Scoring.{LifecycleConfig}
use experience_hub.Experiences.State.{State}
use experience_hub.Experiences.Events.{
  Payload, accessed, reactivated, temperature_changed, lifecycle_evaluated, archived_event, Cause,
  cold_reactivation, confirmation, pin, lifecycle_activation, lifecycle_demotion, policy_archive,
  restore, capsule_corroboration, is_cycle_cause,
}
use experience_hub.Experiences.Writer.Sequence.{
  is_capsule_event, is_protocol_event, changes_by, exact_lifecycle_sequence, exact_corroboration,
  exact_from_head, exact_protocol, cause_eq, matches_temperature_sequence, is_corroborated,
  is_confirmed, is_pinned, is_restored, matches_lifecycle_temperature_sequence,
  matches_archive_sequence,
}
use experience_hub.Experiences.Writer.Apply.{
  exact_access, access_rules, is_reactivation_chain, is_access, is_reactivation,
}

abbrev pub cons_cause : Payload → List Cause → List Cause
cons_cause (temperature_changed _ c _ _ _) cs = c ∷ cs
cons_cause _ cs = cs

-- The causes of the temperature changes among the payloads.
abbrev pub causes : List Payload → List Cause
causes [] = []
causes (p ∷ ps) = cons_cause p (causes ps)

-- At most one cause, which is one of the lifecycle cycle exactly for the system actor.
abbrev pub single_change : Option ℕ → ℕ → List Cause → Bool
single_change actor owner [] = true
single_change actor owner (c ∷ []) = opt_eq actor (if is_cycle_cause c then none else some owner)
single_change actor owner (c ∷ d ∷ cs) = false

cause_eq→≡ : (c d : Cause) → cause_eq c d ≡ true → c ≡ d
cause_eq→≡ c d h = ground arith

single_causes : (p : Payload) (ps : List Payload) → (length (p ∷ ps) == 1) ≡ true → causes ps ≡ []
single_causes p [] h = refl
single_causes p (q ∷ ps) h = ground arith

changes_cause :
    (c : Cause) (q : Payload) (cs : List Cause) → changes_by c q ≡ true → cons_cause q cs ≡ c ∷ cs
changes_cause c (temperature_changed _ d _ _ _) cs h = ground (arith, cause_eq→≡ d c)
changes_cause c q cs h = ground arith

no_causes :
    (ps : List Payload)
    → any is_capsule_event ps ≡ false
    → any is_protocol_event ps ≡ false
    → any (changes_by cold_reactivation) ps ≡ false
    → causes ps ≡ []
no_causes [] h k l = refl
no_causes (p ∷ ps) h k l = ground (arith, no_causes ps)

matches_causes :
    (is_head : Payload → Bool) (c : Cause) (p : Payload) (ps : List Payload)
    → matches_temperature_sequence is_head c (p ∷ ps) ≡ true
    → causes ps ≡ c ∷ []
unfolding matches_temperature_sequence
matches_causes is_head c p [] h = ground arith
matches_causes is_head c p (temperature_changed _ d _ _ _ ∷ []) h = ground (arith, cause_eq→≡ d c)
matches_causes is_head c p (q ∷ ps) h = ground arith

lifecycle_causes :
    (cycle : ℕ) (c : Cause) (p : Payload) (ps : List Payload)
    → matches_lifecycle_temperature_sequence cycle c (p ∷ ps) ≡ true
    → causes ps ≡ c ∷ []
unfolding matches_lifecycle_temperature_sequence
lifecycle_causes cycle c p [] h = ground arith
lifecycle_causes cycle c p (temperature_changed _ d _ _ _ ∷ []) h = ground (arith, cause_eq→≡ d c)
lifecycle_causes cycle c p (q ∷ ps) h = ground arith

archive_causes :
    (cycle : ℕ) (p : Payload) (ps : List Payload)
    → matches_archive_sequence cycle (p ∷ ps) ≡ true
    → causes ps ≡ policy_archive ∷ []
unfolding matches_archive_sequence
archive_causes cycle p [] h = ground arith
archive_causes cycle p (archived_event _ _ _ _ _ ∷ []) h = ground arith
archive_causes cycle p (archived_event _ _ _ _ _ ∷ temperature_changed _ d _ _ _ ∷ []) h =
    ground (arith, cause_eq→≡ d policy_archive)
archive_causes cycle p (archived_event _ _ _ _ _ ∷ q ∷ ps) h = ground arith
archive_causes cycle p (q ∷ ps) h = ground arith

access_cause : (p : Payload) (cs : List Cause) → is_access p ≡ true → cons_cause p cs ≡ cs
access_cause (accessed _ _ _ _) cs h = refl
access_cause p cs h = ground arith

reactivation_cause :
    (p : Payload) (cs : List Cause) → is_reactivation p ≡ true → cons_cause p cs ≡ cs
reactivation_cause (reactivated _ _ _ _ _ _) cs h = refl
reactivation_cause p cs h = ground arith

chain_accesses : (ps : List Payload) → is_reactivation_chain ps ≡ true → any is_access ps ≡ true
unfolding is_reactivation_chain
chain_accesses [] h = ground arith
chain_accesses (p ∷ ps) h = ground arith

-- The tests of `exact_access` on their truth values.
chain_required :
    (access react change is_cold is_archived chained single owned : Bool)
    → access_rules access react change is_cold is_archived chained single owned ≡ true
    → change ≡ true
    → chained ≡ true
unfolding access_rules
chain_required access react change is_cold is_archived chained single owned h c = ground arith

owner_required :
    (access react change is_cold is_archived chained single owned : Bool)
    → access_rules access react change is_cold is_archived chained single owned ≡ true
    → access ≡ true
    → owned ≡ true
unfolding access_rules
owner_required access react change is_cold is_archived chained single owned h c = ground arith

chain_causes :
    (ps : List Payload) → is_reactivation_chain ps ≡ true → causes ps ≡ cold_reactivation ∷ []
unfolding is_reactivation_chain
chain_causes [] h = ground arith
chain_causes (p ∷ []) h = ground arith
chain_causes (p ∷ q ∷ []) h = ground arith
chain_causes (p ∷ q ∷ r ∷ []) h = ground (
  arith,
  access_cause p (causes (q ∷ r ∷ [])),
  reactivation_cause q (causes (r ∷ [])),
  changes_cause cold_reactivation r [],
)
chain_causes (p ∷ q ∷ r ∷ s ∷ ps) h = ground arith

module _ (fb : State) (actor : Option ℕ) (owner : ℕ) where
  corroboration_change :
      (ps : List Payload)
      → exact_corroboration ps fb (opt_eq actor (some owner)) ≡ true
      → single_change actor owner (causes ps) ≡ true
  unfolding exact_corroboration is_cycle_cause
  corroboration_change [] h = ground arith
  corroboration_change (p ∷ ps) h =
      ground (arith, single_causes p ps, matches_causes is_corroborated capsule_corroboration p ps)

  head_change :
      (p : Payload) (ps : List Payload) (config : LifecycleConfig)
      → exact_from_head p (p ∷ ps) fb (opt_eq actor (some owner)) actor config ≡ true
      → single_change actor owner (causes (p ∷ ps)) ≡ true
  unfolding exact_from_head is_cycle_cause
  head_change (lifecycle_evaluated i cycle x goal b a) ps config h =
      let p = lifecycle_evaluated i cycle x goal b a in
      ground (
        arith,
        single_causes p ps,
        lifecycle_causes cycle lifecycle_activation p ps,
        lifecycle_causes cycle lifecycle_demotion p ps,
        archive_causes cycle p ps,
      )
  head_change p ps config h = ground (
    arith,
    single_causes p ps,
    matches_causes is_confirmed confirmation p ps,
    matches_causes is_pinned pin p ps,
    matches_causes is_restored restore p ps,
  )

  reactivation_change :
      (ps : List Payload)
      → any (changes_by cold_reactivation) ps ≡ true
      → exact_access ps fb (opt_eq actor (some owner)) ≡ true
      → single_change actor owner (causes ps) ≡ true
  unfolding exact_access is_cycle_cause
  reactivation_change ps a h =
      let chained : is_reactivation_chain ps ≡ true = chain_required _ _ _ _ _ _ _ _ h a in
      let owned : opt_eq actor (some owner) ≡ true =
        owner_required _ _ _ _ _ _ _ _ h (chain_accesses ps chained) in
      rw (chain_causes ps chained) owned

  -- A sequence of payloads that passes the writer's two sequence checks changes the temperature at
  -- most once. If its actor is the system, the change is for a cause of the lifecycle cycle, and
  -- otherwise the actor is the owner and the cause is none of those.
  pub sequence-single_change :
      (ps : List Payload) (config : LifecycleConfig)
      → exact_lifecycle_sequence ps fb actor owner config ≡ true
      → exact_access ps fb (opt_eq actor (some owner)) ≡ true
      → single_change actor owner (causes ps) ≡ true
  unfolding exact_lifecycle_sequence
  sequence-single_change ps config h k = elim (Bool-cases (any is_capsule_event ps)) [
    | inl c ↦ corroboration_change ps (rw c at h)
    | inr c ↦ elim (Bool-cases (any is_protocol_event ps)) [
      | inl d ↦ protocol ps (rw (c, d) at h)
      | inr d ↦ elim (Bool-cases (any (changes_by cold_reactivation) ps)) [
        | inl e ↦ reactivation_change ps e k
        | inr e ↦ rw (no_causes ps c d e) refl
      ]
    ]
  ]
    where
      protocol :
          (qs : List Payload)
          → exact_protocol qs qs fb (opt_eq actor (some owner)) actor config ≡ true
          → single_change actor owner (causes qs) ≡ true
      protocol [] x = cc
      protocol (p ∷ qs) x = head_change p qs config x
