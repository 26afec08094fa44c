-- ===== src/Experiences/Writer/Effect.antt =====
-- What an accepted sequence of valid events does to the state of its experience.
use experience_hub.Prelude.{
  ℕ, ◌≤◌, ◌≡◌, refl, ap, ◌∙◌, inl, inr, true, false, Option, none, some, List, [], ◌∷◌, arith,
  opt_eq, opt_eq→≡, if◌then◌else◌, Bool-cases, Option-cases, All, and-true,
}
use experience_hub.Floats.{FloatOps}
use experience_hub.Scoring.{LifecycleConfig}
use experience_hub.Experiences.State.{State, Temperature}
use experience_hub.Experiences.State.Fields.{state_eq→≡}
use experience_hub.Experiences.Events.{Payload, temperature_changed, Cause, permits, is_cycle_cause}
use experience_hub.Experiences.Events.Pending.{PendingEvent}
use experience_hub.Experiences.Events.Valid.{valid, before, after, temperature_change_valid}
use experience_hub.Experiences.Events.Authority.{Authority, valid-Authority, is_temperature_changed}
use experience_hub.Experiences.Writer.Sequence.{exact_lifecycle_sequence}
use experience_hub.Experiences.Writer.Apply.{
  chain, event_fits, ends_in, accepts, accepts_from, accepts_head, payloads_of, exact_access,
}
use experience_hub.Experiences.Writer.Changes.{
  causes, cons_cause, single_change, sequence-single_change,
}

-- The temperature goes through the changes of the causes, one by one.
abbrev pub Moves : List Cause → Temperature → Temperature → Type 0
Moves [] t u = u ≡ t
Moves (c ∷ cs) t u = (v : Temperature) × (permits c t v ≡ true) × Moves cs v u

-- What no sequence of events changes.
pub record Kept (b a : State) : Type 0 where
  pub experience : a.experience_id ≡ b.experience_id
  pub owner : a.owner_agent_id ≡ b.owner_agent_id
  pub importance : a.importance ≡ b.importance
  pub source_trust : a.source_trust ≡ b.source_trust
  pub accesses : b.access_count ≤ a.access_count

Kept-refl : (s : State) → Kept s s
Kept-refl s = omega arith

Kept-trans : {r s t : State} → Kept r s → Kept s t → Kept r t
Kept-trans h k = omega arith

module _ (ops : FloatOps) where
  -- Each payload was built, so its validators passed.
  abbrev pub AllValid : List (PendingEvent Payload) → Type 0
  AllValid = All (λ e. valid ops e.payload ≡ true)

  payload-Kept :
      (p : Payload) {b : State} → before p ≡ some b → valid ops p ≡ true → Kept b (after p)
  payload-Kept p {b} x v =
      let k : Authority p b (after p) = valid-Authority ops p x v in
      record {
        experience = k.experience;
        owner = k.owner;
        importance = k.importance;
        source_trust = k.source_trust;
        accesses = ground (arith, k.accesses);
      }

  same_temperature :
      (p : Payload) {b : State}
      → before p ≡ some b
      → valid ops p ≡ true
      → is_temperature_changed p ≡ false
      → (after p).temperature ≡ b.temperature
  same_temperature p {b} x v n =
      let k : Authority p b (after p) = valid-Authority ops p x v in ground (arith, k.temperature)

  payload-Moves :
      (p : Payload) (cs : List Cause) (u : Temperature) {b : State}
      → before p ≡ some b
      → valid ops p ≡ true
      → Moves cs (after p).temperature u
      → Moves (cons_cause p cs) b.temperature u
  unfolding before after valid temperature_change_valid
  payload-Moves (temperature_changed i c y b' a) cs u x v m = (a.temperature, ground arith, m)
  payload-Moves p cs u x v m = rw (← same_temperature p x v refl) m

  module _ (id owner : ℕ) (actor : Option ℕ) (at : ℕ) where
    chain_inversion :
        (e : PendingEvent Payload) (rest : List (PendingEvent Payload)) (previous : Option State)
        (last : State)
        → chain id owner actor at previous (e ∷ rest) ≡ some last
        → (b : State) × (before e.payload ≡ some b)
          × (event_fits id owner actor at previous e b (after e.payload) ≡ true)
          × (chain id owner actor at (some (after e.payload)) rest ≡ some last)
    unfolding chain
    chain_inversion e rest previous last h = elim (Option-cases (before e.payload)) [
      | inl n ↦ cc (rw (n, chain) at h)
      | inr (b, x) ↦
          elim (Bool-cases (event_fits id owner actor at previous e b (after e.payload))) [
            | inl f ↦ (b, x, f, rw (x, f, chain) at h)
            | inr f ↦ cc (rw (x, f, chain) at h)
          ]
    ]

    follows_of_fits :
        (e : PendingEvent Payload) (s b a : State)
        → event_fits id owner actor at (some s) e b a ≡ true
        → b ≡ s
    unfolding event_fits
    follows_of_fits e s b a f = state_eq→≡ b s (ground arith)

    pub chain_effect :
        (events : List (PendingEvent Payload)) (s last : State)
        → chain id owner actor at (some s) events ≡ some last
        → AllValid events
        → Kept s last × Moves (causes (payloads_of events)) s.temperature last.temperature
    chain_effect [] s last h v =
        let e : s ≡ last = unfold chain in cc in rw (← e) (Kept-refl s, refl)
    chain_effect (e ∷ rest) s last h v =
        let (b, x, f, more) = chain_inversion e rest (some s) last h in
        let same : b ≡ s = follows_of_fits e s b (after e.payload) f in
        let x' : before e.payload ≡ some s = x ∙ ap some same in
        let ih = chain_effect rest (after e.payload) last more v.1 in
        (
          Kept-trans (payload-Kept e.payload x' v.0) ih.0,
          payload-Moves e.payload (causes (payloads_of rest)) last.temperature x' v.0 ih.1,
        )

    -- The first event, whose `before` state is free.
    first_effect :
        (e : PendingEvent Payload) (rest : List (PendingEvent Payload)) (b last : State)
        → before e.payload ≡ some b
        → chain id owner actor at none (e ∷ rest) ≡ some last
        → AllValid (e ∷ rest)
        → Kept b last × Moves (causes (payloads_of (e ∷ rest))) b.temperature last.temperature
    first_effect e rest b last x h v =
        let (b', x', f, more) = chain_inversion e rest none last h in
        let ih = chain_effect rest (after e.payload) last more v.1 in
        (
          Kept-trans (payload-Kept e.payload x v.0) ih.0,
          payload-Moves e.payload (causes (payloads_of rest)) last.temperature x v.0 ih.1,
        )

-- How the temperature ends: as it was with no change among the events, or as one change permits.
abbrev pub IsOneMove : Option ℕ → ℕ → List Cause → Temperature → Temperature → Type 0
IsOneMove actor owner [] t u = u ≡ t
IsOneMove actor owner (c ∷ []) t u =
    (permits c t u ≡ true) × (actor ≡ (if is_cycle_cause c then none else some owner))
IsOneMove actor owner (c ∷ d ∷ cs) t u = ⊥

one_move :
    (actor : Option ℕ) (owner : ℕ) (cs : List Cause) (t u : Temperature)
    → single_change actor owner cs ≡ true
    → Moves cs t u
    → IsOneMove actor owner cs t u
one_move actor owner [] t u h m = m
one_move actor owner (c ∷ []) t u h (v, p, e) = (rw e p, opt_eq→≡ _ _ h)
one_move actor owner (c ∷ d ∷ cs) t u h m = absurd (cc)

-- What the writer's checks amount to, from the first event's `before` state.
record IsAdmitted (config : LifecycleConfig) (id : ℕ) (resulting : State) (e : PendingEvent Payload)
    (rest : List (PendingEvent Payload)) (b : State) : Type 0 where
  chained :
      chain id b.owner_agent_id e.actor_agent_id e.occurred_at none (e ∷ rest) ≡ some resulting
  exact :
      exact_lifecycle_sequence (payloads_of (e ∷ rest)) b e.actor_agent_id b.owner_agent_id config
      ≡ true
  access :
      exact_access (payloads_of (e ∷ rest)) b (opt_eq e.actor_agent_id (some b.owner_agent_id))
      ≡ true

ends_in-chained :
    (resulting : State) (id owner : ℕ) (o : Option State)
    → ends_in resulting id owner o ≡ true
    → o ≡ some resulting
ends_in-chained resulting id owner none h = cc
ends_in-chained resulting id owner (some last) h =
    ap some (state_eq→≡ last resulting (ground arith))

admitted :
    (config : LifecycleConfig) (id : ℕ) (resulting : State) (e : PendingEvent Payload)
    (rest : List (PendingEvent Payload)) {b : State}
    → before e.payload ≡ some b
    → accepts config id resulting (e ∷ rest) ≡ true
    → IsAdmitted config id resulting e rest b
unfolding accepts accepts_from
admitted config id resulting e rest {b} x h =
    let k : accepts_from config id resulting (e ∷ rest) e b ≡ true = rw (x, accepts_head) at h in
    let (front, access) = and-true _ _ k in
    let (ends, exact) = and-true _ _ front in
    record {
      chained =
          ends_in-chained resulting id b.owner_agent_id
            (chain id b.owner_agent_id e.actor_agent_id e.occurred_at none (e ∷ rest)) ends;
      exact = exact;
      access = access;
    }

-- For events that the writer accepts, each with a payload that its validators passed, the resulting
-- state keeps the experience, its owner, its importance and its source trust of the first event's
-- `before` state and has no fewer accesses. Its temperature is unchanged, or the events hold one
-- temperature change, whose cause permits it; the actor is then the system for a cause of the
-- lifecycle cycle and the owner for any other cause.
pub accepted_effect :
    (ops : FloatOps) (config : LifecycleConfig) (id : ℕ) (resulting : State)
    (e : PendingEvent Payload) (rest : List (PendingEvent Payload)) {b : State}
    → before e.payload ≡ some b
    → AllValid ops (e ∷ rest)
    → accepts config id resulting (e ∷ rest) ≡ true
    → Kept b resulting
      × IsOneMove e.actor_agent_id b.owner_agent_id
          (causes (payloads_of (e ∷ rest)))
          b.temperature
          resulting.temperature
accepted_effect ops config id resulting e rest {b} x v h =
    let k : IsAdmitted config id resulting e rest b = admitted config id resulting e rest x h in
    let (kept, moves) =
      first_effect ops id b.owner_agent_id e.actor_agent_id e.occurred_at e rest b resulting x
        k.chained v in
    (
      kept,
      one_move e.actor_agent_id b.owner_agent_id (causes (payloads_of (e ∷ rest))) b.temperature
          resulting.temperature
          (sequence-single_change b e.actor_agent_id b.owner_agent_id (payloads_of (e ∷ rest))
            config k.exact k.access)
          moves,
    )
