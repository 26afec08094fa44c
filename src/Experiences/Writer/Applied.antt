-- ===== src/Experiences/Writer/Applied.antt =====
-- What apply_ordered_events needs to succeed, and what its success means for the stored experience.
use experience_hub.Prelude.{
  ℕ, ◌≤◌, ◌≡◌, ◌⊎◌, sym, inl, inr, true, Option, some, List, [], ◌∷◌, arith, map, if◌then◌else◌,
  Bool-cases, Option-cases, not, ltb, ok, require, require-ok, value_error, replayable, >>=-eq-ok,
  ok-injective, ◌>>◌,
}
use experience_hub.Floats.{FloatOps}
use experience_hub.Scoring.{LifecycleConfig}
use experience_hub.Experiences.State.{State, Temperature, temperature_eq, state_eq}
use experience_hub.Experiences.State.Fields.{state_eq→≡, state_eq_refl}
use experience_hub.Experiences.Events.{Payload}
use experience_hub.Experiences.Events.Pending.{PendingEvent}
use experience_hub.Experiences.Events.Valid.{before}
use experience_hub.Experiences.Writer.Apply.{
  Append, PayloadCodec, preferred_payload_codec, accepts, payloads_of, Current, latest_causal,
  Applied, rewrites, apply_current, apply_ordered_events,
}
use experience_hub.Experiences.Writer.Changes.{causes}
use experience_hub.Experiences.Writer.Effect.{Kept, AllValid, IsOneMove, accepted_effect}

-- The codec rewrites of a temperature change, none without one.
abbrev pub codecs_for : Temperature → Temperature → List ℕ → List (ℕ × PayloadCodec)
codecs_for t u ids =
    if temperature_eq t u then [] else map (λ v. (v, preferred_payload_codec u)) ids

module _ (config : LifecycleConfig) (id : ℕ) (resulting : State) (e : PendingEvent Payload)
    (rest : List (PendingEvent Payload)) (lookup : ℕ → Option Current) (append : Append) where
  -- What the writer returns for the events.
  abbrev pub outcome : State → List ℕ → Applied
  outcome b ids = record {
    appended = e ∷ rest;
    rewritten = codecs_for b.temperature resulting.temperature ids;
    result = record {
      experience_id = id;
      owner_agent_id = b.owner_agent_id;
      current_version_id = resulting.current_version_id;
      current_content_hash = resulting.current_content_hash;
      temperature = resulting.temperature;
    };
  }

  -- Accepted events whose first `before` state is the owner's stored state, at a time not before its
  -- causal times, are appended, and unless that fails the versions get the codec of the new
  -- temperature if it differs.
  pub accepted-applied :
      (c : Current) (ids : List ℕ) {b : State}
      → accepts config id resulting (e ∷ rest) ≡ true
      → before e.payload ≡ some b
      → lookup b.owner_agent_id ≡ some c
      → c.locked ≡ b
      → latest_causal c ≤ e.occurred_at
      → c.version_ids ≡ ok ids
      → apply_ordered_events config id resulting (e ∷ rest) lookup append
        ≡ (append (e ∷ rest) >> ok (outcome b ids))
  unfolding apply_ordered_events apply_current rewrites
  accepted-applied c ids {b} a x l same le v = ground (arith, a, x, l, state_eq_refl b)

  -- The owner's stored row admits the events, and `applied` is what the writer returns.
  pub record IsApplied (applied : Applied) (b : State) : Type 0 where
    pub current : Current
    pub stored : lookup b.owner_agent_id ≡ some current
    pub accepted : accepts config id resulting (e ∷ rest) ≡ true
    pub locked : current.locked ≡ b
    pub in_time : latest_causal current ≤ e.occurred_at
    pub appends : append (e ∷ rest) ≡ ok tt
    pub ids : List ℕ
    pub loaded :
        (temperature_eq b.temperature resulting.temperature ≡ true) ⊎ (current.version_ids ≡ ok ids)
    pub result_eq : applied ≡ outcome b ids

  rewrites_inversion :
      (c : Current) (b : State) (codecs : List (ℕ × PayloadCodec))
      → c.locked ≡ b
      → rewrites resulting c ≡ ok codecs
      → (ids : List ℕ) × ((temperature_eq b.temperature resulting.temperature ≡ true)
          ⊎ (c.version_ids ≡ ok ids))
        × (codecs ≡ codecs_for b.temperature resulting.temperature ids)
  unfolding rewrites
  rewrites_inversion c b codecs same h =
      elim (Bool-cases (temperature_eq b.temperature resulting.temperature)) [
        | inl t ↦ ([], inl t, ground arith)
        | inr n ↦
            let (ids, x, y) = >>=-eq-ok c.version_ids _ (rw (same, n) at h) in
            (ids, inr x, rw n (sym (ok-injective y)))
      ]

  apply_current_inversion :
      (applied : Applied) (b : State) (c : Current)
      → lookup b.owner_agent_id ≡ some c
      → accepts config id resulting (e ∷ rest) ≡ true
      → apply_current append id resulting (e ∷ rest) b e.occurred_at (some c) ≡ ok applied
      → IsApplied applied b
  unfolding apply_current
  apply_current_inversion applied b c l a h =
      let (u, x, h₁) = >>=-eq-ok (require (state_eq b c.locked) value_error) _ h in
      let (v, y, h₂) =
        >>=-eq-ok
          (require (not (ltb e.occurred_at (latest_causal c))) (
            replayable "clock_regression" "Command time precedes existing experience state" [] 409))
          _ h₁ in
      let (codecs, z, h₃) = >>=-eq-ok (rewrites resulting c) _ h₂ in
      let (w, p, last) = >>=-eq-ok (append (e ∷ rest)) _ h₃ in
      let same : c.locked ≡ b = sym (state_eq→≡ b c.locked (require-ok _ _ x)) in
      let (ids, loaded, written) = rewrites_inversion c b codecs same z in
      record {
        current = c;
        stored = l;
        accepted = a;
        locked = same;
        in_time = ground (arith, require-ok _ _ y);
        appends = p;
        ids = ids;
        loaded = loaded;
        result_eq = rw (← written) (sym (ok-injective last));
      }

  applied_inversion :
      (applied : Applied) {b : State}
      → before e.payload ≡ some b
      → apply_ordered_events config id resulting (e ∷ rest) lookup append ≡ ok applied
      → IsApplied applied b
  unfolding apply_ordered_events
  applied_inversion applied {b} x h =
      let (u, a, h₁) =
        >>=-eq-ok (require (accepts config id resulting (e ∷ rest)) value_error) _ h in
      elim (Option-cases (lookup b.owner_agent_id)) [
        | inl n ↦ cc (rw (x, n, apply_current) at h₁)
        | inr (c, l) ↦ apply_current_inversion applied b c l (require-ok _ _ a) (rw (x, l) at h₁)
      ]

  -- If the writer applies valid payloads, it checked them against the owner's stored row: the first
  -- `before` state is the stored one and the time is not before its causal times. The events are
  -- appended as they are, and the versions, loaded if the temperature differs, get the codec of the
  -- new temperature. The stored state keeps its experience, owner, importance and source trust, loses
  -- no accesses, and moves its temperature at most once, as the cause permits and by the actor that
  -- it demands.
  pub applied_effect :
      (ops : FloatOps) (applied : Applied) {b : State}
      → before e.payload ≡ some b
      → AllValid ops (e ∷ rest)
      → apply_ordered_events config id resulting (e ∷ rest) lookup append ≡ ok applied
      → IsApplied applied b
        × Kept b resulting
        × IsOneMove e.actor_agent_id b.owner_agent_id
            (causes (payloads_of (e ∷ rest)))
            b.temperature
            resulting.temperature
  applied_effect ops applied {b} x v h =
      let k : IsApplied applied b = applied_inversion applied x h in
      let (kept, moves) = accepted_effect ops config id resulting e rest x v k.accepted in
      (k, kept, moves)
