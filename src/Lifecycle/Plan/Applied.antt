-- ===== src/Lifecycle/Plan/Applied.antt =====
-- A plan and the mutation writer, together: run's call of apply_ordered_events on a plan.
use experience_hub.Prelude.{
  ℕ, ◌≤◌, ◌≡◌, refl, inl, inr, Bool, true, Option, none, some, List, [], ◌∷◌, arith, ok, ap, ◌∙◌,
  sym, ◌>>◌,
}
use experience_hub.Floats.{FloatOps}
use experience_hub.Scoring.{LifecycleConfig}
use experience_hub.Experiences.State.{state_valid}
use experience_hub.Experiences.Events.{Payload}
use experience_hub.Experiences.Events.Pending.{PendingEvent}
use experience_hub.Experiences.Writer.Apply.{
  Append, Current, latest_causal, Applied, accepts, apply_ordered_events,
}
use experience_hub.Experiences.Writer.Applied.{codecs_for, outcome, accepted-applied}
use experience_hub.Lifecycle.Evaluate.{latest_anchor}
use experience_hub.Lifecycle.Evaluate.Laws.{IsEligible, IsInRange}
use experience_hub.Lifecycle.Plan.{LifecycleRecord, LifecycleMutation, plan_mutation}
use experience_hub.Lifecycle.Plan.Accepted.{IsAccepted, plan-IsAccepted}
use experience_hub.Lifecycle.Plan.Checks.{StartsAt}

-- The writer writes the events of a plan and gives the versions the codec of its last state, unless
-- that writing fails.
abbrev pub IsCarriedOut :
    LifecycleConfig
    → LifecycleRecord
    → (ℕ → Option Current)
    → Append
    → List ℕ
    → LifecycleMutation
    → Applied
    → Type 0
IsCarriedOut config r lookup append ids m applied =
    (apply_ordered_events config r.experience_id m.resulting_state m.events lookup append
      ≡ (append m.events >> ok applied))
    × (applied.appended ≡ m.events)
    × (applied.result.temperature ≡ m.resulting_state.temperature)
    × (applied.rewritten ≡ codecs_for r.state.temperature m.resulting_state.temperature ids)

module _ (ops : FloatOps) (config : LifecycleConfig) (r : LifecycleRecord) (at cycle_id : ℕ)
    (deps : Bool) (lookup : ℕ → Option Current) (append : Append) (c : Current) (ids : List ℕ) where
  carried_out :
      (m : LifecycleMutation) (events : List (PendingEvent Payload))
      → m.events ≡ events
      → accepts config r.experience_id m.resulting_state events ≡ true
      → StartsAt r.state at events
      → lookup r.state.owner_agent_id ≡ some c
      → c.locked ≡ r.state
      → latest_causal c ≤ at
      → c.version_ids ≡ ok ids
      → (applied : Applied) × IsCarriedOut config r lookup append ids m applied
  carried_out m [] x a s l same le v = absurd s
  carried_out m (e ∷ rest) x a (b, t) l same le v = (
    outcome config r.experience_id m.resulting_state e rest lookup append r.state ids,
    (
      ap (λ es. apply_ordered_events config r.experience_id m.resulting_state es lookup append) x
          ∙ accepted-applied config r.experience_id m.resulting_state e rest lookup append c ids a b
              l same (omega arith) v
          ∙ sym (
              ap
                (λ es.
                  append es
                  >> ok (
                      outcome config r.experience_id m.resulting_state e rest lookup append r.state
                        ids))
                x),
      sym x,
      refl,
      refl,
    ),
  )

  eligible-some :
      (plan : Option LifecycleMutation)
      → IsEligible ops config r.state at
      → IsAccepted ops config r at plan
      → (m : LifecycleMutation) × (plan ≡ some m)
        × (accepts config r.experience_id m.resulting_state m.events ≡ true)
        × StartsAt r.state at m.events
  eligible-some none el (inl gone) = absurd (ground arith)
  eligible-some none el (inr recent) = absurd (ground arith)
  eligible-some (some m) el (_, a, _, s) = (m, refl, a, s)

  -- If the configured minimum interval and archive age are timedeltas, the owner's stored row is the
  -- recorded state, which is valid, of an eligible experience, its causal times and the record's are
  -- not after the evaluation, and its versions load, then the plan is a mutation and the writer
  -- passes its checks on it: it fails only as the writes of the events and the versions fail, and
  -- otherwise it has appended the events and, if the last state's temperature differs from the
  -- recorded one, has given the versions the codec of that temperature.
  pub plan_mutation-IsCarriedOut :
      IsInRange ops config
      → state_valid ops r.state ≡ true
      → r.state.experience_id ≡ r.experience_id
      → latest_anchor r.state r.created_at ≤ r.latest_causal_at
      → r.latest_causal_at ≤ at
      → IsEligible ops config r.state at
      → lookup r.state.owner_agent_id ≡ some c
      → c.locked ≡ r.state
      → latest_causal c ≤ at
      → c.version_ids ≡ ok ids
      → (m : LifecycleMutation) × (plan_mutation ops r config at cycle_id deps ≡ ok (some m))
        × (applied : Applied) × IsCarriedOut config r lookup append ids m applied
  plan_mutation-IsCarriedOut ranged v anchor bound le el l same causal loaded =
      let (plan, p, q) = plan-IsAccepted ops config r at cycle_id deps ranged v anchor bound le in
      let (m, x, a, s) = eligible-some plan el q in
      let (applied, done) = carried_out m m.events refl a s l same causal loaded in
      (m, p ∙ ap ok x, applied, done)
