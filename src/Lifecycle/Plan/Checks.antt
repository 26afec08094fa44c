-- ===== src/Lifecycle/Plan/Checks.antt =====
-- The events of a plan pass every check of the mutation writer.
use experience_hub.Prelude.{
  ℕ, ◌≡◌, refl, ◌∙◌, true, false, Option, none, some, List, [], ◌∷◌, arith,
}
use experience_hub.Floats.{FloatOps}
use experience_hub.Scoring.{LifecycleConfig}
use experience_hub.Experiences.State.{State, Temperature, archived, state_valid}
use experience_hub.Experiences.State.Fields.{state_eq_refl}
use experience_hub.Experiences.Events.{Payload}
use experience_hub.Experiences.Events.Pending.{PendingEvent}
use experience_hub.Experiences.Events.Valid.{before, after}
use experience_hub.Experiences.Writer.Sequence.{exact_lifecycle_sequence}
use experience_hub.Experiences.Writer.Apply.{
  accepts, chain, follows, exact_access, access_rules, payloads_of,
}
use experience_hub.Lifecycle.Evaluate.{LifecycleEvaluation, evaluation_valid}
use experience_hub.Lifecycle.Plan.{
  LifecycleRecord, LifecycleMutation, evaluated_state, transitioned_state, transition_cause,
}
use experience_hub.Lifecycle.Plan.Build.{
  coherent, planned_event, planned_event-fits, evaluation_payload, archive_payload, change_payload,
  plan_to,
}

module _ (ops : FloatOps) (config : LifecycleConfig) (r : LifecycleRecord) (at cycle_id : ℕ)
    (e : LifecycleEvaluation) (anchor : r.state.experience_id ≡ r.experience_id) where
  abbrev pub plan : Option Temperature → LifecycleMutation
  plan = plan_to ops config r at cycle_id e anchor

  chain-planned :
      (p : Payload) (previous : Option State) (rest : List (PendingEvent Payload)) {b : State}
      → before p ≡ some b
      → b.experience_id ≡ r.experience_id
      → (after p).experience_id ≡ r.experience_id
      → b.owner_agent_id ≡ r.state.owner_agent_id
      → (after p).owner_agent_id ≡ r.state.owner_agent_id
      → follows previous b ≡ true
      → chain r.experience_id r.state.owner_agent_id none at previous
          (planned_event ops config r at cycle_id p ∷ rest)
        ≡ chain r.experience_id r.state.owner_agent_id none at (some (after p)) rest
  unfolding chain planned_event before after
  chain-planned p previous rest {b} x ib ia ob oa f = rw (
    x,
    planned_event-fits ops config r at cycle_id p r.state.owner_agent_id previous b (after p) ib ia
        ob oa f,
  )

  plan-chain :
      (t : Option Temperature)
      → chain r.experience_id r.state.owner_agent_id none at none (plan t).events
        ≡ some (plan t).resulting_state
  unfolding before after plan_to evaluation_payload archive_payload change_payload evaluated_state
      transitioned_state
  plan-chain none =
      chain-planned (evaluation_payload ops config r at cycle_id e anchor) none [] refl anchor
        anchor refl refl refl
      ∙ unfold chain in refl
  plan-chain (some archived) =
      chain-planned (evaluation_payload ops config r at cycle_id e anchor) none _ refl anchor anchor
        refl refl refl
      ∙ chain-planned (archive_payload ops config r at cycle_id e anchor) _ _ refl anchor anchor
          refl refl (state_eq_refl _)
      ∙ chain-planned (change_payload ops config r at cycle_id e anchor archived) _ [] refl anchor
          anchor refl refl (state_eq_refl _)
      ∙ unfold chain in refl
  plan-chain (some t) =
      chain-planned (evaluation_payload ops config r at cycle_id e anchor) none _ refl anchor anchor
        refl refl refl
      ∙ chain-planned (change_payload ops config r at cycle_id e anchor t) _ [] refl anchor anchor
          refl refl (state_eq_refl _)
      ∙ unfold chain in refl

  plan-exact :
      (t : Option Temperature)
      → coherent config r.state.temperature e.threshold_target e.counter_after t ≡ true
      → exact_lifecycle_sequence
          (payloads_of (plan t).events)
          r.state
          none
          r.state.owner_agent_id
          config
        ≡ true
  unfolding exact_lifecycle_sequence plan_to planned_event evaluation_payload archive_payload
      change_payload evaluated_state transitioned_state transition_cause
  plan-exact none h = ground arith
  plan-exact (some archived) h = ground arith
  plan-exact (some t) h = ground arith

  plan-access :
      (t : Option Temperature) → exact_access (payloads_of (plan t).events) r.state false ≡ true
  unfolding exact_access access_rules plan_to planned_event evaluation_payload archive_payload
      change_payload evaluated_state transitioned_state transition_cause
  plan-access none = ground arith
  plan-access (some archived) = ground arith
  plan-access (some t) = ground arith

  pub plan-accepted :
      (t : Option Temperature)
      → coherent config r.state.temperature e.threshold_target e.counter_after t ≡ true
      → accepts config r.experience_id (plan t).resulting_state (plan t).events ≡ true
  unfolding accepts plan_to planned_event before evaluation_payload evaluated_state
      transitioned_state
  plan-accepted none h = ground (
    arith,
    plan-chain none,
    plan-exact none h,
    plan-access none,
    state_eq_refl (plan none).resulting_state,
  )
  plan-accepted (some archived) h = ground (
    arith,
    plan-chain (some archived),
    plan-exact (some archived) h,
    plan-access (some archived),
    state_eq_refl (plan (some archived)).resulting_state,
  )
  plan-accepted (some t) h = ground (
    arith,
    plan-chain (some t),
    plan-exact (some t) h,
    plan-access (some t),
    state_eq_refl (plan (some t)).resulting_state,
  )

  pub resulting_valid :
      (t : Option Temperature)
      → state_valid ops r.state ≡ true
      → evaluation_valid ops e ≡ true
      → state_valid ops (plan t).resulting_state ≡ true
  unfolding state_valid evaluation_valid plan_to evaluated_state transitioned_state
  resulting_valid none v w = ground arith
  resulting_valid (some archived) v w = ground arith
  resulting_valid (some t) v w = ground arith

-- The first event is from the recorded state, at the time of the evaluation.
abbrev pub StartsAt : State → ℕ → List (PendingEvent Payload) → Type 0
StartsAt state at [] = ⊥
StartsAt state at (e ∷ rest) = (before e.payload ≡ some state) × (e.occurred_at ≡ at)

pub plan-StartsAt :
    (ops : FloatOps) (config : LifecycleConfig) (r : LifecycleRecord) (at cycle_id : ℕ)
    (e : LifecycleEvaluation) (anchor : r.state.experience_id ≡ r.experience_id)
    (t : Option Temperature)
    → StartsAt r.state at (plan_to ops config r at cycle_id e anchor t).events
unfolding plan_to planned_event before evaluation_payload
plan-StartsAt ops config r at cycle_id e anchor none = (refl, refl)
plan-StartsAt ops config r at cycle_id e anchor (some archived) = (refl, refl)
plan-StartsAt ops config r at cycle_id e anchor (some t) = (refl, refl)
