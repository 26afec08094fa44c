-- ===== src/Lifecycle/Plan/Build.antt =====
-- The events that a plan has, for each transition, and that building them raises nothing.
use text.Mathlib.TextPositions.{eq_refl}
use experience_hub.Prelude.{
  ℕ, ◌≡◌, refl, Bool, true, false, not, Option, none, some, [], ◌∷◌, arith, leb, ok,
}
use experience_hub.Floats.{FloatOps}
use experience_hub.Scoring.{LifecycleConfig}
use experience_hub.Experiences.State.{State, Temperature, hot, warm, cold, archived}
use experience_hub.Experiences.Events.{
  Payload, lifecycle_evaluated, temperature_changed, archived_event, policy_due, ThresholdTarget,
  no_target, promote_hot, demote_warm, demote_cold, archive, permits,
}
use experience_hub.Experiences.Events.Pending.{PendingEvent, event_type}
use experience_hub.Experiences.Events.Valid.{valid}
use experience_hub.Experiences.Writer.Apply.{event_fits, follows}
use experience_hub.Lifecycle.Evaluate.{
  LifecycleEvaluation, target_of, counter_after_target, transition_after,
}
use experience_hub.Lifecycle.Evaluate.Laws.{goal, decided}
use experience_hub.Lifecycle.Plan.{
  LifecycleRecord, LifecycleMutation, evaluated_state, transitioned_state, transition_cause,
  experience_event, archive_events, transition_events, mutation_of,
}
use experience_hub.Lifecycle.Plan.Payloads.{evaluated-valid, archived-valid, transitioned-valid}

-- The target, the counter and the transition of an evaluation fit one another and the temperature.
abbrev pub coherent :
    LifecycleConfig → Temperature → ThresholdTarget → ℕ → Option Temperature → Bool
coherent config t no_target n none = true
coherent config warm promote_hot n (some hot) = true
coherent config hot demote_warm n (some warm) = leb config.demotion_cycles n
coherent config hot demote_warm n none = not (leb config.demotion_cycles n)
coherent config warm demote_cold n (some cold) = leb config.demotion_cycles n
coherent config warm demote_cold n none = not (leb config.demotion_cycles n)
coherent config cold archive n (some archived) = true
coherent config t g n x = false

pub decided-coherent :
    (ops : FloatOps) (config : LifecycleConfig) (s : State) (created_at at : ℕ) (deps : Bool)
    → let e = decided ops config s created_at at deps in
      coherent config s.temperature e.threshold_target e.counter_after e.transition ≡ true
unfolding decided goal target_of counter_after_target transition_after
decided-coherent ops config s created_at at deps = ground arith

coherent-permits :
    (config : LifecycleConfig) (s : Temperature) (g : ThresholdTarget) (n : ℕ) (t : Temperature)
    → coherent config s g n (some t) ≡ true
    → permits (transition_cause t) s t ≡ true
unfolding permits transition_cause
coherent-permits config s g n t h = ground arith

module _ (ops : FloatOps) (config : LifecycleConfig) (r : LifecycleRecord) (at cycle_id : ℕ) where
  -- An event of the plan.
  unfoldable pub planned_event : Payload → PendingEvent Payload
  planned_event p = record {
    aggregate_type = "experience";
    aggregate_id = r.experience_id;
    event_type = event_type p;
    payload = p;
    actor_agent_id = none;
    occurred_at = at;
  }

  experience_event-eq :
      (p : Payload) → valid ops p ≡ true → experience_event ops r at p ≡ ok (planned_event p)
  unfolding experience_event planned_event
  experience_event-eq p v = ground arith

  -- The writer's check of one planned event.
  pub planned_event-fits :
      (p : Payload) (owner : ℕ) (previous : Option State) (b a : State)
      → b.experience_id ≡ r.experience_id
      → a.experience_id ≡ r.experience_id
      → b.owner_agent_id ≡ owner
      → a.owner_agent_id ≡ owner
      → follows previous b ≡ true
      → event_fits r.experience_id owner none at previous (planned_event p) b a ≡ true
  unfolding event_fits planned_event
  planned_event-fits p owner previous b a hb ha ob oa f =
      ground (arith, eq_refl "experience", eq_refl (event_type p))

  module _ (e : LifecycleEvaluation) (anchor : r.state.experience_id ≡ r.experience_id) where
    unfoldable pub evaluated : State
    evaluated = evaluated_state r.state at e

    unfoldable pub evaluation_payload : Payload
    unfolding evaluated
    evaluation_payload =
        lifecycle_evaluated r.experience_id cycle_id at e.threshold_target r.state evaluated

    unfoldable pub archive_payload : Payload
    unfolding evaluated
    archive_payload = archived_event r.experience_id cycle_id policy_due evaluated evaluated

    unfoldable pub change_payload : Temperature → Payload
    unfolding evaluated
    change_payload t =
        temperature_changed r.experience_id (transition_cause t) (some cycle_id) evaluated
          (transitioned_state evaluated at t)

    -- The events of a transition to `t`, and the resulting state.
    unfoldable pub plan_to : Option Temperature → LifecycleMutation
    unfolding evaluated
    plan_to none = record {
      lifecycle_record = r;
      resulting_state = evaluated;
      events = planned_event evaluation_payload ∷ [];
      transitioned = false;
      archives = false;
    }
    plan_to (some archived) = record {
      lifecycle_record = r;
      resulting_state = transitioned_state evaluated at archived;
      events =
          planned_event evaluation_payload
          ∷ planned_event archive_payload
          ∷ planned_event (change_payload archived)
          ∷ [];
      transitioned = true;
      archives = true;
    }
    plan_to (some t) = record {
      lifecycle_record = r;
      resulting_state = transitioned_state evaluated at t;
      events = planned_event evaluation_payload ∷ planned_event (change_payload t) ∷ [];
      transitioned = true;
      archives = false;
    }

    pub evaluated_facts :
        (evaluated.experience_id ≡ r.experience_id)
        × (evaluated.owner_agent_id ≡ r.state.owner_agent_id)
        × (evaluated.temperature ≡ r.state.temperature)
        × (evaluated.consecutive_below_threshold ≡ e.counter_after)
    unfolding evaluated evaluated_state
    evaluated_facts = (anchor, refl, refl, refl)

    first_event :
        experience_event ops r at evaluation_payload ≡ ok (planned_event evaluation_payload)
    unfolding evaluation_payload
    first_event =
        experience_event-eq _
          (evaluated-valid ops r.state r.experience_id cycle_id at anchor e.threshold_target e)

    archive_event :
        r.state.temperature ≡ cold
        → experience_event ops r at archive_payload ≡ ok (planned_event archive_payload)
    unfolding archive_payload
    archive_event c = experience_event-eq _ (
        archived-valid ops evaluated r.experience_id cycle_id at evaluated_facts.0
          (cc (evaluated_facts.2)))

    change_event :
        (t : Temperature)
        → permits (transition_cause t) r.state.temperature t ≡ true
        → experience_event ops r at (change_payload t) ≡ ok (planned_event (change_payload t))
    unfolding change_payload
    change_event t p = experience_event-eq _ (
        transitioned-valid ops evaluated r.experience_id cycle_id at evaluated_facts.0 t
          (rw evaluated_facts.2 p))

    permitted :
        (t : Temperature)
        → coherent config r.state.temperature e.threshold_target e.counter_after (some t) ≡ true
        → permits (transition_cause t) r.state.temperature t ≡ true
    permitted t h =
        coherent-permits config r.state.temperature e.threshold_target e.counter_after t h

    pub mutation_of-plan :
        (t : Option Temperature)
        → e.transition ≡ t
        → e.eligible ≡ true
        → coherent config r.state.temperature e.threshold_target e.counter_after t ≡ true
        → mutation_of ops r at cycle_id e ≡ ok (some (plan_to t))
    unfolding mutation_of archive_events transition_events plan_to evaluation_payload
        archive_payload change_payload
    mutation_of-plan none x el h = ground (arith, first_event)
    mutation_of-plan (some hot) x el h =
        ground (arith, first_event, change_event hot (permitted hot h))
    mutation_of-plan (some warm) x el h =
        ground (arith, first_event, change_event warm (permitted warm h))
    mutation_of-plan (some cold) x el h =
        ground (arith, first_event, change_event cold (permitted cold h))
    mutation_of-plan (some archived) x el h = ground (
      arith,
      first_event,
      archive_event (ground arith),
      change_event archived (permitted archived h),
    )
