-- ===== src/Lifecycle/Run/Cycle.antt =====
-- A cycle over valid records succeeds, and what it counts and appends.
use experience_hub.Prelude.{
  leb, Result, err, ◌>>=◌, ◌>>◌, ℕ, ◌≤◌, ◌≡◌, refl, Bool, true, false, not, ◌&&◌, Option, none,
  some, List, [], ◌∷◌, ◌++◌, arith, ok, tally, length, inl, inr, All,
}
use experience_hub.Floats.{FloatOps}
use experience_hub.Scoring.{LifecycleConfig}
use experience_hub.Experiences.State.{archived, temperature_eq, state_valid}
use experience_hub.Experiences.Events.{Payload}
use experience_hub.Experiences.Events.Pending.{PendingEvent}
use experience_hub.Experiences.Writer.Apply.{
  Append, Current, latest_causal, Applied, apply_ordered_events,
}
use experience_hub.Lifecycle.Evaluate.{latest_anchor, evaluated_recently}
use experience_hub.Lifecycle.Plan.{LifecycleRecord, LifecycleMutation, plan_mutation}
use experience_hub.Lifecycle.Plan.Accepted.{IsAccepted, plan-IsAccepted}
use experience_hub.Lifecycle.Plan.Applied.{plan_mutation-IsCarriedOut}
use experience_hub.Lifecycle.Evaluate.Laws.{IsInRange}
use experience_hub.Lifecycle.Plan.Shape.{IsPlanOf, plan_mutation-IsPlanOf}
use experience_hub.Lifecycle.Run.Ideas.{IdeaArchived, ordered_idea_events}
use experience_hub.Lifecycle.Run.{
  append_all_ideas, lifecycle_result_valid, cycle_response, World, RunInputs, eligible_plans,
  transitions_in, archives_in, plan_all, apply_all, run_cycle,
}

-- A listed experience whose recorded state is valid, and is the stored row that the writer finds,
-- with causal times not after the evaluation and versions that load.
pub record IsReady (ops : FloatOps) (at : ℕ) (lookup : ℕ → ℕ → Option Current) (r : LifecycleRecord)
    : Type 0 where
  pub valid : state_valid ops r.state ≡ true
  pub own : r.state.experience_id ≡ r.experience_id
  pub anchored : latest_anchor r.state r.created_at ≤ r.latest_causal_at
  pub in_time : r.latest_causal_at ≤ at
  pub current : Current
  pub version_ids : List ℕ
  pub stored : lookup r.experience_id r.state.owner_agent_id ≡ some current
  pub locked : current.locked ≡ r.state
  pub causal : latest_causal current ≤ at
  pub loaded : current.version_ids ≡ ok version_ids

abbrev pub AllReady : FloatOps → ℕ → (ℕ → ℕ → Option Current) → List LifecycleRecord → Type 0
AllReady ops at lookup [] = Unit
AllReady ops at lookup (r ∷ rs) = IsReady ops at lookup r × AllReady ops at lookup rs

-- Neither archived nor evaluated within the minimum interval.
unfoldable pub is_due : FloatOps → LifecycleConfig → ℕ → LifecycleRecord → Bool
is_due ops config at r =
    not (temperature_eq r.state.temperature archived)
    && not (evaluated_recently ops r.state.last_lifecycle_evaluated_at at config)

pub due_count : FloatOps → LifecycleConfig → ℕ → List LifecycleRecord → ℕ
due_count ops config at [] = 0
due_count ops config at (r ∷ rs) = tally (is_due ops config at r) (due_count ops config at rs)

-- The events of the plans, in their order.
pub events_of : List LifecycleMutation → List (PendingEvent Payload)
events_of [] = []
events_of (m ∷ ms) = m.events ++ events_of ms

-- The appends of the plans, one after the other.
pub appends : Append → List LifecycleMutation → Result (Unit {0})
appends append [] = ok tt
appends append (m ∷ ms) = append m.events >> appends append ms

-- What a writer and the plans after it return, if both return after their appends.
in_turn :
    {A B C : Type 0} (first second : Result (Unit {0})) (a : A) (b : B) (f : A → B → C)
    → ((first >> ok a) >>= λ x. (second >> ok b) >>= λ y. ok (f x y))
      ≡ ((first >> second) >> ok (f a b))
in_turn (err e) second a b f = refl
in_turn (ok u) (err e) a b f = refl
in_turn (ok u) (ok v) a b f = refl

in_sequence :
    {A C : Type 0} (first second : Result (Unit {0})) (a : A) (g : A → C)
    → ((first >> ok a) >>= λ x. second >> ok (g x)) ≡ ((first >> second) >> ok (g a))
in_sequence (err e) second a g = refl
in_sequence (ok u) second a g = refl

counts-valid :
    (ms : List LifecycleMutation)
    → transitions_in ms ≤ length ms
    → archives_in ms ≤ transitions_in ms
    → (leb (transitions_in ms) (length ms) && leb (archives_in ms) (transitions_in ms)) ≡ true
counts-valid ms t a = ground arith

counts_ordered :
    (ms : List LifecycleMutation)
    → All (λ m. (m.archives && not m.transitioned) ≡ false) ms
    → (transitions_in ms ≤ length ms) × (archives_in ms ≤ transitions_in ms)
unfolding transitions_in archives_in
counts_ordered [] h = (omega arith, omega arith)
counts_ordered (m ∷ ms) (h, hs) = ground (arith, counts_ordered ms hs)

module _ (ops : FloatOps) (config : LifecycleConfig) (at cycle_id : ℕ) (dependents : ℕ → Bool)
    (lookup : ℕ → ℕ → Option Current) (append : Append) where
  -- What the plans of a list of records come to.
  pub record IsCycle (rs : List LifecycleRecord) : Type 0 where
    pub plans : List (Option LifecycleMutation)
    pub planned : plan_all ops config dependents at cycle_id rs ≡ ok plans
    pub applied :
        apply_all ops config lookup append (eligible_plans plans)
        ≡ (appends append (eligible_plans plans) >> ok (events_of (eligible_plans plans)))
    pub counted : length (eligible_plans plans) ≡ due_count ops config at rs
    pub shaped : All (λ m. (m.archives && not m.transitioned) ≡ false) (eligible_plans plans)

  -- An experience that is not due is passed over.
  passed_over :
      (r : LifecycleRecord) (rs : List LifecycleRecord)
      → plan_mutation ops r config at cycle_id (dependents r.experience_id) ≡ ok none
      → is_due ops config at r ≡ false
      → IsCycle rs
      → IsCycle (r ∷ rs)
  unfolding plan_all apply_all eligible_plans due_count events_of appends
  passed_over r rs p d c = record {
    plans = none ∷ c.plans;
    planned = rw (p, c.planned) refl;
    applied = c.applied;
    counted = rw (d) c.counted;
    shaped = c.shaped;
  }

  -- A plan's events are appended before those of the plans after it.
  carried :
      (r : LifecycleRecord) (rs : List LifecycleRecord) (m : LifecycleMutation) (a : Applied)
      → plan_mutation ops r config at cycle_id (dependents r.experience_id) ≡ ok (some m)
      → is_due ops config at r ≡ true
      → IsPlanOf r m
      → apply_ordered_events config r.experience_id m.resulting_state m.events
          (lookup r.experience_id)
          append
        ≡ (append m.events >> ok a)
      → a.appended ≡ m.events
      → IsCycle rs
      → IsCycle (r ∷ rs)
  unfolding plan_all apply_all eligible_plans due_count events_of appends
  carried r rs m a p d (own, fits) done same c = record {
    plans = some m ∷ c.plans;
    planned = rw (p, c.planned) refl;
    applied =
        rw (own, done, c.applied, ← same)
          (in_turn (append a.appended) (appends append (eligible_plans c.plans)) a
            (events_of (eligible_plans c.plans)) (λ x y. x.appended ++ y));
    counted = rw (d, c.counted) refl;
    shaped = (fits, c.shaped);
  }

  next-IsCycle :
      (r : LifecycleRecord) (rs : List LifecycleRecord) (plan : Option LifecycleMutation)
      → IsInRange ops config
      → IsReady ops at lookup r
      → plan_mutation ops r config at cycle_id (dependents r.experience_id) ≡ ok plan
      → IsAccepted ops config r at plan
      → IsCycle rs
      → IsCycle (r ∷ rs)
  unfolding is_due
  next-IsCycle r rs none ranged h p (inl gone) c = passed_over r rs p (rw (gone) refl) c
  next-IsCycle r rs none ranged h p (inr recent) c =
      passed_over r rs p (rw (recent) (ground arith)) c
  next-IsCycle r rs (some n) ranged h p (el, _, _, _) c =
      let (m, q, a, done) =
        plan_mutation-IsCarriedOut ops config r at cycle_id (dependents r.experience_id)
          (lookup r.experience_id) append h.current h.version_ids ranged h.valid h.own h.anchored
          h.in_time el h.stored h.locked h.causal h.loaded in
      carried r rs m a q (ground arith)
        (plan_mutation-IsPlanOf ops config r at cycle_id (dependents r.experience_id) m q) done.0
        done.1 c

  pub plan_all-IsCycle :
      (rs : List LifecycleRecord) → IsInRange ops config → AllReady ops at lookup rs → IsCycle rs
  unfolding plan_all apply_all eligible_plans due_count events_of appends
  plan_all-IsCycle [] ranged h = record {
    plans = [];
    planned = refl;
    applied = refl;
    counted = refl;
    shaped = tt;
  }
  plan_all-IsCycle (r ∷ rs) ranged (h, hs) =
      let (plan, p, q) =
        plan-IsAccepted ops config r at cycle_id (dependents r.experience_id) ranged h.valid h.own
          h.anchored h.in_time in
      next-IsCycle r rs plan ranged h p q (plan_all-IsCycle rs ranged hs)

-- If the configured minimum interval and archive age are timedeltas, a cycle over listed experiences
-- that are ready, with idea events that pass their checks, raises, when its reads succeed, nothing but
-- the errors of its writes, those of the plans in the order of the experiences and then that of the
-- idea events. Without such an error it returns a response that counts the experiences that are due
-- and the idea events, and the events appended are those of the plans and the idea events, these in
-- the order of their identifiers.
pub run_cycle-counts :
    (ops : FloatOps) (config : LifecycleConfig) (inputs : RunInputs) (cycle_id at : ℕ)
    (world : World) (rs : List LifecycleRecord) (supplied ideas : List (PendingEvent IdeaArchived))
    → IsInRange ops config
    → inputs.listed ≡ ok rs
    → AllReady ops at inputs.lookup rs
    → inputs.idea_events ≡ ok supplied
    → ordered_idea_events supplied at cycle_id ≡ ok ideas
    → (plans : List (Option LifecycleMutation)) × (plan_all ops config inputs.has_active_dependents
          at cycle_id rs
        ≡ ok plans)
      × (run_cycle ops config inputs cycle_id at world ≡ (
          (appends inputs.append_events (eligible_plans plans)
            >> append_all_ideas inputs.append_ideas ideas)
          >> ok (
            cycle_response (record {
              cycle_id = cycle_id;
              evaluated_at = at;
              evaluated_count = due_count ops config at rs;
              transition_count = transitions_in (eligible_plans plans);
              archive_count = archives_in (eligible_plans plans);
              idea_archive_count = length ideas;
            }),
            record world {
              appended = world.appended ++ events_of (eligible_plans plans);
              appended_ideas = world.appended_ideas ++ ideas;
            },
          )))
unfolding run_cycle lifecycle_result_valid
run_cycle-counts ops config inputs cycle_id at world rs supplied ideas ranged listed ready given
      ordered =
    let c =
      plan_all-IsCycle ops config at cycle_id inputs.has_active_dependents inputs.lookup
        inputs.append_events rs ranged ready in
    let (t, a) = counts_ordered (eligible_plans c.plans) c.shaped in
    (
      c.plans,
      c.planned,
      rw
          (
            listed,
            c.planned,
            c.applied,
            given,
            ordered,
            ← c.counted,
            counts-valid (eligible_plans c.plans) t a,
          )
          (in_sequence (appends inputs.append_events (eligible_plans c.plans))
            (append_all_ideas inputs.append_ideas ideas) (events_of (eligible_plans c.plans)) _),
    )
