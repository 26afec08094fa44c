-- ===== src/Tests/Runs.antt =====
-- Examples for the run of a lifecycle cycle.
use experience_hub.Prelude.{
  ℕ, ◌*◌, ◌≡◌, refl, Option, none, some, List, [], ◌∷◌, true, false, ok, ◌>>◌, arith,
}
use experience_hub.Experiences.State.{state_valid}
use experience_hub.Experiences.Events.{reason_eq, policy_due}
use experience_hub.Experiences.Events.Pending.{PendingEvent}
use experience_hub.Experiences.Writer.Apply.{latest_causal}
use experience_hub.Storage.Idempotency.{
  new_row, attach_resource, row_count, attachable, update_where,
}
use experience_hub.Storage.Idempotency.Executor.{CommandContext}
use experience_hub.Lifecycle.Evaluate.{latest_anchor}
use experience_hub.Lifecycle.Lease.{free_lease}
use experience_hub.Lifecycle.Plan.{LifecycleMutation, LifecycleRecord}
use experience_hub.Lifecycle.Run.Ideas.{IdeaArchived, active, archived, ordered_idea_events}
use experience_hub.Lifecycle.Run.{
  World, RunInputs, manual, cycle_response, run_cycle, leased, run, plan_all, eligible_plans,
  transitions_in, archives_in, append_all_ideas,
}
use experience_hub.Lifecycle.Run.Cycle.{appends, IsReady, due_count, events_of, run_cycle-counts}
use experience_hub.Lifecycle.Run.Released.{IsReleased, run-IsReleased}
use experience_hub.Tests.Fixed.{fixed}
use experience_hub.Tests.Samples.{config-IsInRange, config, day, recorded}
use experience_hub.Tests.Lifecycles.{stored_row, appending}

abbrev idea_event : ℕ → PendingEvent IdeaArchived
idea_event id = record {
  aggregate_type = "idea";
  aggregate_id = id;
  event_type = "inspiration.idea_archived";
  payload = record {
    idea_id = id;
    owner_agent_id = 1;
    reason = policy_due;
    owner_decision_before = active;
    owner_decision_after = archived;
    cycle_id = some 55;
  };
  actor_agent_id = none;
  occurred_at = 200 * day;
}

abbrev inputs_for : List LifecycleRecord → RunInputs
inputs_for records = record {
  immediate = true;
  evaluated_at = some (200 * day);
  mode = manual;
  clock_now = 201 * day;
  expected_hash = λ at mode. 11;
  cycle_of = λ at. 55;
  listed = ok records;
  has_active_dependents = λ id. false;
  lookup = λ id owner. some stored_row;
  append_events = appending;
  append_ideas = λ event. ok tt;
  idea_events = ok (idea_event 9 ∷ idea_event 8 ∷ []);
}

abbrev run_command : CommandContext
run_command = record {
  receipt_id = 5;
  scope = record {
    caller_scope = "system:local";
    operation_scope = "lifecycle.run";
    idempotency_key = "k";
  };
  request_hash = 11;
}

abbrev initial : World
initial = record {
  receipts =
      new_row
        (record { receipt_id = 5; scope = run_command.scope; request_hash = 11; created_at = 100 })
      ∷ [];
  lease = none;
  appended = [];
  appended_ideas = [];
}

recorded-IsReady : IsReady fixed (200 * day) (λ id owner. some stored_row) recorded
unfolding state_valid latest_anchor latest_causal
recorded-IsReady = record {
  valid = refl;
  own = refl;
  anchored = omega arith;
  in_time = omega arith;
  current = stored_row;
  version_ids = 69 ∷ 70 ∷ [];
  stored = refl;
  locked = refl;
  causal = omega arith;
  loaded = refl;
}

run_cycle-counts_example :
    (plans : List (Option LifecycleMutation)) × (plan_all fixed config
        (λ id. false)
        (200 * day)
        55
        (recorded ∷ [])
      ≡ ok plans)
    × (run_cycle fixed config (inputs_for (recorded ∷ [])) 55 (200 * day) initial ≡ (
        (appends appending (eligible_plans plans)
          >> append_all_ideas (λ event. ok tt) (idea_event 8 ∷ idea_event 9 ∷ []))
        >> ok (
          cycle_response (record {
            cycle_id = 55;
            evaluated_at = 200 * day;
            evaluated_count = due_count fixed config (200 * day) (recorded ∷ []);
            transition_count = transitions_in (eligible_plans plans);
            archive_count = archives_in (eligible_plans plans);
            idea_archive_count = 2;
          }),
          record initial {
            appended = events_of (eligible_plans plans);
            appended_ideas = idea_event 8 ∷ idea_event 9 ∷ [];
          },
        )))
unfolding ordered_idea_events reason_eq policy_due
run_cycle-counts_example =
    run_cycle-counts fixed config (inputs_for (recorded ∷ [])) 55 (200 * day) initial
      (recorded ∷ []) (idea_event 9 ∷ idea_event 8 ∷ []) (idea_event 8 ∷ idea_event 9 ∷ [])
      config-IsInRange refl (recorded-IsReady, tt) refl refl

abbrev final : World
final = record {
  receipts =
      record (new_row (record {
        receipt_id = 5;
        scope = run_command.scope;
        request_hash = 11;
        created_at = 100;
      })) { result_resource_type = some "lifecycle_cycle"; result_resource_id = some 55 }
      ∷ [];
  lease = some free_lease;
  appended = [];
  appended_ideas = idea_event 8 ∷ idea_event 9 ∷ [];
}

run-IsReleased_example :
    IsReleased fixed config
      (inputs_for [])
      run_command
      initial
      (cycle_response (record {
        cycle_id = 55;
        evaluated_at = 200 * day;
        evaluated_count = 0;
        transition_count = 0;
        archive_count = 0;
        idea_archive_count = 2;
      }))
      final
unfolding run reason_eq policy_due run_cycle leased attach_resource row_count attachable
    update_where
run-IsReleased_example =
    run-IsReleased fixed config (inputs_for []) run_command initial
      (cycle_response (record {
        cycle_id = 55;
        evaluated_at = 200 * day;
        evaluated_count = 0;
        transition_count = 0;
        archive_count = 0;
        idea_archive_count = 2;
      }))
      final refl
