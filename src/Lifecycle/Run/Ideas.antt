-- ===== src/Lifecycle/Run/Ideas.antt =====
-- _ordered_idea_events of src/experience_hub/lifecycle/service.py: the checks of the archive events
-- that the idea planner returns, and their order.
use text.Mathlib.Text.{◌==◌ as str_eq}
use experience_hub.Prelude.{
  ℕ, Bool, true, false, not, ◌&&◌, Option, some, List, [], ◌∷◌, leb, ◌==◌, opt_eq, is_some,
  if◌then◌else◌, any, all, Result, ok, require, value_error, ◌>>◌,
}
use experience_hub.Experiences.Events.{StructuredReason, policy_due, reason_eq}
use experience_hub.Experiences.Events.Pending.{PendingEvent}

pub data IdeaOwnerDecision : Type 0 where
  active adopted rejected archived : IdeaOwnerDecision

pub record IdeaArchived : Type 0 where
  pub idea_id : ℕ
  pub owner_agent_id : ℕ
  pub reason : StructuredReason
  pub owner_decision_before : IdeaOwnerDecision
  pub owner_decision_after : IdeaOwnerDecision
  pub cycle_id : Option ℕ

abbrev is_active : IdeaOwnerDecision → Bool
is_active active = true
is_active _ = false

abbrev is_archived_idea : IdeaOwnerDecision → Bool
is_archived_idea archived = true
is_archived_idea _ = false

-- sorted(supplied, key=lambda event: event.aggregate_id.bytes)
unfoldable pub insert_idea :
    PendingEvent IdeaArchived → List (PendingEvent IdeaArchived) → List (PendingEvent IdeaArchived)
insert_idea e [] = e ∷ []
insert_idea e (f ∷ fs) =
    let rest : List (PendingEvent IdeaArchived) = insert_idea e fs in
    if leb e.aggregate_id f.aggregate_id then e ∷ f ∷ fs else f ∷ rest

unfoldable pub sorted_ideas : List (PendingEvent IdeaArchived) → List (PendingEvent IdeaArchived)
unfolding insert_idea
sorted_ideas [] = []
sorted_ideas (e ∷ es) = insert_idea e (sorted_ideas es)

-- len({...}) == len(ordered)
unfoldable pub distinct_ideas : List (PendingEvent IdeaArchived) → Bool
distinct_ideas [] = true
distinct_ideas (e ∷ es) =
    not (any (λ (f : PendingEvent IdeaArchived). f.aggregate_id == e.aggregate_id) es)
    && distinct_ideas es

unfoldable pub idea_event_valid : ℕ → ℕ → PendingEvent IdeaArchived → Bool
idea_event_valid evaluated_at cycle_id e =
    str_eq e.aggregate_type "idea"
    && str_eq e.event_type "inspiration.idea_archived"
    && e.payload.idea_id == e.aggregate_id
    && is_active e.payload.owner_decision_before
    && is_archived_idea e.payload.owner_decision_after
    && reason_eq e.payload.reason policy_due
    && not (is_some e.actor_agent_id)
    && e.occurred_at == evaluated_at
    && opt_eq e.payload.cycle_id (some cycle_id)

unfoldable pub ordered_idea_events :
    List (PendingEvent IdeaArchived) → ℕ → ℕ → Result (List (PendingEvent IdeaArchived))
unfolding sorted_ideas distinct_ideas idea_event_valid
ordered_idea_events supplied evaluated_at cycle_id = do
  let ordered : List (PendingEvent IdeaArchived) = sorted_ideas supplied
  require (distinct_ideas ordered) value_error
  require (all (idea_event_valid evaluated_at cycle_id) ordered) value_error
  ok ordered
