-- ===== src/Tests/Feedbacks.antt =====
-- Examples for reputation: an observer rates two capsules of a publisher and revises one rating.
use experience_hub.Prelude.{ℕ, ◌≡◌, refl, true, Option, none, some, List, [], ◌∷◌, ok}
use experience_hub.Storage.EventStore.{StoredEvent}
use experience_hub.Sharing.Reputation.{
  FeedbackVerdict, useful, refuted, harmful, CapsuleFeedbackRecorded, Reputation, Replayed,
  alpha_of, beta_of, replay_feedback, replay_feedbacks, replay_reputation, reputation_valid,
  feedback_event_fits, revises, take_back, contribute, latest_of, assign, verdict_opt_eq,
  recorded_payload, alpha_part, beta_part, feedback_valid,
}
use experience_hub.Sharing.Reputation.Counted.{
  IsCounted, latest_verdicts, replay_reputation-IsCounted,
}
use experience_hub.Sharing.Reputation.Recorded.{unrated, recorded-replays}

abbrev payload :
    ℕ → ℕ → Option FeedbackVerdict → FeedbackVerdict → (a b c d : ℕ) → CapsuleFeedbackRecorded
payload capsule revision previous current a b c d = record {
  feedback_id = 90;
  observer_agent_id = 2;
  capsule_id = capsule;
  publisher_agent_id = 1;
  revision = revision;
  previous_verdict = previous;
  current_verdict = current;
  alpha_before = a;
  beta_before = b;
  alpha_after = c;
  beta_after = d;
}

abbrev event : ℕ → CapsuleFeedbackRecorded → StoredEvent CapsuleFeedbackRecorded
event id p = record {
  event_id = id;
  row = record {
    key = record { aggregate_type = "capsule"; aggregate_id = p.capsule_id };
    sequence = id;
    event_type = "capsule.feedback_recorded";
    payload = p;
    actor_agent_id = some 2;
    causation_id = 5;
    occurred_at = 1000;
  };
}

abbrev stream : List (StoredEvent CapsuleFeedbackRecorded)
stream =
    event 4 (payload 30 1 none useful 2 2 3 2)
    ∷ event 6 (payload 31 1 none harmful 3 2 3 3)
    ∷ event 9 (payload 30 2 (some useful) refuted 3 3 2 4)
    ∷ []

abbrev rated : Reputation
rated = record {
  subject_agent_id = 1;
  observer_agent_id = 2;
  useful_count = 0;
  refuted_count = 1;
  harmful_count = 1;
  alpha = 2;
  beta = 4;
  last_feedback_at = 1000;
}

abbrev replayed : Replayed
replayed = record {
  current = some rated;
  latest_by_capsule = (30, (2, refuted)) ∷ (31, (1, harmful)) ∷ [];
  last_event_id = some 9;
}

replays : replay_feedbacks unrated stream ≡ ok replayed
unfolding replay_feedbacks feedback_event_fits revises take_back contribute reputation_valid
    verdict_opt_eq latest_of assign
replays = refl

replay_reputation-IsCounted_example : IsCounted (some rated) (latest_verdicts [] stream)
unfolding replay_reputation replay_feedbacks feedback_event_fits revises take_back contribute
    reputation_valid verdict_opt_eq latest_of assign
replay_reputation-IsCounted_example = replay_reputation-IsCounted stream (some rated) (some 9) refl

abbrev later : StoredEvent CapsuleFeedbackRecorded
later = event 12 (payload 31 2 (some harmful) useful 2 4 3 3)

recorded-replays_example :
    (feedback_valid later.row.payload ≡ true)
    × (next : Replayed) × (replay_feedback replayed later ≡ ok next)
    × (alpha_of next.current ≡ 3)
    × (beta_of next.current ≡ 3)
unfolding recorded_payload latest_of alpha_part beta_part feedback_event_fits revises
recorded-replays_example =
    recorded-replays stream replayed later 90 2 1 useful replays refl refl refl refl
