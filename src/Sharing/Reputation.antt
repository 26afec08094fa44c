-- ===== src/Sharing/Reputation.antt =====
-- The reputation of a publisher with an observer: reduce_reputation and replay_reputation of
-- src/experience_hub/sharing/projector.py, CapsuleFeedbackRecordedV1 of events.py, Reputation of
-- models.py, and _revised_effective_counts of service.py.
pub mod Latest
pub mod Counted
pub mod Revised
pub mod Recorded
use text.Mathlib.Text.{◌==◌ as str_eq}
use experience_hub.Prelude.{
  ℕ, suc, ◌+◌, ◌-◌, Bool, true, false, not, ◌&&◌, ◌||◌, Option, none, some, List, [], ◌∷◌, ltb, leb,
  ◌==◌, opt_eq, bool_eq, is_some, if◌then◌else◌, Result, ok, err, require,
  projection_integrity_error, source_integrity_error, ◌>>=◌, ◌>>◌,
}
use experience_hub.Storage.EventStore.{StoredEvent}

pub data FeedbackVerdict : Type 0 where
  useful refuted harmful : FeedbackVerdict

unfoldable pub verdict_eq : FeedbackVerdict → FeedbackVerdict → Bool
verdict_eq useful useful = true
verdict_eq refuted refuted = true
verdict_eq harmful harmful = true
verdict_eq _ _ = false

unfoldable pub verdict_opt_eq : Option FeedbackVerdict → Option FeedbackVerdict → Bool
unfolding verdict_eq
verdict_opt_eq none none = true
verdict_opt_eq (some a) (some b) = verdict_eq a b
verdict_opt_eq _ _ = false

pub record CapsuleFeedbackRecorded : Type 0 where
  pub feedback_id : ℕ
  pub observer_agent_id : ℕ
  pub capsule_id : ℕ
  pub publisher_agent_id : ℕ
  pub revision : ℕ
  pub previous_verdict : Option FeedbackVerdict
  pub current_verdict : FeedbackVerdict
  pub alpha_before : ℕ
  pub beta_before : ℕ
  pub alpha_after : ℕ
  pub beta_after : ℕ

pub record Reputation : Type 0 where
  pub subject_agent_id : ℕ
  pub observer_agent_id : ℕ
  pub useful_count : ℕ
  pub refuted_count : ℕ
  pub harmful_count : ℕ
  pub alpha : ℕ
  pub beta : ℕ
  pub last_feedback_at : ℕ

-- The validators of Reputation: `false` is the ValueError.
unfoldable pub reputation_valid : Reputation → Bool
reputation_valid r =
    leb 2 r.alpha
    && leb 2 r.beta
    && not (r.subject_agent_id == r.observer_agent_id)
    && r.alpha == 2 + r.useful_count
    && r.beta == 2 + r.refuted_count + r.harmful_count

pub record Counts : Type 0 where
  pub useful_count : ℕ
  pub refuted_count : ℕ
  pub harmful_count : ℕ

-- The contribution of the previous verdict is taken back; `none` where it is absent.
unfoldable pub take_back : Option FeedbackVerdict → Counts → Option Counts
take_back none c = some c
take_back (some useful) c =
    if c.useful_count == 0 then none else some (record c { useful_count = c.useful_count - 1 })
take_back (some refuted) c =
    if c.refuted_count == 0 then none else some (record c { refuted_count = c.refuted_count - 1 })
take_back (some harmful) c =
    if c.harmful_count == 0 then none else some (record c { harmful_count = c.harmful_count - 1 })

unfoldable pub contribute : FeedbackVerdict → Counts → Counts
contribute useful c = record c { useful_count = c.useful_count + 1 }
contribute refuted c = record c { refuted_count = c.refuted_count + 1 }
contribute harmful c = record c { harmful_count = c.harmful_count + 1 }

abbrev pub counts_of : Option Reputation → Counts
counts_of none = record { useful_count = 0; refuted_count = 0; harmful_count = 0 }
counts_of (some r) = record {
  useful_count = r.useful_count;
  refuted_count = r.refuted_count;
  harmful_count = r.harmful_count;
}

abbrev pub alpha_of : Option Reputation → ℕ
alpha_of none = 2
alpha_of (some r) = r.alpha

abbrev pub beta_of : Option Reputation → ℕ
beta_of none = 2
beta_of (some r) = r.beta

-- The checks of a feedback against the reputation that it revises.
unfoldable pub revises : Option Reputation → CapsuleFeedbackRecorded → ℕ → Bool
revises none p occurred_at = true
revises (some r) p occurred_at =
    r.subject_agent_id == p.publisher_agent_id
    && r.observer_agent_id == p.observer_agent_id
    && leb r.last_feedback_at occurred_at

abbrev pub required : Bool → Result (Unit {0})
required test = require test projection_integrity_error

abbrev pub present : Option Counts → Result Counts
present none = err projection_integrity_error
present (some c) = ok c

abbrev pub revised_reputation : CapsuleFeedbackRecorded → ℕ → Counts → Reputation
revised_reputation p occurred_at c = record {
  subject_agent_id = p.publisher_agent_id;
  observer_agent_id = p.observer_agent_id;
  useful_count = c.useful_count;
  refuted_count = c.refuted_count;
  harmful_count = c.harmful_count;
  alpha = 2 + c.useful_count;
  beta = 2 + c.refuted_count + c.harmful_count;
  last_feedback_at = occurred_at;
}

unfoldable pub feedback_event_fits : StoredEvent CapsuleFeedbackRecorded → Bool
feedback_event_fits e =
    str_eq e.row.event_type "capsule.feedback_recorded"
    && str_eq e.row.key.aggregate_type "capsule"
    && e.row.key.aggregate_id == e.row.payload.capsule_id
    && leb 1 e.event_id
    && leb 2 e.row.sequence
    && opt_eq e.row.actor_agent_id (some e.row.payload.observer_agent_id)
    && not (e.row.payload.publisher_agent_id == e.row.payload.observer_agent_id)

unfoldable pub reduce_reputation :
    Option Reputation
    → StoredEvent CapsuleFeedbackRecorded
    → Option FeedbackVerdict
    → Result Reputation
unfolding feedback_event_fits revises take_back contribute reputation_valid
reduce_reputation current e previous_verdict = do
  required (feedback_event_fits e)
  required (verdict_opt_eq previous_verdict e.row.payload.previous_verdict)
  required (revises current e.row.payload e.row.occurred_at)
  required (
      e.row.payload.alpha_before == alpha_of current
      && e.row.payload.beta_before == beta_of current)
  counts ← present (take_back previous_verdict (counts_of current))
  let revised : Reputation =
      revised_reputation e.row.payload e.row.occurred_at
        (contribute e.row.payload.current_verdict counts)
  required (reputation_valid revised)
  required (revised.alpha == e.row.payload.alpha_after && revised.beta == e.row.payload.beta_after)
  ok revised

-- latest_by_capsule, and the assignment of an entry.
abbrev pub LatestVerdicts : Type 0
LatestVerdicts = List (ℕ × (ℕ × FeedbackVerdict))

unfoldable pub latest_of : ℕ → LatestVerdicts → Option (ℕ × FeedbackVerdict)
latest_of k [] = none
latest_of k ((j, entry) ∷ rest) = if j == k then some entry else latest_of k rest

unfoldable pub assign : ℕ → ℕ × FeedbackVerdict → LatestVerdicts → LatestVerdicts
assign k entry [] = (k, entry) ∷ []
assign k entry ((j, old) ∷ rest) =
    let tail : LatestVerdicts = assign k entry rest in
    if j == k then (k, entry) ∷ rest else (j, old) ∷ tail

abbrev pub expected_revision : Option (ℕ × FeedbackVerdict) → ℕ
expected_revision none = 1
expected_revision (some (revision, verdict)) = revision + 1

abbrev pub expected_verdict : Option (ℕ × FeedbackVerdict) → Option FeedbackVerdict
expected_verdict none = none
expected_verdict (some (revision, verdict)) = some verdict

-- `last_event_id is None or event.event_id > last_event_id`
abbrev pub comes_after : Option ℕ → ℕ → Bool
comes_after none id = true
comes_after (some last) id = ltb last id

-- The state of the loop of replay_reputation.
pub record Replayed : Type 0 where
  pub current : Option Reputation
  pub latest_by_capsule : LatestVerdicts
  pub last_event_id : Option ℕ

unfoldable pub replay_feedback : Replayed → StoredEvent CapsuleFeedbackRecorded → Result Replayed
unfolding reduce_reputation latest_of assign
replay_feedback s e = do
  let prior : Option (ℕ × FeedbackVerdict) = latest_of e.row.payload.capsule_id s.latest_by_capsule
  required (comes_after s.last_event_id e.event_id)
  required (
      e.row.payload.revision == expected_revision prior
      && verdict_opt_eq e.row.payload.previous_verdict (expected_verdict prior))
  revised ← reduce_reputation s.current e (expected_verdict prior)
  ok (record {
    current = some revised;
    latest_by_capsule =
        assign e.row.payload.capsule_id (e.row.payload.revision, e.row.payload.current_verdict)
          s.latest_by_capsule;
    last_event_id = some e.event_id;
  })

unfoldable pub replay_feedbacks :
    Replayed → List (StoredEvent CapsuleFeedbackRecorded) → Result Replayed
unfolding replay_feedback
replay_feedbacks s [] = ok s
replay_feedbacks s (e ∷ es) = do next ← replay_feedback s e; replay_feedbacks next es

unfoldable pub replay_reputation :
    List (StoredEvent CapsuleFeedbackRecorded) → Result (Option Reputation × Option ℕ)
unfolding replay_feedbacks
replay_reputation events = do
  s ←
      replay_feedbacks (record { current = none; latest_by_capsule = []; last_event_id = none })
        events
  ok (s.current, s.last_event_id)

-- What a verdict adds to alpha and to beta.
unfoldable pub alpha_part : FeedbackVerdict → ℕ
alpha_part useful = 1
alpha_part _ = 0

unfoldable pub beta_part : FeedbackVerdict → ℕ
beta_part useful = 0
beta_part _ = 1

abbrev pub part_of : (FeedbackVerdict → ℕ) → Option FeedbackVerdict → ℕ
part_of f none = 0
part_of f (some v) = f v

-- _revised_effective_counts. The counts are integers there: a result below 2 is an error.
unfoldable pub revised_effective_counts :
    ℕ → ℕ → Option FeedbackVerdict → FeedbackVerdict → Result (ℕ × ℕ)
unfolding alpha_part beta_part
revised_effective_counts alpha beta previous current = do
  require
      (leb (2 + part_of alpha_part previous) (alpha + alpha_part current)
        && leb (2 + part_of beta_part previous) (beta + beta_part current))
      source_integrity_error
  ok (
    alpha + alpha_part current - part_of alpha_part previous,
    beta + beta_part current - part_of beta_part previous,
  )

-- The validators of CapsuleFeedbackRecordedV1.
unfoldable pub feedback_valid : CapsuleFeedbackRecorded → Bool
unfolding alpha_part beta_part
feedback_valid p =
    leb 1 p.revision
    && leb 2 p.alpha_before
    && leb 2 p.beta_before
    && leb 2 p.alpha_after
    && leb 2 p.beta_after
    && not (p.publisher_agent_id == p.observer_agent_id)
    && bool_eq (p.revision == 1) (not (is_some p.previous_verdict))
    && p.alpha_after + part_of alpha_part p.previous_verdict
      == p.alpha_before + alpha_part p.current_verdict
    && p.beta_after + part_of beta_part p.previous_verdict
      == p.beta_before + beta_part p.current_verdict

-- What record_feedback of SharingService writes, from the latest revision of the capsule's feedback
-- and the reputation: the payload of its event.
unfoldable pub recorded_payload :
    Option (ℕ × FeedbackVerdict)
    → Option Reputation
    → (feedback_id observer_agent_id capsule_id publisher_agent_id : ℕ) → FeedbackVerdict
    → Result CapsuleFeedbackRecorded
unfolding revised_effective_counts
recorded_payload previous reputation feedback_id observer_agent_id capsule_id publisher_agent_id
      verdict =
    do
      require (not (is_some previous && not (is_some reputation))) source_integrity_error
      (alpha, beta) ←
          revised_effective_counts (alpha_of reputation) (beta_of reputation)
            (expected_verdict previous) verdict
      ok (record {
        feedback_id = feedback_id;
        observer_agent_id = observer_agent_id;
        capsule_id = capsule_id;
        publisher_agent_id = publisher_agent_id;
        revision = expected_revision previous;
        previous_verdict = expected_verdict previous;
        current_verdict = verdict;
        alpha_before = alpha_of reputation;
        beta_before = beta_of reputation;
        alpha_after = alpha;
        beta_after = beta;
      })
