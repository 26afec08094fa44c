-- ===== src/Sharing/Reputation/Recorded.antt =====
-- The feedback that the service records continues the stream that the projector replays.
use experience_hub.Prelude.{
  ℕ, ◌≡◌, sym, ap, ◌∙◌, true, false, none, some, List, [], ◌==◌, arith, ok, ok-injective,
}
use experience_hub.Storage.EventStore.{StoredEvent}
use experience_hub.Sharing.Reputation.{
  FeedbackVerdict, CapsuleFeedbackRecorded, Reputation, alpha_of, beta_of, reduce_reputation,
  latest_of, assign, expected_verdict, Replayed, replay_feedback, replay_feedbacks,
  feedback_event_fits, revises, expected_revision, comes_after, recorded_payload, feedback_valid,
}
use experience_hub.Sharing.Reputation.Counted.{IsCounted, stream-IsCounted, IsCounted-start}
use experience_hub.Sharing.Reputation.Revised.{
  verdict_opt_eq_refl, payload_for, recorded-eq, payload-valid, reduces,
}

-- The state of a replay before its first event.
abbrev pub unrated : Replayed
unrated = record { current = none; latest_by_capsule = []; last_event_id = none }

continues :
    (s : Replayed) (e : StoredEvent CapsuleFeedbackRecorded) (r : Reputation)
    → comes_after s.last_event_id e.event_id ≡ true
    → (e.row.payload.revision
        ≡ expected_revision (latest_of e.row.payload.capsule_id s.latest_by_capsule))
    → (e.row.payload.previous_verdict
        ≡ expected_verdict (latest_of e.row.payload.capsule_id s.latest_by_capsule))
    → reduce_reputation s.current e
        (expected_verdict (latest_of e.row.payload.capsule_id s.latest_by_capsule))
      ≡ ok r
    → replay_feedback s e
      ≡ ok (record {
        current = some r;
        latest_by_capsule =
            assign e.row.payload.capsule_id
              (e.row.payload.revision, e.row.payload.current_verdict)
              s.latest_by_capsule;
        last_event_id = some e.event_id;
      })
unfolding replay_feedback
continues s e r a n w x = ground (
  arith,
  verdict_opt_eq_refl (expected_verdict (latest_of e.row.payload.capsule_id s.latest_by_capsule)),
)

distinct :
    (e : StoredEvent CapsuleFeedbackRecorded)
    → feedback_event_fits e ≡ true
    → (e.row.payload.publisher_agent_id == e.row.payload.observer_agent_id) ≡ false
unfolding feedback_event_fits
distinct e f = ground arith

valid_of :
    (s : Replayed) (e : StoredEvent CapsuleFeedbackRecorded) (feedback_id observer publisher : ℕ)
    (v : FeedbackVerdict) (c : IsCounted s.current s.latest_by_capsule)
    → e.row.payload
      ≡ payload_for s.current s.latest_by_capsule e.row.payload.capsule_id c feedback_id observer
          publisher v
    → feedback_event_fits e ≡ true
    → feedback_valid e.row.payload ≡ true
valid_of s e feedback_id observer publisher v c p f =
    ap feedback_valid p
    ∙ payload-valid s.current s.latest_by_capsule e.row.payload.capsule_id c feedback_id observer
        publisher v
        (sym (ap (λ (u : CapsuleFeedbackRecorded). u.publisher_agent_id == u.observer_agent_id) p)
          ∙ distinct e f)

-- A payload that the service records from the reputation of a stream that was replayed, and from
-- the latest feedback of the capsule in it, is valid. If its event is later in the ledger, fits the
-- capsule and the observer, and revises a reputation of the same agents at no earlier time, then the
-- replay of the stream continues with it, to the alpha and beta that the payload names.
pub recorded-replays :
    (es : List (StoredEvent CapsuleFeedbackRecorded)) (s : Replayed)
    (e : StoredEvent CapsuleFeedbackRecorded) (feedback_id observer publisher : ℕ)
    (v : FeedbackVerdict)
    → replay_feedbacks unrated es ≡ ok s
    → recorded_payload
        (latest_of e.row.payload.capsule_id s.latest_by_capsule)
        s.current
        feedback_id
        observer
        e.row.payload.capsule_id
        publisher
        v
      ≡ ok e.row.payload
    → feedback_event_fits e ≡ true
    → comes_after s.last_event_id e.event_id ≡ true
    → revises s.current e.row.payload e.row.occurred_at ≡ true
    → (feedback_valid e.row.payload ≡ true)
      × (next : Replayed) × (replay_feedback s e ≡ ok next)
      × (alpha_of next.current ≡ e.row.payload.alpha_after)
      × (beta_of next.current ≡ e.row.payload.beta_after)
recorded-replays es s e feedback_id observer publisher v h r f a t =
    let (c, _) = stream-IsCounted unrated s es IsCounted-start h in
    let k : ℕ = e.row.payload.capsule_id in
    let p : e.row.payload
        ≡ payload_for s.current s.latest_by_capsule k c feedback_id observer publisher v =
      ok-injective
        (sym r ∙ recorded-eq s.current s.latest_by_capsule k c feedback_id observer publisher v) in
    let (q, x, y, z) =
      reduces s.current s.latest_by_capsule k c e feedback_id observer publisher v p f t in
    (
      valid_of s e feedback_id observer publisher v c p f,
      _,
      continues s e q a (ap (λ (u : CapsuleFeedbackRecorded). u.revision) p)
          (ap (λ (u : CapsuleFeedbackRecorded). u.previous_verdict) p) x,
      y,
      z,
    )
