-- ===== src/Sharing/Reputation/Counted.antt =====
-- What a replayed reputation counts.
use experience_hub.Prelude.{
  ℕ, ◌+◌, ◌≤◌, ◌≡◌, refl, ap, ◌∙◌, true, Option, none, some, List, [], ◌∷◌, ◌==◌, ◌&&◌, arith, ok,
  ok-injective, require-ok, >>=-eq-ok,
}
use experience_hub.Storage.EventStore.{StoredEvent}
use experience_hub.Sharing.Reputation.{
  FeedbackVerdict, useful, refuted, harmful, verdict_eq, CapsuleFeedbackRecorded, Reputation,
  Counts, take_back, contribute, counts_of, alpha_of, beta_of, present, revised_reputation,
  reduce_reputation, reputation_valid, LatestVerdicts, latest_of, assign, expected_verdict,
  Replayed, replay_feedback, replay_feedbacks, replay_reputation, required, feedback_event_fits,
  verdict_opt_eq, revises, expected_revision, comes_after,
}
use experience_hub.Sharing.Reputation.Latest.{count_of, share, count-assign, latest-assign}

-- The counts are those of the latest verdicts, alpha and beta are the prior and the
-- counts, and revisions start at 1.
pub record IsCounted (current : Option Reputation) (latest : LatestVerdicts) : Type 0 where
  pub useful_count : (counts_of current).useful_count ≡ count_of useful latest
  pub refuted_count : (counts_of current).refuted_count ≡ count_of refuted latest
  pub harmful_count : (counts_of current).harmful_count ≡ count_of harmful latest
  pub alpha : alpha_of current ≡ 2 + count_of useful latest
  pub beta : beta_of current ≡ 2 + count_of refuted latest + count_of harmful latest
  pub positive : (k n : ℕ) (v : FeedbackVerdict) → latest_of k latest ≡ some (n, v) → 1 ≤ n

-- The latest verdicts of a stream of feedback.
pub latest_verdicts : LatestVerdicts → List (StoredEvent CapsuleFeedbackRecorded) → LatestVerdicts
latest_verdicts latest [] = latest
latest_verdicts latest (e ∷ es) =
    latest_verdicts
      (assign e.row.payload.capsule_id (e.row.payload.revision, e.row.payload.current_verdict)
        latest)
      es

pub taken_back :
    (previous : Option FeedbackVerdict) (c d : Counts)
    → take_back previous c ≡ some d
    → (d.useful_count + share useful previous ≡ c.useful_count)
      × (d.refuted_count + share refuted previous ≡ c.refuted_count)
      × (d.harmful_count + share harmful previous ≡ c.harmful_count)
unfolding take_back verdict_eq
taken_back none c d h = ground arith
taken_back (some useful) c d h = ground arith
taken_back (some refuted) c d h = ground arith
taken_back (some harmful) c d h = ground arith

pub contributed :
    (v : FeedbackVerdict) (c : Counts)
    → ((contribute v c).useful_count ≡ c.useful_count + share useful (some v))
      × ((contribute v c).refuted_count ≡ c.refuted_count + share refuted (some v))
      × ((contribute v c).harmful_count ≡ c.harmful_count + share harmful (some v))
unfolding contribute verdict_eq
contributed useful c = ground arith
contributed refuted c = ground arith
contributed harmful c = ground arith

present-ok : (o : Option Counts) {c : Counts} → present o ≡ ok c → o ≡ some c
present-ok none h = cc
present-ok (some c) h = cc

-- A reduction that succeeds takes the previous verdict back and counts the current one.
reduced :
    (current : Option Reputation) (e : StoredEvent CapsuleFeedbackRecorded)
    (previous : Option FeedbackVerdict) (r : Reputation)
    → reduce_reputation current e previous ≡ ok r
    → (counts : Counts) × (take_back previous (counts_of current) ≡ some counts)
      × (revised_reputation e.row.payload e.row.occurred_at
            (contribute e.row.payload.current_verdict counts)
          ≡ r)
unfolding reduce_reputation
reduced current e previous r h =
    let (_, t₁, h₁) = >>=-eq-ok (required (feedback_event_fits e)) _ h in
    let (_, t₂, h₂) =
      >>=-eq-ok (required (verdict_opt_eq previous e.row.payload.previous_verdict)) _ h₁ in
    let (_, t₃, h₃) = >>=-eq-ok (required (revises current e.row.payload e.row.occurred_at)) _ h₂ in
    let (_, t₄, h₄) =
      >>=-eq-ok
        (required (
          e.row.payload.alpha_before == alpha_of current
          && e.row.payload.beta_before == beta_of current))
        _ h₃ in
    let (counts, u, h₅) = >>=-eq-ok (present (take_back previous (counts_of current))) _ h₄ in
    let revised : Reputation =
      revised_reputation e.row.payload e.row.occurred_at
        (contribute e.row.payload.current_verdict counts) in
    let (_, t₅, h₆) = >>=-eq-ok (required (reputation_valid revised)) _ h₅ in
    let (_, t₆, h₇) =
      >>=-eq-ok
        (required
          (revised.alpha == e.row.payload.alpha_after && revised.beta == e.row.payload.beta_after))
        _ h₆ in
    (counts, present-ok _ u, ok-injective h₇)

assigned_positive :
    (j revision : ℕ) (w : FeedbackVerdict) (latest : LatestVerdicts) (k n : ℕ) (v : FeedbackVerdict)
    → 1 ≤ revision
    → (latest_of k latest ≡ some (n, v) → 1 ≤ n)
    → latest_of k (assign j (revision, w) latest) ≡ some (n, v)
    → 1 ≤ n
assigned_positive j revision w latest k n v q c e =
    ground (arith, latest-assign k j (revision, w) latest, c)

first_or_later :
    (revision : ℕ) (prior : Option (ℕ × FeedbackVerdict)) (previous : Option FeedbackVerdict)
    → (revision == expected_revision prior && verdict_opt_eq previous (expected_verdict prior))
      ≡ true
    → 1 ≤ revision
first_or_later revision prior previous h = ground arith

IsCounted-step :
    (current : Option Reputation) (latest : LatestVerdicts) (p : CapsuleFeedbackRecorded) (at : ℕ)
    (counts : Counts)
    → 1 ≤ p.revision
    → IsCounted current latest
    → take_back (expected_verdict (latest_of p.capsule_id latest)) (counts_of current) ≡ some counts
    → IsCounted
        (some (revised_reputation p at (contribute p.current_verdict counts)))
        (assign p.capsule_id (p.revision, p.current_verdict) latest)
IsCounted-step current latest p at counts q c h =
    let (a₁, a₂, a₃) =
      taken_back (expected_verdict (latest_of p.capsule_id latest)) (counts_of current) counts h in
    let (b₁, b₂, b₃) = contributed p.current_verdict counts in
    let d₁ = count-assign useful p.capsule_id p.revision p.current_verdict latest in
    let d₂ = count-assign refuted p.capsule_id p.revision p.current_verdict latest in
    let d₃ = count-assign harmful p.capsule_id p.revision p.current_verdict latest in
    record {
      useful_count = omega (arith, c.useful_count);
      refuted_count = omega (arith, c.refuted_count);
      harmful_count = omega (arith, c.harmful_count);
      alpha = omega (arith, c.useful_count);
      beta = omega (arith, c.refuted_count, c.harmful_count);
      positive = λ k n v e.
          assigned_positive p.capsule_id p.revision p.current_verdict latest k n v q
            (c.positive k n v) e;
    }

pub step-IsCounted :
    (s next : Replayed) (e : StoredEvent CapsuleFeedbackRecorded)
    → IsCounted s.current s.latest_by_capsule
    → replay_feedback s e ≡ ok next
    → IsCounted next.current next.latest_by_capsule
      × (next.latest_by_capsule
          ≡ assign e.row.payload.capsule_id
              (e.row.payload.revision, e.row.payload.current_verdict)
              s.latest_by_capsule)
unfolding replay_feedback
step-IsCounted s next e c h =
    let p : CapsuleFeedbackRecorded = e.row.payload in
    let prior : Option (ℕ × FeedbackVerdict) = latest_of p.capsule_id s.latest_by_capsule in
    let (_, t₁, h₁) = >>=-eq-ok (required (comes_after s.last_event_id e.event_id)) _ h in
    let (_, t₂, h₂) =
      >>=-eq-ok
        (required (
          p.revision == expected_revision prior
          && verdict_opt_eq p.previous_verdict (expected_verdict prior)))
        _ h₁ in
    let (r, u, h₃) = >>=-eq-ok (reduce_reputation s.current e (expected_verdict prior)) _ h₂ in
    let (counts, v, w) = reduced s.current e (expected_verdict prior) r u in
    let done = ok-injective h₃ in
    rw (← done, ← w)
      (
        IsCounted-step s.current s.latest_by_capsule p e.row.occurred_at counts
            (first_or_later p.revision prior p.previous_verdict (require-ok _ _ t₂)) c v,
        refl,
      )

pub stream-IsCounted :
    (s last : Replayed) (es : List (StoredEvent CapsuleFeedbackRecorded))
    → IsCounted s.current s.latest_by_capsule
    → replay_feedbacks s es ≡ ok last
    → IsCounted last.current last.latest_by_capsule
      × (last.latest_by_capsule ≡ latest_verdicts s.latest_by_capsule es)
unfolding replay_feedbacks latest_verdicts
stream-IsCounted s last [] c h = rw (← ok-injective h) (c, refl)
stream-IsCounted s last (e ∷ es) c h =
    let (next, u, h₁) = >>=-eq-ok (replay_feedback s e) _ h in
    let (d, same) = step-IsCounted s next e c u in
    let (f, g) = stream-IsCounted next last es d h₁ in
    (f, g ∙ ap (λ (m : LatestVerdicts). latest_verdicts m es) same)

pub IsCounted-start : IsCounted none []
unfolding count_of latest_of
IsCounted-start = record {
  useful_count = refl;
  refuted_count = refl;
  harmful_count = refl;
  alpha = refl;
  beta = refl;
  positive = λ k n v h. cc;
}

-- A replay of a stream of feedback that succeeds ends with the reputation that counts, for each
-- verdict, the capsules whose latest feedback in the stream has that verdict: alpha is 2 and the
-- useful ones, beta 2 and the refuted and the harmful ones.
pub replay_reputation-IsCounted :
    (events : List (StoredEvent CapsuleFeedbackRecorded)) (current : Option Reputation)
    (last : Option ℕ)
    → replay_reputation events ≡ ok (current, last)
    → IsCounted current (latest_verdicts [] events)
unfolding replay_reputation
replay_reputation-IsCounted events current last h =
    let (s, u, e) =
      >>=-eq-ok
        (replay_feedbacks (record { current = none; latest_by_capsule = []; last_event_id = none })
          events)
        _ h in
    let (c, same) = stream-IsCounted _ s events IsCounted-start u in
    rw (← ap (λ (p : Option Reputation × Option ℕ). p.0) (ok-injective e), ← same) c
