-- ===== src/Sharing/Reputation/Revised.antt =====
-- What the service records from a counted reputation, and what the reducer makes of it.
use experience_hub.Prelude.{
  ℕ, ◌+◌, ◌-◌, ◌≤◌, ◌≡◌, refl, sym, ap, ◌∙◌, true, false, Option, none, some, ◌==◌, ◌&&◌, arith, ok,
  inl, inr, Option-cases, is_some, not,
}
use experience_hub.Storage.EventStore.{StoredEvent}
use experience_hub.Sharing.Reputation.{
  FeedbackVerdict, useful, refuted, harmful, verdict_eq, CapsuleFeedbackRecorded, Reputation,
  Counts, take_back, contribute, counts_of, alpha_of, beta_of, revised_reputation,
  reduce_reputation, reputation_valid, LatestVerdicts, latest_of, expected_verdict,
  feedback_event_fits, verdict_opt_eq, revises, expected_revision, recorded_payload,
  revised_effective_counts, alpha_part, beta_part, part_of, feedback_valid,
}
use experience_hub.Sharing.Reputation.Latest.{share, latest_counted}
use experience_hub.Sharing.Reputation.Counted.{IsCounted, taken_back, contributed}

pub verdict_opt_eq_refl : (v : Option FeedbackVerdict) → verdict_opt_eq v v ≡ true
unfolding verdict_opt_eq verdict_eq
verdict_opt_eq_refl v = ground arith

taken :
    (previous : Option FeedbackVerdict) (c : Counts)
    → share useful previous ≤ c.useful_count
    → share refuted previous ≤ c.refuted_count
    → share harmful previous ≤ c.harmful_count
    → (d : Counts) × (take_back previous c ≡ some d)
unfolding take_back verdict_eq
taken none c h k l = (c, refl)
taken (some useful) c h k l = (record c { useful_count = c.useful_count - 1 }, ground arith)
taken (some refuted) c h k l = (record c { refuted_count = c.refuted_count - 1 }, ground arith)
taken (some harmful) c h k l = (record c { harmful_count = c.harmful_count - 1 }, ground arith)

parts :
    (o : Option FeedbackVerdict)
    → (part_of alpha_part o ≡ share useful o)
      × (part_of beta_part o ≡ share refuted o + share harmful o)
unfolding alpha_part beta_part verdict_eq
parts o = ground arith

module _ (current : Option Reputation) (latest : LatestVerdicts) (k : ℕ)
    (c : IsCounted current latest) where
  -- A previous verdict of a counted reputation can be taken back.
  contained :
      (d : Counts) × (take_back (expected_verdict (latest_of k latest)) (counts_of current)
        ≡ some d)
  contained =
      taken (expected_verdict (latest_of k latest)) (counts_of current)
        (omega (arith, latest_counted k latest useful, c.useful_count))
        (omega (arith, latest_counted k latest refuted, c.refuted_count))
        (omega (arith, latest_counted k latest harmful, c.harmful_count))

  enough :
      (part_of alpha_part (expected_verdict (latest_of k latest)) + 2 ≤ alpha_of current)
      × (part_of beta_part (expected_verdict (latest_of k latest)) + 2 ≤ beta_of current)
  enough =
      let (a, b) = parts (expected_verdict (latest_of k latest)) in
      let x = latest_counted k latest useful in
      let y = latest_counted k latest refuted in
      let z = latest_counted k latest harmful in (omega (arith, c.alpha), omega (arith, c.beta))

  effective :
      (v : FeedbackVerdict)
      → revised_effective_counts
          (alpha_of current)
          (beta_of current)
          (expected_verdict (latest_of k latest))
          v
        ≡ ok (
          alpha_of current
              + alpha_part v
              - part_of alpha_part (expected_verdict (latest_of k latest)),
          beta_of current + beta_part v - part_of beta_part (expected_verdict (latest_of k latest)),
        )
  unfolding revised_effective_counts
  effective v = ground (arith, enough)

  -- There is a reputation if there is a previous revision.
  reputed : (is_some (latest_of k latest) && not (is_some current)) ≡ false
  unfolding verdict_eq
  reputed = ground (
    arith,
    latest_counted k latest useful,
    latest_counted k latest refuted,
    latest_counted k latest harmful,
    c.useful_count,
    c.refuted_count,
    c.harmful_count,
  )

  -- The payload of the service for a counted reputation.
  abbrev pub payload_for :
      (feedback_id observer publisher : ℕ) → FeedbackVerdict → CapsuleFeedbackRecorded
  payload_for feedback_id observer publisher v = record {
    feedback_id = feedback_id;
    observer_agent_id = observer;
    capsule_id = k;
    publisher_agent_id = publisher;
    revision = expected_revision (latest_of k latest);
    previous_verdict = expected_verdict (latest_of k latest);
    current_verdict = v;
    alpha_before = alpha_of current;
    beta_before = beta_of current;
    alpha_after =
        alpha_of current
        + alpha_part v
        - part_of alpha_part (expected_verdict (latest_of k latest));
    beta_after =
        beta_of current + beta_part v - part_of beta_part (expected_verdict (latest_of k latest));
  }

  pub recorded-eq :
      (feedback_id observer publisher : ℕ) (v : FeedbackVerdict)
      → recorded_payload (latest_of k latest) current feedback_id observer k publisher v
        ≡ ok (payload_for feedback_id observer publisher v)
  unfolding recorded_payload
  recorded-eq feedback_id observer publisher v = ground (arith, reputed, effective v)

  numbered :
      (expected_revision (latest_of k latest) == 1)
      ≡ not (is_some (expected_verdict (latest_of k latest)))
  numbered = elim (Option-cases (latest_of k latest)) [
    | inl e ↦ rw e refl
    | inr ((n, v), e) ↦ rw e (ground (arith, c.positive k n v e))
  ]

  pub payload-valid :
      (feedback_id observer publisher : ℕ) (v : FeedbackVerdict)
      → (publisher == observer) ≡ false
      → feedback_valid (payload_for feedback_id observer publisher v) ≡ true
  unfolding feedback_valid
  payload-valid feedback_id observer publisher v n = ground (arith, enough, numbered)

  -- alpha and beta move by the parts of the two verdicts.
  balanced :
      (v : FeedbackVerdict) (d : Counts)
      → take_back (expected_verdict (latest_of k latest)) (counts_of current) ≡ some d
      → (2 + (contribute v d).useful_count
          ≡ alpha_of current
            + alpha_part v
            - part_of alpha_part (expected_verdict (latest_of k latest)))
        × (2 + (contribute v d).refuted_count + (contribute v d).harmful_count
            ≡ beta_of current
              + beta_part v
              - part_of beta_part (expected_verdict (latest_of k latest)))
  balanced v d x =
      let (a₁, a₂, a₃) =
        taken_back (expected_verdict (latest_of k latest)) (counts_of current) d x in
      let (b₁, b₂, b₃) = contributed v d in
      let (p, q) = parts (expected_verdict (latest_of k latest)) in
      let (m, n) = parts (some v) in
      (
        omega (arith, c.alpha, c.useful_count),
        omega (arith, c.beta, c.refuted_count, c.harmful_count),
      )

  pub reduces :
      (e : StoredEvent CapsuleFeedbackRecorded) (feedback_id observer publisher : ℕ)
      (v : FeedbackVerdict)
      → e.row.payload ≡ payload_for feedback_id observer publisher v
      → feedback_event_fits e ≡ true
      → revises current e.row.payload e.row.occurred_at ≡ true
      → (r : Reputation) × (reduce_reputation current e (expected_verdict (latest_of k latest))
          ≡ ok r)
        × (r.alpha ≡ e.row.payload.alpha_after)
        × (r.beta ≡ e.row.payload.beta_after)
  unfolding reduce_reputation reputation_valid feedback_event_fits
  reduces e feedback_id observer publisher v p f t =
      let (d, x) = contained in
      (
        revised_reputation e.row.payload e.row.occurred_at (contribute v d),
        ground
            (arith, x, balanced v d x, verdict_opt_eq_refl (expected_verdict (latest_of k latest))),
        (balanced v d x).0 ∙ sym (ap (λ (q : CapsuleFeedbackRecorded). q.alpha_after) p),
        (balanced v d x).1 ∙ sym (ap (λ (q : CapsuleFeedbackRecorded). q.beta_after) p),
      )
