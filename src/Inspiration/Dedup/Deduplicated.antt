-- ===== src/Inspiration/Dedup/Deduplicated.antt =====
-- The result of a deduplication passes its checks, and no idea of it is a duplicate of one before.
use experience_hub.Prelude.{
  ℕ, ◌+◌, ◌≤◌, ◌<◌, ◌≡◌, ◌⊎◌, inl, inr, refl, true, List, [], ◌∷◌, ◌++◌, arith, length, all,
  ==_refl, ok, Bool-cases, Option-cases,
}
use mathlib.Core.List.{append-nil, append_assoc}
use experience_hub.Inspiration.Dedup.{
  InspirationOperator, causal_gap, counterfactual, distant_analogy, operator_order, operator_eq,
  OperatorOutcome, outcome_valid, Digests, ValidatedOperatorBatch, RetainedIdea,
  max_ideas_per_operator, max_ideas_per_run, sorted_batches, distinct_batches, outcome_of, of_batch,
  of_batches, RunDeduplicationResult, ordered_from, contiguous_from, outcomes_from, has_outcome,
  count_matches, idea_valid, result_valid, deduplicate_run_batches,
}
use experience_hub.Inspiration.Dedup.Own.{AllDistinct, distinct_append, IsOwn, retain_drafts-IsOwn}
use experience_hub.Inspiration.Dedup.Batches.{
  AllFrom, from_less, own_from, own_ordered, own_contiguous, other_contiguous, own_persisted,
  counts_kept, own_valid, own_has, has_more,
}
use experience_hub.Inspiration.Dedup.Order.{Ascending, sorted-Ascending}

same_operator : (a b : InspirationOperator) → operator_eq a b ≡ true → a ≡ b
same_operator a b t = ground arith

module _ (digests : Digests) where
  -- An outcome for a batch and what it retained.
  abbrev pub IsOutcome : ValidatedOperatorBatch → List RetainedIdea → OperatorOutcome → Type 0
  IsOutcome b own o =
      (o.operator ≡ b.operator) × (o.persisted_ideas ≡ length own) × (outcome_valid o ≡ true)

  outcome_of-IsOutcome :
      (b : ValidatedOperatorBatch) (own : List RetainedIdea) (discarded : ℕ)
      → length own ≤ max_ideas_per_operator
      → IsOutcome b own (outcome_of b own discarded)
  unfolding outcome_of outcome_valid
  outcome_of-IsOutcome b [] discarded le = (refl, refl, refl)
  outcome_of-IsOutcome b (i ∷ is) discarded le = (refl, refl, ground arith)

  nothing-IsOwn :
      (operator : InspirationOperator) (before : List RetainedIdea)
      → length before ≤ max_ideas_per_run
      → IsOwn digests operator before []
  nothing-IsOwn operator before le = record {
    numbered = tt;
    few = omega arith;
    fits_run = rw (append-nil before) le;
    distinct = tt;
  }

  of_batch-IsOwn :
      (before : List RetainedIdea) (b : ValidatedOperatorBatch)
      → length before ≤ max_ideas_per_run
      → IsOwn digests b.operator before (of_batch digests before b).0
        × IsOutcome b (of_batch digests before b).0 (of_batch digests before b).1
  unfolding of_batch outcome_valid
  of_batch-IsOwn before b le = elim (Option-cases b.error_code) [
    | inl e ↦
        let (own, n) =
          retain_drafts-IsOwn digests b.operator before [] 0 b.ideas
            (nothing-IsOwn b.operator before le) in
        rw (of_batch, e) (own, outcome_of-IsOutcome b _ _ own.few)
    | inr (c, e) ↦ rw (of_batch, e) (nothing-IsOwn b.operator before le, (refl, refl, refl))
  ]

  -- What the batches from the k-th operator on add passes the checks of the result.
  pub record IsRun (k : ℕ) (before ideas : List RetainedIdea) (outcomes : List OperatorOutcome)
      : Type 0 where
    pub from : AllFrom k ideas
    pub in_order : outcomes_from k outcomes ≡ true
    pub ideas_valid : all idea_valid ideas ≡ true
    pub outcomes_valid : all outcome_valid outcomes ≡ true
    pub few : length (before ++ ideas) ≤ max_ideas_per_run
    pub ordered : (o n : ℕ) → (o < k) ⊎ ((o ≡ k) × (n ≤ 1)) → ordered_from o n ideas ≡ true
    pub contiguous : (operator : InspirationOperator) → contiguous_from operator 1 ideas ≡ true
    pub owned : all (has_outcome outcomes) ideas ≡ true
    pub counted : all (count_matches ideas) outcomes ≡ true
    pub distinct : AllDistinct digests before ideas

  next-IsRun :
      (k : ℕ) (b : ValidatedOperatorBatch) (before own rest : List RetainedIdea)
      (o : OperatorOutcome) (os : List OperatorOutcome)
      → k ≤ operator_order b.operator
      → IsOwn digests b.operator before own
      → IsOutcome b own o
      → IsRun (operator_order b.operator + 1) (before ++ own) rest os
      → IsRun k before (own ++ rest) (o ∷ os)
  unfolding outcomes_from
  next-IsRun k b before own rest o os le h (e, n, v) r = record {
    from = from_less k _ (own ++ rest) le (own_from b.operator rest r.from 1 own h.numbered);
    in_order = rw (e) (ground (arith, r.in_order));
    ideas_valid =
        own_valid b.operator rest r.from 1 own h.numbered (omega arith) (omega (arith, h.few))
          r.ideas_valid;
    outcomes_valid = ground (arith, v, r.outcomes_valid);
    few = rw (← append_assoc before own rest) r.few;
    ordered = λ p m start.
        own_ordered b.operator rest r.from 1 own p m h.numbered (ground arith)
          (λ q w l. r.ordered q w (inl (omega arith)));
    contiguous = λ other. elim (Bool-cases (operator_eq b.operator other)) [
      | inl t ↦
          rw (← same_operator b.operator other t)
            (own_contiguous b.operator rest r.from 1 own h.numbered)
      | inr f ↦
          other_contiguous b.operator rest r.from other 1 1 own f h.numbered (r.contiguous other)
    ];
    owned = own_has b.operator rest r.from 1 own o os h.numbered e (has_more o os rest r.owned);
    counted =
        rw
          (
            e,
            n,
            own_persisted b.operator rest r.from 1 own h.numbered,
            counts_kept b.operator rest r.from 1 (operator_order b.operator + 1) own os h.numbered
                (omega arith) r.in_order r.counted,
          )
          (ground (arith, ==_refl (length own)));
    distinct = distinct_append digests before own rest h.distinct r.distinct;
  }

  pub of_batches-IsRun :
      (k : ℕ) (before : List RetainedIdea) (bs : List ValidatedOperatorBatch)
      → Ascending k bs
      → length before ≤ max_ideas_per_run
      → IsRun k before (of_batches digests before bs).0 (of_batches digests before bs).1
  unfolding of_batches outcomes_from ordered_from contiguous_from
  of_batches-IsRun k before [] h le = record {
    from = tt;
    in_order = refl;
    ideas_valid = refl;
    outcomes_valid = refl;
    few = rw (append-nil before) le;
    ordered = λ o n start. refl;
    contiguous = λ operator. refl;
    owned = refl;
    counted = refl;
    distinct = tt;
  }
  of_batches-IsRun k before (b ∷ bs) (h, hs) le =
      let (own, outcome) = of_batch-IsOwn before b le in
      next-IsRun k b before _ _ _ _ h own outcome
        (of_batches-IsRun (operator_order b.operator + 1) _ bs hs own.fits_run)

run_valid :
    (digests : Digests) (ideas : List RetainedIdea) (outcomes : List OperatorOutcome)
    → IsRun digests 0 [] ideas outcomes
    → result_valid (record { ideas = ideas; outcomes = outcomes }) ≡ true
unfolding result_valid
run_valid digests ideas outcomes r =
    rw
      (
        r.ideas_valid,
        r.outcomes_valid,
        r.ordered 0 0 (inr (refl, omega arith)),
        r.contiguous causal_gap,
        r.contiguous counterfactual,
        r.contiguous distant_analogy,
        r.in_order,
        r.owned,
        r.counted,
      )
      (ground (arith, r.few))

-- A deduplication of batches, at least one, of different operators returns a result, which passes
-- its checks: at most three ideas an operator and nine in all, in order and numbered, and outcomes
-- that count them. No idea of it is a duplicate of one before it.
pub deduplicate-AllDistinct :
    (digests : Digests) (b : ValidatedOperatorBatch) (bs : List ValidatedOperatorBatch)
    → distinct_batches (b ∷ bs) ≡ true
    → (r : RunDeduplicationResult) × (deduplicate_run_batches digests (b ∷ bs) ≡ ok r)
      × (result_valid r ≡ true)
      × AllDistinct digests [] r.ideas
unfolding deduplicate_run_batches
deduplicate-AllDistinct digests b bs d =
    let sorted = sorted-Ascending (b ∷ bs) d in
    let run = of_batches-IsRun digests 0 [] (sorted_batches (b ∷ bs)) sorted (omega arith) in
    let r : RunDeduplicationResult = record {
      ideas = (of_batches digests [] (sorted_batches (b ∷ bs))).0;
      outcomes = (of_batches digests [] (sorted_batches (b ∷ bs))).1;
    } in
    let v : result_valid r ≡ true = run_valid digests _ _ run in
    (r, rw (d, v) refl, v, run.distinct)
