-- ===== src/Inspiration/Dedup.antt =====
-- src/experience_hub/inspiration/dedup.py, with OperatorOutcome of models.py and
-- ValidatedOperatorBatch of validation.py. The mechanism of a draft is its normalized text, and
-- `content` stands for the rest of the draft; the digests are arguments.
pub mod Similarity
pub mod Own
pub mod Batches
pub mod Order
pub mod Deduplicated
pub mod Covered
use experience_hub.Prelude.{
  ℕ, ◌+◌, Bool, true, false, not, ◌&&◌, ◌||◌, Option, none, some, List, [], ◌∷◌, ◌++◌, ltb, leb,
  ◌==◌, is_some, if◌then◌else◌, any, all, length, tally, Result, ok, err, require, value_error,
  ◌>>=◌, ◌>>◌,
}
use experience_hub.Inspiration.Snapshot.Size.{Text}
use experience_hub.Inspiration.Dedup.Similarity.{near_duplicate}

pub data InspirationOperator : Type 0 where
  causal_gap counterfactual distant_analogy : InspirationOperator

-- _OPERATOR_ORDER
abbrev pub operator_order : InspirationOperator → ℕ
operator_order causal_gap = 0
operator_order counterfactual = 1
operator_order distant_analogy = 2

abbrev pub operator_eq : InspirationOperator → InspirationOperator → Bool
operator_eq a b = operator_order a == operator_order b

pub data OperatorFailureCode : Type 0 where
  insufficient_evidence no_valid_branches generator_error provider_timeout : OperatorFailureCode
  provider_http_error invalid_provider_response invalid_evidence_reference : OperatorFailureCode
  provider_budget_violation insufficient_token_reservation : OperatorFailureCode
  global_deadline_exhausted : OperatorFailureCode

pub record OperatorOutcome : Type 0 where
  pub operator : InspirationOperator
  pub succeeded : Bool
  pub persisted_ideas : ℕ
  pub duplicate_count : ℕ
  pub error_code : Option OperatorFailureCode
  pub output_tokens_consumed : ℕ

-- The validators of OperatorOutcome.
unfoldable pub outcome_valid : OperatorOutcome → Bool
outcome_valid o =
    leb o.persisted_ideas 3
    && (if o.succeeded
        then leb 1 o.persisted_ideas && not (is_some o.error_code)
        else is_some o.error_code && o.persisted_ideas == 0)

pub record IdeaDraft : Type 0 where
  pub mechanism : Text
  pub content : ℕ

pub record Digests : Type 0 where
  pub hash_idea_content : IdeaDraft → ℕ
  pub hash_mechanism : Text → ℕ

pub record ValidatedOperatorBatch : Type 0 where
  pub operator : InspirationOperator
  pub ideas : List IdeaDraft
  pub error_code : Option OperatorFailureCode
  pub output_tokens_consumed : ℕ

abbrev pub is_empty : List IdeaDraft → Bool
is_empty [] = true
is_empty (d ∷ ds) = false

-- The checks of ValidatedOperatorBatch.
unfoldable pub batch_valid : ValidatedOperatorBatch → Bool
batch_valid b =
    (if is_some b.error_code then is_empty b.ideas else not (is_empty b.ideas))
    && leb b.output_tokens_consumed 1200

pub record RetainedIdea : Type 0 where
  pub operator : InspirationOperator
  pub ordinal : ℕ
  pub draft : IdeaDraft
  pub idea_content_hash : ℕ
  pub mechanism_hash : ℕ

abbrev pub max_ideas_per_operator : ℕ
max_ideas_per_operator = 3

abbrev pub max_ideas_per_run : ℕ
max_ideas_per_run = 9

-- sorted(batches, key=...), which is stable.
unfoldable pub insert_batch :
    ValidatedOperatorBatch → List ValidatedOperatorBatch → List ValidatedOperatorBatch
insert_batch b [] = b ∷ []
insert_batch b (c ∷ cs) =
    let rest : List ValidatedOperatorBatch = insert_batch b cs in
    if leb (operator_order b.operator) (operator_order c.operator) then b ∷ c ∷ cs else c ∷ rest

unfoldable pub sorted_batches : List ValidatedOperatorBatch → List ValidatedOperatorBatch
unfolding insert_batch
sorted_batches [] = []
sorted_batches (b ∷ bs) = insert_batch b (sorted_batches bs)

unfoldable pub distinct_batches : List ValidatedOperatorBatch → Bool
distinct_batches [] = true
distinct_batches (b ∷ bs) =
    not (any (λ (c : ValidatedOperatorBatch). operator_eq b.operator c.operator) bs)
    && distinct_batches bs

-- The outcome of a batch that kept `own`.
unfoldable pub outcome_of :
    ValidatedOperatorBatch → List RetainedIdea → (discarded : ℕ) → OperatorOutcome
outcome_of b [] discarded = record {
  operator = b.operator;
  succeeded = false;
  persisted_ideas = 0;
  duplicate_count = discarded;
  error_code = some no_valid_branches;
  output_tokens_consumed = b.output_tokens_consumed;
}
outcome_of b (i ∷ is) discarded = record {
  operator = b.operator;
  succeeded = true;
  persisted_ideas = length (i ∷ is);
  duplicate_count = discarded;
  error_code = none;
  output_tokens_consumed = b.output_tokens_consumed;
}

-- _failed_outcome
abbrev pub failed_outcome : ValidatedOperatorBatch → OperatorFailureCode → OperatorOutcome
failed_outcome b code = record {
  operator = b.operator;
  succeeded = false;
  persisted_ideas = 0;
  duplicate_count = 0;
  error_code = some code;
  output_tokens_consumed = b.output_tokens_consumed;
}

module _ (digests : Digests) where
  -- RetainedIdea.from_draft
  abbrev pub from_draft : InspirationOperator → ℕ → IdeaDraft → RetainedIdea
  from_draft operator ordinal draft = record {
    operator = operator;
    ordinal = ordinal;
    draft = draft;
    idea_content_hash = digests.hash_idea_content draft;
    mechanism_hash = digests.hash_mechanism draft.mechanism;
  }

  unfoldable pub is_duplicate : IdeaDraft → List RetainedIdea → Bool
  unfolding near_duplicate
  is_duplicate draft retained =
      any
        (λ (c : RetainedIdea).
          digests.hash_mechanism draft.mechanism == c.mechanism_hash
          || near_duplicate draft.mechanism c.draft.mechanism)
        retained

  -- The loop over the drafts of a batch: what it retains, beside what is retained, and how many
  -- drafts it discards. `before` is what the earlier operators retained.
  unfoldable pub retain_drafts :
      InspirationOperator
      → (before own : List RetainedIdea) → (discarded : ℕ) → List IdeaDraft
      → List RetainedIdea × ℕ
  unfolding is_duplicate
  retain_drafts operator before own discarded [] = (own, discarded)
  retain_drafts operator before own discarded (d ∷ ds) =
      elim (leb max_ideas_per_operator (length own)
        || leb max_ideas_per_run (length (before ++ own))
        || is_duplicate d (before ++ own)) [
          | true ↦ retain_drafts operator before own (discarded + 1) ds
          | false ↦
              retain_drafts operator before (own ++ from_draft operator (length own + 1) d ∷ [])
                discarded ds
        ]

  -- What a batch retains, beside what is retained before it, and its outcome.
  unfoldable pub of_batch :
      List RetainedIdea → ValidatedOperatorBatch → List RetainedIdea × OperatorOutcome
  unfolding retain_drafts outcome_of
  of_batch before b = elim b.error_code [
    | some code ↦ ([], failed_outcome b code)
    | none ↦
        let (own, discarded) = retain_drafts b.operator before [] 0 b.ideas in
        (own, outcome_of b own discarded)
  ]

  -- The loop over the batches: the ideas that they add to those before them, and their outcomes.
  unfoldable pub of_batches :
      List RetainedIdea → List ValidatedOperatorBatch → List RetainedIdea × List OperatorOutcome
  unfolding of_batch
  of_batches before [] = ([], [])
  of_batches before (b ∷ bs) =
      let (own, outcome) = of_batch before b in
      let (ideas, outcomes) = of_batches (before ++ own) bs in (own ++ ideas, outcome ∷ outcomes)

pub record RunDeduplicationResult : Type 0 where
  pub ideas : List RetainedIdea
  pub outcomes : List OperatorOutcome

-- `idea_order != tuple(sorted(idea_order))`, from the key before.
unfoldable pub ordered_from : (order ordinal : ℕ) → List RetainedIdea → Bool
ordered_from order ordinal [] = true
ordered_from order ordinal (i ∷ is) =
    (ltb order (operator_order i.operator)
      || order == operator_order i.operator && leb ordinal i.ordinal)
    && ordered_from (operator_order i.operator) i.ordinal is

-- The ordinals of an operator's ideas are a range.
unfoldable pub contiguous_from : InspirationOperator → ℕ → List RetainedIdea → Bool
contiguous_from operator ordinal [] = true
contiguous_from operator ordinal (i ∷ is) =
    if operator_eq i.operator operator
    then i.ordinal == ordinal && contiguous_from operator (ordinal + 1) is
    else contiguous_from operator ordinal is

-- The operators of the outcomes follow their order without repetition.
unfoldable pub outcomes_from : ℕ → List OperatorOutcome → Bool
outcomes_from order [] = true
outcomes_from order (o ∷ os) =
    leb order (operator_order o.operator) && outcomes_from (operator_order o.operator + 1) os

-- `sum(idea.operator is outcome.operator for idea in ideas)`
unfoldable pub persisted_by : InspirationOperator → List RetainedIdea → ℕ
persisted_by operator [] = 0
persisted_by operator (i ∷ is) = tally (operator_eq i.operator operator) (persisted_by operator is)

abbrev pub has_outcome : List OperatorOutcome → RetainedIdea → Bool
has_outcome outcomes i = any (λ (o : OperatorOutcome). operator_eq o.operator i.operator) outcomes

abbrev pub count_matches : List RetainedIdea → OperatorOutcome → Bool
count_matches ideas o = o.persisted_ideas == persisted_by o.operator ideas

abbrev pub idea_valid : RetainedIdea → Bool
idea_valid i = leb 1 i.ordinal && leb i.ordinal max_ideas_per_operator

-- The checks of the ideas, the outcomes and RunDeduplicationResult.
unfoldable pub result_valid : RunDeduplicationResult → Bool
unfolding ordered_from contiguous_from outcomes_from persisted_by outcome_valid
result_valid r =
    all idea_valid r.ideas
    && all outcome_valid r.outcomes
    && leb (length r.ideas) max_ideas_per_run
    && ordered_from 0 0 r.ideas
    && contiguous_from causal_gap 1 r.ideas
    && contiguous_from counterfactual 1 r.ideas
    && contiguous_from distant_analogy 1 r.ideas
    && outcomes_from 0 r.outcomes
    && all (has_outcome r.outcomes) r.ideas
    && all (count_matches r.ideas) r.outcomes

unfoldable pub deduplicate_run_batches :
    Digests → List ValidatedOperatorBatch → Result RunDeduplicationResult
unfolding distinct_batches sorted_batches of_batches result_valid
deduplicate_run_batches digests [] = err value_error
deduplicate_run_batches digests (b ∷ bs) = do
  require (distinct_batches (b ∷ bs)) value_error
  let (ideas, outcomes) = of_batches digests [] (sorted_batches (b ∷ bs))
  let result : RunDeduplicationResult = record { ideas = ideas; outcomes = outcomes }
  require (result_valid result) value_error
  ok result
