-- ===== src/Tests/Ideas.antt =====
-- Examples for the deduplication of ideas.
use experience_hub.Prelude.{ℕ, ◌≡◌, refl, List, [], ◌∷◌, none, some, true, ok}
use experience_hub.Inspiration.Snapshot.Size.{Text}
use experience_hub.Inspiration.Dedup.{
  causal_gap, counterfactual, generator_error, IdeaDraft, Digests, ValidatedOperatorBatch,
  distinct_batches, retain_drafts, RunDeduplicationResult, result_valid, deduplicate_run_batches,
}
use experience_hub.Inspiration.Dedup.Own.{AllDistinct}
use experience_hub.Inspiration.Dedup.Deduplicated.{deduplicate-AllDistinct}
use experience_hub.Inspiration.Dedup.Covered.{AllCovered, retain_drafts-covers}

abbrev hash_text : Text → ℕ
hash_text [] = 0
hash_text (c ∷ cs) = c

abbrev digests : Digests
digests = record { hash_idea_content = λ d. d.content; hash_mechanism = hash_text }

abbrev draft : ℕ → Text → IdeaDraft
draft content mechanism = record { mechanism = mechanism; content = content }

abbrev drafts : List IdeaDraft
drafts = draft 1 (97 ∷ 98 ∷ []) ∷ draft 2 (97 ∷ 98 ∷ []) ∷ draft 3 (120 ∷ []) ∷ []

abbrev later_batch : ValidatedOperatorBatch
later_batch = record {
  operator = counterfactual;
  ideas = drafts;
  error_code = none;
  output_tokens_consumed = 40;
}

abbrev failed_batch : ValidatedOperatorBatch
failed_batch = record {
  operator = causal_gap;
  ideas = [];
  error_code = some generator_error;
  output_tokens_consumed = 0;
}

deduplicate-AllDistinct_example :
    (r : RunDeduplicationResult) × (deduplicate_run_batches digests
        (later_batch ∷ failed_batch ∷ [])
      ≡ ok r)
    × (result_valid r ≡ true)
    × AllDistinct digests [] r.ideas
unfolding distinct_batches
deduplicate-AllDistinct_example =
    deduplicate-AllDistinct digests later_batch (failed_batch ∷ []) refl

retain_drafts-covers_example :
    AllCovered digests counterfactual []
      (retain_drafts digests counterfactual [] [] 0 drafts).0
      drafts
retain_drafts-covers_example = retain_drafts-covers digests counterfactual [] [] 0 drafts
