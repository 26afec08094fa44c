-- ===== src/Tests/Rankings.antt =====
-- Examples for retrieval.
use experience_hub.Prelude.{
  ℕ, ◌≤◌, ◌≡◌, refl, Bool, true, length, ◌⊎◌, ◌<◌, List, [], ◌∷◌, arith, min, All, ok,
}
use experience_hub.Experiences.State.{Temperature, hot, cold, archived}
use experience_hub.Retrieval.{focused}
use experience_hub.Retrieval.Pools.{
  CandidateMatch, temperature_pool_quota, is_candidate, eligible, distinct_ids,
  select_temperature_pools,
}
use experience_hub.Retrieval.Pools.Quotas.{count, Ordered, select_temperature_pools_lem}
use experience_hub.Retrieval.Ranked.{RankedCandidate, unrepeated, sort_ranked_candidates}
use experience_hub.Retrieval.Ranked.Stable.{Pairwise, count as count_if}
use experience_hub.Retrieval.Ranked.Order.{ranks_before, sort_ranked_candidates_lem}
use experience_hub.Retrieval.Window.{window_minimum, retain_relevance_window}
use experience_hub.Retrieval.Window.Retained.{retain_relevance_window_lem}
use experience_hub.Retrieval.FinalScore.{Components, components_valid, final_score}
use experience_hub.Retrieval.FinalScore.Bounds.{final_score-Monotone}
use experience_hub.Scoring.{one}
use experience_hub.Tests.Fixed.{fixed}

abbrev match_of : ℕ → Temperature → ℕ → CandidateMatch
match_of id t overlap = record { experience_id = id; temperature = t; raw_overlap = overlap }

abbrev matches : List CandidateMatch
matches =
    match_of 1 hot 200
    ∷ match_of 2 cold 900
    ∷ match_of 3 archived 950
    ∷ match_of 4 hot 0
    ∷ match_of 5 hot 200
    ∷ []

select_temperature_pools_lem_example :
    (selected : List CandidateMatch) × (select_temperature_pools matches focused 3 ≡ ok selected)
    × ((t : Temperature)
        → count t selected ≡ min (temperature_pool_quota focused t 3) (count t (eligible matches)))
    × All (λ c. is_candidate c ≡ true) selected
    × Ordered selected
unfolding distinct_ids
select_temperature_pools_lem_example =
    select_temperature_pools_lem focused 3 matches (omega arith) (omega arith) refl

abbrev weaker : Components
weaker = record {
  ranking_relevance = 400;
  activation = 300;
  confidence = 500;
  importance = 600;
  source_trust = 1000;
}

abbrev stronger : Components
stronger = record weaker { ranking_relevance = 700; activation = 450 }

final_score-Monotone_example :
    (s s' : ℕ) × (final_score fixed weaker ≡ ok s)
    × (final_score fixed stronger ≡ ok s')
    × (s ≤ one fixed)
    × (s ≤ s')
unfolding components_valid
final_score-Monotone_example = final_score-Monotone fixed weaker stronger refl refl (record {
  relevance = omega arith;
  activation = omega arith;
  confidence = omega arith;
  importance = omega arith;
  trust = omega arith;
})

abbrev ranked : ℕ → ℕ → RankedCandidate
ranked id score = record {
  experience_id = id;
  temperature = hot;
  current_version_created_at = 100;
  score = score;
  ranking_relevance = 500;
  lexical_or_trigram_relevance = 500;
  mechanism_relevance = 200;
  word_tag_coverage = 500;
  trigram_coverage = 300;
  activation = 400;
  confidence = 600;
  importance = 700;
  source_trust = 1000;
}

abbrev results : List RankedCandidate
results = ranked 3 500 ∷ ranked 1 500 ∷ ranked 2 800 ∷ []

sort_ranked_candidates_lem_example :
    (ordered : List RankedCandidate) × (sort_ranked_candidates results ≡ ok ordered)
    × Pairwise (λ a b. ranks_before a b ≡ true) ordered
    × ((p : RankedCandidate → Bool) → count_if p ordered ≡ count_if p results)
unfolding unrepeated
sort_ranked_candidates_lem_example = sort_ranked_candidates_lem results refl

retain_relevance_window_lem_example :
    (ordered retained : List RankedCandidate) × (sort_ranked_candidates results ≡ ok ordered)
    × (retain_relevance_window fixed results 2 ≡ ok retained)
    × (length retained ≤ 2)
    × Pairwise (λ a b. ranks_before a b ≡ true) retained
    × All (λ c. window_minimum fixed ordered ≤ c.ranking_relevance) retained
    × ((length results ≡ 0) ⊎ (0 < length retained))
unfolding unrepeated
retain_relevance_window_lem_example =
    retain_relevance_window_lem fixed results 2 (omega arith) (omega arith) refl
