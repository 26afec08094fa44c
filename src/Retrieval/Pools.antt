-- ===== src/Retrieval/Pools.antt =====
-- temperature_pool_quota and select_temperature_pools of src/experience_hub/retrieval/ranking.py
pub mod Quotas
use experience_hub.Prelude.{
  ℕ, suc, ◌*◌, Bool, true, false, not, ◌&&◌, ◌||◌, List, [], ◌∷◌, max, ltb, leb, ◌==◌, any,
  if◌then◌else◌, Result, ok, require, value_error, ◌>>=◌, ◌>>◌,
}
use experience_hub.Experiences.State.{Temperature, hot, warm, cold, archived, temperature_eq}
use experience_hub.Retrieval.{RetrievalMode, focused, associative}

pub record CandidateMatch : Type 0 where
  pub experience_id : ℕ
  pub temperature : Temperature
  pub raw_overlap : ℕ

-- _POOL_MULTIPLIERS, which has no entry for an archived temperature.
unfoldable pub pool_multiplier : RetrievalMode → Temperature → ℕ
pool_multiplier focused hot = 4
pool_multiplier focused warm = 4
pool_multiplier focused cold = 2
pool_multiplier associative hot = 3
pool_multiplier associative warm = 3
pool_multiplier associative cold = 5
pool_multiplier _ archived = 0

-- For a valid limit.
unfoldable pub temperature_pool_quota : RetrievalMode → Temperature → ℕ → ℕ
unfolding pool_multiplier
temperature_pool_quota mode temperature limit =
    if temperature_eq temperature archived
    then 0
    else max 10 (pool_multiplier mode temperature * limit)

unfoldable pub is_candidate : CandidateMatch → Bool
is_candidate c = ltb 0 c.raw_overlap && not (temperature_eq c.temperature archived)

unfoldable pub eligible : List CandidateMatch → List CandidateMatch
unfolding is_candidate
eligible [] = []
eligible (c ∷ cs) =
    let rest : List CandidateMatch = eligible cs in if is_candidate c then c ∷ rest else rest

-- The order of the keys (-raw_overlap, experience_id.bytes).
unfoldable pub precedes : CandidateMatch → CandidateMatch → Bool
precedes a b =
    ltb b.raw_overlap a.raw_overlap
    || a.raw_overlap == b.raw_overlap && leb a.experience_id b.experience_id

unfoldable pub insert : CandidateMatch → List CandidateMatch → List CandidateMatch
unfolding precedes
insert c [] = c ∷ []
insert c (d ∷ ds) =
    let rest : List CandidateMatch = insert c ds in if precedes c d then c ∷ d ∷ ds else d ∷ rest

-- sorted(values, key=...)
unfoldable pub sort : List CandidateMatch → List CandidateMatch
unfolding insert
sort [] = []
sort (c ∷ cs) = insert c (sort cs)

-- len(ids) == len(set(ids))
unfoldable pub distinct_ids : List CandidateMatch → Bool
distinct_ids [] = true
distinct_ids (c ∷ cs) =
    not (any (λ (d : CandidateMatch). d.experience_id == c.experience_id) cs) && distinct_ids cs

-- counts[temperature] += 1
abbrev pub bump : Temperature → (Temperature → ℕ) → Temperature → ℕ
bump t counts u = if temperature_eq u t then suc (counts u) else counts u

-- The loop over the ordered candidates.
unfoldable pub take_within :
    RetrievalMode → ℕ → (Temperature → ℕ) → List CandidateMatch → List CandidateMatch
take_within mode limit counts [] = []
take_within mode limit counts (c ∷ cs) =
    elim (leb (temperature_pool_quota mode c.temperature limit) (counts c.temperature)) [
      | true ↦ take_within mode limit counts cs
      | false ↦ c ∷ take_within mode limit (bump c.temperature counts) cs
    ]

unfoldable pub select_temperature_pools :
    List CandidateMatch → RetrievalMode → ℕ → Result (List CandidateMatch)
unfolding take_within eligible sort distinct_ids
select_temperature_pools candidates mode limit = do
  require (leb 1 limit && leb limit 50) value_error
  require (distinct_ids candidates) value_error
  ok (take_within mode limit (λ t. 0) (sort (eligible candidates)))
