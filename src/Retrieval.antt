-- ===== src/Retrieval.antt =====
-- src/experience_hub/retrieval/ranking.py: the candidate pools and the combination of the scores.
pub mod Pools
pub mod FinalScore
pub mod Ranked
pub mod Window

pub data RetrievalMode : Type 0 where
  focused associative : RetrievalMode
