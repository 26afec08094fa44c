-- ===== src/Tests/Samples.antt =====
-- The inputs that the examples share; a thousand units are one.
use experience_hub.Lifecycle.Evaluate.Laws.{IsInRange}
use experience_hub.Tests.Fixed.{fixed}
use experience_hub.Prelude.{ℕ, none, some, false, arith}
use experience_hub.Scoring.{LifecycleConfig, ActivationInputs}
use experience_hub.Experiences.State.{State, Temperature, hot, cold}
use experience_hub.Lifecycle.Plan.{LifecycleRecord}

-- The defaults of LifecycleConfig.
abbrev pub config : LifecycleConfig
config = record {
  recency_half_life_hours = 168000;
  frequency_half_life_hours = 336000;
  warm_to_hot_threshold = 750;
  hot_to_warm_threshold = 620;
  warm_to_cold_threshold = 300;
  demotion_cycles = 2;
  archive_after_days = 90000;
  archive_importance_threshold = 750;
  archive_confidence_threshold = 250;
  archive_strength_threshold = 100;
  minimum_cycle_interval_seconds = 900000;
  worker_interval_seconds = 900000;
  lease_duration_seconds = 300000;
}

abbrev pub day : ℕ
day = 86400000000

abbrev pub inputs : ActivationInputs
inputs = record {
  importance = 500;
  confidence = 400;
  access_count = 3;
  access_strength = 2500;
  strength_updated_at = 1000;
  last_accessed_at = some 1000;
  created_at = 0;
}

abbrev pub state_at : Temperature → ℕ → State
state_at t confidence = record {
  experience_id = 7;
  owner_agent_id = 1;
  current_version_id = 70;
  current_content_hash = 99;
  temperature = t;
  importance = 100;
  confidence = confidence;
  activation_score = 500;
  source_trust = 1000;
  access_count = 1;
  access_strength = 50;
  strength_updated_at = 1000;
  last_accessed_at = none;
  last_transition_at = 1000;
  last_lifecycle_evaluated_at = none;
  consecutive_below_threshold = 1;
  pinned = false;
}

abbrev pub hot_state : State
hot_state = state_at hot 200

abbrev pub cold_state : State
cold_state = state_at cold 200

abbrev pub recorded : LifecycleRecord
recorded = record {
  experience_id = 7;
  owner_agent_id = 1;
  created_at = 1000;
  state = cold_state;
  latest_causal_at = 1000;
}

pub config-IsInRange : IsInRange fixed config
config-IsInRange = (omega arith, omega arith)
