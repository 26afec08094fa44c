-- ===== src/Scoring/Laws.antt =====
-- The access update and the activation score keep to their ranges, and activation only decays.
use experience_hub.Prelude.{
  ℕ, ◌+◌, ◌-◌, ◌≤◌, ◌<◌, ◌≡◌, refl, min, ◌⊎◌, true, none, some, arith, ltb, if◌then◌else◌,
}
use experience_hub.Floats.{FloatOps}
use experience_hub.Scoring.{
  LifecycleConfig, ActivationInputs, ActivationResult, AccessUpdate, or_else, one,
  max_access_strength, inputs_valid, nonnegative_hours, half_life_factor, decay_strength,
  causal_anchor, record_access, weighted_score, activation_at,
}

module _ (ops : FloatOps) (state : ActivationInputs) (config : LifecycleConfig) where
  -- The state that the caller stores after an access.
  abbrev pub accessed : AccessUpdate → ActivationInputs
  accessed u = record state {
    access_count = u.access_count;
    access_strength = u.access_strength;
    strength_updated_at = u.strength_updated_at;
    last_accessed_at = some u.last_accessed_at;
  }

  new_access : ℕ → AccessUpdate
  new_access at = record {
    access_count = state.access_count + 1;
    access_strength = min (max_access_strength ops) (
        ops.add
          (ops.mul state.access_strength (
            half_life_factor ops (nonnegative_hours ops state.strength_updated_at at)
              config.frequency_half_life_hours))
          (one ops));
    strength_updated_at = at;
    last_accessed_at = at;
  }

  -- The result of recording an access of a valid state, for its strength as decayed by then: an
  -- access before its causal times is refused, and any other gives the update.
  record_access-cases :
      (at : ℕ)
      → inputs_valid ops state ≡ true
      → record_access ops state at config
        ≡ (if ltb at (causal_anchor ops state) then none else some (new_access at))
  unfolding record_access inputs_valid decay_strength new_access
  record_access-cases at h = ground arith

  -- A valid state refuses an access exactly at a time before its causal times. Any other access
  -- succeeds: the update counts one access, gives a state that is valid again, and moves its causal
  -- time to the access.
  pub record_access_lem :
      (at : ℕ)
      → inputs_valid ops state ≡ true
      → (u : AccessUpdate) × (record_access ops state at config
          ≡ (if ltb at (causal_anchor ops state) then none else some u))
        × (u.access_count ≡ state.access_count + 1)
        × (inputs_valid ops (accessed u) ≡ true)
        × ((at < causal_anchor ops state) ⊎ (causal_anchor ops (accessed u) ≡ at))
  unfolding inputs_valid causal_anchor new_access
  record_access_lem at h = (
    new_access at,
    record_access-cases at (unfold inputs_valid in h),
    refl,
    ground arith,
    ground arith,
  )

hours_mono :
    (ops : FloatOps) (s a b : ℕ) → a ≤ b → nonnegative_hours ops s a ≤ nonnegative_hours ops s b
unfolding nonnegative_hours
hours_mono ops s a b h = ground (
  arith,
  ops.div_mono (ops.ratio (a - s) 1000000) (ops.ratio (b - s) 1000000) (ops.ratio 3600 1),
  ops.ratio_mono (a - s) (b - s) 1000000,
)

factor_antitone :
    (ops : FloatOps) (a b h : ℕ) → a ≤ b → half_life_factor ops b h ≤ half_life_factor ops a h
unfolding half_life_factor
factor_antitone ops a b h le =
    ops.exp_neg_antitone _ _ (ops.div_mono _ _ h (ops.mul_mono _ _ _ _ (omega arith) le))

score_mono :
    (ops : FloatOps) (s : ActivationInputs) (f r f' r' : ℕ)
    → f ≤ f'
    → r ≤ r'
    → weighted_score ops s f r ≤ weighted_score ops s f' r'
unfolding weighted_score
score_mono ops s f r f' r' hf hr =
    ops.add_mono _ _ _ _
      (ops.add_mono _ _ _ _ (omega arith) (ops.mul_mono _ _ _ _ (omega arith) hf))
      (ops.mul_mono _ _ _ _ (omega arith) hr)

module _ (ops : FloatOps) (state : ActivationInputs) (config : LifecycleConfig) where
  -- The result at a time, for a stored strength in range.
  unfoldable pub materialized : ℕ → ActivationResult
  materialized at =
      let anchor : ℕ = or_else state.last_accessed_at state.created_at in
      let recency : ℕ =
        half_life_factor ops (nonnegative_hours ops anchor at) config.recency_half_life_hours in
      let strength : ℕ = ops.mul state.access_strength (
        half_life_factor ops (nonnegative_hours ops state.strength_updated_at at)
          config.frequency_half_life_hours) in
      let frequency : ℕ =
        min (one ops) (ops.div (ops.log1p strength) (ops.log1p (max_access_strength ops))) in
      record {
        score = min (one ops) (weighted_score ops state frequency recency);
        decayed_strength = strength;
        recency = recency;
        frequency = frequency;
      }

  pub activation_at-eq :
      (at : ℕ)
      → inputs_valid ops state ≡ true
      → activation_at ops state at config ≡ some (materialized at)
  unfolding activation_at inputs_valid decay_strength materialized
  activation_at-eq at h = ground arith

  pub materialized_bounds :
      (at : ℕ)
      → ((materialized at).score ≤ one ops)
        × ((materialized at).recency ≤ one ops)
        × ((materialized at).frequency ≤ one ops)
        × ((materialized at).decayed_strength ≤ state.access_strength)
  unfolding materialized half_life_factor
  materialized_bounds at =
      (omega arith, ops.exp_neg-le-one _, omega arith, ops.mul_shrinks _ _ (ops.exp_neg-le-one _))

  strength_decays :
      (at later : ℕ)
      → at ≤ later
      → (materialized later).decayed_strength ≤ (materialized at).decayed_strength
  unfolding materialized
  strength_decays at later le =
      ops.mul_mono _ _ _ _ (omega arith)
        (factor_antitone ops _ _ _ (hours_mono ops state.strength_updated_at at later le))

  recency_decays :
      (at later : ℕ) → at ≤ later → (materialized later).recency ≤ (materialized at).recency
  unfolding materialized
  recency_decays at later le = factor_antitone ops _ _ _ (hours_mono ops _ at later le)

  frequency_decays :
      (at later : ℕ) → at ≤ later → (materialized later).frequency ≤ (materialized at).frequency
  unfolding materialized
  frequency_decays at later le = omega (
    arith,
    ops.div_mono (ops.log1p (materialized later).decayed_strength)
        (ops.log1p (materialized at).decayed_strength) (ops.log1p (max_access_strength ops))
        (ops.log1p_mono _ _ (strength_decays at later le)),
  )

  score_decays : (at later : ℕ) → at ≤ later → (materialized later).score ≤ (materialized at).score
  unfolding materialized
  score_decays at later le = omega (
    arith,
    score_mono ops state (materialized later).frequency (materialized later).recency
        (materialized at).frequency (materialized at).recency (frequency_decays at later le)
        (recency_decays at later le),
  )

-- Activation of a valid state is defined at every time; its score, recency and frequency lie
-- between 0 and 1 and its decayed strength is at most the stored strength. Between accesses none
-- of the four grows as time passes.
pub activation_decays :
    (ops : FloatOps) (state : ActivationInputs) (config : LifecycleConfig) (at later : ℕ)
    → inputs_valid ops state ≡ true
    → at ≤ later
    → (r r' : ActivationResult) × (activation_at ops state at config ≡ some r)
      × (activation_at ops state later config ≡ some r')
      × (r.score ≤ one ops)
      × (r.recency ≤ one ops)
      × (r.frequency ≤ one ops)
      × (r.decayed_strength ≤ state.access_strength)
      × (r'.score ≤ r.score)
      × (r'.recency ≤ r.recency)
      × (r'.frequency ≤ r.frequency)
      × (r'.decayed_strength ≤ r.decayed_strength)
activation_decays ops state config at later h le =
    let (s, r, f, d) = materialized_bounds ops state config at in
    (
      materialized ops state config at,
      materialized ops state config later,
      activation_at-eq ops state config at h,
      activation_at-eq ops state config later h,
      s,
      r,
      f,
      d,
      score_decays ops state config at later le,
      recency_decays ops state config at later le,
      frequency_decays ops state config at later le,
      strength_decays ops state config at later le,
    )
