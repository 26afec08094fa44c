-- ===== src/Retrieval/Pools/Quotas.antt =====
-- How many candidates of each temperature the pools take, and in what order.
use experience_hub.Prelude.{
  tally, tally-swap, ℕ, suc, ◌-◌, ◌≤◌, ◌<◌, ◌⊎◌, leb→le, ◌≡◌, refl, ap, ◌∙◌, inl, inr, Bool, true,
  false, List, [], ◌∷◌, arith, min, leb, if◌then◌else◌, All, Bool-cases, ok,
}
use experience_hub.Experiences.State.{Temperature, temperature_eq}
use experience_hub.Experiences.State.Fields.{temperature_eq→≡}
use experience_hub.Retrieval.{RetrievalMode}
use experience_hub.Retrieval.Pools.{
  CandidateMatch, temperature_pool_quota, is_candidate, eligible, precedes, insert, sort,
  distinct_ids, bump, take_within, select_temperature_pools,
}

-- How many candidates have a temperature.
unfoldable pub count : Temperature → List CandidateMatch → ℕ
count t [] = 0
count t (c ∷ cs) = tally (temperature_eq t c.temperature) (count t cs)

-- The order of decreasing overlap and then of the identifiers.
abbrev pub Ordered : List CandidateMatch → Type 0
Ordered [] = Unit
Ordered (c ∷ cs) = All (λ d. precedes c d ≡ true) cs × Ordered cs

count-insert :
    (t : Temperature) (c : CandidateMatch) (cs : List CandidateMatch)
    → count t (insert c cs) ≡ count t (c ∷ cs)
unfolding count insert
count-insert t c [] = refl
count-insert t c (d ∷ ds) = elim (Bool-cases (precedes c d)) [
  | inl y ↦ rw y refl
  | inr n ↦ rw n (
      ap (tally (temperature_eq t d.temperature)) (count-insert t c ds)
      ∙ tally-swap (temperature_eq t d.temperature) (temperature_eq t c.temperature) (count t ds))
]

count-sort : (t : Temperature) (cs : List CandidateMatch) → count t (sort cs) ≡ count t cs
unfolding sort count
count-sort t [] = refl
count-sort t (c ∷ cs) =
    count-insert t c (sort cs) ∙ ap (tally (temperature_eq t c.temperature)) (count-sort t cs)

module _ (P : CandidateMatch → Type 0) where
  All-insert :
      (c : CandidateMatch) (cs : List CandidateMatch) → P c → All P cs → All P (insert c cs)
  unfolding insert
  All-insert c [] p h = (p, tt)
  All-insert c (d ∷ ds) p h = elim (Bool-cases (precedes c d)) [
    | inl t ↦ rw t (p, h)
    | inr n ↦ rw n (h.0, All-insert c ds p h.1)
  ]

  All-sort : (cs : List CandidateMatch) → All P cs → All P (sort cs)
  unfolding sort
  All-sort [] h = tt
  All-sort (c ∷ cs) h = All-insert c (sort cs) h.0 (All-sort cs h.1)

  All-take_within :
      (mode : RetrievalMode) (limit : ℕ) (counts : Temperature → ℕ) (cs : List CandidateMatch)
      → All P cs
      → All P (take_within mode limit counts cs)
  unfolding take_within
  All-take_within mode limit counts [] h = tt
  All-take_within mode limit counts (c ∷ cs) h =
      elim (Bool-cases
        (leb (temperature_pool_quota mode c.temperature limit) (counts c.temperature))) [
          | inl t ↦ rw (t, take_within) (All-take_within mode limit counts cs h.1)
          | inr n ↦
              rw (n, take_within)
                (h.0, All-take_within mode limit (bump c.temperature counts) cs h.1)
        ]

All-precedes :
    (c d : CandidateMatch) (cs : List CandidateMatch)
    → precedes c d ≡ true
    → All (λ e. precedes d e ≡ true) cs
    → All (λ e. precedes c e ≡ true) cs
unfolding precedes
All-precedes c d [] h k = tt
All-precedes c d (e ∷ cs) h k = (ground arith, All-precedes c d cs h k.1)

insert-Ordered :
    (c : CandidateMatch) (cs : List CandidateMatch) → Ordered cs → Ordered (insert c cs)
unfolding insert
insert-Ordered c [] h = (tt, tt)
insert-Ordered c (d ∷ ds) h = elim (Bool-cases (precedes c d)) [
  | inl t ↦ rw t ((t, All-precedes c d ds t h.0), h)
  | inr n ↦ rw n (
    All-insert (λ e. precedes d e ≡ true) c ds (unfold precedes in ground arith) h.0,
    insert-Ordered c ds h.1,
  )
]

sort-Ordered : (cs : List CandidateMatch) → Ordered (sort cs)
unfolding sort
sort-Ordered [] = tt
sort-Ordered (c ∷ cs) = insert-Ordered c (sort cs) (sort-Ordered cs)

eligible-IsCandidate : (cs : List CandidateMatch) → All (λ c. is_candidate c ≡ true) (eligible cs)
unfolding eligible
eligible-IsCandidate [] = tt
eligible-IsCandidate (c ∷ cs) = elim (Bool-cases (is_candidate c)) [
  | inl t ↦ rw t (t, eligible-IsCandidate cs)
  | inr n ↦ rw n (eligible-IsCandidate cs)
]

tally-full :
    (b : Bool) (m n q k : ℕ)
    → m ≡ min (q - k) n
    → (b ≡ false) ⊎ (q ≤ k)
    → m ≡ min (q - k) (tally b n)
tally-full true m n q k h s = ground arith
tally-full false m n q k h s = h

tally-take :
    (b : Bool) (m n q k : ℕ)
    → m ≡ min (q - (if b then suc k else k)) n
    → (b ≡ false) ⊎ (k < q)
    → tally b m ≡ min (q - k) (tally b n)
tally-take true m n q k h s = ground arith
tally-take false m n q k h s = h

-- What holds of the temperature of a candidate holds of a temperature, unless they differ.
at_temperature :
    (t u : Temperature) (P : Temperature → Type 0) → P u → (temperature_eq t u ≡ false) ⊎ P t
at_temperature t u P p = elim (Bool-cases (temperature_eq t u)) [
  | inl y ↦ inr (rw (temperature_eq→≡ t u y) p)
  | inr n ↦ inl n
]

module _ (mode : RetrievalMode) (limit : ℕ) where
  take_within-Ordered :
      (counts : Temperature → ℕ) (cs : List CandidateMatch)
      → Ordered cs
      → Ordered (take_within mode limit counts cs)
  unfolding take_within
  take_within-Ordered counts [] h = tt
  take_within-Ordered counts (c ∷ cs) h =
      elim (Bool-cases
        (leb (temperature_pool_quota mode c.temperature limit) (counts c.temperature))) [
          | inl t ↦ rw (t, take_within) (take_within-Ordered counts cs h.1)
          | inr n ↦
              rw (n, take_within)
                (
                  All-take_within (λ d. precedes c d ≡ true) mode limit (bump c.temperature counts)
                      cs h.0,
                  take_within-Ordered (bump c.temperature counts) cs h.1,
                )
        ]

  abbrev quota : Temperature → ℕ
  quota t = temperature_pool_quota mode t limit

  count-take_within :
      (t : Temperature) (counts : Temperature → ℕ) (cs : List CandidateMatch)
      → count t (take_within mode limit counts cs)
        ≡ min (temperature_pool_quota mode t limit - counts t) (count t cs)
  unfolding take_within count
  count-take_within t counts [] = omega arith
  count-take_within t counts (c ∷ cs) =
      elim (Bool-cases
        (leb (temperature_pool_quota mode c.temperature limit) (counts c.temperature))) [
          | inl y ↦
              rw (y, take_within)
                (tally-full (temperature_eq t c.temperature) _ (count t cs) (quota t) (counts t)
                  (count-take_within t counts cs)
                  (at_temperature t c.temperature (λ u. quota u ≤ counts u) (leb→le _ _ y)))
          | inr n ↦
              rw (n, take_within)
                (tally-take (temperature_eq t c.temperature) _ (count t cs) (quota t) (counts t)
                  (count-take_within t (bump c.temperature counts) cs)
                  (at_temperature t c.temperature (λ u. counts u < quota u) (ground arith)))
        ]

  -- For a limit between 1 and 50 and distinct identifiers, the pools are defined. Every temperature
  -- gets as many candidates as its quota allows: the smaller of the quota and the number of its
  -- candidates that have an overlap and are not archived. Only such candidates are selected, and
  -- they stand in the order of decreasing overlap and then of the identifiers.
  pub select_temperature_pools_lem :
      (candidates : List CandidateMatch)
      → 1 ≤ limit
      → limit ≤ 50
      → distinct_ids candidates ≡ true
      → (selected : List CandidateMatch) × (select_temperature_pools candidates mode limit
          ≡ ok selected)
        × ((t : Temperature)
            → count t selected
              ≡ min (temperature_pool_quota mode t limit) (count t (eligible candidates)))
        × All (λ c. is_candidate c ≡ true) selected
        × Ordered selected
  unfolding select_temperature_pools
  select_temperature_pools_lem candidates lo hi d = (
    take_within mode limit (λ t. 0) (sort (eligible candidates)),
    ground arith,
    λ t. omega (
      arith,
      count-take_within t (λ u. 0) (sort (eligible candidates)),
      count-sort t (eligible candidates),
    ),
    All-take_within (λ c. is_candidate c ≡ true) mode limit (λ t. 0) (sort (eligible candidates))
        (All-sort (λ c. is_candidate c ≡ true) (eligible candidates)
          (eligible-IsCandidate candidates)),
    take_within-Ordered (λ t. 0) (sort (eligible candidates)) (sort-Ordered (eligible candidates)),
  )
