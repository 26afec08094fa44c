-- ===== src/Inspiration/Dedup/Similarity.antt =====
-- mechanism_similarity of src/experience_hub/inspiration/hashing.py, on normalized texts, and its
-- comparison with NEAR_DUPLICATE_THRESHOLD. The quotient of two lengths of a few thousand at most is
-- at least 0.82 as a float exactly if it is as a fraction.
use experience_hub.Prelude.{
  ℕ, ◌+◌, ◌-◌, ◌*◌, Bool, true, false, ◌&&◌, List, [], ◌∷◌, ◌++◌, leb, ◌==◌, if◌then◌else◌, any,
  length, tally,
}
use experience_hub.Inspiration.Snapshot.Size.{Text}

pub record Trigram : Type 0 where
  pub first : ℕ
  pub second : ℕ
  pub third : ℕ

abbrev pub trigram_eq : Trigram → Trigram → Bool
trigram_eq a b = a.first == b.first && a.second == b.second && a.third == b.third

-- The windows of three characters, each once.
unfoldable pub trigrams_of : Text → List Trigram
trigrams_of [] = []
trigrams_of (a ∷ []) = []
trigrams_of (a ∷ b ∷ []) = []
trigrams_of (a ∷ b ∷ c ∷ rest) =
    let t : Trigram = record { first = a; second = b; third = c } in
    let others : List Trigram = trigrams_of (b ∷ c ∷ rest) in
    if any (trigram_eq t) others then others else t ∷ others

unfoldable pub padded_character_trigrams : Text → List Trigram
unfolding trigrams_of
padded_character_trigrams [] = []
padded_character_trigrams (c ∷ cs) = trigrams_of (32 ∷ 32 ∷ c ∷ cs ++ 32 ∷ 32 ∷ [])

-- The size of the intersection.
unfoldable pub common : List Trigram → List Trigram → ℕ
common [] right = 0
common (t ∷ left) right = tally (any (trigram_eq t) right) (common left right)

abbrev similar : List Trigram → List Trigram → Bool
similar [] [] = true
similar [] (u ∷ right) = false
similar (t ∷ left) [] = false
similar (t ∷ left) (u ∷ right) =
    let shared : ℕ = common (t ∷ left) (u ∷ right) in
    leb (82 * (length (t ∷ left) + length (u ∷ right) - shared)) (100 * shared)

-- mechanism_similarity(left, right) >= NEAR_DUPLICATE_THRESHOLD
unfoldable pub near_duplicate : Text → Text → Bool
unfolding padded_character_trigrams common
near_duplicate left right =
    similar (padded_character_trigrams left) (padded_character_trigrams right)
