-- ===== src/Inspiration/Snapshot/Excerpt.antt =====
-- The binary search for the largest fitting excerpt.
use experience_hub.Prelude.{
  ℕ, zero, suc, ◌+◌, ◌-◌, ◌/◌, ◌≤◌, ◌<◌, ◌≡◌, refl, Bool, true, false, List, [], ◌∷◌, ◌++◌, map,
  arith, length, leb, ltb, Bool-cases, inl, inr,
}
use mathlib.Core.List.{map-append}
use experience_hub.Inspiration.Snapshot.Size.{
  Text, SnapshotItem, sum, character_size, string_size, joined_size, item_size, snapshot_size,
}
use experience_hub.Inspiration.Snapshot.{
  prefix, fits, with_excerpt, fits_cut, largest_cut, largest_fitting_excerpt,
}

-- The largest number from `low` to `high` that passes a test.
pub record IsLargest (test : ℕ → Bool) (low high r : ℕ) : Type 0 where
  pub least : low ≤ r
  pub most : r ≤ high
  pub passes : test r ≡ true
  pub fails : (k : ℕ) → r < k → k ≤ high → test k ≡ false

-- What passes at a number passes below it.
abbrev pub IsDownward : (ℕ → Bool) → Type 0
IsDownward test = (k m : ℕ) → k ≤ m → test m ≡ true → test k ≡ true

module _ (test : ℕ → Bool) (down : IsDownward test) where
  fails_above : (k m : ℕ) → m ≤ k → test m ≡ false → test k ≡ false
  fails_above k m le f = elim (Bool-cases (test k)) [
    | inl t ↦ let no = down m k le t in cc
    | inr g ↦ g
  ]

  pub largest_cut-IsLargest :
      (fuel low high : ℕ)
      → low ≤ high
      → high ≤ low + fuel
      → test low ≡ true
      → IsLargest test low high (largest_cut fuel test low high)
  unfolding largest_cut
  largest_cut-IsLargest zero low high le enough t = record {
    least = omega arith;
    most = le;
    passes = t;
    fails = λ k l m. absurd (omega arith);
  }
  largest_cut-IsLargest (suc fuel) low high le enough t = elim (Bool-cases (ltb low high)) [
    | inr stop ↦
        rw (largest_cut, stop)
          (record {
            least = omega arith;
            most = le;
            passes = t;
            fails = λ k l m. absurd (ground arith);
          })
    | inl go ↦
        let middle : ℕ = (low + high + 1) / 2 in
        let less : low < high = ground arith in
        elim (Bool-cases (test middle)) [
          | inl up ↦
              let r = largest_cut-IsLargest fuel middle high (omega arith) (omega arith) up in
              rw (largest_cut, go, up)
                (record {
                  least = omega (arith, r.least);
                  most = r.most;
                  passes = r.passes;
                  fails = r.fails;
                })
          | inr cut ↦
              let r = largest_cut-IsLargest fuel low (middle - 1) (omega arith) (omega arith) t in
              rw (largest_cut, go, cut)
                (record {
                  least = r.least;
                  most = omega (arith, r.most);
                  passes = r.passes;
                  fails = λ k l m. elim (Bool-cases (leb middle k)) [
                    | inl above ↦ fails_above k middle (ground arith) cut
                    | inr below ↦ r.fails k l (ground arith)
                  ];
                })
        ]
  ]

-- A longer cut takes no fewer bytes.
sum-prefix :
    (k m : ℕ) (text : Text)
    → k ≤ m
    → sum (map character_size (prefix k text)) ≤ sum (map character_size (prefix m text))
unfolding sum prefix
sum-prefix zero m text le = omega arith
sum-prefix (suc k) zero text le = absurd (omega arith)
sum-prefix (suc k) (suc m) [] le = omega arith
sum-prefix (suc k) (suc m) (c ∷ text) le = omega (arith, sum-prefix k m text (omega arith))

item_size-prefix :
    (item : SnapshotItem) (k m : ℕ)
    → k ≤ m
    → item_size (with_excerpt item (prefix k item.excerpt))
      ≤ item_size (with_excerpt item (prefix m item.excerpt))
unfolding item_size string_size joined_size
item_size-prefix item k m le = omega (arith, sum-prefix k m item.excerpt le)

joined_size-last :
    (sizes : List ℕ) (a b : ℕ)
    → a ≤ b
    → joined_size (sizes ++ a ∷ []) ≤ joined_size (sizes ++ b ∷ [])
unfolding joined_size
joined_size-last [] a b le = le
joined_size-last (n ∷ []) a b le = omega arith
joined_size-last (n ∷ m ∷ rest) a b le = omega (arith, joined_size-last (m ∷ rest) a b le)

snapshot_size-last :
    (existing : List SnapshotItem) (a b : SnapshotItem)
    → item_size a ≤ item_size b
    → snapshot_size (existing ++ a ∷ []) ≤ snapshot_size (existing ++ b ∷ [])
unfolding snapshot_size joined_size
snapshot_size-last existing a b le =
    rw (map-append item_size existing (a ∷ []), map-append item_size existing (b ∷ []))
      (omega (arith, joined_size-last (map item_size existing) (item_size a) (item_size b) le))

fits_cut-IsDownward :
    (existing : List SnapshotItem) (item : SnapshotItem) → IsDownward (fits_cut existing item)
unfolding fits_cut fits
fits_cut-IsDownward existing item k m le t = ground (
  arith,
  snapshot_size-last existing (with_excerpt item (prefix k item.excerpt))
      (with_excerpt item (prefix m item.excerpt)) (item_size-prefix item k m le),
)

IsLargest-unique :
    (test : ℕ → Bool) (low high r s : ℕ)
    → IsLargest test low high r
    → IsLargest test low high s
    → r ≡ s
IsLargest-unique test low high r s a b = elim (Bool-cases (ltb r s)) [
  | inl less ↦ let no = a.fails s (ground arith) b.most in absurd (ground (arith, b.passes, no))
  | inr not_less ↦ elim (Bool-cases (ltb s r)) [
    | inl more ↦ let no = b.fails r (ground arith) a.most in absurd (ground (arith, a.passes, no))
    | inr not_more ↦ ground arith
  ]
]

-- If the existing items fit with the item's metadata, then the search returns the longest prefix of
-- the excerpt with which they fit, however many more turns the loop is given.
pub largest_fitting_excerpt-IsLargest :
    (existing : List SnapshotItem) (item : SnapshotItem) (extra : ℕ)
    → fits (existing ++ with_excerpt item [] ∷ []) ≡ true
    → (r : ℕ) × (largest_fitting_excerpt existing item ≡ prefix r item.excerpt)
      × IsLargest (fits_cut existing item) 0 (length item.excerpt) r
      × (largest_cut (length item.excerpt + extra) (fits_cut existing item) 0 (length item.excerpt)
          ≡ r)
unfolding largest_fitting_excerpt fits_cut prefix
largest_fitting_excerpt-IsLargest existing item extra t =
    let n : ℕ = length item.excerpt in
    let test : ℕ → Bool = fits_cut existing item in
    let down = fits_cut-IsDownward existing item in
    let a = largest_cut-IsLargest test down n 0 n (omega arith) (omega arith) t in
    let b = largest_cut-IsLargest test down (n + extra) 0 n (omega arith) (omega arith) t in
    (largest_cut n test 0 n, refl, a, IsLargest-unique test 0 n _ _ b a)
