-- ===== src/Sharing/Reputation/Latest.antt =====
-- The latest verdicts by capsule, and how many of them are of a kind.
use experience_hub.Prelude.{
  ℕ, ◌+◌, ◌≤◌, ◌≡◌, Option, none, some, [], ◌∷◌, ◌==◌, arith, tally, if◌then◌else◌,
}
use experience_hub.Sharing.Reputation.{
  FeedbackVerdict, verdict_eq, LatestVerdicts, latest_of, assign, expected_verdict,
}

-- How many capsules have the verdict as their latest.
unfoldable pub count_of : FeedbackVerdict → LatestVerdicts → ℕ
count_of v [] = 0
count_of v ((k, (revision, w)) ∷ rest) = tally (verdict_eq w v) (count_of v rest)

-- One for the verdict itself.
abbrev pub share : FeedbackVerdict → Option FeedbackVerdict → ℕ
share v none = 0
share v (some w) = if verdict_eq w v then 1 else 0

pub count-assign :
    (v : FeedbackVerdict) (k revision : ℕ) (w : FeedbackVerdict) (latest : LatestVerdicts)
    → count_of v (assign k (revision, w) latest) + share v (expected_verdict (latest_of k latest))
      ≡ count_of v latest + share v (some w)
unfolding count_of assign latest_of
count-assign v k revision w [] = ground arith
count-assign v k revision w ((j, (n, u)) ∷ rest) = ground (arith, count-assign v k revision w rest)

pub latest-assign :
    (j k : ℕ) (entry : ℕ × FeedbackVerdict) (latest : LatestVerdicts)
    → latest_of j (assign k entry latest) ≡ (if k == j then some entry else latest_of j latest)
unfolding assign latest_of
latest-assign j k entry [] = ground arith
latest-assign j k entry ((i, old) ∷ rest) = ground (arith, latest-assign j k entry rest)

-- A latest verdict is counted.
pub latest_counted :
    (k : ℕ) (latest : LatestVerdicts) (v : FeedbackVerdict)
    → share v (expected_verdict (latest_of k latest)) ≤ count_of v latest
unfolding count_of latest_of
latest_counted k [] v = omega arith
latest_counted k ((j, (n, u)) ∷ rest) v = ground (arith, latest_counted k rest v)
