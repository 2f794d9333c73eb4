-- ===== src/Votes/Results/Counts.antt =====
-- Which tally is the latest, and its counts read back: server/app/services/vote_result_verification.py.
use crypto_campus.Prelude.{ℕ, ◌<◌, ◌≡◌, refl, ap, true, some, List, [], ◌∷◌, ◌++◌, map, arith}
use crypto_campus.Votes.Rows.{VoteOption, VoteResultSnapshot}
use crypto_campus.Votes.Encoding.{seen_before}
use crypto_campus.Votes.Settlement.{max_version}
use crypto_campus.Votes.Results.{latest, count_of, counts_for, all_in}

-- A tally of a higher version than all others is the latest.
pub latest-append :
    (k : ℕ) (xs : List VoteResultSnapshot) (x : VoteResultSnapshot)
    → x.vote_id ≡ k
    → max_version k xs < x.version
    → latest k (xs ++ x ∷ []) ≡ some x
unfolding latest max_version
latest-append k [] x mine h = ground (arith, mine)
latest-append k (y ∷ ys) x mine h = ground (arith, mine, h, latest-append k ys x mine)

abbrev pub ids : List VoteOption → List ℕ
ids os = map (λ (o : VoteOption). o.id) os

-- The counts of the options, each a number that depends on its key only.
abbrev pub tally : (ℕ → ℕ) → List VoteOption → List (ℕ × ℕ)
tally n os = map (λ (o : VoteOption). (o.id, n o.id)) os

all_in-cons : (xs ys : List ℕ) (y : ℕ) → all_in xs ys ≡ true → all_in xs (y ∷ ys) ≡ true
unfolding all_in seen_before
all_in-cons [] ys y h = refl
all_in-cons (x ∷ xs) ys y h = ground (arith, h, all_in-cons xs ys y)

pub all_in_same : (xs : List ℕ) → all_in xs xs ≡ true
unfolding all_in seen_before
all_in_same [] = refl
all_in_same (x ∷ xs) = ground (arith, all_in-cons xs xs x (all_in_same xs))

pub keys-tally : (n : ℕ → ℕ) (os : List VoteOption) → map (λ (c : ℕ × ℕ). c.0) (tally n os) ≡ ids os
keys-tally n [] = refl
keys-tally n (o ∷ os) = ap (λ rest. o.id ∷ rest) (keys-tally n os)

count_of-tally :
    (n : ℕ → ℕ) (k : ℕ) (os : List VoteOption)
    → seen_before k (ids os) ≡ true
    → count_of k (tally n os) ≡ n k
unfolding count_of seen_before
count_of-tally n k [] h = absurd (ground (arith, h))
count_of-tally n k (o ∷ os) h = ground (arith, h, count_of-tally n k os)

counts_for_some :
    (n : ℕ → ℕ) (os all : List VoteOption)
    → all_in (ids os) (ids all) ≡ true
    → counts_for os (tally n all) ≡ tally n os
unfolding all_in
counts_for_some n [] all h = refl
counts_for_some n (o ∷ os) all h =
    ground (arith, h, count_of-tally n o.id all, counts_for_some n os all)

-- The counts that are read for the options are those that were written for them.
pub counts_for-tally : (n : ℕ → ℕ) (os : List VoteOption) → counts_for os (tally n os) ≡ tally n os
counts_for-tally n os = counts_for_some n os os (all_in_same (ids os))
