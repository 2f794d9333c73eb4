-- ===== src/Votes/OneVote.antt =====
-- One ballot for a credential, and one final tally for a vote, whatever calls are made
-- (server/app/services/vote_ballots.py and vote_settlement.py).
pub mod Ballot
pub mod Tally
pub mod Calls
use crypto_campus.Prelude.{
  ℕ, zero, suc, ◌+◌, ◌≤◌, ◌≡◌, refl, sym, ap, ◌∙◌, Bool, true, false, ◌&&◌, ◌||◌, not, Option, none,
  some, List, [], ◌∷◌, ◌++◌, Bytes, Text, arith, length, bytes_eq, bytes_eq_refl, eq_of-bytes_eq,
  ◌==◌, if◌then◌else◌, get, select_first, rowcount, is_some, Bool-cases, Option-cases, inl, inr,
  ==_iff,
}
use crypto_campus.Prelude.Keyed.{rowcount-none, rowcount-append}
use mathlib.Core.Path.{subst}
use crypto_campus.Text.{codes}
use crypto_campus.Crypto.{CryptoEngine, Runtime}
use crypto_campus.Action.{
  Result, ok, err, Action, pure, raise_if, gets, or_raise, modify, ◌>>=◌, ◌>>◌, transaction_by,
  undo,
}
use crypto_campus.Action.Laws.{value_cases, Result-cases}
use crypto_campus.Action.Keeps.{Keeps, keeping, Keeps-modify}
use crypto_campus.Votes.Rows.{
  AnonymousBallot, ConsumedSn, BallotIdempotency, VoteResultSnapshot, VoteRecord, VoteLog,
  VoteTables, VoteError, VoteAction, VoteTools,
}
use crypto_campus.Votes.Ballots.{
  BallotRequest, VerifiedBallot, has_sn, has_credential, has_key, vote_ballot, add_ballot,
  add_snapshot, add_log, publish, verify_vote_ballot, check_vote, ordered_counts, total_of,
}
use crypto_campus.Votes.Submission.{
  BallotFresh, new_ballot, write_ballot, replay, recheck, try_ballot, try_rounds, submit,
}
use crypto_campus.Votes.Settlement.{
  settle_new, try_settle, settle_rounds, settle, settle_each, settle_due, link_vote, set_vote,
  publish_vote,
}

abbrev pub is_final_of : ℕ → VoteResultSnapshot → Bool
is_final_of k x = x.vote_id == k && x.is_final

-- No credential has two ballots, none that is not spent has one, and no vote has two final tallies.
pub record IsTallied (s : VoteTables) : Type 0 where
  pub once : (sn : Bytes) → rowcount (has_credential sn) s.ballots ≤ 1
  pub spent :
      (sn : Bytes) → rowcount (has_credential sn) s.ballots ≤ rowcount (has_sn sn) s.consumed
  pub settled : (k : ℕ) → rowcount (is_final_of k) s.snapshots ≤ 1

one_more :
    (sn : Bytes) (bs : List AnonymousBallot) (b : AnonymousBallot)
    → b.credential_service ≡ vote_ballot
    → select_first (has_credential b.credential_sn) bs ≡ none
    → rowcount (has_credential sn) bs ≤ 1
    → rowcount (has_credential sn) (bs ++ b ∷ []) ≤ 1
one_more sn bs b service free h = elim (Bool-cases (has_credential sn b)) [
  | inr other ↦ ground (arith, h, other, rowcount-append (has_credential sn) bs b)
  | inl mine ↦
      let same : b.credential_sn ≡ sn = eq_of-bytes_eq b.credential_sn sn (ground (arith, mine)) in
      let empty : rowcount (has_credential sn) bs ≡ 0 =
        rowcount-none (has_credential sn) bs
          (subst (λ z. select_first (has_credential z) bs ≡ none) same free) in
      ground (arith, empty, mine, rowcount-append (has_credential sn) bs b)
]

one_spent :
    (sn : Bytes) (bs : List AnonymousBallot) (cs : List ConsumedSn) (b : AnonymousBallot)
    (c : ConsumedSn)
    → b.credential_sn ≡ c.sn
    → b.credential_service ≡ c.service
    → rowcount (has_credential sn) bs ≤ rowcount (has_sn sn) cs
    → rowcount (has_credential sn) (bs ++ b ∷ []) ≤ rowcount (has_sn sn) (cs ++ c ∷ [])
one_spent sn bs cs b c same service h = ground (
  arith,
  h,
  ap (λ z. bytes_eq z sn) same,
  ap (λ z. bytes_eq z vote_ballot) service,
  rowcount-append (has_credential sn) bs b,
  rowcount-append (has_sn sn) cs c,
)

no_second :
    (k : ℕ) (xs : List VoteResultSnapshot) (x : VoteResultSnapshot)
    → (x.is_final && is_some (select_first (is_final_of x.vote_id) xs)) ≡ false
    → rowcount (is_final_of k) xs ≤ 1
    → rowcount (is_final_of k) (xs ++ x ∷ []) ≤ 1
no_second k xs x free h = elim (Bool-cases (is_final_of k x)) [
  | inr other ↦ ground (arith, h, other, rowcount-append (is_final_of k) xs x)
  | inl mine ↦ elim (Option-cases (select_first (is_final_of k) xs)) [
    | inl missing ↦ ground (
      arith,
      mine,
      rowcount-none (is_final_of k) xs missing,
      rowcount-append (is_final_of k) xs x,
    )
    | inr (y, found) ↦
        let key : x.vote_id ≡ k = (==_iff x.vote_id k).0 (ground (arith, mine)) in
        absurd (
          ground (
            arith,
            free,
            mine,
            subst (λ z. select_first (is_final_of z) xs ≡ some y) (sym key) found,
          ))
  ]
]

Keeps-add_snapshot : (x : VoteResultSnapshot) → Keeps IsTallied (add_snapshot x)
unfolding add_snapshot
Keeps-add_snapshot x = record { at = λ s h. kept s h }
  where
    kept : (s : VoteTables) → IsTallied s → IsTallied (add_snapshot x s).1
    kept s h =
        elim (Bool-cases
          (x.is_final && is_some (select_first (is_final_of x.vote_id) s.snapshots))) [
            | inl taken ↦ subst IsTallied (ground (arith, taken)) h
            | inr free ↦ record {
              once = λ sn. ground (arith, h.once sn);
              spent = λ sn. ground (arith, h.spent sn);
              settled =
                  λ k. ground (arith, h.settled k, no_second k s.snapshots x free (h.settled k));
            }
          ]

Keeps-add_log : (l : VoteLog) → Keeps IsTallied (modify {E = VoteError} (add_log l))
unfolding add_log
Keeps-add_log l = record {
  at = λ s h. record { once = h.once; spent = h.spent; settled = h.settled };
}

Keeps-set_vote :
    (k : ℕ) (f : VoteRecord → VoteRecord) → Keeps IsTallied (modify {E = VoteError} (set_vote k f))
Keeps-set_vote k f = record {
  at = λ s h. record { once = h.once; spent = h.spent; settled = h.settled };
}

-- The rows of a ballot: its serial number is the one that is spent.
Keeps-add_ballot :
    (c : ConsumedSn) (b : AnonymousBallot) (i : BallotIdempotency)
    → b.credential_sn ≡ c.sn
    → b.credential_service ≡ vote_ballot
    → c.service ≡ vote_ballot
    → Keeps IsTallied (add_ballot c b i)
unfolding add_ballot
Keeps-add_ballot c b i same mine service = record { at = λ s h. kept s h }
  where
    kept : (s : VoteTables) → IsTallied s → IsTallied (add_ballot c b i s).1
    kept s h = elim (Option-cases (select_first (has_credential b.credential_sn) s.ballots)) [
      | inr (x, taken) ↦ subst IsTallied (ground (arith, taken)) h
      | inl free ↦ record {
        once = λ sn. ground (arith, h.once sn, one_more sn s.ballots b mine free (h.once sn));
        spent = λ sn. ground (
          arith,
          h.spent sn,
          one_spent sn s.ballots s.consumed b c same (mine ∙ sym service) (h.spent sn),
        );
        settled = λ k. ground (arith, h.settled k);
      }
    ]
