-- ===== src/Votes/Submission.antt =====
-- The call that casts a ballot: `submit` of server/app/services/vote_ballots.py.
pub mod Again
use crypto_campus.Prelude.{
  ℕ, zero, suc, ◌+◌, Bool, true, false, not, Option, none, some, List, [], ◌∷◌, ◌++◌, Bytes, Text,
  length, bytes_eq, between, if◌then◌else◌, select_first, is_some,
}
use crypto_campus.Text.{codes}
use crypto_campus.Crypto.{CryptoEngine, Runtime}
use crypto_campus.Action.{
  Result, ok, err, Action, pure, raise_if, gets, or_raise, modify, ◌>>=◌, ◌>>◌, transaction_by,
  undo,
}
use crypto_campus.Codes.{ascii}
use crypto_campus.Votes.Rows.{
  AnonymousBallot, BallotIdempotency, VoteResultSnapshot, VoteTables, VoteError, VoteAction,
  VoteTools, invalid_idempotency_key, invalid_payload, idempotency_conflict, credential_consumed,
  conflict, not_unique,
}
use crypto_campus.Votes.Ballots.{
  BallotRequest, VerifiedBallot, vote_ballot, has_sn, has_key, check_vote, ordered_counts, total_of,
  add_ballot, publish, verify_vote_ballot,
}

-- The keys of the new rows of one attempt.
pub record BallotFresh : Type 0 where
  pub ballot_id : ℕ
  pub idempotency_id : ℕ
  pub snapshot_id : ℕ

module _ (e : CryptoEngine) (rt : Runtime) (tools : VoteTools) where
  -- `compute_ballot_request_hash`; `none` is any exception.
  unfoldable pub compute_ballot_request_hash : BallotRequest → Option Bytes
  compute_ballot_request_hash r = elim (tools.b64decode r.signature) [
    | none ↦ none
    | some signature ↦ elim (tools.fromhex (rt.lower r.sn)) [
      | none ↦ none
      | some sn ↦ elim (ascii r.service) [
        | none ↦ none
        | some service ↦ elim (ascii r.period) [
          | none ↦ none
          | some period ↦ some (
              e.sm3_digest (
                codes "CryptoCampus-Ballot-Idemp-v1"
                ++ (0
                    ∷ (tools.id_bytes r.vote_id
                        ++ (tools.id_bytes r.option_id
                            ++ (sn ++ (service ++ (period ++ rt.base64 signature))))))))
        ]
      ]
    ]
  ]

  -- What a row with the idempotency key says: the answer from before, or a conflict.
  unfoldable pub replay : Bytes → Bytes → VoteTables → Option (Result VoteError (Unit {0}))
  replay key_hash request_hash s = elim (select_first (has_key key_hash) s.idempotencies) [
    | none ↦ none
    | some i ↦ some (
        if e.constant_time_equal i.request_hash request_hash
        then ok tt
        else err idempotency_conflict)
  ]

  unfoldable pub new_ballot : BallotRequest → VerifiedBallot → BallotFresh → AnonymousBallot
  new_ballot r v f = record {
    id = f.ballot_id;
    vote_id = r.vote_id;
    option_id = r.option_id;
    credential_sn = v.sn_bytes;
    credential_service = vote_ballot;
    credential_period = r.period;
    credential_signature = v.signature_bytes;
    created_at = r.now;
  }

  -- Steps 5.4 to 5.10.
  unfoldable pub write_ballot :
      BallotRequest → VerifiedBallot → Bytes → Bytes → BallotFresh → VoteAction VoteResultSnapshot
  unfolding add_ballot publish ordered_counts total_of new_ballot
  write_ballot r v key_hash request_hash f = do
    add_ballot (record { sn = v.sn_bytes; service = vote_ballot; consumed_at = r.now })
        (new_ballot r v f)
        (record {
          id = f.idempotency_id;
          key_hash = key_hash;
          request_hash = request_hash;
          ballot_id = f.ballot_id;
          created_at = r.now;
        })
    counts ← gets (ordered_counts (λ b. true) r.vote_id)
    publish e rt tools r.vote_id counts (total_of counts) false f.snapshot_id r.now
        (codes "vote.result.sign")

  -- Steps 5.2 and 5.3, under the lock.
  unfoldable pub recheck : BallotRequest → VerifiedBallot → VoteAction (Unit {0})
  unfolding check_vote
  recheck r v = do
    check_vote r
    λ s. raise_if (is_some (select_first (has_sn v.sn_bytes) s.consumed)) credential_consumed s

  -- One round of the loop; `others` is what other processes commit between the checks and the writes.
  unfoldable pub try_ballot :
      BallotRequest
      → VerifiedBallot
      → Bytes
      → Bytes
      → BallotFresh
      → (VoteTables → VoteTables)
      → VoteAction (Unit {0})
  unfolding replay recheck write_ballot transaction_by
  try_ballot r v key_hash request_hash f others s = elim (replay key_hash request_hash s) [
    | some answer ↦ (answer, s)
    | none ↦
        (do
          recheck r v
          modify others
          transaction_by undo (write_ballot r v key_hash request_hash f)
          pure tt)
          s
  ]

  abbrev pub is_not_unique : VoteError → Bool
  is_not_unique not_unique = true
  is_not_unique _ = false

  -- The loop of at most `n` rounds; `i` is the number of the round.
  unfoldable pub try_rounds :
      BallotRequest
      → VerifiedBallot
      → Bytes
      → Bytes
      → (ℕ → BallotFresh)
      → (ℕ → VoteTables → VoteTables)
      → ℕ
      → ℕ
      → VoteAction (Unit {0})
  unfolding replay try_ballot
  try_rounds r v key_hash request_hash f others zero i s = (err conflict, s)
  try_rounds r v key_hash request_hash f others (suc n) i s =
      let (answer, s') = try_ballot r v key_hash request_hash (f i) (others i) s in
      let again = try_rounds r v key_hash request_hash f others n (suc i) s' in
      elim answer [
        | ok done ↦ (ok done, s')
        | err x ↦
            if not (is_not_unique x) then (err x, s') else elim (replay key_hash request_hash s') [
              | some known ↦ (known, s')
              | none ↦
                  if is_some (select_first (has_sn v.sn_bytes) s'.consumed)
                  then (err credential_consumed, s')
                  else again
            ]
      ]

  -- `submit`
  unfoldable pub submit :
      BallotRequest → (ℕ → BallotFresh) → (ℕ → VoteTables → VoteTables) → VoteAction (Unit {0})
  unfolding compute_ballot_request_hash replay verify_vote_ballot try_rounds
  submit r f others = do
    raise_if (not (between 16 128 (length r.idempotency_key))) invalid_idempotency_key
    request_hash ← or_raise (compute_ballot_request_hash r) invalid_payload
    let key_hash : Bytes = e.sm3_digest (rt.utf8 r.idempotency_key)
    λ s. elim (replay key_hash request_hash s) [
      | some answer ↦ (answer, s)
      | none ↦
          (do
            v ← verify_vote_ballot e rt tools r
            try_rounds r v key_hash request_hash f others 3 0)
            s
    ]
