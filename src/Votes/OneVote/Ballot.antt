-- ===== src/Votes/OneVote/Ballot.antt =====
-- The calls that cast a ballot keep one ballot for a credential: `submit` of
-- server/app/services/vote_ballots.py.
use crypto_campus.Prelude.{
  ℕ, zero, suc, refl, Bool, not, none, some, List, Bytes, Text, if◌then◌else◌, select_first,
  is_some,
}
use crypto_campus.Crypto.{CryptoEngine, Runtime}
use crypto_campus.Action.{Result, ok, err, pure, modify, ◌>>=◌, ◌>>◌, transaction_by, undo}
use crypto_campus.Action.Keeps.{
  Keeps, keeping, Keeps-bind, Keeps-pure, Keeps-read, Keeps-elim, Keeps-transaction, of_both,
  of_found,
}
use crypto_campus.Votes.Rows.{
  VoteTables, VoteError, VoteTools, VoteTallyMaterial, credential_consumed,
}
use crypto_campus.Votes.Ballots.{
  BallotRequest, VerifiedBallot, has_sn, publish, verify_vote_ballot, check_vote, check_signature,
}
use crypto_campus.Votes.Submission.{
  BallotFresh, new_ballot, write_ballot, replay, recheck, try_ballot, try_rounds, submit,
  is_not_unique,
}
use crypto_campus.Votes.Encoding.{sign_vote_result}
use crypto_campus.Votes.OneVote.{IsTallied, Keeps-add_snapshot, Keeps-add_log, Keeps-add_ballot}

Keeps-check_vote : (r : BallotRequest) → Keeps IsTallied (check_vote r)
unfolding check_vote
Keeps-check_vote r = search keeping depth 20

module _ (e : CryptoEngine) (rt : Runtime) (tools : VoteTools) where
  signed :
      (m : VoteTallyMaterial) (k : ℕ) (counts : List (ℕ × ℕ)) (n now : ℕ)
      → Keeps IsTallied (λ s. (sign_vote_result e rt tools m k counts n now, s))
  signed m k counts n now = Keeps-read (λ s. sign_vote_result e rt tools m k counts n now)

  checked :
      (r : BallotRequest) (signature : Bytes)
      → Keeps IsTallied (λ s. (check_signature e rt tools r signature, s))
  checked r signature = Keeps-read (λ s. check_signature e rt tools r signature)

  pub Keeps-publish :
      (vote_id : ℕ) (counts : List (ℕ × ℕ)) (version : ℕ) (is_final : Bool) (id now : ℕ)
      (action : Text)
      → Keeps IsTallied (publish e rt tools vote_id counts version is_final id now action)
  unfolding publish
  Keeps-publish vote_id counts version is_final id now action =
      search (keeping, signed, Keeps-add_snapshot, Keeps-add_log) depth 20

  Keeps-write_ballot :
      (r : BallotRequest) (v : VerifiedBallot) (k h : Bytes) (f : BallotFresh)
      → Keeps IsTallied (write_ballot e rt tools r v k h f)
  unfolding write_ballot new_ballot
  Keeps-write_ballot r v k h f = search (keeping, Keeps-publish, Keeps-add_ballot, refl) depth 20

  Keeps-verify_vote_ballot : (r : BallotRequest) → Keeps IsTallied (verify_vote_ballot e rt tools r)
  unfolding verify_vote_ballot
  Keeps-verify_vote_ballot r = search (keeping, checked, Keeps-check_vote) depth 20

  Keeps-recheck :
      (r : BallotRequest) (v : VerifiedBallot) → Keeps IsTallied (recheck e rt tools r v)
  unfolding recheck
  Keeps-recheck r v = search (keeping, Keeps-check_vote) depth 20

  module _ (r : BallotRequest) (v : VerifiedBallot) (k h : Bytes) where
    checked_and_written :
        (f : BallotFresh) (others : VoteTables → VoteTables)
        → Keeps IsTallied (modify {E = VoteError} others)
        → Keeps IsTallied (do
          recheck e rt tools r v
          modify others
          transaction_by undo (write_ballot e rt tools r v k h f)
          pure tt)
    checked_and_written f others kept =
        Keeps-bind (recheck e rt tools r v) _ (Keeps-recheck r v) λ u.
          Keeps-bind (modify others) _ kept λ u.
            Keeps-bind (transaction_by undo (write_ballot e rt tools r v k h f)) _
              (Keeps-transaction _ (Keeps-write_ballot r v k h f)) λ u. Keeps-pure tt

    Keeps-try_ballot :
        (f : BallotFresh) (others : VoteTables → VoteTables)
        → Keeps IsTallied (modify {E = VoteError} others)
        → Keeps IsTallied (try_ballot e rt tools r v k h f others)
    unfolding try_ballot
    Keeps-try_ballot f others kept =
        Keeps-elim (replay e rt tools k h) _ (λ answer s. (answer, s))
          (checked_and_written f others kept) (λ answer. Keeps-read (λ s. answer))

    -- The end of a round.
    after_round :
        (answer : Result VoteError (Unit {0})) (s : VoteTables)
        (again : Result VoteError (Unit {0}) × VoteTables)
        → IsTallied s
        → IsTallied again.1
        → IsTallied
            (elim answer as (λ _. Result VoteError (Unit {0}) × VoteTables) [
              | ok done ↦ (ok done, s)
              | err x ↦
                  if not (is_not_unique e rt tools x)
                  then (err x, s)
                  else elim (replay e rt tools k h s)
                      as (λ _. Result VoteError (Unit {0}) × VoteTables) [
                        | some known ↦ (known, s)
                        | none ↦
                            if is_some (select_first (has_sn v.sn_bytes) s.consumed)
                            then (err credential_consumed, s)
                            else again
                      ]
            ]).1
    after_round (ok done) s again now later = now
    after_round (err x) s again now later =
        let Ends : Result VoteError (Unit {0}) × VoteTables → Type 0 = λ out. IsTallied out.1 in
        of_both Ends (not (is_not_unique e rt tools x)) (err x, s) _ now
          (of_found Ends (replay e rt tools k h s) _ (λ known. (known, s))
            (of_both Ends (is_some (select_first (has_sn v.sn_bytes) s.consumed))
              (err credential_consumed, s) again now later)
            (λ known. now))

    Keeps-try_rounds :
        (f : ℕ → BallotFresh) (others : ℕ → VoteTables → VoteTables)
        → ((i : ℕ) → Keeps IsTallied (modify {E = VoteError} (others i)))
        → (n i : ℕ) → Keeps IsTallied (try_rounds e rt tools r v k h f others n i)
    unfolding try_rounds
    Keeps-try_rounds f others kept zero i = record { at = λ s now. now }
    Keeps-try_rounds f others kept (suc n) i = record {
      at = λ s now.
          let out : Result VoteError (Unit {0}) × VoteTables =
            try_ballot e rt tools r v k h (f i) (others i) s in
          let held : IsTallied out.1 = (Keeps-try_ballot (f i) (others i) (kept i)).at s now in
          after_round out.0 out.1 (try_rounds e rt tools r v k h f others n (suc i) out.1) held
            ((Keeps-try_rounds f others kept n (suc i)).at out.1 held);
    }

  verified_and_tried :
      (r : BallotRequest) (k h : Bytes) (f : ℕ → BallotFresh) (others : ℕ → VoteTables → VoteTables)
      → ((i : ℕ) → Keeps IsTallied (modify {E = VoteError} (others i)))
      → Keeps IsTallied
          (do v ← verify_vote_ballot e rt tools r; try_rounds e rt tools r v k h f others 3 0)
  verified_and_tried r k h f others kept =
      search (keeping, kept, Keeps-verify_vote_ballot, Keeps-try_rounds) depth 20

  replayed_or_tried :
      (r : BallotRequest) (k h : Bytes) (f : ℕ → BallotFresh) (others : ℕ → VoteTables → VoteTables)
      → ((i : ℕ) → Keeps IsTallied (modify {E = VoteError} (others i)))
      → Keeps IsTallied (λ s.
        elim (replay e rt tools k h s) as (λ _. Result VoteError (Unit {0}) × VoteTables) [
          | some answer ↦ (answer, s)
          | none ↦
              (do v ← verify_vote_ballot e rt tools r; try_rounds e rt tools r v k h f others 3 0) s
        ])
  replayed_or_tried r k h f others kept =
      Keeps-elim (replay e rt tools k h) _ (λ answer s. (answer, s))
        (verified_and_tried r k h f others kept) (λ answer. Keeps-read (λ s. answer))

  pub Keeps-submit :
      (r : BallotRequest) (f : ℕ → BallotFresh) (others : ℕ → VoteTables → VoteTables)
      → ((i : ℕ) → Keeps IsTallied (modify {E = VoteError} (others i)))
      → Keeps IsTallied (submit e rt tools r f others)
  unfolding submit
  Keeps-submit r f others kept = search (keeping, kept, replayed_or_tried) depth 20
