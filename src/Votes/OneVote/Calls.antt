-- ===== src/Votes/OneVote/Calls.antt =====
-- One ballot for a credential and one final tally for a vote, whatever calls are made and whatever
-- other processes do meanwhile (server/app/services/vote_ballots.py and vote_settlement.py).
use crypto_campus.Prelude.{ℕ, suc, List, [], ◌∷◌}
use crypto_campus.Crypto.{CryptoEngine, Runtime}
use crypto_campus.Action.{modify}
use crypto_campus.Action.Keeps.{Keeps}
use crypto_campus.Votes.Rows.{VoteTables, VoteError, VoteTools}
use crypto_campus.Votes.Ballots.{BallotRequest}
use crypto_campus.Votes.Submission.{BallotFresh, submit}
use crypto_campus.Votes.Settlement.{settle, settle_due}
use crypto_campus.Votes.OneVote.{IsTallied}
use crypto_campus.Votes.OneVote.Ballot.{Keeps-submit}
use crypto_campus.Votes.OneVote.Tally.{Keeps-settle, Keeps-settle_due}

-- A call, with the keys of the rows that its rounds make.
pub data VoteCall : Type 0 where
  submitting : BallotRequest → (ℕ → BallotFresh) → VoteCall
  settling : ℕ → ℕ → (ℕ → ℕ) → VoteCall
  scanning : ℕ → ℕ → (ℕ → ℕ → ℕ) → VoteCall

module _ (e : CryptoEngine) (rt : Runtime) (tools : VoteTools) where
  -- `others k i` is what other processes do in round `i` of the call, for vote `k` in a scan.
  unfoldable pub after_call : VoteCall → (ℕ → ℕ → VoteTables → VoteTables) → VoteTables → VoteTables
  unfolding submit settle settle_due
  after_call (submitting r f) others s = (submit e rt tools r f (others r.vote_id) s).1
  after_call (settling k now f) others s = (settle e rt tools k now f (others k) s).1
  after_call (scanning limit now f) others s = (settle_due e rt tools limit now f others s).1

  unfoldable pub after_calls :
      List VoteCall → (ℕ → ℕ → ℕ → VoteTables → VoteTables) → VoteTables → VoteTables
  unfolding after_call
  after_calls [] others s = s
  after_calls (c ∷ cs) others s = after_calls cs (λ n. others (suc n)) (after_call c (others 0) s)

  after_call-IsTallied :
      (c : VoteCall) (others : ℕ → ℕ → VoteTables → VoteTables) (s : VoteTables)
      → ((k i : ℕ) → Keeps IsTallied (modify {E = VoteError} (others k i)))
      → IsTallied s
      → IsTallied (after_call c others s)
  unfolding after_call
  after_call-IsTallied (submitting r f) others s kept h =
      (Keeps-submit e rt tools r f (others r.vote_id) (kept r.vote_id)).at s h
  after_call-IsTallied (settling k now f) others s kept h =
      (Keeps-settle e rt tools k now f (others k) (kept k)).at s h
  after_call-IsTallied (scanning limit now f) others s kept h =
      (Keeps-settle_due e rt tools limit now f others kept).at s h

  -- Any sequence of calls of `submit`, `settle` and `settle_due`, among commits of other processes that
  -- keep it: no serial number has two ballots, each that has a ballot is consumed, and no vote has two
  -- final snapshots.
  pub after_calls-IsTallied :
      (cs : List VoteCall) (others : ℕ → ℕ → ℕ → VoteTables → VoteTables) (s : VoteTables)
      → ((n k i : ℕ) (t : VoteTables) → IsTallied t → IsTallied (others n k i t))
      → IsTallied s
      → IsTallied (after_calls cs others s)
  unfolding after_calls
  after_calls-IsTallied [] others s kept h = h
  after_calls-IsTallied (c ∷ cs) others s kept h =
      after_calls-IsTallied cs (λ n. others (suc n)) (after_call c (others 0) s) (λ n. kept (suc n))
        (after_call-IsTallied c (others 0) s (λ k i. record { at = kept 0 k i }) h)
