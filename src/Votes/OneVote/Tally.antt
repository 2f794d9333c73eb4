-- ===== src/Votes/OneVote/Tally.antt =====
-- The calls that end a vote keep one final tally for it: `settle` and `settle_due` of
-- server/app/services/vote_settlement.py.
use crypto_campus.Prelude.{
  ℕ, zero, suc, ◌+◌, true, false, ◌||◌, ◌==◌, not, none, some, List, [], ◌∷◌, if◌then◌else◌, leb,
  ltb,
}
use crypto_campus.Text.{codes}
use crypto_campus.Crypto.{CryptoEngine, Runtime}
use crypto_campus.Action.{Result, ok, err, pure, raise_if, gets, modify, ◌>>=◌, ◌>>◌}
use crypto_campus.Action.Keeps.{
  Keeps, keeping, Keeps-bind, Keeps-gets, Keeps-raise_if, Keeps-transaction, of_both, of_found,
}
use crypto_campus.Votes.Rows.{
  VoteRecord, VoteResultSnapshot, VoteTables, VoteError, VoteTools, vote_not_found, vote_not_closed,
  is_published,
}
use crypto_campus.Votes.Ballots.{vote_by_id, ordered_counts, publish}
use crypto_campus.Votes.Settlement.{
  settle_new, try_settle, settle_rounds, settle, settle_each, settle_due, due_votes, link_vote,
  set_vote, publish_vote, published_snapshot, final_snapshot, max_version, is_race, passes_over,
}
use crypto_campus.Votes.OneVote.{IsTallied, Keeps-set_vote}
use crypto_campus.Votes.OneVote.Ballot.{Keeps-publish}

link_vote-IsTallied :
    (k : ℕ) (v : VoteRecord) (x : VoteResultSnapshot) (s : VoteTables)
    → IsTallied s
    → IsTallied (link_vote k v x s)
unfolding link_vote
link_vote-IsTallied k v x s h =
    of_both IsTallied
      (not (is_published v.status)
        || not (elim v.final_snapshot_id [ none ↦ false | some i ↦ i == x.id ]))
      _ s ((Keeps-set_vote k _).at s h) h

abbrev Settled : Type 0
Settled = Result VoteError VoteResultSnapshot × VoteTables

abbrev Ends : Settled → Type 0
Ends out = IsTallied out.1

module _ (e : CryptoEngine) (rt : Runtime) (tools : VoteTools) where
  Keeps-settle_new :
      (k : ℕ) (v : VoteRecord) (now id : ℕ) (others : VoteTables → VoteTables)
      → Keeps IsTallied (modify {E = VoteError} others)
      → Keeps IsTallied (settle_new e rt tools k v now id others)
  unfolding settle_new
  Keeps-settle_new k v now id others kept =
      Keeps-bind (raise_if (ltb now v.closes_at) vote_not_closed) _ (Keeps-raise_if _ _) λ u.
        Keeps-bind (gets (ordered_counts (λ b. leb b.created_at v.closes_at) k)) _ (Keeps-gets _)
          λ counts.
            Keeps-bind (gets λ (s : VoteTables). max_version k s.snapshots + 1) _ (Keeps-gets _)
              λ version.
                Keeps-bind (modify others) _ kept λ u. Keeps-transaction _ (signed counts version)
    where
      signed :
          (counts : List (ℕ × ℕ)) (version : ℕ)
          → Keeps IsTallied (do
            x ← publish e rt tools k counts version true id now (codes "vote.settle")
            modify (set_vote k (publish_vote id now))
            pure x)
      signed counts version = search (keeping, Keeps-publish, Keeps-set_vote) depth 20

  Keeps-try_settle :
      (k now id : ℕ) (others : VoteTables → VoteTables)
      → Keeps IsTallied (modify {E = VoteError} others)
      → Keeps IsTallied (try_settle e rt tools k now id others)
  unfolding try_settle
  Keeps-try_settle k now id others kept = record {
    at = λ s h.
        of_found Ends (vote_by_id k s) (err vote_not_found, s) _ h
          λ v.
            of_found Ends (published_snapshot v s) _ (λ x. (ok x, s))
              (of_found Ends (final_snapshot k s) _ (λ x. (ok x, link_vote k v x s))
                ((Keeps-settle_new k v now id others kept).at s h)
                (λ x. link_vote-IsTallied k v x s h))
              (λ x. h);
  }

  after_round :
      (k : ℕ) (answer : Result VoteError VoteResultSnapshot) (s : VoteTables) (again : Settled)
      → IsTallied s
      → IsTallied again.1
      → IsTallied
          (elim answer as (λ _. Settled) [
            | ok x ↦ (ok x, s)
            | err y ↦
                if not (is_race e rt tools y)
                then (err y, s)
                else elim (final_snapshot k s) as (λ _. Settled) [
                  | some x ↦ (ok x, s)
                  | none ↦ again
                ]
          ]).1
  after_round k (ok x) s again now later = now
  after_round k (err y) s again now later =
      of_both Ends (not (is_race e rt tools y)) (err y, s) _ now
        (of_found Ends (final_snapshot k s) again (λ x. (ok x, s)) later (λ x. now))

  Keeps-settle_rounds :
      (k now : ℕ) (f : ℕ → ℕ) (others : ℕ → VoteTables → VoteTables)
      → ((i : ℕ) → Keeps IsTallied (modify {E = VoteError} (others i)))
      → (n i : ℕ) → Keeps IsTallied (settle_rounds e rt tools k now f others n i)
  unfolding settle_rounds
  Keeps-settle_rounds k now f others kept zero i = record { at = λ s h. h }
  Keeps-settle_rounds k now f others kept (suc n) i = record {
    at = λ s h.
        let out : Settled = try_settle e rt tools k now (f i) (others i) s in
        let held : IsTallied out.1 = (Keeps-try_settle k now (f i) (others i) (kept i)).at s h in
        after_round k out.0 out.1 (settle_rounds e rt tools k now f others n (suc i) out.1) held
          ((Keeps-settle_rounds k now f others kept n (suc i)).at out.1 held);
  }

  pub Keeps-settle :
      (k now : ℕ) (f : ℕ → ℕ) (others : ℕ → VoteTables → VoteTables)
      → ((i : ℕ) → Keeps IsTallied (modify {E = VoteError} (others i)))
      → Keeps IsTallied (settle e rt tools k now f others)
  unfolding settle
  Keeps-settle k now f others kept = Keeps-settle_rounds k now f others kept 3 0

  abbrev Scanned : Type 0
  Scanned = Result VoteError (List VoteResultSnapshot) × VoteTables

  after_vote :
      (answer : Result VoteError VoteResultSnapshot) (s : VoteTables) (rest : Scanned)
      → IsTallied s
      → IsTallied rest.1
      → IsTallied
          (elim answer as (λ _. Scanned) [
            | ok x ↦ (
              elim rest.0 as (λ _. Result VoteError (List VoteResultSnapshot)) [
                | ok xs ↦ ok (x ∷ xs)
                | err y ↦ err y
              ],
              rest.1,
            )
            | err y ↦ if passes_over e rt tools y then rest else (err y, s)
          ]).1
  after_vote (ok x) s rest now later = later
  after_vote (err y) s rest now later =
      of_both (λ (out : Scanned). IsTallied out.1) (passes_over e rt tools y) rest (err y, s) later
        now

  Keeps-settle_each :
      (vs : List VoteRecord) (now : ℕ) (f : ℕ → ℕ → ℕ) (others : ℕ → ℕ → VoteTables → VoteTables)
      → ((k i : ℕ) → Keeps IsTallied (modify {E = VoteError} (others k i)))
      → Keeps IsTallied (settle_each e rt tools vs now f others)
  unfolding settle_each
  Keeps-settle_each [] now f others kept = record { at = λ s h. h }
  Keeps-settle_each (v ∷ vs) now f others kept = record {
    at = λ s h.
        let out : Settled = settle e rt tools v.id now (f v.id) (others v.id) s in
        let held : IsTallied out.1 =
          (Keeps-settle v.id now (f v.id) (others v.id) (kept v.id)).at s h in
        after_vote out.0 out.1 (settle_each e rt tools vs now f others out.1) held
          ((Keeps-settle_each vs now f others kept).at out.1 held);
  }

  pub Keeps-settle_due :
      (limit now : ℕ) (f : ℕ → ℕ → ℕ) (others : ℕ → ℕ → VoteTables → VoteTables)
      → ((k i : ℕ) → Keeps IsTallied (modify {E = VoteError} (others k i)))
      → Keeps IsTallied (settle_due e rt tools limit now f others)
  unfolding settle_due
  Keeps-settle_due limit now f others kept = record {
    at = λ s h. (Keeps-settle_each (due_votes e rt tools limit now s) now f others kept).at s h;
  }
