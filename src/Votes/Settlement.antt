-- ===== src/Votes/Settlement.antt =====
-- The end of a vote: server/app/services/vote_settlement.py.
use crypto_campus.Prelude.{
  ℕ, zero, suc, ◌+◌, Bool, true, false, ◌&&◌, ◌||◌, not, Option, none, some, List, [], ◌∷◌, take,
  ◌==◌, leb, ltb, if◌then◌else◌, get, select_first, select, order_by, update_where, is_some,
}
use crypto_campus.Text.{codes}
use crypto_campus.Crypto.{CryptoEngine, Runtime}
use crypto_campus.Action.{ok, err, pure, raise_if, gets, modify, ◌>>=◌, ◌>>◌, transaction_by, undo}
use crypto_campus.Votes.Rows.{
  VoteRecord, VoteStatus, VoteResultSnapshot, VoteTables, VoteError, VoteAction, VoteTools,
  is_published, vote_not_found, vote_not_closed, conflict, not_unique,
}
use crypto_campus.Votes.Ballots.{vote_by_id, ordered_counts, publish}

abbrev pub final_snapshot : ℕ → VoteTables → Option VoteResultSnapshot
final_snapshot k s =
    select_first (λ (x : VoteResultSnapshot). x.vote_id == k && x.is_final) s.snapshots

abbrev pub snapshot_by_id : ℕ → VoteTables → Option VoteResultSnapshot
snapshot_by_id k s = get (λ (x : VoteResultSnapshot). x.id) k s.snapshots

-- `func.max(version)`, 0 where there is none.
unfoldable pub max_version : ℕ → List VoteResultSnapshot → ℕ
max_version k [] = 0
max_version k (x ∷ xs) =
    let rest = max_version k xs in
    if x.vote_id == k then (if leb x.version rest then rest else x.version) else rest

abbrev pub set_vote : ℕ → (VoteRecord → VoteRecord) → VoteTables → VoteTables
set_vote k f s = record s { votes = update_where (λ (v : VoteRecord). v.id == k) f s.votes }

-- The vote as a final snapshot leaves it.
abbrev pub publish_vote : ℕ → ℕ → VoteRecord → VoteRecord
publish_vote id at v = record v {
  status = VoteStatus.published;
  settled_at = some at;
  final_snapshot_id = some id;
}

-- The snapshot of a vote that is published already.
abbrev pub published_snapshot : VoteRecord → VoteTables → Option VoteResultSnapshot
published_snapshot v s = elim v.final_snapshot_id [
  | none ↦ none
  | some k ↦ if is_published v.status then snapshot_by_id k s else none
]

-- A final snapshot that the vote does not name is written into it.
unfoldable pub link_vote : ℕ → VoteRecord → VoteResultSnapshot → VoteTables → VoteTables
link_vote k v x s =
    if not (is_published v.status)
      || not (elim v.final_snapshot_id [ none ↦ false | some i ↦ i == x.id ])
    then set_vote k (publish_vote x.id (elim v.settled_at [ none ↦ x.published_at | some t ↦ t ])) s
    else s

module _ (e : CryptoEngine) (rt : Runtime) (tools : VoteTools) where
  -- Steps 2 to 8; `others` is what other processes commit between the reads and the writes.
  unfoldable pub settle_new :
      ℕ → VoteRecord → ℕ → ℕ → (VoteTables → VoteTables) → VoteAction VoteResultSnapshot
  unfolding ordered_counts max_version publish transaction_by
  settle_new k v now id others = do
    raise_if (ltb now v.closes_at) vote_not_closed
    counts ← gets (ordered_counts (λ b. leb b.created_at v.closes_at) k)
    version ← gets λ s. max_version k s.snapshots + 1
    modify others
    transaction_by undo (do
      x ← publish e rt tools k counts version true id now (codes "vote.settle")
      modify (set_vote k (publish_vote id now))
      pure x)

  -- One round of the loop.
  unfoldable pub try_settle : ℕ → ℕ → ℕ → (VoteTables → VoteTables) → VoteAction VoteResultSnapshot
  unfolding settle_new link_vote
  try_settle k now id others s = elim (vote_by_id k s) [
    | none ↦ (err vote_not_found, s)
    | some v ↦ elim (published_snapshot v s) [
      | some x ↦ (ok x, s)
      | none ↦ elim (final_snapshot k s) [
        | some x ↦ (ok x, link_vote k v x s)
        | none ↦ settle_new k v now id others s
      ]
    ]
  ]

  abbrev pub is_race : VoteError → Bool
  is_race not_unique = true
  is_race _ = false

  -- The loop of at most `n` rounds; `i` is the number of the round.
  unfoldable pub settle_rounds :
      ℕ → ℕ → (ℕ → ℕ) → (ℕ → VoteTables → VoteTables) → ℕ → ℕ → VoteAction VoteResultSnapshot
  unfolding try_settle
  settle_rounds k now f others zero i s = (err conflict, s)
  settle_rounds k now f others (suc n) i s =
      let (answer, s') = try_settle k now (f i) (others i) s in
      let again = settle_rounds k now f others n (suc i) s' in
      elim answer [
        | ok x ↦ (ok x, s')
        | err y ↦
            if not (is_race y)
            then (err y, s')
            else elim (final_snapshot k s') [ some x ↦ (ok x, s') | none ↦ again ]
      ]

  -- `settle`
  unfoldable pub settle :
      ℕ → ℕ → (ℕ → ℕ) → (ℕ → VoteTables → VoteTables) → VoteAction VoteResultSnapshot
  unfolding settle_rounds
  settle k now f others = settle_rounds k now f others 3 0

  unfoldable pub due_votes : ℕ → ℕ → VoteTables → List VoteRecord
  due_votes limit now s = take limit (
      order_by (λ (v : VoteRecord). v.closes_at)
        (select
          (λ (v : VoteRecord).
            not (is_published v.status)
            && (not (is_some v.final_snapshot_id) && leb v.closes_at now))
          s.votes))

  -- The codes that the scan passes over.
  abbrev pub passes_over : VoteError → Bool
  passes_over vote_not_closed = true
  passes_over conflict = true
  passes_over _ = false

  unfoldable pub settle_each :
      List VoteRecord
      → ℕ
      → (ℕ → ℕ → ℕ)
      → (ℕ → ℕ → VoteTables → VoteTables)
      → VoteAction (List VoteResultSnapshot)
  unfolding settle
  settle_each [] now f others s = (ok [], s)
  settle_each (v ∷ vs) now f others s =
      let (answer, s') = settle v.id now (f v.id) (others v.id) s in
      let (rest, s'') = settle_each vs now f others s' in
      elim answer [
        | ok x ↦ (elim rest [ ok xs ↦ ok (x ∷ xs) | err y ↦ err y ], s'')
        | err y ↦ if passes_over y then (rest, s'') else (err y, s')
      ]

  -- `settle_due`
  unfoldable pub settle_due :
      ℕ → ℕ → (ℕ → ℕ → ℕ) → (ℕ → ℕ → VoteTables → VoteTables) → VoteAction (List VoteResultSnapshot)
  unfolding due_votes settle_each
  settle_due limit now f others s = settle_each (due_votes limit now s) now f others s
