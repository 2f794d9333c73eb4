-- ===== src/Votes/Results/Settled.antt =====
-- The final tally of a vote passes the check of its readers: `settle` of
-- server/app/services/vote_settlement.py, then `verify` of vote_result_verification.py.
use crypto_campus.Prelude.{
  ℕ, zero, suc, ◌+◌, ◌<◌, ◌≡◌, refl, sym, ap, ◌∙◌, Bool, true, false, not, ◌&&◌, Option, none, some,
  List, Bytes, arith, ◌==◌, leb, ltb, if◌then◌else◌, get, select_first, select, order_by,
  update_row, rowcount, Option-cases, inl, inr,
}
use crypto_campus.Prelude.Keyed.{select_first-update_any}
use mathlib.Core.Option
use mathlib.Core.Path.{subst}
use crypto_campus.Text.{codes}
use crypto_campus.Models.{CertificateRecord}
use crypto_campus.Crypto.{CryptoEngine, Runtime}
use crypto_campus.Action.{
  Result, ok, err, pure, raise_if, gets, modify, ◌>>=◌, ◌>>◌, transaction_by, undo,
}
use crypto_campus.Action.Laws.{
  Result-cases, bind_inv, pure_inv, raise_if_inv, transaction_inv, transaction_err, past_guard,
  not_ok,
}
use crypto_campus.Votes.Rows.{
  VoteRecord, VoteOption, AnonymousBallot, VoteResultSnapshot, VoteTables, VoteError, VoteAction,
  VoteTools, is_public, vote_not_closed,
}
use crypto_campus.Votes.Ballots.{vote_by_id, ordered_counts, options_of, publish}
use crypto_campus.Votes.Settlement.{
  settle_new, try_settle, settle_rounds, settle, max_version, set_vote, publish_vote,
  final_snapshot, is_race,
}
use crypto_campus.Votes.Results.{Check, latest_public, verify}
use crypto_campus.Votes.Results.Counts.{tally}
use crypto_campus.Votes.Results.Verified.{Checks, both_valid, verify-publish}

abbrev pub counted_by : VoteRecord → AnonymousBallot → Bool
counted_by v b = leb b.created_at v.closes_at

module _ (e : CryptoEngine) (rt : Runtime) (tools : VoteTools) where
  record SettledNew (k : ℕ) (v : VoteRecord) (now id : ℕ) (others : VoteTables → VoteTables)
      (s s' : VoteTables) (x : VoteResultSnapshot) : Type 0 where
    closed : ltb now v.closes_at ≡ false
    middle : VoteTables
    published :
        publish e rt tools k
          (ordered_counts (counted_by v) k s)
          (max_version k s.snapshots + 1)
          true
          id
          now
          (codes "vote.settle")
          (others s)
        ≡ (ok x, middle)
    final : s' ≡ set_vote k (publish_vote id now) middle

  settle_new_inv :
      (k : ℕ) (v : VoteRecord) (now id : ℕ) (others : VoteTables → VoteTables) (s s' : VoteTables)
      (x : VoteResultSnapshot)
      → settle_new e rt tools k v now id others s ≡ (ok x, s')
      → SettledNew k v now id others s s' x
  unfolding settle_new
  settle_new_inv k v now id others s s' x h =
      let tallied : VoteAction VoteResultSnapshot =
        publish e rt tools k (ordered_counts (counted_by v) k s) (max_version k s.snapshots + 1)
          true id now (codes "vote.settle") in
      let signed : VoteAction VoteResultSnapshot = (do
        x ←
            publish e rt tools k (ordered_counts (counted_by v) k s) (max_version k s.snapshots + 1)
              true id now (codes "vote.settle")
        modify (set_vote k (publish_vote id now))
        pure x) in
      let (u, closed, h2) =
        bind_inv
          (λ (u : Unit {0}). do
            counts ← gets (ordered_counts (λ b. leb b.created_at v.closes_at) k)
            version ← gets λ s. max_version k s.snapshots + 1
            modify others
            transaction_by undo (do
              x ← publish e rt tools k counts version true id now (codes "vote.settle")
              modify (set_vote k (publish_vote id now))
              pure x))
          (raise_if (ltb now v.closes_at) vote_not_closed) s s' x h in
      let h3 = transaction_inv undo signed (others s) s' x h2 in
      let (y, published, h4) =
        bind_inv (λ y. do modify (set_vote k (publish_vote id now)); pure y) tallied (others s) s' x
          h3 in
      let (same, final) =
        pure_inv y x (set_vote k (publish_vote id now) (tallied (others s)).1) s' h4 in
      record {
        closed = (raise_if_inv (ltb now v.closes_at) vote_not_closed u s _ closed).0;
        middle = (tallied (others s)).1;
        published =
            published ∙ ap (λ (y : VoteResultSnapshot). (ok y, (tallied (others s)).1)) same;
        final = sym final;
      }

  -- Other processes may add ballots meanwhile, but do not touch the votes, the options and the tallies.
  pub record Apart (others : VoteTables → VoteTables) : Type 0 where
    pub votes_same : (s : VoteTables) → (others s).votes ≡ s.votes
    pub options_same : (s : VoteTables) → (others s).options ≡ s.options
    pub snapshots_same : (s : VoteTables) → (others s).snapshots ≡ s.snapshots

  abbrev IsOpenTally : ℕ → VoteRecord → VoteTables → Type 0
  IsOpenTally k v s = (vote_by_id k s ≡ some v) × (final_snapshot k s ≡ none)

  try_settle_new :
      (k : ℕ) (v : VoteRecord) (now id : ℕ) (others : VoteTables → VoteTables) (s : VoteTables)
      → v.final_snapshot_id ≡ none
      → IsOpenTally k v s
      → try_settle e rt tools k now id others s ≡ settle_new e rt tools k v now id others s
  unfolding try_settle
  try_settle_new k v now id others s none_yet (found, none_final) =
      ground (arith, found, none_yet, none_final)

  -- A round that fails leaves what the next one reads.
  settle_new_failed :
      (k : ℕ) (v : VoteRecord) (now id : ℕ) (others : VoteTables → VoteTables) (s : VoteTables)
      → Apart others
      → IsOpenTally k v s
      → (x : VoteError) → (settle_new e rt tools k v now id others s).0 ≡ err x
      → IsOpenTally k v (settle_new e rt tools k v now id others s).1
  unfolding settle_new
  settle_new_failed k v now id others s apart free x h = at_guard (ltb now v.closes_at) h
    where
      tallied : VoteAction VoteResultSnapshot
      tallied = do
        x ←
            publish e rt tools k (ordered_counts (counted_by v) k s) (max_version k s.snapshots + 1)
              true id now (codes "vote.settle")
        modify (set_vote k (publish_vote id now))
        pure x

      written : VoteAction VoteResultSnapshot
      written s = transaction_by undo tallied (others s)

      left : IsOpenTally k v (others s)
      left = (
        ap (get (λ (v : VoteRecord). v.id) k) (apart.votes_same s) ∙ free.0,
        ap (select_first (λ (x : VoteResultSnapshot). x.vote_id == k && x.is_final))
              (apart.snapshots_same s)
            ∙ free.1,
      )

      at_guard :
          (c : Bool)
          → ((raise_if c vote_not_closed >> written) s).0 ≡ err x
          → IsOpenTally k v ((raise_if c vote_not_closed >> written) s).1
      at_guard true h = free
      at_guard false h = subst (IsOpenTally k v) (sym (transaction_err tallied (others s) x h)) left

  record SettledRound (k : ℕ) (v : VoteRecord) (now : ℕ) (s' : VoteTables) (x : VoteResultSnapshot)
      : Type 0 where
    start : VoteTables
    others : VoteTables → VoteTables
    apart : Apart others
    key : ℕ
    there : vote_by_id k start ≡ some v
    ran : settle_new e rt tools k v now key others start ≡ (ok x, s')

  settle_rounds_inv :
      (k : ℕ) (v : VoteRecord) (now : ℕ) (f : ℕ → ℕ) (others : ℕ → VoteTables → VoteTables)
      (n i : ℕ) (s s' : VoteTables) (x : VoteResultSnapshot)
      → ((i : ℕ) → Apart (others i))
      → v.final_snapshot_id ≡ none
      → IsOpenTally k v s
      → settle_rounds e rt tools k now f others n i s ≡ (ok x, s')
      → SettledRound k v now s' x
  unfolding settle_rounds
  settle_rounds_inv k v now f others zero i s s' x apart none_yet free h =
      absurd (not_ok _ x s s' h)
  settle_rounds_inv k v now f others (suc n) i s s' x apart none_yet free h =
      let t : VoteTables = (settle_new e rt tools k v now (f i) (others i) s).1 in
      let same = ap after (try_settle_new k v now (f i) (others i) s none_yet free) in
      elim (Result-cases (settle_new e rt tools k v now (f i) (others i) s)) [
        | inr (y, q) ↦
            let ends : (y ≡ x) × (t ≡ s') = pure_inv y x t s' (sym (same ∙ ap after q) ∙ h) in
            record {
              start = s;
              others = others i;
              apart = apart i;
              key = f i;
              there = free.0;
              ran =
                  q
                  ∙ ap (λ (z : VoteResultSnapshot). (ok z, t)) ends.0
                  ∙ ap (λ (t : VoteTables). (ok x, t)) ends.1;
            }
        | inl (y, q) ↦
            let left : IsOpenTally k v t =
              settle_new_failed k v now (f i) (others i) s (apart i) free y
                (ap (λ (z : Result VoteError VoteResultSnapshot × VoteTables). z.0) q) in
            let rest =
              past_guard (not (is_race e rt tools y)) y x t s' _ (sym (same ∙ ap after q) ∙ h) in
            settle_rounds_inv k v now f others n (suc i) t s' x apart none_yet left (
              sym (
                ap
                  (λ (o : Option VoteResultSnapshot).
                    elim o as (λ _. Result VoteError VoteResultSnapshot × VoteTables) [
                      | some x ↦ (ok x, t)
                      | none ↦ settle_rounds e rt tools k now f others n (suc i) t
                    ])
                  left.1)
              ∙ rest)
      ]
    where
      after :
          Result VoteError VoteResultSnapshot × VoteTables
          → Result VoteError VoteResultSnapshot × VoteTables
      after out = elim out.0 [
        | ok x ↦ (ok x, out.1)
        | err y ↦
            if not (is_race e rt tools y) then (err y, out.1) else elim (final_snapshot k out.1) [
              | some x ↦ (ok x, out.1)
              | none ↦ settle_rounds e rt tools k now f others n (suc i) out.1
            ]
      ]

  module _ (sm2_check : Bytes → Bytes → Bytes → Check) (ca_service : Option (Bytes → ℕ → Check))
      (certificates : List CertificateRecord) where
    latest_public-set_vote :
        (k id now : ℕ) (s : VoteTables)
        → latest_public k (set_vote k (publish_vote id now) s) ≡ latest_public k s
    unfolding latest_public get
    latest_public-set_vote k id now s =
        let is_it : VoteRecord → Bool = λ v. v.id == k in
        let updated =
          select_first-update_any is_it is_it (publish_vote id now) (λ v. refl) s.votes in
        elim (Option-cases (vote_by_id k s)) [
          | inl missing ↦ ground (
            arith,
            missing,
            updated ∙ ap (Option.map (update_row is_it (publish_vote id now))) missing,
          )
          | inr (v, found) ↦ ground (
            arith,
            found,
            updated ∙ ap (Option.map (update_row is_it (publish_vote id now))) found,
          )
        ]

    verify-set_vote :
        (k id now later : ℕ) (s : VoteTables)
        → verify e rt tools sm2_check ca_service certificates k later
            (set_vote k (publish_vote id now) s)
          ≡ verify e rt tools sm2_check ca_service certificates k later s
    unfolding verify options_of
    verify-set_vote k id now later s = ground (arith, latest_public-set_vote k id now s)

    verify-settle_new :
        (k : ℕ) (v : VoteRecord) (now id later : ℕ) (others : VoteTables → VoteTables)
        (s s' : VoteTables) (x : VoteResultSnapshot)
        → Checks e rt tools sm2_check ca_service certificates later
        → Apart others
        → vote_by_id k s ≡ some v
        → is_public v.scope ≡ true
        → settle_new e rt tools k v now id others s ≡ (ok x, s')
        → verify e rt tools sm2_check ca_service certificates k later s'
          ≡ both_valid e rt tools sm2_check ca_service certificates
    unfolding ordered_counts options_of
    verify-settle_new k v now id later others s s' x c apart found shown h =
        let p = settle_new_inv k v now id others s s' x h in
        let n : ℕ → ℕ = λ i.
          rowcount (λ (b : AnonymousBallot). (b.vote_id == k && counted_by v b) && b.option_id == i)
            s.ballots in
        let options_at : List VoteOption → List (ℕ × ℕ) = λ os. tally n (
          order_by (λ (o : VoteOption). o.position)
            (select (λ (o : VoteOption). o.vote_id == k) os)) in
        let version : ℕ = max_version k s.snapshots + 1 in
        let published =
          subst
            (λ os.
              publish e rt tools k (options_at os) version true id now (codes "vote.settle")
                (others s)
              ≡ (ok x, p.middle))
            (sym (apart.options_same s)) p.published in
        let newer : max_version k (others s).snapshots < version =
          omega (arith, ap (max_version k) (apart.snapshots_same s)) in
        let there = ap (get (λ (v : VoteRecord). v.id) k) (apart.votes_same s) ∙ found in
        subst
          (λ t.
            verify e rt tools sm2_check ca_service certificates k later t
            ≡ both_valid e rt tools sm2_check ca_service certificates)
          (sym p.final)
          (verify-set_vote k id now later p.middle
            ∙ verify-publish e rt tools sm2_check ca_service certificates k n version true id now
                (codes "vote.settle") (others s) p.middle x later v c there shown newer refl
                published)

    -- A `settle` that makes the final tally of a public vote, while other processes at most add ballots:
    -- `verify` then answers, at any instant at which the station's certificate is valid, that the result
    -- is valid. `Checks` says what it relies on.
    pub verify-settle :
        (k : ℕ) (v : VoteRecord) (now later : ℕ) (f : ℕ → ℕ) (others : ℕ → VoteTables → VoteTables)
        (s s' : VoteTables) (x : VoteResultSnapshot)
        → Checks e rt tools sm2_check ca_service certificates later
        → ((i : ℕ) → Apart (others i))
        → vote_by_id k s ≡ some v
        → is_public v.scope ≡ true
        → v.final_snapshot_id ≡ none
        → final_snapshot k s ≡ none
        → settle e rt tools k now f others s ≡ (ok x, s')
        → verify e rt tools sm2_check ca_service certificates k later s'
          ≡ both_valid e rt tools sm2_check ca_service certificates
    unfolding settle
    verify-settle k v now later f others s s' x c apart found shown none_yet none_final h =
        let r =
          settle_rounds_inv k v now f others 3 0 s s' x apart none_yet (found, none_final) h in
        verify-settle_new k v now r.key later r.others r.start s' x c r.apart r.there shown r.ran
