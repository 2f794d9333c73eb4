-- ===== src/Votes/Submission/Again.antt =====
-- A ballot that is sent again: `submit` of server/app/services/vote_ballots.py, called twice.
use crypto_campus.Prelude.{
  ℕ, zero, suc, ◌≡◌, sym, ap, ◌∙◌, true, false, not, ◌||◌, get, Option, none, some, [], ◌∷◌, ◌++◌,
  Bytes, arith, length, bytes_eq_refl, between, if◌then◌else◌, select_first, is_some, Option-cases,
  inl, inr,
}
use crypto_campus.Prelude.Keyed.{select_first-append, none_of}
use mathlib.Core.Path.{subst}
use crypto_campus.Text.{codes}
use crypto_campus.Crypto.{CryptoEngine, Runtime, ComparesBytes}
use crypto_campus.Action.{
  Result, ok, err, pure, raise_if, gets, or_raise, modify, ◌>>=◌, ◌>>◌, transaction_by, undo,
}
use crypto_campus.Action.Laws.{
  Result-cases, bind_ok, bind_inv, pure_inv, raise_if_inv, or_raise_inv, transaction_inv,
  past_guard, guard_inv, not_ok,
}
use crypto_campus.Votes.Rows.{
  AnonymousBallot, ConsumedSn, BallotIdempotency, VoteResultSnapshot, VoteTables, VoteError,
  VoteAction, VoteTools, invalid_idempotency_key, invalid_payload, credential_consumed, conflict,
  not_unique,
}
use crypto_campus.Votes.Ballots.{
  BallotRequest, VerifiedBallot, vote_ballot, has_sn, has_key, has_credential, ordered_counts,
  total_of, add_ballot, publish, verify_vote_ballot,
}
use crypto_campus.Votes.Submission.{
  BallotFresh, compute_ballot_request_hash, replay, new_ballot, write_ballot, recheck, try_ballot,
  is_not_unique, try_rounds, submit,
}
use crypto_campus.Votes.Publishing.{publish_inv}

abbrev Answer : Type 0
Answer = Result VoteError (Unit {0})

pairs :
    (answer : Answer) (u : Unit {0}) (s s' : VoteTables)
    → ◌≡◌ {A = Answer × VoteTables} (answer, s) (ok u, s')
    → (answer ≡ ok u) × (s ≡ s')
pairs answer u s s' h =
    (ap (λ (z : Answer × VoteTables). z.0) h, ap (λ (z : Answer × VoteTables). z.1) h)

-- The tables answer the request with an acceptance.
abbrev Answers : CryptoEngine → Runtime → VoteTools → Bytes → Bytes → VoteTables → Type 0
Answers e rt tools k h s = replay e rt tools k h s ≡ some (ok tt)

add_ballot_inv :
    (c : ConsumedSn) (b : AnonymousBallot) (i : BallotIdempotency) (s s' : VoteTables)
    (u : Unit {0})
    → add_ballot c b i s ≡ (ok u, s')
    → select_first (has_key i.key_hash) s'.idempotencies ≡ some i
unfolding add_ballot
add_ballot_inv c b i s s' u h =
    let t : VoteTables = record s {
      consumed = s.consumed ++ c ∷ [];
      ballots = s.ballots ++ b ∷ [];
      idempotencies = s.idempotencies ++ i ∷ [];
    } in
    let found : (_ ≡ false) × (t ≡ s') =
      guard_inv
        (is_some (select_first (has_sn c.sn) s.consumed)
          || (is_some (get (λ (x : AnonymousBallot). x.id) b.id s.ballots)
              || (is_some (select_first (has_credential b.credential_sn) s.ballots)
                  || (is_some (get (λ (x : BallotIdempotency). x.id) i.id s.idempotencies)
                      || is_some (select_first (has_key i.key_hash) s.idempotencies)))))
        not_unique tt u s t s' h in
    let new =
      none_of (select_first (has_key i.key_hash) s.idempotencies) (ground (arith, found.0)) in
    sym (ap (λ (t : VoteTables). select_first (has_key i.key_hash) t.idempotencies) found.1)
    ∙ select_first-append (has_key i.key_hash) s.idempotencies i new (bytes_eq_refl i.key_hash)

module _ (e : CryptoEngine) (rt : Runtime) (tools : VoteTools) (same : ComparesBytes e) where
  write_ballot-Answers :
      (r : BallotRequest) (v : VerifiedBallot) (k h : Bytes) (f : BallotFresh) (s s' : VoteTables)
      (x : VoteResultSnapshot)
      → write_ballot e rt tools r v k h f s ≡ (ok x, s')
      → Answers e rt tools k h s'
  unfolding write_ballot replay
  write_ballot-Answers r v k h f s s' x ran =
      let i : BallotIdempotency = record {
        id = f.idempotency_id;
        key_hash = k;
        request_hash = h;
        ballot_id = f.ballot_id;
        created_at = r.now;
      } in
      let add : VoteAction (Unit {0}) =
        add_ballot (record { sn = v.sn_bytes; service = vote_ballot; consumed_at = r.now })
          (new_ballot e rt tools r v f) i in
      let (u, added, h2) =
        bind_inv
          (λ (u : Unit {0}). do
            counts ← gets (ordered_counts (λ b. true) r.vote_id)
            publish e rt tools r.vote_id counts (total_of counts) false f.snapshot_id r.now
                (codes "vote.result.sign"))
          add s s' x ran in
      let t : VoteTables = (add s).1 in
      let counts = ordered_counts (λ b. true) r.vote_id t in
      let p =
        publish_inv e rt tools r.vote_id counts (total_of counts) false f.snapshot_id r.now
          (codes "vote.result.sign") t s' x h2 in
      let there : select_first (has_key k) s'.idempotencies ≡ some i =
        ap (λ (z : VoteTables). select_first (has_key k) z.idempotencies) p.tables
        ∙ add_ballot_inv _ _ i s t u added in
      ground (arith, there, same h h, bytes_eq_refl h)

  try_ballot-Answers :
      (r : BallotRequest) (v : VerifiedBallot) (k h : Bytes) (f : BallotFresh)
      (others : VoteTables → VoteTables) (s s' : VoteTables) (u : Unit {0})
      → try_ballot e rt tools r v k h f others s ≡ (ok u, s')
      → Answers e rt tools k h s'
  unfolding try_ballot
  try_ballot-Answers r v k h f others s s' u ran = elim (Option-cases (replay e rt tools k h s)) [
    | inr (answer, known) ↦
        let ends : (answer ≡ ok u) × (s ≡ s') = pairs answer u s s' (sym (ap after known) ∙ ran) in
        subst (Answers e rt tools k h) ends.1 (known ∙ ap some ends.0)
    | inl new ↦
        let (u1, rechecked, h2) =
          bind_inv (λ (u : Unit {0}). do modify others; transaction_by undo write; pure tt)
            (recheck e rt tools r v) s s' u (sym (ap after new) ∙ ran) in
        let t : VoteTables = others (recheck e rt tools r v s).1 in
        let (x, written, h3) =
          bind_inv (λ (x : VoteResultSnapshot). pure tt) (transaction_by undo write) t s' u h2 in
        let w = transaction_inv undo write t _ x written in
        subst (Answers e rt tools k h) (pure_inv tt u _ s' h3).1
          (write_ballot-Answers r v k h f t _ x w)
  ]
    where
      write : VoteAction VoteResultSnapshot
      write = write_ballot e rt tools r v k h f

      after : Option Answer → Answer × VoteTables
      after o = elim o [
        | some answer ↦ (answer, s)
        | none ↦ (do recheck e rt tools r v; modify others; transaction_by undo write; pure tt) s
      ]

  module _ (r : BallotRequest) (v : VerifiedBallot) (k h : Bytes) where
    try_rounds-Answers :
        (f : ℕ → BallotFresh) (others : ℕ → VoteTables → VoteTables) (n i : ℕ) (s s' : VoteTables)
        (u : Unit {0})
        → try_rounds e rt tools r v k h f others n i s ≡ (ok u, s')
        → Answers e rt tools k h s'
    unfolding try_rounds
    try_rounds-Answers f others zero i s s' u ran = absurd (not_ok conflict u s s' ran)
    try_rounds-Answers f others (suc n) i s s' u ran =
        let t : VoteTables = (try_ballot e rt tools r v k h (f i) (others i) s).1 in
        elim (Result-cases (try_ballot e rt tools r v k h (f i) (others i) s)) [
          | inr (w, q) ↦
              let ends : (ok w ≡ ok u) × (t ≡ s') = pairs (ok w) u t s' (sym (ap after q) ∙ ran) in
              subst (Answers e rt tools k h) ends.1
                (try_ballot-Answers r v k h (f i) (others i) s t w q)
          | inl (y, q) ↦
              let rest =
                past_guard (not (is_not_unique e rt tools y)) y u t s'
                  (raced t (replay e rt tools k h t)) (sym (ap after q) ∙ ran) in
              elim (Option-cases (replay e rt tools k h t)) [
                | inr (answer, known) ↦
                    let ends : (answer ≡ ok u) × (t ≡ s') =
                      pairs answer u t s' (sym (ap (raced t) known) ∙ rest) in
                    subst (Answers e rt tools k h) ends.1 (known ∙ ap some ends.0)
                | inl new ↦ try_rounds-Answers f others n (suc i) t s' u (
                    past_guard (is_some (select_first (has_sn v.sn_bytes) t.consumed))
                      credential_consumed u t s' _ (sym (ap (raced t) new) ∙ rest))
              ]
        ]
      where
        raced : VoteTables → Option Answer → Answer × VoteTables
        raced t o = elim o [
          | some known ↦ (known, t)
          | none ↦
              if is_some (select_first (has_sn v.sn_bytes) t.consumed)
              then (err credential_consumed, t)
              else try_rounds e rt tools r v k h f others n (suc i) t
        ]

        after : Answer × VoteTables → Answer × VoteTables
        after out = elim out.0 [
          | ok done ↦ (ok done, out.1)
          | err x ↦
              if not (is_not_unique e rt tools x)
              then (err x, out.1)
              else raced out.1 (replay e rt tools k h out.1)
        ]

  -- What an accepted request leaves.
  record Accepted (r : BallotRequest) (s : VoteTables) : Type 0 where
    request_hash : Bytes
    hashed : compute_ballot_request_hash e rt tools r ≡ some request_hash
    key_fits : not (between 16 128 (length r.idempotency_key)) ≡ false
    answers : Answers e rt tools (e.sm3_digest (rt.utf8 r.idempotency_key)) request_hash s

  digest_of_key : BallotRequest → Bytes
  digest_of_key r = e.sm3_digest (rt.utf8 r.idempotency_key)

  replay_or_try :
      BallotRequest
      → (ℕ → BallotFresh)
      → (ℕ → VoteTables → VoteTables)
      → Bytes
      → VoteTables
      → Option Answer
      → Answer × VoteTables
  unfolding digest_of_key
  replay_or_try r f others h s o = elim o [
    | some answer ↦ (answer, s)
    | none ↦
        (do
          v ← verify_vote_ballot e rt tools r
          try_rounds e rt tools r v (digest_of_key r) h f others 3 0)
          s
  ]

  submit_inv :
      (r : BallotRequest) (f : ℕ → BallotFresh) (others : ℕ → VoteTables → VoteTables)
      (s s' : VoteTables) (u : Unit {0})
      → submit e rt tools r f others s ≡ (ok u, s')
      → Accepted r s'
  unfolding submit digest_of_key replay_or_try
  submit_inv r f others s s' u ran =
      let rest : Bytes → VoteAction (Unit {0}) =
        λ h s. replay_or_try r f others h s (replay e rt tools (digest_of_key r) h s) in
      let (w, fits, h2) =
        bind_inv
          (λ (w : Unit {0}).
            or_raise (compute_ballot_request_hash e rt tools r) invalid_payload >>= rest)
          (raise_if (not (between 16 128 (length r.idempotency_key))) invalid_idempotency_key) s s'
          u ran in
      let (h, hashed, h3) =
        bind_inv rest (or_raise (compute_ballot_request_hash e rt tools r) invalid_payload) s s' u
          h2 in
      let (found, same_state) =
        or_raise_inv (compute_ballot_request_hash e rt tools r) invalid_payload h s _ hashed in
      let h4 : rest h s ≡ (ok u, s') = subst (λ t. rest h t ≡ (ok u, s')) (sym same_state) h3 in
      record {
        request_hash = h;
        hashed = found;
        key_fits =
            (raise_if_inv (not (between 16 128 (length r.idempotency_key))) invalid_idempotency_key
              w s _ fits).0;
        answers = elim (Option-cases (replay e rt tools (digest_of_key r) h s)) [
          | inr (answer, known) ↦
              let ends : (answer ≡ ok u) × (s ≡ s') =
                pairs answer u s s' (sym (ap (replay_or_try r f others h s) known) ∙ h4) in
              subst (Answers e rt tools (digest_of_key r) h) ends.1 (known ∙ ap some ends.0)
          | inl new ↦
              let (v, verified, h5) =
                bind_inv
                  (λ (v : VerifiedBallot).
                    try_rounds e rt tools r v (digest_of_key r) h f others 3 0)
                  (verify_vote_ballot e rt tools r) s s' u
                  (sym (ap (replay_or_try r f others h s) new) ∙ h4) in
              try_rounds-Answers r v (digest_of_key r) h f others 3 0 _ s' u h5
        ];
      }

  -- A request that was accepted, whatever other processes did meanwhile, and is sent again with its
  -- idempotency key, at any instant: it is accepted, and nothing is written. Byte strings are compared.
  pub submit_again :
      (r : BallotRequest) (f f' : ℕ → BallotFresh) (others others' : ℕ → VoteTables → VoteTables)
      (s s' : VoteTables) (u : Unit {0}) (later : ℕ)
      → submit e rt tools r f others s ≡ (ok u, s')
      → submit e rt tools (record r { now = later }) f' others' s' ≡ (ok u, s')
  unfolding submit compute_ballot_request_hash digest_of_key replay_or_try
  submit_again r f f' others others' s s' u later ran =
      let a : Accepted r s' = submit_inv r f others s s' u ran in
      let r' : BallotRequest = record r { now = later } in
      let rest : Bytes → VoteAction (Unit {0}) =
        λ h s. replay_or_try r' f' others' h s (replay e rt tools (digest_of_key r) h s) in
      bind_ok (raise_if (not (between 16 128 (length r.idempotency_key))) invalid_idempotency_key)
        (λ (w : Unit {0}).
          or_raise (compute_ballot_request_hash e rt tools r') invalid_payload >>= rest)
        s' s' tt (ap (λ c. raise_if c invalid_idempotency_key s') a.key_fits)
      ∙ bind_ok (or_raise (compute_ballot_request_hash e rt tools r') invalid_payload) rest s' s'
          a.request_hash (ap (λ o. or_raise o invalid_payload s') a.hashed)
      ∙ ap (replay_or_try r' f' others' a.request_hash s') a.answers
