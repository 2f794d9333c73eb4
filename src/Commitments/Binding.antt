-- ===== src/Commitments/Binding.antt =====
-- A commitment is consumed once, in time, and for what it was made for
-- (server/app/services/commitment_store.py).
use crypto_campus.Prelude.{
  ℕ, ◌+◌, ◌*◌, ◌<◌, ◌≡◌, ◌≢◌, refl, true, false, ◌&&◌, none, some, [], ◌∷◌, Bytes, Text, arith,
  bytes_eq, ◌==◌, if◌then◌else◌, select_first, select, Option-cases, inl, inr,
}
use crypto_campus.Prelude.Keyed.{select_first-append}
use crypto_campus.Commitments.{
  BlindCommitmentRecord, ok, err, commitment_not_found, Store, lookup, pop, is_over, cleanup,
  is_commitment, create, is_bound_to, consume, commitment_mismatch,
}

lookup-pop : (k : ℕ) (rows : Store) → lookup k (pop k rows) ≡ none
unfolding select_first select
lookup-pop k [] = refl
lookup-pop k (r ∷ rs) = ground (arith, lookup-pop k rs)

lookup-pop_other : (k j : ℕ) (rows : Store) → j ≢ k → lookup j (pop k rows) ≡ lookup j rows
unfolding select_first select
lookup-pop_other k j [] h = refl
lookup-pop_other k j (r ∷ rs) h = ground (arith, lookup-pop_other k j rs h)

-- A commitment is handed out only where it is there, its time is not over, and the user, the service
-- and the period are those it was made for; it comes back marked as consumed.
pub consume_exactly :
    (k user_id : ℕ) (service period : Text) (now : ℕ) (rows : Store) (x : BlindCommitmentRecord)
    → (consume k user_id service period now rows).0 ≡ ok x
    → (r : BlindCommitmentRecord) × (lookup k rows ≡ some r)
      × (is_over now r ≡ false)
      × (is_bound_to user_id service period r ≡ true)
      × (x ≡ record r { consumed = true })
unfolding consume
consume_exactly k user_id service period now rows x h = elim (Option-cases (lookup k rows)) [
  | inl missing ↦ absurd (ground (arith, missing))
  | inr (r, found) ↦ (r, found, ground (arith, found), ground (arith, found), ground (arith, found))
]

-- A commitment is consumed once: after a call that hands one out, a further call for that identifier,
-- whoever makes it and whenever, is answered `commitment_not_found` and changes nothing, and what
-- another identifier names is as before.
pub consume_commitment_once :
    (k user_id : ℕ) (service period : Text) (now : ℕ) (rows : Store) (x : BlindCommitmentRecord)
    (user' : ℕ) (service' period' : Text) (later j : ℕ)
    → (consume k user_id service period now rows).0 ≡ ok x
    → j ≢ k
    → let rows' = (consume k user_id service period now rows).1 in
      (consume k user' service' period' later rows' ≡ (err commitment_not_found, rows'))
      × (lookup j rows' ≡ lookup j rows)
unfolding consume
consume_commitment_once k user_id service period now rows x user' service' period' later j h ne =
    elim (Option-cases (lookup k rows)) [
      | inl missing ↦ absurd (ground (arith, missing))
      | inr (r, found) ↦
          let popped : (consume k user_id service period now rows).1 ≡ pop k rows =
            ground (arith, found) in
          rw popped (ground (arith, lookup-pop k rows), lookup-pop_other k j rows ne)
    ]

-- A commitment that was created from a valid pair of the engine, and whose time to live is not over,
-- is consumed by the user, the service and the period that it was made for, with the point and the
-- secret of the engine; for any others the answer is `commitment_mismatch`.
pub create-consume :
    (service period : Text) (user_id fresh now : ℕ) (secret_k point : Bytes) (seconds : ℕ)
    (rows : Store) (user' : ℕ) (service' period' : Text) (later : ℕ)
    → is_commitment secret_k point ≡ true
    → later < now + seconds * 1000000
    → let rows' =
        (create service period user_id (some (secret_k, point)) fresh now (some seconds) rows).1 in
      (consume fresh user' service' period' later rows').0 ≡ (
        if user_id == user' && (bytes_eq service service' && bytes_eq period period')
        then ok (record {
          commitment_id = fresh;
          user_id = user_id;
          service = service;
          period = period;
          commitment_point = point;
          secret_k = secret_k;
          expires_at = now + seconds * 1000000;
          consumed = true;
        })
        else err commitment_mismatch)
unfolding create consume
create-consume service period user_id fresh now secret_k point seconds rows user' service' period'
      later good early =
    let made : BlindCommitmentRecord = record {
      commitment_id = fresh;
      user_id = user_id;
      service = service;
      period = period;
      commitment_point = point;
      secret_k = secret_k;
      expires_at = now + seconds * 1000000;
      consumed = false;
    } in
    let kept = pop fresh (cleanup now rows) in
    let found =
      select_first-append (λ r. r.commitment_id == fresh) kept made
        (lookup-pop fresh (cleanup now rows)) (ground arith) in
    ground (arith, good, found)
