-- ===== src/Drop/Extract/Outcome.antt =====
-- What an extraction answers and what it writes (`extract_drop` of server/app/services/drop.py).
use crypto_campus.Prelude.{
  get-select_first, ◌≡◌, ◌⊎◌, true, false, Option, none, some, Bytes, arith, Option-cases,
  Bool-cases, inl, inr, bytes_eq, IsUnique,
}
use crypto_campus.Crypto.{CryptoEngine, Runtime}
use crypto_campus.Drop.Rows.{Drop, DropExtractIdempotency, is_available}
use crypto_campus.Drop.State.{
  Db, DropError, ok, err, Action, not_found, idempotency_conflict, ◌>>=◌,
}
use crypto_campus.Drop.Actions.{transaction_err}
use crypto_campus.Drop.Update.{due}
use crypto_campus.Drop.Cooldown.{before_attempt, record_failure}
use crypto_campus.Drop.Services.{Collaborators}
use crypto_campus.Drop.Lookup.{ExtractRequest, open_attempt}
use crypto_campus.Drop.Lookup.Attempt.{Names, open_attempt_early, open_attempt_refused}
use crypto_campus.Drop.Cooldown.Machine.{IsGuarded, guard_of, attempt, record_failure_row}
use crypto_campus.Drop.Cooldown.Refines.{before_attempt_refines}
use crypto_campus.Drop.Unseal.{unseal}
use crypto_campus.Drop.Extract.{
  ExtractFresh, Extracted, earlier_extract, extract_request_hash, check_replay, is_right_code,
  check_access_code, extraction_block, commit_extraction, respond, extract_drop,
}

module _ (e : CryptoEngine) (rt : Runtime) (sv : Collaborators) (r : ExtractRequest)
    (f : ExtractFresh) where
  -- An earlier request with the same idempotency key, if any, was this request.
  abbrev pub IsReplayable : Drop → Db → Type 0
  IsReplayable d s =
      (x : DropExtractIdempotency)
      → earlier_extract e rt sv r d s ≡ some x
      → bytes_eq x.request_hash (extract_request_hash e rt sv r d) ≡ true

  check_replay_ok :
      (s : Db) (d : Drop)
      → IsReplayable d s
      → check_replay e rt sv r d s ≡ (ok (earlier_extract e rt sv r d s), s)
  unfolding check_replay
  check_replay_ok s d h = elim (Option-cases (earlier_extract e rt sv r d s)) [
    | inl missing ↦ ground (arith, missing)
    | inr (x, found) ↦ ground (arith, found, h x found)
  ]

  -- A wrong access code on an available drop that has not expired, under an idempotency key that no
  -- other request has used, is answered `not_found`, and all that it writes is one wrong attempt on
  -- that drop.
  pub extract_wrong_code :
      (s : Db) (d : Drop)
      → IsUnique (λ x. x.id) s.drops
      → Names e rt r s d
      → due r.now d.expires_at ≡ false
      → is_available d.status ≡ true
      → IsReplayable d s
      → is_right_code e rt sv r d ≡ false
      → extract_drop e rt sv r f s ≡ (err not_found, (record_failure d.id r.now s).1)
  unfolding extract_drop check_access_code
  extract_wrong_code s d u n early a replayable wrong =
      let row = get-select_first (λ x. x.id) _ s.drops d u n.found in
      ground (
        arith,
        open_attempt_early e rt r f.destroy_id s d n early a,
        check_replay_ok s d replayable,
        (record_failure_row d.id r.now s d u row).0,
      )

  -- While the guard of an unexpired drop refuses attempts, every extraction is refused, with the right
  -- access code as well, and nothing is written.
  pub extract_locked :
      (s : Db) (d : Drop)
      → IsUnique (λ x. x.id) s.drops
      → Names e rt r s d
      → IsGuarded d
      → due r.now d.expires_at ≡ false
      → attempt r.now (guard_of d) ≡ none
      → (x : DropError) × (extract_drop e rt sv r f s ≡ (err x, s))
  unfolding extract_drop
  extract_locked s d u n g early refused =
      let row = get-select_first (λ x. x.id) _ s.drops d u n.found in
      let answer = before_attempt_refines r.now s d u row g in
      let ((x, raised), same) : ((x : DropError) × ((before_attempt d r.now s).0 ≡ err x))
          × ((before_attempt d r.now s).1 ≡ s) =
        rw refused at answer in
      let shut : before_attempt d r.now s ≡ (err x, s) = ground (arith, raised, same) in
      (x, ground (arith, open_attempt_refused e rt r f.destroy_id s d n early x shut))

  pub commit_extraction_err :
      (s : Db) (d : Drop) (plaintext : Bytes) (replay : Option DropExtractIdempotency)
      (x : DropError)
      → (commit_extraction e rt sv r f d plaintext replay s).0 ≡ err x
      → (commit_extraction e rt sv r f d plaintext replay s).1 ≡ s
  unfolding commit_extraction
  commit_extraction_err s d plaintext replay x h =
      transaction_err (extraction_block e rt sv r f d plaintext replay) s x h

  -- The steps of an attempt with the right code.
  abbrev pub hand_out : Drop → Option DropExtractIdempotency → Action Extracted
  hand_out d replay = do
    plaintext ← unseal e rt sv r d
    inspect_record_id ← commit_extraction e rt sv r f d plaintext replay
    respond e rt sv d plaintext inspect_record_id

  pub check_replay_cases :
      (s : Db) (d : Drop)
      → (check_replay e rt sv r d s ≡ (err idempotency_conflict, s))
        ⊎ ((replay : Option DropExtractIdempotency) × (check_replay e rt sv r d s ≡ (ok replay, s)))
  unfolding check_replay
  check_replay_cases s d = elim (Option-cases (earlier_extract e rt sv r d s)) [
    | inl missing ↦ inr (none, ground (arith, missing))
    | inr (x, found) ↦
        elim (Bool-cases (bytes_eq x.request_hash (extract_request_hash e rt sv r d))) [
          | inl same ↦ inr (some x, ground (arith, found, same))
          | inr differs ↦ inl (ground (arith, found, differs))
        ]
  ]

  -- With the right code, `extract_drop` goes on to hand the content out.
  pub right_code_lem :
      (s s1 : Db) (d : Drop) (replay : Option DropExtractIdempotency)
      → open_attempt e rt r f.destroy_id s ≡ (ok d, s1)
      → check_replay e rt sv r d s1 ≡ (ok replay, s1)
      → is_right_code e rt sv r d ≡ true
      → extract_drop e rt sv r f s ≡ hand_out d replay s1
  unfolding extract_drop check_access_code
  right_code_lem s s1 d replay start replayed right = ground (arith, start, replayed)
