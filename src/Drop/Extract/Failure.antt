-- ===== src/Drop/Extract/Failure.antt =====
-- What an extraction that fails leaves behind (`extract_drop` of server/app/services/drop.py).
use crypto_campus.Prelude.{
  get-select_first, ◌≡◌, sym, true, false, Option, none, Bytes, ℕ, arith, Option-cases, Bool-cases,
  inl, inr, IsUnique,
}
use mathlib.Core.Path.{subst}
use crypto_campus.Crypto.{CryptoEngine, Runtime}
use crypto_campus.Drop.Rows.{Drop, DropExtractIdempotency}
use crypto_campus.Drop.State.{Db, DropError, ok, err, crash}
use crypto_campus.Drop.Actions.{Result-cases}
use crypto_campus.Drop.Update.{due}
use crypto_campus.Drop.Cooldown.{before_attempt, record_failure}
use crypto_campus.Drop.Cooldown.Admission.{
  IsAdmitted, IsReopened, before_attempt_ok, before_attempt_err, before_attempt-is_available,
}
use crypto_campus.Drop.Destruction.{destroy_single_expired}
use crypto_campus.Drop.Services.{Collaborators}
use crypto_campus.Drop.Lookup.{ExtractRequest, is_link_code, by_link_code, open_attempt}
use crypto_campus.Drop.Lookup.Attempt.{Names, open_attempt-due, open_attempt_ok}
use crypto_campus.Drop.Requests.{is_key_length}
use crypto_campus.Drop.Unseal.{unseal}
use crypto_campus.Drop.Unseal.Soundness.{unseal-ReadOnly}
use crypto_campus.Drop.Extract.{
  ExtractFresh, is_right_code, check_access_code, commit_extraction, respond, extract_drop,
}
use crypto_campus.Drop.Extract.Outcome.{
  hand_out, right_code_lem, check_replay_cases, commit_extraction_err,
}

module _ (e : CryptoEngine) (rt : Runtime) (sv : Collaborators) (r : ExtractRequest)
    (f : ExtractFresh) where
  -- What a failed extraction has made of the tables `s`: nothing; the destruction of the named drop,
  -- whose expiry has come; its opening again, since its cooldown is over; one wrong attempt on it,
  -- after it has been admitted, where the access code is wrong; or, where it is right, the rows of the
  -- extraction, if an exception of Python comes after the commit.
  pub data Leaves (s : Db) (x : DropError) (s' : Db) : Type 0 where
    nothing : s' ≡ s → Leaves s x s'
    expired :
        (d : Drop)
        → Names e rt r s d
        → due r.now d.expires_at ≡ true
        → s' ≡ (destroy_single_expired e rt d.id r.now none f.destroy_id s).1
        → Leaves s x s'
    reopened :
        (d : Drop)
        → Names e rt r s d
        → due r.now d.expires_at ≡ false
        → IsReopened d r.now s s'
        → Leaves s x s'
    counted :
        (d opened : Drop) (s1 : Db)
        → Names e rt r s d
        → due r.now d.expires_at ≡ false
        → IsAdmitted d r.now s s1
        → is_right_code e rt sv r opened ≡ false
        → before_attempt d r.now s ≡ (ok opened, s1)
        → s' ≡ (record_failure opened.id r.now s1).1
        → Leaves s x s'
    crashed :
        (d opened : Drop) (s1 : Db) (plaintext : Bytes) (replay : Option DropExtractIdempotency)
        (id : ℕ)
        → Names e rt r s d
        → due r.now d.expires_at ≡ false
        → before_attempt d r.now s ≡ (ok opened, s1)
        → is_right_code e rt sv r opened ≡ true
        → commit_extraction e rt sv r f opened plaintext replay s1 ≡ (ok id, s')
        → x ≡ crash
        → Leaves s x s'

  named-Leaves :
      (s : Db) (d : Drop) (x y : DropError)
      → IsUnique (λ z. z.id) s.drops
      → Names e rt r s d
      → (open_attempt e rt r f.destroy_id s).0 ≡ err y
      → Leaves s x (open_attempt e rt r f.destroy_id s).1
  unfolding open_attempt
  named-Leaves s d x y u n h = elim (Bool-cases (due r.now d.expires_at)) [
    | inl late ↦
        let row = get-select_first (λ z. z.id) _ s.drops d u n.found in
        let run = open_attempt-due e rt r f.destroy_id s d n u row late in
        expired d n late (ground (arith, run))
    | inr early ↦ elim (Result-cases (before_attempt d r.now s)) [
      | inl (z, refused) ↦
          let shut = before_attempt_err d z r.now s refused in
          nothing (ground (arith, n.key, n.code, n.found, early, refused, shut))
      | inr (d', good) ↦
          let available = before_attempt-is_available d d' r.now s good in
          absurd (ground (arith, h, n.key, n.code, n.found, early, good, available))
    ]
  ]

  open_attempt-Leaves :
      (s : Db) (x y : DropError)
      → IsUnique (λ z. z.id) s.drops
      → (open_attempt e rt r f.destroy_id s).0 ≡ err y
      → Leaves s x (open_attempt e rt r f.destroy_id s).1
  unfolding open_attempt
  open_attempt-Leaves s x y u h = elim (Bool-cases (is_key_length r.idempotency_key)) [
    | inr short ↦ nothing (ground (arith, short))
    | inl key ↦ elim (Bool-cases (is_link_code r.code)) [
      | inr malformed ↦ nothing (ground (arith, key, malformed))
      | inl code ↦ elim (Option-cases (by_link_code e rt r.code s)) [
        | inl missing ↦ nothing (ground (arith, key, code, missing))
        | inr (d, found) ↦
            named-Leaves s d x y u (record { key = key; code = code; found = found }) h
      ]
    ]
  ]

  -- What an admitted attempt has written so far.
  admitted-Leaves :
      (s s1 : Db) (d : Drop) (x : DropError)
      → Names e rt r s d
      → due r.now d.expires_at ≡ false
      → IsAdmitted d r.now s s1
      → Leaves s x s1
  admitted-Leaves s s1 d x n early (inl (available, same)) = nothing same
  admitted-Leaves s s1 d x n early (inr again) = reopened d n early again

  hand_out-Leaves :
      (s s1 : Db) (d opened : Drop) (replay : Option DropExtractIdempotency) (x : DropError)
      → Names e rt r s d
      → due r.now d.expires_at ≡ false
      → before_attempt d r.now s ≡ (ok opened, s1)
      → is_right_code e rt sv r opened ≡ true
      → (hand_out e rt sv r f opened replay s1).0 ≡ err x
      → Leaves s x (hand_out e rt sv r f opened replay s1).1
  unfolding respond
  hand_out-Leaves s s1 d opened replay x n early admitted right h =
      let start =
        admitted-Leaves s s1 d x n early (before_attempt_ok d opened r.now s s1 admitted) in
      let same = (unseal-ReadOnly e rt sv r opened).same s1 in
      elim (Result-cases (unseal e rt sv r opened s1)) [
        | inl (y, e1) ↦
            let left : (hand_out e rt sv r f opened replay s1).1 ≡ s1 = ground (arith, e1, same) in
            subst (Leaves s x) (sym left) start
        | inr (plaintext, e1) ↦
            let commit = commit_extraction e rt sv r f opened plaintext replay in
            elim (Result-cases (commit s1)) [
              | inl (y, e2) ↦
                  let undone = commit_extraction_err e rt sv r f s1 opened plaintext replay y e2 in
                  let left : (hand_out e rt sv r f opened replay s1).1 ≡ s1 =
                    ground (arith, e1, same, e2, undone) in
                  subst (Leaves s x) (sym left) start
              | inr (id, e2) ↦
                  crashed d opened s1 plaintext replay id n early admitted right
                    (ground (arith, e1, same, e2)) (ground (arith, h, e1, same, e2))
            ]
      ]

  -- However an extraction fails, where the keys of the drops are unique: it leaves the tables as they
  -- were, or it has done one of these: it
  -- has destroyed the drop that the code names and whose expiry has come; it has opened that drop
  -- again, since its cooldown was over; it has admitted that drop and counted one wrong attempt on it,
  -- the access code being wrong; or, the code being right, it has committed the extraction before one
  -- of Python's own exceptions.
  pub extract_err_writes :
      (s : Db) (x : DropError)
      → IsUnique (λ z. z.id) s.drops
      → (extract_drop e rt sv r f s).0 ≡ err x
      → Leaves s x (extract_drop e rt sv r f s).1
  unfolding extract_drop check_access_code
  extract_err_writes s x u h = elim (Result-cases (open_attempt e rt r f.destroy_id s)) [
    | inl (y, e1) ↦
        let left : (extract_drop e rt sv r f s).1 ≡ (open_attempt e rt r f.destroy_id s).1 =
          ground (arith, e1) in
        subst (Leaves s x) (sym left) (open_attempt-Leaves s x y u e1)
    | inr (opened, e1) ↦
        let s1 = (open_attempt e rt r f.destroy_id s).1 in
        let start : open_attempt e rt r f.destroy_id s ≡ (ok opened, s1) = ground (arith, e1) in
        let (d, n, early, _, admitted) = open_attempt_ok e rt r f.destroy_id s opened e1 in
        let pass = before_attempt_ok d opened r.now s s1 admitted in
        elim (check_replay_cases e rt sv r f s1 opened) [
          | inl conflict ↦
              let left : (extract_drop e rt sv r f s).1 ≡ s1 = ground (arith, start, conflict) in
              subst (Leaves s x) (sym left) (admitted-Leaves s s1 d x n early pass)
          | inr (replay, replayed) ↦ elim (Bool-cases (is_right_code e rt sv r opened)) [
            | inl right ↦
                let go = right_code_lem e rt sv r f s s1 opened replay start replayed right in
                rw go (hand_out-Leaves s s1 d opened replay x n early admitted right (rw go at h))
            | inr wrong ↦ elim (Result-cases (record_failure opened.id r.now s1)) [
              | inl (y, e2) ↦
                  counted d opened s1 n early pass wrong admitted
                    (ground (arith, start, replayed, wrong, e2))
              | inr (count, e2) ↦
                  counted d opened s1 n early pass wrong admitted
                    (ground (arith, start, replayed, wrong, e2))
            ]
          ]
        ]
  ]
