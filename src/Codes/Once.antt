-- ===== src/Codes/Once.antt =====
-- A registration code is good once, until it expires or another is issued
-- (server/app/services/verification_code_store.py).
use crypto_campus.Prelude.{
  ℕ, ◌≡◌, ◌≤◌, refl, ◌∙◌, Bool, true, false, ◌&&◌, Option, some, Bytes, Text, arith, bytes_eq,
  bytes_eq_refl, ◌==◌, ltb, select_first, update_row, rowcount, hit, Option-cases, inl, inr,
  eq_of-bytes_eq, ◌⊎◌,
}
use mathlib.Core.Option
use crypto_campus.Prelude.Keyed.{
  rowcount-eq-hit, select_first-append, select_first-update, rowcount-update_same, rowcount-none,
  rowcount-append, select_first-holds,
}
use crypto_campus.Crypto.{CryptoEngine}
use crypto_campus.Codes.{
  RegistrationVerificationCode, Result, ok, err, Codes, is_for, is_valid, digest, issue, consume,
  CodeError,
}

module _ (e : CryptoEngine) (email : Text) where
  -- The primary key: at most one row of the address.
  abbrev pub IsKeyed : Codes → Type 0
  IsKeyed rows = rowcount (is_for email) rows ≤ 1

  abbrev pub row_of : Codes → Option RegistrationVerificationCode
  row_of rows = select_first (is_for email) rows

  digest-cases :
      (code : Text)
      → ((x : CodeError) × (digest e code ≡ err x)) ⊎ ((d : Bytes) × (digest e code ≡ ok d))
  digest-cases code = cases (digest e code)
    where
      cases : (r : Result Bytes) → ((x : CodeError) × (r ≡ err x)) ⊎ ((d : Bytes) × (r ≡ ok d))
      cases (ok d) = inr (d, refl)
      cases (err x) = inl (x, refl)

  consume_lem :
      (code : Text) (now : ℕ) (d : Bytes) (rows : Codes)
      → digest e code ≡ ok d
      → IsKeyed rows
      → let (r, rows') = consume e email code now rows in
        (r ≡ ok (hit (is_valid e d now) (row_of rows) == 1))
        × (row_of rows'
            ≡ Option.map
                (update_row (is_valid e d now) (λ r. record r { consumed = true }))
                (row_of rows))
        × IsKeyed rows'
  unfolding consume
  consume_lem code now d rows h u =
      let n = rowcount-eq-hit (is_for email) (is_valid e d now) rows u in
      let row =
        select_first-update (is_for email) (is_valid e d now) (λ r. record r { consumed = true })
          (λ r. refl) rows in
      let same =
        rowcount-update_same (is_for email) (is_valid e d now) (λ r. record r { consumed = true })
          (λ r. refl) rows in
      (ground (arith, h, n), ground (arith, h, row), ground (arith, h, same))

  -- The row that an issue leaves is the one with the digest of its code.
  issue_lem :
      (code : Text) (expires_at fresh : ℕ) (d : Bytes) (rows : Codes)
      → digest e code ≡ ok d
      → IsKeyed rows
      → let (r, rows') = issue e email code expires_at fresh rows in
        (r ≡ ok fresh)
        × (row_of rows'
            ≡ some (record {
              email = email;
              issue_id = fresh;
              code_digest = d;
              expires_at = expires_at;
              consumed = false;
            }))
        × IsKeyed rows'
  unfolding issue
  issue_lem code expires_at fresh d rows h u =
      let written = λ (r : RegistrationVerificationCode). record r {
        issue_id = fresh;
        code_digest = d;
        expires_at = expires_at;
        consumed = Bool.false;
      } in
      let made : RegistrationVerificationCode = record {
        email = email;
        issue_id = fresh;
        code_digest = d;
        expires_at = expires_at;
        consumed = false;
      } in
      elim (Option-cases (row_of rows)) [
        | inl missing ↦
            let kept = select_first-append (is_for email) rows made missing (bytes_eq_refl email) in
            let n = rowcount-append (is_for email) rows made in
            let zero = rowcount-none (is_for email) rows missing in
            (
              ground (arith, h, missing),
              ground (arith, h, missing, kept),
              ground (arith, h, missing, n, zero),
            )
        | inr (r, found) ↦
            let row = select_first-update (is_for email) (λ x. true) written (λ x. refl) rows in
            let same = rowcount-update_same (is_for email) (λ x. true) written (λ x. refl) rows in
            let key =
              eq_of-bytes_eq r.email email (select_first-holds (is_for email) rows r found) in
            (
              ground (arith, h, found),
              ground (arith, h, found, row, key),
              ground (arith, h, found, same),
            )
      ]

  -- A code is good once: when an address has had a code accepted, the next call for that address, with
  -- that or another ASCII code and at any instant, answers false.
  pub consume_once :
      (code : Text) (now : ℕ) (rows : Codes)
      → IsKeyed rows
      → (consume e email code now rows).0 ≡ ok true
      → (code' : Text) (later : ℕ) (d' : Bytes) → digest e code' ≡ ok d'
      → (consume e email code' later (consume e email code now rows).1).0 ≡ ok false
  consume_once code now rows u h code' later d' h' = elim (digest-cases code) [
    | inl (x, bad) ↦ absurd (unfold consume in ground (arith, bad))
    | inr (d, good) ↦
        let (r, row, u') = consume_lem code now d rows good u in
        let (r', _, _) = consume_lem code' later d' _ h' u' in
        elim (Option-cases (row_of rows)) [
          | inl missing ↦ absurd (ground (arith, r, missing))
          | inr (x, found) ↦ r' ∙ ground (arith, r, row, found)
        ]
  ]

  -- After an issue for an address, a code is accepted exactly where it has the digest of the one
  -- issued and the expiry has not come: whatever was issued before is void.
  pub issue-consume :
      (code : Text) (expires_at fresh : ℕ) (d : Bytes) (rows : Codes)
      → digest e code ≡ ok d
      → IsKeyed rows
      → (code' : Text) (now : ℕ) (d' : Bytes) → digest e code' ≡ ok d'
      → (consume e email code' now (issue e email code expires_at fresh rows).1).0
        ≡ ok (bytes_eq d d' && ltb now expires_at)
  issue-consume code expires_at fresh d rows h u code' now d' h' =
      let (_, row, u') = issue_lem code expires_at fresh d rows h u in
      let (r, _, _) = consume_lem code' now d' _ h' u' in r ∙ ground (arith, row)
