-- ===== src/Codes.antt =====
-- The store of registration codes: `SqlAlchemyVerificationCodeStore` of
-- server/app/services/verification_code_store.py over the table of models/verification_code.py.
pub mod Once
mod Tests
use crypto_campus.Prelude.{
  ℕ, Bool, true, false, ◌&&◌, not, Option, none, some, List, [], ◌∷◌, ◌++◌, Bytes, Text, length,
  bytes_eq, ◌==◌, ltb, if◌then◌else◌, select_first, update_where, rowcount, select, is_some,
}
use crypto_campus.Crypto.{CryptoEngine}

-- A row: the digest of the code, never the code.
pub record RegistrationVerificationCode : Type 0 where
  pub email : Text
  pub issue_id : ℕ
  pub code_digest : Bytes
  pub expires_at : ℕ
  pub consumed : Bool

-- `verification_store_unavailable`, and the `UnicodeEncodeError` of a code that is not ASCII.
pub data CodeError : Type 0 where
  verification_store_unavailable encode_error : CodeError

pub data Result (A : Type 0) : Type 0 where
  ok : A → Result A
  err : CodeError → Result A

abbrev pub Codes : Type 0
Codes = List RegistrationVerificationCode

-- `code.encode("ascii")`
unfoldable pub ascii : Text → Option Bytes
ascii [] = some []
ascii (c ∷ cs) =
    let rest = ascii cs in
    if ltb c 128 then (elim rest [ none ↦ none | some bs ↦ some (c ∷ bs) ]) else none

-- The row of an address, its primary key.
abbrev pub is_for : Text → RegistrationVerificationCode → Bool
is_for email r = bytes_eq r.email email

module _ (e : CryptoEngine) where
  -- `_digest`
  pub digest : Text → Result Bytes
  unfolding ascii
  digest code = elim (ascii code) [
    | none ↦ err encode_error
    | some bs ↦
        if length (e.sm3_digest bs) == 32
        then ok (e.sm3_digest bs)
        else err verification_store_unavailable
  ]

  -- The row of the address is written over, or made; `fresh` is the `uuid4`.
  pub issue : Text → Text → ℕ → ℕ → Codes → Result ℕ × Codes
  unfolding digest
  issue email code expires_at fresh rows = elim (digest code) [
    | err x ↦ (err x, rows)
    | ok d ↦
        if is_some (select_first (is_for email) rows)
        then (
          ok fresh,
          update_where (λ r. is_for email r && Bool.true)
              (λ r. record r {
                issue_id = fresh;
                code_digest = d;
                expires_at = expires_at;
                consumed = false;
              })
              rows,
        )
        else (
          ok fresh,
          rows
              ++ record {
                email = email;
                issue_id = fresh;
                code_digest = d;
                expires_at = expires_at;
                consumed = false;
              }
                ∷ [],
        )
  ]

  -- What the UPDATE of `consume` asks of the row of the address.
  abbrev pub is_valid : Bytes → ℕ → RegistrationVerificationCode → Bool
  is_valid d now r = bytes_eq r.code_digest d && (ltb now r.expires_at && not r.consumed)

  pub consume : Text → Text → ℕ → Codes → Result Bool × Codes
  unfolding digest
  consume email code now rows = elim (digest code) [
    | err x ↦ (err x, rows)
    | ok d ↦ (
      ok (rowcount (λ r. is_for email r && is_valid d now r) rows == 1),
      update_where (λ r. is_for email r && is_valid d now r) (λ r. record r { consumed = true })
          rows,
    )
  ]

-- The rows of the address that this issue has made and nobody has used go.
pub revoke : Text → ℕ → Codes → Codes
revoke email issue_id rows =
    select (λ r. not (is_for email r && (r.issue_id == issue_id && not r.consumed))) rows
