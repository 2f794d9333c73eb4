-- ===== src/Drop/Lookup/Attempt.antt =====
-- The first steps of an extraction: which drop they hand on, and what they refuse.
use crypto_campus.Prelude.{
  ℕ, ◌≡◌, true, false, none, some, arith, Option-cases, Bool-cases, inl, inr, IsUnique,
  get-select_first,
}
use crypto_campus.Crypto.{CryptoEngine, Runtime}
use crypto_campus.Drop.Rows.{Drop, is_available, is_live}
use crypto_campus.Drop.State.{
  Db, DropError, ok, err, not_found, invalid_idempotency_key, transaction,
}
use crypto_campus.Drop.Update.{get_drop, due}
use crypto_campus.Drop.Cooldown.{before_attempt}
use crypto_campus.Drop.Requests.{is_key_length}
use crypto_campus.Drop.Lookup.{ExtractRequest, is_link_code, by_link_code, open_attempt}
use crypto_campus.Drop.Cooldown.Refines.{before_attempt_available, before_attempt_closed}
use crypto_campus.Drop.Destruction.{destroy_single_expired}
use crypto_campus.Drop.Destruction.Erasure.{expire_branches}

module _ (e : CryptoEngine) (rt : Runtime) (r : ExtractRequest) where
  -- The request is well formed, and its code names the drop `d`.
  pub record Names (s : Db) (d : Drop) : Type 0 where
    pub key : is_key_length r.idempotency_key ≡ true
    pub code : is_link_code r.code ≡ true
    pub found : by_link_code e rt r.code s ≡ some d

  module _ (fresh : ℕ) (s : Db) (d : Drop) (n : Names s d) where
    pub open_attempt_early :
        due r.now d.expires_at ≡ false
        → is_available d.status ≡ true
        → open_attempt e rt r fresh s ≡ (ok d, s)
    unfolding open_attempt
    open_attempt_early early a =
        ground (arith, n.key, n.code, n.found, before_attempt_available d r.now s a)

    -- A refusal of the cooldown is passed on.
    pub open_attempt_refused :
        due r.now d.expires_at ≡ false
        → (x : DropError) → before_attempt d r.now s ≡ (err x, s)
        → open_attempt e rt r fresh s ≡ (err x, s)
    unfolding open_attempt
    open_attempt_refused early x refused = ground (arith, n.key, n.code, n.found)

    pub open_attempt-due :
        IsUnique (λ x. x.id) s.drops
        → get_drop d.id s ≡ some d
        → due r.now d.expires_at ≡ true
        → open_attempt e rt r fresh s
          ≡ (err not_found, (destroy_single_expired e rt d.id r.now none fresh s).1)
    unfolding open_attempt transaction
    open_attempt-due u row late =
        ground
          (arith, n.key, n.code, n.found, (expire_branches e rt d.id r.now none fresh s d u row).0)

  pub open_attempt_ok :
      (fresh : ℕ) (s : Db) (d : Drop)
      → (open_attempt e rt r fresh s).0 ≡ ok d
      → (d' : Drop) × Names s d'
        × (due r.now d'.expires_at ≡ false)
        × (is_available d.status ≡ true)
        × (before_attempt d' r.now s ≡ (ok d, (open_attempt e rt r fresh s).1))
  unfolding open_attempt
  open_attempt_ok fresh s d h = elim (Option-cases (by_link_code e rt r.code s)) [
    | inl missing ↦ absurd (ground arith)
    | inr (d', found) ↦ (
      d',
      record { key = ground arith; code = ground arith; found = found },
      ground arith,
      ground arith,
      ground arith,
    )
  ]

  -- A drop that is neither available nor cooling down is not opened, whatever the instant.
  pub open_attempt_closed :
      (fresh : ℕ) (s : Db) (d : Drop)
      → IsUnique (λ x. x.id) s.drops
      → by_link_code e rt r.code s ≡ some d
      → is_live d.status ≡ false
      → (x : DropError) × (open_attempt e rt r fresh s ≡ (err x, s))
  unfolding open_attempt transaction
  open_attempt_closed fresh s d u found gone =
      let row = get-select_first (λ x. x.id) _ s.drops d u found in
      let (answer, same, _) = expire_branches e rt d.id r.now none fresh s d u row in
      let shut = before_attempt_closed d r.now s gone in
      elim (Bool-cases (is_key_length r.idempotency_key)) [
        | inr short ↦ (invalid_idempotency_key, ground (arith, short))
        | inl key ↦ elim (Bool-cases (is_link_code r.code)) [
          | inr malformed ↦ (not_found, ground (arith, key, malformed))
          | inl code ↦ elim (Bool-cases (due r.now d.expires_at)) [
            | inl late ↦ (
              not_found,
              ground (arith, key, code, found, late, answer, same (ground (arith, gone))),
            )
            | inr early ↦ (not_found, ground (arith, key, code, found, early, shut))
          ]
        ]
      ]
