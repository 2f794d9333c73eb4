-- ===== src/Drop/Destruction/Erasure.antt =====
-- Burning one drop, and destroying one that has expired: when it happens, what is erased, and that it
-- happens once (server/app/services/drop_destruction.py).
use crypto_campus.Prelude.{
  ℕ, ◌≡◌, refl, sym, ap, ◌∙◌, Option-cases, Bool, true, false, ◌&&◌, Option, none, some, arith,
  Bool-cases, inl, inr, if◌then◌else◌, update_row, IsUnique, ◌⊎◌,
}
use crypto_campus.Crypto.{CryptoEngine, Runtime}
use crypto_campus.Drop.Rows.{Drop, DropStatus, is_available, is_live}
use crypto_campus.Drop.State.{Db, Result, ok, err, not_found}
use crypto_campus.Drop.Update.{get_drop, execute_update, execute_update_lem, after_update, due}
use crypto_campus.Drop.Destruction.{cleared, destroy_after_success, destroy_single_expired}

-- No part of the envelope is left in the row.
pub record IsErased (d : Drop) : Type 0 where
  pub ciphertext : d.ciphertext ≡ none
  pub nonce : d.nonce ≡ none
  pub tag : d.tag ≡ none
  pub enc_key_sm2 : d.enc_key_sm2 ≡ none
  pub enc_key_mlkem : d.enc_key_mlkem ≡ none
  pub sender_signature : d.sender_signature ≡ none
  pub sender_certificate_der : d.sender_certificate_der ≡ none
  pub access_factor_salt : d.access_factor_salt ≡ none

pub cleared-IsErased : (st : DropStatus) (d : Drop) → IsErased (cleared st d)
cleared-IsErased st d = record {
  ciphertext = refl;
  nonce = refl;
  tag = refl;
  enc_key_sm2 = refl;
  enc_key_mlkem = refl;
  sender_signature = refl;
  sender_certificate_der = refl;
  access_factor_salt = refl;
}

module _ (e : CryptoEngine) (rt : Runtime) (k now : ℕ) (actor : Option ℕ) (fresh : ℕ) (s : Db) where
  pub burn_row :
      (d : Drop)
      → IsUnique (λ r. r.id) s.drops
      → get_drop k s ≡ some d
      → let (r, s') = destroy_after_success e rt k now actor fresh s in
        (r ≡ (if is_available d.status then ok tt else err not_found))
        × (get_drop k s'
            ≡ some (update_row (λ r. is_available r.status) (cleared DropStatus.consumed) d))
        × IsUnique (λ r. r.id) s'.drops
  unfolding destroy_after_success
  burn_row d u found =
      let (run, row, u') =
        execute_update_lem k (λ r. is_available r.status) (cleared DropStatus.consumed) (λ r. refl)
          s d u found in
      ground (arith, run, row, u')

  pub burn_drops :
      (d : Drop)
      → get_drop k s ≡ some d
      → (destroy_after_success e rt k now actor fresh s).0 ≡ ok tt
      → (destroy_after_success e rt k now actor fresh s).1.drops
        ≡ (after_update k (λ r. is_available r.status) (cleared DropStatus.consumed) s).drops
  unfolding destroy_after_success execute_update
  burn_drops d found h = ground (arith, found, h)

  pub burn_missing :
      get_drop k s ≡ none → destroy_after_success e rt k now actor fresh s ≡ (err not_found, s)
  unfolding destroy_after_success
  burn_missing h = ground arith

module _ (e : CryptoEngine) (rt : Runtime) (k now : ℕ) (actor : Option ℕ) (fresh : ℕ) (s : Db) where
  pub burn_refused :
      (d : Drop)
      → get_drop k s ≡ some d
      → is_available d.status ≡ false
      → destroy_after_success e rt k now actor fresh s ≡ (err not_found, s)
  unfolding destroy_after_success
  burn_refused d found h = ground arith

  expire_row :
      (d : Drop)
      → IsUnique (λ r. r.id) s.drops
      → get_drop k s ≡ some d
      → (due now d.expires_at && is_live d.status) ≡ true
      → let (r, s') = destroy_single_expired e rt k now actor fresh s in
        (r ≡ ok true) × (get_drop k s' ≡ some (cleared DropStatus.expired d))
  unfolding destroy_single_expired
  expire_row d u found h =
      let (run, row, u') =
        execute_update_lem k (λ r. is_live r.status) (cleared DropStatus.expired) (λ r. refl) s d u
          found in
      ground (arith, run, row)

  expire_refused :
      (d : Drop)
      → get_drop k s ≡ some d
      → (due now d.expires_at && is_live d.status) ≡ false
      → destroy_single_expired e rt k now actor fresh s ≡ (ok false, s)
  unfolding destroy_single_expired
  expire_refused d found h = ground arith

-- A drop is burnt once: from a table with a primary key, when a burn succeeds, the row is consumed and
-- erased, and a second burn of that drop, at any time and for any actor, is refused and writes nothing.
pub burn_once :
    (e : CryptoEngine) (rt : Runtime) (k now later : ℕ) (actor actor' : Option ℕ) (fresh fresh' : ℕ)
    (s : Db)
    → IsUnique (λ r. r.id) s.drops
    → (destroy_after_success e rt k now actor fresh s).0 ≡ ok tt
    → let s' = (destroy_after_success e rt k now actor fresh s).1 in
      ((d : Drop) × (get_drop k s' ≡ some d) × (d.status ≡ DropStatus.consumed) × IsErased d)
      × (destroy_after_success e rt k later actor' fresh' s' ≡ (err not_found, s'))
burn_once e rt k now later actor actor' fresh fresh' s u h = elim (Option-cases (get_drop k s)) [
  | inl missing ↦ cc (burn_missing e rt k now actor fresh s missing)
  | inr (d, found) ↦
      let (r, row, u') = burn_row e rt k now actor fresh s d u found in
      let fact : is_available d.status ≡ true = ground (arith, r) in
      let row' : get_drop k (destroy_after_success e rt k now actor fresh s).1
          ≡ some (cleared DropStatus.consumed d) =
        ground (arith, row) in
      (
        (cleared DropStatus.consumed d, row', refl, cleared-IsErased DropStatus.consumed d),
        burn_refused e rt k later actor' fresh' _ (cleared DropStatus.consumed d) row' refl,
      )
]

-- `destroy_single_expired` on a drop that is there, by whether the drop is due.
pub expire_branches :
    (e : CryptoEngine) (rt : Runtime) (k now : ℕ) (actor : Option ℕ) (fresh : ℕ) (s : Db) (d : Drop)
    → IsUnique (λ r. r.id) s.drops
    → get_drop k s ≡ some d
    → let (r, s') = destroy_single_expired e rt k now actor fresh s in
      (r ≡ ok (due now d.expires_at && is_live d.status))
      × ((due now d.expires_at && is_live d.status) ≡ false → s' ≡ s)
      × ((due now d.expires_at && is_live d.status) ≡ true
          → (d' : Drop) × (get_drop k s' ≡ some d')
            × (d'.status ≡ DropStatus.expired)
            × IsErased d')
expire_branches e rt k now actor fresh s d u found =
    elim (Bool-cases (due now d.expires_at && is_live d.status)) [
      | inl h ↦
          let (r, row) = expire_row e rt k now actor fresh s d u found h in
          (
            r ∙ ap ok (sym h),
            λ h'. cc,
            λ _. (cleared DropStatus.expired d, row, refl, cleared-IsErased DropStatus.expired d),
          )
      | inr h ↦
          let same = expire_refused e rt k now actor fresh s d found h in
          (
            ap (λ (p : Result Bool × Db). p.0) same ∙ ap ok (sym h),
            λ _. ap (λ (p : Result Bool × Db). p.1) same,
            λ h'. cc,
          )
    ]

-- An expired drop on request: for a drop that is there, `destroy_single_expired` answers true exactly
-- where the expiry has come and the drop is available or cooling down, and then the row is marked
-- expired and erased; otherwise it answers false and writes nothing.
pub expire_exactly_when_due :
    (e : CryptoEngine) (rt : Runtime) (k now : ℕ) (actor : Option ℕ) (fresh : ℕ) (s : Db) (d : Drop)
    → IsUnique (λ r. r.id) s.drops
    → get_drop k s ≡ some d
    → let (r, s') = destroy_single_expired e rt k now actor fresh s in
      let dead = due now d.expires_at && is_live d.status in
      (r ≡ ok dead)
      × (((dead ≡ false) × (s' ≡ s))
          ⊎ ((dead ≡ true)
              × ((d' : Drop) × (get_drop k s' ≡ some d')
                  × (d'.status ≡ DropStatus.expired)
                  × IsErased d')))
expire_exactly_when_due e rt k now actor fresh s d u found =
    let (answer, kept, erased) = expire_branches e rt k now actor fresh s d u found in
    (
      answer,
      elim (Bool-cases (due now d.expires_at && is_live d.status)) [
        | inl h ↦ inr (h, erased h)
        | inr h ↦ inl (h, kept h)
      ],
    )
