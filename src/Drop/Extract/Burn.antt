-- ===== src/Drop/Extract/Burn.antt =====
-- Burn after reading: an extraction that succeeds is the last one (`extract_drop` of
-- server/app/services/drop.py with drop_destruction.py).
use crypto_campus.Prelude.{
  get-select_first, ℕ, ◌≡◌, refl, ap, ◌∙◌, true, ◌&&◌, Option, none, some, List, Bytes, Text, arith,
  Bool-cases, inl, inr, ◌==◌, bytes_eq, select_first, IsUnique, update_where, update-IsUnique,
}
use crypto_campus.Crypto.{CryptoEngine, Runtime}
use crypto_campus.Drop.Rows.{Drop, DropExtractIdempotency, is_available, DropStatus}
use crypto_campus.Drop.State.{Db, DropError, ok, err, transaction}
use crypto_campus.Drop.Actions.{Result-cases}
use crypto_campus.Drop.Update.{get_drop, due}
use crypto_campus.Drop.Services.{Collaborators}
use crypto_campus.Drop.Lookup.{ExtractRequest, by_link_code, open_attempt}
use crypto_campus.Drop.Lookup.Attempt.{
  Names, open_attempt_early, open_attempt-due, open_attempt_closed,
}
use crypto_campus.Drop.Cooldown.Refines.{record_success-drops}
use crypto_campus.Drop.Extract.{
  ExtractFresh, Extracted, is_right_code, check_access_code, extraction_block, commit_extraction,
  extract_drop, record_extraction, notify_owner, burn_if_asked, record_if_first,
}
use crypto_campus.Drop.Extract.Outcome.{right_code_lem, check_replay_cases}
use crypto_campus.Prelude.Keyed.{select_first-update_any}
use crypto_campus.Drop.Destruction.{cleared, destroy_after_success}
use crypto_campus.Drop.Destruction.Erasure.{IsErased, burn_drops}
use crypto_campus.Drop.Extract.Sound.{hand_out_ok}

abbrev reset : Drop → Drop
reset d = record d { failed_attempts = 0; cooldown_until = none }

-- The table after the burn and the reset of the attempts.
abbrev burnt : ℕ → Db → List Drop
burnt k s =
    update_where (λ d. d.id == k && true) reset
      (update_where (λ d. d.id == k && is_available d.status) (cleared DropStatus.consumed) s.drops)

module _ (e : CryptoEngine) (rt : Runtime) where
  burnt_row :
      (s : Db) (d : Drop) (code : Text)
      → by_link_code e rt code s ≡ some d
      → is_available d.status ≡ true
      → select_first (λ x. bytes_eq x.link_code_hash (e.sm3_digest (rt.utf8 code))) (burnt d.id s)
        ≡ some (reset (cleared DropStatus.consumed d))
  burnt_row s d code found a =
      let K = λ (x : Drop). bytes_eq x.link_code_hash (e.sm3_digest (rt.utf8 code)) in
      let one =
        select_first-update_any K (λ x. x.id == d.id && is_available x.status)
          (cleared DropStatus.consumed) (λ x. refl) s.drops in
      let two =
        select_first-update_any K (λ x. x.id == d.id && true) reset (λ x. refl)
          (update_where (λ x. x.id == d.id && is_available x.status) (cleared DropStatus.consumed)
            s.drops) in
      ground (arith, one, two, found, a)

  row_of :
      (r : ExtractRequest) (s : Db) (d : Drop)
      → IsUnique (λ x. x.id) s.drops
      → Names e rt r s d
      → get_drop d.id s ≡ some d
  row_of r s d u n = get-select_first (λ x. x.id) _ s.drops d u n.found

burnt-IsUnique : (k : ℕ) (s : Db) → IsUnique (λ x. x.id) s.drops → IsUnique (λ x. x.id) (burnt k s)
burnt-IsUnique k s u =
    update-IsUnique (λ x. x.id) k (λ d. true) reset (λ x. refl) _
      (update-IsUnique (λ x. x.id) k (λ d. is_available d.status) (cleared DropStatus.consumed)
        (λ x. refl) _ u)

module _ (e : CryptoEngine) (rt : Runtime) (sv : Collaborators) (r : ExtractRequest)
    (f : ExtractFresh) where
  extract_refused :
      (s : Db) (y : DropError)
      → open_attempt e rt r f.destroy_id s ≡ (err y, s)
      → extract_drop e rt sv r f s ≡ (err y, s)
  unfolding extract_drop
  extract_refused s y refused = ground (arith, refused)

module _ (e : CryptoEngine) (rt : Runtime) (sv : Collaborators) (r : ExtractRequest)
    (f : ExtractFresh) where
  -- The rows of a first extraction are in other tables.
  record_extraction-drops :
      (s : Db) (d : Drop) (p : Bytes)
      → ((record_extraction e rt sv r f d p s).0 ≡ ok tt)
        × ((record_extraction e rt sv r f d p s).1.drops ≡ s.drops)
  unfolding record_extraction notify_owner
  record_extraction-drops s d p = ground arith

  record_if_first-drops :
      (s : Db) (d : Drop) (p : Bytes) (replay : Option DropExtractIdempotency)
      → (id : ℕ) × ((record_if_first e rt sv r f d p replay s).0 ≡ ok id)
        × ((record_if_first e rt sv r f d p replay s).1.drops ≡ s.drops)
  unfolding record_if_first
  record_if_first-drops s d p none = (
    f.inspect_id,
    ground (arith, record_extraction-drops s d p),
    ground (arith, record_extraction-drops s d p),
  )
  record_if_first-drops s d p (some x) = (x.inspect_record_id, refl, refl)

  commit_burns :
      (s s' : Db) (d : Drop) (p : Bytes) (replay : Option DropExtractIdempotency) (id : ℕ)
      → get_drop d.id s ≡ some d
      → d.burn_after_read ≡ true
      → commit_extraction e rt sv r f d p replay s ≡ (ok id, s')
      → s'.drops ≡ burnt d.id s
  unfolding commit_extraction extraction_block burn_if_asked transaction
  commit_burns s s' d p replay id row burn h =
      let burning = destroy_after_success e rt d.id r.now (some d.recipient_user_id) f.destroy_id in
      let s2 = (burning s).1 in
      let s3 = (record_if_first e rt sv r f d p replay s2).1 in
      elim (Result-cases (burning s)) [
        | inl (y, e1) ↦ absurd (ground (arith, e1))
        | inr (_, e1) ↦
            let kept = record_if_first-drops s2 d p replay in
            ground (
              arith,
              e1,
              kept,
              burn_drops e rt d.id r.now (some d.recipient_user_id) f.destroy_id s d row e1,
              record_success-drops d.id s3,
            )
      ]

  -- A successful extraction of an available drop to burn leaves its row burnt.
  extract_burns :
      (s : Db) (d : Drop) (x : Extracted)
      → IsUnique (λ y. y.id) s.drops
      → Names e rt r s d
      → is_available d.status ≡ true
      → d.burn_after_read ≡ true
      → (extract_drop e rt sv r f s).0 ≡ ok x
      → (extract_drop e rt sv r f s).1.drops ≡ burnt d.id s
  unfolding extract_drop check_access_code
  extract_burns s d x u n a burn h = elim (Bool-cases (due r.now d.expires_at)) [
    | inl late ↦
        absurd (
          ground (arith, open_attempt-due e rt r f.destroy_id s d n u (row_of e rt r s d u n) late))
    | inr early ↦
        let start = open_attempt_early e rt r f.destroy_id s d n early a in
        elim (check_replay_cases e rt sv r f s d) [
          | inl conflict ↦ absurd (ground (arith, start, conflict))
          | inr (replay, replayed) ↦ elim (Bool-cases (is_right_code e rt sv r d)) [
            | inr wrong ↦ absurd (ground (arith, start, replayed, wrong))
            | inl right ↦
                let go = right_code_lem e rt sv r f s s d replay start replayed right in
                let (p, _, _, id, committed) = hand_out_ok e rt sv r f s d replay x (rw go at h) in
                ap (λ z. z.1.drops) go
                ∙ commit_burns s _ d p replay id (row_of e rt r s d u n) burn committed
          ]
        ]
  ]

  -- A drop to burn after reading is read once: when an extraction of an available one succeeds, the
  -- row is consumed and erased, and every later extraction with the same link code, whatever its
  -- access code, instant and idempotency key, is refused and writes nothing.
  pub burn_after_read_once :
      (s : Db) (d : Drop) (x : Extracted) (r' : ExtractRequest) (f' : ExtractFresh)
      → IsUnique (λ y. y.id) s.drops
      → Names e rt r s d
      → is_available d.status ≡ true
      → d.burn_after_read ≡ true
      → (extract_drop e rt sv r f s).0 ≡ ok x
      → r'.code ≡ r.code
      → let s' = (extract_drop e rt sv r f s).1 in
        ((d' : Drop) × (get_drop d.id s' ≡ some d')
          × (d'.status ≡ DropStatus.consumed)
          × IsErased d')
        × ((y : DropError) × (extract_drop e rt sv r' f' s' ≡ (err y, s')))
  burn_after_read_once s d x r' f' u n a burn h same =
      let s' = (extract_drop e rt sv r f s).1 in
      let drops = extract_burns s d x u n a burn h in
      let d' = reset (cleared DropStatus.consumed d) in
      let u' : IsUnique (λ y. y.id) s'.drops = rw drops (burnt-IsUnique d.id s u) in
      let found : by_link_code e rt r.code s' ≡ some d' =
        rw drops (burnt_row e rt s d r.code n.found a) in
      let row = get-select_first (λ y. y.id) _ s'.drops d' u' found in
      (
        (
          d',
          row,
          refl,
          record {
            ciphertext = refl;
            nonce = refl;
            tag = refl;
            enc_key_sm2 = refl;
            enc_key_mlkem = refl;
            sender_signature = refl;
            sender_certificate_der = refl;
            access_factor_salt = refl;
          },
        ),
        let (y, refused) =
              open_attempt_closed e rt r' f'.destroy_id s' d' u'
                (ap (λ c. by_link_code e rt c s') same ∙ found) refl in
            (y, extract_refused e rt sv r' f' s' y refused),
      )
