-- ===== src/Drop/Destruction.antt =====
-- `DropDestructionService` of server/app/services/drop_destruction.py: a drop is burnt after a
-- successful extraction, and expired drops are swept. The envelope's material is set to NULL.
pub mod Erasure
pub mod Sweep
use crypto_campus.Prelude.{
  ℕ, zero, suc, ◌+◌, Bool, true, false, ◌&&◌, not, Option, none, some, List, [], ◌∷◌, ◌++◌, Bytes,
  Text, length, take, ◌==◌, leb, if◌then◌else◌, get, select, order_by,
}
use crypto_campus.Models.{AuditLog, AuditAction, drop_destroy}
use crypto_campus.Crypto.{CryptoEngine, Runtime}
use crypto_campus.Text.{codes}
use crypto_campus.Drop.Update.{due, get_drop, execute_update}
use crypto_campus.Drop.Rows.{Drop, DropStatus, is_available, is_live}
use crypto_campus.Drop.State.{
  Db, DropError, Action, ok, err, not_found, pure, raise, raise_if, modify, gets, ◌>>=◌, ◌>>◌,
  InspectRecord, InspectOperation, destroy,
}

-- The values of the three UPDATE statements.
abbrev pub cleared : DropStatus → Drop → Drop
cleared st d = record d {
  status = st;
  ciphertext = none;
  nonce = none;
  tag = none;
  enc_key_sm2 = none;
  enc_key_mlkem = none;
  sender_signature = none;
  sender_certificate_der = none;
  access_factor_salt = none;
}

abbrev pub or_else : Option ℕ → ℕ → ℕ
or_else none b = b
or_else (some a) b = a

pub data Reason : Type 0 where
  burn_after_read expired : Reason

reason_text : Reason → Text
reason_text Reason.burn_after_read = codes "burn_after_read"
reason_text Reason.expired = codes "expired"

-- `status in (..) and expires_at <= now`
abbrev pub sweepable : ℕ → Drop → Bool
sweepable now d = is_live d.status && due now d.expires_at

abbrev pub expiry : Drop → ℕ
expiry d = or_else d.expires_at 0

module _ (e : CryptoEngine) (rt : Runtime) where
  -- `_build_destruction_audit`
  pub build_destruction_audit : Drop → Reason → ℕ → Option ℕ → AuditLog
  unfolding reason_text
  build_destruction_audit d reason now actor =
      let drop_id_hash = rt.hex (e.sm3_digest (rt.utf8 (rt.id_text d.id))) in
      let summary =
        codes "drop.destroy|"
        ++ (reason_text reason
            ++ (codes "|" ++ (drop_id_hash ++ (codes "|" ++ rt.isoformat now)))) in
      record {
        actor = or_else actor d.owner_user_id;
        action = drop_destroy;
        target = d.id;
        detail_hash = e.sm3_digest (rt.utf8 summary);
        ts = now;
      }

  pub add_audit : AuditLog → Action (Unit {0})
  add_audit a = modify λ s. record s { audit_log = s.audit_log ++ a ∷ [] }

  pub record_destruction : ℕ → Drop → ℕ → Action (Unit {0})
  record_destruction fresh d now = modify λ s. record s {
    inspections =
        s.inspections
        ++ record {
          id = fresh;
          operation = destroy;
          owner_user_id = d.owner_user_id;
          occurred_at = now;
        }
          ∷ [];
  }

  -- `fresh` is the `uuid4` of the inspection record.
  unfoldable pub destroy_after_success : ℕ → ℕ → Option ℕ → ℕ → Action (Unit {0})
  unfolding add_audit record_destruction
  destroy_after_success k now actor fresh s = elim (get_drop k s) [
    | none ↦ (err not_found, s)
    | some d ↦
        if is_available d.status
        then (do
          touched ← execute_update k (λ r. is_available r.status) (cleared DropStatus.consumed)
          raise_if (not (touched == 1)) not_found
          add_audit (
              build_destruction_audit d Reason.burn_after_read now
                (some (or_else actor d.recipient_user_id)))
          record_destruction fresh d now)
            s
        else (err not_found, s)
  ]

  -- The loop of `destroy_expired` over the loaded rows.
  pub sweep : ℕ → Option ℕ → List Drop → Action ℕ
  unfolding add_audit
  sweep now actor [] = pure 0
  sweep now actor (d ∷ ds) = do
    touched ← execute_update d.id (λ r. is_live r.status) (cleared DropStatus.expired)
    (if touched == 1
        then add_audit
            (build_destruction_audit d Reason.expired now (some (or_else actor d.owner_user_id)))
        else pure tt)
    rest ← sweep now actor ds
    pure (if touched == 1 then rest + 1 else rest)

  pub destroy_expired : ℕ → ℕ → Option ℕ → Action ℕ
  unfolding sweep
  destroy_expired now limit actor s =
      if limit == 0
      then (ok 0, s)
      else sweep now actor (take limit (order_by expiry (select (sweepable now) s.drops))) s

  pub destroy_single_expired : ℕ → ℕ → Option ℕ → ℕ → Action Bool
  unfolding add_audit record_destruction
  destroy_single_expired k now actor fresh s = elim (get_drop k s) [
    | none ↦ (ok false, s)
    | some d ↦
        if due now d.expires_at && is_live d.status
        then (do
          touched ← execute_update k (λ r. is_live r.status) (cleared DropStatus.expired)
          if touched == 1
              then (do
                add_audit (
                    build_destruction_audit d Reason.expired now
                      (some (or_else actor d.owner_user_id)))
                record_destruction fresh d now
                pure true)
              else pure false)
            s
        else (ok false, s)
  ]
