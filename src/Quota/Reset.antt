-- ===== src/Quota/Reset.antt =====
-- Reading and resetting quotas: `get` and `reset` of server/app/services/quota.py. A call of `reset` is
-- taken to run alone.
pub mod Zero
use crypto_campus.Prelude.{
  ℕ, ◌+◌, ◌≤◌, ◌≡◌, refl, sym, ap, ◌∙◌, Bool, true, false, ◌&&◌, ◌||◌, not, Option, none, some,
  List, [], ◌∷◌, ◌++◌, map, Bytes, Text, arith, length, bytes_eq, bytes_eq_refl, ◌==◌, between,
  if◌then◌else◌, get, select_first, update_where, is_some, Bool-cases, Option-cases, inl, inr,
}
use crypto_campus.Text.{codes}
use crypto_campus.Models.{User, is_pending_deletion}
use crypto_campus.Crypto.{CryptoEngine, Runtime}
use crypto_campus.Action.{
  Result, ok, err, Action, pure, raise_if, gets, or_raise, modify, ◌>>=◌, ◌>>◌, transaction_by,
  undo,
}
use crypto_campus.Audit.{AdminAuditEntry, AuditInput, append}
use crypto_campus.Quota.Rows.{
  CredentialLedger, QuotaError, Resource, idempotency_invalid, not_found, pending_deletion,
  conflict, internal, hole_credential, interaction_credential, drop,
}
use crypto_campus.Quota.{is_row, used, resource_limit, day_of}

-- `Quota` of server/app/schemas/quota.py.
pub record Quota : Type 0 where
  pub resource : Resource
  pub used : ℕ
  pub limit : Option ℕ

-- `response_json` is the list that it writes.
pub record AdminQuotaResetIdempotency : Type 0 where
  pub id : ℕ
  pub actor_id : ℕ
  pub target_user_id : ℕ
  pub key_hash : Bytes
  pub request_hash : Bytes
  pub response : List Quota
  pub created_at : ℕ

-- A row of `audit_log`, without its generated key and time.
pub record ResetLog : Type 0 where
  pub actor : ℕ
  pub action : Text
  pub target : Text
  pub detail_hash : Bytes

pub record ResetTables : Type 0 where
  pub users : List User
  pub ledger : List CredentialLedger
  pub resets : List AdminQuotaResetIdempotency
  pub log : List ResetLog
  pub chain : List AdminAuditEntry

abbrev pub ResetAction : Type 0 → Type 0
ResetAction A = Action ResetTables QuotaError A

-- `_DAILY_RESOURCES`
abbrev pub daily_resources : List Resource
daily_resources = Resource.hole_credential ∷ Resource.interaction_credential ∷ Resource.drop ∷ []

abbrev pub is_daily : Resource → Bool
is_daily Resource.hole_credential = true
is_daily Resource.interaction_credential = true
is_daily Resource.drop = true
is_daily _ = false

-- `get`, on the rows of a ledger with its unique key.
unfoldable pub get_quotas : Runtime → ℕ → ℕ → List CredentialLedger → List Quota
get_quotas rt user now rows =
    map
      (λ (x : Resource). record {
        resource = x;
        used = used user x (rt.isodate (day_of now)) rows;
        limit = resource_limit x;
      })
      daily_resources

-- The UPDATE of `reset`.
unfoldable pub reset_counts : ℕ → Text → List CredentialLedger → List CredentialLedger
reset_counts user period rows =
    update_where
      (λ (r : CredentialLedger).
        r.user_id == user && (bytes_eq r.period period && is_daily r.service))
      (λ r. record r { issued_count = 0 }) rows

-- The arguments of `reset`; `chained` is the key of the entry of the audit chain, where there is one.
pub record ResetRequest : Type 0 where
  pub user_id : ℕ
  pub actor_id : ℕ
  pub idempotency_key : Text
  pub now : ℕ
  pub reset_id : ℕ
  pub chained : Option ℕ

abbrev pub is_reset : ℕ → Bytes → AdminQuotaResetIdempotency → Bool
is_reset actor key_hash i = i.actor_id == actor && bytes_eq i.key_hash key_hash

abbrev pub user_at : ℕ → ResetTables → Option User
user_at k s = get (λ (u : User). u.id) k s.users

-- `digest` is `_calculate_digest`.
module _ (e : CryptoEngine) (rt : Runtime) (uuid_bytes : Text → Option Bytes)
    (digest : Bytes → Bytes) where
  unfoldable pub key_hash_of : ResetRequest → Bytes
  key_hash_of r = digest (rt.utf8 r.idempotency_key)

  unfoldable pub request_hash_of : ResetRequest → Bytes
  request_hash_of r = digest (rt.utf8 (codes "reset_all_quotas|" ++ rt.id_text r.user_id))

  abbrev detail_of : ResetRequest → Bytes
  detail_of r = digest (
      rt.utf8 (
        codes "quota.reset|" ++ (rt.id_text r.user_id ++ (codes "|" ++ rt.isodate (day_of r.now)))))

  -- The answer of an earlier call with the key.
  unfoldable pub replay : ResetRequest → ResetTables → Option (Result QuotaError (List Quota))
  unfolding key_hash_of request_hash_of
  replay r s = elim (select_first (is_reset r.actor_id (key_hash_of r)) s.resets) [
    | none ↦ none
    | some i ↦ some (
        if not (i.target_user_id == r.user_id) || not (bytes_eq i.request_hash (request_hash_of r))
        then err conflict
        else ok i.response)
  ]

  abbrev pub chain_input : ResetRequest → AuditInput
  chain_input r = record {
    actor_id = rt.id_text r.actor_id;
    action = codes "user.quota.reset";
    target = codes "user:" ++ rt.id_text r.user_id;
    detail_hash = detail_of r;
    timestamp = r.now;
  }

  unfoldable pub chain_reset : ResetRequest → ResetAction (Unit {0})
  unfolding append
  chain_reset r s = elim r.chained [
    | none ↦ (ok tt, s)
    | some id ↦
        let (answer, chain) = append e rt uuid_bytes (chain_input r) id s.chain in
        elim answer [
          | ok x ↦ (ok tt, record s { chain = chain })
          | err x ↦ (err internal, record s { chain = chain })
        ]
  ]

  -- The writes of `reset`.
  unfoldable pub write_reset : ResetRequest → ResetTables → ResetTables
  unfolding key_hash_of request_hash_of get_quotas reset_counts
  write_reset r s =
      let rows = reset_counts r.user_id (rt.isodate (day_of r.now)) s.ledger in
      record s {
        ledger = rows;
        resets =
            s.resets
            ++ record {
              id = r.reset_id;
              actor_id = r.actor_id;
              target_user_id = r.user_id;
              key_hash = key_hash_of r;
              request_hash = request_hash_of r;
              response = get_quotas rt r.user_id r.now rows;
              created_at = r.now;
            }
              ∷ [];
        log =
            s.log
            ++ record {
              actor = r.actor_id;
              action = codes "quota.reset";
              target = codes "user:" ++ rt.id_text r.user_id;
              detail_hash = detail_of r;
            }
              ∷ [];
      }

  -- The checks on the two accounts.
  unfoldable pub check_accounts : ResetRequest → ResetTables → Result QuotaError (Unit {0})
  check_accounts r s = elim (user_at r.user_id s) [
    | none ↦ err not_found
    | some u ↦
        if is_pending_deletion u.status
        then err pending_deletion
        else elim (user_at r.actor_id s) [ none ↦ err not_found | some a ↦ ok tt ]
  ]

  -- A reset that is not a replay.
  unfoldable pub reset_new : ResetRequest → ResetAction (List Quota)
  unfolding write_reset chain_reset get_quotas
  reset_new r = do
    modify (write_reset r)
    chain_reset r
    gets λ s. get_quotas rt r.user_id r.now s.ledger

  -- `reset`
  unfoldable pub reset : ResetRequest → ResetAction (List Quota)
  unfolding check_accounts replay reset_new transaction_by
  reset r = do
    raise_if (not (between 16 128 (length r.idempotency_key))) idempotency_invalid
    transaction_by undo (do
      λ s. (check_accounts r s, s)
      λ s. elim (replay r s) [ some answer ↦ (answer, s) | none ↦ reset_new r s ])
