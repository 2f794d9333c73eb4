-- ===== src/Accounts.antt =====
-- `AccountGovernanceService` of server/app/services/account_lifecycle.py: the status and the role of an
-- account. It stands over the sessions, the cache of unlocked keys and the audit chain. A call is taken
-- to begin its own transaction: inside one that has begun, the code leaves the undoing to its owner.
pub mod Freeze
pub mod Shut
pub mod Teachers
pub mod Roles
mod Tests
use crypto_campus.Prelude.{
  ℕ, ◌+◌, Bool, true, false, ◌&&◌, not, Option, none, some, List, [], ◌∷◌, ◌++◌, Bytes, Text,
  length, bytes_eq, ◌==◌, between, if◌then◌else◌, get, update_where, rowcount,
}
use crypto_campus.Text.{codes}
use crypto_campus.Models.{User, Role, UserStatus, is_active, is_pending_deletion}
use crypto_campus.Crypto.{CryptoEngine, Runtime}
use crypto_campus.Action.{
  Result, ok, err, Action, pure, raise_if, or_raise, modify, ◌>>=◌, ◌>>◌, transaction_by, undo,
}
use crypto_campus.Auth.KeyCache.{KeyCache, forget}
use crypto_campus.Auth.Sessions.{AuthTables, UserSession}
use crypto_campus.Audit.{AdminAuditEntry, append}

-- A row of `audit_log` (models/audit.py), without what the database generates.
pub record GovernanceLog : Type 0 where
  pub actor : ℕ
  pub action : Text
  pub target : Text
  pub detail_hash : Bytes

pub record AccountState : Type 0 where
  pub tables : AuthTables
  pub log : List GovernanceLog
  pub chain : List AdminAuditEntry
  pub cache : KeyCache

-- The codes of `AccountGovernanceError` that these calls raise.
pub data AccountError : Type 0 where
  status_invalid role_invalid reason_invalid not_found : AccountError
  system_user pending_deletion last_teacher_protected internal : AccountError

abbrev pub AccountAction : Type 0 → Type 0
AccountAction A = Action AccountState AccountError A

-- The statuses that a request may ask for.
unfoldable pub requested_status : Text → Option UserStatus
requested_status t =
    if bytes_eq t (codes "active")
    then some UserStatus.active
    else if bytes_eq t (codes "frozen")
    then some UserStatus.frozen
    else none

abbrev pub status_text : UserStatus → Text
status_text UserStatus.active = codes "active"
status_text UserStatus.frozen = codes "frozen"
status_text UserStatus.pending_deletion = codes "pending_deletion"

abbrev pub is_frozen : UserStatus → Bool
is_frozen UserStatus.frozen = true
is_frozen _ = false

abbrev pub same_status : UserStatus → UserStatus → Bool
same_status UserStatus.active UserStatus.active = true
same_status UserStatus.frozen UserStatus.frozen = true
same_status UserStatus.pending_deletion UserStatus.pending_deletion = true
same_status _ _ = false

abbrev pub is_system : Role → Bool
is_system Role.system = true
is_system _ = false

abbrev pub is_teacher : Role → Bool
is_teacher Role.teacher = true
is_teacher _ = false

abbrev pub same_role : Role → Role → Bool
same_role Role.student Role.student = true
same_role Role.admin Role.admin = true
same_role Role.teacher Role.teacher = true
same_role Role.system Role.system = true
same_role _ _ = false

-- The roles that a request may ask for.
unfoldable pub requested_role : Text → Option Role
requested_role t =
    if bytes_eq t (codes "student")
    then some Role.student
    else if bytes_eq t (codes "admin")
    then some Role.admin
    else if bytes_eq t (codes "teacher")
    then some Role.teacher
    else none

abbrev pub role_text : Role → Text
role_text Role.student = codes "student"
role_text Role.admin = codes "admin"
role_text Role.teacher = codes "teacher"
role_text Role.system = codes "system"

abbrev pub set_user : ℕ → (User → User) → AccountState → AccountState
set_user k f s = record s {
  tables = record s.tables { users = update_where (λ u. u.id == k) f s.tables.users };
}

-- `UPDATE sessions SET revoked WHERE user_id = .. AND NOT revoked`
abbrev pub revoke_sessions : ℕ → AccountState → AccountState
revoke_sessions k s = record s {
  tables = record s.tables {
    sessions =
        update_where (λ r. r.user_id == k && not r.revoked) (λ r. record r { revoked = true })
          s.tables.sessions;
  };
}

-- The active teachers beside the user `k`.
abbrev pub other_teachers : ℕ → List User → ℕ
other_teachers k us =
    rowcount (λ (u : User). (is_teacher u.role && is_active u.status) && not (u.id == k)) us

-- The arguments of a call beside the new value; `audit` is the key of the new entry of the chain, where
-- there is a service for it.
pub record Governance : Type 0 where
  pub actor_id : ℕ
  pub target_id : ℕ
  pub reason : Text
  pub now : ℕ
  pub audit : Option ℕ

module _ (e : CryptoEngine) (rt : Runtime) (uuid_bytes : Text → Option Bytes) where
  -- `_digest`
  unfoldable pub digest32 : Bytes → AccountAction Bytes
  digest32 b s =
      if length (e.sm3_digest b) == 32 then (ok (e.sm3_digest b), s) else (err internal, s)

  unfoldable pub chain_entry : Governance → Text → Bytes → AccountAction (Unit {0})
  chain_entry g action detail_hash s = elim g.audit [
    | none ↦ (ok tt, s)
    | some id ↦
        let (r, chain) =
          append e rt uuid_bytes
            (record {
              actor_id = rt.id_text g.actor_id;
              action = action;
              target = codes "user:" ++ rt.id_text g.target_id;
              detail_hash = detail_hash;
              timestamp = g.now;
            })
            id s.chain in
        elim r [
          | ok x ↦ (ok tt, record s { chain = chain })
          | err x ↦ (err internal, record s { chain = chain })
        ]
  ]

  -- The rows that record a change from one value to another.
  unfoldable pub record_change : Governance → Text → Text → Text → Text → AccountAction (Unit {0})
  unfolding digest32 chain_entry
  record_change g log_action action before after = do
    reason_hash ← digest32 (rt.utf8 (rt.strip g.reason))
    detail_hash ← digest32 (
        rt.utf8 (
          action
          ++ (codes "|"
              ++ (rt.id_text g.target_id
                  ++ (codes "|"
                      ++ (before
                          ++ (codes "|" ++ (after ++ (codes "|" ++ rt.hex reason_hash)))))))))
    modify λ s. record s {
      log =
          s.log
          ++ record {
            actor = g.actor_id;
            action = log_action;
            target = codes "user:" ++ rt.id_text g.target_id;
            detail_hash = detail_hash;
          }
            ∷ [];
    }
    chain_entry g action detail_hash

  -- The account that a call may change.
  unfoldable pub target_of : ℕ → AccountAction User
  target_of k = do
    u ← λ s. or_raise (get (λ (x : User). x.id) k s.tables.users) not_found s
    raise_if (is_system u.role) system_user
    raise_if (is_pending_deletion u.status) pending_deletion
    pure u

  -- The block of `update_status`: the account, and whether its key has to go.
  unfoldable pub change_status : Governance → UserStatus → AccountAction (User × Bool)
  unfolding target_of record_change
  change_status g status = do
    u ← target_of g.target_id
    (if same_status u.status status then pure (u, false) else (do
      modify (set_user g.target_id λ x. record x { status = status })
      modify λ s. if is_frozen status then revoke_sessions g.target_id s else s
      record_change g (if is_frozen status then codes "user.freeze" else codes "user.unfreeze")
          (codes "user.status.update") (status_text u.status) (status_text status)
      pure (record u { status = status }, is_frozen status)))

  abbrev pub clear_key : ℕ → Bool → AccountState → AccountState
  clear_key k c s = if c then record s { cache = forget k s.cache } else s

  unfoldable pub update_status : Governance → Text → AccountAction User
  unfolding transaction_by change_status
  update_status g status = do
    new_status ← or_raise (requested_status status) status_invalid
    raise_if (not (between 1 500 (length (rt.strip g.reason)))) reason_invalid
    (u, clear) ← transaction_by undo (change_status g new_status)
    modify (clear_key g.target_id clear)
    pure u

  -- The block of `update_role`.
  unfoldable pub change_role : Governance → Role → AccountAction (User × Bool)
  unfolding target_of record_change
  change_role g role = do
    u ← target_of g.target_id
    (if same_role u.role role then pure (u, false) else (do
      (λ s.
          raise_if
            ((is_teacher u.role && (is_active u.status && not (is_teacher role)))
              && other_teachers g.target_id s.tables.users == 0)
            last_teacher_protected s)
      modify (set_user g.target_id λ x. record x { role = role })
      modify (revoke_sessions g.target_id)
      record_change g (codes "user.role.update") (codes "user.role.update") (role_text u.role)
          (role_text role)
      pure (record u { role = role }, true)))

  unfoldable pub update_role : Governance → Text → AccountAction User
  unfolding transaction_by change_role
  update_role g role = do
    new_role ← or_raise (requested_role role) role_invalid
    raise_if (not (between 1 500 (length (rt.strip g.reason)))) reason_invalid
    (u, clear) ← transaction_by undo (change_role g new_role)
    modify (clear_key g.target_id clear)
    pure u
