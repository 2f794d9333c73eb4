-- ===== src/Auth/Login.antt =====
-- `LoginService` of server/app/services/login.py. `Outcomes`, `Lockout`, `Granted` and `Entry` are
-- about how logins end.
pub mod Outcomes
pub mod Secret
pub mod Granted
pub mod Entry
pub mod Lockout
use crypto_campus.Prelude.{
  ℕ, ◌+◌, ◌-◌, ◌*◌, Bool, true, false, not, Option, none, some, List, [], ◌∷◌, Bytes, Text, length,
  take, drop, bytes_eq, ◌==◌, leb, ltb, between, if◌then◌else◌, select_first, get, update_where,
  rowcount, is_some,
}
use crypto_campus.Text.{codes}
use crypto_campus.Models.{User, Role, UserStatus, is_active}
use crypto_campus.Crypto.{CryptoEngine, Runtime}
use crypto_campus.Action.{
  Result, ok, err, Action, pure, raise, raise_if, gets, or_raise, modify, ◌>>=◌, ◌>>◌,
  transaction_by,
}
use crypto_campus.Auth.Policy.{normalize_campus_email}
use crypto_campus.Auth.KeyCache.{KeyCache, put, forget}
use crypto_campus.Auth.Sessions.{AuthTables, UserSession, SessionFresh, create}

-- The tables, the cache of unlocked keys, and the refresh token that waits to be taken.
pub record LoginState : Type 0 where
  pub tables : AuthTables
  pub cache : KeyCache
  pub pending_refresh_token : Option Text

-- The codes of `LoginError`.
pub data LoginError : Type 0 where
  invalid_credentials rate_limited provider_unavailable internal_error : LoginError

pub record UserSummary : Type 0 where
  pub id : ℕ
  pub email : Text
  pub role : Role
  pub status : UserStatus
  pub pqc_mode : Bool
  pub created_at : ℕ

pub record AuthSession : Type 0 where
  pub access_token : Text
  pub expires_in : ℕ
  pub user : UserSummary

-- How the block of the transaction ends when it does not raise.
pub data Outcome : Type 0 where
  failed : LoginError → Outcome
  logged_in : AuthSession → Outcome

abbrev pub LoginAction : Type 0 → Type 0
LoginAction A = Action LoginState LoginError A

-- What the caller gives beside the address: the password's bytes, the client, the instant, and what a
-- new session takes from outside (`none` where there is no session service).
pub record Attempt : Type 0 where
  pub password_bytes : Bytes
  pub device : Text
  pub ip : Text
  pub now : ℕ
  pub service : Option SessionFresh

-- The exception undoes what was written to the tables; the rest of the state is no database's.
abbrev pub keep_cache : LoginState → LoginState → LoginState
keep_cache before after = record after { tables = before.tables }

-- `_parse_encrypted_private_key`: the nonce, the ciphertext and the tag.
unfoldable pub parse_encrypted_private_key : Bytes → Option (Bytes × Bytes × Bytes)
parse_encrypted_private_key enc_sk =
    if ltb (length enc_sk) (2 + 12 + 16)
    then none
    else if not (bytes_eq (take 2 enc_sk) (codes "v1"))
    then none
    else let ciphertext = take (length enc_sk - 16 - (2 + 12)) (drop (2 + 12) enc_sk) in
      if length ciphertext == 0
      then none
      else some (take 12 (drop 2 enc_sk), ciphertext, drop (length enc_sk - 16) enc_sk)

-- `user.locked_until is not None and user.locked_until > now`
unfoldable pub is_locked : Option ℕ → ℕ → Bool
is_locked none now = false
is_locked (some t) now = ltb now t

abbrev pub has_email : Text → User → Bool
has_email t u = elim u.email [ none ↦ false | some x ↦ bytes_eq x t ]

abbrev pub user_by_email : Text → LoginState → Option User
user_by_email t s = select_first (has_email t) s.tables.users

-- The row after one more wrong password.
unfoldable pub count_failure : ℕ → User → User
count_failure now u =
    let next_count = u.failed_login_count + 1 in
    record u {
      failed_login_count = next_count;
      locked_until = if leb 5 next_count then some (now + 10 * 60 * 1000000) else u.locked_until;
    }

abbrev pub clear_failures : User → User
clear_failures u = record u { failed_login_count = 0; locked_until = none }

unfoldable pub update_user : ℕ → (User → User) → LoginState → LoginState
update_user k f s = record s {
  tables = record s.tables { users = update_where (λ u. u.id == k) f s.tables.users };
}

-- `_record_failure`; the row as it is read back.
unfoldable pub record_failure : ℕ → ℕ → LoginAction User
unfolding update_user
record_failure k now s =
    if rowcount (λ (u : User). u.id == k) s.tables.users == 1
    then (let s' = update_user k (count_failure now) s in
        or_raise (get (λ (u : User). u.id) k s'.tables.users) internal_error s')
    else (err internal_error, update_user k (count_failure now) s)

-- The handlers of `login` that drop a key which the failed call has put into the cache.
unfoldable pub forgetting : {A : Type 0} → ℕ → LoginAction A → LoginAction A
forgetting k m s =
    let (r, s') = m s in
    elim r [ ok a ↦ (ok a, s') | err x ↦ (err x, record s' { cache = forget k s'.cache }) ]

-- `key_cache.put`
unfoldable pub put_key : ℕ → Bytes → ℕ → LoginAction (Unit {0})
put_key k key expires_at s = elim (put k key expires_at s.cache) [
  | none ↦ (err internal_error, s)
  | some c ↦ (ok tt, record s { cache = c })
]

unfoldable pub summary_of : User → Option UserSummary
summary_of u = elim u.email [
  | none ↦ none
  | some t ↦ some (record {
    id = u.id;
    email = t;
    role = u.role;
    status = u.status;
    pqc_mode = is_some u.pqc_pubkey;
    created_at = u.created_at;
  })
]

-- `issue` is the access token for a user, the key of a session and an instant; `setting` is the setting of the
-- allowed domains; `lost` tells whether an error of the engine says that its provider is unavailable.
module _ (e : CryptoEngine) (rt : Runtime) (setting : Text)
    (issue : User → Option ℕ → ℕ → Option Text) (lost : Bool) where
  abbrev pub bridge_error : LoginError
  bridge_error = if lost then provider_unavailable else internal_error

  -- `session_service.create`
  unfoldable pub open_session : ℕ → Attempt → LoginAction (Option (Text × UserSession))
  open_session k a s = elim a.service [
    | none ↦ (ok none, s)
    | some f ↦
        let (r, t) = create e rt k a.device a.ip f a.now s.tables in
        elim r [
          | ok x ↦ (ok (some x), record s { tables = t })
          | err x ↦ (err internal_error, record s { tables = t })
        ]
  ]

  abbrev pub session_id : Option (Text × UserSession) → Option ℕ
  session_id none = none
  session_id (some x) = some x.1.id

  abbrev pub refresh_token : Option (Text × UserSession) → Option Text
  refresh_token none = none
  refresh_token (some x) = some x.0

  -- From the put on: what an exception makes the call drop the key again for.
  unfoldable pub unlocked : User → Bytes → Attempt → LoginAction Outcome
  unfolding put_key open_session summary_of
  unlocked u private_key a = do
    put_key u.id private_key (a.now + 15 * 60 * 1000000)
    opened ← open_session u.id a
    access_token ← or_raise (issue (clear_failures u) (session_id opened) a.now) internal_error
    modify λ s. record s { pending_refresh_token = refresh_token opened }
    user ← or_raise (summary_of (clear_failures u)) internal_error
    pure (logged_in (record { access_token = access_token; expires_in = 7200; user = user }))

  -- The password was right.
  unfoldable pub granted : User → Attempt → LoginAction Outcome
  unfolding parse_encrypted_private_key update_user forgetting
  granted u a = do
    kek ← or_raise (e.hkdf_sm3 a.password_bytes u.salt_k (codes "user-kek") 16) bridge_error
    (nonce, ciphertext, tag) ← or_raise (parse_encrypted_private_key u.enc_sk) internal_error
    private_key ← or_raise (e.sm4_gcm_decrypt kek nonce ciphertext [] tag) bridge_error
    raise_if (length private_key == 0) internal_error
    modify (update_user u.id clear_failures)
    forgetting u.id (unlocked u private_key a)

  -- The password was wrong.
  unfoldable pub refused : User → Attempt → LoginAction Outcome
  unfolding record_failure
  refused u a = do
    u' ← record_failure u.id a.now
    pure (failed (if leb 5 u'.failed_login_count then rate_limited else invalid_credentials))

  unfoldable pub attempt_user : User → Attempt → LoginAction Outcome
  unfolding is_locked
  attempt_user u a = do
    raise_if (not (is_active u.status)) invalid_credentials
    raise_if (is_locked u.locked_until a.now) rate_limited
    derived_hash ← or_raise (e.sm3_hash_password a.password_bytes u.salt_a) bridge_error
    (if e.constant_time_equal derived_hash u.auth_hash then granted u a else refused u a)

  -- `_authenticate_dummy`, for an unknown address, and the error that follows it.
  unfoldable pub attempt_unknown : Attempt → LoginAction Outcome
  attempt_unknown a = do
    or_raise (e.sm3_hash_password a.password_bytes (codes "login-dummy-salt-a")) bridge_error
    raise invalid_credentials

  -- The block of the transaction.
  unfoldable pub attempt : Text → Attempt → LoginAction Outcome
  unfolding attempt_user attempt_unknown
  attempt email a s = elim (user_by_email email s) [
    | none ↦ attempt_unknown a s
    | some u ↦ attempt_user u a s
  ]

  -- `if failure_code is not None: raise`
  abbrev pub finish : Outcome → LoginAction AuthSession
  finish (failed x) = raise x
  finish (logged_in r) = pure r

  unfoldable pub login :
      Text → Text → Text → Text → ℕ → Option SessionFresh → LoginAction AuthSession
  unfolding transaction_by attempt
  login email password device ip now service = do
    modify λ s. record s { pending_refresh_token = none }
    normalized_email ← or_raise (normalize_campus_email rt setting email) invalid_credentials
    raise_if (not (between 1 128 (length password))) invalid_credentials
    raise_if (not (between 1 512 (length (rt.utf8 password)))) invalid_credentials
    outcome ← transaction_by keep_cache (
        attempt normalized_email (record {
          password_bytes = rt.utf8 password;
          device = device;
          ip = ip;
          now = now;
          service = service;
        }))
    finish outcome

-- `take_refresh_token`
pub take_refresh_token : LoginState → Option Text × LoginState
take_refresh_token s = (s.pending_refresh_token, record s { pending_refresh_token = none })
