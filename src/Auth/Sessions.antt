-- ===== src/Auth/Sessions.antt =====
-- `SessionService` of server/app/services/sessions.py over the table of models/session.py.
pub mod Once
pub mod Spent
pub mod Reuse
use crypto_campus.Prelude.{
  ℕ, zero, suc, ◌+◌, ◌*◌, Bool, true, false, ◌&&◌, ◌||◌, not, Option, none, some, List, [], ◌∷◌,
  ◌++◌, map, Bytes, Text, length, take, bytes_eq, ◌==◌, ltb, leb, if◌then◌else◌, get, select_first,
  select, update_where, rowcount, is_some,
}
use crypto_campus.Text.{codes}
use crypto_campus.Models.{User, is_active}
use crypto_campus.Crypto.{CryptoEngine, Runtime}
use crypto_campus.Action.{
  Result, ok, err, Action, pure, raise, raise_if, gets, or_raise, modify, ◌>>=◌, ◌>>◌,
  transaction_by, undo,
}

-- A row of the table `sessions`; `refresh_token_hash` is unique.
pub record UserSession : Type 0 where
  pub id : ℕ
  pub user_id : ℕ
  pub device : Text
  pub ip : Text
  pub refresh_token_hash : Bytes
  pub expires_at : ℕ
  pub last_active_at : ℕ
  pub revoked : Bool

pub record AuthTables : Type 0 where
  pub users : List User
  pub sessions : List UserSession

-- The codes of `SessionError`.
pub data SessionError : Type 0 where
  invalid not_found internal : SessionError

-- REFRESH_TOKEN_TTL
abbrev pub refresh_token_ttl : ℕ
refresh_token_ttl = 7 * 24 * 60 * 60 * 1000000

unfoldable pub starts_with : Text → Text → Bool
starts_with [] ys = true
starts_with (x ∷ xs) [] = false
starts_with (x ∷ xs) (y ∷ ys) = x == y && starts_with xs ys

-- `marker in text`
unfoldable pub contains : Text → Text → Bool
unfolding starts_with
contains xs [] = starts_with xs []
contains xs (y ∷ ys) = let rest = contains xs ys in starts_with xs (y ∷ ys) || rest

-- `str.split` by one character.
unfoldable pub split_by : ℕ → Text → List Text
split_by c [] = [] ∷ []
split_by c (x ∷ xs) = elim (split_by c xs) [
  | [] ↦ []
  | p ∷ ps ↦ if x == c then [] ∷ p ∷ ps else (x ∷ p) ∷ ps
]

pub join_by : ℕ → List Text → Text
join_by c [] = []
join_by c (t ∷ []) = t
join_by c (t ∷ ts) = t ++ (c ∷ join_by c ts)

-- `mask_ip`
pub mask_ip : Text → Text
unfolding contains starts_with split_by join_by
mask_ip value =
    if contains (codes ".") value
    then (let parts = split_by b'.' value in
        if length parts == 4 then join_by b'.' (take 3 parts ++ codes "xxx" ∷ []) else codes "xxx")
    else if contains (codes ":") value
    then join_by b':' (take 4 (split_by b':' value) ++ codes "xxxx" ∷ [])
    else codes "xxx"

-- `_ip`
pub ip_of : Text → Text
ip_of [] = codes "0.0.0.0"
ip_of (c ∷ cs) = take 45 (c ∷ cs)

-- `order_by(last_active_at.desc())`
insert_latest : UserSession → List UserSession → List UserSession
insert_latest a [] = a ∷ []
insert_latest a (r ∷ rs) =
    let rest = insert_latest a rs in
    if leb r.last_active_at a.last_active_at then a ∷ r ∷ rs else r ∷ rest

latest_first : List UserSession → List UserSession
unfolding insert_latest
latest_first [] = []
latest_first (r ∷ rs) = insert_latest r (latest_first rs)

-- `DeviceSession`
pub record DeviceSession : Type 0 where
  pub id : ℕ
  pub device : Text
  pub ip_masked : Text
  pub last_active_at : ℕ
  pub current : Bool

-- What a call takes from outside: the new token, the key of the new row, and the instant.
pub record SessionFresh : Type 0 where
  pub token : Text
  pub id : ℕ

abbrev pub SessionAction : Type 0 → Type 0
SessionAction A = Action AuthTables SessionError A

abbrev pub has_hash : Bytes → UserSession → Bool
has_hash h r = bytes_eq r.refresh_token_hash h

module _ (e : CryptoEngine) (rt : Runtime) where
  -- `_digest`
  unfoldable pub session_digest : Text → SessionAction Bytes
  session_digest [] = raise invalid
  session_digest (c ∷ cs) =
      let d = e.sm3_digest (rt.utf8 (c ∷ cs)) in if length d == 0 then raise internal else pure d

  -- `_device`
  unfoldable pub device_of : Text → Text
  unfolding contains
  device_of value =
      let normalized = rt.strip value in
      let lowered = rt.lower normalized in
      if length normalized == 0
      then codes "unknown"
      else if contains (codes "edg/") lowered
      then codes "Edge"
      else if contains (codes "chrome/") lowered
      then codes "Chrome"
      else if contains (codes "firefox/") lowered
      then codes "Firefox"
      else if contains (codes "safari/") lowered
      then codes "Safari"
      else if leb (length normalized) 100
      then take 100 normalized
      else codes "unknown"

  -- The row of a new session.
  unfoldable pub new_session : ℕ → Text → Text → Bytes → ℕ → ℕ → UserSession
  unfolding device_of ip_of
  new_session user_id device ip hash id now = record {
    id = id;
    user_id = user_id;
    device = device_of device;
    ip = ip_of ip;
    refresh_token_hash = hash;
    expires_at = now + refresh_token_ttl;
    last_active_at = now;
    revoked = false;
  }

  -- `add` and `flush`: a second row of a key or of a hash is an `IntegrityError`.
  unfoldable pub add_session : UserSession → SessionAction (Unit {0})
  add_session r s =
      if is_some (get (λ x. x.id) r.id s.sessions)
        || is_some (select_first (has_hash r.refresh_token_hash) s.sessions)
      then (err internal, s)
      else (ok tt, record s { sessions = s.sessions ++ r ∷ [] })

  unfoldable pub create : ℕ → Text → Text → SessionFresh → ℕ → SessionAction (Text × UserSession)
  unfolding session_digest add_session transaction_by
  create user_id device ip f now = do
    hash ← session_digest f.token
    transaction_by undo (add_session (new_session user_id device ip hash f.id now))
    pure (f.token, new_session user_id device ip hash f.id now)

  abbrev pub by_token_hash : Bytes → AuthTables → Option UserSession
  by_token_hash h s = select_first (has_hash h) s.sessions

  abbrev pub is_active_user : Option User → Bool
  is_active_user none = false
  is_active_user (some u) = is_active u.status

  -- The session that a token may be exchanged for, and its user.
  unfoldable pub usable : Bytes → ℕ → AuthTables → Option (UserSession × User)
  usable h now s = elim (by_token_hash h s) [
    | none ↦ none
    | some r ↦ elim (get (λ u. u.id) r.user_id s.users) [
      | none ↦ none
      | some u ↦
          if not (is_active u.status) || (r.revoked || leb r.expires_at now)
          then none
          else some (r, u)
    ]
  ]

  -- `UPDATE .. SET revoked WHERE id = .. AND NOT revoked`
  unfoldable pub revoke_row : ℕ → SessionAction ℕ
  revoke_row k s = (
    ok (rowcount (λ r. r.id == k && not r.revoked) s.sessions),
    record s {
      sessions =
          update_where (λ r. r.id == k && not r.revoked) (λ r. record r { revoked = true })
            s.sessions;
    },
  )

  -- The block that `rotate` and `refresh` share.
  unfoldable pub exchange :
      Bytes → ℕ → Text → Text → SessionFresh → SessionAction (Text × UserSession × User)
  exchange h now device ip f = do
    (r, u) ← λ s. or_raise (usable h now s) invalid s
    touched ← revoke_row r.id
    raise_if (not (touched == 1)) invalid
    hash ← session_digest f.token
    add_session (new_session u.id device ip hash f.id now)
    pure (f.token, new_session u.id device ip hash f.id now, u)

  unfoldable pub rotate :
      Text → ℕ → Text → Text → SessionFresh → SessionAction (Text × UserSession × User)
  rotate token now device ip f = do
    h ← session_digest token
    transaction_by undo (exchange h now device ip f)

  abbrev pub nonempty_token : Option Text → SessionAction Text
  nonempty_token none = raise internal
  nonempty_token (some []) = raise internal
  nonempty_token (some (c ∷ cs)) = pure (c ∷ cs)

  -- `refresh`, with the access token that the issuer gives for a user and a session.
  pub refresh :
      (User → ℕ → Option Text)
      → Text
      → ℕ
      → Text
      → Text
      → SessionFresh
      → SessionAction (Text × UserSession × User × Text)
  refresh issue token now device ip f = do
    h ← session_digest token
    transaction_by undo (do
      (new_token, r, u) ← exchange h now device ip f
      access_token ← nonempty_token (issue u r.id)
      pure (new_token, r, u, access_token))

  -- `revoke`; the object that was loaded is written back by its key.
  pub revoke : Text → ℕ → SessionAction (Unit {0})
  revoke token now = do
    h ← session_digest token
    transaction_by undo (do
      r ← λ s. or_raise (by_token_hash h s) invalid s
      raise_if (r.revoked || leb r.expires_at now) invalid
      modify λ s. record s {
        sessions = update_where (λ x. x.id == r.id) (λ x. record x { revoked = true }) s.sessions;
      })

  pub revoke_for_user : ℕ → ℕ → SessionAction (Unit {0})
  revoke_for_user user_id session_id = transaction_by undo (do
    r ← λ s.
        or_raise (select_first (λ x. x.id == session_id && x.user_id == user_id) s.sessions)
          not_found s
    modify λ s. record s {
      sessions = update_where (λ x. x.id == r.id) (λ x. record x { revoked = true }) s.sessions;
    })

  pub list_for_user : ℕ → Option ℕ → AuthTables → List DeviceSession
  unfolding latest_first mask_ip
  list_for_user user_id current s =
      map
        (λ r. record {
          id = r.id;
          device = r.device;
          ip_masked = mask_ip r.ip;
          last_active_at = r.last_active_at;
          current = elim current [ none ↦ false | some k ↦ r.id == k ];
        })
        (latest_first (select (λ r. r.user_id == user_id) s.sessions))
