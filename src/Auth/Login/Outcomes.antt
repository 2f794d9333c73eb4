-- ===== src/Auth/Login/Outcomes.antt =====
-- How a login ends (server/app/services/login.py).
use crypto_campus.Prelude.{
  ℕ, ◌+◌, ◌≡◌, refl, ◌∙◌, Bool, true, false, Option, none, some, Bytes, Text, arith, length, ◌==◌,
  leb, between, if◌then◌else◌, get, update_where, rowcount,
}
use crypto_campus.Prelude.Keyed.{select_first-update_any, rowcount-update_any}
use crypto_campus.Models.{User, is_active}
use crypto_campus.Crypto.{CryptoEngine, Runtime}
use crypto_campus.Action.{ok, err, ◌>>=◌, transaction_by, pure}
use crypto_campus.Auth.Policy.{normalize_campus_email}
use crypto_campus.Auth.Sessions.{SessionFresh}
use crypto_campus.Auth.Login.{
  LoginState, invalid_credentials, rate_limited, failed, Attempt, keep_cache, is_locked, has_email,
  user_by_email, count_failure, update_user, record_failure, attempt_user, refused, attempt, finish,
  login,
}
use crypto_campus.Action.Laws.{then_err, then_ok, bind_ok}

-- A request whose address and password have the form that the code asks for.
pub record IsWellFormed (rt : Runtime) (setting email password address : Text) : Type 0 where
  pub address_ok : normalize_campus_email rt setting email ≡ some address
  pub length_ok : between 1 128 (length password) ≡ true
  pub bytes_ok : between 1 512 (length (rt.utf8 password)) ≡ true

-- The first thing that the call does.
abbrev pub started : LoginState → LoginState
started s = record s { pending_refresh_token = none }

-- The user of an address: one row of the table.
pub record IsAccount (address : Text) (s : LoginState) (u : User) : Type 0 where
  pub found : user_by_email address s ≡ some u
  pub by_id : get (λ (x : User). x.id) u.id s.tables.users ≡ some u
  pub once : rowcount (λ (x : User). x.id == u.id) s.tables.users ≡ 1
  pub enabled : is_active u.status ≡ true

pub count_failure-IsAccount :
    (address : Text) (s : LoginState) (u : User) (now : ℕ)
    → IsAccount address s u
    → IsAccount address (started (update_user u.id (count_failure now) s)) (count_failure now u)
unfolding update_user count_failure get
count_failure-IsAccount address s u now q =
    let f = count_failure now in
    record {
      found = ground (
        arith,
        q.found,
        select_first-update_any (has_email address) (λ (x : User). x.id == u.id) f (λ x. refl)
            s.tables.users,
      );
      by_id = ground (
        arith,
        q.by_id,
        select_first-update_any (λ (x : User). x.id == u.id) (λ (x : User). x.id == u.id) f
            (λ x. refl) s.tables.users,
      );
      once =
          rowcount-update_any (λ (x : User). x.id == u.id) (λ (x : User). x.id == u.id) f
            (λ x. refl) s.tables.users
          ∙ q.once;
      enabled = q.enabled;
    }

started-IsAccount :
    (address : Text) (s : LoginState) (u : User)
    → IsAccount address s u
    → IsAccount address (started s) u
started-IsAccount address s u q = record {
  found = q.found;
  by_id = q.by_id;
  once = q.once;
  enabled = q.enabled;
}

module _ (e : CryptoEngine) (rt : Runtime) (setting : Text)
    (issue : User → Option ℕ → ℕ → Option Text) (lost : Bool) where
  abbrev pub attempt_of : Text → Text → Text → ℕ → Option SessionFresh → Attempt
  attempt_of password device ip now service = record {
    password_bytes = rt.utf8 password;
    device = device;
    ip = ip;
    now = now;
    service = service;
  }

  -- A request of the right form is an attempt in a transaction.
  pub login-attempt :
      (email password address device ip : Text) (now : ℕ) (service : Option SessionFresh)
      (s : LoginState)
      → IsWellFormed rt setting email password address
      → login e rt setting issue lost email password device ip now service s
        ≡ (transaction_by keep_cache (
                attempt e rt setting issue lost address (attempt_of password device ip now service))
              >>= finish e rt setting issue lost)
            (started s)
  unfolding login
  login-attempt email password address device ip now service s w =
      rw (w.address_ok, w.length_ok, w.bytes_ok)

  attempt_user-locked :
      (u : User) (a : Attempt) (s : LoginState)
      → is_active u.status ≡ true
      → is_locked u.locked_until a.now ≡ true
      → attempt_user e rt setting issue lost u a s ≡ (err rate_limited, s)
  unfolding attempt_user
  attempt_user-locked u a s enabled locked = rw (enabled, locked)

  attempt_found :
      (address : Text) (a : Attempt) (s : LoginState) (u : User)
      → user_by_email address s ≡ some u
      → attempt e rt setting issue lost address a s ≡ attempt_user e rt setting issue lost u a s
  unfolding attempt
  attempt_found address a s u found = ground (arith, found)

  -- While an account is locked, a login is refused whatever the password is, and nothing is written.
  pub login_locked :
      (email password address device ip : Text) (now : ℕ) (service : Option SessionFresh)
      (s : LoginState) (u : User)
      → IsWellFormed rt setting email password address
      → IsAccount address s u
      → is_locked u.locked_until now ≡ true
      → login e rt setting issue lost email password device ip now service s
        ≡ (err rate_limited, started s)
  login_locked email password address device ip now service s u w q locked =
      let a = attempt_of password device ip now service in
      login-attempt email password address device ip now service s w
      ∙ then_err keep_cache (attempt e rt setting issue lost address a)
          (finish e rt setting issue lost) (started s) (started s) rate_limited
          (attempt_found address a (started s) u q.found
            ∙ attempt_user-locked u a (started s) q.enabled locked)

  -- A password is wrong for a user.
  pub record IsWrong (u : User) (password : Text) (now : ℕ) : Type 0 where
    pub unlocked : is_locked u.locked_until now ≡ false
    pub derived : Bytes
    pub hashed : e.sm3_hash_password (rt.utf8 password) u.salt_a ≡ some derived
    pub differs : e.constant_time_equal derived u.auth_hash ≡ false

  get_counted :
      (address : Text) (u : User) (now : ℕ) (s : LoginState)
      → IsAccount address s u
      → get
          (λ (x : User). x.id)
          u.id
          (update_where (λ (x : User). x.id == u.id) (count_failure now) s.tables.users)
        ≡ some (count_failure now u)
  unfolding update_user count_failure
  get_counted address u now s q = (count_failure-IsAccount address s u now q).by_id

  record_failure_lem :
      (address : Text) (u : User) (now : ℕ) (s : LoginState)
      → IsAccount address s u
      → record_failure u.id now s
        ≡ (ok (count_failure now u), update_user u.id (count_failure now) s)
  unfolding record_failure update_user
  record_failure_lem address u now s q = rw (q.once, get_counted address u now s q)

  refused_lem :
      (address : Text) (u : User) (a : Attempt) (s : LoginState)
      → IsAccount address s u
      → refused e rt setting issue lost u a s ≡ (
        ok (
            failed
              (if leb 5 (u.failed_login_count + 1) then rate_limited else invalid_credentials)),
        update_user u.id (count_failure a.now) s,
      )
  unfolding refused count_failure
  refused_lem address u a s q =
      bind_ok (record_failure u.id a.now)
        (λ u'.
          pure (failed (if leb 5 u'.failed_login_count then rate_limited else invalid_credentials)))
        s (update_user u.id (count_failure a.now) s) (count_failure a.now u)
        (record_failure_lem address u a.now s q)

  attempt_user-wrong :
      (u : User) (password device ip : Text) (now : ℕ) (service : Option SessionFresh)
      (s : LoginState)
      → is_active u.status ≡ true
      → IsWrong u password now
      → attempt_user e rt setting issue lost u (attempt_of password device ip now service) s
        ≡ refused e rt setting issue lost u (attempt_of password device ip now service) s
  unfolding attempt_user
  attempt_user-wrong u password device ip now service s enabled w =
      ground (arith, enabled, w.unlocked, w.hashed, w.differs)

  -- A wrong password is counted, also by a login that is refused, and the fifth one locks the account
  -- for ten minutes; nothing else is written.
  pub login_wrong :
      (email password address device ip : Text) (now : ℕ) (service : Option SessionFresh)
      (s : LoginState) (u : User)
      → IsWellFormed rt setting email password address
      → IsAccount address s u
      → IsWrong u password now
      → login e rt setting issue lost email password device ip now service s ≡ (
        err (if leb 5 (u.failed_login_count + 1) then rate_limited else invalid_credentials),
        started (update_user u.id (count_failure now) s),
      )
  unfolding update_user
  login_wrong email password address device ip now service s u w q x =
      let a = attempt_of password device ip now service in
      login-attempt email password address device ip now service s w
      ∙ then_ok keep_cache (attempt e rt setting issue lost address a)
          (finish e rt setting issue lost) (started s)
          (update_user u.id (count_failure now) (started s))
          (failed (if leb 5 (u.failed_login_count + 1) then rate_limited else invalid_credentials))
          (attempt_found address a (started s) u q.found
            ∙ attempt_user-wrong u password device ip now service (started s) q.enabled x
            ∙ refused_lem address u a (started s) (started-IsAccount address s u q))
