-- ===== src/Auth/Login/Entry.antt =====
-- Who gets in (server/app/services/login.py).
use crypto_campus.Prelude.{
  ℕ, ◌≡◌, sym, ap, ◌∙◌, Bool, true, false, Option, some, Bytes, Text, arith, length, between, leb,
  if◌then◌else◌, Option-cases, Bool-cases, inl, inr,
}
use crypto_campus.Text.{codes}
use crypto_campus.Models.{User, is_active}
use mathlib.Core.Path.{subst₂}
use crypto_campus.Crypto.{CryptoEngine, Runtime}
use crypto_campus.Action.{Result, ok, pure}
use crypto_campus.Action.Laws.{bind_inv, then_inv, not_ok}
use crypto_campus.Auth.Policy.{normalize_campus_email}
use crypto_campus.Auth.Sessions.{SessionFresh}
use crypto_campus.Auth.Login.{
  LoginState, LoginError, AuthSession, Outcome, failed, logged_in, Attempt, keep_cache, is_locked,
  user_by_email, attempt_user, attempt_unknown, granted, refused, attempt, finish, login,
  record_failure, rate_limited, invalid_credentials, unlocked,
}
use crypto_campus.Auth.Login.Outcomes.{IsWellFormed, started, attempt_of, login-attempt}
use crypto_campus.Auth.Login.Secret.{Decrypts}
use crypto_campus.Auth.Login.Granted.{HasOpened, granted_inv}

module _ (e : CryptoEngine) (rt : Runtime) (setting : Text)
    (issue : User → Option ℕ → ℕ → Option Text) (lost : Bool) where
  -- What a login that succeeds has found.
  pub record IsAuthenticated (address : Text) (password_bytes : Bytes) (now : ℕ) (s : LoginState)
      (u : User) : Type 0 where
    pub found : user_by_email address s ≡ some u
    pub enabled : is_active u.status ≡ true
    pub unlocked : is_locked u.locked_until now ≡ false
    pub derived : Bytes
    pub hashed : e.sm3_hash_password password_bytes u.salt_a ≡ some derived
    pub equal : e.constant_time_equal derived u.auth_hash ≡ true

  started-IsAuthenticated :
      (address : Text) (p : Bytes) (now : ℕ) (s : LoginState) (u : User)
      → IsAuthenticated address p now (started s) u
      → IsAuthenticated address p now s u
  started-IsAuthenticated address p now s u z = record {
    found = z.found;
    enabled = z.enabled;
    unlocked = z.unlocked;
    derived = z.derived;
    hashed = z.hashed;
    equal = z.equal;
  }

  refused-not_in :
      (u : User) (a : Attempt) (s s' : LoginState) (r : AuthSession)
      → ¬ (refused e rt setting issue lost u a s ≡ (ok (logged_in r), s'))
  unfolding refused
  refused-not_in u a s s' r h =
      let (u', q, t) =
        bind_inv
          (λ u'.
            pure
              (failed (if leb 5 u'.failed_login_count then rate_limited else invalid_credentials)))
          (record_failure u.id a.now) s s' (logged_in r) h in
      ground (arith, ap (λ (z : Result LoginError Outcome × LoginState). z.0) t)

  attempt_user_inv :
      (address : Text) (u : User) (a : Attempt) (s s' : LoginState) (r : AuthSession)
      → user_by_email address s ≡ some u
      → attempt_user e rt setting issue lost u a s ≡ (ok (logged_in r), s')
      → IsAuthenticated address a.password_bytes a.now s u
        × (granted e rt setting issue lost u a s ≡ (ok (logged_in r), s'))
  unfolding attempt_user
  attempt_user_inv address u a s s' r found h = elim (Bool-cases (is_active u.status)) [
    | inr off ↦ absurd (ground (arith, h, off))
    | inl on ↦ elim (Bool-cases (is_locked u.locked_until a.now)) [
      | inl locked ↦ absurd (ground (arith, h, on, locked))
      | inr unlocked ↦ elim (Option-cases (e.sm3_hash_password a.password_bytes u.salt_a)) [
        | inl broken ↦ absurd (ground (arith, h, on, unlocked, broken))
        | inr (d, hashed) ↦ elim (Bool-cases (e.constant_time_equal d u.auth_hash)) [
          | inl same ↦ (
            record {
              found = found;
              enabled = on;
              unlocked = unlocked;
              derived = d;
              hashed = hashed;
              equal = same;
            },
            ground (arith, h, on, unlocked, hashed, same),
          )
          | inr differs ↦
              absurd (refused-not_in u a s s' r (ground (arith, h, on, unlocked, hashed, differs)))
        ]
      ]
    ]
  ]

  attempt_inv :
      (address : Text) (a : Attempt) (s s' : LoginState) (r : AuthSession)
      → attempt e rt setting issue lost address a s ≡ (ok (logged_in r), s')
      → (u : User) × (key : Bytes) × IsAuthenticated address a.password_bytes a.now s u
        × Decrypts e u a.password_bytes key
        × HasOpened e rt setting issue lost u.id key a s'
  unfolding attempt attempt_unknown
  attempt_inv address a s s' r h = elim (Option-cases (user_by_email address s)) [
    | inl missing ↦
        elim (Option-cases (e.sm3_hash_password a.password_bytes (codes "login-dummy-salt-a"))) [
          | inl broken ↦ absurd (ground (arith, h, missing, broken))
          | inr (d, hashed) ↦ absurd (ground (arith, h, missing, hashed))
        ]
    | inr (u, found) ↦
        let (q, h') = attempt_user_inv address u a s s' r found (ground (arith, h, found)) in
        let (key, decrypts, opened) =
          granted_inv e rt setting issue lost u a s s' (logged_in r) h' in
        (u, key, q, decrypts, opened)
  ]

  IsWellFormed-cases :
      (email password device ip : Text) (now : ℕ) (service : Option SessionFresh)
      (s s' : LoginState) (r : AuthSession)
      → login e rt setting issue lost email password device ip now service s ≡ (ok r, s')
      → (address : Text) × IsWellFormed rt setting email password address
  unfolding login
  IsWellFormed-cases email password device ip now service s s' r h =
      elim (Option-cases (normalize_campus_email rt setting email)) [
        | inl bad ↦ absurd (ground (arith, h, bad))
        | inr (address, good) ↦ elim (Bool-cases (between 1 128 (length password))) [
          | inr bad ↦ absurd (ground (arith, h, good, bad))
          | inl short ↦ elim (Bool-cases (between 1 512 (length (rt.utf8 password)))) [
            | inr bad ↦ absurd (ground (arith, h, good, short, bad))
            | inl small ↦
                (address, record { address_ok = good; length_ok = short; bytes_ok = small })
          ]
        ]
      ]

  finish_inv :
      (o : Outcome) (s s' : LoginState) (r : AuthSession)
      → finish e rt setting issue lost o s ≡ (ok r, s')
      → (o ≡ logged_in r) × (s ≡ s')
  finish_inv (failed x) s s' r h = absurd (not_ok x r s s' h)
  finish_inv (logged_in x) s s' r h = ground (arith, h)

  -- Whoever gets in has an account: a login that succeeds was for the campus address of an active
  -- account that was not locked, with the password whose hash the account holds. It leaves in the
  -- cache, for fifteen minutes, the private key that the engine decrypts from the nonce, the ciphertext
  -- and the tag of the account's encrypted key with the key derived from that password and the
  -- account's salt, and which is not empty; and the refresh token of the new session, if there is a
  -- service for sessions, for the client to take.
  pub login_ok :
      (email password device ip : Text) (now : ℕ) (service : Option SessionFresh)
      (s s' : LoginState) (r : AuthSession)
      → login e rt setting issue lost email password device ip now service s ≡ (ok r, s')
      → (address : Text) × (u : User) × (key : Bytes) × IsWellFormed rt setting email password
          address
        × IsAuthenticated address (rt.utf8 password) now s u
        × Decrypts e u (rt.utf8 password) key
        × HasOpened e rt setting issue lost u.id key
            (attempt_of e rt setting issue lost password device ip now service)
            s'
  login_ok email password device ip now service s s' r h =
      let a = attempt_of e rt setting issue lost password device ip now service in
      let (address, w) = IsWellFormed-cases email password device ip now service s s' r h in
      let (o, q, h1) =
        then_inv (finish e rt setting issue lost) keep_cache
          (attempt e rt setting issue lost address a) (started s) s' r
          (sym (
              login-attempt e rt setting issue lost email password address device ip now service s
                w)
            ∙ h) in
      let (x, y) = finish_inv o (attempt e rt setting issue lost address a (started s)).1 s' r h1 in
      let (u, key, z, decrypts, opened) =
        attempt_inv address a (started s) s' r (
          subst₂ (λ c d. attempt e rt setting issue lost address a (started s) ≡ (ok c, d)) x y
            q) in
      (
        address,
        u,
        key,
        w,
        started-IsAuthenticated address (rt.utf8 password) now s u z,
        decrypts,
        opened,
      )
