-- ===== src/Auth/Login/Granted.antt =====
-- What a login with the right password does (server/app/services/login.py).
use crypto_campus.Prelude.{
  ℕ, ◌≡◌, refl, ap, ◌∙◌, Bool, Option, none, some, [], Bytes, Text, arith, length, Option-cases,
  Bool-cases, inl, inr, ◌+◌, ◌*◌, ◌==◌,
}
use crypto_campus.Text.{codes}
use crypto_campus.Models.{User}
use mathlib.Core.Option
use crypto_campus.Crypto.{CryptoEngine, Runtime}
use crypto_campus.Action.{ok, or_raise, ◌>>=◌, pure, modify, ◌>>◌}
use crypto_campus.Action.Laws.{bind_inv, not_ok, Result-cases}
use crypto_campus.Auth.Sessions.{UserSession, create}
use crypto_campus.Auth.Login.{
  LoginState, Outcome, logged_in, LoginAction, Attempt, granted, internal_error, put_key,
  open_session, refresh_token, session_id, unlocked, summary_of, forgetting,
  parse_encrypted_private_key, clear_failures, update_user,
}
use crypto_campus.Auth.Login.Secret.{Decrypts, parse_encrypted_private_key-IsEncrypted}
use crypto_campus.Auth.Sessions.Once.{create_token}
use crypto_campus.Auth.KeyCache.{entry_of_user, put_found, put}

module _ (e : CryptoEngine) (rt : Runtime) (setting : Text)
    (issue : User → Option ℕ → ℕ → Option Text) (lost : Bool) where
  open_session_inv :
      (k : ℕ) (a : Attempt) (s s' : LoginState) (o : Option (Text × UserSession))
      → open_session e rt setting issue lost k a s ≡ (ok o, s')
      → (s'.cache ≡ s.cache)
        × (refresh_token e rt setting issue lost o ≡ Option.map (λ f. f.token) a.service)
  unfolding open_session
  open_session_inv k a s s' o h = elim (Option-cases a.service) [
    | inl without ↦ ground (arith, h, without)
    | inr (f, given) ↦ elim (Result-cases (create e rt k a.device a.ip f a.now s.tables)) [
      | inl (x, q) ↦ absurd (ground (arith, h, given, q))
      | inr (x, q) ↦ ground (
        arith,
        h,
        given,
        q,
        create_token e rt k a.device a.ip f a.now s.tables
            (create e rt k a.device a.ip f a.now s.tables).1 x q,
      )
    ]
  ]

  -- What a login that succeeds leaves in the cache, and for the client to take.
  pub record HasOpened (k : ℕ) (private_key : Bytes) (a : Attempt) (s' : LoginState) : Type 0 where
    pub cached :
        entry_of_user k s'.cache
        ≡ some (record {
          user_id = k;
          private_key = private_key;
          expires_at = a.now + 15 * 60 * 1000000;
        })
    pub pending : s'.pending_refresh_token ≡ Option.map (λ f. f.token) a.service

  -- The last two steps.
  abbrev answered : User → Option (Text × UserSession) → Text → LoginAction Outcome
  answered u opened token = do
    modify λ s. record s { pending_refresh_token = refresh_token e rt setting issue lost opened }
    user ← or_raise (summary_of (clear_failures u)) internal_error
    pure (logged_in (record { access_token = token; expires_in = 7200; user = user }))

  answered_inv :
      (u : User) (opened : Option (Text × UserSession)) (token : Text) (s s' : LoginState)
      (o : Outcome)
      → answered u opened token s ≡ (ok o, s')
      → (s'.cache ≡ s.cache)
        × (s'.pending_refresh_token ≡ refresh_token e rt setting issue lost opened)
  answered_inv u opened token s s' o h = elim (Option-cases (summary_of (clear_failures u))) [
    | inl missing ↦ absurd (ground (arith, h, missing))
    | inr (x, q) ↦ ground (arith, h, q)
  ]

  put_key_inv :
      (k : ℕ) (key : Bytes) (t : ℕ) (s s' : LoginState) (o : Unit {0})
      → put_key k key t s ≡ (ok o, s')
      → entry_of_user k s'.cache ≡ some (record { user_id = k; private_key = key; expires_at = t })
  unfolding put_key
  put_key_inv k key t s s' o h = elim (Option-cases (put k key t s.cache)) [
    | inl bad ↦ absurd (ground (arith, h, bad))
    | inr (c, q) ↦ ground (arith, h, q, put_found k key t s.cache c q)
  ]

  -- A step on a value that may be missing.
  or_raise_inv :
      {A B : Type 0} (x : Option A) (f : A → LoginAction B) (s s' : LoginState) (b : B)
      → (or_raise x internal_error >>= f) s ≡ (ok b, s')
      → (a : A) × (x ≡ some a) × (f a s ≡ (ok b, s'))
  or_raise_inv none f s s' b h = absurd (not_ok internal_error b s s' h)
  or_raise_inv (some a) f s s' b h = (a, refl, h)

  unlocked_inv :
      (u : User) (key : Bytes) (a : Attempt) (s s' : LoginState) (o : Outcome)
      → unlocked e rt setting issue lost u key a s ≡ (ok o, s')
      → HasOpened u.id key a s'
  unfolding unlocked
  unlocked_inv u key a s s' o h =
      let granted_token = λ (opened : Option (Text × UserSession)).
        or_raise (issue (clear_failures u) (session_id e rt setting issue lost opened) a.now)
          internal_error in
      let (done, q1, h1) =
        bind_inv
          (λ _. open_session e rt setting issue lost u.id a >>= λ opened.
            granted_token opened >>= answered u opened)
          (put_key u.id key (a.now + 15 * 60 * 1000000)) s s' o h in
      let (opened, q2, h2) =
        bind_inv (λ opened. granted_token opened >>= answered u opened)
          (open_session e rt setting issue lost u.id a)
          (put_key u.id key (a.now + 15 * 60 * 1000000) s).1 s' o h1 in
      let (token, q3, h3) =
        or_raise_inv (issue (clear_failures u) (session_id e rt setting issue lost opened) a.now)
          (answered u opened)
          (open_session e rt setting issue lost u.id a
            (put_key u.id key (a.now + 15 * 60 * 1000000) s).1).1
          s' o h2 in
      let last =
        answered_inv u opened token
          (open_session e rt setting issue lost u.id a
            (put_key u.id key (a.now + 15 * 60 * 1000000) s).1).1
          s' o h3 in
      let middle =
        open_session_inv u.id a (put_key u.id key (a.now + 15 * 60 * 1000000) s).1
          (open_session e rt setting issue lost u.id a
            (put_key u.id key (a.now + 15 * 60 * 1000000) s).1).1
          opened q2 in
      record {
        cached =
            ap (entry_of_user u.id) (last.0 ∙ middle.0)
            ∙ put_key_inv u.id key (a.now + 15 * 60 * 1000000) s
                (put_key u.id key (a.now + 15 * 60 * 1000000) s).1 done q1;
        pending = last.1 ∙ middle.1;
      }

  forgetting_inv :
      (k : ℕ) (m : LoginAction Outcome) (s s' : LoginState) (o : Outcome)
      → forgetting k m s ≡ (ok o, s')
      → m s ≡ (ok o, s')
  unfolding forgetting
  forgetting_inv k m s s' o h = elim (Result-cases (m s)) [
    | inl (x, q) ↦ absurd (ground (arith, h, q))
    | inr (a, q) ↦ ground (arith, h, q)
  ]

  pub granted_inv :
      (u : User) (a : Attempt) (s s' : LoginState) (o : Outcome)
      → granted e rt setting issue lost u a s ≡ (ok o, s')
      → (key : Bytes) × Decrypts e u a.password_bytes key × HasOpened u.id key a s'
  unfolding granted
  granted_inv u a s s' o h =
      elim (Option-cases (e.hkdf_sm3 a.password_bytes u.salt_k (codes "user-kek") 16)) [
        | inl broken ↦ absurd (ground (arith, h, broken))
        | inr (kek, derived) ↦ elim (Option-cases (parse_encrypted_private_key u.enc_sk)) [
          | inl broken ↦ absurd (ground (arith, h, derived, broken))
          | inr ((nonce, ciphertext, tag), parsed) ↦
              elim (Option-cases (e.sm4_gcm_decrypt kek nonce ciphertext [] tag)) [
                | inl broken ↦ absurd (ground (arith, h, derived, parsed, broken))
                | inr (key, opened) ↦ elim (Bool-cases (length key == 0)) [
                  | inl empty ↦ absurd (ground (arith, h, derived, parsed, opened, empty))
                  | inr full ↦ (
                    key,
                    record {
                      kek = kek;
                      derived = derived;
                      nonce = nonce;
                      ciphertext = ciphertext;
                      tag = tag;
                      encrypted =
                          parse_encrypted_private_key-IsEncrypted u.enc_sk nonce ciphertext tag
                            parsed;
                      opened = opened;
                      full = full;
                    },
                    unlocked_inv u key a (update_user u.id clear_failures s) s' o (
                        forgetting_inv u.id (unlocked e rt setting issue lost u key a)
                          (update_user u.id clear_failures s) s' o
                          (ground (arith, h, derived, parsed, opened, full))),
                  )
                ]
              ]
        ]
      ]
