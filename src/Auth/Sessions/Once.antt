-- ===== src/Auth/Sessions/Once.antt =====
-- A refresh token is good once (server/app/services/sessions.py).
use crypto_campus.Prelude.{
  ℕ, ◌<◌, ◌≡◌, refl, sym, ap, ◌∙◌, true, false, ◌&&◌, ◌||◌, not, none, some, List, [], ◌∷◌, ◌++◌,
  Bytes, Text, arith, ◌==◌, leb, get, select_first, update_where, Option-cases, Bool-cases, inl,
  inr,
}
use crypto_campus.Prelude.Keyed.{select_first-append_found, select_first-update_any}
use crypto_campus.Models.{User, is_active}
use crypto_campus.Crypto.{CryptoEngine, Runtime}
use crypto_campus.Action.{Result, ok, err, pure, ◌>>◌, transaction_by, undo}
use crypto_campus.Action.Laws.{Result-cases, ok_run, bind_inv, ok_inj}
use crypto_campus.Auth.Sessions.{
  UserSession, AuthTables, SessionError, invalid, SessionFresh, has_hash, session_digest,
  new_session, add_session, create, by_token_hash, usable, revoke_row, exchange, rotate,
}
use mathlib.Core.Path.{subst₂}

module _ (e : CryptoEngine) (rt : Runtime) where
  pub session_digest_same : (t : Text) (s : AuthTables) → (session_digest e rt t s).1 ≡ s
  unfolding session_digest
  session_digest_same [] s = refl
  session_digest_same (c ∷ cs) s = ground arith

  pub session_digest_any :
      (t : Text) (s s' : AuthTables) → (session_digest e rt t s).0 ≡ (session_digest e rt t s').0
  unfolding session_digest
  session_digest_any [] s s' = refl
  session_digest_any (c ∷ cs) s s' = ground arith

  -- What stands behind a token that can be exchanged.
  pub record IsUsable (h : Bytes) (now : ℕ) (s : AuthTables) (r : UserSession) (u : User)
      : Type 0 where
    pub row : by_token_hash e rt h s ≡ some r
    pub user : get (λ x. x.id) r.user_id s.users ≡ some u
    pub active : is_active u.status ≡ true
    pub live : r.revoked ≡ false
    pub early : now < r.expires_at

  pub usable-IsUsable :
      (h : Bytes) (now : ℕ) (s : AuthTables) (r : UserSession) (u : User)
      → usable e rt h now s ≡ some (r, u)
      → IsUsable h now s r u
  unfolding usable
  usable-IsUsable h now s r u q = elim (Option-cases (by_token_hash e rt h s)) [
    | inl missing ↦ absurd (ground (arith, q, missing))
    | inr (r', found) ↦ elim (Option-cases (get (λ x. x.id) r'.user_id s.users)) [
      | inl missing ↦ absurd (ground (arith, q, found, missing))
      | inr (u', known) ↦
          elim (Bool-cases (not (is_active u'.status) || (r'.revoked || leb r'.expires_at now))) [
            | inl refused ↦ absurd (ground (arith, q, found, known, refused))
            | inr good ↦
                let same : (r' ≡ r) × (u' ≡ u) = ground (arith, q, found, known, good) in
                let both : IsUsable h now s r' u' = record {
                  row = found;
                  user = known;
                  active = ground (arith, good);
                  live = ground (arith, good);
                  early = ground (arith, good);
                } in
                subst₂ (IsUsable h now s) same.0 same.1 both
          ]
    ]
  ]

  -- What an exchange that succeeds did.
  pub record Exchanged (h : Bytes) (now : ℕ) (device ip : Text) (f : SessionFresh)
      (s s' : AuthTables) (out : Text × UserSession × User) : Type 0 where
    pub old : UserSession
    pub allowed : IsUsable h now s old out.2
    pub token : out.0 ≡ f.token
    pub hash : Bytes
    pub hashed : (session_digest e rt f.token s).0 ≡ ok hash
    pub row : out.1 ≡ new_session e rt out.2.id device ip hash f.id now
    pub sessions :
        s'.sessions
        ≡ update_where
            (λ x. x.id == old.id && not x.revoked)
            (λ x. record x { revoked = true })
            s.sessions
          ++ out.1 ∷ []
    pub users : s'.users ≡ s.users

  abbrev revoked_sessions : ℕ → List UserSession → List UserSession
  revoked_sessions k rs =
      update_where (λ x. x.id == k && not x.revoked) (λ x. record x { revoked = true }) rs

  pub exchange_ok :
      (h : Bytes) (now : ℕ) (device ip : Text) (f : SessionFresh) (s : AuthTables)
      (out : Text × UserSession × User)
      → (exchange e rt h now device ip f s).0 ≡ ok out
      → Exchanged h now device ip f s (exchange e rt h now device ip f s).1 out
  unfolding exchange revoke_row add_session
  exchange_ok h now device ip f s out q = elim (Option-cases (usable e rt h now s)) [
    | inl refused ↦ absurd (ground (arith, q, refused))
    | inr ((r, u), good) ↦
        let s1 : AuthTables = record s { sessions = revoked_sessions r.id s.sessions } in
        elim (Result-cases (session_digest e rt f.token s1)) [
          | inl (y, bad) ↦ absurd (ground (arith, q, good, bad))
          | inr (hash, fine) ↦
              let made = new_session e rt u.id device ip hash f.id now in
              let left : AuthTables = record s1 { sessions = s1.sessions ++ made ∷ [] } in
              let run : exchange e rt h now device ip f s ≡ (ok (f.token, made, u), left) =
                ground (arith, q, good, fine, session_digest_same f.token s1) in
              let answer : (f.token, made, u) ≡ out =
                ok_run (exchange e rt h now device ip f) s left _ out run q in
              let base : Exchanged h now device ip f s left (f.token, made, u) = record {
                old = r;
                allowed = usable-IsUsable h now s r u good;
                token = refl;
                hash = hash;
                hashed =
                    session_digest_any f.token s s1
                    ∙ ap (λ (z : Result SessionError Bytes × AuthTables). z.0) fine;
                row = refl;
                sessions = refl;
                users = refl;
              } in
              subst₂ (Exchanged h now device ip f s)
                (ap (λ (z : Result SessionError (Text × UserSession × User) × AuthTables). z.1)
                  (sym run))
                answer base
        ]
  ]

  -- The row of the token after its exchange, whatever rows are added.
  pub used_row :
      (h : Bytes) (now : ℕ) (s s' : AuthTables) (r : UserSession) (u : User) (ys : List UserSession)
      → IsUsable h now s r u
      → s'.sessions ≡ revoked_sessions r.id s.sessions ++ ys
      → by_token_hash e rt h s' ≡ some (record r { revoked = true })
  used_row h now s s' r u ys a q =
      let gone = record r { revoked = true } in
      let one =
        select_first-update_any (has_hash h) (λ x. x.id == r.id && not x.revoked)
          (λ x. record x { revoked = true }) (λ x. refl) s.sessions in
      let marked : select_first (has_hash h) (revoked_sessions r.id s.sessions) ≡ some gone =
        ground (arith, one, a.row, a.live) in
      rw q
        (select_first-append_found (has_hash h) (revoked_sessions r.id s.sessions) ys gone marked)

  -- A row that has been revoked cannot be exchanged.
  pub revoked-usable :
      (h : Bytes) (later : ℕ) (s : AuthTables) (r : UserSession)
      → by_token_hash e rt h s ≡ some r
      → r.revoked ≡ true
      → usable e rt h later s ≡ none
  unfolding usable
  revoked-usable h later s r found gone = elim (Option-cases (get (λ x. x.id) r.user_id s.users)) [
    | inl missing ↦ ground (arith, found, gone, missing)
    | inr (u, known) ↦ ground (arith, found, gone, known)
  ]

  pub exchange_refused :
      (h : Bytes) (now : ℕ) (device ip : Text) (f : SessionFresh) (s : AuthTables)
      → usable e rt h now s ≡ none
      → exchange e rt h now device ip f s ≡ (err invalid, s)
  unfolding exchange
  exchange_refused h now device ip f s q = ground (arith, q)

  -- A token is exchanged once: when a rotation succeeds, the session of the token was live and not
  -- expired and its user active; then it is revoked, one new session for that user is added, and the
  -- same token is refused at any later call, without a write.
  pub rotate_once :
      (token : Text) (now : ℕ) (device ip : Text) (f : SessionFresh) (s : AuthTables)
      (out : Text × UserSession × User) (later : ℕ) (device' ip' : Text) (f' : SessionFresh)
      → (rotate e rt token now device ip f s).0 ≡ ok out
      → let s' = (rotate e rt token now device ip f s).1 in
        ((h : Bytes) × ((session_digest e rt token s).0 ≡ ok h)
          × Exchanged h now device ip f s s' out)
        × (rotate e rt token later device' ip' f' s' ≡ (err invalid, s'))
  unfolding rotate transaction_by
  rotate_once token now device ip f s out later device' ip' f' q =
      elim (Result-cases (session_digest e rt token s)) [
        | inl (y, bad) ↦ absurd (ground (arith, q, bad))
        | inr (h, fine) ↦
            let same = session_digest_same token s in
            elim (Result-cases (exchange e rt h now device ip f s)) [
              | inl (y, bad) ↦ absurd (ground (arith, q, fine, same, bad))
              | inr (out', good) ↦
                  let s' = (exchange e rt h now device ip f s).1 in
                  let run : rotate e rt token now device ip f s ≡ (ok out', s') =
                    ground (arith, fine, same, good) in
                  let answer = ok_run (rotate e rt token now device ip f) s s' out' out run q in
                  let ex : Exchanged h now device ip f s s' out =
                    exchange_ok h now device ip f s out (
                      ap (λ (z : Result SessionError (Text × UserSession × User) × AuthTables). z.0)
                        good
                      ∙ ap ok answer) in
                  let spent =
                    revoked-usable h later s' (record ex.old { revoked = true })
                      (used_row h now s s' ex.old out.2 (out.1 ∷ []) ex.allowed ex.sessions) refl in
                  let again : rotate e rt token later device' ip' f' s' ≡ (err invalid, s') =
                    ground (
                      arith,
                      session_digest_same token s',
                      session_digest_any token s s',
                      fine,
                      exchange_refused h later device' ip' f' s' spent,
                    ) in
                  rw run
                    ((h, ap (λ (z : Result SessionError Bytes × AuthTables). z.0) fine, ex), again)
            ]
      ]

  -- The token that a new session is for is the one that was made.
  pub create_token :
      (k : ℕ) (device ip : Text) (f : SessionFresh) (now : ℕ) (t t' : AuthTables)
      (x : Text × UserSession)
      → create e rt k device ip f now t ≡ (ok x, t')
      → x.0 ≡ f.token
  unfolding create
  create_token k device ip f now t t' x h =
      let (hash, q, rest) =
        bind_inv
          (λ hash.
            transaction_by undo (add_session e rt (new_session e rt k device ip hash f.id now))
            >> pure (f.token, new_session e rt k device ip hash f.id now))
          (session_digest e rt f.token) t t' x h in
      let (done, q', last) =
        bind_inv (λ _. pure (f.token, new_session e rt k device ip hash f.id now))
          (transaction_by undo (add_session e rt (new_session e rt k device ip hash f.id now)))
          (session_digest e rt f.token t).1 t' x rest in
      ap (λ (p : Text × UserSession). p.0)
        (sym
          (ok_inj (ap (λ (z : Result SessionError (Text × UserSession) × AuthTables). z.0) last)))
