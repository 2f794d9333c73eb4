-- ===== src/Auth/Sessions/Spent.antt =====
-- A refresh token that has been used or revoked stays so (server/app/services/sessions.py).
use crypto_campus.Prelude.{
  ℕ, ◌≡◌, refl, sym, Bool, true, ◌&&◌, ◌||◌, not, Option, none, some, List, [], ◌∷◌, ◌++◌, Bytes,
  Text, arith, ◌==◌, get, select_first, update_where, update_row, Bool-cases, inl, inr, is_some,
}
use crypto_campus.Prelude.Keyed.{select_first-append_found, select_first-update_any}
use crypto_campus.Models.{User}
use crypto_campus.Crypto.{CryptoEngine, Runtime}
use crypto_campus.Action.{pure, raise_if, or_raise, modify, ◌>>=◌, transaction_by, undo}
use crypto_campus.Action.Laws.{Result-cases}
use crypto_campus.Auth.Sessions.{
  UserSession, AuthTables, SessionError, SessionFresh, SessionAction, has_hash, session_digest,
  add_session, create, exchange, rotate, refresh, revoke_row, revoke, revoke_for_user,
  nonempty_token,
}
use crypto_campus.Auth.Sessions.Once.{session_digest_same}
use mathlib.Core.Path.{subst}

-- The session with this hash has been revoked.
pub record IsSpent (h : Bytes) (s : AuthTables) : Type 0 where
  pub row : UserSession
  pub found : select_first (has_hash h) s.sessions ≡ some row
  pub revoked : row.revoked ≡ true

-- A step keeps what is revoked revoked, however it ends.
pub record Keeps {A : Type 0} (h : Bytes) (m : SessionAction A) : Type 0 where
  pub kept : (s : AuthTables) → IsSpent h s → IsSpent h (m s).1

module _ (h : Bytes) where
  Keeps-bind :
      {A B : Type 0} (m : SessionAction A) (f : A → SessionAction B)
      → Keeps h m
      → ((a : A) → Keeps h (f a))
      → Keeps h (m >>= f)
  Keeps-bind {A} {B} m f g k = record { kept = λ s q. kept s q }
    where
      kept : (s : AuthTables) → IsSpent h s → IsSpent h ((m >>= f) s).1
      kept s q = elim (Result-cases (m s)) [
        | inl (y, e) ↦
            let left : ((m >>= f) s).1 ≡ (m s).1 = ground (arith, e) in
            subst (IsSpent h) (sym left) (g.kept s q)
        | inr (a, e) ↦
            let left : ((m >>= f) s).1 ≡ (f a (m s).1).1 = ground (arith, e) in
            subst (IsSpent h) (sym left) ((k a).kept (m s).1 (g.kept s q))
      ]

  Keeps-transaction :
      {A : Type 0} (m : SessionAction A) → Keeps h m → Keeps h (transaction_by undo m)
  Keeps-transaction {A} m g = record { kept = λ s q. kept s q }
    where
      kept : (s : AuthTables) → IsSpent h s → IsSpent h (transaction_by undo m s).1
      kept s q =
          unfold transaction_by in
          elim (Result-cases (m s)) [
            | inl (y, e) ↦
                let left : (transaction_by undo m s).1 ≡ s = ground (arith, e) in
                subst (IsSpent h) (sym left) q
            | inr (a, e) ↦
                let left : (transaction_by undo m s).1 ≡ (m s).1 = ground (arith, e) in
                subst (IsSpent h) (sym left) (g.kept s q)
          ]

  Keeps-pure : {A : Type 0} (a : A) → Keeps h (pure a)
  Keeps-pure a = record { kept = λ s q. q }

  Keeps-raise_if : (c : Bool) (x : SessionError) → Keeps h (raise_if c x)
  Keeps-raise_if c x = record { kept = λ s q. q }

  Keeps-or_raise :
      {A : Type 0} (o : AuthTables → Option A) (x : SessionError)
      → Keeps h (λ s. or_raise (o s) x s)
  Keeps-or_raise {A} o x = record { kept = λ s q. kept s (o s) q }
    where
      kept : (s : AuthTables) (a : Option A) → IsSpent h s → IsSpent h (or_raise a x s).1
      kept s none q = q
      kept s (some a) q = q

  -- An UPDATE that revokes.
  Keeps-revoking :
      (c : UserSession → Bool)
      → Keeps h (
          modify λ s. record s {
            sessions = update_where c (λ x. record x { revoked = true }) s.sessions;
          })
  Keeps-revoking c = record {
    kept = λ s q.
        let one =
          select_first-update_any (has_hash h) c (λ x. record x { revoked = true }) (λ x. refl)
            s.sessions in
        record {
          row = update_row c (λ x. record x { revoked = true }) q.row;
          found = ground (arith, one, q.found);
          revoked = ground (arith, q.revoked);
        };
  }

-- The operations of the service.
pub data SessionCall : Type 0 where
  creating : ℕ → Text → Text → SessionFresh → ℕ → SessionCall
  rotating : Text → ℕ → Text → Text → SessionFresh → SessionCall
  refreshing : (User → ℕ → Option Text) → Text → ℕ → Text → Text → SessionFresh → SessionCall
  revoking : Text → ℕ → SessionCall
  revoking_device : ℕ → ℕ → SessionCall

module _ (e : CryptoEngine) (rt : Runtime) where
  pub after_call : SessionCall → AuthTables → AuthTables
  after_call (creating u d i f n) s = (create e rt u d i f n s).1
  after_call (rotating t n d i f) s = (rotate e rt t n d i f s).1
  after_call (refreshing g t n d i f) s = (refresh e rt g t n d i f s).1
  after_call (revoking t n) s = (revoke e rt t n s).1
  after_call (revoking_device u k) s = (revoke_for_user e rt u k s).1

  -- The states that calls lead to.
  pub after_calls : List SessionCall → AuthTables → AuthTables
  after_calls [] s = s
  after_calls (c ∷ cs) s = after_calls cs (after_call c s)

module _ (e : CryptoEngine) (rt : Runtime) (h : Bytes) where
  Keeps-digest : (t : Text) → Keeps h (session_digest e rt t)
  Keeps-digest t = record { kept = λ s q. subst (IsSpent h) (sym (session_digest_same e rt t s)) q }

  Keeps-revoke_row : (k : ℕ) → Keeps h (revoke_row e rt k)
  unfolding revoke_row
  Keeps-revoke_row k = record {
    kept = λ s q. (Keeps-revoking h (λ r. r.id == k && not r.revoked)).kept s q;
  }

  Keeps-add : (r : UserSession) → Keeps h (add_session e rt r)
  Keeps-add r = record { kept = λ s q. kept s q }
    where
      kept : (s : AuthTables) → IsSpent h s → IsSpent h (add_session e rt r s).1
      kept s q =
          unfold add_session in
          elim (Bool-cases (
            is_some (get (λ x. x.id) r.id s.sessions)
            || is_some (select_first (has_hash r.refresh_token_hash) s.sessions))) [
              | inl taken ↦
                  let left : (add_session e rt r s).1 ≡ s = ground (arith, taken) in
                  subst (IsSpent h) (sym left) q
              | inr free ↦
                  let left : (add_session e rt r s).1
                      ≡ record s { sessions = s.sessions ++ r ∷ [] } =
                    ground (arith, free) in
                  subst (IsSpent h) (sym left) (record {
                    row = q.row;
                    found =
                        select_first-append_found (has_hash h) s.sessions (r ∷ []) q.row q.found;
                    revoked = q.revoked;
                  })
            ]

  ruleset keeping = (
    Keeps-bind, Keeps-transaction, Keeps-pure, Keeps-raise_if, Keeps-or_raise, Keeps-revoking,
    Keeps-digest, Keeps-revoke_row, Keeps-add,
  )

  exchange-Keeps :
      (g : Bytes) (n : ℕ) (d i : Text) (f : SessionFresh) → Keeps h (exchange e rt g n d i f)
  unfolding exchange
  exchange-Keeps g n d i f = search keeping depth 20

  create-Keeps : (u : ℕ) (d i : Text) (f : SessionFresh) (n : ℕ) → Keeps h (create e rt u d i f n)
  unfolding create
  create-Keeps u d i f n = search keeping depth 20

  rotate-Keeps :
      (t : Text) (n : ℕ) (d i : Text) (f : SessionFresh) → Keeps h (rotate e rt t n d i f)
  unfolding rotate
  rotate-Keeps t n d i f = search (keeping, exchange-Keeps) depth 20

  nonempty_token-Keeps : (o : Option Text) → Keeps h (nonempty_token e rt o)
  nonempty_token-Keeps none = record { kept = λ s q. q }
  nonempty_token-Keeps (some []) = record { kept = λ s q. q }
  nonempty_token-Keeps (some (c ∷ cs)) = record { kept = λ s q. q }

  refresh-Keeps :
      (g : User → ℕ → Option Text) (t : Text) (n : ℕ) (d i : Text) (f : SessionFresh)
      → Keeps h (refresh e rt g t n d i f)
  unfolding refresh
  refresh-Keeps g t n d i f = search (keeping, exchange-Keeps, nonempty_token-Keeps) depth 20

  revoke-Keeps : (t : Text) (n : ℕ) → Keeps h (revoke e rt t n)
  unfolding revoke
  revoke-Keeps t n = search keeping depth 20

  revoke_for_user-Keeps : (u k : ℕ) → Keeps h (revoke_for_user e rt u k)
  unfolding revoke_for_user
  revoke_for_user-Keeps u k = search keeping depth 20

  after_call-IsSpent :
      (c : SessionCall) (s : AuthTables) → IsSpent h s → IsSpent h (after_call e rt c s)
  unfolding after_call
  after_call-IsSpent (creating u d i f n) s q = (create-Keeps u d i f n).kept s q
  after_call-IsSpent (rotating t n d i f) s q = (rotate-Keeps t n d i f).kept s q
  after_call-IsSpent (refreshing g t n d i f) s q = (refresh-Keeps g t n d i f).kept s q
  after_call-IsSpent (revoking t n) s q = (revoke-Keeps t n).kept s q
  after_call-IsSpent (revoking_device u k) s q = (revoke_for_user-Keeps u k).kept s q

  pub after_calls-IsSpent :
      (cs : List SessionCall) (s : AuthTables) → IsSpent h s → IsSpent h (after_calls e rt cs s)
  unfolding after_calls
  after_calls-IsSpent [] s q = q
  after_calls-IsSpent (c ∷ cs) s q =
      after_calls-IsSpent cs (after_call e rt c s) (after_call-IsSpent c s q)
