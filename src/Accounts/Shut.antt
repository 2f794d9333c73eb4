-- ===== src/Accounts/Shut.antt =====
-- What a freeze shuts out (server/app/services/account_lifecycle.py).
use crypto_campus.Prelude.{
  ℕ, ◌≡◌, inl, inr, refl, sym, ap, ◌∙◌, Bool, true, false, ◌&&◌, not, Option, none, some, List, [],
  ◌∷◌, Bytes, Text, arith, length, bytes_eq, ◌==◌, between, get, update_where, rowcount, Bool-cases,
  select_first, ==_iff,
}
use mathlib.Core.Path.{subst}
use crypto_campus.Prelude.Keyed.{select_first-update_any, select_first-holds}
use crypto_campus.Text.{codes}
use crypto_campus.Models.{User, UserStatus, is_active}
use crypto_campus.Crypto.{CryptoEngine, Runtime}
use crypto_campus.Action.{ok, modify, pure, ◌>>=◌, ◌>>◌, undo, raise_if, transaction_by}
use crypto_campus.Action.Laws.{then_inv, pure_inv}
use crypto_campus.Auth.KeyCache.{forget, entry_of_user, entry_of_user-forget}
use crypto_campus.Auth.Sessions.{UserSession, usable}
use crypto_campus.Accounts.{
  AccountState, Governance, change_status, update_status, is_frozen, requested_status, clear_key,
  reason_invalid,
}
use crypto_campus.Accounts.Freeze.{Frozen, shut, change_status-Frozen}
use crypto_campus.Auth.Sessions.Once.{usable-IsUsable}

-- The sessions of a user that are not revoked.
abbrev pub live_sessions : ℕ → List UserSession → ℕ
live_sessions k rs = rowcount (λ (r : UserSession). r.user_id == k && not r.revoked) rs

none_live :
    (k : ℕ) (rs : List UserSession)
    → live_sessions k
        (update_where (λ r. r.user_id == k && not r.revoked) (λ r. record r { revoked = true }) rs)
      ≡ 0
unfolding rowcount update_where
none_live k [] = refl
none_live k (r ∷ rs) = ground (arith, none_live k rs)

some_eq : (a b : User) → ◌≡◌ {A = Option User} (some a) (some b) → a ≡ b
some_eq a b h = ground (arith, h)

by_key :
    (k : ℕ) (us : List User) (u : User)
    → get (λ (x : User). x.id) k us ≡ some u
    → select_first (λ (x : User). x.id == k) us ≡ some u
unfolding get
by_key k us u h = h

module _ (e : CryptoEngine) (rt : Runtime) (uuid_bytes : Text → Option Bytes) where
  get-shut :
      (k : ℕ) (s : AccountState) (b : User)
      → get (λ (x : User). x.id) k s.tables.users ≡ some b
      → b.id == k ≡ true
      → get (λ (x : User). x.id) k (shut e rt uuid_bytes k s).tables.users
        ≡ some (record b { status = UserStatus.frozen })
  unfolding get
  get-shut k s b found key = ground (
    arith,
    found,
    key,
    select_first-update_any (λ (x : User). x.id == k) (λ (x : User). x.id == k)
        (λ x. record x { status = UserStatus.frozen }) (λ x. refl) s.tables.users,
  )

  frozen_request :
      (g : Governance) (s : AccountState)
      → between 1 500 (length (rt.strip g.reason)) ≡ true
      → update_status e rt uuid_bytes g (codes "frozen") s
        ≡ (transaction_by undo (change_status e rt uuid_bytes g UserStatus.frozen) >>= λ p.
              modify (clear_key e rt uuid_bytes g.target_id p.1) >> pure p.0)
            s
  unfolding update_status requested_status bytes_eq
  frozen_request g s good =
      ap
        (λ c.
          (raise_if (not c) reason_invalid
              >> (transaction_by undo (change_status e rt uuid_bytes g UserStatus.frozen) >>= λ p.
                  modify (clear_key e rt uuid_bytes g.target_id p.1) >> pure p.0))
            s)
        good

  update_status_inv :
      (g : Governance) (s s' : AccountState) (u : User)
      → update_status e rt uuid_bytes g (codes "frozen") s ≡ (ok u, s')
      → (clear : Bool) × (s1 : AccountState) × Frozen e rt uuid_bytes g s s1 u clear
        × (s' ≡ clear_key e rt uuid_bytes g.target_id clear s1)
  unfolding update_status requested_status bytes_eq
  update_status_inv g s s' u h = elim (Bool-cases (between 1 500 (length (rt.strip g.reason)))) [
    | inr bad ↦ absurd (ground (arith, h, bad))
    | inl good ↦
        let rest =
          λ (p : User × Bool). modify (clear_key e rt uuid_bytes g.target_id p.1) >> pure p.0 in
        let block = change_status e rt uuid_bytes g UserStatus.frozen in
        let (p, run, last) = then_inv rest undo block s s' u (sym (frozen_request g s good) ∙ h) in
        let (same, there) =
          pure_inv p.0 u (clear_key e rt uuid_bytes g.target_id p.1 (block s).1) s' last in
        (
          p.1,
          (block s).1,
          subst (λ z. Frozen e rt uuid_bytes g s (block s).1 z p.1) same
              (change_status-Frozen e rt uuid_bytes g s (block s).1 p.0 p.1 run),
          sym there,
        )
  ]

  after_freeze :
      (g : Governance) (s s' s1 : AccountState) (u : User) (clear : Bool)
      → (q : Frozen e rt uuid_bytes g s s1 u clear) → is_frozen q.before.status ≡ false
      → s' ≡ clear_key e rt uuid_bytes g.target_id clear s1
      → (s'.tables ≡ (shut e rt uuid_bytes g.target_id s).tables)
        × (s'.cache ≡ forget g.target_id s.cache)
  after_freeze g s s' s1 u clear q was there = elim q.change [
    | inl (already, kept, same) ↦ absurd (ground (arith, was, already))
    | inr (new, cleared, same) ↦
        let here : s' ≡ clear_key e rt uuid_bytes g.target_id true s1 =
          subst (λ c. s' ≡ clear_key e rt uuid_bytes g.target_id c s1) cleared there in
        (ap (λ z. z.tables) here ∙ same, ap (λ z. z.cache) here ∙ ap (forget g.target_id) q.cache)
  ]

  -- A freeze shuts the account out: when an account that was not frozen is frozen, then it is, in the
  -- table and in what the call returns, all its sessions are revoked, and its private key is no longer
  -- in the cache.
  pub freeze_shuts_out :
      (g : Governance) (s s' : AccountState) (b u : User)
      → get (λ (x : User). x.id) g.target_id s.tables.users ≡ some b
      → is_frozen b.status ≡ false
      → update_status e rt uuid_bytes g (codes "frozen") s ≡ (ok u, s')
      → (get (λ (x : User). x.id) g.target_id s'.tables.users ≡ some u)
        × (is_frozen u.status ≡ true)
        × (live_sessions g.target_id s'.tables.sessions ≡ 0)
        × (entry_of_user g.target_id s'.cache ≡ none)
  freeze_shuts_out g s s' b u found was h =
      let (clear, s1, q, there) = update_status_inv g s s' u h in
      let same : q.before ≡ b = some_eq q.before b (sym q.found ∙ found) in
      let (tables, cache) =
        after_freeze g s s' s1 u clear q (subst (λ z. is_frozen z.status ≡ false) (sym same) was)
          there in
      (
        ap (λ t. get (λ (x : User). x.id) g.target_id t.users) tables
            ∙ get-shut g.target_id s q.before q.found (
                select_first-holds (λ (x : User). x.id == g.target_id) s.tables.users q.before
                  (by_key g.target_id s.tables.users q.before q.found))
            ∙ ap some (sym q.after),
        ap (λ z. is_frozen z.status) q.after,
        ap (λ t. live_sessions g.target_id t.sessions) tables
            ∙ none_live g.target_id s.tables.sessions,
        ap (entry_of_user g.target_id) cache ∙ entry_of_user-forget g.target_id s.cache,
      )

  frozen_not_active : (x : UserStatus) → is_frozen x ≡ true → is_active x ≡ false
  frozen_not_active UserStatus.active h = absurd (ground (arith, h))
  frozen_not_active UserStatus.frozen h = refl
  frozen_not_active UserStatus.pending_deletion h = refl

  -- After an account has been frozen, a refresh token that can be exchanged, at whatever time, belongs to
  -- another account.
  pub freeze-usable :
      (g : Governance) (s s' : AccountState) (b u : User) (h : Bytes) (later : ℕ) (r : UserSession)
      (v : User)
      → get (λ (x : User). x.id) g.target_id s.tables.users ≡ some b
      → is_frozen b.status ≡ false
      → update_status e rt uuid_bytes g (codes "frozen") s ≡ (ok u, s')
      → usable e rt h later s'.tables ≡ some (r, v)
      → (r.user_id == g.target_id) ≡ false
  freeze-usable g s s' b u h later r v found was done q =
      elim (Bool-cases (r.user_id == g.target_id)) [
        | inr other ↦ other
        | inl same ↦
            let (known, frozen, none_left, gone) = freeze_shuts_out g s s' b u found was done in
            let a = usable-IsUsable e rt h later s'.tables r v q in
            let at : r.user_id ≡ g.target_id = (==_iff r.user_id g.target_id).0 same in
            let is_it : v ≡ u =
              some_eq v u
                (sym a.user ∙ ap (λ k. get (λ (x : User). x.id) k s'.tables.users) at ∙ known) in
            absurd (
              ground (
                arith,
                a.active,
                subst (λ z. is_active z.status ≡ false) (sym is_it)
                    (frozen_not_active u.status frozen),
              ))
      ]
