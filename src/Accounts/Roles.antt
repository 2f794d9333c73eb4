-- ===== src/Accounts/Roles.antt =====
-- `update_role` and the teachers (server/app/services/account_lifecycle.py).
use crypto_campus.Prelude.{
  ◌≤◌, ◌≡◌, ◌⊎◌, inl, inr, refl, sym, ap, Bool, true, false, not, Option, none, some, Bytes, Text,
  length, ◌==◌, between, get, rowcount,
}
use mathlib.Core.Path.{subst}
use crypto_campus.Models.{User, Role}
use crypto_campus.Crypto.{CryptoEngine, Runtime}
use crypto_campus.Action.{modify, pure, or_raise, raise_if, ◌>>=◌, ◌>>◌, transaction_by, undo}
use crypto_campus.Action.Laws.{Result-cases, then_err, then_ok}
use crypto_campus.Accounts.{
  AccountState, AccountAction, role_invalid, reason_invalid, Governance, change_role, update_role,
  requested_role, clear_key,
}
use crypto_campus.Accounts.Teachers.{active_teachers, with_role, is_last, still_one, change_role_ok}

module _ (e : CryptoEngine) (rt : Runtime) (uuid_bytes : Text → Option Bytes) where
  abbrev clearing : Governance → User × Bool → AccountAction User
  clearing g p = modify (clear_key e rt uuid_bytes g.target_id p.1) >> pure p.0

  -- What a call does to the table of users: nothing, or the change of the role, where it is allowed.
  abbrev Outcome : Governance → AccountState → AccountState → Type 0
  Outcome g s s' =
      (s'.tables.users ≡ s.tables.users)
      ⊎ ((role : Role) × (v : User) × (get (λ (u : User). u.id) g.target_id s.tables.users ≡ some v)
          × (is_last g.target_id role s.tables.users v ≡ false)
          × (s'.tables.users ≡ with_role g.target_id role s.tables.users))

  cleared-Outcome :
      (g : Governance) (role : Role) (s s1 : AccountState) (p : User × Bool)
      → ((s1.tables.users ≡ s.tables.users)
          ⊎ ((v : User) × (get (λ (u : User). u.id) g.target_id s.tables.users ≡ some v)
              × (is_last g.target_id role s.tables.users v ≡ false)
              × (s1.tables.users ≡ with_role g.target_id role s.tables.users)))
      → Outcome g s (clear_key e rt uuid_bytes g.target_id p.1 s1)
  cleared-Outcome g role s s1 (u, true) (inl same) = inl same
  cleared-Outcome g role s s1 (u, false) (inl same) = inl same
  cleared-Outcome g role s s1 (u, true) (inr (v, found, fine, same)) =
      inr (role, v, found, fine, same)
  cleared-Outcome g role s s1 (u, false) (inr (v, found, fine, same)) =
      inr (role, v, found, fine, same)

  block-Outcome :
      (g : Governance) (role : Role) (s : AccountState)
      → Outcome g s ((transaction_by undo (change_role e rt uuid_bytes g role) >>= clearing g) s).1
  block-Outcome g role s = elim (Result-cases (change_role e rt uuid_bytes g role s)) [
    | inl (x, bad) ↦ inl (
        ap (λ z. z.1.tables.users)
          (then_err undo (change_role e rt uuid_bytes g role) (clearing g) s
            (change_role e rt uuid_bytes g role s).1 x bad))
    | inr (p, good) ↦
        let s1 = (change_role e rt uuid_bytes g role s).1 in
        let run = then_ok undo (change_role e rt uuid_bytes g role) (clearing g) s s1 p good in
        subst (Outcome g s) (sym (ap (λ z. z.1) run))
          (cleared-Outcome g role s s1 p (change_role_ok e rt uuid_bytes g role s s1 p good))
  ]

  -- The call, its two checks given.
  asked : Option Role → Bool → Governance → AccountAction User
  asked o c g = or_raise o role_invalid >>= λ role.
      raise_if c reason_invalid
      >> (transaction_by undo (change_role e rt uuid_bytes g role) >>= clearing g)

  asked-Outcome :
      (o : Option Role) (c : Bool) (g : Governance) (s : AccountState)
      → Outcome g s (asked o c g s).1
  unfolding asked
  asked-Outcome none c g s = inl refl
  asked-Outcome (some role) true g s = inl refl
  asked-Outcome (some role) false g s = block-Outcome g role s

  update_role-Outcome :
      (g : Governance) (t : Text) (s : AccountState)
      → Outcome g s (update_role e rt uuid_bytes g t s).1
  unfolding update_role asked
  update_role-Outcome g t s =
      asked-Outcome (requested_role t) (not (between 1 500 (length (rt.strip g.reason)))) g s

  -- Whoever asks, and however the call ends: when there is an active teacher, and the user of the call is
  -- one row of the table, then after `update_role` there is an active teacher still.
  pub role_keeps_teacher :
      (g : Governance) (t : Text) (s : AccountState)
      → rowcount (λ (u : User). u.id == g.target_id) s.tables.users ≤ 1
      → 1 ≤ active_teachers s.tables.users
      → 1 ≤ active_teachers (update_role e rt uuid_bytes g t s).1.tables.users
  role_keeps_teacher g t s once one = elim (update_role-Outcome g t s) [
    | inl same ↦ subst (λ us. 1 ≤ active_teachers us) (sym same) one
    | inr (role, v, found, guard, same) ↦
        subst (λ us. 1 ≤ active_teachers us) (sym same)
          (still_one g.target_id role s.tables.users v once found guard one)
  ]
