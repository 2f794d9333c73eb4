-- ===== src/Accounts/Teachers.antt =====
-- The last teacher keeps the role (server/app/services/account_lifecycle.py).
use crypto_campus.Prelude.{
  ℕ, ◌≤◌, ◌≡◌, ◌⊎◌, inl, inr, sym, ap, ◌∙◌, Bool, true, false, ◌&&◌, not, Option, some, List, [],
  ◌∷◌, Bytes, Text, arith, ◌==◌, if◌then◌else◌, get, select_first, update_where, rowcount,
  Bool-cases,
}
use mathlib.Core.Path.{subst}
use crypto_campus.Text.{codes}
use crypto_campus.Models.{User, Role, is_active}
use crypto_campus.Crypto.{CryptoEngine, Runtime}
use crypto_campus.Action.{ok, modify, pure, raise_if, ◌>>=◌, ◌>>◌}
use crypto_campus.Action.Laws.{bind_inv, bind_ok, pure_inv, not_ok}
use crypto_campus.Accounts.{
  AccountState, AccountAction, last_teacher_protected, Governance, target_of, record_change,
  change_role, set_user, revoke_sessions, is_teacher, same_role, role_text, other_teachers,
}
use crypto_campus.Accounts.Freeze.{target_of_ok, record_change_ok}

abbrev pub active_teachers : List User → ℕ
active_teachers us = rowcount (λ (u : User). is_teacher u.role && is_active u.status) us

-- The table after a change of role.
abbrev pub with_role : ℕ → Role → List User → List User
with_role k role us = update_where (λ (u : User). u.id == k) (λ u. record u { role = role }) us

others_stay :
    (k : ℕ) (role : Role) (us : List User)
    → other_teachers k us ≤ active_teachers (with_role k role us)
unfolding rowcount update_where
others_stay k role [] = omega arith
others_stay k role (u ∷ us) = ground (arith, others_stay k role us)

teacher_stays :
    (k : ℕ) (role : Role) (us : List User)
    → is_teacher role ≡ true
    → active_teachers us ≤ active_teachers (with_role k role us)
unfolding rowcount update_where
teacher_stays k role [] h = omega arith
teacher_stays k role (u ∷ us) h = ground (arith, h, teacher_stays k role us)

no_key :
    (k : ℕ) (us : List User)
    → rowcount (λ (u : User). u.id == k) us ≡ 0
    → active_teachers us ≤ other_teachers k us
unfolding rowcount
no_key k [] h = omega arith
no_key k (u ∷ us) h = ground (arith, no_key k us)

not_counted :
    (k : ℕ) (us : List User) (v : User)
    → rowcount (λ (u : User). u.id == k) us ≤ 1
    → get (λ (u : User). u.id) k us ≡ some v
    → (is_teacher v.role && is_active v.status) ≡ false
    → active_teachers us ≤ other_teachers k us
unfolding rowcount get select_first
not_counted k [] v once found h = omega arith
not_counted k (u ∷ us) v once found h = ground (arith, found, h, no_key k us, not_counted k us v)

-- The condition under which the code refuses.
abbrev pub is_last : ℕ → Role → List User → User → Bool
is_last k role us v =
    (is_teacher v.role && (is_active v.status && not (is_teacher role))) && other_teachers k us == 0

pub still_one :
    (k : ℕ) (role : Role) (us : List User) (v : User)
    → rowcount (λ (u : User). u.id == k) us ≤ 1
    → get (λ (u : User). u.id) k us ≡ some v
    → is_last k role us v ≡ false
    → 1 ≤ active_teachers us
    → 1 ≤ active_teachers (with_role k role us)
still_one k role us v once found guard one = elim (Bool-cases (is_teacher role)) [
  | inl yes_teacher ↦ omega (arith, one, teacher_stays k role us yes_teacher)
  | inr other ↦ elim (Bool-cases (is_teacher v.role && is_active v.status)) [
    | inl counted ↦ ground (arith, guard, other, counted, others_stay k role us)
    | inr free ↦ omega (arith, one, not_counted k us v once found free, others_stay k role us)
  ]
]

module _ (e : CryptoEngine) (rt : Runtime) (uuid_bytes : Text → Option Bytes) where
  abbrev noting : Governance → Role → User → AccountAction (Unit {0})
  noting g role v =
      record_change e rt uuid_bytes g (codes "user.role.update") (codes "user.role.update")
        (role_text v.role) (role_text role)

  abbrev appointing : Governance → Role → User → AccountAction (User × Bool)
  appointing g role v = do
    (λ s. raise_if (is_last g.target_id role s.tables.users v) last_teacher_protected s)
    modify (set_user g.target_id λ x. record x { role = role })
    modify (revoke_sessions g.target_id)
    noting g role v
    pure (record v { role = role }, true)

  abbrev moved : ℕ → Role → AccountState → AccountState
  moved k role s = revoke_sessions k (set_user k (λ x. record x { role = role }) s)

  change_role_found :
      (g : Governance) (role : Role) (s : AccountState) (v : User)
      → target_of e rt uuid_bytes g.target_id s ≡ (ok v, s)
      → change_role e rt uuid_bytes g role s
        ≡ (if same_role v.role role then pure (v, false) else appointing g role v) s
  unfolding change_role
  change_role_found g role s v good =
      bind_ok (target_of e rt uuid_bytes g.target_id)
        (λ u. if same_role u.role role then pure (u, false) else appointing g role u) s s v good

  after_check : Bool → Governance → Role → User → AccountAction (User × Bool)
  after_check c g role v =
      raise_if c last_teacher_protected
      >> (modify (set_user g.target_id λ x. record x { role = role })
          >> (modify (revoke_sessions g.target_id)
              >> (noting g role v >> pure (record v { role = role }, true))))

  refused :
      (g : Governance) (role : Role) (s s' : AccountState) (v : User) (p : User × Bool)
      → is_last g.target_id role s.tables.users v ≡ true
      → ¬ (appointing g role v s ≡ (ok p, s'))
  unfolding after_check
  refused g role s s' v p last h =
      not_ok last_teacher_protected p s s'
        (subst (λ c. after_check c g role v s ≡ (ok p, s')) last h)

  appointed :
      (g : Governance) (role : Role) (s s' : AccountState) (v : User) (p : User × Bool)
      → is_last g.target_id role s.tables.users v ≡ false
      → appointing g role v s ≡ (ok p, s')
      → s'.tables.users ≡ with_role g.target_id role s.tables.users
  unfolding after_check
  appointed g role s s' v p fine h =
      let run : (noting g role v >>= λ _. pure (record v { role = role }, true))
            (moved g.target_id role s)
          ≡ (ok p, s') =
        subst (λ c. after_check c g role v s ≡ (ok p, s')) fine h in
      let (y, recorded, last) =
        bind_inv (λ _. pure (record v { role = role }, true)) (noting g role v)
          (moved g.target_id role s) s' p run in
      let (same, there) =
        pure_inv (record v { role = role }, true) p (noting g role v (moved g.target_id role s)).1
          s' last in
      let kept =
        record_change_ok e rt uuid_bytes g (codes "user.role.update") (codes "user.role.update")
          (role_text v.role) (role_text role) (moved g.target_id role s)
          (noting g role v (moved g.target_id role s)).1 y recorded in
      ap (λ z. z.tables.users) (sym there) ∙ ap (λ t. t.users) kept.0

  pub change_role_ok :
      (g : Governance) (role : Role) (s s' : AccountState) (p : User × Bool)
      → change_role e rt uuid_bytes g role s ≡ (ok p, s')
      → (s'.tables.users ≡ s.tables.users)
        ⊎ ((v : User) × (get (λ (u : User). u.id) g.target_id s.tables.users ≡ some v)
            × (is_last g.target_id role s.tables.users v ≡ false)
            × (s'.tables.users ≡ with_role g.target_id role s.tables.users))
  unfolding change_role
  change_role_ok g role s s' p h =
      let rest =
        λ (u : User). if same_role u.role role then pure (u, false) else appointing g role u in
      let (v, good, run) = bind_inv rest (target_of e rt uuid_bytes g.target_id) s s' p h in
      let (found, here, live) =
        target_of_ok e rt uuid_bytes g.target_id v s (target_of e rt uuid_bytes g.target_id s).1
          good in
      let run' : (if same_role v.role role then pure (v, false) else appointing g role v) s
          ≡ (ok p, s') =
        subst
          (λ z.
            (if same_role v.role role then pure (v, false) else appointing g role v) z ≡ (ok p, s'))
          (sym here) run in
      elim (Bool-cases (same_role v.role role)) [
        | inl same ↦
            let (x, there) =
              pure_inv (v, false) p s s'
                (subst (λ c. (if c then pure (v, false) else appointing g role v) s ≡ (ok p, s'))
                  same run') in
            inl (ap (λ z. z.tables.users) (sym there))
        | inr other ↦
            let run2 : appointing g role v s ≡ (ok p, s') =
              subst (λ c. (if c then pure (v, false) else appointing g role v) s ≡ (ok p, s')) other
                run' in
            elim (Bool-cases (is_last g.target_id role s.tables.users v)) [
              | inl last ↦ absurd (refused g role s s' v p last run2)
              | inr fine ↦ inr (v, found, fine, appointed g role s s' v p fine run2)
            ]
      ]
