-- ===== src/Accounts/Freeze.antt =====
-- An account that is frozen (server/app/services/account_lifecycle.py) is shut out of its sessions
-- (services/sessions.py) and of its unlocked key (security/key_cache.py).
use crypto_campus.Prelude.{
  ℕ, ◌≡◌, ◌⊎◌, inl, inr, refl, sym, ap, ◌∙◌, Bool, true, false, Option, some, [], ◌∷◌, ◌++◌, Bytes,
  Text, arith, length, ◌==◌, if◌then◌else◌, get, Option-cases, Bool-cases,
}
use mathlib.Core.Path.{subst}
use crypto_campus.Text.{codes}
use crypto_campus.Models.{User, UserStatus, is_pending_deletion}
use crypto_campus.Crypto.{CryptoEngine, Runtime}
use crypto_campus.Action.{ok, pure, modify, ◌>>=◌, ◌>>◌}
use crypto_campus.Action.Laws.{Result-cases, bind_inv, bind_ok, pure_inv}
use crypto_campus.Audit.{append, AuditInput}
use crypto_campus.Accounts.{
  AccountState, AccountAction, Governance, digest32, chain_entry, record_change, target_of,
  change_status, set_user, revoke_sessions, same_status, is_frozen, status_text, is_system,
}

same_frozen : (x : UserStatus) → same_status x UserStatus.frozen ≡ is_frozen x
same_frozen UserStatus.active = refl
same_frozen UserStatus.frozen = refl
same_frozen UserStatus.pending_deletion = refl

is_frozen_eq : (x : UserStatus) → is_frozen x ≡ true → x ≡ UserStatus.frozen
is_frozen_eq UserStatus.active h = absurd (ground (arith, h))
is_frozen_eq UserStatus.frozen h = refl
is_frozen_eq UserStatus.pending_deletion h = absurd (ground (arith, h))

frozen_eta : (v : User) → is_frozen v.status ≡ true → v ≡ record v { status = UserStatus.frozen }
frozen_eta v h = ap (λ z. record v { status = z }) (is_frozen_eq v.status h)

module _ (e : CryptoEngine) (rt : Runtime) (uuid_bytes : Text → Option Bytes) where
  digest32_ok :
      (b x : Bytes) (s s' : AccountState) → digest32 e rt uuid_bytes b s ≡ (ok x, s') → s ≡ s'
  unfolding digest32
  digest32_ok b x s s' h = elim (Bool-cases (length (e.sm3_digest b) == 32)) [
    | inl good ↦ ground (arith, h, good)
    | inr bad ↦ absurd (ground (arith, h, bad))
  ]

  chain_entry_ok :
      (g : Governance) (action : Text) (d : Bytes) (s s' : AccountState) (x : Unit {0})
      → chain_entry e rt uuid_bytes g action d s ≡ (ok x, s')
      → (s'.tables ≡ s.tables) × (s'.cache ≡ s.cache)
  unfolding chain_entry
  chain_entry_ok g action d s s' x h = elim (Option-cases g.audit) [
    | inl without ↦ ground (arith, h, without)
    | inr (id, given) ↦
        let input : AuditInput = record {
          actor_id = rt.id_text g.actor_id;
          action = action;
          target = codes "user:" ++ rt.id_text g.target_id;
          detail_hash = d;
          timestamp = g.now;
        } in
        elim (Result-cases (append e rt uuid_bytes input id s.chain)) [
          | inl (y, bad) ↦ absurd (ground (arith, h, given, bad))
          | inr (y, good) ↦ ground (arith, h, given, good)
        ]
  ]

  pub record_change_ok :
      (g : Governance) (l a b c : Text) (s s' : AccountState) (x : Unit {0})
      → record_change e rt uuid_bytes g l a b c s ≡ (ok x, s')
      → (s'.tables ≡ s.tables) × (s'.cache ≡ s.cache)
  unfolding record_change
  record_change_ok g l a b c s s' x h =
      let detail = λ (r : Bytes). rt.utf8 (
        a
        ++ (codes "|"
            ++ (rt.id_text g.target_id
                ++ (codes "|" ++ (b ++ (codes "|" ++ (c ++ (codes "|" ++ rt.hex r)))))))) in
      let noted = λ (d : Bytes) (z : AccountState). record z {
        log =
            z.log
            ++ record {
              actor = g.actor_id;
              action = l;
              target = codes "user:" ++ rt.id_text g.target_id;
              detail_hash = d;
            }
              ∷ [];
      } in
      let first = digest32 e rt uuid_bytes (rt.utf8 (rt.strip g.reason)) in
      let (r, q1, h1) =
        bind_inv
          (λ r. digest32 e rt uuid_bytes (detail r) >>= λ d.
            modify (noted d) >> chain_entry e rt uuid_bytes g a d)
          first s s' x h in
      let (d, q2, h2) =
        bind_inv (λ d. modify (noted d) >> chain_entry e rt uuid_bytes g a d)
          (digest32 e rt uuid_bytes (detail r)) (first s).1 s' x h1 in
      let here : s ≡ (digest32 e rt uuid_bytes (detail r) (first s).1).1 =
        digest32_ok (rt.utf8 (rt.strip g.reason)) r s (first s).1 q1
        ∙ digest32_ok (detail r) d (first s).1 (digest32 e rt uuid_bytes (detail r) (first s).1).1
            q2 in
      let done =
        chain_entry_ok g a d (noted d (digest32 e rt uuid_bytes (detail r) (first s).1).1) s' x
          h2 in
      (done.0 ∙ ap (λ z. z.tables) (sym here), done.1 ∙ ap (λ z. z.cache) (sym here))

  pub target_of_ok :
      (k : ℕ) (u : User) (s s' : AccountState)
      → target_of e rt uuid_bytes k s ≡ (ok u, s')
      → (get (λ (x : User). x.id) k s.tables.users ≡ some u)
        × (s ≡ s')
        × (is_pending_deletion u.status ≡ false)
  unfolding target_of
  target_of_ok k u s s' h = elim (Option-cases (get (λ (x : User). x.id) k s.tables.users)) [
    | inl missing ↦ absurd (ground (arith, h, missing))
    | inr (u', found) ↦ elim (Bool-cases (is_system u'.role)) [
      | inl bad ↦ absurd (ground (arith, h, found, bad))
      | inr fine ↦ elim (Bool-cases (is_pending_deletion u'.status)) [
        | inl bad ↦ absurd (ground (arith, h, found, fine, bad))
        | inr good ↦
            let same : (u' ≡ u) × (s ≡ s') = ground (arith, h, found, fine, good) in
            (
              found ∙ ap some same.0,
              same.1,
              subst (λ z. is_pending_deletion z.status ≡ false) same.0 good,
            )
      ]
    ]
  ]

  -- The state that a freeze leaves.
  abbrev pub shut : ℕ → AccountState → AccountState
  shut k s = revoke_sessions k (set_user k (λ x. record x { status = UserStatus.frozen }) s)

  -- What a freeze that succeeds did: nothing, where the account was frozen already.
  pub record Frozen (g : Governance) (s s' : AccountState) (u : User) (clear : Bool) : Type 0 where
    pub before : User
    pub found : get (λ (x : User). x.id) g.target_id s.tables.users ≡ some before
    pub after : u ≡ record before { status = UserStatus.frozen }
    pub cache : s'.cache ≡ s.cache
    pub change :
        ((is_frozen before.status ≡ true) × (clear ≡ false) × (s'.tables ≡ s.tables))
        ⊎ ((is_frozen before.status ≡ false)
            × (clear ≡ true)
            × (s'.tables ≡ (shut g.target_id s).tables))

  -- The rows that a freeze writes.
  abbrev noting : Governance → User → AccountAction (Unit {0})
  noting g v =
      record_change e rt uuid_bytes g (codes "user.freeze") (codes "user.status.update")
        (status_text v.status) (codes "frozen")

  abbrev freezing : Governance → User → AccountAction (User × Bool)
  freezing g v = do
    modify (set_user g.target_id λ x. record x { status = UserStatus.frozen })
    modify (revoke_sessions g.target_id)
    noting g v
    pure (record v { status = UserStatus.frozen }, true)

  froze :
      (g : Governance) (s : AccountState) (v : User)
      → target_of e rt uuid_bytes g.target_id s ≡ (ok v, s)
      → same_status v.status UserStatus.frozen ≡ false
      → change_status e rt uuid_bytes g UserStatus.frozen s
        ≡ (noting g v >>= λ _. pure (record v { status = UserStatus.frozen }, true))
            (shut g.target_id s)
  unfolding change_status
  froze g s v good other =
      bind_ok (target_of e rt uuid_bytes g.target_id)
        (λ u. if same_status u.status UserStatus.frozen then pure (u, false) else freezing g u) s s
        v good
      ∙ ap (λ c. (if c then pure (v, false) else freezing g v) s) other

  pub change_status-Frozen :
      (g : Governance) (s s' : AccountState) (u : User) (clear : Bool)
      → change_status e rt uuid_bytes g UserStatus.frozen s ≡ (ok (u, clear), s')
      → Frozen g s s' u clear
  unfolding change_status
  change_status-Frozen g s s' u clear h =
      let finish = noting g in
      elim (Result-cases (target_of e rt uuid_bytes g.target_id s)) [
        | inl (y, bad) ↦ absurd (ground (arith, h, bad))
        | inr (v, good) ↦
            let (found, here, live) =
              target_of_ok g.target_id v s (target_of e rt uuid_bytes g.target_id s).1 good in
            let good' : target_of e rt uuid_bytes g.target_id s ≡ (ok v, s) =
              good ∙ ap (λ z. (ok v, z)) (sym here) in
            elim (Bool-cases (same_status v.status UserStatus.frozen)) [
              | inl same ↦
                  let both : (v ≡ u) × (false ≡ clear) × (s ≡ s') =
                    ground (arith, h, good', same) in
                  record {
                    before = v;
                    found = found;
                    after = sym both.0 ∙ frozen_eta v (sym (same_frozen v.status) ∙ same);
                    cache = ap (λ z. z.cache) (sym both.2);
                    change = inl (
                      sym (same_frozen v.status) ∙ same,
                      sym both.1,
                      ap (λ z. z.tables) (sym both.2),
                    );
                  }
              | inr other ↦
                  let run : (finish v >>= λ _. pure (record v { status = UserStatus.frozen }, true))
                        (shut g.target_id s)
                      ≡ (ok (u, clear), s') =
                    sym (froze g s v good' other) ∙ h in
                  let (y, recorded, last) =
                    bind_inv (λ _. pure (record v { status = UserStatus.frozen }, true)) (finish v)
                      (shut g.target_id s) s' (u, clear) run in
                  let (same, there) =
                    pure_inv (record v { status = UserStatus.frozen }, true) (u, clear)
                      (finish v (shut g.target_id s)).1 s' last in
                  let kept =
                    record_change_ok g (codes "user.freeze") (codes "user.status.update")
                      (status_text v.status) (codes "frozen") (shut g.target_id s)
                      (finish v (shut g.target_id s)).1 y recorded in
                  record {
                    before = v;
                    found = found;
                    after = sym (ap (λ (z : User × Bool). z.0) same);
                    cache = ap (λ z. z.cache) (sym there) ∙ kept.1;
                    change = inr (
                      sym (same_frozen v.status) ∙ other,
                      sym (ap (λ (z : User × Bool). z.1) same),
                      ap (λ z. z.tables) (sym there) ∙ kept.0,
                    );
                  }
            ]
      ]
