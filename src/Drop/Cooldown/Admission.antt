-- ===== src/Drop/Cooldown/Admission.antt =====
-- What `before_attempt` of server/app/services/extract_cooldown.py lets through.
use crypto_campus.Prelude.{
  ℕ, ◌≡◌, ◌⊎◌, true, false, some, arith, Option-cases, Bool-cases, inl, inr, ltb,
}
use crypto_campus.Drop.Update.{after_update, execute_update}
use crypto_campus.Drop.Rows.{Drop, is_available, is_cooling_down}
use crypto_campus.Drop.State.{Db, DropError, ok, err}
use crypto_campus.Drop.Cooldown.{reopen, before_attempt}

-- The drop cools down, its deadline has come, and its row is opened again, which is all that is
-- written.
pub record IsReopened (d : Drop) (now : ℕ) (s s' : Db) : Type 0 where
  pub cooling : is_cooling_down d.status ≡ true
  pub until : ℕ
  pub deadline : d.cooldown_until ≡ some until
  pub over : ltb now until ≡ false
  pub written : s' ≡ after_update d.id (λ r. is_cooling_down r.status) (reopen 0) s

abbrev pub IsAdmitted : Drop → ℕ → Db → Db → Type 0
IsAdmitted d now s s' = ((is_available d.status ≡ true) × (s' ≡ s)) ⊎ IsReopened d now s s'

pub before_attempt_ok :
    (d d' : Drop) (now : ℕ) (s s' : Db)
    → before_attempt d now s ≡ (ok d', s')
    → IsAdmitted d now s s'
unfolding before_attempt execute_update
before_attempt_ok d d' now s s' h = elim (Bool-cases (is_cooling_down d.status)) [
  | inr warm ↦ inl (ground (arith, h, warm), ground (arith, h, warm))
  | inl cooling ↦ elim (Option-cases d.cooldown_until) [
    | inl missing ↦ absurd (ground (arith, h, cooling, missing))
    | inr (until, deadline) ↦ inr (record {
      cooling = cooling;
      until = until;
      deadline = deadline;
      over = ground (arith, h, cooling, deadline);
      written = ground (arith, h, cooling, deadline);
    })
  ]
]

-- A refusal writes nothing.
pub before_attempt_err :
    (d : Drop) (x : DropError) (now : ℕ) (s : Db)
    → (before_attempt d now s).0 ≡ err x
    → (before_attempt d now s).1 ≡ s
unfolding before_attempt execute_update
before_attempt_err d x now s h = elim (Bool-cases (is_cooling_down d.status)) [
  | inr warm ↦ ground (arith, h, warm)
  | inl cooling ↦ elim (Option-cases d.cooldown_until) [
    | inl missing ↦ ground (arith, h, cooling, missing)
    | inr (until, deadline) ↦ ground (arith, h, cooling, deadline)
  ]
]

-- What is handed on is available.
pub before_attempt-is_available :
    (d d' : Drop) (now : ℕ) (s : Db)
    → (before_attempt d now s).0 ≡ ok d'
    → is_available d'.status ≡ true
unfolding before_attempt execute_update
before_attempt-is_available d d' now s h = elim (Bool-cases (is_cooling_down d.status)) [
  | inr warm ↦ ground (arith, h, warm)
  | inl cooling ↦ elim (Option-cases d.cooldown_until) [
    | inl missing ↦ absurd (ground (arith, h, cooling, missing))
    | inr (until, deadline) ↦ ground (arith, h, cooling, deadline)
  ]
]
