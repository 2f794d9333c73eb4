-- ===== src/Drop/Cooldown/Machine.antt =====
-- What the cooldown of a drop promises, as a state machine on one drop, and that the UPDATE
-- statements of server/app/services/extract_cooldown.py implement it.
use crypto_campus.Prelude.{
  ℕ, ◌+◌, ◌-◌, ◌<◌, ◌≡◌, refl, ◌≢◌, Bool, true, ◌&&◌, Option, none, some, arith, ◌==◌, ltb, leb,
  if◌then◌else◌, update_row, IsUnique,
}
use crypto_campus.Drop.Update.{due, get_drop, after_update, execute_update_lem}
use crypto_campus.Drop.Rows.{Drop, DropStatus, is_available, is_cooling_down}
use crypto_campus.Drop.State.{Db, Result, ok}
use crypto_campus.Drop.Cooldown.{
  threshold, cooldown_duration, reopen, record_fifth, attempts_of, record_failure,
}

-- `counting n`: open, after n wrong codes. `locked t`: refused until t. `closed`: gone for good.
pub data Guard : Type 0 where
  counting : ℕ → Guard
  locked : ℕ → Guard
  closed : Guard

abbrev pub guard_of : Drop → Guard
guard_of d =
    if is_available d.status
    then counting d.failed_attempts
    else if is_cooling_down d.status
    then elim d.cooldown_until [ none ↦ closed | some t ↦ locked t ]
    else closed

-- A wrong code at the instant `now`.
abbrev pub fail : ℕ → Guard → Guard
fail now (counting n) =
    if ltb (n + 1) threshold then counting (n + 1) else locked (now + cooldown_duration)
fail now (locked t) = if leb t now then counting 1 else locked t
fail now closed = closed

-- The check before an attempt: `none` refuses it.
abbrev pub attempt : ℕ → Guard → Option Guard
attempt now (counting n) = some (counting n)
attempt now (locked t) = if ltb now t then none else some (counting 0)
attempt now closed = none

-- The counter and the deadline agree with the status.
pub record IsGuarded (d : Drop) : Type 0 where
  pub below : is_available d.status ≡ true → d.failed_attempts < threshold
  pub full : is_cooling_down d.status ≡ true → d.failed_attempts ≡ threshold
  pub dated : is_cooling_down d.status ≡ true → d.cooldown_until ≢ none

-- Only the columns of the guard differ.
pub record SameOtherwise (d d' : Drop) : Type 0 where
  pub columns : d' ≡ record d {
    status = d'.status;
    failed_attempts = d'.failed_attempts;
    cooldown_until = d'.cooldown_until;
  }

-- How a call that returns the counter of the drop `d` ends.
abbrev pub Leaves : ℕ → Drop → Result ℕ × Db → Type 0
Leaves k d (r, s) =
    (r ≡ ok d.failed_attempts) × (get_drop k s ≡ some d) × IsUnique (λ r. r.id) s.drops

abbrev pub lockable : Drop → Bool
lockable d = is_available d.status && d.failed_attempts == threshold - 1

abbrev pub lock : ℕ → Drop → Drop
lock now d = record d {
  failed_attempts = threshold;
  status = DropStatus.cooling_down;
  cooldown_until = some (now + cooldown_duration);
}

abbrev pub countable : Drop → Bool
countable d = is_available d.status && ltb d.failed_attempts (threshold - 1)

abbrev pub count : Drop → Drop
count d = record d { failed_attempts = d.failed_attempts + 1 }

abbrev pub cooled : ℕ → Drop → Bool
cooled now d = is_cooling_down d.status && due now d.cooldown_until

-- The row that `record_failure` leaves.
abbrev pub failed_row : ℕ → Drop → Drop
failed_row now d =
    if cooled now d
    then reopen 1 d
    else if countable d
    then count d
    else update_row lockable (lock now) d

module _ (k now : ℕ) where
  record_fifth_row :
      (s : Db) (d : Drop)
      → IsUnique (λ r. r.id) s.drops
      → get_drop k s ≡ some d
      → Leaves k (update_row lockable (lock now) d) (record_fifth k now s)
  unfolding record_fifth
  record_fifth_row s d u found =
      let (e, found', u') = execute_update_lem k lockable (lock now) (λ r. refl) s d u found in
      ground (arith, e, found', u')

  pub record_failure_row :
      (s : Db) (d : Drop)
      → IsUnique (λ r. r.id) s.drops
      → get_drop k s ≡ some d
      → Leaves k (failed_row now d) (record_failure k now s)
  unfolding record_failure attempts_of
  record_failure_row s d u found =
      let (e, found', u') = execute_update_lem k (cooled now) (reopen 1) (λ r. refl) s d u found in
      let s' = after_update k (cooled now) (reopen 1) s in
      let d' = update_row (cooled now) (reopen 1) d in
      let (e2, found2, u2) = execute_update_lem k countable count (λ r. refl) s' d' u' found' in
      let s2 = after_update k countable count s' in
      let d2 = update_row countable count d' in
      ground (arith, e, found', u', e2, found2, u2, record_fifth_row s2 d2 u2 found2)

  pub failed_row-IsGuarded : (d : Drop) → IsGuarded d → IsGuarded (failed_row now d)
  failed_row-IsGuarded d g = record {
    below = ground (arith, g.below);
    full = ground (arith, g.full);
    dated = ground (arith, g.dated);
  }

  pub guard_of-failed_row :
      (d : Drop) → IsGuarded d → guard_of (failed_row now d) ≡ fail now (guard_of d)
  guard_of-failed_row d g = ground (arith, g.below, g.full, g.dated)

  pub SameOtherwise-failed_row : (d : Drop) → SameOtherwise d (failed_row now d)
  SameOtherwise-failed_row d = record { columns = ground arith }
