-- ===== src/Drop/Cooldown/Refines.antt =====
-- The three methods of `SqlAlchemyExtractCooldownGuard` implement the state machine of `Machine`.
use crypto_campus.Prelude.{
  ℕ, ◌≡◌, refl, Option, none, some, true, arith, Bool-cases, inl, inr, ltb, IsUnique, false,
}
use crypto_campus.Drop.Update.{
  get_drop, execute_update, after_update, execute_update_lem, Frame, after_update-others,
}
use crypto_campus.Drop.Rows.{Drop, DropStatus, is_available, is_cooling_down, is_live}
use crypto_campus.Drop.State.{Db, DropError, Result, ok, err, not_found, cooling_down, transaction}
use crypto_campus.Drop.Cooldown.{
  reopen, before_attempt, record_fifth, attempts_of, record_failure, record_success,
}
use crypto_campus.Drop.Cooldown.Machine.{
  Guard, guard_of, fail, attempt, IsGuarded, SameOtherwise, failed_row, record_failure_row,
  failed_row-IsGuarded, guard_of-failed_row, SameOtherwise-failed_row, cooled, countable, count,
  lockable, lock,
}

-- `d'` is what the table holds under the key of `d`, which is in the state `g`.
pub record Holds (k : ℕ) (d : Drop) (g : Guard) (s : Db) (d' : Drop) : Type 0 where
  pub row : get_drop k s ≡ some d'
  pub state : guard_of d' ≡ g
  pub guarded : IsGuarded d'
  pub otherwise : SameOtherwise d d'
  pub unique : IsUnique (λ r. r.id) s.drops

-- A wrong code: on the row of a drop whose counter and deadline agree with its status, `record_failure` is the transition `fail` of the machine. It
-- returns the new counter, keeps the counter and the deadline in line with the status, and writes no
-- other column.
pub record_failure_refines :
    (k now : ℕ) (s : Db) (d : Drop)
    → IsUnique (λ r. r.id) s.drops
    → get_drop k s ≡ some d
    → IsGuarded d
    → (d' : Drop) × Holds k d (fail now (guard_of d)) (record_failure k now s).1 d'
      × ((record_failure k now s).0 ≡ ok d'.failed_attempts)
record_failure_refines k now s d u found g =
    let (r, row, u') = record_failure_row k now s d u found in
    (
      failed_row now d,
      record {
        row = row;
        state = guard_of-failed_row k now d g;
        guarded = failed_row-IsGuarded k now d g;
        otherwise = SameOtherwise-failed_row k now d;
        unique = u';
      },
      r,
    )

-- How `before_attempt` ends on a drop for which the machine answers `g`.
abbrev pub Answers : Option Guard → Drop → Db → Result Drop × Db → Type 0
Answers none d s (r, s') = ((e : DropError) × (r ≡ err e)) × (s' ≡ s)
Answers (some g) d s (r, s') = (d' : Drop) × (r ≡ ok d') × Holds d.id d g s' d'

module _ (now : ℕ) (s : Db) (d : Drop) (u : IsUnique (λ r. r.id) s.drops)
    (found : get_drop d.id s ≡ some d) (g : IsGuarded d) where
  before_attempt_cases :
      (st : DropStatus) (until : Option ℕ)
      → d.status ≡ st
      → d.cooldown_until ≡ until
      → Answers (attempt now (guard_of d)) d s (before_attempt d now s)
  unfolding before_attempt
  before_attempt_cases DropStatus.available until e e' = simp e (
    d,
    refl,
    record {
      row = found;
      state = ground arith;
      guarded = g;
      otherwise = record { columns = refl };
      unique = u;
    },
  )
  before_attempt_cases DropStatus.cooling_down none e e' = simp (e, e') ((not_found, refl), refl)
  before_attempt_cases DropStatus.cooling_down (some t) e e' =
      let (run, row, u') =
        execute_update_lem d.id (λ r. is_cooling_down r.status) (reopen 0) (λ r. refl) s d u
          found in
      elim (Bool-cases (ltb now t)) [
        | inl early ↦ simp (e, e', early) ((cooling_down, refl), refl)
        | inr over ↦
            simp (e, e', over)
              (
                reopen 0 d,
                ground (arith, run),
                record {
                  row = ground (arith, run, row);
                  state = refl;
                  guarded = ground arith;
                  otherwise = record { columns = refl };
                  unique = ground (arith, run, u');
                },
              )
      ]
  before_attempt_cases DropStatus.consumed until e e' = simp e ((not_found, refl), refl)
  before_attempt_cases DropStatus.expired until e e' = simp e ((not_found, refl), refl)
  before_attempt_cases DropStatus.destroyed until e e' = simp e ((not_found, refl), refl)

-- Before an attempt: `before_attempt` raises, and writes nothing, exactly where the machine refuses;
-- otherwise the row and the attributes that it hands on are in the state that the machine gives.
pub before_attempt_refines :
    (now : ℕ) (s : Db) (d : Drop)
    → IsUnique (λ r. r.id) s.drops
    → get_drop d.id s ≡ some d
    → IsGuarded d
    → Answers (attempt now (guard_of d)) d s (before_attempt d now s)
before_attempt_refines now s d u found g =
    before_attempt_cases now s d u found g d.status d.cooldown_until refl refl

-- A success clears the counter and the deadline of the drop, and no other column of it; the status
-- stays what the extraction has made it.
pub record_success_clears :
    (k : ℕ) (s : Db) (d : Drop)
    → IsUnique (λ r. r.id) s.drops
    → get_drop k s ≡ some d
    → (record_success k s).0 ≡ ok tt
      × (get_drop k (record_success k s).1
          ≡ some (record d { failed_attempts = 0; cooldown_until = none }))
unfolding record_success transaction
record_success_clears k s d u found =
    let (run, row, _) =
      execute_update_lem k (λ r. true)
        (λ r. record r { failed_attempts = 0; cooldown_until = none }) (λ r. refl) s d u found in
    (ground (arith, run), ground (arith, run, row))

pub record_success-drops :
    (k : ℕ) (s : Db)
    → record_success k s ≡ (
      ok tt,
      after_update k (λ r. true) (λ r. record r { failed_attempts = 0; cooldown_until = none }) s,
    )
unfolding record_success transaction execute_update
record_success-drops k s = ground arith

-- A wrong code on one drop changes no other drop and no other table.
pub record_failure-Frame : (k now : ℕ) (s : Db) → Frame k s (record_failure k now s).1
unfolding record_failure record_fifth attempts_of execute_update
record_failure-Frame k now s =
    let s1 = after_update k (cooled now) (reopen 1) s in
    let s2 = after_update k countable count s1 in
    record {
      others = λ j h. ground (
        arith,
        after_update-others k (cooled now) (reopen 1) (λ r. refl) s j h,
        after_update-others k countable count (λ r. refl) s1 j h,
        after_update-others k lockable (lock now) (λ r. refl) s2 j h,
      );
      tables = ground arith;
    }

pub before_attempt_available :
    (d : Drop) (now : ℕ) (s : Db)
    → is_available d.status ≡ true
    → before_attempt d now s ≡ (ok d, s)
unfolding before_attempt
before_attempt_available d now s h = ground arith

pub before_attempt_closed :
    (d : Drop) (now : ℕ) (s : Db)
    → is_live d.status ≡ false
    → before_attempt d now s ≡ (err not_found, s)
unfolding before_attempt
before_attempt_closed d now s h = ground arith
