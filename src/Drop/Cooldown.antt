-- ===== src/Drop/Cooldown.antt =====
-- `SqlAlchemyExtractCooldownGuard` of server/app/services/extract_cooldown.py: five wrong access
-- codes lock a drop for ten minutes.
pub mod Machine
pub mod Refines
pub mod Admission
use crypto_campus.Prelude.{
  ℕ, ◌+◌, ◌-◌, ◌*◌, Bool, false, ◌&&◌, Option, none, some, ◌==◌, ltb, leb, if◌then◌else◌, get,
  update_where, rowcount,
}
use crypto_campus.Drop.Update.{due, get_drop, execute_update}
use crypto_campus.Drop.Rows.{Drop, DropStatus, is_available, is_cooling_down}
use crypto_campus.Drop.State.{
  Db, DropError, Action, ok, err, cooling_down, not_found, crash, pure, raise, ◌>>=◌, ◌>>◌,
  transaction,
}

-- COOLDOWN_FAILED_ATTEMPTS_THRESHOLD
abbrev pub threshold : ℕ
threshold = 5

-- COOLDOWN_DURATION_MINUTES, in microseconds
abbrev pub cooldown_duration : ℕ
cooldown_duration = 10 * 60 * 1000000

abbrev pub reopen : ℕ → Drop → Drop
reopen n d = record d { status = DropStatus.available; failed_attempts = n; cooldown_until = none }

-- `before_attempt` on the drop that the caller loaded; the caller goes on with the new attributes.
unfoldable pub before_attempt : Drop → ℕ → Action Drop
before_attempt d now =
    if is_cooling_down d.status
    then elim d.cooldown_until [
      | none ↦ raise not_found
      | some until ↦ if ltb now until then raise cooling_down else (do
        execute_update d.id (λ r. is_cooling_down r.status) (reopen 0)
        pure (reopen 0 d))
    ]
    else if is_available d.status
    then pure d
    else raise not_found

-- The third UPDATE, and what `record_failure` returns if it touches nothing either.
record_fifth : ℕ → ℕ → Action ℕ
record_fifth k now = do
  locked ←
      execute_update k (λ d. is_available d.status && d.failed_attempts == threshold - 1)
        λ d. record d {
          failed_attempts = threshold;
          status = DropStatus.cooling_down;
          cooldown_until = some (now + cooldown_duration);
        }
  if locked == 1 then pure threshold else λ s. elim (get_drop k s) [
    | some d ↦ (ok d.failed_attempts, s)
    | none ↦ (ok 0, s)
  ]

-- `scalar_one()`
attempts_of : ℕ → Action ℕ
attempts_of k s = elim (get_drop k s) [ some d ↦ (ok d.failed_attempts, s) | none ↦ (err crash, s) ]

pub record_failure : ℕ → ℕ → Action ℕ
record_failure k now = do
  reset ← execute_update k (λ d. is_cooling_down d.status && due now d.cooldown_until) (reopen 1)
  if reset == 1 then pure 1 else do
    counted ←
        execute_update k (λ d. is_available d.status && ltb d.failed_attempts (threshold - 1))
          λ d. record d { failed_attempts = d.failed_attempts + 1 }
    if counted == 1 then attempts_of k else record_fifth k now

unfoldable pub record_success : ℕ → Action (Unit {0})
unfolding transaction
record_success k = transaction (do
  execute_update k (λ d. Bool.true) (λ d. record d { failed_attempts = 0; cooldown_until = none })
  pure tt)
