-- ===== src/Accounts/Tests.antt =====
-- The theorems on a freeze, run on one account with one session and an unlocked key.
use crypto_campus.Prelude.{
  rowcount, ℕ, ◌≡◌, refl, true, false, Option, none, some, [], ◌∷◌, ◌==◌, Bytes, Text, get,
  bytes_eq, select_first, update_where, ◌≤◌, arith,
}
use crypto_campus.Text.{codes}
use crypto_campus.Models.{User, UserStatus, Role}
use crypto_campus.Crypto.{CryptoEngine}
use crypto_campus.Drop.Samples.{engine, runtime, user, ones}
use crypto_campus.Action.{transaction_by}
use crypto_campus.Auth.KeyCache.{entry_of_user}
use crypto_campus.Auth.Sessions.{UserSession, usable}
use crypto_campus.Accounts.{
  AccountState, Governance, is_frozen, requested_status, digest32, chain_entry, record_change,
  target_of, change_status, update_status, update_role,
}
use crypto_campus.Accounts.Shut.{live_sessions, freeze_shuts_out, freeze-usable}
use crypto_campus.Accounts.Teachers.{active_teachers}
use crypto_campus.Accounts.Roles.{role_keeps_teacher}

abbrev hasher : CryptoEngine
hasher = record engine { sm3_digest = λ b. ones 32 }

abbrev uuid_bytes : Text → Option Bytes
uuid_bytes t = some (ones 16)

abbrev session_of : ℕ → UserSession
session_of k = record {
  id = k;
  user_id = k;
  device = [];
  ip = [];
  refresh_token_hash = ones k;
  expires_at = 100;
  last_active_at = 0;
  revoked = false;
}

abbrev before : AccountState
before = record {
  tables = record { users = user 2 ∷ user 3 ∷ []; sessions = session_of 2 ∷ session_of 3 ∷ [] };
  log = [];
  chain = [];
  cache = record { user_id = 2; private_key = ones 1; expires_at = 100 } ∷ [];
}

abbrev freeze : Governance
freeze = record { actor_id = 1; target_id = 2; reason = ones 3; now = 5; audit = none }

abbrev frozen_state : AccountState
frozen_state = (update_status hasher runtime uuid_bytes freeze (codes "frozen") before).1

freeze_shuts_out_example :
    (get (λ (x : User). x.id) 2 frozen_state.tables.users
      ≡ some (record (user 2) { status = UserStatus.frozen }))
    × (is_frozen UserStatus.frozen ≡ true)
    × (live_sessions 2 frozen_state.tables.sessions ≡ 0)
    × (entry_of_user 2 frozen_state.cache ≡ none)
unfolding update_status change_status target_of record_change digest32 chain_entry requested_status
    transaction_by bytes_eq get select_first update_where
freeze_shuts_out_example =
    freeze_shuts_out hasher runtime uuid_bytes freeze before frozen_state (user 2)
      (record (user 2) { status = UserStatus.frozen }) refl refl refl

freeze-usable_example : ((session_of 3).user_id == freeze.target_id) ≡ false
unfolding update_status change_status target_of record_change digest32 chain_entry requested_status
    transaction_by bytes_eq get select_first update_where usable
freeze-usable_example =
    freeze-usable hasher runtime uuid_bytes freeze before frozen_state (user 2)
      (record (user 2) { status = UserStatus.frozen }) (ones 3) 50 (session_of 3) (user 3) refl refl
      refl refl

-- The only active teacher, and the request to make a student of the account.
abbrev school : AccountState
school = record before {
  tables = record before.tables { users = record (user 2) { role = Role.teacher } ∷ user 3 ∷ [] };
}

role_keeps_teacher_example :
    1
    ≤ active_teachers
        (update_role hasher runtime uuid_bytes freeze (codes "student") school).1.tables.users
unfolding rowcount
role_keeps_teacher_example =
    role_keeps_teacher hasher runtime uuid_bytes freeze (codes "student") school (omega arith)
      (omega arith)
