-- ===== src/Auth/Tests.antt =====
-- The theorems on accounts at work, run on one account with one session.
use crypto_campus.Prelude.{
  ℕ, ◌+◌, ◌≡◌, refl, true, false, Option, none, some, [], ◌∷◌, ◌++◌, Bytes, Text, arith, ltb, leb,
  ◌&&◌, if◌then◌else◌, rowcount, bytes_eq, select_first, get, update_where, select, List, inl,
}
use crypto_campus.Text.{codes}
use crypto_campus.Models.{User, Role, UserStatus}
use crypto_campus.Drop.Samples.{engine, runtime, user, ones}
use crypto_campus.Action.{ok, err, transaction_by}
use crypto_campus.Auth.KeyCache.{put, forget}
use crypto_campus.Auth.Tokens.{
  Claims, access_claims, seconds, issue_access_token, verify_access_token, issue-verify,
}
use crypto_campus.Auth.Sessions.{
  UserSession, AuthTables, invalid, SessionFresh, session_digest, new_session, rotate, exchange,
  usable, revoke_row, add_session, split_by, create, refresh, revoke,
}
use crypto_campus.Auth.Sessions.Once.{Exchanged, rotate_once}
use crypto_campus.Auth.Sessions.Spent.{
  SessionCall, rotating, creating, revoking, revoking_device, after_calls,
}
use crypto_campus.Auth.Sessions.Reuse.{given_up_for_good}
use crypto_campus.Auth.Login.{
  LoginState, rate_limited, AuthSession, login, count_failure, is_locked, attempt, attempt_user,
  granted, unlocked, open_session, put_key, forgetting, parse_encrypted_private_key, update_user,
  summary_of,
}
use crypto_campus.Auth.Login.Outcomes.{IsWellFormed, IsAccount, IsWrong, started, attempt_of}
use crypto_campus.Auth.Login.Lockout.{
  LoginCall, after_login, after_logins, AllWrong, wrong_passwords-lock, counted,
}
use crypto_campus.Auth.Login.Entry.{IsAuthenticated, login_ok}
use crypto_campus.Auth.Login.Secret.{Decrypts}
use crypto_campus.Auth.Login.Granted.{HasOpened}
use crypto_campus.Auth.Policy.{
  normalize_campus_email, domain_of, domains_of, is_allowed, is_part, any_char, without_at,
}

-- Tokens.
abbrev claims : Claims
claims = access_claims (codes "u") (codes "student") 5000000 none (codes "j")

issue-verify_example :
    verify_access_token (λ c. some (ones 3)) (λ t. some claims) (ones 3) 7000000 ≡ (
      if ltb (seconds 7000000) (seconds 5000000 + 7200)
        && leb (seconds 5000000) (seconds 7000000 + 60)
      then some claims
      else none)
unfolding issue_access_token access_claims bytes_eq
issue-verify_example =
    issue-verify (λ c. some (ones 3)) (λ t. some claims) (codes "u") (codes "student") 5000000
      7000000 none (codes "j") (ones 3) refl (λ made. refl) (omega arith) refl refl refl refl

-- Sessions.
abbrev session : UserSession
session = record {
  id = 1;
  user_id = 2;
  device = [];
  ip = [];
  refresh_token_hash = ones 9;
  expires_at = 100;
  last_active_at = 0;
  revoked = false;
}

abbrev tables : AuthTables
tables = record { users = user 2 ∷ []; sessions = session ∷ [] }

abbrev fresh : SessionFresh
fresh = record { token = ones 8; id = 3 }

abbrev rotated : (Text × UserSession × User) × AuthTables
rotated =
    let r = new_session engine runtime 2 [] [] (ones 8) 3 50 in
    (
      (ones 8, r, user 2),
      record { users = user 2 ∷ []; sessions = record session { revoked = true } ∷ r ∷ [] },
    )

rotate_once_example :
    ((h : Bytes) × ((session_digest engine runtime (ones 9) tables).0 ≡ ok h)
      × Exchanged engine runtime h 50 [] [] fresh tables
          (rotate engine runtime (ones 9) 50 [] [] fresh tables).1
          rotated.0)
    × (rotate engine runtime
          (ones 9)
          60
          []
          []
          fresh
          (rotate engine runtime (ones 9) 50 [] [] fresh tables).1
        ≡ (err invalid, (rotate engine runtime (ones 9) 50 [] [] fresh tables).1))
unfolding rotate exchange usable revoke_row add_session session_digest select_first get update_where
    rowcount bytes_eq new_session transaction_by
rotate_once_example =
    rotate_once engine runtime (ones 9) 50 [] [] fresh tables rotated.0 60 [] [] fresh refl

-- The token that is used is tried again, other calls in between.
abbrev later_calls : List SessionCall
later_calls =
    rotating (ones 9) 60 [] [] fresh
    ∷ creating 2 [] [] (record { token = ones 7; id = 4 }) 70
    ∷ revoking (ones 8) 80
    ∷ revoking_device 2 4
    ∷ []

abbrev used_state : AuthTables
used_state = (rotate engine runtime (ones 9) 50 [] [] fresh tables).1

given_up_for_good_example :
    let s' = after_calls engine runtime later_calls used_state in
    (rotate engine runtime (ones 9) 90 [] [] fresh s' ≡ (err invalid, s'))
    × (refresh engine runtime (λ u k. some (codes "t")) (ones 9) 90 [] [] fresh s'
        ≡ (err invalid, s'))
    × (revoke engine runtime (ones 9) 90 s' ≡ (err invalid, s'))
unfolding rotate exchange usable revoke_row add_session session_digest select_first get update_where
    rowcount bytes_eq new_session transaction_by
given_up_for_good_example =
    given_up_for_good engine runtime (ones 9) 50 [] [] fresh tables used_state later_calls 90 [] []
      fresh (λ u k. some (codes "t")) (inl (rotated.0, refl))

-- Logins. The account holds the password itself, since the sample engine's hash is the password.
abbrev alice : User
alice = record (user 2) {
  email = some (codes "a@b");
  auth_hash = codes "pw";
  enc_sk = codes "v1" ++ (ones 12 ++ (ones 2 ++ ones 16));
  failed_login_count = 3;
}

abbrev before : LoginState
before = record {
  tables = record { users = alice ∷ []; sessions = [] };
  cache = [];
  pending_refresh_token = none;
}

abbrev issuer : User → Option ℕ → ℕ → Option Text
issuer u sid now = some (codes "t")

abbrev call : Text → ℕ → LoginCall
call password now = record {
  email = codes "a@b";
  password = password;
  device = [];
  ip = [];
  now = now;
  service = some fresh;
}

guess_request : IsWellFormed runtime (codes "b") (codes "a@b") (codes "no") (codes "a@b")
unfolding normalize_campus_email domain_of domains_of is_allowed is_part any_char without_at
    split_by bytes_eq
guess_request = record { address_ok = refl; length_ok = refl; bytes_ok = refl }

right_request : IsWellFormed runtime (codes "b") (codes "a@b") (codes "pw") (codes "a@b")
unfolding normalize_campus_email domain_of domains_of is_allowed is_part any_char without_at
    split_by bytes_eq
right_request = record { address_ok = refl; length_ok = refl; bytes_ok = refl }

account : IsAccount (codes "a@b") before alice
unfolding select_first get rowcount bytes_eq
account = record { found = refl; by_id = refl; once = refl; enabled = refl }

guess : IsWrong engine runtime (codes "b") issuer true alice (codes "no") 10
unfolding is_locked bytes_eq
guess = record { unlocked = refl; derived = codes "no"; hashed = refl; differs = refl }

second_guess :
    IsWrong engine runtime
      (codes "b")
      issuer
      true
      (counted (call (codes "no") 10 ∷ []) alice)
      (codes "no")
      20
unfolding is_locked counted count_failure bytes_eq
second_guess = record { unlocked = refl; derived = codes "no"; hashed = refl; differs = refl }

wrong_passwords-lock_example :
    let s =
      after_login engine runtime
        (codes "b")
        issuer
        true
        (call (codes "no") 20)
        (after_logins engine runtime (codes "b") issuer true (call (codes "no") 10 ∷ []) before) in
    login engine runtime (codes "b") issuer true (codes "a@b") (codes "pw") [] [] 30 (some fresh) s
    ≡ (err rate_limited, started s)
unfolding AllWrong
wrong_passwords-lock_example =
    wrong_passwords-lock engine runtime (codes "b") issuer true (codes "a@b")
      (call (codes "no") 10 ∷ []) (call (codes "no") 20) (call (codes "pw") 30) before alice account
      (guess_request, guess, tt) guess_request second_guess (omega arith) right_request
      (omega arith)

abbrev logged_in_state : LoginState
logged_in_state =
    (login engine runtime (codes "b") issuer true (codes "a@b") (codes "pw") [] [] 30 (some fresh)
      before).1

abbrev answer : AuthSession
answer = record {
  access_token = codes "t";
  expires_in = 7200;
  user = record {
    id = 2;
    email = codes "a@b";
    role = Role.student;
    status = UserStatus.active;
    pqc_mode = false;
    created_at = 0;
  };
}

login_ok_example :
    (address : Text) × (u : User) × (key : Bytes) × IsWellFormed runtime
      (codes "b")
      (codes "a@b")
      (codes "pw")
      address
    × IsAuthenticated engine runtime (codes "b") issuer true address (codes "pw") 30 before u
    × Decrypts engine u (codes "pw") key
    × HasOpened engine runtime
        (codes "b")
        issuer
        true
        u.id
        key
        (attempt_of engine runtime (codes "b") issuer true (codes "pw") [] [] 30 (some fresh))
        logged_in_state
unfolding login attempt attempt_user granted unlocked open_session create put_key put forget
    forgetting is_locked parse_encrypted_private_key update_user summary_of session_digest
    add_session new_session transaction_by normalize_campus_email domain_of domains_of is_allowed
    is_part any_char without_at split_by bytes_eq select_first get update_where select
login_ok_example =
    login_ok engine runtime (codes "b") issuer true (codes "a@b") (codes "pw") [] [] 30 (some fresh)
      before logged_in_state answer refl
