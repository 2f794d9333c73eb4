-- ===== src/Auth/Login/Lockout.antt =====
-- Guessing a password (server/app/services/login.py): a run of logins with wrong ones.
use crypto_campus.Prelude.{
  ℕ, ◌+◌, ◌*◌, ◌<◌, ◌≤◌, ◌≡◌, sym, ap, Bool, true, Option, List, [], ◌∷◌, Text, arith, length,
}
use mathlib.Core.Path.{subst}
use crypto_campus.Models.{User}
use crypto_campus.Crypto.{CryptoEngine, Runtime}
use crypto_campus.Action.{err}
use crypto_campus.Auth.Sessions.{SessionFresh}
use crypto_campus.Auth.Login.{LoginState, rate_limited, is_locked, count_failure, login}
use crypto_campus.Auth.Login.Outcomes.{
  IsWellFormed, IsAccount, started, IsWrong, count_failure-IsAccount, login_wrong, login_locked,
}

-- The arguments of a login.
pub record LoginCall : Type 0 where
  pub email : Text
  pub password : Text
  pub device : Text
  pub ip : Text
  pub now : ℕ
  pub service : Option SessionFresh

-- The row of an account after wrong passwords.
unfoldable pub counted : List LoginCall → User → User
counted [] u = u
counted (c ∷ cs) u = counted cs (count_failure c.now u)

count-counted :
    (cs : List LoginCall) (u : User)
    → (counted cs u).failed_login_count ≡ u.failed_login_count + length cs
unfolding counted count_failure
count-counted [] u = omega arith
count-counted (c ∷ cs) u = omega (arith, count-counted cs (count_failure c.now u))

locks :
    (u : User) (t now : ℕ)
    → 5 ≤ u.failed_login_count + 1
    → now < t + 600000000
    → is_locked (count_failure t u).locked_until now ≡ true
unfolding count_failure is_locked
locks u t now five early = ground arith

module _ (e : CryptoEngine) (rt : Runtime) (setting : Text)
    (issue : User → Option ℕ → ℕ → Option Text) (lost : Bool) where
  pub after_login : LoginCall → LoginState → LoginState
  after_login c s =
      (login e rt setting issue lost c.email c.password c.device c.ip c.now c.service s).1

  pub after_logins : List LoginCall → LoginState → LoginState
  after_logins [] s = s
  after_logins (c ∷ cs) s = after_logins cs (after_login c s)

  -- Each call is for the account of the address, with a password that is wrong for it.
  unfoldable pub AllWrong : Text → User → List LoginCall → Type 0
  AllWrong address u [] = Unit
  AllWrong address u (c ∷ cs) =
      IsWellFormed rt setting c.email c.password address
      × IsWrong e rt setting issue lost u c.password c.now
      × AllWrong address (count_failure c.now u) cs

  after_login-IsAccount :
      (address : Text) (c : LoginCall) (s : LoginState) (u : User)
      → IsAccount address s u
      → IsWellFormed rt setting c.email c.password address
      → IsWrong e rt setting issue lost u c.password c.now
      → IsAccount address (after_login c s) (count_failure c.now u)
  unfolding after_login
  after_login-IsAccount address c s u q w x =
      subst (λ z. IsAccount address z (count_failure c.now u))
        (sym (
          ap (λ z. z.1)
            (login_wrong e rt setting issue lost c.email c.password address c.device c.ip c.now
              c.service s u w q x)))
        (count_failure-IsAccount address s u c.now q)

  after_logins-IsAccount :
      (address : Text) (cs : List LoginCall) (s : LoginState) (u : User)
      → IsAccount address s u
      → AllWrong address u cs
      → IsAccount address (after_logins cs s) (counted cs u)
  unfolding after_logins AllWrong counted
  after_logins-IsAccount address [] s u q h = q
  after_logins-IsAccount address (c ∷ cs) s u q (w, x, h) =
      after_logins-IsAccount address cs (after_login c s) (count_failure c.now u)
        (after_login-IsAccount address c s u q w x) h

  -- Whoever guesses: when the calls `cs` for an account all have wrong passwords, and so has `last`, and
  -- with these and what was counted before there are five or more, then for the ten minutes after `last`
  -- every login to the account is refused, with the right password too, and writes nothing.
  pub wrong_passwords-lock :
      (address : Text) (cs : List LoginCall) (last next : LoginCall) (s : LoginState) (u : User)
      → IsAccount address s u
      → AllWrong address u cs
      → IsWellFormed rt setting last.email last.password address
      → IsWrong e rt setting issue lost (counted cs u) last.password last.now
      → 5 ≤ u.failed_login_count + length cs + 1
      → IsWellFormed rt setting next.email next.password address
      → next.now < last.now + 10 * 60 * 1000000
      → login e rt setting issue lost next.email next.password next.device next.ip next.now
          next.service
          (after_login last (after_logins cs s))
        ≡ (err rate_limited, started (after_login last (after_logins cs s)))
  wrong_passwords-lock address cs last next s u q h w x five w' early =
      let q' = after_logins-IsAccount address cs s u q h in
      login_locked e rt setting issue lost next.email next.password address next.device next.ip
        next.now next.service (after_login last (after_logins cs s))
        (count_failure last.now (counted cs u)) w'
        (after_login-IsAccount address last (after_logins cs s) (counted cs u) q' w x)
        (locks (counted cs u) last.now next.now (omega (arith, five, count-counted cs u))
          (omega (arith, early)))
