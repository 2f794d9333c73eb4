-- ===== src/Drop/Actions.antt =====
-- Laws of the actions of `State`: what a successful chain did, and chains that write nothing.
use crypto_campus.Prelude.{◌≡◌, refl, Bool, Option, none, some, arith, ◌⊎◌, inl, inr}
use crypto_campus.Drop.State.{
  Db, DropError, Result, ok, err, Action, pure, raise, raise_if, gets, or_raise, transaction, ◌>>=◌,
}

-- A chain that succeeds: its first part did.
module _ {A B : Type 0} (m : Action A) (f : A → Action B) (s : Db) where
  bind_ok_cases :
      (r : Result A) (s' : Db) (b : B)
      → m s ≡ (r, s')
      → ((m >>= f) s).0 ≡ ok b
      → (a : A) × (m s ≡ (ok a, s')) × ((f a s').0 ≡ ok b) × ((m >>= f) s ≡ f a s')
  bind_ok_cases (ok a) s' b e h = (a, e, ground (arith, e), ground (arith, e))
  bind_ok_cases (err x) s' b e h = absurd (ground (arith, e))

  pub bind_ok :
      (b : B)
      → ((m >>= f) s).0 ≡ ok b
      → (a : A) × (m s ≡ (ok a, (m s).1)) × ((f a (m s).1).0 ≡ ok b) × ((m >>= f) s ≡ f a (m s).1)
  bind_ok b h = bind_ok_cases (m s).0 (m s).1 b refl h

-- An action that leaves the tables as they are.
pub record ReadOnly {A : Type 0} (m : Action A) : Type 0 where
  pub same : (s : Db) → (m s).1 ≡ s

pub ReadOnly-pure : {A : Type 0} (a : A) → ReadOnly (pure a)
ReadOnly-pure a = record { same = λ s. refl }

pub ReadOnly-raise : {A : Type 0} (x : DropError) → ReadOnly {A = A} (raise x)
ReadOnly-raise x = record { same = λ s. refl }

pub ReadOnly-raise_if : (c : Bool) (x : DropError) → ReadOnly (raise_if c x)
ReadOnly-raise_if c x = record { same = λ s. refl }

pub ReadOnly-gets : {A : Type 0} (f : Db → A) → ReadOnly (gets f)
ReadOnly-gets f = record { same = λ s. refl }

pub ReadOnly-or_raise : {A : Type 0} (o : Option A) (x : DropError) → ReadOnly (or_raise o x)
ReadOnly-or_raise none x = record { same = λ s. refl }
ReadOnly-or_raise (some a) x = record { same = λ s. refl }

bind_same :
    {A B : Type 0} (m : Action A) (f : A → Action B) (s : Db) (r : Result A) (s' : Db)
    → m s ≡ (r, s')
    → s' ≡ s
    → ((a : A) (t : Db) → (f a t).1 ≡ t)
    → ((m >>= f) s).1 ≡ s
bind_same m f s (ok a) s' e h k = ground (arith, e, k a s')
bind_same m f s (err x) s' e h k = ground (arith, e)

pub ReadOnly-bind :
    {A B : Type 0} (m : Action A) (f : A → Action B)
    → ReadOnly m
    → ((a : A) → ReadOnly (f a))
    → ReadOnly (m >>= f)
ReadOnly-bind m f h k = record {
  same = λ s. bind_same m f s (m s).0 (m s).1 refl (h.same s) (λ a. (k a).same);
}

pub ruleset read_only = (
  ReadOnly-pure, ReadOnly-raise, ReadOnly-raise_if, ReadOnly-gets, ReadOnly-or_raise, ReadOnly-bind,
)

transaction_err_cases :
    {A : Type 0} (m : Action A) (s : Db) (x : DropError) (r : Result A) (s' : Db)
    → m s ≡ (r, s')
    → (transaction m s).0 ≡ err x
    → (transaction m s).1 ≡ s
unfolding transaction
transaction_err_cases m s x (ok a) s' e h = absurd (ground (arith, e))
transaction_err_cases m s x (err y) s' e h = ground (arith, e)

-- A transaction that raises leaves the tables as they were.
pub transaction_err :
    {A : Type 0} (m : Action A) (s : Db) (x : DropError)
    → (transaction m s).0 ≡ err x
    → (transaction m s).1 ≡ s
unfolding transaction
transaction_err m s x h = transaction_err_cases m s x (m s).0 (m s).1 refl h

-- How a call has ended.
pub Result-cases :
    {A : Type 0} (out : Result A × Db)
    → ((x : DropError) × (out.0 ≡ err x)) ⊎ ((a : A) × (out.0 ≡ ok a))
Result-cases (ok a, s) = inr (a, refl)
Result-cases (err x, s) = inl (x, refl)
