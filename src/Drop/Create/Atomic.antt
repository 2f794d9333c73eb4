-- ===== src/Drop/Create/Atomic.antt =====
-- A create that fails leaves the tables as they were: `create_text_drop` and `create_file_drop` of
-- server/app/services/drop.py.
use crypto_campus.Prelude.{◌≡◌, Option, none, some, Bytes, Text, arith, inl, inr}
use crypto_campus.Crypto.{CryptoEngine, Runtime}
use crypto_campus.Drop.State.{Db, DropError, err, Action, pure, or_raise, transaction, ◌>>=◌}
use crypto_campus.Drop.Actions.{ReadOnly, read_only, transaction_err, Result-cases}
use crypto_campus.Drop.Services.{Collaborators}
use crypto_campus.Drop.Requests.{Fresh, CreateRequest}
use crypto_campus.Drop.Create.{password_factor, store_drop, create_drop}

-- An action that writes nothing when it fails.
pub record Atomic {A : Type 0} (m : Action A) : Type 0 where
  pub kept : (s : Db) (x : DropError) → (m s).0 ≡ err x → (m s).1 ≡ s

Atomic-ReadOnly : {A : Type 0} (m : Action A) → ReadOnly m → Atomic m
Atomic-ReadOnly m h = record { kept = λ s x q. h.same s }

Atomic-transaction : {A : Type 0} (m : Action A) → Atomic (transaction m)
Atomic-transaction m = record { kept = λ s x q. transaction_err m s x q }

Atomic-bind :
    {A B : Type 0} (m : Action A) (f : A → Action B)
    → ReadOnly m
    → ((a : A) → Atomic (f a))
    → Atomic (m >>= f)
Atomic-bind m f h k = record { kept = λ s x q. kept s x q }
  where
    kept : (s : Db) (x : DropError) → ((m >>= f) s).0 ≡ err x → ((m >>= f) s).1 ≡ s
    kept s x q = elim (Result-cases (m s)) [
      | inl (y, e) ↦ ground (arith, e, h.same s)
      | inr (a, e) ↦ ground (arith, e, h.same s, (k a).kept s x)
    ]

Atomic-end : {A B : Type 0} (m : Action A) (b : A → B) → Atomic m → Atomic (m >>= λ a. pure (b a))
Atomic-end m b h = record { kept = λ s x q. kept s x q }
  where
    kept :
        (s : Db) (x : DropError)
        → ((m >>= λ a. pure (b a)) s).0 ≡ err x
        → ((m >>= λ a. pure (b a)) s).1 ≡ s
    kept s x q = elim (Result-cases (m s)) [
      | inl (y, e) ↦ ground (arith, e, h.kept s y e)
      | inr (a, e) ↦ absurd (ground (arith, e, q))
    ]

ReadOnly-query :
    {A : Type 0} (o : Db → Option A) (x : DropError) → ReadOnly (λ s. or_raise (o s) x s)
ReadOnly-query o x = record { same = λ s. ground arith }

module _ (e : CryptoEngine) (rt : Runtime) (sv : Collaborators) where
  pub password_factor-ReadOnly :
      (p : Option Text) (salt : Bytes) → ReadOnly (password_factor e rt sv p salt)
  unfolding password_factor
  password_factor-ReadOnly none salt = search read_only
  password_factor-ReadOnly (some p) salt = search read_only depth 10

  create_drop-Atomic : (r : CreateRequest) (f : Fresh) → Atomic (create_drop e rt sv r f)
  unfolding create_drop store_drop
  create_drop-Atomic r f =
      search
        (
          read_only, ReadOnly-query, password_factor-ReadOnly, Atomic-bind, Atomic-end,
          Atomic-transaction,
        )
        depth 40

  -- A create that is refused, at whatever step, writes nothing: the quota is not used up, and no drop,
  -- idempotency record, audit entry or inspection record is left.
  pub create_err_writes_nothing :
      (r : CreateRequest) (f : Fresh) (s : Db) (x : DropError)
      → (create_drop e rt sv r f s).0 ≡ err x
      → (create_drop e rt sv r f s).1 ≡ s
  create_err_writes_nothing r f s x h = (create_drop-Atomic r f).kept s x h
