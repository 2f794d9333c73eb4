-- ===== src/Action/Keeps.antt =====
-- Invariants of actions, one rule for each way to build one: `m` keeps `P`, however it ends.
use crypto_campus.Prelude.{
  if◌then◌else◌, ◌≡◌, refl, sym, inl, inr, Bool, true, false, Option, none, some, ap,
}
use mathlib.Core.Path.{subst}
use crypto_campus.Action.{
  Result, Action, pure, raise, raise_if, gets, or_raise, modify, ◌>>=◌, ◌>>◌, transaction_by, undo,
}
use crypto_campus.Action.Laws.{Result-cases, bind_ok, bind_err, transaction_cases}

pub record Keeps {S E A : Type 0} (P : S → Type 0) (m : Action S E A) : Type 0 where
  pub at : (s : S) → P s → P (m s).1

or_raise_same : {S E A : Type 0} (o : Option A) (x : E) (s : S) → (or_raise o x s).1 ≡ s
or_raise_same none x s = refl
or_raise_same (some a) x s = refl

-- What holds at the end of both branches of a test, and of a lookup.
pub of_both :
    {B : Type 0} (P : B → Type 0) (c : Bool) (x y : B) → P x → P y → P (if c then x else y)
of_both P true x y h k = h
of_both P false x y h k = k

pub of_found :
    {A B : Type 0} (P : B → Type 0) (o : Option A) (x : B) (f : A → B)
    → P x
    → ((a : A) → P (f a))
    → P (elim o as (λ _. B) [ none ↦ x | some a ↦ f a ])
of_found P none x f h k = h
of_found P (some a) x f h k = k a

module _ {S E A : Type 0} {P : S → Type 0} where
  pub Keeps-pure : (a : A) → Keeps {E = E} P (pure a)
  Keeps-pure a = record { at = λ s h. h }

  pub Keeps-raise : (x : E) → Keeps {A = A} P (raise x)
  Keeps-raise x = record { at = λ s h. h }

  -- A step that reads.
  pub Keeps-read : (g : S → Result E A) → Keeps P (λ s. (g s, s))
  Keeps-read g = record { at = λ s h. h }

  pub Keeps-gets : (g : S → A) → Keeps {E = E} P (gets g)
  Keeps-gets g = record { at = λ s h. h }

  -- A lookup that failed or not before the step, and one that the step makes.
  pub Keeps-or_raise : (o : Option A) (x : E) → Keeps P (or_raise o x)
  Keeps-or_raise o x = record { at = λ s h. subst P (sym (or_raise_same o x s)) h }

  pub Keeps-lookup : (o : S → Option A) (x : E) → Keeps P (λ s. or_raise (o s) x s)
  Keeps-lookup o x = record { at = λ s h. subst P (sym (or_raise_same (o s) x s)) h }

  pub Keeps-transaction : (m : Action S E A) → Keeps P m → Keeps P (transaction_by undo m)
  Keeps-transaction m k = record {
    at = λ s h. elim (transaction_cases m s) [
      | inl same ↦ subst P (sym same) h
      | inr went ↦ subst P (sym went) (k.at s h)
    ];
  }

  pub Keeps-elim :
      {B : Type 0} (o : S → Option B) (m : Action S E A) (f : B → Action S E A)
      → Keeps P m
      → ((b : B) → Keeps P (f b))
      → Keeps {E = E} {A = A} P (λ s. elim (o s) [ none ↦ m s | some b ↦ f b s ])
  Keeps-elim {B} o m f km kf = record { at = λ s h. go (o s) s h }
    where
      go :
          (b : Option B) (s : S)
          → P s
          → P (elim b as (λ b. Result E A × S) [ none ↦ m s | some b ↦ f b s ]).1
      go none s h = km.at s h
      go (some b) s h = (kf b).at s h

module _ {S E : Type 0} {P : S → Type 0} where
  pub Keeps-raise_if : (c : Bool) (x : E) → Keeps P (raise_if c x)
  Keeps-raise_if c x = record { at = λ s h. h }

  pub Keeps-check : (c : S → Bool) (x : E) → Keeps P (λ s. raise_if (c s) x s)
  Keeps-check c x = record { at = λ s h. h }

  pub Keeps-modify : (f : S → S) → ((s : S) → P s → P (f s)) → Keeps {E = E} P (modify f)
  Keeps-modify f k = record { at = k }

module _ {S E A B : Type 0} {P : S → Type 0} where
  pub Keeps-bind :
      (m : Action S E A) (f : A → Action S E B)
      → Keeps P m
      → ((a : A) → Keeps P (f a))
      → Keeps P (m >>= f)
  Keeps-bind m f k l = record {
    at = λ s h. elim (Result-cases (m s)) [
      | inl (x, q) ↦
          subst P (sym (ap (λ (z : Result E B × S). z.1) (bind_err m f s (m s).1 x q))) (k.at s h)
      | inr (a, q) ↦
          subst P (sym (ap (λ (z : Result E B × S). z.1) (bind_ok m f s (m s).1 a q)))
            ((l a).at (m s).1 (k.at s h))
    ];
  }

  pub Keeps-then : (m : Action S E A) (n : Action S E B) → Keeps P m → Keeps P n → Keeps P (m >> n)
  Keeps-then m n k l = Keeps-bind m (λ _. n) k (λ _. l)

pub ruleset keeping = (
  Keeps-pure, Keeps-raise, Keeps-read, Keeps-gets, Keeps-or_raise, Keeps-lookup, Keeps-transaction,
  Keeps-elim, Keeps-raise_if, Keeps-check, Keeps-bind, Keeps-then,
)
