-- ===== src/Action/Laws.antt =====
-- Laws of the actions: how a call has ended, and what a successful chain did.
use crypto_campus.Prelude.{
  ◌≡◌, refl, sym, ap, ◌∙◌, ◌⊎◌, inl, inr, arith, Bool, true, false, Option, none, some,
  if◌then◌else◌,
}
use crypto_campus.Action.{Result, ok, err, Action, ◌>>=◌, transaction_by, undo, or_raise, raise_if}

pub Result-cases :
    {S E A : Type 0} (out : Result E A × S)
    → ((x : E) × (out ≡ (err x, out.1))) ⊎ ((a : A) × (out ≡ (ok a, out.1)))
Result-cases (ok a, s) = inr (a, refl)
Result-cases (err x, s) = inl (x, refl)

transaction_err_cases :
    {S E A : Type 0} (m : Action S E A) (s : S) (x : E) (r : Result E A) (s' : S)
    → m s ≡ (r, s')
    → (transaction_by undo m s).0 ≡ err x
    → (transaction_by undo m s).1 ≡ s
unfolding transaction_by
transaction_err_cases m s x (ok a) s' e h = absurd (ground (arith, e))
transaction_err_cases m s x (err y) s' e h = ground (arith, e)

-- A block that raises leaves the state as it was.
pub transaction_err :
    {S E A : Type 0} (m : Action S E A) (s : S) (x : E)
    → (transaction_by undo m s).0 ≡ err x
    → (transaction_by undo m s).1 ≡ s
transaction_err m s x h = transaction_err_cases m s x (m s).0 (m s).1 refl h

pub ok_inj : {E A : Type 0} {a b : A} → ◌≡◌ {A = Result E A} (ok a) (ok b) → a ≡ b
ok_inj {a} {b} h = ground (arith, h)

-- The result of a call that is known to end well.
pub ok_run :
    {S E A : Type 0} (m : Action S E A) (s s' : S) (a b : A)
    → m s ≡ (ok a, s')
    → (m s).0 ≡ ok b
    → a ≡ b
ok_run {S} {E} {A} m s s' a b run h = ok_inj (ap (λ (z : Result E A × S). z.0) (sym run) ∙ h)

module _ {S E A B : Type 0} (restore : S → S → S) (m : Action S E A) (f : A → Action S E B) where
  -- What a block that is undone on an exception, and the step after it, make of a result.
  abbrev after_block : S → Result E A × S → Result E B × S
  after_block s out =
      let done : Result E A × S = elim out.0 [
        | ok a ↦ (ok a, out.1)
        | err x ↦ (err x, restore s out.1)
      ] in
      elim done.0 [ ok a ↦ f a done.1 | err x ↦ (err x, done.1) ]

  pub then_err :
      (s s' : S) (x : E)
      → m s ≡ (err x, s')
      → (transaction_by restore m >>= f) s ≡ (err x, restore s s')
  unfolding transaction_by
  then_err s s' x h = ap (after_block s) h

  pub then_ok : (s s' : S) (a : A) → m s ≡ (ok a, s') → (transaction_by restore m >>= f) s ≡ f a s'
  unfolding transaction_by
  then_ok s s' a h = ap (after_block s) h

module _ {S E A B : Type 0} (m : Action S E A) (f : A → Action S E B) where
  abbrev after_step : Result E A × S → Result E B × S
  after_step out = elim out.0 [ ok a ↦ f a out.1 | err x ↦ (err x, out.1) ]

  pub bind_ok : (s s' : S) (a : A) → m s ≡ (ok a, s') → (m >>= f) s ≡ f a s'
  bind_ok s s' a h = ap after_step h

  pub bind_err : (s s' : S) (x : E) → m s ≡ (err x, s') → (m >>= f) s ≡ (err x, s')
  bind_err s s' x h = ap after_step h

pub not_ok :
    {S E B : Type 0} (x : E) (b : B) (s s' : S) → ¬ ◌≡◌ {A = Result E B × S} (err x, s) (ok b, s')
not_ok {S} {E} {B} x b s s' h = ground (arith, ap (λ (z : Result E B × S). z.0) h)

module _ {S E A B : Type 0} (f : A → Action S E B) where
  -- A chain that ends well: so did its first step.
  pub bind_inv :
      (m : Action S E A) (s s' : S) (b : B)
      → (m >>= f) s ≡ (ok b, s')
      → (a : A) × (m s ≡ (ok a, (m s).1)) × (f a (m s).1 ≡ (ok b, s'))
  bind_inv m s s' b h = elim (Result-cases (m s)) [
    | inl (x, q) ↦ absurd (not_ok x b (m s).1 s' (sym (bind_err m f s (m s).1 x q) ∙ h))
    | inr (a, q) ↦ (a, q, sym (bind_ok m f s (m s).1 a q) ∙ h)
  ]

  pub then_inv :
      (restore : S → S → S) (m : Action S E A) (s s' : S) (b : B)
      → (transaction_by restore m >>= f) s ≡ (ok b, s')
      → (a : A) × (m s ≡ (ok a, (m s).1)) × (f a (m s).1 ≡ (ok b, s'))
  then_inv restore m s s' b h = elim (Result-cases (m s)) [
    | inl (x, q) ↦
        absurd (not_ok x b (restore s (m s).1) s' (sym (then_err restore m f s (m s).1 x q) ∙ h))
    | inr (a, q) ↦ (a, q, sym (then_ok restore m f s (m s).1 a q) ∙ h)
  ]

pub value_cases : {E A : Type 0} (r : Result E A) → ((x : E) × (r ≡ err x)) ⊎ ((a : A) × (r ≡ ok a))
value_cases (ok a) = inr (a, refl)
value_cases (err x) = inl (x, refl)

pub pure_inv :
    {S E A : Type 0} (a b : A) (s s' : S)
    → ◌≡◌ {A = Result E A × S} (ok a, s) (ok b, s')
    → (a ≡ b) × (s ≡ s')
pure_inv {S} {E} {A} a b s s' h =
    (ok_inj (ap (λ (z : Result E A × S). z.0) h), ap (λ (z : Result E A × S). z.1) h)

-- A block that is undone on an exception ends in the state before it, or in its own.
pub transaction_cases :
    {S E A : Type 0} (m : Action S E A) (s : S)
    → ((transaction_by undo m s).1 ≡ s) ⊎ ((transaction_by undo m s).1 ≡ (m s).1)
unfolding transaction_by
transaction_cases m s = elim (Result-cases (m s)) [
  | inl (x, q) ↦ inl (ground (arith, q))
  | inr (a, q) ↦ inr (ground (arith, q))
]

-- A guarded write, and a lookup, that ended well.
pub guard_inv :
    {S E A : Type 0} (c : Bool) (x : E) (a b : A) (s t s' : S)
    → ◌≡◌ {A = Result E A × S} (if c then (err x, s) else (ok a, t)) (ok b, s')
    → (c ≡ false) × (t ≡ s')
guard_inv {S} {E} {A} true x a b s t s' h = absurd (not_ok x b s s' h)
guard_inv {S} {E} {A} false x a b s t s' h = (refl, (pure_inv a b t s' h).1)

pub or_raise_inv :
    {S E A : Type 0} (o : Option A) (x : E) (a : A) (s s' : S)
    → or_raise o x s ≡ (ok a, s')
    → (o ≡ some a) × (s ≡ s')
or_raise_inv {S} {E} {A} none x a s s' h = absurd (not_ok x a s s' h)
or_raise_inv {S} {E} {A} (some b) x a s s' h =
    (ap some (pure_inv b a s s' h).0, (pure_inv b a s s' h).1)

pub raise_if_inv :
    {S E : Type 0} (c : Bool) (x : E) (u : Unit {0}) (s s' : S)
    → raise_if c x s ≡ (ok u, s')
    → (c ≡ false) × (s ≡ s')
raise_if_inv {S} {E} true x u s s' h = absurd (not_ok x u s s' h)
raise_if_inv {S} {E} false x u s s' h = (refl, ap (λ (z : Result E (Unit {0}) × S). z.1) h)

-- A block that ends well is its own steps.
pub transaction_inv :
    {S E A : Type 0} (restore : S → S → S) (m : Action S E A) (s s' : S) (a : A)
    → transaction_by restore m s ≡ (ok a, s')
    → m s ≡ (ok a, s')
unfolding transaction_by
transaction_inv {S} {E} {A} restore m s s' a h = elim (Result-cases (m s)) [
  | inl (x, q) ↦ absurd (not_ok x a (restore s (m s).1) s' (sym (ap end q) ∙ h))
  | inr (b, q) ↦ q ∙ sym (ap end q) ∙ h
]
  where
    end : Result E A × S → Result E A × S
    end out = elim out.0 [ ok a ↦ (ok a, out.1) | err e ↦ (err e, restore s out.1) ]

pub past_guard :
    {S E A : Type 0} (c : Bool) (x : E) (b : A) (s s' : S) (r : Result E A × S)
    → ◌≡◌ {A = Result E A × S} (if c then (err x, s) else r) (ok b, s')
    → r ≡ (ok b, s')
past_guard {S} {E} {A} true x b s s' r h = absurd (not_ok x b s s' h)
past_guard {S} {E} {A} false x b s s' r h = h
