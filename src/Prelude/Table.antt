-- ===== src/Prelude/Table.antt =====
-- A database table is the list of its rows. `select_first` is `query.filter_by(..).first()`, `get` is
-- `session.get` by primary key, `update_where` is `UPDATE .. WHERE ..`, and `rowcount` is the number
-- of rows that such a statement touches.
use Prim.Native.Nat.{ℕ, ◌+◌, ◌≤◌}
use mathlib.Core.Path.{◌≡◌, refl}
use mathlib.Core.Logic.{◌≢◌}
use mathlib.Core.Bool.{Bool, ◌&&◌}
use mathlib.Core.Option
use mathlib.Core.Option.{Option, none, some}
use mathlib.Core.List.{List, [], ◌∷◌}
use native.Mathlib.Omega.{arith}
use crypto_campus.Prelude.Tests.{◌==◌, leb, if◌then◌else◌}
use crypto_campus.Prelude.Lists.{length}

module _ {ℓ} {A : Type ℓ} where
  unfoldable pub select_first : (A → Bool) → List A → Option A
  select_first p [] = none
  select_first p (r ∷ rs) = if p r then some r else select_first p rs

  unfoldable pub select : (A → Bool) → List A → List A
  select p [] = []
  select p (r ∷ rs) = let rest = select p rs in if p r then r ∷ rest else rest

  unfoldable pub update_where : (A → Bool) → (A → A) → List A → List A
  update_where p f [] = []
  update_where p f (r ∷ rs) = (if p r then f r else r) ∷ update_where p f rs

  unfoldable pub rowcount : (A → Bool) → List A → ℕ
  rowcount p [] = 0
  rowcount p (r ∷ rs) = (if p r then 1 else 0) + rowcount p rs

  -- `ORDER BY .. ASC`; rows of one key stay in the order of the table.
  unfoldable pub insert_by : (A → ℕ) → A → List A → List A
  insert_by key a [] = a ∷ []
  insert_by key a (r ∷ rs) =
      let rest = insert_by key a rs in if leb (key a) (key r) then a ∷ r ∷ rs else r ∷ rest

  unfoldable pub order_by : (A → ℕ) → List A → List A
  unfolding insert_by
  order_by key [] = []
  order_by key (r ∷ rs) = insert_by key r (order_by key rs)

  pub length-select-le : (p : A → Bool) (rs : List A) → length (select p rs) ≤ length rs
  unfolding select
  length-select-le p [] = omega arith
  length-select-le p (r ∷ rs) = ground (arith, length-select-le p rs)

  pub length-insert_by :
      (key : A → ℕ) (a : A) (rs : List A) → length (insert_by key a rs) ≡ length rs + 1
  unfolding insert_by
  length-insert_by key a [] = omega arith
  length-insert_by key a (r ∷ rs) = ground (arith, length-insert_by key a rs)

  pub length-order_by : (key : A → ℕ) (rs : List A) → length (order_by key rs) ≡ length rs
  unfolding order_by
  length-order_by key [] = refl
  length-order_by key (r ∷ rs) =
      omega (arith, length-insert_by key r (order_by key rs), length-order_by key rs)

  pub rowcount-eq-length-select :
      (p : A → Bool) (rs : List A) → rowcount p rs ≡ length (select p rs)
  unfolding rowcount select
  rowcount-eq-length-select p [] = refl
  rowcount-eq-length-select p (r ∷ rs) = ground (arith, rowcount-eq-length-select p rs)

-- What an update by key does to the row that it finds.
abbrev pub update_row {ℓ} : {A : Type ℓ} → (A → Bool) → (A → A) → A → A
update_row c f r = if c r then f r else r

-- 1 if the row is there and meets the condition.
abbrev pub hit {ℓ} : {A : Type ℓ} → (A → Bool) → Option A → ℕ
hit c none = 0
hit c (some r) = if c r then 1 else 0

-- A table with a primary key.
module _ {A : Type 0} (key : A → ℕ) where
  unfoldable pub get : ℕ → List A → Option A
  unfolding select_first
  get k = select_first λ r. key r == k

  -- No key is listed twice: the primary key constraint.
  abbrev pub IsUnique : List A → Type 0
  IsUnique [] = Unit
  IsUnique (r ∷ rs) = (get (key r) rs ≡ none) × IsUnique rs

  module _ (k : ℕ) (c : A → Bool) (f : A → A) (same : (r : A) → key (f r) ≡ key r) where
    pub get-update_self :
        (rs : List A)
        → get k (update_where (λ r. key r == k && c r) f rs)
          ≡ Option.map (update_row c f) (get k rs)
    unfolding get update_where
    get-update_self [] = refl
    get-update_self (r ∷ rs) = ground (arith, same r, get-update_self rs)

    pub get-update_ne :
        (j : ℕ) (rs : List A)
        → j ≢ k
        → get j (update_where (λ r. key r == k && c r) f rs) ≡ get j rs
    unfolding get update_where
    get-update_ne j [] h = refl
    get-update_ne j (r ∷ rs) h = ground (arith, same r, get-update_ne j rs h)

    pub get-update_none :
        (j : ℕ) (rs : List A)
        → get j rs ≡ none
        → get j (update_where (λ r. key r == k && c r) f rs) ≡ none
    unfolding get update_where
    get-update_none j [] h = refl
    get-update_none j (r ∷ rs) h = ground (arith, same r, get-update_none j rs)

    pub update-IsUnique :
        (rs : List A) → IsUnique rs → IsUnique (update_where (λ r. key r == k && c r) f rs)
    unfolding update_where
    update-IsUnique [] u = tt
    update-IsUnique (r ∷ rs) u =
        (ground (arith, same r, get-update_none (key r) rs u.0), update-IsUnique rs u.1)

  module _ (k : ℕ) (c : A → Bool) where
    pub rowcount-none : (rs : List A) → get k rs ≡ none → rowcount (λ r. key r == k && c r) rs ≡ 0
    unfolding get rowcount
    rowcount-none [] h = refl
    rowcount-none (r ∷ rs) h = ground (arith, rowcount-none rs)

    pub rowcount-hit :
        (rs : List A) → IsUnique rs → rowcount (λ r. key r == k && c r) rs ≡ hit c (get k rs)
    unfolding get rowcount
    rowcount-hit [] u = refl
    rowcount-hit (r ∷ rs) u = ground (arith, rowcount-none rs, rowcount-hit rs u.1)
