-- ===== src/Prelude/Keyed.antt =====
-- Tables with a unique constraint on several columns: `K` tells the rows of one key.
use Prim.Native.Nat.{◌+◌, ◌≤◌}
use mathlib.Core.Path.{◌≡◌, refl}
use mathlib.Core.Bool.{Bool, true, false, ◌&&◌}
use mathlib.Core.Option
use mathlib.Core.Option.{Option, none, some}
use mathlib.Core.List.{List, [], ◌∷◌, ◌++◌}
use native.Mathlib.Omega.{arith}
use crypto_campus.Prelude.Tests.{if◌then◌else◌, is_some}
use crypto_campus.Prelude.Table.{select_first, update_where, update_row, rowcount, hit}

module _ {ℓ} {A : Type ℓ} (K : A → Bool) where
  pub rowcount_missing :
      (c : A → Bool) (rs : List A) → rowcount K rs ≡ 0 → rowcount (λ r. K r && c r) rs ≡ 0
  unfolding rowcount
  rowcount_missing c [] h = refl
  rowcount_missing c (r ∷ rs) h = ground (arith, rowcount_missing c rs)

  pub rowcount-eq-hit :
      (c : A → Bool) (rs : List A)
      → rowcount K rs ≤ 1
      → rowcount (λ r. K r && c r) rs ≡ hit c (select_first K rs)
  unfolding rowcount select_first
  rowcount-eq-hit c [] h = refl
  rowcount-eq-hit c (r ∷ rs) h = ground (arith, rowcount_missing c rs, rowcount-eq-hit c rs)

  pub rowcount-none : (rs : List A) → select_first K rs ≡ none → rowcount K rs ≡ 0
  unfolding rowcount select_first
  rowcount-none [] h = refl
  rowcount-none (r ∷ rs) h = ground (arith, rowcount-none rs)

  pub select_first-holds : (rs : List A) (x : A) → select_first K rs ≡ some x → K x ≡ true
  unfolding select_first
  select_first-holds [] x h = absurd (ground arith)
  select_first-holds (r ∷ rs) x h = ground (arith, select_first-holds rs x)

  pub select_first-append_found :
      (rs ys : List A) (x : A) → select_first K rs ≡ some x → select_first K (rs ++ ys) ≡ some x
  unfolding select_first
  select_first-append_found [] ys x h = absurd (ground arith)
  select_first-append_found (r ∷ rs) ys x h = ground (arith, select_first-append_found rs ys x)

  pub select_first-append :
      (rs : List A) (x : A)
      → select_first K rs ≡ none
      → K x ≡ true
      → select_first K (rs ++ x ∷ []) ≡ some x
  unfolding select_first
  select_first-append [] x h k = ground arith
  select_first-append (r ∷ rs) x h k = ground (arith, select_first-append rs x)

  pub rowcount-append :
      (rs : List A) (x : A) → rowcount K (rs ++ x ∷ []) ≡ rowcount K rs + (if K x then 1 else 0)
  unfolding rowcount
  rowcount-append [] x = omega arith
  rowcount-append (r ∷ rs) x = omega (arith, rowcount-append rs x)

  pub select_first-append_other :
      (rs : List A) (x : A) → K x ≡ false → select_first K (rs ++ x ∷ []) ≡ select_first K rs
  unfolding select_first
  select_first-append_other [] x k = ground arith
  select_first-append_other (r ∷ rs) x k = ground (arith, select_first-append_other rs x)

  module _ (c : A → Bool) (f : A → A) (same : (r : A) → K (f r) ≡ K r) where
    pub select_first-update :
        (rs : List A)
        → select_first K (update_where (λ r. K r && c r) f rs)
          ≡ Option.map (update_row c f) (select_first K rs)
    unfolding select_first update_where
    select_first-update [] = refl
    select_first-update (r ∷ rs) = ground (arith, same r, select_first-update rs)

    pub rowcount-update_same :
        (rs : List A) → rowcount K (update_where (λ r. K r && c r) f rs) ≡ rowcount K rs
    unfolding rowcount update_where
    rowcount-update_same [] = refl
    rowcount-update_same (r ∷ rs) = ground (arith, same r, rowcount-update_same rs)

-- An update of the rows of one key leaves the rows of another.
pub select_first-update_other {ℓ} :
    {A : Type ℓ} (K K' c : A → Bool) (f : A → A)
    → ((r : A) → K' (f r) ≡ K' r)
    → ((r : A) → K r ≡ true → K' r ≡ false)
    → (rs : List A) → select_first K' (update_where (λ r. K r && c r) f rs) ≡ select_first K' rs
unfolding select_first update_where
select_first-update_other K K' c f same apart [] = refl
select_first-update_other K K' c f same apart (r ∷ rs) =
    ground (arith, same r, apart r, select_first-update_other K K' c f same apart rs)

-- An update that does not touch what a query looks for finds the same row, updated.
pub select_first-update_any {ℓ} :
    {A : Type ℓ} (K c : A → Bool) (f : A → A)
    → ((r : A) → K (f r) ≡ K r)
    → (rs : List A)
    → select_first K (update_where c f rs) ≡ Option.map (update_row c f) (select_first K rs)
unfolding select_first update_where
select_first-update_any K c f same [] = refl
select_first-update_any K c f same (r ∷ rs) =
    ground (arith, same r, select_first-update_any K c f same rs)

pub rowcount-update_any {ℓ} :
    {A : Type ℓ} (K c : A → Bool) (f : A → A)
    → ((r : A) → K (f r) ≡ K r)
    → (rs : List A) → rowcount K (update_where c f rs) ≡ rowcount K rs
unfolding rowcount update_where
rowcount-update_any K c f same [] = refl
rowcount-update_any K c f same (r ∷ rs) = ground (arith, same r, rowcount-update_any K c f same rs)

pub none_of {ℓ} : {A : Type ℓ} (o : Option A) → is_some o ≡ false → o ≡ none
none_of none h = refl
none_of (some a) h = absurd (ground (arith, h))
