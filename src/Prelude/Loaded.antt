-- ===== src/Prelude/Loaded.antt =====
-- Rows that a query has loaded: a list without repeated keys, each row as the table holds it. The
-- list stays one when it is ordered, cut to a limit, and when another row of the table is updated.
use Prim.Native.Nat.{ℕ, zero, suc, ◌+◌}
use mathlib.Core.Path.{◌≡◌, refl, ◌∙◌}
use mathlib.Core.Logic.{◌≢◌, inl, inr}
use mathlib.Core.Bool.{Bool, true, false, ◌&&◌}
use mathlib.Core.Option.{Option, none, some}
use mathlib.Core.List.{List, [], ◌∷◌}
use native.Mathlib.Omega.{arith}
use crypto_campus.Prelude.Tests.{Bool-cases, ◌==◌, if◌then◌else◌}
use crypto_campus.Prelude.Lists.{take}
use crypto_campus.Prelude.Table.{
  select, select_first, update_where, rowcount, insert_by, order_by, get, IsUnique, get-update_ne,
}

module _ {A : Type 0} (key : A → ℕ) (p : A → Bool) where
  abbrev pub Held : List A → List A → Type 0
  Held [] rows = Unit
  Held (d ∷ ds) rows = (get key (key d) rows ≡ some d) × (p d ≡ true) × Held ds rows

  get-cons_self : (r : A) (rs : List A) → get key (key r) (r ∷ rs) ≡ some r
  unfolding get
  get-cons_self r rs = ground arith

  get-nil : (j : ℕ) → get key j [] ≡ none
  unfolding get
  get-nil j = refl

  get-cons :
      (j : ℕ) (d : A) (ds : List A)
      → (if key d == j then some d else get key j ds) ≡ get key j (d ∷ ds)
  unfolding get
  get-cons j d ds = refl

  get-cons_none :
      (j : ℕ) (d : A) (ds : List A)
      → get key j (d ∷ ds) ≡ none
      → (key d ≢ j) × (get key j ds ≡ none)
  unfolding get
  get-cons_none j d ds h = ground arith

  get-cons_of_ne :
      (j : ℕ) (d : A) (ds : List A) → key d ≢ j → get key j ds ≡ none → get key j (d ∷ ds) ≡ none
  unfolding get
  get-cons_of_ne j d ds h h' = ground arith

  get-select-none :
      (j : ℕ) (rows : List A) → get key j rows ≡ none → get key j (select p rows) ≡ none
  unfolding get select
  get-select-none j [] h = refl
  get-select-none j (r ∷ rs) h = ground (arith, get-select-none j rs)

  pub IsUnique-select : (rows : List A) → IsUnique key rows → IsUnique key (select p rows)
  unfolding select
  IsUnique-select [] u = tt
  IsUnique-select (r ∷ rs) u =
      ground (arith, get-select-none (key r) rs u.0, IsUnique-select rs u.1)

  Held-cons : (r : A) (ds rs : List A) → get key (key r) ds ≡ none → Held ds rs → Held ds (r ∷ rs)
  unfolding get
  Held-cons r [] rs h held = tt
  Held-cons r (d ∷ ds) rs h held = ground (arith, Held-cons r ds rs)

  pub Held-select : (rows : List A) → IsUnique key rows → Held (select p rows) rows
  unfolding select
  Held-select [] u = tt
  Held-select (r ∷ rs) u =
      let rest =
        Held-cons r (select p rs) rs (get-select-none (key r) rs u.0) (Held-select rs u.1) in
      ground (arith, rest, get-cons_self r rs)

  module _ (ord : A → ℕ) where
    get-insert_by :
        (j : ℕ) (a : A) (ds : List A)
        → get key (key a) ds ≡ none
        → get key j (insert_by ord a ds) ≡ (if key a == j then some a else get key j ds)
    unfolding get insert_by
    get-insert_by j a [] h = refl
    get-insert_by j a (d ∷ ds) h = ground (arith, get-insert_by j a ds)

    insert_by-IsUnique :
        (a : A) (ds : List A)
        → get key (key a) ds ≡ none
        → IsUnique key ds
        → IsUnique key (insert_by ord a ds)
    unfolding insert_by
    insert_by-IsUnique a [] h u = (h, tt)
    insert_by-IsUnique a (d ∷ ds) h u =
        let (ne, missing) = get-cons_none (key a) d ds h in
        ground (arith, get-insert_by (key d) a ds missing, insert_by-IsUnique a ds missing u.1)

    insert_by-Held :
        (a : A) (ds rows : List A)
        → get key (key a) rows ≡ some a
        → p a ≡ true
        → Held ds rows
        → Held (insert_by ord a ds) rows
    unfolding insert_by
    insert_by-Held a [] rows h t held = (h, t, tt)
    insert_by-Held a (d ∷ ds) rows h t held = ground (arith, insert_by-Held a ds rows h t)

    get-order_by :
        (j : ℕ) (ds : List A) → IsUnique key ds → get key j (order_by ord ds) ≡ get key j ds
    unfolding order_by
    get-order_by j [] u = refl
    get-order_by j (d ∷ ds) u =
        get-insert_by j d (order_by ord ds) (get-order_by (key d) ds u.1 ∙ u.0)
        ∙ head (get-order_by j ds u.1)
      where
        head :
            {x : Option A}
            → x ≡ get key j ds
            → (if key d == j then some d else x) ≡ get key j (d ∷ ds)
        head e = rw e (get-cons j d ds)

    pub order_by-IsUnique : (ds : List A) → IsUnique key ds → IsUnique key (order_by ord ds)
    unfolding order_by
    order_by-IsUnique [] u = tt
    order_by-IsUnique (d ∷ ds) u =
        insert_by-IsUnique d (order_by ord ds) (get-order_by (key d) ds u.1 ∙ u.0)
          (order_by-IsUnique ds u.1)

    pub order_by-Held : (ds rows : List A) → Held ds rows → Held (order_by ord ds) rows
    unfolding order_by
    order_by-Held [] rows held = tt
    order_by-Held (d ∷ ds) rows held =
        insert_by-Held d (order_by ord ds) rows held.0 held.1 (order_by-Held ds rows held.2)

  get-take-none : (j n : ℕ) (ds : List A) → get key j ds ≡ none → get key j (take n ds) ≡ none
  get-take-none j zero ds h = get-nil j
  get-take-none j (suc n) [] h = h
  get-take-none j (suc n) (d ∷ ds) h =
      let (ne, missing) = get-cons_none j d ds h in
      get-cons_of_ne j d (take n ds) ne (get-take-none j n ds missing)

  pub take-IsUnique : (n : ℕ) (ds : List A) → IsUnique key ds → IsUnique key (take n ds)
  take-IsUnique zero ds u = tt
  take-IsUnique (suc n) [] u = tt
  take-IsUnique (suc n) (d ∷ ds) u = (get-take-none (key d) n ds u.0, take-IsUnique n ds u.1)

  pub take-Held : (n : ℕ) (ds rows : List A) → Held ds rows → Held (take n ds) rows
  take-Held zero ds rows held = tt
  take-Held (suc n) [] rows held = tt
  take-Held (suc n) (d ∷ ds) rows held = (held.0, held.1, take-Held n ds rows held.2)

  module _ (k : ℕ) (c : A → Bool) (f : A → A) (same : (r : A) → key (f r) ≡ key r) where
    abbrev pub updated : List A → List A
    updated rows = update_where (λ r. key r == k && c r) f rows

    pub update-Held :
        (ds rows : List A) → get key k ds ≡ none → Held ds rows → Held ds (updated rows)
    update-Held [] rows h held = tt
    update-Held (d ∷ ds) rows h held =
        let (ne, missing) = get-cons_none k d ds h in
        (
          get-update_ne key k c f same (key d) rows ne ∙ held.0,
          held.1,
          update-Held ds rows missing held.2,
        )

    update_missing : (rows : List A) → get key k rows ≡ none → updated rows ≡ rows
    unfolding get update_where
    update_missing [] h = refl
    update_missing (r ∷ rs) h = ground (arith, update_missing rs)

    -- An update that takes a row out of the condition lowers the number of rows that meet it by one.
    pub rowcount-update :
        (d : A) (rows : List A)
        → IsUnique key rows
        → get key k rows ≡ some d
        → c d ≡ true
        → p d ≡ true
        → p (f d) ≡ false
        → rowcount p (updated rows) + 1 ≡ rowcount p rows
    unfolding get update_where rowcount
    rowcount-update d [] u h hc hp hf = cc
    rowcount-update d (r ∷ rs) u h hc hp hf =
        ground (arith, update_missing rs, rowcount-update d rs u.1)

  -- A loaded row is in the table and meets the condition.
  pub Held-get :
      (j : ℕ) (ds rows : List A) (d : A)
      → Held ds rows
      → get key j ds ≡ some d
      → (get key j rows ≡ some d) × (p d ≡ true)
  unfolding get
  Held-get j [] rows d held h = cc
  Held-get j (r ∷ rs) rows d held h = ground (arith, Held-get j rs rows d held.2)

-- A row that a query finds is the row of its key.
pub get-select_first :
    {A : Type 0} (key : A → ℕ) (K : A → Bool) (rows : List A) (d : A)
    → IsUnique key rows
    → select_first K rows ≡ some d
    → get key (key d) rows ≡ some d
unfolding get select_first
get-select_first key K [] d u h = cc
get-select_first key K (r ∷ rs) d u h = elim (Bool-cases (K r)) [
  | inl hit ↦ ground arith
  | inr miss ↦
      let found : select_first K rs ≡ some d = ground arith in
      let there = get-select_first key K rs d u.1 found in ground (arith, there, u.0)
]
