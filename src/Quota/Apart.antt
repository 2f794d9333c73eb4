-- ===== src/Quota/Apart.antt =====
-- What a reservation does not touch: `QuotaService.reserve` of server/app/services/quota.py.
use crypto_campus.Prelude.{
  ℕ, ◌+◌, ◌≡◌, refl, sym, ◌∙◌, Bool, true, false, ◌&&◌, List, [], ◌∷◌, ◌++◌, Text, arith,
  bytes_eq_refl, eq_of-bytes_eq, ◌==◌, ltb, select_first, update_where, rowcount, is_some,
  Bool-cases, inl, inr,
}
use crypto_campus.Prelude.Keyed.{
  select_first-update_other, select_first-append_other, rowcount-update_any, rowcount-append,
}
use mathlib.Core.Path.{subst, ap}
use crypto_campus.Quota.Rows.{CredentialLedger, Resource, exhausted}
use crypto_campus.Quota.{
  Outcome, reserved, refused, is_row, same_resource, try_increment, insert_first, reserve_row,
}
use crypto_campus.Quota.Limit.{same_resource_refl}

pub eq_of-same_resource : (a b : Resource) → same_resource a b ≡ true → a ≡ b
unfolding same_resource
eq_of-same_resource Resource.hole_credential Resource.hole_credential h = refl
eq_of-same_resource Resource.interaction_credential Resource.interaction_credential h = refl
eq_of-same_resource Resource.drop Resource.drop h = refl
eq_of-same_resource Resource.vote_ballot Resource.vote_ballot h = refl
eq_of-same_resource (Resource.other a) (Resource.other b) h =
    ap Resource.other (eq_of-bytes_eq a b h)
eq_of-same_resource _ _ h = absurd (ground (arith, h))

module _ (user : ℕ) (resource : Resource) (period : Text) (limit : ℕ)
    (other : CredentialLedger → Bool)
    (keyed : (r : CredentialLedger)
      → other (record r { issued_count = r.issued_count + 1 }) ≡ other r)
    (apart : (r : CredentialLedger) → is_row user resource period r ≡ true → other r ≡ false) where
  -- The rows of another key are the same.
  abbrev pub IsSame : List CredentialLedger → List CredentialLedger → Type 0
  IsSame rows rows' =
      (select_first other rows' ≡ select_first other rows)
      × (rowcount other rows' ≡ rowcount other rows)

  abbrev pub Untouched : List CredentialLedger → Outcome → Type 0
  Untouched rows (reserved rows') = IsSame rows rows'
  Untouched rows (refused x) = Unit {0}

  incremented : List CredentialLedger → List CredentialLedger
  incremented rows =
      update_where (λ r. is_row user resource period r && ltb r.issued_count limit)
        (λ r. record r { issued_count = r.issued_count + 1 }) rows

  incremented-IsSame : (rows : List CredentialLedger) → IsSame rows (incremented rows)
  unfolding incremented
  incremented-IsSame rows = (
    select_first-update_other (is_row user resource period) other (λ r. ltb r.issued_count limit) _
        keyed apart rows,
    rowcount-update_any other _ _ keyed rows,
  )

  first_row : CredentialLedger
  first_row = record { user_id = user; service = resource; period = period; issued_count = 1 }

  pub reserve_row-Untouched :
      (rows : List CredentialLedger)
      → Untouched rows (reserve_row user resource period limit (λ xs. xs) rows)
  unfolding reserve_row try_increment insert_first incremented first_row
  reserve_row-Untouched rows =
      let inc = incremented rows in
      let same = incremented-IsSame rows in
      let free : CredentialLedger → Bool =
        λ r. is_row user resource period r && ltb r.issued_count limit in
      let ran : List CredentialLedger → Type 0 =
        λ rows'. reserve_row user resource period limit (λ xs. xs) rows ≡ reserved rows' in
      let turned_down : Type 0 =
        reserve_row user resource period limit (λ xs. xs) rows ≡ refused exhausted in
      elim (Bool-cases (rowcount free rows == 1)) [
        | inl one ↦ let eq : ran inc = ground (arith, one) in subst (Untouched rows) (sym eq) same
        | inr many ↦ elim (Bool-cases (is_some (select_first (is_row user resource period) inc))) [
          | inl there ↦
              let eq : turned_down = ground (arith, many, there) in
              subst (Untouched rows) (sym eq) tt
          | inr missing ↦
              let mine : is_row user resource period first_row ≡ true =
                ground (arith, same_resource_refl resource, bytes_eq_refl period) in
              let eq : ran (inc ++ first_row ∷ []) = ground (arith, many, missing) in
              subst (Untouched rows) (sym eq) (
                select_first-append_other other inc first_row (apart first_row mine) ∙ same.0,
                ground (arith, same.1, rowcount-append other inc first_row, apart first_row mine),
              )
        ]
      ]
