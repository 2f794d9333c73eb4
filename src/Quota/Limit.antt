-- ===== src/Quota/Limit.antt =====
-- No reservation exceeds a limit, whatever other sessions do, and none is refused below it.
use crypto_campus.Prelude.{
  ℕ, zero, suc, ◌+◌, ◌-◌, ◌≤◌, ◌<◌, min, ◌≡◌, refl, Bool, true, ◌&&◌, some, List, [], ◌∷◌, ◌++◌,
  Text, arith, ◌⊎◌, Option-cases, Bool-cases, inl, inr, ltb, if◌then◌else◌, bytes_eq_refl,
  select_first, update_where, rowcount,
}
use crypto_campus.Prelude.Keyed.{
  rowcount-eq-hit, rowcount-none, select_first-append, rowcount-append, select_first-update,
  rowcount-update_same,
}
use crypto_campus.Quota.Rows.{CredentialLedger, Resource, exhausted}
use crypto_campus.Quota.{
  Outcome, reserved, refused, is_row, same_resource, try_increment, insert_first, reserve_row, used,
}

pub same_resource_refl : (r : Resource) → same_resource r r ≡ true
unfolding same_resource
same_resource_refl Resource.hole_credential = refl
same_resource_refl Resource.interaction_credential = refl
same_resource_refl Resource.drop = refl
same_resource_refl Resource.vote_ballot = refl
same_resource_refl (Resource.other a) = bytes_eq_refl a

module _ (user : ℕ) (resource : Resource) (period : Text) (limit : ℕ) where
  abbrev pub K : CredentialLedger → Bool
  K = is_row user resource period

  abbrev free : CredentialLedger → Bool
  free r = ltb r.issued_count limit

  abbrev plus_one : CredentialLedger → CredentialLedger
  plus_one r = record r { issued_count = r.issued_count + 1 }

  abbrev first_row : CredentialLedger
  first_row = record { user_id = user; service = resource; period = period; issued_count = 1 }

  K-first_row : K first_row ≡ true
  K-first_row = ground (arith, same_resource_refl resource, bytes_eq_refl period)

  abbrev pub count : List CredentialLedger → ℕ
  count = used user resource period

  -- The unique constraint on (user, service, period) for this key, and the limit.
  abbrev pub IsWithin : List CredentialLedger → Type 0
  IsWithin rows = (rowcount K rows ≤ 1) × (count rows ≤ limit)

  -- How a reservation ends: one more is used, or nothing is left.
  abbrev pub Ends : List CredentialLedger → Outcome → Type 0
  Ends rows (reserved rows') =
      (count rows < limit) × (count rows' ≡ count rows + 1) × IsWithin rows'
  Ends rows (refused e) = (limit ≤ count rows) × (e ≡ exhausted)

  -- A reservation leaves at least one use counted, within the limit; a refusal says why.
  abbrev pub IsBounded : Outcome → Type 0
  IsBounded (reserved rows') = IsWithin rows' × (1 ≤ count rows')
  IsBounded (refused e) = e ≡ exhausted

  incremented : List CredentialLedger → List CredentialLedger
  incremented rows = update_where (λ r. K r && free r) plus_one rows

  -- The conditional UPDATE on a table that holds the row `r`.
  increment_row :
      (rows : List CredentialLedger) (r : CredentialLedger)
      → IsWithin rows
      → select_first K rows ≡ some r
      → (try_increment user resource period limit rows
          ≡ (incremented rows, if free r then 1 else 0))
        × (count (incremented rows) ≡ (if free r then r.issued_count + 1 else r.issued_count))
        × IsWithin (incremented rows)
  unfolding try_increment incremented
  increment_row rows r w found =
      let touched = rowcount-eq-hit K free rows w.0 in
      let row = select_first-update K free plus_one (λ r. refl) rows in
      let size = rowcount-update_same K free plus_one (λ r. refl) rows in
      (
        ground (arith, touched, found),
        ground (arith, row, found),
        (ground (arith, size, w.0), ground (arith, row, found, w.1)),
      )

  insert_first-Ends :
      (rows : List CredentialLedger) (concurrent : List CredentialLedger → List CredentialLedger)
      → 1 ≤ limit
      → IsWithin (concurrent rows)
      → Ends (concurrent rows) (insert_first user resource period limit concurrent rows)
  unfolding insert_first
  insert_first-Ends rows concurrent pos w =
      let rows' = concurrent rows in
      elim (Option-cases (select_first K rows')) [
        | inl missing ↦
            let e : insert_first user resource period limit concurrent rows
                ≡ reserved (rows' ++ first_row ∷ []) =
              ground (arith, missing) in
            let found = select_first-append K rows' first_row missing K-first_row in
            let size = rowcount-append K rows' first_row in
            let empty = rowcount-none K rows' missing in
            rw e (
              ground (arith, missing),
              ground (arith, missing, found),
              (ground (arith, size, empty, K-first_row), ground (arith, found)),
            )
        | inr (r, found) ↦
            let (run, n, w') = increment_row rows' r w found in
            elim (Bool-cases (free r)) [
              | inl room ↦
                  let e : insert_first user resource period limit concurrent rows
                      ≡ reserved (incremented rows') =
                    ground (arith, run, found, room) in
                  rw e (ground (arith, found, room), ground (arith, found, n, room), w')
              | inr full ↦
                  let e : insert_first user resource period limit concurrent rows
                      ≡ refused exhausted =
                    ground (arith, run, found, full) in
                  rw e (ground (arith, found, full), refl)
            ]
      ]

  -- The loser of a race, or a first reservation: what the INSERT saw decides.
  Raced : (List CredentialLedger → List CredentialLedger) → List CredentialLedger → Outcome → Type 0
  Raced concurrent rows out =
      Ends rows out
      ⊎ ((seen : List CredentialLedger) × (count seen ≡ count rows)
          × IsWithin (concurrent seen)
          × Ends (concurrent seen) out)

  reserve_row-Raced :
      (concurrent : List CredentialLedger → List CredentialLedger) (rows : List CredentialLedger)
      → 1 ≤ limit
      → ((xs : List CredentialLedger) → IsWithin xs → IsWithin (concurrent xs))
      → IsWithin rows
      → Raced concurrent rows (reserve_row user resource period limit concurrent rows)
  unfolding reserve_row Raced try_increment incremented
  reserve_row-Raced concurrent rows pos fair w =
      let out = reserve_row user resource period limit concurrent rows in
      elim (Option-cases (select_first K rows)) [
        | inl missing ↦
            let none_free : rowcount (λ r. K r && free r) rows ≡ 0 =
              ground (arith, rowcount-eq-hit K free rows w.0, missing) in
            let row = select_first-update K free plus_one (λ r. refl) rows in
            let size = rowcount-update_same K free plus_one (λ r. refl) rows in
            let w' : IsWithin (incremented rows) =
              (ground (arith, size, w.0), ground (arith, row, missing)) in
            let e : out ≡ insert_first user resource period limit concurrent (incremented rows) =
              ground (arith, none_free, row, missing) in
            rw e (
              inr (
                incremented rows,
                ground (arith, row, missing),
                fair (incremented rows) w',
                insert_first-Ends (incremented rows) concurrent pos (fair (incremented rows) w'),
              ))
        | inr (r, found) ↦
            let (run, n, w') = increment_row rows r w found in
            elim (Bool-cases (free r)) [
              | inl room ↦
                  let e : out ≡ reserved (incremented rows) = ground (arith, run, found, room) in
                  rw e (inl (ground (arith, found, room), ground (arith, found, n, room), w'))
              | inr full ↦
                  let e : out ≡ refused exhausted = ground (arith, run, found, full, n) in
                  rw e (inl (ground (arith, found, full), refl))
            ]
      ]

  Ends-IsWithin : (rows : List CredentialLedger) (out : Outcome) → Ends rows out → IsBounded out
  Ends-IsWithin rows (reserved rows') h = (h.2, omega arith)
  Ends-IsWithin rows (refused e) h = h.1

  -- Whatever other sessions commit between the check and the INSERT, as long as they keep the unique
  -- constraint and the limit: a reservation leaves the constraint and the limit intact with at least
  -- one use counted, or it is refused as exhausted.
  pub reserve_row-IsBounded :
      (concurrent : List CredentialLedger → List CredentialLedger) (rows : List CredentialLedger)
      → 1 ≤ limit
      → ((xs : List CredentialLedger) → IsWithin xs → IsWithin (concurrent xs))
      → IsWithin rows
      → IsBounded (reserve_row user resource period limit concurrent rows)
  unfolding Raced
  reserve_row-IsBounded concurrent rows pos fair w =
      elim (reserve_row-Raced concurrent rows pos fair w) [
        | inl h ↦ Ends-IsWithin rows _ h
        | inr (seen, _, _, h) ↦ Ends-IsWithin (concurrent seen) _ h
      ]

  Ends-same :
      (rows seen : List CredentialLedger) (out : Outcome)
      → count seen ≡ count rows
      → Ends seen out
      → Ends rows out
  Ends-same rows seen (reserved rows') e h = (omega arith, omega arith, h.2)
  Ends-same rows seen (refused x) e h = (omega arith, h.1)

  -- With no interference: a reservation goes through exactly where less than the limit is used, and
  -- then one more is used; otherwise it is refused as exhausted.
  pub reserve_row-Ends :
      (rows : List CredentialLedger)
      → 1 ≤ limit
      → IsWithin rows
      → Ends rows (reserve_row user resource period limit (λ xs. xs) rows)
  unfolding Raced
  reserve_row-Ends rows pos w = elim (reserve_row-Raced (λ xs. xs) rows pos (λ xs h. h) w) [
    | inl h ↦ h
    | inr (seen, e, _, h) ↦ Ends-same rows seen _ e h
  ]

  -- `n` requests in a row: how many go through, and the ledger that they leave.
  pub reserve_many : ℕ → List CredentialLedger → ℕ × List CredentialLedger
  reserve_many zero rows = (0, rows)
  reserve_many (suc n) rows = elim (reserve_row user resource period limit (λ xs. xs) rows) [
    | reserved rows' ↦ let (m, out) = reserve_many n rows' in (m + 1, out)
    | refused e ↦ reserve_many n rows
  ]

  reserve_many_step :
      (n : ℕ) (rows : List CredentialLedger) (out : Outcome)
      → reserve_row user resource period limit (λ xs. xs) rows ≡ out
      → Ends rows out
      → ((rows' : List CredentialLedger)
          → IsWithin rows'
          → (reserve_many n rows').0 ≡ min n (limit - count rows'))
      → IsWithin rows
      → (reserve_many (suc n) rows).0 ≡ min (suc n) (limit - count rows)
  unfolding reserve_many
  reserve_many_step n rows (reserved rows') e h ih w =
      rw (e, reserve_many) (omega (arith, ih rows' h.2, h.0, h.1))
  reserve_many_step n rows (refused x) e h ih w =
      rw (e, reserve_many) (omega (arith, ih rows w, h.0))

  -- Of n requests in a row exactly as many go through as the limit leaves.
  pub reserve_many_exact :
      (n : ℕ) (rows : List CredentialLedger)
      → 1 ≤ limit
      → IsWithin rows
      → (reserve_many n rows).0 ≡ min n (limit - count rows)
  reserve_many_exact zero rows pos w = unfold reserve_many in omega arith
  reserve_many_exact (suc n) rows pos w =
      reserve_many_step n rows _ refl (reserve_row-Ends rows pos w)
        (λ rows' w'. reserve_many_exact n rows' pos w') w
