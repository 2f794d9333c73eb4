-- ===== src/Quota.antt =====
-- The quota of issued resources: `QuotaService` of server/app/services/quota.py.
pub mod Rows
pub mod Limit
pub mod Apart
pub mod Reset
mod Tests
use crypto_campus.Prelude.{
  ℕ, ◌+◌, ◌*◌, ◌/◌, Bool, true, false, ◌&&◌, ◌||◌, not, Option, none, some, List, [], ◌∷◌, ◌++◌,
  Text, length, bytes_eq, ◌==◌, ltb, if◌then◌else◌, select_first, update_where, rowcount, is_some,
}
use crypto_campus.Crypto.{Runtime}
use crypto_campus.Quota.Rows.{
  CredentialLedger, QuotaError, Resource, resource_invalid, period_invalid, exhausted,
  hole_credential, interaction_credential,
}

-- `RESOURCE_LIMITS`
abbrev pub resource_limit : Resource → Option ℕ
resource_limit Resource.hole_credential = some 5
resource_limit Resource.interaction_credential = some 20
resource_limit Resource.drop = some 20
resource_limit Resource.vote_ballot = some 1
resource_limit (Resource.other name) = none

pub same_resource : Resource → Resource → Bool
same_resource Resource.hole_credential Resource.hole_credential = true
same_resource Resource.interaction_credential Resource.interaction_credential = true
same_resource Resource.drop Resource.drop = true
same_resource Resource.vote_ballot Resource.vote_ballot = true
same_resource (Resource.other a) (Resource.other b) = bytes_eq a b
same_resource _ _ = false

-- The number of the UTC day.
abbrev pub day_of : ℕ → ℕ
day_of now = now / (24 * 60 * 60 * 1000000)

-- The result of a call, with the ledger that it leaves.
pub data Outcome : Type 0 where
  reserved : List CredentialLedger → Outcome
  refused : QuotaError → Outcome

-- The row of a user, a resource and a period: the unique key of the ledger.
abbrev pub is_row : ℕ → Resource → Text → CredentialLedger → Bool
is_row user resource period r =
    r.user_id == user && (same_resource r.service resource && bytes_eq r.period period)

-- `_period`
pub period_of : Runtime → Resource → ℕ → Option Text → Option Text
period_of rt (Resource.other name) now period = none
period_of rt Resource.vote_ballot now none = none
period_of rt Resource.vote_ballot now (some p) =
    if length p == 0 || ltb 128 (length p) then none else some p
period_of rt _ now none = some (rt.isodate (day_of now))
period_of rt _ now (some p) = none

period_error : Resource → QuotaError
period_error (Resource.other name) = resource_invalid
period_error _ = period_invalid

-- The conditional UPDATE: the ledger after it, and the rows that it touched.
pub try_increment : ℕ → Resource → Text → ℕ → List CredentialLedger → List CredentialLedger × ℕ
try_increment user resource period limit rows =
    let free =
      λ (r : CredentialLedger). is_row user resource period r && ltb r.issued_count limit in
    (
      update_where free (λ r. record r { issued_count = r.issued_count + 1 }) rows,
      rowcount free rows,
    )

-- The INSERT of the first row. `concurrent` is what other sessions have committed since the row was
-- looked for: if they have made the row, the unique constraint refuses this one, and the UPDATE runs
-- once more.
pub insert_first :
    ℕ
    → Resource
    → Text
    → ℕ
    → (List CredentialLedger → List CredentialLedger)
    → List CredentialLedger
    → Outcome
unfolding try_increment
insert_first user resource period limit concurrent rows =
    let rows' = concurrent rows in
    if is_some (select_first (is_row user resource period) rows')
    then (let (after, touched) = try_increment user resource period limit rows' in
        if touched == 1 then reserved after else refused exhausted)
    else reserved (
        rows'
        ++ record { user_id = user; service = resource; period = period; issued_count = 1 } ∷ [])

-- The transaction of `reserve`; `concurrent` is what other sessions commit in between.
pub reserve_row :
    ℕ
    → Resource
    → Text
    → ℕ
    → (List CredentialLedger → List CredentialLedger)
    → List CredentialLedger
    → Outcome
unfolding try_increment insert_first
reserve_row user resource period limit concurrent rows =
    let (after, touched) = try_increment user resource period limit rows in
    if touched == 1
    then reserved after
    else if is_some (select_first (is_row user resource period) after)
    then refused exhausted
    else insert_first user resource period limit concurrent after

unfoldable pub reserve :
    Runtime
    → (List CredentialLedger → List CredentialLedger)
    → ℕ
    → Resource
    → ℕ
    → Option Text
    → List CredentialLedger
    → Outcome
unfolding reserve_row period_of period_error
reserve rt concurrent user resource now period rows = elim (period_of rt resource now period) [
  | none ↦ refused (period_error resource)
  | some p ↦ elim (resource_limit resource) [
    | none ↦ refused resource_invalid
    | some limit ↦ reserve_row user resource p limit concurrent rows
  ]
]

-- `issued_count` of a row, 0 where there is none.
abbrev pub used : ℕ → Resource → Text → List CredentialLedger → ℕ
used user resource period rows = elim (select_first (is_row user resource period) rows) [
  | none ↦ 0
  | some r ↦ r.issued_count
]
