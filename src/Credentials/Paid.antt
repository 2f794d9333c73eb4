-- ===== src/Credentials/Paid.antt =====
-- Every credential that is issued is paid for: `issue` of server/app/services/credential_issuance.py,
-- over the ledger of server/app/services/quota.py.
pub mod Calls
use crypto_campus.Prelude.{
  ℕ, zero, suc, ◌+◌, ◌≤◌, ◌<◌, ◌≡◌, refl, sym, ap, ◌∙◌, Bool, true, false, ◌&&◌, ◌||◌, not, Option,
  none, some, List, [], ◌∷◌, ◌++◌, Bytes, Text, arith, bytes_eq, bytes_eq_refl, eq_of-bytes_eq,
  ◌==◌, ==_iff, if◌then◌else◌, select_first, rowcount, is_some, Bool-cases, Option-cases, inl, inr,
  get, length, between,
}
use crypto_campus.Prelude.Keyed.{rowcount-append, none_of}
use mathlib.Core.Path.{subst}
use crypto_campus.Crypto.{CryptoEngine, Runtime}
use crypto_campus.Action.{Result, ok, err, modify, pure, ◌>>=◌, ◌>>◌}
use crypto_campus.Quota.Rows.{CredentialLedger, Resource}
use crypto_campus.Quota.{
  Outcome, reserved, refused, is_row, same_resource, used, resource_limit, reserve, reserve_row,
  day_of,
}
use crypto_campus.Quota.Limit.{Ends, reserve_row-Ends, same_resource_refl}
use crypto_campus.Quota.Apart.{reserve_row-Untouched, Untouched, eq_of-same_resource}
use crypto_campus.Commitments
use crypto_campus.Commitments.{BlindCommitmentRecord, Store}
use crypto_campus.Action.Laws.{not_ok, guard_inv, bind_inv, pure_inv, Result-cases}
use crypto_campus.Credentials.Rows.{
  CredentialIssueIdempotency, IssuerTables, IssuerState, IssueError, IssueAction, IssueRequest,
  IssueTools, invalid_commitment, not_unique,
}
use crypto_campus.Credentials.{
  quota_resource, charge, check_request, new_issue, issue_log, take_commitment, issue_block,
  issue_new, issue, add_issue, add_log, blind_signature, commitment_of, with_ledger, rollback,
  is_not_unique, replay, quota_error, is_issue, key_hash_of,
}
use crypto_campus.Models.{User, is_active}

-- The service of an issue draws on the resource.
abbrev pub draws_on : Resource → Text → Bool
draws_on resource service = elim (quota_resource service) [
  | none ↦ false
  | some x ↦ same_resource x resource
]

abbrev pub issued_for : ℕ → Resource → Text → CredentialIssueIdempotency → Bool
issued_for user resource period i =
    i.user_id == user && (draws_on resource i.service && bytes_eq i.period period)

-- Each user has at most one row for a resource and a period, none beyond the limit, and no more
-- credentials than it counts.
pub record IsPaid (s : IssuerTables) : Type 0 where
  pub once :
      (user : ℕ) (resource : Resource) (period : Text)
      → rowcount (is_row user resource period) s.ledger ≤ 1
  pub bounded :
      (user : ℕ) (resource : Resource) (period : Text) (limit : ℕ)
      → resource_limit resource ≡ some limit
      → used user resource period s.ledger ≤ limit
  pub paid :
      (user : ℕ) (resource : Resource) (period : Text)
      → rowcount (issued_for user resource period) s.issues ≤ used user resource period s.ledger

-- One more is used of one key, and of no other.
pub record Charged (user : ℕ) (resource : Resource) (period : Text) (limit : ℕ)
    (rows rows' : List CredentialLedger) : Type 0 where
  pub once : rowcount (is_row user resource period) rows' ≤ 1
  pub bounded : used user resource period rows' ≤ limit
  pub one_more : used user resource period rows' ≡ used user resource period rows + 1
  pub others :
      (user' : ℕ) (resource' : Resource) (period' : Text)
      → (user == user' && (same_resource resource resource' && bytes_eq period period')) ≡ false
      → (used user' resource' period' rows' ≡ used user' resource' period' rows)
        × (rowcount (is_row user' resource' period') rows'
            ≡ rowcount (is_row user' resource' period') rows)

same_key :
    (u user user' : ℕ) (x resource resource' : Resource) (p period period' : Text)
    → (u == user && (same_resource x resource && bytes_eq p period)) ≡ true
    → (u == user' && (same_resource x resource' && bytes_eq p period'))
      ≡ (user == user' && (same_resource resource resource' && bytes_eq period period'))
same_key u user user' x resource resource' p period period' h =
    let user_is : u ≡ user = (==_iff u user).0 (ground (arith, h)) in
    let resource_is : x ≡ resource = eq_of-same_resource x resource (ground (arith, h)) in
    let period_is : p ≡ period = eq_of-bytes_eq p period (ground (arith, h)) in
    ap (λ u. u == user' && (same_resource x resource' && bytes_eq p period')) user_is
    ∙ ap (λ x. user == user' && (same_resource x resource' && bytes_eq p period')) resource_is
    ∙ ap (λ p. user == user' && (same_resource resource resource' && bytes_eq p period')) period_is

pub reserve_row-Charged :
    (user : ℕ) (resource : Resource) (period : Text) (limit : ℕ)
    (rows rows' : List CredentialLedger)
    → 1 ≤ limit
    → rowcount (is_row user resource period) rows ≤ 1
    → used user resource period rows ≤ limit
    → reserve_row user resource period limit (λ xs. xs) rows ≡ reserved rows'
    → Charged user resource period limit rows rows'
reserve_row-Charged user resource period limit rows rows' pos once within ran =
    let (room, more, (once', within')) = ends in
    record {
      once = once';
      bounded = within';
      one_more = more;
      others = λ user' resource' period' differs.
          let other : CredentialLedger → Bool = is_row user' resource' period' in
          let apart : (r : CredentialLedger)
              → is_row user resource period r ≡ true
              → other r ≡ false =
            λ r h.
              same_key r.user_id user user' r.service resource resource' r.period period period' h
              ∙ differs in
          let same =
            subst (Untouched user resource period limit other (λ r. refl) apart rows) ran
              (reserve_row-Untouched user resource period limit other (λ r. refl) apart rows) in
          (ap (λ o. elim o as (λ _. ℕ) [ none ↦ 0 | some r ↦ r.issued_count ]) same.0, same.1);
    }
  where
    ends :
        (used user resource period rows < limit)
        × (used user resource period rows' ≡ used user resource period rows + 1)
        × ((rowcount (is_row user resource period) rows' ≤ 1)
            × (used user resource period rows' ≤ limit))
    ends =
        subst (Ends user resource period limit rows) ran
          (reserve_row-Ends user resource period limit rows pos (once, within))

-- A resource of `CREDENTIAL_QUOTA_RESOURCE` is counted by the day.
pub record Daily (rt : Runtime) (user : ℕ) (resource : Resource) (now : ℕ) : Type 0 where
  pub limit : ℕ
  pub limited : resource_limit resource ≡ some limit
  pub positive : 1 ≤ limit
  pub by_day :
      (rows : List CredentialLedger)
      → reserve rt (λ rows. rows) user resource now none rows
        ≡ reserve_row user resource (rt.isodate (day_of now)) limit (λ rows. rows) rows

pub quota_resource-Daily :
    (rt : Runtime) (user : ℕ) (service : Text) (resource : Resource) (now : ℕ)
    → quota_resource service ≡ some resource
    → Daily rt user resource now
unfolding reserve
quota_resource-Daily rt user service Resource.hole_credential now h = record {
  limit = 5;
  limited = refl;
  positive = omega arith;
  by_day = λ rows. refl;
}
quota_resource-Daily rt user service Resource.interaction_credential now h = record {
  limit = 20;
  limited = refl;
  positive = omega arith;
  by_day = λ rows. refl;
}
quota_resource-Daily rt user service Resource.drop now h = absurd (ground (arith, h))
quota_resource-Daily rt user service Resource.vote_ballot now h = absurd (ground (arith, h))
quota_resource-Daily rt user service (Resource.other name) now h = absurd (ground (arith, h))

module _ (e : CryptoEngine) (rt : Runtime) (tools : IssueTools) where
  pub check_inv :
      (r : IssueRequest) (t : IssuerTables) (z : Resource × Bytes)
      → check_request e rt tools r t ≡ ok z
      → (quota_resource r.service ≡ some z.0) × (r.period ≡ rt.isodate (day_of r.now))
  unfolding check_request
  check_inv r t z h = elim (Option-cases (get (λ (u : User). u.id) r.user_id t.users)) [
    | inl missing ↦ absurd (ground (arith, h, missing))
    | inr (u, found) ↦ elim (Bool-cases (is_active u.status)) [
      | inr inactive ↦ absurd (ground (arith, h, found, inactive))
      | inl active ↦ elim (Option-cases (quota_resource r.service)) [
        | inl missing ↦ absurd (ground (arith, h, found, active, missing))
        | inr (resource, drawn) ↦
            elim (Bool-cases (bytes_eq r.period (rt.isodate (day_of r.now)))) [
              | inr late ↦ absurd (ground (arith, h, found, active, drawn, late))
              | inl current ↦ elim (Option-cases (tools.b64decode r.blinded_message_b64)) [
                | inl missing ↦ absurd (ground (arith, h, found, active, drawn, current, missing))
                | inr (blinded, decoded) ↦
                    let same : resource ≡ z.0 =
                      ground (arith, h, found, active, drawn, current, decoded) in
                    (
                      drawn ∙ ap some same,
                      eq_of-bytes_eq r.period (rt.isodate (day_of r.now)) current,
                    )
              ]
            ]
      ]
    ]
  ]

  -- What a new credential leaves.
  pub record Issued (r : IssueRequest) (resource : Resource) (s s' : IssuerState)
      (signature : Bytes) : Type 0 where
    pub rows : List CredentialLedger
    pub new : select_first (is_issue r (key_hash_of e rt tools r)) s.tables.issues ≡ none
    pub charged :
        reserve rt (λ rows. rows) r.user_id resource r.now none s.tables.ledger ≡ reserved rows
    pub tables : s'.tables ≡ record s.tables {
      ledger = rows;
      issues = s.tables.issues ++ new_issue e rt tools r signature ∷ [];
      log = s.tables.log ++ issue_log e rt tools r ∷ [];
    }

  take_commitment_same :
      (r : IssueRequest) (k : Option ℕ) (s : IssuerState)
      → (take_commitment e rt tools r k s).1.tables ≡ s.tables
  unfolding take_commitment
  take_commitment_same r none s = refl
  take_commitment_same r (some k) s =
      after (Commitments.consume k r.user_id r.service r.period r.now s.store)
    where
      after :
          (out : Commitments.Result BlindCommitmentRecord × Store)
          → (elim out.0 as (λ _. Result IssueError (Option Bytes) × IssuerState) [
            | Commitments.ok c ↦ (ok (some c.secret_k), record s { store = out.1 })
            | Commitments.err x ↦ (err invalid_commitment, record s { store = out.1 })
          ]).1.tables
            ≡ s.tables
      after (Commitments.ok c, store) = refl
      after (Commitments.err x, store) = refl

  charge_inv :
      (r : IssueRequest) (resource : Resource) (s s' : IssuerState) (u : Unit {0})
      → charge e rt tools r resource s ≡ (ok u, s')
      → (rows : List CredentialLedger) × (reserve rt
            (λ rows. rows)
            r.user_id
            resource
            r.now
            none
            s.tables.ledger
          ≡ reserved rows)
        × (s' ≡ with_ledger rows s)
  unfolding charge
  charge_inv r resource s s' u h =
      after (reserve rt (λ rows. rows) r.user_id resource r.now none s.tables.ledger) h
    where
      after :
          (out : Outcome)
          → (elim out as (λ _. Result IssueError (Unit {0}) × IssuerState) [
            | reserved rows ↦ (ok tt, with_ledger rows s)
            | refused x ↦ (err (quota_error x), s)
          ])
            ≡ (ok u, s')
          → (rows : List CredentialLedger) × (out ≡ reserved rows) × (s' ≡ with_ledger rows s)
      after (reserved rows) h =
          (rows, refl, ap (λ (z : Result IssueError (Unit {0}) × IssuerState). z.1) (sym h))
      after (refused x) h = absurd (not_ok (quota_error x) u s s' h)

  add_issue_inv :
      (r : IssueRequest) (i : CredentialIssueIdempotency) (s s' : IssuerState) (u : Unit {0})
      → add_issue r i s ≡ (ok u, s')
      → (select_first (is_issue r i.key_hash) s.tables.issues ≡ none)
        × (record s { tables = record s.tables { issues = s.tables.issues ++ i ∷ [] } } ≡ s')
  unfolding add_issue
  add_issue_inv r i s s' u h =
      let (free, end) =
        guard_inv (is_some (select_first (is_issue r i.key_hash) s.tables.issues)) not_unique tt u s
          (record s { tables = record s.tables { issues = s.tables.issues ++ i ∷ [] } }) s' h in
      (none_of (select_first (is_issue r i.key_hash) s.tables.issues) free, end)

  pub issue_block_inv :
      (r : IssueRequest) (resource : Resource) (blinded : Bytes) (s s' : IssuerState)
      (signature : Bytes)
      → issue_block e rt tools r resource blinded s ≡ (ok signature, s')
      → Issued r resource s s' signature
  unfolding issue_block add_log new_issue
  issue_block_inv r resource blinded s s' signature h =
      let take : IssueAction (Option Bytes) =
        take_commitment e rt tools r (commitment_of e rt tools blinded) in
      let log : IssuerState → IssuerState = add_log (issue_log e rt tools r) in
      let finish : Bytes → IssueAction Bytes =
        λ g. add_issue r (new_issue e rt tools r g) >> (modify log >> pure g) in
      let signed : Option Bytes → IssueAction Bytes =
        λ k s. (blind_signature e rt tools r blinded k, s) in
      let (k, taken, h1) =
        bind_inv (λ (k : Option Bytes). charge e rt tools r resource >> (signed k >>= finish)) take
          s s' signature h in
      let s1 : IssuerState = (take s).1 in
      let (u, paid, h2) =
        bind_inv (λ (u : Unit {0}). signed k >>= finish) (charge e rt tools r resource) s1 s'
          signature h1 in
      let s2 : IssuerState = (charge e rt tools r resource s1).1 in
      let (g, got, h3) = bind_inv finish (signed k) s2 s' signature h2 in
      let (w, added, h4) =
        bind_inv (λ (w : Unit {0}). modify log >> pure g) (add_issue r (new_issue e rt tools r g))
          s2 s' signature h3 in
      let s3 : IssuerState = (add_issue r (new_issue e rt tools r g) s2).1 in
      let (same, end) = pure_inv g signature (log s3) s' h4 in
      let (rows, ran, s2_is) = charge_inv r resource s1 s2 u paid in
      let tables1 : s1.tables ≡ s.tables =
        take_commitment_same r (commitment_of e rt tools blinded) s in
      let written : Bytes → IssuerTables → IssuerTables = λ g t. record t {
        ledger = rows;
        issues = t.issues ++ new_issue e rt tools r g ∷ [];
        log = t.log ++ issue_log e rt tools r ∷ [];
      } in
      let (free, s3_is) = add_issue_inv r (new_issue e rt tools r g) s2 s3 w added in
      record {
        rows = rows;
        new =
            subst
              (λ (t : IssuerTables).
                select_first (is_issue r (key_hash_of e rt tools r)) t.issues ≡ none)
              tables1
              (subst
                (λ (t : IssuerState).
                  select_first (is_issue r (key_hash_of e rt tools r)) t.tables.issues ≡ none)
                s2_is free);
        charged =
            subst
              (λ t.
                reserve rt (λ rows. rows) r.user_id resource r.now none t.ledger ≡ reserved rows)
              tables1 ran;
        tables =
            sym (ap (λ (t : IssuerState). t.tables) end)
            ∙ sym (ap (λ t. (log t).tables) s3_is)
            ∙ ap
                (λ t.
                  (log (record t {
                    tables = record t.tables {
                      issues = t.tables.issues ++ new_issue e rt tools r g ∷ [];
                    };
                  })).tables)
                s2_is
            ∙ ap (written g) tables1
            ∙ ap (λ g. written g s.tables) same;
      }
