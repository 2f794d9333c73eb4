-- ===== src/Credentials/Paid/Calls.antt =====
-- The credentials that are issued and the ledger that counts them: `issue` of
-- server/app/services/credential_issuance.py.
use crypto_campus.Prelude.{
  ℕ, ◌+◌, ◌≤◌, ◌≡◌, sym, ap, ◌∙◌, Bool, false, ◌&&◌, Option, none, some, List, [], ◌∷◌, ◌++◌, Bytes,
  Text, arith, bytes_eq, eq_of-bytes_eq, ◌==◌, ==_iff, if◌then◌else◌, rowcount, Bool-cases, inl,
  inr, length,
}
use crypto_campus.Prelude.Keyed.{rowcount-append}
use mathlib.Core.Path.{subst}
use crypto_campus.Crypto.{CryptoEngine, Runtime}
use crypto_campus.Action.{Result, ok, err, transaction_by}
use crypto_campus.Action.Laws.{Result-cases, value_cases}
use crypto_campus.Action.Keeps.{of_both, of_found}
use crypto_campus.Quota.Rows.{CredentialLedger, Resource}
use crypto_campus.Quota.{is_row, same_resource, used, resource_limit, day_of}
use crypto_campus.Quota.Apart.{eq_of-same_resource}
use crypto_campus.Credentials.Rows.{
  CredentialIssueIdempotency, IssuerState, IssueError, IssueRequest, IssueTools, internal_error,
}
use crypto_campus.Credentials.{
  quota_resource, check_request, new_issue, issue_block, issue_new, issue, replay, rollback,
  is_not_unique,
}
use crypto_campus.Credentials.Paid.{
  IsPaid, issued_for, Charged, reserve_row-Charged, Daily, quota_resource-Daily, check_inv, Issued,
  issue_block_inv,
}

-- A property of all keys, from that of one key and those of the others.
by_key :
    (user : ℕ) (resource : Resource) (period : Text) (Q : ℕ → Resource → Text → Type 0)
    → Q user resource period
    → ((u : ℕ) (x : Resource) (p : Text)
        → (user == u && (same_resource resource x && bytes_eq period p)) ≡ false
        → Q u x p)
    → (u : ℕ) (x : Resource) (p : Text) → Q u x p
by_key user resource period Q own others u x p =
    elim (Bool-cases (user == u && (same_resource resource x && bytes_eq period p))) [
      | inr differs ↦ others u x p differs
      | inl same ↦
          let user_is : user ≡ u = (==_iff user u).0 (ground (arith, same)) in
          let resource_is : resource ≡ x = eq_of-same_resource resource x (ground (arith, same)) in
          let period_is : period ≡ p = eq_of-bytes_eq period p (ground (arith, same)) in
          subst (λ u. Q u x p) user_is
            (subst (λ x. Q user x p) resource_is (subst (Q user resource) period_is own))
    ]

one_more :
    {A : Type 0} (K : A → Bool) (xs : List A) (x : A) (m n : ℕ)
    → rowcount K xs ≤ m
    → n ≡ m + 1
    → rowcount K (xs ++ x ∷ []) ≤ n
one_more K xs x m n h same = ground (arith, h, same, rowcount-append K xs x)

none_more :
    {A : Type 0} (K : A → Bool) (xs : List A) (x : A) (m n : ℕ)
    → K x ≡ false
    → rowcount K xs ≤ m
    → n ≡ m
    → rowcount K (xs ++ x ∷ []) ≤ n
none_more K xs x m n other h same = ground (arith, h, same, other, rowcount-append K xs x)

module _ (e : CryptoEngine) (rt : Runtime) (tools : IssueTools) where
  Issued-IsPaid :
      (r : IssueRequest) (resource : Resource) (s s' : IssuerState) (signature : Bytes)
      → quota_resource r.service ≡ some resource
      → r.period ≡ rt.isodate (day_of r.now)
      → Issued e rt tools r resource s s' signature
      → IsPaid s.tables
      → IsPaid s'.tables
  unfolding new_issue
  Issued-IsPaid r resource s s' signature drawn today i h =
      let user : ℕ = r.user_id in
      let period : Text = rt.isodate (day_of r.now) in
      let d : Daily rt user resource r.now =
        quota_resource-Daily rt user r.service resource r.now drawn in
      let rows : List CredentialLedger = s.tables.ledger in
      let c : Charged user resource period d.limit rows i.rows =
        reserve_row-Charged user resource period d.limit rows i.rows d.positive
          (h.once user resource period) (h.bounded user resource period d.limit d.limited)
          (sym (d.by_day rows) ∙ i.charged) in
      let row : CredentialIssueIdempotency = new_issue e rt tools r signature in
      let counted : (u : ℕ) (x : Resource) (p : Text)
          → issued_for u x p row ≡ (user == u && (same_resource resource x && bytes_eq period p)) =
        λ u x p.
          ap
            (λ (o : Option Resource).
              user == u
              && (elim o as (λ _. Bool) [ none ↦ false | some y ↦ same_resource y x ]
                  && bytes_eq r.period p))
            drawn
          ∙ ap (λ q. user == u && (same_resource resource x && bytes_eq q p)) today in
      subst IsPaid (sym i.tables) (record {
        once =
            by_key user resource period (λ u x p. rowcount (is_row u x p) i.rows ≤ 1) c.once
              (λ u x p differs. ground (arith, (c.others u x p differs).1, h.once u x p));
        bounded =
            by_key user resource period
              (λ u x p. (l : ℕ) → resource_limit x ≡ some l → used u x p i.rows ≤ l)
              (λ l same. ground (arith, same, d.limited, c.bounded))
              (λ u x p differs l limited.
                ground (arith, (c.others u x p differs).0, h.bounded u x p l limited));
        paid =
            by_key user resource period
              (λ u x p.
                rowcount (issued_for u x p) (s.tables.issues ++ row ∷ []) ≤ used u x p i.rows)
              (one_more (issued_for user resource period) s.tables.issues row _ _
                (h.paid user resource period) c.one_more)
              (λ u x p differs.
                none_more (issued_for u x p) s.tables.issues row _ _ (counted u x p ∙ differs)
                  (h.paid u x p) (c.others u x p differs).0);
      })

  issue_new-IsPaid :
      (r : IssueRequest) (resource : Resource) (blinded : Bytes) (s : IssuerState)
      → quota_resource r.service ≡ some resource
      → r.period ≡ rt.isodate (day_of r.now)
      → IsPaid s.tables
      → IsPaid (issue_new e rt tools r resource blinded s).1.tables
  unfolding issue_new transaction_by
  issue_new-IsPaid r resource blinded s drawn today h =
      let s' : IssuerState = (issue_block e rt tools r resource blinded s).1 in
      elim (Result-cases (issue_block e rt tools r resource blinded s)) [
        | inr (signature, q) ↦
            subst (λ out. IsPaid (after out).1.tables) (sym q)
              (Issued-IsPaid r resource s s' signature drawn today
                (issue_block_inv e rt tools r resource blinded s s' signature q) h)
        | inl (x, q) ↦
            subst (λ out. IsPaid (after out).1.tables) (sym q)
              (of_both (λ (out : Result IssueError Bytes × IssuerState). IsPaid out.1.tables)
                (is_not_unique x) (raced (rollback s s')) (err x, rollback s s') h h)
      ]
    where
      raced : IssuerState → Result IssueError Bytes × IssuerState
      raced t = (elim (replay e rt tools r t) [ none ↦ err internal_error | some known ↦ known ], t)

      after : Result IssueError Bytes × IssuerState → Result IssueError Bytes × IssuerState
      after out =
          let done : Result IssueError Bytes × IssuerState = elim out.0 [
            | ok a ↦ (ok a, out.1)
            | err x ↦ (err x, rollback s out.1)
          ] in
          elim done.0 [
            | ok signature ↦ (ok signature, done.1)
            | err x ↦ if is_not_unique x then raced done.1 else (err x, done.1)
          ]

  issue-IsPaid :
      (r : IssueRequest) (others : IssuerState → IssuerState) (s : IssuerState)
      → ((t : IssuerState) → IsPaid t.tables → IsPaid (others t).tables)
      → IsPaid s.tables
      → IsPaid (issue e rt tools r others s).1.tables
  unfolding issue
  issue-IsPaid r others s kept h = elim (value_cases (check_request e rt tools r s.tables)) [
    | inl (x, q) ↦ subst (λ out. IsPaid (after out).1.tables) (sym q) h
    | inr (z, q) ↦
        let (drawn, today) = check_inv e rt tools r s.tables z q in
        subst (λ out. IsPaid (after out).1.tables) (sym q)
          (of_found (λ (out : Result IssueError Bytes × IssuerState). IsPaid out.1.tables)
            (replay e rt tools r s) (issue_new e rt tools r z.0 z.1 (others s))
            (λ answer. (answer, s)) (issue_new-IsPaid r z.0 z.1 (others s) drawn today (kept s h))
            (λ answer. h))
  ]
    where
      after : Result IssueError (Resource × Bytes) → Result IssueError Bytes × IssuerState
      after out = elim out [
        | err x ↦ (err x, s)
        | ok z ↦ elim (replay e rt tools r s) [
          | some answer ↦ (answer, s)
          | none ↦ issue_new e rt tools r z.0 z.1 (others s)
        ]
      ]

  -- The state after calls of `issue`, of which the one with `n` more to come meets `others n`.
  pub after_issues : (ℕ → IssuerState → IssuerState) → List IssueRequest → IssuerState → IssuerState
  after_issues others [] s = s
  after_issues others (r ∷ rs) s =
      after_issues others rs (issue e rt tools r (others (length rs)) s).1

  -- Until the quotas are reset: if this is so of the tables at the start, and other processes keep it,
  -- it is so after any calls of `issue`. A user has at most one row for a resource and a period, which
  -- counts no more than the limit, and no more credentials for the resource and the period than the
  -- row counts. (A reset zeroes the counts and leaves the credentials, so that it may not be so after
  -- one.)
  pub after_issues-IsPaid :
      (others : ℕ → IssuerState → IssuerState) (rs : List IssueRequest) (s : IssuerState)
      → ((n : ℕ) (t : IssuerState) → IsPaid t.tables → IsPaid (others n t).tables)
      → IsPaid s.tables
      → IsPaid (after_issues others rs s).tables
  unfolding after_issues
  after_issues-IsPaid others [] s kept h = h
  after_issues-IsPaid others (r ∷ rs) s kept h =
      after_issues-IsPaid others rs (issue e rt tools r (others (length rs)) s).1 kept
        (issue-IsPaid r (others (length rs)) s (kept (length rs)) h)
