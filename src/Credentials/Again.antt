-- ===== src/Credentials/Again.antt =====
-- A request for a credential that is sent again: `issue` of server/app/services/credential_issuance.py,
-- called twice.
use crypto_campus.Prelude.{
  ℕ, ◌≡◌, sym, ap, ◌∙◌, Bool, true, false, Option, none, some, Bytes, arith, bytes_eq_refl,
  if◌then◌else◌, select_first, Option-cases, inl, inr,
}
use crypto_campus.Prelude.Keyed.{select_first-append}
use mathlib.Core.Path.{subst}
use crypto_campus.Crypto.{CryptoEngine, Runtime, ComparesBytes}
use crypto_campus.Action.{Result, ok, err, transaction_by}
use crypto_campus.Action.Laws.{Result-cases, value_cases, not_ok}
use crypto_campus.Quota.Rows.{Resource}
use crypto_campus.Credentials.Rows.{
  IssuerTables, IssuerState, IssueError, IssueRequest, IssueTools, internal_error,
}
use crypto_campus.Credentials.{
  check_request, new_issue, issue_block, issue_new, issue, replay, rollback, is_not_unique,
  is_issue, key_hash_of, request_hash_of,
}
use crypto_campus.Credentials.Paid.{Issued, issue_block_inv}

abbrev Outcome : Type 0
Outcome = Result IssueError Bytes × IssuerState

same_pair :
    (answer answer' : Result IssueError Bytes) (s s' : IssuerState)
    → ◌≡◌ {A = Outcome} (answer, s) (answer', s')
    → (answer ≡ answer') × (s ≡ s')
same_pair answer answer' s s' h = (ap (λ (z : Outcome). z.0) h, ap (λ (z : Outcome). z.1) h)

module _ (e : CryptoEngine) (rt : Runtime) (tools : IssueTools) (compares : ComparesBytes e) where
  abbrev Answers : IssueRequest → IssuerState → Bytes → Type 0
  Answers r s signature = replay e rt tools r s ≡ some (ok signature)

  Issued-Answers :
      (r : IssueRequest) (resource : Resource) (s s' : IssuerState) (signature : Bytes)
      → Issued e rt tools r resource s s' signature
      → Answers r s' signature
  unfolding replay new_issue
  Issued-Answers r resource s s' signature i =
      let row = new_issue e rt tools r signature in
      let mine : is_issue r (key_hash_of e rt tools r) row ≡ true = ground (
        arith,
        bytes_eq_refl r.service,
        bytes_eq_refl r.period,
        bytes_eq_refl (key_hash_of e rt tools r),
      ) in
      let there : select_first (is_issue r (key_hash_of e rt tools r)) s'.tables.issues ≡ some row =
        ap (λ (t : IssuerTables). select_first (is_issue r (key_hash_of e rt tools r)) t.issues)
          i.tables
        ∙ select_first-append (is_issue r (key_hash_of e rt tools r)) s.tables.issues row i.new
            mine in
      ground
        (arith, there, compares row.request_hash row.request_hash, bytes_eq_refl row.request_hash)

  issue_new-Answers :
      (r : IssueRequest) (resource : Resource) (blinded : Bytes) (s s' : IssuerState)
      (signature : Bytes)
      → issue_new e rt tools r resource blinded s ≡ (ok signature, s')
      → Answers r s' signature
  unfolding issue_new transaction_by
  issue_new-Answers r resource blinded s s' signature h =
      let t : IssuerState = (issue_block e rt tools r resource blinded s).1 in
      elim (Result-cases (issue_block e rt tools r resource blinded s)) [
        | inr (g, q) ↦
            let (same, end) = same_pair (ok g) (ok signature) t s' (sym (ap after q) ∙ h) in
            subst (λ a. replay e rt tools r s' ≡ some a) same
              (subst (λ t. Answers r t g) end
                (Issued-Answers r resource s t g
                  (issue_block_inv e rt tools r resource blinded s t g q)))
        | inl (x, q) ↦ failed x (is_not_unique x) (rollback s t) (sym (ap after q) ∙ h)
      ]
    where
      raced : IssuerState → Option (Result IssueError Bytes) → Outcome
      raced t o = (elim o [ none ↦ err internal_error | some known ↦ known ], t)

      after : Outcome → Outcome
      after out =
          let done : Outcome = elim out.0 [
            | ok a ↦ (ok a, out.1)
            | err x ↦ (err x, rollback s out.1)
          ] in
          elim done.0 [
            | ok signature ↦ (ok signature, done.1)
            | err x ↦
                if is_not_unique x
                then raced done.1 (replay e rt tools r done.1)
                else (err x, done.1)
          ]

      known :
          (t : IssuerState) (o : Option (Result IssueError Bytes))
          → raced t o ≡ (ok signature, s')
          → (o ≡ some (ok signature)) × (t ≡ s')
      known t none h = absurd (not_ok internal_error signature t s' h)
      known t (some a) h =
          (ap some (same_pair a (ok signature) t s' h).0, (same_pair a (ok signature) t s' h).1)

      failed :
          (x : IssueError) (c : Bool) (t : IssuerState)
          → (if c then raced t (replay e rt tools r t) else (err x, t)) ≡ (ok signature, s')
          → Answers r s' signature
      failed x true t h =
          let (found, end) = known t (replay e rt tools r t) h in
          subst (λ t. Answers r t signature) end found
      failed x false t h = absurd (not_ok x signature t s' h)

  issue-Answers :
      (r : IssueRequest) (others : IssuerState → IssuerState) (s s' : IssuerState)
      (signature : Bytes)
      → issue e rt tools r others s ≡ (ok signature, s')
      → Answers r s' signature
  unfolding issue
  issue-Answers r others s s' signature h =
      elim (value_cases (check_request e rt tools r s.tables)) [
        | inl (x, q) ↦ absurd (not_ok x signature s s' (sym (ap after q) ∙ h))
        | inr (z, q) ↦ elim (Option-cases (replay e rt tools r s)) [
          | inl new ↦
              issue_new-Answers r z.0 z.1 (others s) s' signature
                (sym (ap after q ∙ ap (answered z) new) ∙ h)
          | inr (a, known) ↦
              let (same, end) =
                same_pair a (ok signature) s s' (sym (ap after q ∙ ap (answered z) known) ∙ h) in
              subst (λ t. Answers r t signature) end (known ∙ ap some same)
        ]
      ]
    where
      answered : Resource × Bytes → Option (Result IssueError Bytes) → Outcome
      answered z o = elim o [
        | some answer ↦ (answer, s)
        | none ↦ issue_new e rt tools r z.0 z.1 (others s)
      ]

      after : Result IssueError (Resource × Bytes) → Outcome
      after out = elim out [ err x ↦ (err x, s) | ok z ↦ answered z (replay e rt tools r s) ]

  -- A request that was answered with a signature, whatever other processes did meanwhile, and is sent
  -- again with its idempotency key at an instant at which it still passes the checks of the user, the
  -- period and the message: the same signature is answered, no quota is used, no commitment is consumed
  -- and nothing is written. Byte strings are compared.
  pub issue_again :
      (r : IssueRequest) (others others' : IssuerState → IssuerState) (s s' : IssuerState)
      (signature : Bytes) (later : ℕ) (z : Resource × Bytes)
      → issue e rt tools r others s ≡ (ok signature, s')
      → check_request e rt tools (record r { now = later }) s'.tables ≡ ok z
      → issue e rt tools (record r { now = later }) others' s' ≡ (ok signature, s')
  unfolding issue replay key_hash_of request_hash_of
  issue_again r others others' s s' signature later z h passes =
      let known = issue-Answers r others s s' signature h in ground (arith, passes, known)
