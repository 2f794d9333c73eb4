-- ===== src/Quota/Reset/Zero.antt =====
-- What a reset of the quotas does, once and again: `reset` of server/app/services/quota.py.
use crypto_campus.Prelude.{
  ℕ, ◌≡◌, refl, sym, ap, ◌∙◌, Bool, true, false, ◌&&◌, not, Option, none, some, List, Bytes, Text,
  arith, length, bytes_eq, bytes_eq_refl, ◌==◌, between, select_first, update_row, Option-cases,
  inl, inr,
}
use crypto_campus.Prelude.Keyed.{select_first-append, select_first-update_any, select_first-holds}
use mathlib.Core.Option
use mathlib.Core.Path.{subst}
use crypto_campus.Crypto.{CryptoEngine, Runtime}
use crypto_campus.Action.{Result, ok, raise_if, gets, ◌>>◌, transaction_by, undo}
use crypto_campus.Action.Laws.{value_cases, bind_inv, pure_inv, raise_if_inv, transaction_inv}
use crypto_campus.Audit.{append}
use crypto_campus.Quota.Rows.{CredentialLedger, QuotaError, Resource, idempotency_invalid}
use crypto_campus.Quota.{is_row, used, day_of}
use crypto_campus.Quota.Apart.{eq_of-same_resource}
use crypto_campus.Quota.Reset.{
  Quota, AdminQuotaResetIdempotency, ResetTables, ResetAction, ResetRequest, is_daily, get_quotas,
  reset_counts, is_reset, key_hash_of, request_hash_of, replay, chain_input, chain_reset,
  write_reset, check_accounts, reset_new, reset,
}

abbrev Answer : Type 0
Answer = Result QuotaError (List Quota)

-- After the UPDATE nothing is used of a daily resource.
used-reset_counts :
    (user : ℕ) (x : Resource) (period : Text) (rows : List CredentialLedger)
    → is_daily x ≡ true
    → used user x period (reset_counts user period rows) ≡ 0
unfolding reset_counts
used-reset_counts user x period rows daily =
    let hit : CredentialLedger → Bool =
      λ r. r.user_id == user && (bytes_eq r.period period && is_daily r.service) in
    let zero_it : CredentialLedger → CredentialLedger = λ r. record r { issued_count = 0 } in
    let updated = select_first-update_any (is_row user x period) hit zero_it (λ r. refl) rows in
    elim (Option-cases (select_first (is_row user x period) rows)) [
      | inl missing ↦ ground (arith, updated ∙ ap (Option.map (update_row hit zero_it)) missing)
      | inr (r, found) ↦
          let mine = select_first-holds (is_row user x period) rows r found in
          let same : r.service ≡ x = eq_of-same_resource r.service x (ground (arith, mine)) in
          ground (
            arith,
            updated ∙ ap (Option.map (update_row hit zero_it)) found,
            mine,
            ap is_daily same ∙ daily,
          )
    ]

module _ (e : CryptoEngine) (rt : Runtime) (uuid_bytes : Text → Option Bytes)
    (digest : Bytes → Bytes) where
  chain_reset_same :
      (r : ResetRequest) (s : ResetTables)
      → ((chain_reset e rt uuid_bytes digest r s).1.users ≡ s.users)
        × ((chain_reset e rt uuid_bytes digest r s).1.resets ≡ s.resets)
        × ((chain_reset e rt uuid_bytes digest r s).1.ledger ≡ s.ledger)
  unfolding chain_reset
  chain_reset_same r s = elim (Option-cases r.chained) [
    | inl none_given ↦
        (ground (arith, none_given), ground (arith, none_given), ground (arith, none_given))
    | inr (id, given) ↦
        elim (value_cases
          (append e rt uuid_bytes (chain_input e rt uuid_bytes digest r) id s.chain).0) [
            | inl (x, q) ↦
                (ground (arith, given, q), ground (arith, given, q), ground (arith, given, q))
            | inr (a, q) ↦
                (ground (arith, given, q), ground (arith, given, q), ground (arith, given, q))
          ]
  ]

  record ResetDone (r : ResetRequest) (s s' : ResetTables) (quotas : List Quota) : Type 0 where
    users : s'.users ≡ s.users
    resets : s'.resets ≡ (write_reset e rt uuid_bytes digest r s).resets
    ledger : s'.ledger ≡ (write_reset e rt uuid_bytes digest r s).ledger
    answered : quotas ≡ get_quotas rt r.user_id r.now s'.ledger

  reset_new_inv :
      (r : ResetRequest) (s s' : ResetTables) (quotas : List Quota)
      → reset_new e rt uuid_bytes digest r s ≡ (ok quotas, s')
      → ResetDone r s s' quotas
  unfolding reset_new write_reset
  reset_new_inv r s s' quotas h =
      let t : ResetTables = write_reset e rt uuid_bytes digest r s in
      let (u, chained, h2) =
        bind_inv (λ (u : Unit {0}). gets λ s. get_quotas rt r.user_id r.now s.ledger)
          (chain_reset e rt uuid_bytes digest r) t s' quotas h in
      let t' : ResetTables = (chain_reset e rt uuid_bytes digest r t).1 in
      let (same, end) = pure_inv (get_quotas rt r.user_id r.now t'.ledger) quotas t' s' h2 in
      let (users, resets, ledger) = chain_reset_same r t in
      record {
        users = sym (ap (λ (z : ResetTables). z.users) end) ∙ users;
        resets = sym (ap (λ (z : ResetTables). z.resets) end) ∙ resets;
        ledger = sym (ap (λ (z : ResetTables). z.ledger) end) ∙ ledger;
        answered = sym same ∙ ap (λ (z : ResetTables). get_quotas rt r.user_id r.now z.ledger) end;
      }

  block : ResetRequest → ResetAction (List Quota)
  block r = do
    λ s. (check_accounts e rt uuid_bytes digest r s, s)
    λ s. elim (replay e rt uuid_bytes digest r s) [
      | some answer ↦ (answer, s)
      | none ↦ reset_new e rt uuid_bytes digest r s
    ]

  record Accepted (r : ResetRequest) (s s' : ResetTables) (quotas : List Quota) : Type 0 where
    key_fits : not (between 16 128 (length r.idempotency_key)) ≡ false
    checked : check_accounts e rt uuid_bytes digest r s ≡ ok tt
    ran :
        ◌≡◌ {A = Answer × ResetTables}
          (elim (replay e rt uuid_bytes digest r s) [
            | some answer ↦ (answer, s)
            | none ↦ reset_new e rt uuid_bytes digest r s
          ])
          (ok quotas, s')

  reset_inv :
      (r : ResetRequest) (s s' : ResetTables) (quotas : List Quota)
      → reset e rt uuid_bytes digest r s ≡ (ok quotas, s')
      → Accepted r s s' quotas
  unfolding reset block
  reset_inv r s s' quotas h =
      let (u, fits, h2) =
        bind_inv (λ (u : Unit {0}). transaction_by undo (block r))
          (raise_if (not (between 16 128 (length r.idempotency_key))) idempotency_invalid) s s'
          quotas h in
      let h3 = transaction_inv undo (block r) s s' quotas h2 in
      let (w, checked, h4) =
        bind_inv
          (λ (w : Unit {0}) s.
            elim (replay e rt uuid_bytes digest r s) as (λ _. Answer × ResetTables) [
              | some answer ↦ (answer, s)
              | none ↦ reset_new e rt uuid_bytes digest r s
            ])
          (λ s. (check_accounts e rt uuid_bytes digest r s, s)) s s' quotas h3 in
      record {
        key_fits =
            (raise_if_inv (not (between 16 128 (length r.idempotency_key))) idempotency_invalid u s
              s fits).0;
        checked = ap (λ (z : Result QuotaError (Unit {0}) × ResetTables). z.0) checked;
        ran = h4;
      }

  -- A reset that succeeds under a new key: nothing is used any more of a daily resource in the day, and
  -- the quotas that are answered are those of the ledger that it leaves.
  pub reset_zeroes :
      (r : ResetRequest) (s s' : ResetTables) (quotas : List Quota)
      → replay e rt uuid_bytes digest r s ≡ none
      → reset e rt uuid_bytes digest r s ≡ (ok quotas, s')
      → (quotas ≡ get_quotas rt r.user_id r.now s'.ledger)
        × ((x : Resource)
            → is_daily x ≡ true
            → used r.user_id x (rt.isodate (day_of r.now)) s'.ledger ≡ 0)
  unfolding write_reset
  reset_zeroes r s s' quotas new h =
      let a = reset_inv r s s' quotas h in
      let ran =
        sym (
          ap
            (λ (o : Option Answer). elim o as (λ _. Answer × ResetTables) [
              | some answer ↦ (answer, s)
              | none ↦ reset_new e rt uuid_bytes digest r s
            ])
            new)
        ∙ a.ran in
      let z = reset_new_inv r s s' quotas ran in
      (
        z.answered,
        λ x daily.
            ap (used r.user_id x (rt.isodate (day_of r.now))) z.ledger
            ∙ used-reset_counts r.user_id x (rt.isodate (day_of r.now)) s.ledger daily,
      )

  write_reset-replay :
      (r : ResetRequest) (s s' : ResetTables) (quotas : List Quota)
      → replay e rt uuid_bytes digest r s ≡ none
      → ResetDone r s s' quotas
      → replay e rt uuid_bytes digest r s' ≡ some (ok quotas)
  unfolding replay write_reset
  write_reset-replay r s s' quotas new z =
      let rows = reset_counts r.user_id (rt.isodate (day_of r.now)) s.ledger in
      let row : AdminQuotaResetIdempotency = record {
        id = r.reset_id;
        actor_id = r.actor_id;
        target_user_id = r.user_id;
        key_hash = key_hash_of e rt uuid_bytes digest r;
        request_hash = request_hash_of e rt uuid_bytes digest r;
        response = get_quotas rt r.user_id r.now rows;
        created_at = r.now;
      } in
      let mine : is_reset r.actor_id (key_hash_of e rt uuid_bytes digest r) row ≡ true =
        ground (arith, bytes_eq_refl (key_hash_of e rt uuid_bytes digest r)) in
      let answered : get_quotas rt r.user_id r.now rows ≡ quotas =
        sym (z.answered ∙ ap (get_quotas rt r.user_id r.now) z.ledger) in
      elim (Option-cases
        (select_first (is_reset r.actor_id (key_hash_of e rt uuid_bytes digest r)) s.resets)) [
          | inr (i, taken) ↦ absurd (ground (arith, new, taken))
          | inl free ↦
              let there : select_first (is_reset r.actor_id (key_hash_of e rt uuid_bytes digest r))
                    s'.resets
                  ≡ some row =
                ap (select_first (is_reset r.actor_id (key_hash_of e rt uuid_bytes digest r)))
                  z.resets
                ∙ select_first-append (is_reset r.actor_id (key_hash_of e rt uuid_bytes digest r))
                    s.resets row free mine in
              ground
                (arith, there, answered, bytes_eq_refl (request_hash_of e rt uuid_bytes digest r))
        ]

  -- What a call that went through leaves for the next one.
  leaves_answer :
      (r : ResetRequest) (s s' : ResetTables) (quotas : List Quota)
      → Accepted r s s' quotas
      → (s'.users ≡ s.users) × (replay e rt uuid_bytes digest r s' ≡ some (ok quotas))
  leaves_answer r s s' quotas a = elim (Option-cases (replay e rt uuid_bytes digest r s)) [
    | inl new ↦
        let z = reset_new_inv r s s' quotas (sym (ap after new) ∙ a.ran) in
        (z.users, write_reset-replay r s s' quotas new z)
    | inr (answer, known) ↦
        let ends : ◌≡◌ {A = Answer × ResetTables} (answer, s) (ok quotas, s') =
          sym (ap after known) ∙ a.ran in
        let same : s ≡ s' = ap (λ (z : Answer × ResetTables). z.1) ends in
        (
          sym (ap (λ (z : ResetTables). z.users) same),
          subst (λ t. replay e rt uuid_bytes digest r t ≡ some (ok quotas)) same
              (known ∙ ap (λ (z : Answer × ResetTables). some z.0) ends),
        )
  ]
    where
      after : Option Answer → Answer × ResetTables
      after o = elim o [ some answer ↦ (answer, s) | none ↦ reset_new e rt uuid_bytes digest r s ]

  -- A reset that went through and is sent again by the same account, for the same user and with the same
  -- idempotency key, at any instant: it answers the quotas of the first call, and nothing is written.
  pub reset_again :
      (r : ResetRequest) (s s' : ResetTables) (quotas : List Quota) (later id : ℕ)
      (chained : Option ℕ)
      → reset e rt uuid_bytes digest r s ≡ (ok quotas, s')
      → reset e rt uuid_bytes digest (record r { now = later; reset_id = id; chained = chained }) s'
        ≡ (ok quotas, s')
  unfolding reset replay check_accounts key_hash_of request_hash_of
  reset_again r s s' quotas later id chained h =
      let a = reset_inv r s s' quotas h in
      let (users, known) = leaves_answer r s s' quotas a in
      let checked : check_accounts e rt uuid_bytes digest r s' ≡ ok tt =
        ap (λ us. check_accounts e rt uuid_bytes digest r (record s { users = us })) users
        ∙ a.checked in
      ground (arith, a.key_fits, checked, known)
