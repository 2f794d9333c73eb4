-- ===== src/Audit/Chain.antt =====
-- What a successful `append` is, and a log that verifies (server/app/services/admin_audit.py).
use crypto_campus.Prelude.{
  ℕ, ◌+◌, ◌≡◌, inl, inr, refl, sym, ap, ◌∙◌, true, false, not, Option, none, some, List, [], ◌∷◌,
  ◌++◌, Bytes, Text, arith, length, ◌==◌, select_first, Option-cases, Bool-cases,
}
use mathlib.Core.Path.{subst}
use crypto_campus.Crypto.{CryptoEngine, Runtime}
use crypto_campus.Action.{ok}
use crypto_campus.Action.Laws.{value_cases}
use crypto_campus.Revocation.{genesis_hash}
use crypto_campus.Audit.{
  AdminAuditEntry, AuditInput, follows, is_followed, tails, get_chain_tail, all_apart, hash_of_tail,
  audit_hash, entry_of_input, add_entry, append, walk_chain, verify_chain, tail_of,
}
use crypto_campus.Audit.Walk.{select_only, EndsAt}

module _ (e : CryptoEngine) (rt : Runtime) (uuid_bytes : Text → Option Bytes) where
  -- A successful `append`.
  pub record Appended (a : AuditInput) (id : ℕ) (es : List AdminAuditEntry) (r : AdminAuditEntry)
      (es' : List AdminAuditEntry) : Type 0 where
    pub tail : Option AdminAuditEntry
    pub tail_found : get_chain_tail es ≡ ok tail
    pub hash : Bytes
    pub hashed : audit_hash e rt uuid_bytes (hash_of_tail tail) a ≡ some hash
    pub entry : r ≡ entry_of_input e rt uuid_bytes id a (hash_of_tail tail) hash
    pub unfollowed : is_followed es (hash_of_tail tail) ≡ false
    pub after : es' ≡ es ++ r ∷ []

  add_entry_ok :
      (r0 r : AdminAuditEntry) (es es' : List AdminAuditEntry)
      → add_entry e rt uuid_bytes r0 es ≡ (ok r, es')
      → (r0 ≡ r) × (es' ≡ es ++ r0 ∷ []) × (is_followed es r0.hash_prev ≡ false)
  unfolding add_entry
  add_entry_ok r0 r es es' h = elim (Bool-cases (is_followed es r0.hash_prev)) [
    | inl taken ↦ absurd (ground (arith, h, taken))
    | inr free ↦
        let both : (r0 ≡ r) × (es' ≡ es ++ r0 ∷ []) = ground (arith, h, free) in
        (both.0, both.1, free)
  ]

  pub append-Appended :
      (a : AuditInput) (id : ℕ) (es : List AdminAuditEntry) (r : AdminAuditEntry)
      (es' : List AdminAuditEntry)
      → append e rt uuid_bytes a id es ≡ (ok r, es')
      → Appended a id es r es'
  unfolding append entry_of_input
  append-Appended a id es r es' h = elim (value_cases (get_chain_tail es)) [
    | inl (x, bad) ↦ absurd (ground (arith, h, bad))
    | inr (tail, found) ↦ elim (Option-cases (audit_hash e rt uuid_bytes (hash_of_tail tail) a)) [
      | inl bad ↦ absurd (ground (arith, h, found, bad))
      | inr (hash, hashed) ↦
          let (same, after, free) =
            add_entry_ok (entry_of_input e rt uuid_bytes id a (hash_of_tail tail) hash) r es es'
              (ground (arith, h, found, hashed)) in
          record {
            tail = tail;
            tail_found = found;
            hash = hash;
            hashed = hashed;
            entry = sym same;
            unfollowed = free;
            after = after ∙ ap (λ z. es ++ z ∷ []) same;
          }
    ]
  ]

  tail_of_one :
      (rs : List AdminAuditEntry) (tail : Option AdminAuditEntry)
      → tail_of rs ≡ ok tail
      → (t : AdminAuditEntry) × (rs ≡ t ∷ []) × (tail ≡ some t)
  tail_of_one [] tail h = absurd (ground (arith, h))
  tail_of_one (t ∷ []) tail h = (t, refl, ground (arith, h))
  tail_of_one (t ∷ t' ∷ ts) tail h = absurd (ground (arith, h))

  unfollowed_lem :
      (es : List AdminAuditEntry) (l k : Bytes)
      → select_first (follows l) es ≡ none
      → l ≡ k
      → not (is_followed es k) ≡ true
  unfollowed_lem es l k stopped at =
      subst (λ z. not (is_followed es z) ≡ true) at (ground (arith, stopped))

  -- The one tail is where the walk from the genesis ends.
  pub tail-last :
      (es : List AdminAuditEntry) (tail : Option AdminAuditEntry) (l : Bytes)
      → get_chain_tail es ≡ ok tail
      → is_followed es genesis_hash ≡ true
      → EndsAt e rt uuid_bytes es genesis_hash l
      → hash_of_tail tail ≡ l
  unfolding get_chain_tail select_first
  tail-last [] tail l t g q = absurd (ground (arith, g))
  tail-last (x ∷ xs) tail l t g q =
      let es = x ∷ xs in
      let (only, one, same) = tail_of_one (tails es es) tail t in
      elim q.came [
        | inl here ↦ absurd (ground (arith, g, unfollowed_lem es l genesis_hash q.stopped here))
        | inr (k, y, found, at) ↦
            let p = λ (r : AdminAuditEntry). not (is_followed es r.hash_curr) in
            let is_it =
              select_only (follows k) p es y only one found
                (unfollowed_lem es l y.hash_curr q.stopped at) in
            ap hash_of_tail same ∙ (ap (λ z. z.hash_curr) (sym is_it) ∙ sym at)
      ]

  -- What a log that verifies is.
  pub record Verified (es ordered : List AdminAuditEntry) : Type 0 where
    pub apart : all_apart es ≡ true
    pub started : is_followed es genesis_hash ≡ true
    pub walked : walk_chain e rt uuid_bytes (length es + 1) es genesis_hash ≡ ok ordered
    pub whole : (length ordered == length es) ≡ true

  pub verify_ok :
      (x : AdminAuditEntry) (xs ordered : List AdminAuditEntry)
      → verify_chain e rt uuid_bytes (x ∷ xs) ≡ ok ordered
      → Verified (x ∷ xs) ordered
  unfolding verify_chain
  verify_ok x xs ordered h = elim (Bool-cases (all_apart (x ∷ xs))) [
    | inr bad ↦ absurd (ground (arith, h, bad))
    | inl apart ↦ elim (Bool-cases (is_followed (x ∷ xs) genesis_hash)) [
      | inr bad ↦ absurd (ground (arith, h, apart, bad))
      | inl started ↦
          elim (value_cases
            (walk_chain e rt uuid_bytes (length (x ∷ xs) + 1) (x ∷ xs) genesis_hash)) [
              | inl (y, bad) ↦ absurd (ground (arith, h, apart, started, bad))
              | inr (found, walked) ↦ elim (Bool-cases (length found == length (x ∷ xs))) [
                | inr bad ↦ absurd (ground (arith, h, apart, started, walked, bad))
                | inl whole ↦
                    let same : found ≡ ordered = ground (arith, h, apart, started, walked, whole) in
                    record {
                      apart = apart;
                      started = started;
                      walked = walked ∙ ap ok same;
                      whole = subst (λ z. (length z == length (x ∷ xs)) ≡ true) same whole;
                    }
              ]
            ]
    ]
  ]

  pub verify_of :
      (x : AdminAuditEntry) (xs ordered : List AdminAuditEntry)
      → Verified (x ∷ xs) ordered
      → verify_chain e rt uuid_bytes (x ∷ xs) ≡ ok ordered
  unfolding verify_chain
  verify_of x xs ordered v = ground (arith, v.apart, v.started, v.walked, v.whole)
