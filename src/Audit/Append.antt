-- ===== src/Audit/Append.antt =====
-- `append` and `verify_chain` together (server/app/services/admin_audit.py).
use crypto_campus.Prelude.{
  ℕ, suc, ◌+◌, ◌≡◌, refl, sym, ap, ◌∙◌, true, false, Option, none, some, List, [], ◌∷◌, ◌++◌, Bytes,
  Text, arith, length, length-append, bytes_eq_refl, ◌==◌, select_first, Option-cases, inl, inr,
}
use mathlib.Core.Path.{subst}
use crypto_campus.Crypto.{CryptoEngine, Runtime}
use crypto_campus.Action.{ok}
use crypto_campus.Revocation.{genesis_hash}
use crypto_campus.Audit.{
  AdminAuditEntry, AuditInput, follows, is_followed, all_apart, hash_of_tail, get_chain_tail,
  audit_hash, entry_of_input, append, check_entry, walk_chain, verify_chain,
}
use crypto_campus.Audit.Walk.{
  last_hash, all_apart-append, walk_stop, walk-EndsAt, walk_halt, walk-append,
}
use crypto_campus.Audit.Chain.{Appended, append-Appended, tail-last, Verified, verify_ok, verify_of}

not_empty : (xs : List AdminAuditEntry) (r : AdminAuditEntry) → ¬ (xs ++ r ∷ [] ≡ [])
not_empty [] r h = ground (arith, h)
not_empty (x ∷ xs) r h = ground (arith, h)

rounds :
    (es : List AdminAuditEntry) (r : AdminAuditEntry)
    → suc (length es + 1) ≡ length (es ++ r ∷ []) + 1
rounds es r = omega (arith, length-append es (r ∷ []))

same_length :
    (es os : List AdminAuditEntry) (r : AdminAuditEntry)
    → (length os == length es) ≡ true
    → (length (os ++ r ∷ []) == length (es ++ r ∷ [])) ≡ true
same_length es os r h = ground (arith, h, length-append es (r ∷ []), length-append os (r ∷ []))

tail_none : (tail : Option AdminAuditEntry) → get_chain_tail [] ≡ ok tail → tail ≡ none
unfolding get_chain_tail
tail_none tail h = ground (arith, h)

module _ (e : CryptoEngine) (rt : Runtime) (uuid_bytes : Text → Option Bytes) where
  check_new :
      (a : AuditInput) (id : ℕ) (h hash : Bytes)
      → audit_hash e rt uuid_bytes h a ≡ some hash
      → check_entry e rt uuid_bytes h (entry_of_input e rt uuid_bytes id a h hash) ≡ ok tt
  unfolding check_entry entry_of_input
  check_new a id h hash hashed = ground (arith, hashed, bytes_eq_refl hash)

  is_followed_start :
      (n : ℕ) (es os : List AdminAuditEntry) (r : AdminAuditEntry)
      → walk_chain e rt uuid_bytes (suc n) es genesis_hash ≡ ok (os ++ r ∷ [])
      → is_followed es genesis_hash ≡ true
  is_followed_start n es os r w = elim (Option-cases (select_first (follows genesis_hash) es)) [
    | inl missing ↦
        absurd
          (not_empty os r (walk_stop e rt uuid_bytes n es genesis_hash (os ++ r ∷ []) missing w))
    | inr (x, found) ↦ ground (arith, found)
  ]

  -- A log that is one chain, with one more entry after its last.
  extended :
      (es os : List AdminAuditEntry) (r : AdminAuditEntry)
      → all_apart es ≡ true
      → walk_chain e rt uuid_bytes (length es + 1) es genesis_hash ≡ ok os
      → (length os == length es) ≡ true
      → is_followed es r.hash_prev ≡ false
      → r.hash_prev ≡ last_hash genesis_hash os
      → check_entry e rt uuid_bytes (last_hash genesis_hash os) r ≡ ok tt
      → select_first (follows r.hash_curr) (es ++ r ∷ []) ≡ none
      → Verified e rt uuid_bytes (es ++ r ∷ []) (os ++ r ∷ [])
  extended es os r apart walked whole unfollowed at good free =
      let longer =
        walk-append e rt uuid_bytes (length es + 1) es genesis_hash os r walked at good free in
      record {
        apart = all_apart-append es r apart unfollowed;
        started = is_followed_start (length es + 1) (es ++ r ∷ []) os r longer;
        walked =
            subst
              (λ n. walk_chain e rt uuid_bytes n (es ++ r ∷ []) genesis_hash ≡ ok (os ++ r ∷ []))
              (rounds es r) longer;
        whole = same_length es os r whole;
      }

  new_entry :
      (a : AuditInput) (id : ℕ) (es : List AdminAuditEntry) (r : AdminAuditEntry)
      (es' : List AdminAuditEntry)
      → (q : Appended e rt uuid_bytes a id es r es')
      → (r.hash_prev ≡ hash_of_tail q.tail)
        × (check_entry e rt uuid_bytes (hash_of_tail q.tail) r ≡ ok tt)
  unfolding entry_of_input
  new_entry a id es r es' q = (
    ap (λ z. z.hash_prev) q.entry,
    subst (λ z. check_entry e rt uuid_bytes (hash_of_tail q.tail) z ≡ ok tt) (sym q.entry)
        (check_new a id (hash_of_tail q.tail) q.hash q.hashed),
  )

  first_entry :
      (a : AuditInput) (id : ℕ) (r : AdminAuditEntry) (es' : List AdminAuditEntry)
      → append e rt uuid_bytes a id [] ≡ (ok r, es')
      → select_first (follows r.hash_curr) es' ≡ none
      → verify_chain e rt uuid_bytes es' ≡ ok (r ∷ [])
  unfolding get_chain_tail all_apart select_first last_hash
  first_entry a id r es' h free =
      let q = append-Appended e rt uuid_bytes a id [] r es' h in
      let (prev, good) = new_entry a id [] r es' q in
      let start : hash_of_tail q.tail ≡ genesis_hash =
        ap hash_of_tail (tail_none q.tail q.tail_found) in
      subst (λ z. verify_chain e rt uuid_bytes z ≡ ok (r ∷ [])) (sym q.after)
        (verify_of e rt uuid_bytes r [] (r ∷ []) (
          extended [] [] r refl (walk_halt e rt uuid_bytes 0 [] genesis_hash refl) refl refl
            (prev ∙ start) (subst (λ z. check_entry e rt uuid_bytes z r ≡ ok tt) start good)
            (subst (λ z. select_first (follows r.hash_curr) z ≡ none) q.after free)))

  verify_empty :
      (ordered : List AdminAuditEntry) → verify_chain e rt uuid_bytes [] ≡ ok ordered → ordered ≡ []
  unfolding verify_chain
  verify_empty ordered v = ground (arith, v)

  -- The chain stays whole: when a log verifies, and an entry is appended to it, then the log verifies
  -- again, to the entries from before in their order and the new one after them. The new digest is
  -- taken not to be one that an entry already names as its predecessor's.
  pub append-verify_chain :
      (a : AuditInput) (id : ℕ) (es ordered : List AdminAuditEntry) (r : AdminAuditEntry)
      (es' : List AdminAuditEntry)
      → verify_chain e rt uuid_bytes es ≡ ok ordered
      → append e rt uuid_bytes a id es ≡ (ok r, es')
      → select_first (follows r.hash_curr) es' ≡ none
      → verify_chain e rt uuid_bytes es' ≡ ok (ordered ++ r ∷ [])
  append-verify_chain a id [] ordered r es' v h free =
      subst (λ z. verify_chain e rt uuid_bytes es' ≡ ok (z ++ r ∷ []))
        (sym (verify_empty ordered v)) (first_entry a id r es' h free)
  append-verify_chain a id (x ∷ xs) ordered r es' v h free =
      let q = append-Appended e rt uuid_bytes a id (x ∷ xs) r es' h in
      let w = verify_ok e rt uuid_bytes x xs ordered v in
      let (prev, good) = new_entry a id (x ∷ xs) r es' q in
      let at =
        tail-last e rt uuid_bytes (x ∷ xs) q.tail (last_hash genesis_hash ordered) q.tail_found
          w.started
          (walk-EndsAt e rt uuid_bytes (length (x ∷ xs) + 1) (x ∷ xs) genesis_hash ordered
            w.walked) in
      subst (λ z. verify_chain e rt uuid_bytes z ≡ ok (ordered ++ r ∷ [])) (sym q.after)
        (verify_of e rt uuid_bytes x (xs ++ r ∷ []) (ordered ++ r ∷ []) (
          extended (x ∷ xs) ordered r w.apart w.walked w.whole
            (subst (λ z. is_followed (x ∷ xs) z ≡ false) (sym prev) q.unfollowed) (prev ∙ at)
            (subst (λ z. check_entry e rt uuid_bytes z r ≡ ok tt) at good)
            (subst (λ z. select_first (follows r.hash_curr) z ≡ none) q.after free)))
