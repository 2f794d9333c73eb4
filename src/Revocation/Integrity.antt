-- ===== src/Revocation/Integrity.antt =====
-- What a log that `order_and_verify_chain` accepts is (server/app/services/revocation_log.py).
use crypto_campus.Prelude.{
  suc, ◌≡◌, refl, sym, ap, ◌∙◌, Bool, true, some, List, [], ◌∷◌, ◌++◌, Bytes, arith, length,
  bytes_eq, eq_of-bytes_eq, select_first, Option-cases, Bool-cases, inl, inr,
}
use crypto_campus.Prelude.Keyed.{select_first-holds}
use crypto_campus.Crypto.{CryptoEngine, Runtime}
use crypto_campus.Revocation.{
  RevocationLog, prev_of, by_prev, genesis_hash, is_well_formed, collect, Walked, out_of_fuel,
  cycle, ordered, walk, calculate_revocation_hash, is_digested, all_digested,
  order_and_verify_chain,
}
use crypto_campus.Revocation.Walk.{IsLinked, walk-IsLinked}
use mathlib.Core.Path.{subst}

append_assoc :
    (m : List RevocationLog) (r : RevocationLog) (rs : List RevocationLog)
    → (m ++ r ∷ []) ++ rs ≡ m ++ r ∷ rs
append_assoc [] r rs = refl
append_assoc (x ∷ m) r rs = ap (λ t. x ∷ t) (append_assoc m r rs)

append_nil : (m : List RevocationLog) → m ++ [] ≡ m
append_nil [] = refl
append_nil (x ∷ m) = ap (λ t. x ∷ t) (append_nil m)

module _ (e : CryptoEngine) (rt : Runtime) where
  collect_rows :
      (rs : List RevocationLog) (seen : List Bytes) (m m' : List RevocationLog)
      → collect e rt rs seen m ≡ some m'
      → m' ≡ m ++ rs
  unfolding collect
  collect_rows [] seen m m' h = ground (arith, h, append_nil m)
  collect_rows (r ∷ rs) seen m m' h =
      collect_rows rs (r.hash_curr ∷ seen) (m ++ r ∷ []) m' (ground (arith, h))
      ∙ append_assoc m r rs

  collect-is_well_formed :
      (p : RevocationLog → Bool) (rs : List RevocationLog) (seen : List Bytes)
      (m m' : List RevocationLog) (x : RevocationLog)
      → collect e rt rs seen m ≡ some m'
      → select_first p rs ≡ some x
      → is_well_formed e rt x ≡ true
  unfolding collect select_first
  collect-is_well_formed p [] seen m m' x h found = absurd (ground (arith, found))
  collect-is_well_formed p (r ∷ rs) seen m m' x h found = elim (Bool-cases (p r)) [
    | inl here ↦ ground (arith, h, found, here)
    | inr there ↦
        collect-is_well_formed p rs (r.hash_curr ∷ seen) (m ++ r ∷ []) m' x (ground (arith, h))
          (ground (arith, found, there))
  ]

  -- The entry `r` is the row of the log that comes after the hash `h`, and its own hash is the digest
  -- of `h` and of its fields.
  pub record Follows (rows : List RevocationLog) (h : Bytes) (r : RevocationLog) : Type 0 where
    pub row : by_prev e rt h rows ≡ some r
    pub well_formed : is_well_formed e rt r ≡ true
    pub previous : prev_of e rt r ≡ h
    pub digested : calculate_revocation_hash e rt h r.sn r.reason r.ts ≡ some r.hash_curr

  pub IsChain : List RevocationLog → Bytes → List RevocationLog → Type 0
  IsChain rows h [] = Unit {0}
  IsChain rows h (r ∷ rs) = Follows rows h r × IsChain rows r.hash_curr rs

  follows_lem :
      (rows : List RevocationLog) (h : Bytes) (r : RevocationLog)
      → by_prev e rt h rows ≡ some r
      → is_well_formed e rt r ≡ true
      → is_digested e rt r ≡ true
      → Follows rows h r
  unfolding is_digested
  follows_lem rows h r found formed digested =
      let previous =
        eq_of-bytes_eq (prev_of e rt r) h
          (select_first-holds (λ x. bytes_eq (prev_of e rt x) h) rows r found) in
      elim (Option-cases (calculate_revocation_hash e rt (prev_of e rt r) r.sn r.reason r.ts)) [
        | inl missing ↦ absurd (ground (arith, digested, missing))
        | inr (d, computed) ↦
            let same = eq_of-bytes_eq d r.hash_curr (ground (arith, digested, computed)) in
            record {
              row = found;
              well_formed = formed;
              previous = previous;
              digested =
                  ap (λ z. calculate_revocation_hash e rt z r.sn r.reason r.ts) (sym previous)
                  ∙ computed
                  ∙ ap some same;
            }
      ]

  chain_lem :
      (rows : List RevocationLog) (h : Bytes) (found : List RevocationLog)
      → ((g : Bytes) (x : RevocationLog)
          → by_prev e rt g rows ≡ some x
          → is_well_formed e rt x ≡ true)
      → IsLinked e rt rows h found
      → all_digested e rt found ≡ true
      → IsChain rows h found
  unfolding IsChain IsLinked all_digested
  chain_lem rows h [] formed linked digested = tt
  chain_lem rows h (r ∷ rs) formed (found, linked) digested = (
    follows_lem rows h r found (formed h r found) (ground (arith, digested)),
    chain_lem rows r.hash_curr rs formed linked (ground (arith, digested)),
  )

  order_cases :
      (r : RevocationLog) (rs found m : List RevocationLog) (w : Walked e rt)
      → collect e rt (r ∷ rs) [] [] ≡ some m
      → walk e rt (suc (length m)) m genesis_hash [] ≡ w
      → order_and_verify_chain e rt (r ∷ rs) ≡ some found
      → (w ≡ ordered found) × (length found ≡ length (r ∷ rs)) × (all_digested e rt found ≡ true)
  unfolding order_and_verify_chain
  order_cases r rs found m out_of_fuel collected walked h =
      absurd (ground (arith, collected, walked, h))
  order_cases r rs found m cycle collected walked h = absurd (ground (arith, collected, walked, h))
  order_cases r rs found m (ordered o) collected walked h =
      let same : o ≡ found = ground (arith, collected, walked, h) in
      (ap ordered same, ground (arith, collected, walked, h), ground (arith, collected, walked, h))

  -- A log that is accepted comes back as one chain from the genesis hash: as many entries as the log
  -- has, each of them the row of the log that is filed under the hash of the one before, well formed,
  -- and with a hash that is the digest of that hash and of its own fields.
  pub order_and_verify_chain-IsChain :
      (rows found : List RevocationLog)
      → order_and_verify_chain e rt rows ≡ some found
      → IsChain rows genesis_hash found × (length found ≡ length rows)
  unfolding order_and_verify_chain IsChain
  order_and_verify_chain-IsChain [] found h =
      let none_left : found ≡ [] = ground (arith, h) in rw none_left (tt, refl)
  order_and_verify_chain-IsChain (r ∷ rs) found h =
      elim (Option-cases (collect e rt (r ∷ rs) [] [])) [
        | inl missing ↦ absurd (ground (arith, missing, h))
        | inr (m, collected) ↦
            let rows_eq : m ≡ r ∷ rs = collect_rows (r ∷ rs) [] [] m collected in
            let walked = walk e rt (suc (length m)) m genesis_hash [] in
            let (q, n, digested) = order_cases r rs found m walked collected refl h in
            let linked = walk-IsLinked e rt (suc (length m)) m genesis_hash [] found q in
            let formed =
              λ (g : Bytes) (x : RevocationLog) (at_g : by_prev e rt g (r ∷ rs) ≡ some x).
                collect-is_well_formed (λ y. bytes_eq (prev_of e rt y) g) (r ∷ rs) [] [] m x
                  collected at_g in
            (
              chain_lem (r ∷ rs) genesis_hash found formed
                  (subst (λ z. IsLinked e rt z genesis_hash found) rows_eq linked) digested,
              n,
            )
      ]
