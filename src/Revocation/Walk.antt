-- ===== src/Revocation/Walk.antt =====
-- The second loop of `order_and_verify_chain` (server/app/services/revocation_log.py): it ends, and
-- what it has put in order is linked.
use crypto_campus.Prelude.{
  ℕ, zero, suc, ◌≤◌, ◌<◌, ◌≡◌, ◌≢◌, refl, true, false, not, some, List, [], ◌∷◌, Bytes, arith,
  length, bytes_eq, eq_of-bytes_eq, select_first, rowcount, Option-cases, Bool-cases, inl, inr,
  rowcount-eq-length-select, length-select-le,
}
use crypto_campus.Crypto.{CryptoEngine, Runtime}
use crypto_campus.Revocation.{
  RevocationLog, mem, prev_of, by_prev, Walked, out_of_fuel, cycle, ordered, then_entry, walk,
}

module _ (e : CryptoEngine) (rt : Runtime) where
  -- The entries whose key has not been visited.
  abbrev unvisited : List Bytes → List RevocationLog → ℕ
  unvisited visited m = rowcount (λ r. not (mem (prev_of e rt r) visited)) m

  unvisited-shrinks :
      (h : Bytes) (visited : List Bytes) (m : List RevocationLog)
      → unvisited (h ∷ visited) m ≤ unvisited visited m
  unfolding rowcount mem
  unvisited-shrinks h visited [] = omega arith
  unvisited-shrinks h visited (r ∷ rs) = ground (arith, unvisited-shrinks h visited rs)

  mem-same :
      (a h : Bytes) (visited : List Bytes)
      → bytes_eq a h ≡ true
      → mem h visited ≡ false
      → mem a visited ≡ false
  mem-same a h visited same fresh = rw (eq_of-bytes_eq a h same) fresh

  visit-shrinks :
      (h : Bytes) (visited : List Bytes) (m : List RevocationLog) (r : RevocationLog)
      → by_prev e rt h m ≡ some r
      → mem h visited ≡ false
      → unvisited (h ∷ visited) m < unvisited visited m
  unfolding rowcount mem select_first
  visit-shrinks h visited [] r found fresh = absurd (ground arith)
  visit-shrinks h visited (x ∷ rs) r found fresh = elim (Bool-cases (bytes_eq (prev_of e rt x) h)) [
    | inl here ↦ ground (
      arith,
      here,
      mem-same (prev_of e rt x) h visited here fresh,
      unvisited-shrinks h visited rs,
    )
    | inr there ↦
        ground (arith, there, visit-shrinks h visited rs r (ground (arith, found, there)) fresh)
  ]

  -- Fuel for each entry that has not been visited, and one more, is enough.
  pub walk-Ends :
      (fuel : ℕ) (m : List RevocationLog) (h : Bytes) (visited : List Bytes)
      → unvisited visited m < fuel
      → walk e rt fuel m h visited ≢ out_of_fuel
  unfolding walk then_entry
  walk-Ends zero m h visited enough = absurd (omega arith)
  walk-Ends (suc n) m h visited enough = elim (Option-cases (by_prev e rt h m)) [
    | inl missing ↦ λ q. absurd (ground (arith, missing))
    | inr (r, found) ↦ elim (Bool-cases (mem h visited)) [
      | inl again ↦ λ q. absurd (ground (arith, found, again))
      | inr fresh ↦
          let shorter = visit-shrinks h visited m r found fresh in
          let ih = walk-Ends n m r.hash_curr (h ∷ visited) (omega arith) in
          λ q. ih (ground (arith, found, fresh, q))
    ]
  ]

  -- The entries in the order of the chain that starts after `h`.
  unfoldable pub IsLinked : List RevocationLog → Bytes → List RevocationLog → Type 0
  IsLinked m h [] = Unit {0}
  IsLinked m h (r ∷ rs) = (by_prev e rt h m ≡ some r) × IsLinked m r.hash_curr rs

  then_entry_cases :
      (r : RevocationLog) (w : Walked e rt) (rs : List RevocationLog)
      → then_entry e rt r w ≡ ordered rs
      → (rest : List RevocationLog) × (w ≡ ordered rest) × (rs ≡ r ∷ rest)
  unfolding then_entry
  then_entry_cases r out_of_fuel rs h = absurd (ground (arith, h))
  then_entry_cases r cycle rs h = absurd (ground (arith, h))
  then_entry_cases r (ordered rest) rs h = (rest, refl, ground (arith, h))

  pub walk-IsLinked :
      (fuel : ℕ) (m : List RevocationLog) (h : Bytes) (visited : List Bytes)
      (rs : List RevocationLog)
      → walk e rt fuel m h visited ≡ ordered rs
      → IsLinked m h rs
  unfolding walk IsLinked
  walk-IsLinked zero m h visited rs q = absurd (ground (arith, q))
  walk-IsLinked (suc n) m h visited rs q = elim (Option-cases (by_prev e rt h m)) [
    | inl missing ↦ let none_left : rs ≡ [] = ground (arith, missing, q) in rw none_left tt
    | inr (r, found) ↦ elim (Bool-cases (mem h visited)) [
      | inl again ↦ absurd (ground (arith, found, again, q))
      | inr fresh ↦
          let (rest, q', shape) =
            then_entry_cases r (walk e rt n m r.hash_curr (h ∷ visited)) rs
              (ground (arith, found, fresh, q)) in
          rw shape (found, walk-IsLinked n m r.hash_curr (h ∷ visited) rest q')
    ]
  ]

  unvisited-le : (m : List RevocationLog) → unvisited [] m ≤ length m
  unvisited-le m = omega (
    arith,
    rowcount-eq-length-select (λ r. not (mem (prev_of e rt r) [])) m,
    length-select-le (λ r. not (mem (prev_of e rt r) [])) m,
  )

  -- The second loop ends: on a map with n entries, fuel for n + 1 rounds is enough, from every hash.
  pub order-walk-Ends :
      (m : List RevocationLog) (h : Bytes) → walk e rt (suc (length m)) m h [] ≢ out_of_fuel
  order-walk-Ends m h = walk-Ends (suc (length m)) m h [] (omega (arith, unvisited-le m))
