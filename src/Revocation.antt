-- ===== src/Revocation.antt =====
-- The hash chain of the revocation log: server/app/services/revocation_log.py.
pub mod Walk
pub mod Integrity
pub mod Pages
mod Tests
use crypto_campus.Prelude.{
  ℕ, zero, suc, ◌+◌, ◌-◌, ◌*◌, ◌/◌, ◌%◌, Bool, true, false, ◌&&◌, ◌||◌, not, Option, none, some,
  List, [], ◌∷◌, ◌++◌, map, Bytes, Text, length, take, drop, bytes_eq, ◌==◌, ltb, leb, between,
  if◌then◌else◌, select_first, is_some, ◌^◌,
}
use crypto_campus.Text.{codes}
use crypto_campus.Crypto.{CryptoEngine, Runtime}

-- A row of the log; `ts` in microseconds.
pub record RevocationLog : Type 0 where
  pub hash_prev : Option Bytes
  pub hash_curr : Bytes
  pub sn : Bytes
  pub reason : Text
  pub ts : ℕ

zeros : ℕ → Bytes
zeros zero = []
zeros (suc n) = 0 ∷ zeros n

-- `GENESIS_HASH`
unfoldable pub genesis_hash : Bytes
unfolding zeros
genesis_hash = zeros 32

-- `REVOCATION_DOMAIN`
revocation_domain : Bytes
revocation_domain = codes "CryptoCampus-Hole-Revocation-v1" ++ 0 ∷ []

-- `{microsecond:06d}`
six_digits : ℕ → Text
six_digits n =
    (48 + (n / 100000) % 10)
    ∷ (48 + (n / 10000) % 10)
    ∷ (48 + (n / 1000) % 10)
    ∷ (48 + (n / 100) % 10)
    ∷ (48 + (n / 10) % 10)
    ∷ (48 + n % 10)
    ∷ []

-- The length in four bytes, big-endian; an `OverflowError` beyond.
unfoldable pub length_prefix : Bytes → Option Bytes
length_prefix value =
    let n = length value in
    if ltb n (2 ^ 32)
    then some ((n / 2 ^ 24) ∷ ((n / 2 ^ 16) % 256) ∷ ((n / 2 ^ 8) % 256) ∷ (n % 256) ∷ value)
    else none

join3 : Option Bytes → Option Bytes → Option Bytes → Option Bytes
join3 (some a) (some b) (some c) = some (a ++ (b ++ c))
join3 _ _ _ = none

pub mem : Bytes → List Bytes → Bool
mem a [] = false
mem a (b ∷ bs) = bytes_eq a b || mem a bs

module _ (e : CryptoEngine) (rt : Runtime) where
  unfoldable pub canonical_utc : ℕ → Text
  unfolding six_digits
  canonical_utc ts = rt.strftime ts ++ (codes "." ++ (six_digits (ts % 1000000) ++ codes "Z"))

  -- `none` is the `ValueError`.
  pub normalize_reason : Text → Option Text
  normalize_reason value =
      if between 1 500 (length (rt.strip value)) then some (rt.strip value) else none

  -- `none` is any exception.
  pub encode_revocation_entry : Bytes → Bytes → Text → ℕ → Option Bytes
  unfolding normalize_reason length_prefix canonical_utc join3 revocation_domain
  encode_revocation_entry hash_prev sn reason ts =
      if not (length hash_prev == 32) || ltb (length sn) 16
      then none
      else elim (normalize_reason reason) [
        | none ↦ none
        | some text ↦
            elim (join3 (length_prefix sn) (length_prefix (rt.utf8 text))
              (length_prefix (rt.utf8 (canonical_utc ts)))) [
                | none ↦ none
                | some parts ↦ some (revocation_domain ++ (hash_prev ++ parts))
              ]
      ]

  pub calculate_revocation_hash : Bytes → Bytes → Text → ℕ → Option Bytes
  unfolding encode_revocation_entry
  calculate_revocation_hash hash_prev sn reason ts =
      elim (encode_revocation_entry hash_prev sn reason ts) [
        | none ↦ none
        | some encoded ↦ some (e.sm3_digest encoded)
      ]

  -- The key of an entry in `prev_map`; a missing one is refused beforehand.
  abbrev pub prev_of : RevocationLog → Bytes
  prev_of r = elim r.hash_prev [ none ↦ [] | some p ↦ p ]

  -- The checks of the first loop on one entry.
  pub is_well_formed : RevocationLog → Bool
  unfolding genesis_hash
  is_well_formed r =
      length r.hash_curr == 32
      && (is_some r.hash_prev
          && (length (prev_of r) == 32
              && (not (bytes_eq r.hash_curr (prev_of r))
                  && (not (bytes_eq r.hash_curr genesis_hash)
                      && (leb 16 (length r.sn)
                          && (bytes_eq r.reason (rt.strip r.reason)
                              && between 1 500 (length r.reason)))))))

  abbrev pub by_prev : Bytes → List RevocationLog → Option RevocationLog
  by_prev h m = select_first (λ r. bytes_eq (prev_of r) h) m

  -- The first loop, with `curr_set` and `prev_map` (the entries, by the key that each of them has).
  pub collect : List RevocationLog → List Bytes → List RevocationLog → Option (List RevocationLog)
  unfolding is_well_formed mem
  collect [] curr_set prev_map = some prev_map
  collect (r ∷ rs) curr_set prev_map =
      let rest = collect rs (r.hash_curr ∷ curr_set) (prev_map ++ r ∷ []) in
      if is_well_formed r
        && (not (mem r.hash_curr curr_set) && not (is_some (by_prev (prev_of r) prev_map)))
      then rest
      else none

  -- How the second loop ends.
  pub data Walked : Type 0 where
    out_of_fuel cycle : Walked
    ordered : List RevocationLog → Walked

  then_entry : RevocationLog → Walked → Walked
  then_entry r out_of_fuel = out_of_fuel
  then_entry r cycle = cycle
  then_entry r (ordered rs) = ordered (r ∷ rs)

  -- The second loop, on fuel.
  pub walk : ℕ → List RevocationLog → Bytes → List Bytes → Walked
  unfolding then_entry mem
  walk zero prev_map curr_hash visited = out_of_fuel
  walk (suc n) prev_map curr_hash visited = elim (by_prev curr_hash prev_map) [
    | none ↦ ordered []
    | some r ↦
        if mem curr_hash visited
        then cycle
        else then_entry r (walk n prev_map r.hash_curr (curr_hash ∷ visited))
  ]

  -- The third loop: each stored hash is the digest of its entry.
  pub is_digested : RevocationLog → Bool
  unfolding calculate_revocation_hash
  is_digested r = elim (calculate_revocation_hash (prev_of r) r.sn r.reason r.ts) [
    | none ↦ false
    | some h ↦ bytes_eq h r.hash_curr
  ]

  pub all_digested : List RevocationLog → Bool
  unfolding is_digested
  all_digested [] = true
  all_digested (r ∷ rs) = is_digested r && all_digested rs

  pub order_and_verify_chain : List RevocationLog → Option (List RevocationLog)
  unfolding collect walk all_digested genesis_hash
  order_and_verify_chain [] = some []
  order_and_verify_chain (r ∷ rs) = elim (collect (r ∷ rs) [] []) [
    | none ↦ none
    | some prev_map ↦
        if is_some (by_prev genesis_hash prev_map)
        then (elim (walk (suc (length prev_map)) prev_map genesis_hash []) [
          | out_of_fuel ↦ none
          | cycle ↦ none
          | ordered found ↦
              if length found == length (r ∷ rs) && all_digested found then some found else none
        ])
        else none
  ]

  pub verify_entries : List RevocationLog → Bool
  unfolding order_and_verify_chain
  verify_entries rows = is_some (order_and_verify_chain rows)

-- `RevocationEntry`
pub record RevocationEntry : Type 0 where
  pub sn : Text
  pub reason : Text
  pub hash_prev : Text
  pub hash_curr : Text
  pub timestamp : ℕ

pub record RevocationPage : Type 0 where
  pub items : List RevocationEntry
  pub page : ℕ
  pub page_size : ℕ
  pub total : ℕ

-- The codes of `RevocationLogServiceError`.
pub data Listing : Type 0 where
  invalid_param chain_corrupted : Listing
  listed : RevocationPage → Listing

module _ (e : CryptoEngine) (rt : Runtime) where
  pub entry_of : RevocationLog → RevocationEntry
  unfolding genesis_hash
  entry_of r = record {
    sn = rt.hex r.sn;
    reason = r.reason;
    hash_prev = elim r.hash_prev [ none ↦ rt.base64 genesis_hash | some p ↦ rt.base64 p ];
    hash_curr = rt.base64 r.hash_curr;
    timestamp = r.ts;
  }

  -- `RevocationLogService.list_entries`, on the rows of the table.
  pub list_entries : ℕ → ℕ → List RevocationLog → Listing
  unfolding order_and_verify_chain entry_of
  list_entries page page_size rows =
      if ltb page 1 || (ltb page_size 1 || ltb 100 page_size)
      then invalid_param
      else elim (order_and_verify_chain e rt rows) [
        | none ↦ chain_corrupted
        | some chain ↦
            let offset = (page - 1) * page_size in
            listed (record {
              items =
                  if ltb offset (length chain)
                  then map entry_of (take page_size (drop offset chain))
                  else [];
              page = page;
              page_size = page_size;
              total = length chain;
            })
      ]
