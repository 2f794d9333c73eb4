-- ===== src/Revocation/Tests.antt =====
-- The theorems on the revocation log, run on one row.
use crypto_campus.Prelude.{
  suc, ◌*◌, ◌≡◌, ◌≢◌, refl, some, List, [], ◌∷◌, map, take, length, arith, bytes_eq, select_first,
}
use crypto_campus.Crypto.{CryptoEngine}
use crypto_campus.Drop.Samples.{engine, runtime, ones}
use crypto_campus.Revocation.{
  RevocationLog, genesis_hash, is_well_formed, collect, walk, out_of_fuel, is_digested,
  all_digested, calculate_revocation_hash, encode_revocation_entry, normalize_reason, mem,
  order_and_verify_chain, entry_of,
}
use crypto_campus.Revocation.Walk.{order-walk-Ends}
use crypto_campus.Revocation.Integrity.{IsChain, order_and_verify_chain-IsChain}
use crypto_campus.Revocation.Pages.{first_pages, first_pages-take}

-- Every input has the digest of 32 ones.
abbrev flat : CryptoEngine
flat = record engine { sm3_digest = λ b. ones 32 }

abbrev log : List RevocationLog
log =
    record {
      hash_prev = some genesis_hash;
      hash_curr = ones 32;
      sn = ones 16;
      reason = ones 5;
      ts = 0;
    }
    ∷ []

accepts : order_and_verify_chain flat runtime log ≡ some log
unfolding order_and_verify_chain collect is_well_formed genesis_hash bytes_eq select_first walk mem
    all_digested is_digested calculate_revocation_hash encode_revocation_entry normalize_reason
accepts = refl

order-walk-Ends_example : walk flat runtime (suc (length log)) log genesis_hash [] ≢ out_of_fuel
order-walk-Ends_example = order-walk-Ends flat runtime log genesis_hash

order_and_verify_chain-IsChain_example :
    IsChain flat runtime log genesis_hash log × (length log ≡ length log)
order_and_verify_chain-IsChain_example = order_and_verify_chain-IsChain flat runtime log log accepts

first_pages-take_example :
    first_pages flat runtime 20 log 1 ≡ map (entry_of flat runtime) (take (1 * 20) log)
first_pages-take_example =
    first_pages-take flat runtime 20 log log 1 accepts (omega arith) (omega arith)
