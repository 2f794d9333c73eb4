-- ===== src/Audit/Tests.antt =====
-- The theorem on the audit chain, run on a log of one entry.
use crypto_campus.Prelude.{
  select, ◌≡◌, refl, Option, some, [], ◌∷◌, Bytes, Text, length, bytes_eq, select_first, get,
}
use crypto_campus.Crypto.{CryptoEngine}
use crypto_campus.Drop.Samples.{engine, runtime, ones}
use crypto_campus.Action.{ok}
use crypto_campus.Revocation.{genesis_hash, length_prefix, canonical_utc}
use crypto_campus.Audit.{
  AdminAuditEntry, AuditInput, append, verify_chain, get_chain_tail, all_apart,
  encode_admin_audit_entry, entry_of_input, add_entry, check_entry, walk_chain,
}
use crypto_campus.Audit.Append.{append-verify_chain}

-- A digest that tells inputs of different length apart.
abbrev measuring : CryptoEngine
measuring = record engine { sm3_digest = λ b. length b ∷ ones 31 }

abbrev uuid_bytes : Text → Option Bytes
uuid_bytes t = some (ones 16)

abbrev input : Text → AuditInput
input target = record {
  actor_id = [];
  action = [];
  target = target;
  detail_hash = ones 32;
  timestamp = 5;
}

abbrev first : AdminAuditEntry
first = record {
  id = 1;
  actor_id = [];
  action = [];
  target = [];
  detail_hash = ones 32;
  hash_prev = genesis_hash;
  hash_curr = 129 ∷ ones 31;
  timestamp = 5;
}

abbrev second : AdminAuditEntry
second = record {
  id = 2;
  actor_id = [];
  action = [];
  target = ones 1;
  detail_hash = ones 32;
  hash_prev = 129 ∷ ones 31;
  hash_curr = 130 ∷ ones 31;
  timestamp = 5;
}

append-verify_chain_example :
    verify_chain measuring runtime uuid_bytes (first ∷ second ∷ []) ≡ ok (first ∷ second ∷ [])
unfolding genesis_hash length_prefix canonical_utc append verify_chain get_chain_tail all_apart
    encode_admin_audit_entry entry_of_input add_entry check_entry walk_chain bytes_eq select_first
    get select
append-verify_chain_example =
    append-verify_chain measuring runtime uuid_bytes (input (ones 1)) 2 (first ∷ []) (first ∷ [])
      second (first ∷ second ∷ []) refl refl refl
