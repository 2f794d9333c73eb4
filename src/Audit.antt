-- ===== src/Audit.antt =====
-- The hash chain of the administrators' audit: server/app/services/admin_audit.py over the table of
-- models/admin_audit.py.
pub mod Walk
pub mod Chain
pub mod Append
mod Tests
use crypto_campus.Prelude.{
  ℕ, zero, suc, ◌+◌, ◌^◌, Bool, true, false, ◌||◌, not, Option, none, some, List, [], ◌∷◌, ◌++◌,
  Bytes, Text, length, bytes_eq, ◌==◌, if◌then◌else◌, select_first, select, get, is_some,
}
use crypto_campus.Text.{codes}
use crypto_campus.Crypto.{CryptoEngine, Runtime}
use crypto_campus.Action.{Result, ok, err, Action, ◌>>=◌, ◌>>◌, or_raise, raise_if, pure}
use crypto_campus.Revocation.{genesis_hash, length_prefix, canonical_utc}

-- A row of the table; both hashes are unique.
pub record AdminAuditEntry : Type 0 where
  pub id : ℕ
  pub actor_id : Text
  pub action : Text
  pub target : Text
  pub detail_hash : Bytes
  pub hash_prev : Bytes
  pub hash_curr : Bytes
  pub timestamp : ℕ

-- `AuditChainIntegrityError`, the `ValueError` of the encoding, the `IntegrityError` of a unique
-- column, and a walk along the chain that goes on for ever.
pub data AuditError : Type 0 where
  chain_integrity value_error not_unique endless : AuditError

abbrev pub ChainAction : Type 0 → Type 0
ChainAction A = Action (List AdminAuditEntry) AuditError A

-- The arguments of `append`.
pub record AuditInput : Type 0 where
  pub actor_id : Text
  pub action : Text
  pub target : Text
  pub detail_hash : Bytes
  pub timestamp : ℕ

abbrev pub follows : Bytes → AdminAuditEntry → Bool
follows h r = bytes_eq r.hash_prev h

abbrev pub is_followed : List AdminAuditEntry → Bytes → Bool
is_followed es h = is_some (select_first (follows h) es)

-- The entries that no entry follows.
abbrev pub tails : List AdminAuditEntry → List AdminAuditEntry → List AdminAuditEntry
tails all es = select (λ r. not (is_followed all r.hash_curr)) es

abbrev tail_of : List AdminAuditEntry → Result AuditError (Option AdminAuditEntry)
tail_of [] = err chain_integrity
tail_of (r ∷ []) = ok (some r)
tail_of (r ∷ r' ∷ rs) = err chain_integrity

unfoldable pub get_chain_tail : List AdminAuditEntry → Result AuditError (Option AdminAuditEntry)
get_chain_tail [] = ok none
get_chain_tail (r ∷ rs) = tail_of (tails (r ∷ rs) (r ∷ rs))

-- The first loop of `verify_chain`: no two entries have one predecessor.
unfoldable pub all_apart : List AdminAuditEntry → Bool
all_apart [] = true
all_apart (r ∷ rs) = let rest = all_apart rs in if is_followed rs r.hash_prev then false else rest

abbrev pub hash_of_tail : Option AdminAuditEntry → Bytes
hash_of_tail none = genesis_hash
hash_of_tail (some t) = t.hash_curr

-- `uuid_bytes` is `uuid.UUID(..).bytes`, with `none` for a text that is no UUID.
module _ (e : CryptoEngine) (rt : Runtime) (uuid_bytes : Text → Option Bytes) where
  -- `none` is a `ValueError`, or an `OverflowError` of a length.
  unfoldable pub encode_admin_audit_entry : Bytes → AuditInput → Option Bytes
  encode_admin_audit_entry hash_prev a =
      if not (length hash_prev == 32) || not (length a.detail_hash == 32)
      then none
      else elim (uuid_bytes a.actor_id) [
        | none ↦ none
        | some actor ↦ elim (length_prefix (rt.utf8 a.action)) [
          | none ↦ none
          | some action ↦ elim (length_prefix (rt.utf8 a.target)) [
            | none ↦ none
            | some target ↦ elim (length_prefix (rt.utf8 (canonical_utc e rt a.timestamp))) [
              | none ↦ none
              | some ts ↦ some (
                  codes "CryptoCampus-Admin-Audit-v1"
                  ++ (0 ∷ (hash_prev ++ (actor ++ (action ++ (target ++ (a.detail_hash ++ ts)))))))
            ]
          ]
        ]
      ]

  abbrev pub audit_hash : Bytes → AuditInput → Option Bytes
  audit_hash hash_prev a = elim (encode_admin_audit_entry hash_prev a) [
    | none ↦ none
    | some b ↦ some (e.sm3_digest b)
  ]

  unfoldable pub entry_of_input : ℕ → AuditInput → Bytes → Bytes → AdminAuditEntry
  entry_of_input id a hash_prev hash_curr = record {
    id = id;
    actor_id = a.actor_id;
    action = a.action;
    target = a.target;
    detail_hash = a.detail_hash;
    hash_prev = hash_prev;
    hash_curr = hash_curr;
    timestamp = a.timestamp;
  }

  -- `session.add` and `flush`.
  unfoldable pub add_entry : AdminAuditEntry → ChainAction AdminAuditEntry
  add_entry r es =
      if is_some (get (λ (x : AdminAuditEntry). x.id) r.id es)
        || (is_followed es r.hash_prev
            || is_some
                (select_first (λ (x : AdminAuditEntry). bytes_eq x.hash_curr r.hash_curr) es))
      then (err not_unique, es)
      else (ok r, es ++ r ∷ [])

  -- `append`, with the key of the new row.
  unfoldable pub append : AuditInput → ℕ → ChainAction AdminAuditEntry
  unfolding entry_of_input add_entry
  append a id = do
    tail ← λ es. (get_chain_tail es, es)
    hash_curr ← or_raise (audit_hash (hash_of_tail tail) a) value_error
    add_entry (entry_of_input id a (hash_of_tail tail) hash_curr)

  abbrev pub input_of : AdminAuditEntry → AuditInput
  input_of r = record {
    actor_id = r.actor_id;
    action = r.action;
    target = r.target;
    detail_hash = r.detail_hash;
    timestamp = r.timestamp;
  }

  -- What the second loop asks of the entry that it finds.
  unfoldable pub check_entry : Bytes → AdminAuditEntry → Result AuditError (Unit {0})
  check_entry h r = elim (audit_hash h (input_of r)) [
    | none ↦ err value_error
    | some expected ↦ if bytes_eq r.hash_curr expected then ok tt else err chain_integrity
  ]

  -- The second loop. There is fuel for one round more than there are entries: a walk that is not over
  -- then has met an entry twice, and the code would go round for ever.
  unfoldable pub walk_chain :
      ℕ → List AdminAuditEntry → Bytes → Result AuditError (List AdminAuditEntry)
  unfolding check_entry
  walk_chain zero es h = err endless
  walk_chain (suc n) es h = elim (select_first (follows h) es) [
    | none ↦ ok []
    | some r ↦ elim (check_entry h r) [
      | err x ↦ err x
      | ok done ↦ elim (walk_chain n es r.hash_curr) [ err x ↦ err x | ok rest ↦ ok (r ∷ rest) ]
    ]
  ]

  unfoldable pub verify_chain : List AdminAuditEntry → Result AuditError (List AdminAuditEntry)
  unfolding walk_chain all_apart
  verify_chain [] = ok []
  verify_chain (r ∷ rs) =
      if not (all_apart (r ∷ rs))
      then err chain_integrity
      else if not (is_followed (r ∷ rs) genesis_hash)
      then err chain_integrity
      else elim (walk_chain (length (r ∷ rs) + 1) (r ∷ rs) genesis_hash) [
        | err x ↦ err x
        | ok ordered ↦ if length ordered == length (r ∷ rs) then ok ordered else err chain_integrity
      ]
