-- ===== src/Drop/Services.antt =====
-- What `DropService` is built from beside the database (server/app/services/drop.py): the injected
-- collaborators, and the recipient resolver of services/recipient_resolver.py.
use crypto_campus.Prelude.{
  ℕ, Bool, Option, none, some, Bytes, List, length, ◌==◌, if◌then◌else◌, get,
}
use crypto_campus.Models.{User, is_active}
use crypto_campus.Crypto.{CryptoEngine}

-- `ResolvedRecipient`
pub record ResolvedRecipient : Type 0 where
  pub recipient_user_id : ℕ
  pub sm2_public_key : Bytes
  pub mlkem_public_key : Option Bytes
  pub sm2_fingerprint : Bytes
  pub mlkem_fingerprint : Option Bytes

-- The private-key cache, the recipient's key provider and the certificate service, as the drop
-- service calls them: the user (or the fingerprint, or the certificate) and the instant.
pub record Collaborators : Type 0 where
  pub cached_key : ℕ → ℕ → Option Bytes
  pub resolve_for_create : List User → ℕ → Bool → Option ResolvedRecipient
  pub get_unlocked_private_key : ℕ → Bytes → ℕ → Option Bytes
  pub verify_certificate : Bytes → ℕ → Bool

-- MLKEM_PUBLIC_KEY_SIZE and SM2_PUBLIC_KEY_SIZE of crypto/types.py.
abbrev pub mlkem_public_key_size : ℕ
mlkem_public_key_size = 1184

abbrev pub sm2_public_key_size : ℕ
sm2_public_key_size = 65

-- A stored key of the given length; NULL and the empty string are not.
abbrev pub sized : ℕ → Option Bytes → Option Bytes
sized n none = none
sized n (some k) = if length k == n then some k else none

-- `ConfiguredRecipientKeyResolver.resolve_for_create`
pub resolve_configured : CryptoEngine → ℕ → List User → ℕ → Bool → Option ResolvedRecipient
resolve_configured e target users sender pqc_mode = elim (get (λ u. u.id) target users) [
  | none ↦ none
  | some u ↦
      if is_active u.status
      then elim (sized sm2_public_key_size u.pubkey) [
        | none ↦ none
        | some key ↦
            if pqc_mode
            then elim (sized mlkem_public_key_size u.pqc_pubkey) [
              | none ↦ none
              | some pqc ↦ some (record {
                recipient_user_id = u.id;
                sm2_public_key = key;
                mlkem_public_key = some pqc;
                sm2_fingerprint = e.sm3_digest key;
                mlkem_fingerprint = some (e.sm3_digest pqc);
              })
            ]
            else some (record {
              recipient_user_id = u.id;
              sm2_public_key = key;
              mlkem_public_key = none;
              sm2_fingerprint = e.sm3_digest key;
              mlkem_fingerprint = none;
            })
      ]
      else none
]
