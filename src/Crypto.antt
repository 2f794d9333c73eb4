-- ===== src/Crypto.antt =====
-- What the services take from outside: the operations of the `CryptoEngine` protocol
-- (server/app/crypto/engine.py), which is implemented over openHiTLS, and Python's text functions.
use crypto_campus.Prelude.{ℕ, ◌≡◌, Bool, Option, Bytes, Text, bytes_eq}

-- The sealed envelope (`EnvelopeArtifact` of crypto/types.py).
pub record EnvelopeArtifact : Type 0 where
  pub ciphertext : Bytes
  pub nonce : Bytes
  pub tag : Bytes
  pub enc_key_sm2 : Bytes
  pub enc_key_mlkem : Option Bytes
  pub sender_signature : Bytes
  pub sender_certificate : Bytes

-- The arguments of `envelope_open` beside the envelope.
pub record OpenKeys : Type 0 where
  pub recipient_sm2_private_key : Bytes
  pub pqc_mode : Bool
  pub recipient_mlkem_private_key : Option Bytes
  pub access_factor : Option Bytes

-- The arguments of `envelope_seal`.
pub record SealRequest : Type 0 where
  pub plaintext : Bytes
  pub recipient_sm2_public_key : Bytes
  pub pqc_mode : Bool
  pub recipient_mlkem_public_key : Option Bytes
  pub sender_private_key : Bytes
  pub sender_certificate_der : Bytes
  pub access_factor : Option Bytes

-- `none` is a `CryptoBridgeError`. The digest and the comparison are taken not to fail.
pub record CryptoEngine : Type 0 where
  pub sm3_digest : Bytes → Bytes
  pub constant_time_equal : Bytes → Bytes → Bool
  pub hkdf_sm3 : Bytes → Bytes → Bytes → ℕ → Option Bytes
  pub sm2_verify : Bytes → Bytes → Bytes → Option Bool
  pub sm3_hash_password : Bytes → Bytes → Option Bytes
  pub sm4_gcm_decrypt : Bytes → Bytes → Bytes → Bytes → Bytes → Option Bytes
  pub envelope_seal : SealRequest → Option EnvelopeArtifact
  pub envelope_open : EnvelopeArtifact → OpenKeys → Option Bytes

-- The documented result of the comparison.
abbrev pub ComparesBytes : CryptoEngine → Type 0
ComparesBytes e = (a b : Bytes) → e.constant_time_equal a b ≡ bytes_eq a b

-- No two of the inputs have one digest.
abbrev pub IsCollisionFree : CryptoEngine → Type 0
IsCollisionFree e = (a b : Bytes) → e.sm3_digest a ≡ e.sm3_digest b → a ≡ b

-- `str.encode("utf-8")`, `bytes.decode("utf-8")`, `bytes.hex`, `str(uuid)`, `str(int)`, `str.strip`,
-- `os.path.basename`, `datetime.isoformat`, `date.isoformat`, `strftime('%Y-%m-%dT%H:%M:%S')` in UTC, and
-- `base64.b64encode`, `str.lower`, and
-- whether a character matches `\s`.
pub record Runtime : Type 0 where
  pub utf8 : Text → Bytes
  pub from_utf8 : Bytes → Option Text
  pub hex : Bytes → Text
  pub id_text : ℕ → Text
  pub nat_text : ℕ → Text
  pub isoformat : ℕ → Text
  pub isodate : ℕ → Text
  pub strip : Text → Text
  pub basename : Text → Text
  pub strftime : ℕ → Text
  pub base64 : Bytes → Text
  pub lower : Text → Text
  pub is_space : ℕ → Bool
