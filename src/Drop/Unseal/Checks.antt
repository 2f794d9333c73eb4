-- ===== src/Drop/Unseal/Checks.antt =====
-- What the steps before the seal is opened have found: steps 4 to 7 of `extract_drop` of
-- server/app/services/drop.py.
use crypto_campus.Prelude.{
  ◌≡◌, refl, ◌≤◌, Bool, true, false, Option, none, some, Bytes, Text, arith, Option-cases,
  Bool-cases, inl, inr, length, get, between,
}
use crypto_campus.Text.{codes}
use crypto_campus.Crypto.{CryptoEngine, Runtime, EnvelopeArtifact}
use crypto_campus.Drop.Rows.{Drop}
use crypto_campus.Drop.State.{Db, ok}
use crypto_campus.Drop.Services.{Collaborators, sized}
use crypto_campus.Drop.Lookup.{ExtractRequest}
use crypto_campus.Drop.Unseal.{
  Parts, derive_factor, check_envelope, pqc_private_key, recipient_keys, is_active_user,
}

-- The second wrapped key and the fingerprint of its recipient, in the mode that needs them.
abbrev HasPqcParts : Bool → Option Bytes → Option Bytes → Type 0
HasPqcParts true key fingerprint =
    ((k : Bytes) × (key ≡ some k) × (length k ≡ 1088))
    × (f : Bytes) × (fingerprint ≡ some f)
    × (length f ≡ 32)
HasPqcParts false key fingerprint = key ≡ none

-- The artifact is made of the row's columns, of the sizes and the version that the code accepts.
pub record HasParts (d : Drop) (a : EnvelopeArtifact) : Type 0 where
  pub version : d.envelope_version ≡ 1
  pub nonce : d.nonce ≡ some a.nonce
  pub nonce_size : length a.nonce ≡ 12
  pub tag : d.tag ≡ some a.tag
  pub tag_size : length a.tag ≡ 16
  pub enc_key_sm2 : d.enc_key_sm2 ≡ some a.enc_key_sm2
  pub enc_key_some : 1 ≤ length a.enc_key_sm2
  pub enc_key_bounded : length a.enc_key_sm2 ≤ 512
  pub signature : d.sender_signature ≡ some a.sender_signature
  pub signature_size : length a.sender_signature ≡ 64
  pub certificate : d.sender_certificate_der ≡ some a.sender_certificate
  pub certificate_some : 1 ≤ length a.sender_certificate
  pub certificate_bounded : length a.sender_certificate ≤ 65536
  pub enc_key_mlkem : a.enc_key_mlkem ≡ d.enc_key_mlkem
  pub pqc : HasPqcParts d.pqc_mode d.enc_key_mlkem d.recipient_mlkem_fingerprint

-- The artifact of the row `d` with the checked parts and a ciphertext.
abbrev pub assembled : Drop → Parts → Bytes → EnvelopeArtifact
assembled d p ciphertext = record {
  ciphertext = ciphertext;
  nonce = p.nonce;
  tag = p.tag;
  enc_key_sm2 = p.enc_key_sm2;
  enc_key_mlkem = d.enc_key_mlkem;
  sender_signature = p.sender_signature;
  sender_certificate = p.sender_certificate_der;
}

module _ (e : CryptoEngine) (rt : Runtime) (sv : Collaborators) (r : ExtractRequest)
    (d : Drop) where
  -- The factor of the access password: none for a drop without a salt, else what the derivation
  -- makes of the password, which must be there, and of the salt.
  abbrev pub IsFactor : Option Bytes → Option Bytes → Type 0
  IsFactor none factor = factor ≡ none
  IsFactor (some salt) factor =
      (p : Text) × (k : Bytes) × (r.access_password ≡ some p)
      × (between 1 128 (length p) ≡ true)
      × (e.hkdf_sm3 (rt.utf8 p) salt (codes "drop-access-factor") 32 ≡ some k)
      × (factor ≡ some k)

  -- The unlocked key of the second scheme: none outside PQC mode, else the one for the row's
  -- fingerprint.
  abbrev pub IsPqcKey : Bool → Option Bytes → Type 0
  IsPqcKey true key =
      (f : Bytes) × (k : Bytes) × (d.recipient_mlkem_fingerprint ≡ some f)
      × (sized 2400 (sv.get_unlocked_private_key d.recipient_user_id f r.now) ≡ some k)
      × (key ≡ some k)
  IsPqcKey false key = key ≡ none

  module _ (s : Db) where
    pub derive_factor_ok :
        (factor : Option Bytes)
        → (derive_factor e rt sv r d s).0 ≡ ok factor
        → IsFactor d.access_factor_salt factor
    unfolding derive_factor
    derive_factor_ok factor h = elim (Option-cases d.access_factor_salt) [
      | inl without ↦ rw without (ground (arith, h, without))
      | inr (salt, with_salt) ↦ elim (Option-cases r.access_password) [
        | inl missing ↦ absurd (ground (arith, h, with_salt, missing))
        | inr (p, given) ↦
            elim (Option-cases (e.hkdf_sm3 (rt.utf8 p) salt (codes "drop-access-factor") 32)) [
              | inl failed ↦ absurd (ground (arith, h, with_salt, given, failed))
              | inr (k, derived) ↦ rw with_salt (
                p,
                k,
                given,
                ground (arith, h, with_salt, given),
                derived,
                ground (arith, h, with_salt, given, derived),
              )
            ]
      ]
    ]

    check_pqc_ok :
        (p : Parts)
        → (check_envelope e rt sv d s).0 ≡ ok p
        → HasPqcParts d.pqc_mode d.enc_key_mlkem d.recipient_mlkem_fingerprint
    unfolding check_envelope
    check_pqc_ok p h = elim (Bool-cases d.pqc_mode) [
      | inr plain ↦ rw plain (ground (arith, h, plain))
      | inl mode ↦ elim (Option-cases d.enc_key_mlkem) [
        | inl missing ↦ absurd (ground (arith, h, mode, missing))
        | inr (k, key) ↦ elim (Option-cases d.recipient_mlkem_fingerprint) [
          | inl missing ↦ absurd (ground (arith, h, mode, key, missing))
          | inr (f, fingerprint) ↦ rw mode (
            (k, key, ground (arith, h, mode, key)),
            f,
            fingerprint,
            ground (arith, h, mode, key, fingerprint),
          )
        ]
      ]
    ]

    pub check_envelope_ok :
        (p : Parts) (ciphertext : Bytes)
        → (check_envelope e rt sv d s).0 ≡ ok p
        → HasParts d (assembled d p ciphertext)
    unfolding check_envelope
    check_envelope_ok p ciphertext h = record {
      version = ground arith;
      nonce = ground arith;
      nonce_size = ground arith;
      tag = ground arith;
      tag_size = ground arith;
      enc_key_sm2 = ground arith;
      enc_key_some = ground arith;
      enc_key_bounded = ground arith;
      signature = ground arith;
      signature_size = ground arith;
      certificate = ground arith;
      certificate_some = ground arith;
      certificate_bounded = ground arith;
      enc_key_mlkem = refl;
      pqc = check_pqc_ok p h;
    }

    pqc_private_key_ok :
        (key : Option Bytes) → (pqc_private_key e rt sv r d s).0 ≡ ok key → IsPqcKey d.pqc_mode key
    unfolding pqc_private_key
    pqc_private_key_ok key h = elim (Bool-cases d.pqc_mode) [
      | inr plain ↦ rw plain (ground (arith, h, plain))
      | inl mode ↦ elim (Option-cases d.recipient_mlkem_fingerprint) [
        | inl missing ↦ absurd (ground (arith, h, mode, missing))
        | inr (f, fingerprint) ↦
            let unlocked = sized 2400 (sv.get_unlocked_private_key d.recipient_user_id f r.now) in
            elim (Option-cases unlocked) [
              | inl locked ↦ absurd (ground (arith, h, mode, fingerprint, locked))
              | inr (k, found) ↦
                  rw mode (f, k, fingerprint, found, ground (arith, h, mode, fingerprint, found))
            ]
      ]
    ]

    pub recipient_keys_ok :
        (keys : Bytes × Option Bytes)
        → (recipient_keys e rt sv r d s).0 ≡ ok keys
        → (is_active_user e rt sv (get (λ u. u.id) d.recipient_user_id s.users) ≡ true)
          × (sized 32
                (sv.get_unlocked_private_key d.recipient_user_id d.recipient_sm2_fingerprint r.now)
              ≡ some keys.0)
          × IsPqcKey d.pqc_mode keys.1
    unfolding recipient_keys
    recipient_keys_ok keys h =
        (ground arith, ground arith, pqc_private_key_ok keys.1 (ground arith))
