-- ===== src/Drop/Unseal/Soundness.antt =====
-- Unsealing writes nothing, and a plaintext comes out only past every check.
use crypto_campus.Prelude.{
  ◌≡◌, sym, ap, ◌∙◌, ◌≤◌, true, Option, none, some, [], ◌∷◌, Bytes, arith, Option-cases, inl, inr,
  length, get,
}
use mathlib.Core.Path.{subst}
use crypto_campus.Crypto.{CryptoEngine, Runtime, EnvelopeArtifact}
use crypto_campus.Drop.Rows.{Drop}
use crypto_campus.Drop.State.{Db, DropError, Result, ok, ◌>>=◌}
use crypto_campus.Drop.Actions.{ReadOnly, bind_ok, read_only}
use crypto_campus.Drop.Services.{Collaborators, sized}
use crypto_campus.Drop.Requests.{max_drop_content_size}
use crypto_campus.Drop.Lookup.{ExtractRequest}
use crypto_campus.Drop.Unseal.Checks.{
  HasParts, assembled, IsFactor, IsPqcKey, derive_factor_ok, check_envelope_ok, recipient_keys_ok,
}
use crypto_campus.Drop.Unseal.{
  Parts, derive_factor, check_envelope, pqc_private_key, recipient_keys, verify_sender,
  open_envelope, unseal, nonempty, is_active_user, public_key_of,
}

module _ (e : CryptoEngine) (rt : Runtime) (sv : Collaborators) (r : ExtractRequest)
    (d : Drop) where
  nonempty-ReadOnly : (o : Option Bytes) (x : DropError) → ReadOnly (nonempty o x)
  nonempty-ReadOnly none x = search read_only
  nonempty-ReadOnly (some []) x = search read_only
  nonempty-ReadOnly (some (b ∷ bs)) x = search read_only

  check_envelope-ReadOnly : ReadOnly (check_envelope e rt sv d)
  unfolding check_envelope
  check_envelope-ReadOnly = search (read_only, nonempty-ReadOnly) depth 40

  derive_factor-ReadOnly : ReadOnly (derive_factor e rt sv r d)
  derive_factor-ReadOnly = record { same = λ s. same s }
    where
      same : (s : Db) → (derive_factor e rt sv r d s).1 ≡ s
      same s = unfold derive_factor in ground arith

  pqc_private_key-ReadOnly : ReadOnly (pqc_private_key e rt sv r d)
  pqc_private_key-ReadOnly = record { same = λ s. unfold pqc_private_key in ground arith }

  recipient_keys-ReadOnly : ReadOnly (recipient_keys e rt sv r d)
  unfolding recipient_keys
  recipient_keys-ReadOnly = search (read_only, pqc_private_key-ReadOnly) depth 20

  verify_sender-ReadOnly : (a : Parts) → ReadOnly (verify_sender e rt sv r d a)
  unfolding verify_sender
  verify_sender-ReadOnly a = search read_only depth 30

  open_envelope-ReadOnly :
      (a : EnvelopeArtifact) (keys : Bytes × Option Bytes) (factor : Option Bytes)
      → ReadOnly (open_envelope e rt sv d a keys factor)
  unfolding open_envelope
  open_envelope-ReadOnly a keys factor = search read_only depth 20

  -- Steps 4 to 10 of an extraction write nothing, whether they succeed or not.
  pub unseal-ReadOnly : ReadOnly (unseal e rt sv r d)
  unfolding unseal
  unseal-ReadOnly =
      search
        (
          read_only, derive_factor-ReadOnly, check_envelope-ReadOnly, recipient_keys-ReadOnly,
          verify_sender-ReadOnly, open_envelope-ReadOnly,
        )
        depth 20

  -- The sender is verified: a valid certificate, and a signature by the sender's stored key over the
  -- ciphertext of the row.
  pub record IsVerified (s : Db) (a : EnvelopeArtifact) : Type 0 where
    pub ciphertext : d.ciphertext ≡ some a.ciphertext
    pub certificate : sv.verify_certificate a.sender_certificate r.now ≡ true
    pub key : Bytes
    pub stored : public_key_of e rt sv (get (λ u. u.id) d.owner_user_id s.users) ≡ some key
    pub signed : e.sm2_verify key (e.sm3_digest a.ciphertext) a.sender_signature ≡ some true

  verify_sender_ok :
      (s : Db) (p : Parts) (a : EnvelopeArtifact)
      → (verify_sender e rt sv r d p s).0 ≡ ok a
      → IsVerified s a × (a ≡ assembled d p a.ciphertext)
  unfolding verify_sender
  verify_sender_ok s p a h =
      elim (Option-cases (public_key_of e rt sv (get (λ u. u.id) d.owner_user_id s.users))) [
        | inl missing ↦ absurd (ground arith)
        | inr (key, stored) ↦ (
          record {
            ciphertext = ground arith;
            certificate = ground arith;
            key = key;
            stored = stored;
            signed = ground arith;
          },
          ground arith,
        )
      ]

  open_envelope_ok :
      (s : Db) (a : EnvelopeArtifact) (keys : Bytes × Option Bytes) (factor : Option Bytes)
      (out : Bytes)
      → (open_envelope e rt sv d a keys factor s).0 ≡ ok out
      → (e.envelope_open a (record {
        recipient_sm2_private_key = keys.0;
        pqc_mode = d.pqc_mode;
        recipient_mlkem_private_key = keys.1;
        access_factor = factor;
      })
          ≡ some out)
        × (1 ≤ length out)
        × (length out ≤ max_drop_content_size)
  unfolding open_envelope
  open_envelope_ok s a keys factor out h = ground arith

  -- What a plaintext that comes out of steps 4 to 10 rests on.
  pub record IsUnsealed (s : Db) (plaintext : Bytes) : Type 0 where
    pub artifact : EnvelopeArtifact
    pub parts : HasParts d artifact
    pub verified : IsVerified s artifact
    pub recipient : is_active_user e rt sv (get (λ u. u.id) d.recipient_user_id s.users) ≡ true
    pub factor : Option Bytes
    pub derived : IsFactor e rt sv r d d.access_factor_salt factor
    pub key : Bytes
    pub unlocked :
        sized 32 (sv.get_unlocked_private_key d.recipient_user_id d.recipient_sm2_fingerprint r.now)
        ≡ some key
    pub pqc_key : Option Bytes
    pub pqc_unlocked : IsPqcKey e rt sv r d d.pqc_mode pqc_key
    pub opened :
        e.envelope_open artifact (record {
          recipient_sm2_private_key = key;
          pqc_mode = d.pqc_mode;
          recipient_mlkem_private_key = pqc_key;
          access_factor = factor;
        })
        ≡ some plaintext
    pub some_bytes : 1 ≤ length plaintext
    pub bounded : length plaintext ≤ max_drop_content_size

  -- A plaintext comes out only for an active recipient and, from a row with a salt, for a password of
  -- an admitted length. The engine's `envelope_open` has made it from the row's columns, which have
  -- the version and the sizes that the code accepts, with the recipient's unlocked keys (two in PQC
  -- mode) and the factor derived from that password and the salt, or none for a row without a salt.
  -- The certificate is valid, the signature verifies under the stored key of the owner over the
  -- ciphertext, and the plaintext is not empty and not over the limit.
  pub unseal_sound :
      (s : Db) (plaintext : Bytes)
      → (unseal e rt sv r d s).0 ≡ ok plaintext
      → IsUnsealed s plaintext
  unfolding unseal
  unseal_sound s plaintext h =
      let f4 = λ (factor : Option Bytes) (keys : Bytes × Option Bytes) (a : EnvelopeArtifact).
        open_envelope e rt sv d a keys factor in
      let f3 = λ (factor : Option Bytes) (p : Parts) (keys : Bytes × Option Bytes).
        verify_sender e rt sv r d p >>= f4 factor keys in
      let f2 = λ (factor : Option Bytes) (p : Parts). recipient_keys e rt sv r d >>= f3 factor p in
      let f1 = λ (factor : Option Bytes). check_envelope e rt sv d >>= f2 factor in
      let (factor, e1, h1, _) = bind_ok (derive_factor e rt sv r d) f1 s plaintext h in
      let s1 = (derive_factor e rt sv r d s).1 in
      let (p, e2, h2, _) = bind_ok (check_envelope e rt sv d) (f2 factor) s1 plaintext h1 in
      let s2 = (check_envelope e rt sv d s1).1 in
      let (keys, e3, h3, _) = bind_ok (recipient_keys e rt sv r d) (f3 factor p) s2 plaintext h2 in
      let s3 = (recipient_keys e rt sv r d s2).1 in
      let (a, e4, h4, _) = bind_ok (verify_sender e rt sv r d p) (f4 factor keys) s3 plaintext h3 in
      let same : s3 ≡ s =
        recipient_keys-ReadOnly.same s2
        ∙ check_envelope-ReadOnly.same s1
        ∙ derive_factor-ReadOnly.same s in
      let same2 : s2 ≡ s = check_envelope-ReadOnly.same s1 ∙ derive_factor-ReadOnly.same s in
      let derived =
        derive_factor_ok e rt sv r d s factor (ap (λ (x : Result (Option Bytes) × Db). x.0) e1) in
      let (verified, made) =
        verify_sender_ok s3 p a (ap (λ (x : Result EnvelopeArtifact × Db). x.0) e4) in
      let whole =
        check_envelope_ok e rt sv r d s1 p a.ciphertext (ap (λ (x : Result Parts × Db). x.0) e2) in
      let (active, unlocked, pqc_unlocked) =
        recipient_keys_ok e rt sv r d s2 keys
          (ap (λ (x : Result (Bytes × Option Bytes) × Db). x.0) e3) in
      let (opened, lo, hi) = open_envelope_ok _ a keys factor plaintext h4 in
      record {
        artifact = a;
        parts = subst (HasParts d) (sym made) whole;
        verified = subst (λ t. IsVerified t a) same verified;
        recipient =
            subst
              (λ (t : Db).
                is_active_user e rt sv (get (λ u. u.id) d.recipient_user_id t.users) ≡ true)
              same2 active;
        factor = factor;
        derived = derived;
        key = keys.0;
        unlocked = unlocked;
        pqc_key = keys.1;
        pqc_unlocked = pqc_unlocked;
        opened = opened;
        some_bytes = lo;
        bounded = hi;
      }
