-- ===== src/Drop/Create/Codes.antt =====
-- The link code of a create, and what it stores (`_create_drop` of
-- server/app/services/drop.py).
use crypto_campus.Prelude.{
  ℕ, zero, suc, ◌+◌, ◌≡◌, ◌⊎◌, refl, sym, Option, none, some, List, Bytes, Text, arith, bytes_eq,
  select_first, Option-cases, inl, inr,
}
use crypto_campus.Models.{CertificateRecord}
use crypto_campus.Crypto.{CryptoEngine, Runtime, EnvelopeArtifact, SealRequest}
use crypto_campus.Quota.Rows.{Resource, CredentialLedger, QuotaError}
use crypto_campus.Quota.{Outcome, reserved, refused, reserve}
use crypto_campus.Drop.Rows.{Drop, TtlPolicy}
use crypto_campus.Drop.State.{Db, ok, transaction}
use crypto_campus.Drop.Services.{Collaborators, ResolvedRecipient}
use crypto_campus.Drop.Requests.{Fresh, CreateRequest}
use crypto_campus.Drop.Create.{generate_link_code, reserve_quota, new_drop, insert_drop, store_drop}

Outcome-cases :
    (o : Outcome)
    → ((rows : List CredentialLedger) × (o ≡ reserved rows)) ⊎ ((c : QuotaError) × (o ≡ refused c))
Outcome-cases (reserved rows) = inl (rows, refl)
Outcome-cases (refused c) = inr (c, refl)

module _ (e : CryptoEngine) (rt : Runtime) (sv : Collaborators) where
  -- A link code that is handed out, in whichever of the rounds, names no drop of the table.
  pub generate_link_code-fresh :
      (n i : ℕ) (draw : ℕ → Text) (drops : List Drop) (code : Text)
      → generate_link_code e rt sv n i draw drops ≡ some code
      → select_first (λ d. bytes_eq d.link_code_hash (e.sm3_digest (rt.utf8 code))) drops ≡ none
  unfolding generate_link_code
  generate_link_code-fresh zero i draw drops code h = absurd (ground (arith, h))
  generate_link_code-fresh (suc n) i draw drops code h =
      elim (Option-cases
        (select_first (λ d. bytes_eq d.link_code_hash (e.sm3_digest (rt.utf8 (draw i)))) drops)) [
          | inl free ↦ let same : draw i ≡ code = ground (arith, h, free) in rw (sym same) free
          | inr (d, taken) ↦
              generate_link_code-fresh n (i + 1) draw drops code (ground (arith, h, taken))
        ]

  -- What `store_drop` leaves when it succeeds.
  pub store_drop_ok :
      (r : CreateRequest) (f : Fresh) (policy : TtlPolicy) (key : Bytes) (cert : CertificateRecord)
      (to : ResolvedRecipient) (code : Text) (factor : Option Bytes × Option Bytes) (s : Db)
      → (store_drop e rt sv r f policy key cert to code factor s).0 ≡ ok tt
      → (a : EnvelopeArtifact) × (ledger : List CredentialLedger) × (reserve rt
            (λ rows. rows)
            r.sender_id
            Resource.drop
            r.now
            none
            s.ledger
          ≡ reserved ledger)
        × ((store_drop e rt sv r f policy key cert to code factor s).1
            ≡ insert_drop e rt sv r f policy cert to
                (new_drop e rt sv r f policy cert to code factor.0 a)
                (record s { ledger = ledger }))
  unfolding store_drop reserve_quota transaction
  store_drop_ok r f policy key cert to code factor s h =
      let request : SealRequest = record {
        plaintext = r.plaintext;
        recipient_sm2_public_key = to.sm2_public_key;
        pqc_mode = r.pqc_mode;
        recipient_mlkem_public_key = to.mlkem_public_key;
        sender_private_key = key;
        sender_certificate_der = cert.certificate_der;
        access_factor = factor.1;
      } in
      elim (Outcome-cases
        (reserve rt (λ rows. rows) r.sender_id Resource.drop r.now none s.ledger)) [
          | inl (ledger, counted) ↦ elim (Option-cases (e.envelope_seal request)) [
            | inl failed ↦ absurd (ground (arith, h, counted, failed))
            | inr (a, sealed) ↦ (a, ledger, counted, ground (arith, h, counted, sealed))
          ]
          | inr (code', full) ↦ absurd (refusal code' full)
        ]
    where
      refusal :
          (c : QuotaError)
          → reserve rt (λ rows. rows) r.sender_id Resource.drop r.now none s.ledger ≡ refused c
          → ⊥
      refusal c full = ground (arith, h, full)
