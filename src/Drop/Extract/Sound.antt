-- ===== src/Drop/Extract/Sound.antt =====
-- What an extraction that succeeds rests on (`extract_drop` of server/app/services/drop.py).
use crypto_campus.Prelude.{
  ℕ, ◌≡◌, refl, ap, true, false, Option, some, Bytes, arith, Bool-cases, inl, inr,
}
use crypto_campus.Crypto.{CryptoEngine, Runtime}
use crypto_campus.Drop.Rows.{Drop, DropKind, text, file, DropExtractIdempotency, is_available}
use crypto_campus.Drop.State.{Db, Result, ok, ◌>>=◌}
use crypto_campus.Drop.Actions.{bind_ok, Result-cases}
use crypto_campus.Drop.Update.{due}
use crypto_campus.Drop.Cooldown.{before_attempt}
use crypto_campus.Drop.Cooldown.Admission.{IsAdmitted, before_attempt_ok}
use crypto_campus.Drop.Services.{Collaborators}
use crypto_campus.Drop.Lookup.{ExtractRequest, open_attempt}
use crypto_campus.Drop.Lookup.Attempt.{Names, open_attempt_ok}
use crypto_campus.Drop.Unseal.{unseal}
use crypto_campus.Drop.Unseal.Soundness.{unseal-ReadOnly, unseal_sound, IsUnsealed}
use crypto_campus.Drop.Extract.{
  ExtractFresh, Extracted, text_content, file_content, is_right_code, check_access_code,
  commit_extraction, respond, extract_drop,
}
use crypto_campus.Drop.Extract.Outcome.{hand_out, right_code_lem, check_replay_cases}

module _ (e : CryptoEngine) (rt : Runtime) (sv : Collaborators) (r : ExtractRequest)
    (f : ExtractFresh) where
  -- What is handed out is the plaintext: decoded for a text, as it is for a file.
  abbrev pub Delivers : Drop → Bytes → Extracted → Type 0
  Delivers d plaintext (text_content content id) =
      (d.kind ≡ text) × (rt.from_utf8 plaintext ≡ some content)
  Delivers d plaintext (file_content name id bytes) =
      (d.kind ≡ file) × (bytes ≡ plaintext) × (name ≡ d.filename)

  respond-Delivers :
      (d : Drop) (plaintext : Bytes) (id : ℕ) (s : Db) (x : Extracted) (k : DropKind)
      → d.kind ≡ k
      → (respond e rt sv d plaintext id s).0 ≡ ok x
      → Delivers d plaintext x
  unfolding respond
  respond-Delivers d plaintext id s (text_content c i) text ek h = (ek, ground arith)
  respond-Delivers d plaintext id s (file_content n i bs) text ek h = absurd (ground arith)
  respond-Delivers d plaintext id s (text_content c i) file ek h = absurd (ground arith)
  respond-Delivers d plaintext id s (file_content n i bs) file ek h =
      (ek, ground arith, ground arith)

  respond_same :
      (d : Drop) (plaintext : Bytes) (id : ℕ) (s : Db) → (respond e rt sv d plaintext id s).1 ≡ s
  unfolding respond
  respond_same d plaintext id s = ground arith

  pub hand_out_ok :
      (s : Db) (d : Drop) (replay : Option DropExtractIdempotency) (x : Extracted)
      → (hand_out e rt sv r f d replay s).0 ≡ ok x
      → (plaintext : Bytes) × IsUnsealed e rt sv r d s plaintext
        × Delivers d plaintext x
        × (id : ℕ) × (commit_extraction e rt sv r f d plaintext replay s
            ≡ (ok id, (hand_out e rt sv r f d replay s).1))
  hand_out_ok s d replay x h =
      let f2 = λ (p : Bytes) (id : ℕ). respond e rt sv d p id in
      let f1 = λ (p : Bytes). commit_extraction e rt sv r f d p replay >>= f2 p in
      let (p, e1, h1, g1) = bind_ok (unseal e rt sv r d) f1 s x h in
      let same = (unseal-ReadOnly e rt sv r d).same s in
      let (id, e2, h2, g2) =
        bind_ok (commit_extraction e rt sv r f d p replay) (f2 p) (unseal e rt sv r d s).1 x h1 in
      (
        p,
        unseal_sound e rt sv r d s p (ap (λ (z : Result Bytes × Db). z.0) e1),
        respond-Delivers d p id _ x d.kind refl h2,
        id,
        ground (
          arith,
          g1,
          g2,
          same,
          e2,
          respond_same d p id (commit_extraction e rt sv r f d p replay s).1,
        ),
      )

  -- The stages of an extraction that succeeds.
  pub record IsExtracted (s : Db) (x : Extracted) : Type 0 where
    pub loaded : Drop
    pub names : Names e rt r s loaded
    pub early : due r.now loaded.expires_at ≡ false
    pub opened : Drop
    pub after : Db
    pub admitted : before_attempt loaded r.now s ≡ (ok opened, after)
    pub admission : IsAdmitted loaded r.now s after
    pub available : is_available opened.status ≡ true
    pub right : is_right_code e rt sv r opened ≡ true
    pub plaintext : Bytes
    pub unsealed : IsUnsealed e rt sv r opened after plaintext
    pub delivers : Delivers opened plaintext x

  -- Content is handed out only where the code names a drop that has not expired and that is available
  -- or whose cooldown is over, and the access code is right. The content is then the plaintext that
  -- `envelope_open` makes of the row's columns, which have the version and the sizes that the code
  -- accepts, with the recipient's unlocked keys and, where the row has a salt, the factor of an access
  -- password that has been given; the recipient is active, and the sender's certificate and signature
  -- are verified. A text is decoded, and a file has the row's name.
  pub extract_sound :
      (s : Db) (x : Extracted) → (extract_drop e rt sv r f s).0 ≡ ok x → IsExtracted s x
  unfolding extract_drop check_access_code
  extract_sound s x h = elim (Result-cases (open_attempt e rt r f.destroy_id s)) [
    | inl (y, e1) ↦ absurd (ground (arith, e1))
    | inr (d, e1) ↦
        let s1 = (open_attempt e rt r f.destroy_id s).1 in
        let start : open_attempt e rt r f.destroy_id s ≡ (ok d, s1) = ap (λ z. (z, s1)) e1 in
        let (d', names, early, available, admitted) = open_attempt_ok e rt r f.destroy_id s d e1 in
        elim (check_replay_cases e rt sv r f s1 d) [
          | inl conflict ↦ absurd (ground (arith, start, conflict))
          | inr (replay, replayed) ↦ elim (Bool-cases (is_right_code e rt sv r d)) [
            | inr wrong ↦ absurd (ground (arith, start, replayed, wrong))
            | inl right ↦
                let go = right_code_lem e rt sv r f s s1 d replay start replayed right in
                let (p, unsealed, delivers, _, _) = hand_out_ok s1 d replay x (rw go at h) in
                record {
                  loaded = d';
                  names = names;
                  early = early;
                  opened = d;
                  after = s1;
                  admitted = admitted;
                  admission = before_attempt_ok d' d r.now s s1 admitted;
                  available = available;
                  right = right;
                  plaintext = p;
                  unsealed = unsealed;
                  delivers = delivers;
                }
          ]
        ]
  ]
