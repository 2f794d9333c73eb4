-- ===== src/Votes/Results/Verified.antt =====
-- A tally that the services publish passes their own check: server/app/services/vote_settlement.py and
-- vote_result_verification.py.
use crypto_campus.Prelude.{
  ℕ, ◌<◌, ◌≡◌, sym, ap, ◌∙◌, Bool, true, ◌||◌, Option, some, List, [], ◌∷◌, ◌++◌, Bytes, Text, map,
  arith, bytes_eq, bytes_eq_refl, ◌==◌, Bool-cases, Option-cases, inl, inr,
}
use mathlib.Core.Path.{subst}
use crypto_campus.Models.{CertificateRecord}
use crypto_campus.Crypto.{CryptoEngine, Runtime, ComparesBytes}
use crypto_campus.Action.{Result, ok}
use crypto_campus.Votes.Rows.{
  VoteRecord, VoteLog, VoteOption, VoteResultSnapshot, VoteTables, VoteError, VoteTools,
  VoteTallyMaterial, is_public,
}
use crypto_campus.Votes.Encoding.{encode_vote_result, sign_vote_result}
use crypto_campus.Votes.Ballots.{vote_by_id, options_of, total_of, publish}
use crypto_campus.Votes.Settlement.{max_version}
use crypto_campus.Votes.Publishing.{Published, publish_inv, tally_log}
use crypto_campus.Votes.Results.{
  Check, verdict, SignatureVerification, latest_public, validate_counts, counts_for, all_in, verify,
  check_certificate,
}
use crypto_campus.Votes.Results.Counts.{
  latest-append, ids, tally, all_in_same, keys-tally, counts_for-tally,
}

module _ (e : CryptoEngine) (rt : Runtime) (tools : VoteTools) where
  -- What a signature that was made says.
  record Signed (m : VoteTallyMaterial) (k : ℕ) (counts : List (ℕ × ℕ)) (total now : ℕ)
      (z : Bytes × Bytes) : Type 0 where
    encoded : Bytes
    encodes : encode_vote_result e rt tools k counts total now ≡ some encoded
    digest : z.0 ≡ e.sm3_digest encoded
    verified : e.sm2_verify m.public_key z.0 z.1 ≡ some true

  sign_inv :
      (m : VoteTallyMaterial) (k : ℕ) (counts : List (ℕ × ℕ)) (total now : ℕ) (z : Bytes × Bytes)
      → sign_vote_result e rt tools m k counts total now ≡ ok z
      → Signed m k counts total now z
  unfolding sign_vote_result
  sign_inv m k counts total now z h =
      elim (Option-cases (encode_vote_result e rt tools k counts total now)) [
        | inl missing ↦ absurd (ground (arith, h, missing))
        | inr (encoded, encodes) ↦
            elim (Option-cases (tools.sm2_sign m.private_key (e.sm3_digest encoded))) [
              | inl missing ↦ absurd (ground (arith, h, encodes, missing))
              | inr (signature, signed) ↦
                  elim (Option-cases (e.sm2_verify m.public_key (e.sm3_digest encoded) signature)) [
                    | inl missing ↦ absurd (ground (arith, h, encodes, signed, missing))
                    | inr (valid, verified) ↦ elim (Bool-cases valid) [
                      | inr bad ↦ absurd (ground (arith, h, encodes, signed, verified, bad))
                      | inl good ↦
                          let same : (e.sm3_digest encoded, signature) ≡ z =
                            ground (arith, h, encodes, signed, verified, good) in
                          record {
                            encoded = encoded;
                            encodes = encodes;
                            digest = sym (ap (λ (z : Bytes × Bytes). z.0) same);
                            verified =
                                subst
                                  (λ (z : Bytes × Bytes).
                                    e.sm2_verify m.public_key z.0 z.1 ≡ some true)
                                  same (verified ∙ ap some good);
                          }
                    ]
                  ]
            ]
      ]

module _ (e : CryptoEngine) (rt : Runtime) (tools : VoteTools)
    (sm2_check : Bytes → Bytes → Bytes → Check) (ca_service : Option (Bytes → ℕ → Check))
    (certificates : List CertificateRecord) where
  -- What the check of a tally relies on: the bridge reports what `sm2_verify` does, byte strings are
  -- compared, and the certificate of the station is valid.
  pub record Checks (later : ℕ) : Type 0 where
    pub agrees :
        (key digest signature : Bytes)
        → e.sm2_verify key digest signature ≡ some true
        → sm2_check key digest signature ≡ verdict true
    pub compares : ComparesBytes e
    pub certified :
        (m : VoteTallyMaterial)
        → tools.tally_material ≡ some m
        → check_certificate e rt tools sm2_check ca_service certificates m.certificate_der later
          ≡ ok true

  abbrev pub both_valid : Result VoteError SignatureVerification
  both_valid = ok (record { valid = true; certificate_valid = true })

  verify_latest :
      (k later : ℕ) (s : VoteTables) (x : VoteResultSnapshot) (m : VoteTallyMaterial) (n : ℕ → ℕ)
      → Checks later
      → tools.tally_material ≡ some m
      → latest_public k s ≡ ok x
      → x.vote_id ≡ k
      → x.counts ≡ tally n (options_of k s)
      → x.total ≡ total_of x.counts
      → (x.is_final || x.version == x.total) ≡ true
      → x.signer_public_key ≡ m.public_key
      → x.signer_certificate ≡ m.certificate_der
      → Signed e rt tools m k x.counts x.total x.published_at (x.result_digest, x.signature)
      → verify e rt tools sm2_check ca_service certificates k later s ≡ both_valid
  unfolding verify validate_counts
  verify_latest k later s x m n c unlocked found mine counts total kind key certificate signed =
      let os : List VoteOption = options_of k s in
      let again : counts_for os x.counts ≡ x.counts =
        ap (counts_for os) counts ∙ counts_for-tally n os ∙ sym counts in
      let keys : map (λ (c : ℕ × ℕ). c.0) x.counts ≡ ids os =
        ap (map (λ (c : ℕ × ℕ). c.0)) counts ∙ keys-tally n os in
      let encodes : encode_vote_result e rt tools x.vote_id (counts_for os x.counts) x.total
            x.published_at
          ≡ some signed.encoded =
        ap (λ i. encode_vote_result e rt tools i (counts_for os x.counts) x.total x.published_at)
          mine
        ∙ ap (λ cs. encode_vote_result e rt tools k cs x.total x.published_at) again
        ∙ signed.encodes in
      let digest : e.constant_time_equal x.result_digest (e.sm3_digest signed.encoded) ≡ true =
        c.compares x.result_digest (e.sm3_digest signed.encoded)
        ∙ ap (λ d. bytes_eq d (e.sm3_digest signed.encoded)) signed.digest
        ∙ bytes_eq_refl (e.sm3_digest signed.encoded) in
      let certified =
        ap (λ d. check_certificate e rt tools sm2_check ca_service certificates d later) certificate
        ∙ c.certified m unlocked in
      let good =
        ap (λ p. sm2_check p x.result_digest x.signature) key
        ∙ c.agrees m.public_key x.result_digest x.signature signed.verified in
      let inside : all_in (map (λ (c : ℕ × ℕ). c.0) x.counts) (ids os) ≡ true =
        ap (λ ks. all_in ks (ids os)) keys ∙ all_in_same (ids os) in
      let covers : all_in (ids os) (map (λ (c : ℕ × ℕ). c.0) x.counts) ≡ true =
        ap (all_in (ids os)) keys ∙ all_in_same (ids os) in
      ground (arith, found, kind, total, inside, covers, encodes, digest, certified, good)

  latest_public-publish :
      (k : ℕ) (s : VoteTables) (v : VoteRecord) (x : VoteResultSnapshot) (l : List VoteLog)
      → vote_by_id k s ≡ some v
      → is_public v.scope ≡ true
      → x.vote_id ≡ k
      → max_version k s.snapshots < x.version
      → latest_public k (record s { snapshots = s.snapshots ++ x ∷ []; log = l }) ≡ ok x
  unfolding latest_public
  latest_public-publish k s v x l found shown mine newer =
      ground (arith, found, shown, latest-append k s.snapshots x mine newer)

  -- A tally of all options that is written as the newest of a public vote, and final or of the version of
  -- its total, passes the check, where `Checks` holds.
  pub verify-publish :
      (k : ℕ) (n : ℕ → ℕ) (version : ℕ) (is_final : Bool) (id now : ℕ) (action : Text)
      (s s' : VoteTables) (x : VoteResultSnapshot) (later : ℕ) (v : VoteRecord)
      → Checks later
      → vote_by_id k s ≡ some v
      → is_public v.scope ≡ true
      → max_version k s.snapshots < version
      → (is_final || version == total_of (tally n (options_of k s))) ≡ true
      → publish e rt tools k (tally n (options_of k s)) version is_final id now action s
        ≡ (ok x, s')
      → verify e rt tools sm2_check ca_service certificates k later s' ≡ both_valid
  unfolding options_of
  verify-publish k n version is_final id now action s s' x later v c found shown newer kind ran =
      let counts : List (ℕ × ℕ) = tally n (options_of k s) in
      let p : Published e rt tools k counts version is_final id now action s s' x =
        publish_inv e rt tools k counts version is_final id now action s s' x ran in
      let mine : x.vote_id ≡ k = ap (λ (y : VoteResultSnapshot). y.vote_id) p.row in
      let new : x.version ≡ version = ap (λ (y : VoteResultSnapshot). y.version) p.row in
      let same : x.counts ≡ counts = ap (λ (y : VoteResultSnapshot). y.counts) p.row in
      let total : x.total ≡ total_of counts = ap (λ (y : VoteResultSnapshot). y.total) p.row in
      let time : x.published_at ≡ now = ap (λ (y : VoteResultSnapshot). y.published_at) p.row in
      let final : x.is_final ≡ is_final = ap (λ (y : VoteResultSnapshot). y.is_final) p.row in
      let z : Bytes × Bytes = (x.result_digest, x.signature) in
      let signed : sign_vote_result e rt tools p.material k x.counts x.total x.published_at ≡ ok z =
        ap (λ cs. sign_vote_result e rt tools p.material k cs x.total x.published_at) same
        ∙ ap (λ t. sign_vote_result e rt tools p.material k counts t x.published_at) total
        ∙ ap (sign_vote_result e rt tools p.material k counts (total_of counts)) time
        ∙ p.signed in
      let t : VoteTables = record s {
        snapshots = s.snapshots ++ x ∷ [];
        log = s.log ++ tally_log rt p.material k action x.result_digest now ∷ [];
      } in
      subst (λ t. verify e rt tools sm2_check ca_service certificates k later t ≡ both_valid)
        (sym p.tables)
        (verify_latest k later t x p.material n c p.unlocked
          (latest_public-publish k s v x t.log found shown mine
            (subst (λ i. max_version k s.snapshots < i) (sym new) newer))
          mine same (total ∙ ap total_of (sym same))
          (ap (λ b. b || x.version == x.total) final
            ∙ ap (λ i. is_final || i == x.total) new
            ∙ ap (λ i. is_final || version == i) total
            ∙ kind)
          (ap (λ (y : VoteResultSnapshot). y.signer_public_key) p.row)
          (ap (λ (y : VoteResultSnapshot). y.signer_certificate) p.row)
          (sign_inv e rt tools p.material k x.counts x.total x.published_at z signed))
