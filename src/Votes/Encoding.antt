-- ===== src/Votes/Encoding.antt =====
-- The signed form of a tally: server/app/services/vote_results.py.
pub mod Injective
use crypto_campus.Prelude.{
  ℕ, zero, suc, ◌+◌, ◌*◌, ◌/◌, ◌%◌, ◌^◌, Bool, true, false, ◌||◌, not, Option, none, some, List, [],
  ◌∷◌, ◌++◌, Bytes, Text, length, ◌==◌, ltb, if◌then◌else◌,
}
use crypto_campus.Text.{codes}
use crypto_campus.Crypto.{CryptoEngine, Runtime}
use crypto_campus.Action.{Result, ok, err}
use crypto_campus.Revocation.{canonical_utc}
use crypto_campus.Votes.Rows.{
  VoteTools, VoteTallyMaterial, VoteError, signature_self_verify_failed, uncaught,
}

-- `int.to_bytes(w, "big")`, of a number that fits.
unfoldable pub big_endian : ℕ → ℕ → Bytes
big_endian zero n = []
big_endian (suc w) n = big_endian w (n / 256) ++ (n % 256) ∷ []

-- `option_id in seen_options`
unfoldable pub seen_before : ℕ → List ℕ → Bool
seen_before k [] = false
seen_before k (x ∷ xs) = let rest = seen_before k xs in k == x || rest

-- The loop over the options: the sum of the counts, and the encoded options.
unfoldable pub options_part : (ℕ → Bytes) → List ℕ → List (ℕ × ℕ) → Option (ℕ × Bytes)
unfolding seen_before big_endian
options_part id_bytes seen [] = some (0, [])
options_part id_bytes seen ((k, count) ∷ rest) =
    let others = options_part id_bytes (k ∷ seen) rest in
    if seen_before k seen || not (ltb count (2 ^ 64)) then none else elim others [
      | none ↦ none
      | some x ↦ some (count + x.0, id_bytes k ++ (big_endian 8 count ++ x.1))
    ]

module _ (e : CryptoEngine) (rt : Runtime) (tools : VoteTools) where
  -- `none` is a `VoteResultEncodingError`, or an `OverflowError` of a length.
  unfoldable pub encode_vote_result : ℕ → List (ℕ × ℕ) → ℕ → ℕ → Option Bytes
  unfolding options_part big_endian
  encode_vote_result vote_id ordered_counts total published_at =
      let time = rt.utf8 (canonical_utc e rt published_at) in
      if not (ltb total (2 ^ 64))
      then none
      else elim (options_part tools.id_bytes [] ordered_counts) [
        | none ↦ none
        | some x ↦
            if not (x.0 == total)
              || (not (ltb (length ordered_counts) (2 ^ 32)) || not (ltb (length time) (2 ^ 32)))
            then none
            else some (
                codes "CryptoCampus-Vote-Result-v1"
                ++ (0
                    ∷ (tools.id_bytes vote_id
                        ++ (big_endian 4 (length ordered_counts)
                            ++ (x.1
                                ++ (big_endian 8 total ++ (big_endian 4 (length time) ++ time)))))))
      ]

  -- `sign_vote_result`: the digest and the signature.
  unfoldable pub sign_vote_result :
      VoteTallyMaterial → ℕ → List (ℕ × ℕ) → ℕ → ℕ → Result VoteError (Bytes × Bytes)
  unfolding encode_vote_result
  sign_vote_result m vote_id ordered_counts total published_at =
      elim (encode_vote_result vote_id ordered_counts total published_at) [
        | none ↦ err uncaught
        | some encoded ↦
            let digest = e.sm3_digest encoded in
            elim (tools.sm2_sign m.private_key digest) [
              | none ↦ err uncaught
              | some signature ↦ elim (e.sm2_verify m.public_key digest signature) [
                | none ↦ err uncaught
                | some valid ↦
                    if valid then ok (digest, signature) else err signature_self_verify_failed
              ]
            ]
      ]
