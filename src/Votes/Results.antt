-- ===== src/Votes/Results.antt =====
-- Reading and checking a tally: server/app/services/vote_result_verification.py.
pub mod Counts
pub mod Verified
pub mod Settled
use crypto_campus.Prelude.{
  ℕ, ◌+◌, Bool, true, false, ◌&&◌, ◌||◌, not, Option, none, some, List, [], ◌∷◌, map, Bytes, Text,
  bytes_eq, ◌==◌, leb, if◌then◌else◌, select_first,
}
use crypto_campus.Models.{CertificateRecord}
use crypto_campus.Crypto.{CryptoEngine, Runtime}
use crypto_campus.Action.{Result, ok, err}
use crypto_campus.Votes.Rows.{
  VoteOption, VoteResultSnapshot, VoteTables, VoteError, VoteTools, is_public, vote_not_found,
  result_not_found, engine_unavailable,
}
use crypto_campus.Votes.Encoding.{encode_vote_result, seen_before}
use crypto_campus.Votes.Ballots.{vote_by_id, options_of, total_of}

-- `order_by(version.desc()).first()`
unfoldable pub latest : ℕ → List VoteResultSnapshot → Option VoteResultSnapshot
latest k [] = none
latest k (x ∷ xs) =
    let rest = latest k xs in
    if x.vote_id == k
    then (elim rest [ none ↦ some x | some y ↦ if leb y.version x.version then some x else some y ])
    else rest

-- `parsed_counts.get(k, 0)`
unfoldable pub count_of : ℕ → List (ℕ × ℕ) → ℕ
count_of k [] = 0
count_of k ((i, n) ∷ rest) = let other = count_of k rest in if i == k then n else other

abbrev pub counts_for : List VoteOption → List (ℕ × ℕ) → List (ℕ × ℕ)
counts_for os counts = map (λ (o : VoteOption). (o.id, count_of o.id counts)) os

-- Every member of one list is in the other.
unfoldable pub all_in : List ℕ → List ℕ → Bool
unfolding seen_before
all_in [] ys = true
all_in (x ∷ xs) ys = let rest = all_in xs ys in seen_before x ys && rest

abbrev keys : List (ℕ × ℕ) → List ℕ
keys counts = map (λ (c : ℕ × ℕ). c.0) counts

-- `validate_counts`
unfoldable pub validate_counts : List ℕ → VoteResultSnapshot → Bool
unfolding all_in total_of
validate_counts expected x =
    (x.is_final || x.version == x.total)
    && (total_of x.counts == x.total
        && (all_in (keys x.counts) expected && all_in expected (keys x.counts)))

-- `VoteResult`
pub record VoteResult : Type 0 where
  pub vote_id : ℕ
  pub counts : List (ℕ × ℕ)
  pub total : ℕ
  pub signature : Text
  pub signer_certificate : Text
  pub published_at : ℕ

-- `SignatureVerification`, without its texts.
pub record SignatureVerification : Type 0 where
  pub valid : Bool
  pub certificate_valid : Bool

unfoldable pub latest_public : ℕ → VoteTables → Result VoteError VoteResultSnapshot
unfolding latest
latest_public k s = elim (vote_by_id k s) [
  | none ↦ err vote_not_found
  | some v ↦
      if not (is_public v.scope)
      then err vote_not_found
      else elim (latest k s.snapshots) [ none ↦ err result_not_found | some x ↦ ok x ]
]

-- How a check of a certificate or of a signature went; `lost` is an unavailable provider.
pub data Check : Type 0 where
  verdict : Bool → Check
  broken : Check
  lost : Check

abbrev pub verdict_of : Check → Result VoteError Bool
verdict_of (verdict b) = ok b
verdict_of broken = ok false
verdict_of lost = err engine_unavailable

-- The check of the certificate with no CA service: the row of the certificate is active.
unfoldable pub registered : List CertificateRecord → Bytes → Bool
registered certificates der =
    elim (select_first (λ (c : CertificateRecord). bytes_eq c.certificate_der der) certificates) [
      | none ↦ false
      | some c ↦ c.active
    ]

abbrev refused : Result VoteError SignatureVerification
refused = ok (record { valid = false; certificate_valid = false })

-- `sm2_check` and `certificate_check` are the engine's `sm2_verify` with its errors told apart, and
-- `ca_service.verify_certificate` at an instant, `none` where there is no such service.
module _ (e : CryptoEngine) (rt : Runtime) (tools : VoteTools)
    (sm2_check : Bytes → Bytes → Bytes → Check) (ca_service : Option (Bytes → ℕ → Check))
    (certificates : List CertificateRecord) where
  -- `VoteResultService.get_latest`
  unfoldable pub get_latest : ℕ → VoteTables → Result VoteError VoteResult
  unfolding latest_public options_of count_of
  get_latest k s = elim (latest_public k s) [
    | err y ↦ err y
    | ok x ↦ ok (record {
      vote_id = x.vote_id;
      counts = counts_for (options_of k s) x.counts;
      total = x.total;
      signature = rt.base64 x.signature;
      signer_certificate = rt.base64 x.signer_certificate;
      published_at = x.published_at;
    })
  ]

  unfoldable pub check_certificate : Bytes → ℕ → Result VoteError Bool
  unfolding registered
  check_certificate der now = elim ca_service [
    | none ↦ ok (registered certificates der)
    | some verify_certificate ↦ verdict_of (verify_certificate der now)
  ]

  -- `VoteResultVerificationService.verify`
  unfoldable pub verify : ℕ → ℕ → VoteTables → Result VoteError SignatureVerification
  unfolding latest_public validate_counts options_of count_of encode_vote_result check_certificate
  verify k now s = elim (latest_public k s) [
    | err y ↦ err y
    | ok x ↦
        let os = options_of k s in
        if not (validate_counts (map (λ (o : VoteOption). o.id) os) x)
        then refused
        else elim (encode_vote_result e rt tools x.vote_id (counts_for os x.counts) x.total
            x.published_at) [
              | none ↦ refused
              | some encoded ↦
                  if not (e.constant_time_equal x.result_digest (e.sm3_digest encoded))
                  then refused
                  else elim (check_certificate x.signer_certificate now) [
                    | err y ↦ err y
                    | ok certificate_valid ↦
                        elim (verdict_of
                          (sm2_check x.signer_public_key x.result_digest x.signature)) [
                            | err y ↦ err y
                            | ok sig_valid ↦ ok (record {
                              valid = sig_valid && certificate_valid;
                              certificate_valid = certificate_valid;
                            })
                          ]
                  ]
            ]
  ]
