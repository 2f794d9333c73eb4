-- ===== src/Votes/Ballots.antt =====
-- An anonymous ballot: server/app/services/vote_ballot_verification.py and vote_ballots.py.
use crypto_campus.Prelude.{
  ℕ, ◌+◌, Bool, ◌&&◌, ◌||◌, not, Option, none, some, List, [], ◌∷◌, ◌++◌, map, Bytes, Text, length,
  bytes_eq, ◌==◌, leb, ltb, if◌then◌else◌, get, select_first, select, order_by, rowcount, is_some,
}
use crypto_campus.Text.{codes}
use crypto_campus.Crypto.{CryptoEngine, Runtime}
use crypto_campus.Action.{Result, ok, err, pure, raise_if, or_raise, modify, ◌>>=◌, ◌>>◌}
use crypto_campus.Codes.{ascii}
use crypto_campus.Votes.Rows.{
  VoteRecord, VoteOption, AnonymousBallot, ConsumedSn, BallotIdempotency, VoteResultSnapshot,
  VoteLog, VoteTables, VoteError, VoteAction, VoteTools, is_public, is_open, vote_not_found,
  option_not_found, vote_closed, invalid_service, invalid_period, invalid_signature,
  engine_unavailable, not_unique, uncaught,
}
use crypto_campus.Votes.Encoding.{big_endian, sign_vote_result}

-- `VoteCredentialProof`, and the other arguments of `submit`.
pub record BallotRequest : Type 0 where
  pub vote_id : ℕ
  pub option_id : ℕ
  pub sn : Text
  pub service : Text
  pub period : Text
  pub signature : Text
  pub idempotency_key : Text
  pub now : ℕ

-- `VerifiedBallotCredential`
pub record VerifiedBallot : Type 0 where
  pub sn_bytes : Bytes
  pub signature_bytes : Bytes

abbrev pub vote_ballot : Text
vote_ballot = codes "vote_ballot"

abbrev pub vote_by_id : ℕ → VoteTables → Option VoteRecord
vote_by_id k s = get (λ (v : VoteRecord). v.id) k s.votes

-- The check that the vote is there, for everybody.
abbrev pub find_vote : ℕ → VoteAction VoteRecord
find_vote k = do
  v ← λ s. or_raise (vote_by_id k s) vote_not_found s
  raise_if (not (is_public v.scope)) vote_not_found
  pure v

abbrev pub find_option : ℕ → ℕ → VoteAction (Unit {0})
find_option vote_id k = do
  o ← λ s. or_raise (get (λ (x : VoteOption). x.id) k s.options) option_not_found s
  raise_if (not (o.vote_id == vote_id)) option_not_found

-- The checks on the vote and the option, which `submit` makes twice.
unfoldable pub check_vote : BallotRequest → VoteAction (Unit {0})
check_vote r = do
  v ← find_vote r.vote_id
  find_option r.vote_id r.option_id
  raise_if (not (is_open v.status) || leb v.closes_at r.now) vote_closed

-- The options of a vote, in the order of their positions.
unfoldable pub options_of : ℕ → VoteTables → List VoteOption
options_of vote_id s =
    order_by (λ (o : VoteOption). o.position)
      (select (λ (o : VoteOption). o.vote_id == vote_id) s.options)

-- `(opt.id, counts_raw.get(opt.id, 0))` of each option, for the ballots that are counted.
unfoldable pub ordered_counts : (AnonymousBallot → Bool) → ℕ → VoteTables → List (ℕ × ℕ)
unfolding options_of
ordered_counts counted vote_id s =
    map
      (λ (o : VoteOption). (
        o.id,
        rowcount
            (λ (b : AnonymousBallot). (b.vote_id == vote_id && counted b) && b.option_id == o.id)
            s.ballots,
      ))
      (options_of vote_id s)

unfoldable pub total_of : List (ℕ × ℕ) → ℕ
total_of [] = 0
total_of ((k, n) ∷ rest) = n + total_of rest

abbrev pub has_sn : Bytes → ConsumedSn → Bool
has_sn sn c = bytes_eq c.sn sn && bytes_eq c.service vote_ballot

abbrev pub has_key : Bytes → BallotIdempotency → Bool
has_key h i = bytes_eq i.key_hash h

-- The unique key of `anonymous_ballots`.
abbrev pub has_credential : Bytes → AnonymousBallot → Bool
has_credential sn b = bytes_eq b.credential_sn sn && bytes_eq b.credential_service vote_ballot

abbrev pub is_version : ℕ → ℕ → VoteResultSnapshot → Bool
is_version vote_id version x = x.vote_id == vote_id && x.version == version

-- `session.add` of a row, refused where a unique column has its value already.
unfoldable pub add_snapshot : VoteResultSnapshot → VoteAction (Unit {0})
add_snapshot x s =
    if is_some (get (λ (y : VoteResultSnapshot). y.id) x.id s.snapshots)
      || (is_some (select_first (is_version x.vote_id x.version) s.snapshots)
          || x.is_final
            && is_some (
                select_first (λ (y : VoteResultSnapshot). y.vote_id == x.vote_id && y.is_final)
                  s.snapshots))
    then (err not_unique, s)
    else (ok tt, record s { snapshots = s.snapshots ++ x ∷ [] })

unfoldable pub add_log : VoteLog → VoteTables → VoteTables
add_log l s = record s { log = s.log ++ l ∷ [] }

-- The three rows of a ballot.
unfoldable pub add_ballot : ConsumedSn → AnonymousBallot → BallotIdempotency → VoteAction (Unit {0})
add_ballot c b i s =
    if is_some (select_first (has_sn c.sn) s.consumed)
      || (is_some (get (λ (x : AnonymousBallot). x.id) b.id s.ballots)
          || (is_some (select_first (has_credential b.credential_sn) s.ballots)
              || (is_some (get (λ (x : BallotIdempotency). x.id) i.id s.idempotencies)
                  || is_some (select_first (has_key i.key_hash) s.idempotencies))))
    then (err not_unique, s)
    else (
      ok tt,
      record s {
        consumed = s.consumed ++ c ∷ [];
        ballots = s.ballots ++ b ∷ [];
        idempotencies = s.idempotencies ++ i ∷ [];
      },
    )

module _ (e : CryptoEngine) (rt : Runtime) (tools : VoteTools) where
  -- `encode_vote_ballot_message`; `none` is the `ValueError`.
  unfoldable pub encode_vote_ballot_message : BallotRequest → Option Bytes
  encode_vote_ballot_message r = elim (tools.fromhex r.sn) [
    | none ↦ none
    | some sn ↦ if ltb (length sn) 16 then none else elim (ascii r.service) [
      | none ↦ none
      | some service ↦
          if not (ltb (length service) 65536)
          then none
          else some (
              codes "CryptoCampus-Vote-Ballot-v1"
              ++ (0
                  ∷ (sn
                      ++ (big_endian 2 (length service)
                          ++ (service
                              ++ (tools.id_bytes r.vote_id ++ tools.id_bytes r.option_id))))))
    ]
  ]

  -- Steps 7 and 8: the blind signature, under the key of the vote.
  unfoldable pub check_signature : BallotRequest → Bytes → Result VoteError (Unit {0})
  unfolding encode_vote_ballot_message
  check_signature r signature = elim (tools.signer_public_key r.vote_id) [
    | none ↦ err engine_unavailable
    | some key ↦
        if not (length key == 65)
        then err engine_unavailable
        else elim (encode_vote_ballot_message r) [
          | none ↦ err uncaught
          | some message ↦ elim (tools.blind_verify message signature key) [
            | ok valid ↦ if valid then ok tt else err invalid_signature
            | err lost ↦ err (if lost then engine_unavailable else invalid_signature)
          ]
        ]
  ]

  -- `verify_vote_ballot`
  unfoldable pub verify_vote_ballot : BallotRequest → VoteAction VerifiedBallot
  unfolding check_vote check_signature
  verify_vote_ballot r = do
    check_vote r
    raise_if (not (bytes_eq r.service vote_ballot)) invalid_service
    raise_if (not (bytes_eq r.period (rt.id_text r.vote_id))) invalid_period
    sn ← or_raise (tools.fromhex r.sn) uncaught
    signature ← or_raise (tools.b64decode r.signature) invalid_signature
    raise_if (not (length signature == 64)) invalid_signature
    λ s. (check_signature r signature, s)
    pure (record { sn_bytes = sn; signature_bytes = signature })

  -- Steps 5.7 to 5.10, and the same steps of `settle`: the tally is signed, and written.
  unfoldable pub publish :
      ℕ → List (ℕ × ℕ) → ℕ → Bool → ℕ → ℕ → Text → VoteAction VoteResultSnapshot
  unfolding sign_vote_result add_snapshot add_log
  publish vote_id counts version is_final id now action = do
    m ← or_raise tools.tally_material engine_unavailable
    (digest, signature) ←
        λ s. (sign_vote_result e rt tools m vote_id counts (total_of counts) now, s)
    let x : VoteResultSnapshot = record {
      id = id;
      vote_id = vote_id;
      version = version;
      counts = counts;
      total = total_of counts;
      result_digest = digest;
      signature = signature;
      signer_certificate = m.certificate_der;
      signer_public_key = m.public_key;
      published_at = now;
      is_final = is_final;
    }
    add_snapshot x
    modify (
        add_log (record {
          actor = m.system_user_id;
          action = action;
          target = codes "vote:" ++ rt.id_text vote_id;
          detail_hash = digest;
          ts = now;
        }))
    pure x
