-- ===== src/Votes/Tests.antt =====
-- The theorems on votes, run on a public vote with two options.
use crypto_campus.Prelude.{
  ℕ, ◌+◌, ◌≡◌, refl, true, Option, none, some, List, [], ◌∷◌, Bytes, arith, get, select_first,
  select, order_by, bytes_eq, rowcount,
}
use crypto_campus.Action.{ok}
use crypto_campus.Revocation.{canonical_utc}
use crypto_campus.Codes.{ascii}
use crypto_campus.Drop.Samples.{ones, engine, runtime}
use crypto_campus.Votes.Rows.{
  VoteRecord, VoteScope, VoteStatus, VoteTables, VoteTools, VoteResultSnapshot,
}
use crypto_campus.Votes.Encoding.{encode_vote_result}
use crypto_campus.Votes.Encoding.Injective.{IsUuid, encode_vote_result_inj}
use crypto_campus.Votes.Ballots.{BallotRequest, vote_ballot, vote_by_id}
use crypto_campus.Votes.Submission.{BallotFresh, submit}
use crypto_campus.Votes.Submission.Again.{submit_again}
use crypto_campus.Votes.Settlement.{settle, final_snapshot}
use crypto_campus.Votes.Results.{Check, verdict, verify, check_certificate}
use crypto_campus.Votes.Results.Verified.{Checks, both_valid}
use crypto_campus.Votes.Results.Settled.{Apart, verify-settle}
use crypto_campus.Votes.OneVote.{IsTallied}
use crypto_campus.Votes.OneVote.Calls.{
  VoteCall, submitting, settling, scanning, after_calls, after_calls-IsTallied,
}

abbrev uuid_bytes : ℕ → Bytes
uuid_bytes n = n ∷ ones 15

abbrev tools : VoteTools
tools = record {
  id_bytes = uuid_bytes;
  fromhex = λ t. some t;
  b64decode = λ t. some t;
  signer_public_key = λ k. some (ones 65);
  blind_verify = λ message signature key. ok true;
  sm2_sign = λ key digest. some (ones 64);
  tally_material = some (record {
    system_user_id = 3;
    certificate_der = ones 7;
    public_key = ones 65;
    private_key = ones 32;
  });
}

abbrev the_vote : VoteRecord
the_vote = record {
  id = 1;
  scope = VoteScope.public;
  scope_id = none;
  closes_at = 100;
  status = VoteStatus.still_open;
  settled_at = none;
  final_snapshot_id = none;
}

abbrev start : VoteTables
start = record {
  votes = the_vote ∷ [];
  options =
      record { id = 12; vote_id = 1; position = 2 }
      ∷ record { id = 11; vote_id = 1; position = 1 }
      ∷ [];
  ballots = [];
  consumed = [];
  idempotencies = [];
  snapshots = [];
  log = [];
}

abbrev request : BallotRequest
request = record {
  vote_id = 1;
  option_id = 12;
  sn = ones 16;
  service = vote_ballot;
  period = 1 ∷ [];
  signature = ones 64;
  idempotency_key = ones 16;
  now = 50;
}

abbrev fresh : ℕ → BallotFresh
fresh i = record { ballot_id = 21 + i; idempotency_id = 31 + i; snapshot_id = 41 + i }

abbrev alone : ℕ → VoteTables → VoteTables
alone i s = s

abbrev cast : VoteTables
cast = (submit engine runtime tools request fresh alone start).1

is_cast : submit engine runtime tools request fresh alone start ≡ (ok tt, cast)
unfolding submit ascii canonical_utc get select_first bytes_eq order_by select rowcount
is_cast = refl

submit_again_example :
    submit engine runtime tools (record request { now = 200 }) fresh alone cast ≡ (ok tt, cast)
submit_again_example =
    submit_again engine runtime tools (λ a b. refl) request fresh fresh alone alone start cast tt
      200 is_cast

uuid_bytes-IsUuid : IsUuid uuid_bytes
uuid_bytes-IsUuid = record { sixteen = λ k. refl; own = λ j k h. ground (arith, h) }

instants_own :
    (a b : ℕ)
    → runtime.utf8 (canonical_utc engine runtime a) ≡ runtime.utf8 (canonical_utc engine runtime b)
    → a ≡ b
unfolding canonical_utc
instants_own a b h = ground (arith, h)

abbrev counts : List (ℕ × ℕ)
counts = (11, 0) ∷ (12, 1) ∷ []

abbrev tally_bytes : Bytes
tally_bytes = elim (encode_vote_result engine runtime tools 1 counts 1 50) [
  | none ↦ []
  | some b ↦ b
]

is_encoded : encode_vote_result engine runtime tools 1 counts 1 50 ≡ some tally_bytes
unfolding encode_vote_result canonical_utc
is_encoded = refl

encode_vote_result_inj_example :
    (◌≡◌ {A = ℕ} 1 1) × (counts ≡ counts) × (◌≡◌ {A = ℕ} 1 1) × (◌≡◌ {A = ℕ} 50 50)
encode_vote_result_inj_example =
    encode_vote_result_inj engine runtime tools uuid_bytes-IsUuid instants_own 1 1 counts counts 1 1
      50 50 tally_bytes is_encoded is_encoded

abbrev station_checks : Bytes → Bytes → Bytes → Check
station_checks key digest signature = verdict true

abbrev all_valid : Option (Bytes → ℕ → Check)
all_valid = some λ der now. verdict true

checks : Checks engine runtime tools station_checks all_valid [] 300
unfolding check_certificate
checks = record {
  agrees = λ key digest signature h. refl;
  compares = λ a b. refl;
  certified = λ m h. refl;
}

alone-Apart : (i : ℕ) → Apart engine runtime tools (alone i)
alone-Apart i = record {
  votes_same = λ s. refl;
  options_same = λ s. refl;
  snapshots_same = λ s. refl;
}

abbrev settled : VoteTables
settled = (settle engine runtime tools 1 100 (λ i. 51 + i) alone cast).1

abbrev final : VoteResultSnapshot
final = record {
  id = 51;
  vote_id = 1;
  version = 2;
  counts = counts;
  total = 1;
  result_digest = elim (encode_vote_result engine runtime tools 1 counts 1 100) [
    | none ↦ []
    | some b ↦ b
  ];
  signature = ones 64;
  signer_certificate = ones 7;
  signer_public_key = ones 65;
  published_at = 100;
  is_final = true;
}

is_settled : settle engine runtime tools 1 100 (λ i. 51 + i) alone cast ≡ (ok final, settled)
unfolding submit settle ascii canonical_utc get select_first bytes_eq order_by select rowcount
is_settled = refl

found : vote_by_id 1 cast ≡ some the_vote
unfolding submit ascii canonical_utc get select_first bytes_eq order_by select rowcount
found = refl

none_final : final_snapshot 1 cast ≡ none
unfolding submit ascii canonical_utc get select_first bytes_eq order_by select rowcount
none_final = refl

verify-settle_example :
    verify engine runtime tools station_checks all_valid [] 1 300 settled
    ≡ both_valid engine runtime tools station_checks all_valid []
verify-settle_example =
    verify-settle engine runtime tools station_checks all_valid [] 1 the_vote 100 300 (λ i. 51 + i)
      alone cast settled final checks alone-Apart found refl refl none_final is_settled

start-IsTallied : IsTallied start
unfolding rowcount
start-IsTallied = record {
  once = λ sn. omega arith;
  spent = λ sn. omega arith;
  settled = λ k. omega arith;
}

abbrev calls : List VoteCall
calls =
    submitting request fresh
    ∷ submitting request fresh
    ∷ settling 1 100 (λ i. 51 + i)
    ∷ scanning 10 200 (λ k i. 61 + i)
    ∷ []

after_calls-IsTallied_example :
    IsTallied (after_calls engine runtime tools calls (λ n k i s. s) start)
after_calls-IsTallied_example =
    after_calls-IsTallied engine runtime tools calls (λ n k i s. s) start (λ n k i t h. h)
      start-IsTallied
