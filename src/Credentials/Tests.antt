-- ===== src/Credentials/Tests.antt =====
-- The theorems on the issuance, run on a user with a commitment.
use crypto_campus.Prelude.{
  ◌≡◌, refl, true, false, some, List, [], ◌∷◌, arith, get, select_first, update_where, bytes_eq,
  rowcount,
}
use crypto_campus.Text.{codes}
use crypto_campus.Action.{ok}
use crypto_campus.Quota.Rows.{Resource}
use crypto_campus.Commitments.{BlindCommitmentRecord}
use crypto_campus.Drop.Samples.{ones, engine, runtime, user}
use crypto_campus.Credentials.Rows.{IssuerState, IssueRequest, IssueTools}
use crypto_campus.Credentials.{check_request, issue}
use crypto_campus.Credentials.Paid.{IsPaid}
use crypto_campus.Credentials.Paid.Calls.{after_issues, after_issues-IsPaid}
use crypto_campus.Credentials.Again.{issue_again}
use crypto_campus.Credentials.Verification.{
  CredentialProof, VerifiedCredential, VerificationTools, VerificationTables,
  verify_consumption_credential, verify, is_consumed, verify_consumption-verify,
}
use crypto_campus.Quota.{day_of}
use crypto_campus.Codes.{ascii}

abbrev tools : IssueTools
tools = record {
  b64decode = λ t. some t;
  commitment_id = λ b. 9;
  signer_private_key = λ service. some (ones 32);
  blind_sign = λ blinded key secret_k. ok (ones 64);
}

abbrev commitment : BlindCommitmentRecord
commitment = record {
  commitment_id = 9;
  user_id = 1;
  service = codes "hole_post";
  period = 0 ∷ [];
  commitment_point = 4 ∷ ones 64;
  secret_k = ones 32;
  expires_at = 1000;
  consumed = false;
}

abbrev start : IssuerState
start = record {
  tables = record { users = user 1 ∷ []; ledger = []; issues = []; log = [] };
  store = commitment ∷ [];
}

abbrev request : IssueRequest
request = record {
  user_id = 1;
  service = codes "hole_post";
  period = 0 ∷ [];
  blinded_message_b64 = ones 48;
  idempotency_key = ones 16;
  now = 10;
}

abbrev alone : IssuerState → IssuerState
alone s = s

abbrev issued : IssuerState
issued = (issue engine runtime tools request alone start).1

is_issued : issue engine runtime tools request alone start ≡ (ok (ones 64), issued)
unfolding issue get select_first update_where bytes_eq rowcount
is_issued = refl

passes :
    check_request engine runtime tools (record request { now = 20 }) issued.tables
    ≡ ok (Resource.hole_credential, ones 48)
unfolding issue check_request get select_first update_where bytes_eq rowcount
passes = refl

issue_again_example :
    issue engine runtime tools (record request { now = 20 }) alone issued ≡ (ok (ones 64), issued)
issue_again_example =
    issue_again engine runtime tools (λ a b. refl) request alone alone start issued (ones 64) 20
      (Resource.hole_credential, ones 48) is_issued passes

start-IsPaid : IsPaid start.tables
unfolding rowcount select_first
start-IsPaid = record {
  once = λ u x p. omega arith;
  bounded = λ u x p l h. omega arith;
  paid = λ u x p. omega arith;
}

-- The request, the same again, and one under another key.
abbrev requests : List IssueRequest
requests = request ∷ record request { now = 20 } ∷ record request { idempotency_key = ones 20 } ∷ []

after_issues-IsPaid_example :
    IsPaid (after_issues engine runtime tools (λ n. alone) requests start).tables
after_issues-IsPaid_example =
    after_issues-IsPaid engine runtime tools (λ n. alone) requests start (λ n t h. h) start-IsPaid

abbrev proof_tools : VerificationTools
proof_tools = record {
  fromhex = λ t. some t;
  b64decode = λ t. some t;
  signer_public_key = λ service. some (ones 65);
  blind_verify = λ message signature key. ok true;
}

abbrev proof : CredentialProof
proof = record { sn = ones 16; service = codes "hole_post"; period = 0 ∷ []; signature = ones 64 }

abbrev clean : VerificationTables
clean = record { consumed = []; revoked = [] }

abbrev verified : VerifiedCredential
verified = record {
  sn_bytes = ones 16;
  signature_bytes = ones 64;
  normalized_sn = ones 16;
  service = codes "hole_post";
  period = 0 ∷ [];
}

is_verified :
    verify_consumption_credential runtime proof_tools proof (codes "hole_post") 10 true clean
    ≡ ok verified
unfolding verify_consumption_credential bytes_eq select_first ascii
is_verified = refl

verify_consumption-verify_example :
    (bytes_eq (codes "hole_post") (codes "hole_post") ≡ true)
    × (bytes_eq (0 ∷ []) (runtime.isodate (day_of 10)) ≡ true)
    × (verify runtime proof_tools proof clean
        ≡ ok (record {
          valid = true;
          service = codes "hole_post";
          period = 0 ∷ [];
          consumed = is_consumed (ones 16) (codes "hole_post") clean;
          revoked = false;
        }))
verify_consumption-verify_example =
    verify_consumption-verify runtime proof_tools proof (codes "hole_post") 10 clean verified
      is_verified
