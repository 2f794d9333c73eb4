-- ===== src/Quota/Tests.antt =====
-- The theorems on the quota, run on a ledger of one row.
use crypto_campus.Prelude.{
  ◌-◌, min, ◌≡◌, List, [], ◌∷◌, arith, bytes_eq, select_first, rowcount, Option, none, Bytes, Text,
  get, true, refl,
}
use crypto_campus.Drop.Samples.{ones, engine, runtime, user}
use crypto_campus.Quota.Rows.{CredentialLedger, Resource}
use crypto_campus.Quota.{same_resource, reserve_row, used, day_of}
use crypto_campus.Quota.Limit.{
  IsWithin, IsBounded, count, reserve_many, reserve_row-IsBounded, reserve_many_exact,
}
use crypto_campus.Quota.Reset.{
  ResetTables, ResetRequest, Quota, reset, replay, get_quotas, is_daily,
}
use crypto_campus.Quota.Reset.Zero.{reset_zeroes, reset_again}
use crypto_campus.Action.{ok}

abbrev ledger : List CredentialLedger
ledger = record { user_id = 1; service = Resource.drop; period = ones 3; issued_count = 18 } ∷ []

within : IsWithin 1 Resource.drop (ones 3) 20 ledger
unfolding rowcount same_resource bytes_eq select_first
within = (omega arith, omega arith)

reserve_row-IsBounded_example :
    IsBounded 1 Resource.drop
      (ones 3)
      20
      (reserve_row 1 Resource.drop (ones 3) 20 (λ xs. xs) ledger)
reserve_row-IsBounded_example =
    reserve_row-IsBounded 1 Resource.drop (ones 3) 20 (λ xs. xs) ledger (omega arith) (λ xs w. w)
      within

reserve_many_exact_example :
    (reserve_many 1 Resource.drop (ones 3) 20 5 ledger).0
    ≡ min 5 (20 - count 1 Resource.drop (ones 3) 20 ledger)
reserve_many_exact_example =
    reserve_many_exact 1 Resource.drop (ones 3) 20 5 ledger (omega arith) within

abbrev resetting : ResetTables
resetting = record {
  users = user 1 ∷ user 2 ∷ [];
  ledger = record { user_id = 2; service = Resource.drop; period = 0 ∷ []; issued_count = 7 } ∷ [];
  resets = [];
  log = [];
  chain = [];
}

abbrev reset_request : ResetRequest
reset_request = record {
  user_id = 2;
  actor_id = 1;
  idempotency_key = ones 16;
  now = 5;
  reset_id = 3;
  chained = none;
}

abbrev no_uuid : Text → Option Bytes
no_uuid t = none

abbrev same_bytes : Bytes → Bytes
same_bytes b = b

abbrev after_reset : ResetTables
after_reset = (reset engine runtime no_uuid same_bytes reset_request resetting).1

abbrev zeroes : List Quota
zeroes = get_quotas runtime 2 5 after_reset.ledger

is_reset_run :
    reset engine runtime no_uuid same_bytes reset_request resetting ≡ (ok zeroes, after_reset)
unfolding reset get select_first
is_reset_run = refl

reset_zeroes_example :
    (zeroes ≡ get_quotas runtime 2 5 after_reset.ledger)
    × ((x : Resource)
        → is_daily x ≡ true
        → used 2 x (runtime.isodate (day_of 5)) after_reset.ledger ≡ 0)
unfolding replay select_first
reset_zeroes_example =
    reset_zeroes engine runtime no_uuid same_bytes reset_request resetting after_reset zeroes refl
      is_reset_run

reset_again_example :
    reset engine runtime no_uuid same_bytes
      (record reset_request { now = 9; reset_id = 4; chained = none })
      after_reset
    ≡ (ok zeroes, after_reset)
reset_again_example =
    reset_again engine runtime no_uuid same_bytes reset_request resetting after_reset zeroes 9 4
      none is_reset_run
