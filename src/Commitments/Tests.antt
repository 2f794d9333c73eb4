-- ===== src/Commitments/Tests.antt =====
-- The theorems on the commitments, run on a store of two.
use crypto_campus.Prelude.{
  ℕ, ◌≡◌, refl, true, false, ◌&&◌, some, [], ◌∷◌, arith, bytes_eq, if◌then◌else◌, select_first,
  ◌==◌,
}
use crypto_campus.Drop.Samples.{ones}
use crypto_campus.Commitments.{
  BlindCommitmentRecord, ok, err, commitment_not_found, commitment_mismatch, Store, lookup, create,
  consume,
}
use crypto_campus.Commitments.Binding.{consume_commitment_once, create-consume}

abbrev made : ℕ → BlindCommitmentRecord
made k = record {
  commitment_id = k;
  user_id = 1;
  service = ones 4;
  period = ones 2;
  commitment_point = 4 ∷ ones 64;
  secret_k = ones 32;
  expires_at = 100;
  consumed = false;
}

abbrev store : Store
store = made 1 ∷ made 2 ∷ []

abbrev used : BlindCommitmentRecord
used = record (made 1) { consumed = true }

hands_out : (consume 1 1 (ones 4) (ones 2) 50 store).0 ≡ ok used
unfolding consume select_first bytes_eq
hands_out = refl

consume_commitment_once_example :
    let rows' = (consume 1 1 (ones 4) (ones 2) 50 store).1 in
    (consume 1 1 (ones 4) (ones 2) 60 rows' ≡ (err commitment_not_found, rows'))
    × (lookup 2 rows' ≡ lookup 2 store)
consume_commitment_once_example =
    consume_commitment_once 1 1 (ones 4) (ones 2) 50 store used 1 (ones 4) (ones 2) 60 2 hands_out
      (λ q. absurd (omega (arith, q)))

create-consume_example :
    (consume 9 2
      (ones 4)
      (ones 2)
      20
      (create (ones 4) (ones 2) 1 (some (ones 32, 4 ∷ ones 64)) 9 10 (some 5) store).1).0
    ≡ (if 1 == 2 && (bytes_eq (ones 4) (ones 4) && bytes_eq (ones 2) (ones 2))
        then ok (record {
          commitment_id = 9;
          user_id = 1;
          service = ones 4;
          period = ones 2;
          commitment_point = 4 ∷ ones 64;
          secret_k = ones 32;
          expires_at = 5000010;
          consumed = true;
        })
        else err commitment_mismatch)
create-consume_example =
    create-consume (ones 4) (ones 2) 1 9 10 (ones 32) (4 ∷ ones 64) 5 store 2 (ones 4) (ones 2) 20
      refl (omega arith)
