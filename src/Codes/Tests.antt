-- ===== src/Codes/Tests.antt =====
-- The theorems on the registration codes, run on one address.
use crypto_campus.Prelude.{
  ◌≡◌, refl, false, ◌&&◌, [], ◌∷◌, arith, bytes_eq, ltb, rowcount, update_where,
}
use crypto_campus.Drop.Samples.{engine, ones}
use crypto_campus.Codes.{ok, Codes, ascii, digest, issue, consume}
use crypto_campus.Codes.Once.{consume_once, issue-consume}

abbrev issued : Codes
issued =
    record {
      email = ones 3;
      issue_id = 1;
      code_digest = ones 32;
      expires_at = 100;
      consumed = false;
    }
    ∷ []

digests : digest engine (ones 32) ≡ ok (ones 32)
unfolding digest ascii
digests = refl

consume_once_example :
    (consume engine (ones 3) (ones 32) 60 (consume engine (ones 3) (ones 32) 50 issued).1).0
    ≡ ok false
unfolding consume digest ascii rowcount bytes_eq update_where
consume_once_example =
    consume_once engine (ones 3) (ones 32) 50 issued (omega arith) refl (ones 32) 60 (ones 32)
      digests

issue-consume_example :
    (consume engine (ones 3) (ones 32) 150 (issue engine (ones 3) (ones 32) 200 2 issued).1).0
    ≡ ok (bytes_eq (ones 32) (ones 32) && ltb 150 200)
unfolding rowcount bytes_eq
issue-consume_example =
    issue-consume engine (ones 3) (ones 32) 200 2 (ones 32) issued digests (omega arith) (ones 32)
      150 (ones 32) digests
