-- ===== src/Auth/Login/Secret.antt =====
-- The encrypted private key of an account: `_parse_encrypted_private_key` and the steps that open it
-- (server/app/services/login.py).
use crypto_campus.Prelude.{
  ℕ, zero, suc, ◌+◌, ◌-◌, ◌≤◌, ◌≡◌, refl, sym, ap, ◌∙◌, true, false, some, List, [], ◌∷◌, ◌++◌,
  Bytes, arith, length, take, drop, bytes_eq, eq_of-bytes_eq, length-take, ◌==◌,
}
use crypto_campus.Text.{codes}
use crypto_campus.Models.{User}
use crypto_campus.Crypto.{CryptoEngine}
use crypto_campus.Auth.Login.{parse_encrypted_private_key}

module _ {A : Type 0} where
  take-append-drop : (n : ℕ) (xs : List A) → take n xs ++ drop n xs ≡ xs
  take-append-drop zero xs = refl
  take-append-drop (suc n) [] = refl
  take-append-drop (suc n) (x ∷ xs) = ap (λ ys. x ∷ ys) (take-append-drop n xs)

  length-drop : (n : ℕ) (xs : List A) → length (drop n xs) ≡ length xs - n
  length-drop zero xs = omega arith
  length-drop (suc n) [] = omega arith
  length-drop (suc n) (x ∷ xs) = omega (arith, length-drop n xs)

  drop-nil : (n : ℕ) → drop {A = A} n [] ≡ []
  drop-nil zero = refl
  drop-nil (suc n) = refl

  drop-drop : (m n k : ℕ) (xs : List A) → n + m ≡ k → drop m (drop n xs) ≡ drop k xs
  drop-drop m zero k xs h = ap (λ k. drop k xs) (omega (arith, h))
  drop-drop m (suc n) k [] h = drop-nil m ∙ sym (drop-nil k)
  drop-drop m (suc n) zero (x ∷ xs) h = absurd (omega (arith, h))
  drop-drop m (suc n) (suc k) (x ∷ xs) h = drop-drop m n k xs (omega (arith, h))

  -- A list from its `n`th element on begins with the next `m`.
  next_part : (m n k : ℕ) (xs : List A) → n + m ≡ k → take m (drop n xs) ++ drop k xs ≡ drop n xs
  next_part m n k xs h =
      ap (λ ys. take m (drop n xs) ++ ys) (sym (drop-drop m n k xs h))
      ∙ take-append-drop m (drop n xs)

-- The columns of an encrypted key: the version, the nonce, the ciphertext and the tag.
pub record IsEncrypted (enc_sk nonce ciphertext tag : Bytes) : Type 0 where
  pub layout : enc_sk ≡ codes "v1" ++ (nonce ++ (ciphertext ++ tag))
  pub nonce_size : length nonce ≡ 12
  pub some_ciphertext : 1 ≤ length ciphertext
  pub tag_size : length tag ≡ 16

split_at_three :
    (xs : Bytes)
    → 30 ≤ length xs
    → xs
      ≡ take 2 xs
        ++ (take 12 (drop 2 xs)
            ++ (take (length xs - 16 - 14) (drop 14 xs) ++ drop (length xs - 16) xs))
split_at_three xs long =
    let last = next_part (length xs - 16 - 14) 14 (length xs - 16) xs (omega (arith, long)) in
    let middle = next_part 12 2 14 xs refl in
    sym (
      ap (λ ys. take 2 xs ++ (take 12 (drop 2 xs) ++ ys)) last
      ∙ ap (λ ys. take 2 xs ++ ys) middle
      ∙ take-append-drop 2 xs)

pub parse_encrypted_private_key-IsEncrypted :
    (enc_sk nonce ciphertext tag : Bytes)
    → parse_encrypted_private_key enc_sk ≡ some (nonce, ciphertext, tag)
    → IsEncrypted enc_sk nonce ciphertext tag
unfolding parse_encrypted_private_key
parse_encrypted_private_key-IsEncrypted xs nonce ciphertext tag h =
    let long : 30 ≤ length xs = ground (arith, h) in
    let version : bytes_eq (take 2 xs) (codes "v1") ≡ true = ground (arith, h) in
    let is_nonce : take 12 (drop 2 xs) ≡ nonce = ground (arith, h) in
    let is_ciphertext : take (length xs - 16 - 14) (drop 14 xs) ≡ ciphertext = ground (arith, h) in
    let is_tag : drop (length xs - 16) xs ≡ tag = ground (arith, h) in
    record {
      layout =
          split_at_three xs long
          ∙ ap
              (λ ys.
                ys
                ++ (take 12 (drop 2 xs)
                    ++ (take (length xs - 16 - 14) (drop 14 xs) ++ drop (length xs - 16) xs)))
              (eq_of-bytes_eq (take 2 xs) (codes "v1") version)
          ∙ ap
              (λ ys.
                codes "v1"
                ++ (ys ++ (take (length xs - 16 - 14) (drop 14 xs) ++ drop (length xs - 16) xs)))
              is_nonce
          ∙ ap (λ ys. codes "v1" ++ (nonce ++ (ys ++ drop (length xs - 16) xs))) is_ciphertext
          ∙ ap (λ ys. codes "v1" ++ (nonce ++ (ciphertext ++ ys))) is_tag;
      nonce_size =
          ap length (sym is_nonce)
          ∙ omega (arith, length-take 12 (drop 2 xs), length-drop 2 xs, long);
      some_ciphertext = ground (arith, h);
      tag_size = ap length (sym is_tag) ∙ omega (arith, length-drop (length xs - 16) xs, long);
    }

-- `key` is what the user's encrypted private key holds: the key derived from the password and the
-- user's salt opens its ciphertext, with its nonce and its tag and without further data, to `key`,
-- which is not empty.
pub record Decrypts (e : CryptoEngine) (u : User) (password_bytes key : Bytes) : Type 0 where
  pub kek : Bytes
  pub derived : e.hkdf_sm3 password_bytes u.salt_k (codes "user-kek") 16 ≡ some kek
  pub nonce : Bytes
  pub ciphertext : Bytes
  pub tag : Bytes
  pub encrypted : IsEncrypted u.enc_sk nonce ciphertext tag
  pub opened : e.sm4_gcm_decrypt kek nonce ciphertext [] tag ≡ some key
  pub full : (length key == 0) ≡ false
