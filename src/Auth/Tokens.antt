-- ===== src/Auth/Tokens.antt =====
-- The access tokens of server/app/security/tokens.py: `JwtTokenIssuer` and the checks of
-- `PyJwtTokenCodec.verify_access_token`. The encoding and the signature are PyJWT's.
use crypto_campus.Prelude.{
  ℕ, ◌+◌, ◌*◌, ◌/◌, ◌≤◌, ◌≡◌, Bool, true, false, ◌&&◌, ◌||◌, not, Option, none, some, Text, arith,
  length, bytes_eq, ◌==◌, leb, ltb, if◌then◌else◌, ap, ◌∙◌,
}
use crypto_campus.Text.{codes}

-- A value of a claim: a whole number, a string, or anything else.
pub data Claim : Type 0 where
  whole : ℕ → Claim
  text : Text → Claim
  other : Claim

-- The claims that the code reads; PyJWT refuses a token without the first five.
pub record Claims : Type 0 where
  pub sub : Claim
  pub role : Claim
  pub iat : Claim
  pub exp : Claim
  pub jti : Claim
  pub sid : Option Claim

-- `int(instant.timestamp())`
abbrev pub seconds : ℕ → ℕ
seconds t = t / 1000000

abbrev pub is_nonempty_text : Claim → Bool
is_nonempty_text (whole n) = false
is_nonempty_text (text t) = not (length t == 0)
is_nonempty_text other = false

-- `role in {"student", "admin", "teacher"}`
abbrev pub is_access_role : Claim → Bool
is_access_role (whole n) = false
is_access_role (text t) =
    bytes_eq t (codes "student") || bytes_eq t (codes "admin") || bytes_eq t (codes "teacher")
is_access_role other = false

-- The conditions on `iat` and `exp`.
abbrev pub is_current : Claim → Claim → ℕ → Bool
is_current (whole iat) (whole exp) now =
    not (leb exp now) && not (ltb (now + 60) iat) && exp == iat + 7200
is_current _ _ now = false

abbrev pub is_valid_sid : Option Claim → Bool
is_valid_sid none = true
is_valid_sid (some c) = is_nonempty_text c

-- The claims of a new token.
unfoldable pub access_claims : Text → Text → ℕ → Option Text → Text → Claims
access_claims user_id role now sid jti = record {
  sub = text user_id;
  role = text role;
  iat = whole (seconds now);
  exp = whole (seconds (now + 2 * 60 * 60 * 1000000));
  jti = text jti;
  sid = elim sid [ none ↦ none | some s ↦ some (text s) ];
}

two_hours : (now : ℕ) → seconds (now + 2 * 60 * 60 * 1000000) ≡ seconds now + 7200
two_hours now = omega arith

is_current_lem :
    (n l : ℕ) → is_current (whole n) (whole (n + 7200)) l ≡ (ltb l (n + 7200) && leb n (l + 60))
is_current_lem n l = ground arith

is_current-issued :
    (now l : ℕ)
    → is_current (whole (seconds now)) (whole (seconds (now + 2 * 60 * 60 * 1000000))) l
      ≡ (ltb l (seconds now + 7200) && leb (seconds now) (l + 60))
is_current-issued now l =
    ap (λ x. is_current (whole (seconds now)) (whole x) l) (two_hours now)
    ∙ is_current_lem (seconds now) l

-- `none` is an exception of PyJWT, and the `TokenIssuerError` that the functions turn it into.
module _ (encode : Claims → Option Text) (decode : Text → Option Claims) where
  unfoldable pub issue_access_token : Text → Text → ℕ → Option Text → Text → Option Text
  issue_access_token user_id role now sid jti =
      elim (encode (access_claims user_id role now sid jti)) [
        | none ↦ none
        | some token ↦ if length token == 0 then none else some token
      ]

  pub verify_access_token : Text → ℕ → Option Claims
  verify_access_token token now =
      if length token == 0 || not (leb (length token) 8192) then none else elim (decode token) [
        | none ↦ none
        | some c ↦
            if is_current c.iat c.exp (seconds now)
              && is_nonempty_text c.sub
              && is_access_role c.role
              && is_nonempty_text c.jti
              && is_valid_sid c.sid
            then some c
            else none
      ]

  issue_ok :
      (user_id role : Text) (now : ℕ) (sid : Option Text) (jti token : Text)
      → issue_access_token user_id role now sid jti ≡ some token
      → (encode (access_claims user_id role now sid jti) ≡ some token)
        × ((length token == 0) ≡ false)
  unfolding issue_access_token
  issue_ok user_id role now sid jti token h = ground arith

  -- A token that was issued for a user with one of the three roles verifies, to the claims it was
  -- issued with, for the two hours after it was issued, and from a minute before (the skew that
  -- is allowed), by the clock in whole seconds, and at no other instant. The token has the
  -- length that is allowed, and it decodes to what it was made from.
  pub issue-verify :
      (user_id role : Text) (now later : ℕ) (sid : Option Text) (jti token : Text)
      → issue_access_token user_id role now sid jti ≡ some token
      → (encode (access_claims user_id role now sid jti) ≡ some token
          → decode token ≡ some (access_claims user_id role now sid jti))
      → length token ≤ 8192
      → is_access_role (text role) ≡ true
      → is_nonempty_text (text user_id) ≡ true
      → is_nonempty_text (text jti) ≡ true
      → is_valid_sid (access_claims user_id role now sid jti).sid ≡ true
      → verify_access_token token later ≡ (
          if ltb (seconds later) (seconds now + 7200) && leb (seconds now) (seconds later + 60)
          then some (access_claims user_id role now sid jti)
          else none)
  unfolding verify_access_token access_claims
  issue-verify user_id role now later sid jti token h roundtrip len r u j s =
      let (made, nonempty) = issue_ok user_id role now sid jti token h in
      rw (nonempty, roundtrip made, is_current-issued now (seconds later), u, r, j, s)
        (ground (arith, len))
