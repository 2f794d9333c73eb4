-- ===== src/Auth/Policy.antt =====
-- server/app/security/password_policy.py: campus addresses and passwords.
use crypto_campus.Prelude.{
  ℕ, Bool, false, ◌&&◌, ◌||◌, not, Option, none, some, List, [], ◌∷◌, Text, length, bytes_eq, ◌==◌,
  leb, between, if◌then◌else◌,
}
use crypto_campus.Crypto.{Runtime}
use crypto_campus.Auth.Sessions.{split_by}

unfoldable pub any_char : (ℕ → Bool) → Text → Bool
any_char p [] = false
any_char p (c ∷ cs) = p c || any_char p cs

-- `lstrip("@")`
unfoldable pub without_at : Text → Text
without_at [] = []
without_at (c ∷ cs) = let rest = without_at cs in if c == b'@' then rest else c ∷ cs

module _ (rt : Runtime) where
  -- The allowed domains of a setting, as a list.
  unfoldable pub domains_of : List Text → List Text
  unfolding without_at
  domains_of [] = []
  domains_of (t ∷ ts) =
      let rest = domains_of ts in
      if length (rt.strip t) == 0 then rest else without_at (rt.lower (rt.strip t)) ∷ rest

  unfoldable pub is_allowed : Text → List Text → Bool
  is_allowed d [] = false
  is_allowed d (x ∷ xs) = bytes_eq d x || is_allowed d xs

  -- A part of an address: not empty, with no white space.
  unfoldable pub is_part : Text → Bool
  unfolding any_char
  is_part t = leb 1 (length t) && not (any_char rt.is_space t)

  -- The domain of an address of the form `name@domain`, each part without `@` and white space.
  unfoldable pub domain_of : List Text → Option Text
  unfolding is_part
  domain_of (name ∷ domain ∷ []) = if is_part name && is_part domain then some domain else none
  domain_of _ = none

  -- `normalize_campus_email`, with the setting of the allowed domains; `none` is the error.
  unfoldable pub normalize_campus_email : Text → Text → Option Text
  unfolding domain_of domains_of is_allowed
  normalize_campus_email setting email =
      let normalized = rt.lower (rt.strip email) in
      if leb (length normalized) 254
      then (elim (domain_of (split_by b'@' normalized)) [
        | none ↦ none
        | some d ↦
            if is_allowed d (domains_of (split_by b',' setting)) then some normalized else none
      ])
      else none

-- `is_valid_password`
pub is_valid_password : Text → Bool
unfolding any_char
is_valid_password p =
    between 10 128 (length p)
    && (any_char (between b'a' b'z') p
        && (any_char (between b'A' b'Z') p && any_char (between b'0' b'9') p))
