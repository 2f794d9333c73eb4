-- ===== src/Drop/Requests.antt =====
-- The requests, answers and texts of `DropService` (server/app/services/drop.py).
use crypto_campus.Prelude.{
  ℕ, ◌+◌, ◌*◌, Bool, true, false, Option, none, some, List, [], ◌∷◌, ◌++◌, Bytes, Text, length,
  between,
}
use crypto_campus.Text.{codes}
use crypto_campus.Drop.Rows.{
  DropKind, text, file, TtlPolicy, burn_after_read, hours_24, days_7, Operation, create_text,
  create_file,
}

-- MAX_DROP_CONTENT_SIZE
abbrev pub max_drop_content_size : ℕ
max_drop_content_size = 104857600

-- What `uuid4`, `secrets.choice` and `secrets.token_bytes` give; `link_code i` is the i-th draw.
pub record Fresh : Type 0 where
  pub drop_id : ℕ
  pub inspect_id : ℕ
  pub link_code : ℕ → Text
  pub access_code : Text
  pub salt : Bytes

-- The arguments of `_create_drop`; a `ttl_policy` outside the three is `none`.
pub record CreateRequest : Type 0 where
  pub sender_id : ℕ
  pub plaintext : Bytes
  pub kind : DropKind
  pub filename : Option Text
  pub ttl_policy : Option TtlPolicy
  pub pqc_mode : Bool
  pub access_password : Option Text
  pub idempotency_key : Text
  pub operation : Operation
  pub now : ℕ

pub record CreateDropResponse : Type 0 where
  pub id : ℕ
  pub code : Text
  pub access_code : Text
  pub expires_at : Option ℕ
  pub pqc_mode : Bool

abbrev pub is_key_length : Text → Bool
is_key_length key = between 16 128 (length key)

abbrev pub is_password : Option Text → Bool
is_password none = true
is_password (some p) = between 1 128 (length p)

-- `expires_at` for each policy, in microseconds.
abbrev pub expires_at_of : TtlPolicy → ℕ → Option ℕ
expires_at_of burn_after_read now = none
expires_at_of hours_24 now = some (now + 24 * 60 * 60 * 1000000)
expires_at_of days_7 now = some (now + 7 * 24 * 60 * 60 * 1000000)

abbrev pub burns : TtlPolicy → Bool
burns burn_after_read = true
burns _ = false

unfoldable pub policy_text : TtlPolicy → Text
policy_text burn_after_read = codes "burn_after_read"
policy_text hours_24 = codes "hours_24"
policy_text days_7 = codes "days_7"

unfoldable pub bool_text : Bool → Text
bool_text true = codes "True"
bool_text false = codes "False"

unfoldable pub kind_text : DropKind → Text
kind_text text = codes "text"
kind_text file = codes "file"

unfoldable pub operation_text : Operation → Text
operation_text create_text = codes "create_text"
operation_text create_file = codes "create_file"

-- `"|".join`
unfoldable pub bars : List Text → Text
bars [] = []
bars (t ∷ []) = t
bars (t ∷ ts) = t ++ (codes "|" ++ bars ts)
