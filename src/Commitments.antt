-- ===== src/Commitments.antt =====
-- The one-time commitments of the blind signatures: `BlindCommitmentStore` of
-- server/app/services/commitment_store.py. The lock makes each call one step on the dictionary.
pub mod Binding
mod Tests
use crypto_campus.Prelude.{
  ℕ, ◌+◌, ◌*◌, Bool, true, false, ◌&&◌, ◌||◌, not, Option, none, some, List, [], ◌∷◌, ◌++◌, Bytes,
  Text, length, bytes_eq, ◌==◌, ltb, leb, if◌then◌else◌, select_first, select,
}

-- `BlindCommitmentRecord`; the identifier is 16 random bytes, here a number.
pub record BlindCommitmentRecord : Type 0 where
  pub commitment_id : ℕ
  pub user_id : ℕ
  pub service : Text
  pub period : Text
  pub commitment_point : Bytes
  pub secret_k : Bytes
  pub expires_at : ℕ
  pub consumed : Bool

pub data CommitmentError : Type 0 where
  engine_invalid commitment_not_found commitment_expired commitment_mismatch : CommitmentError
  -- An exception of the engine passes through.
  bridge : CommitmentError

pub data Result (A : Type 0) : Type 0 where
  ok : A → Result A
  err : CommitmentError → Result A

-- The dictionary, in its order of insertion.
abbrev pub Store : Type 0
Store = List BlindCommitmentRecord

abbrev pub lookup : ℕ → Store → Option BlindCommitmentRecord
lookup k rows = select_first (λ r. r.commitment_id == k) rows

abbrev pub pop : ℕ → Store → Store
pop k rows = select (λ r. not (r.commitment_id == k)) rows

-- `now_utc >= record.expires_at`
abbrev pub is_over : ℕ → BlindCommitmentRecord → Bool
is_over now r = leb r.expires_at now

-- `_cleanup`
pub cleanup : ℕ → Store → Store
cleanup now rows =
    select (λ r. not (is_over now r || (r.consumed && ltb (r.expires_at + 300 * 1000000) now))) rows

abbrev starts_uncompressed : Bytes → Bool
starts_uncompressed [] = false
starts_uncompressed (b ∷ bs) = b == 4

-- The checks on what `blind_commit` returned.
abbrev pub is_commitment : Bytes → Bytes → Bool
is_commitment secret_k point =
    length secret_k == 32 && (length point == 65 && starts_uncompressed point)

-- `create`, with the drawn identifier and what the engine's `blind_commit` gives.
pub create :
    Text
    → Text
    → ℕ
    → Option (Bytes × Bytes)
    → ℕ
    → ℕ
    → Option ℕ
    → Store
    → Result BlindCommitmentRecord × Store
unfolding cleanup
create service period user_id none fresh now ttl rows = (err bridge, rows)
create service period user_id (some (secret_k, point)) fresh now ttl rows =
    let seconds : ℕ = elim ttl [ none ↦ 600 | some t ↦ t ] in
    let made : BlindCommitmentRecord = record {
      commitment_id = fresh;
      user_id = user_id;
      service = service;
      period = period;
      commitment_point = point;
      secret_k = secret_k;
      expires_at = now + seconds * 1000000;
      consumed = false;
    } in
    if is_commitment secret_k point
    then (ok made, pop fresh (cleanup now rows) ++ made ∷ [])
    else (err engine_invalid, rows)

pub get : ℕ → ℕ → Store → Option BlindCommitmentRecord × Store
get k now rows = elim (lookup k rows) [
  | none ↦ (none, rows)
  | some r ↦ if is_over now r then (none, pop k rows) else (some r, rows)
]

abbrev pub is_bound_to : ℕ → Text → Text → BlindCommitmentRecord → Bool
is_bound_to user_id service period r =
    r.user_id == user_id && (bytes_eq r.service service && bytes_eq r.period period)

unfoldable pub consume : ℕ → ℕ → Text → Text → ℕ → Store → Result BlindCommitmentRecord × Store
consume k user_id service period now rows = elim (lookup k rows) [
  | none ↦ (err commitment_not_found, rows)
  | some r ↦
      if is_over now r
      then (err commitment_expired, pop k rows)
      else if is_bound_to user_id service period r
      then (ok (record r { consumed = true }), pop k rows)
      else (err commitment_mismatch, rows)
]
