-- ===== src/Drop/Delivery.antt =====
-- From a create to an extraction: the codes that `_create_drop` answers open the drop in `extract_drop`
-- (server/app/services/drop.py).
use crypto_campus.Prelude.{
  ℕ, ◌≡◌, ap, ◌∙◌, true, false, Option, Text, arith, bytes_eq, bytes_eq_refl,
}
use crypto_campus.Crypto.{CryptoEngine, Runtime, ComparesBytes}
use crypto_campus.Drop.Rows.{Drop, is_available}
use crypto_campus.Drop.State.{Db, ok}
use crypto_campus.Drop.Services.{Collaborators}
use crypto_campus.Drop.Requests.{Fresh, CreateRequest, CreateDropResponse, is_key_length}
use crypto_campus.Drop.Update.{due}
use crypto_campus.Drop.Create.{create_drop}
use crypto_campus.Drop.Create.Stored.{create_drop-IsCreated}
use crypto_campus.Drop.Lookup.{ExtractRequest, is_link_code, is_access_code, open_attempt}
use crypto_campus.Drop.Lookup.Attempt.{open_attempt_early}
use crypto_campus.Drop.Extract.{is_right_code}

-- The codes of a create open the drop: until it expires, a request with the link code and the access
-- code of the answer, where these have the form that the extraction asks for, is led to the new drop
-- with nothing written, and its access code is the right one.
pub create-open_attempt :
    (e : CryptoEngine) (rt : Runtime) (sv : Collaborators) (r : CreateRequest) (f : Fresh) (s : Db)
    (x : CreateDropResponse) (now fresh : ℕ) (password : Option Text) (key : Text)
    → ComparesBytes e
    → (create_drop e rt sv r f s).0 ≡ ok x
    → is_link_code x.code ≡ true
    → is_access_code x.access_code ≡ true
    → is_key_length key ≡ true
    → due now x.expires_at ≡ false
    → let s' = (create_drop e rt sv r f s).1 in
      let q : ExtractRequest = record {
        code = x.code;
        access_code = x.access_code;
        access_password = password;
        idempotency_key = key;
        now = now;
      } in
      (d : Drop) × (d.id ≡ x.id)
      × (open_attempt e rt q fresh s' ≡ (ok d, s'))
      × (is_right_code e rt sv q d ≡ true)
create-open_attempt e rt sv r f s x now fresh password key compares h link access long early =
    let c = create_drop-IsCreated e rt sv r f s x h in
    let d = c.made in
    let s' = (create_drop e rt sv r f s).1 in
    let q : ExtractRequest = record {
      code = x.code;
      access_code = x.access_code;
      access_password = password;
      idempotency_key = key;
      now = now;
    } in
    let unexpired : due now d.expires_at ≡ false = ap (due now) c.expires ∙ early in
    let available = ap is_available c.available in
    let equal : e.constant_time_equal (e.sm3_digest (rt.utf8 x.access_code)) d.access_code_hash
        ≡ true =
      compares _ _
      ∙ ap (bytes_eq (e.sm3_digest (rt.utf8 x.access_code))) c.access
      ∙ bytes_eq_refl _ in
    (
      d,
      c.id,
      open_attempt_early e rt q fresh s' d (record { key = long; code = link; found = c.found })
          unexpired available,
      ground (arith, access, equal),
    )
