-- ===== src/Drop/Lookup/Metadata.antt =====
-- What the metadata of a drop tell, and when (`get_drop_metadata` of server/app/services/drop.py).
use crypto_campus.Prelude.{
  ℕ, ◌≡◌, refl, true, false, some, Text, arith, Option-cases, inl, inr, is_some, Bool-cases,
}
use crypto_campus.Crypto.{CryptoEngine, Runtime}
use crypto_campus.Drop.Rows.{Drop, DropStatus, is_available, is_cooling_down}
use crypto_campus.Drop.State.{Db, ok}
use crypto_campus.Drop.Update.{due}
use crypto_campus.Drop.Cooldown.{before_attempt}
use crypto_campus.Drop.Cooldown.Admission.{IsAdmitted, before_attempt_ok}
use crypto_campus.Drop.Actions.{Result-cases}
use crypto_campus.Drop.Lookup.{DropMetadata, is_link_code, by_link_code, get_drop_metadata}

module _ (e : CryptoEngine) (rt : Runtime) where
  -- The metadata are those of a drop that the code names, and that is there to be read.
  pub record Describes (code : Text) (now : ℕ) (s s' : Db) (m : DropMetadata) : Type 0 where
    pub row : Drop
    pub found : by_link_code e rt code s ≡ some row
    pub well_formed : is_link_code code ≡ true
    pub early : due now row.expires_at ≡ false
    pub admitted : IsAdmitted row now s s'
    pub same_code : m.code ≡ code
    pub open_status : m.status ≡ DropStatus.available
    pub same_size : m.size ≡ row.content_size
    pub same_kind : m.kind ≡ row.kind
    pub same_expiry : m.expires_at ≡ row.expires_at
    pub same_burning : m.burn_after_read ≡ row.burn_after_read
    pub same_name : m.filename ≡ row.filename
    pub password : m.requires_password ≡ is_some row.access_factor_salt

  status_of : (st : DropStatus) → is_available st ≡ true → st ≡ DropStatus.available
  status_of DropStatus.available h = refl
  status_of DropStatus.consumed h = absurd (ground (arith, h))
  status_of DropStatus.expired h = absurd (ground (arith, h))
  status_of DropStatus.destroyed h = absurd (ground (arith, h))
  status_of DropStatus.cooling_down h = absurd (ground (arith, h))

  get_drop_metadata-IsAdmitted :
      (code : Text) (now fresh : ℕ) (s : Db) (m : DropMetadata) (d : Drop)
      → (get_drop_metadata e rt code now fresh s).0 ≡ ok m
      → by_link_code e rt code s ≡ some d
      → IsAdmitted d now s (get_drop_metadata e rt code now fresh s).1
  unfolding get_drop_metadata
  get_drop_metadata-IsAdmitted code now fresh s m d h found =
      elim (Result-cases (before_attempt d now s)) [
        | inl (x, refused) ↦ elim (Bool-cases (is_cooling_down d.status)) [
          | inl cooling ↦ absurd (ground (arith, h, found, refused, cooling))
          | inr warm ↦ inl (ground (arith, h, found, warm), ground (arith, h, found, warm))
        ]
        | inr (d', admitted) ↦ elim (Bool-cases (is_cooling_down d.status)) [
          | inl cooling ↦
              before_attempt_ok d d' now s (get_drop_metadata e rt code now fresh s).1
                (ground (arith, h, found, admitted, cooling))
          | inr warm ↦ inl (ground (arith, h, found, warm), ground (arith, h, found, warm))
        ]
      ]

  -- Metadata are given only for a well-formed link code that names a drop whose expiry has not come,
  -- and that is available, in which case nothing is written, or that cools down and whose deadline
  -- has come, in which case the row is opened again and nothing else is written. They tell the code,
  -- the status `available`, and the size, the kind, the name, the expiry, the burning and the need of
  -- a password of the row.
  pub get_drop_metadata-Describes :
      (code : Text) (now fresh : ℕ) (s : Db) (m : DropMetadata)
      → (get_drop_metadata e rt code now fresh s).0 ≡ ok m
      → Describes code now s (get_drop_metadata e rt code now fresh s).1 m
  unfolding get_drop_metadata before_attempt
  get_drop_metadata-Describes code now fresh s m h =
      elim (Option-cases (by_link_code e rt code s)) [
        | inl missing ↦ absurd (ground (arith, h, missing))
        | inr (d, found) ↦ record {
          row = d;
          found = found;
          well_formed = ground (arith, h, found);
          early = ground (arith, h, found);
          admitted = get_drop_metadata-IsAdmitted code now fresh s m d h found;
          same_code = ground (arith, h, found);
          open_status = ground (arith, h, found);
          same_size = ground (arith, h, found);
          same_kind = ground (arith, h, found);
          same_expiry = ground (arith, h, found);
          same_burning = ground (arith, h, found);
          same_name = ground (arith, h, found);
          password = ground (arith, h, found);
        }
      ]
