-- ===== src/Drop/Tests.antt =====
-- The theorems on the drops, run on the sample tables.
use crypto_campus.Prelude.{
  get, select_first, bytes_eq, update_where, rowcount, min, ◌+◌, ℕ, ◌≡◌, refl, ap, true, false,
  none, some, [], ◌∷◌, arith, IsUnique,
}
use crypto_campus.Drop.Rows.{Drop, DropStatus, DropKind}
use crypto_campus.Drop.State.{
  Db, Result, ok, err, transaction, not_found, DropError, sender_certificate_invalid,
}
use crypto_campus.Drop.Samples.{
  engine, runtime, services, parcel, locked_parcel, db, db_with, request, wrong_request, fresh,
  create_request, create_fresh, ones, sending, certified_db, created,
}
use crypto_campus.Drop.Update.{get_drop, execute_update}
use crypto_campus.Drop.Cooldown.{record_failure, record_success, before_attempt}
use crypto_campus.Drop.Cooldown.Machine.{IsGuarded, guard_of, fail, attempt}
use crypto_campus.Drop.Cooldown.Refines.{
  Holds, Answers, record_failure_refines, before_attempt_refines,
}
use crypto_campus.Drop.Destruction.{destroy_after_success, destroy_expired, sweepable}
use crypto_campus.Drop.Destruction.Erasure.{IsErased, burn_once}
use crypto_campus.Drop.Destruction.Sweep.{SweptRow, destroy_expired_sweeps}
use crypto_campus.Drop.Extract.{
  extract_drop, Extracted, text_content, check_replay, check_access_code, commit_extraction,
  respond, is_right_code, record_extraction,
}
use crypto_campus.Drop.Extract.Outcome.{extract_wrong_code, extract_locked}
use crypto_campus.Drop.Extract.Failure.{Leaves, extract_err_writes}
use crypto_campus.Drop.Extract.Sound.{IsExtracted, extract_sound}
use crypto_campus.Drop.Extract.Burn.{burn_after_read_once}
use crypto_campus.Drop.Lookup.{
  is_link_code, is_access_code, open_attempt, ExtractRequest, get_drop_metadata, DropMetadata,
}
use crypto_campus.Drop.Lookup.Attempt.{Names}
use crypto_campus.Drop.Unseal.{
  unseal, derive_factor, check_envelope, pqc_private_key, recipient_keys, verify_sender,
  open_envelope,
}
use crypto_campus.Drop.Unseal.Soundness.{IsUnsealed, unseal_sound}
use crypto_campus.Drop.Create.{create_drop, generate_link_code}
use crypto_campus.Drop.Create.Atomic.{create_err_writes_nothing}
use crypto_campus.Drop.Create.Stored.{IsCreated, create_drop-IsCreated}
use crypto_campus.Drop.Delivery.{create-open_attempt}
use crypto_campus.Quota.{reserve}
use crypto_campus.Drop.Lookup.Metadata.{Describes, get_drop_metadata-Describes}

unseals : (unseal engine runtime services request parcel db).0 ≡ ok (72 ∷ 105 ∷ [])
unfolding get select_first unseal derive_factor check_envelope pqc_private_key recipient_keys
    verify_sender open_envelope
unseals = refl

opens : Names engine runtime request db parcel
unfolding is_link_code select_first bytes_eq
opens = record { key = refl; code = refl; found = refl }

opens_wrong : Names engine runtime wrong_request db parcel
unfolding is_link_code select_first bytes_eq
opens_wrong = record { key = refl; code = refl; found = refl }

opens_locked : Names engine runtime request (db_with locked_parcel) locked_parcel
unfolding is_link_code select_first bytes_eq
opens_locked = record { key = refl; code = refl; found = refl }

extracts :
    (extract_drop engine runtime services request fresh db).0
    ≡ ok (text_content (72 ∷ 105 ∷ []) 100)
unfolding get select_first bytes_eq update_where rowcount extract_drop open_attempt is_link_code
    is_access_code before_attempt check_replay check_access_code unseal derive_factor check_envelope
    pqc_private_key recipient_keys verify_sender open_envelope commit_extraction respond
    destroy_after_success execute_update record_success transaction record_extraction
extracts = refl

unique : (d : Drop) → IsUnique (λ (x : Drop). x.id) (d ∷ [])
unfolding get select_first
unique d = (refl, tt)

unseal_sound_example : IsUnsealed engine runtime services request parcel db (72 ∷ 105 ∷ [])
unseal_sound_example =
    unseal_sound engine runtime services request parcel db (72 ∷ 105 ∷ []) unseals

extract_sound_example :
    IsExtracted engine runtime services request fresh db (text_content (72 ∷ 105 ∷ []) 100)
extract_sound_example =
    extract_sound engine runtime services request fresh db (text_content (72 ∷ 105 ∷ []) 100)
      extracts

guarded : IsGuarded parcel
guarded = record {
  below = λ h. omega arith;
  full = λ h. absurd (ground (arith, h));
  dated = λ h. absurd (ground (arith, h));
}

locked-IsGuarded : IsGuarded locked_parcel
locked-IsGuarded = record {
  below = λ h. absurd (ground (arith, h));
  full = λ h. refl;
  dated = λ h q. absurd (ground (arith, q));
}

held : (d : Drop) → get_drop d.id (db_with d) ≡ some d
unfolding get select_first
held d = ground arith

record_failure_refines_example :
    (d' : Drop) × Holds 7 parcel (fail 10 (guard_of parcel)) (record_failure 7 10 db).1 d'
    × ((record_failure 7 10 db).0 ≡ ok d'.failed_attempts)
record_failure_refines_example =
    record_failure_refines 7 10 db parcel (unique parcel) (held parcel) guarded

before_attempt_refines_example :
    Answers
      (attempt 600000000 (guard_of locked_parcel))
      locked_parcel
      (db_with locked_parcel)
      (before_attempt locked_parcel 600000000 (db_with locked_parcel))
before_attempt_refines_example =
    before_attempt_refines 600000000 (db_with locked_parcel) locked_parcel (unique locked_parcel)
      (held locked_parcel) locked-IsGuarded

burn_run : (destroy_after_success engine runtime 7 10 none 101 db).0 ≡ ok tt
unfolding destroy_after_success execute_update get select_first update_where rowcount
burn_run = refl

burn_once_example :
    ((d : Drop) × (get_drop 7 (destroy_after_success engine runtime 7 10 none 101 db).1 ≡ some d)
      × (d.status ≡ DropStatus.consumed)
      × IsErased d)
    × (destroy_after_success engine runtime 7 20
          (some 2)
          102
          (destroy_after_success engine runtime 7 10 none 101 db).1
        ≡ (err not_found, (destroy_after_success engine runtime 7 10 none 101 db).1))
burn_once_example =
    burn_once engine runtime 7 10 20 none (some 2) 101 102 db (unique parcel) burn_run

abbrev late_parcel : Drop
late_parcel = record parcel { expires_at = some 5 }

destroy_expired_sweeps_example :
    let s = db_with late_parcel in
    let (r, s') = destroy_expired engine runtime 10 3 none s in
    (r ≡ ok (min 3 (rowcount (sweepable 10) s.drops)))
    × (rowcount (sweepable 10) s'.drops + min 3 (rowcount (sweepable 10) s.drops)
        ≡ rowcount (sweepable 10) s.drops)
    × ((j : ℕ) → SweptRow 10 s s' j)
    × IsUnique (λ r. r.id) s'.drops
destroy_expired_sweeps_example =
    destroy_expired_sweeps engine runtime 10 3 none (db_with late_parcel) (unique late_parcel)

extract_locked_example :
    (x : DropError) × (extract_drop engine runtime services request fresh (db_with locked_parcel)
      ≡ (err x, db_with locked_parcel))
extract_locked_example =
    extract_locked engine runtime services request fresh (db_with locked_parcel) locked_parcel
      (unique locked_parcel) opens_locked locked-IsGuarded refl refl

-- A wrong code is answered `not_found`.
wrong_code_run : (extract_drop engine runtime services wrong_request fresh db).0 ≡ err not_found
unfolding select_first is_access_code bytes_eq
wrong_code_run =
    ap (λ (z : Result Extracted × Db). z.0)
      (extract_wrong_code engine runtime services wrong_request fresh db parcel (unique parcel)
        opens_wrong refl refl (λ x h. absurd (ground (arith, h))) refl)

extract_err_writes_example :
    Leaves engine runtime services wrong_request fresh db not_found
      (extract_drop engine runtime services wrong_request fresh db).1
extract_err_writes_example =
    extract_err_writes engine runtime services wrong_request fresh db not_found (unique parcel)
      wrong_code_run

burn_after_read_once_example :
    let s' = (extract_drop engine runtime services request fresh db).1 in
    ((d' : Drop) × (get_drop 7 s' ≡ some d') × (d'.status ≡ DropStatus.consumed) × IsErased d')
    × ((y : DropError) × (extract_drop engine runtime services wrong_request fresh s'
          ≡ (err y, s')))
burn_after_read_once_example =
    burn_after_read_once engine runtime services request fresh db parcel
      (text_content (72 ∷ 105 ∷ []) 100) wrong_request fresh (unique parcel) opens refl refl
      extracts refl

-- The sender has no certificate.
creates :
    (create_drop engine runtime services create_request create_fresh db).0
    ≡ err sender_certificate_invalid
unfolding create_drop get select_first
creates = refl

draws :
    generate_link_code engine runtime services 5 0 create_fresh.link_code db.drops
    ≡ some (65 ∷ ones 11)
unfolding generate_link_code select_first bytes_eq
draws = refl

create_err_writes_nothing_example :
    (create_drop engine runtime services create_request create_fresh db).1 ≡ db
create_err_writes_nothing_example =
    create_err_writes_nothing engine runtime services create_request create_fresh db
      sender_certificate_invalid creates

creates_one :
    (create_drop engine runtime sending create_request create_fresh certified_db).0 ≡ ok created
unfolding create_drop get select_first bytes_eq generate_link_code rowcount update_where reserve
creates_one = refl

create_drop-IsCreated_example :
    IsCreated engine runtime sending create_request create_fresh certified_db created
      (create_drop engine runtime sending create_request create_fresh certified_db).1
create_drop-IsCreated_example =
    create_drop-IsCreated engine runtime sending create_request create_fresh certified_db created
      creates_one

create-open_attempt_example :
    let s' = (create_drop engine runtime sending create_request create_fresh certified_db).1 in
    let q : ExtractRequest = record {
      code = 65 ∷ ones 11;
      access_code = ones 19;
      access_password = none;
      idempotency_key = ones 16;
      now = 20;
    } in
    (d : Drop) × (d.id ≡ 8)
    × (open_attempt engine runtime q 200 s' ≡ (ok d, s'))
    × (is_right_code engine runtime sending q d ≡ true)
unfolding is_link_code is_access_code
create-open_attempt_example =
    create-open_attempt engine runtime sending create_request create_fresh certified_db created 20
      200 none (ones 16) (λ a b. refl) creates_one refl refl refl refl

abbrev described : DropMetadata
described = record {
  code = ones 11;
  kind = DropKind.text;
  status = DropStatus.available;
  requires_password = false;
  burn_after_read = true;
  filename = none;
  size = 2;
  expires_at = none;
}

describes : (get_drop_metadata engine runtime (ones 11) 10 101 db).0 ≡ ok described
unfolding get_drop_metadata is_link_code select_first bytes_eq
describes = refl

get_drop_metadata-Describes_example :
    Describes engine runtime
      (ones 11)
      10
      db
      (get_drop_metadata engine runtime (ones 11) 10 101 db).1
      described
get_drop_metadata-Describes_example =
    get_drop_metadata-Describes engine runtime (ones 11) 10 101 db described describes
