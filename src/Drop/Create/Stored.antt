-- ===== src/Drop/Create/Stored.antt =====
-- What a create that succeeds has stored, and that its codes open the drop (`_create_drop` of
-- server/app/services/drop.py).
use crypto_campus.Prelude.{
  ◌≡◌, refl, sym, ap, ◌∙◌, true, Option, none, some, List, [], ◌∷◌, ◌++◌, Bytes, Text, arith,
  bytes_eq, bytes_eq_refl, select_first, is_some, Option-cases, inl, inr,
}
use crypto_campus.Prelude.Keyed.{select_first-append}
use crypto_campus.Models.{User, CertificateRecord}
use crypto_campus.Crypto.{CryptoEngine, Runtime, EnvelopeArtifact}
use crypto_campus.Drop.Rows.{Drop, DropStatus, TtlPolicy, DropIdempotency}
use crypto_campus.Drop.State.{
  Db, Result, ok, Action, pure, raise_if, gets, or_raise, ◌>>=◌, ◌>>◌, sender_certificate_invalid,
  idempotency_conflict, recipient_resolution_failed, code_collision,
}
use crypto_campus.Drop.Actions.{Result-cases}
use crypto_campus.Drop.Services.{Collaborators, ResolvedRecipient}
use crypto_campus.Drop.Requests.{
  Fresh, CreateRequest, CreateDropResponse, is_key_length, is_password, expires_at_of,
}
use crypto_campus.Drop.Create.{
  find_sender, find_certificate, is_repeat, generate_link_code, password_factor, new_drop,
  insert_drop, store_drop, create_drop,
}
use crypto_campus.Drop.Create.Atomic.{password_factor-ReadOnly}
use crypto_campus.Drop.Create.Codes.{generate_link_code-fresh, store_drop_ok}
use mathlib.Core.Path.{subst}
use crypto_campus.Quota.Rows.{CredentialLedger}

ok_inj : {a b : CreateDropResponse} → ok a ≡ ok b → a ≡ b
ok_inj {a} {b} h = ground (arith, h)

module _ (e : CryptoEngine) (rt : Runtime) (sv : Collaborators) (r : CreateRequest) (f : Fresh)
    (s : Db) where
  abbrev repeat : Option DropIdempotency
  repeat =
      select_first (is_repeat r.sender_id r.operation (e.sm3_digest (rt.utf8 r.idempotency_key)))
        s.drop_idempotency

  -- The sender's side of a create that succeeds.
  record Sender : Type 0 where
    policy : TtlPolicy
    sender : User
    key : Bytes
    length_ok : is_key_length r.idempotency_key ≡ true
    policy_ok : r.ttl_policy ≡ some policy
    password_ok : is_password r.access_password ≡ true
    sender_ok : find_sender r.sender_id s.users ≡ some sender
    key_ok : sv.cached_key r.sender_id r.now ≡ some key

  create-Sender : (x : CreateDropResponse) → (create_drop e rt sv r f s).0 ≡ ok x → Sender
  unfolding create_drop
  create-Sender x h = elim (Option-cases r.ttl_policy) [
    | inl p ↦ absurd (ground (arith, h, p))
    | inr (policy, p) ↦ elim (Option-cases (find_sender r.sender_id s.users)) [
      | inl q ↦ absurd (ground (arith, h, p, q))
      | inr (sender, q) ↦ elim (Option-cases (sv.cached_key r.sender_id r.now)) [
        | inl k ↦ absurd (ground (arith, h, p, q, k))
        | inr (key, k) ↦ record {
          policy = policy;
          sender = sender;
          key = key;
          length_ok = ground (arith, h);
          policy_ok = p;
          password_ok = ground (arith, h, p);
          sender_ok = q;
          key_ok = k;
        }
      ]
    ]
  ]

  abbrev answer : TtlPolicy → Text → CreateDropResponse
  answer policy code = record {
    id = f.drop_id;
    code = code;
    access_code = f.access_code;
    expires_at = expires_at_of policy r.now;
    pqc_mode = r.pqc_mode;
  }

  -- The steps after the sender.
  abbrev rest : TtlPolicy → User → Bytes → Action CreateDropResponse
  rest policy sender key = do
    cert ← λ t. or_raise (find_certificate sender t.certificates) sender_certificate_invalid t
    repeated ← gets λ t. is_some (
        select_first (is_repeat r.sender_id r.operation (e.sm3_digest (rt.utf8 r.idempotency_key)))
          t.drop_idempotency)
    raise_if repeated idempotency_conflict
    to ← λ t.
        or_raise (sv.resolve_for_create t.users r.sender_id r.pqc_mode) recipient_resolution_failed
          t
    code ← λ t. or_raise (generate_link_code e rt sv 5 0 f.link_code t.drops) code_collision t
    factor ← password_factor e rt sv r.access_password f.salt
    store_drop e rt sv r f policy key cert to code factor
    pure (answer policy code)

  create-rest : (n : Sender) → create_drop e rt sv r f s ≡ rest n.policy n.sender n.key s
  unfolding create_drop
  create-rest n = ground (arith, n.length_ok, n.policy_ok, n.password_ok, n.sender_ok, n.key_ok)

  -- The steps after the codes are drawn.
  abbrev tail :
      TtlPolicy → Bytes → CertificateRecord → ResolvedRecipient → Text → Action CreateDropResponse
  tail policy key cert to code = do
    factor ← password_factor e rt sv r.access_password f.salt
    store_drop e rt sv r f policy key cert to code factor
    pure (answer policy code)

  rest-ok :
      (policy : TtlPolicy) (sender : User) (key : Bytes) (x : CreateDropResponse)
      → (rest policy sender key s).0 ≡ ok x
      → (cert : CertificateRecord) × (to : ResolvedRecipient) × (code : Text) × (repeat ≡ none)
        × (generate_link_code e rt sv 5 0 f.link_code s.drops ≡ some code)
        × (rest policy sender key s ≡ tail policy key cert to code s)
  rest-ok policy sender key x h = elim (Option-cases (find_certificate sender s.certificates)) [
    | inl c ↦ absurd (ground (arith, h, c))
    | inr (cert, c) ↦ elim (Option-cases repeat) [
      | inr (again, y) ↦ absurd (ground (arith, h, c, y))
      | inl first ↦ elim (Option-cases (sv.resolve_for_create s.users r.sender_id r.pqc_mode)) [
        | inl t ↦ absurd (ground (arith, h, c, first, t))
        | inr (to, t) ↦ elim (Option-cases (generate_link_code e rt sv 5 0 f.link_code s.drops)) [
          | inl g ↦ absurd (ground (arith, h, c, first, t, g))
          | inr (code, g) ↦ (cert, to, code, first, g, ground (arith, c, first, t, g))
        ]
      ]
    ]
  ]

  tail-ok :
      (policy : TtlPolicy) (key : Bytes) (cert : CertificateRecord) (to : ResolvedRecipient)
      (code : Text) (x : CreateDropResponse)
      → (tail policy key cert to code s).0 ≡ ok x
      → (factor : Option Bytes × Option Bytes) × ((store_drop e rt sv r f policy key cert to code
            factor s).0
          ≡ ok tt)
        × (tail policy key cert to code s ≡ (
          ok (answer policy code),
          (store_drop e rt sv r f policy key cert to code factor s).1,
        ))
  tail-ok policy key cert to code x h =
      let factored = password_factor e rt sv r.access_password f.salt s in
      let same : factored.1 ≡ s =
        (password_factor-ReadOnly e rt sv r.access_password f.salt).same s in
      elim (Result-cases factored) [
        | inl (y, bad) ↦ absurd (ground (arith, h, bad))
        | inr (factor, good) ↦
            elim (Result-cases (store_drop e rt sv r f policy key cert to code factor s)) [
              | inl (y, bad) ↦ absurd (ground (arith, h, good, same, bad))
              | inr (_, done) ↦ (factor, done, ground (arith, good, same, done))
            ]
      ]

  -- What a create that succeeds answers and leaves: the codes, and the one new drop that they open.
  pub record IsCreated (x : CreateDropResponse) (s' : Db) : Type 0 where
    pub made : Drop
    pub drops : s'.drops ≡ s.drops ++ made ∷ []
    pub id : made.id ≡ x.id
    pub found :
        select_first (λ d. bytes_eq d.link_code_hash (e.sm3_digest (rt.utf8 x.code))) s'.drops
        ≡ some made
    pub access : made.access_code_hash ≡ e.sm3_digest (rt.utf8 x.access_code)
    pub expires : made.expires_at ≡ x.expires_at
    pub available : made.status ≡ DropStatus.available
    pub unused : repeat ≡ none

  created_lem :
      (policy : TtlPolicy) (cert : CertificateRecord) (to : ResolvedRecipient) (code : Text)
      (salt : Option Bytes) (a : EnvelopeArtifact) (ledger : List CredentialLedger)
      → repeat ≡ none
      → generate_link_code e rt sv 5 0 f.link_code s.drops ≡ some code
      → IsCreated (answer policy code) (
          insert_drop e rt sv r f policy cert to
            (new_drop e rt sv r f policy cert to code salt a)
            (record s { ledger = ledger }))
  unfolding new_drop insert_drop
  created_lem policy cert to code salt a ledger first g =
      let made = new_drop e rt sv r f policy cert to code salt a in
      record {
        made = made;
        drops = refl;
        id = refl;
        found =
            select_first-append (λ d. bytes_eq d.link_code_hash (e.sm3_digest (rt.utf8 code)))
              s.drops made (generate_link_code-fresh e rt sv 5 0 f.link_code s.drops code g)
              (bytes_eq_refl (e.sm3_digest (rt.utf8 code)));
        access = refl;
        expires = refl;
        available = refl;
        unused = first;
      }

  -- A create that succeeds adds one drop, available, under a link code that named none before: the link
  -- code of the answer finds it, the access code of the answer is the one that it asks for, and its
  -- idempotency key is not one that the sender had used for that operation.
  pub create_drop-IsCreated :
      (x : CreateDropResponse)
      → (create_drop e rt sv r f s).0 ≡ ok x
      → IsCreated x (create_drop e rt sv r f s).1
  create_drop-IsCreated x h =
      let n = create-Sender x h in
      let e1 = create-rest n in
      let (cert, to, code, first, g, e2) =
        rest-ok n.policy n.sender n.key x
          (ap (λ (z : Result CreateDropResponse × Db). z.0) (sym e1) ∙ h) in
      let e12 = e1 ∙ e2 in
      let (factor, done, e3) =
        tail-ok n.policy n.key cert to code x
          (ap (λ (z : Result CreateDropResponse × Db). z.0) (sym e12) ∙ h) in
      let (a, ledger, _, stored) =
        store_drop_ok e rt sv r f n.policy n.key cert to code factor s done in
      let run = e12 ∙ e3 in
      let made = new_drop e rt sv r f n.policy cert to code factor.0 a in
      let same : answer n.policy code ≡ x =
        ok_inj (ap (λ (z : Result CreateDropResponse × Db). z.0) (sym run) ∙ h) in
      let left : (create_drop e rt sv r f s).1
          ≡ insert_drop e rt sv r f n.policy cert to made (record s { ledger = ledger }) =
        ap (λ (z : Result CreateDropResponse × Db). z.1) run ∙ stored in
      let created = created_lem n.policy cert to code factor.0 a ledger first g in
      subst (λ z. IsCreated z (create_drop e rt sv r f s).1) same
        (subst (λ z. IsCreated (answer n.policy code) z) (sym left) created)
