-- ===== src/Audit/Walk.antt =====
-- The walk along the chain: `verify_chain` of server/app/services/admin_audit.py.
use crypto_campus.Prelude.{
  ℕ, zero, suc, ◌≡◌, ◌⊎◌, inl, inr, refl, sym, ap, ◌∙◌, Bool, true, false, Option, none, some, List,
  [], ◌∷◌, ◌++◌, Bytes, Text, arith, bytes_eq, bytes_eq_refl, select_first, select, Option-cases,
}
use crypto_campus.Prelude.Keyed.{
  select_first-append, select_first-append_found, select_first-append_other,
}
use mathlib.Core.Path.{subst, subst₂}
use crypto_campus.Crypto.{CryptoEngine, Runtime}
use crypto_campus.Action.{ok}
use crypto_campus.Action.Laws.{value_cases}
use crypto_campus.Audit.{AdminAuditEntry, follows, is_followed, all_apart, check_entry, walk_chain}

-- The hash that a walk from `h` ends at.
unfoldable pub last_hash : Bytes → List AdminAuditEntry → Bytes
last_hash h [] = h
last_hash h (r ∷ rs) = last_hash r.hash_curr rs

bytes_eq_sym : (a b : Bytes) → bytes_eq a b ≡ bytes_eq b a
unfolding bytes_eq
bytes_eq_sym [] [] = refl
bytes_eq_sym [] (b ∷ bs) = refl
bytes_eq_sym (a ∷ xs) [] = refl
bytes_eq_sym (a ∷ xs) (b ∷ bs) = ground (arith, bytes_eq_sym xs bs)

module _ {A : Type 0} (K p : A → Bool) where
  select_none : (rs : List A) (x : A) → select p rs ≡ [] → select_first K rs ≡ some x → p x ≡ false
  unfolding select select_first
  select_none [] x none_left h = absurd (ground (arith, h))
  select_none (r ∷ rs) x none_left h = ground (arith, none_left, h, select_none rs x)

  -- The only row that a test selects.
  pub select_only :
      (rs : List A) (x t : A)
      → select p rs ≡ t ∷ []
      → select_first K rs ≡ some x
      → p x ≡ true
      → x ≡ t
  unfolding select select_first
  select_only [] x t one h q = absurd (ground (arith, h))
  select_only (r ∷ rs) x t one h q = ground (arith, one, h, q, select_none rs x, select_only rs x t)

pub all_apart-append :
    (es : List AdminAuditEntry) (r : AdminAuditEntry)
    → all_apart es ≡ true
    → is_followed es r.hash_prev ≡ false
    → all_apart (es ++ r ∷ []) ≡ true
unfolding all_apart select_first
all_apart-append [] r h f = refl
all_apart-append (x ∷ xs) r h f = ground (
  arith,
  h,
  f,
  bytes_eq_sym x.hash_prev r.hash_prev,
  select_first-append_other (follows x.hash_prev) xs r,
  all_apart-append xs r,
)

module _ (e : CryptoEngine) (rt : Runtime) (uuid_bytes : Text → Option Bytes) where
  -- Where a walk ends: nothing follows, and it has got there from an entry, or not moved.
  pub record EndsAt (es : List AdminAuditEntry) (h l : Bytes) : Type 0 where
    pub stopped : select_first (follows l) es ≡ none
    pub came :
        (l ≡ h)
        ⊎ ((k : Bytes) × (y : AdminAuditEntry) × (select_first (follows k) es ≡ some y)
            × (l ≡ y.hash_curr))

  walk_fuel :
      (es : List AdminAuditEntry) (h : Bytes) (xs : List AdminAuditEntry)
      → ¬ (walk_chain e rt uuid_bytes zero es h ≡ ok xs)
  unfolding walk_chain
  walk_fuel es h xs w = ground (arith, w)

  walk_step :
      (n : ℕ) (es : List AdminAuditEntry) (h : Bytes) (r : AdminAuditEntry)
      (xs : List AdminAuditEntry)
      → select_first (follows h) es ≡ some r
      → walk_chain e rt uuid_bytes (suc n) es h ≡ ok xs
      → (rest : List AdminAuditEntry) × (check_entry e rt uuid_bytes h r ≡ ok tt)
        × (walk_chain e rt uuid_bytes n es r.hash_curr ≡ ok rest)
        × (xs ≡ r ∷ rest)
  unfolding walk_chain
  walk_step n es h r xs found w = elim (value_cases (check_entry e rt uuid_bytes h r)) [
    | inl (x, bad) ↦ absurd (ground (arith, found, w, bad))
    | inr (done, good) ↦ elim (value_cases (walk_chain e rt uuid_bytes n es r.hash_curr)) [
      | inl (x, bad) ↦ absurd (ground (arith, found, w, good, bad))
      | inr (rest, further) ↦ (rest, good, further, ground (arith, found, w, good, further))
    ]
  ]

  pub walk_stop :
      (n : ℕ) (es : List AdminAuditEntry) (h : Bytes) (xs : List AdminAuditEntry)
      → select_first (follows h) es ≡ none
      → walk_chain e rt uuid_bytes (suc n) es h ≡ ok xs
      → xs ≡ []
  unfolding walk_chain
  walk_stop n es h xs missing w = ground (arith, missing, w)

  pub walk-EndsAt :
      (n : ℕ) (es : List AdminAuditEntry) (h : Bytes) (xs : List AdminAuditEntry)
      → walk_chain e rt uuid_bytes n es h ≡ ok xs
      → EndsAt es h (last_hash h xs)
  unfolding walk_chain last_hash
  walk-EndsAt zero es h xs w = absurd (ground (arith, w))
  walk-EndsAt (suc n) es h xs w = elim (Option-cases (select_first (follows h) es)) [
    | inl missing ↦
        subst (λ z. EndsAt es h (last_hash h z)) (sym (walk_stop n es h xs missing w))
          (record { stopped = missing; came = inl refl })
    | inr (r, found) ↦
        let (rest, good, further, split) = walk_step n es h r xs found w in
        let later = walk-EndsAt n es r.hash_curr rest further in
        subst (λ z. EndsAt es h (last_hash h z)) (sym split)
          (record {
            stopped = later.stopped;
            came = elim later.came [ inl same ↦ inr (h, r, found, same) | inr other ↦ inr other ];
          })
  ]

  walk_go :
      (n : ℕ) (es : List AdminAuditEntry) (h : Bytes) (r : AdminAuditEntry)
      (rest : List AdminAuditEntry)
      → select_first (follows h) es ≡ some r
      → check_entry e rt uuid_bytes h r ≡ ok tt
      → walk_chain e rt uuid_bytes n es r.hash_curr ≡ ok rest
      → walk_chain e rt uuid_bytes (suc n) es h ≡ ok (r ∷ rest)
  unfolding walk_chain
  walk_go n es h r rest found good further = ground (arith, found, good, further)

  pub walk_halt :
      (n : ℕ) (es : List AdminAuditEntry) (h : Bytes)
      → select_first (follows h) es ≡ none
      → walk_chain e rt uuid_bytes (suc n) es h ≡ ok []
  unfolding walk_chain
  walk_halt n es h missing = ground (arith, missing)

  -- One more entry at the end of a walk.
  pub walk-append :
      (n : ℕ) (es : List AdminAuditEntry) (h : Bytes) (xs : List AdminAuditEntry)
      (r : AdminAuditEntry)
      → walk_chain e rt uuid_bytes n es h ≡ ok xs
      → r.hash_prev ≡ last_hash h xs
      → check_entry e rt uuid_bytes (last_hash h xs) r ≡ ok tt
      → select_first (follows r.hash_curr) (es ++ r ∷ []) ≡ none
      → walk_chain e rt uuid_bytes (suc n) (es ++ r ∷ []) h ≡ ok (xs ++ r ∷ [])
  unfolding last_hash
  walk-append zero es h xs r w at good free = absurd (walk_fuel es h xs w)
  walk-append (suc n) es h [] r w at good free = elim (Option-cases (select_first (follows h) es)) [
    | inl missing ↦
        walk_go (suc n) (es ++ r ∷ []) h r []
          (select_first-append (follows h) es r missing
            (subst (λ z. bytes_eq z h ≡ true) (sym at) (bytes_eq_refl h)))
          good (walk_halt n (es ++ r ∷ []) r.hash_curr free)
    | inr (r', found) ↦
        let (rest, good', further, split) = walk_step n es h r' [] found w in
        absurd (ground (arith, split))
  ]
  walk-append (suc n) es h (x ∷ xs) r w at good free =
      elim (Option-cases (select_first (follows h) es)) [
        | inl missing ↦ absurd (ground (arith, walk_stop n es h (x ∷ xs) missing w))
        | inr (r', found) ↦
            let (rest, good', further, split) = walk_step n es h r' (x ∷ xs) found w in
            let same : (r' ≡ x) × (rest ≡ xs) = ground (arith, split) in
            walk_go (suc n) (es ++ r ∷ []) h x (xs ++ r ∷ [])
              (select_first-append_found (follows h) es (r ∷ []) x (found ∙ ap some same.0))
              (subst (λ z. check_entry e rt uuid_bytes h z ≡ ok tt) same.0 good')
              (walk-append n es x.hash_curr xs r
                (subst₂ (λ z zs. walk_chain e rt uuid_bytes n es z.hash_curr ≡ ok zs) same.0 same.1
                  further)
                at good free)
      ]
