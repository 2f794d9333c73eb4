-- ===== src/Auth/KeyCache.antt =====
-- `PrivateKeyUnlockCache` of server/app/security/key_cache.py.
use crypto_campus.Prelude.{
  ℕ, ◌≡◌, refl, true, false, not, Option, none, some, List, [], ◌∷◌, ◌++◌, Bytes, arith, length,
  ◌==◌, leb, ltb, if◌then◌else◌, select_first, select, Bool-cases, ◌&&◌, inl, inr,
}
use mathlib.Core.Path.{subst}
use crypto_campus.Prelude.Keyed.{select_first-append}

pub record CacheEntry : Type 0 where
  pub user_id : ℕ
  pub private_key : Bytes
  pub expires_at : ℕ

-- The dictionary, in its order of insertion.
abbrev pub KeyCache : Type 0
KeyCache = List CacheEntry

abbrev pub entry_of_user : ℕ → KeyCache → Option CacheEntry
entry_of_user k c = select_first (λ r. r.user_id == k) c

-- `delete`
unfoldable pub forget : ℕ → KeyCache → KeyCache
forget k c = select (λ r. not (r.user_id == k)) c

-- `put`; `none` is the `ValueError` on an empty key.
unfoldable pub put : ℕ → Bytes → ℕ → KeyCache → Option KeyCache
unfolding forget
put k key expires_at c =
    if length key == 0
    then none
    else some
        (forget k c ++ record { user_id = k; private_key = key; expires_at = expires_at } ∷ [])

-- The entry that is still good; one whose time is over goes.
live_entry : ℕ → ℕ → KeyCache → Option CacheEntry × KeyCache
unfolding forget
live_entry k now c = elim (entry_of_user k c) [
  | none ↦ (none, c)
  | some r ↦ if leb r.expires_at now then (none, forget k c) else (some r, c)
]

-- `get`
pub get_key : ℕ → ℕ → KeyCache → Option Bytes × KeyCache
unfolding live_entry
get_key k now c =
    let (r, c') = live_entry k now c in (elim r [ none ↦ none | some x ↦ some x.private_key ], c')

-- `expires_at`
pub key_expiry : ℕ → ℕ → KeyCache → Option ℕ × KeyCache
unfolding live_entry
key_expiry k now c =
    let (r, c') = live_entry k now c in (elim r [ none ↦ none | some x ↦ some x.expires_at ], c')

pub entry_of_user-forget : (k : ℕ) (c : KeyCache) → entry_of_user k (forget k c) ≡ none
unfolding forget select select_first
entry_of_user-forget k [] = refl
entry_of_user-forget k (r ∷ rs) = ground (arith, entry_of_user-forget k rs)

pub put_lem :
    (k : ℕ) (key : Bytes) (expires_at : ℕ) (c : KeyCache)
    → (length key == 0) ≡ false
    → (c' : KeyCache) × (put k key expires_at c ≡ some c')
      × (entry_of_user k c'
          ≡ some (record { user_id = k; private_key = key; expires_at = expires_at }))
unfolding put
put_lem k key expires_at c h =
    let made : CacheEntry = record { user_id = k; private_key = key; expires_at = expires_at } in
    (
      forget k c ++ made ∷ [],
      ground (arith, h),
      select_first-append (λ r. r.user_id == k) (forget k c) made (entry_of_user-forget k c)
          (ground arith),
    )

pub put_found :
    (k : ℕ) (key : Bytes) (expires_at : ℕ) (c c' : KeyCache)
    → put k key expires_at c ≡ some c'
    → entry_of_user k c' ≡ some (record { user_id = k; private_key = key; expires_at = expires_at })
unfolding put
put_found k key expires_at c c' h = elim (Bool-cases (length key == 0)) [
  | inl t ↦ absurd (ground (arith, t))
  | inr f ↦
      let (d, made, found) = put_lem k key expires_at c f in
      subst
        (λ z.
          entry_of_user k z
          ≡ some (record { user_id = k; private_key = key; expires_at = expires_at }))
        (ground (arith, made, h)) found
]

get_key-live :
    (k now : ℕ) (c : KeyCache) (r : CacheEntry)
    → entry_of_user k c ≡ some r
    → leb r.expires_at now ≡ false
    → get_key k now c ≡ (some r.private_key, c)
unfolding get_key live_entry
get_key-live k now c r found live = ground (arith, found, live)

get_key-over :
    (k now : ℕ) (c : KeyCache) (r : CacheEntry)
    → entry_of_user k c ≡ some r
    → leb r.expires_at now ≡ true
    → get_key k now c ≡ (none, forget k c)
unfolding get_key live_entry
get_key-over k now c r found over = ground (arith, found, over)

get_key-forget : (k later : ℕ) (c : KeyCache) → (get_key k later (forget k c)).0 ≡ none
unfolding get_key live_entry
get_key-forget k later c = ground (arith, entry_of_user-forget k c)

-- A key that has been put is handed out until its time is over, and once it has been asked for
-- after that it is gone: a later call with an earlier clock does not find it either.
pub put-get_key :
    (k : ℕ) (key : Bytes) (expires_at : ℕ) (c c' : KeyCache) (now later : ℕ)
    → put k key expires_at c ≡ some c'
    → ((get_key k now c').0 ≡ (if ltb now expires_at then some key else none))
      × ((get_key k later (get_key k now c').1).0
          ≡ (if ltb now expires_at && ltb later expires_at then some key else none))
put-get_key k key expires_at c c' now later h =
    let r : CacheEntry = record { user_id = k; private_key = key; expires_at = expires_at } in
    elim (Bool-cases (leb expires_at now)) [
      | inl over ↦ ground (
        arith,
        get_key-over k now c' r (put_found k key expires_at c c' h) over,
        get_key-forget k later c',
      )
      | inr live ↦ elim (Bool-cases (leb expires_at later)) [
        | inl over ↦ ground (
          arith,
          get_key-live k now c' r (put_found k key expires_at c c' h) live,
          get_key-over k later c' r (put_found k key expires_at c c' h) over,
        )
        | inr still ↦ ground (
          arith,
          get_key-live k now c' r (put_found k key expires_at c c' h) live,
          get_key-live k later c' r (put_found k key expires_at c c' h) still,
        )
      ]
    ]
