-- ===== src/Votes/Encoding/Injective.antt =====
-- A signed tally can be read in one way only (server/app/services/vote_results.py).
use crypto_campus.Prelude.{
  ℕ, zero, suc, ◌/◌, ◌%◌, ◌^◌, ◌<◌, ◌≡◌, refl, sym, ap, ◌∙◌, ◌||◌, not, some, List, [], ◌∷◌, ◌++◌,
  Bytes, arith, length, length-append, ◌==◌, ltb, Option-cases, Bool-cases, inl, inr,
}
use mathlib.Core.Path.{subst₂}
use mathlib.Core.List.{append_assoc}
use crypto_campus.Text.{codes}
use crypto_campus.Crypto.{CryptoEngine, Runtime}
use crypto_campus.Revocation.{canonical_utc}
use crypto_campus.Votes.Rows.{VoteTools}
use crypto_campus.Votes.Encoding.{big_endian, seen_before, options_part, encode_vote_result}

cons_inj : {A : Type 0} (a b : A) (xs ys : List A) → a ∷ xs ≡ b ∷ ys → (a ≡ b) × (xs ≡ ys)
cons_inj a b xs ys h = ground (arith, h)

-- Two lists that start alike in length.
append_inj :
    {A : Type 0} (xs ys us bs : List A)
    → length xs ≡ length ys
    → xs ++ us ≡ ys ++ bs
    → (xs ≡ ys) × (us ≡ bs)
append_inj [] [] us bs n h = (refl, h)
append_inj [] (y ∷ ys) us bs n h = absurd (omega (arith, n))
append_inj (x ∷ xs) [] us bs n h = absurd (omega (arith, n))
append_inj (x ∷ xs) (y ∷ ys) us bs n h =
    let (head, tail) = cons_inj x y (xs ++ us) (ys ++ bs) h in
    let (rest, last) = append_inj xs ys us bs (omega (arith, n)) tail in
    (ground (arith, head, rest), last)

length-big_endian : (w n : ℕ) → length (big_endian w n) ≡ w
unfolding big_endian
length-big_endian zero n = refl
length-big_endian (suc w) n =
    omega (
      arith,
      length-append (big_endian w (n / 256)) ((n % 256) ∷ []),
      length-big_endian w (n / 256),
    )

-- `n` has at most `w` bytes.
abbrev Fits : ℕ → ℕ → Type 0
Fits zero n = n ≡ 0
Fits (suc w) n = Fits w (n / 256)

big_endian_inj : (w m n : ℕ) → Fits w m → Fits w n → big_endian w m ≡ big_endian w n → m ≡ n
unfolding big_endian
big_endian_inj zero m n p q h = omega (arith, p, q)
big_endian_inj (suc w) m n p q h =
    let (front, last) =
      append_inj (big_endian w (m / 256)) (big_endian w (n / 256)) ((m % 256) ∷ []) ((n % 256) ∷ [])
        (length-big_endian w (m / 256) ∙ sym (length-big_endian w (n / 256))) h in
    let (digit, nothing) = cons_inj (m % 256) (n % 256) [] [] last in
    omega (arith, digit, big_endian_inj w (m / 256) (n / 256) p q front)

eight_bytes : (n : ℕ) → n < 2 ^ 64 → Fits 8 n
eight_bytes n h = omega (arith, h)

four_bytes : (n : ℕ) → n < 2 ^ 32 → Fits 4 n
four_bytes n h = omega (arith, h)

-- The bytes of an identifier: sixteen, and its own.
pub record IsUuid (id_bytes : ℕ → Bytes) : Type 0 where
  pub sixteen : (k : ℕ) → length (id_bytes k) ≡ 16
  pub own : (j k : ℕ) → id_bytes j ≡ id_bytes k → j ≡ k

regroup : (a b c d : Bytes) → (a ++ (b ++ c)) ++ d ≡ a ++ (b ++ (c ++ d))
regroup a b c d = append_assoc a (b ++ c) d ∙ ap (λ z. a ++ z) (append_assoc b c d)

cons_of :
    (k j m i : ℕ) (cs ds : List (ℕ × ℕ))
    → k ≡ j
    → m ≡ i
    → cs ≡ ds
    → ◌≡◌ {A = List (ℕ × ℕ)} ((k, m) ∷ cs) ((j, i) ∷ ds)
cons_of k j m i cs ds a b c = λ t. (a t, b t) ∷ c t

module _ (id_bytes : ℕ → Bytes) (uuid : IsUuid id_bytes) where
  -- What an encoding of a non-empty list of options is.
  options_part_ok :
      (seen : List ℕ) (k n : ℕ) (rest : List (ℕ × ℕ)) (x : ℕ × Bytes)
      → options_part id_bytes seen ((k, n) ∷ rest) ≡ some x
      → (y : ℕ × Bytes) × (options_part id_bytes (k ∷ seen) rest ≡ some y)
        × (n < 2 ^ 64)
        × (x.1 ≡ id_bytes k ++ (big_endian 8 n ++ y.1))
  unfolding options_part
  options_part_ok seen k n rest x h =
      elim (Bool-cases (seen_before k seen || not (ltb n (2 ^ 64)))) [
        | inl bad ↦ absurd (ground (arith, h, bad))
        | inr good ↦ elim (Option-cases (options_part id_bytes (k ∷ seen) rest)) [
          | inl bad ↦ absurd (ground (arith, h, good, bad))
          | inr (y, more) ↦ (y, more, ground (arith, good), ground (arith, h, good, more))
        ]
      ]

  options_part_nil :
      (seen : List ℕ) (x : ℕ × Bytes) → options_part id_bytes seen [] ≡ some x → x.1 ≡ []
  unfolding options_part
  options_part_nil seen x h = ground (arith, h)

  options_part_inj :
      (cs ds : List (ℕ × ℕ)) (seen before : List ℕ) (x y : ℕ × Bytes) (us bs : Bytes)
      → length cs ≡ length ds
      → options_part id_bytes seen cs ≡ some x
      → options_part id_bytes before ds ≡ some y
      → x.1 ++ us ≡ y.1 ++ bs
      → (cs ≡ ds) × (us ≡ bs)
  options_part_inj [] [] seen before x y us bs n p q h = (
    refl,
    subst₂ (λ a b. a ++ us ≡ b ++ bs) (options_part_nil seen x p) (options_part_nil before y q) h,
  )
  options_part_inj [] (d ∷ ds) seen before x y us bs n p q h = absurd (omega (arith, n))
  options_part_inj (c ∷ cs) [] seen before x y us bs n p q h = absurd (omega (arith, n))
  options_part_inj ((k, m) ∷ cs) ((j, i) ∷ ds) seen before x y us bs n p q h =
      let (x', p', small, split) = options_part_ok seen k m cs x p in
      let (y', q', small', split') = options_part_ok before j i ds y q in
      let whole : id_bytes k ++ (big_endian 8 m ++ (x'.1 ++ us))
          ≡ id_bytes j ++ (big_endian 8 i ++ (y'.1 ++ bs)) =
        sym (regroup (id_bytes k) (big_endian 8 m) x'.1 us)
        ∙ (subst₂ (λ a b. a ++ us ≡ b ++ bs) split split' h
            ∙ regroup (id_bytes j) (big_endian 8 i) y'.1 bs) in
      let (key, h1) =
        append_inj (id_bytes k) (id_bytes j) (big_endian 8 m ++ (x'.1 ++ us))
          (big_endian 8 i ++ (y'.1 ++ bs)) (uuid.sixteen k ∙ sym (uuid.sixteen j)) whole in
      let (number, h2) =
        append_inj (big_endian 8 m) (big_endian 8 i) (x'.1 ++ us) (y'.1 ++ bs)
          (length-big_endian 8 m ∙ sym (length-big_endian 8 i)) h1 in
      let (more, last) =
        options_part_inj cs ds (k ∷ seen) (j ∷ before) x' y' us bs (omega (arith, n)) p' q' h2 in
      (
        cons_of k j m i cs ds (uuid.own k j key)
            (big_endian_inj 8 m i (eight_bytes m small) (eight_bytes i small') number) more,
        last,
      )

module _ (e : CryptoEngine) (rt : Runtime) (tools : VoteTools) where
  -- What follows the name of the format.
  abbrev body : ℕ → List (ℕ × ℕ) → ℕ → ℕ → Bytes → Bytes
  body vote_id counts total published_at options =
      let time = rt.utf8 (canonical_utc e rt published_at) in
      tools.id_bytes vote_id
      ++ (big_endian 4 (length counts)
          ++ (options ++ (big_endian 8 total ++ (big_endian 4 (length time) ++ time))))

  encode_ok :
      (vote_id : ℕ) (counts : List (ℕ × ℕ)) (total published_at : ℕ) (b : Bytes)
      → encode_vote_result e rt tools vote_id counts total published_at ≡ some b
      → (x : ℕ × Bytes) × (options_part tools.id_bytes [] counts ≡ some x)
        × (total < 2 ^ 64)
        × (length counts < 2 ^ 32)
        × (b
            ≡ codes "CryptoCampus-Vote-Result-v1"
              ++ (0 ∷ body vote_id counts total published_at x.1))
  unfolding encode_vote_result
  encode_ok vote_id counts total published_at b h =
      let time = rt.utf8 (canonical_utc e rt published_at) in
      elim (Bool-cases (ltb total (2 ^ 64))) [
        | inr bad ↦ absurd (ground (arith, h, bad))
        | inl small ↦ elim (Option-cases (options_part tools.id_bytes [] counts)) [
          | inl bad ↦ absurd (ground (arith, h, small, bad))
          | inr (x, part) ↦
              elim (Bool-cases (
                not (x.0 == total)
                || (not (ltb (length counts) (2 ^ 32)) || not (ltb (length time) (2 ^ 32))))) [
                  | inl bad ↦ absurd (ground (arith, h, small, part, bad))
                  | inr good ↦ (
                    x,
                    part,
                    ground (arith, small),
                    ground (arith, good),
                    ground (arith, h, small, part, good),
                  )
                ]
        ]
      ]

  -- A signature is on one tally: the votes, the counts in their order, the totals and the instants of two
  -- tallies that are encoded alike are the same. Identifiers have sixteen bytes of their own, and
  -- instants texts of their own.
  pub encode_vote_result_inj :
      (uuid : IsUuid tools.id_bytes)
      → ((a b : ℕ) → rt.utf8 (canonical_utc e rt a) ≡ rt.utf8 (canonical_utc e rt b) → a ≡ b)
      → (v w : ℕ) (cs ds : List (ℕ × ℕ)) (t t' at at' : ℕ) (b : Bytes)
      → encode_vote_result e rt tools v cs t at ≡ some b
      → encode_vote_result e rt tools w ds t' at' ≡ some b
      → (v ≡ w) × (cs ≡ ds) × (t ≡ t') × (at ≡ at')
  encode_vote_result_inj uuid instants v w cs ds t t' at at' b p q =
      let time = rt.utf8 (canonical_utc e rt at) in
      let time' = rt.utf8 (canonical_utc e rt at') in
      let (x, part, small, few, whole) = encode_ok v cs t at b p in
      let (y, part', small', few', whole') = encode_ok w ds t' at' b q in
      let rest : Bytes = big_endian 8 t ++ (big_endian 4 (length time) ++ time) in
      let rest' : Bytes = big_endian 8 t' ++ (big_endian 4 (length time') ++ time') in
      let (name, h1) =
        append_inj (codes "CryptoCampus-Vote-Result-v1" ++ 0 ∷ [])
          (codes "CryptoCampus-Vote-Result-v1" ++ 0 ∷ []) (body v cs t at x.1)
          (body w ds t' at' y.1) refl (sym whole ∙ whole') in
      let (vote, h2) =
        append_inj (tools.id_bytes v) (tools.id_bytes w) (big_endian 4 (length cs) ++ (x.1 ++ rest))
          (big_endian 4 (length ds) ++ (y.1 ++ rest')) (uuid.sixteen v ∙ sym (uuid.sixteen w)) h1 in
      let (count, h3) =
        append_inj (big_endian 4 (length cs)) (big_endian 4 (length ds)) (x.1 ++ rest)
          (y.1 ++ rest') (length-big_endian 4 (length cs) ∙ sym (length-big_endian 4 (length ds)))
          h2 in
      let (same, h4) =
        options_part_inj tools.id_bytes uuid cs ds [] [] x y rest rest'
          (big_endian_inj 4 (length cs) (length ds) (four_bytes (length cs) few)
            (four_bytes (length ds) few') count)
          part part' h3 in
      let (total, h5) =
        append_inj (big_endian 8 t) (big_endian 8 t') (big_endian 4 (length time) ++ time)
          (big_endian 4 (length time') ++ time')
          (length-big_endian 8 t ∙ sym (length-big_endian 8 t')) h4 in
      let (size, h6) =
        append_inj (big_endian 4 (length time)) (big_endian 4 (length time')) time time'
          (length-big_endian 4 (length time) ∙ sym (length-big_endian 4 (length time'))) h5 in
      (
        uuid.own v w vote,
        same,
        big_endian_inj 8 t t' (eight_bytes t small) (eight_bytes t' small') total,
        instants at at' h6,
      )
