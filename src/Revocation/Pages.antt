-- ===== src/Revocation/Pages.antt =====
-- The pages of the revocation log (`list_entries` of server/app/services/revocation_log.py).
use crypto_campus.Prelude.{
  ℕ, zero, suc, ◌+◌, ◌-◌, ◌*◌, ◌≤◌, ◌≡◌, refl, sym, ap, ◌∙◌, false, some, List, [], ◌∷◌, ◌++◌, map,
  arith, length, take, drop, ltb, Bool-cases, inl, inr,
}
use crypto_campus.Crypto.{CryptoEngine, Runtime}
use crypto_campus.Revocation.{
  RevocationLog, RevocationEntry, Listing, listed, entry_of, order_and_verify_chain, list_entries,
}

module _ {A : Type 0} where
  take-nil : (n : ℕ) → take {A = A} n [] ≡ []
  take-nil zero = refl
  take-nil (suc n) = refl

  take-add : (a b : ℕ) (xs : List A) → take (a + b) xs ≡ take a xs ++ take b (drop a xs)
  take-add zero b xs = let e : 0 + b ≡ b = omega arith in ap (λ k. take k xs) e
  take-add (suc a) b [] =
      let e : suc a + b ≡ suc (a + b) = omega arith in ap (λ k. take k []) e ∙ sym (take-nil b)
  take-add (suc a) b (x ∷ xs) =
      let e : suc a + b ≡ suc (a + b) = omega arith in
      ap (λ k. take k (x ∷ xs)) e ∙ ap (λ t. x ∷ t) (take-add a b xs)

  drop-beyond : (a : ℕ) (xs : List A) → ltb a (length xs) ≡ false → drop a xs ≡ []
  drop-beyond zero [] h = refl
  drop-beyond zero (x ∷ xs) h = absurd (ground (arith, h))
  drop-beyond (suc a) [] h = refl
  drop-beyond (suc a) (x ∷ xs) h = drop-beyond a xs (ground (arith, h))

map-append : {A B : Type 0} (f : A → B) (xs ys : List A) → map f (xs ++ ys) ≡ map f xs ++ map f ys
map-append f [] ys = refl
map-append f (x ∷ xs) ys = ap (λ t. f x ∷ t) (map-append f xs ys)

abbrev items_of : Listing → List RevocationEntry
items_of (listed p) = p.items
items_of _ = []

module _ (e : CryptoEngine) (rt : Runtime) (page_size : ℕ) (rows : List RevocationLog) where
  -- The items of the pages 1 to n, one after another.
  pub first_pages : ℕ → List RevocationEntry
  first_pages zero = []
  first_pages (suc n) = first_pages n ++ items_of (list_entries e rt (n + 1) page_size rows)

  page_lem :
      (n : ℕ) (chain : List RevocationLog)
      → order_and_verify_chain e rt rows ≡ some chain
      → 1 ≤ page_size
      → page_size ≤ 100
      → items_of (list_entries e rt (n + 1) page_size rows)
        ≡ map (entry_of e rt) (take page_size (drop (n * page_size) chain))
  unfolding list_entries
  page_lem n chain h pos most =
      let offset : (n + 1) - 1 ≡ n = omega arith in
      elim (Bool-cases (ltb (n * page_size) (length chain))) [
        | inl inside ↦ ground (arith, h, offset, inside, pos, most)
        | inr beyond ↦
            let empty : take page_size (drop (n * page_size) chain) ≡ [] =
              ap (take page_size) (drop-beyond (n * page_size) chain beyond) ∙ take-nil page_size in
            ground (arith, h, offset, beyond, pos, most, empty)
      ]

  -- The pages tile the log: for a page size from 1 to 100 and a log that is accepted, the items of the
  -- first n pages, one after another, are the first n times page size entries of the chain.
  pub first_pages-take :
      (chain : List RevocationLog) (n : ℕ)
      → order_and_verify_chain e rt rows ≡ some chain
      → 1 ≤ page_size
      → page_size ≤ 100
      → first_pages n ≡ map (entry_of e rt) (take (n * page_size) chain)
  unfolding first_pages
  first_pages-take chain zero h pos most = let e : 0 * page_size ≡ 0 = omega arith in rw e refl
  first_pages-take chain (suc n) h pos most =
      let ih = first_pages-take chain n h pos most in
      let split = take-add (n * page_size) page_size chain in
      let shape : suc n * page_size ≡ n * page_size + page_size = omega arith in
      rw shape (
        ap (λ t. t ++ items_of (list_entries e rt (n + 1) page_size rows)) ih
        ∙ ap (λ t. map (entry_of e rt) (take (n * page_size) chain) ++ t)
            (page_lem n chain h pos most)
        ∙ sym (
            map-append (entry_of e rt) (take (n * page_size) chain)
              (take page_size (drop (n * page_size) chain)))
        ∙ ap (map (entry_of e rt)) (sym split))
