-- ===== src/Drop/Update.antt =====
-- One UPDATE of a drop by its key, as the drop services issue it, and what it does to the row.
use mathlib.Core.Option
use crypto_campus.Prelude.{
  ℕ, ◌≡◌, refl, ap, ◌∙◌, ◌≢◌, Bool, false, ◌&&◌, Option, none, some, ◌==◌, leb, if◌then◌else◌, get,
  update_where, update_row, rowcount, IsUnique, get-update_self, get-update_ne, rowcount-hit,
  update-IsUnique,
}
use crypto_campus.Drop.Rows.{Drop}
use crypto_campus.Drop.State.{Db, Action, ok}

-- `column <= now` in SQL, where NULL compares as false.
abbrev pub due : ℕ → Option ℕ → Bool
due now none = false
due now (some t) = leb t now

abbrev pub get_drop : ℕ → Db → Option Drop
get_drop k s = get (λ d. d.id) k s.drops

-- `session.execute(update(Drop).where(Drop.id == k, c).values(f)).rowcount`
unfoldable pub execute_update : ℕ → (Drop → Bool) → (Drop → Drop) → Action ℕ
execute_update k c f s = (
  ok (rowcount (λ d. d.id == k && c d) s.drops),
  record s { drops = update_where (λ d. d.id == k && c d) f s.drops },
)

abbrev pub after_update : ℕ → (Drop → Bool) → (Drop → Drop) → Db → Db
after_update k c f s = record s { drops = update_where (λ d. d.id == k && c d) f s.drops }

-- One UPDATE of a drop that is there.
module _ (k : ℕ) (c : Drop → Bool) (f : Drop → Drop) (same : (r : Drop) → (f r).id ≡ r.id) where
  pub execute_update_lem :
      (s : Db) (d : Drop)
      → IsUnique (λ r. r.id) s.drops
      → get_drop k s ≡ some d
      → (execute_update k c f s ≡ (ok (if c d then 1 else 0), after_update k c f s))
        × (get_drop k (after_update k c f s) ≡ some (update_row c f d))
        × IsUnique (λ r. r.id) (after_update k c f s).drops
  unfolding execute_update
  execute_update_lem s d u found = (
    rw (rowcount-hit (λ r. r.id) k c s.drops u, found) refl,
    get-update_self (λ r. r.id) k c f same s.drops ∙ ap (Option.map (update_row c f)) found,
    update-IsUnique (λ r. r.id) k c f same s.drops u,
  )

-- What a call keeps: every other drop, and every other table.
pub record Frame (k : ℕ) (s s' : Db) : Type 0 where
  pub others : (j : ℕ) → j ≢ k → get_drop j s' ≡ get_drop j s
  pub tables : s' ≡ record s { drops = s'.drops }

pub after_update-others :
    (k : ℕ) (c : Drop → Bool) (f : Drop → Drop)
    → ((r : Drop) → (f r).id ≡ r.id)
    → (s : Db) (j : ℕ) → j ≢ k
    → get_drop j (after_update k c f s) ≡ get_drop j s
after_update-others k c f same s j h = get-update_ne (λ r. r.id) k c f same j s.drops h
