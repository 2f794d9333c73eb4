-- ===== src/Drop/Destruction/Sweep.antt =====
-- The sweep of expired drops (`destroy_expired` of server/app/services/drop_destruction.py).
use crypto_campus.Prelude.{
  min, Option-cases, ◌⊎◌, length-take, Held-get, ℕ, zero, suc, ◌+◌, ◌≡◌, refl, ap, ◌∙◌, true,
  Option, none, some, List, [], ◌∷◌, ◌++◌, arith, inl, inr, length, take, get, select, order_by,
  rowcount, IsUnique, Held, update-Held, rowcount-update, IsUnique-select, Held-select,
  order_by-IsUnique, order_by-Held, take-IsUnique, take-Held, rowcount-eq-length-select,
  length-order_by,
}
use crypto_campus.Crypto.{CryptoEngine, Runtime}
use crypto_campus.Drop.Rows.{Drop, DropStatus, is_live}
use crypto_campus.Drop.State.{Db, Result, ok}
use crypto_campus.Drop.Update.{
  get_drop, execute_update, execute_update_lem, after_update, after_update-others, due,
}
use crypto_campus.Drop.Destruction.{
  cleared, Reason, or_else, build_destruction_audit, sweep, sweepable, expiry, destroy_expired,
}

-- What sweeping the loaded rows `ds` does.
record Swept (now : ℕ) (ds : List Drop) (s : Db) (out : Result ℕ × Db) : Type 0 where
  count : out.0 ≡ ok (length ds)
  left : rowcount (sweepable now) out.1.drops + length ds ≡ rowcount (sweepable now) s.drops
  rows :
      (j : ℕ)
      → get_drop j out.1 ≡ (elim (get (λ r. r.id) j ds) [
        | none ↦ get_drop j s
        | some d ↦ some (cleared DropStatus.expired d)
      ])
  unique : IsUnique (λ r. r.id) out.1.drops

module _ (e : CryptoEngine) (rt : Runtime) (now : ℕ) (actor : Option ℕ) where
  -- The tables after one round of the loop on a live row.
  abbrev swept_one : Drop → Db → Db
  swept_one d s =
      record (after_update d.id (λ r. is_live r.status) (cleared DropStatus.expired) s) {
        audit_log =
            s.audit_log
            ++ build_destruction_audit e rt d Reason.expired now
                (some (or_else actor d.owner_user_id))
              ∷ [];
      }

  sweep-cons :
      (d : Drop) (ds : List Drop) (s : Db) (n : ℕ)
      → execute_update d.id (λ r. is_live r.status) (cleared DropStatus.expired) s
        ≡ (ok 1, after_update d.id (λ r. is_live r.status) (cleared DropStatus.expired) s)
      → (sweep e rt now actor ds (swept_one d s)).0 ≡ ok n
      → sweep e rt now actor (d ∷ ds) s ≡ (ok (n + 1), (sweep e rt now actor ds (swept_one d s)).1)
  unfolding sweep
  sweep-cons d ds s n run rest = ground arith

  sweep-Swept :
      (ds : List Drop) (s : Db)
      → IsUnique (λ r. r.id) s.drops
      → IsUnique (λ r. r.id) ds
      → Held (λ r. r.id) (sweepable now) ds s.drops
      → Swept now ds s (sweep e rt now actor ds s)
  unfolding sweep get
  sweep-Swept [] s u uds held = record {
    count = refl;
    left = omega arith;
    rows = λ j. refl;
    unique = u;
  }
  sweep-Swept (d ∷ ds) s u uds held =
      let c = λ (r : Drop). is_live r.status in
      let f = cleared DropStatus.expired in
      let live : is_live d.status ≡ true = ground (arith, held.1) in
      let (run, row, u') = execute_update_lem d.id c f (λ r. refl) s d u held.0 in
      let run' : execute_update d.id c f s ≡ (ok 1, after_update d.id c f s) =
        ground (arith, run, live) in
      let fewer =
        rowcount-update (λ r. r.id) (sweepable now) d.id c f (λ r. refl) d s.drops u held.0 live
          held.1 refl in
      let rest =
        sweep-Swept ds (swept_one d s) u' uds.1
          (update-Held (λ r. r.id) (sweepable now) d.id c f (λ r. refl) ds s.drops uds.0 held.2) in
      let done = sweep-cons d ds s (length ds) run' rest.count in
      record {
        count = ground (arith, done);
        left = ground (arith, done, fewer, rest.left);
        rows = λ j. ground (
          arith,
          done,
          rest.rows j,
          uds.0,
          row,
          live,
          after_update-others d.id c f (λ r. refl) s j,
        );
        unique = ground (arith, done, rest.unique);
      }

-- The rows that `destroy_expired` loads.
abbrev batch : ℕ → ℕ → Db → List Drop
batch now limit s = take limit (order_by expiry (select (sweepable now) s.drops))

batch-Held :
    (now limit : ℕ) (s : Db)
    → IsUnique (λ r. r.id) s.drops
    → IsUnique (λ r. r.id) (batch now limit s)
      × Held (λ r. r.id) (sweepable now) (batch now limit s) s.drops
batch-Held now limit s u =
    let key = λ (r : Drop). r.id in
    let p = sweepable now in
    let u1 = IsUnique-select key p s.drops u in
    let h1 = Held-select key p s.drops u in
    (
      take-IsUnique key p limit _ (order_by-IsUnique key p expiry _ u1),
      take-Held key p limit _ s.drops (order_by-Held key p expiry _ s.drops h1),
    )

length-batch :
    (now limit : ℕ) (s : Db)
    → length (batch now limit s) ≡ min limit (rowcount (sweepable now) s.drops)
length-batch now limit s = omega (
  arith,
  length-take limit (order_by expiry (select (sweepable now) s.drops)),
  length-order_by expiry (select (sweepable now) s.drops),
  rowcount-eq-length-select (sweepable now) s.drops,
)

-- Every drop is as before, or it was available or cooling down with its expiry reached, and is
-- marked expired with its envelope cleared.
abbrev pub SweptRow : ℕ → Db → Db → ℕ → Type 0
SweptRow now s s' j =
    (get_drop j s' ≡ get_drop j s)
    ⊎ ((d : Drop) × (get_drop j s ≡ some d)
        × (sweepable now d ≡ true)
        × (get_drop j s' ≡ some (cleared DropStatus.expired d)))

destroy_expired-zero :
    (e : CryptoEngine) (rt : Runtime) (now : ℕ) (actor : Option ℕ) (s : Db)
    → destroy_expired e rt now 0 actor s ≡ (ok 0, s)
unfolding destroy_expired
destroy_expired-zero e rt now actor s = refl

destroy_expired-suc :
    (e : CryptoEngine) (rt : Runtime) (now n : ℕ) (actor : Option ℕ) (s : Db)
    → destroy_expired e rt now (suc n) actor s ≡ sweep e rt now actor (batch now (suc n) s) s
unfolding destroy_expired
destroy_expired-suc e rt now n actor s = ground arith

-- The sweep: with a limit, `destroy_expired` destroys as many expired drops as there are, the limit
-- at most, and returns that number; so many fewer are left to sweep. Every drop is as it was, or it
-- was due and is now marked expired and erased.
pub destroy_expired_sweeps :
    (e : CryptoEngine) (rt : Runtime) (now limit : ℕ) (actor : Option ℕ) (s : Db)
    → IsUnique (λ r. r.id) s.drops
    → let (r, s') = destroy_expired e rt now limit actor s in
      (r ≡ ok (min limit (rowcount (sweepable now) s.drops)))
      × (rowcount (sweepable now) s'.drops + min limit (rowcount (sweepable now) s.drops)
          ≡ rowcount (sweepable now) s.drops)
      × ((j : ℕ) → SweptRow now s s' j)
      × IsUnique (λ r. r.id) s'.drops
destroy_expired_sweeps e rt now zero actor s u =
    rw (destroy_expired-zero e rt now actor s) (ground arith, ground arith, λ j. inl refl, u)
destroy_expired_sweeps e rt now (suc n) actor s u =
    let ds = batch now (suc n) s in
    let (uds, held) = batch-Held now (suc n) s u in
    let all = sweep-Swept e rt now actor ds s u uds held in
    let size = length-batch now (suc n) s in
    rw (destroy_expired-suc e rt now n actor s) (
      all.count ∙ ap ok size,
      rw (← size) all.left,
      λ j. elim (Option-cases (get (λ r. r.id) j ds)) [
        | inl missing ↦ inl (ground (arith, all.rows j))
        | inr (d, found) ↦
            let (row, due) = Held-get (λ r. r.id) (sweepable now) j ds s.drops d held found in
            inr (d, row, due, ground (arith, all.rows j))
      ],
      all.unique,
    )
