-- ===== src/Votes/Publishing.antt =====
-- What a tally that was written looks like: the steps 5.7 to 5.10 of `submit` of
-- server/app/services/vote_ballots.py, and 5 to 8 of `settle` of vote_settlement.py.
use crypto_campus.Prelude.{
  ℕ, ◌≡◌, sym, ap, ◌∙◌, Bool, false, ◌==◌, ◌&&◌, ◌||◌, none, some, List, [], ◌∷◌, ◌++◌, Bytes, Text,
  arith, get, select_first, is_some,
}
use crypto_campus.Prelude.Keyed.{none_of}
use mathlib.Core.Path.{subst}
use crypto_campus.Text.{codes}
use crypto_campus.Crypto.{CryptoEngine, Runtime}
use crypto_campus.Action.{Result, ok, pure, or_raise, modify, ◌>>=◌, ◌>>◌}
use crypto_campus.Action.Laws.{bind_inv, pure_inv, guard_inv, or_raise_inv}
use crypto_campus.Votes.Rows.{
  VoteResultSnapshot, VoteLog, VoteTables, VoteError, VoteAction, VoteTools, VoteTallyMaterial,
  engine_unavailable, not_unique,
}
use crypto_campus.Votes.Encoding.{sign_vote_result}
use crypto_campus.Votes.Ballots.{add_snapshot, add_log, publish, total_of, is_version}

abbrev pub tally_log : Runtime → VoteTallyMaterial → ℕ → Text → Bytes → ℕ → VoteLog
tally_log rt m vote_id action digest now = record {
  actor = m.system_user_id;
  action = action;
  target = codes "vote:" ++ rt.id_text vote_id;
  detail_hash = digest;
  ts = now;
}

-- The snapshot that `publish` makes.
abbrev pub snapshot_of :
    VoteTallyMaterial → ℕ → List (ℕ × ℕ) → ℕ → Bool → ℕ → ℕ → Bytes × Bytes → VoteResultSnapshot
snapshot_of m vote_id counts version is_final id now z = record {
  id = id;
  vote_id = vote_id;
  version = version;
  counts = counts;
  total = total_of counts;
  result_digest = z.0;
  signature = z.1;
  signer_certificate = m.certificate_der;
  signer_public_key = m.public_key;
  published_at = now;
  is_final = is_final;
}

add_snapshot_inv :
    (x : VoteResultSnapshot) (s s' : VoteTables) (u : Unit {0})
    → add_snapshot x s ≡ (ok u, s')
    → (get (λ (y : VoteResultSnapshot). y.id) x.id s.snapshots ≡ none)
      × (s' ≡ record s { snapshots = s.snapshots ++ x ∷ [] })
unfolding add_snapshot
add_snapshot_inv x s s' u h =
    let found : (_ ≡ false) × (_ ≡ s') =
      guard_inv
        (is_some (get (λ (y : VoteResultSnapshot). y.id) x.id s.snapshots)
          || (is_some (select_first (is_version x.vote_id x.version) s.snapshots)
              || x.is_final
                && is_some (
                    select_first (λ (y : VoteResultSnapshot). y.vote_id == x.vote_id && y.is_final)
                      s.snapshots)))
        not_unique tt u s (record s { snapshots = s.snapshots ++ x ∷ [] }) s' h in
    (
      none_of (get (λ (y : VoteResultSnapshot). y.id) x.id s.snapshots) (ground (arith, found.0)),
      sym found.1,
    )

module _ (e : CryptoEngine) (rt : Runtime) (tools : VoteTools) (k : ℕ) (counts : List (ℕ × ℕ))
    (version : ℕ) (is_final : Bool) (id now : ℕ) (action : Text) (s s' : VoteTables)
    (x : VoteResultSnapshot) where
  pub record Published : Type 0 where
    pub material : VoteTallyMaterial
    pub unlocked : tools.tally_material ≡ some material
    pub signed :
        sign_vote_result e rt tools material k counts (total_of counts) now
        ≡ ok (x.result_digest, x.signature)
    pub row :
        x ≡ snapshot_of material k counts version is_final id now (x.result_digest, x.signature)
    pub fresh : get (λ (y : VoteResultSnapshot). y.id) id s.snapshots ≡ none
    pub tables : s' ≡ record s {
      snapshots = s.snapshots ++ x ∷ [];
      log = s.log ++ tally_log rt material k action x.result_digest now ∷ [];
    }

  -- The steps after the material is there.
  sign_and_add : VoteTallyMaterial → VoteAction VoteResultSnapshot
  sign_and_add m = do
    z ← λ s. (sign_vote_result e rt tools m k counts (total_of counts) now, s)
    add_snapshot (snapshot_of m k counts version is_final id now z)
    modify (add_log (tally_log rt m k action z.0 now))
    pure (snapshot_of m k counts version is_final id now z)

  add_and_log : VoteTallyMaterial → Bytes × Bytes → VoteAction VoteResultSnapshot
  add_and_log m z = do
    add_snapshot (snapshot_of m k counts version is_final id now z)
    modify (add_log (tally_log rt m k action z.0 now))
    pure (snapshot_of m k counts version is_final id now z)

  added_inv :
      (m : VoteTallyMaterial) (z : Bytes × Bytes)
      → tools.tally_material ≡ some m
      → sign_vote_result e rt tools m k counts (total_of counts) now ≡ ok z
      → add_and_log m z s ≡ (ok x, s')
      → Published
  unfolding add_and_log add_log
  added_inv m z unlocked signed h =
      let y : VoteResultSnapshot = snapshot_of m k counts version is_final id now z in
      let (u, added, h2) =
        bind_inv (λ u. do modify (add_log (tally_log rt m k action z.0 now)); pure y)
          (add_snapshot y) s s' x h in
      let (fresh, tables) = add_snapshot_inv y s (add_snapshot y s).1 u added in
      let (same, ends) =
        pure_inv y x (add_log (tally_log rt m k action z.0 now) (add_snapshot y s).1) s' h2 in
      let keys : z ≡ (x.result_digest, x.signature) =
        ap (λ (y : VoteResultSnapshot). (y.result_digest, y.signature)) same in
      record {
        material = m;
        unlocked = unlocked;
        signed = signed ∙ ap ok keys;
        row = sym same ∙ ap (snapshot_of m k counts version is_final id now) keys;
        fresh = fresh;
        tables =
            sym ends
            ∙ ap (add_log (tally_log rt m k action z.0 now)) tables
            ∙ ap
                (λ (y : VoteResultSnapshot). record s {
                  snapshots = s.snapshots ++ y ∷ [];
                  log = s.log ++ tally_log rt m k action y.result_digest now ∷ [];
                })
                same;
      }

  pub publish_inv :
      publish e rt tools k counts version is_final id now action s ≡ (ok x, s') → Published
  unfolding publish sign_and_add add_and_log
  publish_inv h =
      let (m, look, h2) =
        bind_inv sign_and_add (or_raise tools.tally_material engine_unavailable) s s' x h in
      let (unlocked, same) = or_raise_inv tools.tally_material engine_unavailable m s _ look in
      let t : VoteTables = (or_raise tools.tally_material engine_unavailable s).1 in
      let (z, signed, h3) =
        bind_inv (add_and_log m)
          (λ s. (sign_vote_result e rt tools m k counts (total_of counts) now, s)) t s' x h2 in
      added_inv m z unlocked
        (ap (λ (z : Result VoteError (Bytes × Bytes) × VoteTables). z.0) signed)
        (subst (λ t. add_and_log m z t ≡ (ok x, s')) (sym same) h3)
