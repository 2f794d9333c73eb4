-- ===== src/Auth/Sessions/Reuse.antt =====
-- A refresh token that has been given up is refused for good (server/app/services/sessions.py).
use crypto_campus.Prelude.{
  ℕ, ◌≡◌, refl, ap, ◌∙◌, ◌⊎◌, true, ◌||◌, Option, List, [], ◌∷◌, Bytes, Text, arith, ◌==◌, leb,
  update_where, Option-cases, Bool-cases, inl, inr,
}
use crypto_campus.Prelude.Keyed.{select_first-update_any}
use crypto_campus.Models.{User}
use crypto_campus.Crypto.{CryptoEngine, Runtime}
use crypto_campus.Action.{Result, ok, err, transaction_by}
use crypto_campus.Action.Laws.{Result-cases}
use crypto_campus.Auth.Sessions.{
  UserSession, AuthTables, SessionError, invalid, SessionFresh, has_hash, session_digest,
  by_token_hash, exchange, rotate, refresh, revoke,
}
use crypto_campus.Auth.Sessions.Once.{
  session_digest_same, session_digest_any, Exchanged, exchange_ok, used_row, revoked-usable,
  exchange_refused,
}
use crypto_campus.Auth.Sessions.Spent.{IsSpent, SessionCall, after_calls, after_calls-IsSpent}
use mathlib.Core.Path.{subst}

module _ (e : CryptoEngine) (rt : Runtime) where
  -- The hash of the token, under which the session is revoked.
  abbrev Spent : Text → AuthTables → Type 0
  Spent token s = (h : Bytes) × ((session_digest e rt token s).0 ≡ ok h) × IsSpent h s

  rotate-Spent :
      (token : Text) (now : ℕ) (device ip : Text) (f : SessionFresh) (s s' : AuthTables)
      (out : Text × UserSession × User)
      → rotate e rt token now device ip f s ≡ (ok out, s')
      → Spent token s'
  unfolding rotate transaction_by
  rotate-Spent token now device ip f s s' out q =
      elim (Result-cases (session_digest e rt token s)) [
        | inl (y, bad) ↦ absurd (ground (arith, q, bad))
        | inr (h, fine) ↦
            let same = session_digest_same e rt token s in
            elim (Result-cases (exchange e rt h now device ip f s)) [
              | inl (y, bad) ↦ absurd (ground (arith, q, fine, same, bad))
              | inr (out', good) ↦
                  let left : (exchange e rt h now device ip f s).1 ≡ s' =
                    ground (arith, q, fine, same, good) in
                  let ex : Exchanged e rt h now device ip f s s' out' =
                    subst (λ t. Exchanged e rt h now device ip f s t out') left
                      (exchange_ok e rt h now device ip f s out' (
                        ap
                          (λ (z : Result SessionError (Text × UserSession × User) × AuthTables).
                            z.0)
                          good)) in
                  (
                    h,
                    session_digest_any e rt token s' s
                        ∙ ap (λ (z : Result SessionError Bytes × AuthTables). z.0) fine,
                    record {
                      row = record ex.old { revoked = true };
                      found =
                          used_row e rt h now s s' ex.old out'.2 (out'.1 ∷ []) ex.allowed
                            ex.sessions;
                      revoked = refl;
                    },
                  )
            ]
      ]

  revoke-Spent :
      (token : Text) (now : ℕ) (s s' : AuthTables)
      → revoke e rt token now s ≡ (ok tt, s')
      → Spent token s'
  unfolding revoke transaction_by
  revoke-Spent token now s s' q = elim (Result-cases (session_digest e rt token s)) [
    | inl (y, bad) ↦ absurd (ground (arith, q, bad))
    | inr (h, fine) ↦
        let same = session_digest_same e rt token s in
        elim (Option-cases (by_token_hash e rt h s)) [
          | inl missing ↦ absurd (ground (arith, q, fine, same, missing))
          | inr (r, found) ↦ elim (Bool-cases (r.revoked || leb r.expires_at now)) [
            | inl gone ↦ absurd (ground (arith, q, fine, same, found, gone))
            | inr live ↦
                let one =
                  select_first-update_any (has_hash h) (λ x. x.id == r.id)
                    (λ x. record x { revoked = true }) (λ x. refl) s.sessions in
                let left : s' ≡ record s {
                  sessions =
                      update_where (λ x. x.id == r.id) (λ x. record x { revoked = true })
                        s.sessions;
                } =
                  ground (arith, q, fine, same, found, live) in
                (
                  h,
                  session_digest_any e rt token s' s
                      ∙ ap (λ (z : Result SessionError Bytes × AuthTables). z.0) fine,
                  record {
                    row = record r { revoked = true };
                    found = rw left (ground (arith, one, found));
                    revoked = refl;
                  },
                )
          ]
        ]
  ]

  -- A token that a rotation has used, or that a revocation has given up, is never good again: after
  -- any calls of the service, in any order and however each of them ends, with other tokens, this one,
  -- or any keys, a rotation, a refresh and a revocation with it are refused as invalid at every
  -- instant, and write nothing.
  pub given_up_for_good :
      (token : Text) (now : ℕ) (device ip : Text) (f : SessionFresh) (s s1 : AuthTables)
      (cs : List SessionCall) (later : ℕ) (device' ip' : Text) (f' : SessionFresh)
      (issue : User → ℕ → Option Text)
      → ((out : Text × UserSession × User) × (rotate e rt token now device ip f s ≡ (ok out, s1)))
        ⊎ (revoke e rt token now s ≡ (ok tt, s1))
      → let s' = after_calls e rt cs s1 in
        (rotate e rt token later device' ip' f' s' ≡ (err invalid, s'))
        × (refresh e rt issue token later device' ip' f' s' ≡ (err invalid, s'))
        × (revoke e rt token later s' ≡ (err invalid, s'))
  unfolding rotate refresh revoke transaction_by
  given_up_for_good token now device ip f s s1 cs later device' ip' f' issue done =
      let (h, hashed, spent) : Spent token s1 = elim done [
        | inl (out, q) ↦ rotate-Spent token now device ip f s s1 out q
        | inr q ↦ revoke-Spent token now s s1 q
      ] in
      let s' = after_calls e rt cs s1 in
      let spent' : IsSpent h s' = after_calls-IsSpent e rt h cs s1 spent in
      let fine = session_digest_any e rt token s' s1 ∙ hashed in
      let same = session_digest_same e rt token s' in
      let shut =
        exchange_refused e rt h later device' ip' f' s'
          (revoked-usable e rt h later s' spent'.row spent'.found spent'.revoked) in
      (
        ground (arith, fine, same, shut),
        ground (arith, fine, same, shut),
        ground (arith, fine, same, spent'.found, spent'.revoked),
      )
