-- ===== src/Signal/Endpoints/Laws.antt =====
-- What a revocation of sessions comes to.

use vortex_reloaded.Base.{
  ℕ, ◌*◌, ◌<◌, String, ◌≡◌, refl, sym, subst, ap, ◌∙◌, inl, inr, Bool, true, false, List, [], ◌∷◌,
  ◌++◌, Option, none, some, arith, map, str_eq, Bool-cases, or_else,
}
use vortex_reloaded.Signal.Value.{Value, get, as_nonempty}
use vortex_reloaded.Signal.Revocation.{RevocationRedis, Store, revoke}
use vortex_reloaded.Signal.Sessions.{Jwt, VerifiedClaims, Verdict, forget}
use vortex_reloaded.Signal.Sessions.Cutoff.{KeptKeys, IsSound}
use vortex_reloaded.Signal.Sessions.Laws.{IsTokenOf}
use vortex_reloaded.Signal.Sessions.Run.{Op, revokes, disconnects, World, step, run, IsTimed}
use vortex_reloaded.Signal.Sessions.Fine.{started}
use vortex_reloaded.Signal.Sessions.Revoked.{step-revokes-refuses}
use vortex_reloaded.Signal.Endpoints.{
  HttpRequest, revoked, admit_request, disconnect_all, revoke_user, revoke_sessions,
}

module _ (c : RevocationRedis) (j : Jwt) (has_jwks : Bool) (token_of : String → Option String)
    (now : ℕ) where
  abbrev goodbyes : List String → List (ℕ × Op)
  goodbyes = map (λ id. (now, disconnects id))

  disconnect_all-run :
      (user : String) (sockets : List (String × Option String)) (w : World c)
      → run c j has_jwks token_of (goodbyes (disconnect_all c user sockets w.server).1) w
        ≡ record w { server = (disconnect_all c user sockets w.server).0 }
  unfolding disconnect_all run step
  disconnect_all-run user [] w = refl
  disconnect_all-run user ((id, owner) ∷ sockets) w =
      elim (Bool-cases (str_eq (or_else owner "") user)) [
        | inl e ↦
            rw e (disconnect_all-run user sockets (record w { server = forget c id w.server }))
        | inr e ↦ rw e (disconnect_all-run user sockets w)
      ]

  run-append :
      (xs ys : List (ℕ × Op)) (w : World c)
      → run c j has_jwks token_of (xs ++ ys) w
        ≡ run c j has_jwks token_of ys (run c j has_jwks token_of xs w)
  unfolding run
  run-append [] ys w = refl
  run-append ((at, op) ∷ xs) ys w = run-append xs ys (step c j has_jwks token_of at op w).0

  goodbyes-IsTimed :
      (until : ℕ) (ids : List String) (ops : List (ℕ × Op))
      → IsTimed now until ops
      → IsTimed now until (goodbyes ids ++ ops)
  goodbyes-IsTimed until [] ops h = h
  goodbyes-IsTimed until (id ∷ ids) ops h = (omega arith, goodbyes-IsTimed until ids ops h)

  -- A revocation that is answered with success was stored, and the sockets were then forgotten.
  revoke_user-revoked :
      (sockets : Option (List (String × Option String))) (user : String) (n : ℕ) (w : World c)
      → (revoke_user c now sockets user w.server).1 ≡ revoked n
      → ((revoke c now user w.server.store).1 ≡ true)
        × (record w { server = (revoke_user c now sockets user w.server).0 }
            ≡ run c j has_jwks token_of
                (goodbyes (revoke_user c now sockets user w.server).2)
                (step c j has_jwks token_of now (revokes user) w).0)
  unfolding revoke_user step
  revoke_user-revoked none user n w h = elim (Bool-cases (revoke c now user w.server.store).1) [
    | inr e ↦ cc (rw e at h)
    | inl e ↦ cc (rw e at h)
  ]
  revoke_user-revoked (some ss) user n w h =
      elim (Bool-cases (revoke c now user w.server.store).1) [
        | inr e ↦ cc (rw e at h)
        | inl e ↦ (
          e,
          rw e (
              sym (
                disconnect_all-run user ss (record w {
                  server = record w.server { store = (revoke c now user w.server.store).0 };
                }))),
        )
      ]

-- End to end, with configured keys: once the endpoint has answered a revocation of the sessions of a user with
-- success, no check of a socket's session passes if the token of its handshake is that user's, from before,
-- and runs out within a quarter of an hour. This holds with the revocations in memory or in Redis, whatever
-- was cached, whatever checks were waiting, and whatever calls follow, if times do not go back.
pub revoke_sessions-refuses :
    (c : RevocationRedis) (j : Jwt) (has_jwks : Bool) (token_of : String → Option String)
    (kept : KeptKeys c) (json_parse : String → Option Value) (secret socket token : String)
    (claims : VerifiedClaims) (exp t now n : ℕ) (before after : List (ℕ × Op)) (op : Op)
    (store : Store c) (sockets : Option (List (String × Option String))) (q : HttpRequest)
    (body : Value) (w : World c) (verdict : Verdict)
    → IsSound c kept store
    → has_jwks ≡ true
    → token_of socket ≡ some token
    → IsTokenOf j token claims exp
    → claims.iat * 1000 < t
    → IsTimed t now after
    → w ≡ run c j has_jwks token_of before (started c store)
    → admit_request json_parse "Revocation endpoint not configured" secret true q ≡ inr body
    → as_nonempty (get "userId" body) ≡ some claims.user_id
    → (revoke_sessions c json_parse secret t sockets q w.server).1 ≡ revoked n
    → (step c j has_jwks token_of now op (
        run c j has_jwks token_of after
          (record w { server = (revoke_sessions c json_parse secret t sockets q w.server).0 }))).1
      ≡ some (socket, verdict)
    → verdict.is_valid ≡ false
unfolding revoke_sessions
revoke_sessions-refuses c j has_jwks token_of kept json_parse secret socket token claims exp t now n
      before after op store sockets q body w verdict sound on has_token of old timed ran admitted
      names done answer =
    let user = claims.user_id in
    let same : revoke_sessions c json_parse secret t sockets q w.server
        ≡ revoke_user c t sockets user w.server =
      rw (admitted, names, revoke_sessions) refl in
    let facts =
      revoke_user-revoked c j has_jwks token_of t sockets user n w
        (sym (ap (λ x. x.1) same) ∙ done) in
    let ids = goodbyes c j has_jwks token_of t (revoke_user c t sockets user w.server).2 in
    let reaches : run c j has_jwks token_of (ids ++ after)
          (step c j has_jwks token_of t (revokes user) w).0
        ≡ run c j has_jwks token_of after
            (record w { server = (revoke_sessions c json_parse secret t sockets q w.server).0 }) =
      run-append c j has_jwks token_of t ids after (step c j has_jwks token_of t (revokes user) w).0
      ∙ ap (run c j has_jwks token_of after)
          (sym facts.1 ∙ ap (λ x. record w { server = x.0 }) (sym same)) in
    step-revokes-refuses c j has_jwks token_of kept socket token claims exp t now before
      (ids ++ after) op store verdict sound on has_token of old
      (goodbyes-IsTimed c j has_jwks token_of t now (revoke_user c t sockets user w.server).2 after
        timed)
      (subst (λ x. (revoke c t user x.server.store).1 ≡ true) ran facts.0)
      (subst
        (λ x.
          (step c j has_jwks token_of now op (
            run c j has_jwks token_of (ids ++ after)
              (step c j has_jwks token_of t (revokes user) x).0)).1
          ≡ some (socket, verdict))
        ran (ap (λ x. (step c j has_jwks token_of now op x).1) reaches ∙ answer))
