-- ===== src/Signal/Sessions/Fine.antt =====
-- What holds throughout of the server with the checks that wait: its store stays sound, and what the cache
-- and the waiting checks have of a socket are validations of its token.
use vortex_reloaded.Base.{
  ℕ, zero, suc, String, ◌≡◌, refl, sym, subst, ap, ◌∙◌, true, List, [], ◌∷◌, Option, none, some,
  eq_iff, str_eq, All, Bool, if-holds, some_injective,
}
use vortex_reloaded.Base.Dict.{lookup}
use vortex_reloaded.Signal.Revocation.{RevocationRedis, Store, is_revoked, revoke, prune_expired}
use vortex_reloaded.Signal.Sessions.Cutoff.{
  KeptKeys, IsSound, revoke-IsSound, is_revoked-IsSound, prune_expired-IsSound,
}
use vortex_reloaded.Signal.Sessions.Laws.{
  IsTokenOf, AreGenuine, HasGenuine, forget-HasGenuine, admit-HasGenuine, verified_claims,
}
use vortex_reloaded.Signal.Sessions.Run.{
  Waiting, Op, revokes, prunes, disconnects, begins, finishes, nth, without_nth, World, begun,
  finished, step, run,
}
use vortex_reloaded.Signal.Sessions.Steps.{
  validate_begin-keeps, validate_finish-keeps, validate_begin-IsBegun, IsBegun,
}
use vortex_reloaded.Signal.Sessions.{
  Jwt, VerifiedClaims, Verdict, Begun, decided, verifying, Server, is_session_revoked, forget,
  admit, validate_begin,
}

-- The server as it starts, with these revocations in its store.
abbrev pub started : (c : RevocationRedis) → Store c → World c
started c store = record { server = record { cache = []; store = store }; waiting = [] }

-- What holds of the stores under all calls holds of the store of the world.
module _ (c : RevocationRedis) (j : Jwt) (has_jwks : Bool) (token_of : String → Option String)
    (now : ℕ) (P : Store c → Type 0)
    (revoked : (user : String) (s : Store c) → P s → P (revoke c now user s).0)
    (asked : (user : String) (iat : ℕ) (s : Store c) → P s → P (is_revoked c now user iat s).0)
    (pruned : (s : Store c) → P s → P (prune_expired c now s)) where
  begun-store :
      (other : String) (w : World c) (r : Server c × Begun)
      → P r.0.store
      → P (begun c other w r).0.server.store
  unfolding begun
  begun-store other w (s, decided verdict) h = h
  begun-store other w (s, verifying token cached) h = h

  admit-store :
      (other : String) (found : VerifiedClaims) (s : Server c)
      → P s.store
      → P (admit c now other found s).0.store
  unfolding admit is_session_revoked
  admit-store other found s h =
      let kept = asked found.user_id found.iat s.store h in
      if-holds (λ (r : Server c × Verdict). P r.0.store) (is_session_revoked c now found s).1
        (λ e. kept) (λ e. kept)

  finished-store :
      (n : ℕ) (p : Option Waiting) (w : World c)
      → P w.server.store
      → P (finished c j has_jwks token_of now n p w).0.server.store
  unfolding finished is_session_revoked forget
  finished-store n none w h = h
  finished-store n (some p) w h =
      validate_finish-keeps c now p.socket (λ s. P s.store)
        (λ claims s k. asked claims.user_id claims.iat s.store k) (λ s k. k) j has_jwks token_of
        p.token p.cached w.server (λ q found e f. admit-store p.socket found w.server h) h

  pub step-store :
      (op : Op) (w : World c)
      → P w.server.store
      → P (step c j has_jwks token_of now op w).0.server.store
  unfolding step is_session_revoked forget
  step-store (revokes user) w h = revoked user w.server.store h
  step-store prunes w h = pruned w.server.store h
  step-store (disconnects other) w h = h
  step-store (begins other) w h =
      begun-store other w (validate_begin c j has_jwks token_of now other w.server) (
        validate_begin-keeps c now other (λ s. P s.store)
          (λ claims s k. asked claims.user_id claims.iat s.store k) (λ s k. k) j has_jwks token_of
          w.server h)
  step-store (finishes n) w h = finished-store n (nth n w.waiting) w h

-- Without Redis the keys of the store stay distinct, and with it it stays.
module _ (c : RevocationRedis) (j : Jwt) (has_jwks : Bool) (token_of : String → Option String)
    (kept : KeptKeys c) where
  pub run-IsSound :
      (ops : List (ℕ × Op)) (w : World c)
      → IsSound c kept w.server.store
      → IsSound c kept (run c j has_jwks token_of ops w).server.store
  unfolding run
  run-IsSound [] w h = h
  run-IsSound ((now, op) ∷ ops) w h = run-IsSound ops (step c j has_jwks token_of now op w).0 (
      step-store c j has_jwks token_of now (IsSound c kept) (revoke-IsSound c kept now)
        (λ user iat s k. is_revoked-IsSound c kept now iat user s k)
        (prune_expired-IsSound c kept now) op w h)

-- One socket, whose token has these claims.
module _ (c : RevocationRedis) (j : Jwt) (has_jwks : Bool) (token_of : String → Option String)
    (socket token : String) (claims : VerifiedClaims) (exp : ℕ) where
  abbrev pub WaitsFine : Waiting → Type 0
  WaitsFine p = str_eq p.socket socket ≡ true → (p.token ≡ token) × AreGenuine claims exp p.cached

  abbrev pub IsFine : World c → Type 0
  IsFine w =
      HasGenuine c j has_jwks token_of socket token claims exp w.server × All WaitsFine w.waiting

  pub All-nth :
      (n : ℕ) (ws : List Waiting) (p : Waiting) → All WaitsFine ws → nth n ws ≡ some p → WaitsFine p
  All-nth n [] p h e = cc
  All-nth zero (w ∷ ws) p h e = subst WaitsFine (some_injective e) h.0
  All-nth (suc n) (w ∷ ws) p h e = All-nth n ws p h.1 e

  All-without_nth :
      (n : ℕ) (ws : List Waiting) → All WaitsFine ws → All WaitsFine (without_nth n ws)
  All-without_nth n [] h = tt
  All-without_nth zero (w ∷ ws) h = h.1
  All-without_nth (suc n) (w ∷ ws) h = (h.0, All-without_nth n ws h.1)

  pub started-IsFine : (store : Store c) → IsFine (started c store)
  unfolding lookup
  started-IsFine store = ((λ v e. cc e), tt)

  module _ (has_token : token_of socket ≡ some token) (of : IsTokenOf j token claims exp) where
    begun-IsFine :
        (now : ℕ) (other : String) (w : World c) (r : Server c × Begun)
        → HasGenuine c j has_jwks token_of socket token claims exp r.0
        → IsBegun c token_of now other w.server r.1
        → IsFine w
        → IsFine (begun c other w r).0
    unfolding begun
    begun-IsFine now other w (s, decided verdict) g b h = (g, h.1)
    begun-IsFine now other w (s, verifying tok cached) g b h = (
      g,
      (
        λ same.
            let is = (eq_iff other socket).0 same in
            (
              some_injective (sym b.0 ∙ ap token_of is ∙ has_token),
              λ v e. h.0 v (ap (λ k. lookup k w.server.cache) (sym is) ∙ sym b.1 ∙ e),
            ),
        h.1,
      ),
    )

    finished-IsFine :
        (now n : ℕ) (p : Option Waiting) (w : World c)
        → nth n w.waiting ≡ p
        → IsFine w
        → IsFine (finished c j has_jwks token_of now n p w).0
    unfolding finished is_session_revoked
    finished-IsFine now n none w e h = h
    finished-IsFine now n (some p) w e h = (
      validate_finish-keeps c now p.socket
          (HasGenuine c j has_jwks token_of socket token claims exp) (λ found s k. k)
          (forget-HasGenuine c j has_jwks token_of socket token claims exp p.socket) j has_jwks
          token_of p.token p.cached w.server
          (λ q found f g.
            admit-HasGenuine c j has_jwks token_of socket token claims exp now p.socket found
              w.server
              (λ same.
                verified_claims c j has_jwks token_of socket token claims exp now found q of
                  (rw (sym (All-nth n w.waiting p h.1 e same).0) f) g)
              h.0)
          h.0,
      All-without_nth n w.waiting h.1,
    )

    pub step-IsFine :
        (now : ℕ) (op : Op) (w : World c)
        → IsFine w
        → IsFine (step c j has_jwks token_of now op w).0
    unfolding step is_session_revoked
    step-IsFine now (revokes user) w h = h
    step-IsFine now prunes w h = h
    step-IsFine now (disconnects other) w h =
        (forget-HasGenuine c j has_jwks token_of socket token claims exp other w.server h.0, h.1)
    step-IsFine now (begins other) w h =
        begun-IsFine now other w (validate_begin c j has_jwks token_of now other w.server)
          (validate_begin-keeps c now other
            (HasGenuine c j has_jwks token_of socket token claims exp) (λ found s k. k)
            (forget-HasGenuine c j has_jwks token_of socket token claims exp other) j has_jwks
            token_of w.server h.0)
          (validate_begin-IsBegun c token_of now other w.server j has_jwks) h
    step-IsFine now (finishes n) w h = finished-IsFine now n (nth n w.waiting) w refl h

    pub run-IsFine :
        (ops : List (ℕ × Op)) (w : World c) → IsFine w → IsFine (run c j has_jwks token_of ops w)
    unfolding run
    run-IsFine [] w h = h
    run-IsFine ((now, op) ∷ ops) w h = run-IsFine ops _ (step-IsFine now op w h)
