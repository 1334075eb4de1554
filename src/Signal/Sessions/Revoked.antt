-- ===== src/Signal/Sessions/Revoked.antt =====
-- Once the sessions of a user are revoked, no check passes for a token from before, in whatever order the
-- checks of all sockets and the other calls come.
use vortex_reloaded.Base.{
  ℕ, ◌*◌, ◌≤◌, ◌<◌, String, ◌≡◌, refl, sym, ap, ◌∙◌, true, false, List, [], ◌∷◌, Option, none, some,
  arith, eq_iff, Bool, some_injective,
}
use vortex_reloaded.Signal.Revocation.{RevocationRedis, Store, revoke}
use vortex_reloaded.Signal.Sessions.Cutoff.{
  KeptKeys, IsCutOff, IsSound, revoke-IsCutOff, is_revoked-IsCutOff, prune_expired-IsCutOff,
  revoke-IsCutOff_self,
}
use vortex_reloaded.Signal.Sessions.Laws.{
  IsTokenOf, Bars, validate_begin-refuses, validate_finish-refuses,
}
use vortex_reloaded.Signal.Sessions.Run.{
  Waiting, Op, revokes, prunes, disconnects, begins, finishes, nth, World, begun, finished, step,
  run, IsTimed,
}
use vortex_reloaded.Signal.Sessions.{
  Jwt, VerifiedClaims, Verdict, Begun, decided, verifying, Server, validate_begin,
}
use vortex_reloaded.Signal.Sessions.Fine.{
  started, step-store, run-IsSound, IsFine, All-nth, started-IsFine, step-IsFine, run-IsFine,
}

-- One socket, whose token has these claims, and a cutoff of its user at `t`.
module _ (c : RevocationRedis) (j : Jwt) (has_jwks : Bool) (token_of : String → Option String)
    (socket token : String) (claims : VerifiedClaims) (exp : ℕ) where
  module _ (has_token : token_of socket ≡ some token) (of : IsTokenOf j token claims exp) where
    module _ (kept : KeptKeys c) (t : ℕ) where
      abbrev BarsIn : ℕ → World c → Type 0
      BarsIn now w = Bars c j has_jwks token_of socket token claims exp kept t now w.server

      step-Bars :
          (before now : ℕ) (op : Op) (w : World c)
          → t ≤ now
          → before ≤ now
          → BarsIn before w
          → BarsIn now (step c j has_jwks token_of now op w).0
      step-Bars before now op w h l bars soon =
          step-store c j has_jwks token_of now (IsCutOff c kept claims.user_id t)
            (λ other s cut. revoke-IsCutOff c kept now t claims.user_id other s h soon cut)
            (λ other iat s cut.
              is_revoked-IsCutOff c kept now t iat claims.user_id other s h soon cut)
            (λ s cut. prune_expired-IsCutOff c kept now t claims.user_id s h soon cut) op w
            (bars (omega arith))

      run-Bars :
          (from now : ℕ) (ops : List (ℕ × Op)) (w : World c)
          → t ≤ from
          → IsTimed from now ops
          → BarsIn from w
          → BarsIn now (run c j has_jwks token_of ops w)
      unfolding run
      run-Bars from now [] w h k bars soon = bars (omega arith)
      run-Bars from now ((at, op) ∷ ops) w h k bars soon =
          run-Bars at now ops (step c j has_jwks token_of at op w).0 (omega arith) k.1
            (step-Bars from at op w (omega arith) k.0 bars) soon

      begun-refuses :
          (now : ℕ) (other : String) (verdict : Verdict) (w : World c) (r : Server c × Begun)
          → has_jwks ≡ true
          → claims.iat * 1000 < t
          → IsFine c j has_jwks token_of socket token claims exp w
          → BarsIn now w
          → validate_begin c j has_jwks token_of now other w.server ≡ r
          → (begun c other w r).1 ≡ some (socket, verdict)
          → verdict.is_valid ≡ false
      unfolding begun
      begun-refuses now other verdict w (s, verifying tok cached) on old fine bars b e = cc
      begun-refuses now other verdict w (s, decided answer) on old fine bars b e =
          let is : other ≡ socket = ap (λ x. x.0) (some_injective e) in
          let same : answer ≡ verdict = ap (λ x. x.1) (some_injective e) in
          validate_begin-refuses c j has_jwks token_of socket token claims exp kept t now verdict
            w.server on has_token old of.2 fine.0 bars
            (ap (λ k. (validate_begin c j has_jwks token_of now k w.server).1) (sym is)
              ∙ ap (λ x. x.1) b
              ∙ ap decided same)

      finished-refuses :
          (now n : ℕ) (p : Option Waiting) (verdict : Verdict) (w : World c)
          → claims.iat * 1000 < t
          → IsFine c j has_jwks token_of socket token claims exp w
          → BarsIn now w
          → nth n w.waiting ≡ p
          → (finished c j has_jwks token_of now n p w).1 ≡ some (socket, verdict)
          → verdict.is_valid ≡ false
      unfolding finished
      finished-refuses now n none verdict w old fine bars b e = cc
      finished-refuses now n (some p) verdict w old fine bars b e =
          let is : p.socket ≡ socket = ap (λ x. x.0) (some_injective e) in
          let waits =
            All-nth c j has_jwks token_of socket token claims exp n w.waiting p fine.1 b
              ((eq_iff p.socket socket).1 is) in
          let refused =
            validate_finish-refuses c j has_jwks token_of socket token claims exp kept t now
              p.cached w.server old of waits.1 bars in
          cc (ap (λ x. x.1) (some_injective e), is, waits.0, refused)

      -- What an operation answers to the socket, once the user is cut off.
      step-refuses :
          (now : ℕ) (op : Op) (verdict : Verdict) (w : World c)
          → has_jwks ≡ true
          → claims.iat * 1000 < t
          → IsFine c j has_jwks token_of socket token claims exp w
          → BarsIn now w
          → (step c j has_jwks token_of now op w).1 ≡ some (socket, verdict)
          → verdict.is_valid ≡ false
      unfolding step
      step-refuses now (revokes user) verdict w on old fine bars e = cc
      step-refuses now prunes verdict w on old fine bars e = cc
      step-refuses now (disconnects other) verdict w on old fine bars e = cc
      step-refuses now (begins other) verdict w on old fine bars e =
          begun-refuses now other verdict w
            (validate_begin c j has_jwks token_of now other w.server) on old fine bars refl e
      step-refuses now (finishes n) verdict w on old fine bars e =
          finished-refuses now n (nth n w.waiting) verdict w old fine bars refl e

-- With configured keys, whether revocations are kept in memory or in Redis: after a revocation that
-- reports success, no check of a socket's session passes if the token of its handshake is that user's, from
-- before the revocation, and runs out within a quarter of an hour. This holds whatever was cached, whatever
-- checks were waiting, and whatever calls of other sockets come in between, if times do not go back.
pub step-revokes-refuses :
    (c : RevocationRedis) (j : Jwt) (has_jwks : Bool) (token_of : String → Option String)
    (kept : KeptKeys c) (socket token : String) (claims : VerifiedClaims) (exp t now : ℕ)
    (before after : List (ℕ × Op)) (op : Op) (store : Store c) (verdict : Verdict)
    → IsSound c kept store
    → has_jwks ≡ true
    → token_of socket ≡ some token
    → IsTokenOf j token claims exp
    → claims.iat * 1000 < t
    → IsTimed t now after
    → (revoke c t claims.user_id
        (run c j has_jwks token_of before (started c store)).server.store).1
      ≡ true
    → (step c j has_jwks token_of now op (
        run c j has_jwks token_of after
          (step c j has_jwks token_of t
            (revokes claims.user_id)
            (run c j has_jwks token_of before (started c store))).0)).1
      ≡ some (socket, verdict)
    → verdict.is_valid ≡ false
step-revokes-refuses c j has_jwks token_of kept socket token claims exp t now before after op store
      verdict sound on has_token of old timed done answer =
    let w = run c j has_jwks token_of before (started c store) in
    let w' = (step c j has_jwks token_of t (revokes claims.user_id) w).0 in
    let fine =
      run-IsFine c j has_jwks token_of socket token claims exp has_token of before (started c store)
        (started-IsFine c j has_jwks token_of socket token claims exp store) in
    let fine' =
      step-IsFine c j has_jwks token_of socket token claims exp has_token of t
        (revokes claims.user_id) w fine in
    let cut =
      revoke-IsCutOff_self c kept t claims.user_id w.server.store
        (run-IsSound c j has_jwks token_of kept before (started c store) sound) done in
    step-refuses c j has_jwks token_of socket token claims exp has_token of kept t now op verdict
      (run c j has_jwks token_of after w') on old
      (run-IsFine c j has_jwks token_of socket token claims exp has_token of after w' fine')
      (run-Bars c j has_jwks token_of socket token claims exp has_token of kept t t now after w'
        (omega arith) timed (λ soon. unfold step in cut))
      answer
