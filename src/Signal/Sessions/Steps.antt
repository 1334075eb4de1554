-- ===== src/Signal/Sessions/Steps.antt =====
-- What the two parts of a check keep: a property that asking for a revocation and forgetting a socket
-- keep, and that the cache of a socket and the checks that wait for it stay genuine.
use vortex_reloaded.Base.{
  ℕ, ◌+◌, String, ◌≡◌, refl, inl, inr, Bool, not, Option, none, some, str_eq, Option-cases, ltb,
  if-holds,
}
use vortex_reloaded.Base.Dict.{lookup}
use vortex_reloaded.Signal.Revocation.{RevocationRedis}
use vortex_reloaded.Signal.Sessions.{
  Jwt, VerifiedClaims, Validated, Verdict, Begun, decided, verifying, Server, claims_of, forget,
  consult, begin_with, Payload, is_session_revoked, check_cached, admit, fall_back, validate_begin,
  validate_finish, session_revalidation_ttl_ms, session_fallback_max_age_ms,
}

module _ (c : RevocationRedis) (now : ℕ) (other : String) (Q : Server c → Type 0)
    (asks : (claims : VerifiedClaims) (s : Server c)
      → Q s
      → Q (is_session_revoked c now claims s).0)
    (forgets : (s : Server c) → Q s → Q (forget c other s)) where
  check_cached-keeps : (v : Validated) (s : Server c) → Q s → Q (check_cached c now other v s).0
  unfolding check_cached
  check_cached-keeps v s h =
      if-holds (λ (r : Server c × Verdict). Q r.0) (is_session_revoked c now v.claims s).1
        (λ e. forgets (is_session_revoked c now v.claims s).0 (asks v.claims s h))
        (λ e. asks v.claims s h)

  pub fall_back-keeps :
      (cached : Option Validated) (s : Server c) → Q s → Q (fall_back c now other cached s).0
  unfolding fall_back
  fall_back-keeps none s h = forgets s h
  fall_back-keeps (some v) s h =
      if-holds (λ (r : Server c × Verdict). Q r.0)
        (ltb now (v.validated_at + session_fallback_max_age_ms)) (λ e. check_cached-keeps v s h)
        (λ e. forgets s h)

  consult-keeps :
      (token : String) (cached : Option Validated) (s : Server c)
      → Q s
      → Q (consult c now other token cached s).0
  unfolding consult
  consult-keeps token none s h = h
  consult-keeps token (some v) s h =
      if-holds (λ (r : Server c × Begun). Q r.0)
        (ltb now (v.validated_at + session_revalidation_ttl_ms)) (λ e. check_cached-keeps v s h)
        (λ e. h)

  begin_with-keeps :
      (token : Option String) (s : Server c) → Q s → Q (begin_with c now other token s).0
  unfolding begin_with
  begin_with-keeps none s h = h
  begin_with-keeps (some token) s h =
      if-holds (λ (r : Server c × Begun). Q r.0) (str_eq token "") (λ e. h)
        (λ e. consult-keeps token (lookup other s.cache) s h)

  pub validate_begin-keeps :
      (j : Jwt) (has_jwks : Bool) (token_of : String → Option String) (s : Server c)
      → Q s
      → Q (validate_begin c j has_jwks token_of now other s).0
  unfolding validate_begin
  validate_begin-keeps j has_jwks token_of s h =
      if-holds (λ (r : Server c × Begun). Q r.0) (not has_jwks) (λ off. h)
        (λ on. begin_with-keeps (token_of other) s h)

  -- The second part, where what the cache takes in has the property.
  pub validate_finish-keeps :
      (j : Jwt) (has_jwks : Bool) (token_of : String → Option String) (token : String)
      (cached : Option Validated) (s : Server c)
      → ((p : Payload) (found : VerifiedClaims)
          → j.jwt_verify now token ≡ some p
          → claims_of p ≡ some found
          → Q (admit c now other found s).0)
      → Q s
      → Q (validate_finish c j has_jwks token_of now other token cached s).0
  unfolding validate_finish
  validate_finish-keeps j has_jwks token_of token cached s admits h =
      elim (Option-cases (j.jwt_verify now token)) [
        | inl throws ↦ rw (throws, validate_finish) (fall_back-keeps cached s h)
        | inr (p, e) ↦ elim (Option-cases (claims_of p)) [
          | inl nobody ↦ rw (e, nobody, validate_finish) (forgets s h)
          | inr (found, f) ↦ rw (e, f, validate_finish) (admits p found e f)
        ]
      ]

-- A check that waits has the token of the handshake and the entry of the cache.
module _ (c : RevocationRedis) (token_of : String → Option String) (now : ℕ) (other : String)
    (s : Server c) where
  abbrev pub IsBegun : Begun → Type 0
  IsBegun (decided verdict) = Unit
  IsBegun (verifying token cached) = (token_of other ≡ some token) × (cached ≡ lookup other s.cache)

  consult-IsBegun :
      (token : String) (cached : Option Validated)
      → token_of other ≡ some token
      → cached ≡ lookup other s.cache
      → IsBegun (consult c now other token cached s).1
  unfolding consult
  consult-IsBegun token none e f = (e, f)
  consult-IsBegun token (some v) e f =
      if-holds (λ (r : Server c × Begun). IsBegun r.1)
        (ltb now (v.validated_at + session_revalidation_ttl_ms)) (λ g. tt) (λ g. (e, f))

  begin_with-IsBegun :
      (token : Option String) → token_of other ≡ token → IsBegun (begin_with c now other token s).1
  unfolding begin_with
  begin_with-IsBegun none e = tt
  begin_with-IsBegun (some token) e =
      if-holds (λ (r : Server c × Begun). IsBegun r.1) (str_eq token "") (λ q. tt)
        (λ q. consult-IsBegun token (lookup other s.cache) e refl)

  pub validate_begin-IsBegun :
      (j : Jwt) (has_jwks : Bool) → IsBegun (validate_begin c j has_jwks token_of now other s).1
  unfolding validate_begin
  validate_begin-IsBegun j has_jwks =
      if-holds (λ (r : Server c × Begun). IsBegun r.1) (not has_jwks) (λ off. tt)
        (λ on. begin_with-IsBegun (token_of other) refl)
