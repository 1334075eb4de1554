-- ===== src/Signal/Sessions/Laws.antt =====
-- A session check of one socket: what its cache holds, and what it answers once its user is cut off.
use vortex_reloaded.Base.{
  some_injective, ℕ, ◌+◌, ◌*◌, ◌≤◌, ◌<◌, String, ◌≡◌, refl, sym, subst, ltb→lt, inl, inr, Bool,
  true, false, Option, none, some, arith, str_eq, Bool-cases, Option-cases, ltb, or_else,
}
use vortex_reloaded.Base.Dict.{lookup, insert, lookup-insert, lookup-delete}
use vortex_reloaded.Signal.Revocation.{RevocationRedis, is_revoked, revocation_ttl_seconds}
use vortex_reloaded.Signal.Sessions.Cutoff.{KeptKeys, IsCutOff, is_revoked_of_IsCutOff}
use vortex_reloaded.Signal.Sessions.{
  Payload, Jwt, session_fallback_max_age_ms, session_revalidation_ttl_ms, VerifiedClaims, Validated,
  Verdict, decided, Server, claims_of, is_session_revoked, forget, check_cached, validate_begin,
  admit, fall_back, validate_finish,
}

-- A token lives for a quarter of an hour.
abbrev pub token_lifetime_seconds : ℕ
token_lifetime_seconds = 900

-- The token is one of these claims that runs out at `exp` at the latest, a quarter of an hour after its issue.
abbrev pub IsTokenOf : (j : Jwt) (token : String) (claims : VerifiedClaims) (exp : ℕ) → Type 0
IsTokenOf j token claims exp =
    (claims_of (j.payload_of token) ≡ some claims)
    × ((j.payload_of token).exp ≡ some exp)
    × (exp ≤ claims.iat + token_lifetime_seconds)

-- A validation of the claims from before the token ran out.
abbrev pub IsGenuine : VerifiedClaims → (exp : ℕ) → Validated → Type 0
IsGenuine claims exp v = (v.claims ≡ claims) × (v.validated_at < exp * 1000)

abbrev pub AreGenuine : VerifiedClaims → (exp : ℕ) → Option Validated → Type 0
AreGenuine claims exp cached = (v : Validated) → cached ≡ some v → IsGenuine claims exp v

module _ (c : RevocationRedis) (j : Jwt) (has_jwks : Bool) (token_of : String → Option String)
    (socket token : String) (claims : VerifiedClaims) (exp : ℕ) where
  abbrev pub HasGenuine : Server c → Type 0
  HasGenuine s = AreGenuine claims exp (lookup socket s.cache)

  pub forget-HasGenuine :
      (other : String) (s : Server c) → HasGenuine s → HasGenuine (forget c other s)
  unfolding forget
  forget-HasGenuine other s h v e = elim (Bool-cases (str_eq other socket)) [
    | inl q ↦ cc (rw (lookup-delete other socket s.cache, q) at e)
    | inr q ↦ h v (rw (lookup-delete other socket s.cache, q) at e)
  ]

  pub verified_claims :
      (now : ℕ) (found : VerifiedClaims) (p : Payload)
      → IsTokenOf j token claims exp
      → j.jwt_verify now token ≡ some p
      → claims_of p ≡ some found
      → IsGenuine claims exp (record { validated_at = now; claims = found })
  verified_claims now found p (of, expires, short) e f =
      let same : p ≡ j.payload_of token = j.verified now token p e in
      (cc (same, of, f), j.alive now exp token p e (cc (same, expires)))

  inserted-genuine :
      (other : String) (entry : Validated) (s : Server c)
      → (str_eq other socket ≡ true → IsGenuine claims exp entry)
      → HasGenuine s
      → AreGenuine claims exp (lookup socket (insert other entry s.cache))
  inserted-genuine other entry s same h v q = elim (Bool-cases (str_eq other socket)) [
    | inl e ↦
        subst (IsGenuine claims exp)
          (some_injective (rw (lookup-insert other socket entry s.cache, e) at q)) (same e)
    | inr e ↦ h v (rw (lookup-insert other socket entry s.cache, e) at q)
  ]

  pub admit-HasGenuine :
      (now : ℕ) (other : String) (found : VerifiedClaims) (s : Server c)
      → (str_eq other socket ≡ true
          → IsGenuine claims exp (record { validated_at = now; claims = found }))
      → HasGenuine s
      → HasGenuine (admit c now other found s).0
  unfolding admit forget is_session_revoked
  admit-HasGenuine now other found s same h v q =
      elim (Bool-cases (or_else (is_revoked c now found.user_id found.iat s.store).1 true)) [
        | inl e ↦ forget-HasGenuine other s h v (rw e at q)
        | inr e ↦
            inserted-genuine other (record { validated_at = now; claims = found }) s same h v
              (rw e at q)
      ]

  module _ (kept : KeptKeys c) (t : ℕ) where
    -- The user is cut off at `t`, as long as a cutoff lasts.
    abbrev pub Bars : (now : ℕ) → Server c → Type 0
    Bars now s = now < t + revocation_ttl_seconds * 1000 → IsCutOff c kept claims.user_id t s.store

    is_session_revoked-cut :
        (now : ℕ) (s : Server c)
        → claims.iat * 1000 < t
        → IsCutOff c kept claims.user_id t s.store
        → now < t + revocation_ttl_seconds * 1000
        → (is_session_revoked c now claims s).1 ≡ true
    unfolding is_session_revoked
    is_session_revoked-cut now s old cut l =
        let no = is_revoked_of_IsCutOff c kept now t claims.iat claims.user_id s.store l old cut in
        elim (Option-cases (is_revoked c now claims.user_id claims.iat s.store).1) [
          | inl e ↦ rw e refl
          | inr (true, e) ↦ rw e refl
          | inr (false, e) ↦ absurd (no e)
        ]

    check_cached-refuses :
        (now : ℕ) (v : Validated) (s : Server c)
        → claims.iat * 1000 < t
        → exp ≤ claims.iat + token_lifetime_seconds
        → IsGenuine claims exp v
        → now < v.validated_at + session_fallback_max_age_ms
        → Bars now s
        → (check_cached c now socket v s).1.is_valid ≡ false
    unfolding check_cached
    check_cached-refuses now v s old short (same, early) l bars =
        let soon : now < t + revocation_ttl_seconds * 1000 = omega arith in
        let cut : (is_session_revoked c now v.claims s).1 ≡ true =
          subst (λ x. (is_session_revoked c now x s).1 ≡ true) (sym same)
            (is_session_revoked-cut now s old (bars soon) soon) in
        rw cut refl

    admit-refuses :
        (now : ℕ) (found : VerifiedClaims) (s : Server c)
        → claims.iat * 1000 < t
        → exp ≤ claims.iat + token_lifetime_seconds
        → IsGenuine claims exp (record { validated_at = now; claims = found })
        → Bars now s
        → (admit c now socket found s).1.is_valid ≡ false
    unfolding admit
    admit-refuses now found s old short (same, early) bars =
        let soon : now < t + revocation_ttl_seconds * 1000 = omega arith in
        let cut : (is_session_revoked c now found s).1 ≡ true =
          subst (λ x. (is_session_revoked c now x s).1 ≡ true) (sym same)
            (is_session_revoked-cut now s old (bars soon) soon) in
        rw cut refl

    fall_back-refuses :
        (now : ℕ) (cached : Option Validated) (s : Server c)
        → claims.iat * 1000 < t
        → exp ≤ claims.iat + token_lifetime_seconds
        → AreGenuine claims exp cached
        → Bars now s
        → (fall_back c now socket cached s).1.is_valid ≡ false
    unfolding fall_back
    fall_back-refuses now none s old short genuine bars = refl
    fall_back-refuses now (some v) s old short genuine bars =
        elim (Bool-cases (ltb now (v.validated_at + session_fallback_max_age_ms))) [
          | inl e ↦ rw e (
              check_cached-refuses now v s old short (genuine v refl)
                (ltb→lt now (v.validated_at + session_fallback_max_age_ms) e) bars)
          | inr e ↦ rw e refl
        ]

    -- A check that is decided at once, for a handshake with the token.
    pub validate_begin-refuses :
        (now : ℕ) (verdict : Verdict) (s : Server c)
        → has_jwks ≡ true
        → token_of socket ≡ some token
        → claims.iat * 1000 < t
        → exp ≤ claims.iat + token_lifetime_seconds
        → HasGenuine s
        → Bars now s
        → (validate_begin c j has_jwks token_of now socket s).1 ≡ decided verdict
        → verdict.is_valid ≡ false
    unfolding validate_begin
    validate_begin-refuses now verdict s on has_token old short genuine bars q =
        elim (Bool-cases (str_eq token "")) [
          | inl e ↦ cc (rw (on, has_token, e, validate_begin) at q)
          | inr e ↦ elim (Option-cases (lookup socket s.cache)) [
            | inl f ↦ cc (rw (on, has_token, e, f, validate_begin) at q)
            | inr (v, f) ↦
                elim (Bool-cases (ltb now (v.validated_at + session_revalidation_ttl_ms))) [
                  | inl g ↦
                      let early = ltb→lt now (v.validated_at + session_revalidation_ttl_ms) g in
                      let refused =
                        check_cached-refuses now v s old short (genuine v f) (omega arith) bars in
                      cc (rw (on, has_token, e, f, g, validate_begin) at q, refused)
                  | inr g ↦ cc (rw (on, has_token, e, f, g, validate_begin) at q)
                ]
          ]
        ]

    pub validate_finish-refuses :
        (now : ℕ) (cached : Option Validated) (s : Server c)
        → claims.iat * 1000 < t
        → IsTokenOf j token claims exp
        → AreGenuine claims exp cached
        → Bars now s
        → (validate_finish c j has_jwks token_of now socket token cached s).1.is_valid ≡ false
    unfolding validate_finish
    validate_finish-refuses now cached s old of genuine bars =
        elim (Option-cases (j.jwt_verify now token)) [
          | inl throws ↦
              rw (throws, validate_finish) (fall_back-refuses now cached s old of.2 genuine bars)
          | inr (p, e) ↦ elim (Option-cases (claims_of p)) [
            | inl nobody ↦ rw (e, nobody, validate_finish) refl
            | inr (found, f) ↦
                rw (e, f, validate_finish)
                  (admit-refuses now found s old of.2 (verified_claims now found p of e f) bars)
          ]
        ]
