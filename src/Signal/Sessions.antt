-- ===== src/Signal/Sessions.antt =====
-- apps/signal/src/index.ts: the check of a socket's session, with its cache of validations. A check
-- waits for the verification of the token, so it has two parts, between which other handlers run:
-- `validate_begin` and `validate_finish`. The verification, the question for a revocation and the write
-- to the cache after it are done at one time.
pub mod Laws
pub mod Run
pub mod Cutoff
pub mod Steps
pub mod Fine
pub mod Revoked
use vortex_reloaded.Base.{
  ℕ, ◌+◌, ◌*◌, ◌<◌, String, ◌≡◌, Bool, true, false, not, Option, none, some, ltb, if◌then◌else◌,
  str_eq, or_else,
}
use vortex_reloaded.Base.Dict.{Dict, lookup, insert, delete}
use vortex_reloaded.Signal.Revocation.{RevocationRedis, Store, is_revoked}

-- What a handshake token says; `none` where a claim is missing or of another type.
pub record Payload : Type 0 where
  pub sub : Option String
  pub iat : Option ℕ
  pub exp : Option ℕ

-- `jwtVerify` of jose: `none` where it throws, be it that the keys cannot be fetched. A token that has run
-- out throws.
pub record Jwt : Type 0 where
  pub payload_of : String → Payload
  pub jwt_verify : (now : ℕ) → String → Option Payload
  pub verified :
      (now : ℕ) (token : String) (p : Payload)
      → jwt_verify now token ≡ some p
      → p ≡ payload_of token
  pub alive :
      (now e : ℕ) (token : String) (p : Payload)
      → jwt_verify now token ≡ some p
      → p.exp ≡ some e
      → now < e * 1000

abbrev pub session_revalidation_ttl_ms : ℕ
session_revalidation_ttl_ms = 10000

abbrev pub session_fallback_max_age_ms : ℕ
session_fallback_max_age_ms = 15000

pub record VerifiedClaims : Type 0 where
  pub user_id : String
  pub iat : ℕ

-- An entry of `sessionValidationCache`.
pub record Validated : Type 0 where
  pub validated_at : ℕ
  pub claims : VerifiedClaims

-- What a check comes to: its answer, and whether the socket is disconnected.
pub record Verdict : Type 0 where
  pub is_valid : Bool
  pub disconnects : Bool

pub data Begun : Type 0 where
  decided : Verdict → Begun
  verifying : (token : String) → (cached : Option Validated) → Begun

abbrev pub passed : Verdict
passed = record { is_valid = true; disconnects = false }

abbrev pub failed : Verdict
failed = record { is_valid = false; disconnects = false }

abbrev pub thrown_out : Verdict
thrown_out = record { is_valid = false; disconnects = true }

abbrev pub claims_of : Payload → Option VerifiedClaims
claims_of p = elim p.sub [
  | none ↦ none
  | some user ↦ some (record { user_id = user; iat = or_else p.iat 0 })
]

module _ (c : RevocationRedis) where
  pub record Server : Type 0 where
    pub cache : Dict Validated
    pub store : Store c

  -- A read that throws counts as revoked.
  unfoldable pub is_session_revoked : (now : ℕ) → VerifiedClaims → Server → Server × Bool
  is_session_revoked now claims s =
      let (store, answer) = is_revoked c now claims.user_id claims.iat s.store in
      (record s { store = store }, or_else answer true)

  unfoldable pub forget : (socket : String) → Server → Server
  forget socket s = record s { cache = delete socket s.cache }

  unfoldable pub reject_revoked_session : (socket : String) → Server → Server × Verdict
  unfolding forget
  reject_revoked_session socket s = (forget socket s, thrown_out)

  unfoldable pub check_cached :
      (now : ℕ) → (socket : String) → Validated → Server → Server × Verdict
  unfolding is_session_revoked reject_revoked_session
  check_cached now socket v s =
      let (s', revoked) = is_session_revoked now v.claims s in
      if revoked then reject_revoked_session socket s' else (s', passed)

  -- The token verified as one of these claims.
  unfoldable pub admit : (now : ℕ) → (socket : String) → VerifiedClaims → Server → Server × Verdict
  unfolding is_session_revoked reject_revoked_session
  admit now socket claims s =
      let (s', revoked) = is_session_revoked now claims s in
      if revoked then reject_revoked_session socket s' else (
        record s' {
          cache = insert socket (record { validated_at = now; claims = claims }) s'.cache;
        },
        passed,
      )

  -- The verification threw.
  unfoldable pub fall_back :
      (now : ℕ) → (socket : String) → (cached : Option Validated) → Server → Server × Verdict
  unfolding check_cached forget
  fall_back now socket cached s = elim cached [
    | none ↦ (forget socket s, thrown_out)
    | some v ↦
        if ltb now (v.validated_at + session_fallback_max_age_ms)
        then check_cached now socket v s
        else (forget socket s, thrown_out)
  ]

  -- The part with the entry that the cache has for the socket: a late one is enough.
  unfoldable pub consult :
      (now : ℕ) → (socket token : String) → (cached : Option Validated) → Server → Server × Begun
  unfolding check_cached
  consult now socket token none s = (s, verifying token none)
  consult now socket token (some v) s =
      if ltb now (v.validated_at + session_revalidation_ttl_ms)
      then (let (s', verdict) = check_cached now socket v s in (s', decided verdict))
      else (s, verifying token (some v))

  -- The part with the token of the handshake.
  unfoldable pub begin_with :
      (now : ℕ) → (socket : String) → Option String → Server → Server × Begun
  unfolding consult
  begin_with now socket none s = (s, decided failed)
  begin_with now socket (some token) s =
      if str_eq token ""
      then (s, decided failed)
      else consult now socket token (lookup socket s.cache) s

-- `has_jwks`: the address of the keys is configured. `token_of` is the token of a socket's handshake.
module _ (c : RevocationRedis) (j : Jwt) (has_jwks : Bool) (token_of : String → Option String) where
  -- With configured keys. `none`: the verification threw.
  abbrev pub verify_auth_token : (now : ℕ) → (token : String) → Option (Option VerifiedClaims)
  verify_auth_token now token = elim (j.jwt_verify now token) [
    | none ↦ none
    | some p ↦ some (claims_of p)
  ]

  -- The part before the verification.
  unfoldable pub validate_begin : (now : ℕ) → (socket : String) → Server c → Server c × Begun
  unfolding begin_with
  validate_begin now socket s =
      if not has_jwks then (s, decided passed) else begin_with c now socket (token_of socket) s

  -- The part after it.
  unfoldable pub validate_finish :
      (now : ℕ)
      → (socket token : String) → (cached : Option Validated) → Server c
      → Server c × Verdict
  unfolding admit fall_back forget
  validate_finish now socket token cached s = elim (verify_auth_token now token) [
    | none ↦ fall_back c now socket cached s
    | some found ↦ elim found [
      | none ↦ (forget c socket s, failed)
      | some claims ↦ admit c now socket claims s
    ]
  ]
