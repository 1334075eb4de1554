-- ===== src/Signal/Revocation.antt =====
-- apps/signal/src/revocation.ts: the per-user session cutoffs. Time is the argument `now`, in
-- milliseconds; a method returns the new store with its result. A cutoff is kept as a number, where
-- the source writes it to Redis as a decimal text and reads it back.
pub mod Laws
use vortex_reloaded.Base.{
  ℕ, ◌+◌, ◌*◌, ◌≤◌, ◌<◌, String, ◌≡◌, ◌⊎◌, Bool, true, false, [], ◌∷◌, Option, none, some, ltb,
  if◌then◌else◌, is_some,
}
use vortex_reloaded.Base.Dict.{Dict, lookup, insert, delete}
use Prim.Native.String

abbrev pub revocation_ttl_seconds : ℕ
revocation_ttl_seconds = 20 * 60

abbrev revocation_prefix : String
revocation_prefix = "vortex:revoked-user"

abbrev pub redis_key : String → String
redis_key user = String.◌++◌ revocation_prefix (String.◌++◌ ":" user)

-- The Redis client: `none` is a call that throws, and a `get` that answers `some none` found no key.
-- A key that was set with an expiry is read back until the expiry, and other keys do not change it.
pub record RevocationRedis : Type 1 where
  pub State : Type 0
  pub get : (now : ℕ) → String → State → Option (Option ℕ)
  pub set : (now : ℕ) → String → (value ttl_seconds : ℕ) → State → Option State
  pub get-set :
      (now later : ℕ) (k : String) (v ttl : ℕ) (r r' : State)
      → set now k v ttl r ≡ some r'
      → now ≤ later
      → later < now + ttl * 1000
      → (get later k r' ≡ some (some v)) ⊎ (get later k r' ≡ none)

pub record Cutoff : Type 0 where
  pub cutoff_ms : ℕ
  pub expires_at : ℕ

module _ (c : RevocationRedis) where
  -- `redis` is null where the server runs without Redis.
  pub record Store : Type 0 where
    pub redis : Option c.State
    pub in_memory : Dict Cutoff

  unfoldable pub revoke : (now : ℕ) → String → Store → Store × Bool
  revoke now user s = elim s.redis [
    | some r ↦ elim (c.set now (redis_key user) now revocation_ttl_seconds r) [
      | some r' ↦ (record s { redis = some r' }, true)
      | none ↦ (s, false)
    ]
    | none ↦ (
      record s {
        in_memory =
            insert user
              (record { cutoff_ms = now; expires_at = now + revocation_ttl_seconds * 1000 })
              s.in_memory;
      },
      true,
    )
  ]

  -- The in-memory half of `isRevoked`.
  is_revoked_in_memory : (now : ℕ) → String → (iat_ms : ℕ) → Store → Store × Option Bool
  is_revoked_in_memory now user iat_ms s = elim (lookup user s.in_memory) [
    | none ↦ (s, some false)
    | some e ↦
        if ltb e.expires_at now
        then (record s { in_memory = delete user s.in_memory }, some false)
        else (s, some (ltb iat_ms e.cutoff_ms))
  ]

  -- `none`: the read threw, and the caller treats the session as revoked.
  unfoldable pub is_revoked : (now : ℕ) → String → (iat_seconds : ℕ) → Store → Store × Option Bool
  unfolding is_revoked_in_memory
  is_revoked now user iat_seconds s = elim s.redis [
    | some r ↦ elim (c.get now (redis_key user) r) [
      | none ↦ (s, none)
      | some found ↦ elim found [
        | none ↦ (s, some false)
        | some cutoff ↦ (s, some (ltb (iat_seconds * 1000) cutoff))
      ]
    ]
    | none ↦ is_revoked_in_memory now user (iat_seconds * 1000) s
  ]

  unfoldable pub prune : (now : ℕ) → Dict Cutoff → Dict Cutoff
  prune now [] = []
  prune now ((user, e) ∷ m) = if ltb e.expires_at now then prune now m else (user, e) ∷ prune now m

  unfoldable pub prune_expired : (now : ℕ) → Store → Store
  unfolding prune
  prune_expired now s = record s { in_memory = prune now s.in_memory }
