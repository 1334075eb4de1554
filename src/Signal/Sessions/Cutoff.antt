-- ===== src/Signal/Sessions/Cutoff.antt =====
-- A cutoff lasts in either backend, in memory or in Redis, for as long as it must.
use vortex_reloaded.Base.{
  ℕ, ◌+◌, ◌*◌, ◌≤◌, ◌<◌, String, ◌≡◌, ◌≢◌, ◌⊎◌, refl, inl, inr, true, false, none, some, arith,
  eq_iff, str_eq, Bool-cases, Option-cases, subst,
}
use vortex_reloaded.Base.Dict.{IsMap, insert-IsMap, delete-IsMap}
use vortex_reloaded.Signal.Revocation.{
  RevocationRedis, Store, revoke, is_revoked, prune_expired, revocation_ttl_seconds, redis_key,
}
use vortex_reloaded.Signal.Revocation.Laws as Memory

-- What Redis documents of keys with an expiry: `Stored k v x r` says that `k` has the value `v` until `x`.
pub record KeptKeys (c : RevocationRedis) : Type 1 where
  pub Stored : (key : String) → (value until : ℕ) → c.State → Type 0
  pub set_stores :
      (now : ℕ) (k : String) (v ttl : ℕ) (r r' : c.State)
      → c.set now k v ttl r ≡ some r'
      → Stored k v (now + ttl * 1000) r'
  pub set_keeps :
      (now : ℕ) (k other : String) (v ttl w until : ℕ) (r r' : c.State)
      → c.set now k v ttl r ≡ some r'
      → str_eq k other ≡ false
      → Stored other w until r
      → Stored other w until r'
  pub get_stored :
      (now : ℕ) (k : String) (v until : ℕ) (r : c.State)
      → Stored k v until r
      → now < until
      → (c.get now k r ≡ some (some v)) ⊎ (c.get now k r ≡ none)

module _ (c : RevocationRedis) (kept : KeptKeys c) where
  -- Redis has a cutoff at `t` or later under the key of the user.
  abbrev pub IsStored : String → ℕ → Store c → Type 0
  IsStored user t s =
      (r : c.State) × (s.redis ≡ some r)
      × (v : ℕ) × (until : ℕ) × kept.Stored (redis_key user) v until r
      × (t ≤ v)
      × (t + revocation_ttl_seconds * 1000 ≤ until)

  abbrev pub IsCutOff : String → ℕ → Store c → Type 0
  IsCutOff user t s = IsStored user t s ⊎ Memory.HasCutoff c user t s

  -- The dictionary in memory has distinct keys, and is what counts without Redis.
  abbrev pub IsSound : Store c → Type 0
  IsSound s = ((r : c.State) × (s.redis ≡ some r)) ⊎ ((s.redis ≡ none) × IsMap s.in_memory)

  revoke-IsStored :
      (now t : ℕ) (user other : String) (s : Store c)
      → t ≤ now
      → IsStored user t s
      → IsStored user t (revoke c now other s).0
  unfolding revoke
  revoke-IsStored now t user other s h (r, e, v, until, held, late, lasts) =
      elim (Option-cases (c.set now (redis_key other) now revocation_ttl_seconds r)) [
        | inl fails ↦ rw (e, fails, revoke) (r, e, v, until, held, late, lasts)
        | inr (r', sets) ↦
            rw (e, sets, revoke)
              (elim (Bool-cases (str_eq (redis_key other) (redis_key user))) [
                | inl same ↦ (
                  r',
                  refl,
                  now,
                  now + revocation_ttl_seconds * 1000,
                  subst (λ k. kept.Stored k now (now + revocation_ttl_seconds * 1000) r')
                      ((eq_iff (redis_key other) (redis_key user)).0 same)
                      (kept.set_stores now (redis_key other) now revocation_ttl_seconds r r' sets),
                  h,
                  omega arith,
                )
                | inr differs ↦ (
                  r',
                  refl,
                  v,
                  until,
                  kept.set_keeps now (redis_key other) (redis_key user) now revocation_ttl_seconds v
                      until r r' sets differs held,
                  late,
                  lasts,
                )
              ])
      ]

  is_revoked-redis :
      (now iat : ℕ) (user : String) (s : Store c) (r : c.State)
      → s.redis ≡ some r
      → (is_revoked c now user iat s).0.redis ≡ some r
  unfolding is_revoked
  is_revoked-redis now iat user s r e = elim (Option-cases (c.get now (redis_key user) r)) [
    | inl throws ↦ rw (e, throws, is_revoked) e
    | inr (found, reads) ↦ elim (Option-cases found) [
      | inl missing ↦ rw (e, reads, missing, is_revoked) e
      | inr (v, there) ↦ rw (e, reads, there, is_revoked) e
    ]
  ]

  pub revoke-IsCutOff :
      (now t : ℕ) (user other : String) (s : Store c)
      → t ≤ now
      → now < t + revocation_ttl_seconds * 1000
      → IsCutOff user t s
      → IsCutOff user t (revoke c now other s).0
  revoke-IsCutOff now t user other s h l (inl stored) =
      inl (revoke-IsStored now t user other s h stored)
  revoke-IsCutOff now t user other s h l (inr cut) = inr (
      unfold Memory.step in
      Memory.step-HasCutoff c now t user (Memory.revokes other) s h (omega arith) cut)

  pub is_revoked-IsCutOff :
      (now t iat : ℕ) (user other : String) (s : Store c)
      → t ≤ now
      → now < t + revocation_ttl_seconds * 1000
      → IsCutOff user t s
      → IsCutOff user t (is_revoked c now other iat s).0
  is_revoked-IsCutOff now t iat user other s h l (inl (r, e, v, until, held, late, lasts)) =
      inl (r, is_revoked-redis now iat other s r e, v, until, held, late, lasts)
  is_revoked-IsCutOff now t iat user other s h l (inr cut) = inr (
      unfold Memory.step in
      Memory.step-HasCutoff c now t user (Memory.asks other iat) s h (omega arith) cut)

  pub prune_expired-IsCutOff :
      (now t : ℕ) (user : String) (s : Store c)
      → t ≤ now
      → now < t + revocation_ttl_seconds * 1000
      → IsCutOff user t s
      → IsCutOff user t (prune_expired c now s)
  prune_expired-IsCutOff now t user s h l (inl (r, e, v, until, held, late, lasts)) =
      inl (r, unfold prune_expired in e, v, until, held, late, lasts)
  prune_expired-IsCutOff now t user s h l (inr cut) =
      inr (
        unfold Memory.step in
        Memory.step-HasCutoff c now t user Memory.prunes s h (omega arith) cut)

  -- A successful revocation cuts the user off.
  pub revoke-IsCutOff_self :
      (t : ℕ) (user : String) (s : Store c)
      → IsSound s
      → (revoke c t user s).1 ≡ true
      → IsCutOff user t (revoke c t user s).0
  unfolding revoke
  revoke-IsCutOff_self t user s (inr (none_, m)) done =
      inr (Memory.revoke-HasCutoff c t user s none_ m)
  revoke-IsCutOff_self t user s (inl (r, e)) done =
      elim (Option-cases (c.set t (redis_key user) t revocation_ttl_seconds r)) [
        | inl fails ↦ cc (rw (e, fails, revoke) at done)
        | inr (r', sets) ↦ inl (
            rw (e, sets, revoke)
              (
                r',
                refl,
                t,
                t + revocation_ttl_seconds * 1000,
                kept.set_stores t (redis_key user) t revocation_ttl_seconds r r' sets,
                omega arith,
                omega arith,
              ))
      ]

  -- Then no token from before it is found valid.
  pub is_revoked_of_IsCutOff :
      (now t iat : ℕ) (user : String) (s : Store c)
      → now < t + revocation_ttl_seconds * 1000
      → iat * 1000 < t
      → IsCutOff user t s
      → (is_revoked c now user iat s).1 ≢ some false
  unfolding is_revoked
  is_revoked_of_IsCutOff now t iat user s l old (inr (none_, m, e, found, after, lasts)) h =
      ground arith
  is_revoked_of_IsCutOff now t iat user s l old (inl (r, e, v, until, held, late, lasts)) h =
      elim (kept.get_stored now (redis_key user) v until r held (omega arith)) [
        | inl reads ↦ ground arith
        | inr throws ↦ ground arith
      ]

  pub revoke-IsSound :
      (now : ℕ) (user : String) (s : Store c) → IsSound s → IsSound (revoke c now user s).0
  unfolding revoke
  revoke-IsSound now user s (inl (r, e)) =
      elim (Option-cases (c.set now (redis_key user) now revocation_ttl_seconds r)) [
        | inl fails ↦ rw (e, fails, revoke) (inl (r, e))
        | inr (r', sets) ↦ rw (e, sets, revoke) (inl (r', refl))
      ]
  revoke-IsSound now user s (inr (none_, m)) =
      inr (ground arith, ground (arith, insert-IsMap user (Memory.fresh now) s.in_memory m))

  pub is_revoked-IsSound :
      (now iat : ℕ) (user : String) (s : Store c)
      → IsSound s
      → IsSound (is_revoked c now user iat s).0
  unfolding is_revoked
  is_revoked-IsSound now iat user s (inl (r, e)) = inl (r, is_revoked-redis now iat user s r e)
  is_revoked-IsSound now iat user s (inr (none_, m)) =
      inr (ground arith, ground (arith, delete-IsMap user s.in_memory m))

  pub prune_expired-IsSound : (now : ℕ) (s : Store c) → IsSound s → IsSound (prune_expired c now s)
  unfolding prune_expired
  prune_expired-IsSound now s (inl (r, e)) = inl (r, e)
  prune_expired-IsSound now s (inr (none_, m)) = inr (none_, Memory.prune-IsMap c now s.in_memory m)
