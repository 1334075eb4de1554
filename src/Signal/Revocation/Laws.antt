-- ===== src/Signal/Revocation/Laws.antt =====
-- A revocation takes effect at once, for as long as a token that it concerns can live.
use vortex_reloaded.Base.{
  ℕ, ◌+◌, ◌*◌, ◌≤◌, ◌<◌, String, ◌≡◌, ◌≢◌, refl, inl, inr, true, false, List, [], ◌∷◌, none, some,
  arith, ltb, if◌then◌else◌, eq_iff, eq_refl, str_eq, Bool-cases, Option-cases,
}
use vortex_reloaded.Base.Dict.{
  Dict, lookup, lookup-insert, lookup-delete, IsMap, insert-IsMap, delete-IsMap,
}
use vortex_reloaded.Signal.Revocation.{
  RevocationRedis, Cutoff, Store, revoke, is_revoked, prune, prune_expired, revocation_ttl_seconds,
  redis_key,
}

-- The lifetime of a handshake token.
abbrev pub token_lifetime_ms : ℕ
token_lifetime_ms = 15 * 60 * 1000

pub data Op : Type 0 where
  revokes : String → Op
  asks : String → (iat_seconds : ℕ) → Op
  prunes : Op

abbrev pub fresh : ℕ → Cutoff
fresh now = record { cutoff_ms = now; expires_at = now + revocation_ttl_seconds * 1000 }

module _ (c : RevocationRedis) where
  unfoldable pub step : ℕ → Op → Store c → Store c
  step now (revokes user) s = (revoke c now user s).0
  step now (asks user iat) s = (is_revoked c now user iat s).0
  step now prunes s = prune_expired c now s

  unfoldable pub run : List (ℕ × Op) → Store c → Store c
  run [] s = s
  run ((now, op) ∷ ops) s = run ops (step now op s)

  abbrev pub IsTimed : (from until : ℕ) → List (ℕ × Op) → Type 0
  IsTimed from until [] = from ≤ until
  IsTimed from until ((now, op) ∷ ops) = (from ≤ now) × IsTimed now until ops

  -- The user has a cutoff at `t` or later, which is kept for the whole time that it must.
  abbrev pub HasCutoff : String → ℕ → Store c → Type 0
  HasCutoff user t s =
      (s.redis ≡ none)
      × IsMap s.in_memory
      × (e : Cutoff) × (lookup user s.in_memory ≡ some e)
      × (t ≤ e.cutoff_ms)
      × (t + revocation_ttl_seconds * 1000 ≤ e.expires_at)

  prune-lookup-none :
      (now : ℕ) (user : String) (m : Dict Cutoff)
      → lookup user m ≡ none
      → lookup user (prune c now m) ≡ none
  unfolding prune lookup
  prune-lookup-none now user [] h = refl
  prune-lookup-none now user ((u, e) ∷ m) h = ground (arith, prune-lookup-none now user m)

  pub prune-IsMap : (now : ℕ) (m : Dict Cutoff) → IsMap m → IsMap (prune c now m)
  unfolding prune
  prune-IsMap now [] h = tt
  prune-IsMap now ((u, e) ∷ m) h =
      ground (arith, prune-IsMap now m h.1, prune-lookup-none now u m h.0)

  -- A prune drops the expired cutoffs and no other.
  pub lookup-prune :
      (now : ℕ) (user : String) (m : Dict Cutoff)
      → IsMap m
      → lookup user (prune c now m) ≡ elim (lookup user m) [
        | none ↦ none
        | some e ↦ if ltb e.expires_at now then none else some e
      ]
  unfolding prune lookup
  lookup-prune now user [] h = refl
  lookup-prune now user ((u, e) ∷ m) h =
      ground (arith, eq_iff u user, lookup-prune now user m h.1, prune-lookup-none now u m h.0)

  pub step-HasCutoff :
      (now t : ℕ) (user : String) (op : Op) (s : Store c)
      → t ≤ now
      → now ≤ t + revocation_ttl_seconds * 1000
      → HasCutoff user t s
      → HasCutoff user t (step now op s)
  unfolding step revoke is_revoked prune_expired
  step-HasCutoff now t user (revokes u) s h k (r, m, e, found, after, kept) =
      elim (Bool-cases (str_eq u user)) [
        | inl same ↦ (
          ground arith,
          ground (arith, insert-IsMap u (fresh now) s.in_memory m),
          fresh now,
          ground (arith, lookup-insert u user (fresh now) s.in_memory),
          omega arith,
          omega arith,
        )
        | inr other ↦ (
          ground arith,
          ground (arith, insert-IsMap u (fresh now) s.in_memory m),
          e,
          ground (arith, lookup-insert u user (fresh now) s.in_memory),
          after,
          kept,
        )
      ]
  step-HasCutoff now t user (asks u iat) s h k (r, m, e, found, after, kept) = (
    ground (arith, lookup-delete u user s.in_memory),
    ground (arith, delete-IsMap u s.in_memory m),
    e,
    ground (arith, lookup-delete u user s.in_memory, eq_iff u user),
    after,
    kept,
  )
  step-HasCutoff now t user prunes s h k (r, m, e, found, after, kept) = (
    r,
    prune-IsMap now s.in_memory m,
    e,
    ground (arith, lookup-prune now user s.in_memory m),
    after,
    kept,
  )

  pub revoke-HasCutoff :
      (t : ℕ) (user : String) (s : Store c)
      → s.redis ≡ none
      → IsMap s.in_memory
      → HasCutoff user t (revoke c t user s).0
  unfolding revoke
  revoke-HasCutoff t user s r m = (
    ground arith,
    ground (arith, insert-IsMap user (fresh t) s.in_memory m),
    fresh t,
    ground (arith, lookup-insert user user (fresh t) s.in_memory, eq_refl user),
    omega arith,
    omega arith,
  )

  IsTimed-le :
      (from until : ℕ) {k : ℕ} (ops : List (ℕ × Op)) → IsTimed from until ops → until ≤ k → from ≤ k
  IsTimed-le from until [] h l = omega arith
  IsTimed-le from until ((now, op) ∷ ops) h l =
      let rest = IsTimed-le now until ops h.1 l in omega arith

  run-HasCutoff :
      (from until t : ℕ) (user : String) (ops : List (ℕ × Op)) (s : Store c)
      → t ≤ from
      → IsTimed from until ops
      → until ≤ t + revocation_ttl_seconds * 1000
      → HasCutoff user t s
      → HasCutoff user t (run ops s)
  unfolding run
  run-HasCutoff from until t user [] s h k l g = g
  run-HasCutoff from until t user ((now, op) ∷ ops) s h k l g =
      run-HasCutoff now until t user ops _ (omega arith) k.1 l
        (step-HasCutoff now t user op s (omega arith) (IsTimed-le now until ops k.1 l) g)

  -- In memory: once a user's sessions are revoked at `t`, whatever calls follow, in any order, every
  -- token of that user that was issued before `t` and has not yet run out is refused. Times do not
  -- go back, and the store's keys are distinct.
  pub is_revoked-run-revoke :
      (t now iat_seconds : ℕ) (user : String) (ops : List (ℕ × Op)) (s : Store c)
      → s.redis ≡ none
      → IsMap s.in_memory
      → IsTimed t now ops
      → iat_seconds * 1000 < t
      → now ≤ iat_seconds * 1000 + token_lifetime_ms
      → (is_revoked c now user iat_seconds (run ops (revoke c t user s).0)).1 ≡ some true
  unfolding is_revoked
  is_revoked-run-revoke t now iat_seconds user ops s r m k before alive =
      let (r', m', e, found, after, kept) =
        run-HasCutoff t now t user ops (revoke c t user s).0 (omega arith) k (omega arith)
          (revoke-HasCutoff t user s r m) in
      ground arith

  -- In memory: a revocation at `t` refuses, until its entry expires, exactly the tokens of that user
  -- that were issued before `t`; a fresh token is admitted, and other users see no difference.
  pub is_revoked-revoke :
      (t now iat_seconds : ℕ) (user other : String) (s : Store c)
      → s.redis ≡ none
      → (is_revoked c now other iat_seconds (revoke c t user s).0).1 ≡ (
          if str_eq user other
          then (if ltb (t + revocation_ttl_seconds * 1000) now
              then some false
              else some (ltb (iat_seconds * 1000) t))
          else (is_revoked c now other iat_seconds s).1)
  unfolding is_revoked revoke
  is_revoked-revoke t now iat_seconds user other s r =
      ground (arith, lookup-insert user other (fresh t) s.in_memory)

  -- The sweep of expired cutoffs changes no answer: neither that of a question asked at the time of
  -- the sweep nor that of any later one. The store's keys are distinct.
  pub is_revoked-prune_expired :
      (t now iat_seconds : ℕ) (user : String) (s : Store c)
      → t ≤ now
      → IsMap s.in_memory
      → (is_revoked c now user iat_seconds (prune_expired c t s)).1
        ≡ (is_revoked c now user iat_seconds s).1
  unfolding is_revoked prune_expired
  is_revoked-prune_expired t now iat_seconds user s h m =
      ground (arith, lookup-prune t user s.in_memory m)

  -- With Redis: if a revocation at `t` reports success, then until the key expires a token that was
  -- issued before `t` is either refused or its check throws, which the caller takes for refused.
  pub is_revoked-revoke_redis :
      (t now iat_seconds : ℕ) (user : String) (s : Store c)
      → s.redis ≢ none
      → (revoke c t user s).1 ≡ true
      → t ≤ now
      → now < t + revocation_ttl_seconds * 1000
      → iat_seconds * 1000 < t
      → (is_revoked c now user iat_seconds (revoke c t user s).0).1 ≢ some false
  unfolding is_revoked revoke
  is_revoked-revoke_redis t now iat_seconds user s r done h k before = elim (Option-cases s.redis) [
    | inl e ↦ absurd (r e)
    | inr (q, e) ↦ elim (Option-cases (c.set t (redis_key user) t revocation_ttl_seconds q)) [
      | inl failed ↦ ground arith
      | inr (q', stored) ↦
          ground (arith, c.get-set t now (redis_key user) t revocation_ttl_seconds q q' stored h k)
    ]
  ]
