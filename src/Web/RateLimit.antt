-- ===== src/Web/RateLimit.antt =====
-- apps/web/lib/rate-limit.ts: the limiter of the HTTP routes, in its two forms, for one key: the list of
-- times in memory, and the Lua script over a sorted set in Redis. Times are milliseconds, the argument
-- `now`. A member of the sorted set is a
-- time with a random number, and the set stands in the order of its scores, which are these times.
use vortex_reloaded.Base.{
  ℕ, ◌+◌, ◌-◌, Bool, true, false, List, [], ◌∷◌, ◌++◌, Option, none, some, ltb, leb, length, filter,
  all, ◌==◌, ◌&&◌, if◌then◌else◌,
}

pub record Limited : Type 0 where
  pub allowed : Bool
  pub remaining : ℕ
  pub reset_at : ℕ

-- `t > now - window`
abbrev pub is_recent : (now window : ℕ) → ℕ → Bool
is_recent now window t = ltb now (t + window)

-- `timestamps[0] ? timestamps[0] + windowMs : now + windowMs`: the time 0 counts as none.
abbrev pub memory_reset : (now window : ℕ) → List ℕ → ℕ
memory_reset now window [] = now + window
memory_reset now window (t ∷ ts) = if ltb 0 t then t + window else now + window

-- `InMemoryRateLimiter.check`
unfoldable pub check_memory : (now limit window : ℕ) → List ℕ → List ℕ × Limited
check_memory now limit window ts =
    let live = filter (is_recent now window) ts in
    let reset = memory_reset now window live in
    if leb limit (length live)
    then (live, record { allowed = false; remaining = 0; reset_at = reset })
    else (
      live ++ now ∷ [],
      record { allowed = true; remaining = limit - length live - 1; reset_at = reset },
    )

-- `InMemoryRateLimiter.cleanup` on the entry of the key: it goes once no time is younger.
unfoldable pub cleanup_memory : (now max_age : ℕ) → List ℕ → List ℕ
cleanup_memory now max_age ts = if all (λ t. ltb (t + max_age) now) ts then [] else ts

-- The key in Redis, with the time at which `PEXPIRE` lets it go.
pub record Key : Type 0 where
  pub members : List (ℕ × ℕ)
  pub expires_at : ℕ

-- An expired key has no members.
abbrev pub members_at : ℕ → Key → List (ℕ × ℕ)
members_at now k = if ltb now k.expires_at then k.members else []

-- `ZADD` of the member `now:random`: one that is there already stays as it is, with the same score.
unfoldable pub zadd : (now random : ℕ) → List (ℕ × ℕ) → List (ℕ × ℕ)
zadd now random [] = (now, random) ∷ []
zadd now random ((t, r) ∷ ms) =
    let rest = zadd now random ms in
    if t == now && r == random
    then (t, r) ∷ ms
    else if leb t now
    then (t, r) ∷ rest
    else (now, random) ∷ (t, r) ∷ ms

abbrev pub oldest_reset : (now window : ℕ) → List (ℕ × ℕ) → ℕ
oldest_reset now window [] = now + window
oldest_reset now window (m ∷ ms) = m.0 + window

-- The script, with the number that `math.random` draws.
unfoldable pub check_redis : (random now limit window : ℕ) → Key → Key × Limited
unfolding zadd
check_redis random now limit window k =
    let live = filter (λ m. is_recent now window m.0) (members_at now k) in
    if ltb (length live) limit
    then (
      record { members = zadd now random live; expires_at = now + window },
      record { allowed = true; remaining = limit - length live - 1; reset_at = now + window },
    )
    else (
      record { members = live; expires_at = k.expires_at },
      record { allowed = false; remaining = 0; reset_at = oldest_reset now window live },
    )

-- `rateLimiter.check`: a failure of Redis blocks the request if the caller asks for that, and is
-- thrown on (`none`) otherwise.
unfoldable pub guarded : (fail_closed : Bool) → (now : ℕ) → Option Limited → Option Limited
guarded fail_closed now (some r) = some r
guarded true now none = some (record { allowed = false; remaining = 0; reset_at = now + 60000 })
guarded false now none = none
