-- ===== src/Tests/Limits.antt =====
-- The rate limiter, the session cutoffs and the membership check at concrete inputs.
use vortex_reloaded.Base.{
  ℕ, ◌<◌, ◌≤◌, String, ◌≡◌, ◌≢◌, refl, ◌↔◌, true, false, List, [], ◌∷◌, Option, none, some, arith,
  length, filter, All, ap, eq_refl, ltb, if◌then◌else◌, inl, ◌+◌, ◌*◌, str_eq,
}
use vortex_reloaded.Signal.RateLimiter.{is_live, check}
use vortex_reloaded.Signal.RateLimiter.Window.{
  Op, Fits, checks, cleans, run, run-length-le, check-run_iff,
}
use vortex_reloaded.Signal.Revocation.{RevocationRedis, Store, revoke, is_revoked}
use vortex_reloaded.Signal.Revocation.Laws as Cutoffs
use vortex_reloaded.Signal.ChannelAccess.{ChannelAccessConfig, answered, Fetch}

-- Two checks of one socket with a limit of 2, one of another socket, and a sweep.
abbrev busy : List (ℕ × Op)
busy =
    (1, checks "s1" "typing" 2 100)
    ∷ (5, checks "s2" "typing" 9 100)
    ∷ (50, checks "s1" "typing" 2 100)
    ∷ (60, cleans 200)
    ∷ []

busy-Fits : All (λ c. Fits "s1" "typing" 2 100 c.1) busy
busy-Fits = ((λ e. (refl, refl)), ((λ e. cc e), ((λ e. (refl, refl)), (omega arith, tt))))

run-length-le_example : length (filter (is_live 70 100) (run "s1" "typing" busy [] []).1) ≤ 2
run-length-le_example = run-length-le "s1" "typing" 2 100 70 busy (omega arith) busy-Fits

check-run_iff_example :
    ((check 70 "s1" "typing" 2 100 (run "s1" "typing" busy [] []).0).1 ≡ true)
    ↔ (length (filter (is_live 70 100) (run "s1" "typing" busy [] []).1) < 2)
check-run_iff_example = check-run_iff "s1" "typing" 2 100 70 busy (omega arith) busy-Fits

-- A Redis that never fails.
abbrev pub Keys : Type 0
Keys = String → Option (ℕ × ℕ)

abbrev pub read_key : ℕ → Option (ℕ × ℕ) → Option (Option ℕ)
read_key now none = some none
read_key now (some (v, expiry)) = some (if ltb now expiry then some v else none)

pub read_key_stored :
    (now later : ℕ) (k : String) (v ttl : ℕ) (r r' : Keys)
    → some (λ j. if str_eq k j then some (v, now + ttl * 1000) else r j) ≡ some r'
    → later < now + ttl * 1000
    → read_key later (r' k) ≡ some (some v)
read_key_stored now later k v ttl r r' e l =
    let at_key : (if str_eq k k then some (v, now + ttl * 1000) else r k) ≡ r' k =
      ap (λ o. elim o [ none ↦ none | some f ↦ f k ]) e in
    ground (arith, eq_refl k, at_key)

abbrev pub redis : RevocationRedis
redis = record {
  State = Keys;
  get = λ now k r. read_key now (r k);
  set = λ now k v ttl r. some (λ j. if str_eq k j then some (v, now + ttl * 1000) else r j);
  get-set = λ now later k v ttl r r' e h l. inl (read_key_stored now later k v ttl r r' e l);
}

abbrev no_redis : Store redis
no_redis = record { redis = none; in_memory = [] }

abbrev pub with_redis : Store redis
with_redis = record { redis = some (λ k. none); in_memory = [] }

is_revoked-run-revoke_example :
    (is_revoked redis 200000 "u1" 90 (
      Cutoffs.run redis
        ((120000, Cutoffs.asks "u1" 90)
          ∷ (150000, Cutoffs.prunes)
          ∷ (160000, Cutoffs.revokes "u2")
          ∷ [])
        (revoke redis 100000 "u1" no_redis).0)).1
    ≡ some true
is_revoked-run-revoke_example =
    Cutoffs.is_revoked-run-revoke redis 100000 200000 90 "u1"
      ((120000, Cutoffs.asks "u1" 90)
        ∷ (150000, Cutoffs.prunes)
        ∷ (160000, Cutoffs.revokes "u2")
        ∷ [])
      no_redis refl tt (omega arith) (omega arith) (omega arith)

abbrev expiring : Store redis
expiring = record {
  redis = none;
  in_memory =
      ("u1", record { cutoff_ms = 5; expires_at = 10 })
      ∷ ("u2", record { cutoff_ms = 50; expires_at = 90 })
      ∷ [];
}

is_revoked-revoke_redis_example :
    (is_revoked redis 200000 "u1" 90 (revoke redis 100000 "u1" with_redis).0).1 ≢ some false
is_revoked-revoke_redis_example =
    Cutoffs.is_revoked-revoke_redis redis 100000 200000 90 "u1" with_redis (λ e. cc e)
      (unfold revoke in refl) (omega arith) (omega arith) (omega arith)

abbrev web : ChannelAccessConfig
web = record { web_app_url = "http://web"; secret = "s" }

abbrev members : Fetch
members c user ids = answered (some "d1" ∷ none ∷ [])
