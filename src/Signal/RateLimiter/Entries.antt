-- ===== src/Signal/RateLimiter/Entries.antt =====
-- What each operation of the limiter does to the entry of one action of one socket.
use vortex_reloaded.Base.{
  ℕ, String, ◌≡◌, refl, ◌&&◌, [], ◌∷◌, none, arith, filter, if◌then◌else◌, or_else, All, str_eq,
  eq_iff,
}
use vortex_reloaded.Base.Dict.{
  Dict, lookup, insert, IsMap, lookup-insert, lookup-delete, insert-IsMap, delete-IsMap, delete,
}
use vortex_reloaded.Signal.RateLimiter.{
  Entry, Windows, is_live, entry_of, store, remove, sweep_actions, cleanup,
}

pub entry_of-store :
    (s s' a a' : String) (e : Entry) (ws : Windows)
    → entry_of s' a' (store s a e ws)
      ≡ (if str_eq s s' && str_eq a a' then e else entry_of s' a' ws)
unfolding entry_of store
entry_of-store s s' a a' e ws = ground (
  arith,
  lookup-insert s s' (insert a e (or_else (lookup s ws) [])) ws,
  lookup-insert a a' e (or_else (lookup s ws) []),
  eq_iff s s',
)

pub entry_of-remove :
    (s s' a : String) (ws : Windows)
    → entry_of s' a (remove s ws) ≡ (if str_eq s s' then [] else entry_of s' a ws)
unfolding entry_of remove lookup
entry_of-remove s s' a ws = ground (arith, lookup-delete s s' ws)

-- The nested maps have distinct keys.
abbrev pub IsWindows : Windows → Type 0
IsWindows ws = IsMap ws × All (λ b. IsMap b.1) ws

lookup-IsMap :
    (s : String) (ws : Windows) → All (λ b. IsMap b.1) ws → IsMap (or_else (lookup s ws) [])
unfolding lookup
lookup-IsMap s [] h = tt
lookup-IsMap s ((k, m) ∷ ws) h = ground (arith, lookup-IsMap s ws h.1)

insert-All :
    (s : String) (m : Dict Entry) (ws : Windows)
    → IsMap m
    → All (λ b. IsMap b.1) ws
    → All (λ b. IsMap b.1) (insert s m ws)
unfolding insert
insert-All s m [] g h = (g, tt)
insert-All s m ((k, n) ∷ ws) g h = ground (arith, insert-All s m ws g h.1)

delete-All :
    (s : String) (ws : Windows) → All (λ b. IsMap b.1) ws → All (λ b. IsMap b.1) (delete s ws)
unfolding delete
delete-All s [] h = tt
delete-All s ((k, n) ∷ ws) h = ground (arith, delete-All s ws h.1)

pub store-IsWindows :
    (s a : String) (e : Entry) (ws : Windows) → IsWindows ws → IsWindows (store s a e ws)
unfolding store
store-IsWindows s a e ws h =
    (insert-IsMap s _ ws h.0, insert-All s _ ws (insert-IsMap a e _ (lookup-IsMap s ws h.1)) h.1)

pub remove-IsWindows : (s : String) (ws : Windows) → IsWindows ws → IsWindows (remove s ws)
unfolding remove
remove-IsWindows s ws h = (delete-IsMap s ws h.0, delete-All s ws h.1)

sweep_actions-lookup-none :
    (now max_age : ℕ) (a : String) (m : Dict Entry)
    → lookup a m ≡ none
    → lookup a (sweep_actions now max_age m) ≡ none
unfolding sweep_actions lookup
sweep_actions-lookup-none now max_age a [] h = refl
sweep_actions-lookup-none now max_age a ((k, e) ∷ m) h =
    ground (arith, sweep_actions-lookup-none now max_age a m)

sweep_actions-IsMap :
    (now max_age : ℕ) (m : Dict Entry) → IsMap m → IsMap (sweep_actions now max_age m)
unfolding sweep_actions
sweep_actions-IsMap now max_age [] h = tt
sweep_actions-IsMap now max_age ((k, e) ∷ m) h =
    ground
      (arith, sweep_actions-IsMap now max_age m h.1, sweep_actions-lookup-none now max_age k m h.0)

sweep_actions-lookup :
    (now max_age : ℕ) (a : String) (m : Dict Entry)
    → IsMap m
    → or_else (lookup a (sweep_actions now max_age m)) []
      ≡ filter (is_live now max_age) (or_else (lookup a m) [])
unfolding sweep_actions lookup
sweep_actions-lookup now max_age a [] h = refl
sweep_actions-lookup now max_age a ((k, e) ∷ m) h = ground (
  arith,
  eq_iff k a,
  sweep_actions-lookup now max_age a m h.1,
  sweep_actions-lookup-none now max_age k m h.0,
)

cleanup-lookup-none :
    (now max_age : ℕ) (s : String) (ws : Windows)
    → lookup s ws ≡ none
    → lookup s (cleanup now max_age ws) ≡ none
unfolding cleanup lookup
cleanup-lookup-none now max_age s [] h = refl
cleanup-lookup-none now max_age s ((k, m) ∷ ws) h =
    ground (arith, cleanup-lookup-none now max_age s ws)

pub cleanup-IsWindows :
    (now max_age : ℕ) (ws : Windows) → IsWindows ws → IsWindows (cleanup now max_age ws)
unfolding cleanup
cleanup-IsWindows now max_age [] h = (tt, tt)
cleanup-IsWindows now max_age ((k, m) ∷ ws) h = ground (
  arith,
  cleanup-IsWindows now max_age ws (h.0.1, h.1.1),
  cleanup-lookup-none now max_age k ws h.0.0,
  sweep_actions-IsMap now max_age m h.1.0,
)

-- A sweep keeps of each entry what is younger than `max_age`, and changes no other.
pub entry_of-cleanup :
    (now max_age : ℕ) (s a : String) (ws : Windows)
    → IsWindows ws
    → entry_of s a (cleanup now max_age ws) ≡ filter (is_live now max_age) (entry_of s a ws)
unfolding entry_of cleanup lookup
entry_of-cleanup now max_age s a [] h = refl
entry_of-cleanup now max_age s a ((k, m) ∷ ws) h = ground (
  arith,
  eq_iff k s,
  sweep_actions-lookup now max_age a m h.1.0,
  cleanup-lookup-none now max_age k ws h.0.0,
  entry_of-cleanup now max_age s a ws (h.0.1, h.1.1),
)
