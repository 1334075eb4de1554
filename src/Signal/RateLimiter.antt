-- ===== src/Signal/RateLimiter.antt =====
-- apps/signal/src/rate-limiter.ts: the sliding-window limiter of the gateway's sockets.
-- `Date.now()` is the argument `now`; `t > now - w` is read as `now < t + w`, which is the same
-- where `now - w` would be negative. The interval timer is a caller of `cleanup`.
pub mod Entries
pub mod Window
use vortex_reloaded.Base.{
  ℕ, ◌+◌, String, Bool, true, false, List, [], ◌∷◌, ◌++◌, ltb, leb, length, filter, if◌then◌else◌,
  or_else,
}
use vortex_reloaded.Base.Dict.{Dict, lookup, insert, delete}

abbrev pub Entry : Type 0
Entry = List ℕ

abbrev pub Windows : Type 0
Windows = Dict (Dict Entry)

abbrev pub is_live : (now window : ℕ) → ℕ → Bool
is_live now window t = ltb now (t + window)

-- The entry of an action, created empty where it is missing.
pub entry_of : String → String → Windows → Entry
entry_of socket action ws = or_else (lookup action (or_else (lookup socket ws) [])) []

pub store : String → String → Entry → Windows → Windows
store socket action e ws = insert socket (insert action e (or_else (lookup socket ws) [])) ws

unfoldable pub check :
    (now : ℕ) (socket action : String) (limit window : ℕ) → Windows → Windows × Bool
check now socket action limit window ws =
    let live = filter (is_live now window) (entry_of socket action ws) in
    if leb limit (length live)
    then (store socket action live ws, false)
    else (store socket action (live ++ now ∷ []) ws, true)

pub remove : String → Windows → Windows
remove socket ws = delete socket ws

-- The inner loop of `cleanup`: an action whose entry is empty is dropped.
pub sweep_actions : (now max_age : ℕ) → Dict Entry → Dict Entry
sweep_actions now max_age [] = []
sweep_actions now max_age ((action, e) ∷ m) =
    let live = filter (is_live now max_age) e in
    let rest = sweep_actions now max_age m in
    elim live [ [] ↦ rest | t ∷ ts ↦ (action, t ∷ ts) ∷ rest ]

pub cleanup : (now max_age : ℕ) → Windows → Windows
cleanup now max_age [] = []
cleanup now max_age ((socket, m) ∷ ws) =
    let kept = sweep_actions now max_age m in
    let rest = cleanup now max_age ws in
    elim kept [ [] ↦ rest | a ∷ as' ↦ (socket, a ∷ as') ∷ rest ]
