-- ===== src/Web/Presence.antt =====
-- packages/shared/src/presence.ts: the status of a user who has several sessions.
use vortex_reloaded.Base.{
  ℕ, Bool, true, false, ◌&&◌, ◌+◌, List, [], ◌∷◌, ltb, if◌then◌else◌, ◌≡◌, refl, arith, any,
}
use vortex_reloaded.Signal.Gateway.{UserStatus, online, idle, dnd, invisible, offline}

-- `STATUS_PRECEDENCE.indexOf(s)`; the place after the last stands for -1, which is skipped alike.
abbrev pub precedence : UserStatus → ℕ
precedence online = 0
precedence dnd = 1
precedence idle = 2
precedence offline = 3
precedence invisible = 4

abbrev pub is_invisible : UserStatus → Bool
is_invisible invisible = true
is_invisible _ = false

-- The loop over the sessions.
unfoldable pub best_status : UserStatus → List UserStatus → UserStatus
best_status best [] = best
best_status best (s ∷ ss) =
    best_status (if ltb (precedence s) (precedence best) then s else best) ss

unfoldable pub aggregate_status : List UserStatus → UserStatus
unfolding best_status
aggregate_status [] = offline
aggregate_status (s ∷ ss) =
    if any is_invisible (s ∷ ss) then invisible else best_status offline (s ∷ ss)

abbrev pub has_precedence : ℕ → List UserStatus → Bool
has_precedence n = any (λ s. ltb (precedence s) (n + 1) && ltb n (precedence s + 1))

-- What is shown, said without a loop: it depends only on which statuses occur.
abbrev pub shown : List UserStatus → UserStatus
shown ss =
    if any is_invisible ss
    then invisible
    else if has_precedence 0 ss
    then online
    else if has_precedence 1 ss
    then dnd
    else if has_precedence 2 ss
    then idle
    else offline

best_status-shown :
    (best : UserStatus) (ss : List UserStatus)
    → any is_invisible (best ∷ ss) ≡ false
    → best_status best ss ≡ shown (best ∷ ss)
unfolding best_status
best_status-shown online [] h = refl
best_status-shown idle [] h = refl
best_status-shown dnd [] h = refl
best_status-shown offline [] h = refl
best_status-shown invisible [] h = cc
best_status-shown best (s ∷ ss) h =
    ground (arith, best_status-shown best ss, best_status-shown s ss)

-- Whatever their order and number: a user with an invisible session is invisible, and any other is
-- shown with the first of online, dnd and idle that one of the sessions has, or else as offline.
pub aggregate_status_lem : (ss : List UserStatus) → aggregate_status ss ≡ shown ss
unfolding aggregate_status
aggregate_status_lem [] = refl
aggregate_status_lem (s ∷ ss) = ground (arith, best_status-shown offline (s ∷ ss))
