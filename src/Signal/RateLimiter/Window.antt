-- ===== src/Signal/RateLimiter/Window.antt =====
-- The limiter against a log of the grants: histories of calls, their grants, and the bound that
-- a window of any length keeps.
use vortex_reloaded.Base.{
  ℕ, ◌≤◌, ◌<◌, String, ◌≡◌, refl, Bool, true, false, ◌&&◌, List, [], ◌∷◌, ◌++◌, arith, leb, filter,
  length, if◌then◌else◌, All, str_eq, eq_iff, filter-append, length-append, filter-filter_of_imp,
  &&-eq-true, Bool-cases, inl, inr, ◌↔◌,
}
use vortex_reloaded.Base.Dict.{lookup}
use vortex_reloaded.Signal.RateLimiter.{Windows, is_live, entry_of, store, check, remove, cleanup}
use vortex_reloaded.Signal.RateLimiter.Entries.{
  IsWindows, entry_of-store, entry_of-remove, entry_of-cleanup, store-IsWindows, remove-IsWindows,
  cleanup-IsWindows,
}

pub data Op : Type 0 where
  checks : (socket action : String) (limit window : ℕ) → Op
  removes : (socket : String) → Op
  cleans : (max_age : ℕ) → Op

-- The new state, and whether the call was a check that passed.
unfoldable pub step : ℕ → Op → Windows → Windows × Bool
step now (checks socket action limit window) ws = check now socket action limit window ws
step now (removes socket) ws = (remove socket ws, false)
step now (cleans max_age) ws = (cleanup now max_age ws, false)

abbrev pub concerns : (socket action : String) → Op → Bool
concerns s a (checks socket action limit window) = str_eq socket s && str_eq action a
concerns s a (removes socket) = false
concerns s a (cleans max_age) = false

-- The state after a history, and the times at which a check of the one action has passed.
unfoldable pub run : (socket action : String) → List (ℕ × Op) → Windows → List ℕ → Windows × List ℕ
run s a [] ws log = (ws, log)
run s a ((now, op) ∷ ops) ws log =
    let next = step now op ws in
    run s a ops next.0 (if concerns s a op && next.1 then log ++ now ∷ [] else log)

-- Times do not go back, and the last is at most `until`.
abbrev pub IsTimed : (from until : ℕ) → List (ℕ × Op) → Type 0
IsTimed from until [] = from ≤ until
IsTimed from until ((now, op) ∷ ops) = (from ≤ now) × IsTimed now until ops

-- The checks of the action use one limit and one window, a sweep spares what the window can still
-- see, and the socket stays connected.
abbrev pub Fits : (socket action : String) (limit window : ℕ) → Op → Type 0
Fits s a limit window (checks socket action limit' window') =
    concerns s a (checks socket action limit' window') ≡ true
    → (limit' ≡ limit) × (window' ≡ window)
Fits s a limit window (removes socket) = str_eq socket s ≡ false
Fits s a limit window (cleans max_age) = window ≤ max_age

module _ (s a : String) (limit window : ℕ) where
  -- What the log and the entry show of a window that ends at `last` or later is the same, and fits.
  pub record Agrees (last : ℕ) (ws : Windows) (log : List ℕ) : Type 0 where
    pub maps : IsWindows ws
    pub same :
        (now : ℕ)
        → last ≤ now
        → filter (is_live now window) (entry_of s a ws) ≡ filter (is_live now window) log
    pub fits : (now : ℕ) → last ≤ now → length (filter (is_live now window) log) ≤ limit

live_again :
    (now later window max_age : ℕ) (e : List ℕ)
    → now ≤ later
    → window ≤ max_age
    → filter (is_live later window) (filter (is_live now max_age) e)
      ≡ filter (is_live later window) e
live_again now later window max_age e h k =
    filter-filter_of_imp (is_live now max_age) (is_live later window) e (λ t p. ground arith)

live_fewer :
    (now later window : ℕ) (e : List ℕ)
    → now ≤ later
    → length (filter (is_live later window) e) ≤ length (filter (is_live now window) e)
live_fewer now later window [] h = omega arith
live_fewer now later window (t ∷ e) h = ground (arith, live_fewer now later window e h)

module _ (s a : String) (limit window : ℕ) where
  check-Agrees :
      (last now : ℕ) (ws : Windows) (log : List ℕ)
      → Agrees s a limit window last ws log
      → last ≤ now
      → Agrees s a limit window now
          (check now s a limit window ws).0
          (if (check now s a limit window ws).1 then log ++ now ∷ [] else log)
  unfolding check
  check-Agrees last now ws log g h = record {
    maps = ground (arith, kept live, kept (live ++ now ∷ []));
    same = λ later p. ground (
      arith,
      entry_of-store s s a a live ws,
      entry_of-store s s a a (live ++ now ∷ []) ws,
      eq_iff s s,
      eq_iff a a,
      filter-append (is_live later window) live (now ∷ []),
      filter-append (is_live later window) log (now ∷ []),
      live_again now later window window (entry_of s a ws) p (omega arith),
      g.same later (omega arith),
    );
    fits = λ later p. ground (
      arith,
      g.fits later (omega arith),
      g.same now h,
      live_fewer now later window log p,
      filter-append (is_live later window) log (now ∷ []),
      length-append (filter (is_live later window) log) (filter (is_live later window) (now ∷ [])),
    );
  }
    where
      live : List ℕ
      live = filter (is_live now window) (entry_of s a ws)

      kept : (e : List ℕ) → IsWindows (store s a e ws)
      kept e = store-IsWindows s a e ws g.maps

  other-Agrees :
      (last now : ℕ) (ws : Windows) (log : List ℕ) (s' a' : String) (e : List ℕ)
      → Agrees s a limit window last ws log
      → last ≤ now
      → (str_eq s' s && str_eq a' a) ≡ false
      → Agrees s a limit window now (store s' a' e ws) log
  other-Agrees last now ws log s' a' e g h k = record {
    maps = store-IsWindows s' a' e ws g.maps;
    same = λ later p. rw (entry_of-store s' s a' a e ws, k) (g.same later (omega arith));
    fits = λ later p. g.fits later (omega arith);
  }

  check-other-Agrees :
      (last now : ℕ) (ws : Windows) (log : List ℕ) (s' a' : String) (limit' window' : ℕ)
      → Agrees s a limit window last ws log
      → last ≤ now
      → (str_eq s' s && str_eq a' a) ≡ false
      → Agrees s a limit window now (check now s' a' limit' window' ws).0 log
  unfolding check
  check-other-Agrees last now ws log s' a' limit' window' g h k =
      let live = filter (is_live now window') (entry_of s' a' ws) in
      elim (Bool-cases (leb limit' (length live))) [
        | inl e ↦ rw e (other-Agrees last now ws log s' a' live g h k)
        | inr e ↦ rw e (other-Agrees last now ws log s' a' (live ++ now ∷ []) g h k)
      ]

  -- One call keeps the agreement.
  step-Agrees :
      (last now : ℕ) (op : Op) (ws : Windows) (log : List ℕ)
      → Agrees s a limit window last ws log
      → last ≤ now
      → Fits s a limit window op
      → Agrees s a limit window now
          (step now op ws).0
          (if concerns s a op && (step now op ws).1 then log ++ now ∷ [] else log)
  unfolding step
  step-Agrees last now (checks s' a' limit' window') ws log g h f =
      elim (Bool-cases (str_eq s' s && str_eq a' a)) [
        | inl e ↦
            let (es, ea) = &&-eq-true _ _ e in
            let (same_limit, same_window) = f e in
            rw (e, (eq_iff s' s).0 es, (eq_iff a' a).0 ea, same_limit, same_window)
              (check-Agrees last now ws log g h)
        | inr e ↦ rw e (check-other-Agrees last now ws log s' a' limit' window' g h e)
      ]
  step-Agrees last now (removes s') ws log g h f = record {
    maps = remove-IsWindows s' ws g.maps;
    same = λ later p. rw (entry_of-remove s' s a ws, f) (g.same later (omega arith));
    fits = λ later p. g.fits later (omega arith);
  }
  step-Agrees last now (cleans max_age) ws log g h f = record {
    maps = cleanup-IsWindows now max_age ws g.maps;
    same = λ later p.
        rw
          (
            entry_of-cleanup now max_age s a ws g.maps,
            live_again now later window max_age (entry_of s a ws) p f,
          )
          (g.same later (omega arith));
    fits = λ later p. g.fits later (omega arith);
  }

  run-Agrees :
      (from until : ℕ) (ops : List (ℕ × Op)) (ws : Windows) (log : List ℕ)
      → IsTimed from until ops
      → All (λ c. Fits s a limit window c.1) ops
      → Agrees s a limit window from ws log
      → Agrees s a limit window until (run s a ops ws log).0 (run s a ops ws log).1
  unfolding run
  run-Agrees from until [] ws log t f g = record {
    maps = g.maps;
    same = λ now p. g.same now (omega arith);
    fits = λ now p. g.fits now (omega arith);
  }
  run-Agrees from until ((now, op) ∷ ops) ws log t f g =
      run-Agrees now until ops _ _ t.1 f.1 (step-Agrees from now op ws log g t.0 f.0)

  empty-Agrees : Agrees s a limit window 0 [] []
  unfolding entry_of lookup
  empty-Agrees = record { maps = (tt, tt); same = λ now p. refl; fits = λ now p. omega arith }

  -- Whatever other sockets and actions do, and whenever the sweep runs: no window of the given
  -- length, ending now, holds more than `limit` checks that passed. The times of the history do not
  -- go back and end by `now`, the checks of the action use one limit and one window, the sweeps
  -- spare at least that window, and the socket is not removed.
  pub run-length-le :
      (now : ℕ) (ops : List (ℕ × Op))
      → IsTimed 0 now ops
      → All (λ c. Fits s a limit window c.1) ops
      → length (filter (is_live now window) (run s a ops [] []).1) ≤ limit
  run-length-le now ops t f = (run-Agrees 0 now ops [] [] t f empty-Agrees).fits now (omega arith)

  -- A check passes exactly when fewer than `limit` checks have passed in the window before it: the
  -- entries, the sweep and the other sockets never change a decision. The times of the history do not
  -- go back and end by `now`, the checks of the action use one limit and one window, the sweeps spare
  -- at least that window, and the socket is not removed.
  pub check-run_iff :
      (now : ℕ) (ops : List (ℕ × Op))
      → IsTimed 0 now ops
      → All (λ c. Fits s a limit window c.1) ops
      → ((check now s a limit window (run s a ops [] []).0).1 ≡ true)
        ↔ (length (filter (is_live now window) (run s a ops [] []).1) < limit)
  unfolding check
  check-run_iff now ops t f =
      ground (arith, (run-Agrees 0 now ops [] [] t f empty-Agrees).same now (omega arith))
