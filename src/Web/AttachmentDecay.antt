-- ===== src/Web/AttachmentDecay.antt =====
-- packages/shared/src/attachment-decay.ts: the renewal of an attachment's expiry. Sizes are in bytes, times
-- in milliseconds; the rounded logarithmic curve between the smallest and the largest size is a parameter.
use vortex_reloaded.Base.{
  ℕ, ◌+◌, ◌*◌, ◌/◌, ◌≤◌, ◌<◌, ◌≡◌, ◌&&◌, Option, none, some, leb, ltb, if◌then◌else◌, arith,
}

abbrev pub min_bytes : ℕ
min_bytes = 5 * 1048576

abbrev pub max_bytes : ℕ
max_bytes = 500 * 1048576

abbrev pub ms_per_day : ℕ
ms_per_day = 86400000

unfoldable pub compute_renewal_window_days : (curve : ℕ → ℕ) → (size : ℕ) → ℕ
compute_renewal_window_days curve size =
    if leb size min_bytes then 30 else if leb max_bytes size then 7 else curve size

-- Half the window, rounded up at .5, between 3 and 14.
unfoldable pub compute_renewal_threshold_days : (window : ℕ) → ℕ
compute_renewal_threshold_days window =
    let threshold = (window + 1) / 2 in
    let low = if leb threshold 14 then threshold else 14 in if leb 3 low then low else 3

unfoldable pub maybe_renew_expiry : (curve : ℕ → ℕ) → (current_expiry now size : ℕ) → Option ℕ
unfolding compute_renewal_window_days compute_renewal_threshold_days
maybe_renew_expiry curve current now size =
    let window = compute_renewal_window_days curve size in
    let threshold = compute_renewal_threshold_days window in
    if ltb (now + threshold * ms_per_day) current
    then none
    else if leb current now
    then none
    else if leb (now + window * ms_per_day) current
    then none
    else some (now + window * ms_per_day)

threshold-le : (window : ℕ) → 7 ≤ window → compute_renewal_threshold_days window < window
unfolding compute_renewal_threshold_days
threshold-le window h = ground arith

window-ge :
    (curve : ℕ → ℕ) (size : ℕ)
    → ((s : ℕ) → 7 ≤ curve s)
    → 7 ≤ compute_renewal_window_days curve size
unfolding compute_renewal_window_days
window-ge curve size h = ground (arith, h size)

-- An expiry is renewed exactly if it lies in the future and no further than the threshold: the last test,
-- against shortening, refuses nothing. The curve never falls below seven days.
pub maybe_renew_expiry_lem :
    (curve : ℕ → ℕ) (current now size : ℕ)
    → ((s : ℕ) → 7 ≤ curve s)
    → maybe_renew_expiry curve current now size ≡ (
        if ltb now current
          && leb current (
              now
              + compute_renewal_threshold_days (compute_renewal_window_days curve size)
                * ms_per_day)
        then some (now + compute_renewal_window_days curve size * ms_per_day)
        else none)
unfolding maybe_renew_expiry
maybe_renew_expiry_lem curve current now size h =
    by_days (compute_renewal_window_days curve size)
      (compute_renewal_threshold_days (compute_renewal_window_days curve size))
      (threshold-le (compute_renewal_window_days curve size) (window-ge curve size h))
  where
    by_days :
        (window threshold : ℕ)
        → threshold < window
        → (if ltb (now + threshold * ms_per_day) current
            then none
            else if leb current now
            then none
            else if leb (now + window * ms_per_day) current
            then none
            else some (now + window * ms_per_day))
          ≡ (if ltb now current && leb current (now + threshold * ms_per_day)
              then some (now + window * ms_per_day)
              else none)
    by_days window threshold l = ground arith
