-- ===== src/Compliance/Dlt/Window.antt =====
-- When a deferred promotional SMS comes back (dlt.go).
use qeet_notify.Base.{ℕ, ◌+◌, ◌*◌, ◌%◌, ◌≤◌, ◌<◌, ◌≡◌, refl, ◌∙◌, true, ◌||◌, arith, leb}
use qeet_notify.Base.Int.{ℤ, pos, negsuc, ◌+ℤ◌}
use qeet_notify.Compliance.Dlt.{
  hour, day, time_of_day, is_promotional_window_open, until_next_window, resume_at_next_window,
}

time_of_day-lt : (now : ℤ) → time_of_day now < day
unfolding time_of_day
time_of_day-lt (pos n) = omega arith
time_of_day-lt (negsuc n) = omega arith

-- Time of day goes on with time.
time_of_day-add : (n k : ℕ) → time_of_day (pos n +ℤ pos k) ≡ (time_of_day (pos n) + k) % day
unfolding time_of_day
time_of_day-add n k = ground arith

until_bounds :
    (now : ℤ) (t : ℕ)
    → time_of_day now ≡ t
    → t < day
    → (0 < until_next_window now)
      × (until_next_window now ≤ day)
      × ((t + until_next_window now) % day ≡ 10 * hour)
unfolding until_next_window
until_bounds now t e h = ground arith

closed_wait :
    (now : ℤ) (t : ℕ)
    → time_of_day now ≡ t
    → t < day
    → (is_promotional_window_open now || leb (until_next_window now) (13 * hour)) ≡ true
unfolding until_next_window is_promotional_window_open
closed_wait now t e h = ground arith

open_at_ten : (now : ℤ) → time_of_day now ≡ 10 * hour → is_promotional_window_open now ≡ true
unfolding is_promotional_window_open
open_at_ten now e = ground arith

-- For every time from 1970 on, the next window is later than now and at most 24 hours away; it is
-- 10:00 in Asia/Kolkata then, and the window is open. Where the window is closed now, it opens
-- within 13 hours.
pub resume_at_next_window-bounds :
    (n : ℕ)
    → let later = resume_at_next_window (pos n) in
      (0 < until_next_window (pos n))
      × (until_next_window (pos n) ≤ day)
      × (time_of_day later ≡ 10 * hour)
      × (is_promotional_window_open later ≡ true)
      × ((is_promotional_window_open (pos n) || leb (until_next_window (pos n)) (13 * hour)) ≡ true)
resume_at_next_window-bounds n =
    let b = until_bounds (pos n) (time_of_day (pos n)) refl (time_of_day-lt (pos n)) in
    let at_ten = time_of_day-add n (until_next_window (pos n)) ∙ b.2 in
    (b.0, b.1, at_ten, open_at_ten _ at_ten, closed_wait (pos n) _ refl (time_of_day-lt (pos n)))
