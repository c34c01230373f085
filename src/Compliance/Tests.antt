-- ===== src/Compliance/Tests.antt =====
-- The hours of promotional SMS at concrete times.
use qeet_notify.Base.{ℕ, ◌*◌, ◌≡◌, refl, ◌≤◌, ◌<◌, true, ◌||◌, leb}
use qeet_notify.Base.Int.{pos}
use qeet_notify.Compliance.Dlt.{
  hour, day, time_of_day, is_promotional_window_open, until_next_window, resume_at_next_window,
}
use qeet_notify.Compliance.Dlt.Window.{resume_at_next_window-bounds}

-- Ten in the evening in Asia/Kolkata, twelve hours before the window opens.
abbrev evening : ℕ
evening = 59400 * 1000000000

evening_wait : until_next_window (pos evening) ≡ 12 * hour
unfolding until_next_window time_of_day
evening_wait = refl

resume_at_next_window-bounds_example :
    let later = resume_at_next_window (pos evening) in
    (0 < until_next_window (pos evening))
    × (until_next_window (pos evening) ≤ day)
    × (time_of_day later ≡ 10 * hour)
    × (is_promotional_window_open later ≡ true)
    × ((is_promotional_window_open (pos evening)
          || leb (until_next_window (pos evening)) (13 * hour))
        ≡ true)
resume_at_next_window-bounds_example = resume_at_next_window-bounds evening
