-- ===== src/Guardian/Watchdog.antt =====
-- internal/guardian/watchdog.go. Times are nanoseconds since the zero time.
pub mod Laws
use pxgo.Shared.{
  ℕ, ◌*◌, ℤ, Bool, true, false, not, ◌&&◌, ◌||◌, seconds, elapsed, is_zero, positive_or, ltb, leb,
  if◌then◌else◌,
}

pub record Watchdog : Type 0 where
  pub hang_window : ℕ
  pub ready : Bool
  pub last_progress : ℕ
  pub last_observer : ℕ
  pub last_sequence : ℕ

unfoldable pub new_watchdog : ℤ → Watchdog
new_watchdog hang_window = record {
  hang_window = positive_or hang_window (seconds 20);
  ready = false;
  last_progress = 0;
  last_observer = 0;
  last_sequence = 0;
}

unfoldable pub ready_at : ℕ → Watchdog → Watchdog
ready_at now w = record w {
  ready = true;
  last_progress = now;
  last_observer = now;
  last_sequence = 0;
}

unfoldable pub beat : ℕ → ℕ → Watchdog → Watchdog
beat sequence now w =
    if not w.ready || leb sequence w.last_sequence
    then w
    else record w { last_sequence = sequence; last_progress = now }

-- The Boolean is the report of a hang.
unfoldable pub check : ℕ → Watchdog → Bool × Watchdog
check now w =
    if not w.ready
    then (false, record w { last_observer = now })
    else if not (is_zero w.last_observer) && ltb w.hang_window (elapsed now w.last_observer)
    then (false, record w { last_observer = now; last_progress = now })
    else (ltb w.hang_window (elapsed now w.last_progress), record w { last_observer = now })
