-- ===== src/Guardian/Backoff.antt =====
-- internal/guardian/backoff.go. `level` starts at 0 and only grows or is set to 0, so it is a
-- natural number and the source's guards against a negative level are never taken.
pub mod Laws
use pxgo.Shared.{
  ℕ, ◌+◌, ◌-◌, ◌*◌, Bool, true, false, List, [], ◌∷◌, seconds, ltb, leb, length, get_or,
  if◌then◌else◌,
}

abbrev pub restart_backoff_schedule : List ℕ
restart_backoff_schedule =
    seconds 1 ∷ seconds 5 ∷ seconds 30 ∷ seconds (2 * 60) ∷ seconds (5 * 60) ∷ []

abbrev pub stable_run_reset : ℕ
stable_run_reset = seconds (5 * 60)

pub record Backoff : Type 0 where
  pub level : ℕ

abbrev clamp_index : ℕ → ℕ → ℕ
clamp_index idx len = if leb len idx then len - 1 else idx

unfoldable pub next_delay : Backoff → ℕ
next_delay b =
    get_or restart_backoff_schedule (clamp_index b.level (length restart_backoff_schedule)) 0

-- Next: the delay, and the backoff one level up.
unfoldable pub next : Backoff → ℕ × Backoff
next b =
    let idx = clamp_index b.level (length restart_backoff_schedule) in
    let delay = get_or restart_backoff_schedule idx 0 in
    (
      delay,
      if ltb b.level (length restart_backoff_schedule - 1)
          then record b { level = b.level + 1 }
          else b,
    )

unfoldable pub reset : Backoff → Backoff
reset b = record b { level = 0 }

unfoldable pub observe_ready_duration : ℕ → Backoff → Bool × Backoff
unfolding reset
observe_ready_duration duration b =
    if ltb duration stable_run_reset then (false, b) else (true, reset b)
