-- ===== src/Guardian/Backoff/Laws.antt =====
-- What Guardian/Backoff.antt promises.
use pxgo.Shared.{ℕ, zero, suc, ◌+◌, ◌≤◌, ◌<◌, ◌≡◌, true, false, min, seconds, arith, get_or}
use pxgo.Guardian.Backoff.{
  Backoff, restart_backoff_schedule, stable_run_reset, next, next_delay, reset,
  observe_ready_duration,
}

-- The state after `n` calls of `next` with no reset between them.
pub after : ℕ → Backoff → Backoff
after zero b = b
after (suc n) b = after n (next b).1

after_level : (n : ℕ) (b : Backoff) → b.level ≤ 4 → (after n b).level ≡ min (b.level + n) 4
unfolding after next
after_level zero b h = omega arith
after_level (suc n) b h = ground (arith, after_level n (next b).1)

-- After a reset, the delay of the next restart is the entry of the schedule numbered by the
-- restarts since, and stays at the last entry.
pub delay-after-reset :
    (n : ℕ) (b : Backoff)
    → (next (after n (reset b))).0 ≡ get_or restart_backoff_schedule (min n 4) 0
unfolding next reset
delay-after-reset n b = ground (arith, after_level n (reset b))

-- What the schedule says at a level, whatever the level.
Grows : ℕ → Type 0
Grows l =
    let b : Backoff = record { level = l } in
    ((next b).0 ≤ (next (next b).1).0) × ((next b).0 ≡ next_delay b) × ((next b).0 ≤ seconds 300)

level-Grows : (l : ℕ) → Grows l
unfolding Grows next next_delay
level-Grows zero = ground arith
level-Grows (suc zero) = ground arith
level-Grows (suc (suc zero)) = ground arith
level-Grows (suc (suc (suc zero))) = ground arith
level-Grows (suc (suc (suc (suc zero)))) = ground arith
level-Grows (suc (suc (suc (suc (suc l))))) = ground arith

-- A delay never falls from one restart to the next, `next_delay` foretells what `next` returns, and
-- no delay is above five minutes.
pub delays_grow :
    (b : Backoff)
    → ((next b).0 ≤ (next (next b).1).0) × ((next b).0 ≡ next_delay b) × ((next b).0 ≤ seconds 300)
unfolding Grows
delays_grow b = level-Grows b.level

-- A run that was ready for less than the stable time keeps the level; any longer run sets the next
-- delay back to one second.
pub stable_run_resets :
    (d : ℕ) (b : Backoff)
    → (d < stable_run_reset → observe_ready_duration d b ≡ (false, b))
      × (stable_run_reset ≤ d
          → ((observe_ready_duration d b).0 ≡ true)
            × ((next (observe_ready_duration d b).1).0 ≡ seconds 1))
unfolding observe_ready_duration next
stable_run_resets d b = (λ h. ground arith, λ h. ground arith)
