-- ===== src/Guardian/Parent/Laws.antt =====
-- What Guardian/Parent.antt promises.
use pxgo.Shared.{
  ℕ, ◌≤◌, ◌<◌, ◌≡◌, refl, Bool, true, false, some, List, [], ◌∷◌, All, arith, if◌then◌else◌,
}
use pxgo.Guardian.Failure.{exit_startup_failure, exit_restart, exit_normal_stop}
use pxgo.Guardian.Backoff.{
  Backoff, restart_backoff_schedule, stable_run_reset, next, observe_ready_duration,
}
use pxgo.Guardian.Monitor.{ParentOptions, GenerationResult}
use pxgo.Guardian.Parent.{
  parent_restart_delay, normal_stop, startup_exit, Round, end, restart_after, parent_round,
  ParentRun, waited, unless_cancelled, run_parent,
}

-- The delays that a `Backoff` gives out over the same generations.
pub backoff_delays : Backoff → List (GenerationResult × Bool) → List ℕ
backoff_delays b [] = []
backoff_delays b ((r, cancelled) ∷ rest) =
    let b' = (observe_ready_duration r.ready_for b).1 in
    elim r.disposition [
      | exit_restart ↦ (next b').0 ∷ (if cancelled then [] else backoff_delays (next b').1 rest)
      | _ ↦ []
    ]

round_matches_backoff :
    (options : ParentOptions) (r : GenerationResult) (l : ℕ)
    → options.restart_schedule ≡ restart_backoff_schedule
    → options.stable_run_reset ≡ stable_run_reset
    → l ≤ 4
    → r.disposition ≡ exit_restart
    → let b' = (observe_ready_duration r.ready_for (record { level = l })).1 in
      (parent_round options r l ≡ restart_after (next b').0 (next b').1.level)
      × ((next b').1.level ≤ 4)
unfolding parent_round parent_restart_delay next observe_ready_duration
round_matches_backoff options r l s st h d = rw s (ground arith)

-- A generation that does not ask for a restart ends the parent.
round_ends :
    (options : ParentOptions) (r : GenerationResult) (l : ℕ)
    → (r.disposition ≡ exit_normal_stop → parent_round options r l ≡ end (normal_stop r.err))
      × (r.disposition ≡ exit_startup_failure
          → parent_round options r l ≡ end (startup_exit r.startup_code r.err))
unfolding parent_round
round_ends options r l = (λ h. ground arith, λ h. ground arith)

-- With the default schedule and the default time after which a run counts as stable, and from a
-- level of the schedule, the delays between the generations are those of a `Backoff` that sees the
-- same ready times: the two implementations of the restart delay agree on every run.
pub delays-eq-backoff :
    (options : ParentOptions) (gens : List (GenerationResult × Bool)) (l : ℕ)
    → options.restart_schedule ≡ restart_backoff_schedule
    → options.stable_run_reset ≡ stable_run_reset
    → l ≤ 4
    → (run_parent options l gens).delays ≡ backoff_delays (record { level = l }) gens
unfolding run_parent backoff_delays
delays-eq-backoff options [] l s st h = refl
delays-eq-backoff options ((r, cancelled) ∷ rest) l s st h =
    let b' : Backoff = (observe_ready_duration r.ready_for (record { level = l })).1 in
    ground (
      arith,
      round_matches_backoff options r l s st h,
      (round_ends options r l).0,
      (round_ends options r l).1,
      delays-eq-backoff options rest (next b').1.level s st,
    )

-- The restart delay is never 0, and a restart is the only way to go on: whatever options the caller
-- gives, the parent never starts workers in a loop without waiting.
parent_restart_delay-pos : (schedule : List ℕ) (level : ℕ) → 0 < parent_restart_delay schedule level
unfolding parent_restart_delay
parent_restart_delay-pos [] level = omega arith
parent_restart_delay-pos (d ∷ ds) level = ground arith

round_waits :
    (options : ParentOptions) (r : GenerationResult) (l : ℕ) {delay l' : ℕ}
    → parent_round options r l ≡ restart_after delay l'
    → (0 < delay) × (r.disposition ≡ exit_restart)
unfolding parent_round
round_waits options r l h = ground (
  arith,
  parent_restart_delay-pos options.restart_schedule 0,
  parent_restart_delay-pos options.restart_schedule l,
)

abbrev AllPositive : ParentRun → Type 0
AllPositive run = All (λ delay. 0 < delay) run.delays

unless_cancelled-AllPositive :
    (cancelled : Bool) (run : ParentRun)
    → AllPositive run
    → AllPositive (unless_cancelled cancelled run)
unless_cancelled-AllPositive true run h = tt
unless_cancelled-AllPositive false run h = h

-- In every run, whatever the options and the generations, no delay before a restart is 0: the
-- parent never starts workers in a loop without waiting.
pub delays_positive :
    (options : ParentOptions) (gens : List (GenerationResult × Bool)) (l : ℕ)
    → All (λ delay. 0 < delay) (run_parent options l gens).delays
unfolding run_parent
delays_positive options [] l = tt
delays_positive options ((r, cancelled) ∷ rest) l =
    by_round (parent_round options r l) refl (λ l'. delays_positive options rest l')
  where
    by_round :
        (o : Round)
        → parent_round options r l ≡ o
        → ((l' : ℕ) → AllPositive (run_parent options l' rest))
        → AllPositive (elim o [
          | end how ↦ record { delays = []; returned = some how }
          | restart_after delay level' ↦
              waited delay (unless_cancelled cancelled (run_parent options level' rest))
        ])
    by_round (end how) e later = tt
    by_round (restart_after delay level') e later = (
      (round_waits options r l e).0,
      unless_cancelled-AllPositive cancelled (run_parent options level' rest) (later level'),
    )
