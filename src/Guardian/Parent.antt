-- ===== src/Guardian/Parent.antt =====
-- internal/guardian/parent.go: `parentRestartDelay` and `RunParent`. What
-- `runGeneration` returns, and whether the parent's context is done while it waits for the restart
-- timer, come from outside, one pair for each generation.
pub mod Laws
use pxgo.Shared.{
  ℕ, ◌+◌, ◌-◌, ℤ, Bool, true, false, Option, none, some, List, [], ◌∷◌, seconds, ltb, leb, length,
  get_or, if◌then◌else◌,
}
use pxgo.Guardian.Failure.{
  Failure, ExitDisposition, exit_startup_failure, exit_restart, exit_normal_stop,
}
use pxgo.Guardian.Monitor.{ParentOptions, GenerationResult}

-- `level` is never negative, so the guard against that is not modelled; a delay of 0 stands for
-- every delay that is not positive.
unfoldable pub parent_restart_delay : List ℕ → ℕ → ℕ
parent_restart_delay [] level = seconds 1
parent_restart_delay (d ∷ ds) level =
    let n = length (d ∷ ds) in
    let level' = if leb n level then n - 1 else level in
    let delay = get_or (d ∷ ds) level' 0 in if leb delay 0 then seconds 1 else delay

-- What `RunParent` returns.
pub data ParentEnd : Type 0 where
  normal_stop : Option Failure → ParentEnd
  startup_exit : ℤ → Option Failure → ParentEnd
  cancelled_wait : ParentEnd

-- One round of the loop: the end, or the delay before the next generation and its level.
pub data Round : Type 0 where
  end : ParentEnd → Round
  restart_after : ℕ → ℕ → Round

abbrev round_by : ExitDisposition → ParentOptions → GenerationResult → ℕ → Round
round_by exit_normal_stop options r level = end (normal_stop r.err)
round_by exit_startup_failure options r level = end (startup_exit r.startup_code r.err)
round_by exit_restart options r level =
    let level' = if leb options.stable_run_reset r.ready_for then 0 else level in
    restart_after (parent_restart_delay options.restart_schedule level')
      (if ltb level' (length options.restart_schedule - 1) then level' + 1 else level')

unfoldable pub parent_round : ParentOptions → GenerationResult → ℕ → Round
parent_round options r level = round_by r.disposition options r level

pub record ParentRun : Type 0 where
  pub delays : List ℕ
  pub returned : Option ParentEnd

abbrev waited : ℕ → ParentRun → ParentRun
waited delay run = record run { delays = delay ∷ run.delays }

abbrev unless_cancelled : Bool → ParentRun → ParentRun
unless_cancelled cancelled rest =
    if cancelled then record { delays = []; returned = some cancelled_wait } else rest

-- The loop over the generations that the world provides; a `true` is a context that is done while
-- the parent waits after that generation.
unfoldable pub run_parent : ParentOptions → ℕ → List (GenerationResult × Bool) → ParentRun
run_parent options level [] = record { delays = []; returned = none }
run_parent options level ((r, cancelled) ∷ rest) = elim (parent_round options r level) [
  | end how ↦ record { delays = []; returned = some how }
  | restart_after delay level' ↦
      waited delay (unless_cancelled cancelled (run_parent options level' rest))
]
