-- ===== src/Supervisor/Run.antt =====
-- The supervisor as a whole: every locked section that some thread may enter, in any order. The
-- methods that enter several sections (`Recover`, `Tick`) are runs of these steps.
pub mod Epochs
pub mod Starts
pub mod Closed
mod Healths
mod Actions
mod Signals
pub mod Invariant
pub mod Methods
use pxgo.Shared.{
  ℕ, zero, suc, ◌<◌, String, ◌≡◌, Bool, true, false, Option, none, some, List, length,
}
use pxgo.Supervisor.Outcome.{Outcome, Candidate}
use pxgo.Supervisor.State.{ActionKey, FatalSignal, Supervisor}
use pxgo.Supervisor.Health.{reset_transient}
use pxgo.Supervisor.Order.{order}
use pxgo.Supervisor.Record.{record_outcome, tick}
use pxgo.Supervisor.Recovery.{is_inflight, trigger, release, action_done, close}

pub data Step (s : Supervisor) : Supervisor → Type 0 where
  records : (now : ℕ) (outcome : Outcome) → Step s (record_outcome now outcome s).state
  triggers : (key : ActionKey) → Step s (trigger key s).1
  releases : (key : ActionKey) → is_inflight key s.inflight ≡ true → Step s (release key s)
  finishes : length s.inflight < s.running → Step s (action_done s)
  ticks : (clock given : ℕ) → Step s (tick clock given s).1
  orders : (now : ℕ) (candidates : List Candidate) → Step s (order now candidates s).1
  resets : Step s (reset_transient s)
  closes : Step s (close s)

-- Runs; the number counts the signals that were taken from `FatalSignals`.
pub data Reach (s : Supervisor) : ℕ → Supervisor → Type 0 where
  here : Reach s zero s
  next : {n : ℕ} {t u : Supervisor} → Reach s n t → Step t u → Reach s n u
  takes :
      {n : ℕ} {t : Supervisor} (signal : FatalSignal)
      → Reach s n t
      → t.fatal_ch ≡ some signal
      → Reach s (suc n) (record t { fatal_ch = none })
