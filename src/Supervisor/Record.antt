-- ===== src/Supervisor/Record.antt =====
-- internal/supervisor/supervisor.go: outcomes, the fatal signal, correlated failures of several
-- proxies, network epochs and the worker's own progress.
pub mod Laws
use pxgo.Shared.{
  ℕ, suc, ◌+◌, String, Bool, true, false, not, ◌&&◌, ◌||◌, Option, none, some, List, [], ◌∷◌,
  seconds, elapsed, is_zero, incr_u64, ltb, leb, length, str_eq, if◌then◌else◌,
}
use pxgo.Shared.Dict.{delete}
use pxgo.Supervisor.Outcome.{OutcomeKind, Outcome, success, internal_failure, penalizes_candidate}
use pxgo.Supervisor.State.{CorrelatedWindowState, FatalSignal, Supervisor, no_window}
use pxgo.Supervisor.Health.{record_local_failure}

abbrev pub network_gap_threshold : ℕ
network_gap_threshold = seconds 5

abbrev pub correlated_failure_window : ℕ
correlated_failure_window = seconds 3

abbrev pub correlated_failure_threshold : ℕ
correlated_failure_threshold = 8

abbrev pub network_epoch_cooldown : ℕ
network_epoch_cooldown = seconds 30

abbrev pub internal_failure_window : ℕ
internal_failure_window = seconds 30

abbrev pub internal_fatal_threshold : ℕ
internal_fatal_threshold = 3

-- A send that does not wait: a full channel drops the signal.
abbrev try_send : FatalSignal → Option FatalSignal → Option FatalSignal
try_send signal none = some signal
try_send signal (some waiting) = some waiting

abbrev fatal_text : String
fatal_text = "repeated internal runtime failure"

-- A new window for internal failures, if there is none or it is over.
abbrev open_internal_window : ℕ → Supervisor → Supervisor
open_internal_window now s =
    if is_zero s.internal_window_start
      || ltb internal_failure_window (elapsed now s.internal_window_start)
    then record s { internal_window_start = now; internal_failures = 0 }
    else s

unfoldable pub record_internal_failure : ℕ → Supervisor → Supervisor
record_internal_failure now s =
    let opened = open_internal_window now s in
    let counted = record opened { internal_failures = opened.internal_failures + 1 } in
    if ltb counted.internal_failures internal_fatal_threshold || counted.fatal_requested
    then counted
    else record counted {
      fatal_requested = true;
      fatal_reason = fatal_text;
      fatal_ch = try_send (record { reason = fatal_text; at = now }) counted.fatal_ch;
    }

unfoldable pub start_network_epoch : ℕ → Supervisor → Supervisor
start_network_epoch now s = record s {
  network_epoch = incr_u64 s.network_epoch;
  last_network_epoch = now;
  health = [];
  correlated = no_window;
}

unfoldable pub holds_key : String → List String → Bool
holds_key key [] = false
holds_key key (k ∷ ks) = str_eq k key || holds_key key ks

-- proxies[key] = struct{}{}
unfoldable pub add_key : String → List String → List String
unfolding holds_key
add_key key keys = if holds_key key keys then keys else key ∷ keys

abbrev open_correlated_window : ℕ → CorrelatedWindowState → CorrelatedWindowState
open_correlated_window now w =
    if is_zero w.start || ltb correlated_failure_window (elapsed now w.start)
    then record { start = now; count = 0; proxies = [] }
    else w

-- One more failure of a key in the window of correlated failures.
unfoldable pub count_failure : ℕ → String → CorrelatedWindowState → CorrelatedWindowState
count_failure now key w =
    let opened = open_correlated_window now w in
    record opened { count = opened.count + 1; proxies = add_key key opened.proxies }

-- Whether a network epoch starts, and the state after it.
unfoldable pub observe_correlated_failure : ℕ → String → Supervisor → Bool × Supervisor
unfolding count_failure start_network_epoch
observe_correlated_failure now key s =
    let window = count_failure now key s.correlated in
    let counted = record s { correlated = window } in
    if str_eq key ""
    then (false, s)
    else if not (is_zero s.last_network_epoch)
        && ltb (elapsed now s.last_network_epoch) network_epoch_cooldown
    then (false, s)
    else if ltb window.count correlated_failure_threshold || ltb (length window.proxies) 2
    then (false, counted)
    else (true, start_network_epoch now counted)

pub data Class : Type 0 where
  is_success is_penalized is_internal is_other : Class

-- The cases of the `switch` in `record`, in their order.
abbrev pub class_of : OutcomeKind → Class
class_of success = is_success
class_of internal_failure = is_internal
class_of kind = if penalizes_candidate kind then is_penalized else is_other

-- What `record` tells `Recover`: that idle transports are to be closed, and that an epoch started.
pub record Verdict : Type 0 where
  pub trigger_idle : Bool
  pub network_epoch : Bool
  pub state : Supervisor

unfoldable pub record_penalized : ℕ → String → Supervisor → Verdict
record_penalized now proxy s =
    let (idle, failed) = record_local_failure now proxy s in
    let (epoch, observed) = observe_correlated_failure now proxy failed in
    record { trigger_idle = idle; network_epoch = epoch; state = observed }

unfoldable pub record_by : Class → ℕ → Outcome → Supervisor → Verdict
record_by is_success now outcome s = record {
  trigger_idle = false;
  network_epoch = false;
  state =
      if str_eq outcome.proxy "" then s else record s { health = delete s.health outcome.proxy };
}
record_by is_penalized now outcome s = record_penalized now outcome.proxy s
record_by is_internal now outcome s = record {
  trigger_idle = false;
  network_epoch = false;
  state = record_internal_failure now s;
}
record_by is_other now outcome s = record { trigger_idle = false; network_epoch = false; state = s }

unfoldable pub record_outcome : ℕ → Outcome → Supervisor → Verdict
unfolding penalizes_candidate
record_outcome now outcome s =
    if s.closed
    then record { trigger_idle = false; network_epoch = false; state = s }
    else record_by (class_of outcome.kind) now outcome s

-- The locked part of `Tick`, and whether the network recovery is to be triggered. A `now` that is
-- the zero time is replaced by the clock.
unfoldable pub tick : ℕ → ℕ → Supervisor → Bool × Supervisor
unfolding start_network_epoch
tick clock given s =
    let now = if is_zero given then clock else given in
    let stepped = record s {
      progress_sequence = incr_u64 s.progress_sequence;
      last_progress = now;
    } in
    if s.closed
    then (false, s)
    else if not (is_zero s.last_tick) && ltb network_gap_threshold (elapsed now s.last_tick)
    then (true, record (start_network_epoch now stepped) { last_tick = now })
    else (false, record stepped { last_tick = now })
