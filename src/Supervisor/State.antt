-- ===== src/Supervisor/State.antt =====
-- The state of internal/supervisor/supervisor.go. Times are nanoseconds since the zero time. The
-- counters of type `int` count events one by one and are taken without a bound; those of type
-- `uint64` wrap.
use pxgo.Shared.{ℕ, String, Bool, false, Option, none, List, []}
use pxgo.Shared.Dict.{Dict}

pub record HealthState : Type 0 where
  pub failures : ℕ
  pub backoff_level : ℕ
  pub cooling_until : ℕ
  pub last_sequence : ℕ

-- `proxies` holds the keys of the map, each once; a nil map is the empty one.
pub record CorrelatedWindowState : Type 0 where
  pub start : ℕ
  pub count : ℕ
  pub proxies : List String

pub record FatalSignal : Type 0 where
  pub reason : String
  pub at : ℕ

pub data ActionKey : Type 0 where
  refresh_route refresh_auth close_idle_transports clear_network_dns : ActionKey
  other_action : ℕ → ActionKey

-- Which of the owner's callbacks are not nil.
pub record Owners : Type 0 where
  pub refresh_route : Bool
  pub refresh_auth : Bool
  pub close_idle_transports : Bool
  pub clear_network_dns : Bool

-- `inflight` holds the keys of the map; `running` is the counter of the wait group; `fatal_ch` is a
-- channel with room for one signal.
pub record Supervisor : Type 0 where
  pub owners : Owners
  pub cancelled : Bool
  pub running : ℕ
  pub closed : Bool
  pub health : Dict HealthState
  pub sequence : ℕ
  pub inflight : List ActionKey
  pub progress_sequence : ℕ
  pub last_progress : ℕ
  pub last_tick : ℕ
  pub network_epoch : ℕ
  pub last_network_epoch : ℕ
  pub correlated : CorrelatedWindowState
  pub internal_window_start : ℕ
  pub internal_failures : ℕ
  pub fatal_requested : Bool
  pub fatal_reason : String
  pub fatal_ch : Option FatalSignal

abbrev pub no_window : CorrelatedWindowState
no_window = record { start = 0; count = 0; proxies = [] }

unfoldable pub new_supervisor : Owners → Supervisor
new_supervisor owners = record {
  owners = owners;
  cancelled = false;
  running = 0;
  closed = false;
  health = [];
  sequence = 0;
  inflight = [];
  progress_sequence = 0;
  last_progress = 0;
  last_tick = 0;
  network_epoch = 0;
  last_network_epoch = 0;
  correlated = no_window;
  internal_window_start = 0;
  internal_failures = 0;
  fatal_requested = false;
  fatal_reason = "";
  fatal_ch = none;
}
