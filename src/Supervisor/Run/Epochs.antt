-- ===== src/Supervisor/Run/Epochs.antt =====
-- The network epochs that failures begin, in every interleaving.
use pxgo.Shared.{ℕ, ◌≤◌, ◌<◌, ◌≡◌, true, false, length, is_zero, if◌then◌else◌}
use pxgo.Supervisor.Outcome.{Outcome}
use pxgo.Supervisor.State.{Supervisor}
use pxgo.Supervisor.Record.{count_failure, Verdict}
use pxgo.Supervisor.Run.{
  Step, records, triggers, releases, finishes, ticks, orders, resets, closes, Reach, here, next,
  takes,
}

-- The outcomes come before `limit`, and the clock of the ticks is not behind `start`.
abbrev pub Timely : ℕ → ℕ → {s t : Supervisor} → Step s t → Type 0
Timely start limit (records now _) = now < limit
Timely start limit (ticks clock given) = start ≤ (if is_zero given then clock else given)
Timely start limit (triggers _) = Unit
Timely start limit (releases _ _) = Unit
Timely start limit (finishes _) = Unit
Timely start limit (orders _ _) = Unit
Timely start limit resets = Unit
Timely start limit closes = Unit

abbrev pub AllTimely : ℕ → ℕ → {s : Supervisor} {n : ℕ} {t : Supervisor} → Reach s n t → Type 0
AllTimely start limit here = Unit
AllTimely start limit (next r st) = Timely start limit st × AllTimely start limit r
AllTimely start limit (takes _ r _) = AllTimely start limit r

abbrev QuietVerdict : ℕ → Verdict → Type 0
QuietVerdict start v = (v.network_epoch ≡ false) × (start ≤ v.state.last_network_epoch)

-- What an outcome that begins an epoch says.
abbrev Begins : ℕ → Outcome → Supervisor → Verdict → Type 0
Begins now o s v =
    v.network_epoch ≡ true
    → (8 ≤ (count_failure now o.proxy s.correlated).count)
      × (2 ≤ length (count_failure now o.proxy s.correlated).proxies)
      × (v.state.last_network_epoch ≡ now)
