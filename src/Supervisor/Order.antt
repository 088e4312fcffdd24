-- ===== src/Supervisor/Order.antt =====
-- `Supervisor.Order` of internal/supervisor/upstream.go: cooled candidates move behind healthy ones,
-- DIRECT members keep their places. An index out of range would be a panic, which is `none`.
pub mod Laws
use pxgo.Shared.{
  ℕ, zero, ◌+◌, Bool, true, false, ◌||◌, Option, none, some, List, [], ◌∷◌, ◌++◌, ◌==◌, ltb, length,
  if◌then◌else◌,
}
use pxgo.Shared.Dict.{Dict}
use pxgo.Supervisor.Outcome.{Candidate}
use pxgo.Supervisor.State.{HealthState, Supervisor}
use pxgo.Supervisor.Health.{candidate_cooled}

-- The variables of the first loop.
pub record Scan : Type 0 where
  pub explicit_count : ℕ
  pub cooled_count : ℕ
  pub healthy : List Candidate
  pub cooled : List Candidate
  pub health : Dict HealthState

-- One round for a candidate that is not DIRECT.
unfoldable pub scan_one : ℕ → Candidate → Scan → Scan
scan_one now c scan =
    let (is_cooled, health) = candidate_cooled now c.key scan.health in
    if is_cooled
    then record scan {
      explicit_count = scan.explicit_count + 1;
      cooled_count = scan.cooled_count + 1;
      cooled = scan.cooled ++ c ∷ [];
      health = health;
    }
    else record scan {
      explicit_count = scan.explicit_count + 1;
      healthy = scan.healthy ++ c ∷ [];
      health = health;
    }

unfoldable pub scan_all : ℕ → List Candidate → Scan → Scan
scan_all now [] scan = scan
scan_all now (c ∷ cs) scan = scan_all now cs (if c.direct then scan else scan_one now c scan)

abbrev cons_filled : Candidate → Option (List Candidate) → Option (List Candidate)
cons_filled c none = none
cons_filled c (some cs) = some (c ∷ cs)

-- The second loop: each place that is not DIRECT takes the next of `reordered`.
unfoldable pub fill : List Candidate → List Candidate → Option (List Candidate)
fill [] reordered = some []
fill (c ∷ cs) [] = let rest = cons_filled c (fill cs []) in if c.direct then rest else none
fill (c ∷ cs) (r ∷ rs) =
    let kept = cons_filled c (fill cs (r ∷ rs)) in
    let taken = cons_filled r (fill cs rs) in if c.direct then kept else taken

abbrev pub empty_scan : Dict HealthState → Scan
empty_scan health = record {
  explicit_count = 0;
  cooled_count = 0;
  healthy = [];
  cooled = [];
  health = health;
}

unfoldable pub order : ℕ → List Candidate → Supervisor → Option (List Candidate) × Supervisor
order now authoritative s =
    let scan = scan_all now authoritative (empty_scan s.health) in
    let s' = record s { health = scan.health } in
    if ltb (length authoritative) 2
    then (some authoritative, s)
    else if (scan.explicit_count == 0)
        || (scan.cooled_count == 0)
        || (scan.cooled_count == scan.explicit_count)
    then (some authoritative, s')
    else (fill authoritative (scan.healthy ++ scan.cooled), s')
