-- ===== src/Supervisor/Run/Healths.antt =====
-- The health map stays bounded and its entries in range, in every step.
use mathlib.Core.Path.{subst}
use pxgo.Shared.{
  ℕ, ◌≤◌, String, ◌≡◌, ◌⊎◌, List, [], ◌∷◌, length, sym, if_both, inl, inr, arith, str_eq,
  if◌then◌else◌,
}
use pxgo.Shared.Dict.{Dict, EachValue, EachValue-delete, delete, length-delete-le}
use pxgo.Supervisor.Outcome.{Outcome, Candidate}
use pxgo.Supervisor.State.{ActionKey, HealthState, Supervisor}
use pxgo.Supervisor.Health.{
  max_health_entries, record_local_failure, candidate_cooled, reset_transient,
}
use pxgo.Supervisor.Health.Laws.{IsSane, record_local_failure-bounded, record_local_failure-IsSane}
use pxgo.Supervisor.Order.{Scan, scan_all, scan_one, empty_scan, order}
use pxgo.Supervisor.Record.{
  record_outcome, record_by, record_penalized, record_internal_failure, observe_correlated_failure,
  tick, Class, Verdict, class_of, is_success, is_penalized, is_internal, is_other,
}
use pxgo.Supervisor.Recovery.{trigger, release, action_done, close}
use pxgo.Supervisor.Run.{Step, records, triggers, releases, finishes, ticks, orders, resets, closes}

-- The health map is bounded, and each of its entries is in range.
pub record HealthOk (health : Dict HealthState) : Type 0 where
  pub bounded : length health ≤ max_health_entries
  pub sane : EachValue IsSane health

empty-HealthOk : HealthOk []
empty-HealthOk = record { bounded = omega arith; sane = tt }

delete-HealthOk :
    (health : Dict HealthState) (key : String) → HealthOk health → HealthOk (delete health key)
delete-HealthOk health key h = record {
  bounded = omega (arith, length-delete-le health key, h.bounded);
  sane = EachValue-delete IsSane health key h.sane;
}

record_local_failure-HealthOk :
    (now : ℕ) (key : String) (s : Supervisor)
    → HealthOk s.health
    → HealthOk (record_local_failure now key s).1.health
record_local_failure-HealthOk now key s h = record {
  bounded = record_local_failure-bounded now key s h.bounded;
  sane = record_local_failure-IsSane now key s h.sane;
}

observe-health :
    (now : ℕ) (key : String) (s : Supervisor)
    → ((observe_correlated_failure now key s).1.health ≡ s.health)
      ⊎ ((observe_correlated_failure now key s).1.health ≡ [])
unfolding observe_correlated_failure
observe-health now key s = ground arith

observe-HealthOk :
    (now : ℕ) (key : String) (s : Supervisor)
    → HealthOk s.health
    → HealthOk (observe_correlated_failure now key s).1.health
observe-HealthOk now key s h = elim (observe-health now key s) [
  | inl same ↦ subst HealthOk (sym same) h
  | inr new ↦ subst HealthOk (sym new) empty-HealthOk
]

internal-health : (now : ℕ) (s : Supervisor) → (record_internal_failure now s).health ≡ s.health
unfolding record_internal_failure
internal-health now s = ground arith

record_by-HealthOk :
    (class : Class) (now : ℕ) (o : Outcome) (s : Supervisor)
    → HealthOk s.health
    → HealthOk (record_by class now o s).state.health
unfolding record_by record_penalized
record_by-HealthOk is_success now o s h =
    if_both (λ (t : Supervisor). HealthOk t.health) (str_eq o.proxy "") _ _ h
      (delete-HealthOk s.health o.proxy h)
record_by-HealthOk is_penalized now o s h =
    observe-HealthOk now o.proxy _ (record_local_failure-HealthOk now o.proxy s h)
record_by-HealthOk is_internal now o s h = subst HealthOk (sym (internal-health now s)) h
record_by-HealthOk is_other now o s h = h

record-HealthOk :
    (now : ℕ) (o : Outcome) (s : Supervisor)
    → HealthOk s.health
    → HealthOk (record_outcome now o s).state.health
unfolding record_outcome
record-HealthOk now o s h =
    if_both (λ (v : Verdict). HealthOk v.state.health) s.closed _ _ h
      (record_by-HealthOk (class_of o.kind) now o s h)

candidate_cooled-HealthOk :
    (now : ℕ) (key : String) (health : Dict HealthState)
    → HealthOk health
    → HealthOk (candidate_cooled now key health).1
unfolding candidate_cooled
candidate_cooled-HealthOk now key health h =
    if_both HealthOk _ (delete health key) health (delete-HealthOk health key h) h

scan_one-health :
    (now : ℕ) (c : Candidate) (scan : Scan)
    → (scan_one now c scan).health ≡ (candidate_cooled now c.key scan.health).1
unfolding scan_one
scan_one-health now c scan = ground arith

scan_all-HealthOk :
    (now : ℕ) (cs : List Candidate) (scan : Scan)
    → HealthOk scan.health
    → HealthOk (scan_all now cs scan).health
unfolding scan_all
scan_all-HealthOk now [] scan h = h
scan_all-HealthOk now (c ∷ cs) scan h =
    scan_all-HealthOk now cs (if c.direct then scan else scan_one now c scan) (
      if_both (λ (t : Scan). HealthOk t.health) c.direct scan (scan_one now c scan) h
        (subst HealthOk (sym (scan_one-health now c scan))
          (candidate_cooled-HealthOk now c.key scan.health h)))

order-health :
    (now : ℕ) (cs : List Candidate) (s : Supervisor)
    → ((order now cs s).1.health ≡ s.health)
      ⊎ ((order now cs s).1.health ≡ (scan_all now cs (empty_scan s.health)).health)
unfolding order
order-health now cs s = ground arith

order-HealthOk :
    (now : ℕ) (cs : List Candidate) (s : Supervisor)
    → HealthOk s.health
    → HealthOk (order now cs s).1.health
order-HealthOk now cs s h = elim (order-health now cs s) [
  | inl same ↦ subst HealthOk (sym same) h
  | inr new ↦ subst HealthOk (sym new) (scan_all-HealthOk now cs (empty_scan s.health) h)
]

tick-health :
    (clock given : ℕ) (s : Supervisor)
    → ((tick clock given s).1.health ≡ s.health) ⊎ ((tick clock given s).1.health ≡ [])
unfolding tick
tick-health clock given s = ground arith

tick-HealthOk :
    (clock given : ℕ) (s : Supervisor) → HealthOk s.health → HealthOk (tick clock given s).1.health
tick-HealthOk clock given s h = elim (tick-health clock given s) [
  | inl same ↦ subst HealthOk (sym same) h
  | inr new ↦ subst HealthOk (sym new) empty-HealthOk
]

trigger-health : (key : ActionKey) (s : Supervisor) → (trigger key s).1.health ≡ s.health
unfolding trigger
trigger-health key s = ground arith

close-health : (s : Supervisor) → (close s).health ≡ s.health
unfolding close
close-health s = ground arith

pub Step-HealthOk :
    (s : Supervisor) {t : Supervisor} → Step s t → HealthOk s.health → HealthOk t.health
Step-HealthOk s (records now o) h = record-HealthOk now o s h
Step-HealthOk s (triggers key) h = subst HealthOk (sym (trigger-health key s)) h
Step-HealthOk s (releases key e) h = unfold release in h
Step-HealthOk s (finishes e) h = unfold action_done in h
Step-HealthOk s (ticks clock given) h = tick-HealthOk clock given s h
Step-HealthOk s (orders now cs) h = order-HealthOk now cs s h
Step-HealthOk s resets h = unfold reset_transient in empty-HealthOk
Step-HealthOk s closes h = subst HealthOk (sym (close-health s)) h
