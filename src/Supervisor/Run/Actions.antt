-- ===== src/Supervisor/Run/Actions.antt =====
-- The actions in flight: each once, each counted by the wait group, in every step.
use mathlib.Core.Path.{subst, subst₂}
use pxgo.Shared.{
  ℕ, ◌+◌, ◌≤◌, ◌≡◌, ◌⊎◌, refl, false, List, [], ◌∷◌, length, sym, if_both, inl, inr, arith, ◌==◌,
}
use pxgo.Supervisor.Outcome.{Outcome, Candidate}
use pxgo.Supervisor.State.{ActionKey, Supervisor}
use pxgo.Supervisor.Health.{record_local_failure, reset_transient}
use pxgo.Supervisor.Order.{order}
use pxgo.Supervisor.Record.{
  record_outcome, record_by, record_penalized, record_internal_failure, observe_correlated_failure,
  tick,
}
use pxgo.Supervisor.Recovery.{
  is_inflight, drop_action, trigger, release, action_done, close, action_code,
}
use pxgo.Supervisor.Run.{Step, records, triggers, releases, finishes, ticks, orders, resets, closes}

-- No action stands twice among those in flight.
abbrev pub NoRepeat : List ActionKey → Type 0
NoRepeat [] = Unit
NoRepeat (k ∷ ks) = (is_inflight k ks ≡ false) × NoRepeat ks

-- Each action in flight is counted by the wait group.
pub record ActionsOk (inflight : List ActionKey) (running : ℕ) : Type 0 where
  pub distinct : NoRepeat inflight
  pub counted : length inflight ≤ running

-- The fields that recording an outcome leaves alone.
record-frame :
    (now : ℕ) (o : Outcome) (s : Supervisor)
    → ((record_outcome now o s).state.inflight ≡ s.inflight)
      × ((record_outcome now o s).state.running ≡ s.running)
unfolding record_outcome record_by record_penalized record_local_failure observe_correlated_failure
    record_internal_failure
record-frame now o s = ground arith

pub order-frame :
    (now : ℕ) (cs : List Candidate) (s : Supervisor)
    → (order now cs s).1 ≡ record s { health = (order now cs s).1.health }
unfolding order
order-frame now cs s = ground arith

drop_action-absent :
    (key other : ActionKey) (ks : List ActionKey)
    → is_inflight other ks ≡ false
    → is_inflight other (drop_action key ks) ≡ false
unfolding is_inflight drop_action
drop_action-absent key other [] h = refl
drop_action-absent key other (k ∷ ks) h = ground (arith, drop_action-absent key other ks)

drop_action-NoRepeat :
    (key : ActionKey) (ks : List ActionKey) → NoRepeat ks → NoRepeat (drop_action key ks)
unfolding drop_action
drop_action-NoRepeat key [] h = tt
drop_action-NoRepeat key (k ∷ ks) h =
    if_both NoRepeat (action_code k == action_code key) _ _ (drop_action-NoRepeat key ks h.1)
      (drop_action-absent key k ks h.0, drop_action-NoRepeat key ks h.1)

pub length-drop_action :
    (key : ActionKey) (ks : List ActionKey) → length (drop_action key ks) ≤ length ks
unfolding drop_action
length-drop_action key [] = omega arith
length-drop_action key (k ∷ ks) = ground (arith, length-drop_action key ks)

trigger-cases :
    (key : ActionKey) (s : Supervisor)
    → ((trigger key s).1 ≡ s)
      ⊎ ((is_inflight key s.inflight ≡ false)
          × ((trigger key s).1 ≡ record s { inflight = key ∷ s.inflight; running = s.running + 1 }))
unfolding trigger
trigger-cases key s = ground arith

abbrev ActsWell : Supervisor → Type 0
ActsWell s = ActionsOk s.inflight s.running

trigger-ActionsOk : (key : ActionKey) (s : Supervisor) → ActsWell s → ActsWell (trigger key s).1
trigger-ActionsOk key s h = elim (trigger-cases key s) [
  | inl same ↦ subst ActsWell (sym same) h
  | inr (fresh, new) ↦
      subst ActsWell (sym new)
        (record { distinct = (fresh, h.distinct); counted = omega (arith, h.counted) })
]

tick-frame :
    (clock given : ℕ) (s : Supervisor)
    → ((tick clock given s).1.inflight ≡ s.inflight) × ((tick clock given s).1.running ≡ s.running)
unfolding tick
tick-frame clock given s = ground arith

close-frame : (s : Supervisor) → ((close s).inflight ≡ s.inflight) × ((close s).running ≡ s.running)
unfolding close
close-frame s = ground arith

same-ActionsOk :
    (s t : Supervisor)
    → (t.inflight ≡ s.inflight) × (t.running ≡ s.running)
    → ActsWell s
    → ActsWell t
same-ActionsOk s t e h = subst₂ ActionsOk (sym e.0) (sym e.1) h

pub Step-ActionsOk : (s : Supervisor) {t : Supervisor} → Step s t → ActsWell s → ActsWell t
Step-ActionsOk s (records now o) h =
    same-ActionsOk s (record_outcome now o s).state (record-frame now o s) h
Step-ActionsOk s (triggers key) h = trigger-ActionsOk key s h
Step-ActionsOk s (releases key e) h =
    unfold release in
    record {
      distinct = drop_action-NoRepeat key s.inflight h.distinct;
      counted = omega (arith, length-drop_action key s.inflight, h.counted);
    }
Step-ActionsOk s (finishes e) h =
    unfold action_done in record { distinct = h.distinct; counted = omega (arith, e) }
Step-ActionsOk s (ticks clock given) h =
    same-ActionsOk s (tick clock given s).1 (tick-frame clock given s) h
Step-ActionsOk s (orders now cs) h = rw (order-frame now cs s) h
Step-ActionsOk s resets h = unfold reset_transient in h
Step-ActionsOk s closes h = same-ActionsOk s (close s) (close-frame s) h
