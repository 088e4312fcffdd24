-- ===== src/Supervisor/Run/Starts.antt =====
-- The recovery actions that are started, and those that are not, in every interleaving.
use pxgo.Shared.{
  ℕ, ◌≡◌, refl, ap, ◌∙◌, Bool, true, false, not, ◌&&◌, ◌||◌, List, [], ◌∷◌, ◌++◌, ◌==◌, ==_iff,
  Bool-cases, inl, inr, arith, if◌then◌else◌,
}
use pxgo.Supervisor.Outcome.{OutcomeKind, Outcome, route_failure, auth_exhausted}
use pxgo.Supervisor.State.{
  ActionKey, Owners, Supervisor, refresh_route, refresh_auth, close_idle_transports,
  clear_network_dns,
}
use pxgo.Supervisor.Health.{record_local_failure, reset_transient}
use pxgo.Supervisor.Record.{
  record_outcome, record_by, record_penalized, record_internal_failure, observe_correlated_failure,
  tick,
}
use pxgo.Supervisor.Recovery.{
  action_code, owner_action, is_inflight, drop_action, trigger, release, action_done, close,
}
use pxgo.Supervisor.Run.Actions.{order-frame}
use pxgo.Supervisor.Run.{
  Step, records, triggers, releases, finishes, ticks, orders, resets, closes, Reach, here, next,
  takes,
}

-- The fields that recording an outcome leaves alone.
record_outcome-frame :
    (now : ℕ) (o : Outcome) (s : Supervisor)
    → ((record_outcome now o s).state.inflight ≡ s.inflight)
      × ((record_outcome now o s).state.owners ≡ s.owners)
      × ((record_outcome now o s).state.closed ≡ s.closed)
unfolding record_outcome record_by record_penalized record_local_failure observe_correlated_failure
    record_internal_failure
record_outcome-frame now o s = ground arith

is_inflight-same :
    (key other : ActionKey) (ks : List ActionKey)
    → (action_code other == action_code key) ≡ true
    → is_inflight key ks ≡ is_inflight other ks
unfolding is_inflight
is_inflight-same key other [] e = refl
is_inflight-same key other (k ∷ ks) e =
    let same = (==_iff (action_code other) (action_code key)).0 e in
    rw (same, is_inflight-same key other ks e) refl

-- One of the actions is that one, and has an owner.
pub is_asked : Owners → ActionKey → List ActionKey → Bool
is_asked owners key [] = false
is_asked owners key (k ∷ ks) =
    ((action_code k == action_code key) && owner_action owners k) || is_asked owners key ks

-- The actions in flight after a trigger.
trigger-inflight :
    (key k : ActionKey) (s : Supervisor)
    → ((is_inflight key (trigger k s).1.inflight)
        ≡ (is_inflight key s.inflight || (not s.closed && is_asked s.owners key (k ∷ []))))
      × ((trigger k s).1.owners ≡ s.owners)
      × ((trigger k s).1.closed ≡ s.closed)
unfolding trigger is_inflight is_asked
trigger-inflight key k s = elim (Bool-cases (action_code k == action_code key)) [
  | inl same ↦ ground (arith, same, is_inflight-same key k s.inflight same)
  | inr other ↦ ground (arith, other)
]

trigger_all : List ActionKey → Supervisor → Supervisor
trigger_all [] s = s
trigger_all (k ∷ ks) s = trigger_all ks (trigger k s).1

-- What an outcome asks for by its kind, what a cooling proxy asks for, and what a network epoch does.
abbrev pub asked_by_kind : OutcomeKind → List ActionKey
asked_by_kind route_failure = refresh_route ∷ []
asked_by_kind auth_exhausted = refresh_auth ∷ []
asked_by_kind _ = []

abbrev pub asked_actions : OutcomeKind → Bool → Bool → List ActionKey
asked_actions kind cools epoch =
    asked_by_kind kind
    ++ (if cools then close_idle_transports ∷ [] else [])
    ++ (if epoch
        then refresh_route ∷ refresh_auth ∷ close_idle_transports ∷ clear_network_dns ∷ []
        else [])

-- The step is no release of that action.
abbrev pub Holds : ActionKey → {s t : Supervisor} → Step s t → Type 0
Holds key (releases k _) = (action_code k == action_code key) ≡ false
Holds key (records _ _) = Unit
Holds key (triggers _) = Unit
Holds key (finishes _) = Unit
Holds key (ticks _ _) = Unit
Holds key (orders _ _) = Unit
Holds key resets = Unit
Holds key closes = Unit

abbrev pub AllHold : ActionKey → {s : Supervisor} {n : ℕ} {t : Supervisor} → Reach s n t → Type 0
AllHold key here = Unit
AllHold key (next r st) = Holds key st × AllHold key r
AllHold key (takes _ r _) = AllHold key r

drop_action-other :
    (key k : ActionKey) (ks : List ActionKey)
    → (action_code k == action_code key) ≡ false
    → is_inflight key (drop_action k ks) ≡ is_inflight key ks
unfolding is_inflight drop_action
drop_action-other key k [] e = refl
drop_action-other key k (x ∷ ks) e = ground (arith, drop_action-other key k ks e, e)

Step-inflight :
    (key : ActionKey) (s : Supervisor) {t : Supervisor} (st : Step s t)
    → Holds key st
    → is_inflight key s.inflight ≡ true
    → is_inflight key t.inflight ≡ true
Step-inflight key s (records now o) q h = ap (is_inflight key) (record_outcome-frame now o s).0 ∙ h
Step-inflight key s (triggers k) q h = (trigger-inflight key k s).0 ∙ rw h (ground arith)
Step-inflight key s (releases k e) q h =
    unfold release in (drop_action-other key k s.inflight q ∙ h)
Step-inflight key s (finishes e) q h = unfold action_done in h
Step-inflight key s (ticks clock given) q h = unfold tick in ground arith
Step-inflight key s (orders now cs) q h = rw (order-frame now cs s) h
Step-inflight key s resets q h = unfold reset_transient in h
Step-inflight key s closes q h = unfold close in ground arith

Reach-inflight :
    (key : ActionKey) {s : Supervisor} {n : ℕ} {t : Supervisor} (r : Reach s n t)
    → AllHold key r
    → is_inflight key s.inflight ≡ true
    → is_inflight key t.inflight ≡ true
Reach-inflight key here q h = h
Reach-inflight key (next {t = t} r st) q h = Step-inflight key t st q.0 (Reach-inflight key r q.1 h)
Reach-inflight key (takes signal r e) q h = Reach-inflight key r q h

started-inflight :
    (key : ActionKey) (s : Supervisor)
    → (trigger key s).0 ≡ true
    → is_inflight key (trigger key s).1.inflight ≡ true
unfolding trigger is_inflight
started-inflight key s h = ground arith

inflight-refused :
    (key : ActionKey) (s : Supervisor)
    → is_inflight key s.inflight ≡ true
    → (trigger key s).0 ≡ false
unfolding trigger
inflight-refused key s h = ground arith

drop_action-gone :
    (key : ActionKey) (ks : List ActionKey) → is_inflight key (drop_action key ks) ≡ false
unfolding is_inflight drop_action
drop_action-gone key [] = refl
drop_action-gone key (k ∷ ks) = ground (arith, drop_action-gone key ks)

-- An action that was started is not started again in any interleaving until it is released itself,
-- whatever other actions are started and released; once it is released it can be started again,
-- by a supervisor that is open and has an owner for it.
pub trigger_until_release :
    (key : ActionKey) (s : Supervisor) {n : ℕ} {t : Supervisor}
    → (trigger key s).0 ≡ true
    → (run : Reach (trigger key s).1 n t) → AllHold key run
    → ((trigger key t).0 ≡ false)
      × ((trigger key (release key t)).0 ≡ (owner_action t.owners key && not t.closed))
unfolding trigger release
trigger_until_release key s {n} {t} h run holds = (
  inflight-refused key t (Reach-inflight key run holds (started-inflight key s h)),
  ground (arith, drop_action-gone key t.inflight),
)
