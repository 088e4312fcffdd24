-- ===== src/Supervisor/Status.antt =====
-- internal/supervisor/status.go: the snapshot of the supervisor. Keys are sorted as bytes, which is
-- the argument `key_less`.
use pxgo.Shared.{
  ℕ, suc, String, ◌≡◌, ◌∙◌, refl, ap, Bool, List, [], ◌∷◌, some, length, if_both, if◌then◌else◌,
}
use pxgo.Shared.Dict.{Dict}
use pxgo.Supervisor.State.{HealthState, Supervisor}
use pxgo.Supervisor.Health.{is_cooling_state}

pub record CandidateStatus : Type 0 where
  pub proxy_key : String
  pub failures : ℕ
  pub backoff_level : ℕ
  pub cooling : Bool
  pub cooling_until : ℕ

pub record Status : Type 0 where
  pub progress_sequence : ℕ
  pub last_progress : ℕ
  pub network_epoch : ℕ
  pub health_entries : ℕ
  pub inflight_actions : ℕ
  pub fatal_requested : Bool
  pub fatal_reason : String
  pub candidates : List CandidateStatus

candidate_status : ℕ → String → HealthState → CandidateStatus
candidate_status now key state = record {
  proxy_key = key;
  failures = state.failures;
  backoff_level = state.backoff_level;
  cooling = is_cooling_state now (some state);
  cooling_until = state.cooling_until;
}

insert_candidate :
    (String → String → Bool) → CandidateStatus → List CandidateStatus → List CandidateStatus
insert_candidate key_less c [] = c ∷ []
insert_candidate key_less c (d ∷ ds) =
    let later = d ∷ insert_candidate key_less c ds in
    if key_less d.proxy_key c.proxy_key then later else c ∷ d ∷ ds

-- The candidates of the map, sorted by their keys.
sorted_candidates : (String → String → Bool) → ℕ → Dict HealthState → List CandidateStatus
unfolding candidate_status insert_candidate
sorted_candidates key_less now [] = []
sorted_candidates key_less now ((key, state) ∷ rest) =
    insert_candidate key_less (candidate_status now key state) (sorted_candidates key_less now rest)

unfoldable pub status : (String → String → Bool) → ℕ → Supervisor → Status
unfolding sorted_candidates
status key_less now s = record {
  progress_sequence = s.progress_sequence;
  last_progress = s.last_progress;
  network_epoch = s.network_epoch;
  health_entries = length s.health;
  inflight_actions = length s.inflight;
  fatal_requested = s.fatal_requested;
  fatal_reason = s.fatal_reason;
  candidates = sorted_candidates key_less now s.health;
}

length-insert_candidate :
    (key_less : String → String → Bool) (c : CandidateStatus) (ds : List CandidateStatus)
    → length (insert_candidate key_less c ds) ≡ suc (length ds)
unfolding insert_candidate
length-insert_candidate key_less c [] = refl
length-insert_candidate key_less c (d ∷ ds) =
    if_both (λ (l : List CandidateStatus). length l ≡ suc (suc (length ds)))
      (key_less d.proxy_key c.proxy_key) _ _ (ap suc (length-insert_candidate key_less c ds)) refl

length-sorted_candidates :
    (key_less : String → String → Bool) (now : ℕ) (health : Dict HealthState)
    → length (sorted_candidates key_less now health) ≡ length health
unfolding sorted_candidates
length-sorted_candidates key_less now [] = refl
length-sorted_candidates key_less now ((key, state) ∷ rest) =
    length-insert_candidate key_less (candidate_status now key state)
      (sorted_candidates key_less now rest)
    ∙ ap suc (length-sorted_candidates key_less now rest)

-- The snapshot lists as many candidates as it counts.
pub status-counts :
    (key_less : String → String → Bool) (now : ℕ) (s : Supervisor)
    → length (status key_less now s).candidates ≡ (status key_less now s).health_entries
unfolding status
status-counts key_less now s = length-sorted_candidates key_less now s.health
