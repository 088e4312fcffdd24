-- ===== src/Guardian/Watchdog/Laws.antt =====
-- What Guardian/Watchdog.antt promises.
use pxgo.Shared.{
  ℕ, ◌+◌, ◌≤◌, ◌<◌, ◌≡◌, refl, ◌⊎◌, inl, inr, Bool, Bool-cases, true, false, List, [], ◌∷◌, arith,
  max_duration,
}
use pxgo.Guardian.Watchdog.{Watchdog, beat, check}

-- A hang is reported exactly for a ready worker, when the parent itself looked within the window
-- and the last progress is further back than the window.
pub check_iff :
    (w : Watchdog) (now : ℕ)
    → 0 < w.last_observer
    → w.hang_window < max_duration
    → ((check now w).0 ≡ true
        → (w.ready ≡ true)
          × (now ≤ w.last_observer + w.hang_window)
          × (w.last_progress + w.hang_window < now))
      × (w.ready ≡ true
          → now ≤ w.last_observer + w.hang_window
          → w.last_progress + w.hang_window < now
          → (check now w).0 ≡ true)
unfolding check
check_iff w now seen fits = (λ h. ground arith, λ r o p. ground arith)

-- A beat counts exactly if the worker is ready and its sequence number is above the last one: then
-- it restarts the window. Any other beat changes nothing.
pub beat_counts :
    (w : Watchdog) (sequence now : ℕ)
    → (w.ready ≡ true
        → w.last_sequence < sequence
        → ((beat sequence now w).last_progress ≡ now)
          × ((beat sequence now w).last_sequence ≡ sequence))
      × ((w.ready ≡ false) ⊎ (sequence ≤ w.last_sequence) → beat sequence now w ≡ w)
unfolding beat
beat_counts w sequence now = (λ r h. ground arith, λ h. ground arith)

-- The parent's life after READY: beats, with a sequence number and a time, and checks, in any order.
pub data Look : Type 0 where
  hears : ℕ → ℕ → Look
  look : ℕ → Look

-- The checks made one after another; `true` if one of them reports a hang.
pub watch : List Look → Watchdog → Bool
watch [] w = false
watch (hears sequence now ∷ rest) w = watch rest (beat sequence now w)
watch (look now ∷ rest) w =
    let later = watch rest (check now w).1 in elim (check now w).0 [ true ↦ true | false ↦ later ]

-- The beats are stale, their numbers being no larger than the last one; the checks are at most a
-- window apart, and the last one is more than a window after `progress`.
abbrev pub Covers : ℕ → ℕ → ℕ → ℕ → List Look → Type 0
Covers window last progress seen [] = progress + window < seen
Covers window last progress seen (hears sequence _ ∷ rest) =
    (sequence ≤ last) × Covers window last progress seen rest
Covers window last progress seen (look now ∷ rest) =
    (seen ≤ now) × (now ≤ seen + window) × Covers window last progress now rest

beat_stale :
    (w : Watchdog) (sequence now : ℕ) → sequence ≤ w.last_sequence → beat sequence now w ≡ w
unfolding beat
beat_stale w sequence now h = ground arith

-- A check in time leaves the worker's progress and its readiness alone.
check_in_time :
    (w : Watchdog) (now : ℕ)
    → w.hang_window < max_duration
    → w.ready ≡ true
    → w.last_observer ≤ now
    → now ≤ w.last_observer + w.hang_window
    → (check now w).1 ≡ record w { last_observer = now }
unfolding check
check_in_time w now fits r a b = ground arith

-- A ready worker that sends nothing but stale beats (with the last sequence number or a lower one)
-- is reported: whatever the parent's checks, if they start in time, are at most a window apart and
-- go on past the window after the last progress, one of them reports the hang. For a parent that
-- has looked before and a window below the largest duration.
pub silence_is_reported :
    (looks : List Look) (w : Watchdog)
    → 0 < w.last_observer
    → w.hang_window < max_duration
    → w.ready ≡ true
    → w.last_observer ≤ w.last_progress + w.hang_window
    → Covers w.hang_window w.last_sequence w.last_progress w.last_observer looks
    → watch looks w ≡ true
unfolding watch
silence_is_reported [] w seen fits r early c = absurd (omega arith)
silence_is_reported (hears sequence now ∷ rest) w seen fits r early c =
    rw (beat_stale w sequence now c.0) (silence_is_reported rest w seen fits r early c.1)
silence_is_reported (look now ∷ rest) w seen fits r early c = elim (Bool-cases (check now w).0) [
  | inl hit ↦ rw (hit, watch)
  | inr miss ↦
      rw (miss, watch)
        (rw (check_in_time w now fits r c.0 c.1) (
          silence_is_reported rest (record w { last_observer = now }) (omega arith) fits r
            (ground (arith, (check_iff w now seen fits).1 r c.1)) c.2))
]

-- All of it happens between two times.
abbrev pub Within : ℕ → ℕ → List Look → Type 0
Within start end [] = Unit
Within start end (hears _ now ∷ rest) = (start ≤ now) × (now ≤ end) × Within start end rest
Within start end (look now ∷ rest) = (start ≤ now) × (now ≤ end) × Within start end rest

-- The last progress is not before a time.
abbrev FreshSince : ℕ → ℕ → Watchdog → Type 0
FreshSince start window w = (start ≤ w.last_progress) × (w.hang_window ≡ window)

beat-FreshSince :
    (start window sequence now : ℕ) (w : Watchdog)
    → start ≤ now
    → FreshSince start window w
    → FreshSince start window (beat sequence now w)
unfolding beat
beat-FreshSince start window sequence now w h fresh = ground arith

check-FreshSince :
    (start window now : ℕ) (w : Watchdog)
    → start ≤ now
    → now ≤ start + window
    → FreshSince start window w
    → ((check now w).0 ≡ false) × FreshSince start window (check now w).1
unfolding check
check-FreshSince start window now w a b fresh = ground arith

-- As long as that is so, no check within the window reports a hang.
no_report :
    (looks : List Look) (w : Watchdog) (start window : ℕ)
    → FreshSince start window w
    → Within start (start + window) looks
    → watch looks w ≡ false
unfolding watch
no_report [] w start window fresh h = refl
no_report (hears sequence now ∷ rest) w start window fresh h =
    no_report rest (beat sequence now w) start window
      (beat-FreshSince start window sequence now w h.0 fresh) h.2
no_report (look now ∷ rest) w start window fresh h =
    let (miss, after) = check-FreshSince start window now w h.0 h.1 fresh in
    rw (miss, watch) (no_report rest (check now w).1 start window after h.2)

check_gap :
    (w : Watchdog) (now : ℕ)
    → 0 < w.last_observer
    → w.hang_window < max_duration
    → w.ready ≡ true
    → w.last_observer + w.hang_window < now
    → ((check now w).0 ≡ false) × FreshSince now w.hang_window (check now w).1
unfolding check
check_gap w now seen fits r gap = ground arith

unready_frame :
    (w : Watchdog) (sequence now : ℕ)
    → w.ready ≡ false
    → ((beat sequence now w).ready ≡ false)
      × ((check now w).0 ≡ false)
      × ((check now w).1.ready ≡ false)
unfolding beat check
unready_frame w sequence now r = ground arith

-- A worker that is not ready is never reported.
unready_quiet : (looks : List Look) (w : Watchdog) → w.ready ≡ false → watch looks w ≡ false
unfolding watch
unready_quiet [] w r = refl
unready_quiet (hears sequence now ∷ rest) w r =
    unready_quiet rest (beat sequence now w) (unready_frame w sequence now r).0
unready_quiet (look now ∷ rest) w r =
    let (_, miss, after) = unready_frame w 0 now r in
    rw (miss, watch) (unready_quiet rest (check now w).1 after)

-- After a gap in the parent's own checks that is longer than the window there is one whole window of
-- grace: the check that sees the gap reports no hang, and nor does any check within one window
-- after it, whatever beats and other checks come in between. For a parent that has looked before
-- and a window below the largest duration.
pub suspend_grants_grace :
    (w : Watchdog) (now : ℕ) (looks : List Look)
    → 0 < w.last_observer
    → w.hang_window < max_duration
    → w.last_observer + w.hang_window < now
    → Within now (now + w.hang_window) looks
    → watch (look now ∷ looks) w ≡ false
unfolding watch
suspend_grants_grace w now looks seen fits gap h = elim (Bool-cases w.ready) [
  | inr unready ↦ unready_quiet (look now ∷ looks) w unready
  | inl r ↦
      let (miss, fresh) = check_gap w now seen fits r gap in
      rw (watch, miss) (no_report looks (check now w).1 now w.hang_window fresh h)
]
