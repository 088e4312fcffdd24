-- ===== src/Proxy/Tunnel/Laws.antt =====
-- What Proxy/Tunnel.antt promises, in every order in which threads enter its locked sections.
use pxgo.Shared.{
  ℕ, suc, ◌+◌, ◌-◌, ◌<◌, ◌≡◌, ◌⊎◌, inl, inr, refl, sym, ap, ◌∙◌, Bool, true, false, ◌||◌, Option,
  none, some, List, [], ◌∷◌, ◌==◌, ltb, Bool-cases, if_both, length, arith, if◌then◌else◌,
}
use pxgo.Proxy.Tunnel.{
  Channel, Tunnels, holds_tunnel, delete_tunnel, close_tunnel, is_idle, close_channel,
  signal_tunnel_zero, open_channel, reserve_tunnel, drop_reservation, cancel_tunnel_reservation,
  activate_tunnel, finish_tunnel, close_and_finish_tunnel, close_all, begin_tunnel_shutdown,
  is_drained,
}

-- What a thread may do. Only the holder of a reservation activates a tunnel.
pub data Step (s : Tunnels) : Tunnels → Type 0 where
  reserves : Step s (reserve_tunnel s).1
  cancels : Step s (cancel_tunnel_reservation s)
  activates : 0 < s.pending → Step s (activate_tunnel s).1
  finishes : (t : ℕ) → Step s (finish_tunnel t s)
  closes : (t : ℕ) → Step s (close_tunnel t s)
  closes_and_finishes : (t : ℕ) → Step s (close_and_finish_tunnel t s)
  shuts_down : Step s (begin_tunnel_shutdown s).1

pub data Run (s : Tunnels) : Tunnels → Type 0 where
  here : Run s s
  next : {t u : Tunnels} → Run s t → Step t u → Run s u

-- The channel is closed exactly if nothing is left, and `active` counts the tunnels.
pub record IsSound (s : Tunnels) : Type 0 where
  pub signalled : is_drained s.zero_channel ≡ is_idle s
  pub counted : s.active ≡ length s.tunnels

pub length-delete_tunnel :
    (t : ℕ) (ts : List ℕ) → holds_tunnel t ts ≡ true → suc (length (delete_tunnel t ts)) ≡ length ts
unfolding holds_tunnel delete_tunnel
length-delete_tunnel t [] h = absurd (ground arith)
length-delete_tunnel t (u ∷ us) h = by_head (u == t) h (length-delete_tunnel t us)
  where
    by_head :
        (b : Bool)
        → (b || holds_tunnel t us) ≡ true
        → (holds_tunnel t us ≡ true → suc (length (delete_tunnel t us)) ≡ length us)
        → suc (length (if b then us else u ∷ delete_tunnel t us)) ≡ suc (length us)
    by_head true h shorter = refl
    by_head false h shorter = ap suc (shorter h)

is_drained-close : (c : Option Channel) → is_drained (close_channel c) ≡ true
unfolding is_drained close_channel
is_drained-close none = refl
is_drained-close (some c) = refl

-- The signal is right after it, if it was not given too early.
signal-IsSound :
    (s : Tunnels)
    → (is_idle s ≡ false → is_drained s.zero_channel ≡ false)
    → s.active ≡ length s.tunnels
    → IsSound (signal_tunnel_zero s)
unfolding signal_tunnel_zero is_idle
signal-IsSound s early count = by_idle (is_idle s) refl
  where
    by_idle :
        (b : Bool)
        → is_idle s ≡ b
        → IsSound (if b then record s { zero_channel = close_channel s.zero_channel } else s)
    by_idle true e = record { signalled = is_drained-close s.zero_channel ∙ sym e; counted = count }
    by_idle false e = record { signalled = early e ∙ sym e; counted = count }

-- Something is left before a thread gives up a reservation or a tunnel.
busy :
    (s : Tunnels) → IsSound s → 0 < s.pending + length s.tunnels → is_drained s.zero_channel ≡ false
unfolding is_idle
busy s sound h = sound.signalled ∙ ground arith

cancel-IsSound : (s : Tunnels) → IsSound s → IsSound (cancel_tunnel_reservation s)
unfolding cancel_tunnel_reservation drop_reservation is_idle
cancel-IsSound s sound = by_pending (Bool-cases (ltb 0 s.pending))
  where
    by_pending :
        (ltb 0 s.pending ≡ true) ⊎ (ltb 0 s.pending ≡ false)
        → IsSound (signal_tunnel_zero (drop_reservation s))
    by_pending (inl e) =
        rw (drop_reservation, e)
          (signal-IsSound (record s { pending = s.pending - 1 }) (λ _. busy s sound (ground arith))
            sound.counted)
    by_pending (inr e) =
        rw (drop_reservation, e) (signal-IsSound s (λ i. sound.signalled ∙ i) sound.counted)

open_channel-open : (s : Tunnels) → IsSound s → is_drained (open_channel s).zero_channel ≡ false
unfolding open_channel is_drained
open_channel-open s sound = by_idle (is_idle s) refl
  where
    by_idle :
        (b : Bool)
        → is_idle s ≡ b
        → is_drained
            (if b
              then record s {
                zero_channel = some (record { id = s.next_channel; closed = false });
                next_channel = s.next_channel + 1;
              }
              else s).zero_channel
          ≡ false
    by_idle true e = refl
    by_idle false e = sound.signalled ∙ e

-- What a reservation leaves as it is.
open_channel-kept :
    (s : Tunnels)
    → ((open_channel s).tunnels ≡ s.tunnels)
      × ((open_channel s).active ≡ s.active)
      × ((open_channel s).pending ≡ s.pending)
unfolding open_channel
open_channel-kept s =
    if_both
      (λ (t : Tunnels). (t.tunnels ≡ s.tunnels) × (t.active ≡ s.active) × (t.pending ≡ s.pending))
      (is_idle s) _ _ (refl, refl, refl) (refl, refl, refl)

reserve-IsSound : (s : Tunnels) → IsSound s → IsSound (reserve_tunnel s).1
unfolding reserve_tunnel is_idle
reserve-IsSound s sound =
    let kept = open_channel-kept s in
    if_both (λ (r : Bool × Tunnels). IsSound r.1) s.shutting_down _ _ sound
      (record {
        signalled = open_channel-open s sound ∙ ground arith;
        counted = kept.1 ∙ sound.counted ∙ ap length (sym kept.0);
      })

finish-IsSound : (t : ℕ) (s : Tunnels) → IsSound s → IsSound (finish_tunnel t s)
unfolding finish_tunnel
finish-IsSound t s sound = by_holds (holds_tunnel t s.tunnels) refl
  where
    by_holds :
        (b : Bool)
        → holds_tunnel t s.tunnels ≡ b
        → IsSound (
            if b
            then signal_tunnel_zero
                (record s { tunnels = delete_tunnel t s.tunnels; active = s.active - 1 })
            else s)
    by_holds true e =
        let shorter = length-delete_tunnel t s.tunnels e in
        signal-IsSound (record s { tunnels = delete_tunnel t s.tunnels; active = s.active - 1 })
          (λ _. busy s sound (omega (arith, shorter))) (omega (arith, shorter, sound.counted))
    by_holds false e = sound

close_tunnel-IsSound : (t : ℕ) (s : Tunnels) → IsSound s → IsSound (close_tunnel t s)
unfolding close_tunnel is_idle
close_tunnel-IsSound t s sound =
    if_both IsSound (holds_tunnel t s.closed_tunnels) _ _ sound
      (record { signalled = sound.signalled; counted = sound.counted })

close_all-IsSound : (ts : List ℕ) (s : Tunnels) → IsSound s → IsSound (close_all ts s)
unfolding close_all
close_all-IsSound [] s sound = sound
close_all-IsSound (t ∷ ts) s sound =
    close_all-IsSound ts (close_tunnel t s) (close_tunnel-IsSound t s sound)

shutdown-IsSound : (s : Tunnels) → IsSound s → IsSound (begin_tunnel_shutdown s).1
unfolding begin_tunnel_shutdown is_idle
shutdown-IsSound s sound =
    close_all-IsSound s.tunnels (record s { shutting_down = true })
      (record { signalled = sound.signalled; counted = sound.counted })

-- A tunnel takes the place of a reservation.
drop_reservation-eq :
    (s : Tunnels) → 0 < s.pending → drop_reservation s ≡ record s { pending = s.pending - 1 }
unfolding drop_reservation
drop_reservation-eq s h = ground arith

activate-IsSound : (s : Tunnels) → IsSound s → 0 < s.pending → IsSound (activate_tunnel s).1
unfolding activate_tunnel is_idle cancel_tunnel_reservation
activate-IsSound s sound h =
    let cancelled = cancel-IsSound s sound in
    if_both (λ (r : Option ℕ × Tunnels). IsSound r.1) s.shutting_down _ _
      (record { signalled = cancelled.signalled; counted = cancelled.counted })
      (rw (drop_reservation-eq s h) (record {
        signalled = busy s sound (omega (arith, h)) ∙ ground arith;
        counted = omega (arith, sound.counted);
      }))

Step-IsSound : (s t : Tunnels) → IsSound s → Step s t → IsSound t
unfolding close_and_finish_tunnel
Step-IsSound s _ sound reserves = reserve-IsSound s sound
Step-IsSound s _ sound cancels = cancel-IsSound s sound
Step-IsSound s _ sound (activates h) = activate-IsSound s sound h
Step-IsSound s _ sound (finishes t) = finish-IsSound t s sound
Step-IsSound s _ sound (closes t) = close_tunnel-IsSound t s sound
Step-IsSound s _ sound (closes_and_finishes t) =
    finish-IsSound t (close_tunnel t s) (close_tunnel-IsSound t s sound)
Step-IsSound s _ sound shuts_down = shutdown-IsSound s sound

pub Run-IsSound : (s t : Tunnels) → IsSound s → Run s t → IsSound t
Run-IsSound s _ sound here = sound
Run-IsSound s u sound (next {t} run step) = Step-IsSound t u (Run-IsSound s t sound run) step
