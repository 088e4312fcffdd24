-- ===== src/Proxy/Tunnel/Drain.antt =====
-- Proxy/Tunnel.antt once the server shuts down: the drain that Shutdown waits for.
use pxgo.Shared.{
  ℕ, ◌-◌, ◌≤◌, ◌≡◌, refl, ◌∙◌, Bool, true, false, Option, none, some, List, [], ◌∷◌, ltb, if_both,
  length, arith, if◌then◌else◌,
}
use pxgo.Proxy.Tunnel.{
  Channel, Tunnels, new_tunnels, holds_tunnel, delete_tunnel, close_tunnel, is_idle, close_channel,
  signal_tunnel_zero, reserve_tunnel, drop_reservation, cancel_tunnel_reservation, activate_tunnel,
  finish_tunnel, close_and_finish_tunnel, close_all, begin_tunnel_shutdown, is_drained,
}
use pxgo.Proxy.Tunnel.Laws.{
  Step, Run, IsSound, Run-IsSound, length-delete_tunnel, reserves, cancels, activates, finishes,
  closes, closes_and_finishes, shuts_down, here, next,
}

-- What is left once the server shuts down: no more reservations and tunnels than `old` had, none of
-- them new, and the channel that the shutdown waits for.
unfoldable pub channel_id : Option Channel → Option ℕ
channel_id none = none
channel_id (some c) = some c.id

pub record IsDraining (awaited : Option ℕ) (old : Tunnels) (s : Tunnels) : Type 0 where
  pub stopped : s.shutting_down ≡ true
  pub same_channel : channel_id s.zero_channel ≡ awaited
  pub fewer_pending : s.pending ≤ old.pending
  pub fewer_tunnels : length s.tunnels ≤ length old.tunnels
  pub none_new : s.next_tunnel ≡ old.next_tunnel

channel_id-close : (c : Option Channel) → channel_id (close_channel c) ≡ channel_id c
unfolding channel_id close_channel
channel_id-close none = refl
channel_id-close (some c) = refl

signal-IsDraining :
    (awaited : Option ℕ) (old s : Tunnels)
    → IsDraining awaited old s
    → IsDraining awaited old (signal_tunnel_zero s)
unfolding signal_tunnel_zero
signal-IsDraining awaited old s d =
    if_both (IsDraining awaited old) (is_idle s) _ _
      (record {
        stopped = d.stopped;
        same_channel = channel_id-close s.zero_channel ∙ d.same_channel;
        fewer_pending = d.fewer_pending;
        fewer_tunnels = d.fewer_tunnels;
        none_new = d.none_new;
      })
      d

drop-IsDraining :
    (awaited : Option ℕ) (old s : Tunnels)
    → IsDraining awaited old s
    → IsDraining awaited old (drop_reservation s)
unfolding drop_reservation
drop-IsDraining awaited old s d =
    if_both (IsDraining awaited old) (ltb 0 s.pending) _ _
      (record {
        stopped = d.stopped;
        same_channel = d.same_channel;
        fewer_pending = omega (arith, d.fewer_pending);
        fewer_tunnels = d.fewer_tunnels;
        none_new = d.none_new;
      })
      d

finish-IsDraining :
    (awaited : Option ℕ) (old : Tunnels) (t : ℕ) (s : Tunnels)
    → IsDraining awaited old s
    → IsDraining awaited old (finish_tunnel t s)
unfolding finish_tunnel
finish-IsDraining awaited old t s d = by_holds (holds_tunnel t s.tunnels) refl
  where
    by_holds :
        (b : Bool)
        → holds_tunnel t s.tunnels ≡ b
        → IsDraining awaited old (
            if b
            then signal_tunnel_zero
                (record s { tunnels = delete_tunnel t s.tunnels; active = s.active - 1 })
            else s)
    by_holds true e =
        let shorter = length-delete_tunnel t s.tunnels e in
        signal-IsDraining awaited old
          (record s { tunnels = delete_tunnel t s.tunnels; active = s.active - 1 })
          (record {
            stopped = d.stopped;
            same_channel = d.same_channel;
            fewer_pending = d.fewer_pending;
            fewer_tunnels = omega (arith, shorter, d.fewer_tunnels);
            none_new = d.none_new;
          })
    by_holds false e = d

close-IsDraining :
    (awaited : Option ℕ) (old : Tunnels) (t : ℕ) (s : Tunnels)
    → IsDraining awaited old s
    → IsDraining awaited old (close_tunnel t s)
unfolding close_tunnel
close-IsDraining awaited old t s d =
    if_both (IsDraining awaited old) (holds_tunnel t s.closed_tunnels) _ _ d (record {
      stopped = d.stopped;
      same_channel = d.same_channel;
      fewer_pending = d.fewer_pending;
      fewer_tunnels = d.fewer_tunnels;
      none_new = d.none_new;
    })

close_all-IsDraining :
    (awaited : Option ℕ) (old : Tunnels) (ts : List ℕ) (s : Tunnels)
    → IsDraining awaited old s
    → IsDraining awaited old (close_all ts s)
unfolding close_all
close_all-IsDraining awaited old [] s d = d
close_all-IsDraining awaited old (t ∷ ts) s d =
    close_all-IsDraining awaited old ts (close_tunnel t s) (close-IsDraining awaited old t s d)

-- What holds of the branch that is taken.
if_true :
    {A : Type 0} (Holds : A → Type 0) (b : Bool) (x y : A)
    → b ≡ true
    → Holds x
    → Holds (if b then x else y)
if_true Holds true x y e h = h
if_true Holds false x y e h = absurd (ground (arith, e))

activate-IsDraining :
    (awaited : Option ℕ) (old s : Tunnels)
    → IsDraining awaited old s
    → IsDraining awaited old (activate_tunnel s).1
unfolding activate_tunnel
activate-IsDraining awaited old s d =
    if_true (λ (r : Option ℕ × Tunnels). IsDraining awaited old r.1) s.shutting_down _ _ d.stopped
      (record {
        stopped = signalled.stopped;
        same_channel = signalled.same_channel;
        fewer_pending = signalled.fewer_pending;
        fewer_tunnels = signalled.fewer_tunnels;
        none_new = signalled.none_new;
      })
  where
    signalled : IsDraining awaited old (signal_tunnel_zero (drop_reservation s))
    signalled = signal-IsDraining awaited old (drop_reservation s) (drop-IsDraining awaited old s d)

-- After the shutdown, no step adds anything or takes another channel.
Step-IsDraining :
    (awaited : Option ℕ) (old s t : Tunnels)
    → IsDraining awaited old s
    → Step s t
    → IsDraining awaited old t
unfolding reserve_tunnel cancel_tunnel_reservation activate_tunnel close_and_finish_tunnel
    begin_tunnel_shutdown
Step-IsDraining awaited old s _ d reserves =
    rw (reserve_tunnel, d.stopped)
      (record {
        stopped = refl;
        same_channel = d.same_channel;
        fewer_pending = d.fewer_pending;
        fewer_tunnels = d.fewer_tunnels;
        none_new = d.none_new;
      })
Step-IsDraining awaited old s _ d cancels =
    signal-IsDraining awaited old (drop_reservation s) (drop-IsDraining awaited old s d)
Step-IsDraining awaited old s _ d (activates h) = activate-IsDraining awaited old s d
Step-IsDraining awaited old s _ d (finishes t) = finish-IsDraining awaited old t s d
Step-IsDraining awaited old s _ d (closes t) = close-IsDraining awaited old t s d
Step-IsDraining awaited old s _ d (closes_and_finishes t) =
    finish-IsDraining awaited old t (close_tunnel t s) (close-IsDraining awaited old t s d)
Step-IsDraining awaited old s _ d shuts_down =
    close_all-IsDraining awaited old s.tunnels (record s { shutting_down = true })
      (record {
        stopped = refl;
        same_channel = d.same_channel;
        fewer_pending = d.fewer_pending;
        fewer_tunnels = d.fewer_tunnels;
        none_new = d.none_new;
      })

Run-IsDraining :
    (awaited : Option ℕ) (old s t : Tunnels)
    → IsDraining awaited old s
    → Run s t
    → IsDraining awaited old t
Run-IsDraining awaited old s _ d here = d
Run-IsDraining awaited old s u d (next {t} run step) =
    Step-IsDraining awaited old t u (Run-IsDraining awaited old s t d run) step

new_tunnels-IsSound : IsSound new_tunnels
unfolding new_tunnels is_idle is_drained
new_tunnels-IsSound = record { signalled = refl; counted = refl }

-- In every interleaving after the start of the server, once it shuts down no tunnel is made and no
-- reservation is given: there are never more of either, a reservation that is left becomes no
-- tunnel, and the channel that the shutdown waits for stays the current one and is closed exactly
-- while no reservation and no tunnel is left.
pub shutdown_drains :
    (s t : Tunnels)
    → Run new_tunnels s
    → Run (begin_tunnel_shutdown s).1 t
    → (channel_id t.zero_channel ≡ channel_id (begin_tunnel_shutdown s).0)
      × (is_drained t.zero_channel ≡ is_idle t)
      × (t.pending ≤ s.pending)
      × (length t.tunnels ≤ length s.tunnels)
      × (t.next_tunnel ≡ s.next_tunnel)
      × ((reserve_tunnel t).0 ≡ false)
      × ((activate_tunnel t).0 ≡ none)
unfolding begin_tunnel_shutdown reserve_tunnel activate_tunnel
shutdown_drains s t before after = (
  draining.same_channel,
  sound.signalled,
  draining.fewer_pending,
  draining.fewer_tunnels,
  draining.none_new,
  rw draining.stopped refl,
  rw draining.stopped refl,
)
  where
    draining : IsDraining (channel_id s.zero_channel) s t
    draining =
        Run-IsDraining (channel_id s.zero_channel) s (begin_tunnel_shutdown s).1 t
          (close_all-IsDraining (channel_id s.zero_channel) s s.tunnels
            (record s { shutting_down = true })
            (record {
              stopped = refl;
              same_channel = refl;
              fewer_pending = omega arith;
              fewer_tunnels = omega arith;
              none_new = refl;
            }))
          after

    sound : IsSound t
    sound =
        Run-IsSound (begin_tunnel_shutdown s).1 t
          (Run-IsSound s (begin_tunnel_shutdown s).1
            (Run-IsSound new_tunnels s new_tunnels-IsSound before) (next here shuts_down))
          after
