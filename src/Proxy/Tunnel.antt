-- ===== src/Proxy/Tunnel.antt =====
-- internal/proxy/tunnel.go: the count of tunnels that the server's shutdown waits for. A tunnel
-- (a pointer) is a number that is never used again, and so is a channel.
pub mod Laws
pub mod Drain
use pxgo.Shared.{
  ℕ, ◌+◌, ◌-◌, Bool, true, false, ◌&&◌, ◌||◌, Option, none, some, List, [], ◌∷◌, ◌==◌, ltb, length,
  if◌then◌else◌,
}

pub record Channel : Type 0 where
  pub id : ℕ
  pub closed : Bool

-- The fields of `Server` that tunnelMu guards, the atomic `active`, and what was closed: the
-- tunnels whose Close has run, and the count of pairs of connections that were refused.
pub record Tunnels : Type 0 where
  pub pending : ℕ
  pub zero_channel : Option Channel
  pub shutting_down : Bool
  pub tunnels : List ℕ
  pub active : ℕ
  pub closed_tunnels : List ℕ
  pub refused_pairs : ℕ
  pub next_tunnel : ℕ
  pub next_channel : ℕ

-- The fields that New sets.
unfoldable pub new_tunnels : Tunnels
new_tunnels = record {
  pending = 0;
  zero_channel = some (record { id = 0; closed = true });
  shutting_down = false;
  tunnels = [];
  active = 0;
  closed_tunnels = [];
  refused_pairs = 0;
  next_tunnel = 0;
  next_channel = 1;
}

unfoldable pub holds_tunnel : ℕ → List ℕ → Bool
holds_tunnel t [] = false
holds_tunnel t (u ∷ us) = (u == t) || holds_tunnel t us

-- delete(s.tunnels, t); the map holds a tunnel once.
unfoldable pub delete_tunnel : ℕ → List ℕ → List ℕ
delete_tunnel t [] = []
delete_tunnel t (u ∷ us) = let rest = u ∷ delete_tunnel t us in if u == t then us else rest

-- Close, of which closeOnce lets only the first do anything.
unfoldable pub close_tunnel : ℕ → Tunnels → Tunnels
unfolding holds_tunnel
close_tunnel t s =
    if holds_tunnel t s.closed_tunnels
    then s
    else record s { closed_tunnels = t ∷ s.closed_tunnels }

-- No reservation and no tunnel is left.
unfoldable pub is_idle : Tunnels → Bool
is_idle s = (s.pending == 0) && (length s.tunnels == 0)

close_channel : Option Channel → Option Channel
close_channel none = none
close_channel (some c) = some (record c { closed = true })

unfoldable pub signal_tunnel_zero : Tunnels → Tunnels
unfolding is_idle close_channel
signal_tunnel_zero s =
    if is_idle s then record s { zero_channel = close_channel s.zero_channel } else s

-- The first reservation makes a new channel.
unfoldable pub open_channel : Tunnels → Tunnels
unfolding is_idle
open_channel s =
    if is_idle s
    then record s {
      zero_channel = some (record { id = s.next_channel; closed = false });
      next_channel = s.next_channel + 1;
    }
    else s

abbrev add_reservation : Tunnels → Tunnels
add_reservation s = record s { pending = s.pending + 1 }

unfoldable pub reserve_tunnel : Tunnels → Bool × Tunnels
unfolding open_channel
reserve_tunnel s = if s.shutting_down then (false, s) else (true, add_reservation (open_channel s))

-- tunnelPending, less one if it is above zero.
unfoldable pub drop_reservation : Tunnels → Tunnels
drop_reservation s = if ltb 0 s.pending then record s { pending = s.pending - 1 } else s

unfoldable pub cancel_tunnel_reservation : Tunnels → Tunnels
unfolding drop_reservation signal_tunnel_zero
cancel_tunnel_reservation s = signal_tunnel_zero (drop_reservation s)

-- The connections are closed and no tunnel is made of them.
abbrev refuse_pair : Tunnels → Tunnels
refuse_pair s = record s { refused_pairs = s.refused_pairs + 1 }

abbrev register_tunnel : Tunnels → Tunnels
register_tunnel s = record s {
  tunnels = s.next_tunnel ∷ s.tunnels;
  next_tunnel = s.next_tunnel + 1;
  active = s.active + 1;
}

-- activateManagedTunnel; no value is a refused pair of connections.
unfoldable pub activate_tunnel : Tunnels → Option ℕ × Tunnels
unfolding drop_reservation signal_tunnel_zero
activate_tunnel s =
    if s.shutting_down
    then (none, refuse_pair (signal_tunnel_zero (drop_reservation s)))
    else (some s.next_tunnel, register_tunnel (drop_reservation s))

unfoldable pub finish_tunnel : ℕ → Tunnels → Tunnels
unfolding holds_tunnel delete_tunnel signal_tunnel_zero
finish_tunnel t s =
    if holds_tunnel t s.tunnels
    then signal_tunnel_zero
        (record s { tunnels = delete_tunnel t s.tunnels; active = s.active - 1 })
    else s

unfoldable pub close_and_finish_tunnel : ℕ → Tunnels → Tunnels
unfolding close_tunnel finish_tunnel
close_and_finish_tunnel t s = finish_tunnel t (close_tunnel t s)

unfoldable pub close_all : List ℕ → Tunnels → Tunnels
unfolding close_tunnel
close_all [] s = s
close_all (t ∷ ts) s = close_all ts (close_tunnel t s)

-- The channel to wait for. The tunnels are closed outside of the lock, which guards no field that
-- closing changes, so this is one step.
unfoldable pub begin_tunnel_shutdown : Tunnels → Option Channel × Tunnels
unfolding close_all
begin_tunnel_shutdown s = (s.zero_channel, close_all s.tunnels (record s { shutting_down = true }))

-- Whether waitTunnelDrain returns without its context: the channel is nil or closed.
unfoldable pub is_drained : Option Channel → Bool
is_drained none = true
is_drained (some c) = c.closed
