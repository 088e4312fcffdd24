-- ===== src/Proxy/Examples.antt =====
-- Tokens and tunnels at concrete inputs, and each theorem of these modules at one of them.
use pxgo.Shared.{◌≤◌, ◌≡◌, refl, true, false, none, [], ◌∷◌, length, arith}
use pxgo.Proxy.Der.{Bytes, read_tlv, der_tlv}
use pxgo.Proxy.Spnego.{
  found, refused, ntlm, is_ntlmssp, unwrap_spnego_ntlm, neg_token_init, neg_token_resp,
  selected_spnego_mechanism,
}
use pxgo.Proxy.Spnego.Laws.{Ends, IsNtlm, unwrap_spnego_ntlm-Ends}
use pxgo.Proxy.Spnego.RoundTrip.{unwrap_spnego_ntlm-round_trip, only_resp_selects}
use pxgo.Proxy.Tunnel.{
  Tunnels, new_tunnels, reserve_tunnel, activate_tunnel, finish_tunnel, begin_tunnel_shutdown,
  is_drained, is_idle,
}
use pxgo.Proxy.Tunnel.Laws.{Run, here, next, reserves, activates, finishes}
use pxgo.Proxy.Tunnel.Drain.{channel_id, shutdown_drains}

-- An NTLM negotiate message: the signature, the type and the flags.
abbrev negotiate_message : Bytes
negotiate_message = 78 ∷ 84 ∷ 76 ∷ 77 ∷ 83 ∷ 83 ∷ 80 ∷ 0 ∷ 1 ∷ 0 ∷ 0 ∷ 0 ∷ 7 ∷ 130 ∷ 8 ∷ 162 ∷ []

negotiate_message_ntlm : is_ntlmssp negotiate_message ≡ true
unfolding is_ntlmssp pxgo.Proxy.Der.same_bytes
negotiate_message_ntlm = refl

negotiate_message_short : length negotiate_message ≤ 16000
negotiate_message_short = omega arith

unwrap_spnego_ntlm-round_trip_example :
    (unwrap_spnego_ntlm (neg_token_init negotiate_message) ≡ found negotiate_message)
    × (unwrap_spnego_ntlm (neg_token_resp negotiate_message) ≡ found negotiate_message)
unwrap_spnego_ntlm-round_trip_example =
    unwrap_spnego_ntlm-round_trip negotiate_message negotiate_message_ntlm negotiate_message_short

only_resp_selects_example :
    (selected_spnego_mechanism (neg_token_resp negotiate_message) ≡ found ntlm)
    × (selected_spnego_mechanism (neg_token_init negotiate_message) ≡ refused)
only_resp_selects_example =
    only_resp_selects negotiate_message negotiate_message_ntlm negotiate_message_short

unwrap_spnego_ntlm-Ends_example :
    Ends IsNtlm (unwrap_spnego_ntlm (neg_token_resp negotiate_message))
unwrap_spnego_ntlm-Ends_example = unwrap_spnego_ntlm-Ends (neg_token_resp negotiate_message)

-- A length of 300 takes two bytes.
long_length : read_tlv (4 ∷ 130 ∷ 1 ∷ 44 ∷ []) ≡ none
unfolding read_tlv pxgo.Proxy.Der.read_long pxgo.Proxy.Der.split_content pxgo.Proxy.Der.big_endian
long_length = refl

-- One tunnel is open when the server shuts down, and ends.
abbrev reserved : Tunnels
reserved = (reserve_tunnel new_tunnels).1

abbrev opened : Tunnels
opened = (activate_tunnel reserved).1

abbrev stopped : Tunnels
stopped = (begin_tunnel_shutdown opened).1

run_opened : Run new_tunnels opened
unfolding new_tunnels reserve_tunnel pxgo.Proxy.Tunnel.open_channel pxgo.Proxy.Tunnel.is_idle
run_opened = next (next here reserves) (activates (omega arith))

shutdown_drains_example :
    (channel_id (finish_tunnel 0 stopped).zero_channel
      ≡ channel_id (begin_tunnel_shutdown opened).0)
    × (is_drained (finish_tunnel 0 stopped).zero_channel ≡ is_idle (finish_tunnel 0 stopped))
    × ((finish_tunnel 0 stopped).pending ≤ opened.pending)
    × (length (finish_tunnel 0 stopped).tunnels ≤ length opened.tunnels)
    × ((finish_tunnel 0 stopped).next_tunnel ≡ opened.next_tunnel)
    × ((reserve_tunnel (finish_tunnel 0 stopped)).0 ≡ false)
    × ((activate_tunnel (finish_tunnel 0 stopped)).0 ≡ none)
shutdown_drains_example =
    shutdown_drains opened (finish_tunnel 0 stopped) run_opened (next here (finishes 0))
