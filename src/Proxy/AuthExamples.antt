-- ===== src/Proxy/AuthExamples.antt =====
-- Cached transports and the authentication of clients at concrete inputs, and each theorem of these
-- modules at one of them.
use pxgo.Shared.{
  ℕ, ◌+◌, ◌≤◌, ◌<◌, String, ◌≡◌, refl, ◌⊎◌, Bool, true, false, Option, none, some, List, [], ◌∷◌,
  ◌++◌, ℤ, seconds, ltb, length, arith, if◌then◌else◌,
}
use pxgo.Shared.Text.{Text, codes, eq_text}
use pxgo.Proxy.TransportCache.{
  TransportCache, new_transport_cache, create_candidate, put_candidate, remove, clear, values,
}
use pxgo.Proxy.TransportCache.Counts.{count}
use pxgo.Proxy.TransportCache.Runs.{creates, puts, removes, clears, transports_are_owned}
use pxgo.Proxy.TransportCache.Runs as CacheRuns
use pxgo.Proxy.Digest.{
  Platform, NonceTables, DigestConfig, DigestRequest, nonce_seen, check_digest, parse_auth_params,
}
use pxgo.Proxy.Digest.Replay
use pxgo.Proxy.Der.{Bytes}
use pxgo.Proxy.Spnego.{ntlm_signature}
use pxgo.Proxy.Ntlm.{Hashes, parse_authenticate, verify_authenticate}
use pxgo.Proxy.Ntlm.Laws.{Safely, Any, InLimits, verify_authenticate-Safely}
use pxgo.Proxy.ClientAuth.{
  ClientState, basic, Setting, Request, Clients, check_methods, authenticate_client, check_ntlm,
  clear_client_authed,
}
use pxgo.Proxy.ClientAuth.Runs as AuthRuns
use pxgo.Proxy.ClientAuth.Runs.{requests, deauthenticates, PassedBefore, let_through_after_check}
use pxgo.Proxy.ClientAuth.Challenge.{carries, challenge_is_for_one_answer}

-- A cache for one transport: a second one takes its place, and is removed.
abbrev two_made : TransportCache
two_made = (create_candidate (create_candidate (new_transport_cache 1)).1).1

abbrev both_put : TransportCache
both_put = (put_candidate "b" 1 (put_candidate "a" 0 two_made).1).1

run_both_put : CacheRuns.Run (new_transport_cache 1) (remove "b" none both_put).1
unfolding create_candidate put_candidate pxgo.Proxy.TransportCache.admit
    pxgo.Proxy.TransportCache.take_out pxgo.Proxy.TransportCache.make_room count new_transport_cache
    pxgo.Shared.Dict.lookup
run_both_put =
    CacheRuns.next
      (CacheRuns.next
        (CacheRuns.next (CacheRuns.next (CacheRuns.next CacheRuns.here creates) creates)
          (puts "a" 0 (omega arith)))
        (puts "b" 1 (omega arith)))
      (removes "b" none)

abbrev toy_platform : Platform
toy_platform = record {
  md5_hex = λ _. codes "ok";
  keyed_mac_hex = λ _. codes "m";
  decode_base64 = some;
  split_host_port = λ addr. none;
  equal_fold = eq_text;
  to_lower = λ t. t;
}

abbrev toy_digest : DigestConfig
toy_digest = record { client_username = codes "u"; client_password = codes "p" }

abbrev answer_text : Text
answer_text =
    codes
      "username=\"u\", realm=\"PxClient\", nonce=\"100:s:m\", uri=\"/\", response=\"ok\", qop=auth, nc=00000001, cnonce=\"c\""

abbrev answer : DigestRequest
answer = record {
  authorization = codes "Digest " ++ answer_text;
  method = codes "GET";
  target = codes "/";
  remote_addr = codes "h";
}

abbrev answer_params : List (Text × Text)
answer_params = parse_auth_params toy_platform answer_text

abbrev no_nonces : NonceTables
no_nonces = record { counts = []; seen = []; last_prune = 0 }

transports_are_owned_example :
    (length (remove "b" none both_put).1.entries ≤ (if ltb 1 1 then 1 else 1))
    × ((id : ℕ)
        → id < (remove "b" none both_put).1.next_entry
        → count id (remove "b" none both_put).1.held
            + count id (values (remove "b" none both_put).1.entries)
            + count id (remove "b" none both_put).1.close_calls
          ≡ 1)
transports_are_owned_example = transports_are_owned 1 (remove "b" none both_put).1 run_both_put

abbrev after_answer : NonceTables
after_answer = (check_digest toy_platform toy_digest (seconds 101) answer no_nonces).1

-- Another key is looked up 20 seconds later.
abbrev later : NonceTables
later = (nonce_seen (seconds 121) (codes "other") after_answer).1

abbrev toy_hashes : Hashes
toy_hashes = record {
  hmac_md5 = λ key bytes. bytes;
  md4 = λ bytes. bytes;
  to_upper = λ t. t;
  equal_fold = eq_text;
}

-- An AUTHENTICATE message that ends behind its type.
abbrev short_authenticate : Bytes
short_authenticate = ntlm_signature ++ 3 ∷ 0 ∷ 0 ∷ 0 ∷ []

verify_authenticate-Safely_example :
    Safely InLimits (parse_authenticate short_authenticate)
    × Safely Any
        (verify_authenticate toy_hashes short_authenticate ntlm_signature (codes "u") (codes "p"))
verify_authenticate-Safely_example =
    verify_authenticate-Safely toy_hashes short_authenticate ntlm_signature (codes "u") (codes "p")

-- A server that takes basic credentials, and for the NTLM messages one that gets the short message.
abbrev toy_setting : Setting
toy_setting = record {
  methods = basic ∷ [];
  digest = toy_digest;
  platform = toy_platform;
  hashes = toy_hashes;
  decode_base64 = λ _. some (codes "u:p");
}

abbrev ntlm_setting : Setting
ntlm_setting = record toy_setting { decode_base64 = λ _. some short_authenticate }

abbrev request_with : Text → Request
request_with header = record {
  remote_addr = "h:1";
  authorization = header;
  method = codes "GET";
  target = codes "/";
  now = 0;
  random = none;
}

abbrev new_clients : Clients
new_clients = record { clients = []; nonces = no_nonces }

abbrev logged_in : Clients
logged_in = (authenticate_client toy_setting (request_with (codes "Basic x")) new_clients).1

logged_in_passes : (authenticate_client toy_setting (request_with []) logged_in).0 ≡ true
unfolding authenticate_client pxgo.Shared.Dict.lookup pxgo.Shared.Dict.insert
logged_in_passes = refl

run_logged_in : AuthRuns.Run toy_setting new_clients logged_in
run_logged_in = AuthRuns.next AuthRuns.here (requests (request_with (codes "Basic x")))

let_through_after_check_example :
    ((check_methods toy_setting toy_setting.methods (request_with []) logged_in).0 ≡ true)
    ⊎ (((request_with []).authorization ≡ []) × PassedBefore toy_setting "h:1" run_logged_in)
let_through_after_check_example =
    let_through_after_check toy_setting new_clients logged_in run_logged_in (request_with []) refl
      logged_in_passes

-- A connection with a challenge.
abbrev challenged : Clients
challenged = record new_clients {
  clients = ("h:1", record { authed = false; ntlm = ntlm_signature; ntlm_spnego = false }) ∷ [];
}

answer_carried : carries ntlm_setting 3 false (request_with (codes "NTLM x")) ≡ true
unfolding pxgo.Proxy.ClientAuth.ntlm_message pxgo.Proxy.ClientAuth.message_kind
    pxgo.Shared.Text.byte_length pxgo.Shared.Text.is_space
answer_carried = refl

abbrev answered : Clients
answered = (check_ntlm ntlm_setting false (request_with (codes "NTLM x")) challenged).1

challenge_is_for_one_answer_example :
    (check_ntlm ntlm_setting false
      (request_with (codes "NTLM x"))
      (clear_client_authed "h:1" answered)).0
    ≡ false
challenge_is_for_one_answer_example =
    challenge_is_for_one_answer ntlm_setting false false (request_with (codes "NTLM x"))
      (request_with (codes "NTLM x")) challenged (clear_client_authed "h:1" answered) answer_carried
      answer_carried refl (AuthRuns.next AuthRuns.here (deauthenticates "h:1")) (tt, tt)
