-- ===== src/Proxy/ClientAuth.antt =====
-- internal/proxy/auth_client.go: the authentication of clients, with the state that the server keeps
-- for each connection. Base64 and the folding of case are other packages, fields of `Setting`; the
-- random bytes of a challenge and the clock come with a request.
pub mod Laws
pub mod Effects
pub mod Offers
pub mod Challenge
pub mod Runs
use pxgo.Shared.{
  ℕ, zero, suc, ◌+◌, ◌*◌, ◌/◌, ◌%◌, String, Bool, true, false, not, ◌&&◌, ◌||◌, Option, none, some,
  List, [], ◌∷◌, ◌++◌, ◌==◌, ltb, leb, length, if◌then◌else◌,
}
use pxgo.Shared.Dict.{Dict, lookup, insert, delete}
use pxgo.Shared.Text.{Text, codes, eq_text, byte_length, cut, trim_space}
use pxgo.Proxy.Der.{Bytes, max_spnego_token_len}
use pxgo.Proxy.Spnego.{
  Search, found, refused, out_of_fuel, ntlm_signature, is_ntlmssp, unwrap_spnego_ntlm,
  neg_token_resp,
}
use pxgo.Proxy.Ntlm
use pxgo.Proxy.Ntlm.{Outcome, value, out_of_range, Hashes, uint32_at, verify_authenticate}
use pxgo.Proxy.Digest.{Platform, DigestConfig, DigestRequest, NonceTables, check_digest}

pub record ClientState : Type 0 where
  pub authed : Bool
  pub ntlm : Bytes
  pub ntlm_spnego : Bool

pub data AuthMethod : Type 0 where
  basic digest ntlm negotiate : AuthMethod
  unsupported : Text → AuthMethod

-- The configuration, and what other packages compute.
pub record Setting : Type 0 where
  pub methods : List AuthMethod
  pub digest : DigestConfig
  pub platform : Platform
  pub hashes : Hashes
  pub decode_base64 : Text → Option Bytes

-- A request, when it is handled, and what the random source gives then.
pub record Request : Type 0 where
  pub remote_addr : String
  pub authorization : Text
  pub method : Text
  pub target : Text
  pub now : ℕ
  pub random : Option Bytes

pub record Clients : Type 0 where
  pub clients : Dict ClientState
  pub nonces : NonceTables

abbrev pub new_client : ClientState
new_client = record { authed = false; ntlm = []; ntlm_spnego = false }

abbrev pub state_or_new : Option ClientState → ClientState
state_or_new none = new_client
state_or_new (some cs) = cs

-- clientStateFor
unfoldable pub client_state_for : String → Clients → ClientState
client_state_for addr s = state_or_new (lookup s.clients addr)

abbrev pub put_client : String → ClientState → Clients → Clients
put_client addr cs s = record s { clients = insert s.clients addr cs }

-- isClientAuthed, and the stored challenge: a connection with no entry has none.
unfoldable pub is_client_authed : String → Clients → Bool
unfolding client_state_for
is_client_authed addr s = (client_state_for addr s).authed

unfoldable pub ntlm_challenge : String → Clients → Bytes
unfolding client_state_for
ntlm_challenge addr s = (client_state_for addr s).ntlm

unfoldable pub set_client_authed : String → Clients → Clients
unfolding client_state_for
set_client_authed addr s = put_client addr (record (client_state_for addr s) { authed = true }) s

-- The state of a connection changed, if it has one.
abbrev change_client : (ClientState → ClientState) → String → Option ClientState → Clients → Clients
change_client change addr none s = s
change_client change addr (some cs) s = put_client addr (change cs) s

unfoldable pub clear_client_authed : String → Clients → Clients
clear_client_authed addr s =
    change_client (λ cs. record cs { authed = false }) addr (lookup s.clients addr) s

unfoldable pub clear_client_state : String → Clients → Clients
clear_client_state addr s = record s { clients = delete s.clients addr }

unfoldable pub set_ntlm_challenge : String → Bytes → Bool → Clients → Clients
unfolding client_state_for
set_ntlm_challenge addr challenge uses_spnego s =
    put_client addr
      (record (client_state_for addr s) { ntlm = challenge; ntlm_spnego = uses_spnego }) s

unfoldable pub clear_ntlm_challenge : String → Clients → Clients
clear_ntlm_challenge addr s =
    change_client (λ cs. record cs { ntlm = []; ntlm_spnego = false }) addr (lookup s.clients addr)
      s

-- newNTLMChallenge, from eight random bytes.
unfoldable pub new_ntlm_challenge : Bytes → Bytes
new_ntlm_challenge random =
    ntlm_signature
    ++ (2 ∷ 0 ∷ 0 ∷ 0 ∷ [])
    ++ (0 ∷ 0 ∷ 0 ∷ 0 ∷ 0 ∷ 0 ∷ 0 ∷ 0 ∷ [])
    ++ (1 ∷ 130 ∷ 136 ∷ 160 ∷ [])
    ++ random
    ++ (0 ∷ 0 ∷ 0 ∷ 0 ∷ 0 ∷ 0 ∷ 0 ∷ 0 ∷ 0 ∷ 0 ∷ 0 ∷ 0 ∷ 0 ∷ 0 ∷ 0 ∷ 0 ∷ [])

-- The scheme of a header, and what follows it, if the scheme is the one.
unfoldable pub token_of_scheme : Setting → Text → Text → Option Text
unfolding cut trim_space
token_of_scheme set scheme header = elim (cut 32 header) [
  | none ↦ none
  | some (given, token) ↦
      if set.platform.equal_fold given scheme then some (trim_space token) else none
]

-- checkBasicClientAuth
abbrev is_empty : Text → Bool
is_empty [] = true
is_empty (_ ∷ _) = false

unfoldable pub check_basic : Setting → Request → Bool
unfolding token_of_scheme cut
check_basic set r = elim (token_of_scheme set (codes "Basic") r.authorization) [
  | none ↦ false
  | some token ↦ elim (set.decode_base64 token) [
    | none ↦ false
    | some raw ↦ elim (cut 58 raw) [
      | none ↦ false
      | some (user, pass) ↦
          (is_empty set.digest.client_username || eq_text user set.digest.client_username)
          && eq_text pass set.digest.client_password
    ]
  ]
]

-- The NTLM message of a header and whether it came in SPNEGO.
unfoldable pub unwrap_message : Bool → Bytes → Option (Bytes × Bool)
unfolding is_ntlmssp unwrap_spnego_ntlm
unwrap_message is_negotiate raw =
    if is_negotiate && not (is_ntlmssp raw)
    then elim (unwrap_spnego_ntlm raw) [
      | found message ↦ if is_ntlmssp message then some (message, true) else none
      | refused ↦ none
      | out_of_fuel ↦ none
    ]
    else if is_ntlmssp raw
    then some (raw, false)
    else none

unfoldable pub ntlm_message : Setting → Bool → Text → Option (Bytes × Bool)
unfolding token_of_scheme unwrap_message
ntlm_message set is_negotiate header =
    elim (token_of_scheme set (if is_negotiate then codes "Negotiate" else codes "NTLM") header) [
      | none ↦ none
      | some token ↦
          if ltb 21848 (byte_length token) then none else elim (set.decode_base64 token) [
            | none ↦ none
            | some raw ↦
                if ltb max_spnego_token_len (length raw)
                then none
                else unwrap_message is_negotiate raw
          ]
    ]

-- binary.LittleEndian.Uint32(raw[8:12]); a message of NTLM has these bytes.
unfoldable pub message_kind : Bytes → ℕ
unfolding uint32_at
message_kind message = elim (uint32_at message 8) [
  | value kind ↦ kind
  | Ntlm.refused ↦ 0
  | out_of_range ↦ 0
]

abbrev pub succeeds : Outcome Bool → Bool
succeeds (value b) = b
succeeds Ntlm.refused = false
succeeds out_of_range = false

-- A NEGOTIATE message asks for a challenge, and is no success.
unfoldable pub on_negotiate : Request → Bool → Clients → Clients
unfolding set_ntlm_challenge new_ntlm_challenge
on_negotiate r uses_spnego s = elim r.random [
  | none ↦ s
  | some random ↦ set_ntlm_challenge r.remote_addr (new_ntlm_challenge random) uses_spnego s
]

-- An AUTHENTICATE message answers the challenge, which is gone then.
unfoldable pub on_authenticate : Setting → Request → Bytes → Clients → Bool × Clients
unfolding ntlm_challenge clear_ntlm_challenge verify_authenticate
on_authenticate set r message s =
    let challenge = ntlm_challenge r.remote_addr s in
    if length challenge == 0 then (false, s) else (
      succeeds (
          verify_authenticate set.hashes message challenge set.digest.client_username
            set.digest.client_password),
      clear_ntlm_challenge r.remote_addr s,
    )

-- checkNTLMClientAuth
unfoldable pub check_ntlm : Setting → Bool → Request → Clients → Bool × Clients
unfolding ntlm_message on_negotiate on_authenticate message_kind
check_ntlm set is_negotiate r s = elim (ntlm_message set is_negotiate r.authorization) [
  | none ↦ (false, s)
  | some (message, uses_spnego) ↦
      if message_kind message == 1
      then (false, on_negotiate r uses_spnego s)
      else if message_kind message == 3
      then on_authenticate set r message s
      else (false, s)
]

unfoldable pub check_digest_client : Setting → Request → Clients → Bool × Clients
unfolding check_digest
check_digest_client set r s =
    let request : DigestRequest = record {
      authorization = r.authorization;
      method = r.method;
      target = r.target;
      remote_addr = codes r.remote_addr;
    } in
    let (ok, nonces) = check_digest set.platform set.digest r.now request s.nonces in
    (ok, record s { nonces = nonces })

unfoldable pub check_method : Setting → AuthMethod → Request → Clients → Bool × Clients
unfolding check_basic check_digest_client check_ntlm
check_method set basic r s = (check_basic set r, s)
check_method set digest r s = check_digest_client set r s
check_method set ntlm r s = check_ntlm set false r s
check_method set negotiate r s = check_ntlm set true r s
check_method set (unsupported _) r s = (false, s)

-- checkClientAuth
unfoldable pub check_methods : Setting → List AuthMethod → Request → Clients → Bool × Clients
unfolding check_method
check_methods set [] r s = (false, s)
check_methods set (m ∷ ms) r s =
    let (ok, s') = check_method set m r s in
    let rest = check_methods set ms r s' in if ok then (true, s') else rest

-- authenticateClient
unfoldable pub authenticate_client : Setting → Request → Clients → Bool × Clients
unfolding is_client_authed check_methods set_client_authed
authenticate_client set r s =
    let (ok, s') = check_methods set set.methods r s in
    if is_empty r.authorization && is_client_authed r.remote_addr s
    then (true, s)
    else if ok
    then (true, set_client_authed r.remote_addr s')
    else (false, s')
