-- ===== src/Proxy/Spnego.antt =====
-- SPNEGO tokens: internal/proxy/auth_client.go (wrapping and unwrapping NTLM messages) and
-- internal/proxy/auth_mechanism.go (which mechanism the server selected).
pub mod Laws
pub mod Fields
pub mod RoundTrip
use pxgo.Shared.{
  ℕ, zero, suc, Bool, true, false, not, ◌&&◌, ◌||◌, Option, none, some, List, [], ◌∷◌, ◌++◌, ◌==◌,
  leb, length, take, if◌then◌else◌,
}
use pxgo.Proxy.Der.{Bytes, Tlv, read_tlv, der_tlv, same_bytes}

-- "NTLMSSP\x00"
abbrev pub ntlm_signature : Bytes
ntlm_signature = 78 ∷ 84 ∷ 76 ∷ 77 ∷ 83 ∷ 83 ∷ 80 ∷ 0 ∷ []

abbrev pub spnego_oid : Bytes
spnego_oid = 43 ∷ 6 ∷ 1 ∷ 5 ∷ 5 ∷ 2 ∷ []

abbrev pub ntlm_oid : Bytes
ntlm_oid = 43 ∷ 6 ∷ 1 ∷ 4 ∷ 1 ∷ 130 ∷ 55 ∷ 2 ∷ 2 ∷ 10 ∷ []

abbrev pub kerberos_oid : Bytes
kerberos_oid = 42 ∷ 134 ∷ 72 ∷ 134 ∷ 247 ∷ 18 ∷ 1 ∷ 2 ∷ 2 ∷ []

unfoldable pub is_ntlmssp : Bytes → Bool
unfolding same_bytes
is_ntlmssp token = leb 12 (length token) && same_bytes (take 8 token) ntlm_signature

-- A value with nothing behind it.
unfoldable pub read_only_tlv : Bytes → Option Tlv
read_only_tlv bytes = elim (read_tlv bytes) [
  | none ↦ none
  | some t ↦ elim t.rest [ [] ↦ some t | _ ∷ _ ↦ none ]
]

-- The token behind the outer wrapper of a NegTokenInit, the token itself if it has none; no value
-- for a wrapper that is not of SPNEGO.
unfoldable pub strip_wrapper : Bytes → Option Bytes
strip_wrapper token = elim (read_only_tlv token) [
  | none ↦ some token
  | some outer ↦
      if outer.tag == 96
      then elim (read_tlv outer.content) [
        | none ↦ none
        | some oid ↦
            if (oid.tag == 6) && same_bytes oid.content spnego_oid then some oid.rest else none
      ]
      else some token
]

-- How the two loops over the fields of a sequence end; the last is a loop that is cut short.
pub data Search (A : Type 0) : Type 0 where
  found : A → Search A
  refused : Search A
  out_of_fuel : Search A

-- The content of the sequence inside a token.
unfoldable pub read_sequence : Tlv → Option Bytes
read_sequence t = elim (read_only_tlv t.content) [
  | none ↦ none
  | some seq ↦ if seq.tag == 48 then some seq.content else none
]

-- The mechToken or responseToken of field 2.
unfoldable pub ntlm_octets : Bytes → Search Bytes
ntlm_octets content = elim (read_only_tlv content) [
  | none ↦ refused
  | some octets ↦
      if (octets.tag == 4) && is_ntlmssp octets.content then found octets.content else refused
]

-- One round of the loop of findSPNEGONTLMToken; `more` is the loop on what follows.
unfoldable pub find_field : Tlv → Search Bytes → Search Bytes
find_field field more =
    let octets = ntlm_octets field.content in if field.tag == 162 then octets else more

unfoldable pub find_spnego_ntlm : ℕ → Bytes → Search Bytes
find_spnego_ntlm fuel [] = refused
find_spnego_ntlm zero (b ∷ seq) = out_of_fuel
find_spnego_ntlm (suc fuel) (b ∷ seq) = elim (read_tlv (b ∷ seq)) [
  | none ↦ refused
  | some field ↦ find_field field (find_spnego_ntlm fuel field.rest)
]

-- The fuel is the length of the sequence.
unfoldable pub find_in_token : Tlv → Search Bytes
unfolding find_spnego_ntlm
find_in_token t =
    if (t.tag == 160) || (t.tag == 161)
    then elim (read_sequence t) [ none ↦ refused | some seq ↦ find_spnego_ntlm (length seq) seq ]
    else refused

unfoldable pub unwrap_spnego_ntlm : Bytes → Search Bytes
unwrap_spnego_ntlm token = if is_ntlmssp token then found token else elim (strip_wrapper token) [
  | none ↦ refused
  | some stripped ↦ elim (read_only_tlv stripped) [ none ↦ refused | some t ↦ find_in_token t ]
]

-- `derTLV` of the fixed fields.
unfoldable pub neg_token_init : Bytes → Bytes
neg_token_init ntlm_token =
    let fields =
      der_tlv 160 (der_tlv 48 (der_tlv 6 ntlm_oid)) ++ der_tlv 162 (der_tlv 4 ntlm_token) in
    der_tlv 96 (der_tlv 6 spnego_oid ++ der_tlv 160 (der_tlv 48 fields))

unfoldable pub neg_token_resp : Bytes → Bytes
neg_token_resp ntlm_token =
    let fields =
      (der_tlv 160 (der_tlv 10 (1 ∷ [])) ++ der_tlv 161 (der_tlv 6 ntlm_oid))
      ++ der_tlv 162 (der_tlv 4 ntlm_token) in
    der_tlv 161 (der_tlv 48 fields)

-- The names that selectedSPNEGOMechanism returns; no value is the empty string.
pub data Mechanism : Type 0 where
  kerberos ntlm negotiate : Mechanism

unfoldable pub mechanism_of_oid : Bytes → Mechanism
mechanism_of_oid oid =
    if same_bytes oid kerberos_oid
    then kerberos
    else if same_bytes oid ntlm_oid
    then ntlm
    else negotiate

unfoldable pub read_mechanism : Bytes → Search Mechanism
read_mechanism content = elim (read_only_tlv content) [
  | none ↦ refused
  | some oid ↦ if oid.tag == 6 then found (mechanism_of_oid oid.content) else refused
]

unfoldable pub mechanism_field : Tlv → Search Mechanism → Search Mechanism
mechanism_field field more =
    let mechanism = read_mechanism field.content in if field.tag == 161 then mechanism else more

unfoldable pub find_mechanism : ℕ → Bytes → Search Mechanism
find_mechanism fuel [] = refused
find_mechanism zero (b ∷ seq) = out_of_fuel
find_mechanism (suc fuel) (b ∷ seq) = elim (read_tlv (b ∷ seq)) [
  | none ↦ refused
  | some field ↦ mechanism_field field (find_mechanism fuel field.rest)
]

-- The first field of a NegTokenResp; `refused` is the empty string.
unfoldable pub mechanism_in_token : Tlv → Search Mechanism
mechanism_in_token t =
    if t.tag == 161
    then elim (read_sequence t) [ none ↦ refused | some seq ↦ find_mechanism (length seq) seq ]
    else refused

unfoldable pub selected_spnego_mechanism : Bytes → Search Mechanism
selected_spnego_mechanism token = elim (strip_wrapper token) [
  | none ↦ refused
  | some stripped ↦ elim (read_only_tlv stripped) [ none ↦ refused | some t ↦ mechanism_in_token t ]
]
