-- ===== src/Proxy/Spnego/RoundTrip.antt =====
-- Proxy/Spnego.antt: what the two writers of NTLM tokens make, its readers take apart.
use mathlib.Core.List.{append_assoc}
use mathlib.Core.Path.{subst}
use pxgo.Shared.{
  ℕ, suc, ◌+◌, ◌-◌, ◌≤◌, ◌≡◌, refl, ap, ◌∙◌, true, false, some, [], ◌∷◌, ◌++◌, length,
  length-append, arith,
}
use pxgo.Proxy.Der.{Bytes, Tlv, max_spnego_token_len, read_tlv, der_tlv, same_bytes}
use pxgo.Proxy.Der.Laws.{length-der_tlv, read_tlv-der_tlv}
use pxgo.Proxy.Spnego.{
  spnego_oid, ntlm_oid, is_ntlmssp, read_only_tlv, strip_wrapper, found, refused, find_field,
  find_spnego_ntlm, unwrap_spnego_ntlm, neg_token_init, neg_token_resp, ntlm, mechanism_of_oid,
  read_mechanism, mechanism_field, find_mechanism, mechanism_in_token, selected_spnego_mechanism,
}
use pxgo.Proxy.Spnego.Fields.{
  Fits, tlv_of, read_only_tlv-der_tlv, not_ntlmssp, find_spnego_ntlm-der_tlv,
  find_mechanism-der_tlv, length-written, find_in_token-der_tlv, mechanism_in_token-der_tlv,
  find_spnego_ntlm-last,
}

abbrev token_field : Bytes → Bytes
token_field token = der_tlv 162 (der_tlv 4 token)

abbrev mech_list : Bytes
mech_list = der_tlv 160 (der_tlv 48 (der_tlv 6 ntlm_oid))

abbrev neg_state : Bytes
neg_state = der_tlv 160 (der_tlv 10 (1 ∷ []))

abbrev supported_mech : Bytes
supported_mech = der_tlv 161 (der_tlv 6 ntlm_oid)

length_fixed : (length mech_list ≡ 16) × (length neg_state ≡ 5) × (length supported_mech ≡ 14)
unfolding der_tlv pxgo.Proxy.Der.der_length pxgo.Proxy.Der.length_bytes
length_fixed = (refl, refl, refl)

token_field-length :
    (token : Bytes)
    → length token ≤ 16000
    → (2 ≤ length (token_field token)) × (length (token_field token) ≤ 16008)
token_field-length token short =
    let octets = length-written 4 16000 token short (omega arith) in
    length-written 162 16004 (der_tlv 4 token) octets.1 (omega arith)

-- The sequence and the field around it.
wrapped-Fits :
    (tag : ℕ) (seq : Bytes)
    → length seq ≤ 16040
    → Fits (der_tlv 48 seq) × (length (der_tlv tag (der_tlv 48 seq)) ≤ 16048)
wrapped-Fits tag seq short =
    let inner = length-written 48 16040 seq short (omega arith) in
    let outer = length-written tag 16044 (der_tlv 48 seq) inner.1 (omega arith) in
    (omega (arith, inner.1), outer.1)

find_in_init :
    (fuel : ℕ) (token : Bytes)
    → is_ntlmssp token ≡ true
    → length token ≤ 16000
    → find_spnego_ntlm (suc (suc fuel)) (mech_list ++ token_field token) ≡ found token
unfolding find_field
find_in_init fuel token h short =
    let field = token_field-length token short in
    let total = length-append mech_list (token_field token) in
    find_spnego_ntlm-der_tlv (suc fuel) 160 (der_tlv 48 (der_tlv 6 ntlm_oid)) (token_field token)
      (omega (arith, total, length_fixed.0, field.1))
    ∙ find_spnego_ntlm-last fuel token h short

find_in_resp :
    (fuel : ℕ) (token : Bytes)
    → is_ntlmssp token ≡ true
    → length token ≤ 16000
    → (find_spnego_ntlm (suc (suc (suc fuel))) (neg_state ++ (supported_mech ++ token_field token))
        ≡ found token)
      × (find_mechanism (suc (suc (suc fuel))) (neg_state ++ (supported_mech ++ token_field token))
          ≡ found ntlm)
unfolding find_field mechanism_field read_mechanism mechanism_of_oid same_bytes
find_in_resp fuel token h short = (
  find_spnego_ntlm-der_tlv (suc (suc fuel)) 160 (der_tlv 10 (1 ∷ [])) _ first_fits
      ∙ find_spnego_ntlm-der_tlv (suc fuel) 161 (der_tlv 6 ntlm_oid) _ second_fits
      ∙ find_spnego_ntlm-last fuel token h short,
  find_mechanism-der_tlv (suc (suc fuel)) 160 (der_tlv 10 (1 ∷ [])) _ first_fits
      ∙ find_mechanism-der_tlv (suc fuel) 161 (der_tlv 6 ntlm_oid) _ second_fits
      ∙ rw (read_mechanism, read_only_tlv-der_tlv 6 ntlm_oid small) refl,
)
  where
    field : (2 ≤ length (token_field token)) × (length (token_field token) ≤ 16008)
    field = token_field-length token short

    second :
        length (supported_mech ++ token_field token)
        ≡ length supported_mech + length (token_field token)
    second = length-append supported_mech (token_field token)

    first :
        length (neg_state ++ (supported_mech ++ token_field token))
        ≡ length neg_state + length (supported_mech ++ token_field token)
    first = length-append neg_state (supported_mech ++ token_field token)

    second_fits : length (supported_mech ++ token_field token) ≤ max_spnego_token_len
    second_fits = omega (arith, second, length_fixed.2, field.1)

    first_fits : length (neg_state ++ (supported_mech ++ token_field token)) ≤ max_spnego_token_len
    first_fits = omega (arith, first, second, length_fixed.1, length_fixed.2, field.1)

    small : length (der_tlv 6 ntlm_oid) ≤ max_spnego_token_len
    small = omega (arith, (length-der_tlv 6 ntlm_oid (omega arith)).1)

-- The fields behind the outer wrapper of a NegTokenInit.
strip_wrapper-init :
    (token : Bytes)
    → length token ≤ 16000
    → (strip_wrapper (neg_token_init token)
        ≡ some (der_tlv 160 (der_tlv 48 (mech_list ++ token_field token))))
      × Fits (der_tlv 160 (der_tlv 48 (mech_list ++ token_field token)))
unfolding neg_token_init strip_wrapper same_bytes
strip_wrapper-init token short = (
  rw
      (
        strip_wrapper,
        read_only_tlv-der_tlv 96 (der_tlv 6 spnego_oid ++ inner) outer_fits,
        read_tlv-der_tlv 6 spnego_oid inner inner_fits,
      )
      refl,
  omega (arith, wrapped.1),
)
  where
    inner : Bytes
    inner = der_tlv 160 (der_tlv 48 (mech_list ++ token_field token))

    field : (2 ≤ length (token_field token)) × (length (token_field token) ≤ 16008)
    field = token_field-length token short

    wrapped : Fits (der_tlv 48 (mech_list ++ token_field token)) × (length inner ≤ 16048)
    wrapped =
        wrapped-Fits 160 (mech_list ++ token_field token)
          (omega (arith, length-append mech_list (token_field token), length_fixed.0, field.1))

    oid : (2 ≤ length (der_tlv 6 spnego_oid)) × (length (der_tlv 6 spnego_oid) ≤ 6 + 4)
    oid = length-written 6 6 spnego_oid (omega arith) (omega arith)

    total : length (der_tlv 6 spnego_oid ++ inner) ≡ length (der_tlv 6 spnego_oid) + length inner
    total = length-append (der_tlv 6 spnego_oid) inner

    inner_fits : length (der_tlv 6 spnego_oid ++ inner) ≤ max_spnego_token_len
    inner_fits = omega (arith, total, oid.1, wrapped.1)

    outer :
        (2 ≤ length (der_tlv 96 (der_tlv 6 spnego_oid ++ inner)))
        × (length (der_tlv 96 (der_tlv 6 spnego_oid ++ inner)) ≤ 16058 + 4)
    outer =
        length-written 96 16058 (der_tlv 6 spnego_oid ++ inner)
          (omega (arith, total, oid.1, wrapped.1)) (omega arith)

    outer_fits : length (der_tlv 96 (der_tlv 6 spnego_oid ++ inner)) ≤ max_spnego_token_len
    outer_fits = omega (arith, outer.1)

init_is_no_ntlmssp : (token : Bytes) → is_ntlmssp (neg_token_init token) ≡ false
unfolding neg_token_init der_tlv
init_is_no_ntlmssp token = not_ntlmssp 96 _ refl

resp_is_no_ntlmssp : (token : Bytes) → is_ntlmssp (neg_token_resp token) ≡ false
unfolding neg_token_resp der_tlv
resp_is_no_ntlmssp token = not_ntlmssp 161 _ refl

-- Enough fuel for `k` rounds is the length of the bytes, if they are that many.
fuel_at : (n : ℕ) → 3 ≤ n → suc (suc (suc (n - 3))) ≡ n
fuel_at n h = omega (arith, h)

unwrap-init :
    (token : Bytes)
    → is_ntlmssp token ≡ true
    → length token ≤ 16000
    → unwrap_spnego_ntlm (neg_token_init token) ≡ found token
unfolding unwrap_spnego_ntlm
unwrap-init token h short =
    rw
      (
        unwrap_spnego_ntlm,
        is_init,
        stripped.0,
        read_only_tlv-der_tlv 160 (der_tlv 48 seq) stripped.1,
      )
      (find_in_token-der_tlv 160 seq token refl wrapped.0 search)
  where
    seq : Bytes
    seq = mech_list ++ token_field token

    field : (2 ≤ length (token_field token)) × (length (token_field token) ≤ 16008)
    field = token_field-length token short

    total : length seq ≡ length mech_list + length (token_field token)
    total = length-append mech_list (token_field token)

    stripped :
        (strip_wrapper (neg_token_init token) ≡ some (der_tlv 160 (der_tlv 48 seq)))
        × Fits (der_tlv 160 (der_tlv 48 seq))
    stripped = strip_wrapper-init token short

    wrapped : Fits (der_tlv 48 seq) × (length (der_tlv 160 (der_tlv 48 seq)) ≤ 16048)
    wrapped = wrapped-Fits 160 seq (omega (arith, total, length_fixed.0, field.1))

    search : find_spnego_ntlm (length seq) seq ≡ found token
    search =
        subst (λ n. find_spnego_ntlm n seq ≡ found token)
          (fuel_at (length seq) (omega (arith, total, length_fixed.0)))
          (find_in_init (suc (length seq - 3)) token h short)

    is_init : is_ntlmssp (neg_token_init token) ≡ false
    is_init = init_is_no_ntlmssp token

-- The fields of a NegTokenResp, as the readers see them.
resp_seq : Bytes → Bytes
resp_seq token = neg_state ++ (supported_mech ++ token_field token)

neg_token_resp-eq :
    (token : Bytes) → neg_token_resp token ≡ der_tlv 161 (der_tlv 48 (resp_seq token))
unfolding neg_token_resp resp_seq
neg_token_resp-eq token =
    ap (λ fields. der_tlv 161 (der_tlv 48 fields))
      (append_assoc neg_state supported_mech (token_field token))

-- Both readers of a NegTokenResp reach its fields.
record OpenedResp (token : Bytes) : Type 0 where
  alone : read_only_tlv (neg_token_resp token) ≡ some (tlv_of 161 (der_tlv 48 (resp_seq token)) [])
  stripped : strip_wrapper (neg_token_resp token) ≡ some (neg_token_resp token)
  inner_fits : Fits (der_tlv 48 (resp_seq token))
  fuel : suc (suc (suc (length (resp_seq token) - 3))) ≡ length (resp_seq token)

open_resp : (token : Bytes) → length token ≤ 16000 → OpenedResp token
unfolding resp_seq strip_wrapper
open_resp token short = record {
  alone = alone;
  stripped = rw (strip_wrapper, alone) refl;
  inner_fits = wrapped.0;
  fuel = fuel_at (length (resp_seq token)) (omega (arith, first, length_fixed.1));
}
  where
    field : (2 ≤ length (token_field token)) × (length (token_field token) ≤ 16008)
    field = token_field-length token short

    second :
        length (supported_mech ++ token_field token)
        ≡ length supported_mech + length (token_field token)
    second = length-append supported_mech (token_field token)

    first :
        length (neg_state ++ (supported_mech ++ token_field token))
        ≡ length neg_state + length (supported_mech ++ token_field token)
    first = length-append neg_state (supported_mech ++ token_field token)

    wrapped :
        Fits (der_tlv 48 (resp_seq token))
        × (length (der_tlv 161 (der_tlv 48 (resp_seq token))) ≤ 16048)
    wrapped =
        wrapped-Fits 161 (resp_seq token)
          (omega (arith, first, second, length_fixed.1, length_fixed.2, field.1))

    alone :
        read_only_tlv (neg_token_resp token) ≡ some (tlv_of 161 (der_tlv 48 (resp_seq token)) [])
    alone =
        rw (neg_token_resp-eq token)
          (read_only_tlv-der_tlv 161 (der_tlv 48 (resp_seq token)) (omega (arith, wrapped.1)))

unwrap-resp :
    (token : Bytes)
    → is_ntlmssp token ≡ true
    → length token ≤ 16000
    → unwrap_spnego_ntlm (neg_token_resp token) ≡ found token
unfolding unwrap_spnego_ntlm resp_seq
unwrap-resp token h short =
    let opened = open_resp token short in
    rw (unwrap_spnego_ntlm, resp_is_no_ntlmssp token, opened.stripped, opened.alone)
      (find_in_token-der_tlv 161 (resp_seq token) token refl opened.inner_fits (
        subst (λ n. find_spnego_ntlm n (resp_seq token) ≡ found token) opened.fuel
          (find_in_resp (length (resp_seq token) - 3) token h short).0))

-- An NTLM message of at most 16000 bytes comes back from both wrappers.
pub unwrap_spnego_ntlm-round_trip :
    (token : Bytes)
    → is_ntlmssp token ≡ true
    → length token ≤ 16000
    → (unwrap_spnego_ntlm (neg_token_init token) ≡ found token)
      × (unwrap_spnego_ntlm (neg_token_resp token) ≡ found token)
unwrap_spnego_ntlm-round_trip token h short = (unwrap-init token h short, unwrap-resp token h short)

-- A NegTokenResp with an NTLM message says that NTLM was selected; a NegTokenInit, which only
-- offers it, selects nothing. For messages of at most 16000 bytes.
pub only_resp_selects :
    (token : Bytes)
    → is_ntlmssp token ≡ true
    → length token ≤ 16000
    → (selected_spnego_mechanism (neg_token_resp token) ≡ found ntlm)
      × (selected_spnego_mechanism (neg_token_init token) ≡ refused)
unfolding selected_spnego_mechanism resp_seq mechanism_in_token
only_resp_selects token h short = (
  rw (selected_spnego_mechanism, opened.stripped, opened.alone)
      (mechanism_in_token-der_tlv (resp_seq token) ntlm opened.inner_fits (
        subst (λ n. find_mechanism n (resp_seq token) ≡ found ntlm) opened.fuel
          (find_in_resp (length (resp_seq token) - 3) token h short).1)),
  rw
      (
        selected_spnego_mechanism,
        stripped.0,
        read_only_tlv-der_tlv 160 (der_tlv 48 (mech_list ++ token_field token)) stripped.1,
      )
      refl,
)
  where
    opened : OpenedResp token
    opened = open_resp token short

    stripped :
        (strip_wrapper (neg_token_init token)
          ≡ some (der_tlv 160 (der_tlv 48 (mech_list ++ token_field token))))
        × Fits (der_tlv 160 (der_tlv 48 (mech_list ++ token_field token)))
    stripped = strip_wrapper-init token short
