-- ===== src/Proxy/Spnego/Laws.antt =====
-- What Proxy/Spnego.antt promises.
use pxgo.Shared.{
  ℕ, zero, suc, ◌≤◌, ◌≡◌, refl, Bool, true, false, ◌&&◌, ◌||◌, Option, none, some, [], ◌∷◌, ◌==◌,
  if_both, length, arith, if◌then◌else◌,
}
use pxgo.Proxy.Der.{Bytes, Tlv, read_tlv}
use pxgo.Proxy.Der.Laws.{LeavesAtMost, read_tlv-LeavesAtMost}
use pxgo.Proxy.Spnego.{
  is_ntlmssp, read_only_tlv, strip_wrapper, Search, found, refused, out_of_fuel, read_sequence,
  ntlm_octets, find_field, find_spnego_ntlm, find_in_token, unwrap_spnego_ntlm,
}

-- What a search may end with, `P` holding of what it finds; it is never cut short.
abbrev pub Ends : {A : Type 0} → (A → Type 0) → Search A → Type 0
Ends P (found a) = P a
Ends P refused = Unit
Ends P out_of_fuel = ⊥

abbrev pub IsNtlm : Bytes → Type 0
IsNtlm token = is_ntlmssp token ≡ true

ntlm_octets-Ends : (content : Bytes) → Ends IsNtlm (ntlm_octets content)
unfolding ntlm_octets
ntlm_octets-Ends content =
    elim (read_only_tlv content)
      as (λ o. Ends IsNtlm (elim o [
        | none ↦ refused
        | some octets ↦
            if (octets.tag == 4) && is_ntlmssp octets.content then found octets.content else refused
      ])) [ none ↦ tt | some t ↦ by_octets t ]
  where
    by_octets :
        (t : Tlv)
        → Ends IsNtlm (if (t.tag == 4) && is_ntlmssp t.content then found t.content else refused)
    by_octets t =
        elim (t.tag == 4)
          as (λ b. Ends IsNtlm (if b && is_ntlmssp t.content then found t.content else refused)) [
            | true ↦ by_name (is_ntlmssp t.content) refl
            | false ↦ tt
          ]
      where
        by_name :
            (b : Bool)
            → is_ntlmssp t.content ≡ b
            → Ends IsNtlm (if b then found t.content else refused)
        by_name true e = e
        by_name false e = tt

find_field-Ends :
    (field : Tlv) (more : Search Bytes) → Ends IsNtlm more → Ends IsNtlm (find_field field more)
unfolding find_field
find_field-Ends field more h =
    if_both (Ends IsNtlm) (field.tag == 162) _ _ (ntlm_octets-Ends field.content) h

find_spnego_ntlm-Ends :
    (fuel : ℕ) (seq : Bytes) → length seq ≤ fuel → Ends IsNtlm (find_spnego_ntlm fuel seq)
unfolding find_spnego_ntlm
find_spnego_ntlm-Ends fuel [] h = tt
find_spnego_ntlm-Ends zero (b ∷ seq) h = absurd (omega (arith, h))
find_spnego_ntlm-Ends (suc fuel) (b ∷ seq) h =
    by_read (read_tlv (b ∷ seq)) (read_tlv-LeavesAtMost b seq)
      (λ rest l. find_spnego_ntlm-Ends fuel rest (omega (arith, h, l)))
  where
    by_read :
        (o : Option Tlv)
        → LeavesAtMost (length seq) o
        → ((rest : Bytes) → length rest ≤ length seq → Ends IsNtlm (find_spnego_ntlm fuel rest))
        → Ends IsNtlm (elim o [
          | none ↦ refused
          | some field ↦ find_field field (find_spnego_ntlm fuel field.rest)
        ])
    by_read none l go = tt
    by_read (some field) l go =
        find_field-Ends field (find_spnego_ntlm fuel field.rest) (go field.rest l)

find_in_token-Ends : (t : Tlv) → Ends IsNtlm (find_in_token t)
unfolding find_in_token
find_in_token-Ends t =
    if_both (Ends IsNtlm) ((t.tag == 160) || (t.tag == 161)) _ _ (by_sequence (read_sequence t)) tt
  where
    by_sequence :
        (o : Option Bytes)
        → Ends IsNtlm (elim o [ none ↦ refused | some seq ↦ find_spnego_ntlm (length seq) seq ])
    by_sequence none = tt
    by_sequence (some seq) = find_spnego_ntlm-Ends (length seq) seq (omega arith)

-- Whatever bytes a client sends, the loop ends, and what is unwrapped is an NTLMSSP message.
pub unwrap_spnego_ntlm-Ends : (token : Bytes) → Ends IsNtlm (unwrap_spnego_ntlm token)
unfolding unwrap_spnego_ntlm
unwrap_spnego_ntlm-Ends token = by_name (is_ntlmssp token) refl
  where
    by_token : (o : Option Tlv) → Ends IsNtlm (elim o [ none ↦ refused | some t ↦ find_in_token t ])
    by_token none = tt
    by_token (some t) = find_in_token-Ends t

    by_stripped :
        (o : Option Bytes)
        → Ends IsNtlm (elim o [
          | none ↦ refused
          | some stripped ↦ elim (read_only_tlv stripped) [
            | none ↦ refused
            | some t ↦ find_in_token t
          ]
        ])
    by_stripped none = tt
    by_stripped (some stripped) = by_token (read_only_tlv stripped)

    by_name :
        (b : Bool)
        → is_ntlmssp token ≡ b
        → Ends IsNtlm (
            if b then found token else elim (strip_wrapper token) [
              | none ↦ refused
              | some stripped ↦ elim (read_only_tlv stripped) [
                | none ↦ refused
                | some t ↦ find_in_token t
              ]
            ])
    by_name true e = e
    by_name false e = by_stripped (strip_wrapper token)
