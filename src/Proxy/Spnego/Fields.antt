-- ===== src/Proxy/Spnego/Fields.antt =====
-- Proxy/Spnego.antt: its readers on one value that the writer of DER made.
use mathlib.Core.List.{append-nil}
use mathlib.Core.Path.{subst}
use pxgo.Shared.{
  ℕ, suc, ◌+◌, ◌≤◌, ◌<◌, ◌≡◌, refl, ap, ◌∙◌, true, false, ◌||◌, Option, none, some, [], ◌∷◌, ◌++◌,
  ◌==◌, length, arith,
}
use pxgo.Proxy.Der.{Bytes, Tlv, max_spnego_token_len, read_tlv, der_tlv, same_bytes}
use pxgo.Proxy.Der.Laws.{length-der_tlv, read_tlv-der_tlv}
use pxgo.Proxy.Spnego.{
  is_ntlmssp, read_only_tlv, found, refused, read_sequence, ntlm_octets, find_field,
  find_spnego_ntlm, find_in_token, Mechanism, mechanism_field, find_mechanism, mechanism_in_token,
}

-- A value in a buffer of at most `max_spnego_token_len` bytes.
abbrev pub Fits : Bytes → Type 0
Fits bytes = length bytes ≤ max_spnego_token_len

pub read_only_tlv-der_tlv :
    (tag : ℕ) (content : Bytes)
    → Fits (der_tlv tag content)
    → read_only_tlv (der_tlv tag content)
      ≡ some (record { tag = tag; content = content; rest = [] })
unfolding read_only_tlv
read_only_tlv-der_tlv tag content fits = rw (read_only_tlv, here) refl
  where
    whole : der_tlv tag content ++ [] ≡ der_tlv tag content
    whole = append-nil (der_tlv tag content)

    here :
        read_tlv (der_tlv tag content) ≡ some (record { tag = tag; content = content; rest = [] })
    here =
        subst (λ b. read_tlv b ≡ some (record { tag = tag; content = content; rest = [] })) whole
          (read_tlv-der_tlv tag content [] (rw whole fits))

pub not_ntlmssp : (b : ℕ) (bytes : Bytes) → (b == 78) ≡ false → is_ntlmssp (b ∷ bytes) ≡ false
unfolding is_ntlmssp same_bytes
not_ntlmssp b bytes h = rw h (ground arith)

-- One round of each loop, once the field is read.
find_spnego_ntlm-cons :
    (fuel b : ℕ) (bytes : Bytes) (field : Tlv)
    → read_tlv (b ∷ bytes) ≡ some field
    → find_spnego_ntlm (suc fuel) (b ∷ bytes) ≡ find_field field (find_spnego_ntlm fuel field.rest)
unfolding find_spnego_ntlm
find_spnego_ntlm-cons fuel b bytes field e =
    ap
      (λ (o : Option Tlv). elim o [
        | none ↦ refused
        | some field' ↦ find_field field' (find_spnego_ntlm fuel field'.rest)
      ])
      e

find_mechanism-cons :
    (fuel b : ℕ) (bytes : Bytes) (field : Tlv)
    → read_tlv (b ∷ bytes) ≡ some field
    → find_mechanism (suc fuel) (b ∷ bytes) ≡ mechanism_field field (find_mechanism fuel field.rest)
unfolding find_mechanism
find_mechanism-cons fuel b bytes field e =
    ap
      (λ (o : Option Tlv). elim o [
        | none ↦ refused
        | some field' ↦ mechanism_field field' (find_mechanism fuel field'.rest)
      ])
      e

abbrev pub tlv_of : ℕ → Bytes → Bytes → Tlv
tlv_of tag content rest = record { tag = tag; content = content; rest = rest }

pub find_spnego_ntlm-der_tlv :
    (fuel tag : ℕ) (content rest : Bytes)
    → Fits (der_tlv tag content ++ rest)
    → find_spnego_ntlm (suc fuel) (der_tlv tag content ++ rest)
      ≡ find_field (tlv_of tag content rest) (find_spnego_ntlm fuel rest)
unfolding der_tlv
find_spnego_ntlm-der_tlv fuel tag content rest fits =
    find_spnego_ntlm-cons fuel tag _ (tlv_of tag content rest)
      (read_tlv-der_tlv tag content rest fits)

pub find_mechanism-der_tlv :
    (fuel tag : ℕ) (content rest : Bytes)
    → Fits (der_tlv tag content ++ rest)
    → find_mechanism (suc fuel) (der_tlv tag content ++ rest)
      ≡ mechanism_field (tlv_of tag content rest) (find_mechanism fuel rest)
unfolding der_tlv
find_mechanism-der_tlv fuel tag content rest fits =
    find_mechanism-cons fuel tag _ (tlv_of tag content rest)
      (read_tlv-der_tlv tag content rest fits)

-- The octets of field 2.
ntlm_octets-der_tlv :
    (token : Bytes)
    → is_ntlmssp token ≡ true
    → Fits (der_tlv 4 token)
    → ntlm_octets (der_tlv 4 token) ≡ found token
unfolding ntlm_octets
ntlm_octets-der_tlv token h fits = rw (ntlm_octets, read_only_tlv-der_tlv 4 token fits, h) refl

read_sequence-der_tlv :
    (tag : ℕ) (rest seq : Bytes)
    → Fits (der_tlv 48 seq)
    → read_sequence (tlv_of tag (der_tlv 48 seq) rest) ≡ some seq
unfolding read_sequence
read_sequence-der_tlv tag rest seq fits = rw (read_sequence, read_only_tlv-der_tlv 48 seq fits) refl

-- The length of a written value, and of two fields one after the other.
pub length-written :
    (tag n : ℕ) (content : Bytes)
    → length content ≤ n
    → n < 65536
    → (2 ≤ length (der_tlv tag content)) × (length (der_tlv tag content) ≤ n + 4)
length-written tag n content a b =
    let both = length-der_tlv tag content (omega (arith, a, b)) in
    (omega (arith, both.0), omega (arith, both.1, a))

pub find_in_token-der_tlv :
    (tag : ℕ) (seq token : Bytes)
    → ((tag == 160) || (tag == 161)) ≡ true
    → Fits (der_tlv 48 seq)
    → find_spnego_ntlm (length seq) seq ≡ found token
    → find_in_token (tlv_of tag (der_tlv 48 seq) []) ≡ found token
unfolding find_in_token
find_in_token-der_tlv tag seq token h fits e =
    rw (find_in_token, h, read_sequence-der_tlv tag [] seq fits) e

pub mechanism_in_token-der_tlv :
    (seq : Bytes) (mechanism : Mechanism)
    → Fits (der_tlv 48 seq)
    → find_mechanism (length seq) seq ≡ found mechanism
    → mechanism_in_token (tlv_of 161 (der_tlv 48 seq) []) ≡ found mechanism
unfolding mechanism_in_token
mechanism_in_token-der_tlv seq mechanism fits e =
    rw (mechanism_in_token, read_sequence-der_tlv 161 [] seq fits) e

-- The last field of a sequence, with fuel for one round at least.
pub find_spnego_ntlm-last :
    (fuel : ℕ) (token : Bytes)
    → is_ntlmssp token ≡ true
    → length token ≤ 16000
    → find_spnego_ntlm (suc fuel) (der_tlv 162 (der_tlv 4 token)) ≡ found token
unfolding find_field
find_spnego_ntlm-last fuel token h short =
    subst (λ bytes. find_spnego_ntlm (suc fuel) bytes ≡ found token) whole
      (find_spnego_ntlm-der_tlv fuel 162 (der_tlv 4 token) [] fits ∙ here)
  where
    octets : (2 ≤ length (der_tlv 4 token)) × (length (der_tlv 4 token) ≤ 16000 + 4)
    octets = length-written 4 16000 token short (omega arith)

    field :
        (2 ≤ length (der_tlv 162 (der_tlv 4 token)))
        × (length (der_tlv 162 (der_tlv 4 token)) ≤ 16004 + 4)
    field = length-written 162 16004 (der_tlv 4 token) octets.1 (omega arith)

    whole : der_tlv 162 (der_tlv 4 token) ++ [] ≡ der_tlv 162 (der_tlv 4 token)
    whole = append-nil (der_tlv 162 (der_tlv 4 token))

    fits : length (der_tlv 162 (der_tlv 4 token) ++ []) ≤ max_spnego_token_len
    fits = rw whole (omega (arith, field.1))

    here : find_field (tlv_of 162 (der_tlv 4 token) []) (find_spnego_ntlm fuel []) ≡ found token
    here = ntlm_octets-der_tlv token h (omega (arith, octets.1))
