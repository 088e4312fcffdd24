-- ===== src/Proxy/Der.antt =====
-- The DER reader and writer of internal/proxy/auth_client.go, over bytes.
pub mod Laws
use pxgo.Shared.{
  ℕ, zero, suc, ◌+◌, ◌-◌, ◌*◌, ◌/◌, ◌%◌, Bool, true, false, ◌&&◌, ◌||◌, Option, none, some, List,
  [], ◌∷◌, ◌++◌, ◌==◌, ltb, leb, length, take, drop, if◌then◌else◌,
}

abbrev pub Bytes : Type 0
Bytes = List ℕ

abbrev pub max_spnego_token_len : ℕ
max_spnego_token_len = 16384

-- The results of `readDERTLV`.
pub record Tlv : Type 0 where
  pub tag : ℕ
  pub content : Bytes
  pub rest : Bytes

-- length = (length << 8) | b over the first `count` bytes.
unfoldable pub big_endian : ℕ → ℕ → Bytes → ℕ
big_endian zero acc bytes = acc
big_endian (suc count) acc [] = acc
big_endian (suc count) acc (b ∷ bytes) = big_endian count (acc * 256 + b) bytes

-- The content and what follows it, `body` being the bytes behind the length.
unfoldable pub split_content : ℕ → ℕ → Bytes → Option Tlv
split_content tag len body =
    if ltb (length body) len
    then none
    else some (record { tag = tag; content = take len body; rest = drop len body })

-- The long form: `count` bytes of length.
unfoldable pub read_long : ℕ → ℕ → Bytes → Option Tlv
read_long tag count body =
    if (count == 0) || ltb 2 count || ltb (length body) count
    then none
    else split_content tag (big_endian count 0 body) (drop count body)

unfoldable pub read_tlv : Bytes → Option Tlv
read_tlv [] = none
read_tlv (tag ∷ []) = none
read_tlv (tag ∷ length_byte ∷ body) =
    if ltb max_spnego_token_len (length body + 2)
    then none
    else if leb 128 length_byte
    then read_long tag (length_byte % 128) body
    else split_content tag length_byte body

-- The bytes of a length above zero, most significant first; `fuel` is the size of the buffer.
unfoldable pub length_bytes : ℕ → ℕ → Bytes → Bytes
length_bytes zero n out = out
length_bytes (suc fuel) n out =
    let more = length_bytes fuel (n / 256) (n % 256 ∷ out) in if n == 0 then out else more

-- The buffer of four bytes holds every length of these tokens.
unfoldable pub der_length : ℕ → Bytes
der_length len =
    let bytes = length_bytes 4 len [] in
    if ltb len 128 then len ∷ [] else (128 + length bytes) ∷ bytes

unfoldable pub der_tlv : ℕ → Bytes → Bytes
der_tlv tag content = tag ∷ (der_length (length content) ++ content)

-- sameBytes
unfoldable pub same_bytes : Bytes → Bytes → Bool
same_bytes [] [] = true
same_bytes [] (_ ∷ _) = false
same_bytes (_ ∷ _) [] = false
same_bytes (a ∷ l) (b ∷ r) = (a == b) && same_bytes l r
