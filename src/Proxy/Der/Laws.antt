-- ===== src/Proxy/Der/Laws.antt =====
-- What Proxy/Der.antt promises: the reader takes back what the writer wrote, and never reads past
-- the end.
use pxgo.Shared.{
  ℕ, suc, ◌+◌, ◌*◌, ◌/◌, ◌%◌, ◌≤◌, ◌<◌, ◌≡◌, ◌⊎◌, inl, inr, ap, ◌∙◌, true, false, ◌||◌, Option,
  none, some, [], ◌∷◌, ◌++◌, ◌==◌, ltb, leb, Bool-cases, length, length-append, length-drop,
  if_both, drop, take-append_length, drop-append_length, le→ltb, lt→ltb, lt→leb, arith,
}
use pxgo.Proxy.Der.{
  Bytes, Tlv, max_spnego_token_len, big_endian, split_content, read_long, read_tlv, length_bytes,
  der_length, der_tlv,
}

-- The three forms of a length below 65536.
der_length-short : (n : ℕ) → n < 128 → der_length n ≡ n ∷ []
unfolding der_length length_bytes
der_length-short n h = rw (lt→ltb n 128 h)

der_length-one : (n : ℕ) → 128 ≤ n → n < 256 → der_length n ≡ 129 ∷ n ∷ []
unfolding der_length length_bytes
der_length-one n a b = ground arith

der_length-two : (n : ℕ) → 256 ≤ n → n < 65536 → der_length n ≡ 130 ∷ n / 256 ∷ n % 256 ∷ []
unfolding der_length length_bytes
der_length-two n a b = ground arith

-- Cutting a list at the length of its first part.
split_content-append :
    (tag : ℕ) (content rest : Bytes)
    → split_content tag (length content) (content ++ rest)
      ≡ some (record { tag = tag; content = content; rest = rest })
unfolding split_content
split_content-append tag content rest = rw (
  le→ltb (length (content ++ rest)) (length content) (omega (arith, length-append content rest)),
  take-append_length content rest,
  drop-append_length content rest,
)

-- The reader, once the two first bytes are known and the whole is not too long.
read_tlv-short :
    (tag n : ℕ) (body : Bytes)
    → length body + 2 ≤ max_spnego_token_len
    → n < 128
    → read_tlv (tag ∷ n ∷ body) ≡ split_content tag n body
unfolding read_tlv
read_tlv-short tag n body fits h =
    rw (le→ltb max_spnego_token_len (length body + 2) fits, lt→leb 128 n h)

read_tlv-one :
    (tag n : ℕ) (body : Bytes)
    → length body + 3 ≤ max_spnego_token_len
    → read_tlv (tag ∷ 129 ∷ n ∷ body) ≡ split_content tag n body
unfolding read_tlv read_long big_endian
read_tlv-one tag n body fits = ground arith

read_tlv-two :
    (tag a b : ℕ) (body : Bytes)
    → length body + 4 ≤ max_spnego_token_len
    → read_tlv (tag ∷ 130 ∷ a ∷ b ∷ body) ≡ split_content tag (a * 256 + b) body
unfolding read_tlv read_long big_endian
read_tlv-two tag a b body fits = ground arith

-- What the writer puts in front of the content, by its length.
data Form (tag : ℕ) (content : Bytes) : Type 0 where
  short :
      length content < 128 → der_tlv tag content ≡ tag ∷ length content ∷ content → Form tag content
  one : der_tlv tag content ≡ tag ∷ 129 ∷ length content ∷ content → Form tag content
  two :
      (a b : ℕ)
      → a * 256 + b ≡ length content
      → der_tlv tag content ≡ tag ∷ 130 ∷ a ∷ b ∷ content
      → Form tag content

der_tlv-Form : (tag : ℕ) (content : Bytes) → length content < 65536 → Form tag content
unfolding der_tlv
der_tlv-Form tag content h =
    split (Bool-cases (ltb (length content) 128)) (Bool-cases (ltb (length content) 256))
  where
    n : ℕ
    n = length content

    split :
        (ltb (length content) 128 ≡ true) ⊎ (ltb (length content) 128 ≡ false)
        → (ltb (length content) 256 ≡ true) ⊎ (ltb (length content) 256 ≡ false)
        → Form tag content
    split (inl e) _ = short (ground arith) (rw (der_length-short n (ground arith)))
    split (inr e) (inl f) = one (rw (der_length-one n (ground arith) (ground arith)))
    split (inr e) (inr f) =
        two (n / 256) (n % 256) (omega arith) (rw (der_length-two n (ground arith) h))

pub length-der_tlv :
    (tag : ℕ) (content : Bytes)
    → length content < 65536
    → (length content + 2 ≤ length (der_tlv tag content))
      × (length (der_tlv tag content) ≤ length content + 4)
length-der_tlv tag content h = by_form (der_tlv-Form tag content h)
  where
    by_form :
        Form tag content
        → (length content + 2 ≤ length (der_tlv tag content))
          × (length (der_tlv tag content) ≤ length content + 4)
    by_form (short l e) = rw e (omega arith)
    by_form (one e) = rw e (omega arith)
    by_form (two a b v e) = rw e (omega arith)

content-le-der_tlv : (tag : ℕ) (content : Bytes) → length content ≤ length (der_tlv tag content)
unfolding der_tlv
content-le-der_tlv tag content = omega (arith, length-append (der_length (length content)) content)

-- The reader takes back what the writer wrote, with what follows it, if the whole is no longer than
-- the reader takes.
pub read_tlv-der_tlv :
    (tag : ℕ) (content rest : Bytes)
    → length (der_tlv tag content ++ rest) ≤ max_spnego_token_len
    → read_tlv (der_tlv tag content ++ rest)
      ≡ some (record { tag = tag; content = content; rest = rest })
read_tlv-der_tlv tag content rest fits = by_form (der_tlv-Form tag content small)
  where
    total : length (der_tlv tag content ++ rest) ≡ length (der_tlv tag content) + length rest
    total = length-append (der_tlv tag content) rest

    small : length content < 65536
    small = omega (arith, total, content-le-der_tlv tag content)

    whole : length (content ++ rest) ≡ length content + length rest
    whole = length-append content rest

    by_form :
        Form tag content
        → read_tlv (der_tlv tag content ++ rest)
          ≡ some (record { tag = tag; content = content; rest = rest })
    by_form (short l e) =
        let room : length (content ++ rest) + 2 ≤ max_spnego_token_len =
          omega (arith, ap length e, total, whole) in
        rw e (
          read_tlv-short tag (length content) (content ++ rest) room l
          ∙ split_content-append tag content rest)
    by_form (one e) =
        let room : length (content ++ rest) + 3 ≤ max_spnego_token_len =
          omega (arith, ap length e, total, whole) in
        rw e (
          read_tlv-one tag (length content) (content ++ rest) room
          ∙ split_content-append tag content rest)
    by_form (two a b v e) =
        let room : length (content ++ rest) + 4 ≤ max_spnego_token_len =
          omega (arith, ap length e, total, whole) in
        rw e (
          read_tlv-two tag a b (content ++ rest) room
          ∙ (rw v (split_content-append tag content rest)))

-- At most `n` bytes follow what was read, if anything was.
abbrev pub LeavesAtMost : ℕ → Option Tlv → Type 0
LeavesAtMost n none = Unit
LeavesAtMost n (some t) = length t.rest ≤ n

split_content-LeavesAtMost :
    (n tag len : ℕ) (body : Bytes) → length body ≤ n → LeavesAtMost n (split_content tag len body)
unfolding split_content
split_content-LeavesAtMost n tag len body h =
    if_both (LeavesAtMost n) (ltb (length body) len) _ _ tt (omega (arith, h, length-drop len body))

read_long-LeavesAtMost :
    (tag count : ℕ) (body : Bytes) → LeavesAtMost (length body) (read_long tag count body)
unfolding read_long
read_long-LeavesAtMost tag count body =
    if_both (LeavesAtMost (length body)) ((count == 0) || ltb 2 count || ltb (length body) count) _
      _ tt
      (split_content-LeavesAtMost (length body) tag (big_endian count 0 body) (drop count body)
        (omega (arith, length-drop count body)))

-- What follows a value is shorter than the bytes that were read.
pub read_tlv-LeavesAtMost :
    (b : ℕ) (bytes : Bytes) → LeavesAtMost (length bytes) (read_tlv (b ∷ bytes))
unfolding read_tlv
read_tlv-LeavesAtMost tag [] = tt
read_tlv-LeavesAtMost tag (n ∷ body) =
    if_both (LeavesAtMost (suc (length body))) (ltb max_spnego_token_len (length body + 2)) _ _ tt (
      if_both (LeavesAtMost (suc (length body))) (leb 128 n) _ _
        (weaken (read_long tag (n % 128) body) (read_long-LeavesAtMost tag (n % 128) body))
        (split_content-LeavesAtMost (suc (length body)) tag n body (omega arith)))
  where
    weaken : (o : Option Tlv) → LeavesAtMost (length body) o → LeavesAtMost (suc (length body)) o
    weaken none h = tt
    weaken (some t) h = omega (arith, h)
