-- ===== src/Proxy/Ntlm.antt =====
-- internal/proxy/auth_client.go: the AUTHENTICATE message of NTLM and its check. An index or a slice
-- out of range, which is a panic, is a result of its own. Hashes and the folding of case are other
-- packages: they are fields of `Hashes`.
pub mod Laws
use pxgo.Shared.{
  ℕ, zero, suc, ◌+◌, ◌-◌, ◌*◌, ◌/◌, ◌%◌, Bool, true, false, not, ◌&&◌, ◌||◌, Option, none, some,
  List, [], ◌∷◌, ◌++◌, ◌==◌, ltb, leb, get_elem?, length, take, drop, if◌then◌else◌,
}
use pxgo.Shared.Text.{Text, eq_text, cut}
use pxgo.Proxy.Der.{Bytes, same_bytes, max_spnego_token_len}
use pxgo.Proxy.Spnego.{ntlm_signature}

-- `out_of_range` is a panic.
pub data Outcome (A : Type 0) : Type 0 where
  value : A → Outcome A
  refused : Outcome A
  out_of_range : Outcome A

infixl 5 ◌>>=◌ ◌>>◌
abbrev pub ◌>>=◌ : {A B : Type 0} → Outcome A → (A → Outcome B) → Outcome B
value a >>= f = f a
refused >>= f = refused
out_of_range >>= f = out_of_range

abbrev pub ◌>>◌ : {A : Type 0} → Outcome (Unit {0}) → Outcome A → Outcome A
m >> k = m >>= λ _. k

abbrev pub guard : Bool → Outcome (Unit {0})
guard true = value tt
guard false = refused

-- b[i]
unfoldable pub index : Bytes → ℕ → Outcome ℕ
index bytes i = elim (get_elem? bytes i) [ none ↦ out_of_range | some b ↦ value b ]

-- b[from:to]
unfoldable pub slice : Bytes → ℕ → ℕ → Outcome Bytes
slice bytes from to =
    if leb from to && leb to (length bytes)
    then value (take (to - from) (drop from bytes))
    else out_of_range

-- binary.LittleEndian.Uint16 and Uint32 at an offset.
unfoldable pub uint16_at : Bytes → ℕ → Outcome ℕ
unfolding index
uint16_at bytes at = do low ← index bytes at; high ← index bytes (at + 1); value (low + 256 * high)

unfoldable pub uint32_at : Bytes → ℕ → Outcome ℕ
unfolding uint16_at
uint32_at bytes at = do
  low ← uint16_at bytes at
  high ← uint16_at bytes (at + 2)
  value (low + 65536 * high)

abbrev pub max_ntlm_response_len : ℕ
max_ntlm_response_len = 8192

-- readField
unfoldable pub read_field : Bytes → ℕ → Outcome Bytes
unfolding uint16_at index slice
read_field msg offset = do
  guard (leb (offset + 8) (length msg))
  len ← uint16_at msg offset
  high ← index msg (offset + 6)
  higher ← index msg (offset + 7)
  guard ((high == 0) && (higher == 0))
  start ← uint16_at msg (offset + 4)
  guard (leb start (length msg) && leb len (length msg - start))
  slice msg start (start + len)

-- The code units of UTF-16, least significant byte first.
unfoldable pub code_units : Bytes → Option (List ℕ)
code_units [] = some []
code_units (b ∷ []) = none
code_units (low ∷ high ∷ bytes) = elim (code_units bytes) [
  | none ↦ none
  | some units ↦ some ((low + 256 * high) ∷ units)
]

-- utf16.Decode: a surrogate that is alone becomes U+FFFD.
unfoldable pub decode_units : List ℕ → Text
decode_units [] = []
decode_units (u ∷ []) = (if leb 0xd800 u && ltb u 0xe000 then 0xfffd else u) ∷ []
decode_units (u ∷ v ∷ units) =
    let pair = (0x10000 + (u - 0xd800) * 1024 + (v - 0xdc00)) ∷ decode_units units in
    let alone = (if leb 0xd800 u && ltb u 0xe000 then 0xfffd else u) ∷ decode_units (v ∷ units) in
    if leb 0xd800 u && ltb u 0xdc00 && leb 0xdc00 v && ltb v 0xe000 then pair else alone

-- utf16leToString
unfoldable pub utf16le_to_text : Bytes → Outcome Text
unfolding code_units decode_units
utf16le_to_text bytes = elim (code_units bytes) [
  | none ↦ refused
  | some units ↦ value (decode_units units)
]

pub record AuthenticateMessage : Type 0 where
  pub lm_response : Bytes
  pub nt_response : Bytes
  pub domain : Text
  pub user : Text

abbrev decode_text : Bool → Bytes → Outcome Text
decode_text true bytes = utf16le_to_text bytes
decode_text false bytes = value bytes

-- parseNTLMAuthenticateMessage. A name that is not in Unicode is its bytes.
unfoldable pub parse_authenticate : Bytes → Outcome AuthenticateMessage
unfolding uint32_at read_field utf16le_to_text slice same_bytes
parse_authenticate msg = do
  guard (leb 64 (length msg) && leb (length msg) max_spnego_token_len)
  signature ← slice msg 0 8
  guard (same_bytes signature ntlm_signature)
  kind ← uint32_at msg 8
  guard (kind == 3)
  flags ← uint32_at msg 60
  lm ← read_field msg 12
  nt ← read_field msg 20
  guard (leb (length lm) max_ntlm_response_len && leb (length nt) max_ntlm_response_len)
  domain_raw ← read_field msg 28
  user_raw ← read_field msg 36
  domain ← decode_text (flags % 2 == 1) domain_raw
  user ← decode_text (flags % 2 == 1) user_raw
  value (record { lm_response = lm; nt_response = nt; domain = domain; user = user })

-- What other packages compute: HMAC-MD5 with a key, MD4, and the folding of case.
pub record Hashes : Type 0 where
  pub hmac_md5 : Bytes → Bytes → Bytes
  pub md4 : Bytes → Bytes
  pub to_upper : Text → Text
  pub equal_fold : Text → Text → Bool

-- splitConfiguredNTLMName: user and domain.
unfoldable pub split_configured_name : Text → Text × Text
unfolding cut
split_configured_name username = elim (cut 92 username) [
  | none ↦ (username, [])
  | some (domain, user) ↦ (user, domain)
]

abbrev is_empty : {A : Type 0} → List A → Bool
is_empty [] = true
is_empty (_ ∷ _) = false

-- Whether the names of the message are the configured ones; an empty one fits each.
unfoldable pub names_fit : Hashes → Text × Text → AuthenticateMessage → Bool
names_fit h (user, domain) m =
    (is_empty user || h.equal_fold m.user user) && (is_empty domain || h.equal_fold m.domain domain)

-- A response is the proof, 16 bytes, and what it was made of.
unfoldable pub proof_fits : Hashes → Bytes → Bytes → Bytes → Outcome Bool
unfolding slice same_bytes
proof_fits h key challenge response = do
  nonce ← slice challenge 24 32
  tail ← slice response 16 (length response)
  proof ← slice response 0 16
  value (same_bytes (h.hmac_md5 key (nonce ++ tail)) proof)

-- utf16.Encode of a code point; one that has no encoding becomes U+FFFD.
unfoldable pub encode_point : ℕ → List ℕ
encode_point c =
    if ltb c 0xd800 || (leb 0xe000 c && ltb c 0x10000)
    then c ∷ []
    else if leb 0x10000 c && leb c 0x10ffff
    then (0xd800 + (c - 0x10000) / 1024) ∷ (0xdc00 + (c - 0x10000) % 1024) ∷ []
    else 0xfffd ∷ []

unfoldable pub unit_bytes : List ℕ → Bytes
unit_bytes [] = []
unit_bytes (u ∷ units) = (u % 256) ∷ (u / 256) ∷ unit_bytes units

-- utf16le
unfoldable pub utf16le : Text → Bytes
unfolding encode_point unit_bytes
utf16le [] = []
utf16le (c ∷ s) = unit_bytes (encode_point c) ++ utf16le s

-- ntlmHash
unfoldable pub ntlm_hash : Hashes → Text → Bytes
unfolding utf16le
ntlm_hash h password = h.md4 (utf16le password)

-- The domain of the message counts where none is configured.
unfoldable pub ntlm_v2_key : Hashes → Text → Text → AuthenticateMessage → Bytes
unfolding ntlm_hash utf16le
ntlm_v2_key h password domain m =
    h.hmac_md5 (ntlm_hash h password)
      (utf16le (h.to_upper m.user ++ (if is_empty domain then m.domain else domain)))

-- The LM response decides where the NT response does not fit.
abbrev or_lm : Hashes → Bytes → Bytes → Bytes → Bool → Outcome Bool
or_lm h key challenge lm true = value true
or_lm h key challenge lm false =
    if leb 24 (length lm) then proof_fits h key challenge lm else value false

-- verifyNTLMAuthenticate; `refused` is false too.
unfoldable pub verify_authenticate : Hashes → Bytes → Bytes → Text → Text → Outcome Bool
unfolding parse_authenticate split_configured_name names_fit proof_fits ntlm_v2_key
verify_authenticate h msg challenge username password = do
  guard (not (is_empty password) && leb 32 (length challenge))
  m ← parse_authenticate msg
  guard (leb 16 (length m.nt_response))
  guard (names_fit h (split_configured_name username) m)
  let key = ntlm_v2_key h password (split_configured_name username).1 m
  nt_fits ← proof_fits h key challenge m.nt_response
  or_lm h key challenge m.lm_response nt_fits
