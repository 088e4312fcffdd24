-- ===== src/Proxy/Digest.antt =====
-- internal/proxy/auth_client.go: the digest authentication of clients, its nonces and the table of
-- those that were used. Hashes, the MAC, base64 and the parsing of addresses are other packages:
-- they are fields of `Platform`. A time is in nanoseconds since 1970.
pub mod Laws
pub mod Replay
use pxgo.Shared.{
  elapsed, incr_u64, ℕ, zero, suc, ◌+◌, ◌-◌, ◌*◌, ◌/◌, ◌≤◌, ℤ, pos, negsuc, String, Bool, true,
  false, not, ◌&&◌, ◌||◌, Option, none, some, List, [], ◌∷◌, ◌++◌, ◌==◌, seconds, ltb, leb, length,
  if◌then◌else◌,
}
use pxgo.Shared.Text.ParseInt.{parse_int}
use pxgo.Shared.Text.Table.{find_key, forget_key}
use pxgo.Shared.Text.{Text, codes, eq_text, byte_length, cut, trim_space, trim_left, trim_right}

-- What other packages compute: MD5 and the HMAC under the key of this process, in hexadecimal,
-- base64, net.SplitHostPort, and the folding of case.
pub record Platform : Type 0 where
  pub md5_hex : Text → Text
  pub keyed_mac_hex : Text → Text
  pub decode_base64 : Text → Option Text
  pub split_host_port : Text → Option (Text × Text)
  pub equal_fold : Text → Text → Bool
  pub to_lower : Text → Text

abbrev pub digest_nonce_lifetime : ℕ
digest_nonce_lifetime = seconds 120

abbrev pub digest_nonce_future_skew : ℕ
digest_nonce_future_skew = seconds 5

abbrev pub digest_realm : Text
digest_realm = codes "PxClient"

abbrev pub max_digest_cnonce_len : ℕ
max_digest_cnonce_len = 256

-- A count for the nonce of an upstream server.
pub record NonceCount : Type 0 where
  pub count : ℕ
  pub created : ℕ

-- digestNonceCounts, seenClientNonces (with the time when an entry expires) and digestLastPrune, in
-- seconds.
pub record NonceTables : Type 0 where
  pub counts : List (Text × NonceCount)
  pub seen : List (Text × ℕ)
  pub last_prune : ℕ

-- The entries that pass the test.
unfoldable pub keep_entries : {V : Type 0} → (V → Bool) → List (Text × V) → List (Text × V)
keep_entries keep [] = []
keep_entries keep ((k, v) ∷ rest) =
    let others = keep_entries keep rest in if keep v then (k, v) ∷ others else others

abbrev unix : ℕ → ℕ
unix now = now / 1000000000

-- pruneDigestMaps; the loser of the CompareAndSwap does nothing.
unfoldable pub prune : ℕ → NonceTables → NonceTables
unfolding keep_entries
prune now t = if ltb (unix now) (t.last_prune + 120) then t else record {
  counts = keep_entries (λ c. leb (elapsed now c.created) digest_nonce_lifetime) t.counts;
  seen = keep_entries (λ expiry. leb now expiry) t.seen;
  last_prune = unix now;
}

abbrev pub nonce_key : Text → Text → Text
nonce_key nonce nc = nonce ++ 124 ∷ nc

-- digestNonceSeen
unfoldable pub nonce_seen : ℕ → Text → NonceTables → Bool × NonceTables
unfolding find_key forget_key
nonce_seen now key t = elim (find_key key t.seen) [
  | none ↦ (false, t)
  | some expiry ↦
      if ltb expiry now then (false, record t { seen = forget_key key t.seen }) else (true, t)
]

-- digestNonceMarkIfNew
unfoldable pub mark_if_new : ℕ → Text → NonceTables → Bool × NonceTables
unfolding find_key prune
mark_if_new now key t = elim (find_key key t.seen) [
  | some expiry ↦ (false, prune now t)
  | none ↦ (true, prune now (record t { seen = (key, now + digest_nonce_lifetime) ∷ t.seen }))
]

-- The count of a nonce, a new one if it has none.
abbrev count_of : ℕ → Option NonceCount → NonceCount
count_of now none = record { count = 0; created = now }
count_of now (some c) = c

-- nextDigestNC, up to the format of the number. The entry is increased after the pruning in the
-- source, which looks at `created` alone.
unfoldable pub next_digest_nc : ℕ → Text → NonceTables → ℕ × NonceTables
unfolding find_key forget_key prune
next_digest_nc now nonce t =
    let c = count_of now (find_key nonce t.counts) in
    let raised : NonceCount = record c { count = incr_u64 c.count } in
    (raised.count, prune now (record t { counts = (nonce, raised) ∷ forget_key nonce t.counts }))

-- The three parts of a nonce: strings.SplitN(raw, ":", 3) has three, or the nonce is refused.
pub record NonceParts : Type 0 where
  pub issued_text : Text
  pub salt : Text
  pub mac_hex : Text

unfoldable pub split_nonce : Text → Option NonceParts
unfolding cut
split_nonce raw = elim (cut 58 raw) [
  | none ↦ none
  | some (issued_text, rest) ↦ elim (cut 58 rest) [
    | none ↦ none
    | some (salt, mac_hex) ↦
        some (record { issued_text = issued_text; salt = salt; mac_hex = mac_hex })
  ]
]

-- Whether the second at which a nonce was issued is neither too old nor too far ahead.
unfoldable pub is_current : ℕ → ℤ → Bool
is_current now (pos issued) =
    leb (elapsed now (seconds issued)) digest_nonce_lifetime
    && leb (elapsed (seconds issued) now) digest_nonce_future_skew
is_current now (negsuc before) = leb (now + seconds (before + 1)) digest_nonce_lifetime

-- The second that the nonce names.
unfoldable pub nonce_issued : Platform → Text → Option ℤ
unfolding split_nonce parse_int
nonce_issued p nonce = elim (p.decode_base64 nonce) [
  | none ↦ none
  | some raw ↦ elim (split_nonce raw) [ none ↦ none | some parts ↦ parse_int parts.issued_text ]
]

-- Texts with colons between them.
unfoldable pub join_colons : List Text → Text
join_colons [] = []
join_colons (t ∷ []) = t
join_colons (t ∷ u ∷ ts) = t ++ 58 ∷ join_colons (u ∷ ts)

-- digestClientHost
unfoldable pub client_host : Platform → Text → Text
client_host p remote_addr = elim (p.split_host_port remote_addr) [
  | none ↦ remote_addr
  | some (host, _) ↦ host
]

-- digestNonceMAC, in hexadecimal.
unfoldable pub nonce_mac_hex : Platform → Text → Text → Text → Text
unfolding join_colons
nonce_mac_hex p issued_text salt host =
    p.keyed_mac_hex (join_colons (issued_text ∷ salt ∷ host ∷ digest_realm ∷ []))

-- The MAC that the nonce carries is the one of its other parts.
unfoldable pub has_nonce_mac : Platform → Text → Text → Bool
unfolding split_nonce nonce_mac_hex client_host
has_nonce_mac p nonce remote_addr = elim (p.decode_base64 nonce) [
  | none ↦ false
  | some raw ↦ elim (split_nonce raw) [
    | none ↦ false
    | some parts ↦
        eq_text parts.mac_hex
          (nonce_mac_hex p parts.issued_text parts.salt (client_host p remote_addr))
  ]
]

abbrev is_current_time : ℕ → Option ℤ → Bool
is_current_time now none = false
is_current_time now (some issued) = is_current now issued

-- verifyDigestNonceAt
unfoldable pub verify_nonce : Platform → ℕ → Text → Text → Bool
unfolding nonce_issued has_nonce_mac is_current
verify_nonce p now nonce remote_addr =
    is_current_time now (nonce_issued p nonce) && has_nonce_mac p nonce remote_addr

-- splitAuthParams: the commas that are not between quotes.
abbrev cons_part : ℕ → List Text → List Text
cons_part c [] = (c ∷ []) ∷ []
cons_part c (part ∷ parts) = (c ∷ part) ∷ parts

unfoldable pub split_from : Bool → Text → List Text
split_from in_quote [] = [] ∷ []
split_from in_quote (c ∷ s) =
    let closed = [] ∷ split_from in_quote s in
    let more = cons_part c (split_from (if c == 34 then not in_quote else in_quote) s) in
    if (c == 44) && not in_quote then closed else more

abbrev is_quote : ℕ → Bool
is_quote c = c == 34

-- parseAuthParams; the last part with a key stands first.
unfoldable pub params_from : Platform → List Text → List (Text × Text) → List (Text × Text)
unfolding cut trim_space trim_left trim_right
params_from p [] params = params
params_from p (part ∷ parts) params = params_from p parts (elim (cut 61 (trim_space part)) [
  | none ↦ params
  | some (key, value) ↦
      (p.to_lower (trim_space key), trim_left is_quote (trim_right is_quote (trim_space value)))
      ∷ params
])

unfoldable pub parse_auth_params : Platform → Text → List (Text × Text)
unfolding params_from split_from
parse_auth_params p header = params_from p (split_from false header) []

abbrev or_empty : Option Text → Text
or_empty none = []
or_empty (some value) = value

-- params[name]
unfoldable pub param : List (Text × Text) → Text → Text
unfolding find_key
param params name = or_empty (find_key name params)

pub record DigestConfig : Type 0 where
  pub client_username : Text
  pub client_password : Text

-- What the check reads of a request; `target` is digestRequestTarget.
pub record DigestRequest : Type 0 where
  pub authorization : Text
  pub method : Text
  pub target : Text
  pub remote_addr : Text

-- The parameters, if the header is one of the scheme.
unfoldable pub digest_params : Platform → DigestRequest → Option (List (Text × Text))
unfolding cut trim_space parse_auth_params
digest_params p r = elim (cut 32 r.authorization) [
  | none ↦ none
  | some (scheme, token) ↦
      if p.equal_fold scheme (codes "Digest")
      then some (parse_auth_params p (trim_space token))
      else none
]

unfoldable pub is_hex_digit : ℕ → Bool
is_hex_digit c = (leb 48 c && leb c 57) || (leb 97 c && leb c 102) || (leb 65 c && leb c 70)

unfoldable pub all_hex : Text → Bool
unfolding is_hex_digit
all_hex [] = true
all_hex (c ∷ s) = is_hex_digit c && all_hex s

unfoldable pub valid_digest_nc : Text → Bool
unfolding all_hex byte_length
valid_digest_nc nc = (byte_length nc == 8) && all_hex nc

abbrev is_empty : Text → Bool
is_empty [] = true
is_empty (_ ∷ _) = false

-- The tests of checkDigestClientAuth in front of the table.
unfoldable pub passes_checks :
    Platform → DigestConfig → ℕ → DigestRequest → List (Text × Text) → Bool
unfolding verify_nonce valid_digest_nc byte_length param
passes_checks p cfg now r ps =
    let username = param ps (codes "username") in
    let algorithm = param ps (codes "algorithm") in
    not (is_empty username)
    && (is_empty cfg.client_username || eq_text username cfg.client_username)
    && eq_text (param ps (codes "realm")) digest_realm
    && not (is_empty (param ps (codes "uri")))
    && not (is_empty (param ps (codes "response")))
    && verify_nonce p now (param ps (codes "nonce")) r.remote_addr
    && eq_text (param ps (codes "uri")) r.target
    && p.equal_fold (param ps (codes "qop")) (codes "auth")
    && valid_digest_nc (param ps (codes "nc"))
    && not (is_empty (param ps (codes "cnonce")))
    && leb (byte_length (param ps (codes "cnonce"))) max_digest_cnonce_len
    && (is_empty algorithm || p.equal_fold algorithm (codes "MD5"))

unfoldable pub expected_response :
    Platform → DigestConfig → DigestRequest → List (Text × Text) → Text
unfolding join_colons param
expected_response p cfg r ps =
    let named = λ (name : String). param ps (codes name) in
    let ha1 =
      p.md5_hex (join_colons (named "username" ∷ named "realm" ∷ cfg.client_password ∷ [])) in
    let ha2 = p.md5_hex (join_colons (r.method ∷ named "uri" ∷ [])) in
    p.md5_hex
      (join_colons (ha1 ∷ named "nonce" ∷ named "nc" ∷ named "cnonce" ∷ named "qop" ∷ ha2 ∷ []))

abbrev pub key_of : List (Text × Text) → Text
key_of ps = nonce_key (param ps (codes "nonce")) (param ps (codes "nc"))

-- The part with the table: the key was not used, the response is right, and the key is marked.
unfoldable pub use_nonce :
    Platform
    → DigestConfig
    → ℕ
    → DigestRequest
    → List (Text × Text)
    → NonceTables
    → Bool × NonceTables
unfolding nonce_seen mark_if_new expected_response
use_nonce p cfg now r ps t =
    let (seen, t') = nonce_seen now (key_of ps) t in
    if seen || not (eq_text (param ps (codes "response")) (expected_response p cfg r ps))
    then (false, t')
    else mark_if_new now (key_of ps) t'

-- checkDigestClientAuth, all of it at one time.
unfoldable pub check_digest :
    Platform → DigestConfig → ℕ → DigestRequest → NonceTables → Bool × NonceTables
unfolding digest_params passes_checks use_nonce
check_digest p cfg now r t = elim (digest_params p r) [
  | none ↦ (false, t)
  | some ps ↦ if passes_checks p cfg now r ps then use_nonce p cfg now r ps t else (false, t)
]
