-- ===== src/Wproxy.antt =====
-- internal/wproxy/wproxy.go: which proxies a request may take. Addresses, URLs and the folding of
-- case are other packages: they are fields of `Platform`. An error is none, its text is not
-- modelled. This file has the parsers; the child modules have the rest.
pub mod Bypass
pub mod IpSet
mod Examples
pub mod NoProxy
pub mod ProxyList
pub mod Route
pub mod Setup
use pxgo.Shared.{
  ℕ, ℤ, pos, negsuc, Bool, true, false, not, ◌&&◌, ◌||◌, Option, none, some, List, [], ◌∷◌, ◌++◌,
  ◌==◌, leb, if◌then◌else◌,
}
use pxgo.Shared.Text.{Text, codes, eq_text, format_uint, trim_space}
use pxgo.Shared.Text.ParseInt.{parse_int}
use pxgo.Shared.Text.Search.{
  has_prefix, has_suffix, trim_prefix, trim_suffix, contains_code, contains_text, split_at,
}

infixl 5 ◌>>=◌ ◌>>◌
abbrev pub ◌>>=◌ : {A B : Type 0} → Option A → (A → Option B) → Option B
none >>= f = none
some a >>= f = f a

abbrev pub ◌>>◌ : {A : Type 0} → Option (Unit {0}) → Option A → Option A
m >> k = m >>= λ _. k

abbrev pub guard : Bool → Option (Unit {0})
guard true = some tt
guard false = none

-- What the source reads of a net/url.URL.
pub record Url : Type 0 where
  pub scheme : Text
  pub has_user : Bool
  pub hostname : Text
  pub port : Text
  pub path : Text
  pub escaped_path : Text
  pub raw_query : Text
  pub fragment : Text

-- net.IP, and net.IPNet.
abbrev pub Ip : Type 0
Ip = List ℕ

pub record IpNet : Type 0 where
  pub ip : Ip
  pub mask : List ℕ

-- What packages net, net/url and strings compute.
pub record Platform : Type 0 where
  pub parse_ip : Text → Option Ip
  pub ip_text : Ip → Text
  pub to4 : Ip → Option Ip
  pub parse_cidr : Text → Option IpNet
  pub cidr_mask : ℕ → ℕ → List ℕ
  pub net_contains : IpNet → Ip → Bool
  pub split_host_port : Text → Option (Text × Text)
  pub join_host_port : Text → Text → Text
  pub parse_url : Text → Option Url
  pub to_lower : Text → Text
  pub equal_fold : Text → Text → Bool

pub record Server : Type 0 where
  pub host : Text
  pub port : ℕ
  pub scheme : Text

-- Direct
abbrev pub direct : Server
direct = record { host = codes "DIRECT"; port = 80; scheme = codes "direct" }

abbrev pub is_empty : Text → Bool
is_empty [] = true
is_empty (_ ∷ _) = false

abbrev pub is_there : {A : Type 0} → Option A → Bool
is_there none = false
is_there (some _) = true

-- The text is one of them.
unfoldable pub is_one_of : Text → List Text → Bool
is_one_of s [] = false
is_one_of s (t ∷ ts) = eq_text s t || is_one_of s ts

-- validProxyScheme
unfoldable pub valid_proxy_scheme : Text → Bool
unfolding is_one_of
valid_proxy_scheme scheme = is_one_of scheme (
    codes "http"
    ∷ codes "https"
    ∷ codes "socks"
    ∷ codes "socks4"
    ∷ codes "socks4a"
    ∷ codes "socks5"
    ∷ [])

-- defaultProxyPort
unfoldable pub default_proxy_port : Text → ℕ
unfolding is_one_of
default_proxy_port scheme =
    if eq_text scheme (codes "https")
    then 443
    else if is_one_of scheme
        (codes "socks" ∷ codes "socks4" ∷ codes "socks4a" ∷ codes "socks5" ∷ [])
    then 1080
    else 80

abbrev as_port : Option ℤ → Option ℕ
as_port none = none
as_port (some (pos n)) = if leb 1 n && leb n 65535 then some n else none
as_port (some (negsuc _)) = none

-- parsePort
unfoldable pub parse_port : Text → Option ℕ
unfolding parse_int
parse_port raw = as_port (parse_int raw)

-- A code point that no host has.
abbrev is_bad_in_host : ℕ → Bool
is_bad_in_host c =
    (c == b' ')
    || (c == 9)
    || (c == 13)
    || (c == 10)
    || (c == b'/')
    || (c == b'?')
    || (c == b'#')
    || (c == b'[')
    || (c == b']')

unfoldable pub has_bad_code : Text → Bool
has_bad_code [] = false
has_bad_code (c ∷ s) = is_bad_in_host c || has_bad_code s

-- validateHost
unfoldable pub validate_host : Text → Bool
unfolding trim_space has_bad_code
validate_host host = not (is_empty (trim_space host)) && not (has_bad_code host)

-- An address between brackets, without them.
unfoldable pub trim_brackets : Text → Text
unfolding has_prefix has_suffix trim_prefix trim_suffix
trim_brackets s =
    if has_prefix s (codes "[") && has_suffix s (codes "]")
    then trim_suffix (trim_prefix s (codes "[")) (codes "]")
    else s

module _ (p : Platform) where
  host_and_port : Text → Option (Text × ℕ)
  unfolding parse_port validate_host
  host_and_port value = do
    (host, port_text) ← p.split_host_port value
    port ← parse_port port_text
    guard (validate_host host)
    some (host, port)

  -- The address of a text that is one, with or without brackets; none where the text is another, or
  -- wrong between its brackets.
  authority_of : Text → ℕ → Option (Text × ℕ)
  unfolding host_and_port validate_host has_prefix has_suffix trim_prefix trim_suffix contains_code
  authority_of value default_port =
      if has_prefix value (codes "[") && has_suffix value (codes "]")
      then p.parse_ip (trim_suffix (trim_prefix value (codes "[")) (codes "]"))
        >>= (λ ip. some (p.ip_text ip, default_port))
      else if contains_code b':' value
      then host_and_port value
      else guard (validate_host value) >> some (value, default_port)

  -- parseAuthority
  unfoldable pub parse_authority : Text → ℕ → Option (Text × ℕ)
  unfolding authority_of trim_space
  parse_authority raw default_port =
      let value = trim_space raw in
      if is_empty value then none else elim (p.parse_ip value) [
        | some ip ↦ some (p.ip_text ip, default_port)
        | none ↦ authority_of value default_port
      ]

  -- The port that a URL names, or the one of its scheme.
  unfoldable pub port_or : Text → ℕ → Option ℕ
  unfolding parse_port
  port_or port default_port = if is_empty port then some default_port else parse_port port

  endpoint_of_url : Url → Option Server
  unfolding valid_proxy_scheme default_proxy_port port_or validate_host
  endpoint_of_url u = do
    let scheme = p.to_lower u.scheme
    guard (valid_proxy_scheme scheme)
    guard (not u.has_user && (is_empty u.path || eq_text u.path (codes "/")))
    guard (is_empty u.raw_query && is_empty u.fragment)
    port ← port_or u.port (default_proxy_port scheme)
    guard (validate_host u.hostname)
    some (record { host = u.hostname; port = port; scheme = scheme })

  endpoint_of_authority : Text → Option Server
  unfolding parse_authority validate_host
  endpoint_of_authority s = do
    (host, port) ← parse_authority s 80
    guard (validate_host host)
    some (record { host = host; port = port; scheme = codes "http" })

  -- parseProxyEndpoint
  unfoldable pub parse_proxy_endpoint : Text → Option Server
  unfolding endpoint_of_url endpoint_of_authority contains_text trim_space
  parse_proxy_endpoint raw =
      let s = trim_space raw in
      if is_empty s
      then none
      else if contains_text (codes "://") s
      then p.parse_url s >>= endpoint_of_url
      else endpoint_of_authority s

  -- The key by which ParseProxy knows a server that it has.
  unfoldable pub server_key : Server → Text
  server_key s =
      s.scheme ++ codes "://" ++ p.join_host_port (p.to_lower s.host) (format_uint s.port)

  abbrev pub direct_key : Text
  direct_key = codes "direct://DIRECT:80"

  -- The server of an item, and its key.
  unfoldable pub parse_item : Text → Option (Server × Text)
  unfolding parse_proxy_endpoint server_key
  parse_item item =
      if p.equal_fold item (codes "DIRECT")
      then some (direct, direct_key)
      else parse_proxy_endpoint item >>= (λ server. some (server, server_key server))

  -- The loop of ParseProxy, with the keys that it has seen.
  unfoldable pub parse_items : List Text → List Text → List Server → Option (List Server)
  unfolding parse_item is_one_of trim_space
  parse_items [] seen servers = some servers
  parse_items (raw ∷ items) seen servers =
      let item = trim_space raw in
      let rest = parse_items items in
      if is_empty item
      then rest seen servers
      else parse_item item >>= (λ (server, key).
        if is_one_of key seen
        then rest seen servers
        else rest (key ∷ seen) (servers ++ server ∷ []))

  -- ParseProxy
  unfoldable pub parse_proxy : Text → Option (List Server)
  unfolding parse_items split_at trim_space
  parse_proxy text =
      if is_empty (trim_space text) then some [] else parse_items (split_at b',' text) [] []
