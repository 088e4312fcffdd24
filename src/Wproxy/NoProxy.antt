-- ===== src/Wproxy/NoProxy.antt =====
-- internal/wproxy/wproxy.go: the rules for targets that need no proxy.
use pxgo.Shared.{
  ℕ, Bool, true, false, not, ◌&&◌, ◌||◌, Option, none, some, List, [], ◌∷◌, ◌++◌, ◌==◌,
  if◌then◌else◌,
}
use pxgo.Shared.Text.{Text, codes, eq_text, cut, format_uint, trim_space}
use pxgo.Shared.Text.Search.{
  has_prefix, has_suffix, trim_prefix, trim_suffix, contains_code, count_code, split_at,
}
use pxgo.Wproxy.IpSet.{IpSet, empty_set, any_of, add_cidr, add_range, is_ipv4_glob, add_glob}
use pxgo.Wproxy.{
  Platform, Ip, ◌>>=◌, ◌>>◌, guard, is_empty, is_there, is_one_of, parse_port, validate_host,
  trim_brackets,
}

pub record Matcher : Type 0 where
  pub host : Text
  pub port : ℕ
  pub subdomains_only : Bool
  pub local : Bool

abbrev pub host_matcher : Text → ℕ → Bool → Matcher
host_matcher host port subdomains_only = record {
  host = host;
  port = port;
  subdomains_only = subdomains_only;
  local = false;
}

-- What parseNoProxy has read so far; `hosts` are the keys of its map.
pub record Rules : Type 0 where
  pub set : IpSet
  pub hosts : List Text
  pub matchers : List Matcher

abbrev pub no_rules : Rules
no_rules = record { set = empty_set; hosts = []; matchers = [] }

abbrev pub add_host : Text → List Text → List Text
add_host host hosts = if is_one_of host hosts then hosts else hosts ++ host ∷ []

abbrev pub add_matcher : Text → Matcher → Rules → Rules
add_matcher key matcher r = record r {
  hosts = add_host key r.hosts;
  matchers = r.matchers ++ matcher ∷ [];
}

abbrev with_set : Rules → Option IpSet → Option Rules
with_set r none = none
with_set r (some set) = some (record r { set = set })

module _ (p : Platform) where
  -- normalizeHostRule
  unfoldable pub normalize_host_rule : Text → Text
  unfolding trim_prefix trim_suffix
  normalize_host_rule host = trim_suffix (trim_prefix (p.to_lower host) (codes ".")) (codes ".")

  -- parseIPToken
  unfoldable pub parse_ip_token : Text → Option Ip
  unfolding trim_brackets
  parse_ip_token token = p.parse_ip (trim_brackets token)

  -- looksLikeIP
  unfoldable pub looks_like_ip : Text → Bool
  unfolding count_code contains_code
  looks_like_ip token =
      is_there (p.parse_ip token) || (count_code b'.' token == 3) || contains_code b':' token

  -- looksLikeIPRange, with the two sides.
  unfoldable pub ip_range_sides : Text → Option (Text × Text)
  unfolding looks_like_ip count_code cut
  ip_range_sides token = do
    guard (count_code b'-' token == 1)
    (a, b) ← cut b'-' token
    guard (looks_like_ip a && looks_like_ip b)
    some (a, b)

  -- parseNoProxyHostPort
  unfoldable pub parse_no_proxy_host_port : Text → Option (Text × ℕ)
  unfolding validate_host parse_port
  parse_no_proxy_host_port token = do
    (host, port_text) ← p.split_host_port token
    guard (validate_host host)
    port ← parse_port port_text
    some (host, port)

  -- "<local>": the loop-back addresses, and hosts without a dot unless the rules are for addresses.
  local_rule : Bool → Rules → Option Rules
  unfolding add_cidr
  local_rule ip_only r = do
    set4 ← add_cidr p (codes "127.0.0.0/8") r.set
    set ← add_cidr p (codes "::1/128") set4
    let hosts = add_host (codes "localhost") r.hosts
    let matcher : Matcher = record (host_matcher [] 0 false) { local = true }
    let matchers = if ip_only then r.matchers else r.matchers ++ matcher ∷ []
    some (record { set = set; hosts = hosts; matchers = matchers })

  -- A rule with a star.
  wildcard_rule : Bool → Text → Rules → Option Rules
  unfolding is_ipv4_glob add_glob has_prefix trim_prefix normalize_host_rule validate_host
  wildcard_rule ip_only rule r =
      let host = normalize_host_rule (trim_prefix rule (codes "*.")) in
      if is_ipv4_glob p rule
      then with_set r (add_glob p rule r.set)
      else if not ip_only && has_prefix rule (codes "*.") && validate_host host
      then some (add_matcher (codes "*." ++ host) (host_matcher host 0 true) r)
      else none

  -- A rule for a host, with a port or none.
  host_rule : Bool → Text → Rules → Option Rules
  unfolding parse_no_proxy_host_port normalize_host_rule validate_host contains_code
  host_rule ip_only rule r =
      let named = normalize_host_rule rule in
      if ip_only
      then none
      else if contains_code b':' rule
      then parse_no_proxy_host_port rule >>= (λ (host, port). some (
          add_matcher (p.join_host_port host (format_uint port))
            (host_matcher (normalize_host_rule host) port false) r))
      else guard (validate_host named) >> some (add_matcher rule (host_matcher named 0 false) r)

  other_rule : Bool → Text → Rules → Option Rules
  unfolding wildcard_rule host_rule ip_range_sides add_range contains_code
  other_rule ip_only rule r = elim (ip_range_sides rule) [
    | some (a, b) ↦ with_set r (add_range p a b r.set)
    | none ↦
        if contains_code b'*' rule then wildcard_rule ip_only rule r else host_rule ip_only rule r
  ]

  -- A rule that is not blank, in the order of the source's tests.
  unfoldable pub parse_rule : Bool → Text → Rules → Option Rules
  unfolding local_rule other_rule parse_ip_token add_cidr contains_code
  parse_rule ip_only rule r =
      if eq_text rule (codes "<local>")
      then local_rule ip_only r
      else if eq_text rule (codes "*") && not ip_only
      then some (add_matcher rule (host_matcher rule 0 false) r)
      else elim (parse_ip_token rule) [
        | some ip ↦ with_set r (add_cidr p (p.ip_text ip) r.set)
        | none ↦
            if contains_code b'/' rule
            then with_set r (add_cidr p rule r.set)
            else other_rule ip_only rule r
      ]

  unfoldable pub parse_rules : Bool → List Text → Rules → Option Rules
  unfolding parse_rule trim_space
  parse_rules ip_only [] r = some r
  parse_rules ip_only (raw ∷ items) r =
      let rest = parse_rules ip_only items in
      if is_empty (trim_space raw) then rest r else parse_rule ip_only (trim_space raw) r >>= rest

  -- strings.NewReplacer(";", ",", " ", ",")
  unfoldable pub replace_separators : Text → Text
  replace_separators [] = []
  replace_separators (c ∷ s) =
      (if (c == b';') || (c == b' ') then b',' else c) ∷ replace_separators s

  -- parseNoProxy
  unfoldable pub parse_no_proxy : Text → Bool → Option Rules
  unfolding parse_rules replace_separators split_at trim_space
  parse_no_proxy text ip_only =
      if is_empty (trim_space text)
      then some no_rules
      else parse_rules ip_only (split_at b',' (replace_separators (p.to_lower text))) no_rules

  -- The tests of hostMatchesNoProxy for one matcher and the normalised host.
  unfoldable pub matches : Text → ℕ → Matcher → Bool
  unfolding contains_code has_suffix
  matches host port m =
      let is_below = has_suffix host (b'.' ∷ m.host) in
      if m.local
      then not (is_there (p.parse_ip host)) && not (contains_code b'.' host)
      else if not (m.port == 0) && not (m.port == port)
      then false
      else if eq_text m.host (codes "*")
      then true
      else if m.subdomains_only
      then is_below
      else eq_text host m.host || is_below

  -- hostMatchesNoProxy
  unfoldable pub host_matches_no_proxy : List Matcher → Text → ℕ → Bool
  unfolding matches any_of normalize_host_rule
  host_matches_no_proxy matchers host port =
      any_of (matches (normalize_host_rule host) port) matchers
