-- ===== src/Wproxy/Route.antt =====
-- internal/wproxy/wproxy.go: the choice of the proxies for a URL. PAC scripts, the resolver of the
-- operating system and the DNS cache are the fields of `Resolvers`.
use pxgo.Shared.{
  Bool, true, false, not, ◌&&◌, ◌||◌, Option, none, some, List, [], ◌∷◌, ◌++◌, ◌==◌, if◌then◌else◌,
}
use pxgo.Shared.Text.{Text, codes, eq_text, trim_space}
use pxgo.Shared.Text.Table.{find_key}
use pxgo.Shared.Text.Search.{contains_text}
use pxgo.SystemProxy.{SystemConfig, manual_is_empty, manual_for_scheme}
use pxgo.Wproxy.{
  Platform, Url, Ip, Server, direct, ◌>>=◌, ◌>>◌, guard, is_empty, validate_host, port_or,
  parse_authority, parse_proxy,
}
use pxgo.Wproxy.IpSet.{IpSet, any_of, set_size, set_contains}
use pxgo.Wproxy.NoProxy.{Matcher, normalize_host_rule, host_matches_no_proxy}

pub data Mode : Type 0 where
  mode_none mode_auto mode_pac mode_manual mode_env mode_config mode_config_pac : Mode

pub record EnvironmentProxies : Type 0 where
  pub by_scheme : List (Text × List Server)
  pub all : List Server

-- Wproxy, with whether it has a PAC script and a resolver of the system.
pub record Wproxy : Type 0 where
  pub mode : Mode
  pub servers : List Server
  pub no_proxy : IpSet
  pub no_proxy_hosts : List Text
  pub matchers : List Matcher
  pub has_pac : Bool
  pub has_resolver : Bool
  pub system_config : SystemConfig
  pub environment : EnvironmentProxies

-- PAC.FindProxyForURLWithError, ResolveProxyForURL, pac.ValidateCanonicalResult, and LookupContext,
-- whose error is no address.
pub record Resolvers : Type 0 where
  pub find_by_pac : Text → Text → Option Text
  pub resolve_by_system : Text → SystemConfig → Option Text
  pub is_canonical : Text → Bool
  pub lookup_host : Text → List Ip

abbrev pub is_none : {A : Type 0} → List A → Bool
is_none [] = true
is_none (_ ∷ _) = false

abbrev pub servers_or : List Server → Option (List Server) → List Server
servers_or others none = others
servers_or others (some servers) = if is_none servers then others else servers

abbrev pub is_mode_none : Mode → Bool
is_mode_none mode_none = true
is_mode_none mode_auto = false
is_mode_none mode_pac = false
is_mode_none mode_manual = false
is_mode_none mode_env = false
is_mode_none mode_config = false
is_mode_none mode_config_pac = false

module _ (p : Platform) where
  -- environmentProxySet.forScheme
  unfoldable pub environment_for_scheme : EnvironmentProxies → Text → List Server
  unfolding find_key
  environment_for_scheme e scheme = servers_or e.all (find_key (p.to_lower scheme) e.by_scheme)

  -- The target of a URL, and the path with the query.
  netloc_of_url : Url → Option (Server × Text)
  unfolding validate_host port_or
  netloc_of_url u = do
    let scheme = p.to_lower u.scheme
    let default_port =
        if eq_text scheme (codes "https")
        then 443
        else if eq_text scheme (codes "ftp")
        then 21
        else 80
    guard (validate_host u.hostname)
    port ← port_or p u.port default_port
    let path = if is_empty u.escaped_path then codes "/" else u.escaped_path
    let query = if is_empty u.raw_query then [] else codes "?" ++ u.raw_query
    some (record { host = u.hostname; port = port; scheme = scheme }, path ++ query)

  -- GetNetloc
  unfoldable pub get_netloc : Text → Option (Server × Text)
  unfolding netloc_of_url parse_authority contains_text
  get_netloc raw =
      if contains_text (codes "://") raw
      then p.parse_url raw >>= netloc_of_url
      else parse_authority p raw 80
        >>= (λ (host, port). some (record { host = host; port = port; scheme = [] }, codes "/"))

  module _ (rs : Resolvers) where
    -- isNoProxy
    unfoldable pub is_no_proxy : Wproxy → Server → Bool
    unfolding host_matches_no_proxy set_size set_contains any_of normalize_host_rule
    is_no_proxy w netloc =
        let host = normalize_host_rule p netloc.host in
        if host_matches_no_proxy p w.matchers netloc.host netloc.port
        then true
        else if set_size w.no_proxy == 0
        then false
        else elim (p.parse_ip host) [
          | some ip ↦ set_contains p w.no_proxy ip
          | none ↦ any_of (set_contains p w.no_proxy) (rs.lookup_host host)
        ]

    -- The answer of the configured PAC script.
    pac_servers : Text → Server → Option (List Server)
    unfolding parse_proxy
    pac_servers raw netloc = rs.find_by_pac raw netloc.host >>= parse_proxy p

    -- The proxies of the environment; those of `servers` if it has none of its own.
    environment_servers : Wproxy → Server → List Server
    unfolding environment_for_scheme
    environment_servers w netloc =
        let found = environment_for_scheme w.environment netloc.scheme in
        let servers =
          if is_none found && is_none w.environment.by_scheme && is_none w.environment.all
          then w.servers
          else found in
        if is_none servers then direct ∷ [] else servers

    -- The proxy that the user has set in the system.
    manual_servers : Wproxy → Server → Option (List Server)
    unfolding manual_for_scheme parse_proxy trim_space
    manual_servers w netloc =
        let raw = manual_for_scheme p.to_lower w.system_config.manual_proxy netloc.scheme in
        if is_empty (trim_space raw) then some (direct ∷ []) else parse_proxy p raw

    -- The answer of the system's resolver.
    system_servers : Wproxy → Text → Option (List Server)
    unfolding parse_proxy trim_space
    system_servers w raw = do
      guard w.has_resolver
      out ← rs.resolve_by_system raw w.system_config
      guard (not (is_empty (trim_space out)) && rs.is_canonical out)
      parse_proxy p out

    -- The servers for a target that needs a proxy.
    unfoldable pub mode_servers : Mode → Wproxy → Text → Server → Option (List Server)
    unfolding pac_servers environment_servers manual_servers system_servers
    mode_servers mode_config_pac w raw netloc =
        if w.has_pac then pac_servers raw netloc else some w.servers
    mode_servers mode_env w raw netloc = some (environment_servers w netloc)
    mode_servers mode_manual w raw netloc =
        if manual_is_empty w.system_config.manual_proxy
        then some w.servers
        else manual_servers w netloc
    mode_servers mode_auto w raw netloc = system_servers w raw
    mode_servers mode_pac w raw netloc = system_servers w raw
    mode_servers mode_none w raw netloc = some w.servers
    mode_servers mode_config w raw netloc = some w.servers

    -- FindProxyForURL: the candidates, the target and the path.
    unfoldable pub find_proxy_for_url : Wproxy → Text → Option (List Server × Server × Text)
    unfolding get_netloc is_no_proxy mode_servers
    find_proxy_for_url w raw = do
      (netloc, path) ← get_netloc raw
      let needs_none = is_mode_none w.mode || is_no_proxy w netloc
      servers ← (if needs_none then some (direct ∷ []) else mode_servers w.mode w raw netloc)
      some (servers, netloc, path)
