-- ===== src/Wproxy/Setup.antt =====
-- internal/wproxy/wproxy.go: what `Wproxy` is made from, the proxies and the rules of the
-- configuration, the system or the environment. What the process asks the system for is in `World`;
-- SystemProxySupported and NoProxyHostsStr, which are only shown, are left out.
use pxgo.Shared.{
  Bool, true, false, not, ◌&&◌, ◌||◌, Option, none, some, List, [], ◌∷◌, ◌++◌, if◌then◌else◌,
}
use pxgo.Shared.Text.{Text, codes}
use pxgo.SystemProxy.{SystemConfig, manual_is_empty}
use pxgo.Wproxy.{Platform, Server, ◌>>=◌, ◌>>◌, guard, is_empty, is_there, parse_proxy}
use pxgo.Wproxy.NoProxy.{Rules, add_host, parse_no_proxy}
use pxgo.Wproxy.Route.{
  Mode, mode_none, mode_auto, mode_pac, mode_manual, mode_env, mode_config, mode_config_pac,
  EnvironmentProxies, Wproxy, is_none, is_mode_none, environment_for_scheme,
}

pub data RouteSource : Type 0 where
  from_direct from_config from_config_pac from_system_auto from_system_pac from_system_auto_pac :
      RouteSource
  from_system_manual from_environment : RouteSource

-- routeSourceForMode
unfoldable pub route_source_for_mode : Mode → RouteSource
route_source_for_mode mode_config = from_config
route_source_for_mode mode_config_pac = from_config_pac
route_source_for_mode mode_auto = from_system_auto
route_source_for_mode mode_pac = from_system_pac
route_source_for_mode mode_manual = from_system_manual
route_source_for_mode mode_env = from_environment
route_source_for_mode mode_none = from_direct

-- The settings of the system, the environment (where a variable that is not set is empty), whether
-- the script at an address loads, and whether a resolver of the system starts.
pub record World : Type 0 where
  pub system : SystemConfig
  pub getenv : Text → Text
  pub loads_pac : Text → Bool
  pub starts_resolver : Bool

abbrev pub no_system : SystemConfig
no_system = record {
  supported = false;
  found = false;
  auto_detect = false;
  is_pac = false;
  pac_url = [];
  manual_proxy = record { default = []; by_scheme = [] };
  bypass = [];
}

abbrev pub no_environment : EnvironmentProxies
no_environment = record { by_scheme = []; all = [] }

-- firstEnv
unfoldable pub first_env : World → List Text → Text
first_env world [] = []
first_env world (key ∷ keys) =
    let others = first_env world keys in
    if is_empty (world.getenv key) then others else world.getenv key

unfoldable pub merge_hosts : List Text → List Text → List Text
merge_hosts hosts [] = hosts
merge_hosts hosts (host ∷ others) = merge_hosts (add_host host hosts) others

-- A Wproxy that is being made, and its source.
abbrev pub Made : Type 0
Made = Wproxy × RouteSource

abbrev pac_server : Text → Server
pac_server url = record { host = url; port = 0; scheme = codes "pac" }

module _ (p : Platform) where
  -- The proxies of one variable: none where it is not set.
  env_servers : World → List Text → Option (Option (List Server))
  unfolding first_env parse_proxy
  env_servers world keys =
      let raw = first_env world keys in
      if is_empty raw then some none else parse_proxy p raw >>= (λ servers. some (some servers))

  abbrev add_scheme :
      Text → Option (List Server) → List (Text × List Server) → List (Text × List Server)
  add_scheme scheme none by_scheme = by_scheme
  add_scheme scheme (some servers) by_scheme = (scheme, servers) ∷ by_scheme

  abbrev or_none : Option (List Server) → List Server
  or_none none = []
  or_none (some servers) = servers

  -- discoverEnvironmentProxies, and whether a variable was set.
  unfoldable pub discover_environment_proxies : World → Option (EnvironmentProxies × Bool)
  unfolding env_servers
  discover_environment_proxies world = do
    http ← env_servers world (codes "http_proxy" ∷ codes "HTTP_PROXY" ∷ [])
    https ← env_servers world (codes "https_proxy" ∷ codes "HTTPS_PROXY" ∷ [])
    all ← env_servers world (codes "all_proxy" ∷ codes "ALL_PROXY" ∷ [])
    let by_scheme = add_scheme (codes "http") http (add_scheme (codes "https") https [])
    let result : EnvironmentProxies = record { by_scheme = by_scheme; all = or_none all }
    some (result, is_there http || is_there https || is_there all)

  -- mergeNoProxy
  unfoldable pub merge_no_proxy : Text → Wproxy → Option Wproxy
  unfolding parse_no_proxy merge_hosts
  merge_no_proxy text w =
      if is_empty text
      then some w
      else parse_no_proxy p text false >>= (λ rules. some (record w {
        no_proxy = record {
          nets = w.no_proxy.nets ++ rules.set.nets;
          ranges = w.no_proxy.ranges ++ rules.set.ranges;
        };
        matchers = w.matchers ++ rules.matchers;
        no_proxy_hosts = merge_hosts w.no_proxy_hosts rules.hosts;
      }))

  -- The mode, the source and the servers that the settings of the system ask for.
  system_choice : SystemConfig → Wproxy → Option Made
  system_choice sys w =
      let with_pac : List Server = pac_server sys.pac_url ∷ [] in
      let found = record w { system_config = sys } in
      if sys.auto_detect && sys.is_pac
      then some (record found { mode = mode_auto; servers = with_pac }, from_system_auto_pac)
      else if sys.auto_detect
      then some (record found { mode = mode_auto }, from_system_auto)
      else if sys.is_pac
      then some (record found { mode = mode_pac; servers = with_pac }, from_system_pac)
      else if not (manual_is_empty sys.manual_proxy)
      then some (record found { mode = mode_manual }, from_system_manual)
      else none

  from_system : SystemConfig → Wproxy → Option Made
  unfolding system_choice merge_no_proxy
  from_system sys w = do
    (chosen, source) ← system_choice sys w
    merged ← merge_no_proxy sys.bypass chosen
    some (merged, source)

  -- The servers that stand for the environment where no scheme is asked for.
  first_servers : EnvironmentProxies → List Server
  unfolding environment_for_scheme
  first_servers e =
      let servers = environment_for_scheme p e (codes "http") in
      if is_none servers then e.all else servers

  from_env : World → Wproxy → Option Made
  unfolding discover_environment_proxies first_servers merge_no_proxy first_env
  from_env world w = do
    (proxies, is_set) ← discover_environment_proxies world
    let servers = first_servers proxies
    let chosen = record w { mode = mode_env; environment = proxies; servers = servers }
    let rules = first_env world (codes "no_proxy" ∷ codes "NO_PROXY" ∷ [])
    let merged = merge_no_proxy rules chosen
    elim is_set [
      | true ↦ merged >>= (λ w'. some (w', from_environment))
      | false ↦ some (w, from_direct)
    ]

  -- The Wproxy of the configuration alone.
  configured : World → Mode → List Server → Rules → Option Wproxy
  configured world mode servers rules =
      let w : Wproxy = record {
        mode = mode;
        servers = servers;
        no_proxy = rules.set;
        no_proxy_hosts = rules.hosts;
        matchers = rules.matchers;
        has_pac = false;
        has_resolver = false;
        system_config = no_system;
        environment = no_environment;
      } in
      load_pac world mode servers w
    where
      load_pac : World → Mode → List Server → Wproxy → Option Wproxy
      load_pac world mode_config_pac (server ∷ _) w =
          guard (world.loads_pac server.host) >> some (record w { has_pac = true })
      load_pac world mode_config_pac [] w = some w
      load_pac world mode_none _ w = some w
      load_pac world mode_auto _ w = some w
      load_pac world mode_pac _ w = some w
      load_pac world mode_manual _ w = some w
      load_pac world mode_env _ w = some w
      load_pac world mode_config _ w = some w

  first_host : List Server → Text
  first_host [] = []
  first_host (server ∷ _) = server.host

  -- The resolver of the system, for a mode that needs it; a mode that was asked for gets settings of
  -- its own.
  start_resolver : World → SystemConfig → Wproxy → Option Wproxy
  start_resolver world own w =
      guard world.starts_resolver
      >> some (record w {
        has_resolver = true;
        system_config = if w.system_config.found then w.system_config else own;
      })

  with_resolver : World → Mode → Wproxy → Option Wproxy
  unfolding start_resolver first_host
  with_resolver world mode_auto w =
      start_resolver world (record no_system { supported = true; found = true; auto_detect = true })
        w
  with_resolver world mode_pac w =
      start_resolver world
        (record no_system {
          supported = true;
          found = true;
          is_pac = true;
          pac_url = first_host w.servers;
        })
        w
  with_resolver world mode_none w = some w
  with_resolver world mode_manual w = some w
  with_resolver world mode_env w = some w
  with_resolver world mode_config w = some w
  with_resolver world mode_config_pac w = some w

  -- NewWithDNS; the cache is the default one where none is given.
  unfoldable pub new_with_dns : World → Mode → List Server → Text → Option Made
  unfolding configured from_system from_env with_resolver route_source_for_mode parse_no_proxy
  new_with_dns world mode servers no_proxy = do
    rules ← parse_no_proxy p no_proxy false
    base ← configured world mode servers rules
    (chosen, source) ←
        (if is_mode_none mode
          then (if world.system.found then from_system world.system base else from_env world base)
          else some (base, route_source_for_mode mode))
    made ← with_resolver world chosen.mode chosen
    some (made, source)

-- Close, and whether it closes a resolver.
unfoldable pub close : Wproxy → Bool × Wproxy
close w = (w.has_resolver, record w { has_resolver = false })
