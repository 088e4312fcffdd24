-- ===== src/Wproxy/Examples.antt =====
-- Proxy lists and rules at concrete inputs, and each theorem of these modules at one of them.
use pxgo.Shared.{ℕ, ◌≡◌, ◌⊎◌, refl, Bool, true, false, Option, none, some, List, [], ◌∷◌, ◌++◌}
use pxgo.Shared.Text.{Text, codes, eq_text, cut}
use pxgo.Shared.Text.Search.{split_at}
use pxgo.Wproxy.{Platform, Server, direct, ◌>>=◌, parse_proxy}
use pxgo.Wproxy.ProxyList.{all_entries, servers_of, keep_first, parse_proxy-keep_first}
use pxgo.Wproxy.IpSet.{empty_set}
use pxgo.Wproxy.NoProxy.{host_matcher, normalize_host_rule, host_matches_no_proxy}
use pxgo.Wproxy.Route.{Wproxy, Resolvers, mode_config, get_netloc, find_proxy_for_url}
use pxgo.Wproxy.Bypass.{FitsOne, bypass_by_labels}

abbrev toy_platform : Platform
toy_platform = record {
  parse_ip = λ _. none;
  ip_text = λ _. [];
  to4 = λ _. none;
  parse_cidr = λ _. none;
  cidr_mask = λ _ _. [];
  net_contains = λ _ _. false;
  split_host_port = cut b':';
  join_host_port = λ host port. host ++ codes ":" ++ port;
  parse_url = λ _. none;
  to_lower = λ t. t;
  equal_fold = eq_text;
}

abbrev proxy_list : Text
proxy_list = codes "a:3128, DIRECT,b,a:3128"

abbrev proxy_a : Server
proxy_a = record { host = codes "a"; port = 3128; scheme = codes "http" }

abbrev proxy_b : Server
proxy_b = record { host = codes "b"; port = 80; scheme = codes "http" }

proxy_list_parsed : parse_proxy toy_platform proxy_list ≡ some (proxy_a ∷ direct ∷ proxy_b ∷ [])
unfolding parse_proxy cut pxgo.Shared.Text.is_space pxgo.Shared.Text.format_digits
proxy_list_parsed = refl

parse_proxy-keep_first_example :
    parse_proxy toy_platform proxy_list
    ≡ all_entries toy_platform (split_at b',' proxy_list)
      >>= (λ entries. some (servers_of (keep_first entries)))
parse_proxy-keep_first_example = parse_proxy-keep_first toy_platform proxy_list

-- One proxy, and a rule for example.org and what is below it.
abbrev office : Wproxy
office = record {
  mode = mode_config;
  servers = proxy_a ∷ [];
  no_proxy = empty_set;
  no_proxy_hosts = [];
  matchers = host_matcher (codes "example.org") 0 false ∷ [];
  has_pac = false;
  has_resolver = false;
  system_config = record {
    supported = false;
    found = false;
    auto_detect = false;
    is_pac = false;
    pac_url = [];
    manual_proxy = record { default = []; by_scheme = [] };
    bypass = [];
  };
  environment = record { by_scheme = []; all = [] };
}

abbrev no_resolvers : Resolvers
no_resolvers = record {
  find_by_pac = λ _ _. none;
  resolve_by_system = λ _ _. none;
  is_canonical = λ _. false;
  lookup_host = λ _. [];
}

abbrev inner : Server
inner = record { host = codes "www.example.org"; port = 443; scheme = [] }

inner_netloc : get_netloc toy_platform (codes "www.example.org:443") ≡ some (inner, codes "/")
unfolding get_netloc cut pxgo.Shared.Text.is_space
inner_netloc = refl

bypass_by_labels_example :
    (FitsOne toy_platform
        (normalize_host_rule toy_platform (codes "www.example.org"))
        443
        office.matchers
      × (find_proxy_for_url toy_platform no_resolvers office (codes "www.example.org:443")
          ≡ some (direct ∷ [], inner, codes "/")))
    ⊎ ((¬ FitsOne toy_platform
          (normalize_host_rule toy_platform (codes "www.example.org"))
          443
          office.matchers)
        × (host_matches_no_proxy toy_platform office.matchers (codes "www.example.org") 443
            ≡ false))
bypass_by_labels_example =
    bypass_by_labels toy_platform no_resolvers office (codes "www.example.org:443") (codes "/")
      inner inner_netloc
