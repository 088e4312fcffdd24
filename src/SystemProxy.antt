-- ===== src/SystemProxy.antt =====
-- internal/systemproxy/systemproxy.go: the proxies that a user has set in the system, and the resolver
-- that asks the system. The settings are text; lower case and the system's own resolver are
-- parameters.
use pxgo.Shared.{
  Bool, true, false, not, ◌&&◌, ◌||◌, Option, none, some, List, [], ◌∷◌, ◌++◌, ◌==◌, if◌then◌else◌,
}
use pxgo.Shared.Text.{Text, codes, eq_text, cut, trim_space}
use pxgo.Shared.Text.Table.{find_key, forget_key}
use pxgo.Shared.Text.Search.{contains_code, contains_text, split_at, join_with}

-- ManualProxyMap
pub record ManualProxyMap : Type 0 where
  pub default : Text
  pub by_scheme : List (Text × Text)

-- Config
pub record SystemConfig : Type 0 where
  pub supported : Bool
  pub found : Bool
  pub auto_detect : Bool
  pub is_pac : Bool
  pub pac_url : Text
  pub manual_proxy : ManualProxyMap
  pub bypass : Text

abbrev is_empty : Text → Bool
is_empty [] = true
is_empty (_ ∷ _) = false

abbrev no_schemes : List (Text × Text) → Bool
no_schemes [] = true
no_schemes (_ ∷ _) = false

-- ManualProxyMap.Empty
abbrev pub manual_is_empty : ManualProxyMap → Bool
manual_is_empty m = is_empty m.default && no_schemes m.by_scheme

abbrev text_or : Text → Option Text → Text
text_or default none = default
text_or default (some text) = if is_empty text then default else text

-- A SOCKS proxy that names no scheme is one of version 5.
abbrev as_socks : Text → Text → Text
as_socks scheme proxy =
    if eq_text scheme (codes "socks") && not (contains_text (codes "://") proxy)
    then codes "socks5://" ++ proxy
    else proxy

abbrev has_text : Text → List Text → Bool
has_text s [] = false
has_text s (t ∷ ts) = eq_text t s || has_text s ts

-- Each text once, where it stands first.
unfoldable pub unique_texts : List Text → List Text → List Text
unique_texts seen [] = []
unique_texts seen (t ∷ ts) =
    let rest = unique_texts (t ∷ seen) ts in
    let others = unique_texts seen ts in if has_text t seen then others else t ∷ rest

-- The separators of strings.FieldsFunc as commas; the fields are the parts that are not empty.
unfoldable pub as_commas : Text → Text
as_commas [] = []
as_commas (c ∷ s) = (if (c == b';') || (c == b' ') then b',' else c) ∷ as_commas s

-- The proxy of an item; one for ftp has none.
unfoldable pub manual_item : Text → Option Text
unfolding cut trim_space contains_text
manual_item item = elim (cut b'=' item) [
  | none ↦ some item
  | some (scheme, proxy) ↦
      if eq_text (trim_space scheme) (codes "ftp")
      then none
      else some (as_socks (trim_space scheme) (trim_space proxy))
]

abbrev put_first : Option Text → List Text → List Text
put_first none texts = texts
put_first (some text) texts = text ∷ texts

unfoldable pub manual_items : List Text → List Text
unfolding manual_item trim_space
manual_items [] = []
manual_items (raw ∷ items) =
    let rest = manual_items items in
    if is_empty (trim_space raw) then rest else put_first (manual_item (trim_space raw)) rest

module _ (to_lower : Text → Text) where
  -- ParseManualProxyString
  unfoldable pub parse_manual_proxy_string : Text → Text
  unfolding manual_items unique_texts as_commas split_at join_with
  parse_manual_proxy_string text =
      join_with b',' (unique_texts [] (manual_items (split_at b',' (as_commas (to_lower text)))))

  -- ManualProxyMap.ForScheme
  unfoldable pub manual_for_scheme : ManualProxyMap → Text → Text
  unfolding find_key trim_space
  manual_for_scheme m scheme =
      text_or m.default (find_key (to_lower (trim_space scheme)) m.by_scheme)

  -- An item of ParseManualProxyMap.
  unfoldable pub add_item : Text → ManualProxyMap → ManualProxyMap
  unfolding parse_manual_proxy_string cut trim_space contains_text forget_key
  add_item item m = elim (cut b'=' item) [
    | none ↦
        let proxies = parse_manual_proxy_string item in
        if is_empty proxies then m else record m { default = proxies }
    | some (raw_scheme, raw_proxy) ↦
        let scheme = to_lower (trim_space raw_scheme) in
        let proxy = trim_space raw_proxy in
        let parsed = parse_manual_proxy_string (as_socks scheme proxy) in
        if is_empty scheme || is_empty proxy
        then m
        else record m { by_scheme = (scheme, parsed) ∷ forget_key scheme m.by_scheme }
  ]

  unfoldable pub add_items : List Text → ManualProxyMap → ManualProxyMap
  unfolding add_item trim_space
  add_items [] m = m
  add_items (raw ∷ items) m =
      add_items items (if is_empty (trim_space raw) then m else add_item (trim_space raw) m)

  abbrev empty_map : ManualProxyMap
  empty_map = record { default = []; by_scheme = [] }

  -- ParseManualProxyMap
  unfoldable pub parse_manual_proxy_map : Text → ManualProxyMap
  unfolding add_items parse_manual_proxy_string contains_code split_at trim_space
  parse_manual_proxy_map text =
      let trimmed = trim_space text in
      if is_empty trimmed
      then empty_map
      else if contains_code b'=' trimmed
      then add_items (split_at b';' trimmed) empty_map
      else record empty_map { default = parse_manual_proxy_string trimmed }

  -- configFromDiscoveredSources
  unfoldable pub config_from_sources : Bool → Text → Text → Text → SystemConfig
  unfolding parse_manual_proxy_map
  config_from_sources auto_detect pac_url proxy bypass =
      let manual = parse_manual_proxy_map proxy in
      let is_pac = not (is_empty pac_url) in
      record {
        supported = true;
        found = auto_detect || is_pac || not (manual_is_empty manual);
        auto_detect = auto_detect;
        is_pac = is_pac;
        pac_url = pac_url;
        manual_proxy = manual;
        bypass = bypass;
      }

-- Resolver, up to its lock and its timeout: whether it was closed and has a backend.
pub record Resolver : Type 0 where
  pub has_backend : Bool
  pub closed : Bool

-- ResolveProxyForURL, with the answer of the backend in case it is asked.
unfoldable pub resolve_proxy_for_url : Option Text → SystemConfig → Resolver → Option Text
resolve_proxy_for_url answer cfg r =
    if not cfg.auto_detect && not cfg.is_pac
    then some []
    else if r.closed || not r.has_backend
    then none
    else answer

-- Resolver.Close, and whether it closes the backend.
unfoldable pub close_resolver : Resolver → Bool × Resolver
close_resolver r = if r.closed then (false, r) else (r.has_backend, record r { closed = true })
