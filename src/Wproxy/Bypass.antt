-- ===== src/Wproxy/Bypass.antt =====
-- Wproxy/NoProxy.antt and Wproxy/Route.antt: which targets a rule for a host lets pass, told by the
-- labels of their names.
use pxgo.Shared.{
  ℕ, ◌≡◌, ◌≢◌, ◌↔◌, ◌⊎◌, refl, ap, sym, ◌∙◌, Bool, true, false, not, ◌&&◌, ◌||◌, Option, none, some,
  List, [], ◌∷◌, ◌++◌, inl, inr, Bool-cases, arith, ◌==◌, ==_iff, if◌then◌else◌,
}
use pxgo.Shared.Text.{Text, codes, eq_text}
use pxgo.Shared.Text.Laws.{eq_text_refl, eq_text_sound}
use pxgo.Shared.Text.Search.{contains_code, has_suffix, split_at}
use pxgo.Shared.Text.Trim.{split_at-contains}
use pxgo.Shared.Text.Parts.{
  contains-one_part, split_at-injective, has_suffix-parts, parts-has_suffix,
}
use pxgo.Wproxy.{Platform, Server, direct, is_there, ◌>>=◌}
use pxgo.Wproxy.IpSet.{any_of}
use pxgo.Wproxy.NoProxy.{Matcher, matches, normalize_host_rule, host_matches_no_proxy}
use pxgo.Wproxy.Route.{
  Wproxy, Resolvers, get_netloc, is_no_proxy, is_mode_none, mode_servers, find_proxy_for_url,
}

-- The labels of a host name.
abbrev pub labels : Text → List Text
labels host = split_at b'.' host

-- The labels of the host end in those of the rule; with `strictly`, there is one in front of them.
abbrev pub Under : Bool → Text → Text → Type 0
Under strictly host rule =
    (xs : List Text) × (labels host ≡ xs ++ labels rule) × (strictly ≡ true → xs ≢ [])

-- The code's test for it.
abbrev is_under : Bool → Text → Text → Bool
is_under strictly host rule =
    if strictly
    then has_suffix host (b'.' ∷ rule)
    else eq_text host rule || has_suffix host (b'.' ∷ rule)

below-Under :
    (strictly : Bool) (host rule : Text)
    → has_suffix host (b'.' ∷ rule) ≡ true
    → Under strictly host rule
below-Under strictly host rule h =
    let (x, xs, e) = has_suffix-parts b'.' host rule h in
    (x ∷ xs, e, λ _ no_label. ground (arith, no_label))

is_under-Under :
    (strictly : Bool) (host rule : Text)
    → is_under strictly host rule ≡ true
    → Under strictly host rule
is_under-Under true host rule h = below-Under true host rule h
is_under-Under false host rule h = elim (Bool-cases (eq_text host rule)) [
  | inl same ↦ ([], ap labels (eq_text_sound host rule same), λ e. absurd (ground (arith, e)))
  | inr other ↦ below-Under false host rule (ground (arith, h, other))
]

Under-is_under :
    (strictly : Bool) (host rule : Text)
    → Under strictly host rule
    → is_under strictly host rule ≡ true
Under-is_under true host rule ([], e, real) = absurd (real refl refl)
Under-is_under true host rule (x ∷ xs, e, real) = parts-has_suffix b'.' host rule x xs e
Under-is_under false host rule ([], e, real) =
    rw (split_at-injective b'.' host rule e, eq_text_refl rule) refl
Under-is_under false host rule (x ∷ xs, e, real) =
    rw (parts-has_suffix b'.' host rule x xs e) (ground arith)

no_address : {A : Type 0} → (found : Option A) → is_there found ≡ false → found ≡ none
no_address none e = refl
no_address (some ip) e = absurd (ground (arith, e))

module _ (p : Platform) where
  -- What a matcher says of a host and a port: `<local>` is for names of one label, a rule with a
  -- port for that port, `*` for each host, and another rule for the hosts under its own.
  abbrev pub FitsLocal : Text → Matcher → Type 0
  FitsLocal host m =
      (m.local ≡ true) × (p.parse_ip host ≡ none) × (label : Text) × (labels host ≡ label ∷ [])

  abbrev pub FitsRule : Text → ℕ → Matcher → Type 0
  FitsRule host port m =
      (m.local ≡ false)
      × ((m.port ≡ 0) ⊎ (m.port ≡ port))
      × ((m.host ≡ codes "*") ⊎ Under m.subdomains_only host m.host)

  abbrev pub FitsOne : Text → ℕ → List Matcher → Type 0
  FitsOne host port [] = ⊥
  FitsOne host port (m ∷ ms) = (FitsLocal host m ⊎ FitsRule host port m) ⊎ FitsOne host port ms

  local-matches :
      (host : Text) (port : ℕ) (m : Matcher) → FitsLocal host m → matches p host port m ≡ true
  unfolding matches
  local-matches host port m (is_local, no_ip, label, e) =
      rw (is_local, no_ip, contains-one_part b'.' host label e) refl

  other_port : ℕ → Matcher → Bool
  other_port port m = not (m.port == 0) && not (m.port == port)

  other_port_iff :
      (port : ℕ) (m : Matcher) → (other_port port m ≡ false) ↔ ((m.port ≡ 0) ⊎ (m.port ≡ port))
  unfolding other_port
  other_port_iff port m = (from, to)
    where
      from : other_port port m ≡ false → (m.port ≡ 0) ⊎ (m.port ≡ port)
      from h = elim (Bool-cases (m.port == 0)) [
        | inl any ↦ inl ((==_iff m.port 0).0 any)
        | inr one ↦ inr ((==_iff m.port port).0 (ground (arith, h, one)))
      ]

      to : (m.port ≡ 0) ⊎ (m.port ≡ port) → other_port port m ≡ false
      to (inl e) = let any = (==_iff m.port 0).1 e in rw any refl
      to (inr e) = let same = (==_iff m.port port).1 e in rw same (ground arith)

  rule-matches :
      (host : Text) (port : ℕ) (m : Matcher) → FitsRule host port m → matches p host port m ≡ true
  unfolding matches other_port
  rule-matches host port m (named, at_port, at_host) =
      let at = (other_port_iff port m).1 at_port in
      rw (named, at) (by_star (eq_text m.host (codes "*")) refl)
    where
      by_star :
          (b : Bool)
          → eq_text m.host (codes "*") ≡ b
          → (if b then true else is_under m.subdomains_only host m.host) ≡ true
      by_star true e = refl
      by_star false e = elim at_host [
        | inl star ↦
            let contrary : false ≡ true =
              sym e ∙ ap (λ t. eq_text t (codes "*")) star ∙ eq_text_refl (codes "*") in
            absurd (ground (arith, contrary))
        | inr under ↦ Under-is_under m.subdomains_only host m.host under
      ]

  matches-local :
      (host : Text) (port : ℕ) (m : Matcher)
      → m.local ≡ true
      → matches p host port m ≡ true
      → FitsLocal host m
  unfolding matches
  matches-local host port m is_local h =
      let tested : (not (is_there (p.parse_ip host)) && not (contains_code b'.' host)) ≡ true =
        rw is_local at h in
      (
        is_local,
        no_address (p.parse_ip host) (ground (arith, tested)),
        host,
        split_at-contains b'.' host (ground (arith, tested)),
      )

  matches-rule :
      (host : Text) (port : ℕ) (m : Matcher)
      → m.local ≡ false
      → matches p host port m ≡ true
      → FitsRule host port m
  unfolding matches other_port
  matches-rule host port m named h = by_port (other_port port m) refl (rw named at h)
    where
      by_star :
          (b : Bool)
          → eq_text m.host (codes "*") ≡ b
          → (if b then true else is_under m.subdomains_only host m.host) ≡ true
          → (m.host ≡ codes "*") ⊎ Under m.subdomains_only host m.host
      by_star true e h = inl (eq_text_sound m.host (codes "*") e)
      by_star false e h = inr (is_under-Under m.subdomains_only host m.host h)

      by_port :
          (b : Bool)
          → other_port port m ≡ b
          → (if b
              then false
              else if eq_text m.host (codes "*")
              then true
              else is_under m.subdomains_only host m.host)
            ≡ true
          → FitsRule host port m
      by_port true e h = absurd (ground (arith, h))
      by_port false e h =
          (named, (other_port_iff port m).0 e, by_star (eq_text m.host (codes "*")) refl h)

  matches-cases :
      (host : Text) (port : ℕ) (m : Matcher)
      → matches p host port m ≡ true
      → FitsLocal host m ⊎ FitsRule host port m
  matches-cases host port m h = elim (Bool-cases m.local) [
    | inl is_local ↦ inl (matches-local host port m is_local h)
    | inr named ↦ inr (matches-rule host port m named h)
  ]

  any_of-FitsOne :
      (host : Text) (port : ℕ) (ms : List Matcher)
      → any_of (matches p host port) ms ≡ true
      → FitsOne host port ms
  unfolding any_of
  any_of-FitsOne host port [] h = absurd (ground (arith, h))
  any_of-FitsOne host port (m ∷ ms) h = elim (Bool-cases (matches p host port m)) [
    | inl fits ↦ inl (matches-cases host port m fits)
    | inr other ↦ inr (any_of-FitsOne host port ms (ground (arith, h, other)))
  ]

  FitsOne-any_of :
      (host : Text) (port : ℕ) (ms : List Matcher)
      → FitsOne host port ms
      → any_of (matches p host port) ms ≡ true
  unfolding any_of
  FitsOne-any_of host port [] none_fits = absurd none_fits
  FitsOne-any_of host port (m ∷ ms) (inl (inl fits)) = rw (local-matches host port m fits) refl
  FitsOne-any_of host port (m ∷ ms) (inl (inr fits)) = rw (rule-matches host port m fits) refl
  FitsOne-any_of host port (m ∷ ms) (inr fits) =
      rw (FitsOne-any_of host port ms fits) (ground arith)

  direct_when_matched :
      (rs : Resolvers) (w : Wproxy) (raw path : Text) (netloc : Server)
      → get_netloc p raw ≡ some (netloc, path)
      → host_matches_no_proxy p w.matchers netloc.host netloc.port ≡ true
      → find_proxy_for_url p rs w raw ≡ some (direct ∷ [], netloc, path)
  unfolding find_proxy_for_url is_no_proxy
  direct_when_matched rs w raw path netloc e h = rw (e, h) (by_mode (is_mode_none w.mode))
    where
      by_mode :
          (b : Bool)
          → (if b || true then some (direct ∷ []) else mode_servers p rs w.mode w raw netloc)
              >>= (λ (servers : List Server).
                  let found : List Server × Server × Text = (servers, netloc, path) in some found)
            ≡ some (direct ∷ [], netloc, path)
      by_mode true = refl
      by_mode false = refl

  -- For a URL that can be read, in every mode and whatever the other parts answer: either one of
  -- the rules fits the labels and the port of the target, and the URL gets no proxy, or none does,
  -- and the host test says no.
  pub bypass_by_labels :
      (rs : Resolvers) (w : Wproxy) (raw path : Text) (netloc : Server)
      → get_netloc p raw ≡ some (netloc, path)
      → (FitsOne (normalize_host_rule p netloc.host) netloc.port w.matchers
          × (find_proxy_for_url p rs w raw ≡ some (direct ∷ [], netloc, path)))
        ⊎ ((¬ FitsOne (normalize_host_rule p netloc.host) netloc.port w.matchers)
            × (host_matches_no_proxy p w.matchers netloc.host netloc.port ≡ false))
  unfolding host_matches_no_proxy
  bypass_by_labels rs w raw path netloc e =
      elim (Bool-cases (host_matches_no_proxy p w.matchers netloc.host netloc.port)) [
        | inl fitting ↦ inl (
          any_of-FitsOne (normalize_host_rule p netloc.host) netloc.port w.matchers fitting,
          direct_when_matched rs w raw path netloc e fitting,
        )
        | inr unfit ↦ inr (
          (λ fits.
              let fitting =
                FitsOne-any_of (normalize_host_rule p netloc.host) netloc.port w.matchers fits in
              absurd (ground (arith, fitting, unfit))),
          unfit,
        )
      ]
