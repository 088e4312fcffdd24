-- ===== src/Wproxy/IpSet.antt =====
-- internal/wproxy/wproxy.go: sets of addresses. They are asked for an address that is there; the
-- source's answer to none is false.
use pxgo.Shared.{
  ℕ, ℤ, pos, negsuc, ◌+◌, Bool, true, false, not, ◌&&◌, ◌||◌, Option, none, some, List, [], ◌∷◌,
  ◌++◌, ◌==◌, ltb, length, if◌then◌else◌,
}
use pxgo.Shared.Text.{Text, codes, eq_text}
use pxgo.Shared.Text.ParseInt.{parse_int}
use pxgo.Shared.Text.Search.{split_at, join_with}
use pxgo.Wproxy.{Platform, Ip, IpNet, ◌>>=◌, is_there}

pub record IpSet : Type 0 where
  pub nets : List IpNet
  pub ranges : List (Ip × Ip)

abbrev pub empty_set : IpSet
empty_set = record { nets = []; ranges = [] }

-- compareIP of two addresses of four bytes.
unfoldable pub compare_ip : Ip → Ip → ℤ
compare_ip [] _ = pos 0
compare_ip (_ ∷ _) [] = pos 0
compare_ip (a ∷ more) (b ∷ others) =
    let rest = compare_ip more others in
    if ltb a b then negsuc 0 else if ltb b a then pos 1 else rest

abbrev pub is_negative : ℤ → Bool
is_negative (pos _) = false
is_negative (negsuc _) = true

abbrev pub is_positive : ℤ → Bool
is_positive (pos n) = ltb 0 n
is_positive (negsuc _) = false

unfoldable pub in_ranges : Ip → List (Ip × Ip) → Bool
unfolding compare_ip
in_ranges ip [] = false
in_ranges ip ((start, end) ∷ ranges) =
    (not (is_negative (compare_ip ip start)) && not (is_positive (compare_ip ip end)))
    || in_ranges ip ranges

-- Size
unfoldable pub set_size : IpSet → ℕ
set_size set = length set.nets + length set.ranges

-- Whether one of them passes the test.
unfoldable pub any_of : {A : Type 0} → (A → Bool) → List A → Bool
any_of test [] = false
any_of test (x ∷ xs) = test x || any_of test xs

module _ (p : Platform) where
  -- Contains
  unfoldable pub set_contains : IpSet → Ip → Bool
  unfolding in_ranges any_of
  set_contains set ip =
      any_of (λ net. p.net_contains net ip) set.nets
      || elim (p.to4 ip) [ none ↦ false | some ip4 ↦ in_ranges ip4 set.ranges ]

  -- The network of one address.
  unfoldable pub single_net : Ip → IpNet
  single_net ip = elim (p.to4 ip) [
    | none ↦ record { ip = ip; mask = p.cidr_mask 128 128 }
    | some ip4 ↦ record { ip = ip4; mask = p.cidr_mask 32 32 }
  ]

  -- AddCIDR
  unfoldable pub add_cidr : Text → IpSet → Option IpSet
  unfolding single_net
  add_cidr cidr set = elim (p.parse_cidr cidr) [
    | some net ↦ some (record set { nets = set.nets ++ net ∷ [] })
    | none ↦ p.parse_ip cidr >>= (λ ip. some (record set { nets = set.nets ++ single_net ip ∷ [] }))
  ]

  -- AddRange
  unfoldable pub add_range : Text → Text → IpSet → Option IpSet
  add_range start end set = do
    a ← p.parse_ip start >>= p.to4
    b ← p.parse_ip end >>= p.to4
    some (record set { ranges = set.ranges ++ (a, b) ∷ [] })

  is_glob_part : Text → Bool
  unfolding parse_int
  is_glob_part part = eq_text part (codes "*") || is_there (parse_int part)

  all_glob_parts : List Text → Bool
  unfolding is_glob_part
  all_glob_parts [] = true
  all_glob_parts (part ∷ parts) = is_glob_part part && all_glob_parts parts

  -- isIPv4GlobCandidate
  unfoldable pub is_ipv4_glob : Text → Bool
  unfolding all_glob_parts split_at
  is_ipv4_glob token =
      let parts = split_at b'.' token in (length parts == 4) && all_glob_parts parts

  fill_stars : Text → List Text → List Text
  fill_stars by [] = []
  fill_stars by (part ∷ parts) =
      (if eq_text part (codes "*") then by else part) ∷ fill_stars by parts

  -- addGlob
  unfoldable pub add_glob : Text → IpSet → Option IpSet
  unfolding add_range is_ipv4_glob fill_stars split_at join_with
  add_glob glob set =
      let parts = split_at b'.' glob in
      let start = join_with b'.' (fill_stars (codes "0") parts) in
      let end = join_with b'.' (fill_stars (codes "255") parts) in
      if is_ipv4_glob glob then add_range start end set else none
