-- ===== src/Supervisor/Order/Laws.antt =====
-- What `order` promises: the result is the given list with the cooled members behind the healthy
-- ones, each group in its own order, and the DIRECT members where they were.
use mathlib.Core.List.{append_assoc, append-nil}
use pxgo.Shared.{
  ℕ, ◌+◌, ◌<◌, String, ◌≡◌, refl, sym, ◌∙◌, Bool, true, false, not, ◌&&◌, ◌||◌, Option, none, some,
  List, [], ◌∷◌, ◌++◌, ◌==◌, ltb, length, length-append, Bool-cases, inl, inr, arith, eq_iff, map,
  ◌⊎◌, if◌then◌else◌,
}
use pxgo.Shared.Dict.{Dict, lookup, lookup-delete}
use pxgo.Supervisor.Outcome.{Candidate}
use pxgo.Supervisor.State.{HealthState, Supervisor}
use pxgo.Supervisor.Health.{candidate_cooled, is_cooling_state}
use pxgo.Supervisor.Order.{Scan, scan_one, scan_all, fill, empty_scan, order}

-- What the health map says of a key at a time.
abbrev pub cools : ℕ → Dict HealthState → String → Bool
cools now health key = is_cooling_state now (lookup health key)

-- The members that are not DIRECT and of which the test says `wanted`, in their order.
unfoldable pub members : (String → Bool) → Bool → List Candidate → List Candidate
members test wanted [] = []
members test true (c ∷ cs) =
    let rest = members test true cs in if not c.direct && test c.key then c ∷ rest else rest
members test false (c ∷ cs) =
    let rest = members test false cs in if not c.direct && not (test c.key) then c ∷ rest else rest

-- The members that are not DIRECT.
unfoldable pub explicit : List Candidate → List Candidate
explicit [] = []
explicit (c ∷ cs) = let rest = explicit cs in if c.direct then rest else c ∷ rest

-- The DIRECT members at their places, and a gap for each other place.
abbrev pub direct_slots : List Candidate → List (Option Candidate)
direct_slots = map (λ c. if c.direct then some c else none)

-- Dropping entries that are over changes no answer.
cools-candidate_cooled :
    (now : ℕ) (key asked : String) (health : Dict HealthState)
    → cools now (candidate_cooled now key health).1 asked ≡ cools now health asked
unfolding candidate_cooled
cools-candidate_cooled now key asked health =
    ground (arith, lookup-delete health key asked, eq_iff asked key)

-- What a scan of `cs` adds.
abbrev Scanned : (String → Bool) → List Candidate → Scan → Scan → Type 0
Scanned test cs before after =
    (after.healthy ≡ before.healthy ++ members test false cs)
    × (after.cooled ≡ before.cooled ++ members test true cs)
    × (after.explicit_count ≡ before.explicit_count + length (explicit cs))
    × (after.cooled_count ≡ before.cooled_count + length (members test true cs))

scan_one-cooled :
    (now : ℕ) (c : Candidate) (scan : Scan)
    → cools now scan.health c.key ≡ true
    → scan_one now c scan ≡ record scan {
      explicit_count = scan.explicit_count + 1;
      cooled_count = scan.cooled_count + 1;
      cooled = scan.cooled ++ c ∷ [];
      health = (candidate_cooled now c.key scan.health).1;
    }
unfolding scan_one candidate_cooled
scan_one-cooled now c scan h = ground arith

scan_one-healthy :
    (now : ℕ) (c : Candidate) (scan : Scan)
    → cools now scan.health c.key ≡ false
    → scan_one now c scan ≡ record scan {
      explicit_count = scan.explicit_count + 1;
      healthy = scan.healthy ++ c ∷ [];
      health = (candidate_cooled now c.key scan.health).1;
    }
unfolding scan_one candidate_cooled
scan_one-healthy now c scan h = ground arith

scan_all-Scanned :
    (now : ℕ) (cs : List Candidate) (scan : Scan) (test : String → Bool)
    → ((key : String) → cools now scan.health key ≡ test key)
    → Scanned test cs scan (scan_all now cs scan)
unfolding scan_all members explicit
scan_all-Scanned now [] scan test h =
    (sym (append-nil scan.healthy), sym (append-nil scan.cooled), omega arith, omega arith)
scan_all-Scanned now (c ∷ cs) scan test h =
    split (Bool-cases c.direct) (Bool-cases (test c.key))
      (λ scan' k. scan_all-Scanned now cs scan' test k)
  where
    kept : (key : String) → cools now (candidate_cooled now c.key scan.health).1 key ≡ test key
    kept key = cools-candidate_cooled now c.key key scan.health ∙ h key

    with_cooled : Scan
    with_cooled = record scan {
      explicit_count = scan.explicit_count + 1;
      cooled_count = scan.cooled_count + 1;
      cooled = scan.cooled ++ c ∷ [];
      health = (candidate_cooled now c.key scan.health).1;
    }

    with_healthy : Scan
    with_healthy = record scan {
      explicit_count = scan.explicit_count + 1;
      healthy = scan.healthy ++ c ∷ [];
      health = (candidate_cooled now c.key scan.health).1;
    }

    split :
        (c.direct ≡ true) ⊎ (c.direct ≡ false)
        → (test c.key ≡ true) ⊎ (test c.key ≡ false)
        → ((scan' : Scan)
            → ((key : String) → cools now scan'.health key ≡ test key)
            → Scanned test cs scan' (scan_all now cs scan'))
        → Scanned test
            (c ∷ cs)
            scan
            (scan_all now cs (if c.direct then scan else scan_one now c scan))
    split (inl d) _ rec = ground (arith, rec scan h)
    split (inr d) (inl t) rec = ground (
      arith,
      scan_one-cooled now c scan (h c.key ∙ t),
      rec with_cooled kept,
      append_assoc scan.cooled (c ∷ []) (members test true cs),
    )
    split (inr d) (inr t) rec = ground (
      arith,
      scan_one-healthy now c scan (h c.key ∙ t),
      rec with_healthy kept,
      append_assoc scan.healthy (c ∷ []) (members test false cs),
    )

abbrev AllExplicit : List Candidate → Type 0
AllExplicit [] = Unit
AllExplicit (c ∷ cs) = (c.direct ≡ false) × AllExplicit cs

AllExplicit-append :
    (xs ys : List Candidate) → AllExplicit xs → AllExplicit ys → AllExplicit (xs ++ ys)
AllExplicit-append [] ys hx hy = hy
AllExplicit-append (x ∷ xs) ys hx hy = (hx.0, AllExplicit-append xs ys hx.1 hy)

members-AllExplicit :
    (test : String → Bool) (wanted : Bool) (cs : List Candidate)
    → AllExplicit (members test wanted cs)
unfolding members
members-AllExplicit test true [] = tt
members-AllExplicit test false [] = tt
members-AllExplicit test true (c ∷ cs) = ground (arith, members-AllExplicit test true cs)
members-AllExplicit test false (c ∷ cs) = ground (arith, members-AllExplicit test false cs)

-- Healthy and cooled members together are all that are not DIRECT.
length-members :
    (test : String → Bool) (cs : List Candidate)
    → length (members test false cs) + length (members test true cs) ≡ length (explicit cs)
unfolding members explicit
length-members test [] = refl
length-members test (c ∷ cs) = ground (arith, length-members test cs)

none_cooled :
    (test : String → Bool) (cs : List Candidate)
    → length (members test true cs) ≡ 0
    → (members test true cs ≡ []) × (members test false cs ≡ explicit cs)
unfolding members explicit
none_cooled test [] h = (refl, refl)
none_cooled test (c ∷ cs) h = ground (arith, none_cooled test cs)

all_cooled :
    (test : String → Bool) (cs : List Candidate)
    → length (members test false cs) ≡ 0
    → (members test false cs ≡ []) × (members test true cs ≡ explicit cs)
unfolding members explicit
all_cooled test [] h = (refl, refl)
all_cooled test (c ∷ cs) h = ground (arith, all_cooled test cs)

-- The second loop never runs out of members, puts them where members were, and moves no DIRECT.
fill-total :
    (cs rs : List Candidate)
    → length rs ≡ length (explicit cs)
    → AllExplicit rs
    → (out : List Candidate) × (fill cs rs ≡ some out)
      × (explicit out ≡ rs)
      × (direct_slots out ≡ direct_slots cs)
unfolding fill explicit
fill-total [] [] h e = ([], refl, refl, refl)
fill-total [] (r ∷ rs) h e = absurd (omega arith)
fill-total (c ∷ cs) [] h e = elim (Bool-cases c.direct) [
  | inl d ↦
      let (out, f, x, s) = fill-total cs [] (ground arith) tt in
      (c ∷ out, ground arith, ground arith, ground arith)
  | inr d ↦ ground arith
]
fill-total (c ∷ cs) (r ∷ rs) h e = elim (Bool-cases c.direct) [
  | inl d ↦
      let (out, f, x, s) = fill-total cs (r ∷ rs) (ground arith) e in
      (c ∷ out, ground arith, ground arith, ground arith)
  | inr d ↦
      let (out, f, x, s) = fill-total cs rs (ground arith) e.1 in
      (r ∷ out, ground arith, ground arith, ground arith)
]

when_none_cooled :
    (test : String → Bool) (cs : List Candidate)
    → length (members test true cs) ≡ 0
    → explicit cs ≡ members test false cs ++ members test true cs
when_none_cooled test cs h =
    let (a, b) = none_cooled test cs h in rw (a, b) (sym (append-nil (explicit cs)))

when_all_cooled :
    (test : String → Bool) (cs : List Candidate)
    → length (members test false cs) ≡ 0
    → explicit cs ≡ members test false cs ++ members test true cs
when_all_cooled test cs h = let (a, b) = all_cooled test cs h in rw (a, b)

when_short :
    (test : String → Bool) (cs : List Candidate)
    → length cs < 2
    → explicit cs ≡ members test false cs ++ members test true cs
unfolding members explicit
when_short test [] h = refl
when_short test (c ∷ []) h = ground arith
when_short test (c ∷ d ∷ cs) h = absurd (omega arith)

-- The result of `order`: the members that are not cooling, then those that are, each group in its
-- given order, on the places that are not DIRECT; the DIRECT members stand where they stood. No
-- index is ever out of range.
pub order-stable :
    (now : ℕ) (cs : List Candidate) (s : Supervisor)
    → (out : List Candidate) × ((order now cs s).0 ≡ some out)
      × (explicit out
          ≡ members (cools now s.health) false cs ++ members (cools now s.health) true cs)
      × (direct_slots out ≡ direct_slots cs)
unfolding order
order-stable now cs s = split (Bool-cases (ltb (length cs) 2)) (Bool-cases lazy)
  where
    test : String → Bool
    test = cools now s.health

    scan : Scan
    scan = scan_all now cs (empty_scan s.health)

    found : Scanned test cs (empty_scan s.health) scan
    found = scan_all-Scanned now cs (empty_scan s.health) test (λ key. refl)

    lazy : Bool
    lazy =
        (scan.explicit_count == 0)
        || (scan.cooled_count == 0)
        || (scan.cooled_count == scan.explicit_count)

    lazy_ok : lazy ≡ true → explicit cs ≡ members test false cs ++ members test true cs
    lazy_ok e = elim (Bool-cases (length (members test true cs) == 0)) [
      | inl z ↦ when_none_cooled test cs (ground arith)
      | inr z ↦ when_all_cooled test cs (ground (arith, found, length-members test cs))
    ]

    same_length : length (members test false cs ++ members test true cs) ≡ length (explicit cs)
    same_length =
        length-append (members test false cs) (members test true cs) ∙ length-members test cs

    split :
        (ltb (length cs) 2 ≡ true) ⊎ (ltb (length cs) 2 ≡ false)
        → (lazy ≡ true) ⊎ (lazy ≡ false)
        → (out : List Candidate) × ((order now cs s).0 ≡ some out)
          × (explicit out ≡ members test false cs ++ members test true cs)
          × (direct_slots out ≡ direct_slots cs)
    split (inl short) _ = (cs, rw short, when_short test cs (ground arith), refl)
    split (inr long) (inl e) = (cs, rw (long, e), lazy_ok e, refl)
    split (inr long) (inr e) =
        let all = members test false cs ++ members test true cs in
        let (out, f, x, k) = fill-total cs all same_length (
          AllExplicit-append _ _ (members-AllExplicit test false cs)
            (members-AllExplicit test true cs)) in
        (out, rw (long, e, found.0, found.1, f), x, k)
