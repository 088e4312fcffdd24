-- ===== src/Proxy/Digest/Laws.antt =====
-- The table of used nonces of Proxy/Digest.antt: an entry stays until it expires.
use pxgo.Shared.{
  ◌/◌, ℕ, ◌+◌, ◌≤◌, ◌≡◌, refl, ap, ◌∙◌, inl, inr, Bool, true, false, Option, none, some, List, [],
  ◌∷◌, Bool-cases, if_both, leb, ltb, le→ltb, le→leb, arith, if◌then◌else◌,
}
use pxgo.Shared.Text.{Text, eq_text}
use pxgo.Shared.Text.Table.{find_key, forget_key}
use pxgo.Shared.Text.Laws.{eq_text_refl, eq_text_sound}
use pxgo.Proxy.Digest.{
  digest_nonce_lifetime, NonceTables, keep_entries, prune, nonce_seen, mark_if_new, next_digest_nc,
}

find_key-forget_other :
    (key other : Text) (d : List (Text × ℕ)) (expiry : ℕ)
    → eq_text other key ≡ false
    → find_key key d ≡ some expiry
    → find_key key (forget_key other d) ≡ some expiry
unfolding find_key forget_key
find_key-forget_other key other [] expiry h e = e
find_key-forget_other key other ((k, v) ∷ rest) expiry h e = elim (Bool-cases (eq_text k other)) [
  | inl s ↦
      let apart : eq_text k key ≡ false = ap (λ x. eq_text x key) (eq_text_sound k other s) ∙ h in
      rw s (find_key-forget_other key other rest expiry h (rw apart at e))
  | inr s ↦ rw s (ground (arith, e, find_key-forget_other key other rest expiry h))
]

find_key-keep :
    (keep : ℕ → Bool) (key : Text) (d : List (Text × ℕ)) (expiry : ℕ)
    → keep expiry ≡ true
    → find_key key d ≡ some expiry
    → find_key key (keep_entries keep d) ≡ some expiry
unfolding find_key keep_entries
find_key-keep keep key [] expiry h e = e
find_key-keep keep key ((k, v) ∷ rest) expiry h e = elim (Bool-cases (eq_text k key)) [
  | inl s ↦ let same : v ≡ expiry = ground (arith, s, e) in ground (arith, s, same, h, ap keep same)
  | inr s ↦ ground (arith, s, e, find_key-keep keep key rest expiry h)
]

-- The key is marked until that time.
pub record IsMarked (key : Text) (expiry : ℕ) (t : NonceTables) : Type 0 where
  pub found : find_key key t.seen ≡ some expiry

pub prune-IsMarked :
    (key : Text) (expiry now : ℕ) (t : NonceTables)
    → now ≤ expiry
    → IsMarked key expiry t
    → IsMarked key expiry (prune now t)
unfolding prune
prune-IsMarked key expiry now t h m =
    if_both (IsMarked key expiry) (ltb (now / 1000000000) (t.last_prune + 120)) _ _ m (record {
      found = find_key-keep (λ e. leb now e) key t.seen expiry (le→leb now expiry h) m.found;
    })

-- Another key may be forgotten; this one only when it has expired.
pub nonce_seen-IsMarked :
    (key other : Text) (expiry now : ℕ) (t : NonceTables)
    → now ≤ expiry
    → IsMarked key expiry t
    → IsMarked key expiry (nonce_seen now other t).1
unfolding nonce_seen
nonce_seen-IsMarked key other expiry now t h m = by_found (find_key other t.seen) refl
  where
    Kept : Bool × NonceTables → Type 0
    Kept r = IsMarked key expiry r.1

    by_found :
        (found : Option ℕ)
        → find_key other t.seen ≡ found
        → Kept (elim found [
          | none ↦ (false, t)
          | some e ↦
              if ltb e now then (false, record t { seen = forget_key other t.seen }) else (true, t)
        ])
    by_found none e = m
    by_found (some limit) e = elim (Bool-cases (eq_text other key)) [
      | inl s ↦
          let same : limit ≡ expiry =
            ground (arith, e, m.found, ap (λ x. find_key x t.seen) (eq_text_sound other key s)) in
          let kept : ltb limit now ≡ false = ground (arith, same, h) in rw kept m
      | inr s ↦
          if_both Kept (ltb limit now) _ _
            (record { found = find_key-forget_other key other t.seen expiry s m.found }) m
    ]

pub mark_if_new-IsMarked :
    (key other : Text) (expiry now : ℕ) (t : NonceTables)
    → now ≤ expiry
    → IsMarked key expiry t
    → IsMarked key expiry (mark_if_new now other t).1
unfolding mark_if_new find_key
mark_if_new-IsMarked key other expiry now t h m = by_found (find_key other t.seen) refl
  where
    Kept : Bool × NonceTables → Type 0
    Kept r = IsMarked key expiry r.1

    by_found :
        (found : Option ℕ)
        → find_key other t.seen ≡ found
        → Kept (elim found [
          | some e ↦ (false, prune now t)
          | none ↦
              (true, prune now (record t { seen = (other, now + digest_nonce_lifetime) ∷ t.seen }))
        ])
    by_found (some e) p = prune-IsMarked key expiry now t h m
    by_found none p =
        prune-IsMarked key expiry now
          (record t { seen = (other, now + digest_nonce_lifetime) ∷ t.seen }) h
          (record { found = later })
      where
        later : find_key key ((other, now + digest_nonce_lifetime) ∷ t.seen) ≡ some expiry
        later = elim (Bool-cases (eq_text other key)) [
          | inl s ↦
              absurd (
                ground (arith, p, m.found, ap (λ x. find_key x t.seen) (eq_text_sound other key s)))
          | inr s ↦ rw s m.found
        ]

pub next_digest_nc-IsMarked :
    (key nonce : Text) (expiry now : ℕ) (t : NonceTables)
    → now ≤ expiry
    → IsMarked key expiry t
    → IsMarked key expiry (next_digest_nc now nonce t).1
unfolding next_digest_nc
next_digest_nc-IsMarked key nonce expiry now t h m =
    prune-IsMarked key expiry now _ h (record { found = m.found })

-- A mark that is new holds for the lifetime of a nonce.
pub mark_if_new-marks :
    (key : Text) (now : ℕ) (t : NonceTables)
    → (mark_if_new now key t).0 ≡ true
    → IsMarked key (now + digest_nonce_lifetime) (mark_if_new now key t).1
unfolding mark_if_new find_key
mark_if_new-marks key now t = by_found (find_key key t.seen)
  where
    by_found :
        (found : Option ℕ)
        → (let r : Bool × NonceTables = elim found [
          | some e ↦ (false, prune now t)
          | none ↦
              (true, prune now (record t { seen = (key, now + digest_nonce_lifetime) ∷ t.seen }))
        ] in
            (r.0 ≡ true) → IsMarked key (now + digest_nonce_lifetime) r.1)
    by_found (some e) h = absurd (ground (arith, h))
    by_found none h =
        prune-IsMarked key (now + digest_nonce_lifetime) now
          (record t { seen = (key, now + digest_nonce_lifetime) ∷ t.seen }) (omega arith)
          (record { found = rw (eq_text_refl key) refl })

-- A marked key is seen until it expires.
pub nonce_seen-marked :
    (key : Text) (expiry now : ℕ) (t : NonceTables)
    → now ≤ expiry
    → IsMarked key expiry t
    → (nonce_seen now key t).0 ≡ true
unfolding nonce_seen
nonce_seen-marked key expiry now t h m = rw (nonce_seen, m.found, le→ltb expiry now h) refl
