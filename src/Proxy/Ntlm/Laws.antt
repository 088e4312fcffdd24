-- ===== src/Proxy/Ntlm/Laws.antt =====
-- No message makes the code of Proxy/Ntlm.antt read out of range.
use pxgo.Shared.{
  ℕ, zero, suc, ◌+◌, ◌-◌, ◌%◌, ◌≤◌, ◌<◌, ◌≡◌, refl, Bool, true, false, not, ◌&&◌, Option, none,
  some, List, [], ◌∷◌, ◌==◌, leb, leb→le, le→leb, get_elem?, length, length-take, length-drop, drop,
  arith, if◌then◌else◌,
}
use pxgo.Shared.Text.{Text}
use pxgo.Proxy.Der.{Bytes, same_bytes, max_spnego_token_len}
use pxgo.Proxy.Spnego.{ntlm_signature}
use pxgo.Proxy.Ntlm.{
  Outcome, value, refused, out_of_range, ◌>>=◌, ◌>>◌, guard, index, slice, uint16_at, uint32_at,
  max_ntlm_response_len, read_field, code_units, decode_units, is_empty, utf16le_to_text,
  decode_text, AuthenticateMessage, parse_authenticate, Hashes, split_configured_name, names_fit,
  proof_fits, ntlm_v2_key, or_lm, verify_authenticate,
}

-- The code ends without a panic, and `P` holds of its value.
abbrev pub Safely : {A : Type 0} → (A → Type 0) → Outcome A → Type 0
Safely P (value a) = P a
Safely P refused = Unit
Safely P out_of_range = ⊥

abbrev pub Any : {A : Type 0} → A → Type 0
Any a = Unit

module _ {A B : Type 0} (P : A → Type 0) (Q : B → Type 0) where
  Safely->>= :
      (m : Outcome A) (f : A → Outcome B)
      → Safely P m
      → ((a : A) → P a → Safely Q (f a))
      → Safely Q (m >>= f)
  Safely->>= (value a) f h k = k a h
  Safely->>= refused f h k = tt
  Safely->>= out_of_range f h k = absurd h

module _ {B : Type 0} (Q : B → Type 0) where
  Safely-guard : (b : Bool) (k : Outcome B) → (b ≡ true → Safely Q k) → Safely Q (guard b >> k)
  Safely-guard true k h = h refl
  Safely-guard false k h = tt

get_elem?-in : (bytes : Bytes) (i : ℕ) → i < length bytes → (b : ℕ) × (get_elem? bytes i ≡ some b)
get_elem?-in [] i h = absurd (omega (arith, h))
get_elem?-in (b ∷ bytes) zero h = (b, refl)
get_elem?-in (b ∷ bytes) (suc i) h = get_elem?-in bytes i (omega (arith, h))

index-Safely : (bytes : Bytes) (i : ℕ) → i < length bytes → Safely Any (index bytes i)
unfolding index
index-Safely bytes i h = let (b, e) = get_elem?-in bytes i h in rw (index, e) tt

uint16_at-Safely : (bytes : Bytes) (i : ℕ) → i + 1 < length bytes → Safely Any (uint16_at bytes i)
unfolding uint16_at
uint16_at-Safely bytes i h =
    Safely->>= Any Any (index bytes i) _ (index-Safely bytes i (omega (arith, h))) λ low _.
      Safely->>= Any Any (index bytes (i + 1)) _ (index-Safely bytes (i + 1) h) λ high _. tt

uint32_at-Safely : (bytes : Bytes) (i : ℕ) → i + 3 < length bytes → Safely Any (uint32_at bytes i)
unfolding uint32_at
uint32_at-Safely bytes i h =
    Safely->>= Any Any (uint16_at bytes i) _ (uint16_at-Safely bytes i (omega (arith, h))) λ low _.
      Safely->>= Any Any (uint16_at bytes (i + 2)) _
        (uint16_at-Safely bytes (i + 2) (omega (arith, h))) λ high _. tt

Safely-Any : {A : Type 0} (P : A → Type 0) (m : Outcome A) → Safely P m → Safely Any m
Safely-Any P (value a) h = tt
Safely-Any P refused h = tt
Safely-Any P out_of_range h = absurd h

slice-Safely :
    (bytes : Bytes) (from to : ℕ)
    → from ≤ to
    → to ≤ length bytes
    → Safely (λ part. length part ≡ to - from) (slice bytes from to)
unfolding slice
slice-Safely bytes from to h k =
    rw (le→leb from to h, le→leb to (length bytes) k)
      (omega (arith, length-take (to - from) (drop from bytes), length-drop from bytes))

read_field-Safely : (msg : Bytes) (offset : ℕ) → Safely Any (read_field msg offset)
unfolding read_field
read_field-Safely msg offset = Safely-guard Any (leb (offset + 8) (length msg)) _ λ long.
    let room : offset + 8 ≤ length msg = leb→le (offset + 8) (length msg) long in
    Safely->>= Any Any (uint16_at msg offset) _ (uint16_at-Safely msg offset (omega (arith, room)))
      λ len _.
        Safely->>= Any Any (index msg (offset + 6)) _
          (index-Safely msg (offset + 6) (omega (arith, room)))
          λ high _.
            Safely->>= Any Any (index msg (offset + 7)) _
              (index-Safely msg (offset + 7) (omega (arith, room)))
              λ higher _. Safely-guard Any ((high == 0) && (higher == 0)) _ λ small.
                Safely->>= Any Any (uint16_at msg (offset + 4)) _
                  (uint16_at-Safely msg (offset + 4) (omega (arith, room)))
                  λ start _.
                    Safely-guard Any (leb start (length msg) && leb len (length msg - start)) _
                      λ inside.
                        Safely-Any (λ part. length part ≡ start + len - start)
                          (slice msg start (start + len))
                          (slice-Safely msg start (start + len) (omega arith)
                            (ground (arith, inside)))

decode_text-Safely : (unicode : Bool) (raw : Bytes) → Safely Any (decode_text unicode raw)
unfolding utf16le_to_text
decode_text-Safely true raw = by_units (code_units raw)
  where
    by_units :
        (units : Option (List ℕ))
        → Safely Any (elim units [ none ↦ refused | some us ↦ value (decode_units us) ])
    by_units none = tt
    by_units (some us) = tt
decode_text-Safely false raw = tt

abbrev pub InLimits : AuthenticateMessage → Type 0
InLimits m =
    (length m.lm_response ≤ max_ntlm_response_len) × (length m.nt_response ≤ max_ntlm_response_len)

parse_authenticate-Safely : (msg : Bytes) → Safely InLimits (parse_authenticate msg)
unfolding parse_authenticate
parse_authenticate-Safely msg =
    Safely-guard InLimits (leb 64 (length msg) && leb (length msg) max_spnego_token_len) _ λ size.
      let room : 64 ≤ length msg = ground (arith, size) in
      Safely->>= (λ part. length part ≡ 8 - 0) InLimits (slice msg 0 8) _
        (slice-Safely msg 0 8 (omega arith) (omega (arith, room)))
        λ signature _. Safely-guard InLimits (same_bytes signature ntlm_signature) _ λ named.
          Safely->>= Any InLimits (uint32_at msg 8) _ (uint32_at-Safely msg 8 (omega (arith, room)))
            λ kind _. Safely-guard InLimits (kind == 3) _ λ is_three.
              Safely->>= Any InLimits (uint32_at msg 60) _
                (uint32_at-Safely msg 60 (omega (arith, room)))
                λ flags _.
                  Safely->>= Any InLimits (read_field msg 12) _ (read_field-Safely msg 12) λ lm _.
                    Safely->>= Any InLimits (read_field msg 20) _ (read_field-Safely msg 20) λ nt _.
                      Safely-guard InLimits
                        (leb (length lm) max_ntlm_response_len
                          && leb (length nt) max_ntlm_response_len)
                        _
                        λ limits.
                          Safely->>= Any InLimits (read_field msg 28) _ (read_field-Safely msg 28)
                            λ domain_raw _.
                              Safely->>= Any InLimits (read_field msg 36) _
                                (read_field-Safely msg 36)
                                λ user_raw _.
                                  Safely->>= Any InLimits (decode_text (flags % 2 == 1) domain_raw)
                                    _ (decode_text-Safely (flags % 2 == 1) domain_raw)
                                    λ domain _.
                                      Safely->>= Any InLimits
                                        (decode_text (flags % 2 == 1) user_raw) _
                                        (decode_text-Safely (flags % 2 == 1) user_raw)
                                        λ user _. ground (arith, limits)

proof_fits-Safely :
    (h : Hashes) (key challenge response : Bytes)
    → 32 ≤ length challenge
    → 16 ≤ length response
    → Safely Any (proof_fits h key challenge response)
unfolding proof_fits
proof_fits-Safely h key challenge response c r =
    Safely->>= (λ part. length part ≡ 32 - 24) Any (slice challenge 24 32) _
      (slice-Safely challenge 24 32 (omega arith) c)
      λ nonce _.
        Safely->>= (λ part. length part ≡ length response - 16) Any
          (slice response 16 (length response)) _
          (slice-Safely response 16 (length response) r (omega arith))
          λ tail _.
            Safely->>= (λ part. length part ≡ 16 - 0) Any (slice response 0 16) _
              (slice-Safely response 0 16 (omega arith) r) λ proof _. tt

-- Whatever bytes a client sends, the check of an AUTHENTICATE message ends without an index or a
-- slice out of range, and so does its parser, whose responses have at most 8192 bytes.
pub verify_authenticate-Safely :
    (h : Hashes) (msg challenge : Bytes) (username password : Text)
    → Safely InLimits (parse_authenticate msg)
      × Safely Any (verify_authenticate h msg challenge username password)
unfolding verify_authenticate
verify_authenticate-Safely h msg challenge username password = (
  parse_authenticate-Safely msg,
  Safely-guard Any (not (is_empty password) && leb 32 (length challenge)) _ λ ready.
      Safely->>= InLimits Any (parse_authenticate msg) _ (parse_authenticate-Safely msg) λ m _.
        Safely-guard Any (leb 16 (length m.nt_response)) _ λ long.
          Safely-guard Any (names_fit h (split_configured_name username) m) _ λ named.
            let key : Bytes = ntlm_v2_key h password (split_configured_name username).1 m in
            Safely->>= Any Any (proof_fits h key challenge m.nt_response) _
              (proof_fits-Safely h key challenge m.nt_response (ground (arith, ready))
                (ground (arith, long)))
              λ fits _. by_lm key m fits (ground (arith, ready)),
)
  where
    by_lm :
        (key : Bytes) (m : AuthenticateMessage) (fits : Bool)
        → 32 ≤ length challenge
        → Safely Any (or_lm h key challenge m.lm_response fits)
    by_lm key m true c = tt
    by_lm key m false c = by_length (leb 24 (length m.lm_response)) refl
      where
        by_length :
            (b : Bool)
            → leb 24 (length m.lm_response) ≡ b
            → Safely Any (if b then proof_fits h key challenge m.lm_response else value false)
        by_length true long =
            proof_fits-Safely h key challenge m.lm_response c (ground (arith, long))
        by_length false _ = tt
