-- ===== src/Guardian/Message/Laws.antt =====
-- What Guardian/Message.antt promises.
use mathlib.Core.List.{append_assoc}
use mathlib.Core.Path.{subst}
use pxgo.Shared.{
  ℕ, ◌+◌, ◌-◌, ◌≤◌, ◌<◌, ◌≡◌, refl, sym, not, ◌&&◌, true, false, some, [], ◌∷◌, ◌++◌, All, arith,
  le→ltb, ◌↔◌, ◌≢◌,
}
use pxgo.Shared.Text.{
  Text, codes, eq_text, rune_len, byte_length, is_space, fields, trim_right, format_uint, max_u64,
}
use pxgo.Shared.Text.Laws.{
  IsWord, fields-two, format_digits-IsWord, format_digits-length, format_digits-ne-nil,
  parse_uint-format_uint, eq_text_refl, eq_text_sound,
}
use pxgo.Guardian.Message.{
  Message, ready, beat, stop, unknown, write_line, send, line, read_line, read_slice, parse_message,
  hello_line, validate_hello, newline, is_line_end, max_message_bytes,
}

-- A text on one line: no carriage return and no newline in it.
abbrev pub OneLine : Text → Type 0
OneLine = All (λ c. is_line_end c ≡ false)

read_slice-line :
    (s rest : Text) (room : ℕ)
    → OneLine s
    → byte_length s < room
    → read_slice room (s ++ newline ∷ rest) ≡ line (s ++ newline ∷ []) rest
unfolding read_slice byte_length
read_slice-line [] rest room h fits = ground arith
read_slice-line (c ∷ s) rest room h fits =
    rw (read_slice-line s rest (room - rune_len c) h.1 (omega arith)) (ground (arith, h.0))

trim_right-line : (s : Text) → OneLine s → trim_right is_line_end (s ++ newline ∷ []) ≡ s
unfolding trim_right
trim_right-line [] h = refl
trim_right-line (c ∷ []) h = rw h.0
trim_right-line (c ∷ d ∷ s) h = rw (trim_right-line (d ∷ s) h.1)

-- A line that fits arrives whole, and what follows it is kept for the next read.
read_line-write :
    (s rest : Text)
    → OneLine s
    → byte_length s < max_message_bytes
    → read_line ((s ++ newline ∷ []) ++ rest) ≡ line s rest
unfolding read_line
read_line-write s rest h fits =
    rw append_assoc
      (rw (read_slice-line s rest max_message_bytes h fits) (rw (trim_right-line s h)))

write_line-fits :
    (s : Text) → byte_length s < max_message_bytes → write_line s ≡ some (s ++ newline ∷ [])
unfolding write_line
write_line-fits s h = rw (le→ltb max_message_bytes (byte_length s + 1) (omega arith))

IsWord-OneLine : (s : Text) → IsWord s → OneLine s
unfolding is_space
IsWord-OneLine [] h = tt
IsWord-OneLine (c ∷ s) h = (ground (arith, h.0), IsWord-OneLine s h.1)

-- A message that `Send` takes: any but an unknown type, with a sequence number of 64 bits.
abbrev pub CanSend : Message → Type 0
CanSend ready = Unit
CanSend (beat sequence) = sequence ≤ max_u64
CanSend stop = Unit
CanSend (unknown _) = ⊥

-- What goes over the wire for a message.
abbrev pub wire : Message → Text
wire ready = codes "READY"
wire (beat sequence) = codes "BEAT" ++ 32 ∷ format_uint sequence
wire stop = codes "STOP"
wire (unknown _) = []

format_uint-IsWord : (n : ℕ) → IsWord (format_uint n)
format_uint-IsWord n = format_digits-IsWord 20 n [] tt

wire-OneLine : (m : Message) → OneLine (wire m)
wire-OneLine ready = ground arith
wire-OneLine (beat n) =
    (refl, (refl, (refl, (refl, (refl, IsWord-OneLine (format_uint n) (format_uint-IsWord n))))))
wire-OneLine stop = ground arith
wire-OneLine (unknown _) = tt

wire-fits : (m : Message) → byte_length (wire m) < max_message_bytes
unfolding byte_length
wire-fits ready = ground arith
wire-fits (beat n) = let len = format_digits-length 20 n [] in omega (arith, len)
wire-fits stop = ground arith
wire-fits (unknown _) = ground arith

fields-wire : (n : ℕ) → fields (wire (beat n)) ≡ codes "BEAT" ∷ format_uint n ∷ []
fields-wire n =
    let (d, s, e) = format_digits-ne-nil 19 n in
    rw e (
      fields-two 66 d (69 ∷ 65 ∷ 84 ∷ []) s (unfold is_space in (refl, (refl, (refl, (refl, tt)))))
        (rw e at (format_uint-IsWord n)))

parse_message-wire : (m : Message) → CanSend m → parse_message (wire m) ≡ some m
unfolding parse_message
parse_message-wire ready h = unfold fields is_space in refl
parse_message-wire (beat n) h = rw (fields-wire n) (rw (parse_uint-format_uint n h))
parse_message-wire stop h = unfold fields is_space in refl
parse_message-wire (unknown _) h = absurd h

-- Each message that `Send` takes is written, and the other side reads the same message back and
-- keeps what follows it; a message of an unknown type is refused.
pub read-send :
    (m : Message) (rest : Text)
    → CanSend m
    → (send m ≡ some (wire m ++ newline ∷ []))
      × (read_line ((wire m ++ newline ∷ []) ++ rest) ≡ line (wire m) rest)
      × (parse_message (wire m) ≡ some m)
unfolding send
read-send m rest h =
    (sent m h, read_line-write (wire m) rest (wire-OneLine m) (wire-fits m), parse_message-wire m h)
  where
    sent : (m : Message) → CanSend m → send m ≡ some (wire m ++ newline ∷ [])
    sent ready h = write_line-fits (wire ready) (wire-fits ready)
    sent (beat n) h = write_line-fits (wire (beat n)) (wire-fits (beat n))
    sent stop h = write_line-fits (wire stop) (wire-fits stop)
    sent (unknown _) h = absurd h

-- The parent accepts a HELLO exactly if it carries the token that it gave out, for every token of
-- one word that is not empty.
pub validate_hello_iff :
    (token expected : Text)
    → IsWord token
    → (validate_hello (hello_line token) expected ≡ true) ↔ ((token ≡ expected) × (expected ≢ []))
validate_hello_iff [] expected h = ((λ e. absurd (no_word e)), λ r. absurd (r.1 (sym r.0)))
  where
    no_word : validate_hello (hello_line []) expected ≡ true → ⊥
    no_word e = unfold validate_hello hello_line fields is_space in cc e
validate_hello_iff (c ∷ t) expected h = unfold validate_hello hello_line in rw two (halves expected)
  where
    two : fields (codes "HELLO" ++ 32 ∷ c ∷ t) ≡ codes "HELLO" ∷ (c ∷ t) ∷ []
    two =
        fields-two 72 c (69 ∷ 76 ∷ 76 ∷ 79 ∷ []) t
          (unfold is_space in (refl, (refl, (refl, (refl, (refl, tt)))))) h

    halves :
        (e : Text) → ((not (eq_text e []) && eq_text (c ∷ t) e) ≡ true) ↔ (((c ∷ t) ≡ e) × (e ≢ []))
    halves [] = ((λ e. cc), λ r. absurd (r.1 refl))
    halves (d ∷ e) = (
      (λ k. (eq_text_sound (c ∷ t) (d ∷ e) k, λ z. cc)),
      λ r. subst (λ x. eq_text (c ∷ t) x ≡ true) r.0 (eq_text_refl (c ∷ t)),
    )
