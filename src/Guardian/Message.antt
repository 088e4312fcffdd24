-- ===== src/Guardian/Message.antt =====
-- internal/guardian/protocol.go: the control messages, the lines that carry them, and the HELLO that
-- opens a session. The connection itself (deadlines, partial writes) is not modelled: `write_line`
-- gives the bytes that are handed to it, and `read_line` takes the text that has arrived.
pub mod Laws
use pxgo.Shared.{
  ℕ, zero, suc, ◌+◌, ◌-◌, Bool, true, false, not, ◌&&◌, ◌||◌, Option, none, some, List, [], ◌∷◌,
  ◌++◌, ◌==◌, ltb, if◌then◌else◌,
}
use pxgo.Shared.Text.{
  Text, codes, eq_text, rune_len, byte_length, fields, trim_right, format_uint, parse_uint,
  encode_hex,
}

pub data Message : Type 0 where
  ready : Message
  beat : ℕ → Message
  stop : Message
  unknown : Text → Message

abbrev pub max_message_bytes : ℕ
max_message_bytes = 1024

abbrev pub newline : ℕ
newline = 10

-- The bytes that `writeLine` hands to the connection, unless the line is too long.
unfoldable pub write_line : Text → Option Text
unfolding byte_length
write_line line =
    if ltb max_message_bytes (byte_length line + 1) then none else some (line ++ newline ∷ [])

-- Session.Send; `none` is ErrProtocol.
unfoldable pub send : Message → Option Text
unfolding write_line
send ready = write_line (codes "READY")
send (beat sequence) = write_line (codes "BEAT" ++ 32 ∷ format_uint sequence)
send stop = write_line (codes "STOP")
send (unknown _) = none

-- What one read sees in the text that has arrived: a line and what follows it, more bytes than the
-- reader's buffer holds with no newline among them, or no whole line yet.
pub data Arrived : Type 0 where
  line : Text → Text → Arrived
  too_long : Arrived
  incomplete : Arrived

abbrev cons_line : ℕ → Arrived → Arrived
cons_line c (line l rest) = line (c ∷ l) rest
cons_line c too_long = too_long
cons_line c incomplete = incomplete

-- bufio.Reader.ReadSlice('\n') with room for `room` more bytes.
read_slice : ℕ → Text → Arrived
read_slice room [] = if room == 0 then too_long else incomplete
read_slice room (c ∷ s) =
    let rest = cons_line c (read_slice (room - rune_len c) s) in
    if ltb room (rune_len c) then too_long else if c == newline then line (c ∷ []) s else rest

abbrev is_line_end : ℕ → Bool
is_line_end c = (c == 13) || (c == newline)

abbrev trim_line : Arrived → Arrived
trim_line (line l rest) = line (trim_right is_line_end l) rest
trim_line too_long = too_long
trim_line incomplete = incomplete

unfoldable pub read_line : Text → Arrived
unfolding read_slice trim_right
read_line arrived = trim_line (read_slice max_message_bytes arrived)

parse_beat : Option ℕ → Option Message
parse_beat none = none
parse_beat (some sequence) = some (beat sequence)

parse_parts : List Text → Option Message
unfolding parse_beat
parse_parts [] = none
parse_parts (verb ∷ []) =
    if eq_text verb (codes "READY")
    then some ready
    else if eq_text verb (codes "STOP")
    then some stop
    else none
parse_parts (verb ∷ arg ∷ []) =
    if eq_text verb (codes "BEAT") then parse_beat (parse_uint arg) else none
parse_parts (verb ∷ arg ∷ more ∷ rest) = none

-- Session.Read on a line; `none` is ErrProtocol.
unfoldable pub parse_message : Text → Option Message
unfolding parse_parts
parse_message l = parse_parts (fields l)

-- The line of `Connect`, and the parent's check of it.
unfoldable pub hello_line : Text → Text
hello_line token = codes "HELLO" ++ 32 ∷ token

abbrev is_hello : List Text → Text → Bool
is_hello (verb ∷ token ∷ []) expected =
    eq_text verb (codes "HELLO") && not (eq_text expected []) && eq_text token expected
is_hello [] expected = false
is_hello (_ ∷ []) expected = false
is_hello (_ ∷ _ ∷ _ ∷ _) expected = false

unfoldable pub validate_hello : Text → Text → Bool
validate_hello l expected = is_hello (fields l) expected

-- NewToken, from the 32 random bytes.
unfoldable pub new_token : List ℕ → Text
new_token random = encode_hex random
