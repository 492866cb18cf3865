-- ===== src/Validate/Utf8.antt =====
-- `validate_utf8_compliance` and `validate_param_value` of src/validate.c: a decoder of four states
-- that goes over the bytes once.
pub mod Bits
pub mod Steps
pub mod WellFormed
pub mod Characters
pub mod Complete
pub mod Accepted
use stumpless.Base.{
  ℕ, suc, ◌+◌, bit_and, bit_or, List, [], ◌∷◌, Bool, true, false, ◌&&◌, Bytes, ltb, leb, ◌==◌,
  if◌then◌else◌, get_or, set, drop, length, replicate,
}
use stumpless.Error.{L10n, format_error_message}
use stumpless.World.{World, raise_invalid_encoding}

pub data Utf8State : Type 0 where
  lead_char two_char three_char four_char : Utf8State

-- The locals of the loop; `bytes` has six places.
pub record Decoder : Type 0 where
  pub current_state : Utf8State
  pub char_count : ℕ
  pub bytes : List ℕ

-- What one round of the loop does: go on, or raise an error of a format.
pub data Round : Type 0 where
  next : Decoder → Round
  fault : L10n → Round

abbrev pub bad_continuation : Round
bad_continuation = fault (format_error_message "UTF-8 continuation byte")

abbrev pub bad_shortest_form : Round
bad_shortest_form = fault (format_error_message "UTF-8 shortest form")

abbrev pub bad_lead : Round
bad_lead = fault (format_error_message "UTF-8 lead byte")

-- A lead byte: what the first byte keeps, and how many bytes there are.
lead : Decoder → ℕ → Round
lead d c =
    if bit_and c 0xe0 == 0xc0
    then next (record d { current_state = two_char; bytes = set d.bytes 0 (bit_and c 0x1f) })
    else if bit_and c 0xf0 == 0xe0
    then next (record {
      current_state = three_char;
      char_count = 1;
      bytes = set d.bytes 0 (bit_and c 0x0f);
    })
    else if bit_and c 0xf8 == 0xf0
    then next (record {
      current_state = four_char;
      char_count = 1;
      bytes = set d.bytes 0 (bit_and c 0x07);
    })
    else if bit_and c 0x80 == 0
    then next d
    else bad_lead

-- The second byte of two.
second_of_two : Decoder → ℕ → Round
second_of_two d c =
    if bit_and c 0xc0 == 0x80
    then (if bit_and (get_or d.bytes 0 0) 0x1e == 0
        then bad_shortest_form
        else next (record d { current_state = lead_char }))
    else bad_continuation

-- A later byte of `count`; `mask` picks the bits of the second that the shortest form needs.
later_of : ℕ → ℕ → Decoder → ℕ → Round
later_of count mask d c =
    let stored = set d.bytes d.char_count (bit_and c 0x3f) in
    if bit_and c 0xc0 == 0x80
    then (if d.char_count + 1 == count
        then (if bit_or (get_or stored 0 0) (bit_and (get_or stored 1 0) mask) == 0
            then bad_shortest_form
            else next (record {
              current_state = lead_char;
              char_count = d.char_count + 1;
              bytes = stored;
            }))
        else next (record d { char_count = d.char_count + 1; bytes = stored }))
    else bad_continuation

pub round : Decoder → ℕ → Round
unfolding lead second_of_two later_of
round d c = elim d.current_state [
  | lead_char ↦ lead d c
  | two_char ↦ second_of_two d c
  | three_char ↦ later_of 3 0x20 d c
  | four_char ↦ later_of 4 0x30 d c
]

-- The loop over the rest of the string. At its end it accepts, whatever the state.
pub rounds : Decoder → Bytes → World → Bool × World
rounds d [] w = (true, w)
rounds d (c ∷ str) w = elim (round d c) [
  | next d' ↦ rounds d' str w
  | fault message ↦ (false, raise_invalid_encoding message w)
]

-- What the loop starts with; the places that C leaves unset are written before they are read.
abbrev pub start : Decoder
start = record { current_state = lead_char; char_count = 0; bytes = replicate 6 0 }

-- Without the byte order mark EF BB BF, if the string begins with it.
pub strip_bom : Bytes → Bytes
strip_bom str =
    if leb 3 (length str)
      && (get_or str 0 0 == 0xef && get_or str 1 0 == 0xbb && get_or str 2 0 == 0xbf)
    then drop 3 str
    else str

pub validate_utf8_compliance : Bytes → World → Bool × World
validate_utf8_compliance str w = rounds start (strip_bom str) w

pub validate_param_value : Bytes → World → Bool × World
unfolding validate_utf8_compliance
validate_param_value str w = validate_utf8_compliance str w
