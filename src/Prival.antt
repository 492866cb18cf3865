-- ===== src/Prival.antt =====
-- src/prival.c: a priority value, its text, and the value read back from a text.
pub mod Parse
pub mod Range
pub mod Enums
pub mod Parts
use stumpless.Base.{
  ℕ, zero, suc, ◌+◌, ◌*◌, ◌-◌, ◌^◌, [], ◌∷◌, ◌++◌, List, Bytes, codes, Bool, true, false, none,
  some, Option, length, ltb, leb, ◌==◌, ◌&&◌, not, ◌||◌, bit_and, bit_or, map, get_or,
  if◌then◌else◌,
}
use stumpless.Base.Int.{ℤ, pos, negsuc}
use stumpless.Error.{null_arg_error_message}
use stumpless.World.{World, alloc_mem, raise_argument_empty, raise_invalid_param}
use stumpless.StrHelper.{tolower}
use stumpless.Facility.{
  int_bits, int_of_bits, get_facility, facility_is_invalid, stumpless_get_facility_string,
  stumpless_get_facility_enum_from_buffer,
}
use stumpless.Severity.{
  get_severity, stumpless_get_severity_string, stumpless_get_severity_enum_from_buffer,
}

-- What the functions that do not test the memory they asked for give: NULL, a block with its bytes,
-- or a write through NULL.
pub data Text : Type 0 where
  null crash : Text
  text : ℕ → Bytes → Text

abbrev pub put_text : Bytes → World → Text × World
put_text bytes w =
    let (block, w') = alloc_mem (length bytes) w in
    (elim block [ none ↦ crash | some b ↦ text b bytes ], w')

pub stumpless_get_prival_string : ℤ → World → Text × World
stumpless_get_prival_string prival w =
    let (severity, w1) = stumpless_get_severity_string (get_severity prival) w in
    let facility = stumpless_get_facility_string (get_facility prival) in
    put_text (severity ++ (codes " | " ++ (facility ++ 0 ∷ []))) w1

-- What `strrchr( s, '_' ) + 1` points at.
pub behind_last_underscore : Bytes → Bytes → Bytes
behind_last_underscore found [] = found
behind_last_underscore found (c ∷ s) =
    if c == b'_' then behind_last_underscore s s else behind_last_underscore found s

-- The text of `stumpless_get_priority_string`, without the NUL.
pub priority_text : Bytes → Bytes → Bytes
priority_text facility severity =
    map tolower (behind_last_underscore facility facility)
    ++ (b'.' ∷ map tolower (behind_last_underscore severity severity))

pub stumpless_get_priority_string : ℤ → World → Text × World
stumpless_get_priority_string (negsuc n) w = (null, w)
stumpless_get_priority_string (pos prival) w =
    let facility = stumpless_get_facility_string (get_facility (pos prival)) in
    let (severity, w1) = stumpless_get_severity_string (get_severity (pos prival)) w in
    if not (bit_and prival 0xff == prival)
    then (null, w)
    else if facility_is_invalid (get_facility (pos prival))
    then (null, w)
    else put_text (priority_text facility severity ++ 0 ∷ []) w1

pub isdigit : ℕ → Bool
isdigit c = leb b'0' c && leb c b'9'

-- `atoi` of a text that starts with a digit; the caller uses it for up to three characters.
pub atoi : ℕ → Bytes → ℕ
atoi acc [] = acc
atoi acc (c ∷ s) = let rest = atoi (acc * 10 + (c - 48)) s in if isdigit c then rest else acc

-- What stands before and behind the first period.
pub split_period : Bytes → Option (Bytes × Bytes)
split_period [] = none
split_period (c ∷ s) =
    let rest = split_period s in
    if c == b'.' then some ([], s) else elim rest [ none ↦ none | some r ↦ some (c ∷ r.0, r.1) ]

pub get_prival : ℤ → ℤ → ℤ
get_prival facility severity = int_of_bits (bit_or (int_bits facility) (int_bits severity))

-- The part of `stumpless_prival_from_string` from the search of the period on.
pub from_names : Bytes → World → ℤ × World
from_names string w = elim (split_period string) [
  | none ↦ (negsuc 0, raise_invalid_param w)
  | some parts ↦ elim (split_period parts.1) [
    | some again ↦ (negsuc 0, raise_invalid_param w)
    | none ↦ elim (stumpless_get_facility_enum_from_buffer parts.0 (length parts.0)) [
      | negsuc n ↦ (negsuc 0, raise_invalid_param w)
      | pos facility ↦
          let r = stumpless_get_severity_enum_from_buffer parts.1 (length parts.1) w in
          elim r.0 [
            | negsuc n ↦ (negsuc 0, raise_invalid_param r.1)
            | pos severity ↦ (get_prival (pos facility) (pos severity), r.1)
          ]
    ]
  ]
]

pub stumpless_prival_from_string : Option Bytes → World → ℤ × World
stumpless_prival_from_string none w =
    (negsuc 0, raise_argument_empty (null_arg_error_message "string") w)
stumpless_prival_from_string (some []) w =
    (negsuc 0, raise_argument_empty (null_arg_error_message "string") w)
stumpless_prival_from_string (some (c ∷ s)) w =
    let prival = atoi 0 (c ∷ s) in
    if isdigit c && (leb prival 191 && ltb (length (c ∷ s)) 4)
    then (pos prival, w)
    else from_names (c ∷ s) w
