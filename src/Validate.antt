-- ===== src/Validate.antt =====
-- src/validate.c: the checks of names and values. A string stands for its bytes before the NUL, and
-- a checker returns its verdict, the length it stores through `*length`, and the world.
pub mod Utf8
pub mod Names
use stumpless.Base.{
  ℕ, ◌∷◌, [], Bool, true, false, ◌||◌, Bytes, codes, length, take, some, ltb, ◌==◌, if◌then◌else◌,
}
use stumpless.Error.{
  string_too_long_error_message, string_length_error_code_type, format_error_message,
}
use stumpless.World.{World, raise_argument_too_big, raise_invalid_encoding}

abbrev pub max_app_name_length : ℕ
max_app_name_length = 48

abbrev pub max_element_name_length : ℕ
max_element_name_length = 32

abbrev pub max_hostname_length : ℕ
max_hostname_length = 255

abbrev pub max_msgid_length : ℕ
max_msgid_length = 32

abbrev pub max_param_name_length : ℕ
max_param_name_length = 32

abbrev pub max_procid_length : ℕ
max_procid_length = 128

validate_string_length : Bytes → ℕ → World → Bool × ℕ × World
validate_string_length str max_length w =
    if ltb max_length (length str)
    then (
      false,
      length str,
      raise_argument_too_big string_too_long_error_message (length str)
          (some string_length_error_code_type) w,
    )
    else (true, length str, w)

-- A byte above 127 is negative where `char` is signed, and above 126 where it is not: each test
-- holds of it as of a byte above 126.
abbrev is_name_fault : ℕ → Bool
is_name_fault c = ltb c 33 || ltb 126 c || c == b'=' || c == b']' || c == b'"'

pub validate_name_chars : Bytes → World → Bool × World
validate_name_chars [] w = (true, w)
validate_name_chars (c ∷ str) w =
    if is_name_fault c
    then (false, raise_invalid_encoding (format_error_message "identifier") w)
    else validate_name_chars str w

pub validate_printable_ascii : Bytes → World → Bool × World
validate_printable_ascii [] w = (true, w)
validate_printable_ascii (c ∷ str) w =
    if ltb c 33 || ltb 126 c
    then (false, raise_invalid_encoding (format_error_message "printable ascii") w)
    else validate_printable_ascii str w

-- `validate_x_length( str, length ) && check( str, *length )`
abbrev both :
    (Bytes → World → Bool × ℕ × World)
    → (Bytes → World → Bool × World)
    → Bytes
    → World
    → Bool × ℕ × World
both validate_length check str w =
    let (fits, len, w') = validate_length str w in
    let (good, w'') = check (take len str) w' in if fits then (good, len, w'') else (false, len, w')

pub validate_app_name_length : Bytes → World → Bool × ℕ × World
validate_app_name_length app_name w = validate_string_length app_name max_app_name_length w

pub validate_app_name : Bytes → World → Bool × ℕ × World
validate_app_name str w = both validate_app_name_length validate_printable_ascii str w

pub validate_element_name_length : Bytes → World → Bool × ℕ × World
validate_element_name_length name w = validate_string_length name max_element_name_length w

pub validate_element_name : Bytes → World → Bool × ℕ × World
validate_element_name str w = both validate_element_name_length validate_name_chars str w

pub validate_hostname_length : Bytes → World → Bool × ℕ × World
validate_hostname_length hostname w = validate_string_length hostname max_hostname_length w

pub validate_hostname : Bytes → World → Bool × ℕ × World
validate_hostname hostname w = both validate_hostname_length validate_printable_ascii hostname w

pub validate_msgid_length : Bytes → World → Bool × ℕ × World
validate_msgid_length msgid w = validate_string_length msgid max_msgid_length w

pub validate_msgid : Bytes → World → Bool × ℕ × World
validate_msgid str w = both validate_msgid_length validate_printable_ascii str w

pub validate_param_name_length : Bytes → World → Bool × ℕ × World
validate_param_name_length name w = validate_string_length name max_param_name_length w

pub validate_param_name : Bytes → World → Bool × ℕ × World
validate_param_name str w = both validate_param_name_length validate_name_chars str w

pub validate_procid_length : Bytes → World → Bool × ℕ × World
validate_procid_length procid w = validate_string_length procid max_procid_length w

pub validate_procid : Bytes → World → Bool × ℕ × World
validate_procid procid w = both validate_procid_length validate_printable_ascii procid w
