-- ===== src/Severity.antt =====
-- src/severity.c: the severities of RFC 5424 and their names.
use stumpless.Base.{
  ℕ, [], ◌∷◌, List, Bytes, codes, Bool, true, none, some, length, ltb, bit_and, if◌then◌else◌,
}
use stumpless.Base.Int.{ℤ, pos, negsuc}
use stumpless.World.{World, clear_error, raise_invalid_severity}
use stumpless.StrHelper.{names, find_name}
use stumpless.Facility.{entry_at, int_bits}

abbrev pub severity_enum_to_string : List Bytes
severity_enum_to_string =
    codes "STUMPLESS_SEVERITY_EMERG"
    ∷ codes "STUMPLESS_SEVERITY_ALERT"
    ∷ codes "STUMPLESS_SEVERITY_CRIT"
    ∷ codes "STUMPLESS_SEVERITY_ERR"
    ∷ codes "STUMPLESS_SEVERITY_WARNING"
    ∷ codes "STUMPLESS_SEVERITY_NOTICE"
    ∷ codes "STUMPLESS_SEVERITY_INFO"
    ∷ codes "STUMPLESS_SEVERITY_DEBUG"
    ∷ []

unfoldable pub severity_is_invalid : ℤ → Bool
severity_is_invalid (negsuc n) = true
severity_is_invalid (pos n) = ltb 7 n

unfoldable pub stumpless_get_severity_string : ℤ → World → Bytes × World
stumpless_get_severity_string (negsuc n) w =
    (codes "NO_SUCH_SEVERITY", raise_invalid_severity (negsuc n) w)
stumpless_get_severity_string (pos n) w =
    if severity_is_invalid (pos n)
    then (codes "NO_SUCH_SEVERITY", raise_invalid_severity (pos n) w)
    else (entry_at severity_enum_to_string n, clear_error w)

unfoldable pub stumpless_get_severity_enum_from_buffer : Bytes → ℕ → World → ℤ × World
stumpless_get_severity_enum_from_buffer severity_buffer severity_buffer_length w =
    let w1 = clear_error w in
    elim (find_name severity_buffer severity_buffer_length 19 0 severity_enum_to_string) [
      | some i ↦ (pos i, w1)
      | none ↦
          if names severity_buffer severity_buffer_length 0 (codes "PANIC")
          then (pos 0, w1)
          else if names severity_buffer severity_buffer_length 0 (codes "ERROR")
          then (pos 3, w1)
          else if names severity_buffer severity_buffer_length 0 (codes "WARN")
          then (pos 4, w1)
          else (negsuc 0, raise_invalid_severity (negsuc 0) w1)
    ]

unfoldable pub stumpless_get_severity_enum : Bytes → World → ℤ × World
stumpless_get_severity_enum severity_string w =
    let (severity_val, w1) =
      stumpless_get_severity_enum_from_buffer severity_string (length severity_string) w in
    (
      severity_val,
      if severity_is_invalid severity_val
          then raise_invalid_severity severity_val w1
          else clear_error w1,
    )

unfoldable pub get_severity : ℤ → ℤ
get_severity prival = pos (bit_and (int_bits prival) 0x7)
