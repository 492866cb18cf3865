-- ===== src/Facility.antt =====
-- src/facility.c: the facilities of RFC 5424 and their names.
use stumpless.Base.{
  ℕ, ◌*◌, ◌/◌, ◌%◌, ◌^◌, ◌-◌, ◌+◌, [], ◌∷◌, List, Bytes, codes, Bool, true, not, none, some, length,
  ltb, ◌==◌, ◌||◌, bit_and, drop, if◌then◌else◌,
}
use stumpless.Base.Int.{ℤ, pos, negsuc}
use stumpless.StrHelper.{names, find_name}

abbrev pub facility_enum_to_string : List Bytes
facility_enum_to_string =
    codes "STUMPLESS_FACILITY_KERN"
    ∷ codes "STUMPLESS_FACILITY_USER"
    ∷ codes "STUMPLESS_FACILITY_MAIL"
    ∷ codes "STUMPLESS_FACILITY_DAEMON"
    ∷ codes "STUMPLESS_FACILITY_AUTH"
    ∷ codes "STUMPLESS_FACILITY_SYSLOG"
    ∷ codes "STUMPLESS_FACILITY_LPR"
    ∷ codes "STUMPLESS_FACILITY_NEWS"
    ∷ codes "STUMPLESS_FACILITY_UUCP"
    ∷ codes "STUMPLESS_FACILITY_CRON"
    ∷ codes "STUMPLESS_FACILITY_AUTH2"
    ∷ codes "STUMPLESS_FACILITY_FTP"
    ∷ codes "STUMPLESS_FACILITY_NTP"
    ∷ codes "STUMPLESS_FACILITY_AUDIT"
    ∷ codes "STUMPLESS_FACILITY_ALERT"
    ∷ codes "STUMPLESS_FACILITY_CRON2"
    ∷ codes "STUMPLESS_FACILITY_LOCAL0"
    ∷ codes "STUMPLESS_FACILITY_LOCAL1"
    ∷ codes "STUMPLESS_FACILITY_LOCAL2"
    ∷ codes "STUMPLESS_FACILITY_LOCAL3"
    ∷ codes "STUMPLESS_FACILITY_LOCAL4"
    ∷ codes "STUMPLESS_FACILITY_LOCAL5"
    ∷ codes "STUMPLESS_FACILITY_LOCAL6"
    ∷ codes "STUMPLESS_FACILITY_LOCAL7"
    ∷ []

-- The entry of a table at an index inside it.
abbrev pub entry_at : List Bytes → ℕ → Bytes
entry_at table i = elim (drop i table) [ [] ↦ [] | name ∷ rest ↦ name ]

unfoldable pub facility_is_invalid : ℤ → Bool
facility_is_invalid (negsuc n) = true
facility_is_invalid (pos n) = ltb (23 * 8) n || not (n % 8 == 0)

unfoldable pub stumpless_get_facility_string : ℤ → Bytes
stumpless_get_facility_string (negsuc n) = codes "NO_SUCH_FACILITY"
stumpless_get_facility_string (pos n) =
    if facility_is_invalid (pos n)
    then codes "NO_SUCH_FACILITY"
    else entry_at facility_enum_to_string (n / 8)

unfoldable pub stumpless_get_facility_enum_from_buffer : Bytes → ℕ → ℤ
stumpless_get_facility_enum_from_buffer facility_buffer facility_buffer_length =
    elim (find_name facility_buffer facility_buffer_length 19 0 facility_enum_to_string) [
      | some i ↦ pos (i * 8)
      | none ↦
          if names facility_buffer facility_buffer_length 0 (codes "SECURITY")
          then pos (4 * 8)
          else if names facility_buffer facility_buffer_length 0 (codes "AUTHPRIV")
          then pos (10 * 8)
          else negsuc 0
    ]

unfoldable pub stumpless_get_facility_enum : Bytes → ℤ
stumpless_get_facility_enum facility_string =
    stumpless_get_facility_enum_from_buffer facility_string (length facility_string)

-- The bits of an `int`.
abbrev pub int_bits : ℤ → ℕ
int_bits (pos n) = n
int_bits (negsuc n) = 2 ^ 32 - (n + 1)

abbrev pub int_of_bits : ℕ → ℤ
int_of_bits n = if ltb n (2 ^ 31) then pos n else negsuc (2 ^ 32 - 1 - n)

unfoldable pub get_facility : ℤ → ℤ
get_facility prival = pos (bit_and (int_bits prival) 0xf8)
