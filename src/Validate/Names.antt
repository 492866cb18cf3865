-- ===== src/Validate/Names.antt =====
-- The checks of names in src/validate.c: what each accepts, and what it reports otherwise.
use stumpless.Base.{
  ℕ, ◌≤◌, ◌<◌, ◌≡◌, ◌≢◌, refl, ap, [], ◌∷◌, Bool, true, false, ◌⊎◌, inl, some, Bytes, All, length,
  take, arith,
}
use stumpless.Error.{
  L10n, format_error_message, string_too_long_error_message, string_length_error_code_type,
}
use stumpless.World.{World, raise_argument_too_big, raise_invalid_encoding}
use stumpless.Validate.{
  validate_string_length, validate_name_chars, validate_printable_ascii, validate_app_name,
  validate_app_name_length, validate_element_name, validate_element_name_length, validate_hostname,
  validate_hostname_length, validate_msgid, validate_msgid_length, validate_param_name,
  validate_param_name_length, validate_procid, validate_procid_length,
}

-- PRINTUSASCII of RFC 5424.
abbrev pub IsPrintable : ℕ → Type 0
IsPrintable c = (33 ≤ c) × (c ≤ 126)

-- The characters of an SD-NAME of RFC 5424.
abbrev pub IsNameChar : ℕ → Type 0
IsNameChar c = IsPrintable c × (c ≢ b'=') × (c ≢ b']') × (c ≢ b'"')

-- What a check of the string `s` returns and leaves: it accepts a string of at most `max` bytes
-- which are all `P`; it refuses a longer one as too big, and another one for its encoding.
abbrev pub Checks : (ℕ → Type 0) → ℕ → L10n → Bytes → World → Bool × ℕ × World → Type 0
Checks P max bad s w r =
    ((length s ≤ max) × All P s × (r ≡ (true, length s, w)))
    ⊎ ((max < length s)
        × (r ≡ (
          false,
          length s,
          raise_argument_too_big string_too_long_error_message (length s)
              (some string_length_error_code_type) w,
        )))
    ⊎ ((length s ≤ max) × (¬ All P s) × (r ≡ (false, length s, raise_invalid_encoding bad w)))

-- A check of the bytes alone.
abbrev Scans : (ℕ → Type 0) → L10n → Bytes → World → Bool × World → Type 0
Scans P bad s w r =
    (All P s × (r ≡ (true, w))) ⊎ ((¬ All P s) × (r ≡ (false, raise_invalid_encoding bad w)))

pub validate_printable_ascii-Scans :
    (s : Bytes) (w : World)
    → Scans IsPrintable (format_error_message "printable ascii") s w (validate_printable_ascii s w)
unfolding validate_printable_ascii
validate_printable_ascii-Scans [] w = inl (tt, refl)
validate_printable_ascii-Scans (c ∷ s) w = ground (arith, validate_printable_ascii-Scans s w)

pub validate_name_chars-Scans :
    (s : Bytes) (w : World)
    → Scans IsNameChar (format_error_message "identifier") s w (validate_name_chars s w)
unfolding validate_name_chars
validate_name_chars-Scans [] w = inl (tt, refl)
validate_name_chars-Scans (c ∷ s) w = ground (arith, validate_name_chars-Scans s w)

take-length : (s : Bytes) → take (length s) s ≡ s
take-length [] = refl
take-length (c ∷ s) = ap (λ r. c ∷ r) (take-length s)

-- The checks of application names, host names, message ids and process ids accept exactly
-- printable ASCII of at most 48, 255, 32 and 128 bytes, report longer strings as too big and
-- others for their encoding.
pub validate_ascii_names :
    (s : Bytes) (w : World)
    → Checks IsPrintable 48 (format_error_message "printable ascii") s w (validate_app_name s w)
      × Checks IsPrintable 255 (format_error_message "printable ascii") s w (validate_hostname s w)
      × Checks IsPrintable 32 (format_error_message "printable ascii") s w (validate_msgid s w)
      × Checks IsPrintable 128 (format_error_message "printable ascii") s w (validate_procid s w)
unfolding validate_app_name validate_app_name_length validate_hostname validate_hostname_length
    validate_msgid validate_msgid_length validate_procid validate_procid_length
    validate_string_length
validate_ascii_names s w =
    let scan = validate_printable_ascii-Scans s w in
    let whole = take-length s in
    (
      ground (arith, scan, whole),
      ground (arith, scan, whole),
      ground (arith, scan, whole),
      ground (arith, scan, whole),
    )

-- The checks of element and param names accept exactly the strings of at most 32 bytes that are
-- printable ASCII without '=', ']' and '"', report longer ones as too big and others for their
-- encoding.
pub validate_identifiers :
    (s : Bytes) (w : World)
    → Checks IsNameChar 32 (format_error_message "identifier") s w (validate_element_name s w)
      × Checks IsNameChar 32 (format_error_message "identifier") s w (validate_param_name s w)
unfolding validate_element_name validate_element_name_length validate_param_name
    validate_param_name_length validate_string_length
validate_identifiers s w =
    let scan = validate_name_chars-Scans s w in
    let whole = take-length s in (ground (arith, scan, whole), ground (arith, scan, whole))
