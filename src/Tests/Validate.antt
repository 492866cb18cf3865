-- ===== src/Tests/Validate.antt =====
-- The checks of src/validate.c on concrete strings.
use stumpless.Base.{◌≡◌, [], ◌∷◌, true, false, ◌⊎◌, Bytes, codes, arith}
use Prim.Native.String.{String}
use stumpless.Error.{format_error_message}
use stumpless.World.{raise_invalid_encoding}
use stumpless.Validate.Utf8.{validate_param_value}
use stumpless.Validate.Utf8.WellFormed.{WellFormed}
use stumpless.Validate.Utf8.Accepted.{no_error, validate_param_value-WellFormed}

abbrev name : Bytes
name = codes "app"

-- "A" and U+20AC
abbrev euro : Bytes
euro = 65 ∷ 0xe2 ∷ 0x82 ∷ 0xac ∷ []

validate_param_value-WellFormed_example :
    ((validate_param_value euro no_error ≡ (true, no_error)) × WellFormed euro)
    ⊎ ((m : String) × (validate_param_value euro no_error
          ≡ (false, raise_invalid_encoding (format_error_message m) no_error))
        × (¬ WellFormed euro))
validate_param_value-WellFormed_example =
    validate_param_value-WellFormed euro no_error (omega arith)
