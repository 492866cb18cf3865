-- ===== src/Tests/StrBuilder.antt =====
-- The builders of src/strbuilder.c at work on concrete texts.
use stumpless.Base.{◌^◌, ◌≡◌, [], ◌∷◌, some, Bytes, ltb, arith}
use stumpless.Base.Int.{pos}
use stumpless.World.{World}
use stumpless.Validate.Utf8.Accepted.{no_error}
use stumpless.StrBuilder.{StrBuilder, append_string, on_builder, strbuilder_append_positive_int}
use stumpless.StrBuilder.Growth.{IsValid, IsBounded}
use stumpless.StrBuilder.Decimal.{IsDecimal, strbuilder_append_positive_int-IsDecimal}

-- An allocator that grants less than half the address space.
abbrev pub roomy_world : World
roomy_world = record no_error { malloc = λ n size. ltb size (2 ^ 63); calls = 1; live = 0 ∷ [] }

pub roomy_world-IsBounded : IsBounded (λ n size. ltb size (2 ^ 63))
roomy_world-IsBounded n size big = ground arith

-- Two bytes, of which one is in use.
abbrev short_builder : StrBuilder
short_builder = record { block = 0; storage = b'a' ∷ b'b' ∷ []; position = 1 }

short_builder-IsValid : IsValid short_builder
short_builder-IsValid = record { nonempty = omega arith; small = omega arith; inside = omega arith }

strbuilder_append_positive_int-IsDecimal_example :
    (s : Bytes) × IsDecimal 165 s
    × (strbuilder_append_positive_int (some short_builder) (pos 165) roomy_world
        ≡ on_builder (λ b. append_string b s) (some short_builder) roomy_world)
strbuilder_append_positive_int-IsDecimal_example =
    strbuilder_append_positive_int-IsDecimal short_builder 165 roomy_world (omega arith)
