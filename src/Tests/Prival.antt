-- ===== src/Tests/Prival.antt =====
-- Priority values of src/prival.c and their names.
use stumpless.Base.{ℕ, ◌≡◌, refl, [], ◌∷◌, ◌++◌, Bytes, some, false, arith}
use stumpless.Base.Int.{pos}
use stumpless.World.{World}
use stumpless.Validate.Utf8.Accepted.{no_error}
use stumpless.Prival.{text, stumpless_get_priority_string, stumpless_prival_from_string}
use stumpless.Prival.Parse.{prival_from_string-get_priority_string}

abbrev no_memory : World
no_memory = record no_error { malloc = λ n size. false }

prival_from_string-get_priority_string_example :
    (block : ℕ) × (s : Bytes) × ((stumpless_get_priority_string (pos 165) no_error).0
      ≡ text block (s ++ 0 ∷ []))
    × ((stumpless_prival_from_string (some s) no_error).0 ≡ pos 165)
prival_from_string-get_priority_string_example =
    prival_from_string-get_priority_string 165 no_error no_error (omega arith) (λ n size. refl)
