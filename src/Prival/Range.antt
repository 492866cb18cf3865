-- ===== src/Prival/Range.antt =====
-- What `stumpless_prival_from_string` can return.
use stumpless.Base.{
  ℕ, ◌+◌, ◌*◌, ◌<◌, ◌≡◌, refl, [], ◌∷◌, List, Bytes, true, false, Option, none, some, length, codes,
  ltb, leb, ltb→lt, ◌&&◌, bit_or, Bool-cases, Option-cases, ◌⊎◌, inl, inr, holds_below,
  holds_below_at, arith,
}
use stumpless.Base.Int.{ℤ, pos, negsuc}
use stumpless.World.{World}
use stumpless.StrHelper.{names, find_name}
use stumpless.Facility.{stumpless_get_facility_enum_from_buffer, facility_enum_to_string}
use stumpless.Severity.{stumpless_get_severity_enum_from_buffer, severity_enum_to_string}
use stumpless.Prival.{
  isdigit, atoi, split_period, get_prival, from_names, stumpless_prival_from_string,
}

find_name_inside :
    (b : Bytes) (n o i j : ℕ) (table : List Bytes)
    → find_name b n o i table ≡ some j
    → j < i + length table
unfolding find_name
find_name_inside b n o i j [] e = absurd (ground arith)
find_name_inside b n o i j (name ∷ table) e = elim (Bool-cases (names b n o name)) [
  | inl hit ↦ ground arith
  | inr miss ↦ omega (arith, find_name_inside b n o (i + 1) j table (rw miss at e))
]

-- A facility of the list, or -1.
pub facility_enum-range :
    (b : Bytes) (n : ℕ)
    → ((i : ℕ) × (i < 24) × (stumpless_get_facility_enum_from_buffer b n ≡ pos (i * 8)))
      ⊎ (stumpless_get_facility_enum_from_buffer b n ≡ negsuc 0)
unfolding stumpless_get_facility_enum_from_buffer
facility_enum-range b n = elim (Option-cases (find_name b n 19 0 facility_enum_to_string)) [
  | inr (i, e) ↦ inl (i, find_name_inside b n 19 0 i facility_enum_to_string e, ground arith)
  | inl e ↦ elim (Bool-cases (names b n 0 (codes "SECURITY"))) [
    | inl auth ↦ inl (4, omega arith, ground arith)
    | inr no_auth ↦ elim (Bool-cases (names b n 0 (codes "AUTHPRIV"))) [
      | inl auth2 ↦ inl (10, omega arith, ground arith)
      | inr other ↦ inr (ground arith)
    ]
  ]
]

-- A severity of the list with no error left, or -1 with an error.
pub severity_enum-range :
    (b : Bytes) (n : ℕ) (w : World)
    → let (severity, w') = stumpless_get_severity_enum_from_buffer b n w in
      ((i : ℕ) × (i < 8) × (severity ≡ pos i) × (w'.error_valid ≡ false))
      ⊎ ((severity ≡ negsuc 0) × (w'.error_valid ≡ true))
unfolding stumpless_get_severity_enum_from_buffer
severity_enum-range b n w = elim (Option-cases (find_name b n 19 0 severity_enum_to_string)) [
  | inr (i, e) ↦
      inl (i, find_name_inside b n 19 0 i severity_enum_to_string e, ground arith, ground arith)
  | inl e ↦ elim (Bool-cases (names b n 0 (codes "PANIC"))) [
    | inl panic ↦ inl (0, omega arith, ground arith, ground arith)
    | inr no_panic ↦ elim (Bool-cases (names b n 0 (codes "ERROR"))) [
      | inl err ↦ inl (3, omega arith, ground arith, ground arith)
      | inr no_err ↦ elim (Bool-cases (names b n 0 (codes "WARN"))) [
        | inl warn ↦ inl (4, omega arith, ground arith, ground arith)
        | inr other ↦ inr (ground arith, ground arith)
      ]
    ]
  ]
]

-- What a call for a priority value returns and leaves.
abbrev pub InRange : World → ℤ × World → Type 0
InRange w (z, w') =
    ((p : ℕ) × (p < 192) × (z ≡ pos p) × ((w'.error_valid ≡ false) ⊎ (w' ≡ w)))
    ⊎ ((z ≡ negsuc 0) × (w'.error_valid ≡ true))

combined_table : holds_below 24 (λ i. holds_below 8 (λ s. ltb (bit_or (i * 8) s) 192)) ≡ true
unfolding holds_below
combined_table = refl

pub combined : (i s : ℕ) → i < 24 → s < 8 → bit_or (i * 8) s < 192
combined i s h k = ltb→lt _ _ (
    holds_below_at 8 (λ s. ltb (bit_or (i * 8) s) 192) s
      (holds_below_at 24 (λ i. holds_below 8 (λ s. ltb (bit_or (i * 8) s) 192)) i combined_table h)
      k)

pub get_prival-combined :
    (i s : ℕ) → i < 24 → s < 8 → get_prival (pos (i * 8)) (pos s) ≡ pos (bit_or (i * 8) s)
unfolding get_prival
get_prival-combined i s h k = let small = combined i s h k in ground arith

from_names-InRange : (string : Bytes) (w : World) → InRange w (from_names string w)
unfolding from_names
from_names-InRange string w = elim (Option-cases (split_period string)) [
  | inl e ↦ inr (ground arith, ground arith)
  | inr (parts, e) ↦ elim (Option-cases (split_period parts.1)) [
    | inr (again, f) ↦ inr (ground arith, ground arith)
    | inl f ↦ elim (facility_enum-range parts.0 (length parts.0)) [
      | inr bad ↦ inr (ground arith, ground arith)
      | inl (i, hi, g) ↦ elim (severity_enum-range parts.1 (length parts.1) w) [
        | inr (bad, error) ↦ inr (ground arith, ground arith)
        | inl (s, hs, k, error) ↦ inl (
          bit_or (i * 8) s,
          combined i s hi hs,
          ground (arith, get_prival-combined i s hi hs),
          inl (ground arith),
        )
      ]
    ]
  ]
]

-- Whatever the text, stumpless_prival_from_string returns a value from 0 to 191 with no error left
-- or nothing changed, or -1 with an error reported.
pub prival_from_string-InRange :
    (string : Option Bytes) (w : World) → InRange w (stumpless_prival_from_string string w)
unfolding stumpless_prival_from_string
prival_from_string-InRange none w = inr (refl, refl)
prival_from_string-InRange (some []) w = inr (refl, refl)
prival_from_string-InRange (some (c ∷ s)) w =
    elim (Bool-cases (isdigit c && (leb (atoi 0 (c ∷ s)) 191 && ltb (length (c ∷ s)) 4))) [
      | inl number ↦ inl (atoi 0 (c ∷ s), ground arith, ground arith, inr (ground arith))
      | inr words ↦ ground (arith, from_names-InRange (c ∷ s) w)
    ]
