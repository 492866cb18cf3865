-- ===== src/Prival/Parse.antt =====
-- The text of a priority value, read back.
use stumpless.Base.{
  ℕ, ◌<◌, ◌≡◌, refl, [], ◌∷◌, ◌++◌, Bytes, Bool, true, false, some, length, ◌==◌, ==_iff, ap,
  bit_and, not, Bool-cases, inl, inr, holds_below, holds_below_at, arith,
}
use stumpless.Base.Int.{ℤ, pos, negsuc}
use stumpless.World.{World, alloc_mem}
use stumpless.StrHelper.{
  tolower, difference, compare_end, compare_chars, strncasecmp_custom, is_zero, names, find_name,
}
use stumpless.Facility.{
  facility_is_invalid, stumpless_get_facility_string, stumpless_get_facility_enum_from_buffer,
  get_facility,
}
use stumpless.Severity.{
  severity_is_invalid, stumpless_get_severity_string, stumpless_get_severity_enum_from_buffer,
  get_severity,
}
use stumpless.Prival.{
  text, priority_text, behind_last_underscore, isdigit, atoi, split_period, get_prival, from_names,
  stumpless_get_priority_string, stumpless_prival_from_string,
}

-- The text of a value below 192.
abbrev shown : ℕ → World → Bytes
shown p w =
    priority_text (stumpless_get_facility_string (get_facility (pos p)))
      (stumpless_get_severity_string (get_severity (pos p)) w).0

abbrev pub is : ℕ → ℤ → Bool
is p (pos n) = n == p
is p (negsuc n) = false

read_table :
    (w1 w2 : World)
    → holds_below 192 (λ p. is p (stumpless_prival_from_string (some (shown p w1)) w2).0) ≡ true
unfolding holds_below tolower difference compare_end compare_chars strncasecmp_custom is_zero names
    find_name facility_is_invalid stumpless_get_facility_string
    stumpless_get_facility_enum_from_buffer get_facility severity_is_invalid
    stumpless_get_severity_string stumpless_get_severity_enum_from_buffer get_severity priority_text
    behind_last_underscore isdigit atoi split_period get_prival from_names
    stumpless_prival_from_string
read_table w1 w2 = refl

pub is→≡ : (p : ℕ) (z : ℤ) → is p z ≡ true → z ≡ pos p
is→≡ p (pos n) h = ap pos ((==_iff n p).0 h)
is→≡ p (negsuc n) h = absurd (ground arith)

small_table : holds_below 192 (λ p. bit_and p 0xff == p) ≡ true
unfolding holds_below
small_table = refl

facility_table : holds_below 192 (λ p. not (facility_is_invalid (get_facility (pos p)))) ≡ true
unfolding holds_below facility_is_invalid get_facility
facility_table = refl

not-true : (b : Bool) → not b ≡ true → b ≡ false
not-true true h = absurd (ground arith)
not-true false h = refl

priority_string-granted :
    (p : ℕ) (w : World)
    → p < 192
    → (let w1 = (stumpless_get_severity_string (get_severity (pos p)) w).1 in
        w1.malloc w1.calls (length (shown p w ++ 0 ∷ [])) ≡ true)
    → (stumpless_get_priority_string (pos p) w).0
      ≡ text (stumpless_get_severity_string (get_severity (pos p)) w).1.calls (shown p w ++ 0 ∷ [])
unfolding stumpless_get_priority_string alloc_mem
priority_string-granted p w h granted =
    let small : (bit_and p 0xff == p) ≡ true =
      holds_below_at 192 (λ p. bit_and p 0xff == p) p small_table h in
    let valid : facility_is_invalid (get_facility (pos p)) ≡ false = not-true _ (
      holds_below_at 192 (λ p. not (facility_is_invalid (get_facility (pos p)))) p facility_table
        h) in
    ground (arith, small, valid, granted)

pub severity_string-malloc :
    (z : ℤ) (w : World) → (stumpless_get_severity_string z w).1.malloc ≡ w.malloc
unfolding stumpless_get_severity_string
severity_string-malloc (negsuc n) w = refl
severity_string-malloc (pos n) w = elim (Bool-cases (severity_is_invalid (pos n))) [
  | inl bad ↦ rw bad refl
  | inr good ↦ rw good refl
]

-- The priority text of every value from 0 to 191 is made, if the allocator grants every request,
-- and read back as that value in any world.
pub prival_from_string-get_priority_string :
    (p : ℕ) (w w2 : World)
    → p < 192
    → ((n size : ℕ) → w.malloc n size ≡ true)
    → (block : ℕ) × (s : Bytes) × ((stumpless_get_priority_string (pos p) w).0
        ≡ text block (s ++ 0 ∷ []))
      × ((stumpless_prival_from_string (some s) w2).0 ≡ pos p)
prival_from_string-get_priority_string p w w2 h granted = (
  (stumpless_get_severity_string (get_severity (pos p)) w).1.calls,
  shown p w,
  priority_string-granted p w h
      (rw (severity_string-malloc (get_severity (pos p)) w) (granted _ _)),
  is→≡ p _ (
      holds_below_at 192 (λ p. is p (stumpless_prival_from_string (some (shown p w)) w2).0) p
        (read_table w w2) h),
)
