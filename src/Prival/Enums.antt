-- ===== src/Prival/Enums.antt =====
-- The names of facilities and severities, and values taken apart and put together.
use stumpless.Base.{
  ℕ, ◌*◌, ◌<◌, ◌≡◌, refl, Bool, Bytes, true, false, drop, length, ◌&&◌, not, holds_below,
  holds_below_at, arith,
}
use stumpless.Base.Int.{ℤ, pos}
use stumpless.World.{World, alloc_mem}
use stumpless.StrHelper.{
  tolower, difference, compare_end, compare_chars, strncasecmp_custom, is_zero, names, find_name,
}
use stumpless.Facility.{
  facility_is_invalid, stumpless_get_facility_string, stumpless_get_facility_enum_from_buffer,
  stumpless_get_facility_enum, get_facility,
}
use stumpless.Severity.{
  severity_is_invalid, stumpless_get_severity_string, stumpless_get_severity_enum_from_buffer,
  stumpless_get_severity_enum, get_severity,
}
use stumpless.Prival.{crash, put_text, get_prival, stumpless_get_prival_string}
use stumpless.Prival.Parse.{is, is→≡, severity_string-malloc}

facility_names :
    holds_below 24 (λ i.
      is
        (i * 8)
        (stumpless_get_facility_enum (drop 19 (stumpless_get_facility_string (pos (i * 8))))))
    ≡ true
unfolding holds_below tolower difference compare_end compare_chars strncasecmp_custom is_zero names
    find_name facility_is_invalid stumpless_get_facility_string
    stumpless_get_facility_enum_from_buffer stumpless_get_facility_enum
facility_names = refl

severity_names :
    (w1 w2 : World)
    → holds_below 8 (λ i.
      (let r =
          stumpless_get_severity_enum (drop 19 (stumpless_get_severity_string (pos i) w1).0) w2 in
        is i r.0 && not r.1.error_valid))
      ≡ true
unfolding holds_below tolower difference compare_end compare_chars strncasecmp_custom is_zero names
    find_name severity_is_invalid stumpless_get_severity_string
    stumpless_get_severity_enum_from_buffer stumpless_get_severity_enum
severity_names w1 w2 = refl

-- The name of each of the 24 facilities without its prefix, looked up, is that facility.
pub get_facility_enum-get_facility_string :
    (i : ℕ)
    → i < 24
    → stumpless_get_facility_enum (drop 19 (stumpless_get_facility_string (pos (i * 8))))
      ≡ pos (i * 8)
get_facility_enum-get_facility_string i h = is→≡ (i * 8) _ (
    holds_below_at 24
      (λ i.
        is (i * 8)
          (stumpless_get_facility_enum (drop 19 (stumpless_get_facility_string (pos (i * 8))))))
      i facility_names h)

both_true : (a b : Bool) → a && not b ≡ true → (a ≡ true) × (b ≡ false)
both_true true false h = (refl, refl)
both_true true true h = absurd (ground arith)
both_true false b h = absurd (ground arith)

-- The name of each of the 8 severities without its prefix, looked up, is that severity, and no
-- error is left.
pub get_severity_enum-get_severity_string :
    (i : ℕ) (w1 w2 : World)
    → i < 8
    → let r =
        stumpless_get_severity_enum (drop 19 (stumpless_get_severity_string (pos i) w1).0) w2 in
      (r.0 ≡ pos i) × (r.1.error_valid ≡ false)
get_severity_enum-get_severity_string i w1 w2 h =
    let (a, b) = both_true _ _ (
      holds_below_at 8
        (λ i.
          (let r =
              stumpless_get_severity_enum (drop 19 (stumpless_get_severity_string (pos i) w1).0)
                w2 in
            is i r.0 && not r.1.error_valid))
        i (severity_names w1 w2) h) in
    (is→≡ i _ a, b)

combine_table :
    holds_below 256 (λ p. is p (get_prival (get_facility (pos p)) (get_severity (pos p)))) ≡ true
unfolding holds_below get_prival get_facility get_severity
combine_table = refl

-- A value of one byte is its facility and its severity put together.
pub get_prival-parts :
    (p : ℕ) → p < 256 → get_prival (get_facility (pos p)) (get_severity (pos p)) ≡ pos p
get_prival-parts p h = is→≡ p _ (
    holds_below_at 256 (λ p. is p (get_prival (get_facility (pos p)) (get_severity (pos p)))) p
      combine_table h)

put_text_crashes :
    (bytes : Bytes) (w : World)
    → w.malloc w.calls (length bytes) ≡ false
    → (put_text bytes w).0 ≡ crash
unfolding alloc_mem
put_text_crashes bytes w refused = ground arith

-- Where the allocator refuses every request, stumpless_get_prival_string writes through NULL.
prival_string_crashes :
    (prival : ℤ) (w : World)
    → ((n size : ℕ) → w.malloc n size ≡ false)
    → (stumpless_get_prival_string prival w).0 ≡ crash
unfolding stumpless_get_prival_string
prival_string_crashes prival w refused =
    put_text_crashes _ _ (rw (severity_string-malloc (get_severity prival) w) (refused _ _))
