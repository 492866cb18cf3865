-- ===== src/Prival/Parts.antt =====
-- Valid facilities, severities and the parts of a priority value, by their numbers.
use stumpless.Base.{
  ℕ, ◌*◌, ◌/◌, ◌%◌, ◌<◌, ◌≡◌, refl, true, false, bit_or, holds_below, holds_below_at, arith,
}
use stumpless.Base.Int.{ℤ, pos, negsuc}
use stumpless.Facility.{facility_is_invalid, get_facility}
use stumpless.Severity.{severity_is_invalid, get_severity}
use stumpless.Prival.{get_prival}
use stumpless.Prival.Parse.{is, is→≡}
use stumpless.Prival.Range.{combined, get_prival-combined}

pub facility_valid_lem :
    (z : ℤ) → facility_is_invalid z ≡ false → (i : ℕ) × (i < 24) × (z ≡ pos (i * 8))
unfolding facility_is_invalid
facility_valid_lem (negsuc n) h = absurd (ground arith)
facility_valid_lem (pos n) h = (n / 8, ground arith, ground arith)

pub severity_valid_lem : (z : ℤ) → severity_is_invalid z ≡ false → (s : ℕ) × (s < 8) × (z ≡ pos s)
unfolding severity_is_invalid
severity_valid_lem (negsuc n) h = absurd (ground arith)
severity_valid_lem (pos n) h = (n, ground arith, refl)

facility_part : holds_below 192 (λ p. is (p / 8 * 8) (get_facility (pos p))) ≡ true
unfolding holds_below get_facility
facility_part = refl

severity_part : holds_below 192 (λ p. is (p % 8) (get_severity (pos p))) ≡ true
unfolding holds_below get_severity
severity_part = refl

pub get_facility-small :
    (p : ℕ) → p < 192 → (i : ℕ) × (i < 24) × (get_facility (pos p) ≡ pos (i * 8))
get_facility-small p h = (
  p / 8,
  omega arith,
  is→≡ (p / 8 * 8) _
      (holds_below_at 192 (λ p. is (p / 8 * 8) (get_facility (pos p))) p facility_part h),
)

pub get_severity-small : (p : ℕ) → p < 192 → (s : ℕ) × (s < 8) × (get_severity (pos p) ≡ pos s)
get_severity-small p h = (
  p % 8,
  omega arith,
  is→≡ (p % 8) _ (holds_below_at 192 (λ p. is (p % 8) (get_severity (pos p))) p severity_part h),
)

-- A valid facility and a valid severity make a value below 192.
pub get_prival-small :
    (f g : ℤ) (i s : ℕ)
    → i < 24
    → s < 8
    → f ≡ pos (i * 8)
    → g ≡ pos s
    → (p : ℕ) × (p < 192) × (get_prival f g ≡ pos p)
get_prival-small f g i s h k e d =
    (bit_or (i * 8) s, combined i s h k, rw (e, d) (get_prival-combined i s h k))
