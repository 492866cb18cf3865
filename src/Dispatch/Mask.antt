-- ===== src/Dispatch/Mask.antt =====
-- Which severities the mask of a target lets through (src/filter.c), in numbers.
use stumpless.Base.{
  ℕ, ◌^◌, ◌/◌, ◌%◌, ◌<◌, ◌≡◌, refl, ap, ◌∙◌, Bool, true, false, bit_and, holds_below,
  holds_below_at, ◌==◌, not, arith,
}
use stumpless.Base.Int.{pos}
use stumpless.Severity.{get_severity}
use stumpless.Dispatch.{severity_mask}

low_table : holds_below 192 (λ p. bit_and p 7 == p % 8) ≡ true
unfolding holds_below
low_table = refl

same : Bool → Bool → Bool
same true b = b
same false b = not b

same_lem : (a b : Bool) → same a b ≡ true → a ≡ b
unfolding same
same_lem true b h = ground (arith, h)
same_lem false b h = ground (arith, h)

bit_table :
    holds_below 8 (λ s. holds_below 256 (λ m. same (bit_and (2 ^ s) m == 0) ((m / 2 ^ s) % 2 == 0)))
    ≡ true
unfolding holds_below same
bit_table = refl

bit_of_mask : (s m : ℕ) → s < 8 → m < 256 → (bit_and (2 ^ s) m == 0) ≡ ((m / 2 ^ s) % 2 == 0)
bit_of_mask s m hs hm = same_lem _ _ (
    holds_below_at 256 (λ y. same (bit_and (2 ^ s) y == 0) ((y / 2 ^ s) % 2 == 0)) m
      (holds_below_at 8
        (λ x. holds_below 256 (λ y. same (bit_and (2 ^ x) y == 0) ((y / 2 ^ x) % 2 == 0))) s
        bit_table hs)
      hm)

-- The bit of the mask for the severity of the priority value, which is its rest by 8.
abbrev pub severity_bit : ℕ → ℕ → ℕ
severity_bit mask prival = (mask / 2 ^ (prival % 8)) % 2

pub severity_mask-bit :
    (prival mask : ℕ)
    → prival < 192
    → mask < 256
    → (bit_and (severity_mask (get_severity (pos prival))) mask == 0)
      ≡ (severity_bit mask prival == 0)
unfolding get_severity
severity_mask-bit prival mask hp hm =
    let low : bit_and prival 7 ≡ prival % 8 =
      ground (arith, holds_below_at 192 (λ p. bit_and p 7 == p % 8) prival low_table hp) in
    ap (λ s. bit_and (2 ^ s) mask == 0) low ∙ bit_of_mask (prival % 8) mask (omega arith) hm
