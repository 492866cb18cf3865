-- ===== src/Validate/Utf8/Bits.antt =====
-- The masks of the decoder as ranges and remainders of bytes.
use stumpless.Base.{
  ℕ, ◌%◌, ◌<◌, ◌≡◌, refl, bit_and, bit_or, ◌&&◌, Bool, true, false, ltb, leb, ◌==◌, ==_iff,
  holds_below, holds_below_at, arith,
}

-- Equality of two tests.
abbrev same : Bool → Bool → Bool
same true b = b
same false true = false
same false false = true

same_iff : (a b : Bool) → same a b ≡ true → a ≡ b
same_iff true b h = ground arith
same_iff false true h = ground arith
same_iff false false h = refl

abbrev pub within : ℕ → ℕ → ℕ → Bool
within lo hi c = leb lo c && ltb c hi

-- Two tests that agree on a table agree below its end.
same_below :
    (p q : ℕ → Bool) (n c : ℕ) → holds_below n (λ x. same (p x) (q x)) ≡ true → c < n → p c ≡ q c
same_below p q n c table h =
    same_iff (p c) (q c) (holds_below_at n (λ x. same (p x) (q x)) c table h)

-- The same of tests of two bytes.
same_below₂ :
    (p q : ℕ → ℕ → Bool) (m n b c : ℕ)
    → holds_below m (λ x. holds_below n (λ y. same (p x y) (q x y))) ≡ true
    → b < m
    → c < n
    → p b c ≡ q b c
same_below₂ p q m n b c table hb hc =
    same_below (p b) (q b) n c
      (holds_below_at m (λ x. holds_below n (λ y. same (p x y) (q x y))) b table hb) hc

-- Two functions that agree on a table.
eq_below : (f g : ℕ → ℕ) (n c : ℕ) → holds_below n (λ x. f x == g x) ≡ true → c < n → f c ≡ g c
eq_below f g n c table h = (==_iff _ _).0 (holds_below_at n (λ x. f x == g x) c table h)

pub two_lead : (c : ℕ) → c < 256 → (bit_and c 0xe0 == 0xc0) ≡ within 192 224 c
unfolding holds_below
two_lead c h = same_below (λ x. bit_and x 0xe0 == 0xc0) (within 192 224) 256 c refl h

pub three_lead : (c : ℕ) → c < 256 → (bit_and c 0xf0 == 0xe0) ≡ within 224 240 c
unfolding holds_below
three_lead c h = same_below (λ x. bit_and x 0xf0 == 0xe0) (within 224 240) 256 c refl h

pub four_lead : (c : ℕ) → c < 256 → (bit_and c 0xf8 == 0xf0) ≡ within 240 248 c
unfolding holds_below
four_lead c h = same_below (λ x. bit_and x 0xf8 == 0xf0) (within 240 248) 256 c refl h

pub ascii_lead : (c : ℕ) → c < 256 → (bit_and c 0x80 == 0) ≡ ltb c 128
unfolding holds_below
ascii_lead c h = same_below (λ x. bit_and x 0x80 == 0) (λ x. ltb x 128) 256 c refl h

pub continuation : (c : ℕ) → c < 256 → (bit_and c 0xc0 == 0x80) ≡ within 128 192 c
unfolding holds_below
continuation c h = same_below (λ x. bit_and x 0xc0 == 0x80) (within 128 192) 256 c refl h

pub low_five : (c : ℕ) → c < 256 → bit_and c 0x1f ≡ c % 32
unfolding holds_below
low_five c h = eq_below (λ x. bit_and x 0x1f) (λ x. x % 32) 256 c refl h

pub low_four : (c : ℕ) → c < 256 → bit_and c 0x0f ≡ c % 16
unfolding holds_below
low_four c h = eq_below (λ x. bit_and x 0x0f) (λ x. x % 16) 256 c refl h

pub low_three : (c : ℕ) → c < 256 → bit_and c 0x07 ≡ c % 8
unfolding holds_below
low_three c h = eq_below (λ x. bit_and x 0x07) (λ x. x % 8) 256 c refl h

pub low_six : (c : ℕ) → c < 256 → bit_and c 0x3f ≡ c % 64
unfolding holds_below
low_six c h = eq_below (λ x. bit_and x 0x3f) (λ x. x % 64) 256 c refl h

pub short_two : (b : ℕ) → b < 32 → (bit_and b 0x1e == 0) ≡ ltb b 2
unfolding holds_below
short_two b h = same_below (λ x. bit_and x 0x1e == 0) (λ x. ltb x 2) 32 b refl h

pub short_three :
    (b c : ℕ) → b < 16 → c < 64 → (bit_or b (bit_and c 0x20) == 0) ≡ (b == 0 && ltb c 32)
unfolding holds_below
short_three b c hb hc =
    same_below₂ (λ x y. bit_or x (bit_and y 0x20) == 0) (λ x y. x == 0 && ltb y 32) 16 64 b c refl
      hb hc

pub short_four :
    (b c : ℕ) → b < 8 → c < 64 → (bit_or b (bit_and c 0x30) == 0) ≡ (b == 0 && ltb c 16)
unfolding holds_below
short_four b c hb hc =
    same_below₂ (λ x y. bit_or x (bit_and y 0x30) == 0) (λ x y. x == 0 && ltb y 16) 8 64 b c refl hb
      hc
