-- ===== src/Validate/Utf8/Characters.antt =====
-- What the decoder accepts, one character at a time: the bytes of each length of a character.
use stumpless.Base.{ℕ, ◌+◌, ◌-◌, ◌*◌, ◌%◌, ◌≤◌, ◌<◌, ◌≡◌, List, [], ◌∷◌, true, ◌⊎◌, Bytes, arith}
use stumpless.World.{World}
use stumpless.Validate.Utf8.{Decoder, rounds}
use stumpless.Validate.Utf8.Steps.{
  between, in_four, round-between, round-in_two, round-in_three_first, round-in_three_last,
  round-in_four_first, round-in_four_second, round-in_four_last,
}
use stumpless.Validate.Utf8.WellFormed.{IsContinuation, WellFormed, char}

abbrev pub Accepts : Decoder → Bytes → World → Type 0
Accepts d s w = (rounds d s w).0 ≡ true

module _ (bs : List ℕ) (w : World) where
  module _ (b0 b1 b2 b3 c : ℕ) (s : Bytes) where
    Accepts-four_first :
        c < 256
        → Accepts (in_four 1 b0 b1 b2 b3 bs) (c ∷ s) w
        → IsContinuation c × Accepts (in_four 2 b0 (c % 64) b2 b3 bs) s w
    unfolding rounds
    Accepts-four_first byte h = ground (arith, round-in_four_first 0 b0 b1 b2 b3 bs c)

    Accepts-four_second :
        c < 256
        → Accepts (in_four 2 b0 b1 b2 b3 bs) (c ∷ s) w
        → IsContinuation c × Accepts (in_four 3 b0 b1 (c % 64) b3 bs) s w
    unfolding rounds
    Accepts-four_second byte h = ground (arith, round-in_four_second 0 b0 b1 b2 b3 bs c)

    Accepts-four_last :
        b0 < 8
        → b1 < 64
        → c < 256
        → Accepts (in_four 3 b0 b1 b2 b3 bs) (c ∷ s) w
        → IsContinuation c × ((0 < b0) ⊎ (16 ≤ b1)) × Accepts (between 4 b0 b1 b2 (c % 64) bs) s w
    unfolding rounds
    Accepts-four_last j k byte h = ground (arith, round-in_four_last 0 b0 b1 b2 b3 bs c)

  module _ (n b0 b1 b2 b3 c : ℕ) where
    pub Accepts-two :
        (d : ℕ) (s : Bytes)
        → 192 ≤ c
        → c < 224
        → d < 256
        → Accepts (between n b0 b1 b2 b3 bs) (c ∷ d ∷ s) w
        → IsContinuation d × (194 ≤ c) × Accepts (between n (c % 32) b1 b2 b3 bs) s w
    unfolding rounds
    Accepts-two d s lo hi byte h =
        ground (arith, round-between n b0 b1 b2 b3 bs c, round-in_two n (c % 32) b1 b2 b3 bs d)

    pub Accepts-three_cut :
        (d : ℕ)
        → 224 ≤ c
        → c < 240
        → d < 256
        → Accepts (between n b0 b1 b2 b3 bs) (c ∷ d ∷ []) w
        → IsContinuation d
    unfolding rounds
    Accepts-three_cut d lo hi byte h =
        ground
          (arith, round-between n b0 b1 b2 b3 bs c, round-in_three_first n (c % 16) b1 b2 b3 bs d)

    pub Accepts-three :
        (d e : ℕ) (s : Bytes)
        → 224 ≤ c
        → c < 240
        → d < 256
        → e < 256
        → Accepts (between n b0 b1 b2 b3 bs) (c ∷ d ∷ e ∷ s) w
        → IsContinuation d
          × IsContinuation e
          × (224 * 64 + 160 ≤ c * 64 + d)
          × Accepts (between 3 (c % 16) (d % 64) (e % 64) b3 bs) s w
    unfolding rounds
    Accepts-three d e s lo hi p q h = ground (
      arith,
      round-between n b0 b1 b2 b3 bs c,
      round-in_three_first n (c % 16) b1 b2 b3 bs d,
      round-in_three_last n (c % 16) (d % 64) b2 b3 bs e,
    )

    pub Accepts-four_cut :
        (d : ℕ)
        → 240 ≤ c
        → c < 248
        → d < 256
        → Accepts (between n b0 b1 b2 b3 bs) (c ∷ d ∷ []) w
        → IsContinuation d
    unfolding rounds
    Accepts-four_cut d lo hi byte h =
        ground
          (arith, round-between n b0 b1 b2 b3 bs c, round-in_four_first n (c % 8) b1 b2 b3 bs d)

    pub Accepts-four_cut_later :
        (d e : ℕ)
        → 240 ≤ c
        → c < 248
        → d < 256
        → e < 256
        → Accepts (between n b0 b1 b2 b3 bs) (c ∷ d ∷ e ∷ []) w
        → IsContinuation d × IsContinuation e
    unfolding rounds
    Accepts-four_cut_later d e lo hi p q h = ground (
      arith,
      round-between n b0 b1 b2 b3 bs c,
      round-in_four_first n (c % 8) b1 b2 b3 bs d,
      round-in_four_second n (c % 8) (d % 64) b2 b3 bs e,
    )

    Accepts-lead_four :
        (s : Bytes)
        → 240 ≤ c
        → c < 248
        → Accepts (between n b0 b1 b2 b3 bs) (c ∷ s) w
        → Accepts (in_four 1 (c % 8) b1 b2 b3 bs) s w
    unfolding rounds
    Accepts-lead_four s lo hi h = ground (arith, round-between n b0 b1 b2 b3 bs c)

    pub Accepts-four :
        (d e g : ℕ) (s : Bytes)
        → 240 ≤ c
        → c < 248
        → d < 256
        → e < 256
        → g < 256
        → Accepts (between n b0 b1 b2 b3 bs) (c ∷ d ∷ e ∷ g ∷ s) w
        → IsContinuation d
          × IsContinuation e
          × IsContinuation g
          × (240 * 64 + 144 ≤ c * 64 + d)
          × Accepts (between 4 (c % 8) (d % 64) (e % 64) (g % 64) bs) s w
    Accepts-four d e g s lo hi p q r h =
        let h1 = Accepts-lead_four (d ∷ e ∷ g ∷ s) lo hi h in
        let h2 = Accepts-four_first (c % 8) b1 b2 b3 d (e ∷ g ∷ s) p h1 in
        let h3 = Accepts-four_second (c % 8) (d % 64) b2 b3 e (g ∷ s) q h2.1 in
        let h4 =
          Accepts-four_last (c % 8) (d % 64) (e % 64) b3 g s (omega arith) (omega arith) r h3.1 in
        (h2.0, h3.0, h4.0, omega (arith, h2.0, h4.1), h4.2)

    -- The first byte of an accepted string is ASCII or a lead byte.
    pub Accepts-first :
        (s : Bytes)
        → c < 256
        → Accepts (between n b0 b1 b2 b3 bs) (c ∷ s) w
        → ((c < 128) × Accepts (between n b0 b1 b2 b3 bs) s w)
          ⊎ ((192 ≤ c) × (c < 224))
          ⊎ ((224 ≤ c) × (c < 240))
          ⊎ ((240 ≤ c) × (c < 248))
    unfolding rounds
    Accepts-first s byte h = ground (arith, round-between n b0 b1 b2 b3 bs c)

-- The bytes of one character, by its length.
pub char-two :
    (c d : ℕ) {s : Bytes}
    → 194 ≤ c
    → c < 224
    → IsContinuation d
    → WellFormed s
    → WellFormed (c ∷ d ∷ s)
char-two c d lo hi k v = char ((c - 192) * 64 + (d - 128)) (omega arith) (ground arith) v

pub char-three :
    (c d e : ℕ) {s : Bytes}
    → 224 * 64 + 160 ≤ c * 64 + d
    → c < 240
    → IsContinuation d
    → IsContinuation e
    → WellFormed s
    → WellFormed (c ∷ d ∷ e ∷ s)
char-three c d e lo hi k l v =
    char ((c - 224) * 4096 + (d - 128) * 64 + (e - 128)) (omega arith) (ground arith) v

pub char-four :
    (c d e g : ℕ) {s : Bytes}
    → 240 * 64 + 144 ≤ c * 64 + d
    → c < 248
    → IsContinuation d
    → IsContinuation e
    → IsContinuation g
    → WellFormed s
    → WellFormed (c ∷ d ∷ e ∷ g ∷ s)
char-four c d e g lo hi k l m v =
    char ((c - 240) * 262144 + (d - 128) * 4096 + (e - 128) * 64 + (g - 128)) (omega arith)
      (ground arith) v
