-- ===== src/Validate/Utf8/Complete.antt =====
-- Well-formed strings are accepted: the rounds over the bytes of a character come back to the state
-- between two characters.
use stumpless.Base.{
  ℕ, ◌+◌, ◌*◌, ◌/◌, ◌%◌, ◌^◌, ◌≤◌, ◌<◌, ◌≡◌, refl, ap, ◌∙◌, List, [], ◌∷◌, ◌++◌, true, false, ◌⊎◌,
  inl, inr, Bytes, ltb, Bool-cases, arith,
}
use stumpless.World.{World}
use stumpless.Validate.Utf8.{rounds}
use stumpless.Validate.Utf8.Steps.{
  between, in_three, in_four, round-between, round-in_two, round-in_three_first,
  round-in_three_last, round-in_four_first, round-in_four_second, round-in_four_last,
}
use stumpless.Validate.Utf8.Characters.{Accepts}
use stumpless.Validate.Utf8.WellFormed.{encode, IsContinuation, IsCut, WellFormed, cut, char}

module _ (bs : List ℕ) (w : World) where
  module _ (b0 b1 b2 b3 c : ℕ) (s : Bytes) where
    rounds-three_first :
        IsContinuation c
        → rounds (in_three 1 b0 b1 b2 b3 bs) (c ∷ s) w
          ≡ rounds (in_three 2 b0 (c % 64) b2 b3 bs) s w
    unfolding rounds
    rounds-three_first k = ground (arith, round-in_three_first 0 b0 b1 b2 b3 bs c)

    rounds-three_last :
        IsContinuation c
        → b0 < 16
        → b1 < 64
        → (0 < b0) ⊎ (32 ≤ b1)
        → rounds (in_three 2 b0 b1 b2 b3 bs) (c ∷ s) w ≡ rounds (between 3 b0 b1 (c % 64) b3 bs) s w
    unfolding rounds
    rounds-three_last k p q long = ground (arith, round-in_three_last 0 b0 b1 b2 b3 bs c)

    rounds-four_first :
        IsContinuation c
        → rounds (in_four 1 b0 b1 b2 b3 bs) (c ∷ s) w ≡ rounds (in_four 2 b0 (c % 64) b2 b3 bs) s w
    unfolding rounds
    rounds-four_first k = ground (arith, round-in_four_first 0 b0 b1 b2 b3 bs c)

    rounds-four_second :
        IsContinuation c
        → rounds (in_four 2 b0 b1 b2 b3 bs) (c ∷ s) w ≡ rounds (in_four 3 b0 b1 (c % 64) b3 bs) s w
    unfolding rounds
    rounds-four_second k = ground (arith, round-in_four_second 0 b0 b1 b2 b3 bs c)

    rounds-four_last :
        IsContinuation c
        → b0 < 8
        → b1 < 64
        → (0 < b0) ⊎ (16 ≤ b1)
        → rounds (in_four 3 b0 b1 b2 b3 bs) (c ∷ s) w ≡ rounds (between 4 b0 b1 b2 (c % 64) bs) s w
    unfolding rounds
    rounds-four_last k p q long = ground (arith, round-in_four_last 0 b0 b1 b2 b3 bs c)

  module _ (n b0 b1 b2 b3 c : ℕ) (s : Bytes) where
    rounds-one :
        c < 128
        → rounds (between n b0 b1 b2 b3 bs) (c ∷ s) w ≡ rounds (between n b0 b1 b2 b3 bs) s w
    unfolding rounds
    rounds-one k = ground (arith, round-between n b0 b1 b2 b3 bs c)

    rounds-two :
        (d : ℕ)
        → 194 ≤ c
        → c < 224
        → IsContinuation d
        → rounds (between n b0 b1 b2 b3 bs) (c ∷ d ∷ s) w
          ≡ rounds (between n (c % 32) b1 b2 b3 bs) s w
    unfolding rounds
    rounds-two d lo hi k =
        ground (arith, round-between n b0 b1 b2 b3 bs c, round-in_two n (c % 32) b1 b2 b3 bs d)

    rounds-lead_three :
        224 ≤ c
        → c < 240
        → rounds (between n b0 b1 b2 b3 bs) (c ∷ s) w ≡ rounds (in_three 1 (c % 16) b1 b2 b3 bs) s w
    unfolding rounds
    rounds-lead_three lo hi = ground (arith, round-between n b0 b1 b2 b3 bs c)

    rounds-lead_four :
        240 ≤ c
        → c < 248
        → rounds (between n b0 b1 b2 b3 bs) (c ∷ s) w ≡ rounds (in_four 1 (c % 8) b1 b2 b3 bs) s w
    unfolding rounds
    rounds-lead_four lo hi = ground (arith, round-between n b0 b1 b2 b3 bs c)

  module _ (n b0 b1 b2 b3 : ℕ) (s : Bytes) where
    rounds-three :
        (c d e : ℕ)
        → 224 ≤ c
        → c < 240
        → 224 * 64 + 160 ≤ c * 64 + d
        → IsContinuation d
        → IsContinuation e
        → rounds (between n b0 b1 b2 b3 bs) (c ∷ d ∷ e ∷ s) w
          ≡ rounds (between 3 (c % 16) (d % 64) (e % 64) b3 bs) s w
    rounds-three c d e lo hi long k l =
        rounds-lead_three n b0 b1 b2 b3 c (d ∷ e ∷ s) lo hi
        ∙ rounds-three_first (c % 16) b1 b2 b3 d (e ∷ s) k
        ∙ rounds-three_last (c % 16) (d % 64) b2 b3 e s l (omega arith) (omega arith) (omega arith)

    rounds-four :
        (c d e g : ℕ)
        → 240 ≤ c
        → c < 248
        → 240 * 64 + 144 ≤ c * 64 + d
        → IsContinuation d
        → IsContinuation e
        → IsContinuation g
        → rounds (between n b0 b1 b2 b3 bs) (c ∷ d ∷ e ∷ g ∷ s) w
          ≡ rounds (between 4 (c % 8) (d % 64) (e % 64) (g % 64) bs) s w
    rounds-four c d e g lo hi long k l m =
        rounds-lead_four n b0 b1 b2 b3 c (d ∷ e ∷ g ∷ s) lo hi
        ∙ rounds-four_first (c % 8) b1 b2 b3 d (e ∷ g ∷ s) k
        ∙ rounds-four_second (c % 8) (d % 64) b2 b3 e (g ∷ s) l
        ∙ rounds-four_last (c % 8) (d % 64) (e % 64) b3 g s m (omega arith) (omega arith)
            (omega arith)

    -- The rounds over a character end between two characters.
    rounds-encode :
        (cp : ℕ)
        → cp < 2 ^ 21
        → (n' c0 c1 c2 c3 : ℕ) × (rounds (between n b0 b1 b2 b3 bs) (encode cp ++ s) w
            ≡ rounds (between n' c0 c1 c2 c3 bs) s w)
    rounds-encode cp small = elim (Bool-cases (ltb cp 0x80)) [
      | inl p ↦ (n, b0, b1, b2, b3, rw p (rounds-one n b0 b1 b2 b3 cp s (ground arith)))
      | inr p ↦ elim (Bool-cases (ltb cp 0x800)) [
        | inl q ↦ (n, (0xc0 + cp / 64) % 32, b1, b2, b3, rw (p, q) (encode_two p q))
        | inr q ↦ elim (Bool-cases (ltb cp 0x10000)) [
          | inl r ↦ (
            3,
            (0xe0 + cp / 4096) % 16,
            (0x80 + cp / 64 % 64) % 64,
            (0x80 + cp % 64) % 64,
            b3,
            rw (p, q, r) (encode_three q r),
          )
          | inr r ↦ (
            4,
            (0xf0 + cp / 262144) % 8,
            (0x80 + cp / 4096 % 64) % 64,
            (0x80 + cp / 64 % 64) % 64,
            (0x80 + cp % 64) % 64,
            rw (p, q, r) (encode_four r),
          )
        ]
      ]
    ]
      where
        encode_two :
            ltb cp 0x80 ≡ false
            → ltb cp 0x800 ≡ true
            → rounds (between n b0 b1 b2 b3 bs) ((0xc0 + cp / 64) ∷ (0x80 + cp % 64) ∷ s) w
              ≡ rounds (between n ((0xc0 + cp / 64) % 32) b1 b2 b3 bs) s w
        encode_two p q =
            rounds-two n b0 b1 b2 b3 (0xc0 + cp / 64) s (0x80 + cp % 64) (ground arith)
              (ground arith) (omega arith)

        encode_three :
            ltb cp 0x800 ≡ false
            → ltb cp 0x10000 ≡ true
            → rounds
                (between n b0 b1 b2 b3 bs)
                ((0xe0 + cp / 4096) ∷ (0x80 + cp / 64 % 64) ∷ (0x80 + cp % 64) ∷ s)
                w
              ≡ rounds
                  (between 3
                    ((0xe0 + cp / 4096) % 16)
                    ((0x80 + cp / 64 % 64) % 64)
                    ((0x80 + cp % 64) % 64)
                    b3
                    bs)
                  s
                  w
        encode_three q r =
            rounds-three (0xe0 + cp / 4096) (0x80 + cp / 64 % 64) (0x80 + cp % 64) (ground arith)
              (ground arith) (ground arith) (omega arith) (omega arith)

        encode_four :
            ltb cp 0x10000 ≡ false
            → rounds
                (between n b0 b1 b2 b3 bs)
                ((0xf0 + cp / 262144)
                  ∷ (0x80 + cp / 4096 % 64)
                  ∷ (0x80 + cp / 64 % 64)
                  ∷ (0x80 + cp % 64)
                  ∷ s)
                w
              ≡ rounds
                  (between 4
                    ((0xf0 + cp / 262144) % 8)
                    ((0x80 + cp / 4096 % 64) % 64)
                    ((0x80 + cp / 64 % 64) % 64)
                    ((0x80 + cp % 64) % 64)
                    bs)
                  s
                  w
        encode_four r =
            rounds-four (0xf0 + cp / 262144) (0x80 + cp / 4096 % 64) (0x80 + cp / 64 % 64)
              (0x80 + cp % 64) (ground arith) (ground arith) (ground arith) (omega arith)
              (omega arith) (omega arith)

  -- A cut character at the end is accepted.
  Accepts-cut : (n b0 b1 b2 b3 : ℕ) (s : Bytes) → IsCut s → Accepts (between n b0 b1 b2 b3 bs) s w
  unfolding rounds
  Accepts-cut n b0 b1 b2 b3 [] h = refl
  Accepts-cut n b0 b1 b2 b3 (c ∷ []) h = ground (arith, round-between n b0 b1 b2 b3 bs c)
  Accepts-cut n b0 b1 b2 b3 (c ∷ d ∷ []) h = ground (
    arith,
    round-between n b0 b1 b2 b3 bs c,
    round-in_three_first n (c % 16) b1 b2 b3 bs d,
    round-in_four_first n (c % 8) b1 b2 b3 bs d,
  )
  Accepts-cut n b0 b1 b2 b3 (c ∷ d ∷ e ∷ []) h =
      rw
        (
          rounds-lead_four n b0 b1 b2 b3 c (d ∷ e ∷ []) h.0 h.1,
          rounds-four_first (c % 8) b1 b2 b3 d (e ∷ []) h.2,
        )
        (ap (λ r. r.0) (rounds-four_second (c % 8) (d % 64) b2 b3 e [] h.3))
  Accepts-cut n b0 b1 b2 b3 (c ∷ d ∷ e ∷ f ∷ s) h = absurd h

  pub WellFormed-accepted :
      (n b0 b1 b2 b3 : ℕ) {s : Bytes} → WellFormed s → Accepts (between n b0 b1 b2 b3 bs) s w
  WellFormed-accepted n b0 b1 b2 b3 {s} (cut h) = Accepts-cut n b0 b1 b2 b3 s h
  WellFormed-accepted n b0 b1 b2 b3 (char {t = t} cp small e v) =
      let (n', c0, c1, c2, c3, step) = rounds-encode n b0 b1 b2 b3 t cp small in
      rw (e, step) (WellFormed-accepted n' c0 c1 c2 c3 v)
