-- ===== src/Validate/Utf8/Steps.antt =====
-- One round of the decoder in each of its states, with the masks read as ranges.
use stumpless.Base.{ℕ, ◌%◌, ◌<◌, ◌≡◌, List, ◌∷◌, ◌&&◌, ◌==◌, ltb, if◌then◌else◌}
use stumpless.Validate.Utf8.{
  Decoder, next, lead_char, two_char, three_char, four_char, round, bad_lead, bad_continuation,
  bad_shortest_form,
}
use stumpless.Validate.Utf8.Bits.{
  within, two_lead, three_lead, four_lead, ascii_lead, continuation, low_five, low_four, low_three,
  low_six, short_two, short_three, short_four,
}

-- The decoder between two characters and inside one, over four places of `bytes` and the rest.
module _ (n b0 b1 b2 b3 : ℕ) (bs : List ℕ) where
  abbrev pub between : Decoder
  between = record { current_state = lead_char; char_count = n; bytes = b0 ∷ b1 ∷ b2 ∷ b3 ∷ bs }

  abbrev pub in_two : Decoder
  in_two = record { current_state = two_char; char_count = n; bytes = b0 ∷ b1 ∷ b2 ∷ b3 ∷ bs }

  abbrev pub in_three : Decoder
  in_three = record { current_state = three_char; char_count = n; bytes = b0 ∷ b1 ∷ b2 ∷ b3 ∷ bs }

  abbrev pub in_four : Decoder
  in_four = record { current_state = four_char; char_count = n; bytes = b0 ∷ b1 ∷ b2 ∷ b3 ∷ bs }

module _ (n b0 b1 b2 b3 : ℕ) (bs : List ℕ) (c : ℕ) (byte : c < 256) where
  pub round-between : round (between n b0 b1 b2 b3 bs) c ≡ (
      if within 192 224 c
      then next (in_two n (c % 32) b1 b2 b3 bs)
      else if within 224 240 c
      then next (in_three 1 (c % 16) b1 b2 b3 bs)
      else if within 240 248 c
      then next (in_four 1 (c % 8) b1 b2 b3 bs)
      else if ltb c 128
      then next (between n b0 b1 b2 b3 bs)
      else bad_lead)
  unfolding round
  round-between = simp (
    two_lead c byte,
    three_lead c byte,
    four_lead c byte,
    ascii_lead c byte,
    low_five c byte,
    low_four c byte,
    low_three c byte,
  )

  pub round-in_two :
      b0 < 32
      → round (in_two n b0 b1 b2 b3 bs) c ≡ (
          if within 128 192 c
          then (if ltb b0 2 then bad_shortest_form else next (between n b0 b1 b2 b3 bs))
          else bad_continuation)
  unfolding round
  round-in_two h = simp (continuation c byte, short_two b0 h)

  pub round-in_three_first :
      round (in_three 1 b0 b1 b2 b3 bs) c
      ≡ (if within 128 192 c then next (in_three 2 b0 (c % 64) b2 b3 bs) else bad_continuation)
  unfolding round
  round-in_three_first = simp (continuation c byte, low_six c byte)

  pub round-in_three_last :
      b0 < 16
      → b1 < 64
      → round (in_three 2 b0 b1 b2 b3 bs) c ≡ (
          if within 128 192 c
          then (if b0 == 0 && ltb b1 32
              then bad_shortest_form
              else next (between 3 b0 b1 (c % 64) b3 bs))
          else bad_continuation)
  unfolding round
  round-in_three_last h k = simp (continuation c byte, low_six c byte, short_three b0 b1 h k)

  pub round-in_four_first :
      round (in_four 1 b0 b1 b2 b3 bs) c
      ≡ (if within 128 192 c then next (in_four 2 b0 (c % 64) b2 b3 bs) else bad_continuation)
  unfolding round
  round-in_four_first = simp (continuation c byte, low_six c byte)

  pub round-in_four_second :
      round (in_four 2 b0 b1 b2 b3 bs) c
      ≡ (if within 128 192 c then next (in_four 3 b0 b1 (c % 64) b3 bs) else bad_continuation)
  unfolding round
  round-in_four_second = simp (continuation c byte, low_six c byte)

  pub round-in_four_last :
      b0 < 8
      → b1 < 64
      → round (in_four 3 b0 b1 b2 b3 bs) c ≡ (
          if within 128 192 c
          then (if b0 == 0 && ltb b1 16
              then bad_shortest_form
              else next (between 4 b0 b1 b2 (c % 64) bs))
          else bad_continuation)
  unfolding round
  round-in_four_last h k = simp (continuation c byte, low_six c byte, short_four b0 b1 h k)
