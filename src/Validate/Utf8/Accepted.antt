-- ===== src/Validate/Utf8/Accepted.antt =====
-- The checker of UTF-8 against its description: both directions.
use stumpless.Base.{
  ℕ, zero, suc, ◌%◌, ◌≤◌, ◌<◌, ◌≡◌, refl, List, [], ◌∷◌, Bool, true, false, ◌⊎◌, inl, inr, ◌↔◌,
  none, ◌&&◌, ◌==◌, Bool-cases, replicate, ap, if◌then◌else◌, Bytes, All, IsByte, length, arith,
}
use Prim.Native.String.{String}
use stumpless.Base.Int.{pos}
use stumpless.Error.{format_error_message, literal, argument_empty}
use stumpless.World.{World, raise_invalid_encoding}
use stumpless.Validate.Utf8.{
  Decoder, Round, Utf8State, round, next, fault, rounds, validate_param_value, strip_bom, start,
  lead_char, two_char, three_char, four_char,
}
use stumpless.Validate.Utf8.Complete.{WellFormed-accepted}
use stumpless.Validate.Utf8.Steps.{between}
use stumpless.Validate.Utf8.Characters.{
  Accepts, Accepts-first, Accepts-two, Accepts-three, Accepts-three_cut, Accepts-four,
  Accepts-four_cut, Accepts-four_cut_later, char-two, char-three, char-four,
}
use stumpless.Validate.Utf8.WellFormed.{WellFormed, cut, char}

module _ (bs : List ℕ) (w : World) where
  -- The statement for strings of at most `f` bytes.
  abbrev Splits : ℕ → Type 0
  Splits f =
      (n b0 b1 b2 b3 : ℕ) (s : Bytes)
      → length s ≤ f
      → All IsByte s
      → Accepts (between n b0 b1 b2 b3 bs) s w
      → WellFormed s

  module _ (f : ℕ) (shorter : Splits f) (n b0 b1 b2 b3 c : ℕ) where
    split-two :
        (s : Bytes)
        → length s ≤ f
        → All IsByte s
        → (192 ≤ c) × (c < 224)
        → Accepts (between n b0 b1 b2 b3 bs) (c ∷ s) w
        → WellFormed (c ∷ s)
    split-two [] len byte k h = cut (omega arith)
    split-two (d ∷ s) len byte k h =
        let r = Accepts-two bs w n b0 b1 b2 b3 c d s k.0 k.1 byte.0 h in
        char-two c d r.1 k.1 r.0 (shorter n (c % 32) b1 b2 b3 s (omega arith) byte.1 r.2)

    split-three :
        (s : Bytes)
        → length s ≤ f
        → All IsByte s
        → (224 ≤ c) × (c < 240)
        → Accepts (between n b0 b1 b2 b3 bs) (c ∷ s) w
        → WellFormed (c ∷ s)
    split-three [] len byte k h = cut (omega arith)
    split-three (d ∷ []) len byte k h =
        cut (omega (arith, Accepts-three_cut bs w n b0 b1 b2 b3 c d k.0 k.1 byte.0 h))
    split-three (d ∷ e ∷ s) len byte k h =
        let r = Accepts-three bs w n b0 b1 b2 b3 c d e s k.0 k.1 byte.0 byte.1.0 h in
        char-three c d e r.2 k.1 r.0 r.1
          (shorter 3 (c % 16) (d % 64) (e % 64) b3 s (omega arith) byte.1.1 r.3)

    split-four :
        (s : Bytes)
        → length s ≤ f
        → All IsByte s
        → (240 ≤ c) × (c < 248)
        → Accepts (between n b0 b1 b2 b3 bs) (c ∷ s) w
        → WellFormed (c ∷ s)
    split-four [] len byte k h = cut (omega arith)
    split-four (d ∷ []) len byte k h =
        cut (omega (arith, Accepts-four_cut bs w n b0 b1 b2 b3 c d k.0 k.1 byte.0 h))
    split-four (d ∷ e ∷ []) len byte k h =
        cut
          (omega (arith, Accepts-four_cut_later bs w n b0 b1 b2 b3 c d e k.0 k.1 byte.0 byte.1.0 h))
    split-four (d ∷ e ∷ g ∷ s) len byte k h =
        let r = Accepts-four bs w n b0 b1 b2 b3 c d e g s k.0 k.1 byte.0 byte.1.0 byte.1.1.0 h in
        char-four c d e g r.3 k.1 r.0 r.1 r.2
          (shorter 4 (c % 8) (d % 64) (e % 64) (g % 64) s (omega arith) byte.1.1.1 r.4)

  accepted-WellFormed : (f : ℕ) → Splits f
  accepted-WellFormed f n b0 b1 b2 b3 [] len byte h = cut tt
  accepted-WellFormed zero n b0 b1 b2 b3 (c ∷ s) len byte h = absurd (omega arith)
  accepted-WellFormed (suc f) n b0 b1 b2 b3 (c ∷ s) len byte h =
      elim (Accepts-first bs w n b0 b1 b2 b3 c s byte.0 h) [
        | inl (small, rest) ↦
            char c (omega arith) (ground arith)
              (accepted-WellFormed f n b0 b1 b2 b3 s (omega arith) byte.1 rest)
        | inr (inl k) ↦
            split-two f (accepted-WellFormed f) n b0 b1 b2 b3 c s (omega arith) byte.1 k h
        | inr (inr (inl k)) ↦
            split-three f (accepted-WellFormed f) n b0 b1 b2 b3 c s (omega arith) byte.1 k h
        | inr (inr (inr k)) ↦
            split-four f (accepted-WellFormed f) n b0 b1 b2 b3 c s (omega arith) byte.1 k h
      ]

-- The byte order mark is a character, so to leave it out changes no verdict.
bom-WellFormed : (s : Bytes) → WellFormed s → WellFormed (0xef ∷ 0xbb ∷ 0xbf ∷ s)
bom-WellFormed s v = char 0xfeff (omega arith) refl v

-- Some world to run in.
abbrev pub no_error : World
no_error = record {
  last_error = record { id = argument_empty; message = literal ""; code = pos 0; code_type = none };
  error_valid = false;
  malloc = λ n size. true;
  calls = 0;
  live = [];
  new_mutex = λ n. true;
  mutex_calls = 0;
  mutexes = [];
  held = [];
}

WellFormed-bom : (s : Bytes) → All IsByte s → WellFormed (0xef ∷ 0xbb ∷ 0xbf ∷ s) → WellFormed s
WellFormed-bom s byte v =
    let h = WellFormed-accepted [] no_error 0 0 0 0 0 v in
    accepted-WellFormed [] no_error (length s) 3 _ _ _ _ s (omega arith) byte
      (Accepts-three [] no_error 0 0 0 0 0 0xef 0xbb 0xbf s (omega arith) (omega arith)
        (omega arith) (omega arith) h).3

strip_bom-cases :
    (s : Bytes)
    → (strip_bom s ≡ s) ⊎ ((t : Bytes) × (s ≡ 0xef ∷ 0xbb ∷ 0xbf ∷ t) × (strip_bom s ≡ t))
unfolding strip_bom
strip_bom-cases [] = inl refl
strip_bom-cases (a ∷ []) = inl refl
strip_bom-cases (a ∷ b ∷ []) = inl refl
strip_bom-cases (a ∷ b ∷ c ∷ t) = elim (Bool-cases (a == 0xef && b == 0xbb && c == 0xbf)) [
  | inl yes_bom ↦ inr (t, ground arith, ground arith)
  | inr no_bom ↦ inl (ground arith)
]

strip_bom-WellFormed : (s : Bytes) → All IsByte s → WellFormed (strip_bom s) ↔ WellFormed s
strip_bom-WellFormed s byte = elim (strip_bom-cases s) [
  | inl e ↦ rw e ((λ v. v), (λ v. v))
  | inr (t, e, f) ↦ rw (f, e) (bom-WellFormed t, WellFormed-bom t ((rw e at byte).1.1.1))
]

strip_bom-IsByte : (s : Bytes) → All IsByte s → All IsByte (strip_bom s)
strip_bom-IsByte s byte = elim (strip_bom-cases s) [
  | inl e ↦ rw e byte
  | inr (t, e, f) ↦ rw f ((rw e at byte).1.1.1)
]

-- A round goes on or raises an error of a format.
abbrev IsRound : Round → Type 0
IsRound r = ((d : Decoder) × (r ≡ next d)) ⊎ ((m : String) × (r ≡ fault (format_error_message m)))

IsRound-if : (b : Bool) {r t : Round} → IsRound r → IsRound t → IsRound (if b then r else t)
IsRound-if true p q = p
IsRound-if false p q = q

goes_on : (d : Decoder) → IsRound (next d)
goes_on d = inl (d, refl)

raises : (m : String) → IsRound (fault (format_error_message m))
raises m = inr (m, refl)

ruleset round_rules = (IsRound-if, goes_on, raises)

round-IsRound :
    (n : ℕ) (bs : List ℕ) (c : ℕ) (st : Utf8State)
    → IsRound (round (record { current_state = st; char_count = n; bytes = bs }) c)
unfolding round
round-IsRound n bs c lead_char = search round_rules
round-IsRound n bs c two_char = search round_rules
round-IsRound n bs c three_char = search round_rules
round-IsRound n bs c four_char = search round_rules

-- A verdict leaves the world alone or raises an error of encoding.
rounds-world :
    (d : Decoder) (s : Bytes) (w : World)
    → ((rounds d s w) ≡ (true, w))
      ⊎ ((m : String) × (rounds d s w ≡ (false, raise_invalid_encoding (format_error_message m) w)))
unfolding rounds
rounds-world d [] w = inl refl
rounds-world d (c ∷ s) w = elim (round-IsRound d.char_count d.bytes c d.current_state) [
  | inl (d', e) ↦ rw (e, rounds) (rounds-world d' s w)
  | inr (m, e) ↦ inr (m, rw (e, rounds))
]

-- For every string of bytes, the value check returns true and changes nothing, and then the string
-- is well formed (characters of up to 21 bits in shortest form, and perhaps the beginning of one
-- more at the end); or it returns false with STUMPLESS_INVALID_ENCODING for some format, and then
-- the string is not well formed.
pub validate_param_value-WellFormed :
    (s : Bytes) (w : World)
    → All IsByte s
    → ((validate_param_value s w ≡ (true, w)) × WellFormed s)
      ⊎ ((m : String) × (validate_param_value s w
            ≡ (false, raise_invalid_encoding (format_error_message m) w))
          × (¬ WellFormed s))
unfolding validate_param_value
validate_param_value-WellFormed s w byte = elim (rounds-world start (strip_bom s) w) [
  | inl e ↦ inl (
    e,
    (strip_bom-WellFormed s byte).0 (
        accepted-WellFormed (replicate 2 0) w (length (strip_bom s)) 0 0 0 0 0 (strip_bom s)
          (omega arith) (strip_bom-IsByte s byte) (ap (λ r. r.0) e)),
  )
  | inr (m, e) ↦ inr (
    m,
    e,
    λ v. cc (
      ap (λ r. r.0) e,
      WellFormed-accepted (replicate 2 0) w 0 0 0 0 0 ((strip_bom-WellFormed s byte).1 v),
    ),
  )
]
