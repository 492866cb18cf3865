-- ===== src/StrBuilder/Decimal.antt =====
-- `strbuilder_append_positive_int`: the text it appends is the decimal of the number.
use mathlib.Core.List.{reverse, reverse-cons}
use native.Mathlib.Nat.{pow-suc}
use stumpless.Base.{
  ℕ, zero, suc, ◌+◌, ◌-◌, ◌*◌, ◌/◌, ◌%◌, ◌^◌, ◌≤◌, ◌<◌, ◌≡◌, refl, ◌∙◌, ap, List, [], ◌∷◌, ◌++◌,
  map, inl, inr, none, some, Bytes, All, All-append, length, length-append, ◌==◌, Bool-cases, arith,
}
use stumpless.Base.Int.{pos}
use stumpless.World.{World}
use stumpless.StrBuilder.{
  StrBuilder, append_char, append_string, on_builder, strbuilder_append_char, digits, append_each,
  max_int_size, strbuilder_append_positive_int,
}

append_each-none : (chars : Bytes) (w : World) → append_each none chars w ≡ (none, w)
unfolding append_each strbuilder_append_char
append_each-none [] w = refl
append_each-none (c ∷ chars) w = append_each-none chars w

-- The loop that adds the characters one by one is `strbuilder_append_string` of them.
append_each_lem :
    (b : StrBuilder) (chars : Bytes) (w : World)
    → append_each (some b) chars w ≡ on_builder (λ b'. append_string b' chars) (some b) w
unfolding append_each append_string strbuilder_append_char
append_each_lem b [] w = refl
append_each_lem b (c ∷ chars) w = elim (Bool-cases (append_char b c w).0) [
  | inl added ↦ rw added (append_each_lem (append_char b c w).1 chars (append_char b c w).2)
  | inr full ↦ rw full (append_each-none chars (append_char b c w).2)
]

-- The number that a text of digits spells behind `acc`.
abbrev pub spelled : ℕ → Bytes → ℕ
spelled acc [] = acc
spelled acc (c ∷ s) = spelled (acc * 10 + (c - 48)) s

spelled-append : (acc c : ℕ) (s : Bytes) → spelled acc (s ++ c ∷ []) ≡ spelled acc s * 10 + (c - 48)
spelled-append acc c [] = refl
spelled-append acc c (d ∷ s) = spelled-append (acc * 10 + (d - 48)) c s

abbrev pub IsDigit : ℕ → Type 0
IsDigit c = (b'0' ≤ c) × (c ≤ b'9')

-- A text of digits that spells `n` and has no zero in front, in at most ten places.
pub record IsDecimal (n : ℕ) (s : Bytes) : Type 0 where
  pub all_digits : All IsDigit s
  pub spells : spelled 0 s ≡ n
  pub short : length s ≤ 10
  pub no_zero_in_front : (t : Bytes) → s ≡ b'0' ∷ t → t ≡ []

-- The digits from the lowest up.
abbrev value : List ℕ → ℕ
value [] = 0
value (d ∷ ds) = d + 10 * value ds

value-digits : (fuel n : ℕ) → n < 10 ^ fuel → value (digits fuel n) ≡ n
unfolding digits
value-digits zero n h = omega arith
value-digits (suc fuel) n h = elim (Bool-cases (n == 0)) [
  | inl done ↦ ground arith
  | inr more ↦ rw more (omega (arith, value-digits fuel (n / 10) (omega (arith, pow-suc 10 fuel))))
]

digits_small : (fuel n : ℕ) → All (λ d. d < 10) (digits fuel n)
unfolding digits
digits_small zero n = tt
digits_small (suc fuel) n = ground (arith, digits_small fuel (n / 10))

length-digits : (fuel places n : ℕ) → n < 10 ^ places → length (digits fuel n) ≤ places
unfolding digits
length-digits zero places n h = omega arith
length-digits (suc fuel) zero n h = ground arith
length-digits (suc fuel) (suc places) n h =
    ground (arith, length-digits fuel places (n / 10) (omega (arith, pow-suc 10 places)))

digits_of_zero : (fuel n : ℕ) → n ≡ 0 → digits fuel n ≡ []
unfolding digits
digits_of_zero zero n h = refl
digits_of_zero (suc fuel) n h = ground arith

-- The highest digit of a positive number is not zero.
top_digit :
    (fuel n : ℕ)
    → n < 10 ^ fuel
    → 0 < n
    → (ds : List ℕ) × (d : ℕ) × (digits fuel n ≡ ds ++ d ∷ []) × (0 < d)
unfolding digits
top_digit zero n h p = absurd (omega arith)
top_digit (suc fuel) n h p = elim (Bool-cases (n / 10 == 0)) [
  | inl last ↦ ([], n % 10, ground (arith, digits_of_zero fuel (n / 10)), ground arith)
  | inr more ↦
      let (ds, d, e, q) = top_digit fuel (n / 10) (omega (arith, pow-suc 10 fuel)) (ground arith) in
      ((n % 10) ∷ ds, d, ground arith, q)
]

-- The characters of a number, the highest first.
abbrev chars : List ℕ → Bytes
chars ds = reverse (map (λ d. 48 + d) ds)

spelled-chars : (ds : List ℕ) → spelled 0 (chars ds) ≡ value ds
spelled-chars [] = refl
spelled-chars (d ∷ ds) = rw (reverse-cons, spelled-append, spelled-chars ds) (omega arith)

All-digits-chars : (ds : List ℕ) → All (λ d. d < 10) ds → All IsDigit (chars ds)
All-digits-chars [] h = tt
All-digits-chars (d ∷ ds) h =
    rw reverse-cons (All-append IsDigit (chars ds) _ (All-digits-chars ds h.1) (omega arith))

length-chars : (ds : List ℕ) → length (chars ds) ≡ length ds
length-chars [] = refl
length-chars (d ∷ ds) =
    rw reverse-cons (omega (arith, length-append (chars ds) ((48 + d) ∷ []), length-chars ds))

chars-append : (ds : List ℕ) (d : ℕ) → chars (ds ++ d ∷ []) ≡ (48 + d) ∷ chars ds
chars-append [] d = refl
chars-append (x ∷ ds) d = simp (reverse-cons, chars-append ds d)

no_zero :
    (n : ℕ) (t : Bytes) → 0 < n → n < 2 ^ 31 → chars (digits max_int_size n) ≡ b'0' ∷ t → t ≡ []
no_zero n t p h e =
    let (ds, d, f, q) = top_digit max_int_size n (omega arith) p in
    ground (arith, ap chars f, chars-append ds d)

IsDecimal-chars : (n : ℕ) → 0 < n → n < 2 ^ 31 → IsDecimal n (chars (digits max_int_size n))
IsDecimal-chars n p h = record {
  all_digits = All-digits-chars _ (digits_small max_int_size n);
  spells = spelled-chars (digits max_int_size n) ∙ value-digits max_int_size n (omega arith);
  short =
      omega (
        arith,
        length-chars (digits max_int_size n),
        length-digits max_int_size 10 n (omega arith),
      );
  no_zero_in_front = λ t e. no_zero n t p h e;
}

-- The text of a number.
abbrev pub decimal : ℕ → Bytes
decimal zero = b'0' ∷ []
decimal (suc n) = chars (digits max_int_size (suc n))

pub decimal-IsDecimal : (n : ℕ) → n < 2 ^ 31 → IsDecimal n (decimal n)
decimal-IsDecimal zero h = record {
  all_digits = omega arith;
  spells = refl;
  short = omega arith;
  no_zero_in_front = λ t e. cc;
}
decimal-IsDecimal (suc n) h = IsDecimal-chars (suc n) (omega arith) h

pub append_positive_int-decimal :
    (b : StrBuilder) (n : ℕ) (w : World)
    → strbuilder_append_positive_int (some b) (pos n) w
      ≡ on_builder (λ b'. append_string b' (decimal n)) (some b) w
unfolding strbuilder_append_positive_int
append_positive_int-decimal b zero w = append_each_lem b (b'0' ∷ []) w
append_positive_int-decimal b (suc n) w = append_each_lem b (chars (digits max_int_size (suc n))) w

pub append_positive_int-none :
    (n : ℕ) (w : World) → strbuilder_append_positive_int none (pos n) w ≡ (none, w)
unfolding strbuilder_append_positive_int strbuilder_append_char
append_positive_int-none zero w = refl
append_positive_int-none (suc n) w = append_each-none (chars (digits max_int_size (suc n))) w

-- Appending a number below 2^31 is appending, as strbuilder_append_string would, digits that spell
-- it with no zero in front and at most ten of them.
pub strbuilder_append_positive_int-IsDecimal :
    (b : StrBuilder) (n : ℕ) (w : World)
    → n < 2 ^ 31
    → (s : Bytes) × IsDecimal n s
      × (strbuilder_append_positive_int (some b) (pos n) w
          ≡ on_builder (λ b'. append_string b' s) (some b) w)
strbuilder_append_positive_int-IsDecimal b n w h =
    (decimal n, decimal-IsDecimal n h, append_positive_int-decimal b n w)
