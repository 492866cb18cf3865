-- ===== src/Base/Strings.antt =====
-- C strings and byte ranges as lists of bytes, and statements about every byte of a range.
use Prim.Native.Nat.{ℕ, zero, suc, ◌<◌}
use Prim.Native.Char.{code}
use Prim.Native.String.{String}
use mathlib.Core.Path.{◌≡◌, refl}
use mathlib.Core.Logic.{inl, inr}
use mathlib.Core.Bool.{Bool, true, false, ◌&&◌}
use mathlib.Core.List.{List, [], ◌∷◌, ◌++◌}
use native.Mathlib.Omega.{arith}
use stumpless.Base.Tests.{◌==◌, ==_iff, Bool-cases}

-- The characters of a string before its NUL, or the bytes of a buffer.
abbrev pub Bytes : Type 0
Bytes = List ℕ

-- The bytes of an ASCII literal.
abbrev pub codes : String → Bytes
codes String.[] = []
codes (String.◌∷◌ c s) = code c ∷ codes s

abbrev pub All {ℓ κ} : {A : Type ℓ} → (A → Type κ) → List A → Type κ
All P [] = Unit
All P (x ∷ xs) = P x × All P xs

abbrev pub IsByte : ℕ → Type 0
IsByte c = c < 256

-- No byte of a C string is NUL.
abbrev pub IsChar : ℕ → Type 0
IsChar c = (0 < c) × (c < 256)

pub All-append {ℓ κ} :
    {A : Type ℓ} (P : A → Type κ) (xs ys : List A) → All P xs → All P ys → All P (xs ++ ys)
All-append P [] ys h k = k
All-append P (x ∷ xs) ys h k = (h.0, All-append P xs ys h.1 k)

-- Over a small range, a test is checked at every value by evaluation.
unfoldable pub holds_below : ℕ → (ℕ → Bool) → Bool
holds_below zero test = true
holds_below (suc bound) test = holds_below bound test && test bound

pub holds_below_at :
    (bound : ℕ) (test : ℕ → Bool) (c : ℕ)
    → holds_below bound test ≡ true
    → c < bound
    → test c ≡ true
unfolding holds_below
holds_below_at zero test c table inside = absurd (omega arith)
holds_below_at (suc bound) test c table inside = ground (arith, holds_below_at bound test c)

-- `strcmp( s, t ) == 0`
abbrev pub is_same : Bytes → Bytes → Bool
is_same [] [] = true
is_same [] (d ∷ t) = false
is_same (c ∷ s) [] = false
is_same (c ∷ s) (d ∷ t) = c == d && is_same s t

pub is_same_sound : (s t : Bytes) → is_same s t ≡ true → s ≡ t
is_same_sound [] [] h = refl
is_same_sound [] (d ∷ t) h = absurd (ground arith)
is_same_sound (c ∷ s) [] h = absurd (ground arith)
is_same_sound (c ∷ s) (d ∷ t) h = elim (Bool-cases (c == d)) [
  | inr apart ↦ absurd (ground arith)
  | inl same ↦
      let e : c ≡ d = (==_iff c d).0 same in let f : s ≡ t = is_same_sound s t (ground arith) in cc
]

pub is_same_self : (s : Bytes) → is_same s s ≡ true
is_same_self [] = refl
is_same_self (c ∷ s) = ground (arith, is_same_self s)
