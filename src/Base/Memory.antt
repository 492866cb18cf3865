-- ===== src/Base/Memory.antt =====
-- Writes into a block of bytes, one after the other, and what they leave.
use Prim.Native.Nat.{ℕ, zero, suc, ◌+◌, ◌≤◌, ◌<◌}
use mathlib.Core.Path.{◌≡◌, refl, sym, ap, ◌∙◌}
use mathlib.Core.Logic.{◌≢◌}
use mathlib.Core.List.{List, [], ◌∷◌, ◌++◌, append-nil, append_assoc}
use native.Mathlib.Omega.{arith}
use stumpless.Base.Lists.{length, set, get_or, take, drop, length-set}

module _ {ℓ} {A : Type ℓ} where
  -- `memcpy( dst + i, src, length src )`; a write out of range changes nothing.
  unfoldable pub memcpy : List A → ℕ → List A → List A
  memcpy dst i [] = dst
  memcpy dst i (x ∷ src) = memcpy (set dst i x) (suc i) src

  pub length-memcpy : (dst : List A) (i : ℕ) (src : List A) → length (memcpy dst i src) ≡ length dst
  unfolding memcpy
  length-memcpy dst i [] = refl
  length-memcpy dst i (x ∷ src) = length-memcpy (set dst i x) (suc i) src ∙ length-set dst i x

  pub take-set_self :
      (xs : List A) (i : ℕ) (v : A)
      → i < length xs
      → take (suc i) (set xs i v) ≡ take i xs ++ v ∷ []
  take-set_self [] i v h = absurd (omega arith)
  take-set_self (x ∷ xs) zero v h = refl
  take-set_self (x ∷ xs) (suc i) v h = ap (λ r. x ∷ r) (take-set_self xs i v (omega arith))

  -- The block up to the end of what was written: what stood there before, then the bytes.
  pub take-memcpy :
      (dst : List A) (i : ℕ) (src : List A)
      → i + length src ≤ length dst
      → take (i + length src) (memcpy dst i src) ≡ take i dst ++ src
  unfolding memcpy
  take-memcpy dst i [] h = rw append-nil (ap (λ n. take n dst) (omega arith))
  take-memcpy dst i (x ∷ src) h =
      ap (λ n. take n (memcpy (set dst i x) (suc i) src)) (omega arith)
      ∙ take-memcpy (set dst i x) (suc i) src (omega (arith, length-set dst i x))
      ∙ ap (λ r. r ++ src) (take-set_self dst i x (omega arith))
      ∙ append_assoc (take i dst) (x ∷ []) src

  pub take-append : (n : ℕ) (xs ys : List A) → n ≤ length xs → take n (xs ++ ys) ≡ take n xs
  take-append zero xs ys h = refl
  take-append (suc n) [] ys h = absurd (omega arith)
  take-append (suc n) (x ∷ xs) ys h = ap (λ r. x ∷ r) (take-append n xs ys (omega arith))

  pub take-take : (m n : ℕ) (xs : List A) → m ≤ n → take m (take n xs) ≡ take m xs
  take-take zero n xs h = refl
  take-take (suc m) zero xs h = absurd (omega arith)
  take-take (suc m) (suc n) [] h = refl
  take-take (suc m) (suc n) (x ∷ xs) h = ap (λ r. x ∷ r) (take-take m n xs (omega arith))

  pub take_all : (n : ℕ) (xs : List A) → length xs ≤ n → take n xs ≡ xs
  take_all zero [] h = refl
  take_all zero (x ∷ xs) h = absurd (omega arith)
  take_all (suc n) [] h = refl
  take_all (suc n) (x ∷ xs) h = ap (λ r. x ∷ r) (take_all n xs (omega arith))

  pub get_or-set_self :
      (xs : List A) (i : ℕ) (v d : A) → i < length xs → get_or (set xs i v) i d ≡ v
  get_or-set_self [] i v d h = absurd (omega arith)
  get_or-set_self (x ∷ xs) zero v d h = refl
  get_or-set_self (x ∷ xs) (suc i) v d h = get_or-set_self xs i v d (omega arith)

  pub get_or-set_ne :
      (xs : List A) {i j : ℕ} (v d : A) → i ≢ j → get_or (set xs i v) j d ≡ get_or xs j d
  get_or-set_ne [] v d h = refl
  get_or-set_ne (x ∷ xs) {i = zero} {j = zero} v d h = absurd (h refl)
  get_or-set_ne (x ∷ xs) {i = zero} {j = suc j} v d h = refl
  get_or-set_ne (x ∷ xs) {i = suc i} {j = zero} v d h = refl
  get_or-set_ne (x ∷ xs) {i = suc i} {j = suc j} v d h = get_or-set_ne xs v d (λ e. h (ap suc e))

  take-nil : (n : ℕ) → take {A = A} n [] ≡ []
  take-nil zero = refl
  take-nil (suc n) = refl

  pub take-split : (m k : ℕ) (xs : List A) → take (m + k) xs ≡ take m xs ++ take k (drop m xs)
  take-split zero k xs = ap (λ n. take n xs) (omega arith)
  take-split (suc m) k [] = take-nil (suc m + k) ∙ sym (take-nil k)
  take-split (suc m) k (x ∷ xs) =
      let next : suc m + k ≡ suc (m + k) = omega arith in
      ap (λ n. take n (x ∷ xs)) next ∙ ap (λ r. x ∷ r) (take-split m k xs)

  pub take-left : (xs ys : List A) → take (length xs) (xs ++ ys) ≡ xs
  take-left [] ys = refl
  take-left (x ∷ xs) ys = ap (λ r. x ∷ r) (take-left xs ys)
