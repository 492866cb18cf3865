-- ===== src/Base/Search.antt =====
-- The first entry of a list of numbers that passes a test.
use Prim.Native.Nat.{ℕ, ◌+◌}
use mathlib.Core.Path.{◌≡◌, refl, ap, ◌∙◌}
use mathlib.Core.Logic.{◌⊎◌, inl, inr}
use mathlib.Core.Bool.{Bool, true, false}
use mathlib.Core.Option.{Option, none, some}
use mathlib.Core.List.{List, [], ◌∷◌, ◌++◌}
use native.Mathlib.Omega.{arith}
use stumpless.Base.Tests.{if◌then◌else◌, Bool-cases}
use stumpless.Base.Lists.{length}
use stumpless.Base.Strings.{All, Bytes, is_same, is_same_sound, is_same_self}

-- `x` stands at `i`, with `P x`, and nothing before it has the property.
abbrev pub IsFirst : (ℕ → Type 0) → List ℕ → ℕ → ℕ → Type 0
IsFirst P xs i x =
    (before : List ℕ) × (after : List ℕ) × (xs ≡ before ++ x ∷ after)
    × (length before ≡ i)
    × All (λ q. ¬ P q) before
    × P x

-- The entry and its index, counted from `i` on.
unfoldable pub search_from : (ℕ → Bool) → ℕ → List ℕ → Option (ℕ × ℕ)
search_from test i [] = none
search_from test i (x ∷ xs) = if test x then some (i, x) else search_from test (i + 1) xs

-- A search with a test that decides a property finds the first entry that has it.
pub search_from-cases :
    (P : ℕ → Type 0) (test : ℕ → Bool)
    → ((x : ℕ) → test x ≡ true → P x)
    → ((x : ℕ) → test x ≡ false → ¬ P x)
    → (i : ℕ) (xs : List ℕ)
    → ((search_from test i xs ≡ none) × All (λ q. ¬ P q) xs)
      ⊎ ((j : ℕ) × (x : ℕ) × (search_from test i xs ≡ some (i + j, x)) × IsFirst P xs j x)
unfolding search_from
search_from-cases P test sound complete i [] = inl (refl, tt)
search_from-cases P test sound complete i (x ∷ xs) = elim (Bool-cases (test x)) [
  | inl passes ↦
      rw passes
        (inr (0, x, ap (λ k. some (k, x)) (omega arith), ([], xs, refl, refl, tt, sound x passes)))
  | inr fails ↦ rw fails (elim (search_from-cases P test sound complete (i + 1) xs) [
    | inl (missed, others) ↦ inl (missed, (complete x fails, others))
    | inr (j, y, hit, (before, after, e, len, others, holds)) ↦ inr (
      j + 1,
      y,
      hit ∙ ap (λ k. some (k, y)) (omega arith),
      (
        x ∷ before,
        after,
        ap (λ ys. x ∷ ys) e,
        omega (arith, len),
        (complete x fails, others),
        holds,
      ),
    )
  ])
]

-- Searching by name.
pub search_name-cases :
    (name_of : ℕ → Bytes) (name : Bytes) (i : ℕ) (xs : List ℕ)
    → let test : ℕ → Bool = λ x. is_same (name_of x) name in
      ((search_from test i xs ≡ none) × All (λ q. ¬ (name_of q ≡ name)) xs)
      ⊎ ((j : ℕ) × (x : ℕ) × (search_from test i xs ≡ some (i + j, x))
          × IsFirst (λ q. name_of q ≡ name) xs j x)
search_name-cases name_of name i xs =
    search_from-cases (λ q. name_of q ≡ name) (λ x. is_same (name_of x) name)
      (λ x same. is_same_sound (name_of x) name same)
      (λ x other e. cc (other, ap (λ s. is_same s name) e, is_same_self name)) i xs
