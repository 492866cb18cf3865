-- ===== src/World/Balance.antt =====
-- What a call leaves allotted, up to the order in which it was made (src/memory.c and
-- src/config/thread_safety_supported.c).
use stumpless.Base.{
  ℕ, ◌+◌, ◌-◌, ◌*◌, ◌≡◌, refl, [], ◌∷◌, ◌++◌, List, ◌⊎◌, inl, inr, true, false, none, some, ◌==◌,
  if◌then◌else◌, arith, Bool-cases,
}
use stumpless.Error.{memory_allocation_failure}
use stumpless.World.{
  World, remove, remove_each, alloc_mem, alloc_array, alloc_mem-cases, is_array_too_big,
  assign_cached_mutex, realloc_mem,
}

-- How often a number is in a list.
abbrev pub occurrences : ℕ → List ℕ → ℕ
occurrences m [] = 0
occurrences m (n ∷ ns) = occurrences m ns + (if n == m then 1 else 0)

pub occurrences-append :
    (m : ℕ) (ns late : List ℕ) → occurrences m (ns ++ late) ≡ occurrences m late + occurrences m ns
occurrences-append m [] late = omega arith
occurrences-append m (n ∷ ns) late = omega (occurrences-append m ns late, arith)

pub occurrences-remove :
    (a m : ℕ) (xs : List ℕ)
    → occurrences a (remove m xs) ≡ occurrences a xs - (if m == a then 1 else 0)
occurrences-remove a m [] = omega arith
occurrences-remove a m (x ∷ xs) = elim (Bool-cases (x == m)) [
  | inl same ↦ ground arith
  | inr other ↦ ground (arith, occurrences-remove a m xs)
]

-- From `w` to `w'` the blocks and the mutexes were made and not yet given back, and every lock that was
-- taken was.
abbrev pub Owns : List ℕ → List ℕ → World → World → Type 0
Owns blocks mutexes w w' =
    ((a : ℕ) → occurrences a w'.live ≡ occurrences a blocks + occurrences a w.live)
    × ((a : ℕ) → occurrences a w'.mutexes ≡ occurrences a mutexes + occurrences a w.mutexes)
    × (w'.held ≡ w.held)

-- Nothing is left behind.
abbrev pub IsBalanced : World → World → Type 0
IsBalanced = Owns [] []

pub IsBalanced-refl : (w : World) → IsBalanced w w
IsBalanced-refl w = (λ a. omega arith, λ a. omega arith, refl)

-- The last call failed for want of memory.
abbrev pub IsExhausted : World → Type 0
IsExhausted w = (w.error_valid ≡ true) × (w.last_error.id ≡ memory_allocation_failure)

-- An array is one block more, or the memory ran out.
pub alloc_array-cases :
    (item_count item_size : ℕ) (w : World)
    → let (r, w') = alloc_array item_count item_size w in
      (w'.mutexes ≡ w.mutexes)
      × (w'.held ≡ w.held)
      × (((block : ℕ) × (r ≡ some block)
            × (w'.live ≡ block ∷ w.live)
            × (w'.error_valid ≡ w.error_valid))
          ⊎ ((r ≡ none) × (w'.live ≡ w.live) × IsExhausted w'))
unfolding alloc_array
alloc_array-cases item_count item_size w =
    elim (Bool-cases (is_array_too_big item_count item_size)) [
      | inl big ↦ rw big (refl, refl, inr (refl, refl, (refl, refl)))
      | inr fits ↦ elim (alloc_mem-cases (item_count * item_size) w) [
        | inl granted ↦ rw (fits, granted) (refl, refl, inl (w.calls, refl, refl, refl))
        | inr refused ↦ rw (fits, refused) (refl, refl, inr (refl, refl, (refl, refl)))
      ]
    ]

-- A call for memory gives a new block, if the allocator grants it, or an error and nothing.
pub alloc_mem-effects :
    (size : ℕ) (w : World)
    → let (r, w') = alloc_mem size w in
      (w'.mutexes ≡ w.mutexes)
      × (w'.held ≡ w.held)
      × (w'.malloc ≡ w.malloc)
      × (((w.malloc w.calls size ≡ true)
            × (r ≡ some w.calls)
            × (w'.live ≡ w.calls ∷ w.live)
            × (w'.error_valid ≡ w.error_valid))
          ⊎ ((w.malloc w.calls size ≡ false) × (r ≡ none) × (w'.live ≡ w.live) × IsExhausted w'))
unfolding alloc_mem
alloc_mem-effects size w = elim (Bool-cases (w.malloc w.calls size)) [
  | inl granted ↦ rw granted (refl, refl, refl, inl (refl, refl, refl, refl))
  | inr refused ↦ rw refused (refl, refl, refl, inr (refl, refl, refl, (refl, refl)))
]

-- The same of a mutex.
pub assign_cached_mutex-effects :
    (w : World)
    → let (r, w') = assign_cached_mutex w in
      (w'.live ≡ w.live)
      × (w'.held ≡ w.held)
      × (((r ≡ some w.mutex_calls)
            × (w'.mutexes ≡ w.mutex_calls ∷ w.mutexes)
            × (w'.error_valid ≡ w.error_valid))
          ⊎ ((r ≡ none) × (w'.mutexes ≡ w.mutexes) × IsExhausted w'))
unfolding assign_cached_mutex
assign_cached_mutex-effects w = elim (Bool-cases (w.new_mutex w.mutex_calls)) [
  | inl granted ↦ rw granted (refl, refl, inl (refl, refl, refl))
  | inr refused ↦ rw refused (refl, refl, inr (refl, refl, (refl, refl)))
]

-- A request for memory or for a mutex is refused.
abbrev pub IsDenied : World → Type 0
IsDenied w =
    ((n : ℕ) × (size : ℕ) × (w.malloc n size ≡ false)) ⊎ ((n : ℕ) × (w.new_mutex n ≡ false))

pub alloc_mem-new_mutex : (size : ℕ) (w : World) → (alloc_mem size w).1.new_mutex ≡ w.new_mutex
unfolding alloc_mem
alloc_mem-new_mutex size w = elim (Bool-cases (w.malloc w.calls size)) [
  | inl granted ↦ rw granted refl
  | inr refused ↦ rw refused refl
]

pub assign_cached_mutex-malloc : (w : World) → (assign_cached_mutex w).1.malloc ≡ w.malloc
unfolding assign_cached_mutex
assign_cached_mutex-malloc w = elim (Bool-cases (w.new_mutex w.mutex_calls)) [
  | inl granted ↦ rw granted refl
  | inr refused ↦ rw refused refl
]

pub assign_cached_mutex_denied :
    (w : World) → (assign_cached_mutex w).0 ≡ none → w.new_mutex w.mutex_calls ≡ false
unfolding assign_cached_mutex
assign_cached_mutex_denied w failed = elim (Bool-cases (w.new_mutex w.mutex_calls)) [
  | inl granted ↦ absurd (ground (arith, granted, failed))
  | inr refused ↦ refused
]

pub occurrences-remove_each :
    (a : ℕ) (ms xs : List ℕ)
    → occurrences a (remove_each ms xs) ≡ occurrences a xs - occurrences a ms
occurrences-remove_each a [] xs = omega arith
occurrences-remove_each a (m ∷ ms) xs =
    omega (arith, occurrences-remove_each a ms (remove m xs), occurrences-remove a m xs)

-- A block that grows is another one, or it stays as it is.
pub realloc_mem-effects :
    (mem size : ℕ) (w : World)
    → let (r, w') = realloc_mem mem size w in
      (w'.mutexes ≡ w.mutexes)
      × (w'.held ≡ w.held)
      × (((r ≡ some w.calls) × (w'.live ≡ w.calls ∷ remove mem w.live))
          ⊎ ((r ≡ none) × (w'.live ≡ w.live) × IsExhausted w'))
unfolding realloc_mem
realloc_mem-effects mem size w = elim (Bool-cases (w.malloc w.calls size)) [
  | inl granted ↦ rw granted (refl, refl, inl (refl, refl))
  | inr refused ↦ rw refused (refl, refl, inr (refl, refl, (refl, refl)))
]
