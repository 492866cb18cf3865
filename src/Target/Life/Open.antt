-- ===== src/Target/Life/Open.antt =====
-- Opening a target and closing it again (src/target.c and src/target/).
use stumpless.Base.{
  ℕ, ◌+◌, ◌≡◌, refl, sym, ap, ◌∙◌, [], ◌∷◌, ◌++◌, List, Bytes, Bool, true, false, ◌⊎◌, inl, inr,
  Option, none, some, length, ◌==◌, arith,
}
use stumpless.Base.Int.{ℤ}
use stumpless.World.{World, alloc_mem, assign_cached_mutex, remove, remove_each}
use stumpless.World.Balance.{
  occurrences, occurrences-remove, Owns, IsBalanced, IsExhausted, alloc_mem-effects,
  assign_cached_mutex-effects, assign_cached_mutex-malloc, assign_cached_mutex_denied,
  alloc_mem-new_mutex, occurrences-append, occurrences-remove_each, IsDenied,
}
use stumpless.Param.{copy_cstring_with_length}
use stumpless.Target.{Target, TargetType}
use stumpless.Target.Life.{destroy_target, new_target, open_with, close_target}

-- A new target: its block, that of its name and its mutex are taken; or the memory ran out.
abbrev NewTarget : TargetType → Bytes → World → Option Target × World → Type 0
NewTarget type name w (result, w') =
    ((t : Target) × (result ≡ some t)
      × (t.type ≡ type)
      × (t.name ≡ name)
      × (t.name_length ≡ length name)
      × (t.id ≡ none)
      × Owns (t.block ∷ t.name_block ∷ []) (t.mutex ∷ []) w w'
      × (w'.error_valid ≡ w.error_valid)
      × (w'.malloc ≡ w.malloc))
    ⊎ ((result ≡ none) × IsBalanced w w' × IsExhausted w' × IsDenied w)

module _ (sizeof_target default_options : ℕ) (default_prival : ℤ) where
  new_target-NewTarget :
      (type : TargetType) (name : Bytes) (w : World)
      → NewTarget type name w (new_target sizeof_target default_options default_prival type name w)
  unfolding new_target copy_cstring_with_length
  new_target-NewTarget type name w =
      let (m1, h1, a1, outcome1) = alloc_mem-effects sizeof_target w in
      let w1 = (alloc_mem sizeof_target w).1 in
      let (m2, h2, a2, outcome2) = alloc_mem-effects (length name + 1) w1 in
      let w2 = (alloc_mem (length name + 1) w1).1 in
      let (l3, h3, outcome3) = assign_cached_mutex-effects w2 in
      let w3 = (assign_cached_mutex w2).1 in
      elim outcome1 [
        | inr (denied, r, l1, oom) ↦
            rw (new_target, r)
              (inr (
                refl,
                (
                  λ a. omega (arith, ap (occurrences a) l1),
                  λ a. omega (arith, ap (occurrences a) m1),
                  h1,
                ),
                oom,
                inl (_, _, denied),
              ))
        | inl (_, r, l1, e1) ↦ elim outcome2 [
          | inr (denied, q, l2, oom) ↦
              rw (new_target, r, q)
                (inr (
                  refl,
                  (
                    λ a. omega (
                      arith,
                      ap (occurrences a) l1,
                      ap (occurrences a) l2,
                      occurrences-remove a w.calls w2.live,
                    ),
                    λ a. omega (arith, ap (occurrences a) m1, ap (occurrences a) m2),
                    h2 ∙ h1,
                  ),
                  oom,
                  inl (_, _, ap (λ f. f w1.calls (length name + 1)) (sym a1) ∙ denied),
                ))
          | inl (_, q, l2, e2) ↦ elim outcome3 [
            | inr (p, m3, oom) ↦
                rw (new_target, r, q, p)
                  (inr (
                    refl,
                    (
                      λ a. omega (
                        arith,
                        ap (occurrences a) l1,
                        ap (occurrences a) l2,
                        ap (occurrences a) l3,
                        occurrences-remove a w.calls (remove w1.calls w3.live),
                        occurrences-remove a w1.calls w3.live,
                      ),
                      λ a. omega (
                        arith,
                        ap (occurrences a) m1,
                        ap (occurrences a) m2,
                        ap (occurrences a) m3,
                      ),
                      h3 ∙ (h2 ∙ h1),
                    ),
                    oom,
                    inr (
                      w2.mutex_calls,
                      ap (λ f. f w2.mutex_calls)
                            (sym (
                              alloc_mem-new_mutex (length name + 1) w1
                              ∙ alloc_mem-new_mutex sizeof_target w))
                          ∙ assign_cached_mutex_denied w2 p,
                    ),
                  ))
            | inl (p, m3, e3) ↦
                rw (new_target, r, q, p)
                  (inl (
                    _,
                    refl,
                    refl,
                    refl,
                    refl,
                    refl,
                    (
                      λ a. omega (
                        arith,
                        ap (occurrences a) l1,
                        ap (occurrences a) l2,
                        ap (occurrences a) l3,
                      ),
                      λ a. omega (
                        arith,
                        ap (occurrences a) m1,
                        ap (occurrences a) m2,
                        ap (occurrences a) m3,
                      ),
                      h3 ∙ (h2 ∙ h1),
                    ),
                    e3 ∙ (e2 ∙ e1),
                    assign_cached_mutex-malloc w2 ∙ (a2 ∙ a1),
                  ))
          ]
        ]
      ]

-- What makes the struct that a target keeps: a block, what is in it and its mutexes; or the memory
-- ran out.
abbrev pub GivesId :
    {A : Type 0} → (A → Type 0) → (A → List ℕ) → World → Option (ℕ × A) × World → Type 0
GivesId {A = A} P mutexes w (r, w') =
    (w'.held ≡ w.held)
    × (((block : ℕ) × (a : A) × (r ≡ some (block, a))
          × P a
          × (w'.live ≡ block ∷ w.live)
          × (w'.mutexes ≡ mutexes a ++ w.mutexes))
        ⊎ ((r ≡ none)
            × (w'.live ≡ w.live)
            × (w'.mutexes ≡ w.mutexes)
            × IsExhausted w'
            × ((size : ℕ) × (w.malloc w.calls size ≡ false))))

-- A target that is opened is the current one, and three blocks, its mutex and those inside of what
-- it keeps are taken; or nothing is taken, an error is reported, and a request was refused.
abbrev pub Opens :
    {A : Type 0}
    → (A → Type 0)
    → (A → List ℕ)
    → TargetType
    → Bytes
    → World
    → Option (Target × A) × (Option ℕ × World)
    → Type 0
Opens {A = A} P mutexes type name w (r, (current, w')) =
    ((t : Target) × (a : A) × (id : ℕ) × (r ≡ some (t, a))
      × P a
      × (t.type ≡ type)
      × (t.name ≡ name)
      × (t.id ≡ some id)
      × (current ≡ some t.block)
      × Owns (id ∷ t.block ∷ t.name_block ∷ []) (t.mutex ∷ mutexes a) w w'
      × (w'.error_valid ≡ false))
    ⊎ ((r ≡ none) × IsBalanced w w' × (w'.error_valid ≡ true) × IsDenied w)

destroy_target-Owns :
    (t : Target) (current : Option ℕ) (w w' : World)
    → Owns (t.block ∷ t.name_block ∷ []) (t.mutex ∷ []) w w'
    → IsBalanced w (destroy_target t (current, w')).1
unfolding destroy_target
destroy_target-Owns t current w w' (live, mutexes, held) = (
  λ a. omega (
    arith,
    live a,
    occurrences-remove a t.block (remove t.name_block w'.live),
    occurrences-remove a t.name_block w'.live,
  ),
  λ a. omega (arith, mutexes a, occurrences-remove a t.mutex w'.mutexes),
  held,
)

module _ (sizeof_target default_options : ℕ) (default_prival : ℤ) where
  pub open_with-Opens :
      {A : Type 0} (P : A → Type 0) (mutexes : A → List ℕ) (type : TargetType) (name : Bytes)
      (new_id : World → Option (ℕ × A) × World) (current : Option ℕ) (w : World)
      → ((w' : World) → GivesId P mutexes w' (new_id w'))
      → Opens P mutexes type name w
          (open_with sizeof_target default_options default_prival type name new_id (current, w))
  unfolding open_with destroy_target
  open_with-Opens P mutexes type name new_id current w gives =
      let made = new_target sizeof_target default_options default_prival type name w in
      elim (new_target-NewTarget sizeof_target default_options default_prival type name w) [
        | inr (r, balanced, oom, denied) ↦ rw (open_with, r) (inr (refl, balanced, oom.0, denied))
        | inl (t, r, kind, called, _, _, (live, locks, held), _, same) ↦
            let (h2, outcome) = gives made.1 in
            let w2 = (new_id made.1).1 in
            elim outcome [
              | inl (id, a, q, p, l2, m2) ↦
                  rw (open_with, r, q)
                    (inl (
                      _,
                      a,
                      id,
                      refl,
                      p,
                      kind,
                      called,
                      refl,
                      refl,
                      (
                        λ b. omega (arith, live b, ap (occurrences b) l2),
                        λ b. omega (
                          arith,
                          locks b,
                          ap (occurrences b) m2,
                          occurrences-append b (mutexes a) made.1.mutexes,
                        ),
                        h2 ∙ held,
                      ),
                      refl,
                    ))
              | inr (q, l2, m2, oom, (size, denied)) ↦
                  rw (open_with, r, q)
                    (inr (
                      refl,
                      destroy_target-Owns t current w w2 (
                        λ b. omega (arith, live b, ap (occurrences b) l2),
                        λ b. omega (arith, locks b, ap (occurrences b) m2),
                        h2 ∙ held,
                      ),
                      oom.0,
                      inl (made.1.calls, size, ap (λ f. f made.1.calls size) (sym same) ∙ denied),
                    ))
            ]
      ]

-- Closing what was opened, if it keeps nothing but its struct and the mutexes in it.
pub close_target-Opens :
    {A : Type 0} (P : A → Type 0) (mutexes contents : A → List ℕ) (type : TargetType) (name : Bytes)
    (target_type : TargetType → Bool) (w : World) (r : Option (Target × A))
    (state : Option ℕ × World)
    → target_type type ≡ true
    → ((a : A) → P a → contents a ≡ [])
    → Opens P mutexes type name w (r, state)
    → let closed = close_target target_type mutexes contents r state in
      IsBalanced w closed.1 × ((r ≡ none) ⊎ (closed.0 ≡ none))
unfolding close_target destroy_target
close_target-Opens P mutexes contents type name target_type w r (current, w') kind alone
      (inr (e, balanced, _, _)) =
    rw e (balanced, inl refl)
close_target-Opens P mutexes contents type name target_type w r (current, w') kind alone
      (inl (t, a, id, e, p, made, _, kept, here, (live, locks, held), _)) =
    let same : target_type t.type ≡ true = ap target_type made ∙ kind in
    let empty = alone a p in
    let freed = remove id w'.live in
    let itself : (t.block == t.block) ≡ true = ground arith in
    rw (e, close_target, same, kept, here, itself, empty)
      (
        (
          λ b. omega (
            arith,
            live b,
            occurrences-remove b id w'.live,
            occurrences-remove b t.name_block freed,
            occurrences-remove b t.block (remove t.name_block freed),
          ),
          λ b. omega (
            arith,
            locks b,
            occurrences-remove_each b (mutexes a) w'.mutexes,
            occurrences-remove b t.mutex (remove_each (mutexes a) w'.mutexes),
          ),
          held,
        ),
        inr refl,
      )
