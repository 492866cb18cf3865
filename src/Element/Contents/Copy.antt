-- ===== src/Element/Contents/Copy.antt =====
-- Copying an element with its params, and destroying the copy (src/element.c).
use stumpless.Base.{
  ℕ, ◌≤◌, ◌≡◌, refl, append-nil, ap, ap₂, ◌∙◌, [], ◌∷◌, ◌++◌, List, map, ◌⊎◌, inl, inr, true, false,
  Option, none, some, Bytes, All, IsByte, length, arith,
}
use stumpless.World.{World, remove, alloc_array, lock_mutex, unlock_mutex, remove-cons_self}
use stumpless.World.Balance.{
  occurrences, occurrences-append, Owns, IsBalanced, IsExhausted, alloc_array-cases,
}
use stumpless.Validate.Names.{IsNameChar}
use stumpless.Validate.Utf8.WellFormed.{WellFormed}
use stumpless.Param.{Param, stumpless_copy_param}
use stumpless.Param.Format.{IsConsistent}
use stumpless.Param.Copy.{stumpless_copy_param-copies}
use stumpless.Element.{Element, lock_element, stumpless_new_element}
use stumpless.Element.Life.{stumpless_new_element-Made}
use stumpless.Element.Contents.Destroy.{
  param_blocks, param_mutexes, element_blocks, destroy_element_and_contents-Owns,
  destroy_element_and_contents-error,
}
use stumpless.Element.Contents.{
  stumpless_destroy_element_and_contents, copy_params, copy_contents, stumpless_copy_element,
}

-- A param with a NUL behind its name, as stumpless_new_param makes it.
abbrev pub IsCopyable : Param → Type 0
IsCopyable p =
    (p.terminated ≡ true)
    × All IsByte p.value
    × All IsNameChar p.name
    × (length p.name ≤ 32)
    × WellFormed p.value

abbrev pub names_and_values : List Param → List (Bytes × Bytes)
names_and_values = map (λ p. (p.name, p.value))

copy_params-Owns :
    (sizeof_param : ℕ) (behind : ℕ → Bytes) (params : ℕ → Param) (ps : List ℕ) (w : World)
    → All (λ p. IsCopyable (params p)) ps
    → let (done, copies, w') = copy_params sizeof_param behind params ps w in
      Owns (param_blocks copies) (param_mutexes copies) w w'
      × All IsConsistent copies
      × (((done ≡ true)
            × (names_and_values copies ≡ map (λ p. ((params p).name, (params p).value)) ps))
          ⊎ ((done ≡ false) × IsExhausted w'))
unfolding copy_params
copy_params-Owns sizeof_param behind params [] w good =
    ((λ a. omega arith, λ a. omega arith, refl), tt, inl (refl, refl))
copy_params-Owns sizeof_param behind params (p ∷ ps) w
      ((ended, bytes, chars, short, formed), good) =
    let (held, outcome) =
      stumpless_copy_param-copies sizeof_param (behind p) (params p) w ended bytes chars short
        formed in
    elim outcome [
      | inr (e, live, mutexes, oom) ↦
          rw (copy_params, e)
            (
              (
                λ a. omega (arith, ap (occurrences a) live),
                λ a. omega (arith, ap (occurrences a) mutexes),
                held,
              ),
              tt,
              inr (refl, oom),
            )
      | inl (q, e, name, value, c, live, mutexes) ↦
          let w1 = (stumpless_copy_param sizeof_param (behind p) (some (params p)) w).1 in
          let ((live', mutexes', held'), cs, rest) =
            copy_params-Owns sizeof_param behind params ps w1 good in
          rw (copy_params, e)
            (
              (
                λ a. omega (arith, live' a, ap (occurrences a) live),
                λ a. omega (arith, mutexes' a, ap (occurrences a) mutexes),
                held' ∙ held,
              ),
              (c, cs),
              elim rest [
                | inr failed ↦ inr failed
                | inl (done, same) ↦
                    inl (done, ap₂ (λ x xs. x ∷ xs) (ap₂ (λ n v. (n, v)) name value) same)
              ],
            )
    ]

-- A copy of an element of this name and of params of these names and values, which owns all that was
-- made for it; or nothing and an error.
abbrev pub Copied :
    Bytes → List (Bytes × Bytes) → World → Option (Element × List Param) × World → Type 0
Copied name contents w (result, w') =
    ((c : Element) × (copies : List Param) × (result ≡ some (c, copies))
      × (c.name ≡ name)
      × (names_and_values copies ≡ contents)
      × (c.params ≡ map (λ q. q.block) copies)
      × All IsConsistent copies
      × Owns (param_blocks copies ++ element_blocks c) (param_mutexes copies ++ c.mutex ∷ []) w w')
    ⊎ ((result ≡ none) × IsBalanced w w' × (w'.error_valid ≡ true))

-- copy_contents, whose element was just made from the one to be copied.
copy_contents-Copied :
    (sizeof_param : ℕ) (behind : ℕ → Bytes) (params : ℕ → Param) (ps : List ℕ) (c : Element)
    (name : Bytes) (w w1 : World)
    → All (λ p. IsCopyable (params p)) ps
    → c.name ≡ name
    → c.params_block ≡ none
    → Owns (c.block ∷ []) (c.mutex ∷ []) w w1
    → Copied name
        (map (λ p. ((params p).name, (params p).value)) ps)
        w
        (copy_contents sizeof_param behind params ps c w1)
unfolding copy_contents
copy_contents-Copied sizeof_param behind params ps c name w w1 good same_name no_array owned =
    let (mutexes, held, array) = alloc_array-cases (length ps) 8 w1 in
    let (live', locks', held') = owned in
    let w2 = (alloc_array (length ps) 8 w1).1 in
    elim array [
      | inr (e, live, oom) ↦
          rw (copy_contents, e)
            (inr (
              refl,
              destroy_element_and_contents-Owns c [] [] [] w w2 (
                λ a. rw no_array omega (arith, live' a, ap (occurrences a) live),
                λ a. omega (arith, locks' a, ap (occurrences a) mutexes),
                held ∙ held',
              ),
              destroy_element_and_contents-error c [] w2 ∙ oom.0,
            ))
      | inl (block, e, live, clear) ↦
          let ((more, more_mutexes, held''), cs, outcome) =
            copy_params-Owns sizeof_param behind params ps w2 good in
          let (done, copies, w3) = copy_params sizeof_param behind params ps w2 in
          let filled : Element = record c {
            params_block = some block;
            params = map (λ q. q.block) copies;
          } in
          let owns : Owns (param_blocks copies ++ (element_blocks filled ++ []))
              (param_mutexes copies ++ (filled.mutex ∷ [])) w w3 =
            (
              λ a. omega (
                arith,
                more a,
                ap (occurrences a) live,
                live' a,
                occurrences-append a (param_blocks copies) (c.block ∷ block ∷ []),
              ),
              λ a. omega (
                arith,
                more_mutexes a,
                ap (occurrences a) mutexes,
                locks' a,
                occurrences-append a (param_mutexes copies) (c.mutex ∷ []),
              ),
              held'' ∙ (held ∙ held'),
            ) in
          elim outcome [
            | inl (reached, same) ↦
                rw (copy_contents, e, reached)
                  (inl (filled, copies, refl, same_name, same, refl, cs, owns))
            | inr (failed, oom) ↦
                rw (copy_contents, e, failed)
                  (inr (
                    refl,
                    destroy_element_and_contents-Owns filled copies [] [] w w3 owns,
                    destroy_element_and_contents-error filled copies w3 ∙ oom.0,
                  ))
          ]
    ]

locked-Owns :
    (mutex : ℕ) (blocks mutexes : List ℕ) (w w' : World)
    → Owns blocks mutexes (lock_mutex mutex w) w'
    → Owns blocks mutexes w (unlock_mutex mutex w')
locked-Owns mutex blocks mutexes w w' (live, locks, held) =
    (live, locks, ap (remove mutex) held ∙ remove-cons_self mutex w.held)

locked-Copied :
    (mutex : ℕ) (name : Bytes) (contents : List (Bytes × Bytes)) (w w' : World)
    (result : Option (Element × List Param))
    → Copied name contents (lock_mutex mutex w) (result, w')
    → Copied name contents w (result, unlock_mutex mutex w')
locked-Copied mutex name contents w w' result (inl (c, copies, e, n, v, b, cs, owned)) = inl (
  c,
  copies,
  e,
  n,
  v,
  b,
  cs,
  locked-Owns mutex (param_blocks copies ++ element_blocks c)
      (param_mutexes copies ++ (c.mutex ∷ [])) w w' owned,
)
locked-Copied mutex name contents w w' result (inr (e, owned, error)) =
    inr (e, locked-Owns mutex [] [] w w' owned, error)

-- stumpless_copy_element of an element with a name and params as stumpless_new_element and
-- stumpless_new_param make them, with a NUL behind every name, gives an element with its name and
-- with params of the same names and values in the same order, in blocks and with mutexes of their
-- own; or it gives NULL, an error is reported and every block and mutex taken on the way is given
-- back. The lock is given back.
pub stumpless_copy_element-Copied :
    (sizeof_element sizeof_param : ℕ) (behind : ℕ → Bytes) (params : ℕ → Param) (e : Element)
    (w : World)
    → All IsNameChar e.name
    → length e.name ≤ 32
    → All (λ p. IsCopyable (params p)) e.params
    → Copied e.name
        (map (λ p. ((params p).name, (params p).value)) e.params)
        w
        (stumpless_copy_element sizeof_element sizeof_param behind params e w)
unfolding stumpless_copy_element
stumpless_copy_element-Copied sizeof_element sizeof_param behind params e w chars short good =
    let locked = lock_element e w in
    elim (stumpless_new_element-Made sizeof_element e.name locked) [
      | inr (inl long, _, _, _) ↦ absurd (omega arith)
      | inr (inr bad, _, _, _) ↦ absurd (bad chars)
      | inl (_, inr (f, (live, mutexes, held), oom)) ↦
          let w1 = (stumpless_new_element sizeof_element (some e.name) locked).1 in
          rw (stumpless_copy_element, f)
            (locked-Copied e.mutex e.name (map (λ p. ((params p).name, (params p).value)) e.params)
              w w1 none
              (inr (
                refl,
                (
                  λ a. omega (arith, ap (occurrences a) live),
                  λ a. omega (arith, ap (occurrences a) mutexes),
                  held,
                ),
                oom.0,
              )))
      | inl (_, inl (c, f, n, _, none_yet, _, live, mutexes, held, _)) ↦
          let w1 = (stumpless_new_element sizeof_element (some e.name) locked).1 in
          let r = copy_contents sizeof_param behind params e.params c w1 in
          let contents : List (Bytes × Bytes) =
            map (λ p. ((params p).name, (params p).value)) e.params in
          let copied : Copied e.name contents locked r =
            copy_contents-Copied sizeof_param behind params e.params c e.name locked w1 good n
              none_yet
              (
                λ a. omega (arith, ap (occurrences a) live),
                λ a. omega (arith, ap (occurrences a) mutexes),
                held,
              ) in
          rw (stumpless_copy_element, f) (locked-Copied e.mutex e.name contents w r.1 r.0 copied)
    ]

-- Destroying with its params the copy of an element whose name and params are as
-- stumpless_new_element and stumpless_new_param make them, with a NUL behind every name, or the
-- NULL of a copy that failed, leaves every block, mutex and lock as it was before the copy, up to
-- the order in which they were made.
pub destroy_element_and_contents-copy_element :
    (sizeof_element sizeof_param : ℕ) (behind : ℕ → Bytes) (params : ℕ → Param) (e : Element)
    (w : World)
    → All IsNameChar e.name
    → length e.name ≤ 32
    → All (λ p. IsCopyable (params p)) e.params
    → let (copy, w1) = stumpless_copy_element sizeof_element sizeof_param behind params e w in
      IsBalanced w (stumpless_destroy_element_and_contents copy w1)
unfolding stumpless_destroy_element_and_contents
destroy_element_and_contents-copy_element sizeof_element sizeof_param behind params e w chars short
      good =
    let w1 = (stumpless_copy_element sizeof_element sizeof_param behind params e w).1 in
    elim (stumpless_copy_element-Copied sizeof_element sizeof_param behind params e w chars short
      good) [
        | inl (c, copies, f, _, _, _, _, owned) ↦ rw f (
            destroy_element_and_contents-Owns c copies [] [] w w1
              (rw (append-nil (element_blocks c)) owned))
        | inr (f, balanced, _) ↦ rw f balanced
      ]
