-- ===== src/Element/Array.antt =====
-- The array of params of an element, as it grows and is read by index (src/element.c).
use stumpless.Base.{
  ℕ, zero, suc, ◌+◌, ◌<◌, ◌≤◌, ◌≡◌, refl, ap, ◌∙◌, sym, [], ◌∷◌, ◌++◌, List, true, false, ◌⊎◌, inl,
  inr, Option, none, some, length, leb, get_elem?, set, get_elem?-set_self, length-append,
  length-set, Bool-cases, Option-cases, arith,
}
use stumpless.Error.{invalid_index_error_message}
use stumpless.World.{
  World, realloc_array, alloc_mem, realloc_mem, unlock-lock, clear_error, raise_index_out_of_bounds,
}
use stumpless.Element.{
  Element, param_count, lock_element, stumpless_add_param, stumpless_set_param,
  stumpless_get_param_by_index, stumpless_get_param_count,
}

get_elem?-append_last : (ps : List ℕ) (p : ℕ) → get_elem? (ps ++ p ∷ []) (length ps) ≡ some p
get_elem?-append_last [] p = refl
get_elem?-append_last (q ∷ ps) p = get_elem?-append_last ps p

get_elem?-append_left :
    (ps qs : List ℕ) (i : ℕ) → i < length ps → get_elem? (ps ++ qs) i ≡ get_elem? ps i
get_elem?-append_left [] qs i h = absurd (omega arith)
get_elem?-append_left (p ∷ ps) qs zero h = refl
get_elem?-append_left (p ∷ ps) qs (suc i) h = get_elem?-append_left ps qs i (omega arith)

pub by_index-inside :
    (e : Element) (i : ℕ) (w : World)
    → i < length e.params
    → stumpless_get_param_by_index (some e) i w ≡ (get_elem? e.params i, clear_error w)
unfolding stumpless_get_param_by_index param_count
by_index-inside e i w h =
    let inside : leb (length e.params) i ≡ false = ground arith in
    rw inside (ap (λ v. (get_elem? e.params i, v)) (unlock-lock e.mutex (clear_error w)))

-- A call that enlarges an array gives a block, or fails with an error.
realloc_array-cases :
    (mem : Option ℕ) (count size : ℕ) (w : World)
    → (((block : ℕ) × ((realloc_array mem count size w).0 ≡ some block))
        ⊎ (((realloc_array mem count size w).0 ≡ none)
            × ((realloc_array mem count size w).1.error_valid ≡ true)
            × ((realloc_array mem count size w).1.live ≡ w.live)))
unfolding realloc_array alloc_mem realloc_mem
realloc_array-cases none count size w = elim (Option-cases (realloc_array none count size w).0) [
  | inr (block, e) ↦ inl (block, e)
  | inl e ↦ inr (e, ground arith, ground arith)
]
realloc_array-cases (some b) count size w =
    elim (Option-cases (realloc_array (some b) count size w).0) [
      | inr (block, e) ↦ inl (block, e)
      | inl e ↦ inr (e, ground arith, ground arith)
    ]

-- stumpless_add_param puts the param behind those that are there: afterwards its index is the old
-- count, the others stand where they stood, the count is one more and no error is left; or it
-- leaves the element and what is allotted as they were, and an error is reported.
pub add_param-get_param_by_index :
    (e : Element) (param : ℕ) (w : World)
    → let (done, e', w') = stumpless_add_param (some e) (some param) w in
      ((a : Element) × (done ≡ true)
        × (e' ≡ some a)
        × (w'.error_valid ≡ false)
        × (param_count a ≡ param_count e + 1)
        × ((stumpless_get_param_by_index (some a) (param_count e) w').0 ≡ some param)
        × ((i : ℕ)
            → i < param_count e
            → (stumpless_get_param_by_index (some a) i w').0
              ≡ (stumpless_get_param_by_index (some e) i w).0))
      ⊎ ((done ≡ false) × (e' ≡ some e) × (w'.error_valid ≡ true) × (w'.live ≡ w.live))
unfolding stumpless_add_param param_count
add_param-get_param_by_index e param w =
    elim (realloc_array-cases e.params_block (length e.params + 1) 8 (lock_element e w)) [
      | inr (failed, error, live) ↦ inr (ground arith, ground arith, ground arith, ground arith)
      | inl (block, granted) ↦
          let a = record e { params_block = some block; params = e.params ++ param ∷ [] } in
          let more = length-append e.params (param ∷ []) in
          inl (
            a,
            ground arith,
            ground arith,
            ground arith,
            more,
            ap (λ r. r.0) (by_index-inside a (length e.params) _ (omega (arith, more)))
                ∙ get_elem?-append_last e.params param,
            λ i h.
                ap (λ r. r.0) (by_index-inside a i _ (omega (arith, more)))
                ∙ get_elem?-append_left e.params (param ∷ []) i h
                ∙ ap (λ r. r.0) (sym (by_index-inside e i w h)),
          )
    ]

-- stumpless_set_param inside the array makes the param stand at its index, keeps the count and
-- leaves no error; outside, the element is as it was and the index is reported.
pub set_param-get_param_by_index :
    (e : Element) (index param : ℕ) (w : World)
    → let (done, e', w') = stumpless_set_param (some e) index (some param) w in
      ((a : Element) × (index < param_count e)
        × (done ≡ true)
        × (e' ≡ some a)
        × (w' ≡ clear_error w)
        × (param_count a ≡ param_count e)
        × ((stumpless_get_param_by_index (some a) index w').0 ≡ some param))
      ⊎ ((param_count e ≤ index)
          × (done ≡ false)
          × (e' ≡ some e)
          × (w' ≡ raise_index_out_of_bounds (invalid_index_error_message "param") index w))
unfolding stumpless_set_param param_count
set_param-get_param_by_index e index param w = elim (Bool-cases (leb (length e.params) index)) [
  | inl outside ↦ rw outside (
      inr (
        ground arith,
        refl,
        refl,
        ap (raise_index_out_of_bounds (invalid_index_error_message "param") index)
            (unlock-lock e.mutex w),
      ))
  | inr inside ↦
      let a = record e { params = set e.params index param } in
      let same = length-set e.params index param in
      let here : index < length e.params = ground arith in
      rw inside (
        inl (
          a,
          here,
          refl,
          refl,
          ap clear_error (unlock-lock e.mutex w),
          same,
          ap (λ r. r.0) (by_index-inside a index _ (omega (arith, same)))
              ∙ get_elem?-set_self e.params index param here,
        ))
]

-- The count is that of the array, and no error is left.
get_param_count_lem :
    (e : Element) (w : World)
    → stumpless_get_param_count (some e) w ≡ (length e.params, clear_error w)
unfolding stumpless_get_param_count param_count
get_param_count_lem e w = ap (λ v. (length e.params, clear_error v)) (unlock-lock e.mutex w)
