-- ===== src/Entry/Elements/Distinct.antt =====
-- No two elements of an entry have one name (src/entry.c).
use stumpless.Base.{
  ℕ, zero, suc, ◌+◌, ◌<◌, ◌≤◌, ◌≡◌, ◌≢◌, refl, ap, ◌∙◌, sym, [], ◌∷◌, ◌++◌, List, Bytes, is_same,
  is_same_self, is_same_sound, true, false, ◌⊎◌, inl, inr, some, length, All, All-append, get_elem?,
  get_elem?-set_self, ◌*◌, ◌%◌, ◌^◌, set, leb, Bool-cases, arith,
}
use stumpless.Error.{invalid_index_error_message}
use stumpless.World.{
  realloc_pointer-cases, World, clear_error, raise_index_out_of_bounds, raise_duplicate_element,
  unlock-lock, remove-cons_self, remove,
}
use stumpless.Element.{Element}
use stumpless.Entry.{Entry, lock_entry}
use stumpless.Entry.Elements.{
  has_name, unchecked_entry_has_element, locked_add_element, add_element, set_element,
}

-- The allocator refuses an array for one element more.
abbrev pub IsRefused : Entry → World → Type 0
IsRefused entry w = w.malloc w.calls ((8 * length entry.elements + 8) % 2 ^ 64) ≡ false

module _ (store : ℕ → Element) where
  abbrev pub HasOtherName : Bytes → ℕ → Type 0
  HasOtherName name e = (store e).name ≢ name

  -- Every element's name differs from those before it.
  abbrev pub AreDistinct : List ℕ → Type 0
  AreDistinct [] = Unit
  AreDistinct (e ∷ es) = All (HasOtherName (store e).name) es × AreDistinct es

  pub has_name_lem :
      (es : List ℕ) (name : Bytes) → has_name store es name ≡ false → All (HasOtherName name) es
  unfolding has_name
  has_name_lem [] name h = tt
  has_name_lem (e ∷ es) name h = elim (Bool-cases (is_same (store e).name name)) [
    | inl same ↦ absurd (ground arith)
    | inr other ↦ (
      λ d. cc (other, ap (λ s. is_same s name) d, is_same_self name),
      has_name_lem es name (rw other at h),
    )
  ]

  AreDistinct-append :
      (es : List ℕ) (e : ℕ)
      → AreDistinct es
      → All (HasOtherName (store e).name) es
      → AreDistinct (es ++ e ∷ [])
  AreDistinct-append [] e d h = (tt, tt)
  AreDistinct-append (x ∷ es) e d h = (
    All-append (HasOtherName (store x).name) es (e ∷ []) d.0 ((λ p. h.0 (sym p)), tt),
    AreDistinct-append es e d.1 h.1,
  )

  All-set :
      (es : List ℕ) (i e : ℕ) (name : Bytes)
      → All (HasOtherName name) es
      → HasOtherName name e
      → All (HasOtherName name) (set es i e)
  All-set [] i e name h k = tt
  All-set (x ∷ es) zero e name h k = (k, h.1)
  All-set (x ∷ es) (suc i) e name h k = (h.0, All-set es i e name h.1 k)

  AreDistinct-set :
      (es : List ℕ) (i e : ℕ)
      → AreDistinct es
      → All (HasOtherName (store e).name) es
      → AreDistinct (set es i e)
  AreDistinct-set [] i e d h = tt
  AreDistinct-set (x ∷ es) zero e d h = (h.1, d.1)
  AreDistinct-set (x ∷ es) (suc i) e d h =
      (All-set es i e (store x).name d.0 (λ p. h.0 (sym p)), AreDistinct-set es i e d.1 h.1)

  -- The other way round: one of the elements has the name.
  has_name_found :
      (es : List ℕ) (name : Bytes)
      → has_name store es name ≡ true
      → (i : ℕ) × (e : ℕ) × (get_elem? es i ≡ some e) × ((store e).name ≡ name)
  unfolding has_name
  has_name_found [] name h = absurd (cc h)
  has_name_found (e ∷ es) name h = elim (Bool-cases (is_same (store e).name name)) [
    | inl same ↦ (0, e, refl, is_same_sound (store e).name name same)
    | inr other ↦
        let (i, x, at, named) = has_name_found es name (rw other at h) in (suc i, x, at, named)
  ]

  -- An element of the entry has the name.
  abbrev pub HasElement : Entry → Bytes → Type 0
  HasElement entry name =
      (i : ℕ) × (e : ℕ) × (get_elem? entry.elements i ≡ some e) × ((store e).name ≡ name)

  -- What `locked_add_element` does with an element of a new name.
  locked_add_element-new :
      (entry : Entry) (element : ℕ) (w : World)
      → unchecked_entry_has_element store entry (store element).name ≡ false
      → let (done, entry', w') = locked_add_element store entry element w in
        (w'.held ≡ w.held)
        × (w'.mutexes ≡ w.mutexes)
        × (((block : ℕ) × (done ≡ true)
              × (entry' ≡ record entry {
                elements_block = some block;
                elements = entry.elements ++ element ∷ [];
              })
              × (w'.error_valid ≡ w.error_valid))
            ⊎ ((done ≡ false)
                × (entry' ≡ entry)
                × (w'.error_valid ≡ true)
                × (w'.live ≡ w.live)
                × IsRefused entry w))
  unfolding locked_add_element
  locked_add_element-new entry element w new =
      let size = (8 * length entry.elements + 8) % 2 ^ 64 in
      let (held, mutexes, outcome) = realloc_pointer-cases entry.elements_block size w in
      rw new (elim outcome [
        | inr (refused, error, live, denied) ↦
            rw refused (held, mutexes, inr (refl, refl, error, live, denied))
        | inl (block, granted, quiet) ↦ rw granted (held, mutexes, inl (block, refl, refl, quiet))
      ])

  locked_add_element-there :
      (entry : Entry) (element : ℕ) (w : World)
      → unchecked_entry_has_element store entry (store element).name ≡ true
      → locked_add_element store entry element w ≡ (false, entry, raise_duplicate_element w)
  unfolding locked_add_element
  locked_add_element-there entry element w there = rw there refl

  -- stumpless_add_element on an entry whose elements have distinct names: an element of a new name
  -- is put behind the others, the names stay distinct and no error is left, or the allocator
  -- refuses the larger array, the entry stays as it was, an error is reported and nothing is
  -- allotted; if an element of the entry has the name, the entry stays as it was and a duplicate
  -- is reported. The mutex of the entry is given back.
  pub add_element-AreDistinct :
      (element : ℕ) (entry : Entry) (w : World)
      → AreDistinct entry.elements
      → let (done, entry', w') = add_element store element entry w in
        (w'.held ≡ w.held)
        × ((All (HasOtherName (store element).name) entry.elements
              × (done ≡ true)
              × (entry'.elements ≡ entry.elements ++ element ∷ [])
              × AreDistinct entry'.elements
              × (w'.error_valid ≡ false))
            ⊎ (All (HasOtherName (store element).name) entry.elements
                × (done ≡ false)
                × (entry' ≡ entry)
                × (w'.error_valid ≡ true)
                × (w'.live ≡ w.live)
                × IsRefused entry w)
            ⊎ (HasElement entry (store element).name
                × (done ≡ false)
                × (entry' ≡ entry)
                × (w' ≡ raise_duplicate_element (clear_error w))))
  unfolding add_element unchecked_entry_has_element
  add_element-AreDistinct element entry w distinct =
      let w1 = lock_entry entry (clear_error w) in
      elim (Bool-cases (unchecked_entry_has_element store entry (store element).name)) [
        | inl there ↦
            let refused : locked_add_element store entry element w1
                ≡ (false, entry, raise_duplicate_element w1) =
              locked_add_element-there entry element w1 there in
            rw refused (
              remove-cons_self entry.mutex w.held,
              inr (
                  inr (
                    has_name_found entry.elements (store element).name there,
                    refl,
                    refl,
                    unlock-lock entry.mutex (raise_duplicate_element (clear_error w)),
                  )),
            )
        | inr new ↦
            let others = has_name_lem entry.elements (store element).name new in
            let r = locked_add_element store entry element w1 in
            let (held, mutexes, outcome) = locked_add_element-new entry element w1 new in
            (
              ap (remove entry.mutex) held ∙ remove-cons_self entry.mutex w.held,
              elim outcome [
                | inr (failed, same, error, live, why) ↦
                    inr (inl (others, failed, same, error, live, why))
                | inl (block, added, grown, quiet) ↦
                    let list : r.1.elements ≡ entry.elements ++ element ∷ [] =
                      ap (λ e. e.elements) grown in
                    inl (
                      others,
                      added,
                      list,
                      rw list (AreDistinct-append entry.elements element distinct others),
                      quiet,
                    )
              ],
            )
      ]

  -- stumpless_set_element on an entry whose elements have distinct names: inside the array and
  -- with a new name, the element stands at its index, the names stay distinct and no error is
  -- left. Otherwise the entry is as it was, and the index or the duplicate is reported. The world
  -- is as it was otherwise.
  pub set_element-AreDistinct :
      (index element : ℕ) (entry : Entry) (w : World)
      → AreDistinct entry.elements
      → let (done, entry', w') = set_element store index element entry w in
        ((index < length entry.elements)
          × All (HasOtherName (store element).name) entry.elements
          × (done ≡ true)
          × (get_elem? entry'.elements index ≡ some element)
          × AreDistinct entry'.elements
          × (w' ≡ clear_error w))
        ⊎ ((index < length entry.elements)
            × HasElement entry (store element).name
            × (done ≡ false)
            × (entry' ≡ entry)
            × (w' ≡ raise_duplicate_element w))
        ⊎ ((length entry.elements ≤ index)
            × (done ≡ false)
            × (entry' ≡ entry)
            × (w' ≡ raise_index_out_of_bounds (invalid_index_error_message "element") index w))
  unfolding set_element unchecked_entry_has_element
  set_element-AreDistinct index element entry w distinct =
      elim (Bool-cases (leb (length entry.elements) index)) [
        | inl outside ↦ rw outside (
            inr (
              inr (
                ground arith,
                refl,
                refl,
                ap (raise_index_out_of_bounds (invalid_index_error_message "element") index)
                    (unlock-lock entry.mutex w),
              )))
        | inr inside ↦
            let here : index < length entry.elements = ground arith in
            elim (Bool-cases (has_name store entry.elements (store element).name)) [
              | inl there ↦
                  rw (inside, there)
                    (inr (
                      inl (
                        here,
                        has_name_found entry.elements (store element).name there,
                        refl,
                        refl,
                        ap raise_duplicate_element (unlock-lock entry.mutex w),
                      )))
              | inr new ↦
                  let others = has_name_lem entry.elements (store element).name new in
                  rw (inside, new)
                    (inl (
                      here,
                      others,
                      refl,
                      get_elem?-set_self entry.elements index element here,
                      AreDistinct-set entry.elements index element distinct others,
                      ap clear_error (unlock-lock entry.mutex w),
                    ))
            ]
      ]
