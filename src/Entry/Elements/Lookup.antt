-- ===== src/Entry/Elements/Lookup.antt =====
-- The elements of an entry by their name and by their index (src/entry.c).
use stumpless.Base.{
  ℕ, ◌+◌, ◌<◌, ◌≤◌, ◌≡◌, ◌≢◌, refl, ap, ap₂, ◌∙◌, [], ◌∷◌, ◌++◌, List, Bytes, is_same, Bool, true,
  false, ◌⊎◌, inl, inr, none, some, length, All, get_elem?, leb, Bool-cases, arith,
}
use stumpless.Base.Search.{IsFirst, search_from, search_from-cases, search_name-cases}
use stumpless.Error.{invalid_index_error_message}
use stumpless.World.{
  World, clear_error, raise_index_out_of_bounds, raise_element_not_found, unlock-lock,
}
use stumpless.Validate.Names.{IsNameChar, validate_identifiers}
use stumpless.Element.{Element, lock_element, unlock_element}
use stumpless.Entry.{Entry, lock_entry}
use stumpless.Entry.Elements.{
  has_name, unchecked_entry_has_element, find_element, locked_get_element_by_name,
  get_element_by_name, entry_has_element, starts_with, find_index, get_element_index,
  locked_get_element_by_index, get_element_by_index,
}

module _ (store : ℕ → Element) where
  abbrev bears : Bytes → ℕ → Bool
  bears name e = is_same (store e).name name

  find_element-search_from :
      (name : Bytes) (i : ℕ) (es : List ℕ) (w : World)
      → find_element store name i es w ≡ (search_from (bears name) i es, w)
  unfolding find_element search_from
  find_element-search_from name i [] w = refl
  find_element-search_from name i (e ∷ es) w =
      let back = unlock-lock (store e).mutex w in
      elim (Bool-cases (bears name e)) [
        | inl same ↦ rw same (ap (λ v. (some (i, e), v)) back)
        | inr other ↦ rw other (
            find_element-search_from name (i + 1) es
              (unlock_element (store e) (lock_element (store e) w))
            ∙ ap (λ v. (search_from (bears name) (i + 1) es, v)) back)
      ]

  has_name-search_from :
      (name : Bytes) (i : ℕ) (es : List ℕ)
      → has_name store es name
        ≡ elim (search_from (bears name) i es) [ none ↦ false | some hit ↦ true ]
  unfolding has_name search_from
  has_name-search_from name i [] = refl
  has_name-search_from name i (e ∷ es) = elim (Bool-cases (bears name e)) [
    | inl same ↦ rw same refl
    | inr other ↦ rw other (has_name-search_from name (i + 1) es)
  ]

  -- For a name of at most 32 bytes, none of which is refused in a name,
  -- stumpless_entry_has_element and stumpless_get_element_by_name agree. If no element of the
  -- entry has the name, the answers are false and NULL; the latter reports
  -- STUMPLESS_ELEMENT_NOT_FOUND, and stumpless_entry_has_element leaves no error, against its
  -- documentation. Otherwise they are true and the first element that has it, and no error is
  -- left. Every mutex that was taken is given back.
  pub get_element_by_name-IsFirst :
      (entry : Entry) (name : Bytes) (w : World)
      → All IsNameChar name
      → length name ≤ 32
      → (All (λ q. (store q).name ≢ name) entry.elements
          × (entry_has_element store entry name w ≡ (false, clear_error w))
          × (get_element_by_name store entry name w
              ≡ (none, raise_element_not_found (clear_error w))))
        ⊎ ((i : ℕ) × (element : ℕ) × IsFirst (λ q. (store q).name ≡ name) entry.elements i element
            × (entry_has_element store entry name w ≡ (true, clear_error w))
            × (get_element_by_name store entry name w ≡ (some element, clear_error w)))
  unfolding entry_has_element get_element_by_name locked_get_element_by_name
      unchecked_entry_has_element
  get_element_by_name-IsFirst entry name w chars short =
      let back = unlock-lock entry.mutex (clear_error w) in
      let there = has_name-search_from name 0 entry.elements in
      let found =
        find_element-search_from name 0 entry.elements (lock_entry entry (clear_error w)) in
      elim ((validate_identifiers name w).0) [
        | inr (inl (long, _)) ↦ absurd (omega arith)
        | inr (inr (_, bad, _)) ↦ absurd (bad chars)
        | inl (_, _, valid) ↦ elim (search_name-cases (λ e. (store e).name) name 0 entry.elements) [
          | inl (missed, others) ↦
              rw (valid, found, there, missed)
                (inl (
                  others,
                  ap (λ v. (false, v)) back,
                  ap (λ v. (none, raise_element_not_found v)) back,
                ))
          | inr (i, element, hit, first) ↦
              rw (valid, found, there, hit)
                (inr
                  (i, element, first, ap (λ v. (true, v)) back, ap (λ v. (some element, v)) back))
        ]
      ]

  starts_with_complete : (s t : Bytes) → starts_with (s ++ t) s ≡ true
  starts_with_complete [] t = refl
  starts_with_complete (c ∷ s) t = ground (arith, starts_with_complete s t)

  starts_with_sound : (s t : Bytes) → starts_with s t ≡ true → (rest : Bytes) × (s ≡ t ++ rest)
  starts_with_sound s [] h = (s, refl)
  starts_with_sound [] (d ∷ t) h = absurd (ground arith)
  starts_with_sound (c ∷ s) (d ∷ t) h =
      let (rest, e) = starts_with_sound s t (ground arith) in
      (rest, ap₂ (λ x xs. x ∷ xs) (ground arith) e)

  abbrev pub BeginsWith : Bytes → ℕ → Type 0
  BeginsWith name q = (rest : Bytes) × ((store q).name ≡ name ++ rest)

  abbrev begins : Bytes → ℕ → Bool
  begins name e = starts_with (store e).name name

  find_index-search_from :
      (name : Bytes) (i : ℕ) (es : List ℕ) (w : World)
      → find_index store name i es w
        ≡ (elim (search_from (begins name) i es) [ none ↦ none | some hit ↦ some hit.0 ], w)
  unfolding find_index search_from
  find_index-search_from name i [] w = refl
  find_index-search_from name i (e ∷ es) w =
      let back = unlock-lock (store e).mutex w in
      elim (Bool-cases (begins name e)) [
        | inl same ↦ rw same (ap (λ v. (some i, v)) back)
        | inr other ↦ rw other (
            find_index-search_from name (i + 1) es
              (unlock_element (store e) (lock_element (store e) w))
            ∙ ap
                (λ v. (
                  elim (search_from (begins name) (i + 1) es) [
                    | none ↦ none
                    | some hit ↦ some hit.0
                  ],
                  v,
                ))
                back)
      ]

  -- For a name that is an identifier of at most 32 bytes stumpless_get_element_index gives the
  -- index of the first element whose name begins with it, be it longer or not, and leaves no
  -- error; if there is none, it gives 0 and reports STUMPLESS_ELEMENT_NOT_FOUND. Every mutex that
  -- was taken is given back.
  pub get_element_index-IsFirst :
      (entry : Entry) (name : Bytes) (w : World)
      → All IsNameChar name
      → length name ≤ 32
      → (All (λ q. ¬ BeginsWith name q) entry.elements
          × (get_element_index store entry name w ≡ (0, raise_element_not_found w)))
        ⊎ ((i : ℕ) × (element : ℕ) × IsFirst (BeginsWith name) entry.elements i element
            × (get_element_index store entry name w ≡ (i, clear_error w)))
  unfolding get_element_index
  get_element_index-IsFirst entry name w chars short =
      let back = unlock-lock entry.mutex w in
      let found = find_index-search_from name 0 entry.elements (lock_entry entry w) in
      elim ((validate_identifiers name w).0) [
        | inr (inl (long, _)) ↦ absurd (omega arith)
        | inr (inr (_, bad, _)) ↦ absurd (bad chars)
        | inl (_, _, valid) ↦
            elim (search_from-cases (BeginsWith name) (begins name)
              (λ q h. starts_with_sound (store q).name name h)
              (λ q h b. cc (h, ap (λ s. starts_with s name) b.1, starts_with_complete name b.0)) 0
              entry.elements) [
                | inl (missed, others) ↦
                    rw (valid, found, missed)
                      (inl (others, ap (λ v. (0, raise_element_not_found v)) back))
                | inr (i, element, hit, first) ↦
                    rw (valid, found, hit)
                      (inr (i, element, first, ap₂ (λ k v. (k, clear_error v)) (omega arith) back))
              ]
      ]

-- stumpless_get_element_by_index inside the array gives the element at the index and leaves no
-- error; outside it gives NULL and the index is reported.
pub get_element_by_index-get_elem? :
    (entry : Entry) (index : ℕ) (w : World)
    → ((index < length entry.elements)
        × (get_element_by_index entry index w ≡ (get_elem? entry.elements index, clear_error w)))
      ⊎ ((length entry.elements ≤ index)
          × (get_element_by_index entry index w
              ≡ (none, raise_index_out_of_bounds (invalid_index_error_message "element") index w)))
unfolding get_element_by_index locked_get_element_by_index
get_element_by_index-get_elem? entry index w =
    let back = unlock-lock entry.mutex (clear_error w) in
    elim (Bool-cases (leb (length entry.elements) index)) [
      | inl outside ↦ rw outside (inr (ground arith, refl))
      | inr inside ↦
          rw inside (inl (ground arith, ap (λ v. (get_elem? entry.elements index, v)) back))
    ]
