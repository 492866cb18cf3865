-- ===== src/Tests/Element.antt =====
-- Elements of src/element.c with concrete params.
use stumpless.Base.{
  ℕ, ◌≤◌, ◌+◌, ◌≡◌, ◌≢◌, refl, [], ◌∷◌, ◌++◌, true, false, none, some, ◌⊎◌, All, Bytes, codes,
  length, get_elem?, arith,
}
use stumpless.Base.Search.{IsFirst}
use stumpless.World.{clear_error, raise_param_not_found}
use stumpless.Validate.Utf8.Accepted.{no_error}
use stumpless.Param.{Param}
use stumpless.Element.{Element}
use stumpless.World.Balance.{occurrences, IsBalanced, IsExhausted}
use stumpless.Validate.Utf8.WellFormed.{cut, WellFormed}
use stumpless.Element.Contents.{stumpless_copy_element, stumpless_destroy_element_and_contents}
use stumpless.Element.Contents.Copy.{
  Copied, IsCopyable, stumpless_copy_element-Copied, destroy_element_and_contents-copy_element,
}
use stumpless.Element.Text.{
  format_length, stumpless_element_to_string, element_text, mutexes_of, element_to_string-HandsOut,
}
use stumpless.World.{World}
use stumpless.Element.Values.{
  stumpless_set_param_value_by_index, stumpless_get_param_value_by_index,
}
use stumpless.Element.Values.Setting.{set_param_value_by_index-get}
use stumpless.Param.Copy.{HandsOut}
use stumpless.Element.Lookup.{
  c_name, stumpless_element_has_param, stumpless_get_param_by_name, stumpless_get_param_index,
  lookups-IsFirst,
}

-- Every param is called "id".
abbrev pub store : ℕ → Param
store param = record {
  block = param;
  name = codes "id";
  name_length = 2;
  terminated = true;
  value_block = param + 1;
  value = [];
  value_length = 0;
  mutex = param;
}

abbrev behind : ℕ → Bytes
behind param = []

abbrev element : Element
element = record {
  block = 0;
  name = codes "origin";
  name_length = 6;
  params_block = some 1;
  params = 2 ∷ 4 ∷ [];
  mutex = 9;
}

lookups-IsFirst_example :
    (All (λ q. c_name store behind q ≢ codes "id") element.params
      × (stumpless_element_has_param store behind (some element) (some (codes "id")) no_error
          ≡ (false, clear_error no_error))
      × (stumpless_get_param_by_name store behind (some element) (some (codes "id")) no_error
          ≡ (none, raise_param_not_found (clear_error no_error)))
      × (stumpless_get_param_index store behind (some element) (some (codes "id")) no_error
          ≡ (0, raise_param_not_found (clear_error no_error))))
    ⊎ ((i : ℕ) × (param : ℕ) × IsFirst
          (λ q. c_name store behind q ≡ (codes "id"))
          element.params
          i
          param
        × (stumpless_element_has_param store behind (some element) (some (codes "id")) no_error
            ≡ (true, clear_error no_error))
        × (stumpless_get_param_by_name store behind (some element) (some (codes "id")) no_error
            ≡ (some param, clear_error no_error))
        × (stumpless_get_param_index store behind (some element) (some (codes "id")) no_error
            ≡ (i, clear_error no_error)))
lookups-IsFirst_example =
    lookups-IsFirst store behind element (codes "id") no_error (ground arith) (omega arith)

params-IsCopyable : All (λ p. IsCopyable (store p)) element.params
params-IsCopyable = (
  (refl, tt, ground arith, omega arith, cut tt),
  ((refl, tt, ground arith, omega arith, cut tt), tt),
)

stumpless_copy_element-Copied_example :
    Copied
      (codes "origin")
      ((codes "id", []) ∷ (codes "id", []) ∷ [])
      no_error
      (stumpless_copy_element 64 72 behind store element no_error)
stumpless_copy_element-Copied_example =
    stumpless_copy_element-Copied 64 72 behind store element no_error (ground arith) (omega arith)
      params-IsCopyable

destroy_element_and_contents-copy_element_example :
    let (copy, w1) = stumpless_copy_element 64 72 behind store element no_error in
    IsBalanced no_error (stumpless_destroy_element_and_contents copy w1)
destroy_element_and_contents-copy_element_example =
    destroy_element_and_contents-copy_element 64 72 behind store element no_error (ground arith)
      (omega arith) params-IsCopyable

element_to_string-HandsOut_example :
    let (result, w') = stumpless_element_to_string store (some element) no_error in
    (format_length store element ≡ length (element_text store element) + 1)
    × (w'.mutexes ≡ no_error.mutexes)
    × (w'.malloc ≡ no_error.malloc)
    × (((block : ℕ) × (result ≡ some (block, element_text store element ++ 0 ∷ []))
          × (w'.live ≡ block ∷ no_error.live)
          × (w'.error_valid ≡ false)
          × ((m : ℕ) → occurrences m w'.held ≡ occurrences m no_error.held))
        ⊎ ((result ≡ none)
            × (w'.live ≡ no_error.live)
            × IsExhausted w'
            × ((n : ℕ) × (size : ℕ) × (no_error.malloc n size ≡ false))
            × ((m : ℕ)
                → occurrences m w'.held
                  ≡ occurrences m (mutexes_of store (2 ∷ 4 ∷ [])) + occurrences m no_error.held)))
element_to_string-HandsOut_example = element_to_string-HandsOut store element no_error refl (
  (record { name_counted = refl; value_counted = refl }),
  ((record { name_counted = refl; value_counted = refl }), tt),
)

-- The blocks of the params were given out before.
abbrev later : World
later = record no_error { calls = 10 }

set_param_value_by_index-get_example :
    let (done, params', w') =
      stumpless_set_param_value_by_index store (some element) 1 (some (codes "10")) later in
    (w'.held ≡ later.held)
    × (((p : ℕ) × (get_elem? element.params 1 ≡ some p)
          × WellFormed (codes "10")
          × (done ≡ true)
          × ((params' p).name ≡ (store p).name)
          × ((params' p).value ≡ codes "10")
          × ((q : ℕ) → q ≢ p → params' q ≡ store q)
          × HandsOut
              (codes "10")
              w'
              (stumpless_get_param_value_by_index params' (some element) 1 w'))
        ⊎ (((2 ≤ 1) ⊎ (¬ WellFormed (codes "10")) ⊎ (later.malloc 10 3 ≡ false))
            × (done ≡ false)
            × ((q : ℕ) → params' q ≡ store q)
            × (w'.live ≡ later.live)
            × (w'.error_valid ≡ true)))
set_param_value_by_index-get_example =
    set_param_value_by_index-get store element 1 (codes "10") later (omega arith, (omega arith, tt))
      (
        (omega arith, record { name_counted = refl; value_counted = refl }),
        ((omega arith, record { name_counted = refl; value_counted = refl }), tt),
      )
