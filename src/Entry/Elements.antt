-- ===== src/Entry/Elements.antt =====
-- The elements of an entry (src/entry.c), with what the elements hold as an argument.
pub mod Distinct
pub mod Lookup
use stumpless.Base.{
  ℕ, zero, suc, ◌+◌, ◌*◌, ◌%◌, ◌^◌, [], ◌∷◌, ◌++◌, List, Bytes, is_same, Bool, true, false, Option,
  none, some, length, get_elem?, set, leb, ◌==◌, ◌&&◌, if◌then◌else◌,
}
use stumpless.Error.{null_arg_error_message, invalid_index_error_message}
use stumpless.World.{
  World, realloc_pointer, clear_error, raise_argument_empty, raise_index_out_of_bounds,
  raise_duplicate_element, raise_element_not_found,
}
use stumpless.Validate.{validate_element_name}
use stumpless.Element.{Element, lock_element, unlock_element}
use stumpless.Entry.{Entry, lock_entry, unlock_entry, on_entry}

-- `memcmp( s, t, strlen( t ) ) == 0`, where `s` ends in a NUL and `t` holds none.
abbrev pub starts_with : Bytes → Bytes → Bool
starts_with s [] = true
starts_with [] (d ∷ t) = false
starts_with (c ∷ s) (d ∷ t) = c == d && starts_with s t

module _ (store : ℕ → Element) where
  pub has_name : List ℕ → Bytes → Bool
  has_name [] name = false
  has_name (e ∷ es) name = if is_same (store e).name name then true else has_name es name

  pub unchecked_entry_has_element : Entry → Bytes → Bool
  unchecked_entry_has_element entry name = has_name entry.elements name

  pub locked_add_element : Entry → ℕ → World → Bool × Entry × World
  locked_add_element entry element w =
      let new_elements_size = (8 * length entry.elements + 8) % 2 ^ 64 in
      let (new_elements, w1) = realloc_pointer entry.elements_block new_elements_size w in
      let added : Bool × Entry × World = elim new_elements [
        | none ↦ (false, entry, w1)
        | some block ↦ (
          true,
          record entry { elements_block = some block; elements = entry.elements ++ element ∷ [] },
          w1,
        )
      ] in
      if unchecked_entry_has_element entry (store element).name
      then (false, entry, raise_duplicate_element w)
      else added

  -- Behind the tests for NULL.
  pub add_element : ℕ → Entry → World → Bool × Entry × World
  add_element element entry w =
      let (done, entry', w1) =
        locked_add_element entry element (lock_entry entry (clear_error w)) in
      (done, entry', unlock_entry entry w1)

  pub set_element : ℕ → ℕ → Entry → World → Bool × Entry × World
  set_element index element entry w =
      let w1 = lock_entry entry w in
      if leb (length entry.elements) index
      then (
        false,
        entry,
        unlock_entry entry
            (raise_index_out_of_bounds (invalid_index_error_message "element") index w1),
      )
      else if unchecked_entry_has_element entry (store element).name
      then (false, entry, unlock_entry entry (raise_duplicate_element w1))
      else (
        true,
        record entry { elements = set entry.elements index element },
        unlock_entry entry (clear_error w1),
      )

  -- The first element with the name: its index and its block.
  pub find_element : Bytes → ℕ → List ℕ → World → Option (ℕ × ℕ) × World
  find_element name i [] w = (none, w)
  find_element name i (e ∷ es) w =
      let w1 = unlock_element (store e) (lock_element (store e) w) in
      let rest = find_element name (i + 1) es w1 in
      if is_same (store e).name name then (some (i, e), w1) else rest

  abbrev finish_by_name : Option (ℕ × ℕ) × World → Option ℕ × World
  finish_by_name (none, w) = (none, raise_element_not_found w)
  finish_by_name (some hit, w) = (some hit.1, w)

  pub locked_get_element_by_name : Entry → Bytes → World → Option ℕ × World
  locked_get_element_by_name entry name w = finish_by_name (find_element name 0 entry.elements w)

  -- The functions on an entry and a name that are not NULL.
  pub get_element_by_name : Entry → Bytes → World → Option ℕ × World
  get_element_by_name entry name w =
      let (valid, name_len, w1) = validate_element_name name w in
      let (result, w2) =
        locked_get_element_by_name entry name (lock_entry entry (clear_error w1)) in
      if valid then (result, unlock_entry entry w2) else (none, w1)

  pub entry_has_element : Entry → Bytes → World → Bool × World
  entry_has_element entry name w =
      let (valid, name_len, w1) = validate_element_name name w in
      if valid
      then (
        unchecked_entry_has_element entry name,
        clear_error (unlock_entry entry (lock_entry entry w1)),
      )
      else (false, w1)

  -- The loop of `stumpless_get_element_index`.
  pub find_index : Bytes → ℕ → List ℕ → World → Option ℕ × World
  find_index name i [] w = (none, w)
  find_index name i (e ∷ es) w =
      let w1 = unlock_element (store e) (lock_element (store e) w) in
      let rest = find_index name (i + 1) es w1 in
      if starts_with (store e).name name then (some i, w1) else rest

  abbrev finish_index : Entry → Option ℕ × World → ℕ × World
  finish_index entry (none, w) = (0, unlock_entry entry (raise_element_not_found w))
  finish_index entry (some i, w) = (i, unlock_entry entry (clear_error w))

  pub get_element_index : Entry → Bytes → World → ℕ × World
  get_element_index entry name w =
      let (valid, name_len, w1) = validate_element_name name w in
      let found = find_index name 0 entry.elements (lock_entry entry w1) in
      if valid then finish_index entry found else (0, w1)

pub locked_get_element_by_index : Entry → ℕ → World → Option ℕ × World
locked_get_element_by_index entry index w =
    if leb (length entry.elements) index
    then (none, raise_index_out_of_bounds (invalid_index_error_message "element") index w)
    else (get_elem? entry.elements index, w)

pub get_element_by_index : Entry → ℕ → World → Option ℕ × World
get_element_by_index entry index w =
    let (result, w1) = locked_get_element_by_index entry index (lock_entry entry (clear_error w)) in
    if leb (length entry.elements) index
    then (none, raise_index_out_of_bounds (invalid_index_error_message "element") index w)
    else (result, unlock_entry entry w1)
