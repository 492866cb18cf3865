-- ===== src/Element.antt =====
-- src/element.c: elements, a name and an array of params. The array holds the blocks of the params;
-- what the params hold is the `store`, which may change between two calls.
pub mod Lookup
pub mod Array
pub mod Life
pub mod Contents
pub mod Text
pub mod Values
use stumpless.Base.{
  ℕ, ◌+◌, [], ◌∷◌, ◌++◌, List, Bytes, Bool, true, false, Option, none, some, length, take, set,
  get_elem?, leb, if◌then◌else◌,
}
use stumpless.Error.{null_arg_error_message, invalid_index_error_message}
use stumpless.World.{
  World, alloc_mem, free_mem, realloc_array, assign_cached_mutex, destroy_cached_mutex, lock_mutex,
  unlock_mutex, clear_error, raise_argument_empty, raise_index_out_of_bounds,
}
use stumpless.Validate.{validate_element_name}

-- `struct stumpless_element`. `params_block` is the block of the array.
pub record Element : Type 0 where
  pub block : ℕ
  pub name : Bytes
  pub name_length : ℕ
  pub params_block : Option ℕ
  pub params : List ℕ
  pub mutex : ℕ

pub param_count : Element → ℕ
param_count element = length element.params

abbrev pub lock_element : Element → World → World
lock_element element w = lock_mutex element.mutex w

abbrev pub unlock_element : Element → World → World
unlock_element element w = unlock_mutex element.mutex w

pub unchecked_load_element : ℕ → Bytes → ℕ → World → Option Element × World
unchecked_load_element block name name_length w =
    let (assigned, w') = assign_cached_mutex w in
    elim assigned [
      | none ↦ (none, w')
      | some mutex ↦ (
        some (record {
          block = block;
          name = take name_length name;
          name_length = name_length;
          params_block = none;
          params = [];
          mutex = mutex;
        }),
        w',
      )
    ]

-- The part of `stumpless_new_element` behind the check of the name.
pub load_new_element : ℕ → Bytes → ℕ → World → Option Element × World
load_new_element sizeof_element name name_length w =
    let (element, w1) = alloc_mem sizeof_element w in
    elim element [
      | none ↦ (none, w1)
      | some block ↦
          let (result, w2) = unchecked_load_element block name name_length (clear_error w1) in
          elim result [ none ↦ (none, free_mem block w2) | some e ↦ (some e, w2) ]
    ]

pub stumpless_new_element : ℕ → Option Bytes → World → Option Element × World
stumpless_new_element sizeof_element none w =
    (none, raise_argument_empty (null_arg_error_message "name") w)
stumpless_new_element sizeof_element (some name) w =
    let (valid, name_length, w1) = validate_element_name name w in
    let loaded = load_new_element sizeof_element name name_length w1 in
    if valid then loaded else (none, w1)

pub unchecked_unload_element : Element → World → World
unchecked_unload_element element w =
    let w' = destroy_cached_mutex element.mutex w in
    elim element.params_block [ none ↦ w' | some block ↦ free_mem block w' ]

pub unchecked_destroy_element : Element → World → World
unchecked_destroy_element element w = free_mem element.block (unchecked_unload_element element w)

pub stumpless_destroy_element_only : Option Element → World → World
stumpless_destroy_element_only none w = w
stumpless_destroy_element_only (some element) w = unchecked_destroy_element element w

-- Whether the element is returned, the element afterwards, and the world. A pointer has 8 bytes.
pub stumpless_add_param : Option Element → Option ℕ → World → Bool × Option Element × World
stumpless_add_param none param w =
    (false, none, raise_argument_empty (null_arg_error_message "element") w)
stumpless_add_param (some element) none w =
    (false, some element, raise_argument_empty (null_arg_error_message "param") w)
stumpless_add_param (some element) (some param) w =
    let (new_params, w1) =
      realloc_array element.params_block (param_count element + 1) 8 (lock_element element w) in
    elim new_params [
      | none ↦ (false, some element, unlock_element element w1)
      | some block ↦ (
        true,
        some (record element { params_block = some block; params = element.params ++ param ∷ [] }),
        clear_error (unlock_element element w1),
      )
    ]

pub stumpless_set_param : Option Element → ℕ → Option ℕ → World → Bool × Option Element × World
stumpless_set_param none index param w =
    (false, none, raise_argument_empty (null_arg_error_message "element") w)
stumpless_set_param (some element) index none w =
    (false, some element, raise_argument_empty (null_arg_error_message "param") w)
stumpless_set_param (some element) index (some param) w =
    let w1 = lock_element element w in
    if leb (param_count element) index
    then (
      false,
      some element,
      raise_index_out_of_bounds (invalid_index_error_message "param") index
          (unlock_element element w1),
    )
    else (
      true,
      some (record element { params = set element.params index param }),
      clear_error (unlock_element element w1),
    )

pub stumpless_get_param_by_index : Option Element → ℕ → World → Option ℕ × World
stumpless_get_param_by_index none index w =
    (none, raise_argument_empty (null_arg_error_message "element") w)
stumpless_get_param_by_index (some element) index w =
    if leb (param_count element) index
    then (none, raise_index_out_of_bounds (invalid_index_error_message "param") index w)
    else (
      get_elem? element.params index,
      unlock_element element (lock_element element (clear_error w)),
    )

pub stumpless_get_param_count : Option Element → World → ℕ × World
stumpless_get_param_count none w = (0, raise_argument_empty (null_arg_error_message "element") w)
stumpless_get_param_count (some element) w =
    (param_count element, clear_error (unlock_element element (lock_element element w)))
