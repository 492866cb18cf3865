-- ===== src/Param.antt =====
-- src/param.c, with `copy_cstring_with_length` of src/strhelper.c: params, a name and a value.
-- A pointer to memory that the library gave out is the number of its block beside what it holds.
pub mod Load
pub mod Change
pub mod Copy
pub mod Format
pub mod Parse
use stumpless.Base.{
  ℕ, zero, suc, ◌+◌, ◌-◌, ◌≤◌, ◌≡◌, List, [], ◌∷◌, ◌++◌, Bool, true, false, not, ◌||◌, Option, none,
  some, Bytes, length, take, get_or, ltb, leb, ◌==◌, if◌then◌else◌,
}
use stumpless.Error.{
  null_arg_error_message, string_too_long_error_message, buffer_too_small_error_message,
  buffer_size_error_code_type,
}
use stumpless.World.{
  World, alloc_mem, free_mem, assign_cached_mutex, destroy_cached_mutex, lock_mutex, unlock_mutex,
  clear_error, raise_argument_empty, raise_argument_too_big, raise_argument_too_small,
  raise_invalid_param,
}
use stumpless.Validate.{max_param_name_length, validate_param_name}
use stumpless.Validate.Utf8.{validate_param_value}

-- `struct stumpless_param` with its own block and that of `value`. `name` holds what was copied into
-- the array, and `terminated` says whether a NUL was put behind it.
pub record Param : Type 0 where
  pub block : ℕ
  pub name : Bytes
  pub name_length : ℕ
  pub terminated : Bool
  pub value_block : ℕ
  pub value : Bytes
  pub value_length : ℕ
  pub mutex : ℕ

-- A copy of a string in a new block.
unfoldable pub copy_cstring_with_length : Bytes → World → Option ℕ × ℕ × World
copy_cstring_with_length str w =
    let (new_string, w') = alloc_mem (length str + 1) w in (new_string, length str, w')

abbrev pub lock_param : Param → World → World
lock_param param w = lock_mutex param.mutex w

abbrev pub unlock_param : Param → World → World
unlock_param param w = unlock_mutex param.mutex w

-- The struct at `block`, filled in.
pub unchecked_load_param : ℕ → Bytes → ℕ → Bytes → World → Option Param × World
unchecked_load_param block name name_length value w =
    let (copy, value_length, w1) = copy_cstring_with_length value w in
    elim copy [
      | none ↦ (none, w1)
      | some value_block ↦
          let (assigned, w2) = assign_cached_mutex w1 in
          elim assigned [
            | none ↦ (none, free_mem value_block w2)
            | some mutex ↦ (
              some (record {
                block = block;
                name = take name_length name;
                name_length = name_length;
                terminated = true;
                value_block = value_block;
                value = value;
                value_length = value_length;
                mutex = mutex;
              }),
              w2,
            )
          ]
    ]

pub stumpless_load_param : Option ℕ → Option Bytes → Option Bytes → World → Option Param × World
stumpless_load_param none name value w =
    (none, raise_argument_empty (null_arg_error_message "param") w)
stumpless_load_param (some block) none value w =
    (none, raise_argument_empty (null_arg_error_message "name") w)
stumpless_load_param (some block) (some name) none w =
    (none, raise_argument_empty (null_arg_error_message "value") w)
stumpless_load_param (some block) (some name) (some value) w =
    let (valid, name_length, w1) = validate_param_name name w in
    if valid then unchecked_load_param block name name_length value (clear_error w1) else (none, w1)

-- A new struct for a name and a value that are accepted; `sizeof_param` is its size.
pub load_new_param : ℕ → Bytes → ℕ → Bytes → World → Option Param × World
load_new_param sizeof_param name name_length value w =
    let (param, w1) = alloc_mem sizeof_param w in
    elim param [
      | none ↦ (none, w1)
      | some block ↦
          let (result, w2) = unchecked_load_param block name name_length value w1 in
          elim result [ none ↦ (none, free_mem block w2) | some p ↦ (some p, w2) ]
    ]

pub stumpless_new_param : ℕ → Option Bytes → Option Bytes → World → Option Param × World
stumpless_new_param sizeof_param none value w =
    (none, raise_argument_empty (null_arg_error_message "name") w)
stumpless_new_param sizeof_param (some name) none w =
    (none, raise_argument_empty (null_arg_error_message "value") w)
stumpless_new_param sizeof_param (some name) (some value) w =
    let (name_valid, name_length, w1) = validate_param_name name w in
    let (value_valid, w2) = validate_param_value value w1 in
    let loaded = load_new_param sizeof_param name name_length value (clear_error w2) in
    if name_valid then (if value_valid then loaded else (none, w2)) else (none, w1)

-- `behind` is what stands in the memory behind a name without a NUL, up to the next one.
pub stumpless_copy_param : ℕ → Bytes → Option Param → World → Option Param × World
stumpless_copy_param sizeof_param behind none w =
    (none, raise_argument_empty (null_arg_error_message "param") w)
stumpless_copy_param sizeof_param behind (some param) w =
    let name = if param.terminated then param.name else param.name ++ behind in
    let (result, w1) =
      stumpless_new_param sizeof_param (some name) (some param.value) (lock_param param w) in
    (result, unlock_param param w1)

unfoldable pub stumpless_destroy_param : Option Param → World → World
stumpless_destroy_param none w = w
stumpless_destroy_param (some param) w =
    free_mem param.block (free_mem param.value_block (destroy_cached_mutex param.mutex w))

unfoldable pub stumpless_unload_param : Option Param → World → World
stumpless_unload_param none w = w
stumpless_unload_param (some param) w =
    free_mem param.value_block (destroy_cached_mutex param.mutex w)

-- A copy of the first `len` bytes of a string of the param, with a NUL.
abbrev copy_out : Param → Bytes → ℕ → World → Option (ℕ × Bytes) × World
copy_out param str len w =
    let (copy, w1) = alloc_mem (len + 1) (lock_param param w) in
    elim copy [
      | none ↦ (none, unlock_param param w1)
      | some block ↦ (some (block, take len str ++ 0 ∷ []), unlock_param param (clear_error w1))
    ]

pub stumpless_get_param_name : Option Param → World → Option (ℕ × Bytes) × World
stumpless_get_param_name none w = (none, raise_argument_empty (null_arg_error_message "param") w)
stumpless_get_param_name (some param) w = copy_out param param.name param.name_length w

pub stumpless_get_param_value : Option Param → World → Option (ℕ × Bytes) × World
stumpless_get_param_value none w = (none, raise_argument_empty (null_arg_error_message "param") w)
stumpless_get_param_value (some param) w = copy_out param param.value param.value_length w

-- Whether the param is returned, the param afterwards, and the world.
pub stumpless_set_param_name : Option Param → Option Bytes → World → Bool × Option Param × World
stumpless_set_param_name none name w =
    (false, none, raise_argument_empty (null_arg_error_message "param") w)
stumpless_set_param_name (some param) none w =
    (false, some param, raise_argument_empty (null_arg_error_message "name") w)
stumpless_set_param_name (some param) (some name) w =
    let (valid, new_size, w1) = validate_param_name name w in
    if valid
    then (
      true,
      some (record param { name = take new_size name; name_length = new_size; terminated = true }),
      clear_error (unlock_param param (lock_param param w1)),
    )
    else (false, some param, w1)

-- `stumpless_set_param_value` from the copy of an accepted value on.
pub replace_value : Param → Bytes → World → Bool × Option Param × World
replace_value param value w =
    let (new_value, new_size, w1) = copy_cstring_with_length value w in
    elim new_value [
      | none ↦ (false, some param, w1)
      | some value_block ↦ (
        true,
        some (record param { value_block = value_block; value = value; value_length = new_size }),
        clear_error (free_mem param.value_block (unlock_param param (lock_param param w1))),
      )
    ]

pub stumpless_set_param_value : Option Param → Option Bytes → World → Bool × Option Param × World
stumpless_set_param_value none value w =
    (false, none, raise_argument_empty (null_arg_error_message "param") w)
stumpless_set_param_value (some param) none w =
    (false, some param, raise_argument_empty (null_arg_error_message "value") w)
stumpless_set_param_value (some param) (some value) w =
    let (valid, w1) = validate_param_value value w in
    let replaced = replace_value param value w1 in
    if valid then replaced else (false, some param, w1)
