-- ===== src/Element/Values.antt =====
-- src/element.c: the names and the values of params through their element. `params` tells what the
-- params hold, and a function that changes one gives it back changed.
pub mod Setting
use stumpless.Base.{
  ℕ, ◌+◌, [], ◌∷◌, List, Bytes, is_same, Bool, true, false, Option, none, some, get_elem?, leb,
  ◌==◌, if◌then◌else◌,
}
use stumpless.Error.{literal, null_arg_error_message}
use stumpless.World.{World, clear_error, raise_argument_empty, raise_index_out_of_bounds}
use stumpless.Validate.{validate_param_name}
use stumpless.Param.{
  Param, lock_param, unlock_param, stumpless_get_param_name, stumpless_get_param_value,
  stumpless_set_param_value, stumpless_new_param, stumpless_destroy_param,
}
use stumpless.Element.{
  Element, param_count, lock_element, unlock_element, stumpless_get_param_by_index,
  stumpless_add_param,
}
use stumpless.Element.Lookup.{c_name, stumpless_get_param_by_name}

-- What the params hold, with another one in place of one.
abbrev pub updated : (ℕ → Param) → ℕ → Param → ℕ → Param
updated params p param q = if q == p then param else params q

-- Behind the lookup, whose result it takes apart.
abbrev pub if_found :
    (Option Param → World → Option (ℕ × Bytes) × World)
    → (ℕ → Param)
    → Option ℕ × World
    → Option (ℕ × Bytes) × World
if_found get params (none, w) = (none, w)
if_found get params (some p, w) = get (some (params p)) w

unfoldable pub stumpless_get_param_name_by_index :
    (ℕ → Param) → Option Element → ℕ → World → Option (ℕ × Bytes) × World
stumpless_get_param_name_by_index params element index w =
    if_found stumpless_get_param_name params (stumpless_get_param_by_index element index w)

pub stumpless_get_param_value_by_index :
    (ℕ → Param) → Option Element → ℕ → World → Option (ℕ × Bytes) × World
stumpless_get_param_value_by_index params element index w =
    if_found stumpless_get_param_value params (stumpless_get_param_by_index element index w)

-- `behind` is what stands in the memory behind a name without a NUL.
unfoldable pub stumpless_get_param_value_by_name :
    (ℕ → Param) → (ℕ → Bytes) → Option Element → Option Bytes → World → Option (ℕ × Bytes) × World
stumpless_get_param_value_by_name params behind element none w =
    if_found stumpless_get_param_value params
      (stumpless_get_param_by_name params behind element none w)
stumpless_get_param_value_by_name params behind element (some name) w =
    let (valid, name_length, w1) = validate_param_name name w in
    if valid
    then if_found stumpless_get_param_value params
        (stumpless_get_param_by_name params behind element (some name) w1)
    else (none, w1)

-- The loop over the params that counts those with the name.
unfoldable pub count_params : (ℕ → Param) → (ℕ → Bytes) → Bytes → List ℕ → World → ℕ × World
count_params params behind name [] w = (0, w)
count_params params behind name (p ∷ ps) w =
    let (count, w1) =
      count_params params behind name ps (unlock_param (params p) (lock_param (params p) w)) in
    (if is_same (c_name params behind p) name then count + 1 else count, w1)

unfoldable pub stumpless_get_param_name_count :
    (ℕ → Param) → (ℕ → Bytes) → Option Element → Option Bytes → World → ℕ × World
stumpless_get_param_name_count params behind none name w =
    (0, raise_argument_empty (null_arg_error_message "element") w)
stumpless_get_param_name_count params behind (some element) none w =
    (0, raise_argument_empty (null_arg_error_message "name") w)
stumpless_get_param_name_count params behind (some element) (some name) w =
    let (valid, name_length, w1) = validate_param_name name w in
    let (count, w2) = count_params params behind name element.params (lock_element element w1) in
    if valid then (count, clear_error (unlock_element element w2)) else (0, w1)

pub locked_get_param_by_index : Element → ℕ → World → Option ℕ × World
locked_get_param_by_index element index w =
    if leb (param_count element) index
    then (none, raise_index_out_of_bounds (literal "invalid param index") index w)
    else (get_elem? element.params index, w)

-- The param that was given a value, in what the params hold.
abbrev pub set_value_of : (ℕ → Param) → Option Bytes → Option ℕ × World → Bool × (ℕ → Param) × World
set_value_of params value (none, w) = (false, params, w)
set_value_of params value (some p, w) =
    let (done, param, w1) = stumpless_set_param_value (some (params p)) value w in
    (done, elim param [ none ↦ params | some q ↦ updated params p q ], w1)

-- Whether the element is returned, what the params hold afterwards, and the world.
pub stumpless_set_param_value_by_index :
    (ℕ → Param) → Option Element → ℕ → Option Bytes → World → Bool × (ℕ → Param) × World
stumpless_set_param_value_by_index params none index value w =
    (false, params, raise_argument_empty (literal "element is NULL") w)
stumpless_set_param_value_by_index params (some element) index value w =
    let (done, params', w1) =
      set_value_of params value
        (locked_get_param_by_index element index (lock_element element w)) in
    (done, params', unlock_element element w1)

-- The element beside what the params hold, since a param may be added to it.
unfoldable pub stumpless_add_new_param :
    ℕ
    → (ℕ → Param)
    → Option Element
    → Option Bytes
    → Option Bytes
    → World
    → Bool × Option Element × (ℕ → Param) × World
stumpless_add_new_param sizeof_param params element name value w =
    let (new_param, w1) = stumpless_new_param sizeof_param name value w in
    elim new_param [
      | none ↦ (false, element, params, w1)
      | some p ↦
          let (done, element', w2) = stumpless_add_param element (some p.block) w1 in
          if done
          then (true, element', updated params p.block p, w2)
          else (false, element', params, stumpless_destroy_param (some p) w2)
    ]

unfoldable pub stumpless_set_param_value_by_name :
    ℕ
    → (ℕ → Param)
    → (ℕ → Bytes)
    → Option Element
    → Option Bytes
    → Option Bytes
    → World
    → Bool × Option Element × (ℕ → Param) × World
stumpless_set_param_value_by_name sizeof_param params behind none name value w =
    (false, none, params, raise_argument_empty (null_arg_error_message "element") w)
stumpless_set_param_value_by_name sizeof_param params behind (some element) none value w =
    (false, some element, params, raise_argument_empty (null_arg_error_message "name") w)
stumpless_set_param_value_by_name sizeof_param params behind (some element) (some name) value w =
    let (param, w1) = stumpless_get_param_by_name params behind (some element) (some name) w in
    elim param [
      | none ↦ stumpless_add_new_param sizeof_param params (some element) (some name) value w1
      | some p ↦
          let (done, params', w2) = set_value_of params value (some p, w1) in
          (done, some element, params', w2)
    ]
