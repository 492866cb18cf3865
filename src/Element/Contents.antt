-- ===== src/Element/Contents.antt =====
-- src/element.c: elements with the params that they hold. `params` tells what the params at their
-- blocks hold; where a function makes or destroys the params of an element, they stand beside it.
pub mod Destroy
pub mod Copy
use stumpless.Base.{
  ℕ, [], ◌∷◌, List, map, Bytes, Bool, true, false, Option, none, some, length, take, if◌then◌else◌,
}
use stumpless.Error.{null_arg_error_message}
use stumpless.World.{World, free_mem, alloc_array, clear_error, raise_argument_empty}
use stumpless.Validate.{validate_element_name}
use stumpless.Param.{Param, stumpless_copy_param, stumpless_destroy_param, stumpless_unload_param}
use stumpless.Element.{
  Element, param_count, lock_element, unlock_element, stumpless_new_element, unchecked_load_element,
  unchecked_unload_element, unchecked_destroy_element,
}

-- The loops of `stumpless_destroy_element_and_contents` and its sister.
pub destroy_params : List Param → World → World
destroy_params [] w = w
destroy_params (p ∷ ps) w = destroy_params ps (stumpless_destroy_param (some p) w)

unfoldable pub unload_params : List Param → World → World
unload_params [] w = w
unload_params (p ∷ ps) w = unload_params ps (stumpless_unload_param (some p) w)

pub stumpless_destroy_element_and_contents : Option (Element × List Param) → World → World
stumpless_destroy_element_and_contents none w = w
stumpless_destroy_element_and_contents (some (e, ps)) w =
    unchecked_destroy_element e (destroy_params ps w)

unfoldable pub stumpless_unload_element_and_contents : Option (Element × List Param) → World → World
stumpless_unload_element_and_contents none w = w
stumpless_unload_element_and_contents (some (e, ps)) w =
    unchecked_unload_element e (unload_params ps w)

unfoldable pub stumpless_unload_element_only : Option Element → World → World
stumpless_unload_element_only none w = w
stumpless_unload_element_only (some e) w = unchecked_unload_element e w

-- `behind` is what stands behind a name without a NUL. The loop of `stumpless_copy_element`: whether it reached its end, and the copies.
pub copy_params : ℕ → (ℕ → Bytes) → (ℕ → Param) → List ℕ → World → Bool × List Param × World
copy_params sizeof_param behind params [] w = (true, [], w)
copy_params sizeof_param behind params (p ∷ ps) w =
    let (param_copy, w1) = stumpless_copy_param sizeof_param (behind p) (some (params p)) w in
    let (done, copies, w2) = copy_params sizeof_param behind params ps w1 in
    elim param_copy [ none ↦ (false, [], w1) | some q ↦ (done, q ∷ copies, w2) ]

-- The part of `stumpless_copy_element` from the array on.
pub copy_contents :
    ℕ → (ℕ → Bytes) → (ℕ → Param) → List ℕ → Element → World → Option (Element × List Param) × World
copy_contents sizeof_param behind params blocks copy w =
    let (array, w1) = alloc_array (length blocks) 8 w in
    let (done, copies, w2) = copy_params sizeof_param behind params blocks w1 in
    elim array [
      | none ↦ (none, stumpless_destroy_element_and_contents (some (copy, [])) w1)
      | some block ↦
          let filled : Element = record copy {
            params_block = some block;
            params = map (λ q. q.block) copies;
          } in
          if done
          then (some (filled, copies), w2)
          else (none, stumpless_destroy_element_and_contents (some (filled, copies)) w2)
    ]

-- On an element that is not NULL, which the function does not test.
pub stumpless_copy_element :
    ℕ → ℕ → (ℕ → Bytes) → (ℕ → Param) → Element → World → Option (Element × List Param) × World
stumpless_copy_element sizeof_element sizeof_param behind params element w =
    let (copy, w1) =
      stumpless_new_element sizeof_element (some element.name) (lock_element element w) in
    elim copy [
      | none ↦ (none, unlock_element element w1)
      | some c ↦
          let (result, w2) = copy_contents sizeof_param behind params element.params c w1 in
          (result, unlock_element element w2)
    ]

-- The struct at a block that the caller lends.
unfoldable pub stumpless_load_element : Option ℕ → Option Bytes → World → Option Element × World
stumpless_load_element none name w =
    (none, raise_argument_empty (null_arg_error_message "element") w)
stumpless_load_element (some block) none w =
    (none, raise_argument_empty (null_arg_error_message "name") w)
stumpless_load_element (some block) (some name) w =
    let (valid, name_length, w1) = validate_element_name name w in
    if valid then unchecked_load_element block name name_length (clear_error w1) else (none, w1)

-- Whether the element is returned, the element afterwards and the world.
unfoldable pub stumpless_set_element_name :
    Option Element → Option Bytes → World → Bool × Option Element × World
stumpless_set_element_name none name w =
    (false, none, raise_argument_empty (null_arg_error_message "element") w)
stumpless_set_element_name (some element) none w =
    (false, some element, raise_argument_empty (null_arg_error_message "name") w)
stumpless_set_element_name (some element) (some name) w =
    let (valid, name_length, w1) = validate_element_name name w in
    if valid
    then (
      true,
      some (record element { name = take name_length name; name_length = name_length }),
      clear_error (unlock_element element (lock_element element w1)),
    )
    else (false, some element, w1)
