-- ===== src/World.antt =====
-- What the functions of the library share and change besides their arguments: the error of the
-- thread (src/error.c), the memory (src/memory.c) and the mutexes
-- (src/config/thread_safety_supported.c, with the macros of
-- include/private/config/wrapper/thread_safety.h).
pub mod Balance
use stumpless.Base.{
  ℕ, ◌+◌, ◌≡◌, refl, ◌⊎◌, inl, inr, Bool-cases, ap, Bool, true, false, Option, none, some, List, [],
  ◌∷◌, arith, not, ◌&&◌, leb, ◌/◌, ◌*◌, ◌^◌, ◌-◌, ◌==◌, if◌then◌else◌,
}
use stumpless.Base.Int.{ℤ, pos}
use stumpless.Error.{
  ErrorId, L10n, CodeType, Error, cap_size_t_to_int, size_t_to_int, argument_empty,
  argument_too_big, argument_too_small, index_out_of_bounds, invalid_encoding, invalid_facility,
  invalid_severity, memory_allocation_failure, param_not_found, element_not_found,
  duplicate_element, target_incompatible, invalid_id, invalid_param_string,
  duplicate_element_error_message, element_not_found_error_message,
  index_out_of_bounds_error_code_type, invalid_facility_error_message,
  invalid_facility_error_code_type, invalid_id_error_message, invalid_severity_error_message,
  invalid_severity_error_code_type, memory_allocation_failure_error_message,
  param_not_found_error_message, invalid_param_error_message, target_unsupported,
  stream_write_failure, stream_write_failure_error_message, function_target_failure,
  function_target_failure_error_message, function_target_failure_code_type,
}

-- The functions set by `stumpless_set_malloc` and the like are not part of the library: `malloc n
-- size` says whether their call number `n` grants `size` bytes, and `new_mutex n` whether the
-- request number `n` for a mutex is met. A block or a mutex is named by the number of the call
-- that made it; `live`, `mutexes` and `held` are those not yet freed, destroyed and unlocked.
pub record World : Type 0 where
  pub last_error : Error
  pub error_valid : Bool
  pub malloc : ℕ → ℕ → Bool
  pub calls : ℕ
  pub live : List ℕ
  pub new_mutex : ℕ → Bool
  pub mutex_calls : ℕ
  pub mutexes : List ℕ
  pub held : List ℕ

-- Takes one number out of a list, if it is there.
abbrev pub remove : ℕ → List ℕ → List ℕ
remove m [] = []
remove m (n ∷ ns) = if n == m then ns else n ∷ remove m ns

pub remove-cons_self : (m : ℕ) (ns : List ℕ) → remove m (m ∷ ns) ≡ ns
remove-cons_self m ns = ground arith

-- src/error.c: `stumpless_get_error`, `clear_error` and the functions that raise.
unfoldable pub stumpless_get_error : World → Option Error
stumpless_get_error w = if w.error_valid then some w.last_error else none

unfoldable pub stumpless_has_error : World → Bool
stumpless_has_error w = w.error_valid

abbrev pub clear_error : World → World
clear_error w = record w { error_valid = false }

abbrev pub raise_error : ErrorId → L10n → ℤ → Option CodeType → World → World
raise_error id message code code_type w = record w {
  last_error = record { id = id; message = message; code = code; code_type = code_type };
  error_valid = true;
}

abbrev pub raise_argument_empty : L10n → World → World
raise_argument_empty message = raise_error argument_empty message (pos 0) none

abbrev pub raise_argument_too_big : L10n → ℕ → Option CodeType → World → World
raise_argument_too_big message arg_size arg_type =
    raise_error argument_too_big message (cap_size_t_to_int arg_size) arg_type

abbrev pub raise_argument_too_small : L10n → ℕ → Option CodeType → World → World
raise_argument_too_small message arg_size arg_type =
    raise_error argument_too_small message (cap_size_t_to_int arg_size) arg_type

abbrev pub raise_duplicate_element : World → World
raise_duplicate_element = raise_error duplicate_element duplicate_element_error_message (pos 0) none

abbrev pub raise_element_not_found : World → World
raise_element_not_found = raise_error element_not_found element_not_found_error_message (pos 0) none

abbrev pub raise_index_out_of_bounds : L10n → ℕ → World → World
raise_index_out_of_bounds message index =
    raise_error index_out_of_bounds message (size_t_to_int index)
      (some index_out_of_bounds_error_code_type)

abbrev pub raise_invalid_encoding : L10n → World → World
raise_invalid_encoding message = raise_error invalid_encoding message (pos 0) none

abbrev pub raise_invalid_facility : ℤ → World → World
raise_invalid_facility facility =
    raise_error invalid_facility invalid_facility_error_message facility
      (some invalid_facility_error_code_type)

abbrev pub raise_invalid_id : World → World
raise_invalid_id = raise_error invalid_id invalid_id_error_message (pos 0) none

abbrev pub raise_invalid_severity : ℤ → World → World
raise_invalid_severity severity =
    raise_error invalid_severity invalid_severity_error_message severity
      (some invalid_severity_error_code_type)

abbrev pub raise_memory_allocation_failure : World → World
raise_memory_allocation_failure =
    raise_error memory_allocation_failure memory_allocation_failure_error_message (pos 0) none

abbrev pub raise_param_not_found : World → World
raise_param_not_found = raise_error param_not_found param_not_found_error_message (pos 0) none

abbrev pub raise_target_incompatible : L10n → World → World
raise_target_incompatible message = raise_error target_incompatible message (pos 0) none

abbrev pub raise_target_unsupported : L10n → World → World
raise_target_unsupported message = raise_error target_unsupported message (pos 0) none

abbrev pub raise_stream_write_failure : World → World
raise_stream_write_failure =
    raise_error stream_write_failure stream_write_failure_error_message (pos 0) none

abbrev pub raise_function_target_failure : ℤ → World → World
raise_function_target_failure code =
    raise_error function_target_failure function_target_failure_error_message code
      (some function_target_failure_code_type)

abbrev pub raise_invalid_param : World → World
raise_invalid_param = raise_error invalid_param_string invalid_param_error_message (pos 0) none

-- src/memory.c: the block got, if any, and what is left of the world.
unfoldable pub alloc_mem : ℕ → World → Option ℕ × World
alloc_mem size w =
    if w.malloc w.calls size
    then (some w.calls, record w { calls = w.calls + 1; live = w.calls ∷ w.live })
    else (none, raise_memory_allocation_failure (record w { calls = w.calls + 1 }))

-- `free` of NULL does nothing, and neither does this of a block that is not live.
abbrev pub free_mem : ℕ → World → World
free_mem mem w = record w { live = remove mem w.live }

-- A block that grows is freed, and its bytes move to the new one; if the call fails it stays.
unfoldable pub realloc_mem : ℕ → ℕ → World → Option ℕ × World
realloc_mem mem size w =
    if w.malloc w.calls size
    then (some w.calls, record w { calls = w.calls + 1; live = w.calls ∷ remove mem w.live })
    else (none, raise_memory_allocation_failure (record w { calls = w.calls + 1 }))

-- `realloc` of NULL is `malloc`.
abbrev pub realloc_pointer : Option ℕ → ℕ → World → Option ℕ × World
realloc_pointer none size w = alloc_mem size w
realloc_pointer (some mem) size w = realloc_mem mem size w

pub alloc_mem-cases :
    (size : ℕ) (w : World)
    → (alloc_mem size w ≡ (some w.calls, record w { calls = w.calls + 1; live = w.calls ∷ w.live }))
      ⊎ (alloc_mem size w
          ≡ (none, raise_memory_allocation_failure (record w { calls = w.calls + 1 })))
unfolding alloc_mem
alloc_mem-cases size w = elim (Bool-cases (w.malloc w.calls size)) [
  | inl granted ↦ inl (rw granted refl)
  | inr refused ↦ inr (rw refused refl)
]

-- A block that holds what was there, or a refusal, with the error for it and nothing allotted.
pub realloc_pointer-cases :
    (mem : Option ℕ) (size : ℕ) (w : World)
    → let (new, w') = realloc_pointer mem size w in
      (w'.held ≡ w.held)
      × (w'.mutexes ≡ w.mutexes)
      × (((block : ℕ) × (new ≡ some block) × (w'.error_valid ≡ w.error_valid))
          ⊎ ((new ≡ none)
              × (w'.error_valid ≡ true)
              × (w'.live ≡ w.live)
              × (w.malloc w.calls size ≡ false)))
unfolding alloc_mem realloc_mem
realloc_pointer-cases none size w = elim (Bool-cases (w.malloc w.calls size)) [
  | inl granted ↦ rw granted (refl, refl, inl (w.calls, refl, refl))
  | inr refused ↦ rw refused (refl, refl, inr (refl, refl, refl, refl))
]
realloc_pointer-cases (some mem) size w = elim (Bool-cases (w.malloc w.calls size)) [
  | inl granted ↦ rw granted (refl, refl, inl (w.calls, refl, refl))
  | inr refused ↦ rw refused (refl, refl, inr (refl, refl, refl, refl))
]

-- `(size_t)-1/item_size`: so many items or more are refused, unless there are none.
abbrev pub is_array_too_big : ℕ → ℕ → Bool
is_array_too_big item_count item_size =
    not (item_count == 0) && leb ((2 ^ 64 - 1) / item_size) item_count

-- `mem` is NULL or a block.
unfoldable pub realloc_array : Option ℕ → ℕ → ℕ → World → Option ℕ × World
realloc_array mem item_count item_size w =
    let grown = realloc_pointer mem (item_count * item_size) w in
    if is_array_too_big item_count item_size
    then (none, raise_memory_allocation_failure w)
    else grown

pub alloc_array : ℕ → ℕ → World → Option ℕ × World
alloc_array item_count item_size w =
    let block = alloc_mem (item_count * item_size) w in
    if is_array_too_big item_count item_size
    then (none, raise_memory_allocation_failure w)
    else block

-- `config_assign_cached_mutex`; the pool reports a failure as one of memory.
unfoldable pub assign_cached_mutex : World → Option ℕ × World
assign_cached_mutex w =
    if w.new_mutex w.mutex_calls
    then (
      some w.mutex_calls,
      record w { mutex_calls = w.mutex_calls + 1; mutexes = w.mutex_calls ∷ w.mutexes },
    )
    else (none, raise_memory_allocation_failure (record w { mutex_calls = w.mutex_calls + 1 }))

abbrev pub destroy_cached_mutex : ℕ → World → World
destroy_cached_mutex mutex w = record w { mutexes = remove mutex w.mutexes }

-- `config_init_mutex` and `config_destroy_mutex` of the mutexes inside a struct, which the caller
-- names by numbers.
abbrev pub init_mutex : ℕ → World → World
init_mutex mutex w = record w { mutexes = mutex ∷ w.mutexes }

abbrev pub remove_each : List ℕ → List ℕ → List ℕ
remove_each [] ns = ns
remove_each (m ∷ ms) ns = remove_each ms (remove m ns)

abbrev pub destroy_mutexes : List ℕ → World → World
destroy_mutexes mutexes w = record w { mutexes = remove_each mutexes w.mutexes }

abbrev pub lock_mutex : ℕ → World → World
lock_mutex mutex w = record w { held = mutex ∷ w.held }

abbrev pub unlock_mutex : ℕ → World → World
unlock_mutex mutex w = record w { held = remove mutex w.held }

-- A mutex taken and given back leaves the world as it was.
pub unlock-lock : (mutex : ℕ) (w : World) → unlock_mutex mutex (lock_mutex mutex w) ≡ w
unlock-lock mutex w = ap (λ h. record w { held = h }) (remove-cons_self mutex w.held)

pub assign_cached_mutex-cases :
    (w : World)
    → (assign_cached_mutex w ≡ (
      some w.mutex_calls,
      record w { mutex_calls = w.mutex_calls + 1; mutexes = w.mutex_calls ∷ w.mutexes },
    ))
      ⊎ (assign_cached_mutex w
          ≡ (none, raise_memory_allocation_failure (record w { mutex_calls = w.mutex_calls + 1 })))
unfolding assign_cached_mutex
assign_cached_mutex-cases w = elim (Bool-cases (w.new_mutex w.mutex_calls)) [
  | inl granted ↦ inl (rw granted refl)
  | inr refused ↦ inr (rw refused refl)
]
