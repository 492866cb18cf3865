-- ===== src/Target/Life.antt =====
-- Making, opening and closing targets: src/target.c, and the functions that open and close buffer,
-- chain, function and stream targets in src/target/. The current target of the process is named by
-- its block, if there is one; it stands before the world.
pub mod Open
pub mod Pairs
use stumpless.Base.{
  ℕ, [], ◌∷◌, List, Bytes, Bool, true, false, Option, none, some, ◌==◌, if◌then◌else◌,
}
use stumpless.Base.Int.{ℤ, pos, negsuc}
use stumpless.Error.{null_arg_error_message, invalid_target_type_error_message}
use stumpless.World.{
  World, alloc_mem, free_mem, assign_cached_mutex, destroy_cached_mutex, destroy_mutexes,
  clear_error, raise_argument_empty, raise_target_incompatible, raise_function_target_failure,
}
use stumpless.Param.{copy_cstring_with_length}
use stumpless.Cache.{free_pointer}
use stumpless.Entry.{Entry}
use stumpless.Target.{
  Target, TargetType, buffer_target, chain_target, function_target, stream_target, mask_filter,
}
use stumpless.Target.Buffer.{BufferTarget, new_buffer_target}
use stumpless.Target.Chain.{ChainTarget, new_chain_target, is_chain}
use stumpless.Target.Stream.{StreamTarget, new_stream_target, clear_codes, is_stream}

abbrev pub is_buffer_target : TargetType → Bool
is_buffer_target buffer_target = true
is_buffer_target type = false

abbrev pub is_function_target : TargetType → Bool
is_function_target function_target = true
is_function_target type = false

-- `config_compare_exchange_ptr` of the current target and NULL.
abbrev pub without_current : Target → Option ℕ → Option ℕ
without_current target none = none
without_current target (some block) = if block == target.block then none else some block

-- `free_mem` of each of the blocks.
abbrev pub free_each : List ℕ → World → World
free_each [] w = w
free_each (b ∷ bs) w = free_each bs (free_mem b w)

pub destroy_target : Target → Option ℕ × World → Option ℕ × World
destroy_target target (current, w) = (
  without_current target current,
  free_mem target.block (free_mem target.name_block (destroy_cached_mutex target.mutex w)),
)

abbrev pub stumpless_set_current_target : Option ℕ → Option ℕ × World → Option ℕ × World
stumpless_set_current_target target (current, w) = (target, clear_error w)

-- The size of the struct, the options of new targets, and the default facility and severity, which
-- the build picks.
module _ (sizeof_target default_options : ℕ) (default_prival : ℤ) where
  pub new_target : TargetType → Bytes → World → Option Target × World
  new_target type name w =
      let (block, w1) = alloc_mem sizeof_target w in
      let (name_block, name_length, w2) = copy_cstring_with_length name w1 in
      let (assigned, w3) = assign_cached_mutex w2 in
      elim block [
        | none ↦ (none, w1)
        | some b ↦ elim name_block [
          | none ↦ (none, free_mem b w2)
          | some n ↦ elim assigned [
            | none ↦ (none, free_mem b (free_mem n w3))
            | some mutex ↦ (
              some (record {
                block = b;
                id = none;
                type = type;
                name_block = n;
                name = name;
                name_length = name_length;
                options = default_options;
                default_prival = default_prival;
                default_app_name = b'-' ∷ [];
                default_app_name_length = 1;
                default_msgid = b'-' ∷ [];
                default_msgid_length = 1;
                mask = 255;
                filter = some mask_filter;
                mutex = mutex;
              }),
              w3,
            )
          ]
        ]
      ]

  -- How the functions that open a target go on behind their tests of the arguments; `new_id` makes
  -- what the target is told by its type to keep.
  pub open_with :
      {A : Type 0}
      → TargetType
      → Bytes
      → (World → Option (ℕ × A) × World)
      → Option ℕ × World
      → Option (Target × A) × (Option ℕ × World)
  open_with type name new_id (current, w) =
      let (target, w1) = new_target type name w in
      let (id, w2) = new_id w1 in
      elim target [
        | none ↦ (none, (current, w1))
        | some t ↦ elim id [
          | none ↦ (none, destroy_target t (current, w2))
          | some i ↦ (
            some (record t { id = some i.0 }, i.1),
            stumpless_set_current_target (some t.block) (current, w2),
          )
        ]
      ]

  pub stumpless_open_buffer_target :
      ℕ
      → ℕ
      → Option Bytes
      → Option Bytes
      → ℕ
      → Option ℕ × World
      → Option (Target × BufferTarget) × (Option ℕ × World)
  stumpless_open_buffer_target sizeof_buffer mutex none buffer size (current, w) =
      (none, (current, raise_argument_empty (null_arg_error_message "name") w))
  stumpless_open_buffer_target sizeof_buffer mutex (some name) none size (current, w) =
      (none, (current, raise_argument_empty (null_arg_error_message "buffer") w))
  stumpless_open_buffer_target sizeof_buffer mutex (some name) (some buffer) size state =
      open_with buffer_target name (new_buffer_target sizeof_buffer buffer size mutex) state

  -- The log function is named by a number.
  pub stumpless_open_function_target :
      ℕ → Option Bytes → Option ℕ → Option ℕ × World → Option (Target × ℕ) × (Option ℕ × World)
  stumpless_open_function_target sizeof_function none log_function (current, w) =
      (none, (current, raise_argument_empty (null_arg_error_message "name") w))
  stumpless_open_function_target sizeof_function (some name) none (current, w) =
      (none, (current, raise_argument_empty (null_arg_error_message "log_function") w))
  stumpless_open_function_target sizeof_function (some name) (some log_function) state =
      open_with function_target name
        (λ w.
          let (block, w1) = alloc_mem sizeof_function w in
          (elim block [ none ↦ none | some b ↦ some (b, log_function) ], w1))
        state

  pub stumpless_open_stream_target :
      ℕ
      → List Bytes
      → ℕ
      → Option Bytes
      → Option ℕ
      → Option ℕ × World
      → Option (Target × StreamTarget) × (Option ℕ × World)
  stumpless_open_stream_target sizeof_stream content mutex none stream (current, w) =
      (none, (current, raise_argument_empty (null_arg_error_message "name") (clear_error w)))
  stumpless_open_stream_target sizeof_stream content mutex (some name) none (current, w) =
      (none, (current, raise_argument_empty (null_arg_error_message "stream") (clear_error w)))
  stumpless_open_stream_target sizeof_stream content mutex (some name) (some stream) (current, w) =
      open_with stream_target name
        (λ w1.
          let (target, w2) = new_stream_target sizeof_stream content stream mutex w1 in
          (elim target [ none ↦ none | some t ↦ some (t.0, clear_codes t.1) ], w2))
        (current, clear_error w)

  pub stumpless_new_chain :
      ℕ
      → ℕ
      → ℕ
      → Option Bytes
      → Option ℕ × World
      → Option (Target × ChainTarget) × (Option ℕ × World)
  stumpless_new_chain array_length sizeof_chain mutex none (current, w) =
      (none, (current, raise_argument_empty (null_arg_error_message "name") w))
  stumpless_new_chain array_length sizeof_chain mutex (some name) state =
      open_with chain_target name (new_chain_target array_length sizeof_chain mutex) state

-- `target_type` is the type that the function closes, and `mutexes` and `contents` are the mutexes
-- inside of what the target keeps and the blocks of it, besides that of the struct. What it keeps
-- stands beside the target, if it is of the type.
pub close_target :
    {A : Type 0}
    → (TargetType → Bool)
    → (A → List ℕ)
    → (A → List ℕ)
    → Option (Target × A)
    → Option ℕ × World
    → Option ℕ × World
close_target target_type mutexes contents none (current, w) =
    (current, raise_argument_empty (null_arg_error_message "target") w)
close_target target_type mutexes contents (some (target, a)) (current, w) =
    let emptied = free_each (contents a) (destroy_mutexes (mutexes a) w) in
    let (current', w1) = destroy_target target (current, free_pointer target.id emptied) in
    if target_type target.type
    then (current', clear_error w1)
    else (current, raise_target_incompatible invalid_target_type_error_message w)

abbrev pub no_blocks : {A : Type 0} → A → List ℕ
no_blocks a = []

abbrev pub buffer_mutexes : BufferTarget → List ℕ
buffer_mutexes target = target.buffer_mutex ∷ []

abbrev pub stream_mutexes : StreamTarget → List ℕ
stream_mutexes target = target.stream_mutex ∷ []

abbrev pub chain_mutexes : ChainTarget → List ℕ
chain_mutexes chain = chain.chain_mutex ∷ []

pub stumpless_close_buffer_target :
    Option (Target × BufferTarget) → Option ℕ × World → Option ℕ × World
stumpless_close_buffer_target = close_target is_buffer_target buffer_mutexes no_blocks

pub stumpless_close_function_target : Option (Target × ℕ) → Option ℕ × World → Option ℕ × World
stumpless_close_function_target = close_target is_function_target no_blocks no_blocks

pub stumpless_close_stream_target :
    Option (Target × StreamTarget) → Option ℕ × World → Option ℕ × World
stumpless_close_stream_target = close_target is_stream stream_mutexes no_blocks

-- `free` of NULL does nothing.
abbrev pub overflow_blocks : ChainTarget → List ℕ
overflow_blocks chain = elim chain.overflow_block [ none ↦ [] | some block ↦ block ∷ [] ]

pub stumpless_close_chain_only : Option (Target × ChainTarget) → Option ℕ × World → Option ℕ × World
stumpless_close_chain_only = close_target is_chain chain_mutexes overflow_blocks

-- `function` is what the log function returns.
pub send_entry_to_function_target :
    (Target → Entry → World → ℤ × World) → Target → Entry → World → ℤ × World
send_entry_to_function_target function target entry w =
    let (result, w1) = function target entry w in
    elim result [
      | pos n ↦ (pos n, w1)
      | negsuc n ↦ (negsuc n, raise_function_target_failure (negsuc n) w1)
    ]
