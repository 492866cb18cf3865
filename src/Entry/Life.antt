-- ===== src/Entry/Life.antt =====
-- src/entry.c: making entries in memory of the caller or of the cache of entries, and giving them
-- back. `elements` tells what the elements at their blocks hold, and `params` what the params do.
pub mod Load
pub mod Message
use stumpless.Base.{
  ℕ, ◌+◌, [], ◌∷◌, List, map, Bytes, Bool, true, false, Option, none, some, length, take,
  if◌then◌else◌,
}
use stumpless.Base.Int.{ℤ}
use stumpless.Error.{null_arg_error_message}
use stumpless.World.{
  World, alloc_array, free_mem, assign_cached_mutex, destroy_cached_mutex, clear_error,
  raise_argument_empty,
}
use stumpless.Validate.{validate_app_name, validate_msgid}
use stumpless.Param.{Param, copy_cstring_with_length}
use stumpless.Prival.{get_prival}
use stumpless.Facility.{get_facility}
use stumpless.Severity.{get_severity}
use stumpless.Cache.{Cache, cache_new, cache_alloc, cache_free, free_pointer}
use stumpless.Config.FormatString.{no_vsnprintf_s_format_string}
use stumpless.Element.{Element}
use stumpless.Element.Contents.{
  stumpless_copy_element, stumpless_destroy_element_and_contents,
  stumpless_unload_element_and_contents,
}
use stumpless.Entry.{Entry, lock_entry, unlock_entry, free_message, replace_message}

-- Whether the name is accepted, the entry with it and the world.
pub load_app_name : Option Bytes → Entry → World → Bool × Entry × World
load_app_name none entry w = (true, record entry { app_name = b'-' ∷ []; app_name_length = 1 }, w)
load_app_name (some app_name) entry w =
    let (valid, len, w1) = validate_app_name app_name w in
    if valid
    then (true, record entry { app_name = take len app_name; app_name_length = len }, w1)
    else (false, entry, w1)

pub load_msgid : Option Bytes → Entry → World → Bool × Entry × World
load_msgid none entry w = (true, record entry { msgid = b'-' ∷ []; msgid_length = 1 }, w)
load_msgid (some msgid) entry w =
    let (valid, len, w1) = validate_msgid msgid w in
    if valid
    then (true, record entry { msgid = take len msgid; msgid_length = len }, w1)
    else (false, entry, w1)

-- `unchecked_load_entry` behind the check of the message id, and behind that of the name. The data for
-- the Windows event log is left out, and the facility and the severity are not looked at.
pub load_rest : ℤ → ℤ → Option (ℕ × Bytes) → ℕ → Bool × Entry × World → Option Entry × World
load_rest facility severity message message_length (false, entry, w) = (none, w)
load_rest facility severity message message_length (true, entry, w) =
    let (assigned, w1) = assign_cached_mutex w in
    elim assigned [
      | none ↦ (none, w1)
      | some mutex ↦ (
        some (record entry {
          procid_length = 0;
          hostname_length = 0;
          message = message;
          message_length = message_length;
          prival = get_prival facility severity;
          elements_block = none;
          elements = [];
          mutex = mutex;
        }),
        w1,
      )
    ]

pub load_named :
    ℤ → ℤ → Option Bytes → Option (ℕ × Bytes) → ℕ → Bool × Entry × World → Option Entry × World
load_named facility severity msgid message message_length (false, entry, w) = (none, w)
load_named facility severity msgid message message_length (true, entry, w) =
    load_rest facility severity message message_length (load_msgid msgid entry w)

pub unchecked_load_entry :
    Entry
    → ℤ
    → ℤ
    → Option Bytes
    → Option Bytes
    → Option (ℕ × Bytes)
    → ℕ
    → World
    → Option Entry × World
unchecked_load_entry entry facility severity app_name msgid message message_length w =
    load_named facility severity msgid message message_length (load_app_name app_name entry w)

-- The message of a new entry, NULL or in memory of its own; or nothing, if that memory is not got.
pub copied_message : Option Bytes → World → Option (Option (ℕ × Bytes) × ℕ) × World
copied_message none w = (some (none, 0), w)
copied_message (some message) w =
    let (msg, msg_length, w1) = copy_cstring_with_length message w in
    elim msg [ none ↦ (none, w1) | some block ↦ (some (some (block, message), msg_length), w1) ]

-- `printf` gives the texts that the two calls of `vsnprintf` make of a format, and `junk` what new memory holds.
unfoldable pub formatted_message :
    (ℕ → Bytes)
    → (Bytes → Option Bytes × Option Bytes)
    → Option Bytes
    → World
    → Option (Option (ℕ × Bytes) × ℕ) × World
formatted_message junk printf none w = (some (none, 0), w)
formatted_message junk printf (some message) w =
    let (msg, msg_length, w1) = no_vsnprintf_s_format_string junk (printf message) w in
    elim msg [
      | none ↦ (none, w1)
      | some b ↦ (some (some (b.0, take msg_length b.1), msg_length), w1)
    ]

-- Behind the test for NULL: the message is formatted before it replaces the old one.
unfoldable pub vset_message :
    (ℕ → Bytes)
    → (Bytes → Option Bytes × Option Bytes)
    → Option Bytes
    → Entry
    → World
    → Bool × Entry × World
vset_message junk printf message entry w =
    let (formatted, w1) = formatted_message junk printf message w in
    elim formatted [ none ↦ (false, entry, w1) | some m ↦ replace_message m.0 m.1 entry w1 ]

-- Of a string of wide characters. `wide` is the function that copies it, whose string, with its NUL,
-- has the size that it gives.
unfoldable pub set_message_str_w :
    (List ℕ → World → Option (ℕ × Bytes) × World)
    → Option (List ℕ)
    → Entry
    → World
    → Bool × Entry × World
set_message_str_w wide none entry w = replace_message none 0 entry w
set_message_str_w wide (some message) entry w =
    let (new_message, w1) = wide message w in
    elim new_message [
      | none ↦ (false, entry, w1)
      | some m ↦ replace_message (some m) (length m.1) entry w1
    ]

-- The functions that load an entry, from the message on.
pub load_message :
    Entry
    → ℤ
    → ℤ
    → Option Bytes
    → Option Bytes
    → Option (Option (ℕ × Bytes) × ℕ) × World
    → Option Entry × World
load_message entry facility severity app_name msgid (none, w) = (none, w)
load_message entry facility severity app_name msgid (some (msg, msg_length), w) =
    let (result, w1) =
      unchecked_load_entry entry facility severity app_name msgid msg msg_length (clear_error w) in
    elim result [ none ↦ (none, free_message msg w1) | some e ↦ (some e, w1) ]

-- The struct is at memory of the caller, which is not NULL.
pub stumpless_load_entry_str :
    Entry → ℤ → ℤ → Option Bytes → Option Bytes → Option Bytes → World → Option Entry × World
stumpless_load_entry_str entry facility severity app_name msgid message w =
    load_message entry facility severity app_name msgid (copied_message message w)

pub vstumpless_load_entry :
    (ℕ → Bytes)
    → (Bytes → Option Bytes × Option Bytes)
    → Entry
    → ℤ
    → ℤ
    → Option Bytes
    → Option Bytes
    → Option Bytes
    → World
    → Option Entry × World
vstumpless_load_entry junk printf entry facility severity app_name msgid message w =
    load_message entry facility severity app_name msgid (formatted_message junk printf message w)

pub unchecked_unload_entry : Entry → World → World
unchecked_unload_entry entry w =
    free_message entry.message
      (free_pointer entry.elements_block (destroy_cached_mutex entry.mutex w))

pub stumpless_unload_entry_only : Option Entry → World → World
stumpless_unload_entry_only none w = w
stumpless_unload_entry_only (some entry) w = unchecked_unload_entry entry w

-- The loops over the elements, with their params.
pub destroy_elements : List (Element × List Param) → World → World
destroy_elements [] w = w
destroy_elements (e ∷ es) w =
    destroy_elements es (stumpless_destroy_element_and_contents (some e) w)

pub unload_elements : List (Element × List Param) → World → World
unload_elements [] w = w
unload_elements (e ∷ es) w = unload_elements es (stumpless_unload_element_and_contents (some e) w)

pub stumpless_unload_entry_and_contents :
    Option (Entry × List (Element × List Param)) → World → World
stumpless_unload_entry_and_contents none w = w
stumpless_unload_entry_and_contents (some (entry, es)) w =
    unchecked_unload_entry entry (unload_elements es w)
