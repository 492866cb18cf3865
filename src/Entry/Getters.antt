-- ===== src/Entry/Getters.antt =====
-- The getters of an entry in src/entry.c that copy a text of it or give a number of it.
pub mod Copies
use stumpless.Base.{ℕ, ◌+◌, [], ◌∷◌, ◌++◌, Bytes, Option, none, some, length, take}
use stumpless.Base.Int.{ℤ, negsuc}
use stumpless.Error.{null_arg_error_message}
use stumpless.World.{World, alloc_mem, clear_error, raise_argument_empty}
use stumpless.Facility.{get_facility}
use stumpless.Severity.{get_severity}
use stumpless.Entry.{Entry, lock_entry, unlock_entry}

-- A copy of a text of the entry and the NUL behind it, under the lock of the entry.
abbrev pub copy_of_text : Entry → Bytes → ℕ → World → Option (ℕ × Bytes) × World
copy_of_text entry text len w =
    let (copy, w1) = alloc_mem (len + 1) (lock_entry entry w) in
    elim copy [
      | none ↦ (none, unlock_entry entry w1)
      | some block ↦ (some (block, take len text ++ 0 ∷ []), unlock_entry entry (clear_error w1))
    ]

pub stumpless_get_entry_app_name : Option Entry → World → Option (ℕ × Bytes) × World
stumpless_get_entry_app_name none w =
    (none, raise_argument_empty (null_arg_error_message "entry") w)
stumpless_get_entry_app_name (some entry) w =
    copy_of_text entry entry.app_name entry.app_name_length w

pub stumpless_get_entry_msgid : Option Entry → World → Option (ℕ × Bytes) × World
stumpless_get_entry_msgid none w = (none, raise_argument_empty (null_arg_error_message "entry") w)
stumpless_get_entry_msgid (some entry) w = copy_of_text entry entry.msgid entry.msgid_length w

-- An entry without a message has none to copy, which is no error.
pub stumpless_get_entry_message : Option Entry → World → Option (ℕ × Bytes) × World
stumpless_get_entry_message none w = (none, raise_argument_empty (null_arg_error_message "entry") w)
stumpless_get_entry_message (some entry) w = elim entry.message [
  | none ↦ (none, unlock_entry entry (clear_error (lock_entry entry w)))
  | some message ↦ copy_of_text entry message.1 entry.message_length w
]

pub stumpless_get_entry_prival : Option Entry → World → ℤ × World
stumpless_get_entry_prival none w =
    (negsuc 0, raise_argument_empty (null_arg_error_message "entry") w)
stumpless_get_entry_prival (some entry) w =
    (entry.prival, clear_error (unlock_entry entry (lock_entry entry w)))

pub stumpless_get_entry_facility : Option Entry → World → ℤ × World
stumpless_get_entry_facility none w =
    (negsuc 0, raise_argument_empty (null_arg_error_message "entry") w)
stumpless_get_entry_facility (some entry) w =
    (get_facility entry.prival, clear_error (unlock_entry entry (lock_entry entry w)))

pub stumpless_get_entry_severity : Option Entry → World → ℤ × World
stumpless_get_entry_severity none w =
    (negsuc 0, raise_argument_empty (null_arg_error_message "entry") w)
stumpless_get_entry_severity (some entry) w =
    (get_severity entry.prival, clear_error (unlock_entry entry (lock_entry entry w)))
