-- ===== src/Entry.antt =====
-- src/entry.c: log entries. The functions here are those on an entry alone, behind their test for
-- NULL, which `on_entry` adds; they return whether they succeed, the entry afterwards and the world.
pub mod Valid
pub mod Elements
pub mod Life
pub mod Text
pub mod Getters
use stumpless.Base.{
  ℕ, ◌+◌, [], ◌∷◌, List, Bytes, Bool, true, false, Option, none, some, length, take, if◌then◌else◌,
}
use stumpless.Base.Int.{ℤ, pos, negsuc}
use stumpless.Error.{null_arg_error_message}
use stumpless.World.{
  World, alloc_mem, free_mem, lock_mutex, unlock_mutex, clear_error, raise_argument_empty,
  raise_invalid_facility, raise_invalid_severity,
}
use stumpless.Validate.{validate_app_name, validate_hostname, validate_msgid, validate_procid}
use stumpless.Param.{copy_cstring_with_length}
use stumpless.Facility.{facility_is_invalid, get_facility}
use stumpless.Severity.{severity_is_invalid, get_severity}
use stumpless.Prival.{get_prival}

-- `struct stumpless_entry`. The message is NULL or a block with its bytes; `elements` are the blocks
-- of the elements, in an array at `elements_block`.
pub record Entry : Type 0 where
  pub block : ℕ
  pub app_name : Bytes
  pub app_name_length : ℕ
  pub msgid : Bytes
  pub msgid_length : ℕ
  pub hostname : Bytes
  pub hostname_length : ℕ
  pub procid : Bytes
  pub procid_length : ℕ
  pub message : Option (ℕ × Bytes)
  pub message_length : ℕ
  pub prival : ℤ
  pub elements_block : Option ℕ
  pub elements : List ℕ
  pub mutex : ℕ

abbrev pub lock_entry : Entry → World → World
lock_entry entry w = lock_mutex entry.mutex w

abbrev pub unlock_entry : Entry → World → World
unlock_entry entry w = unlock_mutex entry.mutex w

abbrev pub on_entry :
    (Entry → World → Bool × Entry × World) → Option Entry → World → Bool × Option Entry × World
on_entry f none w = (false, none, raise_argument_empty (null_arg_error_message "entry") w)
on_entry f (some entry) w = let (done, entry', w') = f entry w in (done, some entry', w')

-- How the setters end: the lock is taken and given back around the change.
abbrev pub changed : Entry → Entry → World → Bool × Entry × World
changed entry entry' w = (true, entry', clear_error (unlock_entry entry (lock_entry entry w)))

pub set_app_name : Option Bytes → Entry → World → Bool × Entry × World
set_app_name none entry w =
    changed entry (record entry { app_name = b'-' ∷ []; app_name_length = 1 }) w
set_app_name (some app_name) entry w =
    let (valid, name_length, w1) = validate_app_name app_name w in
    if valid
    then changed entry
        (record entry { app_name = take name_length app_name; app_name_length = name_length }) w1
    else (false, entry, w1)

pub set_msgid : Option Bytes → Entry → World → Bool × Entry × World
set_msgid none entry w = changed entry (record entry { msgid = b'-' ∷ []; msgid_length = 1 }) w
set_msgid (some msgid) entry w =
    let (valid, new_length, w1) = validate_msgid msgid w in
    if valid
    then changed entry (record entry { msgid = take new_length msgid; msgid_length = new_length })
        w1
    else (false, entry, w1)

-- A host name or process id of length 0 stands for the default, whatever the array holds.
pub set_hostname : Option Bytes → Entry → World → Bool × Entry × World
set_hostname none entry w = changed entry (record entry { hostname_length = 0 }) w
set_hostname (some hostname) entry w =
    let (valid, new_length, w1) = validate_hostname hostname w in
    if valid
    then changed entry
        (record entry { hostname = take new_length hostname; hostname_length = new_length }) w1
    else (false, entry, w1)

pub set_procid : Option Bytes → Entry → World → Bool × Entry × World
set_procid none entry w = changed entry (record entry { procid_length = 0 }) w
set_procid (some procid) entry w =
    let (valid, new_length, w1) = validate_procid procid w in
    if valid
    then changed entry
        (record entry { procid = take new_length procid; procid_length = new_length }) w1
    else (false, entry, w1)

pub set_facility : ℤ → Entry → World → Bool × Entry × World
set_facility facility entry w =
    if facility_is_invalid facility
    then (false, entry, raise_invalid_facility facility w)
    else changed entry (record entry { prival = get_prival facility (get_severity entry.prival) }) w

pub set_severity : ℤ → Entry → World → Bool × Entry × World
set_severity severity entry w =
    if severity_is_invalid severity
    then (false, entry, raise_invalid_severity severity w)
    else changed entry (record entry { prival = get_prival (get_facility entry.prival) severity }) w

pub set_priority : ℤ → ℤ → Entry → World → Bool × Entry × World
set_priority facility severity entry w =
    if facility_is_invalid facility
    then (false, entry, raise_invalid_facility facility w)
    else if severity_is_invalid severity
    then (false, entry, raise_invalid_severity severity w)
    else changed entry (record entry { prival = get_prival facility severity }) w

pub set_prival : ℤ → Entry → World → Bool × Entry × World
set_prival prival entry w = set_priority (get_facility prival) (get_severity prival) entry w

-- `free_mem( old_message )`, which may be NULL.
abbrev pub free_message : Option (ℕ × Bytes) → World → World
free_message none w = w
free_message (some message) w = free_mem message.0 w

-- The end of the functions that set the message, from the new one on.
abbrev pub replace_message : Option (ℕ × Bytes) → ℕ → Entry → World → Bool × Entry × World
replace_message new_message new_message_length entry w = (
  true,
  record entry { message = new_message; message_length = new_message_length },
  clear_error (free_message entry.message (unlock_entry entry (lock_entry entry w))),
)

-- `stumpless_set_entry_message_str` from the copy of a message on.
unfoldable pub set_new_message : Bytes → Entry → World → Bool × Entry × World
set_new_message message entry w =
    let (new_message, new_message_length, w1) = copy_cstring_with_length message w in
    elim new_message [
      | none ↦ (false, entry, w1)
      | some block ↦ replace_message (some (block, message)) new_message_length entry w1
    ]

unfoldable pub set_message_str : Option Bytes → Entry → World → Bool × Entry × World
set_message_str none entry w = replace_message none 0 entry w
set_message_str (some message) entry w = set_new_message message entry w
