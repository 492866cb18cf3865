-- ===== src/Target.antt =====
-- The targets of src/target/, each in a module of its own, and the struct that they share
-- (include/stumpless/target.h).
pub mod Buffer
pub mod Chain
pub mod Settings
pub mod Stream
pub mod Life
use stumpless.Base.{ℕ, Bytes, Option}
use stumpless.Base.Int.{ℤ}
use stumpless.World.{World, lock_mutex, unlock_mutex}

-- `enum stumpless_target_type`
pub data TargetType : Type 0 where
  buffer_target file_target function_target journald_target network_target : TargetType
  socket_target stream_target windows_event_log_target sqlite3_target chain_target : TargetType

-- What `filter` points to: `stumpless_mask_filter`, or a function of the caller.
pub data FilterFunc : Type 0 where
  mask_filter : FilterFunc
  caller_filter : ℕ → FilterFunc

-- `struct stumpless_target`; `id` is NULL or the block of what its module keeps.
pub record Target : Type 0 where
  pub block : ℕ
  pub id : Option ℕ
  pub type : TargetType
  pub name_block : ℕ
  pub name : Bytes
  pub name_length : ℕ
  pub options : ℕ
  pub default_prival : ℤ
  pub default_app_name : Bytes
  pub default_app_name_length : ℕ
  pub default_msgid : Bytes
  pub default_msgid_length : ℕ
  pub mask : ℕ
  pub filter : Option FilterFunc
  pub mutex : ℕ

abbrev pub lock_target : Target → World → World
lock_target target w = lock_mutex target.mutex w

abbrev pub unlock_target : Target → World → World
unlock_target target w = unlock_mutex target.mutex w
