-- ===== src/Messages.antt =====
-- Logging a message without an entry: src/target.c and src/log.c. The thread keeps one entry for it,
-- once one was loaded.
pub mod Sending
use stumpless.Base.{ℕ, Bytes, Bool, true, false, Option, none, some, take, if◌then◌else◌}
use stumpless.Base.Int.{ℤ, pos, negsuc}
use stumpless.Error.{null_arg_error_message}
use stumpless.World.{World, raise_argument_empty}
use stumpless.Entry.{Entry, set_message_str}
use stumpless.Entry.Life.{stumpless_load_entry_str, vstumpless_load_entry, vset_message}
use stumpless.Target.{Target, lock_target, unlock_target}

-- `LOG_USER` and `LOG_INFO`
abbrev pub facility_user : ℤ
facility_user = pos 8

abbrev pub severity_info : ℤ
severity_info = pos 6

-- The priority and the defaults of the target, in the entry that is sent.
abbrev pub addressed : Target → ℤ → Entry → Entry
addressed target priority entry = record entry {
  prival = priority;
  app_name = take target.default_app_name_length target.default_app_name;
  app_name_length = target.default_app_name_length;
  msgid = take target.default_msgid_length target.default_msgid;
  msgid_length = target.default_msgid_length;
}

-- `send` is `stumpless_add_entry`, with what it uses besides the world as `S`, and `blank` what the
-- memory of the cached entry holds before it is loaded.
module _ {S : Type 0} (send : Target → Entry → S → World → ℤ × S × World) (blank : Entry) where
  -- The end of the functions that add a message to the log.
  pub send_cached : Target → ℤ → Entry → S → World → ℤ × Option Entry × S × World
  send_cached target priority entry s w =
      let e = addressed target priority entry in
      let (result, s', w') = send target e s w in (result, some e, s', w')

  -- `load` makes the entry with the message, and `set` gives it another one.
  pub add_log :
      (World → Option Entry × World)
      → (Entry → World → Bool × Entry × World)
      → Target
      → ℤ
      → Option Entry
      → S
      → World
      → ℤ × Option Entry × S × World
  add_log load set target priority none s w =
      let (result, w1) = load w in
      elim result [ none ↦ (negsuc 0, none, s, w1) | some e ↦ send_cached target priority e s w1 ]
  add_log load set target priority (some entry) s w =
      let (done, entry', w1) = set entry w in
      if done then send_cached target priority entry' s w1 else (negsuc 0, some entry', s, w1)

  pub stumpless_add_log_str :
      Option Target → ℤ → Option Bytes → Option Entry → S → World → ℤ × Option Entry × S × World
  stumpless_add_log_str none priority message cached s w =
      (negsuc 0, cached, s, raise_argument_empty (null_arg_error_message "target") w)
  stumpless_add_log_str (some target) priority message cached s w =
      add_log (stumpless_load_entry_str blank facility_user severity_info none none message)
        (set_message_str message) target priority cached s w

  unfoldable pub vstumpless_add_log :
      (ℕ → Bytes)
      → (Bytes → Option Bytes × Option Bytes)
      → Option Target
      → ℤ
      → Option Bytes
      → Option Entry
      → S
      → World
      → ℤ × Option Entry × S × World
  vstumpless_add_log junk printf none priority message cached s w =
      (negsuc 0, cached, s, raise_argument_empty (null_arg_error_message "target") w)
  vstumpless_add_log junk printf (some target) priority message cached s w =
      add_log
        (vstumpless_load_entry junk printf blank facility_user severity_info none none message)
        (vset_message junk printf message) target priority cached s w

  pub stumpless_add_message_str :
      Option Target → Option Bytes → Option Entry → S → World → ℤ × Option Entry × S × World
  stumpless_add_message_str none message cached s w =
      (negsuc 0, cached, s, raise_argument_empty (null_arg_error_message "target") w)
  stumpless_add_message_str (some target) message cached s w =
      stumpless_add_log_str (some target) target.default_prival message cached s w

  -- To the current target of the process, if there is one.
  unfoldable pub stump_str :
      Option Target → Option Bytes → Option Entry → S → World → ℤ × Option Entry × S × World
  stump_str none message cached s w = (negsuc 0, cached, s, w)
  stump_str (some target) message cached s w =
      stumpless_add_message_str (some target) message cached s w

  unfoldable pub stumplog_str :
      Option Target → ℤ → Option Bytes → Option Entry → S → World → Option Entry × S × World
  stumplog_str none priority message cached s w = (cached, s, w)
  stumplog_str (some target) priority message cached s w =
      let (result, cached', s', w') =
        stumpless_add_log_str (some target) priority message cached s w in
      (cached', s', w')

-- The old mask, and the current target with the new one.
unfoldable pub stumplog_set_mask : Option Target → ℕ → World → ℕ × Option Target × World
stumplog_set_mask none mask w = (0, none, w)
stumplog_set_mask (some target) mask w =
    (target.mask, some (record target { mask = mask }), unlock_target target (lock_target target w))
