-- ===== src/Dispatch.antt =====
-- src/target.c and src/filter.c: how `stumpless_add_entry` hands an entry to a target. Buffer targets
-- are those of Target/Buffer; what the other targets, the filters of the caller and the streams of the
-- process do is a parameter.
pub mod Mask
pub mod Options
pub mod Delivery
use stumpless.Base.{
  ℕ, ◌^◌, [], ◌∷◌, Bytes, Bool, true, false, not, Option, none, some, length, bit_and, ◌==◌, ◌&&◌,
  if◌then◌else◌,
}
use stumpless.Base.Int.{ℤ, pos, negsuc}
use stumpless.Error.{target_always_open_error_message}
use stumpless.World.{World, clear_error, raise_invalid_id, raise_target_incompatible}
use stumpless.StrBuilder.{StrBuilder, strbuilder_get_buffer}
use stumpless.Severity.{get_severity}
use stumpless.Entry.{Entry, lock_entry, unlock_entry}
use stumpless.Formatter.{Store, System, format_entry}
use stumpless.Target.{
  Target, TargetType, FilterFunc, mask_filter, caller_filter, lock_target, unlock_target,
  buffer_target, file_target, function_target, journald_target, network_target, socket_target,
  stream_target, windows_event_log_target, sqlite3_target, chain_target,
}
use stumpless.Target.Buffer.{BufferTarget, sendto_buffer_target}

-- The functions of the other targets, of the caller and of the streams.
pub record Others : Type 0 where
  -- Whether a file, network or socket target is open, and opening it.
  pub is_open : Target → World → Bool × World
  pub open_target : Target → World → Bool × World
  pub filter : ℕ → Target → Entry → World → Bool × World
  pub write_to_error_stream : Bytes → World → World
  -- Chain, function, journald and sqlite3 targets.
  pub send_entry : Target → Entry → World → ℤ × World
  -- The targets but these and buffer targets.
  pub send_message : Target → Entry → Bytes → World → ℤ × World
  pub write_to_cons_stream : Bytes → World → World

abbrev pub option_cons : ℕ
option_cons = 2

abbrev pub option_odelay : ℕ
option_odelay = 8

abbrev pub option_perror : ℕ
option_perror = 32

-- Whether a target of the type may be closed.
abbrev pub opens : TargetType → Bool
opens file_target = true
opens network_target = true
opens socket_target = true
opens type = false

-- Whether it is sent the entry and not a message.
abbrev pub takes_entries : TargetType → Bool
takes_entries chain_target = true
takes_entries function_target = true
takes_entries journald_target = true
takes_entries sqlite3_target = true
takes_entries type = false

abbrev pub is_buffer : TargetType → Bool
is_buffer buffer_target = true
is_buffer type = false

abbrev pub is_null : Option ℕ → Bool
is_null none = true
is_null (some block) = false

-- The functions on a target behind their test for NULL.
pub unchecked_get_option : Target → ℕ → World → ℕ × World
unchecked_get_option target option w =
    (bit_and target.options option, unlock_target target (lock_target target w))

pub stumpless_get_option : Target → ℕ → World → ℕ × World
stumpless_get_option target option w =
    let (options, w1) = unchecked_get_option target option w in (options, clear_error w1)

pub stumpless_get_target_filter : Target → World → Option FilterFunc × World
stumpless_get_target_filter target w =
    (target.filter, clear_error (unlock_target target (lock_target target w)))

pub stumpless_get_target_mask : Target → World → ℕ × World
stumpless_get_target_mask target w =
    (target.mask, clear_error (unlock_target target (lock_target target w)))

unfoldable pub stumpless_get_entry_severity : Entry → World → ℤ × World
stumpless_get_entry_severity entry w =
    (get_severity entry.prival, clear_error (unlock_entry entry (lock_entry entry w)))

-- `STUMPLESS_SEVERITY_MASK`, on a severity, which is not negative.
abbrev pub severity_mask : ℤ → ℕ
severity_mask (pos severity) = 2 ^ severity
severity_mask (negsuc n) = 0

pub stumpless_mask_filter : Target → Entry → World → Bool × World
stumpless_mask_filter target entry w =
    let (severity, w1) = stumpless_get_entry_severity entry w in
    let (mask, w2) = stumpless_get_target_mask target w1 in
    (not (bit_and (severity_mask severity) mask == 0), w2)

module _ (others : Others) where
  unfoldable pub stumpless_target_is_open : Target → World → Bool × World
  stumpless_target_is_open target w =
      let w1 = lock_target target (clear_error w) in
      let (is_open, w2) = others.is_open target w1 in
      if opens target.type
      then (is_open, unlock_target target w2)
      else (true, unlock_target target w1)

  unfoldable pub stumpless_open_target : Target → World → Bool × World
  stumpless_open_target target w =
      let (is_open, w1) = stumpless_target_is_open target (clear_error w) in
      let locked = lock_target target w1 in
      let (result, w2) =
        if opens target.type
        then others.open_target target locked
        else (false, raise_target_incompatible target_always_open_error_message locked) in
      if is_open then (true, w1) else (result, unlock_target target w2)

  -- A filter that is NULL lets every entry through.
  pub call_filter : Option FilterFunc → Target → Entry → World → Bool × World
  call_filter none target entry w = (true, w)
  call_filter (some mask_filter) target entry w = stumpless_mask_filter target entry w
  call_filter (some (caller_filter f)) target entry w = others.filter f target entry w

  -- The switch over the types that take messages. `memory` is what a buffer target keeps at its `id`.
  pub send_buffer : Target → Entry → BufferTarget → Bytes → World → ℤ × BufferTarget × World
  send_buffer target entry memory buffer w =
      let (result, w1) = others.send_message target entry buffer w in
      let sent = sendto_buffer_target memory buffer (length buffer) w in
      if is_buffer target.type then sent else (result, memory, w1)

  -- The message to the console, if sending it failed and the target has the option for it.
  pub fall_back : Target → Bytes → ℤ × BufferTarget × World → ℤ × BufferTarget × World
  fall_back target buffer (pos n, memory, w) = (pos n, memory, w)
  fall_back target buffer (negsuc n, memory, w) =
      let (cons, w1) = unchecked_get_option target option_cons w in
      (negsuc n, memory, if cons == 0 then w1 else others.write_to_cons_stream buffer w1)

  -- What follows the filter. `format` is the call of `format_entry`; the builder that comes back is the
  -- one that is destroyed.
  pub deliver :
      (World → Option StrBuilder × World)
      → Target
      → Entry
      → BufferTarget
      → World
      → ℤ × BufferTarget × Option StrBuilder × World
  deliver format target entry memory w =
      let (perror, w1) = stumpless_get_option target option_perror w in
      let (builder, w2) = format w1 in
      let echoed : Bytes → World =
        λ buffer. if perror == 0 then w2 else others.write_to_error_stream buffer w2 in
      let sent_entry : Option StrBuilder → World → ℤ × BufferTarget × Option StrBuilder × World =
        λ used w'.
          let (result, w'') = others.send_entry target entry w' in (result, memory, used, w'') in
      let sent_message : StrBuilder → ℤ × BufferTarget × Option StrBuilder × World = λ b.
        let buffer = strbuilder_get_buffer b in
        let (result, memory', w') =
          fall_back target buffer (send_buffer target entry memory buffer (echoed buffer)) in
        (result, memory', some b, w') in
      if takes_entries target.type
      then (if perror == 0 then sent_entry none w1 else elim builder [
        | none ↦ (negsuc 0, memory, none, w2)
        | some b ↦ sent_entry (some b) (echoed (strbuilder_get_buffer b))
      ])
      else elim builder [ none ↦ (negsuc 0, memory, none, w2) | some b ↦ sent_message b ]

  -- On a target and an entry that are not NULL.
  pub stumpless_add_entry :
      System
      → Option (Option (ℕ × Bytes))
      → ℕ
      → Store
      → Target
      → Entry
      → BufferTarget
      → World
      → ℤ × BufferTarget × Option StrBuilder × World
  stumpless_add_entry system cached page_size store target entry memory w =
      let delayed = not (bit_and target.options option_odelay == 0) in
      let (opened, w0) = stumpless_open_target target w in
      let w1 = if delayed then w0 else w in
      let (filter, w2) = stumpless_get_target_filter target w1 in
      let (passes, w3) = call_filter filter target entry w2 in
      let format : World → Option StrBuilder × World = λ w'.
        let (builder, returned, w'') =
          format_entry system cached page_size store entry target.options w' in
        (builder, w'') in
      let delivered = deliver format target entry memory w3 in
      if is_null target.id
      then (negsuc 0, memory, none, raise_invalid_id w)
      else if delayed && not opened
      then (negsuc 0, memory, none, w0)
      else if passes
      then delivered
      else (pos 0, memory, none, w3)
