-- ===== src/Target/Buffer.antt =====
-- src/target/buffer.c: a ring of bytes that holds messages, each closed by a NUL.
pub mod Invariant
pub mod Window
pub mod Fifo
pub mod Reading
pub mod Faults
use stumpless.Base.{
  ℕ, zero, suc, ◌+◌, ◌-◌, ◌%◌, ◌^◌, [], ◌∷◌, Bytes, Option, none, some, length, take, drop, set,
  get_or, memcpy, ltb, leb, ◌==◌, if◌then◌else◌,
}
use stumpless.Base.Int.{ℤ, pos, negsuc}
use stumpless.Error.{
  cap_size_t_to_int, buffer_too_small_error_message, message_size_error_code_type,
  null_arg_error_message,
}
use stumpless.World.{
  World, alloc_mem, init_mutex, lock_mutex, unlock_mutex, raise_argument_too_big,
  raise_argument_empty,
}

-- `struct buffer_target`. `buffer` is the memory that the caller lent, of at least `size` bytes.
pub record BufferTarget : Type 0 where
  pub buffer : Bytes
  pub size : ℕ
  pub read_position : ℕ
  pub write_position : ℕ
  pub buffer_mutex : ℕ

-- The block of the new target, of `sizeof_target` bytes, with its contents; `buffer_mutex` is the
-- mutex inside it.
unfoldable pub new_buffer_target : ℕ → Bytes → ℕ → ℕ → World → Option (ℕ × BufferTarget) × World
new_buffer_target sizeof_target buffer size buffer_mutex w =
    let (target, w') = alloc_mem sizeof_target w in
    elim target [
      | none ↦ (none, w')
      | some block ↦ (
        some (
          block,
          record {
            buffer = buffer;
            size = size;
            read_position = 0;
            write_position = 0;
            buffer_mutex = buffer_mutex;
          },
        ),
        init_mutex buffer_mutex w',
      )
    ]

-- The message into the ring, and a NUL behind it.
pub write_message : BufferTarget → Bytes → ℕ → BufferTarget
write_message target msg msg_length =
    let write_start = target.write_position in
    let buffer_remaining = target.size - write_start in
    let written =
      if ltb msg_length buffer_remaining
      then record target {
        buffer = memcpy target.buffer write_start (take msg_length msg);
        write_position = write_start + msg_length + 1;
      }
      else record target {
        buffer =
            memcpy (memcpy target.buffer write_start (take buffer_remaining msg)) 0
              (take (msg_length - buffer_remaining) (drop buffer_remaining msg));
        write_position = msg_length - buffer_remaining + 1;
      } in
    record written { buffer = set written.buffer (written.write_position - 1) 0 }

-- The reader moves on where the message has run over what it had not yet read.
pub skip_overwritten : ℕ → ℕ → ℕ → BufferTarget → BufferTarget
skip_overwritten read_position write_start msg_length target =
    let free_space_left =
      if ltb write_start read_position
      then read_position - write_start
      else target.size - write_start + read_position in
    let skipped = (target.write_position + 1) % target.size in
    if leb free_space_left msg_length
    then (if get_or target.buffer skipped 0 == 0
        then record target { read_position = (skipped + 1) % target.size }
        else record target { read_position = skipped })
    else target

-- `msg_length` counts the newline at the end of `msg`, which is left off; `size_t` wraps at 0.
pub sendto_buffer_target : BufferTarget → Bytes → ℕ → World → ℤ × BufferTarget × World
sendto_buffer_target target msg msg_length w =
    let msg_length' = (msg_length + 2 ^ 64 - 1) % 2 ^ 64 in
    let sent =
      skip_overwritten target.read_position target.write_position msg_length'
        (write_message target msg msg_length') in
    if leb target.size msg_length'
    then (
      negsuc 0,
      target,
      raise_argument_too_big buffer_too_small_error_message msg_length'
          (some message_size_error_code_type) w,
    )
    else (
      cap_size_t_to_int (msg_length' + 1),
      sent,
      unlock_mutex target.buffer_mutex (lock_mutex target.buffer_mutex w),
    )

-- The loop of `stumpless_read_buffer`, with room for `space` bytes and the NUL: the read position it
-- leaves, and the bytes it puts out, the NUL included.
pub read_loop : BufferTarget → ℕ → ℕ → ℕ × Bytes
read_loop target zero read_position = (read_position, 0 ∷ [])
read_loop target (suc space) read_position =
    let c = get_or target.buffer read_position 0 in
    let next = (read_position + 1) % target.size in
    let rest = read_loop target space next in
    if read_position == target.write_position
    then (read_position, 0 ∷ [])
    else if c == 0
    then (next, 0 ∷ [])
    else (rest.0, c ∷ rest.1)

-- A target and a buffer that may be NULL; the result is the number of bytes put out, those bytes,
-- and the target.
pub stumpless_read_buffer :
    Option BufferTarget → Option ℕ → World → ℕ × Bytes × Option BufferTarget × World
stumpless_read_buffer none max_length w =
    (0, [], none, raise_argument_empty (null_arg_error_message "target") w)
stumpless_read_buffer (some target) none w =
    (0, [], some target, raise_argument_empty (null_arg_error_message "buffer") w)
stumpless_read_buffer (some target) (some max_length) w =
    let (read_position, out) = read_loop target (max_length - 1) target.read_position in
    if max_length == 0
    then (0, [], some target, raise_argument_empty (null_arg_error_message "buffer") w)
    else (
      length out,
      out,
      some (record target { read_position = read_position }),
      unlock_mutex target.buffer_mutex (lock_mutex target.buffer_mutex w),
    )
