-- ===== src/Target/Stream.antt =====
-- src/target/stream.c: messages written to a stream, in a color for each severity.
pub mod Colors
pub mod Writing
use stumpless.Base.{
  ℕ, ◌+◌, [], ◌∷◌, ◌++◌, List, map, Bytes, Bool, true, false, Option, none, some, length, take,
  get_or, set, replicate, ◌==◌, if◌then◌else◌, min,
}
use stumpless.Base.Int.{ℤ, pos, negsuc}
use stumpless.Error.{cap_size_t_to_int, severity_colors_unsupported_target_error_message}
use stumpless.World.{
  World, alloc_mem, init_mutex, lock_mutex, unlock_mutex, clear_error, raise_invalid_severity,
  raise_target_unsupported, raise_stream_write_failure,
}
use stumpless.Severity.{severity_is_invalid}
use stumpless.Entry.{Entry}
use stumpless.Dispatch.{stumpless_get_entry_severity}
use stumpless.Target.{Target, TargetType, stream_target, lock_target, unlock_target}

abbrev pub is_stream : TargetType → Bool
is_stream stream_target = true
is_stream type = false

-- `struct stream_target`: the stream by its number, and an array of 8 codes of 32 bytes.
pub record StreamTarget : Type 0 where
  pub stream : ℕ
  pub escape_codes : List Bytes
  pub stream_mutex : ℕ

-- `content` is what new memory holds in place of the codes.
unfoldable pub new_stream_target :
    ℕ → List Bytes → ℕ → ℕ → World → Option (ℕ × StreamTarget) × World
new_stream_target sizeof_stream content stream mutex w =
    let (target, w1) = alloc_mem sizeof_stream w in
    elim target [
      | none ↦ (none, w1)
      | some block ↦ (
        some (block, record { stream = stream; escape_codes = content; stream_mutex = mutex }),
        init_mutex mutex w1,
      )
    ]

-- The loop of `stumpless_open_stream_target`: every code is empty.
unfoldable pub clear_codes : StreamTarget → StreamTarget
clear_codes target = record target { escape_codes = map (λ code. set code 0 0) target.escape_codes }

-- A severity is not negative.
abbrev pub severity_index : ℤ → ℕ
severity_index (pos severity) = severity
severity_index (negsuc n) = 0

-- `strncpy( code, escape_code, 32 )`, and the NUL at its end.
abbrev pub copied_code : Bytes → Bytes
copied_code escape_code = set (take 32 (escape_code ++ replicate 32 0)) 31 0

-- On the struct that the target keeps, if it is a stream target.
pub stumpless_set_severity_color : Target → StreamTarget → ℤ → Bytes → World → StreamTarget × World
stumpless_set_severity_color target starget severity escape_code w =
    let w1 = lock_target target w in
    if severity_is_invalid severity
    then (starget, raise_invalid_severity severity w)
    else if is_stream target.type
    then (
      record starget {
        escape_codes = set starget.escape_codes (severity_index severity) (copied_code escape_code);
      },
      clear_error (unlock_target target w1),
    )
    else (starget, raise_target_unsupported severity_colors_unsupported_target_error_message w1)

-- The stream of C: what was written to it, and how many bytes at most it takes with its call number
-- `writes`.
pub record Stream : Type 0 where
  pub output : Bytes
  pub writes : ℕ
  pub takes : ℕ → ℕ

pub fwrite : Bytes → Stream → ℕ × Stream
fwrite buffer stream =
    let result = min (stream.takes stream.writes) (length buffer) in
    (
      result,
      record stream { output = stream.output ++ take result buffer; writes = stream.writes + 1 },
    )

-- `strlen` and the bytes in front of the NUL.
abbrev pub c_string : Bytes → Bytes
c_string [] = []
c_string (c ∷ s) = if c == 0 then [] else c ∷ c_string s

abbrev pub reset_code : Bytes
reset_code = 27 ∷ b'[' ∷ b'0' ∷ b'm' ∷ []

-- One write and what is done if it is short.
abbrev pub write_all : Bytes → Bool × ℕ × Stream → Bool × ℕ × Stream
write_all buffer (done, last, stream) =
    let (fwrite_result, stream') = fwrite buffer stream in
    if done then (fwrite_result == length buffer, fwrite_result, stream') else (false, last, stream)

pub sendto_stream_target : StreamTarget → Bytes → Entry → Stream × World → ℤ × Stream × World
sendto_stream_target target msg entry (stream, w) =
    let (severity, w1) = stumpless_get_entry_severity entry w in
    let sev_code = c_string (get_or target.escape_codes (severity_index severity) []) in
    let w2 = lock_mutex target.stream_mutex w1 in
    let colored = if length sev_code == 0 then false else true in
    let first = if colored then write_all sev_code (true, 0, stream) else (true, 0, stream) in
    let second = write_all msg first in
    let (done, fwrite_result, stream') = if colored then write_all reset_code second else second in
    let w3 = unlock_mutex target.stream_mutex w2 in
    if done
    then (cap_size_t_to_int (fwrite_result + 1), stream', w3)
    else (negsuc 0, stream', raise_stream_write_failure w3)
