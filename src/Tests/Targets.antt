-- ===== src/Tests/Targets.antt =====
-- Targets that are opened, closed and written to, and messages sent to them.
use stumpless.Base.{
  ℕ, ◌+◌, ◌≡◌, ◌≢◌, refl, [], ◌∷◌, ◌++◌, List, Bytes, codes, replicate, none, some, ◌⊎◌, get_or,
  arith,
}
use stumpless.Base.Int.{ℤ, pos}
use stumpless.World.{World}
use stumpless.Severity.{get_severity}
use stumpless.Validate.Utf8.Accepted.{no_error}
use stumpless.Target.{
  Target, buffer_target, chain_target, function_target, stream_target, mask_filter,
}
use stumpless.Target.Life.{
  stumpless_open_buffer_target, stumpless_open_function_target, stumpless_open_stream_target,
  stumpless_new_chain, stumpless_close_buffer_target, stumpless_close_function_target,
  stumpless_close_stream_target, stumpless_close_chain_only, no_blocks, buffer_mutexes,
  stream_mutexes, chain_mutexes,
}
use stumpless.Target.Life.Open.{Opens}
use stumpless.Target.Life.Pairs.{
  IsEmptyBuffer, IsPlainStream, IsEmptyChain, IsClosed, open_target-Opens, close-open,
}
use stumpless.Target.Stream.{
  StreamTarget, Stream, severity_index, c_string, reset_code, sendto_stream_target,
}
use stumpless.Target.Stream.Writing.{Sent, IsShort, sendto_stream_target-Sent}
use stumpless.Entry.{Entry}
use stumpless.Messages.{stumpless_add_log_str}
use stumpless.Messages.Sending.{IsSent, IsUnsent, stumpless_add_log_str-IsSent}
use stumpless.Tests.Entry.{entry, entry-IsValid}

abbrev buffer : Bytes
buffer = replicate 16 0

abbrev content : List Bytes
content = replicate 8 (replicate 32 7)

open_target-Opens_example :
    Opens (IsEmptyBuffer buffer 16) buffer_mutexes buffer_target (codes "t") no_error (
      stumpless_open_buffer_target 128 1
        (pos 14)
        64
        5
        (some (codes "t"))
        (some buffer)
        16
        (none, no_error))
    × Opens
        (λ l. l ≡ 3)
        no_blocks
        function_target
        (codes "t")
        no_error
        (stumpless_open_function_target 128 1
          (pos 14)
          64
          (some (codes "t"))
          (some 3)
          (none, no_error))
    × Opens (IsPlainStream content 2) stream_mutexes stream_target (codes "t") no_error (
        stumpless_open_stream_target 128 1
          (pos 14)
          64
          content
          5
          (some (codes "t"))
          (some 2)
          (none, no_error))
    × Opens IsEmptyChain chain_mutexes chain_target
        (codes "t")
        no_error
        (stumpless_new_chain 128 1 (pos 14) 4 64 5 (some (codes "t")) (none, no_error))
open_target-Opens_example =
    open_target-Opens 128 1 (pos 14) 64 5 (codes "t") none no_error buffer 16 3 2 4 content

close-open_example :
    let (b, s1) =
      stumpless_open_buffer_target 128 1
        (pos 14)
        64
        5
        (some (codes "t"))
        (some buffer)
        16
        (none, no_error) in
    let (f, s2) =
      stumpless_open_function_target 128 1
        (pos 14)
        64
        (some (codes "t"))
        (some 3)
        (none, no_error) in
    let (s, s3) =
      stumpless_open_stream_target 128 1
        (pos 14)
        64
        content
        5
        (some (codes "t"))
        (some 2)
        (none, no_error) in
    let (c, s4) = stumpless_new_chain 128 1 (pos 14) 4 64 5 (some (codes "t")) (none, no_error) in
    IsClosed no_error b (stumpless_close_buffer_target b s1)
    × IsClosed no_error f (stumpless_close_function_target f s2)
    × IsClosed no_error s (stumpless_close_stream_target s s3)
    × IsClosed no_error c (stumpless_close_chain_only c s4)
close-open_example =
    close-open 128 1 (pos 14) 64 5 (codes "t") none no_error buffer 16 3 2 4 content

abbrev target : Target
target = record {
  block = 0;
  id = some 1;
  type = buffer_target;
  name_block = 2;
  name = codes "t";
  name_length = 1;
  options = 1;
  default_prival = pos 14;
  default_app_name = codes "app";
  default_app_name_length = 3;
  default_msgid = codes "-";
  default_msgid_length = 1;
  mask = 255;
  filter = some mask_filter;
  mutex = 7;
}

-- The code for severity 5 is "red".
abbrev starget : StreamTarget
starget = record {
  stream = 2;
  escape_codes =
      (0 ∷ [])
      ∷ (0 ∷ [])
      ∷ (0 ∷ [])
      ∷ (0 ∷ [])
      ∷ (0 ∷ [])
      ∷ (codes "red" ++ 0 ∷ [])
      ∷ (0 ∷ [])
      ∷ (0 ∷ [])
      ∷ [];
  stream_mutex = 5;
}

-- The same target for a stream.
abbrev colored : Target
colored = record target { type = stream_target }

abbrev stream : Stream
stream = record { output = []; writes = 0; takes = λ n. 1000 }

sendto_stream_target-Sent_example :
    let code =
      c_string (get_or starget.escape_codes (severity_index (get_severity (pos 165))) []) in
    let sent = sendto_stream_target starget (codes "hello") entry (stream, no_error) in
    ((code ≡ []) × Sent [] 5 (codes "hello") (IsShort stream 0 (codes "hello")) no_error sent)
    ⊎ ((code ≢ [])
        × Sent [] 4
            ((code ++ codes "hello") ++ reset_code)
            (IsShort stream 0 code ⊎ IsShort stream 1 (codes "hello") ⊎ IsShort stream 2 reset_code)
            no_error
            sent)
sendto_stream_target-Sent_example =
    sendto_stream_target-Sent starget (codes "hello") entry stream no_error (omega arith)

-- A send that counts what it was given.
abbrev send : Target → Entry → ℕ → World → ℤ × ℕ × World
send t e n w = (pos e.message_length, n + 1, w)

stumpless_add_log_str-IsSent_example :
    let result =
      stumpless_add_log_str send entry
        (some target)
        (pos 14)
        (some (codes "hi"))
        (some entry)
        0
        no_error in
    IsSent send target (pos 14) (some (codes "hi")) 0 result ⊎ IsUnsent send 0 result
stumpless_add_log_str-IsSent_example =
    stumpless_add_log_str-IsSent send entry target (pos 14) (some (codes "hi")) (some entry) 0
      no_error
      ((refl, omega arith, omega arith), (refl, omega arith, omega arith), (14, omega arith, refl))
      (14, omega arith, refl) entry-IsValid
