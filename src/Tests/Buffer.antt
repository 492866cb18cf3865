-- ===== src/Tests/Buffer.antt =====
-- The buffer targets of src/target/buffer.c on concrete memory.
use stumpless.Base.{◌+◌, ◌≡◌, refl, [], ◌∷◌, ◌++◌, some, inl, codes, length, arith}
use stumpless.Error.{cap_size_t_to_int}
use stumpless.Validate.Utf8.Accepted.{no_error}
use stumpless.Target.Buffer.{BufferTarget, sendto_buffer_target, stumpless_read_buffer}
use stumpless.Target.Buffer.Invariant.{IsValid}
use stumpless.Target.Buffer.Window.{window}
use stumpless.Target.Buffer.Fifo.{used, pending, sendto_buffer_target-queues}
use stumpless.Target.Buffer.Reading.{stumpless_read_buffer-dequeues}
use stumpless.Target.Buffer.Faults.{full_message_lost, last_message_again}

-- Eight bytes: "ab" waits from index 4 on, and the writer stands at 7.
abbrev target : BufferTarget
target = record {
  buffer = 0 ∷ 0 ∷ 0 ∷ 0 ∷ b'a' ∷ b'b' ∷ 0 ∷ 0 ∷ [];
  size = 8;
  read_position = 4;
  write_position = 7;
  buffer_mutex = 0;
}

target-IsValid : IsValid target
target-IsValid = record {
  lent = omega arith;
  small = omega arith;
  reads_inside = omega arith;
  writes_inside = omega arith;
}

sendto_buffer_target-queues_example :
    let (result, t, w') =
      sendto_buffer_target target (codes "cd" ++ 10 ∷ []) (length (codes "cd") + 1) no_error in
    (result ≡ cap_size_t_to_int (length (codes "cd") + 1))
    × (pending t ≡ pending target ++ (codes "cd" ++ 0 ∷ []))
    × (used t ≡ used target + length (codes "cd") + 1)
    × (t.read_position ≡ 4)
    × (w' ≡ no_error)
sendto_buffer_target-queues_example =
    sendto_buffer_target-queues target (codes "cd") 10 no_error target-IsValid (omega arith)

stumpless_read_buffer-dequeues_example :
    (t : BufferTarget) × (stumpless_read_buffer (some target) (some 100) no_error
      ≡ (length (codes "ab") + 1, codes "ab" ++ 0 ∷ [], some t, no_error))
    × (pending t ≡ [])
stumpless_read_buffer-dequeues_example =
    stumpless_read_buffer-dequeues target (codes "ab") [] 100 no_error target-IsValid refl
      (omega arith) (omega arith) (inl (omega arith))

-- The same memory, with nothing waiting.
abbrev drained : BufferTarget
drained = record target { read_position = 7 }

drained-IsValid : IsValid drained
drained-IsValid = record {
  lent = omega arith;
  small = omega arith;
  reads_inside = omega arith;
  writes_inside = omega arith;
}

full_message_lost_example :
    let (result, t, w') =
      sendto_buffer_target drained
        (codes "1234567" ++ 10 ∷ [])
        (length (codes "1234567") + 1)
        no_error in
    (result ≡ cap_size_t_to_int 8) × (pending t ≡ [])
full_message_lost_example =
    full_message_lost drained (codes "1234567") 10 no_error drained-IsValid refl (omega arith)
      (omega arith) refl

-- The writer right at the end of the memory.
abbrev at_end : BufferTarget
at_end = record {
  buffer = b'o' ∷ b'l' ∷ b'd' ∷ 0 ∷ b'n' ∷ b'e' ∷ b'w' ∷ 0 ∷ [];
  size = 8;
  read_position = 4;
  write_position = 8;
  buffer_mutex = 0;
}

at_end-IsValid : IsValid at_end
at_end-IsValid = record {
  lent = omega arith;
  small = omega arith;
  reads_inside = omega arith;
  writes_inside = omega arith;
}

last_message_again_example :
    (t : BufferTarget) × (stumpless_read_buffer (some at_end) (some 100) no_error
      ≡ (length (codes "new") + 1, codes "new" ++ 0 ∷ [], some t, no_error))
    × (t.read_position ≡ 0)
    × (pending t ≡ window at_end.buffer 8 0 8)
last_message_again_example =
    last_message_again at_end (codes "new") 100 no_error at_end-IsValid refl refl (omega arith)
      (omega arith)
