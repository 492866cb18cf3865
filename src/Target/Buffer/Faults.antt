-- ===== src/Target/Buffer/Faults.antt =====
-- Where a buffer target does not behave as a queue of messages.
use stumpless.Base.{
  ℕ, ◌+◌, ◌-◌, ◌%◌, ◌^◌, ◌<◌, ◌≡◌, refl, ap, [], ◌∷◌, ◌++◌, false, some, Bytes, All, length, leb,
  ◌==◌, length-append, arith,
}
use stumpless.World.{World, unlock-lock}
use stumpless.Error.{cap_size_t_to_int}
use stumpless.Target.Buffer.{
  BufferTarget, write_message, skip_overwritten, sendto_buffer_target, stumpless_read_buffer,
}
use stumpless.Target.Buffer.Invariant.{IsValid, write_message-around}
use stumpless.Target.Buffer.Window.{around, window}
use stumpless.Target.Buffer.Fifo.{used, pending}
use stumpless.Target.Buffer.Reading.{length-window, read_loop-message}

keeps_full :
    (t : BufferTarget) (n : ℕ) (t' : BufferTarget)
    → t'.size ≡ t.size
    → n < t.size
    → t.read_position ≡ t.write_position
    → t.write_position < t.size
    → skip_overwritten t.read_position t.write_position n t' ≡ t'
unfolding skip_overwritten
keeps_full t n t' size h k l = ground arith

-- On a valid target whose positions are equal, not at the start and not at the end, a message that
-- fills the memory with its NUL is reported as sent, and none of it waits for a reader.
pub full_message_lost :
    (t : BufferTarget) (text : Bytes) (newline : ℕ) (w : World)
    → IsValid t
    → t.read_position ≡ t.write_position
    → 0 < t.write_position
    → t.write_position < t.size
    → length text + 1 ≡ t.size
    → let (result, t', w') = sendto_buffer_target t (text ++ newline ∷ []) (length text + 1) w in
      (result ≡ cap_size_t_to_int t.size) × (pending t' ≡ [])
unfolding sendto_buffer_target
full_message_lost t text newline w v drained start inside full =
    let n = length text in
    let msg = text ++ newline ∷ [] in
    let counted : (n + 1 + 2 ^ 64 - 1) % 2 ^ 64 ≡ n = omega (arith, v.small) in
    let fits : leb t.size n ≡ false = ground arith in
    let wraps = write_message-around t msg n (omega arith) in
    let kept =
      keeps_full t n (write_message t msg n) (ap (λ s. s.size) wraps) (omega arith) drained
        inside in
    let empty : used (write_message t msg n) ≡ 0 = rw wraps (ground arith) in
    let t' = write_message t msg n in
    rw (counted, fits, kept)
      (ap cap_size_t_to_int full, ap (window t'.buffer t'.size t'.read_position) empty)

-- On a valid target whose writer has stopped right at the end of the memory, the read of the last
-- message makes the whole memory wait: what was read before is read again.
pub last_message_again :
    (t : BufferTarget) (text : Bytes) (max_length : ℕ) (w : World)
    → IsValid t
    → t.write_position ≡ t.size
    → pending t ≡ text ++ 0 ∷ []
    → All (λ c. 0 < c) text
    → length text + 1 < max_length
    → (t' : BufferTarget) × (stumpless_read_buffer (some t) (some max_length) w
        ≡ (length text + 1, text ++ 0 ∷ [], some t', w))
      × (t'.read_position ≡ 0)
      × (pending t' ≡ window t.buffer t.size 0 t.size)
unfolding stumpless_read_buffer
last_message_again t text max_length w v end e nz sp =
    let (read, left) =
      read_loop-message t text [] (max_length - 1) (used t) t.read_position v.writes_inside
        v.reads_inside refl e nz (omega arith) in
    let space : (max_length == 0) ≡ false = ground arith in
    let len : used t ≡ length text + 1 = omega (
      arith,
      ap length e,
      length-window t.buffer t.size t.read_position (used t),
      length-append text (0 ∷ []),
    ) in
    let back : around t.size (t.read_position + (length text + 1)) ≡ 0 =
      ground (arith, v.reads_inside) in
    let all : used (record t { read_position = 0 }) ≡ t.size = ground arith in
    (
      record t { read_position = 0 },
      rw (space, read, back, unlock-lock t.buffer_mutex w, length-append text (0 ∷ [])) refl,
      refl,
      ap (window t.buffer t.size 0) all,
    )
