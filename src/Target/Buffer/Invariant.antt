-- ===== src/Target/Buffer/Invariant.antt =====
-- The positions of a buffer target stay inside its memory.
use stumpless.Base.{
  ℕ, ◌+◌, ◌-◌, ◌%◌, ◌^◌, ◌≤◌, ◌<◌, ◌≡◌, refl, Bytes, length, take, drop, set, memcpy, length-memcpy,
  length-set, ltb, leb, ltb→lt, Bool-cases, ◌∷◌, ◌⊎◌, ◌∙◌, inl, inr, zero, suc, Option, none, some,
  ◌==◌, arith,
}
use stumpless.World.{World, alloc_mem, raise_memory_allocation_failure}
use stumpless.Target.Buffer.{
  BufferTarget, new_buffer_target, write_message, skip_overwritten, read_loop, sendto_buffer_target,
  stumpless_read_buffer,
}

pub record IsValid (t : BufferTarget) : Type 0 where
  pub lent : t.size ≤ length t.buffer
  pub small : t.size < 2 ^ 63
  pub reads_inside : t.read_position < t.size
  pub writes_inside : t.write_position ≤ t.size

module _ (t : BufferTarget) (msg : Bytes) (n : ℕ) where
  -- A message that ends before the end of the memory.
  pub write_message-straight :
      n < t.size - t.write_position
      → write_message t msg n ≡ record t {
        buffer = set (memcpy t.buffer t.write_position (take n msg)) (t.write_position + n) 0;
        write_position = t.write_position + n + 1;
      }
  unfolding write_message
  write_message-straight h = ground arith

  -- A message that goes on at the beginning of the memory.
  pub write_message-around :
      t.size - t.write_position ≤ n
      → let rest = n - (t.size - t.write_position) in
        write_message t msg n ≡ record t {
          buffer =
              set
                (memcpy
                  (memcpy t.buffer t.write_position (take (t.size - t.write_position) msg))
                  0
                  (take rest (drop (t.size - t.write_position) msg)))
                rest
                0;
          write_position = rest + 1;
        }
  unfolding write_message
  write_message-around h = ground arith

  write_message_inside :
      IsValid t
      → n < t.size
      → let t' = write_message t msg n in
        (length t'.buffer ≡ length t.buffer)
        × (t'.size ≡ t.size)
        × (t'.read_position ≡ t.read_position)
        × (t'.write_position ≤ t.size)
  write_message_inside v h = elim (Bool-cases (ltb n (t.size - t.write_position))) [
    | inl fits ↦
        rw (write_message-straight (ltb→lt _ _ fits))
          (length-set _ _ _ ∙ length-memcpy _ _ _, refl, refl, ground arith)
    | inr around ↦ rw (write_message-around (ground arith)) (
      length-set _ _ _ ∙ length-memcpy _ _ _ ∙ length-memcpy _ _ _,
      refl,
      refl,
      ground (arith, v.writes_inside),
    )
  ]

write_message-IsValid :
    (t : BufferTarget) (msg : Bytes) (n : ℕ)
    → IsValid t
    → n < t.size
    → IsValid (write_message t msg n)
write_message-IsValid t msg n v h =
    let (len, size, read, write) = write_message_inside t msg n v h in
    record {
      lent = omega (arith, len, size, v.lent);
      small = omega (arith, size, v.small);
      reads_inside = omega (arith, read, size, v.reads_inside);
      writes_inside = omega (arith, write, size);
    }

skip_overwritten_inside :
    (read write n : ℕ) (t : BufferTarget) → IsValid t → IsValid (skip_overwritten read write n t)
unfolding skip_overwritten
skip_overwritten_inside read write n t v = ground arith

-- Sending keeps a valid target valid on every branch: the positions stay inside the lent memory.
pub sendto_buffer_target-IsValid :
    (t : BufferTarget) (msg : Bytes) (msg_length : ℕ) (w : World)
    → IsValid t
    → IsValid (sendto_buffer_target t msg msg_length w).1
unfolding sendto_buffer_target
sendto_buffer_target-IsValid t msg msg_length w v =
    let n = (msg_length + 2 ^ 64 - 1) % 2 ^ 64 in
    elim (Bool-cases (leb t.size n)) [
      | inl big ↦ rw big v
      | inr fits ↦ rw fits (
          skip_overwritten_inside t.read_position t.write_position n (write_message t msg n)
            (write_message-IsValid t msg n v (ground arith)))
    ]

read_loop_inside :
    (t : BufferTarget) (space read : ℕ) → read < t.size → (read_loop t space read).0 < t.size
unfolding read_loop
read_loop_inside t zero read h = h
read_loop_inside t (suc space) read h =
    ground (arith, read_loop_inside t space ((read + 1) % t.size))

-- Reading keeps a valid target valid on every branch, and leaves the memory and the write position
-- alone.
pub stumpless_read_buffer-IsValid :
    (t : BufferTarget) (max_length : Option ℕ) (w : World)
    → IsValid t
    → (t' : BufferTarget) × ((stumpless_read_buffer (some t) max_length w).2 ≡ some t')
      × IsValid t'
      × (t'.buffer ≡ t.buffer)
      × (t'.write_position ≡ t.write_position)
unfolding stumpless_read_buffer
stumpless_read_buffer-IsValid t none w v = (t, refl, v, refl, refl)
stumpless_read_buffer-IsValid t (some max_length) w v =
    let read = (read_loop t (max_length - 1) t.read_position).0 in
    let inside = read_loop_inside t (max_length - 1) t.read_position v.reads_inside in
    elim (Bool-cases (max_length == 0)) [
      | inl nothing ↦ (t, rw nothing, v, refl, refl)
      | inr space ↦ (
        record t { read_position = read },
        rw space,
        record {
          lent = v.lent;
          small = v.small;
          reads_inside = inside;
          writes_inside = v.writes_inside;
        },
        refl,
        refl,
      )
    ]

-- A new target over lent memory of a positive size below 2^63 is valid, reads where it writes and
-- has not written the memory, unless the memory for the target itself runs out.
pub new_buffer_target-IsValid :
    (sizeof_target : ℕ) (buffer : Bytes) (size mutex : ℕ) (w : World)
    → 0 < size
    → size < 2 ^ 63
    → size ≤ length buffer
    → ((t : BufferTarget) × (new_buffer_target sizeof_target buffer size mutex w ≡ (
      some (w.calls, t),
      record w { calls = w.calls + 1; live = w.calls ∷ w.live; mutexes = mutex ∷ w.mutexes },
    ))
        × IsValid t
        × (t.buffer ≡ buffer)
        × (t.read_position ≡ t.write_position))
      ⊎ (new_buffer_target sizeof_target buffer size mutex w
          ≡ (none, raise_memory_allocation_failure (record w { calls = w.calls + 1 })))
unfolding new_buffer_target alloc_mem
new_buffer_target-IsValid sizeof_target buffer size mutex w p q l =
    elim (Bool-cases (w.malloc w.calls sizeof_target)) [
      | inr refused ↦ inr (ground arith)
      | inl granted ↦ inl (
        record {
          buffer = buffer;
          size = size;
          read_position = 0;
          write_position = 0;
          buffer_mutex = mutex;
        },
        ground arith,
        record { lent = l; small = q; reads_inside = p; writes_inside = omega arith },
        refl,
        refl,
      )
    ]
