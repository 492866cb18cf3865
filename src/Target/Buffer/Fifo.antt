-- ===== src/Target/Buffer/Fifo.antt =====
-- A buffer target as a queue of the bytes that are written and not yet read.
use stumpless.Base.{
  ℕ, ◌+◌, ◌-◌, ◌%◌, ◌^◌, ◌≤◌, ◌<◌, ◌≡◌, refl, ap, ◌∙◌, [], ◌∷◌, ◌++◌, false, inl, inr, Bytes,
  length, take, drop, memcpy, ltb, leb, if◌then◌else◌, Bool-cases, ltb→lt, length-append,
  length-take, length-drop, take-split, take-left, append_assoc, arith,
}
use stumpless.World.{World, unlock-lock}
use stumpless.Error.{cap_size_t_to_int}
use stumpless.Target.Buffer.{BufferTarget, write_message, skip_overwritten, sendto_buffer_target}
use stumpless.Target.Buffer.Invariant.{IsValid, write_message-straight, write_message-around}
use stumpless.Target.Buffer.Window.{
  around, window, write_round, window-write_round, write_round-memcpy, write_round-memcpy_end,
  write_round-append,
}

-- The number of bytes between the two positions.
abbrev pub used : BufferTarget → ℕ
used t =
    if leb t.read_position t.write_position
    then t.write_position - t.read_position
    else t.size - t.read_position + t.write_position

-- The bytes that wait for a reader, the oldest first.
abbrev pub pending : BufferTarget → Bytes
pending t = window t.buffer t.size t.read_position (used t)

module _ (t : BufferTarget) (msg : Bytes) (n : ℕ) (v : IsValid t) (whole : n ≤ length msg) where
  straight_write_round :
      n < t.size - t.write_position
      → (write_message t msg n).buffer
        ≡ write_round t.buffer t.size (around t.size t.write_position) (take n msg ++ 0 ∷ [])
  straight_write_round h =
      let len : length (take n msg) ≡ n = omega (arith, length-take n msg) in
      let start : around t.size t.write_position ≡ t.write_position = ground arith in
      let end : around t.size (t.write_position + length (take n msg)) ≡ t.write_position + n =
        ground arith in
      rw (
        write_message-straight t msg n h,
        start,
        write_round-append (take n msg) (0 ∷ []) t.buffer t.size t.write_position (omega arith)
            (omega (arith, len)),
        end,
        write_round-memcpy (take n msg) t.buffer t.size t.write_position (omega (arith, len)),
      )

  around-write_round :
      t.size - t.write_position ≤ n
      → n < t.size
      → (write_message t msg n).buffer
        ≡ write_round t.buffer t.size (around t.size t.write_position) (take n msg ++ 0 ∷ [])
  around-write_round h k =
      let room = t.size - t.write_position in
      let first = take room msg in
      let second = take (n - room) (drop room msg) in
      let len1 : length first ≡ room = omega (arith, length-take room msg) in
      let len2 : length second ≡ n - room =
        omega (arith, length-take (n - room) (drop room msg), length-drop room msg) in
      let parts : take n msg ≡ first ++ second =
        ap (λ m. take m msg) (omega arith) ∙ take-split room (n - room) msg in
      let turned : around t.size (around t.size t.write_position + length first) ≡ 0 =
        ground (arith, v.writes_inside, v.reads_inside) in
      let end : around t.size (0 + length second) ≡ n - room = ground arith in
      rw (
        write_message-around t msg n h,
        parts,
        append_assoc first second (0 ∷ []),
        write_round-append first (second ++ 0 ∷ []) t.buffer t.size (around t.size t.write_position)
            (ground (arith, v.writes_inside, v.reads_inside)) (omega (arith, len1)),
        turned,
        write_round-append second (0 ∷ [])
            (write_round t.buffer t.size (around t.size t.write_position) first) t.size 0
            (omega arith) (omega (arith, len2)),
        end,
        write_round-memcpy_end first t.buffer t.size t.write_position
            (omega (arith, len1, v.writes_inside)),
        write_round-memcpy second (memcpy t.buffer t.write_position first) t.size 0
            (omega (arith, len2)),
      )

  -- A message is written byte after byte round the ring, and a NUL behind it.
  write_message-write_round :
      n < t.size
      → (write_message t msg n).buffer
        ≡ write_round t.buffer t.size (around t.size t.write_position) (take n msg ++ 0 ∷ [])
  write_message-write_round k = elim (Bool-cases (ltb n (t.size - t.write_position))) [
    | inl fits ↦ straight_write_round (ltb→lt _ _ fits)
    | inr turns ↦ around-write_round (ground arith) k
  ]

  used-write_message :
      used t + n + 1 < t.size
      → ((write_message t msg n).size ≡ t.size)
        × ((write_message t msg n).read_position ≡ t.read_position)
        × (used (write_message t msg n) ≡ used t + (n + 1))
  used-write_message room = elim (Bool-cases (ltb n (t.size - t.write_position))) [
    | inl fits ↦
        rw (write_message-straight t msg n (ltb→lt _ _ fits))
          (refl, refl, ground (arith, v.writes_inside, v.reads_inside))
    | inr turns ↦
        rw (write_message-around t msg n (ground arith))
          (refl, refl, ground (arith, v.writes_inside, v.reads_inside))
  ]

  -- With room for the message and its NUL, both join the bytes that wait.
  pending-write_message :
      used t + n + 1 < t.size
      → pending (write_message t msg n) ≡ pending t ++ (take n msg ++ 0 ∷ [])
  pending-write_message room =
      let (size, read, more) = used-write_message room in
      let bytes = take n msg ++ 0 ∷ [] in
      let len : length bytes ≡ n + 1 =
        omega (arith, length-take n msg, length-append (take n msg) (0 ∷ [])) in
      let next : around t.size t.write_position ≡ around t.size (t.read_position + used t) =
        ground (arith, v.writes_inside, v.reads_inside) in
      let count : used (write_message t msg n) ≡ used t + length bytes = omega (arith, more, len) in
      rw (count, size, read, write_message-write_round (omega arith))
        (window-write_round bytes t.buffer t.size (used t) t.read_position
          (around t.size t.write_position) v.lent v.reads_inside (omega (arith, len)) next)

  keeps_reader :
      used t + n + 1 < t.size
      → skip_overwritten t.read_position t.write_position n (write_message t msg n)
        ≡ write_message t msg n
  unfolding skip_overwritten
  keeps_reader room = ground (arith, (used-write_message room).0, v.writes_inside, v.reads_inside)

-- On a valid target, a message that leaves a byte of the memory free is queued: the result counts
-- it with its newline, the waiting bytes grow by the text and a NUL, and the reader and the world
-- stay as they were.
pub sendto_buffer_target-queues :
    (t : BufferTarget) (text : Bytes) (newline : ℕ) (w : World)
    → IsValid t
    → used t + length text + 1 < t.size
    → let (result, t', w') = sendto_buffer_target t (text ++ newline ∷ []) (length text + 1) w in
      (result ≡ cap_size_t_to_int (length text + 1))
      × (pending t' ≡ pending t ++ (text ++ 0 ∷ []))
      × (used t' ≡ used t + length text + 1)
      × (t'.read_position ≡ t.read_position)
      × (w' ≡ w)
unfolding sendto_buffer_target
sendto_buffer_target-queues t text newline w v room =
    let msg = text ++ newline ∷ [] in
    let n = length text in
    let counted : (n + 1 + 2 ^ 64 - 1) % 2 ^ 64 ≡ n = omega (arith, v.small) in
    let whole : n ≤ length msg = omega (arith, length-append text (newline ∷ [])) in
    let fits : leb t.size n ≡ false = ground arith in
    let (size, read, more) = used-write_message t msg n v whole room in
    rw (counted, fits, keeps_reader t msg n v whole room)
      (
        refl,
        pending-write_message t msg n v whole room
            ∙ ap (λ r. pending t ++ (r ++ 0 ∷ [])) (take-left text (newline ∷ [])),
        omega (arith, more),
        read,
        unlock-lock t.buffer_mutex w,
      )
