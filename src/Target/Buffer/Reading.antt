-- ===== src/Target/Buffer/Reading.antt =====
-- `stumpless_read_buffer` takes the oldest message from the queue.
use native.Mathlib.Nat.{mod-eq_of_lt, mod_self}
use stumpless.Base.{
  ℕ, zero, suc, ◌+◌, ◌-◌, ◌%◌, ◌≤◌, ◌<◌, ◌≡◌, refl, sym, ap, ◌∙◌, [], ◌∷◌, ◌++◌, false, ◌⊎◌, some,
  Bytes, All, length, get_or, leb, ◌==◌, if◌then◌else◌, length-append, arith,
}
use stumpless.World.{World, unlock-lock}
use stumpless.Target.Buffer.{BufferTarget, read_loop, stumpless_read_buffer}
use stumpless.Target.Buffer.Invariant.{IsValid}
use stumpless.Target.Buffer.Window.{around, window}
use stumpless.Target.Buffer.Fifo.{used, pending}

mod_around : (size r : ℕ) → r < size → (r + 1) % size ≡ around size (r + 1)
mod_around size r h = grind (arith, mod-eq_of_lt, mod_self)

pub length-window : (buf : Bytes) (size start n : ℕ) → length (window buf size start n) ≡ n
length-window buf size start zero = refl
length-window buf size start (suc n) = ap suc (length-window buf size (around size (start + 1)) n)

-- The bytes that wait for a reader at `r`.
abbrev pub waiting : BufferTarget → ℕ → ℕ
waiting t r = if leb r t.write_position then t.write_position - r else t.size - r + t.write_position

-- The loop over a message with room for it and more: all of it is put out, and the reader comes to
-- the first byte behind its NUL.
pub read_loop-message :
    (t : BufferTarget) (text rest : Bytes) (space k r : ℕ)
    → t.write_position ≤ t.size
    → r < t.size
    → k ≡ waiting t r
    → window t.buffer t.size r k ≡ text ++ 0 ∷ rest
    → All (λ c. 0 < c) text
    → length text < space
    → (read_loop t space r ≡ (around t.size (r + (length text + 1)), text ++ 0 ∷ []))
      × (window t.buffer t.size (around t.size (r + (length text + 1))) (length rest) ≡ rest)
unfolding read_loop
read_loop-message t text rest zero k r ws rs e m nz sp = absurd (omega arith)
read_loop-message t [] rest (suc space) zero r ws rs e m nz sp = cc
read_loop-message t [] rest (suc space) (suc k) r ws rs e m nz sp =
    let zero_byte : get_or t.buffer r 0 ≡ 0 = cc in
    let tail : window t.buffer t.size (around t.size (r + 1)) k ≡ rest = cc in
    let count : length rest ≡ k = ap length (sym tail) ∙ length-window t.buffer t.size _ k in
    let not_end : (r == t.write_position) ≡ false = ground arith in
    rw (not_end, zero_byte, mod_around t.size r rs, count) (refl, tail)
read_loop-message t (c ∷ text) rest (suc space) zero r ws rs e m nz sp = cc
read_loop-message t (c ∷ text) rest (suc space) (suc k) r ws rs e m nz sp =
    let byte : get_or t.buffer r 0 ≡ c = cc in
    let tail : window t.buffer t.size (around t.size (r + 1)) k ≡ text ++ 0 ∷ rest = cc in
    let not_end : (r == t.write_position) ≡ false = ground arith in
    let not_nul : (c == 0) ≡ false = ground arith in
    let count : k ≡ length text + suc (length rest) = omega (
      arith,
      ap length tail,
      length-window t.buffer t.size (around t.size (r + 1)) k,
      length-append text (0 ∷ rest),
    ) in
    let (read, left) =
      read_loop-message t text rest space k (around t.size (r + 1)) ws (ground arith) (ground arith)
        tail nz.1 (omega arith) in
    let next : around t.size (around t.size (r + 1) + (length text + 1))
        ≡ around t.size (r + (suc (length text) + 1)) =
      ground (arith, rs, ws) in
    rw (not_end, byte, not_nul, mod_around t.size r rs, read, ← next) (refl, left)

-- On a valid target, a read with space for more than the oldest message puts it out with its NUL,
-- counts both, leaves the later messages waiting and the world as it was, while the writer has not
-- stopped right at the end of the memory or another message waits.
pub stumpless_read_buffer-dequeues :
    (t : BufferTarget) (text rest : Bytes) (max_length : ℕ) (w : World)
    → IsValid t
    → pending t ≡ text ++ 0 ∷ rest
    → All (λ c. 0 < c) text
    → length text + 1 < max_length
    → (t.write_position < t.size) ⊎ (0 < length rest)
    → (t' : BufferTarget) × (stumpless_read_buffer (some t) (some max_length) w
        ≡ (length text + 1, text ++ 0 ∷ [], some t', w))
      × (pending t' ≡ rest)
unfolding stumpless_read_buffer
stumpless_read_buffer-dequeues t text rest max_length w v e nz sp ends =
    let (read, left) =
      read_loop-message t text rest (max_length - 1) (used t) t.read_position v.writes_inside
        v.reads_inside refl e nz (omega arith) in
    let space : (max_length == 0) ≡ false = ground arith in
    let r = around t.size (t.read_position + (length text + 1)) in
    let len : used t ≡ length text + suc (length rest) = omega (
      arith,
      ap length e,
      length-window t.buffer t.size t.read_position (used t),
      length-append text (0 ∷ rest),
    ) in
    let count : waiting t r ≡ length rest = ground (arith, v.writes_inside, v.reads_inside) in
    (
      record t { read_position = r },
      rw (space, read, unlock-lock t.buffer_mutex w, length-append text (0 ∷ [])) refl,
      rw count left,
    )
