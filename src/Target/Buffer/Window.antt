-- ===== src/Target/Buffer/Window.antt =====
-- A ring of bytes, read from a position on and going round at its size.
use stumpless.Base.{
  ℕ, zero, suc, ◌+◌, ◌-◌, ◌≤◌, ◌<◌, ◌≡◌, ◌≢◌, refl, ap, ap₂, ◌∙◌, sym, [], ◌∷◌, ◌++◌, Bytes, length,
  get_or, set, memcpy, ltb, if◌then◌else◌, get_or-set_self, get_or-set_ne, length-set, append_assoc,
  append-nil, arith,
}

-- Round the end of the ring, for a position less than two turns away.
abbrev pub around : ℕ → ℕ → ℕ
around size i = if ltb i size then i else i - size

-- The `n` bytes from `start` on.
abbrev pub window : Bytes → ℕ → ℕ → ℕ → Bytes
window buf size start zero = []
window buf size start (suc n) = get_or buf start 0 ∷ window buf size (around size (start + 1)) n

-- Writing one byte after the other, going round.
abbrev pub write_round : Bytes → ℕ → ℕ → Bytes → Bytes
write_round buf size i [] = buf
write_round buf size i (c ∷ cs) = write_round (set buf i c) size (around size (i + 1)) cs

-- A byte put right behind a window joins it.
window-set :
    (buf : Bytes) (size c n start i : ℕ)
    → size ≤ length buf
    → start < size
    → n < size
    → i ≡ around size (start + n)
    → window (set buf i c) size start (suc n) ≡ window buf size start n ++ c ∷ []
window-set buf size c zero start i len inside room e =
    let here : i ≡ start = ground arith in
    rw here (ap (λ r. r ∷ []) (get_or-set_self buf start c 0 (omega arith)))
window-set buf size c (suc n) start i len inside room e =
    let apart : i ≢ start = ground arith in
    let next : i ≡ around size (around size (start + 1) + n) = ground arith in
    ap₂ ◌∷◌ (get_or-set_ne buf c 0 apart)
      (window-set buf size c n (around size (start + 1)) i len (ground arith) (omega arith) next)

-- Bytes written behind a window join it, as long as the ring has room for them.
pub window-write_round :
    (cs buf : Bytes) (size n start i : ℕ)
    → size ≤ length buf
    → start < size
    → n + length cs ≤ size
    → i ≡ around size (start + n)
    → window (write_round buf size i cs) size start (n + length cs) ≡ window buf size start n ++ cs
window-write_round [] buf size n start i len inside room e =
    ap (window buf size start) (omega arith) ∙ sym (append-nil (window buf size start n))
window-write_round (c ∷ cs) buf size n start i len inside room e =
    let all : n + length (c ∷ cs) ≡ suc n + length cs = omega arith in
    let rest =
      window-write_round cs (set buf i c) size (suc n) start (around size (i + 1))
        (omega (arith, length-set buf i c)) inside (omega arith) (ground arith) in
    ap (window (write_round buf size i (c ∷ cs)) size start) all
    ∙ rest
    ∙ ap (λ r. r ++ cs) (window-set buf size c n start i len inside (omega arith) e)
    ∙ append_assoc (window buf size start n) (c ∷ []) cs

-- A write that does not reach the end of the ring is a plain copy.
pub write_round-memcpy :
    (cs buf : Bytes) (size i : ℕ)
    → i + length cs ≤ size
    → write_round buf size i cs ≡ memcpy buf i cs
unfolding memcpy
write_round-memcpy [] buf size i h = refl
write_round-memcpy (c ∷ []) buf size i h = refl
write_round-memcpy (c ∷ d ∷ cs) buf size i h =
    let next : around size (i + 1) ≡ suc i = ground arith in
    rw next (write_round-memcpy (d ∷ cs) (set buf i c) size (suc i) (omega arith))

pub write_round-append :
    (cs ds buf : Bytes) (size i : ℕ)
    → i < size
    → length cs ≤ size
    → write_round buf size i (cs ++ ds)
      ≡ write_round (write_round buf size i cs) size (around size (i + length cs)) ds
write_round-append [] ds buf size i h k =
    let here : i ≡ around size (i + 0) = ground arith in ap (λ j. write_round buf size j ds) here
write_round-append (c ∷ cs) ds buf size i h k =
    let next : around size (around size (i + 1) + length cs) ≡ around size (i + suc (length cs)) =
      ground arith in
    write_round-append cs ds (set buf i c) size (around size (i + 1)) (ground arith) (omega arith)
    ∙ ap (λ j. write_round (write_round buf size i (c ∷ cs)) size j ds) next

-- The same for a position that may stand at the end of the ring, where nothing fits.
pub write_round-memcpy_end :
    (cs buf : Bytes) (size i : ℕ)
    → i + length cs ≤ size
    → write_round buf size (around size i) cs ≡ memcpy buf i cs
unfolding memcpy
write_round-memcpy_end [] buf size i h = refl
write_round-memcpy_end (c ∷ cs) buf size i h =
    let here : around size i ≡ i = ground arith in
    rw here (write_round-memcpy (c ∷ cs) buf size i h)
