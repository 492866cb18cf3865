-- ===== src/StrBuilder/Text.antt =====
-- What the appending functions write: each adds its bytes behind the text, or reports that memory
-- ran out.
use stumpless.Base.{
  ℕ, suc, ◌+◌, ◌-◌, ◌*◌, ◌≤◌, ◌<◌, ◌≡◌, refl, ◌∙◌, sym, ap, [], ◌∷◌, ◌++◌, Bool, true, false, ◌⊎◌,
  inl, inr, Bytes, length, take, set, ◌==◌, Bool-cases, length-memcpy, take-memcpy, length-set,
  take-set_self, append_assoc, append-nil, length-append, arith,
}
use stumpless.World.{World}
use stumpless.StrBuilder.{
  StrBuilder, increase_size, make_room, put_char, append_buffer, append_char, append_string,
  strbuilder_get_buffer,
}
use stumpless.StrBuilder.Growth.{
  IsValid, IsBounded, OutOfMemory, increase_size-cases, make_room-Room,
}

-- The text of a builder, as `strbuilder_get_buffer` hands it out.
abbrev text : StrBuilder → Bytes
text b = take b.position b.storage

-- A call that appends `bytes`: the builder stays valid; if it succeeds the text has grown by exactly
-- these bytes and no error is raised; if it fails, memory ran out, and the allocator refused a
-- request of at most twice the text that was to be held.
abbrev pub Appends : StrBuilder → Bytes → World → Bool × StrBuilder × World → Type 0
Appends b bytes w (done, b', w') =
    IsValid b'
    × (w'.malloc ≡ w.malloc)
    × (((done ≡ true)
          × (strbuilder_get_buffer b' ≡ strbuilder_get_buffer b ++ bytes)
          × (b'.position ≡ b.position + length bytes)
          × (w'.error_valid ≡ w.error_valid))
        ⊎ ((done ≡ false)
            × OutOfMemory w'
            × ((n : ℕ) × (amount : ℕ) × (amount ≤ 2 * (b.position + length bytes))
                × (w.malloc n amount ≡ false))))

-- On a valid builder and an allocator that grants no half of the address space, append_buffer
-- keeps the builder valid and either appends exactly the buffer and raises nothing, or reports
-- that memory ran out, and then the allocator refused a request of at most twice the text that was
-- to be held.
pub append_buffer-Appends :
    (b : StrBuilder) (buffer : Bytes) (w : World)
    → IsValid b
    → IsBounded w.malloc
    → Appends b buffer w (append_buffer b buffer w)
unfolding append_buffer strbuilder_get_buffer
append_buffer-Appends b buffer w v bounded =
    let r = make_room (length buffer) (length b.storage - b.position) (length buffer) b w in
    let (kept, grew, outcome) =
      make_room-Room (length buffer) (length b.storage - b.position) (length buffer) b w v bounded
        refl (omega arith) in
    elim outcome [
      | inl (room, fits, error) ↦
          let len = length-memcpy r.1.storage r.1.position buffer in
          rw room (
            record {
              nonempty = omega (arith, grew.valid, len);
              small = omega (arith, grew.valid, len);
              inside = omega (arith, fits, len);
            },
            kept,
            inl (
              refl,
              take-memcpy r.1.storage r.1.position buffer fits
                  ∙ ap (λ t. t ++ buffer) grew.same_text,
              ap (λ p. p + length buffer) grew.same_position,
              error,
            ),
          )
      | inr (room, oom, refused) ↦ rw room (grew.valid, kept, inr (refl, oom, refused))
    ]

put_position : (b : StrBuilder) (c : ℕ) → (put_char b c).position ≡ b.position + 1
unfolding put_char
put_position b c = refl

-- A character into a buffer that has room for it.
put_char-Appends :
    (b : StrBuilder) (c : ℕ)
    → IsValid b
    → b.position < length b.storage
    → IsValid (put_char b c) × (text (put_char b c) ≡ text b ++ c ∷ [])
unfolding put_char
put_char-Appends b c v room =
    let len = length-set b.storage b.position c in
    let next : b.position + 1 ≡ suc b.position = omega arith in
    (
      record {
        nonempty = omega (arith, v.nonempty, len);
        small = omega (arith, v.small, len);
        inside = omega (arith, len);
      },
      ap (λ n. take n (set b.storage b.position c)) next
          ∙ take-set_self b.storage b.position c room,
    )

-- On a valid builder and an allocator that grants no half of the address space, append_char keeps
-- the builder valid and either appends exactly the character and raises nothing, or reports that
-- memory ran out, and then the allocator refused a request of at most twice the text that was to
-- be held.
pub append_char-Appends :
    (b : StrBuilder) (c : ℕ) (w : World)
    → IsValid b
    → IsBounded w.malloc
    → Appends b (c ∷ []) w (append_char b c w)
unfolding append_char strbuilder_get_buffer
append_char-Appends b c w v bounded = elim (Bool-cases (b.position == length b.storage)) [
  | inr free ↦
      let (valid, written) = put_char-Appends b c v (ground (arith, v.inside)) in
      rw free (valid, refl, inl (refl, written, put_position b c, refl))
  | inl full ↦
      let inc = increase_size b w in
      let (kept, outcome) = increase_size-cases b w v bounded in
      rw full (elim outcome [
        | inl (added, grew, doubled, error) ↦
            let positive : (inc.0 == 0) ≡ false = ground (arith, v.nonempty) in
            let (valid, written) =
              put_char-Appends inc.1 c grew.valid
                (ground (arith, grew.same_position, v.nonempty)) in
            rw positive (
              valid,
              kept,
              inl (
                refl,
                written ∙ ap (λ t. t ++ c ∷ []) grew.same_text,
                put_position inc.1 c ∙ ap (λ p. p + 1) grew.same_position,
                error,
              ),
            )
        | inr (added, same, oom, refused) ↦
            let none_added : (inc.0 == 0) ≡ true = ground arith in
            let bound : length b.storage * 2 ≤ 2 * (b.position + 1) = ground arith in
            rw none_added
              (rw same v, kept, inr (refl, oom, (w.calls, length b.storage * 2, bound, refused)))
      ])
]

-- Two calls in a row append the one text and then the other.
pub Appends-after :
    (b b1 : StrBuilder) (xs ys : Bytes) (w w1 : World) (r : Bool × StrBuilder × World)
    → w1.malloc ≡ w.malloc
    → strbuilder_get_buffer b1 ≡ strbuilder_get_buffer b ++ xs
    → b1.position ≡ b.position + length xs
    → w1.error_valid ≡ w.error_valid
    → Appends b1 ys w1 r
    → Appends b (xs ++ ys) w r
Appends-after b b1 xs ys w w1 (done, b', w') m t p e (v, m', inl (ok, t', p', e')) = (
  v,
  m' ∙ m,
  inl (
    ok,
    t' ∙ ap (λ s. s ++ ys) t ∙ append_assoc (strbuilder_get_buffer b) xs ys,
    omega (arith, p, p', length-append xs ys),
    e' ∙ e,
  ),
)
Appends-after b b1 xs ys w w1 (done, b', w') m t p e (v, m', inr (ok, oom, (n, a, le, ref))) =
    (v, m' ∙ m, inr (ok, oom, (n, a, omega (arith, le, p, length-append xs ys), rw m at ref)))

-- On a valid builder and an allocator that grants no half of the address space, append_string
-- keeps the builder valid and either appends exactly the string and raises nothing, or reports
-- that memory ran out, and then the allocator refused a request of at most twice the text that was
-- to be held.
pub append_string-Appends :
    (b : StrBuilder) (str : Bytes) (w : World)
    → IsValid b
    → IsBounded w.malloc
    → Appends b str w (append_string b str w)
unfolding append_string
append_string-Appends b [] w v bounded =
    (v, refl, inl (refl, sym (append-nil (strbuilder_get_buffer b)), omega arith, refl))
append_string-Appends b (c ∷ str) w v bounded =
    let r = append_char b c w in
    let (valid, kept, outcome) = append_char-Appends b c w v bounded in
    elim outcome [
      | inl (added, written, moved, error) ↦ rw added (
          Appends-after b r.1 (c ∷ []) str w r.2 (append_string r.1 str r.2) kept written moved
            error (append_string-Appends r.1 str r.2 valid (rw kept bounded)))
      | inr (added, oom, (n, amount, le, refused)) ↦
          rw added (valid, kept, inr (refl, oom, (n, amount, omega (arith, le), refused)))
    ]
