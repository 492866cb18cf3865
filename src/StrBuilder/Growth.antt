-- ===== src/StrBuilder/Growth.antt =====
-- How a builder grows: `increase_size` and the loop of `strbuilder_append_buffer`.
use stumpless.Base.{
  ℕ, zero, suc, ◌+◌, ◌-◌, ◌*◌, ◌%◌, ◌^◌, ◌≤◌, ◌<◌, ◌≡◌, refl, ◌∙◌, ◌∷◌, Bool, true, false, ◌⊎◌, inl,
  inr, Bytes, length, take, ltb, ◌==◌, Bool-cases, length-append, length-take, length-replicate,
  take-append, take-take, arith,
}
use stumpless.Error.{memory_allocation_failure}
use stumpless.World.{World, remove, raise_memory_allocation_failure, realloc_mem}
use stumpless.StrBuilder.{StrBuilder, resized, size_mod, increase_size, make_room}

-- A builder that holds a buffer, with its position inside or at its end.
pub record IsValid (b : StrBuilder) : Type 0 where
  pub nonempty : 0 < length b.storage
  pub small : length b.storage < 2 ^ 63
  pub inside : b.position ≤ length b.storage

-- No allocator grants an object of half the address space (PTRDIFF_MAX bytes or more).
abbrev pub IsBounded : (ℕ → ℕ → Bool) → Type 0
IsBounded malloc = (n size : ℕ) → 2 ^ 63 ≤ size → malloc n size ≡ false

-- The last call failed for want of memory.
abbrev pub OutOfMemory : World → Type 0
OutOfMemory w = (w.error_valid ≡ true) × (w.last_error.id ≡ memory_allocation_failure)

length-resized : (n : ℕ) (s : Bytes) → length (resized n s) ≡ n
length-resized n s =
    omega (
      arith,
      length-append (take n s) _,
      length-take n s,
      length-replicate {A = ℕ} (n - length s) 0,
    )

take-resized : (p n : ℕ) (s : Bytes) → p ≤ n → p ≤ length s → take p (resized n s) ≡ take p s
take-resized p n s h k =
    take-append p (take n s) _ (omega (arith, length-take n s)) ∙ take-take p n s h

-- What a call that enlarges the buffer leaves.
pub record Enlarged (b b' : StrBuilder) : Type 0 where
  pub valid : IsValid b'
  pub same_position : b'.position ≡ b.position
  pub same_text : take b'.position b'.storage ≡ take b.position b.storage

module _ (b : StrBuilder) (w : World) (v : IsValid b) (bounded : IsBounded w.malloc) where
  abbrev asked : ℕ
  asked = length b.storage * 2 % size_mod

  granted_small : w.malloc w.calls asked ≡ true → length b.storage * 2 < 2 ^ 63
  granted_small h = ground (arith, bounded w.calls asked)

  increase_size-granted :
      w.malloc w.calls asked ≡ true
      → increase_size b w ≡ (
        length b.storage,
        record b { block = w.calls; storage = resized asked b.storage },
        record w { calls = w.calls + 1; live = w.calls ∷ remove b.block w.live },
      )
  unfolding increase_size realloc_mem
  increase_size-granted h = ground arith

  increase_size-refused :
      w.malloc w.calls asked ≡ false
      → increase_size b w
        ≡ (0, b, raise_memory_allocation_failure (record w { calls = w.calls + 1 }))
  unfolding increase_size realloc_mem
  increase_size-refused h = ground arith

  -- The buffer doubles and keeps the text, or the memory was refused and nothing changed.
  pub increase_size-cases :
      let (added, b', w') = increase_size b w in
      (w'.malloc ≡ w.malloc)
      × (((added ≡ length b.storage)
            × Enlarged b b'
            × (length b'.storage ≡ length b.storage * 2)
            × (w'.error_valid ≡ w.error_valid))
          ⊎ ((added ≡ 0)
              × (b' ≡ b)
              × OutOfMemory w'
              × (w.malloc w.calls (length b.storage * 2) ≡ false)))
  increase_size-cases = elim (Bool-cases (w.malloc w.calls asked)) [
    | inl granted ↦
        let fits = granted_small granted in
        rw (increase_size-granted granted) (
          refl,
          inl (
            refl,
            record {
              valid = record {
                nonempty = omega (arith, length-resized asked b.storage);
                small = omega (arith, length-resized asked b.storage);
                inside = omega (arith, length-resized asked b.storage);
              };
              same_position = refl;
              same_text = take-resized b.position asked b.storage (omega arith) v.inside;
            },
            omega (arith, length-resized asked b.storage),
            refl,
          ),
        )
    | inr refused ↦
        let whole : asked ≡ length b.storage * 2 = omega arith in
        rw (increase_size-refused refused)
          (refl, inr (refl, refl, (refl, refl), rw whole at refused))
  ]

Enlarged-refl : {b : StrBuilder} → IsValid b → Enlarged b b
Enlarged-refl v = record { valid = v; same_position = refl; same_text = refl }

Enlarged-trans : {a b c : StrBuilder} → Enlarged a b → Enlarged b c → Enlarged a c
Enlarged-trans p q = record {
  valid = q.valid;
  same_position = q.same_position ∙ p.same_position;
  same_text = q.same_text ∙ p.same_text;
}

-- The buffer has room for `size` bytes and kept its text; or some request of at most twice what is
-- needed was refused, and the text is kept too.
abbrev pub Room : StrBuilder → ℕ → World → Bool × StrBuilder × World → Type 0
Room b size w (room, b', w') =
    (w'.malloc ≡ w.malloc)
    × Enlarged b b'
    × (((room ≡ true) × (b'.position + size ≤ length b'.storage) × (w'.error_valid ≡ w.error_valid))
        ⊎ ((room ≡ false)
            × OutOfMemory w'
            × ((n : ℕ) × (amount : ℕ) × (amount ≤ 2 * (b.position + size))
                × (w.malloc n amount ≡ false))))

-- Room after a first step that enlarged the buffer.
Room-after :
    (b b1 : StrBuilder) (size : ℕ) (w w1 : World) (r : Bool × StrBuilder × World)
    → Enlarged b b1
    → w1.malloc ≡ w.malloc
    → w1.error_valid ≡ w.error_valid
    → Room b1 size w1 r
    → Room b size w r
Room-after b b1 size w w1 (room, b', w') grew m e (m', more, inl (yes_room, fits, e')) =
    (m' ∙ m, Enlarged-trans grew more, inl (yes_room, fits, e' ∙ e))
Room-after b b1 size w w1 (room, b', w') grew m e
      (m', more, inr (no_room, oom, (n, amount, le, ref))) =
    (
      m' ∙ m,
      Enlarged-trans grew more,
      inr (no_room, oom, (n, amount, omega (arith, le, grew.same_position), rw m at ref)),
    )

pub make_room-Room :
    (fuel size_left size : ℕ) (b : StrBuilder) (w : World)
    → IsValid b
    → IsBounded w.malloc
    → size_left ≡ length b.storage - b.position
    → size ≤ size_left + fuel
    → Room b size w (make_room fuel size_left size b w)
unfolding make_room
make_room-Room zero size_left size b w v bounded left enough =
    let full : ltb size_left size ≡ false = ground arith in
    rw full (refl, Enlarged-refl v, inl (refl, omega (arith, v.inside), refl))
make_room-Room (suc fuel) size_left size b w v bounded left enough =
    elim (Bool-cases (ltb size_left size)) [
      | inr full ↦ rw full (refl, Enlarged-refl v, inl (refl, ground (arith, v.inside), refl))
      | inl short ↦
          let inc = increase_size b w in
          let left' : ℕ = (size_left + inc.0) % size_mod in
          let kept = (increase_size-cases b w v bounded).0 in
          rw short (elim (increase_size-cases b w v bounded).1 [
            | inl (added, grew, doubled, error) ↦
                let positive : (inc.0 == 0) ≡ false = ground (arith, v.nonempty) in
                let more =
                  make_room-Room fuel left' size inc.1 inc.2 grew.valid (rw kept bounded)
                    (omega (arith, grew.same_position, grew.valid, v.inside))
                    (omega (arith, grew.same_position, grew.valid, v.inside, v.nonempty)) in
                rw positive (
                  Room-after b inc.1 size w inc.2 (make_room fuel left' size inc.1 inc.2) grew kept
                    error more)
            | inr (added, same, oom, refused) ↦
                let none_added : (inc.0 == 0) ≡ true = ground arith in
                let bound : length b.storage * 2 ≤ 2 * (b.position + size) = ground arith in
                rw none_added (
                  kept,
                  rw same (Enlarged-refl v),
                  inr (refl, oom, (w.calls, length b.storage * 2, bound, refused)),
                )
          ])
    ]
