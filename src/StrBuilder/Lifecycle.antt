-- ===== src/StrBuilder/Lifecycle.antt =====
-- A builder from `strbuilder_new` to `strbuilder_to_string` (src/strbuilder.c).
use stumpless.Base.{
  Option, length, ℕ, ◌+◌, ◌<◌, ◌^◌, ◌≡◌, refl, ap, ◌∙◌, [], ◌∷◌, ◌++◌, true, false, ◌⊎◌, inl, inr,
  none, some, Bytes, length-replicate, replicate, Bool-cases, arith,
}
use stumpless.World.{World, alloc_mem, raise_memory_allocation_failure}
use stumpless.StrBuilder.{
  StrBuilder, strbuilder_get_buffer, strbuilder_reset, strbuilder_new, strbuilder_to_string,
  strbuilder_append_buffer, append_buffer, strbuilder_append_string, append_string,
}
use stumpless.StrBuilder.Growth.{IsValid, IsBounded, OutOfMemory}
use stumpless.StrBuilder.Text.{append_buffer-Appends, append_string-Appends}

-- A builder that the cache can hand out: one without a buffer, and then a page is of use, or one with
-- the buffer of an earlier use.
abbrev pub IsUsable : Option (Option (ℕ × Bytes)) → ℕ → Type 0
IsUsable none page_size = ⊥
IsUsable (some none) page_size = (0 < page_size) × (page_size < 2 ^ 63)
IsUsable (some (some buffer)) page_size = (0 < length buffer.1) × (length buffer.1 < 2 ^ 63)

new-cases :
    (page_size : ℕ) (w : World)
    → (strbuilder_new (some none) page_size w ≡ (
      some (record { block = w.calls; storage = replicate page_size 0; position = 0 }),
      false,
      record w { calls = w.calls + 1; live = w.calls ∷ w.live },
    ))
      ⊎ ((w.malloc w.calls page_size ≡ false)
          × (strbuilder_new (some none) page_size w
              ≡ (none, true, raise_memory_allocation_failure (record w { calls = w.calls + 1 }))))
unfolding strbuilder_new alloc_mem
new-cases page_size w = elim (Bool-cases (w.malloc w.calls page_size)) [
  | inr refused ↦ inr (refused, ground arith)
  | inl granted ↦ inl (ground arith)
]

to_string-cases :
    (b : StrBuilder) (w : World)
    → ((block : ℕ) × ((strbuilder_to_string (some b) w).0
          ≡ some (block, strbuilder_get_buffer b ++ 0 ∷ [])))
      ⊎ (((strbuilder_to_string (some b) w).0 ≡ none)
          × ((strbuilder_to_string (some b) w).1.error_valid ≡ true))
unfolding strbuilder_to_string alloc_mem strbuilder_get_buffer
to_string-cases b w = elim (Bool-cases (w.malloc w.calls (b.position + 1))) [
  | inr refused ↦ inr (ground arith, ground arith)
  | inl granted ↦ inl (w.calls, ground arith)
]

-- A builder that the cache hands out for the first time, with pages of a positive size below 2^63,
-- is valid and empty with a page for a buffer, or goes back to the cache because the page was
-- refused.
pub new-IsValid :
    (page_size : ℕ) (w : World)
    → 0 < page_size
    → page_size < 2 ^ 63
    → let (made, to_cache, w') = strbuilder_new (some none) page_size w in
      ((b : StrBuilder) × (made ≡ some b)
        × (to_cache ≡ false)
        × IsValid b
        × (strbuilder_get_buffer b ≡ [])
        × (w'.live ≡ b.block ∷ w.live))
      ⊎ ((made ≡ none) × (to_cache ≡ true) × OutOfMemory w' × (w'.live ≡ w.live))
unfolding strbuilder_get_buffer
new-IsValid page_size w p q = elim (new-cases page_size w) [
  | inr (refused, e) ↦ rw e (inr (refl, refl, (refl, refl), refl))
  | inl e ↦ rw e (
      inl (
        record { block = w.calls; storage = replicate page_size 0; position = 0 },
        refl,
        refl,
        record {
          nonempty = omega (arith, length-replicate {A = ℕ} page_size 0);
          small = omega (arith, length-replicate {A = ℕ} page_size 0);
          inside = omega arith;
        },
        refl,
        refl,
      ))
]

-- A builder that can be used starts valid and empty, unless the page for it is refused.
pub new-usable :
    (cached : Option (Option (ℕ × Bytes))) (page_size : ℕ) (w : World)
    → IsUsable cached page_size
    → let (made, to_cache, w') = strbuilder_new cached page_size w in
      (w'.malloc ≡ w.malloc)
      × (((b : StrBuilder) × (made ≡ some b)
            × (to_cache ≡ false)
            × IsValid b
            × (strbuilder_get_buffer b ≡ [])
            × (w'.error_valid ≡ w.error_valid))
          ⊎ ((made ≡ none)
              × (to_cache ≡ true)
              × OutOfMemory w'
              × (w.malloc w.calls page_size ≡ false)))
unfolding strbuilder_new strbuilder_get_buffer
new-usable none page_size w u = absurd u
new-usable (some none) page_size w (p, q) = elim (new-cases page_size w) [
  | inr (refused, e) ↦ rw e (refl, inr (refl, refl, (refl, refl), refused))
  | inl e ↦ rw e (
    refl,
    inl (
      record { block = w.calls; storage = replicate page_size 0; position = 0 },
      refl,
      refl,
      record {
        nonempty = omega (arith, length-replicate {A = ℕ} page_size 0);
        small = omega (arith, length-replicate {A = ℕ} page_size 0);
        inside = omega arith;
      },
      refl,
      refl,
    ),
  )
]
new-usable (some (some (block, storage))) page_size w (p, q) = (
  refl,
  inl (
    record { block = block; storage = storage; position = 0 },
    refl,
    refl,
    record { nonempty = p; small = q; inside = omega arith },
    refl,
    refl,
  ),
)

reset-IsValid : (b : StrBuilder) → IsValid b → IsValid (strbuilder_reset b)
unfolding strbuilder_reset
reset-IsValid b v = record { nonempty = v.nonempty; small = v.small; inside = omega arith }

reset-empty : (b : StrBuilder) → strbuilder_get_buffer (strbuilder_reset b) ≡ []
unfolding strbuilder_reset strbuilder_get_buffer
reset-empty b = refl

-- With an allocator that grants no half of the address space, a valid builder that is reset, given
-- a string and a buffer and turned into a string yields exactly the two texts and a NUL in a
-- block, or NULL with an error.
pub to_string-append :
    (b : StrBuilder) (str buffer : Bytes) (w : World)
    → IsValid b
    → IsBounded w.malloc
    → let (b1, w1) = strbuilder_append_string (some (strbuilder_reset b)) str w in
      let (b2, w2) = strbuilder_append_buffer b1 (some buffer) w1 in
      let (string, w3) = strbuilder_to_string b2 w2 in
      ((block : ℕ) × (string ≡ some (block, (str ++ buffer) ++ 0 ∷ [])))
      ⊎ ((string ≡ none) × (w3.error_valid ≡ true))
unfolding strbuilder_append_string strbuilder_append_buffer strbuilder_to_string
to_string-append b str buffer w v bounded =
    let b0 = strbuilder_reset b in
    let r1 = append_string b0 str w in
    let r2 = append_buffer r1.1 buffer r1.2 in
    let (v1, kept, first) = append_string-Appends b0 str w (reset-IsValid b v) bounded in
    let (v2, kept', second) = append_buffer-Appends r1.1 buffer r1.2 v1 (rw kept bounded) in
    elim first [
      | inr (none_added, oom, _) ↦ rw (none_added, strbuilder_to_string) (inr (refl, oom.0))
      | inl (added, written, _, _) ↦ elim second [
        | inr (none_added, oom, _) ↦
            rw (added, none_added, strbuilder_to_string) (inr (refl, oom.0))
        | inl (more, text, _, _) ↦ elim (to_string-cases r2.1 r2.2) [
          | inr (e, f) ↦ rw (added, more) (inr (e, f))
          | inl (block, e) ↦
              rw (added, more)
                (inl (
                  block,
                  e
                      ∙ ap (λ s. some (block, s ++ 0 ∷ []))
                          (text
                            ∙ ap (λ s. s ++ buffer) (written ∙ ap (λ s. s ++ str) (reset-empty b))),
                ))
        ]
      ]
    ]
