-- ===== src/Config/FormatString.antt =====
-- src/config/no_vsnprintf_s.c: a message from its format, in memory of its own.
use stumpless.Base.{
  ℕ, ◌+◌, ◌-◌, ◌≤◌, ◌<◌, ◌≡◌, refl, ap, ◌∙◌, [], ◌∷◌, ◌++◌, ◌⊎◌, inl, inr, Bytes, Option, none,
  some, length, take, ltb, ltb-false, ltb→lt, if◌then◌else◌, Bool-cases, Option-cases, memcpy,
  take-memcpy, take_all, length-append, length-take, length-memcpy, arith,
}
use stumpless.World.{World, alloc_mem, realloc_mem, free_mem}
use stumpless.World.Balance.{
  occurrences, occurrences-remove, Owns, IsBalanced, IsExhausted, alloc_mem-effects,
  realloc_mem-effects,
}

-- What `vsnprintf` leaves in a buffer of `size` bytes: the start of the whole text and a NUL.
abbrev pub vsnprintf : Bytes → ℕ → Bytes → Bytes
vsnprintf text size buffer = memcpy buffer 0 (take (size - 1) text ++ 0 ∷ [])

-- `junk` is what new memory of a size holds, and `printed` the whole text of the format with its
-- arguments, if `vsnprintf` does not fail. The second call of `vsnprintf` gets the list of arguments
-- that the first has used up, of which C promises nothing: its text is `again`, whatever it is. The
-- block comes with what it holds, and the length.
unfoldable pub no_vsnprintf_s_format_string :
    (ℕ → Bytes) → Option Bytes × Option Bytes → World → Option (ℕ × Bytes) × ℕ × World
no_vsnprintf_s_format_string junk (printed, again) w =
    let buffer_size : ℕ = 128 in
    let (buffer, w1) = alloc_mem buffer_size w in
    elim buffer [
      | none ↦ (none, 0, w1)
      | some block ↦ elim printed [
        | none ↦ (none, 0, free_mem block w1)
        | some text ↦
            let result = length text in
            let held = vsnprintf text buffer_size (junk buffer_size) in
            let (new_buffer, w2) = realloc_mem block result w1 in
            if ltb buffer_size result
            then elim new_buffer [
              | none ↦ (none, 0, free_mem block w2)
              | some b ↦ elim again [
                | none ↦ (none, 0, free_mem b w2)
                | some text' ↦ (
                  some (b, vsnprintf text' buffer_size (held ++ junk (result - buffer_size))),
                  length text',
                  w2,
                )
              ]
            ]
            else (some (block, held), result, w1)
      ]
    ]

-- A text of less than 128 bytes is there with its NUL; of a longer one there are 127 bytes and a NUL.
abbrev pub IsPrinted : Bytes → Bytes → Type 0
IsPrinted text held =
    ((length text < 128) × (take (length text + 1) held ≡ text ++ 0 ∷ []))
    ⊎ ((128 ≤ length text) × (take 128 held ≡ take 127 text ++ 0 ∷ []))

vsnprintf-IsPrinted :
    (text buffer : Bytes) → 128 ≤ length buffer → IsPrinted text (vsnprintf text 128 buffer)
vsnprintf-IsPrinted text buffer large =
    let start = take 127 text in
    let len = length-append start (0 ∷ []) in
    let size = length-take 127 text in
    let written = take-memcpy buffer 0 (start ++ 0 ∷ []) (omega (arith, len, size)) in
    let read = λ (n : ℕ). take n (vsnprintf text 128 buffer) in
    elim (Bool-cases (ltb (length text) 128)) [
      | inl short ↦
          let whole : start ≡ text =
            take_all 127 text (omega (arith, ltb→lt (length text) 128 short)) in
          inl (
            omega (arith, ltb→lt (length text) 128 short),
            ap read {y = 0 + length (start ++ 0 ∷ [])} (omega (arith, len, ap length whole))
                ∙ (written ∙ ap (λ s. s ++ 0 ∷ []) whole),
          )
      | inr long ↦ inr (
        omega (arith, ltb-false (length text) 128 long),
        ap read {x = 128} {y = 0 + length (start ++ 0 ∷ [])}
              (omega (arith, len, size, ltb-false (length text) 128 long))
            ∙ written,
      )
    ]

-- no_vsnprintf_s_format_string, for a text that vsnprintf does not refuse. For a text of at most
-- 128 bytes it gives a block and the length of the text, or nothing for want of memory, with
-- nothing kept. A text of less than 128 bytes is in the block with its NUL; of one of 128 bytes
-- the block holds 127 and a NUL, though the length returned is 128. For a longer text, the block
-- and the length are those of whatever the second call of vsnprintf writes, of which at most 127
-- bytes are kept; or, for want of memory or if this call fails, there is nothing and nothing is
-- kept.
pub format_string-text :
    (junk : ℕ → Bytes) (text : Bytes) (again : Option Bytes) (w : World)
    → ((n : ℕ) → length (junk n) ≡ n)
    → let (r, len, w') = no_vsnprintf_s_format_string junk (some text, again) w in
      ((block : ℕ) × (held : Bytes) × (written : Bytes) × (r ≡ some (block, held))
        × (((length text ≤ 128) × (written ≡ text))
            ⊎ ((128 < length text) × (again ≡ some written)))
        × (len ≡ length written)
        × Owns (block ∷ []) [] w w'
        × IsPrinted written held)
      ⊎ ((r ≡ none) × IsBalanced w w' × (IsExhausted w' ⊎ ((128 < length text) × (again ≡ none))))
unfolding no_vsnprintf_s_format_string
format_string-text junk text again w sizes =
    let (mutexes, held, _, outcome) = alloc_mem-effects 128 w in
    let w1 = (alloc_mem 128 w).1 in
    let first = vsnprintf text 128 (junk 128) in
    let first_size : length first ≡ 128 =
      length-memcpy (junk 128) 0 (take 127 text ++ 0 ∷ []) ∙ sizes 128 in
    elim outcome [
      | inr (_, r, live, oom) ↦
          rw (no_vsnprintf_s_format_string, r)
            (inr (
              refl,
              (
                λ a. omega (arith, ap (occurrences a) live),
                λ a. omega (arith, ap (occurrences a) mutexes),
                held,
              ),
              inl oom,
            ))
      | inl (_, r, live, _) ↦ elim (Bool-cases (ltb 128 (length text))) [
        | inr fits ↦
            let small = ltb-false 128 (length text) fits in
            rw (no_vsnprintf_s_format_string, r, fits)
              (inl (
                w.calls,
                first,
                text,
                refl,
                inl (omega (arith, small), refl),
                refl,
                (
                  λ a. omega (arith, ap (occurrences a) live),
                  λ a. omega (arith, ap (occurrences a) mutexes),
                  held,
                ),
                vsnprintf-IsPrinted text (junk 128) (omega (arith, sizes 128)),
              ))
        | inl long ↦
            let large = ltb→lt 128 (length text) long in
            let (mutexes', held', outcome') = realloc_mem-effects w.calls (length text) w1 in
            let w2 = (realloc_mem w.calls (length text) w1).1 in
            elim outcome' [
              | inr (r', live', oom) ↦
                  rw (no_vsnprintf_s_format_string, r, long, r')
                    (inr (
                      refl,
                      (
                        λ a. omega (
                          arith,
                          ap (occurrences a) live,
                          ap (occurrences a) live',
                          occurrences-remove a w.calls w2.live,
                        ),
                        λ a. omega (arith, ap (occurrences a) mutexes, ap (occurrences a) mutexes'),
                        held' ∙ held,
                      ),
                      inl oom,
                    ))
              | inl (r', live') ↦ elim (Option-cases again) [
                | inl failed ↦
                    rw (no_vsnprintf_s_format_string, r, long, r', failed)
                      (inr (
                        refl,
                        (
                          λ a. omega (
                            arith,
                            ap (occurrences a) live,
                            ap (occurrences a) live',
                            occurrences-remove a w.calls w1.live,
                            occurrences-remove a w1.calls w2.live,
                          ),
                          λ a.
                              omega
                                (arith, ap (occurrences a) mutexes, ap (occurrences a) mutexes'),
                          held' ∙ held,
                        ),
                        inr (large, refl),
                      ))
                | inr (text', second) ↦
                    rw (no_vsnprintf_s_format_string, r, long, r', second)
                      (inl (
                        w1.calls,
                        vsnprintf text' 128 (first ++ junk (length text - 128)),
                        text',
                        refl,
                        inr (large, refl),
                        refl,
                        (
                          λ a. omega (
                            arith,
                            ap (occurrences a) live,
                            ap (occurrences a) live',
                            occurrences-remove a w.calls w1.live,
                          ),
                          λ a.
                              omega
                                (arith, ap (occurrences a) mutexes, ap (occurrences a) mutexes'),
                          held' ∙ held,
                        ),
                        vsnprintf-IsPrinted text' (first ++ junk (length text - 128)) (
                            omega
                              (arith, first_size, length-append first (junk (length text - 128)))),
                      ))
              ]
            ]
      ]
    ]
