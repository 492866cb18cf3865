-- ===== src/Param/Copy.antt =====
-- Copies of params and of what they hold (src/param.c).
use stumpless.Base.{
  ℕ, ◌+◌, ◌≤◌, ◌≡◌, refl, [], ◌∷◌, ◌++◌, ◌⊎◌, inl, inr, true, false, Option, none, some, Bytes, All,
  IsByte, length, take, Bool-cases, take_all, arith,
}
use stumpless.World.{World, remove-cons_self, alloc_mem, clear_error}
use stumpless.Validate.Names.{IsNameChar, validate_identifiers}
use stumpless.Validate.Utf8.WellFormed.{WellFormed}
use stumpless.Param.{
  Param, stumpless_load_param, stumpless_unload_param, stumpless_copy_param,
  stumpless_get_param_name, stumpless_get_param_value, copy_out,
}
use stumpless.Param.Format.{
  IsConsistent, shown, locked_get_param_string_size, stumpless_param_to_string,
  locked_param_into_buffer-shown,
}
use stumpless.Param.Load.{
  OutOfMemory, NoLeak, stumpless_new_param-NewParam, unchecked_load_param-Loaded,
}

-- A copy of a string that a getter hands out: all its bytes and a NUL, in one new block, with no
-- error left; or the memory ran out. The mutex of the param is given back.
abbrev pub HandsOut : Bytes → World → Option (ℕ × Bytes) × World → Type 0
HandsOut s w (result, w') =
    (w'.mutexes ≡ w.mutexes)
    × (w'.held ≡ w.held)
    × (((result ≡ some (w.calls, s ++ 0 ∷ []))
          × (w'.live ≡ w.calls ∷ w.live)
          × (w'.error_valid ≡ false))
        ⊎ ((result ≡ none) × (w'.live ≡ w.live) × OutOfMemory w'))

copy_out-HandsOut :
    (p : Param) (s : Bytes) (len : ℕ) (w : World)
    → length s ≡ len
    → HandsOut s w (copy_out p s len w)
unfolding alloc_mem
copy_out-HandsOut p s len w e =
    let whole : take len s ≡ s = take_all len s (omega arith) in
    let unlocked = remove-cons_self p.mutex w.held in
    elim (Bool-cases (w.malloc w.calls (len + 1))) [
      | inr refused ↦
          (ground arith, ground (arith, unlocked), inr (ground arith, ground arith, ground arith))
      | inl granted ↦ (
        ground arith,
        ground (arith, unlocked),
        inl (ground (arith, whole), ground arith, ground arith),
      )
    ]

-- The getters of a consistent param hand out its name and its value with a NUL in one new block,
-- or report that the memory ran out; its mutex is given back.
pub get_param-HandsOut :
    (p : Param) (w : World)
    → IsConsistent p
    → HandsOut p.name w (stumpless_get_param_name (some p) w)
      × HandsOut p.value w (stumpless_get_param_value (some p) w)
unfolding stumpless_get_param_name stumpless_get_param_value
get_param-HandsOut p w c = (
  copy_out-HandsOut p p.name p.name_length w c.name_counted,
  copy_out-HandsOut p p.value p.value_length w c.value_counted,
)

-- A param with a NUL behind its name that stumpless_new_param would make is copied with its name and value into blocks and a
-- mutex of its own, unless the memory runs out, and then nothing stays allotted. The mutex of the
-- param is given back in both cases.
pub stumpless_copy_param-copies :
    (sizeof_param : ℕ) (behind : Bytes) (p : Param) (w : World)
    → p.terminated ≡ true
    → All IsByte p.value
    → All IsNameChar p.name
    → length p.name ≤ 32
    → WellFormed p.value
    → let (copy, w') = stumpless_copy_param sizeof_param behind (some p) w in
      (w'.held ≡ w.held)
      × (((q : Param) × (copy ≡ some q)
            × (q.name ≡ p.name)
            × (q.value ≡ p.value)
            × IsConsistent q
            × (w'.live ≡ q.value_block ∷ q.block ∷ w.live)
            × (w'.mutexes ≡ q.mutex ∷ w.mutexes))
          ⊎ ((copy ≡ none) × (w'.live ≡ w.live) × (w'.mutexes ≡ w.mutexes) × OutOfMemory w'))
unfolding stumpless_copy_param
stumpless_copy_param-copies sizeof_param behind p w ended byte chars short good =
    let locked = record w { held = p.mutex ∷ w.held } in
    let unlocked = remove-cons_self p.mutex w.held in
    elim (stumpless_new_param-NewParam sizeof_param p.name p.value locked byte) [
      | inl (_, _, _, (q, e, n, v, _, c, live, mutexes, held, _)) ↦
          rw ended (rw held unlocked, inl (q, e, n, v, c, live, mutexes))
      | inr (e, (live, mutexes, held), error, reason) ↦ rw ended (
        rw held unlocked,
        inr (
          e,
          live,
          mutexes,
          elim reason [
            | inl long ↦ absurd (omega arith)
            | inr (inl bad) ↦ absurd (bad chars)
            | inr (inr (inl bad)) ↦ absurd (bad good)
            | inr (inr (inr oom)) ↦ oom
          ],
        ),
      )
    ]

-- stumpless_load_param into memory of the caller, undone by stumpless_unload_param, leaves nothing
-- allotted or locked, whether it succeeds or not.
pub unload-load :
    (block : ℕ) (name value : Bytes) (w : World)
    → let (loaded, w1) = stumpless_load_param (some block) (some name) (some value) w in
      NoLeak w (stumpless_unload_param loaded w1)
unfolding stumpless_load_param stumpless_unload_param
unload-load block name value w = elim ((validate_identifiers name w).1) [
  | inr (inl (long, e)) ↦ rw e (refl, refl, refl)
  | inr (inr (len, chars, e)) ↦ rw e (refl, refl, refl)
  | inl (len, chars, e) ↦
      rw e (elim (unchecked_load_param-Loaded block name value (clear_error w)) [
        | inr (f, oom, leak) ↦ rw f leak
        | inl (p, f, _, _, _, _, _, live, mutexes, held, _) ↦
            rw (f, live, mutexes)
              (remove-cons_self p.value_block w.live, remove-cons_self p.mutex w.mutexes, held)
      ])
]

-- stumpless_param_to_string on a consistent param hands out its whole text with a NUL in one new
-- block, or reports that the memory ran out; its mutex is given back.
pub param_to_string-HandsOut :
    (p : Param) (w : World)
    → IsConsistent p
    → HandsOut (shown p) w (stumpless_param_to_string (some p) w)
unfolding stumpless_param_to_string alloc_mem
param_to_string-HandsOut p w c =
    let (text, len) = locked_param_into_buffer-shown p c in
    let unlocked = remove-cons_self p.mutex w.held in
    elim (Bool-cases (w.malloc w.calls (locked_get_param_string_size p))) [
      | inr refused ↦
          (ground arith, ground (arith, unlocked), inr (ground arith, ground arith, ground arith))
      | inl granted ↦ (
        ground arith,
        ground (arith, unlocked),
        inl (ground (arith, text), ground arith, ground arith),
      )
    ]
