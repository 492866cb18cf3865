-- ===== src/Param/Change.antt =====
-- Changing, copying and destroying params (src/param.c).
use stumpless.Base.{
  ℕ, ◌+◌, ◌≤◌, ◌<◌, ◌≡◌, refl, ◌∷◌, ◌⊎◌, inl, inr, true, false, some, Bytes, All, IsByte, length,
  Bool-cases, take_all, arith,
}
use stumpless.World.{World, remove, remove-cons_self, alloc_mem, raise_memory_allocation_failure}
use stumpless.Validate.Names.{IsNameChar, validate_identifiers}
use stumpless.Validate.Utf8.WellFormed.{WellFormed}
use stumpless.Validate.Utf8.Accepted.{validate_param_value-WellFormed}
use stumpless.Param.{
  Param, copy_cstring_with_length, stumpless_new_param, stumpless_destroy_param,
  stumpless_set_param_name, replace_value, stumpless_set_param_value,
}
use stumpless.Param.Load.{NoLeak, stumpless_new_param-NewParam}

-- Destroying a param that stumpless_new_param made of a name and a value of bytes gives back every
-- block and mutex that making it took, also where making it failed.
pub destroy-new :
    (sizeof_param : ℕ) (name value : Bytes) (w : World)
    → All IsByte value
    → let (made, w1) = stumpless_new_param sizeof_param (some name) (some value) w in
      NoLeak w (stumpless_destroy_param made w1)
unfolding stumpless_destroy_param
destroy-new sizeof_param name value w byte =
    elim (stumpless_new_param-NewParam sizeof_param name value w byte) [
      | inr (e, leak, _, _) ↦ rw e leak
      | inl (_, _, _, (p, e, _, _, _, _, live, mutexes, held, _)) ↦
          rw (e, live, mutexes)
            (
              rw (remove-cons_self p.value_block) (remove-cons_self p.block w.live),
              remove-cons_self p.mutex w.mutexes,
              held,
            )
    ]

-- stumpless_set_param_name takes a name exactly if it is an identifier of at most 32 bytes; then
-- the param has that name, ended by a NUL, and is as it was otherwise. Any other name changes
-- nothing but the error. No memory and no mutex is taken.
pub set_param_name-replaces :
    (p : Param) (name : Bytes) (w : World)
    → let (done, p', w') = stumpless_set_param_name (some p) (some name) w in
      NoLeak w w'
      × (((length name ≤ 32)
            × All IsNameChar name
            × (done ≡ true)
            × (w'.error_valid ≡ false)
            × (p' ≡ some (record p { name = name; name_length = length name; terminated = true })))
          ⊎ (((32 < length name) ⊎ (¬ All IsNameChar name))
              × (done ≡ false)
              × (w'.error_valid ≡ true)
              × (p' ≡ some p)))
unfolding stumpless_set_param_name
set_param_name-replaces p name w = elim ((validate_identifiers name w).1) [
  | inr (inl (long, e)) ↦ rw e ((refl, refl, refl), inr (inl long, refl, refl, refl))
  | inr (inr (len, chars, e)) ↦ rw e ((refl, refl, refl), inr (inr chars, refl, refl, refl))
  | inl (len, chars, e) ↦
      rw (e, take_all (length name) name (omega arith), remove-cons_self)
        ((refl, refl, refl), inl (len, chars, refl, refl, refl))
]

replace_value_lem :
    (p : Param) (value : Bytes) (w : World)
    → p.value_block < w.calls
    → ((w.malloc w.calls (length value + 1) ≡ true)
        × (replace_value p value w ≡ (
          true,
          some (record p { value_block = w.calls; value = value; value_length = length value }),
          record w {
            error_valid = false;
            calls = w.calls + 1;
            live = w.calls ∷ remove p.value_block w.live;
          },
        )))
      ⊎ ((w.malloc w.calls (length value + 1) ≡ false)
          × (replace_value p value w ≡ (
            false,
            some p,
            raise_memory_allocation_failure (record w { calls = w.calls + 1 }),
          )))
unfolding replace_value copy_cstring_with_length alloc_mem
replace_value_lem p value w old = elim (Bool-cases (w.malloc w.calls (length value + 1))) [
  | inr refused ↦ inr (refused, ground arith)
  | inl granted ↦ inl (granted, ground (arith, remove-cons_self p.mutex w.held))
]

-- stumpless_set_param_value on a param whose value lies in a block made before takes a value of
-- bytes exactly if it is well formed and a block for it is granted: then the param has the value
-- in that block and the old block is given back; otherwise the param and what is allotted stay as
-- they were and an error is reported. No mutex stays taken or locked.
pub set_param_value-replaces :
    (p : Param) (value : Bytes) (w : World)
    → All IsByte value
    → p.value_block < w.calls
    → let (done, p', w') = stumpless_set_param_value (some p) (some value) w in
      (w'.mutexes ≡ w.mutexes)
      × (w'.held ≡ w.held)
      × ((WellFormed value
            × (w.malloc w.calls (length value + 1) ≡ true)
            × (done ≡ true)
            × (w'.error_valid ≡ false)
            × (p'
                ≡ some (record p {
                  value_block = w.calls;
                  value = value;
                  value_length = length value;
                }))
            × (w'.live ≡ w.calls ∷ remove p.value_block w.live))
          ⊎ (((¬ WellFormed value) ⊎ (w.malloc w.calls (length value + 1) ≡ false))
              × (done ≡ false)
              × (w'.error_valid ≡ true)
              × (p' ≡ some p)
              × (w'.live ≡ w.live)))
unfolding stumpless_set_param_value
set_param_value-replaces p value w byte old = elim (validate_param_value-WellFormed value w byte) [
  | inr (m, e, bad) ↦ rw e (refl, refl, inr (inl bad, refl, refl, refl, refl))
  | inl (e, good) ↦ elim (replace_value_lem p value w old) [
    | inl (granted, r) ↦ rw (e, r) (refl, refl, inl (good, granted, refl, refl, refl, refl))
    | inr (refused, r) ↦ rw (e, r) (refl, refl, inr (inr refused, refl, refl, refl, refl))
  ]
]
