-- ===== src/Param/Load.antt =====
-- Making and changing params: what they hold afterwards, and the memory and mutexes that remain.
use stumpless.Base.{
  ℕ, ◌+◌, ◌≤◌, ◌<◌, ◌≡◌, refl, ap, ◌∷◌, ◌⊎◌, inl, inr, true, false, Option, none, some, Bytes, All,
  IsByte, length, take, Bool-cases, take_all, arith,
}
use stumpless.Error.{memory_allocation_failure}
use stumpless.World.{World, remove-cons_self, alloc_mem, assign_cached_mutex, clear_error}
use stumpless.Validate.Names.{IsNameChar, validate_identifiers}
use stumpless.Validate.Utf8.WellFormed.{WellFormed}
use stumpless.Validate.Utf8.Accepted.{validate_param_value-WellFormed}
use stumpless.Param.{
  Param, copy_cstring_with_length, unchecked_load_param, load_new_param, stumpless_new_param,
}
use stumpless.Param.Format.{IsConsistent}

-- The last call failed for want of memory.
abbrev pub OutOfMemory : World → Type 0
OutOfMemory w = (w.error_valid ≡ true) × (w.last_error.id ≡ memory_allocation_failure)

-- Nothing is allotted that was not before.
abbrev pub NoLeak : World → World → Type 0
NoLeak w w' = (w'.live ≡ w.live) × (w'.mutexes ≡ w.mutexes) × (w'.held ≡ w.held)

-- What filling in a struct gives: the name and the value, one block and one mutex more and no error
-- left; or the memory ran out, and nothing is allotted.
abbrev pub Loaded : ℕ → Bytes → Bytes → World → Option Param × World → Type 0
Loaded block name value w (result, w') =
    ((p : Param) × (result ≡ some p)
      × (p.name ≡ name)
      × (p.value ≡ value)
      × (p.terminated ≡ true)
      × IsConsistent p
      × (p.block ≡ block)
      × (w'.live ≡ p.value_block ∷ w.live)
      × (w'.mutexes ≡ p.mutex ∷ w.mutexes)
      × (w'.held ≡ w.held)
      × (w'.error_valid ≡ w.error_valid))
    ⊎ ((result ≡ none) × OutOfMemory w' × NoLeak w w')

pub unchecked_load_param-Loaded :
    (block : ℕ) (name value : Bytes) (w : World)
    → Loaded block name value w (unchecked_load_param block name (length name) value w)
unfolding unchecked_load_param copy_cstring_with_length alloc_mem assign_cached_mutex
unchecked_load_param-Loaded block name value w =
    elim (Bool-cases (w.malloc w.calls (length value + 1))) [
      | inr refused ↦ inr (ground arith, ground arith, ground arith)
      | inl granted ↦ elim (Bool-cases (w.new_mutex w.mutex_calls)) [
        | inr no_mutex ↦ inr (ground arith, ground arith, ground arith)
        | inl mutex ↦ inl (
          record {
            block = block;
            name = take (length name) name;
            name_length = length name;
            terminated = true;
            value_block = w.calls;
            value = value;
            value_length = length value;
            mutex = w.mutex_calls;
          },
          ground arith,
          take_all (length name) name (omega arith),
          refl,
          refl,
          record {
            name_counted = ap length (take_all (length name) name (omega arith));
            value_counted = refl;
          },
          refl,
          ground arith,
          ground arith,
          ground arith,
          ground arith,
        )
      ]
    ]

-- What `stumpless_new_param` gives.
abbrev pub NewParam : Bytes → Bytes → World → Option Param × World → Type 0
NewParam name value w (result, w') =
    (All IsNameChar name
      × (length name ≤ 32)
      × WellFormed value
      × ((p : Param) × (result ≡ some p)
          × (p.name ≡ name)
          × (p.value ≡ value)
          × (p.terminated ≡ true)
          × IsConsistent p
          × (w'.live ≡ p.value_block ∷ p.block ∷ w.live)
          × (w'.mutexes ≡ p.mutex ∷ w.mutexes)
          × (w'.held ≡ w.held)
          × (w'.error_valid ≡ false)))
    ⊎ ((result ≡ none)
        × NoLeak w w'
        × (w'.error_valid ≡ true)
        × ((32 < length name) ⊎ (¬ All IsNameChar name) ⊎ (¬ WellFormed value) ⊎ OutOfMemory w'))

-- Freeing the struct after a failure gives back what was allotted for it.
load_in_new :
    (sizeof_param : ℕ) (name value : Bytes) (w : World)
    → let r = load_new_param sizeof_param name (length name) value (clear_error w) in
      ((p : Param) × (r.0 ≡ some p)
        × (p.name ≡ name)
        × (p.value ≡ value)
        × (p.terminated ≡ true)
        × IsConsistent p
        × (r.1.live ≡ p.value_block ∷ p.block ∷ w.live)
        × (r.1.mutexes ≡ p.mutex ∷ w.mutexes)
        × (r.1.held ≡ w.held)
        × (r.1.error_valid ≡ false))
      ⊎ ((r.0 ≡ none) × NoLeak w r.1 × OutOfMemory r.1)
unfolding load_new_param alloc_mem
load_in_new sizeof_param name value w = elim (Bool-cases (w.malloc w.calls sizeof_param)) [
  | inr refused ↦ inr (ground arith, ground arith, ground arith)
  | inl granted ↦
      let w3 = record w { error_valid = false; calls = w.calls + 1; live = w.calls ∷ w.live } in
      elim (unchecked_load_param-Loaded w.calls name value w3) [
        | inl (p, e, n, v, t, c, b, l, m, h, err) ↦
            inl
              (p, ground arith, n, v, t, c, ground arith, ground arith, ground arith, ground arith)
        | inr (e, oom, leak) ↦
            inr (ground arith, ground (arith, remove-cons_self w.calls w.live), ground arith)
      ]
]

-- stumpless_new_param makes a param of a name and a value of bytes exactly if the name has at most
-- 32 bytes, none of which is refused, where the empty name is taken too, the value is well formed
-- and the memory lasts: then two blocks and a mutex are allotted, both strings are copied and no
-- error is left; otherwise nothing stays allotted or locked and an error is reported.
pub stumpless_new_param-NewParam :
    (sizeof_param : ℕ) (name value : Bytes) (w : World)
    → All IsByte value
    → NewParam name value w (stumpless_new_param sizeof_param (some name) (some value) w)
unfolding stumpless_new_param
stumpless_new_param-NewParam sizeof_param name value w byte =
    elim ((validate_identifiers name w).1) [
      | inr (inl (long, e)) ↦ rw e (inr (refl, (refl, refl, refl), refl, inl long))
      | inr (inr (len, chars, e)) ↦ rw e (inr (refl, (refl, refl, refl), refl, inr (inl chars)))
      | inl (len, chars, e) ↦ elim (validate_param_value-WellFormed value w byte) [
        | inr (m, f, bad) ↦ rw (e, f) (inr (refl, (refl, refl, refl), refl, inr (inr (inl bad))))
        | inl (f, good) ↦ elim (load_in_new sizeof_param name value w) [
          | inl made ↦ rw (e, f) (inl (chars, len, good, made))
          | inr (r, leak, oom) ↦ rw (e, f) (inr (r, leak, oom.0, inr (inr (inr oom))))
        ]
      ]
    ]
