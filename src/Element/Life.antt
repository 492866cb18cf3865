-- ===== src/Element/Life.antt =====
-- Making and destroying elements (src/element.c).
use stumpless.Base.{
  ℕ, ◌<◌, ◌≤◌, ◌≡◌, refl, [], ◌∷◌, Bytes, true, false, ◌⊎◌, inl, inr, Option, none, some, length,
  take, take_all, All, Bool-cases, arith,
}
use stumpless.World.{World, remove-cons_self, alloc_mem, assign_cached_mutex}
use stumpless.Validate.Names.{IsNameChar, validate_identifiers}
use stumpless.Param.Load.{NoLeak, OutOfMemory}
use stumpless.Element.{
  Element, unchecked_load_element, load_new_element, stumpless_new_element,
  unchecked_unload_element, unchecked_destroy_element, stumpless_destroy_element_only,
}

-- A new element without params, in one block and with one mutex; or nothing for want of memory.
abbrev pub Made : Bytes → World → Option Element × World → Type 0
Made name w (result, w') =
    ((e : Element) × (result ≡ some e)
      × (e.name ≡ name)
      × (e.name_length ≡ length name)
      × (e.params_block ≡ none)
      × (e.params ≡ [])
      × (w'.live ≡ e.block ∷ w.live)
      × (w'.mutexes ≡ e.mutex ∷ w.mutexes)
      × (w'.held ≡ w.held)
      × (w'.error_valid ≡ false))
    ⊎ ((result ≡ none) × NoLeak w w' × OutOfMemory w')

load_new_element-Made :
    (sizeof_element : ℕ) (name : Bytes) (w : World)
    → Made name w (load_new_element sizeof_element name (length name) w)
unfolding load_new_element unchecked_load_element alloc_mem assign_cached_mutex
load_new_element-Made sizeof_element name w = elim (Bool-cases (w.malloc w.calls sizeof_element)) [
  | inr refused ↦ inr (ground arith, ground arith, ground arith)
  | inl granted ↦ elim (Bool-cases (w.new_mutex w.mutex_calls)) [
    | inr no_mutex ↦
        inr (ground arith, ground (arith, remove-cons_self w.calls w.live), ground arith)
    | inl mutex ↦ inl (
      record {
        block = w.calls;
        name = take (length name) name;
        name_length = length name;
        params_block = none;
        params = [];
        mutex = w.mutex_calls;
      },
      ground arith,
      take_all (length name) name (omega arith),
      refl,
      refl,
      refl,
      ground arith,
      ground arith,
      ground arith,
      ground arith,
    )
  ]
]

-- stumpless_new_element makes an element of a name exactly if that is an identifier of at most 32
-- bytes and the memory lasts; otherwise nothing stays allotted or locked and an error is reported.
pub stumpless_new_element-Made :
    (sizeof_element : ℕ) (name : Bytes) (w : World)
    → let (result, w') = stumpless_new_element sizeof_element (some name) w in
      (((length name ≤ 32) × All IsNameChar name) × Made name w (result, w'))
      ⊎ (((32 < length name) ⊎ (¬ All IsNameChar name))
          × (result ≡ none)
          × NoLeak w w'
          × (w'.error_valid ≡ true))
unfolding stumpless_new_element
stumpless_new_element-Made sizeof_element name w = elim ((validate_identifiers name w).0) [
  | inr (inl (long, e)) ↦ rw e (inr (inl long, refl, (refl, refl, refl), refl))
  | inr (inr (len, chars, e)) ↦ rw e (inr (inr chars, refl, (refl, refl, refl), refl))
  | inl (len, chars, e) ↦ rw e (inl ((len, chars), load_new_element-Made sizeof_element name w))
]

-- Destroying an element that was just made, or failed to be made, gives back every block and mutex
-- that making it took.
pub destroy_element_only-new_element :
    (sizeof_element : ℕ) (name : Bytes) (w : World)
    → let (made, w1) = stumpless_new_element sizeof_element (some name) w in
      NoLeak w (stumpless_destroy_element_only made w1)
unfolding stumpless_destroy_element_only unchecked_destroy_element unchecked_unload_element
destroy_element_only-new_element sizeof_element name w =
    elim (stumpless_new_element-Made sizeof_element name w) [
      | inr (_, e, leak, _) ↦ rw e leak
      | inl (_, inr (e, leak, _)) ↦ rw e leak
      | inl (_, inl (a, e, _, _, block, _, live, mutexes, held, _)) ↦
          rw (e, block, live, mutexes)
            (remove-cons_self a.block w.live, remove-cons_self a.mutex w.mutexes, held)
    ]
