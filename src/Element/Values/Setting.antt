-- ===== src/Element/Values/Setting.antt =====
-- The value of a param that is set through its element (src/element.c).
use stumpless.Base.{
  ℕ, ◌+◌, ◌≤◌, zero, suc, ◌<◌, ◌≡◌, ◌≢◌, refl, ap, ◌∙◌, sym, [], ◌∷◌, List, Bytes, true, false, ◌⊎◌,
  inl, inr, none, some, All, IsByte, length, get_elem?, leb, ◌==◌, Bool-cases, arith,
}
use mathlib.Core.Path.{subst}
use stumpless.World.{World, remove, clear_error, remove-cons_self}
use stumpless.Validate.Utf8.WellFormed.{WellFormed}
use stumpless.Param.{Param, stumpless_set_param_value}
use stumpless.Param.Format.{IsConsistent}
use stumpless.Param.Change.{set_param_value-replaces}
use stumpless.Param.Copy.{HandsOut, get_param-HandsOut}
use stumpless.Element.{Element, param_count, lock_element, unlock_element}
use stumpless.Element.Array.{by_index-inside}
use stumpless.Element.Values.{
  updated, set_value_of, locked_get_param_by_index, stumpless_set_param_value_by_index,
  stumpless_get_param_value_by_index,
}

get_elem?-inside : (ps : List ℕ) (i : ℕ) → i < length ps → (p : ℕ) × (get_elem? ps i ≡ some p)
get_elem?-inside [] i h = absurd (omega arith)
get_elem?-inside (p ∷ ps) zero h = (p, refl)
get_elem?-inside (p ∷ ps) (suc i) h = get_elem?-inside ps i (omega arith)

All-get_elem? : (P : ℕ → Type 0) (ps : List ℕ) (i p : ℕ) → All P ps → get_elem? ps i ≡ some p → P p
All-get_elem? P [] i p h e = absurd (cc e)
All-get_elem? P (q ∷ ps) zero p (h, _) e = subst P (ap (λ o. elim o [ none ↦ q | some x ↦ x ]) e) h
All-get_elem? P (q ∷ ps) (suc i) p (_, h) e = All-get_elem? P ps i p h e

updated-other :
    (params : ℕ → Param) (p : ℕ) (q : Param) (x : ℕ) → x ≢ p → updated params p q x ≡ params x
updated-other params p q x other = let differ : (x == p) ≡ false = ground arith in rw differ refl

updated_same : (params : ℕ → Param) (p x : ℕ) → updated params p (params p) x ≡ params x
updated_same params p x = elim (Bool-cases (x == p)) [
  | inl equal ↦ let same : x ≡ p = ground arith in rw equal (ap params (sym same))
  | inr differ ↦ rw differ refl
]

-- The case of an index at which a param stands.
set_value_found :
    (params : ℕ → Param) (e : Element) (i : ℕ) (value : Bytes) (w : World) (p : ℕ)
    → get_elem? e.params i ≡ some p
    → i < length e.params
    → All IsByte value
    → (params p).value_block < w.calls
    → IsConsistent (params p)
    → let (done, params', w') =
        stumpless_set_param_value_by_index params (some e) i (some value) w in
      (w'.held ≡ w.held)
      × ((WellFormed value
            × (done ≡ true)
            × ((params' p).name ≡ (params p).name)
            × ((params' p).value ≡ value)
            × ((q : ℕ) → q ≢ p → params' q ≡ params q)
            × HandsOut value w' (stumpless_get_param_value_by_index params' (some e) i w'))
          ⊎ (((¬ WellFormed value) ⊎ (w.malloc w.calls (length value + 1) ≡ false))
              × (done ≡ false)
              × ((q : ℕ) → params' q ≡ params q)
              × (w'.live ≡ w.live)
              × (w'.error_valid ≡ true)))
unfolding stumpless_set_param_value_by_index locked_get_param_by_index param_count
    stumpless_get_param_value_by_index
set_value_found params e i value w p at small byte late good =
    let inside : leb (length e.params) i ≡ false = ground arith in
    let (mutexes, held, outcome) =
      set_param_value-replaces (params p) value (lock_element e w) byte late in
    elim outcome [
      | inl (formed, _, done, clear, r, live) ↦
          let w' =
            unlock_element e
              (stumpless_set_param_value (some (params p)) (some value) (lock_element e w)).2 in
          let q : Param = record (params p) {
            value_block = w.calls;
            value = value;
            value_length = length value;
          } in
          let itself : (p == p) ≡ true = ground arith in
          let read = by_index-inside e i w' small in
          let handed : HandsOut value w'
              (stumpless_get_param_value_by_index (updated params p q) (some e) i w') =
            rw (stumpless_get_param_value_by_index, read, at, itself)
              (get_param-HandsOut q (clear_error w')
                (record { name_counted = good.name_counted; value_counted = refl })).1 in
          rw (inside, at, set_value_of, r, done)
            (
              ap (remove e.mutex) held ∙ remove-cons_self e.mutex w.held,
              inl (formed, refl, rw itself refl, rw itself refl, updated-other params p q, handed),
            )
      | inr (why, done, error, r, live) ↦
          rw (inside, at, set_value_of, r, done)
            (
              ap (remove e.mutex) held ∙ remove-cons_self e.mutex w.held,
              inr (why, refl, updated_same params p, live, error),
            )
    ]

-- stumpless_set_param_value_by_index at an element whose params have counts that fit and values in
-- memory that was allotted before: it leaves no mutex held that was not. Either a param stands at
-- the index, the value is well formed as the check of UTF-8 reads it, which takes a character that
-- the end of the value cuts, that param has it and its old name, the other params are as they
-- were, and stumpless_get_param_value_by_index then gives a new copy of the value, or nothing and
-- an error; or no param is changed, what is allotted stays the same, and an error is reported, and
-- then the index is outside the array, the value is not well formed, or the memory for it is
-- refused.
pub set_param_value_by_index-get :
    (params : ℕ → Param) (e : Element) (i : ℕ) (value : Bytes) (w : World)
    → All IsByte value
    → All (λ p. ((params p).value_block < w.calls) × IsConsistent (params p)) e.params
    → let (done, params', w') =
        stumpless_set_param_value_by_index params (some e) i (some value) w in
      (w'.held ≡ w.held)
      × (((p : ℕ) × (get_elem? e.params i ≡ some p)
            × WellFormed value
            × (done ≡ true)
            × ((params' p).name ≡ (params p).name)
            × ((params' p).value ≡ value)
            × ((q : ℕ) → q ≢ p → params' q ≡ params q)
            × HandsOut value w' (stumpless_get_param_value_by_index params' (some e) i w'))
          ⊎ (((length e.params ≤ i)
                ⊎ (¬ WellFormed value)
                ⊎ (w.malloc w.calls (length value + 1) ≡ false))
              × (done ≡ false)
              × ((q : ℕ) → params' q ≡ params q)
              × (w'.live ≡ w.live)
              × (w'.error_valid ≡ true)))
unfolding stumpless_set_param_value_by_index locked_get_param_by_index param_count
set_param_value_by_index-get params e i value w byte old =
    elim (Bool-cases (leb (length e.params) i)) [
      | inl outside ↦
          rw outside
            (remove-cons_self e.mutex w.held, inr (inl (ground arith), refl, λ q. refl, refl, refl))
      | inr inside ↦
          let small : i < length e.params = ground arith in
          let (p, at) = get_elem?-inside e.params i small in
          let (late, good) =
            All-get_elem? (λ x. ((params x).value_block < w.calls) × IsConsistent (params x))
              e.params i p old at in
          let (held, outcome) = set_value_found params e i value w p at small byte late good in
          (
            held,
            elim outcome [
              | inl (formed, done, name, replaced, others, read) ↦
                  inl (p, at, formed, done, name, replaced, others, read)
              | inr (why, failed, same, live, error) ↦ inr (inr why, failed, same, live, error)
            ],
          )
    ]
