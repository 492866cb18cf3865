-- ===== src/Element/Text.antt =====
-- src/element.c: an element as text, name=[param,param], by stumpless_element_to_string.
use stumpless.Base.{
  ℕ, ◌+◌, ◌-◌, ◌≡◌, refl, sym, ap, ap₂, ◌∙◌, [], ◌∷◌, ◌++◌, List, map, ◌⊎◌, inl, inr, false, Option,
  none, some, Bytes, All, length, take, ◌==◌, if◌then◌else◌, List-cases, length-append, take_all,
  take-left, append_assoc, arith,
}
use mathlib.Core.Path.{subst}
use stumpless.Error.{null_arg_error_message}
use stumpless.World.{World, alloc_mem, clear_error, raise_argument_empty}
use stumpless.World.Balance.{occurrences, occurrences-remove, IsExhausted, alloc_mem-effects}
use stumpless.Param.{Param, lock_param, unlock_param}
use stumpless.Param.Format.{
  IsConsistent, shown, locked_get_param_string_size, locked_param_into_buffer,
  locked_param_into_buffer-shown,
}
use stumpless.Element.{Element, lock_element, unlock_element}

module _ (params : ℕ → Param) where
  -- The first loop: every param is locked, and its size without the NUL is added.
  pub lock_params : List ℕ → World → World
  lock_params [] w = w
  lock_params (p ∷ ps) w = lock_params ps (lock_param (params p) w)

  pub params_length : List ℕ → ℕ
  params_length [] = 0
  params_length (p ∷ ps) = locked_get_param_string_size (params p) - 1 + params_length ps

  -- The size of the block that is asked for.
  pub format_length : Element → ℕ
  format_length element =
      let param_count = length element.params in
      element.name_length
      + params_length element.params
      + (if param_count == 0 then 1 else 4 + param_count - 1)

  -- The second loop: the params without their NUL, with commas in between.
  pub format_params : List ℕ → World → Bytes × World
  format_params [] w = ([], w)
  format_params (p ∷ []) w =
      let written = locked_param_into_buffer (params p) in
      (take (length written - 1) written, unlock_param (params p) w)
  format_params (p ∷ q ∷ ps) w =
      let written = locked_param_into_buffer (params p) in
      let (rest, w') = format_params (q ∷ ps) (unlock_param (params p) w) in
      (take (length written - 1) written ++ (b',' ∷ rest), w')

  -- What is written into the block, from its start to the NUL.
  pub format_element : Element → World → Bytes × World
  format_element element w =
      let (list, w') = format_params element.params w in
      if length element.params == 0
      then (take element.name_length element.name ++ 0 ∷ [], w)
      else (take element.name_length element.name ++ (b'=' ∷ b'[' ∷ (list ++ (b']' ∷ 0 ∷ []))), w')

  pub stumpless_element_to_string : Option Element → World → Option (ℕ × Bytes) × World
  stumpless_element_to_string none w =
      (none, raise_argument_empty (null_arg_error_message "element") w)
  stumpless_element_to_string (some element) w =
      let (format, w1) =
        alloc_mem (format_length element) (lock_params element.params (lock_element element w)) in
      elim format [
        | none ↦ (none, unlock_element element w1)
        | some block ↦
            let (text, w2) = format_element element w1 in
            (some (block, text), clear_error (unlock_element element w2))
      ]

  -- The text of an element, without the NUL.
  abbrev pub join : List ℕ → Bytes
  join [] = []
  join (p ∷ []) = shown (params p)
  join (p ∷ q ∷ ps) = shown (params p) ++ (b',' ∷ join (q ∷ ps))

  abbrev pub element_text : Element → Bytes
  element_text e = elim e.params [
    | [] ↦ e.name
    | p ∷ ps ↦ e.name ++ (b'=' ∷ b'[' ∷ (join (p ∷ ps) ++ (b']' ∷ [])))
  ]

  abbrev pub mutexes_of : List ℕ → List ℕ
  mutexes_of = map (λ p. (params p).mutex)

  lock_params-occurrences :
      (ps : List ℕ) (m : ℕ) (w : World)
      → (occurrences m (lock_params ps w).held
          ≡ occurrences m (mutexes_of ps) + occurrences m w.held)
        × ((lock_params ps w).live ≡ w.live)
        × ((lock_params ps w).mutexes ≡ w.mutexes)
        × ((lock_params ps w).malloc ≡ w.malloc)
  unfolding lock_params
  lock_params-occurrences [] m w = (omega arith, refl, refl, refl)
  lock_params-occurrences (p ∷ ps) m w =
      let (held, live, mutexes, malloc) = lock_params-occurrences ps m (lock_param (params p) w) in
      (omega (arith, held), live, mutexes, malloc)

  without_nul :
      (p : Param)
      → IsConsistent p
      → take (length (locked_param_into_buffer p) - 1) (locked_param_into_buffer p) ≡ shown p
  without_nul p c =
      let (text, len) = locked_param_into_buffer-shown p c in
      rw text (
        ap (λ n. take n (shown p ++ 0 ∷ [])) {y = length (shown p)}
          (omega (arith, length-append (shown p) (0 ∷ [])))
        ∙ take-left (shown p) (0 ∷ []))

  format_params-join :
      (ps : List ℕ) (m : ℕ) (w : World)
      → All (λ p. IsConsistent (params p)) ps
      → let (text, w') = format_params ps w in
        (text ≡ join ps)
        × (occurrences m w'.held ≡ occurrences m w.held - occurrences m (mutexes_of ps))
        × (w'.live ≡ w.live)
        × (w'.mutexes ≡ w.mutexes)
        × (w'.malloc ≡ w.malloc)
  unfolding format_params
  format_params-join [] m w good = (refl, omega arith, refl, refl, refl)
  format_params-join (p ∷ []) m w (c, good) = (
    without_nul (params p) c,
    omega (arith, occurrences-remove m (params p).mutex w.held),
    refl,
    refl,
    refl,
  )
  format_params-join (p ∷ q ∷ ps) m w (c, good) =
      let (text, held, live, mutexes, malloc) =
        format_params-join (q ∷ ps) m (unlock_param (params p) w) good in
      (
        ap₂ (λ a b. a ++ (b',' ∷ b)) (without_nul (params p) c) text,
        omega (arith, held, occurrences-remove m (params p).mutex w.held),
        live,
        mutexes,
        malloc,
      )

  length-shown :
      (p : Param) → IsConsistent p → locked_get_param_string_size p ≡ length (shown p) + 1
  length-shown p c =
      let (text, len) = locked_param_into_buffer-shown p c in
      omega (arith, len, ap length text, length-append (shown p) (0 ∷ []))

  params_length-join :
      (p : ℕ) (ps : List ℕ)
      → All (λ q. IsConsistent (params q)) (p ∷ ps)
      → length (join (p ∷ ps)) ≡ params_length (p ∷ ps) + length ps
  unfolding params_length
  params_length-join p [] (c, _) = omega (arith, length-shown (params p) c)
  params_length-join p (q ∷ ps) (c, good) = omega (
    arith,
    length-shown (params p) c,
    params_length-join q ps good,
    length-append (shown (params p)) (b',' ∷ join (q ∷ ps)),
  )

  -- The block is as large as the text with its NUL.
  pub format_length-element_text :
      (e : Element)
      → length e.name ≡ e.name_length
      → All (λ p. IsConsistent (params p)) e.params
      → format_length e ≡ length (element_text e) + 1
  unfolding format_length params_length
  format_length-element_text e counted good = elim (List-cases e.params) [
    | inl empty ↦ rw empty (omega (arith, counted))
    | inr (p, ps, some_params) ↦
        let listed : All (λ q. IsConsistent (params q)) (p ∷ ps) =
          subst (All (λ q. IsConsistent (params q))) some_params good in
        rw some_params (
          ground (
            arith,
            counted,
            params_length-join p ps listed,
            length-append e.name (b'=' ∷ b'[' ∷ (join (p ∷ ps) ++ (b']' ∷ []))),
            length-append (join (p ∷ ps)) (b']' ∷ []),
          ))
  ]

  format_element-element_text :
      (e : Element) (m : ℕ) (w : World)
      → length e.name ≡ e.name_length
      → All (λ p. IsConsistent (params p)) e.params
      → let (text, w') = format_element e w in
        (text ≡ element_text e ++ 0 ∷ [])
        × (occurrences m w'.held ≡ occurrences m w.held - occurrences m (mutexes_of e.params))
        × (w'.live ≡ w.live)
        × (w'.mutexes ≡ w.mutexes)
        × (w'.malloc ≡ w.malloc)
  unfolding format_element format_params
  format_element-element_text e m w counted good =
      let name : take e.name_length e.name ≡ e.name = take_all _ _ (omega (arith, counted)) in
      elim (List-cases e.params) [
        | inl empty ↦ rw (format_element, empty, name) (refl, omega arith, refl, refl, refl)
        | inr (p, ps, some_params) ↦
            let listed : All (λ q. IsConsistent (params q)) (p ∷ ps) =
              subst (All (λ q. IsConsistent (params q))) some_params good in
            let (text, held, live, mutexes, malloc) = format_params-join (p ∷ ps) m w listed in
            let not_empty : (length (p ∷ ps) == 0) ≡ false = ground arith in
            rw (format_element, some_params, not_empty, name, text)
              (simp append_assoc, held, live, mutexes, malloc)
      ]

  -- stumpless_element_to_string on an element whose texts are counted asks for exactly the size of
  -- its text with the NUL. It hands out the text in one new block, with every mutex given back and
  -- no error; or memory runs out, nothing is allotted and an error is reported, and then the mutex
  -- of every param of the element stays locked.
  pub element_to_string-HandsOut :
      (e : Element) (w : World)
      → length e.name ≡ e.name_length
      → All (λ p. IsConsistent (params p)) e.params
      → let (result, w') = stumpless_element_to_string (some e) w in
        (format_length e ≡ length (element_text e) + 1)
        × (w'.mutexes ≡ w.mutexes)
        × (w'.malloc ≡ w.malloc)
        × (((block : ℕ) × (result ≡ some (block, element_text e ++ 0 ∷ []))
              × (w'.live ≡ block ∷ w.live)
              × (w'.error_valid ≡ false)
              × ((m : ℕ) → occurrences m w'.held ≡ occurrences m w.held))
            ⊎ ((result ≡ none)
                × (w'.live ≡ w.live)
                × IsExhausted w'
                × ((n : ℕ) × (size : ℕ) × (w.malloc n size ≡ false))
                × ((m : ℕ)
                    → occurrences m w'.held
                      ≡ occurrences m (mutexes_of e.params) + occurrences m w.held)))
  unfolding stumpless_element_to_string
  element_to_string-HandsOut e w counted good =
      let w1 = lock_params e.params (lock_element e w) in
      let w2 = (alloc_mem (format_length e) w1).1 in
      let locked = λ (m : ℕ). lock_params-occurrences e.params m (lock_element e w) in
      let formatted = λ (m : ℕ). format_element-element_text e m w2 counted good in
      let (mutexes, held, malloc, outcome) = alloc_mem-effects (format_length e) w1 in
      elim outcome [
        | inr (refused, r, live, oom) ↦
            rw (stumpless_element_to_string, r)
              (
                format_length-element_text e counted good,
                mutexes ∙ (locked 0).2,
                malloc ∙ (locked 0).3,
                inr (
                  refl,
                  live ∙ (locked 0).1,
                  oom,
                  (
                    w1.calls,
                    format_length e,
                    ap (λ f. f w1.calls (format_length e)) (sym (locked 0).3) ∙ refused,
                  ),
                  λ m. omega (
                    arith,
                    (locked m).0,
                    ap (occurrences m) held,
                    occurrences-remove m e.mutex w2.held,
                  ),
                ),
              )
        | inl (_, r, live, _) ↦
            rw (stumpless_element_to_string, r)
              (
                format_length-element_text e counted good,
                (formatted 0).3 ∙ (mutexes ∙ (locked 0).2),
                (formatted 0).4 ∙ (malloc ∙ (locked 0).3),
                inl (
                  w1.calls,
                  ap (λ s. some (w1.calls, s)) (formatted 0).0,
                  (formatted 0).2 ∙ (live ∙ ap (λ l. w1.calls ∷ l) (locked 0).1),
                  refl,
                  λ m. ground (
                    arith,
                    (locked m).0,
                    (formatted m).1,
                    ap (occurrences m) held,
                    occurrences-remove m e.mutex (format_element e w2).1.held,
                  ),
                ),
              )
      ]
