-- ===== src/Element/Lookup.antt =====
-- The params of an element by their name (src/element.c, and the loop of
-- include/private/element.h).
use stumpless.Base.{
  ℕ, ◌+◌, ◌≤◌, ◌≡◌, ◌≢◌, refl, ap, ap₂, ◌∙◌, [], ◌∷◌, ◌++◌, List, Bytes, Bool, true, false, ◌⊎◌,
  inl, inr, Option, none, some, length, All, if◌then◌else◌, Bool-cases, is_same, arith,
}
use stumpless.Base.Search.{IsFirst, search_from, search_name-cases}
use stumpless.Error.{null_arg_error_message}
use stumpless.World.{World, clear_error, raise_argument_empty, raise_param_not_found, unlock-lock}
use stumpless.Validate.{validate_param_name}
use stumpless.Validate.Names.{IsNameChar, validate_identifiers}
use stumpless.Param.{Param, lock_param, unlock_param}
use stumpless.Element.{Element, lock_element, unlock_element}

-- `store` tells what each param holds, and `behind` what the memory behind a name without a NUL
-- holds up to the next one.
module _ (store : ℕ → Param) (behind : ℕ → Bytes) where
  -- What `strcmp` reads of the name of a param.
  abbrev pub c_name : ℕ → Bytes
  c_name param =
      if (store param).terminated then (store param).name else (store param).name ++ behind param

  -- FOR_EACH_PARAM_WITH_NAME up to its first round with a body: the index and the param.
  find_param : Bytes → ℕ → List ℕ → World → Option (ℕ × ℕ) × World
  find_param name i [] w = (none, w)
  find_param name i (param ∷ params) w =
      let w1 = unlock_param (store param) (lock_param (store param) w) in
      let rest = find_param name (i + 1) params w1 in
      if is_same (c_name param) name then (some (i, param), w1) else rest

  -- `stumpless_element_has_param`, `stumpless_get_param_by_name` and `stumpless_get_param_index`
  -- behind their tests for NULL and of the name.
  abbrev found_in : Element → Bytes → World → Option (ℕ × ℕ) × World
  found_in element name w = find_param name 0 element.params (lock_element element (clear_error w))

  pub stumpless_element_has_param : Option Element → Option Bytes → World → Bool × World
  stumpless_element_has_param none name w =
      (false, raise_argument_empty (null_arg_error_message "element") w)
  stumpless_element_has_param (some element) none w =
      (false, raise_argument_empty (null_arg_error_message "name") w)
  stumpless_element_has_param (some element) (some name) w =
      let (valid, len, w1) = validate_param_name name w in
      let r = found_in element name w1 in
      if valid
      then (elim r.0 [ none ↦ false | some hit ↦ true ], unlock_element element r.1)
      else (false, w1)

  -- What follows the loop: the error if it found nothing, and the end.
  abbrev finish_by_name : Element → Option (ℕ × ℕ) × World → Option ℕ × World
  finish_by_name element (none, w) = (none, unlock_element element (raise_param_not_found w))
  finish_by_name element (some hit, w) = (some hit.1, unlock_element element w)

  abbrev finish_index : Element → Option (ℕ × ℕ) × World → ℕ × World
  finish_index element (none, w) = (0, unlock_element element (raise_param_not_found w))
  finish_index element (some hit, w) = (hit.0, unlock_element element w)

  pub stumpless_get_param_by_name : Option Element → Option Bytes → World → Option ℕ × World
  stumpless_get_param_by_name none name w =
      (none, raise_argument_empty (null_arg_error_message "element") w)
  stumpless_get_param_by_name (some element) none w =
      (none, raise_argument_empty (null_arg_error_message "name") w)
  stumpless_get_param_by_name (some element) (some name) w =
      let (valid, len, w1) = validate_param_name name w in
      let r = found_in element name w1 in if valid then finish_by_name element r else (none, w1)

  pub stumpless_get_param_index : Option Element → Option Bytes → World → ℕ × World
  stumpless_get_param_index none name w =
      (0, raise_argument_empty (null_arg_error_message "element") w)
  stumpless_get_param_index (some element) none w =
      (0, raise_argument_empty (null_arg_error_message "name") w)
  stumpless_get_param_index (some element) (some name) w =
      let (valid, len, w1) = validate_param_name name w in
      let r = found_in element name w1 in if valid then finish_index element r else (0, w1)

  find_param-search_from :
      (name : Bytes) (i : ℕ) (params : List ℕ) (w : World)
      → find_param name i params w
        ≡ (search_from (λ param. is_same (c_name param) name) i params, w)
  unfolding find_param search_from
  find_param-search_from name i [] w = refl
  find_param-search_from name i (param ∷ params) w =
      let back = unlock-lock (store param).mutex w in
      let later = search_from (λ q. is_same (c_name q) name) (i + 1) params in
      elim (Bool-cases (is_same (c_name param) name)) [
        | inl same ↦ rw same (ap (λ v. (some (i, param), v)) back)
        | inr other ↦ rw other (
            find_param-search_from name (i + 1) params
              (unlock_param (store param) (lock_param (store param) w))
            ∙ ap (λ v. (later, v)) back)
      ]

  find_param-cases :
      (name : Bytes) (i : ℕ) (params : List ℕ) (w : World)
      → ((find_param name i params w).1 ≡ w)
        × ((((find_param name i params w).0 ≡ none) × All (λ q. c_name q ≢ name) params)
            ⊎ ((j : ℕ) × (param : ℕ) × ((find_param name i params w).0 ≡ some (i + j, param))
                × IsFirst (λ q. c_name q ≡ name) params j param))
  find_param-cases name i params w =
      let e = find_param-search_from name i params w in
      (
        ap (λ r. r.1) e,
        elim (search_name-cases c_name name i params) [
          | inl (missed, others) ↦ inl (ap (λ r. r.0) e ∙ missed, others)
          | inr (j, param, hit, first) ↦ inr (j, param, ap (λ r. r.0) e ∙ hit, first)
        ],
      )

  -- For a name of at most 32 bytes, none of which is refused in a name, the three lookups of an
  -- element agree. If no param of it has the name, the answers are false, NULL and 0; the latter
  -- two report STUMPLESS_PARAM_NOT_FOUND, and stumpless_element_has_param leaves no error, against
  -- its documentation. Otherwise they are true, the first param that has it and its index, and no
  -- error is left. Every mutex that was taken is given back.
  pub lookups-IsFirst :
      (e : Element) (name : Bytes) (w : World)
      → All IsNameChar name
      → length name ≤ 32
      → (All (λ q. c_name q ≢ name) e.params
          × (stumpless_element_has_param (some e) (some name) w ≡ (false, clear_error w))
          × (stumpless_get_param_by_name (some e) (some name) w
              ≡ (none, raise_param_not_found (clear_error w)))
          × (stumpless_get_param_index (some e) (some name) w
              ≡ (0, raise_param_not_found (clear_error w))))
        ⊎ ((i : ℕ) × (param : ℕ) × IsFirst (λ q. c_name q ≡ name) e.params i param
            × (stumpless_element_has_param (some e) (some name) w ≡ (true, clear_error w))
            × (stumpless_get_param_by_name (some e) (some name) w ≡ (some param, clear_error w))
            × (stumpless_get_param_index (some e) (some name) w ≡ (i, clear_error w)))
  unfolding stumpless_element_has_param stumpless_get_param_by_name stumpless_get_param_index
  lookups-IsFirst e name w chars short = elim ((validate_identifiers name w).1) [
    | inr (inl (long, _)) ↦ absurd (omega arith)
    | inr (inr (_, bad, _)) ↦ absurd (bad chars)
    | inl (_, _, valid) ↦
        let (kept, result) = find_param-cases name 0 e.params (lock_element e (clear_error w)) in
        let back = unlock-lock e.mutex (clear_error w) in
        elim result [
          | inl (missed, none_named) ↦
              let pair : find_param name 0 e.params (lock_element e (clear_error w))
                  ≡ (none, lock_element e (clear_error w)) =
                ap₂ (λ a b. (a, b)) missed kept in
              rw (valid, pair)
                (inl (
                  none_named,
                  ap (λ v. (false, v)) back,
                  ap (λ v. (none, raise_param_not_found v)) back,
                  ap (λ v. (0, raise_param_not_found v)) back,
                ))
          | inr (i, param, hit, first) ↦
              let pair : find_param name 0 e.params (lock_element e (clear_error w))
                  ≡ (some (0 + i, param), lock_element e (clear_error w)) =
                ap₂ (λ a b. (a, b)) hit kept in
              rw (valid, pair)
                (inr (
                  i,
                  param,
                  first,
                  ap (λ v. (true, v)) back,
                  ap (λ v. (some param, v)) back,
                  ap₂ (λ k v. (k, v)) (omega arith) back,
                ))
        ]
  ]
