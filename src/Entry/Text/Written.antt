-- ===== src/Entry/Text/Written.antt =====
-- What stumpless_entry_to_string writes while memory lasts (src/entry.c).
use stumpless.Base.{
  ℕ, ◌+◌, ◌-◌, ◌≤◌, ◌≡◌, refl, ap, ◌∙◌, [], ◌∷◌, ◌++◌, List, inl, inr, Bool, true, false, some,
  Bytes, codes, All, length, take, take-left, take_all, ◌==◌, if◌then◌else◌, length-append,
  length-take, append_assoc, append-nil, arith,
}
use stumpless.World.{World, alloc_mem, free_mem, remove, remove-cons_self}
use stumpless.World.Balance.{occurrences, occurrences-remove, alloc_mem-effects}
use stumpless.Param.{Param}
use stumpless.Param.Format.{IsConsistent}
use stumpless.Element.{Element}
use stumpless.Element.Text.{stumpless_element_to_string, element_text, element_to_string-HandsOut}
use stumpless.Entry.{Entry, lock_entry}
use stumpless.Entry.Text.{
  strlen, size_of_int, message_bytes, append_key_value_pair, append_pairs, elements_size,
  append_element_strings, total_length, stumpless_entry_to_string,
}

-- Memory does not run out.
abbrev pub IsGranting : World → Type 0
IsGranting w = (n size : ℕ) → w.malloc n size ≡ true

abbrev pub IsCString : Bytes → Type 0
IsCString = All (λ c. 1 ≤ c)

strlen-terminated : (s : Bytes) → IsCString s → strlen (s ++ 0 ∷ []) ≡ length s
strlen-terminated [] h = refl
strlen-terminated (c ∷ s) (positive, h) = ground (arith, strlen-terminated s h)

-- Another world with the same memory in use and the same locks.
abbrev IsSettled : World → World → Type 0
IsSettled w w' =
    (w'.live ≡ w.live)
    × (w'.mutexes ≡ w.mutexes)
    × (w'.malloc ≡ w.malloc)
    × ((m : ℕ) → occurrences m w'.held ≡ occurrences m w.held)

module _ (elements : ℕ → Element) (params : ℕ → Param) where
  -- An element whose texts are counted and hold no NUL.
  abbrev pub IsShown : ℕ → Type 0
  IsShown e =
      (length (elements e).name ≡ (elements e).name_length)
      × All (λ p. IsConsistent (params p)) (elements e).params
      × IsCString (element_text params (elements e))

  -- The elements, each but the first behind a comma.
  abbrev pub joined : Bool → List ℕ → Bytes
  joined is_first [] = []
  joined true (e ∷ es) = element_text params (elements e) ++ joined false es
  joined false (e ∷ es) = b',' ∷ (element_text params (elements e) ++ joined false es)

  length-joined :
      (is_first : Bool) (e : ℕ) (es : List ℕ)
      → length (joined is_first (e ∷ es))
        ≤ length (element_text params (elements e)) + 1 + length (joined false es)
  length-joined true e es =
      omega (arith, length-append (element_text params (elements e)) (joined false es))
  length-joined false e es =
      omega (arith, length-append (element_text params (elements e)) (joined false es))

  separated-joined :
      (is_first : Bool) (e : ℕ) (es : List ℕ) (dest : Bytes)
      → ((if is_first then dest else dest ++ b',' ∷ []) ++ element_text params (elements e))
          ++ joined false es
        ≡ dest ++ joined is_first (e ∷ es)
  separated-joined true e es dest = simp append_assoc
  separated-joined false e es dest = simp append_assoc

  element_granted :
      (e : ℕ) (w : World)
      → IsGranting w
      → IsShown e
      → let (r, w1) = stumpless_element_to_string params (some (elements e)) w in
        (block : ℕ) × (r ≡ some (block, element_text params (elements e) ++ 0 ∷ []))
        × IsSettled w (free_mem block w1)
  element_granted e w granting (counted, good, _) =
      let (_, mutexes, malloc, outcome) =
        element_to_string-HandsOut params (elements e) w counted good in
      elim outcome [
        | inr (_, _, _, (n, size, refused), _) ↦ absurd (cc (refused, granting n size))
        | inl (block, r, live, _, held) ↦ (
          block,
          r,
          (ap (remove block) live ∙ remove-cons_self block w.live, mutexes, malloc, held),
        )
      ]

  pub elements_size-joined :
      (es : List ℕ) (w : World)
      → IsGranting w
      → All IsShown es
      → let (n, w') = elements_size elements params es w in
        IsSettled w w' × ((is_first : Bool) → length (joined is_first es) ≤ n)
  unfolding elements_size
  elements_size-joined [] w granting shown =
      ((refl, refl, refl, λ m. refl), λ is_first. omega arith)
  elements_size-joined (e ∷ es) w granting (here, shown) =
      let (block, r, (live, mutexes, malloc, held)) = element_granted e w granting here in
      let w1 = free_mem block (stumpless_element_to_string params (some (elements e)) w).1 in
      let text = element_text params (elements e) in
      let ((live', mutexes', malloc', held'), rest) =
        elements_size-joined es w1 (λ n size. ap (λ f. f n size) malloc ∙ granting n size) shown in
      rw (elements_size, r, strlen-terminated text here.2)
        (
          (live' ∙ live, mutexes' ∙ mutexes, malloc' ∙ malloc, λ m. held' m ∙ held m),
          λ is_first. omega (arith, rest false, length-joined is_first e es),
        )

  append_element_strings-joined :
      (is_first : Bool) (es : List ℕ) (dest : Bytes) (w : World)
      → IsGranting w
      → All IsShown es
      → let (r, w') = append_element_strings elements params is_first es dest w in
        (r ≡ some (dest ++ joined is_first es)) × IsSettled w w'
  unfolding append_element_strings
  append_element_strings-joined is_first [] dest w granting shown =
      (rw append-nil refl, (refl, refl, refl, λ m. refl))
  append_element_strings-joined is_first (e ∷ es) dest w granting (here, shown) =
      let (block, r, (live, mutexes, malloc, held)) = element_granted e w granting here in
      let w1 = free_mem block (stumpless_element_to_string params (some (elements e)) w).1 in
      let text = element_text params (elements e) in
      let separated = if is_first then dest else dest ++ b',' ∷ [] in
      let (written, (live', mutexes', malloc', held')) =
        append_element_strings-joined false es (separated ++ text) w1
          (λ n size. ap (λ f. f n size) malloc ∙ granting n size) shown in
      rw (append_element_strings, r, strlen-terminated text here.2, take-left text (0 ∷ []))
        (
          written ∙ ap some (separated-joined is_first e es dest),
          (live' ∙ live, mutexes' ∙ mutexes, malloc' ∙ malloc, λ m. held' m ∙ held m),
        )

  -- The pairs, of which the last comma is dropped if there is no element, and the elements.
  abbrev pub with_elements : Bytes → List ℕ → Bytes
  with_elements pairs [] = take (length pairs - 1) pairs
  with_elements pairs (e ∷ es) = pairs ++ joined true (e ∷ es)

  take-with_elements :
      (pairs : Bytes) (es : List ℕ)
      → let bytes = pairs ++ joined true es in
        take (if length es == 0 then length bytes - 1 else length bytes) bytes
        ≡ with_elements pairs es
  take-with_elements pairs [] = rw append-nil refl
  take-with_elements pairs (e ∷ es) =
      let bytes = pairs ++ joined true (e ∷ es) in
      let not_empty : (length (e ∷ es) == 0) ≡ false = ground arith in
      rw not_empty (take_all (length bytes) bytes (omega arith))

  pub length-with_elements :
      (pairs : Bytes) (es : List ℕ)
      → length (with_elements pairs es) ≤ length pairs + length (joined true es)
  length-with_elements pairs [] = omega (arith, length-take (length pairs - 1) pairs)
  length-with_elements pairs (e ∷ es) = omega (arith, length-append pairs (joined true (e ∷ es)))

-- key="value",
abbrev pub pair_text : Bytes → Bytes → Bytes
pair_text key value = key ++ (codes "=\"" ++ (value ++ codes "\","))

-- The six pairs, each with as many bytes as are counted.
abbrev pub pairs_text : (ℕ → Bytes) → Entry → Bytes
pairs_text decimal e =
    pair_text (codes "prival") (decimal (size_of_int e.prival))
    ++ (pair_text (codes "app_name") (take e.app_name_length e.app_name)
        ++ (pair_text (codes "hostname") (take e.hostname_length e.hostname)
            ++ (pair_text (codes "message_id") (take e.msgid_length e.msgid)
                ++ (pair_text (codes "process_id") (take e.procid_length e.procid)
                    ++ pair_text (codes "message")
                        (take e.message_length (message_bytes e.message))))))

append_key_value_pair_lem :
    (dest key value : Bytes) (n : ℕ)
    → append_key_value_pair dest key value n ≡ dest ++ pair_text key (take n value)
unfolding append_key_value_pair
append_key_value_pair_lem dest key value n = refl

pub append_pairs_lem :
    (decimal : ℕ → Bytes) (e : Entry) → append_pairs decimal e ≡ pairs_text decimal e
unfolding append_pairs
append_pairs_lem decimal e =
    let temp = decimal (size_of_int e.prival) in
    let whole : take (length temp) temp ≡ temp = take_all (length temp) temp (omega arith) in
    simp (append_key_value_pair_lem, whole, append_assoc)

module _ (decimal : ℕ → Bytes) (elements : ℕ → Element) (params : ℕ → Param) where
  -- The text of an entry.
  abbrev pub entry_text : Entry → Bytes
  entry_text e = with_elements elements params (pairs_text decimal e) e.elements

  pub entry_to_string-entry_text :
      (e : Entry) (w : World)
      → IsGranting w
      → All (IsShown elements params) e.elements
      → let (result, w') = stumpless_entry_to_string decimal elements params (some e) w in
        (block : ℕ) × (result ≡ some (some (block, entry_text e ++ 0 ∷ [])))
        × (w'.live ≡ block ∷ w.live)
        × (w'.mutexes ≡ w.mutexes)
        × ((m : ℕ) → occurrences m w'.held ≡ occurrences m w.held)
  unfolding stumpless_entry_to_string
  entry_to_string-entry_text e w granting shown =
      let w0 = lock_entry e w in
      let ((live, mutexes, malloc, held), sizes) =
        elements_size-joined elements params e.elements w0 granting shown in
      let (size, w1) = elements_size elements params e.elements w0 in
      let w2 = (alloc_mem (total_length e size + 1) w1).1 in
      let (mutexes', held', malloc', outcome) = alloc_mem-effects (total_length e size + 1) w1 in
      let (written, (live'', mutexes'', malloc'', held'')) =
        append_element_strings-joined elements params true e.elements (append_pairs decimal e) w2
          (λ n s. ap (λ f. f n s) (malloc' ∙ malloc) ∙ granting n s) shown in
      elim outcome [
        | inr (refused, _, _, _) ↦ absurd (
            cc (
              refused,
              ap (λ f. f w1.calls (total_length e size + 1)) malloc,
              granting w1.calls (total_length e size + 1),
            ))
        | inl (_, r, grown, _) ↦
            rw (stumpless_entry_to_string, r, written)
              (
                w1.calls,
                ap (λ s. some (some (w1.calls, s ++ 0 ∷ [])))
                    (take-with_elements elements params (append_pairs decimal e) e.elements
                      ∙ ap (λ p. with_elements elements params p e.elements)
                          (append_pairs_lem decimal e)),
                live'' ∙ (grown ∙ ap (λ l. w1.calls ∷ l) live),
                mutexes'' ∙ (mutexes' ∙ mutexes),
                λ m.
                    let w3 =
                      (append_element_strings elements params true e.elements
                        (append_pairs decimal e) w2).1 in
                    ground (
                      arith,
                      held m,
                      ap (occurrences m) held',
                      held'' m,
                      occurrences-remove m e.mutex w3.held,
                    ),
              )
      ]
