-- ===== src/Entry/Text.antt =====
-- src/entry.c: an entry as text, by stumpless_entry_to_string.
pub mod Written
pub mod Fits
use stumpless.Base.{
  ℕ, ◌+◌, ◌-◌, ◌^◌, ◌≤◌, ◌<◌, ◌≡◌, refl, sym, ap, ◌∙◌, [], ◌∷◌, ◌++◌, List, map, ◌⊎◌, inl, inr,
  Bool, true, false, Option, none, some, Bytes, codes, All, length, take, ◌==◌, if◌then◌else◌,
  Bool-cases, List-cases, length-append, length-take, append_assoc, arith,
}
use stumpless.Base.Int.{ℤ, pos, negsuc}
use stumpless.Error.{null_arg_error_message}
use stumpless.World.{World, alloc_mem, free_mem, raise_argument_empty, remove, remove-cons_self}
use stumpless.World.Balance.{occurrences, occurrences-remove, alloc_mem-effects}
use stumpless.Param.{Param}
use stumpless.Param.Format.{IsConsistent}
use stumpless.Element.{Element}
use stumpless.Element.Text.{stumpless_element_to_string, element_text, element_to_string-HandsOut}
use stumpless.Entry.{Entry, lock_entry, unlock_entry}

abbrev pub strlen : Bytes → ℕ
strlen [] = 0
strlen (c ∷ s) = if c == 0 then 0 else 1 + strlen s

-- `( size_t ) prival`, of 64 bits.
abbrev pub size_of_int : ℤ → ℕ
size_of_int (pos n) = n
size_of_int (negsuc n) = 2 ^ 64 - 1 - n

-- Behind what is in the block so far.
pub append_key_value_pair : Bytes → Bytes → Bytes → ℕ → Bytes
append_key_value_pair dest key value value_length =
    dest ++ (key ++ (b'=' ∷ b'"' ∷ (take value_length value ++ (b'"' ∷ b',' ∷ []))))

abbrev pub message_bytes : Option (ℕ × Bytes) → Bytes
message_bytes none = []
message_bytes (some m) = m.1

-- `decimal` is what `sprintf` writes for `%zu`.
pub append_pairs : (ℕ → Bytes) → Entry → Bytes
append_pairs decimal entry =
    let temp = decimal (size_of_int entry.prival) in
    let b1 = append_key_value_pair [] (codes "prival") temp (length temp) in
    let b2 = append_key_value_pair b1 (codes "app_name") entry.app_name entry.app_name_length in
    let b3 = append_key_value_pair b2 (codes "hostname") entry.hostname entry.hostname_length in
    let b4 = append_key_value_pair b3 (codes "message_id") entry.msgid entry.msgid_length in
    let b5 = append_key_value_pair b4 (codes "process_id") entry.procid entry.procid_length in
    append_key_value_pair b5 (codes "message") (message_bytes entry.message) entry.message_length

pub total_length : Entry → ℕ → ℕ
total_length entry elements_length =
    7
    + 20
    + (9 + entry.app_name_length)
    + (10 + entry.hostname_length)
    + (12 + entry.msgid_length)
    + (12 + entry.procid_length)
    + (9 + entry.message_length)
    + elements_length

module _ (elements : ℕ → Element) (params : ℕ → Param) where
  -- The loop that adds up the sizes of the elements.
  pub elements_size : List ℕ → World → ℕ × World
  elements_size [] w = (0, w)
  elements_size (e ∷ es) w =
      let (element_str, w1) = stumpless_element_to_string params (some (elements e)) w in
      let (missed, w2) = elements_size es w1 in
      elim element_str [
        | none ↦ (missed, w2)
        | some s ↦ let (n, w3) = elements_size es (free_mem s.0 w1) in (strlen s.1 + 1 + n, w3)
      ]

  -- The loop that writes them, behind what is there. `none` is a crash: the text is not tested for
  -- NULL.
  pub append_element_strings : Bool → List ℕ → Bytes → World → Option Bytes × World
  append_element_strings is_first_element [] dest w = (some dest, w)
  append_element_strings is_first_element (e ∷ es) dest w =
      let (element_str, w1) = stumpless_element_to_string params (some (elements e)) w in
      elim element_str [
        | none ↦ (none, w1)
        | some s ↦
            let separated = if is_first_element then dest else dest ++ b',' ∷ [] in
            append_element_strings false es (separated ++ take (strlen s.1) s.1) (free_mem s.0 w1)
      ]

module _ (decimal : ℕ → Bytes) (elements : ℕ → Element) (params : ℕ → Param) where
  -- NULL or a block with what is written into it; and `none` is a crash.
  pub stumpless_entry_to_string : Option Entry → World → Option (Option (ℕ × Bytes)) × World
  stumpless_entry_to_string none w =
      (some none, raise_argument_empty (null_arg_error_message "entry") w)
  stumpless_entry_to_string (some entry) w =
      let (size, w1) = elements_size elements params entry.elements (lock_entry entry w) in
      let (return_format, w2) = alloc_mem (total_length entry size + 1) w1 in
      let (written, w3) =
        append_element_strings elements params true entry.elements (append_pairs decimal entry)
          w2 in
      elim return_format [
        | none ↦ (some none, w2)
        | some block ↦ elim written [
          | none ↦ (none, w3)
          | some bytes ↦
              let offset = if length entry.elements == 0 then length bytes - 1 else length bytes in
              (some (some (block, take offset bytes ++ 0 ∷ [])), unlock_entry entry w3)
        ]
      ]
