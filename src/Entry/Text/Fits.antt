-- ===== src/Entry/Text/Fits.antt =====
-- The text of stumpless_entry_to_string and the size of its block (src/entry.c).
use stumpless.Base.{
  ℕ, ◌+◌, ◌-◌, min, ◌≤◌, ◌<◌, ◌≡◌, sym, ap, [], ◌∷◌, ◌++◌, true, some, Bytes, codes, All, length,
  take, length-append, length-take, arith,
}
use mathlib.Core.Path.{subst}
use stumpless.World.{World}
use stumpless.World.Balance.{occurrences}
use stumpless.Param.{Param}
use stumpless.Element.{Element}
use stumpless.Entry.{Entry, lock_entry}
use stumpless.Entry.Text.{
  size_of_int, append_key_value_pair, message_bytes, append_pairs, elements_size, total_length,
  stumpless_entry_to_string,
}
use stumpless.Entry.Text.Written.{
  IsGranting, IsShown, pairs_text, append_pairs_lem, entry_text, with_elements,
  elements_size-joined, length-with_elements, entry_to_string-entry_text,
}

length-append_key_value_pair :
    (dest key value : Bytes) (n : ℕ)
    → length (append_key_value_pair dest key value n)
      ≡ length dest + length key + min n (length value) + 4
unfolding append_key_value_pair
length-append_key_value_pair dest key value n =
    let rest = b'=' ∷ b'"' ∷ (take n value ++ (b'"' ∷ b',' ∷ [])) in
    omega (
      arith,
      length-append dest (key ++ rest),
      length-append key rest,
      length-append (take n value) (b'"' ∷ b',' ∷ []),
      length-take n value,
    )

length-append_pairs :
    (decimal : ℕ → Bytes) (e : Entry)
    → length (append_pairs decimal e)
      ≡ 73
        + length (decimal (size_of_int e.prival))
        + min e.app_name_length (length e.app_name)
        + min e.hostname_length (length e.hostname)
        + min e.msgid_length (length e.msgid)
        + min e.procid_length (length e.procid)
        + min e.message_length (length (message_bytes e.message))
unfolding append_pairs
length-append_pairs decimal e =
    let add = length-append_key_value_pair in
    let temp = decimal (size_of_int e.prival) in
    let b1 = append_key_value_pair [] (codes "prival") temp (length temp) in
    let b2 = append_key_value_pair b1 (codes "app_name") e.app_name e.app_name_length in
    let b3 = append_key_value_pair b2 (codes "hostname") e.hostname e.hostname_length in
    let b4 = append_key_value_pair b3 (codes "message_id") e.msgid e.msgid_length in
    let b5 = append_key_value_pair b4 (codes "process_id") e.procid e.procid_length in
    omega (
      arith,
      add [] (codes "prival") temp (length temp),
      add b1 (codes "app_name") e.app_name e.app_name_length,
      add b2 (codes "hostname") e.hostname e.hostname_length,
      add b3 (codes "message_id") e.msgid e.msgid_length,
      add b4 (codes "process_id") e.procid e.procid_length,
      add b5 (codes "message") (message_bytes e.message) e.message_length,
    )

module _ (decimal : ℕ → Bytes) (elements : ℕ → Element) (params : ℕ → Param) where
  -- stumpless_entry_to_string, while memory lasts, on an entry whose elements and params are
  -- counted and hold no NUL and whose priority value has at most 6 digits, hands out the six pairs
  -- key="value" of the entry and the texts of its elements, separated by "," alone and ended by a
  -- NUL, in one new block that is as large as asked for: the text and its NUL fit into it. Every
  -- mutex is given back and no other block is kept.
  pub entry_to_string-fits :
      (e : Entry) (w : World)
      → IsGranting w
      → All (IsShown elements params) e.elements
      → length (decimal (size_of_int e.prival)) ≤ 6
      → let (result, w') = stumpless_entry_to_string decimal elements params (some e) w in
        let size = (elements_size elements params e.elements (lock_entry e w)).0 in
        let text = entry_text decimal elements params e in
        (length text + 1 ≤ total_length e size + 1)
        × ((block : ℕ) × (result ≡ some (some (block, text ++ 0 ∷ [])))
            × (w'.live ≡ block ∷ w.live)
            × (w'.mutexes ≡ w.mutexes)
            × ((m : ℕ) → occurrences m w'.held ≡ occurrences m w.held))
  unfolding total_length
  entry_to_string-fits e w granting shown short =
      let sizes =
        (elements_size-joined elements params e.elements (lock_entry e w) granting shown).1 in
      (
        omega (
          arith,
          short,
          sizes true,
          length-append_pairs decimal e,
          ap length (append_pairs_lem decimal e),
          length-with_elements elements params (pairs_text decimal e) e.elements,
        ),
        entry_to_string-entry_text decimal elements params e w granting shown,
      )

  -- stumpless_entry_to_string, while memory lasts, on an entry without elements whose texts are
  -- counted and whose priority value has 8 digits or more, as a negative one has as a size_t,
  -- writes more bytes than the block that it asked for holds.
  pub entry_to_string_overflows :
      (e : Entry) (w : World)
      → IsGranting w
      → e.elements ≡ []
      → e.app_name_length ≡ length e.app_name
      → e.hostname_length ≡ length e.hostname
      → e.msgid_length ≡ length e.msgid
      → e.procid_length ≡ length e.procid
      → e.message_length ≡ length (message_bytes e.message)
      → 8 ≤ length (decimal (size_of_int e.prival))
      → let (result, w') = stumpless_entry_to_string decimal elements params (some e) w in
        let size = (elements_size elements params e.elements (lock_entry e w)).0 in
        (block : ℕ) × (written : Bytes) × (result ≡ some (some (block, written)))
        × (total_length e size + 1 < length written)
  unfolding total_length elements_size
  entry_to_string_overflows e w granting bare a h m p s long =
      let pairs = pairs_text decimal e in
      let shown : All (IsShown elements params) e.elements =
        subst (All (IsShown elements params)) (sym bare) tt in
      let (block, r, _, _, _) =
        entry_to_string-entry_text decimal elements params e w granting shown in
      let size = ap (λ es. (elements_size elements params es (lock_entry e w)).0) bare in
      let text = ap (λ es. length (with_elements elements params pairs es)) bare in
      (
        block,
        _,
        r,
        omega (
          arith,
          long,
          size,
          text,
          a,
          h,
          m,
          p,
          s,
          length-append_pairs decimal e,
          ap length (append_pairs_lem decimal e),
          length-take (length pairs - 1) pairs,
          length-append (entry_text decimal elements params e) (0 ∷ []),
        ),
      )
