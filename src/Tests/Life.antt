-- ===== src/Tests/Life.antt =====
-- Entries that are loaded and written out, and formats, of src/entry.c and src/config/.
use stumpless.Base.{
  ℕ, ◌+◌, ◌<◌, ◌≤◌, ◌≡◌, refl, [], ◌∷◌, ◌++◌, Bytes, codes, replicate, length-replicate, none, some,
  ◌⊎◌, length, ltb, if◌then◌else◌, arith,
}
use stumpless.Base.Int.{pos, negsuc}
use stumpless.World.Balance.{occurrences, Owns, IsBalanced, IsExhausted}
use stumpless.Validate.Utf8.Accepted.{no_error}
use stumpless.Config.FormatString.{no_vsnprintf_s_format_string, IsPrinted, format_string-text}
use stumpless.Entry.{Entry, lock_entry}
use stumpless.Entry.Life.{stumpless_load_entry_str, stumpless_unload_entry_only}
use stumpless.Entry.Life.Message.{
  LoadsMessage, stumpless_load_entry_str-LoadsMessage, unload_entry_only-load_entry_str,
}
use stumpless.Entry.Text.{stumpless_entry_to_string, elements_size, total_length}
use stumpless.Entry.Text.Written.{entry_text}
use stumpless.Entry.Text.Fits.{entry_to_string-fits, entry_to_string_overflows}
use stumpless.Tests.Element.{store}
use stumpless.Tests.Entry.{entry}
use stumpless.Tests.Entry.{store as element_store}

abbrev junk : ℕ → Bytes
junk n = replicate n 7

-- A text of 130 bytes.
abbrev long_text : Bytes
long_text = replicate 130 b'x'

format_string-text_example :
    let (r, len, w') =
      no_vsnprintf_s_format_string junk (some long_text, some long_text) no_error in
    ((block : ℕ) × (held : Bytes) × (written : Bytes) × (r ≡ some (block, held))
      × (((length long_text ≤ 128) × (written ≡ long_text))
          ⊎ ((128 < length long_text) × (some long_text ≡ some written)))
      × (len ≡ length written)
      × Owns (block ∷ []) [] no_error w'
      × IsPrinted written held)
    ⊎ ((r ≡ none)
        × IsBalanced no_error w'
        × (IsExhausted w' ⊎ ((128 < length long_text) × (some long_text ≡ none))))
format_string-text_example =
    format_string-text junk long_text (some long_text) no_error (λ n. length-replicate n 7)

stumpless_load_entry_str-LoadsMessage_example :
    LoadsMessage 0 (pos 8) (pos 3) (some (codes "app")) none (some (codes "hi")) no_error (
      stumpless_load_entry_str entry
        (pos 8)
        (pos 3)
        (some (codes "app"))
        none
        (some (codes "hi"))
        no_error)
stumpless_load_entry_str-LoadsMessage_example =
    stumpless_load_entry_str-LoadsMessage entry (pos 8) (pos 3) (some (codes "app")) none
      (some (codes "hi")) no_error

unload_entry_only-load_entry_str_example :
    let (loaded, w1) =
      stumpless_load_entry_str entry
        (pos 8)
        (pos 3)
        (some (codes "app"))
        none
        (some (codes "hi"))
        no_error in
    IsBalanced no_error (stumpless_unload_entry_only loaded w1)
unload_entry_only-load_entry_str_example =
    unload_entry_only-load_entry_str entry (pos 8) (pos 3) (some (codes "app")) none
      (some (codes "hi")) no_error

-- What `sprintf` writes for 165, and as many digits as for the largest `size_t`.
abbrev decimal : ℕ → Bytes
decimal n = if ltb n 1000 then codes "165" else codes "18446744073709551615"

entry_to_string-fits_example :
    let (result, w') =
      stumpless_entry_to_string decimal element_store store (some entry) no_error in
    let size = (elements_size element_store store (2 ∷ 4 ∷ []) (lock_entry entry no_error)).0 in
    let text = entry_text decimal element_store store entry in
    (length text + 1 ≤ total_length entry size + 1)
    × ((block : ℕ) × (result ≡ some (some (block, text ++ 0 ∷ [])))
        × (w'.live ≡ block ∷ [])
        × (w'.mutexes ≡ [])
        × ((m : ℕ) → occurrences m w'.held ≡ occurrences m []))
entry_to_string-fits_example =
    entry_to_string-fits decimal element_store store entry no_error (λ n size. refl)
      ((refl, tt, omega arith), ((refl, tt, omega arith), tt)) (omega arith)

-- An entry with the priority value -1.
abbrev negative : Entry
negative = record entry { prival = negsuc 0; elements_block = none; elements = [] }

entry_to_string_overflows_example :
    let (result, w') =
      stumpless_entry_to_string decimal element_store store (some negative) no_error in
    let size = (elements_size element_store store [] (lock_entry negative no_error)).0 in
    (block : ℕ) × (written : Bytes) × (result ≡ some (some (block, written)))
    × (total_length negative size + 1 < length written)
entry_to_string_overflows_example =
    entry_to_string_overflows decimal element_store store negative no_error (λ n size. refl) refl
      refl refl refl refl refl (omega arith)
