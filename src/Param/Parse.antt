-- ===== src/Param/Parse.antt =====
-- `stumpless_new_param_from_string` of src/param.c: the text name="value" read back.
use stumpless.Base.{
  ℕ, ◌+◌, ◌-◌, ◌≤◌, ◌≡◌, refl, [], ◌∷◌, ◌++◌, Bool, true, false, not, ◌||◌, Option, none, some,
  Bytes, All, length, take, get_or, ltb, leb, ◌==◌, if◌then◌else◌, length-append, take-left, arith,
}
use stumpless.Error.{null_arg_error_message, string_too_long_error_message}
use stumpless.World.{
  World, alloc_mem, free_mem, assign_cached_mutex, clear_error, raise_argument_empty,
  raise_argument_too_big, raise_invalid_param,
}
use stumpless.Validate.{max_param_name_length}
use stumpless.Validate.Names.{IsNameChar}
use stumpless.Param.{Param}
use stumpless.Param.Format.{IsConsistent, shown}

-- How the loop over the name ends: at the '=', with the name and what follows, or in an error.
pub data Scan : Type 0 where
  found : Bytes → Bytes → Scan
  too_long malformed : Scan

longer : ℕ → Scan → Scan
longer c (found name rest) = found (c ∷ name) rest
longer c too_long = too_long
longer c malformed = malformed

abbrev is_fault : ℕ → Bool
is_fault c = ltb c 33 || ltb 126 c || c == b']' || c == b'"'

-- The characters of the string from index `i` on. The NUL at its end is no '=' and a fault.
scan_name : ℕ → Bytes → Scan
unfolding longer
scan_name i [] = if leb max_param_name_length i then too_long else malformed
scan_name i (c ∷ string) =
    let rest = longer c (scan_name (i + 1) string) in
    if c == b'='
    then found [] string
    else if leb max_param_name_length i
    then too_long
    else if is_fault c
    then malformed
    else rest

-- What follows the '=': a quote, the value, and a quote at the very end.
quoted : Bytes → Option Bytes
quoted [] = none
quoted (c ∷ value) =
    let value_len = length value in
    if not (c == b'"')
    then none
    else if value_len == 0 || not (get_or value (value_len - 1) 0 == b'"')
    then none
    else some (take (value_len - 1) value)

-- The value is copied into a block of its length with a NUL in place of the quote. The mutex that
-- the struct was given is not destroyed where parsing fails.
pub stumpless_new_param_from_string : ℕ → Option Bytes → World → Option Param × World
stumpless_new_param_from_string sizeof_param none w =
    (none, raise_argument_empty (null_arg_error_message "string") w)
stumpless_new_param_from_string sizeof_param (some string) w =
    let (param, w1) = alloc_mem sizeof_param w in
    elim param [
      | none ↦ (none, w1)
      | some block ↦
          let (assigned, w2) = assign_cached_mutex w1 in
          elim assigned [
            | none ↦ (none, free_mem block w2)
            | some mutex ↦ elim (scan_name 0 string) [
              | too_long ↦ (
                none,
                free_mem block (raise_argument_too_big string_too_long_error_message 0 none w2),
              )
              | malformed ↦ (none, free_mem block (raise_invalid_param w2))
              | found name rest ↦ elim (quoted rest) [
                | none ↦ (none, free_mem block (raise_invalid_param w2))
                | some value ↦
                    let (copy, w3) = alloc_mem (length value + 1) w2 in
                    elim copy [
                      | none ↦ (none, free_mem block w3)
                      | some value_block ↦ (
                        some (record {
                          block = block;
                          name = name;
                          name_length = length name;
                          terminated = false;
                          value_block = value_block;
                          value = value;
                          value_length = length value;
                          mutex = mutex;
                        }),
                        clear_error w3,
                      )
                    ]
              ]
            ]
          ]
    ]

scan_name_found :
    (i : ℕ) (name rest : Bytes)
    → All IsNameChar name
    → i + length name ≤ 32
    → scan_name i (name ++ b'=' ∷ rest) ≡ found name rest
unfolding scan_name
scan_name_found i [] rest h k = refl
scan_name_found i (c ∷ name) rest h k =
    ground (arith, scan_name_found (i + 1) name rest h.1 (omega arith))

get_or-append_last : (s : Bytes) (c : ℕ) → get_or (s ++ c ∷ []) (length s) 0 ≡ c
get_or-append_last [] c = refl
get_or-append_last (d ∷ s) c = get_or-append_last s c

quoted_lem : (value : Bytes) → quoted (b'"' ∷ (value ++ b'"' ∷ [])) ≡ some value
unfolding quoted
quoted_lem value =
    let len : length (value ++ b'"' ∷ []) ≡ length value + 1 = length-append value (b'"' ∷ []) in
    let last : length value + 1 - 1 ≡ length value = omega arith in
    rw (len, last, get_or-append_last value b'"', take-left value (b'"' ∷ [])) (ground arith)

-- A consistent param that is shown and parsed comes back with its name and value, if its name has
-- at most 32 bytes, none of which is refused in a name, where the empty name is taken too, and the
-- memory and the mutex are granted. The bytes of the value need not be UTF-8, since the function
-- does not check them, and the name of the new param is not followed by a NUL.
pub new_param_from_string-shown :
    (sizeof_param : ℕ) (p : Param) (w : World)
    → IsConsistent p
    → All IsNameChar p.name
    → length p.name ≤ 32
    → w.malloc w.calls sizeof_param ≡ true
    → w.malloc (w.calls + 1) (length p.value + 1) ≡ true
    → w.new_mutex w.mutex_calls ≡ true
    → (q : Param) × ((stumpless_new_param_from_string sizeof_param (some (shown p)) w).0 ≡ some q)
      × (q.name ≡ p.name)
      × (q.value ≡ p.value)
      × IsConsistent q
      × (q.terminated ≡ false)
unfolding stumpless_new_param_from_string alloc_mem assign_cached_mutex
new_param_from_string-shown sizeof_param p w c chars short a b m = (
  record {
    block = w.calls;
    name = p.name;
    name_length = length p.name;
    terminated = false;
    value_block = w.calls + 1;
    value = p.value;
    value_length = length p.value;
    mutex = w.mutex_calls;
  },
  ground
      (arith, scan_name_found 0 p.name (b'"' ∷ (p.value ++ b'"' ∷ [])) chars, quoted_lem p.value),
  refl,
  refl,
  record { name_counted = refl; value_counted = refl },
  refl,
)

-- The empty string is refused.
pub new_param_from_string-empty :
    (sizeof_param : ℕ) (w : World)
    → w.malloc w.calls sizeof_param ≡ true
    → w.new_mutex w.mutex_calls ≡ true
    → (stumpless_new_param_from_string sizeof_param (some []) w).0 ≡ none
unfolding stumpless_new_param_from_string alloc_mem assign_cached_mutex scan_name
new_param_from_string-empty sizeof_param w a m = ground arith

-- Whenever parsing fails after the struct and its mutex were granted, the block is given back and
-- the mutex is not.
pub new_param_from_string_leaks_mutex :
    (sizeof_param : ℕ) (string : Bytes) (w : World)
    → w.malloc w.calls sizeof_param ≡ true
    → w.new_mutex w.mutex_calls ≡ true
    → (stumpless_new_param_from_string sizeof_param (some string) w).0 ≡ none
    → let w' = (stumpless_new_param_from_string sizeof_param (some string) w).1 in
      (w'.mutexes ≡ w.mutex_calls ∷ w.mutexes) × (w'.live ≡ w.live)
unfolding stumpless_new_param_from_string alloc_mem assign_cached_mutex
new_param_from_string_leaks_mutex sizeof_param string w a m e = ground arith
