-- ===== src/Param/Format.antt =====
-- src/param.c: a param as text, name="value".
use stumpless.Base.{
  ℕ, ◌+◌, ◌≤◌, ◌<◌, ◌≡◌, refl, ap, [], ◌∷◌, ◌++◌, ◌⊎◌, inl, inr, Bool, true, false, Option, none,
  some, Bytes, length, take, ltb, if◌then◌else◌, Bool-cases, length-append, take_all, append_assoc,
  arith,
}
use stumpless.Error.{
  null_arg_error_message, buffer_too_small_error_message, buffer_size_error_code_type,
}
use stumpless.World.{
  World, alloc_mem, clear_error, raise_argument_empty, raise_argument_too_small, unlock-lock,
}
use stumpless.Param.{Param, lock_param, unlock_param}

pub locked_get_param_string_size : Param → ℕ
locked_get_param_string_size param = param.name_length + param.value_length + 4

-- The bytes that are written from the start of the buffer on. Their number is the result.
pub locked_param_into_buffer : Param → Bytes
locked_param_into_buffer param =
    take param.name_length param.name
    ++ (b'=' ∷ b'"' ∷ (take param.value_length param.value ++ (b'"' ∷ 0 ∷ [])))

unfoldable pub stumpless_param_to_string : Option Param → World → Option (ℕ × Bytes) × World
stumpless_param_to_string none w = (none, raise_argument_empty (null_arg_error_message "param") w)
stumpless_param_to_string (some param) w =
    let (format, w1) = alloc_mem (locked_get_param_string_size param) (lock_param param w) in
    elim format [
      | none ↦ (none, unlock_param param w1)
      | some block ↦
          (some (block, locked_param_into_buffer param), clear_error (unlock_param param w1))
    ]

-- `str` is a buffer of `max_size` bytes or NULL; the result comes with what is written to its start.
pub stumpless_param_into_string : Option Param → Bool → ℕ → World → ℕ × Bytes × World
stumpless_param_into_string none str max_size w =
    (0, [], raise_argument_empty (null_arg_error_message "param") w)
stumpless_param_into_string (some param) false max_size w =
    (0, [], raise_argument_empty (null_arg_error_message "str") w)
stumpless_param_into_string (some param) true max_size w =
    let min_buff_size = locked_get_param_string_size param in
    let written = locked_param_into_buffer param in
    if ltb max_size min_buff_size
    then (
      min_buff_size,
      [],
      unlock_param param (
          raise_argument_too_small buffer_too_small_error_message max_size
            (some buffer_size_error_code_type) (lock_param param w)),
    )
    else (length written, written, unlock_param param (lock_param param w))

-- The lengths that a param holds are those of its strings.
pub record IsConsistent (p : Param) : Type 0 where
  pub name_counted : length p.name ≡ p.name_length
  pub value_counted : length p.value ≡ p.value_length

-- The text of a consistent param, without the NUL.
abbrev pub shown : Param → Bytes
shown p = p.name ++ (b'=' ∷ b'"' ∷ (p.value ++ (b'"' ∷ [])))

pub locked_param_into_buffer-shown :
    (p : Param)
    → IsConsistent p
    → (locked_param_into_buffer p ≡ shown p ++ 0 ∷ [])
      × (length (locked_param_into_buffer p) ≡ locked_get_param_string_size p)
unfolding locked_param_into_buffer locked_get_param_string_size
locked_param_into_buffer-shown p c =
    let name : take p.name_length p.name ≡ p.name = take_all _ _ (omega (arith, c.name_counted)) in
    let value : take p.value_length p.value ≡ p.value =
      take_all _ _ (omega (arith, c.value_counted)) in
    rw (name, value)
      (
        simp append_assoc,
        omega (
          arith,
          c.name_counted,
          c.value_counted,
          length-append p.name (b'=' ∷ b'"' ∷ (p.value ++ (b'"' ∷ 0 ∷ []))),
          length-append p.value (b'"' ∷ 0 ∷ []),
        ),
      )

-- stumpless_param_into_string on a consistent param returns the size of its text with the NUL. It
-- writes the whole text if the buffer holds it, and then nothing else changes; otherwise it writes
-- nothing and raises STUMPLESS_ARGUMENT_TOO_SMALL. Never more than max_size bytes are written.
pub stumpless_param_into_string-fits :
    (p : Param) (max_size : ℕ) (w : World)
    → IsConsistent p
    → let (size, written, w') = stumpless_param_into_string (some p) true max_size w in
      (size ≡ length (shown p) + 1)
      × (length written ≤ max_size)
      × (((size ≤ max_size) × (written ≡ shown p ++ 0 ∷ []) × (w' ≡ w))
          ⊎ ((max_size < size)
              × (written ≡ [])
              × (w'
                  ≡ raise_argument_too_small buffer_too_small_error_message max_size
                      (some buffer_size_error_code_type)
                      w)))
unfolding stumpless_param_into_string
stumpless_param_into_string-fits p max_size w c =
    let (text, len) = locked_param_into_buffer-shown p c in
    let size : locked_get_param_string_size p ≡ length (shown p) + 1 =
      omega (arith, len, ap length text, length-append (shown p) (0 ∷ [])) in
    elim (Bool-cases (ltb max_size (locked_get_param_string_size p))) [
      | inl small ↦ rw small (
        size,
        omega arith,
        inr (
          ground arith,
          refl,
          unlock-lock p.mutex (
              raise_argument_too_small buffer_too_small_error_message max_size
                (some buffer_size_error_code_type) w),
        ),
      )
      | inr fits ↦ rw fits (
        omega (arith, size, len),
        ground (arith, len),
        inl (ground (arith, len), text, unlock-lock p.mutex w),
      )
    ]
