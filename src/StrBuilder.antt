-- ===== src/StrBuilder.antt =====
-- src/strbuilder.c: a growing buffer of bytes.
pub mod Growth
pub mod Text
pub mod Decimal
pub mod Lifecycle
pub mod Chain
use stumpless.Base.{
  ℕ, zero, suc, ◌+◌, ◌-◌, ◌*◌, ◌/◌, ◌%◌, ◌^◌, List, [], ◌∷◌, ◌++◌, map, Bool, true, false, Option,
  none, some, Bytes, length, take, set, replicate, memcpy, ltb, ◌==◌, if◌then◌else◌,
}
use stumpless.Base.Int.{ℤ, pos, negsuc}
use stumpless.World.{World, alloc_mem, realloc_mem}
use mathlib.Core.List.{reverse}

-- `struct strbuilder`: the block of `buffer`, its bytes up to `buffer_end`, and where `position`
-- stands in them.
pub record StrBuilder : Type 0 where
  pub block : ℕ
  pub storage : Bytes
  pub position : ℕ

-- `size_t` arithmetic
abbrev pub size_mod : ℕ
size_mod = 2 ^ 64

-- What `realloc` leaves of a block: its bytes as far as they fit, and unset ones behind them.
abbrev pub resized : ℕ → Bytes → Bytes
resized new_size old = take new_size old ++ replicate (new_size - length old) 0

-- The old size, or 0 if the memory was refused; the builder after the call; the world.
pub increase_size : StrBuilder → World → ℕ × StrBuilder × World
increase_size builder w =
    let old_size = length builder.storage in
    let new_size = old_size * 2 % size_mod in
    let (new_buffer, w') = realloc_mem builder.block new_size w in
    elim new_buffer [
      | none ↦ (0, builder, w')
      | some block ↦ (
        old_size,
        record builder { block = block; storage = resized new_size builder.storage },
        w',
      )
    ]

-- `while( size_left < size )` on fuel. Each round adds at least one byte, so `size` rounds are
-- enough; running out is the same as a failure.
pub make_room : ℕ → ℕ → ℕ → StrBuilder → World → Bool × StrBuilder × World
make_room zero size_left size builder w = (if ltb size_left size then false else true, builder, w)
make_room (suc fuel) size_left size builder w =
    let (size_added, builder', w') = increase_size builder w in
    let rest = make_room fuel ((size_left + size_added) % size_mod) size builder' w' in
    if ltb size_left size
    then (if size_added == 0 then (false, builder', w') else rest)
    else (true, builder, w)

-- The appending functions on a builder that is not NULL: whether they return it, the builder
-- afterwards, and the world.
pub append_buffer : StrBuilder → Bytes → World → Bool × StrBuilder × World
append_buffer builder buffer w =
    let size = length buffer in
    let size_left = length builder.storage - builder.position in
    let (room, b, w') = make_room size size_left size builder w in
    if room
    then (
      true,
      record b { storage = memcpy b.storage b.position buffer; position = b.position + size },
      w',
    )
    else (false, b, w')

pub put_char : StrBuilder → ℕ → StrBuilder
put_char b c = record b { storage = set b.storage b.position c; position = b.position + 1 }

pub append_char : StrBuilder → ℕ → World → Bool × StrBuilder × World
append_char builder c w =
    let (old_size, b, w') = increase_size builder w in
    if builder.position == length builder.storage
    then (if old_size == 0 then (false, b, w') else (true, put_char b c, w'))
    else (true, put_char builder c, w)

-- The loop of `strbuilder_append_string` does for each character what `append_char` does.
pub append_string : StrBuilder → Bytes → World → Bool × StrBuilder × World
append_string builder [] w = (true, builder, w)
append_string builder (c ∷ str) w =
    let (added, b, w') = append_char builder c w in
    let rest = append_string b str w' in if added then rest else (false, b, w')

-- A builder that may be NULL: then the functions return NULL and do nothing.
abbrev pub on_builder :
    (StrBuilder → World → Bool × StrBuilder × World)
    → Option StrBuilder
    → World
    → Option StrBuilder × World
on_builder f none w = (none, w)
on_builder f (some b) w = let (done, b', w') = f b w in (if done then some b' else none, w')

pub strbuilder_append_buffer : Option StrBuilder → Option Bytes → World → Option StrBuilder × World
strbuilder_append_buffer builder none w = (none, w)
strbuilder_append_buffer builder (some buffer) w =
    on_builder (λ b. append_buffer b buffer) builder w

pub strbuilder_append_char : Option StrBuilder → ℕ → World → Option StrBuilder × World
strbuilder_append_char builder c w = on_builder (λ b. append_char b c) builder w

pub strbuilder_append_string : Option StrBuilder → Bytes → World → Option StrBuilder × World
strbuilder_append_string builder str w = on_builder (λ b. append_string b str) builder w

-- `MAX_INT_SIZE`
abbrev pub max_int_size : ℕ
max_int_size = 50

-- The digits of the size of `i`, the lowest first, until nothing is left: at most `fuel` of them.
unfoldable pub digits : ℕ → ℕ → List ℕ
digits zero i = []
digits (suc fuel) i = let rest = digits fuel (i / 10) in if i == 0 then [] else (i % 10) ∷ rest

-- `( i % 10 ) + 48`: in C the remainder of a negative number is negative.
pub digit_chars : ℤ → Bytes
digit_chars (pos n) = map (λ d. 48 + d) (digits max_int_size n)
digit_chars (negsuc n) = map (λ d. 48 - d) (digits max_int_size (suc n))

-- The second loop: the characters from the last to the first.
pub append_each : Option StrBuilder → Bytes → World → Option StrBuilder × World
append_each builder [] w = (builder, w)
append_each builder (c ∷ chars) w =
    let (b, w') = strbuilder_append_char builder c w in append_each b chars w'

pub strbuilder_append_positive_int : Option StrBuilder → ℤ → World → Option StrBuilder × World
unfolding digit_chars append_each
strbuilder_append_positive_int builder (pos zero) w = strbuilder_append_char builder b'0' w
strbuilder_append_positive_int builder i w = append_each builder (reverse (digit_chars i)) w

-- The bytes written so far.
unfoldable pub strbuilder_get_buffer : StrBuilder → Bytes
strbuilder_get_buffer builder = take builder.position builder.storage

pub strbuilder_reset : StrBuilder → StrBuilder
strbuilder_reset builder = record builder { position = 0 }

-- `cached` is what `cache_alloc` gave: NULL, or a builder whose buffer is NULL or left from an
-- earlier use. `page_size` is `config_getpagesize`. The flag says that a builder without a buffer
-- goes back to the cache.
pub strbuilder_new : Option (Option (ℕ × Bytes)) → ℕ → World → Option StrBuilder × Bool × World
strbuilder_new none page_size w = (none, false, w)
strbuilder_new (some (some (block, storage))) page_size w =
    (some (record { block = block; storage = storage; position = 0 }), false, w)
strbuilder_new (some none) page_size w =
    let (buffer, w') = alloc_mem page_size w in
    elim buffer [
      | none ↦ (none, true, w')
      | some block ↦ (
        some (record { block = block; storage = replicate page_size 0; position = 0 }),
        false,
        w',
      )
    ]

-- The block of the copy with its bytes, the NUL included.
pub strbuilder_to_string : Option StrBuilder → World → Option (ℕ × Bytes) × World
strbuilder_to_string none w = (none, w)
strbuilder_to_string (some builder) w =
    let string_length = builder.position in
    let (string, w') = alloc_mem (string_length + 1) w in
    elim string [
      | none ↦ (none, w')
      | some block ↦ (some (block, take string_length builder.storage ++ 0 ∷ []), w')
    ]
