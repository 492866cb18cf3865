-- ===== src/StrHelper.antt =====
-- `strncasecmp_custom` of src/strhelper.c, with what it uses of <ctype.h>, and the search of a table
-- of names in src/facility.c and src/severity.c.
use stumpless.Base.{
  ℕ, zero, suc, ◌+◌, ◌-◌, [], ◌∷◌, List, Bytes, Bool, true, false, Option, none, some, drop, get_or,
  leb, ◌==◌, ◌&&◌, if◌then◌else◌,
}
use stumpless.Base.Int.{ℤ, pos, negsuc}

-- In the C locale.
unfoldable pub tolower : ℕ → ℕ
tolower c = if leb b'A' c && leb c b'Z' then c + 32 else c

-- `a - b` as an `int`
unfoldable pub difference : ℕ → ℕ → ℤ
difference a b = if leb b a then pos (a - b) else negsuc (b - a - 1)

-- The test behind the loop.
unfoldable pub compare_end : Bytes → Bytes → ℤ
compare_end s1 s2 =
    if get_or s2 0 0 == 0
    then pos 0
    else difference (tolower (get_or s2 0 0)) (tolower (get_or s1 0 0))

-- The loop with `n` more characters to come behind this one. A string ends in a NUL, and what lies
-- behind that, which the callers do not reach, counts as 0.
unfoldable pub compare_chars : ℕ → Bytes → Bytes → ℤ
compare_chars zero s1 s2 =
    let c1 = get_or s1 0 0 in
    let c2 = get_or s2 0 0 in
    if tolower c1 == tolower c2
    then compare_end (drop 1 s1) (drop 1 s2)
    else difference (tolower c2) (tolower c1)
compare_chars (suc n) s1 s2 =
    let c1 = get_or s1 0 0 in
    let c2 = get_or s2 0 0 in
    let rest = compare_chars n (drop 1 s1) (drop 1 s2) in
    if tolower c1 == tolower c2
    then (if c1 == 0 then compare_end (drop 1 s1) (drop 1 s2) else rest)
    else difference (tolower c2) (tolower c1)

unfoldable pub strncasecmp_custom : Bytes → Bytes → ℕ → ℤ
strncasecmp_custom s1 s2 zero = pos 0
strncasecmp_custom s1 s2 (suc n) = compare_chars n s1 s2

unfoldable pub is_zero : ℤ → Bool
is_zero (pos zero) = true
is_zero (pos (suc n)) = false
is_zero (negsuc n) = false

-- `strncasecmp_custom( buffer, name + offset, length ) == 0`
unfoldable pub names : Bytes → ℕ → ℕ → Bytes → Bool
names buffer buffer_length offset name =
    is_zero (strncasecmp_custom buffer (drop offset name) buffer_length)

-- The loop over a table from index `i` on: the first index whose name it is.
unfoldable pub find_name : Bytes → ℕ → ℕ → ℕ → List Bytes → Option ℕ
find_name buffer buffer_length offset i [] = none
find_name buffer buffer_length offset i (name ∷ table) =
    if names buffer buffer_length offset name
    then some i
    else find_name buffer buffer_length offset (i + 1) table
