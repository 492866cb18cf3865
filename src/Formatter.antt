-- ===== src/Formatter.antt =====
-- src/formatter.c, with the functions of src/entry.c that append the parts of an entry: a message in
-- the format of RFC 5424, without a look at empty names and at what a value would have to escape.
pub mod Message
pub mod Format
pub mod Header
pub mod Line
pub mod Fields
use stumpless.Base.{
  ℕ, [], ◌∷◌, List, Bytes, codes, Bool, Option, none, some, length, take, bit_and, ltb, ◌==◌,
  if◌then◌else◌,
}
use stumpless.Base.Int.{ℤ}
use stumpless.World.{World}
use stumpless.StrBuilder.{
  StrBuilder, strbuilder_append_buffer, strbuilder_append_char, strbuilder_append_string,
  strbuilder_append_positive_int, strbuilder_new,
}
use stumpless.StrBuilder.Chain.{Writer, ◌⨾◌}
use stumpless.Param.{Param}
use stumpless.Element.{Element}
use stumpless.Entry.{Entry, lock_entry, unlock_entry}

-- What the params and the elements at their blocks hold.
pub record Store : Type 0 where
  pub params : ℕ → Param
  pub elements : ℕ → Element

-- What the functions that the build picks tell of the system: `config_get_now`, `config_gethostname`
-- with `none` for -1, and `config_getpid`.
pub record System : Type 0 where
  pub get_now : Bytes
  pub gethostname : Option Bytes
  pub getpid : ℤ

abbrev pub char : ℕ → Writer
char c builder w = strbuilder_append_char builder c w

abbrev pub buffer : ℕ → Bytes → Writer
buffer size bytes builder w = strbuilder_append_buffer builder (some (take size bytes)) w

abbrev pub string : Bytes → Writer
string bytes builder w = strbuilder_append_string builder bytes w

abbrev pub positive_int : ℤ → Writer
positive_int i builder w = strbuilder_append_positive_int builder i w

-- No call.
abbrev pub nothing : Writer
nothing builder w = (builder, w)

pub strbuilder_append_app_name : Entry → Writer
strbuilder_append_app_name entry = buffer entry.app_name_length entry.app_name

pub strbuilder_append_hostname : System → Writer
strbuilder_append_hostname system = elim system.gethostname [
  | none ↦ char b'-'
  | some name ↦ string name
]

pub strbuilder_append_msgid : Entry → Writer
strbuilder_append_msgid entry = buffer entry.msgid_length entry.msgid

-- A NULL buffer gives NULL.
pub strbuilder_append_message : Entry → Writer
strbuilder_append_message entry = elim entry.message [
  | none ↦ λ builder w. strbuilder_append_buffer builder none w
  | some message ↦ buffer entry.message_length message.1
]

pub strbuilder_append_procid : System → Writer
strbuilder_append_procid system = positive_int system.getpid

-- The rounds of the inner loop of `strbuilder_append_structured_data`.
pub append_params : (ℕ → Param) → List ℕ → Writer
append_params params [] = nothing
append_params params (p ∷ ps) =
    char b' '
    ⨾ buffer (params p).name_length (params p).name
    ⨾ char b'='
    ⨾ char b'"'
    ⨾ buffer (params p).value_length (params p).value
    ⨾ char b'"'
    ⨾ append_params params ps

-- Those of the outer loop.
pub append_elements : Store → List ℕ → Writer
append_elements store [] = nothing
append_elements store (e ∷ es) =
    char b'['
    ⨾ buffer (store.elements e).name_length (store.elements e).name
    ⨾ append_params store.params (store.elements e).params
    ⨾ char b']'
    ⨾ append_elements store es

pub strbuilder_append_structured_data : Store → Entry → Writer
strbuilder_append_structured_data store entry = elim entry.elements [
  | [] ↦ char b'-'
  | e ∷ es ↦ append_elements store (e ∷ es)
]

abbrev pub option_pid : ℕ
option_pid = 1

-- The calls that fill the builder; `options` are those of the target.
pub append_entry : System → Store → Entry → ℕ → Writer
append_entry system store entry options =
    char b'<'
    ⨾ positive_int entry.prival
    ⨾ string (codes ">1 ")
    ⨾ buffer (length system.get_now) system.get_now
    ⨾ char b' '
    ⨾ (if ltb 0 entry.hostname_length
        then buffer entry.hostname_length entry.hostname
        else strbuilder_append_hostname system)
    ⨾ char b' '
    ⨾ strbuilder_append_app_name entry
    ⨾ char b' '
    ⨾ (if bit_and options option_pid == 0
        then char b'-'
        else if ltb 0 entry.procid_length
        then buffer entry.procid_length entry.procid
        else strbuilder_append_procid system)
    ⨾ char b' '
    ⨾ strbuilder_append_msgid entry
    ⨾ char b' '
    ⨾ strbuilder_append_structured_data store entry
    ⨾ (if ltb 0 entry.message_length then char b' ' ⨾ strbuilder_append_message entry else nothing)
    ⨾ char 10

-- `cached` and `page_size` are what `strbuilder_new` gets; the flag is the one it returns.
pub format_entry :
    System
    → Option (Option (ℕ × Bytes))
    → ℕ
    → Store
    → Entry
    → ℕ
    → World
    → Option StrBuilder × Bool × World
format_entry system cached page_size store entry options w =
    let (builder, returned, w1) = strbuilder_new cached page_size (lock_entry entry w) in
    let (builder', w2) = append_entry system store entry options builder w1 in
    (builder', returned, unlock_entry entry w2)
