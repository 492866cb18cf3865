-- ===== src/Lib.antt =====
-- stumpless: a C library that writes logs in the syslog format of RFC 5424.
--
-- The parts and their files. Paths are from the repository's root.
--   Base: bytes and C strings, copying into memory, tests on numbers, the integers of C.
--   Error: include/stumpless/error.h and src/inthelper.c: what an error holds.
--   World: src/error.c, src/memory.c and src/config/thread_safety_supported.c: what every function
--     shares and may change. The error of the thread, which blocks of memory are allotted, which
--     mutexes exist and which are held. The allocator and the pool of mutexes are parameters: an
--     answer for each numbered request. The mutexes inside of structs are made and destroyed under
--     numbers that the caller gives. World/Balance says what a call leaves allotted and held when
--     the order does not matter.
--   Config: src/config/no_vsnprintf_s.c: a message from a format. What vsnprintf writes is a parameter.
--   Validate: src/validate.c: the checks of names and values. Validate/Utf8 is the decoder of four
--     states that goes over a value once; Validate/Utf8/WellFormed says what it accepts.
--   StrBuilder: src/strbuilder.c: a buffer that doubles when it is full.
--   Cache: src/cache.c: entries of one size in pages, with a lock for each. The functions that use a
--     cache, for mutexes and for builders, have what it gives them as a parameter.
--   Param: src/param.c: a name and a value, with their memory and mutex; Param/Parse and
--     Param/Format read and write the text name="value".
--   StrHelper, Facility, Severity, Prival: src/strhelper.c, src/facility.c, src/severity.c and
--     src/prival.c: priority values, their names, and the texts that give them.
--   Element: src/element.c: a name and an array of params, which are named by their blocks; what
--     they hold is an argument. Element/Array and Element/Lookup are the array and the lookups by
--     name, Element/Contents copies and destroys an element with its params, Element/Values is
--     about the values of params through their element, Element/Text is its text.
--   Entry: src/entry.c: a log entry and its setters, any sequence of which is in
--     Entry/Valid. Entry/Elements: its elements by name and index, named by their blocks. Entry/Life:
--     loading and unloading an entry. Entry/Getters: its names, message and priority value.
--     Entry/Text: its text. The copy of a wide string is a parameter.
--   Formatter: src/formatter.c: the message of an entry, on a builder of StrBuilder. The clock, the
--     name of the host and the process id are parameters.
--   Target: what targets have in common and their kinds. Target/Buffer is src/target/buffer.c,
--     messages in a ring of bytes that the caller lends. Target/Chain is src/target/chain.c, a target
--     that hands entries to others; sending to one is a parameter. Target/Stream is
--     src/target/stream.c; fwrite is a parameter. Target/Settings is the setters of src/target.c, and
--     Target/Life opening and closing targets and the current one, with src/target/function.c.
--   Dispatch: src/target.c and src/filter.c: how an entry is filtered, formatted and handed to a
--     target. Buffer targets are those of Target/Buffer; the others are parameters.
--   Messages: src/target.c and src/log.c: the calls that put a message into the entry of the thread
--     and send it. Sending is a parameter.
--   Tests: the theorems at concrete inputs.
--
-- A function takes the world and returns it beside its result. A pointer that may be NULL is an
-- Option. A pointer to memory that the library allotted is the number of its block beside what the
-- memory holds. `size_t` has 64 bits and `int` 32, and their wrapping is written out where the
-- source can reach it. The bytes that C leaves unset are 0 in the model; no result depends on them.
--
-- The loops of the source are recursion on the string or on a number of rounds. `make_room` gets as
-- many rounds as bytes are missing, and each adds one byte at least; `digits` gets the fifty places
-- of the local array, and a number of 31 bits has ten digits; `read_loop` counts the space left;
-- `get_paged_size` gets 64 rounds, each of which doubles the size.
--
-- Not modelled: entries in a cache and copies of entries, the getters of targets and of an entry's
-- host name, process id and params, the name of an element, closing a chain with its targets or a
-- target by its type, the default target, the standard streams and their colors, the targets for
-- files, the network, sockets, journald, sqlite3 and the Windows event log, and the calls with a
-- trace. The targets among these do little but call the operating system; the rest stands
-- outside of the model, and so do the threads: a function runs to its end before the next one starts.
pub mod Base
pub mod Error
pub mod World
pub mod Validate
pub mod StrBuilder
pub mod Target
pub mod Param
pub mod StrHelper
pub mod Facility
pub mod Severity
pub mod Prival
pub mod Config
pub mod Element
pub mod Entry
pub mod Formatter
pub mod Cache
pub mod Dispatch
pub mod Messages
pub mod Tests
