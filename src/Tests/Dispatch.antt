-- ===== src/Tests/Dispatch.antt =====
-- Entries sent to a buffer target with src/target.c.
use stumpless.Base.{
  ℕ, ◌+◌, ◌<◌, ◌⊎◌, ◌≡◌, refl, [], ◌∷◌, ◌++◌, List, Bytes, true, none, some, length, codes,
  replicate, arith,
}
use stumpless.Base.Int.{pos}
use stumpless.World.{clear_error}
use stumpless.Formatter.Message.{syslog_message}
use stumpless.Target.{Target, buffer_target, mask_filter}
use stumpless.Target.Settings
use stumpless.Target.Settings.Valid.{
  Setting, default_facility, default_app_name, mask, set_all, set_all-IsValid,
}
use stumpless.Target.Buffer.{BufferTarget}
use stumpless.Target.Buffer.Invariant.{IsValid}
use stumpless.Target.Buffer.Fifo.{used}
use stumpless.Dispatch.{Others, deliver, stumpless_add_entry}
use stumpless.Dispatch.Options.{format_for, add_entry-masked}
use stumpless.Dispatch.Mask.{severity_bit}
use stumpless.Dispatch.Delivery.{Delivered, add_entry-Delivered}
use stumpless.Tests.StrBuilder.{roomy_world, roomy_world-IsBounded}
use stumpless.Tests.Entry.{entry, entry-IsValid}
use stumpless.Tests.Formatter.{system, contents, contents-AreConsistent, message_length}

abbrev others : Others
others = record {
  is_open = λ target w. (true, w);
  open_target = λ target w. (true, w);
  filter = λ f target entry w. (true, w);
  write_to_error_stream = λ buffer w. w;
  send_entry = λ target entry w. (pos 1, w);
  send_message = λ target entry buffer w. (pos 1, w);
  write_to_cons_stream = λ buffer w. w;
}

-- The process id is written, and the mask lets the severities up to a number through.
abbrev target : ℕ → Target
target wanted = record {
  block = 2;
  id = some 3;
  type = buffer_target;
  name_block = 4;
  name = codes "ring";
  name_length = 4;
  options = 1;
  default_prival = pos 14;
  default_app_name = codes "-";
  default_app_name_length = 1;
  default_msgid = codes "-";
  default_msgid_length = 1;
  mask = wanted;
  filter = some mask_filter;
  mutex = 5;
}

abbrev memory : BufferTarget
memory = record {
  buffer = replicate 100 0;
  size = 100;
  read_position = 0;
  write_position = 0;
  buffer_mutex = 6;
}

memory-IsValid : IsValid memory
memory-IsValid = record {
  lent = omega arith;
  small = omega arith;
  reads_inside = omega arith;
  writes_inside = omega arith;
}

room : used memory + length (syslog_message system contents entry 1 165 7) < 100
room = omega (arith, message_length)

add_entry-Delivered_example :
    (body : Bytes) × (syslog_message system contents entry 1 165 7 ≡ body ++ 10 ∷ [])
    × Delivered 4096 body memory roomy_world (
        stumpless_add_entry others system
          (some none)
          4096
          contents
          (target 255)
          entry
          memory
          roomy_world)
add_entry-Delivered_example =
    add_entry-Delivered others system (some none) 4096 contents (target 255) entry memory 165 7 3
      roomy_world entry-IsValid contents-AreConsistent refl refl (omega arith, omega arith)
      roomy_world-IsBounded memory-IsValid refl refl refl (omega arith) (omega arith) refl refl room

-- The entry is a notice, of the severity 5.
add_entry-masked_example :
    let result =
      stumpless_add_entry others system
        (some none)
        4096
        contents
        (target 31)
        entry
        memory
        roomy_world in
    ((severity_bit 31 165 ≡ 0) × (result ≡ (pos 0, memory, none, clear_error roomy_world)))
    ⊎ ((severity_bit 31 165 ≡ 1)
        × (result
            ≡ deliver others
                (format_for others system (some none) 4096 contents (target 31) entry)
                (target 31)
                entry
                memory
                (clear_error roomy_world)))
add_entry-masked_example =
    add_entry-masked others system (some none) 4096 contents (target 31) entry memory 3 165
      roomy_world refl refl refl refl (omega arith) (omega arith)

abbrev settings : List Setting
settings =
    default_facility (pos 8)
    ∷ default_facility (pos 9)
    ∷ default_app_name (codes "a b")
    ∷ mask 0
    ∷ []

target-IsValid : Settings.Valid.IsValid (target 255)
target-IsValid =
    ((refl, omega arith, omega arith), (refl, omega arith, omega arith), (14, omega arith, refl))

set_all-IsValid_example : Settings.Valid.IsValid (set_all settings (target 255) roomy_world).0
set_all-IsValid_example = set_all-IsValid settings (target 255) roomy_world target-IsValid
