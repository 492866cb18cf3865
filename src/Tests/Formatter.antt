-- ===== src/Tests/Formatter.antt =====
-- An entry without elements as src/formatter.c formats it.
use stumpless.Base.{◌+◌, ◌*◌, ◌≡◌, ◌⊎◌, refl, [], ◌∷◌, true, none, some, length, codes, arith}
use stumpless.Base.Int.{pos}
use stumpless.StrBuilder.{StrBuilder, strbuilder_get_buffer, digits}
use stumpless.Formatter.{Store, System, format_entry}
use stumpless.Formatter.Message.{AreConsistent, syslog_message}
use stumpless.Formatter.Format.{Formatted, format_entry-Formatted}
use stumpless.Formatter.Header.{fields}
use stumpless.Formatter.Fields.{format_entry-fields}
use stumpless.StrBuilder.Growth.{OutOfMemory}
use stumpless.StrBuilder.Chain.{Refused}
use stumpless.Tests.StrBuilder.{roomy_world, roomy_world-IsBounded}
use stumpless.Tests.Entry.{entry, entry-IsValid, store}

abbrev pub system : System
system = record { get_now = codes "2024-01-01"; gethostname = some (codes "here"); getpid = pos 7 }

abbrev pub contents : Store
contents = record {
  params = λ p. record {
    block = p;
    name = codes "id";
    name_length = 2;
    terminated = true;
    value_block = p;
    value = codes "1";
    value_length = 1;
    mutex = p;
  };
  elements = store;
}

pub contents-AreConsistent : AreConsistent contents entry.elements
contents-AreConsistent = ((refl, tt), ((refl, tt), tt))

format_entry-Formatted_example :
    Formatted
      (syslog_message system contents entry 1 165 7)
      4096
      roomy_world
      (format_entry system (some none) 4096 contents entry 1 roomy_world)
format_entry-Formatted_example =
    format_entry-Formatted system contents entry 1 165 7 (some none) 4096 roomy_world entry-IsValid
      contents-AreConsistent refl refl (omega arith, omega arith) roomy_world-IsBounded

pub message_length : length (syslog_message system contents entry 1 165 7) ≡ 52
unfolding digits
message_length = refl

format_entry-fields_example :
    let (result, returned, w') =
      format_entry system (some none) 4096 contents entry 1 roomy_world in
    ((b : StrBuilder) × (result ≡ some b)
      × (fields 6 (strbuilder_get_buffer b) ≡ (
        codes "<165>1"
            ∷ codes "2024-01-01"
            ∷ codes "here"
            ∷ codes "app"
            ∷ codes "7"
            ∷ codes "-"
            ∷ [],
        codes "[origins][origin] hi\n",
      )))
    ⊎ ((result ≡ none)
        × OutOfMemory w'
        × Refused roomy_world.malloc
            (4096 + 2 * length (syslog_message system contents entry 1 165 7)))
unfolding digits
format_entry-fields_example =
    format_entry-fields system contents entry 1 165 7 (some none) 4096 roomy_world entry-IsValid
      contents-AreConsistent refl refl (omega arith, omega arith) roomy_world-IsBounded
      (omega arith) (omega arith) (omega arith) (omega arith)
