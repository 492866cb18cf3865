-- ===== src/Entry/Valid/Run.antt =====
-- Any sequence of calls of the setters of src/entry.c, with that of a message with a format.
use stumpless.Base.{ℕ, ◌<◌, ◌≡◌, [], ◌∷◌, List, Bytes, Bool, ◌⊎◌, Option, none, some, length}
use stumpless.Base.Int.{ℤ}
use stumpless.World.{World}
use stumpless.Entry.{
  Entry, set_app_name, set_msgid, set_hostname, set_procid, set_facility, set_severity,
  set_priority, set_prival, set_message_str,
}
use stumpless.Entry.Life.{vset_message, set_message_str_w}

-- A call of a setter.
pub data Call : Type 0 where
  app_name msgid hostname procid message message_format : Option Bytes → Call
  facility severity prival : ℤ → Call
  priority : ℤ → ℤ → Call
  message_w : Option (List ℕ) → Call

-- `junk` and `printf` are for stumpless_set_entry_message, which formats, and `wide` for
-- stumpless_set_entry_message_str_w.
module _ (junk : ℕ → Bytes) (printf : Bytes → Option Bytes × Option Bytes)
    (wide : List ℕ → World → Option (ℕ × Bytes) × World) where
  pub apply : Call → Entry → World → Bool × Entry × World
  apply (app_name s) = set_app_name s
  apply (msgid s) = set_msgid s
  apply (hostname s) = set_hostname s
  apply (procid s) = set_procid s
  apply (message s) = set_message_str s
  apply (message_format s) = vset_message junk printf s
  apply (message_w s) = set_message_str_w wide s
  apply (facility f) = set_facility f
  apply (severity s) = set_severity s
  apply (prival p) = set_prival p
  apply (priority f s) = set_priority f s

  -- One call after the other.
  pub run : List Call → Entry → World → Entry × World
  run [] e w = (e, w)
  run (c ∷ calls) e w = let (done, e', w') = apply c e w in run calls e' w'

  -- A format whose text has less than 128 bytes.
  abbrev pub IsBrief : Call → Type 0
  IsBrief (message_format (some s)) =
      (again : Option Bytes) × ((printf s ≡ (none, again))
        ⊎ ((text : Bytes) × (printf s ≡ (some text, again)) × (length text < 128)))
  IsBrief call = Unit
