-- ===== src/Formatter/Fields.antt =====
-- The header of what `format_entry` gives (src/formatter.c), read back.
use stumpless.Base.{
  ℕ, ◌+◌, ◌*◌, ◌^◌, ◌<◌, ◌≡◌, ◌≢◌, ap, ◌∙◌, [], ◌∷◌, Bytes, ◌⊎◌, inl, inr, Option, none, some, All,
  length,
}
use stumpless.Base.Int.{pos}
use stumpless.World.{World}
use stumpless.StrBuilder.{StrBuilder, strbuilder_get_buffer}
use stumpless.StrBuilder.Growth.{IsBounded, OutOfMemory}
use stumpless.StrBuilder.Chain.{Refused}
use stumpless.StrBuilder.Lifecycle.{IsUsable}
use stumpless.Entry.{Entry}
use stumpless.Entry.Valid.{IsValid}
use stumpless.Formatter.{Store, System, format_entry}
use stumpless.Formatter.Message.{AreConsistent, syslog_message, hostname_text, procid_text}
use stumpless.Formatter.Format.{format_entry-Formatted}
use stumpless.Formatter.Header.{
  HasNoSpace, fields, pri_version, after_header, fields-syslog_message,
}

module _ (system : System) (store : Store) (entry : Entry) (options prival pid : ℕ) where
  -- format_entry on a well-formed entry with consistent elements, with a process id that fits into
  -- 31 bits, a timestamp and a name of the host without a space, a builder of the cache whose
  -- buffer, or the page for it, is not empty, and an allocator that refuses half the address
  -- space, gives a builder from whose bytes, split at spaces, the six fields of the header can be
  -- read: the priority value with the version, the timestamp, the name of the host, the app name,
  -- the process id and the message id of the entry, in this order, and behind them the structured
  -- data, the text and the newline; or it gives NULL because memory ran out, and then a request of
  -- at most a page and twice the line was refused.
  pub format_entry-fields :
      (cached : Option (Option (ℕ × Bytes))) (page_size : ℕ) (w : World)
      → IsValid entry
      → AreConsistent store entry.elements
      → entry.prival ≡ pos prival
      → system.getpid ≡ pos pid
      → IsUsable cached page_size
      → IsBounded w.malloc
      → prival < 2 ^ 31
      → pid < 2 ^ 31
      → HasNoSpace system.get_now
      → All (λ c. c ≢ b' ') (elim system.gethostname [ none ↦ [] | some name ↦ name ])
      → let (result, returned, w') = format_entry system cached page_size store entry options w in
        ((b : StrBuilder) × (result ≡ some b)
          × (fields 6 (strbuilder_get_buffer b) ≡ (
            pri_version system store entry options prival pid
                ∷ system.get_now
                ∷ hostname_text system entry
                ∷ entry.app_name
                ∷ procid_text entry options pid
                ∷ entry.msgid
                ∷ [],
            after_header system store entry options prival pid,
          )))
        ⊎ ((result ≡ none)
            × OutOfMemory w'
            × Refused w.malloc
                (page_size + 2 * length (syslog_message system store entry options prival pid)))
  format_entry-fields cached page_size w v c z e usable bounded p q now host =
      elim (format_entry-Formatted system store entry options prival pid cached page_size w v c z e
        usable bounded) [
          | inl (b, made, _, text, _) ↦ inl (
            b,
            made,
            ap (fields 6) text
                ∙ fields-syslog_message system store entry options prival pid v p q now host,
          )
          | inr failed ↦ inr failed
        ]
