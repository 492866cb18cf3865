-- ===== src/Formatter/Format.antt =====
-- `format_entry` as a whole (src/formatter.c).
use stumpless.Base.{
  ℕ, ◌+◌, ◌*◌, ◌≡◌, refl, ap, ◌∙◌, ◌++◌, Bytes, Bool, false, ◌⊎◌, inl, inr, Option, none, some,
  length, arith,
}
use stumpless.Base.Int.{pos}
use stumpless.World.{World}
use stumpless.StrBuilder.{strbuilder_new, strbuilder_get_buffer, StrBuilder}
use stumpless.StrBuilder.Growth.{IsBounded, OutOfMemory}
use stumpless.StrBuilder.Chain.{Refused}
use stumpless.StrBuilder.Lifecycle.{IsUsable, new-usable}
use stumpless.Entry.{Entry, lock_entry}
use stumpless.Entry.Valid.{IsValid}
use stumpless.Formatter.{Store, System, format_entry}
use stumpless.Formatter.Message.{AreConsistent, syslog_message, append_entry-Writes}

-- What `format_entry` gives for the message `text`: a builder that holds exactly it, and no new error;
-- or NULL, because memory ran out, and then a request of at most a page or twice the message was
-- refused.
abbrev pub Formatted : Bytes → ℕ → World → Option StrBuilder × Bool × World → Type 0
Formatted text page_size w (result, returned, w') =
    ((b : StrBuilder) × (result ≡ some b)
      × (returned ≡ false)
      × (strbuilder_get_buffer b ≡ text)
      × (w'.error_valid ≡ w.error_valid))
    ⊎ ((result ≡ none) × OutOfMemory w' × Refused w.malloc (page_size + 2 * length text))

module _ (system : System) (store : Store) (entry : Entry) (options prival pid : ℕ) where
  -- format_entry on a well-formed entry with consistent elements, with a process id that is not
  -- negative, a builder of the cache whose buffer, or the page for it, is not empty, and an
  -- allocator that refuses half the address space, gives a builder that holds exactly the line for
  -- the entry, a newline at its end, and reports no new error; or it gives NULL because memory ran
  -- out, and then a request of at most a page and twice the line was refused. The line is a
  -- message of RFC 5424 only where no name is empty and every `"`, `\` and `]` in a value is
  -- escaped, which the code does not see to.
  pub format_entry-Formatted :
      (cached : Option (Option (ℕ × Bytes))) (page_size : ℕ) (w : World)
      → IsValid entry
      → AreConsistent store entry.elements
      → entry.prival ≡ pos prival
      → system.getpid ≡ pos pid
      → IsUsable cached page_size
      → IsBounded w.malloc
      → Formatted
          (syslog_message system store entry options prival pid)
          page_size
          w
          (format_entry system cached page_size store entry options w)
  unfolding format_entry
  format_entry-Formatted cached page_size w v c z e usable bounded =
      let w0 = lock_entry entry w in
      let r = strbuilder_new cached page_size w0 in
      let writes = append_entry-Writes system store entry options prival pid v c z e in
      let (kept, made) = new-usable cached page_size w0 usable in
      elim made [
        | inr (null, back, oom, refused) ↦
            rw (null, writes.on_null) (inr (refl, oom, (w.calls, page_size, omega arith, refused)))
        | inl (b, e0, back, valid, empty, quiet) ↦
            let (kept', written) = writes.on_valid b r.2 valid (rw kept bounded) in
            rw e0 (elim written [
              | inl (b', e1, _, text, error) ↦ inl (
                b',
                e1,
                back,
                text ∙ ap (λ t. t ++ syslog_message system store entry options prival pid) empty,
                error ∙ quiet,
              )
              | inr (null, oom, (n, amount, le, denied)) ↦
                  inr
                    (null, oom, (n, amount, omega (arith, le, ap length empty), rw kept at denied))
            ])
      ]
