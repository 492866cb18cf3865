-- ===== src/Formatter/Line.antt =====
-- A formatted entry ends in a newline (src/formatter.c).
use stumpless.Base.{ℕ, ◌≡◌, refl, ap, ◌∙◌, sym, [], ◌∷◌, ◌++◌, Bytes, codes, append_assoc}
use stumpless.StrBuilder.Decimal.{decimal}
use stumpless.Entry.{Entry}
use stumpless.Formatter.{Store, System}
use stumpless.Formatter.Message.{
  syslog_message, hostname_text, procid_text, structured_data, message_text,
}

-- A text and the newline behind it.
abbrev pub IsLine : Bytes → Type 0
IsLine s = (body : Bytes) × (s ≡ body ++ 10 ∷ [])

append-IsLine : (xs : Bytes) {s : Bytes} → IsLine s → IsLine (xs ++ s)
append-IsLine xs (body, e) =
    (xs ++ body, ap (λ t. xs ++ t) e ∙ sym (append_assoc xs body (10 ∷ [])))

cons-IsLine : (c : ℕ) {s : Bytes} → IsLine s → IsLine (c ∷ s)
cons-IsLine c (body, e) = (c ∷ body, ap (λ t. c ∷ t) e)

pub syslog_message-IsLine :
    (system : System) (store : Store) (entry : Entry) (options prival pid : ℕ)
    → IsLine (syslog_message system store entry options prival pid)
syslog_message-IsLine system store entry options prival pid = cons-IsLine b'<' (
    append-IsLine (decimal prival) (
      append-IsLine (codes ">1 ") (
        append-IsLine system.get_now (
          cons-IsLine b' ' (
            append-IsLine (hostname_text system entry) (
              cons-IsLine b' ' (
                append-IsLine entry.app_name (
                  cons-IsLine b' ' (
                    append-IsLine (procid_text entry options pid) (
                      cons-IsLine b' ' (
                        append-IsLine entry.msgid (
                          cons-IsLine b' ' (
                            append-IsLine (structured_data store entry.elements)
                              (append-IsLine (message_text entry) ([], refl)))))))))))))))
