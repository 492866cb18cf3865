-- ===== src/Formatter/Message.antt =====
-- The text of a formatted entry.
use stumpless.Base.{
  ℕ, ◌≡◌, refl, [], ◌∷◌, ◌++◌, List, Bytes, codes, Bool, true, false, inl, inr, Option, none, some,
  All, length, take, take_all, bit_and, ltb, ◌==◌, if◌then◌else◌, append_assoc, arith,
}
use stumpless.Base.Int.{ℤ, pos}
use stumpless.StrBuilder.{strbuilder_append_buffer}
use stumpless.StrBuilder.Decimal.{decimal}
use stumpless.StrBuilder.Chain.{
  Writer, ◌⨾◌, Writes, Writes-⨾, append_buffer-Writes, append_char-Writes, append_string-Writes,
  positive_int-Writes, Writes-same, Writes-nothing,
}
use stumpless.Param.{Param}
use stumpless.Param.Format.{IsConsistent, shown}
use stumpless.Entry.{Entry}
use stumpless.Entry.Valid.{IsValid, IsCounted}
use stumpless.Formatter.{
  Store, System, char, buffer, string, positive_int, nothing, append_params, append_elements,
  strbuilder_append_structured_data, strbuilder_append_app_name, strbuilder_append_hostname,
  strbuilder_append_msgid, strbuilder_append_message, strbuilder_append_procid, append_entry,
  option_pid,
}

-- The params of an element: each behind a space as name="value".
abbrev pub shown_params : (ℕ → Param) → List ℕ → Bytes
shown_params params [] = []
shown_params params (p ∷ ps) = b' ' ∷ (shown (params p) ++ shown_params params ps)

-- Each element in brackets.
abbrev pub shown_elements : Store → List ℕ → Bytes
shown_elements store [] = []
shown_elements store (e ∷ es) =
    b'['
    ∷ ((store.elements e).name
        ++ (shown_params store.params (store.elements e).params
            ++ (b']' ∷ shown_elements store es)))

-- STRUCTURED-DATA of RFC 5424.
abbrev pub structured_data : Store → List ℕ → Bytes
structured_data store [] = b'-' ∷ []
structured_data store (e ∷ es) = shown_elements store (e ∷ es)

-- The elements and their params hold the lengths of their strings.
abbrev pub AreConsistent : Store → List ℕ → Type 0
AreConsistent store es =
    All
      (λ e.
        (length (store.elements e).name ≡ (store.elements e).name_length)
        × All (λ p. IsConsistent (store.params p)) (store.elements e).params)
      es

buffer-Writes : (s : Bytes) (n : ℕ) → length s ≡ n → Writes s (buffer n s)
buffer-Writes s n e = Writes-same (append_buffer-Writes (take n s)) (take_all n s (omega arith))

append_params-Writes :
    (params : ℕ → Param) (ps : List ℕ)
    → All (λ p. IsConsistent (params p)) ps
    → Writes (shown_params params ps) (append_params params ps)
unfolding append_params
append_params-Writes params [] c = Writes-nothing
append_params-Writes params (p ∷ ps) (c, cs) =
    let all = Writes-⨾ (append_char-Writes b' ') (
      Writes-⨾ (buffer-Writes (params p).name (params p).name_length c.name_counted) (
        Writes-⨾ (append_char-Writes b'=') (
          Writes-⨾ (append_char-Writes b'"') (
            Writes-⨾ (buffer-Writes (params p).value (params p).value_length c.value_counted)
              (Writes-⨾ (append_char-Writes b'"') (append_params-Writes params ps cs)))))) in
    Writes-same all (simp append_assoc)

append_elements-Writes :
    (store : Store) (es : List ℕ)
    → AreConsistent store es
    → Writes (shown_elements store es) (append_elements store es)
unfolding append_elements
append_elements-Writes store [] c = Writes-nothing
append_elements-Writes store (e ∷ es) ((name, params), cs) = Writes-⨾ (append_char-Writes b'[') (
    Writes-⨾ (buffer-Writes (store.elements e).name (store.elements e).name_length name) (
      Writes-⨾ (append_params-Writes store.params (store.elements e).params params)
        (Writes-⨾ (append_char-Writes b']') (append_elements-Writes store es cs))))

structured_data-Writes :
    (store : Store) (entry : Entry)
    → AreConsistent store entry.elements
    → Writes (structured_data store entry.elements) (strbuilder_append_structured_data store entry)
unfolding strbuilder_append_structured_data
structured_data-Writes store entry c = by_list entry.elements c
  where
    by_list :
        (es : List ℕ)
        → AreConsistent store es
        → Writes
            (structured_data store es)
            (elim es [ [] ↦ char b'-' | e ∷ es' ↦ append_elements store (e ∷ es') ])
    by_list [] c' = append_char-Writes b'-'
    by_list (e ∷ es) c' = append_elements-Writes store (e ∷ es) c'

-- HOSTNAME and PROCID as they are written.
abbrev pub hostname_text : System → Entry → Bytes
hostname_text system entry =
    if ltb 0 entry.hostname_length
    then entry.hostname
    else elim system.gethostname [ none ↦ b'-' ∷ [] | some name ↦ name ]

abbrev pub procid_text : Entry → ℕ → ℕ → Bytes
procid_text entry options pid =
    if bit_and options option_pid == 0
    then b'-' ∷ []
    else if ltb 0 entry.procid_length
    then entry.procid
    else decimal pid

-- MSG with the space before it, if there is one.
abbrev pub message_text : Entry → Bytes
message_text entry =
    if ltb 0 entry.message_length
    then b' ' ∷ elim entry.message [ none ↦ [] | some message ↦ message.1 ]
    else []

-- The line that the code means to be the SYSLOG-MSG of RFC 5424 and a newline, for the priority value
-- `prival` and the process `pid`. The values of params stand in it as they are, without a `\` before
-- `"`, `\` and `]`, and names may be empty.
abbrev pub syslog_message : System → Store → Entry → ℕ → ℕ → ℕ → Bytes
syslog_message system store entry options prival pid =
    b'<'
    ∷ (decimal prival
        ++ (codes ">1 "
            ++ (system.get_now
                ++ (b' '
                    ∷ (hostname_text system entry
                        ++ (b' '
                            ∷ (entry.app_name
                                ++ (b' '
                                    ∷ (procid_text entry options pid
                                        ++ (b' '
                                            ∷ (entry.msgid
                                                ++ (b' '
                                                    ∷ (structured_data store entry.elements
                                                        ++ (message_text entry
                                                            ++ 10 ∷ []))))))))))))))

Writes-if :
    (b : Bool) {xs ys : Bytes} {f g : Writer}
    → (b ≡ true → Writes xs f)
    → (b ≡ false → Writes ys g)
    → Writes (if b then xs else ys) (if b then f else g)
Writes-if true p q = p refl
Writes-if false p q = q refl

int-Writes : (i : ℤ) (n : ℕ) → i ≡ pos n → Writes (decimal n) (positive_int i)
int-Writes i n e = rw e (positive_int-Writes n)

hostname-Writes :
    (system : System) (entry : Entry)
    → IsValid entry
    → Writes (hostname_text system entry) (
        if ltb 0 entry.hostname_length
        then buffer entry.hostname_length entry.hostname
        else strbuilder_append_hostname system)
unfolding strbuilder_append_hostname
hostname-Writes system entry (_, _, h, _, _, _) =
    Writes-if (ltb 0 entry.hostname_length)
      (λ some_length. elim h [
        | inl none_set ↦ absurd (ground arith)
        | inr (len, _, _) ↦ buffer-Writes entry.hostname entry.hostname_length len
      ])
      (λ no_length. by_name system.gethostname)
  where
    by_name :
        (o : Option Bytes)
        → Writes
            (elim o [ none ↦ b'-' ∷ [] | some name ↦ name ])
            (elim o [ none ↦ char b'-' | some name ↦ string name ])
    by_name none = append_char-Writes b'-'
    by_name (some name) = append_string-Writes name

procid-Writes :
    (system : System) (entry : Entry) (options pid : ℕ)
    → IsValid entry
    → system.getpid ≡ pos pid
    → Writes (procid_text entry options pid) (
        if bit_and options option_pid == 0
        then char b'-'
        else if ltb 0 entry.procid_length
        then buffer entry.procid_length entry.procid
        else strbuilder_append_procid system)
unfolding strbuilder_append_procid
procid-Writes system entry options pid (_, _, _, p, _, _) e =
    Writes-if (bit_and options option_pid == 0) (λ off. append_char-Writes b'-')
      (λ on.
        Writes-if (ltb 0 entry.procid_length)
          (λ some_length. elim p [
            | inl none_set ↦ absurd (ground arith)
            | inr (len, _, _) ↦ buffer-Writes entry.procid entry.procid_length len
          ])
          (λ no_length. int-Writes system.getpid pid e))

message-Writes :
    (entry : Entry)
    → IsValid entry
    → Writes (message_text entry) (
        if ltb 0 entry.message_length then char b' ' ⨾ strbuilder_append_message entry else nothing)
unfolding strbuilder_append_message
message-Writes entry (_, _, _, _, c, _) =
    Writes-if (ltb 0 entry.message_length)
      (λ some_length. Writes-⨾ (append_char-Writes b' ') (by_message entry.message some_length c))
      (λ no_length. Writes-nothing)
  where
    by_message :
        (o : Option (ℕ × Bytes))
        → ltb 0 entry.message_length ≡ true
        → IsCounted o entry.message_length
        → Writes
            (elim o [ none ↦ [] | some message ↦ message.1 ])
            (elim o [
              | none ↦ λ builder w. strbuilder_append_buffer builder none w
              | some message ↦ buffer entry.message_length message.1
            ])
    by_message none positive counted = absurd (ground arith)
    by_message (some message) positive counted =
        buffer-Writes message.1 entry.message_length counted

-- The calls of `format_entry` write the message.
pub append_entry-Writes :
    (system : System) (store : Store) (entry : Entry) (options prival pid : ℕ)
    → IsValid entry
    → AreConsistent store entry.elements
    → entry.prival ≡ pos prival
    → system.getpid ≡ pos pid
    → Writes
        (syslog_message system store entry options prival pid)
        (append_entry system store entry options)
unfolding append_entry strbuilder_append_app_name strbuilder_append_msgid
append_entry-Writes system store entry options prival pid v c z e =
    Writes-⨾ (append_char-Writes b'<') (
      Writes-⨾ (int-Writes entry.prival prival z) (
        Writes-⨾ (append_string-Writes (codes ">1 ")) (
          Writes-⨾ (buffer-Writes system.get_now (length system.get_now) refl) (
            Writes-⨾ (append_char-Writes b' ') (
              Writes-⨾ (hostname-Writes system entry v) (
                Writes-⨾ (append_char-Writes b' ') (
                  Writes-⨾ (buffer-Writes entry.app_name entry.app_name_length v.0.0) (
                    Writes-⨾ (append_char-Writes b' ') (
                      Writes-⨾ (procid-Writes system entry options pid v e) (
                        Writes-⨾ (append_char-Writes b' ') (
                          Writes-⨾ (buffer-Writes entry.msgid entry.msgid_length v.1.0) (
                            Writes-⨾ (append_char-Writes b' ') (
                              Writes-⨾ (structured_data-Writes store entry c) (
                                Writes-⨾ (message-Writes entry v)
                                  (append_char-Writes 10)))))))))))))))
