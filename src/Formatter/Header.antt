-- ===== src/Formatter/Header.antt =====
-- The header of a message, read back.
use stumpless.Base.{
  ℕ, zero, suc, ◌<◌, ◌≡◌, ◌≢◌, refl, ap, ◌∙◌, sym, [], ◌∷◌, ◌++◌, List, Bytes, codes, Bool, true,
  false, inl, inr, Option, none, some, All, All-append, bit_and, ltb, ◌==◌, if◌then◌else◌,
  append_assoc, ◌^◌, arith,
}
use stumpless.Validate.Names.{IsPrintable}
use stumpless.StrBuilder.Decimal.{decimal, decimal-IsDecimal, IsDigit}
use stumpless.Entry.{Entry}
use stumpless.Entry.Valid.{IsValid}
use stumpless.Formatter.{Store, System, option_pid}
use stumpless.Formatter.Message.{
  syslog_message, hostname_text, procid_text, message_text, structured_data,
}

-- What stands before and behind the first space.
abbrev pub split_space : Bytes → Bytes × Bytes
split_space [] = ([], [])
split_space (c ∷ s) =
    let rest = split_space s in if c == b' ' then ([], s) else (c ∷ rest.0, rest.1)

-- So many texts, each up to a space, and the rest.
abbrev pub fields : ℕ → Bytes → List Bytes × Bytes
fields zero s = ([], s)
fields (suc n) s =
    let (first, rest) = split_space s in
    let (others, last) = fields n rest in (first ∷ others, last)

abbrev pub HasNoSpace : Bytes → Type 0
HasNoSpace s = All (λ c. c ≢ b' ') s

split_space_lem : (s t : Bytes) → HasNoSpace s → split_space (s ++ b' ' ∷ t) ≡ (s, t)
split_space_lem [] t h = refl
split_space_lem (c ∷ s) t h = ground (arith, split_space_lem s t h.1)

fields_lem :
    (n : ℕ) (s t last : Bytes) (fs : List Bytes)
    → HasNoSpace s
    → fields n t ≡ (fs, last)
    → fields (suc n) (s ++ b' ' ∷ t) ≡ (s ∷ fs, last)
fields_lem n s t last fs h e = rw (split_space_lem s t h, e) refl

printable_HasNoSpace : (s : Bytes) → All IsPrintable s → HasNoSpace s
printable_HasNoSpace [] h = tt
printable_HasNoSpace (c ∷ s) h = (omega arith, printable_HasNoSpace s h.1)

digits_HasNoSpace : (s : Bytes) → All IsDigit s → HasNoSpace s
digits_HasNoSpace [] h = tt
digits_HasNoSpace (c ∷ s) h = (omega arith, digits_HasNoSpace s h.1)

HasNoSpace-if :
    (b : Bool) (s t : Bytes)
    → (b ≡ true → HasNoSpace s)
    → (b ≡ false → HasNoSpace t)
    → HasNoSpace (if b then s else t)
HasNoSpace-if true s t p q = p refl
HasNoSpace-if false s t p q = q refl

module _ (system : System) (store : Store) (entry : Entry) (options prival pid : ℕ) where
  -- PRI and VERSION.
  abbrev pub pri_version : Bytes
  pri_version = b'<' ∷ (decimal prival ++ codes ">1")

  -- What stands behind the header.
  abbrev pub after_header : Bytes
  after_header = structured_data store entry.elements ++ (message_text entry ++ 10 ∷ [])

  hostname-HasNoSpace :
      IsValid entry
      → All (λ c. c ≢ b' ') (elim system.gethostname [ none ↦ [] | some name ↦ name ])
      → HasNoSpace (hostname_text system entry)
  hostname-HasNoSpace (_, _, h, _, _, _) g =
      HasNoSpace-if (ltb 0 entry.hostname_length) entry.hostname _
        (λ positive. elim h [
          | inl unset ↦ absurd (ground arith)
          | inr (_, _, chars) ↦ printable_HasNoSpace entry.hostname chars
        ])
        (λ unset. by_name system.gethostname g)
    where
      by_name :
          (o : Option Bytes)
          → All (λ c. c ≢ b' ') (elim o [ none ↦ [] | some name ↦ name ])
          → HasNoSpace (elim o [ none ↦ b'-' ∷ [] | some name ↦ name ])
      by_name none h' = omega arith
      by_name (some name) h' = h'

  procid-HasNoSpace : IsValid entry → pid < 2 ^ 31 → HasNoSpace (procid_text entry options pid)
  procid-HasNoSpace (_, _, _, p, _, _) small =
      HasNoSpace-if (bit_and options option_pid == 0) (b'-' ∷ []) _ (λ off. omega arith)
        (λ on.
          HasNoSpace-if (ltb 0 entry.procid_length) entry.procid (decimal pid)
            (λ positive. elim p [
              | inl unset ↦ absurd (ground arith)
              | inr (_, _, chars) ↦ printable_HasNoSpace entry.procid chars
            ])
            (λ unset. digits_HasNoSpace (decimal pid) (decimal-IsDecimal pid small).all_digits))

  -- The six fields of the header of the message that format_entry writes for a well-formed entry
  -- are read back from it by splitting at spaces, if neither the timestamp nor the name of the
  -- host holds a space and the priority value and the process id fit into 31 bits, and what is
  -- left is the structured data, the text and the newline.
  pub fields-syslog_message :
      IsValid entry
      → prival < 2 ^ 31
      → pid < 2 ^ 31
      → HasNoSpace system.get_now
      → All (λ c. c ≢ b' ') (elim system.gethostname [ none ↦ [] | some name ↦ name ])
      → fields 6 (syslog_message system store entry options prival pid) ≡ (
        pri_version
            ∷ system.get_now
            ∷ hostname_text system entry
            ∷ entry.app_name
            ∷ procid_text entry options pid
            ∷ entry.msgid
            ∷ [],
        after_header,
      )
  fields-syslog_message v p q now host =
      let start : HasNoSpace pri_version = (
        omega arith,
        All-append (λ c. c ≢ b' ') (decimal prival) (codes ">1")
            (digits_HasNoSpace (decimal prival) (decimal-IsDecimal prival p).all_digits)
            (omega arith),
      ) in
      let m5 : Bytes = entry.msgid ++ b' ' ∷ after_header in
      let m4 : Bytes = procid_text entry options pid ++ b' ' ∷ m5 in
      let m3 : Bytes = entry.app_name ++ b' ' ∷ m4 in
      let m2 : Bytes = hostname_text system entry ++ b' ' ∷ m3 in
      let m1 : Bytes = system.get_now ++ b' ' ∷ m2 in
      let whole : syslog_message system store entry options prival pid ≡ pri_version ++ b' ' ∷ m1 =
        ap (λ t. b'<' ∷ t) (sym (append_assoc (decimal prival) (codes ">1") (b' ' ∷ m1))) in
      let e5 =
        fields_lem 0 entry.msgid after_header after_header []
          (printable_HasNoSpace entry.msgid v.1.2) refl in
      let e4 =
        fields_lem 1 (procid_text entry options pid) m5 after_header _ (procid-HasNoSpace v q) e5 in
      let e3 =
        fields_lem 2 entry.app_name m4 after_header _ (printable_HasNoSpace entry.app_name v.0.2)
          e4 in
      let e2 =
        fields_lem 3 (hostname_text system entry) m3 after_header _ (hostname-HasNoSpace v host)
          e3 in
      let e1 = fields_lem 4 system.get_now m2 after_header _ now e2 in
      ap (fields 6) whole ∙ fields_lem 5 pri_version m1 after_header _ start e1
