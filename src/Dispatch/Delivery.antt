-- ===== src/Dispatch/Delivery.antt =====
-- What `stumpless_add_entry` does with an entry for a buffer target (src/target.c).
use stumpless.Base.{
  ℕ, ◌+◌, ◌*◌, ◌<◌, ◌≡◌, refl, ap, sym, ◌∙◌, [], ◌∷◌, ◌++◌, Bytes, true, false, ◌⊎◌, inl, inr,
  Option, none, some, length, length-append, bit_and, ltb, ◌==◌, if◌then◌else◌, Bool-cases, arith,
}
use stumpless.Base.Int.{ℤ, pos, negsuc}
use stumpless.Error.{cap_size_t_to_int, int_max}
use stumpless.World.{World, clear_error}
use stumpless.StrBuilder.{StrBuilder, strbuilder_get_buffer}
use stumpless.StrBuilder.Growth.{IsBounded, OutOfMemory}
use stumpless.StrBuilder.Lifecycle.{IsUsable}
use stumpless.StrBuilder.Chain.{Refused}
use stumpless.Entry.Valid
use stumpless.Entry.{Entry}
use stumpless.Formatter.{Store, System, format_entry}
use stumpless.Formatter.Message.{AreConsistent, syslog_message}
use stumpless.Formatter.Format.{format_entry-Formatted}
use stumpless.Target.Buffer.Invariant
use stumpless.Target.{Target, mask_filter, buffer_target}
use stumpless.Target.Buffer.{BufferTarget, sendto_buffer_target}
use stumpless.Target.Buffer.Fifo.{used, pending, sendto_buffer_target-queues}
use stumpless.Formatter.Line.{syslog_message-IsLine}
use stumpless.Dispatch.Mask.{severity_bit}
use stumpless.Dispatch.Options.{get_option_lem, add_entry-masked}
use stumpless.Dispatch.{
  Others, is_buffer, takes_entries, option_odelay, option_perror, stumpless_get_option, send_buffer,
  fall_back, deliver, stumpless_add_entry,
}

cap-pos : (n : ℕ) → (m : ℕ) × (cap_size_t_to_int n ≡ pos m)
unfolding cap_size_t_to_int
cap-pos n = elim (Bool-cases (ltb int_max n)) [
  | inl large ↦ rw large (int_max, refl)
  | inr small ↦ rw small (n, refl)
]

-- What may come of an entry whose message is `body` and a newline.
-- `w` is the world before it, in which a request of at most a page and twice the message is refused
-- if the entry is not delivered.
abbrev pub Delivered :
    ℕ → Bytes → BufferTarget → World → ℤ × BufferTarget × Option StrBuilder × World → Type 0
Delivered page_size body memory w (result, memory', builder, w') =
    ((result ≡ cap_size_t_to_int (length body + 1))
      × (pending memory' ≡ pending memory ++ (body ++ 0 ∷ []))
      × ((b : StrBuilder) × (builder ≡ some b))
      × (w'.error_valid ≡ false))
    ⊎ ((result ≡ negsuc 0)
        × (memory' ≡ memory)
        × (builder ≡ none)
        × OutOfMemory w'
        × Refused w.malloc (page_size + 2 * (length body + 1)))

module _ (others : Others) (system : System) (cached : Option (Option (ℕ × Bytes))) (page_size : ℕ)
    (store : Store) where
  fall_back_sent :
      (target : Target) (buffer : Bytes) (r : ℤ × BufferTarget × World) (n : ℕ)
      → r.0 ≡ pos n
      → fall_back others target buffer r ≡ r
  unfolding fall_back
  fall_back_sent target buffer (pos m, memory, w) n e = refl
  fall_back_sent target buffer (negsuc m, memory, w) n e = absurd (ground arith)

  send_buffer-queues :
      (target : Target) (entry : Entry) (memory : BufferTarget) (body : Bytes) (w : World)
      → target.type ≡ buffer_target
      → Invariant.IsValid memory
      → used memory + length body + 1 < memory.size
      → let (result, memory', w') =
          fall_back others target
            (body ++ 10 ∷ [])
            (send_buffer others target entry memory (body ++ 10 ∷ []) w) in
        (result ≡ cap_size_t_to_int (length body + 1))
        × (pending memory' ≡ pending memory ++ (body ++ 0 ∷ []))
        × (w' ≡ w)
  unfolding send_buffer
  send_buffer-queues target entry memory body w buffered valid room =
      let (result, queued, _, _, same) = sendto_buffer_target-queues memory body 10 w valid room in
      let count : length (body ++ 10 ∷ []) ≡ length body + 1 = length-append body (10 ∷ []) in
      let kind : is_buffer target.type ≡ true = ap is_buffer buffered in
      let whole : send_buffer others target entry memory (body ++ 10 ∷ []) w
          ≡ sendto_buffer_target memory (body ++ 10 ∷ []) (length body + 1) w =
        rw (send_buffer, kind, count) refl in
      let (n, sent) = cap-pos (length body + 1) in
      let kept =
        fall_back_sent target (body ++ 10 ∷ [])
          (sendto_buffer_target memory (body ++ 10 ∷ []) (length body + 1) w) n (result ∙ sent) in
      rw (whole, kept) (result, queued, same)

  module _ (target : Target) (entry : Entry) (memory : BufferTarget) (prival pid : ℕ) where
    abbrev format : World → Option StrBuilder × World
    format w =
        let (builder, returned, w') =
          format_entry system cached page_size store entry target.options w in
        (builder, w')

    deliver-Delivered :
        (body : Bytes) (w : World)
        → Valid.IsValid entry
        → AreConsistent store entry.elements
        → entry.prival ≡ pos prival
        → system.getpid ≡ pos pid
        → IsUsable cached page_size
        → IsBounded w.malloc
        → Invariant.IsValid memory
        → target.type ≡ buffer_target
        → bit_and target.options option_perror ≡ 0
        → syslog_message system store entry target.options prival pid ≡ body ++ 10 ∷ []
        → used memory + length body + 1 < memory.size
        → Delivered page_size body memory w (deliver others format target entry memory w)
    unfolding deliver
    deliver-Delivered body w v c z e usable bounded valid buffered quiet line room =
        let size = ap length line ∙ length-append body (10 ∷ []) in
        let silent : (bit_and target.options option_perror == 0) ≡ true = ground arith in
        let unechoed : ((stumpless_get_option target option_perror w).0 == 0) ≡ true =
          ap (λ r. r.0 == 0) (get_option_lem target option_perror w) ∙ silent in
        let kind : takes_entries target.type ≡ false = ap takes_entries buffered in
        let asked = get_option_lem target option_perror w in
        let formatted =
          format_entry-Formatted system store entry target.options prival pid cached page_size
            (clear_error w) v c z e usable bounded in
        elim formatted [
          | inr (null, oom, (n, amount, le, denied)) ↦
              let exhausted : OutOfMemory
                  (format (stumpless_get_option target option_perror w).1).1 =
                rw asked oom in
              rw (deliver, asked, kind, null)
                (inr (refl, refl, refl, exhausted, (n, amount, omega (arith, le, size), denied)))
          | inl (b, made, _, text, error) ↦
              let whole : strbuilder_get_buffer b ≡ body ++ 10 ∷ [] = text ∙ line in
              let w2 = (format (clear_error w)).1 in
              let (result, queued, same) =
                send_buffer-queues target entry memory body w2 buffered valid room in
              let q = stumpless_get_option target option_perror w in
              let still : (if q.0 == 0
                    then (format q.1).1
                    else others.write_to_error_stream (body ++ 10 ∷ []) (format q.1).1)
                  ≡ w2 =
                rw unechoed (ap (λ r. (format r.1).1) asked) in
              rw (deliver, unechoed, asked, kind, made, whole, still)
                (inl (result, queued, (b, refl), ap (λ v. v.error_valid) same ∙ error))
        ]

    -- stumpless_add_entry of a well-formed entry with consistent elements to a valid buffer target
    -- with an id and the default filter, whose mask has 8 bits, of which that for the rest of the
    -- priority value by 8 is set, which does not open late and does not echo, and whose memory has
    -- room for the message, with a process id that is not negative, a builder of the cache whose
    -- buffer, or the page for it, is not empty, and an allocator that refuses half the address
    -- space: the line for the entry, with a NUL in place of its newline, is queued behind the
    -- messages that wait, its length is returned, the builder is given back and no error is left;
    -- or -1 is returned, the memory is as it was and the error is that memory ran out, and then a
    -- request of at most a page and twice the line was refused. The line is that of RFC 5424 where
    -- no name is empty and the values are escaped, which the code does not see to.
    pub add_entry-Delivered :
        (id : ℕ) (w : World)
        → Valid.IsValid entry
        → AreConsistent store entry.elements
        → entry.prival ≡ pos prival
        → system.getpid ≡ pos pid
        → IsUsable cached page_size
        → IsBounded w.malloc
        → Invariant.IsValid memory
        → target.id ≡ some id
        → target.type ≡ buffer_target
        → target.filter ≡ some mask_filter
        → target.mask < 256
        → severity_bit target.mask prival ≡ 1
        → bit_and target.options option_odelay ≡ 0
        → bit_and target.options option_perror ≡ 0
        → used memory + length (syslog_message system store entry target.options prival pid)
          < memory.size
        → (body : Bytes) × (syslog_message system store entry target.options prival pid
            ≡ body ++ 10 ∷ [])
          × Delivered page_size body memory w
              (stumpless_add_entry others system cached page_size store target entry memory w)
    add_entry-Delivered id w v c z e usable bounded valid there buffered masks bits wanted prompt
          quiet room =
        let (body, line) = syslog_message-IsLine system store entry target.options prival pid in
        let size = ap length line ∙ length-append body (10 ∷ []) in
        let delivered =
          deliver-Delivered body (clear_error w) v c z e usable bounded valid buffered quiet line
            (omega (arith, size)) in
        let (_, _, _, _, _, (p, small, is)) = v in
        let same : prival ≡ p = ap (λ k. elim k [ pos n ↦ n | negsuc n ↦ 0 ]) (sym z ∙ is) in
        elim (add_entry-masked others system cached page_size store target entry memory id prival w
          there masks prompt z (omega (arith, small, same)) bits) [
            | inl (unset, _) ↦ absurd (omega (arith, unset, wanted))
            | inr (_, result) ↦ (body, line, rw result delivered)
          ]
