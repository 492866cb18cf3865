-- ===== src/Target/Stream/Writing.antt =====
-- What a stream target writes, and what it returns (src/target/stream.c).
use stumpless.Base.{
  ℕ, ◌+◌, ◌<◌, ◌≤◌, ◌≡◌, ◌≢◌, refl, sym, ap, ◌∙◌, [], ◌∷◌, ◌++◌, Bytes, Bool, ◌⊎◌, inl, inr, true,
  false, length, take_all, get_or, ◌==◌, if◌then◌else◌, Bool-cases, append_assoc, append-nil,
  List-cases, ltb, min, arith,
}
use stumpless.Base.Int.{ℤ, pos, negsuc}
use stumpless.Error.{cap_size_t_to_int, int_max, stream_write_failure}
use stumpless.World.{
  World, clear_error, lock_mutex, unlock_mutex, unlock-lock, raise_stream_write_failure,
}
use stumpless.Severity.{get_severity}
use stumpless.Entry.{Entry, lock_entry, unlock_entry}
use stumpless.Dispatch.{stumpless_get_entry_severity}
use stumpless.Target.Stream.{
  StreamTarget, Stream, fwrite, c_string, reset_code, write_all, severity_index,
  sendto_stream_target,
}

-- `k` writes were whole, and gave the text; or one of them was short, which is what `Short` says.
abbrev Writes : Stream → ℕ → Bytes → Type 0 → Bool × ℕ × Stream → Type 0
Writes start k text Short (done, last, stream) =
    ((done ≡ true)
      × (stream.output ≡ start.output ++ text)
      × (stream.writes ≡ start.writes + k)
      × (stream.takes ≡ start.takes))
    ⊎ ((done ≡ false) × Short)

-- The write number `k` from here on takes less than all of the buffer.
abbrev pub IsShort : Stream → ℕ → Bytes → Type 0
IsShort start k buffer = start.takes (start.writes + k) < length buffer

write_all-Writes :
    (start : Stream) (k : ℕ) (buffer text : Bytes) (Short : Type 0) (r : Bool × ℕ × Stream)
    → Writes start k text Short r
    → let r' = write_all buffer r in
      Writes start (k + 1) (text ++ buffer) (Short ⊎ IsShort start k buffer) r'
      × ((r'.0 ≡ false) ⊎ (r'.1 ≡ length buffer))
unfolding fwrite
write_all-Writes start k buffer text Short (done, last, stream) (inr (short, why)) =
    rw short (inr (refl, inl why), inl refl)
write_all-Writes start k buffer text Short (done, last, stream)
      (inl (whole, written, counted, same_takes)) =
    let taken = stream.takes stream.writes in
    let now : taken ≡ start.takes (start.writes + k) =
      ap (λ f. f stream.writes) same_takes ∙ ap start.takes counted in
    let n = min taken (length buffer) in
    elim (Bool-cases (n == length buffer)) [
      | inr short ↦
          let less : taken < length buffer = ground arith in
          rw (whole, fwrite, short) (inr (refl, inr (omega (arith, less, now))), inl refl)
      | inl all ↦
          let same : n ≡ length buffer = ground arith in
          rw (whole, fwrite, all)
            (
              inl (
                refl,
                ap (λ s. stream.output ++ s) (take_all n buffer (omega (arith, same)))
                    ∙ (ap (λ s. s ++ buffer) written ∙ append_assoc start.output text buffer),
                omega (arith, counted),
                same_takes,
              ),
              inr same,
            )
    ]

settled :
    (e : Entry) (m : ℕ) (w : World)
    → unlock_mutex m (lock_mutex m (clear_error (unlock_entry e (lock_entry e w)))) ≡ clear_error w
settled e m w =
    ap (λ v. unlock_mutex m (lock_mutex m (clear_error v))) (unlock-lock e.mutex w)
    ∙ unlock-lock m (clear_error w)

capped : (n : ℕ) → n ≤ int_max → cap_size_t_to_int n ≡ pos n
unfolding cap_size_t_to_int
capped n small = elim (Bool-cases (ltb int_max n)) [
  | inl large ↦ absurd (ground arith)
  | inr fits ↦ rw fits refl
]

-- How the function ends.
finish : Bool × ℕ × Stream → World → ℤ × Stream × World
finish (done, last, stream) w =
    if done
    then (cap_size_t_to_int (last + 1), stream, w)
    else (negsuc 0, stream, raise_stream_write_failure w)

-- What came of writing a text, whose last write was of `n` bytes, where `Short` says that a write was
-- short.
abbrev pub Sent : Bytes → ℕ → Bytes → Type 0 → World → ℤ × Stream × World → Type 0
Sent before n text Short w (r, stream, w') =
    ((r ≡ pos (n + 1)) × (stream.output ≡ before ++ text) × (w' ≡ clear_error w))
    ⊎ (Short
        × (r ≡ negsuc 0)
        × (w'.held ≡ w.held)
        × (w'.error_valid ≡ true)
        × (w'.last_error.id ≡ stream_write_failure))

finish-Sent :
    (start : Stream) (k : ℕ) (text : Bytes) (n : ℕ) (Early Short : Type 0) (r : Bool × ℕ × Stream)
    (w w1 : World)
    → n < int_max
    → w1 ≡ clear_error w
    → (Early → Short)
    → Writes start k text Early r
    → (r.0 ≡ false) ⊎ (r.1 ≡ n)
    → Sent start.output n text Short w (finish r w1)
unfolding finish
finish-Sent start k text n Early Short (true, last, stream) w w1 small back named
      (inl (_, written, _, _)) (inr len) =
    inl (ap (λ k. cap_size_t_to_int (k + 1)) len ∙ capped (n + 1) (omega arith), written, back)
finish-Sent start k text n Early Short (true, last, stream) w w1 small back named (inl _)
      (inl bad) =
    absurd (cc bad)
finish-Sent start k text n Early Short (true, last, stream) w w1 small back named (inr (bad, _))
      len =
    absurd (cc bad)
finish-Sent start k text n Early Short (false, last, stream) w w1 small back named
      (inl (bad, _, _, _)) len =
    absurd (cc bad)
finish-Sent start k text n Early Short (false, last, stream) w w1 small back named (inr (_, why))
      len =
    inr (named why, refl, ap (λ v. v.held) back, refl, refl)

-- sendto_stream_target, for a message shorter than INT_MAX, writes it alone if the code for the
-- severity of the entry is empty, and returns its length plus 1; otherwise it writes the code, the
-- message and the reset code, and returns 5. No error is left. Only if one of these writes is
-- short, it returns -1 and reports STUMPLESS_STREAM_WRITE_FAILURE. The locks are given back in
-- every case.
pub sendto_stream_target-Sent :
    (target : StreamTarget) (msg : Bytes) (e : Entry) (stream : Stream) (w : World)
    → length msg < int_max
    → let code =
        c_string (get_or target.escape_codes (severity_index (get_severity e.prival)) []) in
      let sent = sendto_stream_target target msg e (stream, w) in
      ((code ≡ []) × Sent stream.output (length msg) msg (IsShort stream 0 msg) w sent)
      ⊎ ((code ≢ [])
          × Sent stream.output 4
              ((code ++ msg) ++ reset_code)
              (IsShort stream 0 code ⊎ IsShort stream 1 msg ⊎ IsShort stream 2 reset_code)
              w
              sent)
unfolding sendto_stream_target stumpless_get_entry_severity finish
sendto_stream_target-Sent target msg e stream w small =
    let code = c_string (get_or target.escape_codes (severity_index (get_severity e.prival)) []) in
    let back = settled e target.stream_mutex w in
    let start : Writes stream 0 [] ⊥ (true, 0, stream) =
      inl (refl, sym (append-nil stream.output), omega arith, refl) in
    elim (List-cases code) [
      | inl plain ↦
          let (written, len) = write_all-Writes stream 0 msg [] ⊥ (true, 0, stream) start in
          inl (
            plain,
            rw (sendto_stream_target, plain)
                (finish-Sent stream 1 msg (length msg) (⊥ ⊎ IsShort stream 0 msg)
                  (IsShort stream 0 msg) (write_all msg (true, 0, stream)) w _ small back
                  (λ early. elim early [ inl never ↦ absurd never | inr why ↦ why ]) written len),
          )
      | inr (c, rest, colored) ↦
          let not_empty : (length (c ∷ rest) == 0) ≡ false = ground arith in
          let r1 = write_all (c ∷ rest) (true, 0, stream) in
          let r2 = write_all msg r1 in
          let (w1, _) = write_all-Writes stream 0 (c ∷ rest) [] ⊥ (true, 0, stream) start in
          let (w2, _) = write_all-Writes stream 1 msg (c ∷ rest) _ r1 w1 in
          let (w3, len) = write_all-Writes stream 2 reset_code ((c ∷ rest) ++ msg) _ r2 w2 in
          rw (sendto_stream_target, colored, not_empty)
            (inr (
              λ e. absurd (ground arith),
              finish-Sent stream 3 (((c ∷ rest) ++ msg) ++ reset_code) 4 _ _
                  (write_all reset_code r2) w _ (omega arith) back
                  (λ early. elim early [
                    | inl (inl (inl never)) ↦ absurd never
                    | inl (inl (inr why)) ↦ inl why
                    | inl (inr why) ↦ inr (inl why)
                    | inr why ↦ inr (inr why)
                  ])
                  w3 len,
            ))
    ]
