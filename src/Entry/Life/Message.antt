-- ===== src/Entry/Life/Message.antt =====
-- An entry with its message in memory of the caller: made and given back (src/entry.c).
use stumpless.Base.{
  ℕ, ◌+◌, ◌-◌, ◌≡◌, refl, sym, ap, ◌∙◌, [], ◌∷◌, List, Bytes, true, false, ◌⊎◌, inl, inr, Option,
  none, some, All, ◌≤◌, length, arith,
}
use mathlib.Core.Path.{subst}
use stumpless.Base.Int.{ℤ}
use stumpless.World.{World, clear_error, destroy_cached_mutex}
use stumpless.World.Balance.{
  occurrences, occurrences-remove, Owns, IsBalanced, IsExhausted, IsBalanced-refl,
  alloc_mem-effects,
}
use stumpless.Validate.Names.{IsPrintable}
use stumpless.Param.{copy_cstring_with_length}
use stumpless.Facility.{facility_is_invalid}
use stumpless.Severity.{severity_is_invalid}
use stumpless.Prival.Parts.{facility_valid_lem, severity_valid_lem, get_prival-small}
use stumpless.Entry.{Entry, free_message}
use stumpless.Entry.Valid.{IsCounted, IsText, IsPrival, IsValid}
use stumpless.Entry.Life.{
  copied_message, load_message, unchecked_load_entry, stumpless_load_entry_str,
  unchecked_unload_entry, stumpless_unload_entry_only,
}
use stumpless.Entry.Life.Load.{IsAccepted, or_dash, IsNew, IsRefused, unchecked_load_entry-Loads}

abbrev pub message_blocks : Option (ℕ × Bytes) → List ℕ
message_blocks none = []
message_blocks (some m) = m.0 ∷ []

abbrev pub message_text : Option (ℕ × Bytes) → Option Bytes
message_text none = none
message_text (some m) = some m.1

-- The message is there in memory of its own and counted, or its memory is not got.
abbrev pub IsCopied : Option Bytes → World → Option (Option (ℕ × Bytes) × ℕ) × World → Type 0
IsCopied message w r =
    ((m : Option (ℕ × Bytes)) × (n : ℕ) × (w1 : World) × (r ≡ (some (m, n), w1))
      × (message_text m ≡ message)
      × IsCounted m n
      × Owns (message_blocks m) [] w w1)
    ⊎ ((w1 : World) × (r ≡ (none, w1)) × IsBalanced w w1 × IsExhausted w1)

copied_message-IsCopied :
    (message : Option Bytes) (w : World) → IsCopied message w (copied_message message w)
unfolding copied_message copy_cstring_with_length
copied_message-IsCopied none w = inl (none, 0, w, refl, refl, refl, IsBalanced-refl w)
copied_message-IsCopied (some s) w =
    let (mutexes, held, _, outcome) = alloc_mem-effects (length s + 1) w in
    elim outcome [
      | inl (_, r, live, _) ↦
          rw (copied_message, r)
            (inl (
              some (w.calls, s),
              length s,
              _,
              refl,
              refl,
              refl,
              (
                λ a. omega (arith, ap (occurrences a) live),
                λ a. omega (arith, ap (occurrences a) mutexes),
                held,
              ),
            ))
      | inr (_, r, live, oom) ↦
          rw (copied_message, r)
            (inr (
              _,
              refl,
              (
                λ a. omega (arith, ap (occurrences a) live),
                λ a. omega (arith, ap (occurrences a) mutexes),
                held,
              ),
              oom,
            ))
    ]

free_message-occurrences :
    (m : Option (ℕ × Bytes)) (a : ℕ) (w : World)
    → (occurrences a (free_message m w).live
        ≡ occurrences a w.live - occurrences a (message_blocks m))
      × ((free_message m w).mutexes ≡ w.mutexes)
      × ((free_message m w).held ≡ w.held)
      × ((free_message m w).error_valid ≡ w.error_valid)
      × ((free_message m w).last_error ≡ w.last_error)
free_message-occurrences none a w = (omega arith, refl, refl, refl, refl)
free_message-occurrences (some m) a w =
    (omega (arith, occurrences-remove a m.0 w.live), refl, refl, refl, refl)

-- An entry with its message in the memory that was taken for it; or nothing is left behind, and the
-- reason is reported.
abbrev pub LoadsMessage :
    ℕ → ℤ → ℤ → Option Bytes → Option Bytes → Option Bytes → World → Option Entry × World → Type 0
LoadsMessage block f s app_name msgid message w (result, w') =
    (IsAccepted 48 app_name
      × IsAccepted 32 msgid
      × ((e : Entry) × (result ≡ some e)
          × IsNew f s app_name msgid e.message e.message_length e
          × (e.block ≡ block)
          × (message_text e.message ≡ message)
          × IsCounted e.message e.message_length
          × Owns (message_blocks e.message) (e.mutex ∷ []) w w'
          × (w'.error_valid ≡ false)))
    ⊎ ((result ≡ none) × IsBalanced w w' × (w'.error_valid ≡ true) × IsRefused app_name msgid w')

-- stumpless_load_entry_str fills in the struct of the caller with the names, the message in memory
-- of its own, the priority value and no elements exactly if the application name and the message
-- id are NULL or printable ASCII of at most 48 and 32 bytes and memory and a mutex are got; then
-- one block, if there is a message, and one mutex are taken. Otherwise nothing is taken and an
-- error is reported.
pub stumpless_load_entry_str-LoadsMessage :
    (old : Entry) (f s : ℤ) (app_name msgid message : Option Bytes) (w : World)
    → LoadsMessage old.block f s app_name msgid message w
        (stumpless_load_entry_str old f s app_name msgid message w)
unfolding stumpless_load_entry_str load_message
stumpless_load_entry_str-LoadsMessage old f s app_name msgid message w =
    elim (copied_message-IsCopied message w) [
      | inr (w1, r, balanced, oom) ↦
          subst
            (λ x.
              LoadsMessage old.block f s app_name msgid message w
                (load_message old f s app_name msgid x))
            (sym r) (inr (refl, balanced, oom.0, inr (inr oom)))
      | inl (m, n, w1, r, text, counted, owned) ↦
          subst
            (λ x.
              LoadsMessage old.block f s app_name msgid message w
                (load_message old f s app_name msgid x))
            (sym r)
            (elim (unchecked_load_entry-Loads old f s app_name msgid m n (clear_error w1)) [
              | inl (named, identified, (e, q, new, place, (live, mutexes, held), error)) ↦
                  let (a, al, i, il, h, p, same, size, z, b, es) = new in
                  rw (load_message, q)
                    (inl (
                      named,
                      identified,
                      (
                        e,
                        refl,
                        (a, al, i, il, h, p, refl, refl, z, b, es),
                        place,
                        ap message_text same ∙ text,
                        subst (λ x. IsCounted x e.message_length) (sym same)
                            (subst (λ x. IsCounted m x) (sym size) counted),
                        (
                          λ c. omega (
                            arith,
                            live c,
                            owned.0 c,
                            ap (λ x. occurrences c (message_blocks x)) same,
                          ),
                          λ c. omega (arith, mutexes c, owned.1 c),
                          held ∙ owned.2,
                        ),
                        error,
                      ),
                    ))
              | inr (q, (live, mutexes, held), error, reason) ↦
                  let w2 = (unchecked_load_entry old f s app_name msgid m n (clear_error w1)).1 in
                  let freed = λ (c : ℕ). free_message-occurrences m c w2 in
                  rw (load_message, q)
                    (inr (
                      refl,
                      (
                        λ c. omega (arith, live c, owned.0 c, (freed c).0),
                        λ c. omega (arith, ap (occurrences c) (freed c).1, mutexes c, owned.1 c),
                        (freed 0).2 ∙ (held ∙ owned.2),
                      ),
                      (freed 0).3 ∙ error,
                      elim reason [
                        | inl bad ↦ inl bad
                        | inr (inl bad) ↦ inr (inl bad)
                        | inr (inr oom) ↦
                            inr (inr ((freed 0).3 ∙ error, ap (λ x. x.id) (freed 0).4 ∙ oom.1))
                      ],
                    ))
            ])
    ]

unchecked_unload_entry-Owns :
    (e : Entry) (w w1 : World)
    → e.elements_block ≡ none
    → Owns (message_blocks e.message) (e.mutex ∷ []) w w1
    → IsBalanced w (unchecked_unload_entry e w1)
unfolding unchecked_unload_entry
unchecked_unload_entry-Owns e w w1 no_array (live, mutexes, held) =
    let unlocked = destroy_cached_mutex e.mutex w1 in
    let freed = λ (a : ℕ). free_message-occurrences e.message a unlocked in
    rw (unchecked_unload_entry, no_array)
      (
        λ a. omega (arith, live a, (freed a).0),
        λ a. omega (
          arith,
          mutexes a,
          ap (occurrences a) (freed a).1,
          occurrences-remove a e.mutex w1.mutexes,
        ),
        (freed 0).2 ∙ held,
      )

-- Unloading what stumpless_load_entry_str loaded, or failed to load, leaves every block, mutex and
-- lock as it was, up to the order in which they were made.
pub unload_entry_only-load_entry_str :
    (old : Entry) (f s : ℤ) (app_name msgid message : Option Bytes) (w : World)
    → let (loaded, w1) = stumpless_load_entry_str old f s app_name msgid message w in
      IsBalanced w (stumpless_unload_entry_only loaded w1)
unfolding stumpless_unload_entry_only
unload_entry_only-load_entry_str old f s app_name msgid message w =
    let w1 = (stumpless_load_entry_str old f s app_name msgid message w).1 in
    elim (stumpless_load_entry_str-LoadsMessage old f s app_name msgid message w) [
      | inl (_, _, (e, r, new, _, _, _, owned, _)) ↦
          rw r (unchecked_unload_entry-Owns e w w1 new.9 owned)
      | inr (r, balanced, _, _) ↦ rw r balanced
    ]

stored-IsText :
    (max : ℕ) (s : Option Bytes) (name : Bytes) (len : ℕ)
    → 1 ≤ max
    → IsAccepted max s
    → name ≡ or_dash s
    → len ≡ length (or_dash s)
    → IsText max name len
stored-IsText max none name len positive accepted same size = (
  ap length same ∙ sym size,
  omega (arith, size),
  subst (All IsPrintable) (sym same) (omega arith),
)
stored-IsText max (some s) name len positive (short, chars) same size =
    (ap length same ∙ sym size, omega (arith, size), subst (All IsPrintable) (sym same) chars)

pub IsNew-IsValid :
    (f s : ℤ) (app_name msgid : Option Bytes) (e : Entry)
    → facility_is_invalid f ≡ false
    → severity_is_invalid s ≡ false
    → IsAccepted 48 app_name
    → IsAccepted 32 msgid
    → IsNew f s app_name msgid e.message e.message_length e
    → IsCounted e.message e.message_length
    → IsValid e
IsNew-IsValid f s app_name msgid e good fine named identified new counted =
    let (i, hi, g) = facility_valid_lem f good in
    let (j, hj, q) = severity_valid_lem s fine in
    (
      stored-IsText 48 app_name e.app_name e.app_name_length (omega arith) named new.0 new.1,
      stored-IsText 32 msgid e.msgid e.msgid_length (omega arith) identified new.2 new.3,
      inl new.4,
      inl new.5,
      counted,
      subst IsPrival (sym new.8) (get_prival-small f s i j hi hj g q),
    )

-- An entry that stumpless_load_entry_str makes with a facility and a severity of RFC 5424 is well-
-- formed: its texts are counted, printable and within their limits, and its priority value is one.
pub load_entry_str-IsValid :
    (old : Entry) (f s : ℤ) (app_name msgid message : Option Bytes) (w : World)
    → facility_is_invalid f ≡ false
    → severity_is_invalid s ≡ false
    → let result = (stumpless_load_entry_str old f s app_name msgid message w).0 in
      (result ≡ none) ⊎ ((e : Entry) × (result ≡ some e) × IsValid e)
load_entry_str-IsValid old f s app_name msgid message w good fine =
    elim (stumpless_load_entry_str-LoadsMessage old f s app_name msgid message w) [
      | inr (r, _, _, _) ↦ inl r
      | inl (named, identified, (e, r, new, _, _, counted, _, _)) ↦
          inr (e, r, IsNew-IsValid f s app_name msgid e good fine named identified new counted)
    ]
