-- ===== src/Dispatch/Options.antt =====
-- The options, the mask and the filter of a target (src/target.c and src/filter.c).
use stumpless.Base.{
  ℕ, ◌<◌, ◌⊎◌, ◌≡◌, refl, ap, ◌∙◌, Bytes, true, false, not, inl, inr, Option, none, some, bit_and,
  ◌==◌, Bool-cases, arith,
}
use stumpless.Base.Int.{pos}
use stumpless.World.{World, clear_error, unlock-lock}
use stumpless.Severity.{get_severity}
use stumpless.Entry.{Entry, lock_entry, unlock_entry}
use stumpless.StrBuilder.{StrBuilder}
use stumpless.Formatter.{Store, System, format_entry}
use stumpless.Target.{Target, mask_filter}
use stumpless.Target.Buffer.{BufferTarget}
use stumpless.Dispatch.{
  Others, is_null, option_odelay, severity_mask, stumpless_get_entry_severity,
  stumpless_get_target_mask, stumpless_mask_filter, stumpless_get_option, unchecked_get_option,
  stumpless_get_target_filter, call_filter, deliver, stumpless_add_entry,
}
use stumpless.Dispatch.Mask.{severity_bit, severity_mask-bit}

mask_filter_lem :
    (target : Target) (entry : Entry) (w : World)
    → stumpless_mask_filter target entry w
      ≡ (not (bit_and (severity_mask (get_severity entry.prival)) target.mask == 0), clear_error w)
unfolding stumpless_mask_filter stumpless_get_entry_severity stumpless_get_target_mask
mask_filter_lem target entry w =
    ap
      (λ v.
        (not (bit_and (severity_mask (get_severity entry.prival)) target.mask == 0), clear_error v))
      (unlock-lock target.mutex (clear_error (unlock_entry entry (lock_entry entry w)))
        ∙ ap clear_error (unlock-lock entry.mutex w))

pub get_target_filter_lem :
    (target : Target) (w : World)
    → stumpless_get_target_filter target w ≡ (target.filter, clear_error w)
unfolding stumpless_get_target_filter
get_target_filter_lem target w =
    ap (λ v. (target.filter, clear_error v)) (unlock-lock target.mutex w)

pub unchecked_get_option_lem :
    (target : Target) (option : ℕ) (w : World)
    → unchecked_get_option target option w ≡ (bit_and target.options option, w)
unfolding unchecked_get_option
unchecked_get_option_lem target option w =
    ap (λ v. (bit_and target.options option, v)) (unlock-lock target.mutex w)

pub get_option_lem :
    (target : Target) (option : ℕ) (w : World)
    → stumpless_get_option target option w ≡ (bit_and target.options option, clear_error w)
unfolding stumpless_get_option
get_option_lem target option w = rw (unchecked_get_option_lem target option w) refl

module _ (others : Others) where
  pub call_mask_filter :
      (target : Target) (entry : Entry) (w : World)
      → target.filter ≡ some mask_filter
      → call_filter others target.filter target entry w ≡ (
        not (bit_and (severity_mask (get_severity entry.prival)) target.mask == 0),
        clear_error w,
      )
  unfolding call_filter
  call_mask_filter target entry w masks =
      ap (λ f. call_filter others f target entry w) masks ∙ mask_filter_lem target entry w

module _ (others : Others) (system : System) (cached : Option (Option (ℕ × Bytes))) (page_size : ℕ)
    (store : Store) where
  -- The call of format_entry for a target.
  abbrev pub format_for : Target → Entry → World → Option StrBuilder × World
  format_for target entry w =
      let (builder, returned, w') =
        format_entry system cached page_size store entry target.options w in
      (builder, w')

  -- stumpless_add_entry with an entry of a priority value of RFC 5424 to a target with an id and
  -- the default filter, which does not open late and whose mask has 8 bits: where the bit of the
  -- mask for the rest of the priority value by 8 is not set, it does nothing but leave no error,
  -- and returns 0, whatever the type of the target; where it is set, the entry is delivered.
  pub add_entry-masked :
      (target : Target) (entry : Entry) (memory : BufferTarget) (id prival : ℕ) (w : World)
      → target.id ≡ some id
      → target.filter ≡ some mask_filter
      → bit_and target.options option_odelay ≡ 0
      → entry.prival ≡ pos prival
      → prival < 192
      → target.mask < 256
      → let result =
          stumpless_add_entry others system cached page_size store target entry memory w in
        ((severity_bit target.mask prival ≡ 0) × (result ≡ (pos 0, memory, none, clear_error w)))
        ⊎ ((severity_bit target.mask prival ≡ 1)
            × (result
                ≡ deliver others (format_for target entry) target entry memory (clear_error w)))
  unfolding stumpless_add_entry
  add_entry-masked target entry memory id prival w there masks prompt is small bits =
      let now : (bit_and target.options option_odelay == 0) ≡ true = ground arith in
      let known : is_null target.id ≡ false = ap is_null there in
      let filtered = call_mask_filter others target entry (clear_error w) masks in
      let tested : (bit_and (severity_mask (get_severity entry.prival)) target.mask == 0)
          ≡ (severity_bit target.mask prival == 0) =
        ap (λ z. bit_and (severity_mask (get_severity z)) target.mask == 0) is
        ∙ severity_mask-bit prival target.mask small bits in
      elim (Bool-cases (severity_bit target.mask prival == 0)) [
        | inl unset ↦
            let closed = tested ∙ unset in
            inl (
              ground (arith, unset),
              rw (stumpless_add_entry, known, now, get_target_filter_lem target w, filtered, closed)
                  refl,
            )
        | inr set ↦
            let opened = tested ∙ set in
            inr (
              ground (arith, set),
              rw (stumpless_add_entry, known, now, get_target_filter_lem target w, filtered, opened)
                  refl,
            )
      ]
