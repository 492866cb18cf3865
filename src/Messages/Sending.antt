-- ===== src/Messages/Sending.antt =====
-- The entry that a message is sent in (src/target.c).
use stumpless.Base.{
  ◌+◌, ◌≡◌, refl, sym, Bytes, true, false, ◌⊎◌, inl, inr, Option, none, some, length, take,
  take_all, arith,
}
use mathlib.Core.Path.{subst}
use stumpless.Base.Int.{ℤ, negsuc}
use stumpless.World.{World}
use stumpless.World.Balance.{alloc_mem-effects}
use stumpless.Param.{copy_cstring_with_length}
use stumpless.Facility.{facility_is_invalid}
use stumpless.Severity.{severity_is_invalid}
use stumpless.Entry.{Entry, set_message_str, set_new_message}
use stumpless.Entry.Valid.{IsValid, IsText, IsPrival, set_message-IsValid}
use stumpless.Entry.Life.{stumpless_load_entry_str}
use stumpless.Entry.Life.Message.{
  message_text, stumpless_load_entry_str-LoadsMessage, IsNew-IsValid,
}
use stumpless.Target.{Target}
use stumpless.Target.Settings.Valid.{IsValid as IsValidTarget}
use stumpless.Messages.{
  facility_user, severity_info, addressed, send_cached, add_log, stumpless_add_log_str,
  stumpless_add_message_str,
}

abbrev IsValidCache : Option Entry → Type 0
IsValidCache none = Unit
IsValidCache (some e) = IsValid e

addressed-IsValid :
    (t : Target) (priority : ℤ) (e : Entry)
    → IsValidTarget t
    → IsPrival priority
    → IsValid e
    → IsValid (addressed t priority e)
addressed-IsValid t priority e ((an, al, ac), (mn, ml, mc), _) p (_, _, h, q, c, _) =
    let app : take t.default_app_name_length t.default_app_name ≡ t.default_app_name =
      take_all _ _ (omega (arith, an)) in
    let msg : take t.default_msgid_length t.default_msgid ≡ t.default_msgid =
      take_all _ _ (omega (arith, mn)) in
    (
      subst (λ s. IsText 48 s t.default_app_name_length) (sym app) (an, al, ac),
      subst (λ s. IsText 32 s t.default_msgid_length) (sym msg) (mn, ml, mc),
      h,
      q,
      c,
      p,
    )

set_message_str-cases :
    (message : Option Bytes) (e : Entry) (w : World)
    → let (done, e', w') = set_message_str message e w in
      ((done ≡ true) × (message_text e'.message ≡ message) × (w'.error_valid ≡ false))
      ⊎ ((done ≡ false) × (e' ≡ e) × (w'.error_valid ≡ true))
unfolding set_message_str set_new_message copy_cstring_with_length
set_message_str-cases none e w = inl (refl, refl, refl)
set_message_str-cases (some message) e w =
    let (_, _, _, outcome) = alloc_mem-effects (length message + 1) w in
    elim outcome [
      | inl (_, r, _, _) ↦ rw (set_new_message, r) (inl (refl, refl, refl))
      | inr (_, r, _, oom) ↦ rw (set_new_message, r) (inr (refl, refl, oom.0))
    ]

module _ {S : Type 0} (send : Target → Entry → S → World → ℤ × S × World) where
  -- The entry that is sent, and what came of sending it.
  abbrev pub IsSent : Target → ℤ → Option Bytes → S → ℤ × Option Entry × S × World → Type 0
  IsSent t priority message s (r, cached', s', w') =
      (e : Entry) × (w1 : World) × IsValid e
      × (e.prival ≡ priority)
      × (e.app_name ≡ t.default_app_name)
      × (e.msgid ≡ t.default_msgid)
      × (message_text e.message ≡ message)
      × (w1.error_valid ≡ false)
      × (cached' ≡ some e)
      × (let (result, s'', w'') = send t e s w1 in (r ≡ result) × (s' ≡ s'') × (w' ≡ w''))

  abbrev pub IsUnsent : S → ℤ × Option Entry × S × World → Type 0
  IsUnsent s (r, cached', s', w') =
      (r ≡ negsuc 0) × (s' ≡ s) × (w'.error_valid ≡ true) × IsValidCache cached'

  send_cached-IsSent :
      (blank : Entry) (t : Target) (priority : ℤ) (message : Option Bytes) (e : Entry) (s : S)
      (w : World)
      → IsValidTarget t
      → IsPrival priority
      → IsValid e
      → message_text e.message ≡ message
      → w.error_valid ≡ false
      → IsSent t priority message s (send_cached send blank t priority e s w)
  unfolding send_cached
  send_cached-IsSent blank t priority message e s w vt p v text clear =
      let (a, m, _) = vt in
      (
        addressed t priority e,
        w,
        addressed-IsValid t priority e vt p v,
        refl,
        take_all t.default_app_name_length t.default_app_name (omega (arith, a.0)),
        take_all t.default_msgid_length t.default_msgid (omega (arith, m.0)),
        text,
        clear,
        refl,
        (refl, refl, refl),
      )

  -- stumpless_add_log_str to a target with valid defaults, with a priority of RFC 5424 and the
  -- entry of the thread valid or not yet made, hands to stumpless_add_entry one well-formed entry
  -- with the priority, the default names of the target and the message, without an error pending,
  -- keeps it for the next message and passes on what the send gave; or it gives -1, sends nothing,
  -- an error is reported and the entry of the thread, if there is one, is still well-formed.
  pub stumpless_add_log_str-IsSent :
      (blank : Entry) (t : Target) (priority : ℤ) (message : Option Bytes) (cached : Option Entry)
      (s : S) (w : World)
      → IsValidTarget t
      → IsPrival priority
      → IsValidCache cached
      → let result = stumpless_add_log_str send blank (some t) priority message cached s w in
        IsSent t priority message s result ⊎ IsUnsent s result
  unfolding stumpless_add_log_str add_log facility_is_invalid severity_is_invalid
  stumpless_add_log_str-IsSent blank t priority message (some e) s w vt p v =
      let kept = set_message-IsValid message e w v in
      let e' = (set_message_str message e w).1 in
      let w1 = (set_message_str message e w).2 in
      elim (set_message_str-cases message e w) [
        | inl (done, text, clear) ↦
            rw (add_log, done)
              (inl (send_cached-IsSent blank t priority message e' s w1 vt p kept text clear))
        | inr (done, _, error) ↦ rw (add_log, done) (inr (refl, refl, error, kept))
      ]
  stumpless_add_log_str-IsSent blank t priority message none s w vt p v =
      let loaded = stumpless_load_entry_str blank facility_user severity_info none none message w in
      elim (stumpless_load_entry_str-LoadsMessage blank facility_user severity_info none none
        message w) [
          | inr (r, _, error, _) ↦ rw (add_log, r) (inr (refl, refl, error, tt))
          | inl (named, identified, (e, r, new, _, text, counted, _, clear)) ↦
              let kept =
                IsNew-IsValid facility_user severity_info none none e refl refl named identified new
                  counted in
              rw (add_log, r)
                (inl
                  (send_cached-IsSent blank t priority message e s loaded.1 vt p kept text clear))
        ]

  pub stumpless_add_message_str-IsSent :
      (blank : Entry) (t : Target) (message : Option Bytes) (cached : Option Entry) (s : S)
      (w : World)
      → IsValidTarget t
      → IsValidCache cached
      → let result = stumpless_add_message_str send blank (some t) message cached s w in
        IsSent t t.default_prival message s result ⊎ IsUnsent s result
  unfolding stumpless_add_message_str
  stumpless_add_message_str-IsSent blank t message cached s w vt v =
      stumpless_add_log_str-IsSent blank t t.default_prival message cached s w vt vt.2 v
