-- ===== src/Entry/Getters/Copies.antt =====
-- What the getters of src/entry.c give for a well-formed entry.
use stumpless.Base.{
  ℕ, ◌+◌, ◌≡◌, refl, Bytes, inl, inr, false, Option, none, some, length, take, Bool-cases, take_all,
  arith,
}
use stumpless.World.{World, alloc_mem, remove-cons_self}
use stumpless.Param.Copy.{HandsOut}
use stumpless.Prival.{get_prival}
use stumpless.Prival.Enums.{get_prival-parts}
use stumpless.Entry.{Entry}
use stumpless.Entry.Valid.{IsValid, IsCounted}
use stumpless.Entry.Getters.{
  copy_of_text, stumpless_get_entry_app_name, stumpless_get_entry_msgid,
  stumpless_get_entry_message, stumpless_get_entry_prival, stumpless_get_entry_facility,
  stumpless_get_entry_severity,
}

copy_of_text-HandsOut :
    (e : Entry) (s : Bytes) (len : ℕ) (w : World)
    → length s ≡ len
    → HandsOut s w (copy_of_text e s len w)
unfolding alloc_mem
copy_of_text-HandsOut e s len w counted =
    let whole : take len s ≡ s = take_all len s (omega arith) in
    let unlocked = remove-cons_self e.mutex w.held in
    elim (Bool-cases (w.malloc w.calls (len + 1))) [
      | inr refused ↦
          (ground arith, ground (arith, unlocked), inr (ground arith, ground arith, ground arith))
      | inl granted ↦ (
        ground arith,
        ground (arith, unlocked),
        inl (ground (arith, whole), ground arith, ground arith),
      )
    ]

-- What stumpless_get_entry_message gives for a message.
abbrev pub HandsOutMessage : Option (ℕ × Bytes) → World → Option (ℕ × Bytes) × World → Type 0
HandsOutMessage none w (result, w') =
    (result ≡ none) × (w'.error_valid ≡ false) × (w'.held ≡ w.held)
HandsOutMessage (some message) w given = HandsOut message.1 w given

message-HandsOut :
    (e : Entry) (message : Option (ℕ × Bytes)) (w : World)
    → e.message ≡ message
    → IsCounted message e.message_length
    → HandsOutMessage message w (stumpless_get_entry_message (some e) w)
unfolding stumpless_get_entry_message
message-HandsOut e none w is counted = rw is (refl, refl, remove-cons_self e.mutex w.held)
message-HandsOut e (some message) w is counted =
    rw is (copy_of_text-HandsOut e message.1 e.message_length w counted)

-- The getters on a well-formed entry hand out its app name, its message id and its message with a
-- NUL in one new block each, or report that the memory ran out, with nothing else allotted; NULL
-- without an error is given where there is no message. The facility and the severity that they give
-- make up the priority value that they give. The lock is given back each time.
getters-HandsOut :
    (e : Entry) (w : World)
    → IsValid e
    → HandsOut e.app_name w (stumpless_get_entry_app_name (some e) w)
      × HandsOut e.msgid w (stumpless_get_entry_msgid (some e) w)
      × HandsOutMessage e.message w (stumpless_get_entry_message (some e) w)
      × (get_prival
            (stumpless_get_entry_facility (some e) w).0
            (stumpless_get_entry_severity (some e) w).0
          ≡ (stumpless_get_entry_prival (some e) w).0)
      × ((stumpless_get_entry_facility (some e) w).1.held ≡ w.held)
      × ((stumpless_get_entry_severity (some e) w).1.held ≡ w.held)
      × ((stumpless_get_entry_prival (some e) w).1.held ≡ w.held)
unfolding stumpless_get_entry_app_name stumpless_get_entry_msgid stumpless_get_entry_facility
    stumpless_get_entry_severity stumpless_get_entry_prival
getters-HandsOut e w ((app, _, _), (msg, _, _), _, _, counted, (p, small, is)) = (
  copy_of_text-HandsOut e e.app_name e.app_name_length w app,
  copy_of_text-HandsOut e e.msgid e.msgid_length w msg,
  message-HandsOut e e.message w refl counted,
  rw is (get_prival-parts p (omega arith)),
  remove-cons_self e.mutex w.held,
  remove-cons_self e.mutex w.held,
  remove-cons_self e.mutex w.held,
)
