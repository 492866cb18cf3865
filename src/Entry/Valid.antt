-- ===== src/Entry/Valid.antt =====
-- What always holds of an entry, whatever calls of the setters of src/entry.c it has seen.
pub mod Run
use stumpless.Base.{
  ℕ, ◌+◌, ◌≤◌, ◌<◌, ◌≡◌, refl, [], ◌∷◌, List, Bytes, Bool, ◌⊎◌, inl, inr, Option, none, some, All,
  length, take, take_all, Bool-cases, arith,
}
use stumpless.Base.Int.{ℤ, pos}
use stumpless.World.{World, alloc_mem}
use stumpless.Validate.Names.{IsPrintable, validate_ascii_names}
use stumpless.Facility.{facility_is_invalid, get_facility}
use stumpless.Severity.{severity_is_invalid, get_severity}
use stumpless.Prival.Parts.{
  facility_valid_lem, severity_valid_lem, get_facility-small, get_severity-small, get_prival-small,
}
use stumpless.Param.{copy_cstring_with_length}
use stumpless.Entry.{
  Entry, set_app_name, set_msgid, set_hostname, set_procid, set_facility, set_severity,
  set_priority, set_prival, set_new_message, set_message_str,
}

-- A text of printable ASCII with its length.
abbrev pub IsText : ℕ → Bytes → ℕ → Type 0
IsText max s n = (length s ≡ n) × (n ≤ max) × All IsPrintable s

-- A priority value of RFC 5424.
abbrev pub IsPrival : ℤ → Type 0
IsPrival z = (p : ℕ) × (p < 192) × (z ≡ pos p)

abbrev pub IsCounted : Option (ℕ × Bytes) → ℕ → Type 0
IsCounted none n = n ≡ 0
IsCounted (some message) n = length message.1 ≡ n

-- The texts are counted and printable, the message is counted, and the priority value is one.
abbrev pub IsValid : Entry → Type 0
IsValid e =
    IsText 48 e.app_name e.app_name_length
    × IsText 32 e.msgid e.msgid_length
    × ((e.hostname_length ≡ 0) ⊎ IsText 255 e.hostname e.hostname_length)
    × ((e.procid_length ≡ 0) ⊎ IsText 128 e.procid e.procid_length)
    × IsCounted e.message e.message_length
    × IsPrival e.prival

whole : (s : Bytes) → take (length s) s ≡ s
whole s = take_all (length s) s (omega arith)

pub set_app_name-IsValid :
    (s : Option Bytes) (e : Entry) (w : World) → IsValid e → IsValid (set_app_name s e w).1
unfolding set_app_name
set_app_name-IsValid none e w (a, m, h, p, c, z) = (omega arith, m, h, p, c, z)
set_app_name-IsValid (some s) e w (a, m, h, p, c, z) = elim ((validate_ascii_names s w).0) [
  | inl (len, chars, r) ↦ rw (r, whole s) ((refl, len, chars), m, h, p, c, z)
  | inr (inl (_, r)) ↦ rw r (a, m, h, p, c, z)
  | inr (inr (_, _, r)) ↦ rw r (a, m, h, p, c, z)
]

pub set_msgid-IsValid :
    (s : Option Bytes) (e : Entry) (w : World) → IsValid e → IsValid (set_msgid s e w).1
unfolding set_msgid
set_msgid-IsValid none e w (a, m, h, p, c, z) = (a, omega arith, h, p, c, z)
set_msgid-IsValid (some s) e w (a, m, h, p, c, z) = elim ((validate_ascii_names s w).2) [
  | inl (len, chars, r) ↦ rw (r, whole s) (a, (refl, len, chars), h, p, c, z)
  | inr (inl (_, r)) ↦ rw r (a, m, h, p, c, z)
  | inr (inr (_, _, r)) ↦ rw r (a, m, h, p, c, z)
]

pub set_hostname-IsValid :
    (s : Option Bytes) (e : Entry) (w : World) → IsValid e → IsValid (set_hostname s e w).1
unfolding set_hostname
set_hostname-IsValid none e w (a, m, h, p, c, z) = (a, m, inl refl, p, c, z)
set_hostname-IsValid (some s) e w (a, m, h, p, c, z) = elim ((validate_ascii_names s w).1) [
  | inl (len, chars, r) ↦ rw (r, whole s) (a, m, inr (refl, len, chars), p, c, z)
  | inr (inl (_, r)) ↦ rw r (a, m, h, p, c, z)
  | inr (inr (_, _, r)) ↦ rw r (a, m, h, p, c, z)
]

pub set_procid-IsValid :
    (s : Option Bytes) (e : Entry) (w : World) → IsValid e → IsValid (set_procid s e w).1
unfolding set_procid
set_procid-IsValid none e w (a, m, h, p, c, z) = (a, m, h, inl refl, c, z)
set_procid-IsValid (some s) e w (a, m, h, p, c, z) = elim ((validate_ascii_names s w).3) [
  | inl (len, chars, r) ↦ rw (r, whole s) (a, m, h, inr (refl, len, chars), c, z)
  | inr (inl (_, r)) ↦ rw r (a, m, h, p, c, z)
  | inr (inr (_, _, r)) ↦ rw r (a, m, h, p, c, z)
]

set_new_message-cases :
    (s : Bytes) (e : Entry) (w : World)
    → ((set_new_message s e w).1 ≡ e)
      ⊎ ((set_new_message s e w).1
          ≡ record e { message = some (w.calls, s); message_length = length s })
unfolding set_new_message copy_cstring_with_length alloc_mem
set_new_message-cases s e w = elim (Bool-cases (w.malloc w.calls (length s + 1))) [
  | inl granted ↦ inr (ground arith)
  | inr refused ↦ inl (ground arith)
]

pub set_message-IsValid :
    (s : Option Bytes) (e : Entry) (w : World) → IsValid e → IsValid (set_message_str s e w).1
unfolding set_message_str
set_message-IsValid none e w (a, m, h, p, c, z) = (a, m, h, p, refl, z)
set_message-IsValid (some s) e w (a, m, h, p, c, z) = elim (set_new_message-cases s e w) [
  | inl r ↦ rw r (a, m, h, p, c, z)
  | inr r ↦ rw r (a, m, h, p, refl, z)
]

pub set_facility-IsValid :
    (f : ℤ) (e : Entry) (w : World) → IsValid e → IsValid (set_facility f e w).1
unfolding set_facility
set_facility-IsValid f e w (a, m, h, p, c, (n, small, z)) =
    elim (Bool-cases (facility_is_invalid f)) [
      | inl bad ↦ rw bad (a, m, h, p, c, (n, small, z))
      | inr good ↦
          let (i, hi, g) = facility_valid_lem f good in
          let (s, hs, q) = get_severity-small n small in
          rw good (a, m, h, p, c, get_prival-small f (get_severity e.prival) i s hi hs g (rw z q))
    ]

pub set_severity-IsValid :
    (s : ℤ) (e : Entry) (w : World) → IsValid e → IsValid (set_severity s e w).1
unfolding set_severity
set_severity-IsValid s e w (a, m, h, p, c, (n, small, z)) =
    elim (Bool-cases (severity_is_invalid s)) [
      | inl bad ↦ rw bad (a, m, h, p, c, (n, small, z))
      | inr good ↦
          let (j, hj, q) = severity_valid_lem s good in
          let (i, hi, g) = get_facility-small n small in
          rw good (a, m, h, p, c, get_prival-small (get_facility e.prival) s i j hi hj (rw z g) q)
    ]

pub set_priority-IsValid :
    (f s : ℤ) (e : Entry) (w : World) → IsValid e → IsValid (set_priority f s e w).1
unfolding set_priority
set_priority-IsValid f s e w (a, m, h, p, c, z) = elim (Bool-cases (facility_is_invalid f)) [
  | inl bad ↦ rw bad (a, m, h, p, c, z)
  | inr good ↦ elim (Bool-cases (severity_is_invalid s)) [
    | inl bad ↦ rw (good, bad) (a, m, h, p, c, z)
    | inr fine ↦
        let (i, hi, g) = facility_valid_lem f good in
        let (j, hj, q) = severity_valid_lem s fine in
        rw (good, fine) (a, m, h, p, c, get_prival-small f s i j hi hj g q)
  ]
]
