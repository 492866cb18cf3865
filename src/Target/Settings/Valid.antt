-- ===== src/Target/Settings/Valid.antt =====
-- What the settings of a target always are (src/target.c).
use stumpless.Base.{
  ℕ, ◌+◌, ◌*◌, ◌≡◌, refl, ap, ap₂, ◌∙◌, [], ◌∷◌, List, Bytes, Bool, inl, inr, Option, length, take,
  take_all, Bool-cases, arith,
}
use stumpless.Base.Int.{ℤ, pos}
use stumpless.World.{World}
use stumpless.Validate.Names.{validate_ascii_names}
use stumpless.Facility.{facility_is_invalid}
use stumpless.Severity.{get_severity}
use stumpless.Prival.Parts.{facility_valid_lem, get_severity-small}
use stumpless.Entry.Valid.{IsText, IsPrival}
use stumpless.Target.{Target, FilterFunc}
use stumpless.Target.Settings.{
  add_int, set_default_facility, set_option, unset_option, set_target_filter, set_target_mask,
  set_target_default_app_name, set_target_default_msgid,
}

-- The texts are counted and printable, and the priority value is one of RFC 5424.
abbrev pub IsValid : Target → Type 0
IsValid t =
    IsText 48 t.default_app_name t.default_app_name_length
    × IsText 32 t.default_msgid t.default_msgid_length
    × IsPrival t.default_prival

-- A call of a setter.
pub data Setting : Type 0 where
  default_facility : ℤ → Setting
  option unoption mask : ℕ → Setting
  filter : Option FilterFunc → Setting
  default_app_name default_msgid : Bytes → Setting

pub set_one : Setting → Target → World → Bool × Target × World
set_one (default_facility f) = set_default_facility f
set_one (option n) = set_option n
set_one (unoption n) = unset_option n
set_one (mask n) = set_target_mask n
set_one (filter f) = set_target_filter f
set_one (default_app_name s) = set_target_default_app_name s
set_one (default_msgid s) = set_target_default_msgid s

pub set_all : List Setting → Target → World → Target × World
set_all [] t w = (t, w)
set_all (s ∷ settings) t w = let (done, t', w') = set_one s t w in set_all settings t' w'

whole : (s : Bytes) → take (length s) s ≡ s
whole s = take_all (length s) s (omega arith)

set_default_facility-IsValid :
    (f : ℤ) (t : Target) (w : World) → IsValid t → IsValid (set_default_facility f t w).1
unfolding set_default_facility
set_default_facility-IsValid f t w (a, m, (n, small, z)) =
    elim (Bool-cases (facility_is_invalid f)) [
      | inl bad ↦ rw bad (a, m, (n, small, z))
      | inr good ↦
          let (i, hi, g) = facility_valid_lem f good in
          let (s, hs, q) = get_severity-small n small in
          let sum : add_int f (get_severity t.default_prival) ≡ pos (i * 8 + s) =
            ap₂ add_int g (ap get_severity z ∙ q) in
          rw good (a, m, (i * 8 + s, omega arith, sum))
    ]

set_one-IsValid : (s : Setting) (t : Target) (w : World) → IsValid t → IsValid (set_one s t w).1
unfolding set_one set_option unset_option set_target_filter set_target_mask
    set_target_default_app_name set_target_default_msgid
set_one-IsValid (default_facility f) t w v = set_default_facility-IsValid f t w v
set_one-IsValid (option n) t w v = v
set_one-IsValid (unoption n) t w v = v
set_one-IsValid (mask n) t w v = v
set_one-IsValid (filter f) t w v = v
set_one-IsValid (default_app_name s) t w (a, m, z) = elim ((validate_ascii_names s w).0) [
  | inl (len, chars, r) ↦ rw (r, whole s) ((refl, len, chars), m, z)
  | inr (inl (_, r)) ↦ rw r (a, m, z)
  | inr (inr (_, _, r)) ↦ rw r (a, m, z)
]
set_one-IsValid (default_msgid s) t w (a, m, z) = elim ((validate_ascii_names s w).2) [
  | inl (len, chars, r) ↦ rw (r, whole s) (a, (refl, len, chars), z)
  | inr (inl (_, r)) ↦ rw r (a, m, z)
  | inr (inr (_, _, r)) ↦ rw r (a, m, z)
]

-- Whatever setters are called on a valid target, with whatever arguments and whether they succeed
-- or not, its default application name and message id stay counted, printable and within their
-- limits, and its default priority value stays one of RFC 5424.
pub set_all-IsValid :
    (settings : List Setting) (t : Target) (w : World)
    → IsValid t
    → IsValid (set_all settings t w).0
unfolding set_all
set_all-IsValid [] t w v = v
set_all-IsValid (s ∷ settings) t w v =
    set_all-IsValid settings (set_one s t w).1 (set_one s t w).2 (set_one-IsValid s t w v)
