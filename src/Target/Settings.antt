-- ===== src/Target/Settings.antt =====
-- src/target.c: the setters of a target, behind their tests for NULL. They return whether they succeed, the target afterwards and the world. What the
-- arrays of a target hold behind their texts is not read.
pub mod Valid
use stumpless.Base.{
  ℕ, ◌+◌, ◌-◌, ◌^◌, [], ◌∷◌, List, Bytes, Bool, true, false, Option, none, some, take, bit_and,
  bit_or, leb, ◌==◌, if◌then◌else◌,
}
use stumpless.Base.Int.{ℤ, pos, negsuc}
use stumpless.World.{
  World, alloc_mem, free_mem, assign_cached_mutex, destroy_cached_mutex, clear_error,
  raise_invalid_facility,
}
use stumpless.Validate.{validate_app_name, validate_msgid}
use stumpless.Param.{copy_cstring_with_length}
use stumpless.Facility.{facility_is_invalid}
use stumpless.Severity.{get_severity}
use stumpless.Prival.{get_prival}
use stumpless.Target.{Target, TargetType, FilterFunc, mask_filter, lock_target, unlock_target}

-- `a + b` on values of `int` that do not overflow.
abbrev pub add_int : ℤ → ℤ → ℤ
add_int (pos a) (pos b) = pos (a + b)
add_int (pos a) (negsuc b) = if leb a b then negsuc (b - a) else pos (a - b - 1)
add_int (negsuc a) (pos b) = if leb b a then negsuc (a - b) else pos (b - a - 1)
add_int (negsuc a) (negsuc b) = negsuc (a + b + 1)

-- How most setters end.
abbrev pub settled : Target → Target → World → Bool × Target × World
settled target target' w =
    (true, target', clear_error (unlock_target target (lock_target target w)))

pub set_default_facility : ℤ → Target → World → Bool × Target × World
set_default_facility default_facility target w =
    if facility_is_invalid default_facility
    then (false, target, raise_invalid_facility default_facility w)
    else settled target
        (record target {
          default_prival = add_int default_facility (get_severity target.default_prival);
        })
        w

pub set_option : ℕ → Target → World → Bool × Target × World
set_option option target w =
    settled target (record target { options = bit_or target.options option }) w

pub unset_option : ℕ → Target → World → Bool × Target × World
unset_option option target w =
    settled target (record target { options = bit_and target.options (2 ^ 32 - 1 - option) }) w

pub set_target_filter : Option FilterFunc → Target → World → Bool × Target × World
set_target_filter filter target w = settled target (record target { filter = filter }) w

pub set_target_mask : ℕ → Target → World → Bool × Target × World
set_target_mask mask target w = settled target (record target { mask = mask }) w

pub set_target_default_app_name : Bytes → Target → World → Bool × Target × World
set_target_default_app_name app_name target w =
    let (valid, new_length, w1) = validate_app_name app_name w in
    if valid
    then (
      true,
      record target {
        default_app_name = take new_length app_name;
        default_app_name_length = new_length;
      },
      unlock_target target (lock_target target (clear_error w1)),
    )
    else (false, target, w1)

pub set_target_default_msgid : Bytes → Target → World → Bool × Target × World
set_target_default_msgid msgid target w =
    let (valid, new_length, w1) = validate_msgid msgid w in
    if valid
    then (
      true,
      record target { default_msgid = take new_length msgid; default_msgid_length = new_length },
      unlock_target target (lock_target target (clear_error w1)),
    )
    else (false, target, w1)
