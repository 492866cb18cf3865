-- ===== src/Tests/Entry.antt =====
-- Entries of src/entry.c with concrete elements.
use stumpless.Base.{
  ℕ, ◌≡◌, ◌≢◌, refl, [], ◌∷◌, ◌++◌, List, true, false, none, some, Option, ◌⊎◌, inl, All, Bytes,
  codes, length, replicate, ◌==◌, if◌then◌else◌, arith,
}
use stumpless.Base.Int.{pos, negsuc}
use stumpless.Base.Search.{IsFirst}
use stumpless.World.{World, clear_error, raise_duplicate_element, raise_element_not_found}
use stumpless.Validate.Utf8.Accepted.{no_error}
use stumpless.Element.{Element}
use stumpless.Entry.{Entry}
use stumpless.Entry.Valid.{IsValid}
use stumpless.Entry.Valid.Run.{Call, hostname, message, message_format, priority}
use stumpless.Entry.Elements.{
  add_element, get_element_by_name, entry_has_element, get_element_index,
}
use stumpless.Entry.Elements.Distinct.{
  AreDistinct, HasOtherName, HasElement, IsRefused, add_element-AreDistinct,
}
use stumpless.Entry.Elements.Lookup.{
  BeginsWith, get_element_by_name-IsFirst, get_element_index-IsFirst,
}

-- The element 2 is called "origins", the element 4 "origin" and every other one "meta".
abbrev pub store : ℕ → Element
store e =
    let name : Bytes =
      if e == 2 then codes "origins" else if e == 4 then codes "origin" else codes "meta" in
    record {
      block = e;
      name = name;
      name_length = length name;
      params_block = none;
      params = [];
      mutex = e;
    }

abbrev pub entry : Entry
entry = record {
  block = 0;
  app_name = codes "app";
  app_name_length = 3;
  msgid = codes "-";
  msgid_length = 1;
  hostname = [];
  hostname_length = 0;
  procid = [];
  procid_length = 0;
  message = some (1, codes "hi");
  message_length = 2;
  prival = pos 165;
  elements_block = some 3;
  elements = 2 ∷ 4 ∷ [];
  mutex = 9;
}

pub entry-IsValid : IsValid entry
entry-IsValid = (
  (refl, omega arith, omega arith),
  (refl, omega arith, omega arith),
  inl refl,
  inl refl,
  refl,
  (165, omega arith, refl),
)

abbrev junk : ℕ → Bytes
junk n = replicate n 7

-- Every format gives "hello".
abbrev printf : Bytes → Option Bytes × Option Bytes
printf s = (some (codes "hello"), none)

abbrev wide : List ℕ → World → Option (ℕ × Bytes) × World
wide s w = (none, w)

abbrev calls : List Call
calls =
    hostname (some (codes "here"))
    ∷ priority (pos 8) (negsuc 0)
    ∷ message none
    ∷ message_format (some (codes "%s"))
    ∷ []

entry-AreDistinct : AreDistinct store entry.elements
entry-AreDistinct = ((λ e. ground (arith, e), tt), (tt, tt))

add_element-AreDistinct_example :
    let (done, entry', w') = add_element store 6 entry no_error in
    (w'.held ≡ no_error.held)
    × ((All (HasOtherName store (codes "meta")) entry.elements
          × (done ≡ true)
          × (entry'.elements ≡ entry.elements ++ 6 ∷ [])
          × AreDistinct store entry'.elements
          × (w'.error_valid ≡ false))
        ⊎ (All (HasOtherName store (codes "meta")) entry.elements
            × (done ≡ false)
            × (entry' ≡ entry)
            × (w'.error_valid ≡ true)
            × (w'.live ≡ no_error.live)
            × IsRefused entry no_error)
        ⊎ (HasElement store entry (codes "meta")
            × (done ≡ false)
            × (entry' ≡ entry)
            × (w' ≡ raise_duplicate_element (clear_error no_error))))
add_element-AreDistinct_example = add_element-AreDistinct store 6 entry no_error entry-AreDistinct

get_element_by_name-IsFirst_example :
    (All (λ q. (store q).name ≢ codes "origin") entry.elements
      × (entry_has_element store entry (codes "origin") no_error ≡ (false, clear_error no_error))
      × (get_element_by_name store entry (codes "origin") no_error
          ≡ (none, raise_element_not_found (clear_error no_error))))
    ⊎ ((i : ℕ) × (element : ℕ) × IsFirst
          (λ q. (store q).name ≡ codes "origin")
          entry.elements
          i
          element
        × (entry_has_element store entry (codes "origin") no_error ≡ (true, clear_error no_error))
        × (get_element_by_name store entry (codes "origin") no_error
            ≡ (some element, clear_error no_error)))
get_element_by_name-IsFirst_example =
    get_element_by_name-IsFirst store entry (codes "origin") no_error (omega arith) (omega arith)

-- The search for "origin" stops at "origins".
get_element_index-IsFirst_example :
    (All (λ q. ¬ BeginsWith store (codes "origin") q) entry.elements
      × (get_element_index store entry (codes "origin") no_error
          ≡ (0, raise_element_not_found no_error)))
    ⊎ ((i : ℕ) × (element : ℕ) × IsFirst
          (BeginsWith store (codes "origin"))
          entry.elements
          i
          element
        × (get_element_index store entry (codes "origin") no_error ≡ (i, clear_error no_error)))
get_element_index-IsFirst_example =
    get_element_index-IsFirst store entry (codes "origin") no_error (omega arith) (omega arith)
