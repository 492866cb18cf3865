-- ===== src/Entry/Life/Load.antt =====
-- Loading entries into memory of the caller and unloading them (src/entry.c).
use stumpless.Base.{
  ℕ, ◌≤◌, ◌≡◌, refl, sym, ap, [], ◌∷◌, Bytes, true, false, ◌⊎◌, inl, inr, Option, none, some, All,
  length, take_all, arith,
}
use mathlib.Core.Path.{subst}
use stumpless.Base.Int.{ℤ}
use stumpless.World.{World}
use stumpless.World.Balance.{
  occurrences, Owns, IsBalanced, IsExhausted, IsBalanced-refl, assign_cached_mutex-effects,
}
use stumpless.Validate.Names.{IsPrintable, validate_ascii_names}
use stumpless.Prival.{get_prival}
use stumpless.Entry.{Entry}
use stumpless.Entry.Life.{load_app_name, load_msgid, load_named, load_rest, unchecked_load_entry}

-- A name as the functions that load entries accept it, and as they store it.
abbrev pub IsAccepted : ℕ → Option Bytes → Type 0
IsAccepted max none = Unit
IsAccepted max (some s) = (length s ≤ max) × All IsPrintable s

abbrev pub or_dash : Option Bytes → Bytes
or_dash none = b'-' ∷ []
or_dash (some s) = s

load_app_name-cases :
    (s : Option Bytes) (e : Entry) (w : World)
    → (IsAccepted 48 s
        × (load_app_name s e w
            ≡ (true, record e { app_name = or_dash s; app_name_length = length (or_dash s) }, w)))
      ⊎ ((¬ IsAccepted 48 s)
          × ((w' : World) × (load_app_name s e w ≡ (false, e, w'))
              × IsBalanced w w'
              × (w'.error_valid ≡ true)))
unfolding load_app_name
load_app_name-cases none e w = inl (tt, refl)
load_app_name-cases (some s) e w = elim ((validate_ascii_names s w).0) [
  | inl (len, chars, r) ↦ rw (r, take_all (length s) s (omega arith)) (inl ((len, chars), refl))
  | inr (inl (long, r)) ↦ rw r (inr (λ h. omega (arith, h.0), (_, refl, IsBalanced-refl w, refl)))
  | inr (inr (len, bad, r)) ↦ rw r (inr (λ h. bad h.1, (_, refl, IsBalanced-refl w, refl)))
]

load_msgid-cases :
    (s : Option Bytes) (e : Entry) (w : World)
    → (IsAccepted 32 s
        × (load_msgid s e w
            ≡ (true, record e { msgid = or_dash s; msgid_length = length (or_dash s) }, w)))
      ⊎ ((¬ IsAccepted 32 s)
          × ((w' : World) × (load_msgid s e w ≡ (false, e, w'))
              × IsBalanced w w'
              × (w'.error_valid ≡ true)))
unfolding load_msgid
load_msgid-cases none e w = inl (tt, refl)
load_msgid-cases (some s) e w = elim ((validate_ascii_names s w).2) [
  | inl (len, chars, r) ↦ rw (r, take_all (length s) s (omega arith)) (inl ((len, chars), refl))
  | inr (inl (long, r)) ↦ rw r (inr (λ h. omega (arith, h.0), (_, refl, IsBalanced-refl w, refl)))
  | inr (inr (len, bad, r)) ↦ rw r (inr (λ h. bad h.1, (_, refl, IsBalanced-refl w, refl)))
]

-- What a new entry holds.
abbrev pub IsNew : ℤ → ℤ → Option Bytes → Option Bytes → Option (ℕ × Bytes) → ℕ → Entry → Type 0
IsNew facility severity app_name msgid message message_length e =
    (e.app_name ≡ or_dash app_name)
    × (e.app_name_length ≡ length (or_dash app_name))
    × (e.msgid ≡ or_dash msgid)
    × (e.msgid_length ≡ length (or_dash msgid))
    × (e.hostname_length ≡ 0)
    × (e.procid_length ≡ 0)
    × (e.message ≡ message)
    × (e.message_length ≡ message_length)
    × (e.prival ≡ get_prival facility severity)
    × (e.elements_block ≡ none)
    × (e.elements ≡ [])

-- Why no entry is made: a name is not accepted, or a mutex or memory is not got.
abbrev pub IsRefused : Option Bytes → Option Bytes → World → Type 0
IsRefused app_name msgid w = (¬ IsAccepted 48 app_name) ⊎ (¬ IsAccepted 32 msgid) ⊎ IsExhausted w

-- An entry that is made has a mutex more than was there; none is made for a reason that is reported.
abbrev pub Loads :
    ℕ
    → ℤ
    → ℤ
    → Option Bytes
    → Option Bytes
    → Option (ℕ × Bytes)
    → ℕ
    → World
    → Option Entry × World
    → Type 0
Loads block f s app_name msgid m n w (result, w') =
    (IsAccepted 48 app_name
      × IsAccepted 32 msgid
      × ((e : Entry) × (result ≡ some e)
          × IsNew f s app_name msgid m n e
          × (e.block ≡ block)
          × Owns [] (e.mutex ∷ []) w w'
          × (w'.error_valid ≡ w.error_valid)))
    ⊎ ((result ≡ none) × IsBalanced w w' × (w'.error_valid ≡ true) × IsRefused app_name msgid w')

pub unchecked_load_entry-Loads :
    (old : Entry) (f s : ℤ) (app_name msgid : Option Bytes) (m : Option (ℕ × Bytes)) (n : ℕ)
    (w : World)
    → Loads old.block f s app_name msgid m n w (unchecked_load_entry old f s app_name msgid m n w)
unfolding unchecked_load_entry load_named load_rest
unchecked_load_entry-Loads old f s app_name msgid m n w =
    elim (load_app_name-cases app_name old w) [
      | inr (bad, (w1, r, balanced, error)) ↦
          subst (λ x. Loads old.block f s app_name msgid m n w (load_named f s msgid m n x)) (sym r)
            (inr (refl, balanced, error, inl bad))
      | inl (named, r) ↦
          let e1 : Entry = record old {
            app_name = or_dash app_name;
            app_name_length = length (or_dash app_name);
          } in
          subst (λ x. Loads old.block f s app_name msgid m n w (load_named f s msgid m n x)) (sym r)
            (elim (load_msgid-cases msgid e1 w) [
              | inr (bad, (w1, q, balanced, error)) ↦
                  subst (λ x. Loads old.block f s app_name msgid m n w (load_rest f s m n x))
                    (sym q) (inr (refl, balanced, error, inr (inl bad)))
              | inl (identified, q) ↦
                  let (live, held, outcome) = assign_cached_mutex-effects w in
                  subst (λ x. Loads old.block f s app_name msgid m n w (load_rest f s m n x))
                    (sym q)
                    (elim outcome [
                      | inl (a, mutexes, error) ↦
                          rw (load_rest, a)
                            (inl (
                              named,
                              identified,
                              (
                                _,
                                refl,
                                (refl, refl, refl, refl, refl, refl, refl, refl, refl, refl, refl),
                                refl,
                                (
                                  λ b. omega (arith, ap (occurrences b) live),
                                  λ b. omega (arith, ap (occurrences b) mutexes),
                                  held,
                                ),
                                error,
                              ),
                            ))
                      | inr (a, mutexes, oom) ↦
                          rw (load_rest, a)
                            (inr (
                              refl,
                              (
                                λ b. omega (arith, ap (occurrences b) live),
                                λ b. omega (arith, ap (occurrences b) mutexes),
                                held,
                              ),
                              oom.0,
                              inr (inr oom),
                            ))
                    ])
            ])
    ]
