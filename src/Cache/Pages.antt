-- ===== src/Cache/Pages.antt =====
-- Freeing an entry, and a new page behind the others (src/cache.c).
use stumpless.Base.{
  ℕ, ◌*◌, ◌/◌, ◌<◌, ◌≡◌, ◌≢◌, refl, sym, [], ◌∷◌, ◌++◌, List, true, false, inl, inr, some, length,
  length-set, length-replicate, get_elem?, replicate, ap, ◌∙◌, set, ltb, ◌==◌, Bool-cases, arith,
}
use native.Mathlib.Nat.{mul-div_cancel}
use stumpless.Cache.{Page, take_first, free_entry}
use stumpless.Cache.Slots.{
  lock_of, KeepsOthers, Keeps, IsElsewhere, ArePages, take_here, take_behind,
}

module _ {A : Type 0} where
  -- Freeing an entry that is in a page.
  pub free_entry-frees :
      (n entry_size page_size b j v : ℕ) (ps : List (Page A))
      → 0 < entry_size
      → j * entry_size < page_size
      → ArePages n ps
      → j < n
      → lock_of ps b j ≡ some v
      → let ps' = free_entry entry_size page_size (b, j * entry_size) ps in
        (lock_of ps' b j ≡ some 0) × KeepsOthers ps b j ps' × Keeps n ps ps'
  unfolding free_entry
  free_entry-frees n entry_size page_size b j v [] positive offset pages small there =
      absurd (ground arith)
  free_entry-frees n entry_size page_size b j v (p ∷ ps) positive offset (len, apart, rest) small
        there =
      let index : (j * entry_size) / entry_size ≡ j = mul-div_cancel j positive in
      let inside : ltb (j * entry_size) page_size ≡ true = ground arith in
      elim (Bool-cases (p.block == b)) [
        | inl same ↦
            let here : p.block ≡ b = ground arith in
            let list : free_entry entry_size page_size (b, j * entry_size) (p ∷ ps)
                ≡ record p { locks = set p.locks j 0 } ∷ ps =
              rw (free_entry, same, inside, index) refl in
            rw list (take_here n b j 0 p ps here (len, apart, rest) small)
        | inr differs ↦
            let other : p.block ≢ b = ground arith in
            let (freed, kept, keeps) =
              free_entry-frees n entry_size page_size b j v ps positive offset rest small
                (rw differs at there) in
            rw (free_entry, differs)
              (take_behind n b j 0 p ps (free_entry entry_size page_size (b, j * entry_size) ps)
                other (len, apart, rest) freed kept keeps)
      ]

  lock_of-append_elsewhere :
      (b j : ℕ) (ps qs : List (Page A)) → IsElsewhere b ps → lock_of (ps ++ qs) b j ≡ lock_of qs b j
  lock_of-append_elsewhere b j [] qs h = refl
  lock_of-append_elsewhere b j (p ∷ ps) qs (other, h) =
      let differs : (p.block == b) ≡ false = ground arith in
      rw differs (lock_of-append_elsewhere b j ps qs h)

  lock_of-append_other :
      (b j : ℕ) (ps : List (Page A)) (q : Page A)
      → b ≢ q.block
      → lock_of (ps ++ q ∷ []) b j ≡ lock_of ps b j
  lock_of-append_other b j [] q other =
      let differs : (q.block == b) ≡ false = ground arith in rw differs refl
  lock_of-append_other b j (p ∷ ps) q other = elim (Bool-cases (p.block == b)) [
    | inl same ↦ rw same refl
    | inr differs ↦ rw differs (lock_of-append_other b j ps q other)
  ]

  pub IsElsewhere-append :
      (b : ℕ) (ps : List (Page A)) (q : Page A)
      → IsElsewhere b ps
      → q.block ≢ b
      → IsElsewhere b (ps ++ q ∷ [])
  IsElsewhere-append b [] q h other = (other, tt)
  IsElsewhere-append b (p ∷ ps) q h other = (h.0, IsElsewhere-append b ps q h.1 other)

  ArePages-append :
      (n : ℕ) (ps : List (Page A)) (q : Page A)
      → ArePages n ps
      → length q.locks ≡ n
      → IsElsewhere q.block ps
      → ArePages n (ps ++ q ∷ [])
  ArePages-append n [] q pages len apart = (len, tt, tt)
  ArePages-append n (p ∷ ps) q pages len apart = (
    pages.0,
    IsElsewhere-append p.block ps q pages.1 (λ e. apart.0 (sym e)),
    ArePages-append n ps q pages.2 len apart.1,
  )

  -- A page behind the others, its first entry taken.
  pub page_behind :
      (n : ℕ) (ps : List (Page A)) (page : Page A)
      → ArePages n ps
      → IsElsewhere page.block ps
      → page.locks ≡ replicate n 0
      → let new = ps ++ record page { locks = set page.locks 0 1 } ∷ [] in
        ArePages n new
        × ((j : ℕ) → lock_of new page.block j ≡ get_elem? (set (replicate n 0) 0 1) j)
        × ((b j : ℕ) → b ≢ page.block → lock_of new b j ≡ lock_of ps b j)
  page_behind n ps page pages apart locks =
      let q : Page A = record page { locks = set page.locks 0 1 } in
      let itself : (page.block == page.block) ≡ true = ground arith in
      (
        ArePages-append n ps q pages
            (length-set page.locks 0 1 ∙ ap length locks ∙ length-replicate n 0) apart,
        λ j.
            lock_of-append_elsewhere page.block j ps (q ∷ []) apart
            ∙ rw itself (ap (λ l. get_elem? (set l 0 1) j) locks),
        λ b j other. lock_of-append_other b j ps q other,
      )

  pub take_first-append :
      (ps : List (Page A)) (q : Page A)
      → take_first (length ps) (ps ++ q ∷ [])
        ≡ (some (q.block, 0), ps ++ record q { locks = set q.locks 0 1 } ∷ [])
  unfolding take_first
  take_first-append [] q = refl
  take_first-append (p ∷ ps) q = rw (take_first, take_first-append ps q) refl
