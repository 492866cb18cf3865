-- ===== src/Cache/Slots.antt =====
-- The locks of the entries in a list of pages (src/cache.c).
use stumpless.Base.{
  ℕ, zero, suc, ◌+◌, ◌*◌, ◌<◌, ◌≡◌, ◌≢◌, refl, ap, ◌∙◌, sym, [], ◌∷◌, List, true, false, ◌⊎◌, inl,
  inr, Option, none, some, length, get_elem?, get_elem?-set_self, get_elem?-set_ne, length-set, set,
  ◌==◌, if◌then◌else◌, Bool-cases, arith,
}
use native.Mathlib.Numerals.{unary_clauses}
use stumpless.Cache.{Page, find_free, take_entry}

find_free-cases :
    (locks : List ℕ)
    → ((find_free locks ≡ none) × ((j : ℕ) → get_elem? locks j ≢ some 0))
      ⊎ ((j : ℕ) × (find_free locks ≡ some j) × (get_elem? locks j ≡ some 0) × (j < length locks))
unfolding find_free
find_free-cases [] = inl (refl, λ j e. ground arith)
find_free-cases (l ∷ locks) = elim (Bool-cases (l == 0)) [
  | inl free ↦ rw free (inr (0, refl, ap some (ground arith), omega arith))
  | inr taken ↦
      let here : l ≢ 0 = ground arith in
      rw taken (elim (find_free-cases locks) [
        | inl (missed, full) ↦ rw missed (inl (refl, others here full))
        | inr (j, hit, free, inside) ↦
            rw hit (inr (j + 1, refl, simp unary_clauses free, omega arith))
      ])
]
  where
    others :
        l ≢ 0 → ((j : ℕ) → get_elem? locks j ≢ some 0) → (j : ℕ) → get_elem? (l ∷ locks) j ≢ some 0
    others here full zero e = ground arith
    others here full (suc j) e = full j e

module _ {A : Type 0} where
  -- The lock of the entry `j` of the page at the block `b`.
  abbrev pub lock_of : List (Page A) → ℕ → ℕ → Option ℕ
  lock_of [] b j = none
  lock_of (p ∷ ps) b j = if p.block == b then get_elem? p.locks j else lock_of ps b j

  -- No lock but that of one entry differs.
  abbrev pub KeepsOthers : List (Page A) → ℕ → ℕ → List (Page A) → Type 0
  KeepsOthers ps b j ps' =
      (b' j' : ℕ) → ¬ ((b' ≡ b) × (j' ≡ j)) → lock_of ps' b' j' ≡ lock_of ps b' j'

  abbrev pub AreFull : List (Page A) → Type 0
  AreFull ps = (b j : ℕ) → lock_of ps b j ≢ some 0

  -- No page stands at a block.
  abbrev pub IsElsewhere : ℕ → List (Page A) → Type 0
  IsElsewhere b [] = Unit
  IsElsewhere b (p ∷ ps) = (p.block ≢ b) × IsElsewhere b ps

  -- The pages stand at blocks of their own and have `n` locks each.
  abbrev pub ArePages : ℕ → List (Page A) → Type 0
  ArePages n [] = Unit
  ArePages n (p ∷ ps) = (length p.locks ≡ n) × IsElsewhere p.block ps × ArePages n ps

  lock_of-elsewhere : (b j : ℕ) (ps : List (Page A)) → IsElsewhere b ps → lock_of ps b j ≡ none
  lock_of-elsewhere b j [] h = refl
  lock_of-elsewhere b j (p ∷ ps) (other, h) = elim (Bool-cases (p.block == b)) [
    | inl same ↦ absurd (other (ground arith))
    | inr differs ↦ rw differs (lock_of-elsewhere b j ps h)
  ]

  -- A list of pages whose entry `j` at `b` was free and is taken.
  abbrev pub Takes : List (Page A) → ℕ → ℕ → List (Page A) → Type 0
  Takes ps b j ps' = (lock_of ps b j ≡ some 0) × (lock_of ps' b j ≡ some 1) × KeepsOthers ps b j ps'

  abbrev pub Keeps : ℕ → List (Page A) → List (Page A) → Type 0
  Keeps n ps ps' = ArePages n ps' × ((b : ℕ) → IsElsewhere b ps → IsElsewhere b ps')

  pub take_here :
      (n b j v : ℕ) (p : Page A) (ps : List (Page A))
      → p.block ≡ b
      → ArePages n (p ∷ ps)
      → j < n
      → let ps' = record p { locks = set p.locks j v } ∷ ps in
        (lock_of ps' b j ≡ some v) × KeepsOthers (p ∷ ps) b j ps' × Keeps n (p ∷ ps) ps'
  take_here n b j v p ps here (len, apart, rest) inside =
      let itself : (p.block == b) ≡ true = ground arith in
      (
        rw itself (get_elem?-set_self p.locks j v (omega arith)),
        kept,
        ((length-set p.locks j v ∙ len, apart, rest), λ b' h. h),
      )
    where
      kept : KeepsOthers (p ∷ ps) b j (record p { locks = set p.locks j v } ∷ ps)
      kept b' j' other = elim (Bool-cases (p.block == b')) [
        | inr differs ↦ rw differs refl
        | inl same ↦
            let there : p.block ≡ b' = ground arith in
            rw same (get_elem?-set_ne p.locks v (λ e. other (sym there ∙ here, sym e)))
      ]

  -- What holds of the pages behind one holds with it.
  pub take_behind :
      (n b j v : ℕ) (p : Page A) (ps ps' : List (Page A))
      → p.block ≢ b
      → ArePages n (p ∷ ps)
      → lock_of ps' b j ≡ some v
      → KeepsOthers ps b j ps'
      → Keeps n ps ps'
      → (lock_of (p ∷ ps') b j ≡ some v)
        × KeepsOthers (p ∷ ps) b j (p ∷ ps')
        × Keeps n (p ∷ ps) (p ∷ ps')
  take_behind n b j v p ps ps' other (len, apart, rest) taken kept (pages, elsewhere) = (
    elim (Bool-cases (p.block == b)) [
      | inl same ↦ absurd (other (ground arith))
      | inr differs ↦ rw differs taken
    ],
    λ b' j' o. elim (Bool-cases (p.block == b')) [
      | inl same ↦ rw same refl
      | inr differs ↦ rw differs (kept b' j' o)
    ],
    ((len, elsewhere p.block apart, pages), λ b' h. (h.0, elsewhere b' h.1)),
  )

  pub take_entry-cases :
      (n entry_size : ℕ) (ps : List (Page A))
      → ArePages n ps
      → ((take_entry entry_size ps ≡ none) × AreFull ps)
        ⊎ ((b : ℕ) × (j : ℕ) × (ps' : List (Page A)) × (j < n)
            × (take_entry entry_size ps ≡ some ((b, j * entry_size), ps'))
            × (lock_of ps b j ≡ some 0)
            × (lock_of ps' b j ≡ some 1)
            × KeepsOthers ps b j ps'
            × Keeps n ps ps')
  unfolding take_entry
  take_entry-cases n entry_size [] v = inl (refl, λ b j e. ground arith)
  take_entry-cases n entry_size (p ∷ ps) (len, apart, rest) = elim (find_free-cases p.locks) [
    | inr (j, hit, free, inside) ↦
        let small : j < n = omega arith in
        let (taken, kept, keeps) = take_here n p.block j 1 p ps refl (len, apart, rest) small in
        let itself : (p.block == p.block) ≡ true = ground arith in
        rw (take_entry, hit) (inr (p.block, j, _, small, refl, rw itself free, taken, kept, keeps))
    | inl (missed, full) ↦ elim (take_entry-cases n entry_size ps rest) [
      | inl (none_behind, behind) ↦
          rw (take_entry, missed, none_behind) (inl (refl, full_with full behind))
      | inr (b, j, ps', small, hit, free, taken, kept, keeps) ↦
          let other : p.block ≢ b =
            λ e. cc (free, lock_of-elsewhere p.block j ps apart, ap (λ a. lock_of ps a j) e) in
          let (taken', kept', keeps') =
            take_behind n b j 1 p ps ps' other (len, apart, rest) taken kept keeps in
          let differs : (p.block == b) ≡ false = ground arith in
          rw (take_entry, missed, hit)
            (inr (b, j, p ∷ ps', small, refl, rw differs free, taken', kept', keeps'))
    ]
  ]
    where
      full_with : ((j : ℕ) → get_elem? p.locks j ≢ some 0) → AreFull ps → AreFull (p ∷ ps)
      full_with full behind b j e = elim (Bool-cases (p.block == b)) [
        | inl same ↦ full j (rw same at e)
        | inr differs ↦ behind b j (rw differs at e)
      ]
