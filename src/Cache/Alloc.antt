-- ===== src/Cache/Alloc.antt =====
-- What `cache_alloc` and `cache_free` do to the entries in use (src/cache.c).
use stumpless.Base.{
  ℕ, ◌+◌, ◌*◌, ◌<◌, ◌≤◌, ◌≡◌, ◌≢◌, refl, ap, [], ◌∷◌, ◌++◌, List, true, ◌⊎◌, inl, inr, Option, none,
  some, length, get_elem?, set, replicate, length-replicate, Bool-cases, arith,
}
use native.Mathlib.Nat.{le-div_iff_mul-le}
use stumpless.World.{World, alloc_mem, realloc_mem, realloc_array, lock_mutex, unlock-lock}
use stumpless.Cache.{
  Callback, Page, Cache, entries_per_page, call_each, clear_page, add_page, cache_alloc, cache_free,
}
use stumpless.Cache.Slots.{lock_of, KeepsOthers, AreFull, IsElsewhere, ArePages, take_entry-cases}
use stumpless.Cache.Pages.{free_entry-frees, IsElsewhere-append, page_behind, take_first-append}

realloc_array-calls :
    (mem : Option ℕ) (count size : ℕ) (w : World)
    → let (r, w') = realloc_array mem count size w in
      (w.calls ≤ w'.calls)
      × (((r ≡ none) × (w'.error_valid ≡ true)) ⊎ ((block : ℕ) × (r ≡ some block)))
unfolding realloc_array alloc_mem realloc_mem
realloc_array-calls none count size w = (ground arith, ground arith)
realloc_array-calls (some mem) count size w = (ground arith, ground arith)

module _ {A : Type 0} where
  -- No page stands at the block of the request `n` or of a later one.
  abbrev pub AreOld : ℕ → List (Page A) → Type 0
  AreOld n ps = (m : ℕ) → n ≤ m → IsElsewhere m ps

  -- An entry with its lock fits into a page, and the pages are the cache's own.
  pub record IsValid (c : Cache A) (w : World) : Type 0 where
    pub positive : 0 < c.entry_size
    pub fits : c.entry_size < c.page_size
    pub pages : ArePages (entries_per_page c) c.pages
    pub old : AreOld w.calls c.pages

  entries_per_page_positive : (c : Cache A) (w : World) → IsValid c w → 0 < entries_per_page c
  entries_per_page_positive c w v =
      ((le-div_iff_mul-le {k = c.entry_size + 1} {x = 1} {y = c.page_size} (omega arith)).1
        (omega (arith, v.fits)))

  offset-inside :
      (c : Cache A) (w : World) (j : ℕ)
      → IsValid c w
      → j < entries_per_page c
      → j * c.entry_size < c.page_size
  offset-inside c w j v h =
      let le : (j + 1) * (c.entry_size + 1) ≤ c.page_size =
        (le-div_iff_mul-le {k = c.entry_size + 1} {x = j + 1} {y = c.page_size} (omega arith)).0
          (omega arith) in
      omega (arith, le)

  -- cache_free of an entry of a page of a valid cache opens its lock and no other, the cache stays
  -- valid, and the mutex is given back.
  pub cache_free-frees :
      (c : Cache A) (b j v : ℕ) (w : World)
      → IsValid c w
      → j < entries_per_page c
      → lock_of c.pages b j ≡ some v
      → let (c', w') = cache_free c (b, j * c.entry_size) w in
        IsValid c' w × (lock_of c'.pages b j ≡ some 0) × KeepsOthers c.pages b j c'.pages × (w' ≡ w)
  unfolding cache_free
  cache_free-frees c b j v w valid small there =
      let (freed, kept, (pages, elsewhere)) =
        free_entry-frees (entries_per_page c) c.entry_size c.page_size b j v c.pages valid.positive
          (offset-inside c w j valid small) valid.pages small there in
      (
        record {
          positive = valid.positive;
          fits = valid.fits;
          pages = pages;
          old = λ m le. elsewhere m (valid.old m le);
        },
        freed,
        kept,
        unlock-lock c.mutex w,
      )

  -- The callback does not take back the count of requests.
  abbrev pub IsLate : Option (Callback A) → Type 0
  IsLate none = Unit
  IsLate (some f) = (a : A) (w : World) → w.calls ≤ (f a w).1.calls

  call_each-late :
      (callback : Option (Callback A)) (entries : List A) (w : World)
      → IsLate callback
      → w.calls ≤ (call_each callback entries w).1.calls
  unfolding call_each
  call_each-late none entries w late = omega arith
  call_each-late (some f) [] w late = omega arith
  call_each-late (some f) (a ∷ entries) w late =
      omega (arith, late a w, call_each-late (some f) entries (f a w).1 late)

  -- A new page stands behind the others, at a block of its own and with every lock open.
  pub add_page-cases :
      (content : A) (c : Cache A) (w : World)
      → IsLate c.entry_init
      → let (r, c', w') = add_page content c w in
        (c'.entry_size ≡ c.entry_size)
        × (c'.page_size ≡ c.page_size)
        × (w.calls ≤ w'.calls)
        × (((r ≡ none) × (c'.pages ≡ c.pages) × (w'.error_valid ≡ true))
            ⊎ ((page : Page A) × (r ≡ some (length c.pages))
                × (c'.pages ≡ c.pages ++ page ∷ [])
                × (page.locks ≡ replicate (entries_per_page c) 0)
                × (w.calls ≤ page.block)
                × (page.block < w'.calls)))
  unfolding add_page clear_page alloc_mem
  add_page-cases content c w late =
      let (le, outcome) = realloc_array-calls c.pages_block (length c.pages + 1) 8 w in
      let w1 = (realloc_array c.pages_block (length c.pages + 1) 8 w).1 in
      elim outcome [
        | inl (refused, error) ↦ rw (add_page, refused) (refl, refl, le, inl (refl, refl, error))
        | inr (pages_block, granted) ↦ elim (Bool-cases (w1.malloc w1.calls c.page_size)) [
          | inr denied ↦
              let counted : (alloc_mem c.page_size w1).1.calls ≡ w1.calls + 1 =
                rw (alloc_mem, denied) refl in
              let failed : (alloc_mem c.page_size w1).1.error_valid ≡ true =
                rw (alloc_mem, denied) refl in
              rw (add_page, granted, denied)
                (refl, refl, omega (arith, le, counted), inl (refl, refl, failed))
          | inl given ↦
              let w2 : World = (alloc_mem c.page_size w1).1 in
              let counted : w2.calls ≡ w1.calls + 1 = rw (alloc_mem, given) refl in
              let later =
                call_each-late c.entry_init (replicate (entries_per_page c) content) w2 late in
              rw (add_page, granted, given)
                (
                  refl,
                  refl,
                  omega (arith, le, counted, later),
                  inr (
                    _,
                    refl,
                    refl,
                    ap (λ n. replicate n 0) (length-replicate (entries_per_page c) 0),
                    le,
                    omega (arith, counted, later),
                  ),
                )
        ]
      ]

  -- cache_alloc on a valid cache, whose callback for new entries does not take back the count of
  -- requests, hands out an entry that was free and takes its lock alone, without a request for
  -- memory; if every entry is in use, it hands out the first entry of a new page, or it gives
  -- NULL, keeps the pages and an error is reported. The cache stays valid.
  pub cache_alloc-hands_out :
      (content : A) (c : Cache A) (w : World)
      → IsValid c w
      → IsLate c.entry_init
      → let (r, c', w') = cache_alloc content c w in
        IsValid c' w'
        × (((b : ℕ) × (j : ℕ) × (j < entries_per_page c)
              × (r ≡ some (b, j * c.entry_size))
              × (lock_of c.pages b j ≡ some 0)
              × (lock_of c'.pages b j ≡ some 1)
              × KeepsOthers c.pages b j c'.pages
              × (w' ≡ w))
            ⊎ (AreFull c.pages
                × ((b : ℕ) × (r ≡ some (b, 0))
                    × IsElsewhere b c.pages
                    × ((j : ℕ)
                        → lock_of c'.pages b j
                          ≡ get_elem? (set (replicate (entries_per_page c) 0) 0 1) j)
                    × ((b' j : ℕ) → b' ≢ b → lock_of c'.pages b' j ≡ lock_of c.pages b' j)))
            ⊎ (AreFull c.pages × (r ≡ none) × (c'.pages ≡ c.pages) × (w'.error_valid ≡ true)))
  unfolding cache_alloc
  cache_alloc-hands_out content c w v late =
      let w1 = lock_mutex c.mutex w in
      elim (take_entry-cases (entries_per_page c) c.entry_size c.pages v.pages) [
        | inr (b, j, ps', small, hit, free, taken, kept, (pages, elsewhere)) ↦
            rw (cache_alloc, hit)
              (
                record {
                  positive = v.positive;
                  fits = v.fits;
                  pages = pages;
                  old = λ m le. elsewhere m (v.old m le);
                },
                inl (b, j, small, refl, free, taken, kept, unlock-lock c.mutex w),
              )
        | inl (missed, full) ↦
            let (size, page_size, le, outcome) = add_page-cases content c w1 late in
            elim outcome [
              | inl (refused, same, error) ↦
                  rw (cache_alloc, missed, refused)
                    (
                      record {
                        positive = rw size v.positive;
                        fits = rw (size, page_size) v.fits;
                        pages = rw (size, page_size, same) v.pages;
                        old = λ m h. rw same (v.old m (omega arith));
                      },
                      inr (inr (full, refl, same, error)),
                    )
              | inr (page, made, list, locks, late_block, early_block) ↦
                  let apart = v.old page.block late_block in
                  let (pages, new, others) =
                    page_behind (entries_per_page c) c.pages page v.pages apart locks in
                  rw (cache_alloc, missed, made, list, take_first-append c.pages page)
                    (
                      record {
                        positive = rw size v.positive;
                        fits = rw (size, page_size) v.fits;
                        pages = rw (size, page_size) pages;
                        old = λ m h.
                            IsElsewhere-append m c.pages _ (v.old m (omega arith))
                              (λ e. omega arith);
                      },
                      inr (inl (full, (page.block, refl, apart, new, others))),
                    )
            ]
      ]
