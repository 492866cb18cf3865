-- ===== src/Cache/New.antt =====
-- The size of a page, and a new cache (src/cache.c and `get_paged_size` of src/memory.c).
use stumpless.Base.{
  ℕ, zero, suc, ◌*◌, ◌%◌, ◌^◌, ◌<◌, ◌≤◌, ◌≡◌, refl, ap, ◌∙◌, [], ◌∷◌, true, ◌⊎◌, inl, inr, Option,
  none, some, length, length-replicate, replicate, ltb, Bool-cases, arith,
}
use native.Mathlib.Numerals.{unary_clauses}
use stumpless.World.{World, alloc_mem, realloc_pointer-cases}
use stumpless.Cache.{
  Callback, Page, Cache, entries_per_page, double_until, get_paged_size, cache_new, free_pointer,
}
use stumpless.Cache.Alloc.{IsValid, IsLate, add_page-cases}

doubled_times : (n k : ℕ) → (n * 2) * 2 ^ k ≡ n * 2 ^ suc k
doubled_times n k = simp unary_clauses (omega arith)

double_until-enough :
    (rounds paged_size size : ℕ)
    → size ≤ 2 ^ 63
    → size ≤ paged_size * 2 ^ rounds
    → let r = double_until rounds paged_size size in
      (size ≤ r)
      × (paged_size ≤ r)
      × ((r ≡ paged_size) ⊎ (r < 2 * size))
      × ((k : ℕ) × (r ≡ paged_size * 2 ^ k))
unfolding double_until
double_until-enough zero paged_size size small enough =
    (omega (arith, enough), omega arith, inl refl, (0, omega arith))
double_until-enough (suc rounds) paged_size size small enough =
    elim (Bool-cases (ltb paged_size size)) [
      | inr done ↦ rw (double_until, done) (ground arith, omega arith, inl refl, (0, omega arith))
      | inl more ↦
          let less : paged_size < size = ground arith in
          let kept : paged_size * 2 % 2 ^ 64 ≡ paged_size * 2 = omega (arith, less, small) in
          let power : paged_size * 2 ^ suc rounds ≡ (paged_size * 2) * 2 ^ rounds =
            simp unary_clauses (omega arith) in
          let (fits, grown, last, (k, times)) =
            double_until-enough rounds (paged_size * 2) size small (omega (arith, enough, power)) in
          rw (double_until, more, kept)
            (
              fits,
              omega (arith, grown),
              inr (elim last [ inl e ↦ omega (arith, e, less) | inr h ↦ h ]),
              (suc k, times ∙ doubled_times paged_size k),
            )
    ]

-- For a size of at most 2^63 and a page size that is not 0, 64 rounds end the loop of
-- get_paged_size: the result is the least of the page size, twice it, four times it and so on that
-- is at least the size: the page size times a power of two, at least the size, and the page size
-- or less than twice the size.
pub get_paged_size-enough :
    (page_size size : ℕ)
    → 0 < page_size
    → size ≤ 2 ^ 63
    → let r = get_paged_size page_size size in
      (size ≤ r)
      × (page_size ≤ r)
      × ((r ≡ page_size) ⊎ (r < 2 * size))
      × ((k : ℕ) × (r ≡ page_size * 2 ^ k))
unfolding get_paged_size
get_paged_size-enough page_size size positive small =
    double_until-enough 64 page_size size small (omega arith)

free_pointer_error : (o : Option ℕ) (w : World) → (free_pointer o w).error_valid ≡ w.error_valid
free_pointer_error none w = refl
free_pointer_error (some block) w = refl

module _ {A : Type 0} where
  -- cache_new, for entries that are smaller than the page that they get and a callback that does
  -- not take back the count of requests, makes a valid cache with one page, every lock of which is
  -- open, or it gives NULL and an error is reported.
  pub cache_new-IsValid :
      (sizeof_cache page_size mutex : ℕ) (content : A) (size : ℕ)
      (entry_init entry_teardown : Option (Callback A)) (w : World)
      → 0 < size
      → size < get_paged_size page_size size
      → IsLate entry_init
      → let (made, w') =
          cache_new sizeof_cache page_size mutex content size entry_init entry_teardown w in
        ((block : ℕ) × (c : Cache A) × (page : Page A) × (made ≡ some (block, c))
          × IsValid c w'
          × (c.entry_size ≡ size)
          × (c.pages ≡ page ∷ [])
          × (page.locks ≡ replicate (entries_per_page c) 0))
        ⊎ ((made ≡ none) × (w'.error_valid ≡ true))
  unfolding cache_new
  cache_new-IsValid sizeof_cache page_size mutex content size entry_init entry_teardown w positive
        fits late =
      let (w1, w2) : World × World =
        ((alloc_mem sizeof_cache w).1, (alloc_mem 8 (alloc_mem sizeof_cache w).1).1) in
      let (_, _, made_struct) = realloc_pointer-cases none sizeof_cache w in
      let (_, _, made_pages) = realloc_pointer-cases none 8 w1 in
      elim made_struct [
        | inr (refused, error, _, _) ↦ rw (cache_new, refused) (inr (refl, error))
        | inl (block, granted, _) ↦ elim made_pages [
          | inr (refused, error, _, _) ↦ rw (cache_new, granted, refused) (inr (refl, error))
          | inl (pages_block, given, _) ↦
              let c : Cache A = record {
                entry_init = entry_init;
                entry_teardown = entry_teardown;
                entry_size = size;
                pages_block = (alloc_mem 8 w1).0;
                pages = [];
                page_size = get_paged_size page_size size;
                mutex = mutex;
              } in
              let (same_size, same_page_size, le, outcome) = add_page-cases content c w2 late in
              elim outcome [
                | inl (failed, _, error) ↦
                    rw (cache_new, granted, given, failed)
                      (inr (refl, free_pointer_error _ _ ∙ error))
                | inr (page, index, list, locks, behind, before) ↦
                    rw (cache_new, granted, given, index)
                      (inl (
                        block,
                        _,
                        page,
                        refl,
                        record {
                          positive = rw same_size positive;
                          fits = rw (same_size, same_page_size) fits;
                          pages =
                              rw (same_size, same_page_size, list)
                                (ap length locks ∙ length-replicate _ 0, tt, tt);
                          old = λ m h. rw list ((λ e. omega arith), tt);
                        },
                        same_size,
                        list,
                        rw (same_size, same_page_size) locks,
                      ))
              ]
        ]
      ]
