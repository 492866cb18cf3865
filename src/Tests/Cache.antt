-- ===== src/Tests/Cache.antt =====
-- A cache of src/cache.c with pages of three entries.
use stumpless.Base.{
  ℕ, ◌*◌, ◌<◌, ◌≤◌, ◌≡◌, ◌^◌, ◌≢◌, refl, [], ◌∷◌, ◌⊎◌, none, some, true, get_elem?, set, replicate,
  arith,
}
use stumpless.World.{World}
use stumpless.Validate.Utf8.Accepted.{no_error}
use stumpless.Cache.{Cache, entries_per_page, get_paged_size, cache_alloc, cache_free}
use stumpless.Cache.Slots.{lock_of, KeepsOthers, AreFull, IsElsewhere}
use stumpless.Cache.Alloc.{IsValid, cache_alloc-hands_out, cache_free-frees}
use stumpless.Cache.New.{get_paged_size-enough}

abbrev world : World
world = record no_error { calls = 1; live = 0 ∷ [] }

-- The first entry is in use.
abbrev cache : Cache ℕ
cache = record {
  entry_init = none;
  entry_teardown = none;
  entry_size = 8;
  pages_block = none;
  pages = (record { block = 0; locks = 1 ∷ 0 ∷ 0 ∷ []; entries = 5 ∷ 6 ∷ 7 ∷ [] }) ∷ [];
  page_size = 27;
  mutex = 4;
}

cache-IsValid : IsValid cache world
cache-IsValid = record {
  positive = omega arith;
  fits = omega arith;
  pages = (refl, tt, tt);
  old = λ m le. ((λ e. omega arith), tt);
}

cache_alloc-hands_out_example :
    let (r, c', w') = cache_alloc 9 cache world in
    IsValid c' w'
    × (((b : ℕ) × (j : ℕ) × (j < entries_per_page cache)
          × (r ≡ some (b, j * 8))
          × (lock_of cache.pages b j ≡ some 0)
          × (lock_of c'.pages b j ≡ some 1)
          × KeepsOthers cache.pages b j c'.pages
          × (w' ≡ world))
        ⊎ (AreFull cache.pages
            × ((b : ℕ) × (r ≡ some (b, 0))
                × IsElsewhere b cache.pages
                × ((j : ℕ)
                    → lock_of c'.pages b j
                      ≡ get_elem? (set (replicate (entries_per_page cache) 0) 0 1) j)
                × ((b' j : ℕ) → b' ≢ b → lock_of c'.pages b' j ≡ lock_of cache.pages b' j)))
        ⊎ (AreFull cache.pages × (r ≡ none) × (c'.pages ≡ cache.pages) × (w'.error_valid ≡ true)))
cache_alloc-hands_out_example = cache_alloc-hands_out 9 cache world cache-IsValid tt

cache_free-frees_example :
    let (c', w') = cache_free cache (0, 0 * 8) world in
    IsValid c' world
    × (lock_of c'.pages 0 0 ≡ some 0)
    × KeepsOthers cache.pages 0 0 c'.pages
    × (w' ≡ world)
cache_free-frees_example = cache_free-frees cache 0 0 1 world cache-IsValid (omega arith) refl

get_paged_size-enough_example :
    let r = get_paged_size 4096 10000 in
    (10000 ≤ r) × (4096 ≤ r) × ((r ≡ 4096) ⊎ (r < 2 * 10000)) × ((k : ℕ) × (r ≡ 4096 * 2 ^ k))
get_paged_size-enough_example = get_paged_size-enough 4096 10000 (omega arith) (omega arith)

roomy : 64 < get_paged_size 4096 64
roomy =
    let (_, large, _, _) = get_paged_size-enough 4096 64 (omega arith) (omega arith) in
    omega (arith, large)
