-- ===== src/Cache.antt =====
-- src/cache.c: entries of one size in pages, each page with a lock for every entry behind them. An
-- entry is the block of its page and its offset there; `A` is what an entry holds.
pub mod Slots
pub mod Pages
pub mod Alloc
pub mod New
use stumpless.Base.{
  ℕ, zero, suc, ◌+◌, ◌*◌, ◌/◌, [], ◌∷◌, ◌++◌, List, Option, none, some, length, set, replicate, ltb,
  ◌==◌, ◌%◌, ◌^◌, ◌&&◌, if◌then◌else◌,
}
use stumpless.World.{World, alloc_mem, free_mem, realloc_array, lock_mutex, unlock_mutex}

-- `void ( * ) ( void * )`, on what the entry holds.
abbrev pub Callback : Type 0 → Type 0
Callback A = A → World → A × World

-- A page: one lock and what it holds for every entry.
pub record Page (A : Type 0) : Type 0 where
  pub block : ℕ
  pub locks : List ℕ
  pub entries : List A

-- `struct cache`
pub record Cache (A : Type 0) : Type 0 where
  pub entry_init : Option (Callback A)
  pub entry_teardown : Option (Callback A)
  pub entry_size : ℕ
  pub pages_block : Option ℕ
  pub pages : List (Page A)
  pub page_size : ℕ
  pub mutex : ℕ

-- The first lock that is 0.
pub find_free : List ℕ → Option ℕ
find_free [] = none
find_free (l ∷ locks) =
    if l == 0 then some 0 else elim (find_free locks) [ none ↦ none | some j ↦ some (j + 1) ]

-- `free` of NULL does nothing.
abbrev pub free_pointer : Option ℕ → World → World
free_pointer none w = w
free_pointer (some block) w = free_mem block w

-- The loop of `get_paged_size` (src/memory.c).
pub double_until : ℕ → ℕ → ℕ → ℕ
double_until zero paged_size size = paged_size
double_until (suc rounds) paged_size size =
    let rest = double_until rounds (paged_size * 2 % 2 ^ 64) size in
    if ltb paged_size size then rest else paged_size

-- `page_size` is that of the system.
pub get_paged_size : ℕ → ℕ → ℕ
get_paged_size page_size size = double_until 64 page_size size

module _ {A : Type 0} where
  abbrev pub entries_per_page : Cache A → ℕ
  entries_per_page c = c.page_size / (c.entry_size + 1)

  -- The loop over the entries of a page, and the callback, if there is one.
  pub call_each : Option (Callback A) → List A → World → List A × World
  call_each none entries w = (entries, w)
  call_each (some f) [] w = ([], w)
  call_each (some f) (a ∷ entries) w =
      let (a', w1) = f a w in let (rest, w2) = call_each (some f) entries w1 in (a' ∷ rest, w2)

  -- `init_page` and `teardown_page` with their callbacks.
  pub clear_page : Option (Callback A) → Page A → World → Page A × World
  clear_page callback page w =
      let (entries, w1) = call_each callback page.entries w in
      (record page { locks = replicate (length page.locks) 0; entries = entries }, w1)

  -- `content` is what the allocator leaves in new memory. The result is the index of the page, and
  -- `none` for -1.
  pub add_page : A → Cache A → World → Option ℕ × Cache A × World
  add_page content c w =
      let count = length c.pages in
      let (new_pages, w1) = realloc_array c.pages_block (count + 1) 8 w in
      let (new_page, w2) = alloc_mem c.page_size w1 in
      elim new_pages [
        | none ↦ (none, c, w1)
        | some pages_block ↦
            let c1 = record c { pages_block = some pages_block } in
            elim new_page [
              | none ↦ (none, c1, w2)
              | some block ↦
                  let page : Page A = record {
                    block = block;
                    locks = replicate (entries_per_page c) 0;
                    entries = replicate (entries_per_page c) content;
                  } in
                  let (page', w3) = clear_page c.entry_init page w2 in
                  (some count, record c1 { pages = c.pages ++ page' ∷ [] }, w3)
            ]
      ]

  -- The loops of `cache_alloc`: the entry, and the pages with its lock set.
  pub take_entry : ℕ → List (Page A) → Option ((ℕ × ℕ) × List (Page A))
  take_entry entry_size [] = none
  take_entry entry_size (p ∷ ps) = elim (find_free p.locks) [
    | some j ↦ some ((p.block, j * entry_size), record p { locks = set p.locks j 1 } ∷ ps)
    | none ↦ elim (take_entry entry_size ps) [ none ↦ none | some r ↦ some (r.0, p ∷ r.1) ]
  ]

  -- The first entry of the page at an index.
  pub take_first : ℕ → List (Page A) → Option (ℕ × ℕ) × List (Page A)
  take_first i [] = (none, [])
  take_first zero (p ∷ ps) = (some (p.block, 0), record p { locks = set p.locks 0 1 } ∷ ps)
  take_first (suc i) (p ∷ ps) = let (entry, ps') = take_first i ps in (entry, p ∷ ps')

  pub cache_alloc : A → Cache A → World → Option (ℕ × ℕ) × Cache A × World
  cache_alloc content c w =
      let w1 = lock_mutex c.mutex w in
      let (new_page, c', w2) = add_page content c w1 in
      elim (take_entry c.entry_size c.pages) [
        | some r ↦ (some r.0, record c { pages = r.1 }, unlock_mutex c.mutex w1)
        | none ↦ elim new_page [
          | none ↦ (none, c', unlock_mutex c.mutex w2)
          | some i ↦
              let (entry, pages) = take_first i c'.pages in
              (entry, record c' { pages = pages }, unlock_mutex c.mutex w2)
        ]
      ]

  -- The loop of `cache_free`.
  pub free_entry : ℕ → ℕ → ℕ × ℕ → List (Page A) → List (Page A)
  free_entry entry_size page_size entry [] = []
  free_entry entry_size page_size entry (p ∷ ps) =
      if p.block == entry.0 && ltb entry.1 page_size
      then record p { locks = set p.locks (entry.1 / entry_size) 0 } ∷ ps
      else p ∷ free_entry entry_size page_size entry ps

  pub cache_free : Cache A → ℕ × ℕ → World → Cache A × World
  cache_free c entry w = (
    record c { pages = free_entry c.entry_size c.page_size entry c.pages },
    unlock_mutex c.mutex (lock_mutex c.mutex w),
  )

  -- The block of the new struct, of `sizeof_cache` bytes, with its contents; `mutex` is the one inside
  -- it.
  pub cache_new :
      ℕ
      → ℕ
      → ℕ
      → A
      → ℕ
      → Option (Callback A)
      → Option (Callback A)
      → World
      → Option (ℕ × Cache A) × World
  cache_new sizeof_cache page_size mutex content size entry_init entry_teardown w =
      let (block, w1) = alloc_mem sizeof_cache w in
      let (pages_block, w2) = alloc_mem 8 w1 in
      let c : Cache A = record {
        entry_init = entry_init;
        entry_teardown = entry_teardown;
        entry_size = size;
        pages_block = pages_block;
        pages = [];
        page_size = get_paged_size page_size size;
        mutex = mutex;
      } in
      let (first_page, c', w3) = add_page content c w2 in
      elim block [
        | none ↦ (none, w1)
        | some b ↦ elim pages_block [
          | none ↦ (none, free_mem b w2)
          | some p ↦ elim first_page [
            | none ↦ (none, free_mem b (free_pointer c'.pages_block w3))
            | some i ↦
                if i == 0
                then (some (b, c'), w3)
                else (none, free_mem b (free_pointer c'.pages_block w3))
          ]
        ]
      ]

  -- The loop of `cache_destroy` over the pages: each is torn down and freed.
  unfoldable pub destroy_pages : Option (Callback A) → List (Page A) → World → World
  destroy_pages teardown [] w = w
  destroy_pages teardown (p ∷ ps) w =
      destroy_pages teardown ps (free_mem p.block (clear_page teardown p w).1)

  -- On a cache at `block`; the mutex inside it ends with it.
  unfoldable pub cache_destroy : Option (ℕ × Cache A) → World → World
  cache_destroy none w = w
  cache_destroy (some (block, c)) w =
      free_mem block (free_pointer c.pages_block (destroy_pages c.entry_teardown c.pages w))
