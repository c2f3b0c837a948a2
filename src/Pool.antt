-- ===== src/Pool.antt =====
-- sub-projects/allocators/xvmalloc-kmod: `struct xv_pool` of xvmalloc_int.h, and the functions of
-- xvmalloc.c on its free lists and its two-level bitmap.
--
-- The mapped memory of the pages is a function from page and offset to the block header there. Two
-- headers at different places are different cells: headers do not overlap, and user data are no
-- headers. A pointer to a block is its place.
pub mod Bitmap
pub mod Lists
pub mod Find
pub mod Keep
mod Tests
use compcache.Common.{ℕ, ◌+◌, ◌*◌, ◌/◌, ◌%◌, Bool, not, ◌&&◌, ◌==◌, if◌then◌else◌, update, u16}
use compcache.Common.Word.{Word, bits_per_long, shr, set_bit, clear_bit, ffs, is_zero}
use compcache.Block.{Header, get_index, get_index_for_insert}

-- `struct freelist_entry`
pub record Entry : Type 0 where
  pub page : ℕ
  pub offset : ℕ

-- `struct xv_pool`. The lock is not modelled: each function below runs with it held.
pub record Pool : Type 0 where
  pub flbitmap : Word
  pub slbitmap : ℕ → Word
  pub freelist : ℕ → Entry
  pub total_pages : ℕ

-- A pool and the headers in the pages.
pub record Heap : Type 0 where
  pub pool : Pool
  pub mem : ℕ → ℕ → Header

-- What `find_block` returns, with the values behind its two out-parameters.
pub record Found : Type 0 where
  pub index : ℕ
  pub page : ℕ
  pub offset : ℕ

-- The head of the free list `slindex`, as the three places of `find_block` return it.
abbrev pub list_head : Pool → ℕ → Found
list_head p slindex = record {
  index = slindex;
  page = (p.freelist slindex).page;
  offset = (p.freelist slindex).offset;
}

-- Lines 151-164: the search through the first-level bitmap.
unfoldable pub find_in_next_chunk : Pool → ℕ → ℕ → ℕ → Found
find_in_next_chunk p slindex page offset =
    let flindex = slindex / bits_per_long in
    let flbitmap = shr p.flbitmap (flindex + 1) in
    if is_zero flbitmap
    then record { index = 0; page = page; offset = offset }
    else (let flindex' = flindex + (ffs flbitmap + 1) in
        list_head p (flindex' * bits_per_long + ffs (p.slbitmap flindex')))

unfoldable pub find_block : Pool → ℕ → ℕ → ℕ → Found
find_block p size page offset =
    if is_zero p.flbitmap
    then record { index = 0; page = page; offset = offset }
    else (let slindex = get_index size in
        let slbitmap = p.slbitmap (slindex / bits_per_long) in
        let slbitstart = slindex % bits_per_long in
        if slbitmap slbitstart
        then list_head p slindex
        else (let rest = shr slbitmap (slbitstart + 1) in
            if not (slbitstart + 1 == bits_per_long) && not (is_zero rest)
            then list_head p (slindex + (ffs rest + 1))
            else find_in_next_chunk p slindex page offset))

-- A change of the header at <page, offset>.
abbrev pub modify : ℕ → ℕ → (Header → Header) → Heap → Heap
modify page offset f h = record h {
  mem = update h.mem page (update (h.mem page) offset (f (h.mem page offset)));
}

abbrev pub set_prev_link : Entry → Header → Header
set_prev_link e b = record b { prev_page = e.page; prev_offset = e.offset }

abbrev pub set_next_link : Entry → Header → Header
set_next_link e b = record b { next_page = e.page; next_offset = e.offset }

abbrev pub prev_link : Header → Entry
prev_link b = record { page = b.prev_page; offset = b.prev_offset }

abbrev pub next_link : Header → Entry
next_link b = record { page = b.next_page; offset = b.next_offset }

-- <NULL, 0>
abbrev pub null_entry : Entry
null_entry = record { page = 0; offset = 0 }

abbrev pub set_freelist : ℕ → Entry → Heap → Heap
set_freelist i e h = record h { pool = record (h.pool) { freelist = update h.pool.freelist i e } }

-- `if (page) { block at <page, offset>: f }`
abbrev pub modify_entry : Entry → (Header → Header) → Heap → Heap
modify_entry e f h = if e.page == 0 then h else modify e.page e.offset f h

-- The two `__set_bit` calls of `insert_block`.
unfoldable pub mark_nonempty : ℕ → Pool → Pool
mark_nonempty slindex p =
    let flindex = slindex / bits_per_long in
    record p {
      slbitmap = update p.slbitmap flindex (set_bit (slindex % bits_per_long) (p.slbitmap flindex));
      flbitmap = set_bit flindex p.flbitmap;
    }

-- The two `__clear_bit` calls of `remove_block_head`.
unfoldable pub mark_empty : ℕ → Pool → Pool
mark_empty slindex p =
    let flindex = slindex / bits_per_long in
    let word = clear_bit (slindex % bits_per_long) (p.slbitmap flindex) in
    record p {
      slbitmap = update p.slbitmap flindex word;
      flbitmap = if is_zero word then clear_bit flindex p.flbitmap else p.flbitmap;
    }

abbrev pub with_pool : (Pool → Pool) → Heap → Heap
with_pool f h = record h { pool = f h.pool }

-- `at` is the offset of the header that the argument `block` points at, in the mapped page.
unfoldable pub insert_block : (page offset at : ℕ) → Heap → Heap
insert_block page offset at h =
    let slindex = get_index_for_insert ((h.mem page at).size) in
    let head = h.pool.freelist slindex in
    let place : Entry = record { page = page; offset = u16 offset } in
    let linked = modify page at (λ b. set_next_link head (set_prev_link null_entry b)) h in
    let listed = set_freelist slindex place linked in
    with_pool (mark_nonempty slindex) (modify_entry head (set_prev_link place) listed)

unfoldable pub remove_block_head : (page at slindex : ℕ) → Heap → Heap
remove_block_head page at slindex h =
    let next = next_link (h.mem page at) in
    let unlinked = modify page at (set_prev_link null_entry) (set_freelist slindex next h) in
    if next.page == 0
    then with_pool (mark_empty slindex) unlinked
    else modify next.page next.offset (set_prev_link null_entry) unlinked

unfoldable pub remove_block : (page offset at slindex : ℕ) → Heap → Heap
remove_block page offset at slindex h =
    let head = h.pool.freelist slindex in
    let b = h.mem page at in
    if (head.page == page) && (head.offset == offset)
    then remove_block_head page at slindex h
    else (let h' = modify_entry (prev_link b) (set_next_link (next_link b)) h in
        let b' = h'.mem page at in modify_entry (next_link b') (set_prev_link (prev_link b')) h')
