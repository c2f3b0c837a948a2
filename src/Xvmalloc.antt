-- ===== src/Xvmalloc.antt =====
-- sub-projects/allocators/xvmalloc-kmod/xvmalloc.c: the pool's functions that a client calls, with
-- `grow_pool`. What `alloc_page` returns is the argument `fresh`, a page or 0 for NULL; the headers
-- in a fresh page are whatever the heap holds there. Each function runs under the pool's lock, so it
-- is one step.
pub mod Malloc
pub mod Full
pub mod Keep
pub mod Grow
pub mod Layout
mod Tests
use compcache.Common.{
  ℕ, ◌+◌, ◌-◌, ◌*◌, ◌%◌, ◌^◌, Bool, true, false, Option, none, some, ltb, leb, ◌==◌, ◌||◌, not,
  ◌&&◌, if◌then◌else◌, u16, add32, sub32, sub64,
}
use compcache.Common.Errno.{Code, success, enomem}
use compcache.Block.{
  Header, block_free, prev_free, test_flag, set_flag, clear_flag, get_blockprev, set_blockprev,
  block_next, align, page_size, xv_align, min_alloc_size, max_alloc_size, get_index_for_insert,
}
use compcache.Pool.{
  Pool, Heap, Found, null_entry, modify, find_block, insert_block, remove_block_head, remove_block,
  with_pool,
}

-- The header that `grow_pool` writes at the start of a page.
unfoldable pub whole_page : Header → Header
whole_page b =
    let sized = record b { size = page_size - xv_align } in
    set_blockprev (clear_flag (set_flag sized block_free) prev_free) 0

abbrev pub count_page : Pool → Pool
count_page p = record p { total_pages = (p.total_pages + 1) % 2 ^ 64 }

abbrev pub uncount_page : Pool → Pool
uncount_page p = record p { total_pages = sub64 p.total_pages 1 }

unfoldable pub grow_pool : ℕ → Heap → Code × Heap
grow_pool fresh h =
    if fresh == 0
    then (enomem, h)
    else (success, insert_block fresh 0 0 (modify fresh 0 whole_page (with_pool count_page h)))

-- `xv_create_pool` where `kzalloc` returns memory: the pool is zeroed.
unfoldable pub xv_create_pool : Pool
xv_create_pool = record {
  flbitmap = λ i. false;
  slbitmap = λ w i. false;
  freelist = λ i. null_entry;
  total_pages = 0;
}

-- What `xv_malloc` returns, with the values behind its out-parameters.
pub record Malloced : Type 0 where
  pub code : Code
  pub page : ℕ
  pub offset : ℕ
  pub heap : Heap

-- Lines 369-389: what is left of the block at <page, offset>, whose header says `have` bytes, behind
-- the `size` bytes of the allocation.
unfoldable pub split_block : (page offset size have : ℕ) → Heap → Heap
split_block page offset size have h =
    let tmpoffset = offset + size + xv_align in
    let tmpsize = sub32 have size in
    if tmpsize == 0
    then (if tmpoffset == page_size
        then h
        else modify page tmpoffset (λ b. clear_flag b prev_free) h)
    else (let rest = u16 (sub32 tmpsize xv_align) in
        let header = λ (b : Header).
          set_blockprev (clear_flag (set_flag (record b { size = rest }) block_free) prev_free)
            offset in
        let h' = modify page tmpoffset header h in
        let h'' =
          if leb min_alloc_size rest then insert_block page tmpoffset tmpoffset h' else h' in
        if tmpoffset + xv_align + rest == page_size
        then h''
        else modify page (block_next (h''.mem page tmpoffset) tmpoffset)
            (λ b. set_blockprev b tmpoffset) h'')

-- Lines 364-399: the block that `find_block` found becomes an allocated one.
unfoldable pub take_block : (origsize size : ℕ) → Found → Heap → Malloced
take_block origsize size found h =
    let page = found.page in
    let offset = found.offset in
    let h' = remove_block_head page offset found.index h in
    let h'' = split_block page offset size ((h'.mem page offset).size) h' in
    let used = λ (b : Header). clear_flag (record b { size = u16 origsize }) block_free in
    record {
      code = success;
      page = page;
      offset = add32 offset xv_align;
      heap = modify page offset used h'';
    }

abbrev pub failed : Code → Found → Heap → Malloced
failed c found h = record { code = c; page = found.page; offset = found.offset; heap = h }

-- <NULL, 0>, as `xv_malloc` presets its out-parameters.
abbrev pub nothing : Found
nothing = record { index = 0; page = 0; offset = 0 }

-- Lines 349-362: a second search after the pool has grown.
unfoldable pub retry : (origsize size : ℕ) → Found → Code × Heap → Malloced
retry origsize size found (success, h) =
    let found' = find_block h.pool size found.page found.offset in
    if found'.page == 0 then failed enomem found' h else take_block origsize size found' h
retry origsize size found (c, h) = failed c found h

unfoldable pub xv_malloc : (fresh size : ℕ) → Heap → Malloced
xv_malloc fresh origsize h =
    if (origsize == 0) || ltb max_alloc_size origsize
    then failed enomem nothing h
    else (let size = align origsize xv_align in
        let found = find_block h.pool size 0 0 in
        if found.page == 0
        then retry origsize size found (grow_pool fresh h)
        else take_block origsize size found h)

-- Lines 422-438: the block behind is merged into the one at <page, offset> if it is free.
unfoldable pub merge_next : (page offset : ℕ) → Heap → Heap
merge_next page offset h =
    let b = h.mem page offset in
    let next = block_next b offset in
    let t = h.mem page next in
    if not (offset + b.size + xv_align == page_size) && test_flag t block_free
    then (let h' =
          if leb min_alloc_size t.size
          then remove_block page next next (get_index_for_insert t.size) h
          else h in
        modify page offset (λ c. record c { size = u16 (c.size + (t.size + xv_align)) }) h')
    else h

-- Where the merged block is: its offset, and the offset of the header that `block` points at.
pub record Merged : Type 0 where
  pub offset : ℕ
  pub at : ℕ
  pub heap : Heap

-- Lines 441-452: the block at <page, offset> is merged into the one before it if that is free.
unfoldable pub merge_prev : (page offset : ℕ) → Heap → Merged
merge_prev page offset h =
    let b = h.mem page offset in
    if test_flag b prev_free
    then (let before = get_blockprev b in
        let t = h.mem page before in
        let offset' = sub32 (sub32 offset t.size) xv_align in
        let h' =
          if leb min_alloc_size t.size
          then remove_block page offset' before (get_index_for_insert t.size) h
          else h in
        record {
          offset = offset';
          at = before;
          heap =
              modify page before (λ c. record c { size = u16 (c.size + (b.size + xv_align)) }) h';
        })
    else record { offset = offset; at = offset; heap = h }

-- Lines 454-475. The Boolean says that the page went back to the system.
unfoldable pub finish_free : (page : ℕ) → Merged → Bool × Heap
finish_free page m =
    let size = (m.heap.mem page m.at).size in
    if size == page_size - xv_align
    then (true, with_pool uncount_page m.heap)
    else (let h' = modify page m.at (λ b. set_flag b block_free) m.heap in
        let h'' = if leb min_alloc_size size then insert_block page m.offset m.at h' else h' in
        if m.offset + size + xv_align == page_size then (false, h'') else (
          false,
          modify page (block_next (h''.mem page m.at) m.at)
              (λ b. set_blockprev (set_flag b prev_free) m.offset) h'',
        ))

-- `none` is the `BUG_ON`, a block that is freed twice.
unfoldable pub xv_free : (page offset : ℕ) → Heap → Option (Bool × Heap)
xv_free page user_offset h =
    let offset = sub32 user_offset xv_align in
    if test_flag (h.mem page offset) block_free
    then none
    else (let sized = modify page offset (λ b. record b { size = u16 (align b.size xv_align) }) h in
        some (finish_free page (merge_prev page offset (merge_next page offset sized))))

-- `obj` points behind the header.
unfoldable pub xv_get_object_size : (page offset : ℕ) → Heap → ℕ
xv_get_object_size page offset h = (h.mem page (sub32 offset xv_align)).size

unfoldable pub xv_get_total_size_bytes : Pool → ℕ
xv_get_total_size_bytes p = p.total_pages * page_size % 2 ^ 64
