-- ===== src/Xvmalloc/Grow.antt =====
-- `grow_pool` of xvmalloc.c: the fresh page is one free block, which the last free list then has.
use compcache.Common.{ℕ, ◌+◌, ◌%◌, ◌^◌, ◌≤◌, ◌≡◌, ◌≢◌, true, false, refl, ◌==◌, arith}
use compcache.Common.Errno.{success, enomem}
use compcache.Pool.{Heap, modify, with_pool}
use compcache.Pool.Bitmap.{nonempty, IsIndexed}
use compcache.Pool.Keep.{insert_block-IsIndexed}
use compcache.Pool.Lists.{nonempty-insert_block, total_pages-insert_block}
use compcache.Block.{set_flag, clear_flag, set_blockprev, get_index_for_insert, min_alloc_size}
use compcache.Common.Word.{any_set}
use compcache.Xvmalloc.{whole_page, count_page, grow_pool, xv_create_pool}

pub grow_pool-null : (fresh : ℕ) (h : Heap) → (fresh == 0) ≡ true → grow_pool fresh h ≡ (enomem, h)
unfolding grow_pool
grow_pool-null fresh h z = rw z

module _ (fresh : ℕ) (h : Heap) (v : IsIndexed h.pool) (ne : fresh ≢ 0) where
  counted : IsIndexed (count_page h.pool)
  counted = record {
    listed = v.listed;
    word_end = v.word_end;
    summary = v.summary;
    summary_end = v.summary_end;
  }

  -- The heap in which the fresh page is inserted.
  abbrev before : Heap
  before = modify fresh 0 whole_page (with_pool count_page h)

  size-before : (before.mem fresh 0).size ≡ 4092
  unfolding whole_page set_flag clear_flag set_blockprev
  size-before = ground arith

  last_list : get_index_for_insert (before.mem fresh 0).size ≡ 507
  unfolding get_index_for_insert
  last_list = rw size-before

  -- With a fresh page `grow_pool` succeeds, keeps the bitmaps in step with the lists, counts the page,
  -- and leaves a block in the last free list.
  pub grow_pool_lem :
      let (c, h') = grow_pool fresh h in
      (c ≡ success)
      × IsIndexed h'.pool
      × (nonempty h'.pool 507 ≡ true)
      × (h'.pool.total_pages ≡ (h.pool.total_pages + 1) % 2 ^ 64)
  unfolding grow_pool
  grow_pool_lem =
      let z : (fresh == 0) ≡ false = ground arith in
      let lo : min_alloc_size ≤ (before.mem fresh 0).size = rw size-before (omega arith) in
      rw z (
        refl,
        insert_block-IsIndexed fresh 0 0 before counted ne lo,
        nonempty-insert_block fresh 0 0 507 before ne lo last_list,
        total_pages-insert_block fresh 0 0 before,
      )

-- A new pool has no block, and its bitmaps say so.
pub xv_create_pool-IsIndexed : IsIndexed xv_create_pool
unfolding xv_create_pool any_set
xv_create_pool-IsIndexed = record {
  listed = λ w b hw hb. ground arith;
  word_end = λ w b hw hb. refl;
  summary = λ w hw. refl;
  summary_end = λ w hw. refl;
}
