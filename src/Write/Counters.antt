-- ===== src/Write/Counters.antt =====
-- `zram_write` of zram_drv.c keeps the counters of table entries right, also where a write fails.
use compcache.Common.{
  ℕ, ◌+◌, ◌%◌, ◌^◌, ◌≡◌, refl, ◌∙◌, inl, inr, true, some, List, ◌==◌, ltb, length, get_elem?, set,
  set-set, arith, Bool-cases,
}
use compcache.Common.Errno.{Code, success, enomem, einval, ebusy}
use compcache.Table.{Slot, Stats, Zram, page_zero_filled}
use compcache.Table.Count.{IsCounted, set-IsCounted}
use compcache.Table.Free.{IsEmpty}
use compcache.Request.{Lzo, Segment}
use compcache.Write.{
  store_object, count_failed_write, write_zero, write_uncompressed, write_malloced,
  write_compressed, write_slot,
}
use compcache.Xvmalloc.{Malloced}
use compcache.Xvmalloc.Malloc.{IsReturned, xv_malloc-IsReturned}

-- The counters of a device are right.
abbrev pub Counted : Zram → Type 0
Counted z = IsCounted z.table z.stats

-- The counters are still right where only other statistics changed.
pub recount :
    {table : List Slot} {stats : Stats} (after : Stats)
    → IsCounted table stats
    → after.pages_stored ≡ stats.pages_stored
    → after.pages_zero ≡ stats.pages_zero
    → after.pages_expand ≡ stats.pages_expand
    → IsCounted table after
recount after v a b c = record {
  stored = a ∙ v.stored;
  zeros = b ∙ v.zeros;
  expanded = c ∙ v.expanded;
  shapes = v.shapes;
}

module _ (z : Zram) (i : ℕ) (old : Slot) (empty : IsEmpty old) (v : Counted z)
    (e : get_elem? z.table i ≡ some old) where
  write_zero-Counted : Counted (write_zero i old z)
  unfolding write_zero
  write_zero-Counted =
      set-IsCounted i old (record old { zero_filled = true }) _ v e (ground arith) (ground arith)
        (ground arith) (ground arith)

  write_uncompressed-Counted : (s : Segment) → Counted (write_uncompressed i old s z).1
  unfolding write_uncompressed store_object
  write_uncompressed-Counted s = elim (Bool-cases (s.fresh == 0)) [
    | inl p ↦ rw p (recount _ v refl refl refl)
    | inr n ↦
        rw (n, set-set)
          (set-IsCounted i old (record old { page = s.fresh; offset = 0; uncompressed = true }) _ v
            e (ground arith) (ground arith) (ground arith) (ground arith))
  ]

  write_malloced-Counted :
      (src : List ℕ) (m : Malloced) → IsReturned m → Counted (write_malloced i old src m z).1
  unfolding write_malloced store_object
  write_malloced-Counted src m r = by_code (m.code) refl r
    where
      placed : Slot
      placed = record old { page = m.page; offset = m.offset % 2 ^ 16 }

      emptied : Slot
      emptied = record old { page = m.page }

      not_stored : (m.page ≡ 0) → IsCounted (set z.table i emptied) (count_failed_write z).stats
      not_stored p =
          set-IsCounted i old emptied _ v e (ground arith) (ground arith) (ground arith)
            (ground arith)

      by_code : (c : Code) → m.code ≡ c → IsReturned m → Counted (write_malloced i old src m z).1
      by_code success q (inl (_, n)) =
          rw (q, write_malloced, set-set)
            (set-IsCounted i old placed _ v e (ground arith) (ground arith) (ground arith)
              (ground arith))
      by_code success q (inr (n, _)) = absurd (n q)
      by_code enomem q (inl (y, _)) = absurd (cc)
      by_code enomem q (inr (_, p)) = rw (q, write_malloced) (not_stored p)
      by_code einval q (inl (y, _)) = absurd (cc)
      by_code einval q (inr (_, p)) = rw (q, write_malloced) (not_stored p)
      by_code ebusy q (inl (y, _)) = absurd (cc)
      by_code ebusy q (inr (_, p)) = rw (q, write_malloced) (not_stored p)

  write_compressed-Counted :
      (src : List ℕ) (s : Segment) → Counted (write_compressed i old src s z).1
  unfolding write_compressed
  write_compressed-Counted src s = elim (Bool-cases (ltb 3072 (length src))) [
    | inl big ↦ rw big (write_uncompressed-Counted s)
    | inr small ↦
        rw small
          (write_malloced-Counted src _ (xv_malloc-IsReturned s.fresh (length src + 0) z.heap))
  ]

  pub write_slot-Counted : (lzo : Lzo) (s : Segment) → Counted (write_slot lzo i old s z).1
  unfolding write_slot
  write_slot-Counted lzo s = elim (Bool-cases (page_zero_filled s.bytes)) [
    | inl zeros ↦ rw zeros write_zero-Counted
    | inr data_page ↦ elim (Bool-cases ((lzo.compress s.bytes).0)) [
      | inl ok ↦ rw (data_page, ok) (write_compressed-Counted ((lzo.compress s.bytes).1) s)
      | inr bad ↦ rw (data_page, bad) (recount _ v refl refl refl)
    ]
  ]
