-- ===== src/Write/RoundTrip.antt =====
-- What `zram_write` of zram_drv.c stored at an entry, `zram_read` reads back.
use mathlib.Core.List.{append-nil}
use compcache.Common.{
  ℕ, ◌+◌, ◌%◌, ◌^◌, ◌≤◌, ◌<◌, ◌≡◌, ◌≢◌, refl, sym, ◌∙◌, ap, inl, inr, Bool, true, false, not, ◌||◌,
  some, List, ◌==◌, ltb, length, get_elem?, update, take, replicate, set-set, get_elem?-set_self,
  take_all, drop_all, take-append_self, some-inj, subst, arith, Bool-cases, sub32,
}
use compcache.Common.Errno.{Code, success, enomem, einval, ebusy}
use compcache.Table.{Slot, Zram, page_zero_filled}
use compcache.Table.Zero.{page_zero_filled_iff}
use compcache.Table.Free.{IsEmpty}
use compcache.Request.{Lzo, Segment, overwrite, read_compressed, read_slot, read_found}
use compcache.Write.{
  release_old, store_object, write_zero, write_uncompressed, write_malloced, write_compressed,
  write_slot, write_page,
}
use compcache.Xvmalloc.{Malloced, xv_malloc, xv_get_object_size}
use compcache.Xvmalloc.Malloc.{HasOffsets, IsReturned, xv_malloc-IsObject, xv_malloc-IsReturned}

-- What the driver relies on of LZO: a page that compresses is what its compressed form decompresses to.
pub record IsLossless (lzo : Lzo) : Type 0 where
  pub back :
      (page : List ℕ)
      → length page ≡ 4096
      → (lzo.compress page).0 ≡ true
      → lzo.decompress (lzo.compress page).1 ≡ (true, page)

-- Bytes that fill a page replace it.
overwrite_all :
    (n : ℕ) (src old : List ℕ) → length src ≡ n → length old ≡ n → overwrite src old ≡ src
overwrite_all n src old a b = rw (a, drop_all n old b, append-nil)

-- The bytes of an object that was stored are read back at its place.
read_stored :
    (store : ℕ → ℕ → List ℕ) (page offset n : ℕ) (src : List ℕ)
    → length src ≡ n
    → take n (
        update store page
          (update (store page) offset (overwrite (take n src) (store page offset)))
          page
          offset)
      ≡ src
read_stored store page offset n src l =
    let p : (page == page) ≡ true = ground arith in
    let o : (offset == offset) ≡ true = ground arith in
    rw (p, o, take_all n src l) (take-append_self n src _ l)

module _ (lzo : Lzo) (z : Zram) (slot : Slot) (buf : List ℕ) (f : slot.zero_filled ≡ false)
    (n : (slot.page == 0) ≡ false) where
  read_slot-uncompressed :
      slot.uncompressed ≡ true
      → read_slot lzo z slot buf ≡ (true, overwrite (take 4096 (z.store slot.page slot.offset)) buf)
  unfolding read_slot
  read_slot-uncompressed u = simp (f, n, u)

  read_slot-compressed :
      slot.uncompressed ≡ false → read_slot lzo z slot buf ≡ read_compressed lzo z slot buf
  unfolding read_slot
  read_slot-compressed u = simp (f, n, u)

module _ (lzo : Lzo) (z : Zram) (i : ℕ) (old : Slot) (empty : IsEmpty old)
    (e : get_elem? z.table i ≡ some old) (s : Segment) (full : length s.bytes ≡ 4096) (buf : List ℕ)
    (buf_full : length buf ≡ 4096) where
  -- Entry `i` of a device reads as the bytes of the segment.
  abbrev ReadsBack : Zram → Type 0
  ReadsBack z' = read_found lzo z' (get_elem? z'.table i) buf ≡ some (true, s.bytes)

  zero-ReadsBack : page_zero_filled s.bytes ≡ true → ReadsBack (write_zero i old z)
  unfolding write_zero read_slot
  zero-ReadsBack t = rw (get_elem?-set_self z.table i (record old { zero_filled = true }) old e) (
      ap (λ (b : List ℕ). some (true, b))
        (overwrite_all 4096 (replicate 4096 0) buf refl buf_full
          ∙ sym ((page_zero_filled_iff s.bytes full).0 t)))

  uncompressed-ReadsBack :
      (write_uncompressed i old s z).0 ≡ true → ReadsBack (write_uncompressed i old s z).1
  unfolding write_uncompressed store_object
  uncompressed-ReadsBack done = elim (Bool-cases (s.fresh == 0)) [
    | inl p ↦ absurd (cc (rw p at done))
    | inr n ↦
        let slot = record old { page = s.fresh; offset = 0; uncompressed = true } in
        rw (n, set-set, get_elem?-set_self z.table i slot old e)
          (ap some (
            read_slot-uncompressed lzo _ slot buf (empty.1) n refl
            ∙ ap (λ (b : List ℕ). (true, b))
                (ap (λ b. overwrite b buf) (read_stored z.store s.fresh 0 4096 s.bytes full)
                  ∙ overwrite_all 4096 s.bytes buf full buf_full)))
  ]

  module _ (lossless : IsLossless lzo) (ok : (lzo.compress s.bytes).0 ≡ true)
      (small : length (lzo.compress s.bytes).1 ≤ 3072) (w : Zram) where
    -- An entry whose object holds the compressed bytes.
    compressed-ReadsBack :
        (slot : Slot)
        → slot.zero_filled ≡ false
        → (slot.page == 0) ≡ false
        → slot.uncompressed ≡ false
        → xv_get_object_size slot.page slot.offset w.heap ≡ length (lzo.compress s.bytes).1
        → take (length (lzo.compress s.bytes).1) (w.store slot.page slot.offset)
          ≡ (lzo.compress s.bytes).1
        → read_slot lzo w slot buf ≡ (true, s.bytes)
    unfolding read_compressed
    compressed-ReadsBack slot f n u size holds =
        let clen : sub32 (xv_get_object_size slot.page slot.offset w.heap) 0
            ≡ length (lzo.compress s.bytes).1 =
          omega arith in
        read_slot-compressed lzo w slot buf f n u
        ∙ rw (clen, holds, lossless.back s.bytes full ok)
            (ap (λ (b : List ℕ). (true, b)) (overwrite_all 4096 s.bytes buf full buf_full))

  module _ (lossless : IsLossless lzo) (ok : (lzo.compress s.bytes).0 ≡ true)
      (small : length (lzo.compress s.bytes).1 ≤ 3072) where
    abbrev src : List ℕ
    src = (lzo.compress s.bytes).1

    malloced-ReadsBack :
        (m : Malloced)
        → m.code ≡ success
        → m.page ≢ 0
        → xv_get_object_size m.page m.offset m.heap ≡ length src
        → m.offset < 2 ^ 16
        → ReadsBack (write_malloced i old src m z).1
    unfolding write_malloced store_object
    malloced-ReadsBack m done n size low =
        let slot = record old { page = m.page; offset = m.offset % 2 ^ 16 } in
        let place : m.offset % 2 ^ 16 ≡ m.offset = omega arith in
        rw (done, write_malloced, set-set, get_elem?-set_self z.table i slot old e)
          (ap some (
            compressed-ReadsBack lossless ok small _ slot (empty.1) (ground arith) (empty.2)
              (rw place size)
              (read_stored z.store m.page (m.offset % 2 ^ 16) (length src) src refl)))

    -- A write that says that it stored the page did get memory from the pool.
    malloced-stored : (m : Malloced) → (write_malloced i old src m z).0 ≡ true → m.code ≡ success
    unfolding write_malloced
    malloced-stored m done = by_code (m.code) refl
      where
        by_code : (c : Code) → m.code ≡ c → m.code ≡ success
        by_code success q = q
        by_code enomem q = absurd (cc (rw (q, write_malloced) at done))
        by_code einval q = absurd (cc (rw (q, write_malloced) at done))
        by_code ebusy q = absurd (cc (rw (q, write_malloced) at done))

  write_slot-ReadsBack :
      IsLossless lzo
      → HasOffsets z.heap.pool
      → (write_slot lzo i old s z).0 ≡ true
      → ReadsBack (write_slot lzo i old s z).1
  unfolding write_slot write_compressed
  write_slot-ReadsBack lossless offsets done = elim (Bool-cases (page_zero_filled s.bytes)) [
    | inl zeros ↦ rw zeros (zero-ReadsBack zeros)
    | inr other ↦ elim (Bool-cases ((lzo.compress s.bytes).0)) [
      | inr bad ↦ absurd (cc (rw (other, bad) at done))
      | inl ok ↦ elim (Bool-cases (ltb 3072 (length (lzo.compress s.bytes).1))) [
        | inl big ↦ rw (other, ok, big) (uncompressed-ReadsBack (rw (other, ok, big) at done))
        | inr small ↦
            let le : length (lzo.compress s.bytes).1 ≤ 3072 = ground arith in
            let m = xv_malloc s.fresh (length (lzo.compress s.bytes).1 + 0) z.heap in
            let got : m.code ≡ success =
              malloced-stored lossless ok le m (rw (other, ok, small) at done) in
            let (size, _, low) =
              xv_malloc-IsObject s.fresh (length (lzo.compress s.bytes).1 + 0) z.heap offsets got in
            rw (other, ok, small)
              (malloced-ReadsBack lossless ok le m got
                (page_of m (xv_malloc-IsReturned s.fresh _ z.heap) got) (size ∙ omega arith) low)
      ]
    ]
  ]
    where
      page_of : (m : Malloced) → IsReturned m → m.code ≡ success → m.page ≢ 0
      page_of m (inl (_, n)) got = n
      page_of m (inr (n, _)) got = absurd (n got)

  write_page-slot : write_page lzo z i s ≡ some (write_slot lzo i old s z)
  unfolding write_page release_old
  write_page-slot =
      let held : (not (old.page == 0) || old.zero_filled) ≡ false = ground arith in rw (e, held, e)

  -- A page that is written to an unused entry is read back, whether it is stored as a flag, as a page
  -- of its own or as a compressed object: where LZO is lossless, the list heads of the pool have
  -- offsets in a page and the write says that it stored the page, a read of the entry succeeds and
  -- fills any page-sized buffer with the bytes that were written.
  pub write_page-read :
      {z' : Zram}
      → IsLossless lzo
      → HasOffsets z.heap.pool
      → write_page lzo z i s ≡ some (true, z')
      → read_found lzo z' (get_elem? z'.table i) buf ≡ some (true, s.bytes)
  write_page-read {z'} lossless offsets d =
      let w : write_slot lzo i old s z ≡ (true, z') = some-inj (sym write_page-slot ∙ d) in
      subst ReadsBack (ap (λ (p : Bool × Zram). p.1) w)
        (write_slot-ReadsBack lossless offsets (ap (λ (p : Bool × Zram). p.0) w))
