-- ===== src/Lifetime/Requests.antt =====
-- The handlers of zram_drv.c keep a device initialised.
use compcache.Common.{
  ℕ, ◌+◌, ◌%◌, ◌^◌, ◌≡◌, refl, sym, ap, ◌∙◌, inl, inr, Bool, true, false, not, ◌||◌, Option, none,
  some, List, [], ◌∷◌, ◌==◌, ltb, length, get_elem?, some-inj, Bool-cases,
}
use compcache.Common.Errno.{Code, success, enomem, einval, ebusy}
use compcache.Table.{Slot, Zram, page_zero_filled}
use compcache.Table.Free.{zram_free_page-Released}
use compcache.Device.Bind.{bind-eq-some}
use compcache.Request.{Lzo, Segment}
use compcache.Write.{
  release_old, store_object, write_zero, write_uncompressed, write_malloced, write_compressed,
  write_slot, write_found, write_old, write_page, write_segments,
}
use compcache.Write.Counters.{Counted}
use compcache.Write.Outcome.{write_page-Counted}
use compcache.Xvmalloc.{Malloced}

module _ (i : ℕ) (old : Slot) (z : Zram) where
  init_done-write_uncompressed :
      (s : Segment) → (write_uncompressed i old s z).1.init_done ≡ z.init_done
  unfolding write_uncompressed store_object
  init_done-write_uncompressed s = elim (Bool-cases (s.fresh == 0)) [ inl p ↦ rw p | inr n ↦ rw n ]

  init_done-write_malloced :
      (src : List ℕ) (m : Malloced) → (write_malloced i old src m z).1.init_done ≡ z.init_done
  unfolding write_malloced store_object
  init_done-write_malloced src m = by_code (m.code) refl
    where
      by_code : (c : Code) → m.code ≡ c → (write_malloced i old src m z).1.init_done ≡ z.init_done
      by_code success q = rw (q, write_malloced)
      by_code enomem q = rw (q, write_malloced)
      by_code einval q = rw (q, write_malloced)
      by_code ebusy q = rw (q, write_malloced)

  init_done-write_slot :
      (lzo : Lzo) (s : Segment) → (write_slot lzo i old s z).1.init_done ≡ z.init_done
  unfolding write_slot write_zero write_compressed
  init_done-write_slot lzo s = elim (Bool-cases (page_zero_filled s.bytes)) [
    | inl zeros ↦ rw zeros
    | inr other ↦ elim (Bool-cases ((lzo.compress s.bytes).0)) [
      | inr bad ↦ rw (other, bad)
      | inl ok ↦ elim (Bool-cases (ltb 3072 (length (lzo.compress s.bytes).1))) [
        | inl big ↦ rw (other, ok, big) (init_done-write_uncompressed s)
        | inr small ↦ rw (other, ok, small) (init_done-write_malloced _ _)
      ]
    ]
  ]

init_done-release_old :
    (z : Zram) {z' : Zram} (i : ℕ) (old : Slot)
    → Counted z
    → release_old z i old ≡ some z'
    → z'.init_done ≡ z.init_done
unfolding release_old
init_done-release_old z {z'} i old v d =
    elim (Bool-cases (not (old.page == 0) || old.zero_filled)) [
      | inl holds ↦ (zram_free_page-Released i v (simp holds at d)).done
      | inr clear ↦ ap (λ (w : Zram). w.init_done) (sym (some-inj (simp clear at d)))
    ]

init_done-write_found :
    (lzo : Lzo) (z : Zram) {z' : Zram} {ok : Bool} (i : ℕ) (o : Option Slot) (s : Segment)
    → write_found lzo i o s z ≡ some (ok, z')
    → z'.init_done ≡ z.init_done
init_done-write_found lzo z i none s d = cc
init_done-write_found lzo z i (some old) s d =
    ap (λ (p : Bool × Zram). p.1.init_done) (sym (some-inj d)) ∙ init_done-write_slot i old z lzo s

init_done-write_old :
    (lzo : Lzo) (z : Zram) {z' : Zram} {ok : Bool} (i : ℕ) (o : Option Slot) (s : Segment)
    → Counted z
    → write_old lzo z i o s ≡ some (ok, z')
    → z'.init_done ≡ z.init_done
init_done-write_old lzo z i none s v d = cc
init_done-write_old lzo z i (some old) s v d =
    let (w, released, found) =
      bind-eq-some (release_old z i old) (λ z'. write_found lzo i (get_elem? z'.table i) s z') d in
    init_done-write_found lzo w i (get_elem? w.table i) s found
    ∙ init_done-release_old z i old v released

init_done-write_page :
    (lzo : Lzo) (z : Zram) {z' : Zram} {ok : Bool} (i : ℕ) (s : Segment)
    → Counted z
    → write_page lzo z i s ≡ some (ok, z')
    → z'.init_done ≡ z.init_done
unfolding write_page
init_done-write_page lzo z i s v d = init_done-write_old lzo z i (get_elem? z.table i) s v d

init_done-continue :
    (next : Zram → Option (Bool × Zram)) (r : Bool × Zram) {z' : Zram} {ok : Bool}
    → Counted r.1
    → ((w : Zram) → Counted w → next w ≡ some (ok, z') → z'.init_done ≡ w.init_done)
    → elim (r.0) [ true ↦ next r.1 | false ↦ some r ] ≡ some (ok, z')
    → z'.init_done ≡ r.1.init_done
init_done-continue next (true, w) v keep d = keep w v d
init_done-continue next (false, w) v keep d =
    ap (λ (p : Bool × Zram). p.1.init_done) (sym (some-inj d))

pub init_done-write_segments :
    (lzo : Lzo) (segments : List Segment) (z : Zram) {z' : Zram} {ok : Bool} (i : ℕ)
    → Counted z
    → write_segments lzo z i segments ≡ some (ok, z')
    → z'.init_done ≡ z.init_done
unfolding write_segments
init_done-write_segments lzo [] z i v d = ap (λ (p : Bool × Zram). p.1.init_done) (sym (some-inj d))
init_done-write_segments lzo (s ∷ segments) z {z'} {ok} i v d =
    let (r, page_done, rest) = bind-eq-some (write_page lzo z i s) _ d in
    init_done-continue (λ w. write_segments lzo w ((i + 1) % 2 ^ 32) segments) r
      (write_page-Counted lzo z i s v page_done)
      (λ w c e. init_done-write_segments lzo segments w ((i + 1) % 2 ^ 32) c e) rest
    ∙ init_done-write_page lzo z i s v page_done
