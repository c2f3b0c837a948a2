-- ===== src/Write/Outcome.antt =====
-- The loop of `zram_write` of zram_drv.c over the pages of a request, and the other handlers: the
-- counters of table entries stay right.
use compcache.Common.{
  ℕ, ◌+◌, ◌%◌, ◌^◌, ◌≡◌, refl, ◌∙◌, ap, inl, inr, Bool, true, false, not, ◌||◌, Option, none, some,
  List, [], ◌∷◌, ◌==◌, get_elem?, get_elem?-set_self, some-inj, subst, arith, Bool-cases,
}
use compcache.Table.{Slot, Zram}
use compcache.Table.Free.{IsEmpty, zram_free_page-Released}
use compcache.Device.Bind.{bind-eq-some}
use compcache.Request.{Lzo, Segment}
use compcache.Write.{release_old, write_slot, write_found, write_old, write_page, write_segments}
use compcache.Write.Counters.{Counted, write_slot-Counted}

-- An entry ready to be written: it holds nothing, and the counters are right.
record IsReady (i : ℕ) (z : Zram) : Type 0 where
  counted : Counted z
  slot : Slot
  empty : IsEmpty slot
  entry : get_elem? z.table i ≡ some slot

release_old-IsReady :
    (z : Zram) {z' : Zram} (i : ℕ) (old : Slot)
    → Counted z
    → get_elem? z.table i ≡ some old
    → release_old z i old ≡ some z'
    → IsReady i z'
unfolding release_old
release_old-IsReady z {z'} i old v e d =
    elim (Bool-cases (not (old.page == 0) || old.zero_filled)) [
      | inl holds ↦
          let r = zram_free_page-Released i v (simp holds at d) in
          record {
            counted = r.counted;
            slot = r.slot;
            empty = r.empty;
            entry = ap (λ t. get_elem? t i) r.table ∙ get_elem?-set_self z.table i r.slot old e;
          }
      | inr none_held ↦
          subst (IsReady i) (some-inj (simp none_held at d)) (record {
            counted = v;
            slot = old;
            empty = ground (arith, v.shapes i old e);
            entry = e;
          })
    ]

write_found-Counted :
    (lzo : Lzo) {z z' : Zram} {ok : Bool} (i : ℕ) (s : Segment)
    → IsReady i z
    → write_found lzo i (get_elem? z.table i) s z ≡ some (ok, z')
    → Counted z'
write_found-Counted lzo {z} {z'} {ok} i s r d =
    let w : write_slot lzo i r.slot s z ≡ (ok, z') = some-inj (rw r.entry at d) in
    subst Counted (ap (λ (p : Bool × Zram). p.1) w)
      (write_slot-Counted z i r.slot r.empty r.counted r.entry lzo s)

write_old-Counted :
    (lzo : Lzo) (z : Zram) {z' : Zram} {ok : Bool} (i : ℕ) (o : Option Slot) (s : Segment)
    → Counted z
    → get_elem? z.table i ≡ o
    → write_old lzo z i o s ≡ some (ok, z')
    → Counted z'
write_old-Counted lzo z i none s v e d = cc
write_old-Counted lzo z i (some old) s v e d =
    let (w, released, found) =
      bind-eq-some (release_old z i old) (λ z'. write_found lzo i (get_elem? z'.table i) s z') d in
    write_found-Counted lzo i s (release_old-IsReady z i old v e released) found

-- Writing one page keeps the counters of stored, zero-filled and uncompressed pages right, whether the
-- page is stored or the write fails.
pub write_page-Counted :
    (lzo : Lzo) (z : Zram) {z' : Zram} {ok : Bool} (i : ℕ) (s : Segment)
    → Counted z
    → write_page lzo z i s ≡ some (ok, z')
    → Counted z'
unfolding write_page
write_page-Counted lzo z i s v d = write_old-Counted lzo z i (get_elem? z.table i) s v refl d

-- The loop goes on only behind a page that was stored.
continue-Counted :
    (next : Zram → Option (Bool × Zram)) (r : Bool × Zram) {z' : Zram} {ok : Bool}
    → Counted r.1
    → ((w : Zram) → Counted w → next w ≡ some (ok, z') → Counted z')
    → elim (r.0) [ true ↦ next r.1 | false ↦ some r ] ≡ some (ok, z')
    → Counted z'
continue-Counted next (true, w) v keep d = keep w v d
continue-Counted next (false, w) v keep d =
    subst Counted (ap (λ (p : Bool × Zram). p.1) (some-inj d)) v

-- A request of any number of pages keeps the counters of stored, zero-filled and uncompressed pages
-- right, also where it ends early because a page cannot be stored.
pub write_segments-Counted :
    (lzo : Lzo) (segments : List Segment) (z : Zram) {z' : Zram} {ok : Bool} (i : ℕ)
    → Counted z
    → write_segments lzo z i segments ≡ some (ok, z')
    → Counted z'
unfolding write_segments
write_segments-Counted lzo [] z i v d = subst Counted (ap (λ (p : Bool × Zram). p.1) (some-inj d)) v
write_segments-Counted lzo (s ∷ segments) z {z'} {ok} i v d =
    let (r, page_done, rest) = bind-eq-some (write_page lzo z i s) _ d in
    continue-Counted (λ w. write_segments lzo w ((i + 1) % 2 ^ 32) segments) r
      (write_page-Counted lzo z i s v page_done)
      (λ w c e. write_segments-Counted lzo segments w ((i + 1) % 2 ^ 32) c e) rest
