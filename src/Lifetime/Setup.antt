-- ===== src/Lifetime/Setup.antt =====
-- `zram_init_device`, `zram_reset_device` and `zram_free_page` of zram_drv.c in the life of a device.
use compcache.Common.{
  ℕ, ◌/◌, ◌≡◌, refl, sym, ap, ◌∙◌, inl, inr, true, false, Option, some, List, [], some-inj, subst,
  Bool-cases, if-branches, set, replicate,
}
use compcache.Common.Errno.{Code, success, enomem}
use compcache.Pool.{Heap}
use compcache.Table.{Slot, Stats, Zram, zram_free_page}
use compcache.Table.Count.{IsCounted, count}
use compcache.Table.Free.{zram_free_page-Released}
use compcache.Device.{
  Memory, empty_slot, cleared, zram_set_disksize, zram_reset_device, init_table, init_failed,
  zram_init_device,
}
use compcache.Device.Bind.{bind-eq-some}
use compcache.Device.Init.{empty_table-IsCounted}
use compcache.Device.Reset.{reset-cleared}
use compcache.Write.Counters.{Counted, recount}

-- The counters of pages are right, and a device that is not initialised has no table.
pub record IsConsistent (z : Zram) : Type 0 where
  pub counted : Counted z
  pub blank : z.init_done ≡ false → z.table ≡ []

cleared-IsConsistent : (z : Zram) (h : Heap) → IsConsistent (cleared z h)
unfolding cleared
cleared-IsConsistent z h = record { counted = empty_table-IsCounted 0; blank = λ e. refl }

pub reset-IsConsistent : (z : Zram) {z' : Zram} → zram_reset_device z ≡ some z' → IsConsistent z'
reset-IsConsistent z d =
    let (h, q) = reset-cleared z d in subst IsConsistent (sym q) (cleared-IsConsistent z h)

pub free-IsConsistent :
    (z : Zram) {z' : Zram} (i : ℕ) → IsConsistent z → zram_free_page z i ≡ some z' → IsConsistent z'
free-IsConsistent z {z'} i v d =
    let r = zram_free_page-Released i v.counted d in
    record {
      counted = r.counted;
      blank = λ e. r.table ∙ ap (λ t. set t i r.slot) (v.blank (sym r.done ∙ e));
    }

-- An empty table leaves the counters of pages at 0, so that they fit a table of empty entries.
fresh_table-IsCounted :
    (n : ℕ) (table : List Slot) (stats : Stats)
    → IsCounted table stats
    → table ≡ []
    → IsCounted (replicate n empty_slot) stats
unfolding count
fresh_table-IsCounted n table stats v e =
    let w : IsCounted [] stats = subst (λ t. IsCounted t stats) e v in
    recount stats (empty_table-IsCounted n) w.stored w.zeros w.expanded

init_failed-IsConsistent :
    (c c' : Code) (z : Zram) {z' : Zram} → init_failed c z ≡ some (c', z') → IsConsistent z'
init_failed-IsConsistent c c' z d =
    let (w, done, last) = bind-eq-some (zram_reset_device z) _ d in
    subst IsConsistent (ap (λ (p : Code × Zram). p.1) (some-inj last)) (reset-IsConsistent z done)

init_table-IsConsistent :
    (m : Memory) (z : Zram) {c : Code} {z' : Zram}
    → Counted z
    → z.table ≡ []
    → init_table m z ≡ some (c, z')
    → IsConsistent z'
unfolding init_table
init_table-IsConsistent m z {c} {z'} v e d = elim (Bool-cases m.table) [
  | inr t ↦ init_failed-IsConsistent enomem c _ (rw t at d)
  | inl t ↦ elim (Bool-cases m.pool) [
    | inr p ↦ init_failed-IsConsistent enomem c _ (rw (t, p) at d)
    | inl p ↦
        subst IsConsistent (ap (λ (q : Code × Zram). q.1) (some-inj (rw (t, p) at d))) (record {
          counted = fresh_table-IsCounted (z.disksize / 4096) z.table z.stats v e;
          blank = λ q. absurd cc;
        })
  ]
]

pub zram_init_device-IsConsistent :
    (m : Memory) (z : Zram) {c : Code} {z' : Zram}
    → IsConsistent z
    → zram_init_device m z ≡ some (c, z')
    → IsConsistent z'
unfolding zram_init_device zram_set_disksize
zram_init_device-IsConsistent m z {c} v d = elim (if-branches z.init_done d) [
  | inl (done, e) ↦ subst IsConsistent (ap (λ (q : Code × Zram). q.1) (some-inj e)) v
  | inr (idle, e) ↦ elim (if-branches m.workmem e) [
    | inr (w, f) ↦ init_failed-IsConsistent enomem c _ f
    | inl (w, f) ↦ elim (if-branches m.buffer f) [
      | inr (b, g) ↦ init_failed-IsConsistent enomem c _ g
      | inl (b, g) ↦ init_table-IsConsistent m _ v.counted (v.blank idle) g
    ]
  ]
]

-- What ends a request changes no counter of pages.
pub restat :
    {z z' : Zram}
    → IsConsistent z
    → z'.table ≡ z.table
    → z'.init_done ≡ z.init_done
    → z'.stats.pages_stored ≡ z.stats.pages_stored
    → z'.stats.pages_zero ≡ z.stats.pages_zero
    → z'.stats.pages_expand ≡ z.stats.pages_expand
    → IsConsistent z'
restat {z} {z'} v t i a b c = record {
  counted = subst (λ table. IsCounted table z'.stats) (sym t) (recount z'.stats v.counted a b c);
  blank = λ e. t ∙ v.blank (sym i ∙ e);
}

code-init_failed :
    (c : Code) (z : Zram) {c' : Code} {z' : Zram} → init_failed c z ≡ some (c', z') → c' ≡ c
code-init_failed c z d =
    let (w, done, last) = bind-eq-some (zram_reset_device z) _ d in
    sym (ap (λ (p : Code × Zram). p.0) (some-inj last))

init_done-of_pair :
    {c c' : Code} {z z' : Zram}
    → ◌≡◌ {A = Option (Code × Zram)} (some (c, z)) (some (c', z'))
    → z.init_done ≡ true
    → z'.init_done ≡ true
init_done-of_pair e h = sym (ap (λ (p : Code × Zram). p.1.init_done) (some-inj e)) ∙ h

-- A successful initialisation leaves the device initialised.
pub init_done-zram_init_device :
    (m : Memory) (z : Zram) {c : Code} {z' : Zram}
    → zram_init_device m z ≡ some (c, z')
    → c ≡ success
    → z'.init_done ≡ true
unfolding zram_init_device init_table
init_done-zram_init_device m z d q = elim (if-branches z.init_done d) [
  | inl (done, e) ↦ init_done-of_pair e done
  | inr (idle, e) ↦ elim (if-branches m.workmem e) [
    | inr (_, f) ↦ absurd (let r = code-init_failed enomem _ f in cc)
    | inl (_, f) ↦ elim (if-branches m.buffer f) [
      | inr (_, g) ↦ absurd (let r = code-init_failed enomem _ g in cc)
      | inl (_, g) ↦ elim (if-branches m.table g) [
        | inr (_, h) ↦ absurd (let r = code-init_failed enomem _ h in cc)
        | inl (_, h) ↦ elim (if-branches m.pool h) [
          | inr (_, k) ↦ absurd (let r = code-init_failed enomem _ k in cc)
          | inl (_, k) ↦ init_done-of_pair k refl
        ]
      ]
    ]
  ]
]
