-- ===== src/Scale/Lifetime.antt =====
-- zram_scale: the life of one device, as the steps that the block layer and sysfs make with it, in any
-- order, and what holds of its pointers in every state.
use compcache.Common.{
  ℕ, zero, suc, ◌+◌, ◌/◌, ◌≡◌, refl, sym, ◌∙◌, subst, inl, inr, Bool, true, false, Option, none,
  some, length, get_elem?, some-inj, if-branches,
}
use compcache.Common.Errno.{Code}
use compcache.Device.Bind.{bind-eq-some}
use compcache.Request.{Lzo, Bio}
use compcache.Scale.{Zram, zram_add_stat, zram_inc_stat, zram_free_page}
use compcache.Scale.Length.{IsAsLong, zram_free_page-IsAsLong}
use compcache.Scale.Disk.{
  Disk, Memory, inc_stat, touches, free_uncounted, free_page, reset_pages, cleared,
  zram_reset_device,
}
use compcache.Scale.Handlers.{Served, with_zram, zram_make_request, zram_slot_free_notify}
use compcache.Scale.Sysfs.{disksize_store, reset_store}

-- One step of a device that does not fault: a block I/O request, a notice of a free swap slot, a write
-- to `disksize` or to `reset`.
pub data Step : Disk → Disk → Type 0 where
  request :
      {d : Disk} {r : Served} (lzo : Lzo) (buffers : Bool) (m : Memory) (cpu : ℕ) (b : Bio)
      → zram_make_request lzo buffers m cpu d b ≡ some r
      → Step d r.disk
  notify : {d d' : Disk} (cpu index : ℕ) → zram_slot_free_notify cpu index d ≡ some d' → Step d d'
  resize :
      {d d' : Disk} {c : Code} (parsed : Bool) (n : ℕ)
      → disksize_store parsed n d ≡ (c, d')
      → Step d d'
  reset :
      {d d' : Disk} {c : Code} (ram_pages cpu holders : ℕ) (n : Option ℕ)
      → reset_store ram_pages cpu holders n d ≡ some (c, d')
      → Step d d'

-- The states that are reached from a first one.
pub data Reaches : Disk → Disk → Type 0 where
  here : {d : Disk} → Reaches d d
  onward : {d e d' : Disk} → Reaches d e → Step e d' → Reaches d d'

-- The three pointers are set exactly if the device is initialised, and then the table has an entry for
-- each page of the disk.
pub record IsReady (d : Disk) : Type 0 where
  pub stats : d.has_stats ≡ d.init_done
  pub pool : d.has_pool ≡ d.init_done
  pub table : d.has_table ≡ d.init_done
  pub size : d.init_done ≡ true → length d.zram.table ≡ d.disksize / 4096

pub with_zram-IsReady :
    {d : Disk} {z : Zram} → IsReady d → IsAsLong d.zram z → IsReady (with_zram d z)
with_zram-IsReady v e = record {
  stats = v.stats;
  pool = v.pool;
  table = v.table;
  size = λ done. e ∙ v.size done;
}

pub inc_stat-IsReady :
    (cpu idx : ℕ) (d : Disk) {d' : Disk} → inc_stat cpu idx d ≡ some d' → IsReady d → IsReady d'
unfolding zram_inc_stat zram_add_stat
inc_stat-IsReady cpu idx d e v = elim (if-branches d.has_stats e) [
  | inl (_, f) ↦ subst IsReady (some-inj f) (with_zram-IsReady v refl)
  | inr (_, f) ↦ absurd cc
]

pub free_page-IsReady :
    (cpu index : ℕ) (d : Disk) {d' : Disk}
    → free_page cpu index d ≡ some d'
    → IsReady d
    → IsReady d'
unfolding free_page
free_page-IsReady cpu index d {d'} e v = elim (if-branches d.has_stats e) [
  | inl (_, f) ↦
      let (z, freed, last) = bind-eq-some (zram_free_page cpu index d.zram) _ f in
      subst IsReady (some-inj last)
        (with_zram-IsReady v (zram_free_page-IsAsLong cpu index d.zram freed))
  | inr (_, f) ↦ by_entry (get_elem? d.zram.table index) f
]
  where
    by_entry : (o : Option ℕ) → free_uncounted o d ≡ some d' → IsReady d'
    by_entry none q = absurd cc
    by_entry (some addr) q = elim (if-branches (touches addr) q) [
      | inl (_, r) ↦ absurd cc
      | inr (_, r) ↦ subst IsReady (some-inj r) v
    ]

-- What the loop of a reset does not change.
abbrev pub Kept : Disk → Disk → Type 0
Kept d d' = (d'.init_done ≡ d.init_done) × (d'.areas ≡ d.areas)

free_page-Kept :
    (cpu index : ℕ) (d : Disk) {d' : Disk} → free_page cpu index d ≡ some d' → Kept d d'
unfolding free_page
free_page-Kept cpu index d {d'} e = elim (if-branches d.has_stats e) [
  | inl (_, f) ↦
      let (z, freed, last) = bind-eq-some (zram_free_page cpu index d.zram) _ f in
      subst (Kept d) (some-inj last) (refl, refl)
  | inr (_, f) ↦ by_entry (get_elem? d.zram.table index) f
]
  where
    by_entry : (o : Option ℕ) → free_uncounted o d ≡ some d' → Kept d d'
    by_entry none q = absurd cc
    by_entry (some addr) q = elim (if-branches (touches addr) q) [
      | inl (_, r) ↦ absurd cc
      | inr (_, r) ↦ subst (Kept d) (some-inj r) (refl, refl)
    ]

reset_pages-Kept :
    (cpu n index : ℕ) (d : Disk) {d' : Disk} → reset_pages cpu n index d ≡ some d' → Kept d d'
unfolding reset_pages
reset_pages-Kept cpu zero index d e = subst (Kept d) (some-inj e) (refl, refl)
reset_pages-Kept cpu (suc n) index d e =
    let (w, freed, rest) = bind-eq-some (free_page cpu index d) _ e in
    let (a, b) = free_page-Kept cpu index d freed in
    let (a', b') = reset_pages-Kept cpu n (index + 1) w rest in (a' ∙ a, b' ∙ b)

-- What a reset leaves: no pointer, and the areas that there were.
abbrev pub IsReset : Disk → Disk → Type 0
IsReset d d' =
    (d'.init_done ≡ false)
    × (d'.has_stats ≡ false)
    × (d'.has_pool ≡ false)
    × (d'.has_table ≡ false)
    × (d'.areas ≡ d.areas)

pub zram_reset_device-IsReset :
    (ram_pages cpu : ℕ) (d : Disk) {d' : Disk}
    → zram_reset_device ram_pages cpu d ≡ some d'
    → IsReset d d'
unfolding zram_reset_device cleared
zram_reset_device-IsReset ram_pages cpu d e =
    let (w, freed, last) =
      bind-eq-some (reset_pages cpu (d.disksize / 4096) 0 (record d { init_done = false })) _ e in
    let (a, b) = reset_pages-Kept cpu (d.disksize / 4096) 0 _ freed in
    subst (IsReset d) (some-inj last) (a, refl, refl, refl, b)

-- A device that is not initialised and has no pointer.
pub idle-IsReady :
    (d : Disk)
    → d.init_done ≡ false
    → d.has_stats ≡ false
    → d.has_pool ≡ false
    → d.has_table ≡ false
    → IsReady d
idle-IsReady d a s p t = record {
  stats = s ∙ sym a;
  pool = p ∙ sym a;
  table = t ∙ sym a;
  size = λ done. absurd cc;
}

pub reset-IsReady :
    (ram_pages cpu : ℕ) (d : Disk) {d' : Disk}
    → zram_reset_device ram_pages cpu d ≡ some d'
    → IsReady d'
reset-IsReady ram_pages cpu d e =
    let (a, s, p, t, _) = zram_reset_device-IsReset ram_pages cpu d e in idle-IsReady _ a s p t
