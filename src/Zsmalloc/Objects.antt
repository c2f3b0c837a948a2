-- ===== src/Zsmalloc/Objects.antt =====
-- zsmalloc.c: the functions of a pool's clients, on one object each. Each runs under the lock of the
-- object's class, so it is one step.
use compcache.Common.{
  ℕ, zero, suc, ◌+◌, ◌-◌, ◌*◌, ◌/◌, ◌%◌, ◌^◌, true, false, Option, some, ltb, leb, ◌==◌, not, ◌||◌,
  if◌then◌else◌, sub64, add64,
}
use compcache.Zsmalloc.{
  Kernel, Page, SizeClass, State, set_page, set_class, with_mem, write_link, ◌>>=◌, ◌>>◌, bug_on,
  get_zspage_mapping, set_zspage_mapping, get_size_class_index, get_first_page, get_next_page,
  obj_handle_to_location, obj_idx_to_offset, page_size, max_alloc_size, zs_almost_full,
  zs_almost_empty, zs_empty, size_classes,
}
use compcache.Zsmalloc.Groups.{fix_fullness_group}
use compcache.Zsmalloc.Zspage.{alloc_zspage, free_zspage}

-- The groups that have a list are looked through in their order.
unfoldable pub find_get_zspage : SizeClass → ℕ
find_get_zspage c =
    if c.fullness_list zs_almost_full == 0
    then c.fullness_list zs_almost_empty
    else c.fullness_list zs_almost_full

-- `inuse` is a field of 16 bits.
abbrev pub inc16 : ℕ → ℕ
inc16 n = (n + 1) % 2 ^ 16

abbrev pub dec16 : ℕ → ℕ
dec16 n = (n + (2 ^ 16 - 1)) % 2 ^ 16

-- Lines 530-539: the zspage that the object is taken from, 0 if there is none.
unfoldable pub find_or_alloc :
    Kernel → (given : ℕ → ℕ) → (class_idx : ℕ) → State → Option (ℕ × State)
find_or_alloc k given class_idx s =
    let c = s.classes class_idx in
    if find_get_zspage c == 0
    then (do
      (first_page, m) ← alloc_zspage k given c s.mem
      if first_page == 0 then some (0, record s { mem = m }) else (do
        mapped ← set_zspage_mapping c.index zs_empty (m.pages first_page)
        let grow =
            λ (d : SizeClass). record d { pages_allocated = add64 d.pages_allocated d.zspage_order }
        some (
          first_page,
          set_class class_idx grow (record s { mem = set_page first_page (λ _. mapped) m }),
        )))
    else some (find_get_zspage c, s)

-- Lines 541-556: the head of the free list of a zspage is taken. `poison` is the word that `memset`
-- leaves.
unfoldable pub take_object : Kernel → (poison class_idx first_page : ℕ) → State → Option (ℕ × State)
take_object k poison class_idx first_page s = do
  let obj = (s.mem.pages first_page).freelist
  let (m_page, m_objidx) = obj_handle_to_location k obj
  let m_offset = obj_idx_to_offset (s.mem.pages m_page) m_objidx (s.classes class_idx).size
  let link = s.mem.words m_page (m_offset / 8)
  let taken = λ (p : Page). record p { freelist = link; inuse = inc16 p.inuse }
  (_, s') ←
      fix_fullness_group k first_page
        (with_mem (λ m. set_page first_page taken (write_link m_page (m_offset / 8) poison m)) s)
  some (obj, s')

-- The handle, 0 for NULL, and the state.
unfoldable pub zs_malloc : Kernel → (given : ℕ → ℕ) → (poison size : ℕ) → State → Option (ℕ × State)
zs_malloc k given poison size s =
    if (size == 0) || ltb max_alloc_size size then some (0, s) else (do
      let class_idx = get_size_class_index size
      bug_on (not (class_idx == (s.classes class_idx).index))
      (first_page, s') ← find_or_alloc k given class_idx s
      if first_page == 0 then some (0, s') else take_object k poison class_idx first_page s')

-- Lines 582-590: the object goes back to the free list of its zspage.
unfoldable pub put_object :
    Kernel → (obj f_page f_offset first_page : ℕ) → State → Option (ℕ × State)
put_object k obj f_page f_offset first_page s =
    let freed = λ (p : Page). record p { freelist = obj; inuse = dec16 p.inuse } in
    let head = (s.mem.pages first_page).freelist in
    fix_fullness_group k first_page
      (with_mem (λ m. set_page first_page freed (write_link f_page (f_offset / 8) head m)) s)

unfoldable pub zs_free : Kernel → ℕ → State → Option State
zs_free k obj s = if obj == 0 then some s else (do
  let (f_page, f_objidx) = obj_handle_to_location k obj
  let first_page = get_first_page s.mem f_page
  (class_idx, _) ← get_zspage_mapping (s.mem.pages first_page)
  let f_offset = obj_idx_to_offset (s.mem.pages f_page) f_objidx (s.classes class_idx).size
  (fullness, s') ← put_object k obj f_page f_offset first_page s
  if fullness == zs_empty
      then (do
        let shrink =
            λ (d : SizeClass). record d { pages_allocated = sub64 d.pages_allocated d.zspage_order }
        m ← free_zspage k first_page s'.mem
        some (record (set_class class_idx shrink s') { mem = m }))
      else some s')

-- The class of an object, its page, and its offset there.
unfoldable pub locate : Kernel → (handle : ℕ) → State → Option (ℕ × ℕ × ℕ)
locate k handle s = do
  bug_on (handle == 0)
  let (page, obj_idx) = obj_handle_to_location k handle
  (class_idx, _) ← get_zspage_mapping (s.mem.pages (get_first_page s.mem page))
  some (class_idx, page, obj_idx_to_offset (s.mem.pages page) obj_idx (s.classes class_idx).size)

-- The address of the object, and the state. `vm` is `vm->addr` of each area.
unfoldable pub zs_map_object :
    Kernel → (vm_addr : ℕ → ℕ) → (handle : ℕ) → State → Option (ℕ × State)
zs_map_object k vm_addr handle s = do
  (class_idx, page, off) ← locate k handle s
  if leb (off + (s.classes class_idx).size) page_size
      then (let at = k.kmap_atomic page in
          some (at + off, set_class class_idx (λ c. record c { vm_addr = at }) s))
      else (do
        let nextp = get_next_page s.mem page
        bug_on (nextp == 0)
        let at = vm_addr (s.classes class_idx).vm
        let mapped =
            λ (c : SizeClass). record c { locked = true; vm_ptes = (page, nextp); vm_addr = at }
        some (at + off, set_class class_idx mapped s))

unfoldable pub zs_unmap_object : Kernel → (handle : ℕ) → State → Option State
zs_unmap_object k handle s = do
  (class_idx, page, off) ← locate k handle s
  if leb (off + (s.classes class_idx).size) page_size
      then some s
      else some (set_class class_idx (λ c. record c { locked = false; vm_ptes = (0, 0) }) s)

unfoldable pub pages_from : (n i : ℕ) → (ℕ → SizeClass) → (npages : ℕ) → ℕ
pages_from zero i classes npages = npages
pages_from (suc n) i classes npages =
    pages_from n (suc i) classes (add64 npages (classes i).pages_allocated)

unfoldable pub zs_get_total_size_bytes : State → ℕ
zs_get_total_size_bytes s = pages_from size_classes 0 s.classes 0 * page_size % 2 ^ 64
