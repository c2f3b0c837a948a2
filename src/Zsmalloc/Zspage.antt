-- ===== src/Zsmalloc/Zspage.antt =====
-- zsmalloc.c: a zspage is allocated, its free list is laid out, and it is freed.
use compcache.Common.{
  ℕ, zero, suc, ◌+◌, ◌-◌, ◌*◌, ◌/◌, ◌%◌, Bool, true, false, Option, none, some, ◌∷◌, ltb, leb, ◌==◌,
  not, if◌then◌else◌,
}
use compcache.Zsmalloc.{
  Kernel, Page, Memory, SizeClass, set_page, write_link, ◌>>=◌, ◌>>◌, bug_on, get_next_page,
  obj_location_to_handle, page_size, max_zspage_order,
}
use compcache.Zsmalloc.Groups.{set_links}

-- `__free_page`
abbrev pub free_page : ℕ → Memory → Memory
free_page page m = record m { freed = page ∷ m.freed }

-- `list_for_each_entry_safe(nextp, tmp, &nextp->lru, lru)`, at most `n` rounds from `nextp` on. The
-- loop goes on while the iterator is not the head, and the head is written as the iterator's own entry.
unfoldable pub free_subpages : Kernel → ℕ → ℕ → Memory → Memory
free_subpages k zero nextp m = m
free_subpages k (suc n) nextp m =
    let head = nextp in
    if nextp == head
    then m
    else (let tmp = m.links.next nextp in
        let cleared = λ (p : Page). record p { last = false; freelist = 0 } in
        free_subpages k n tmp
          (free_page nextp (set_page nextp cleared (set_links (k.list_del nextp) m))))

unfoldable pub free_zspage : Kernel → ℕ → Memory → Option Memory
free_zspage k first_page m = do
  bug_on (not (m.pages first_page).first)
  bug_on (not ((m.pages first_page).inuse == 0))
  let nextp = (m.pages first_page).private
  let cleared = λ (p : Page).
      let (inuse, objects) = k.reset_page_mapcount p.inuse p.objects in
      record p {
        first = false;
        last = false;
        private = 0;
        mapping = 0;
        freelist = 0;
        inuse = inuse;
        objects = objects;
      }
  let m' = free_page first_page (set_page first_page cleared m)
  if nextp == 0 then some m' else some (free_subpages k max_zspage_order (m'.links.next nextp) m')

-- Lines 330-336: the links of the objects on a page, from the `i`-th on. What is left is the offset
-- that the loop ends with, and the index of the last link.
unfoldable pub init_links :
    Kernel → (objs i page size off link : ℕ) → Memory → Option (ℕ × ℕ × Memory)
init_links k zero i page size off link m = some (off, link, m)
init_links k (suc objs) i page size off link m = do
  let off' = off + size
  (link', m') ←
      (if ltb off' page_size
        then (do
          handle ← obj_location_to_handle k page i
          some (link + size / 8, write_link page link handle m))
        else some (link, m))
  init_links k objs (suc i) page size off' link' m'

-- Lines 313-347: one page. The first object on the next page is at the offset that is returned.
unfoldable pub init_page : Kernel → (first_page page size off : ℕ) → Memory → Option (ℕ × Memory)
init_page k first_page page size off m = do
  let indexed = if page == first_page then m else set_page page (λ p. record p { freelist = off }) m
  (off', link, m') ← init_links k ((page_size - off) / size) 1 page size off (off / 8) indexed
  handle ← obj_location_to_handle k (get_next_page m' page) 0
  some ((off' + size) % page_size, write_link page link handle m')

-- `none` also where `n` pages are not all.
unfoldable pub init_pages : Kernel → (n first_page page size off : ℕ) → Memory → Option Memory
init_pages k zero first_page page size off m = if page == 0 then some m else none
init_pages k (suc n) first_page page size off m = if page == 0 then some m else (do
  (off', m') ← init_page k first_page page size off m
  init_pages k n first_page (get_next_page m' page) size off' m')

unfoldable pub init_zspage : Kernel → (first_page size : ℕ) → Memory → Option Memory
init_zspage k first_page size m = do
  bug_on (not (m.pages first_page).first)
  init_pages k max_zspage_order first_page first_page size 0 m

-- Lines 378-391: the `i`-th page of a zspage of `order` pages.
unfoldable pub link_page : Kernel → (order i page first_page prev_page : ℕ) → Memory → Memory
link_page k order i page first_page prev_page m =
    let m0 = set_links (k.init_list_head page) m in
    let m1 =
      if i == 0 then set_page page (λ p. record p { first = true; private = 0 }) m0 else m0 in
    let m2 = if i == 1 then set_page first_page (λ p. record p { private = page }) m1 else m1 in
    let m3 = if leb 1 i then set_page page (λ p. record p { first_page = first_page }) m2 else m2 in
    let m4 = if leb 2 i then set_links (k.list_add page prev_page) m3 else m3 in
    if i == order - 1 then set_page page (λ p. record p { last = true }) m4 else m4

-- The pages that are still to be allocated, from the `i`-th on, where `alloc_page` returns `given i`.
-- The Boolean says that all calls returned a page.
unfoldable pub alloc_pages :
    Kernel → (given : ℕ → ℕ) → (n i order first_page prev_page : ℕ) → Memory → Bool × ℕ × Memory
alloc_pages k given zero i order first_page prev_page m = (true, first_page, m)
alloc_pages k given (suc n) i order first_page prev_page m =
    let page = given i in
    if page == 0
    then (false, first_page, m)
    else (let first' = if i == 0 then page else first_page in
        alloc_pages k given n (suc i) order first' page
          (link_page k order i page first' prev_page m))

-- The page that is returned, and the memory.
unfoldable pub alloc_zspage : Kernel → (given : ℕ → ℕ) → SizeClass → Memory → Option (ℕ × Memory)
alloc_zspage k given c m = do
  let (done, first_page, m') = alloc_pages k given c.zspage_order 0 c.zspage_order 0 0 m
  if done
      then (do
        linked ← init_zspage k first_page c.size m'
        handle ← obj_location_to_handle k first_page 0
        let start = λ (p : Page). record p {
          freelist = handle;
          inuse = 0;
          objects = c.zspage_order * page_size / c.size;
        }
        some (first_page, set_page first_page start linked))
      else (if first_page == 0
          then some (0, m')
          else (do m'' ← free_zspage k first_page m'; some (first_page, m'')))
