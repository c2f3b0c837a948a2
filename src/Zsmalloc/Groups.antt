-- ===== src/Zsmalloc/Groups.antt =====
-- zsmalloc.c: the lists of the fullness groups of a size class.
use compcache.Common.{ℕ, Option, some, leb, ◌==◌, not, if◌then◌else◌, update}
use compcache.Zsmalloc.{
  Kernel, Links, Memory, SizeClass, State, set_page, set_class, with_mem, ◌>>=◌, ◌>>◌, bug_on,
  get_zspage_mapping, set_zspage_mapping, get_fullness_group, nr_fullness_groups,
}

abbrev pub set_head : (fullness page : ℕ) → SizeClass → SizeClass
set_head fullness page c = record c { fullness_list = update c.fullness_list fullness page }

abbrev pub set_links : (Links → Links) → Memory → Memory
set_links f m = record m { links = f m.links }

unfoldable pub insert_zspage : Kernel → (page class_idx fullness : ℕ) → State → Option State
insert_zspage k page class_idx fullness s = do
  bug_on (not (s.mem.pages page).first)
  if leb nr_fullness_groups fullness
      then some s
      else (let head = (s.classes class_idx).fullness_list fullness in
          let linked =
            if head == 0 then s else with_mem (set_links (k.list_add_tail page head)) s in
          some (set_class class_idx (set_head fullness page) linked))

unfoldable pub remove_zspage : Kernel → (page class_idx fullness : ℕ) → State → Option State
remove_zspage k page class_idx fullness s = do
  bug_on (not (s.mem.pages page).first)
  if leb nr_fullness_groups fullness then some s else (do
    let head = (s.classes class_idx).fullness_list fullness
    bug_on (head == 0)
    let head' =
        if k.list_empty head s.mem.links
        then 0
        else (if head == page then s.mem.links.next head else head)
    some (
        with_mem (set_links (k.list_del_init page))
          (set_class class_idx (set_head fullness head') s)))

-- The new fullness group, and the state.
unfoldable pub fix_fullness_group : Kernel → ℕ → State → Option (ℕ × State)
fix_fullness_group k page s = do
  (class_idx, currfg) ← get_zspage_mapping (s.mem.pages page)
  newfg ← get_fullness_group (s.mem.pages page)
  if newfg == currfg then some (newfg, s) else (do
    removed ← remove_zspage k page class_idx currfg s
    inserted ← insert_zspage k page class_idx newfg removed
    mapped ← set_zspage_mapping class_idx newfg (inserted.mem.pages page)
    some (newfg, with_mem (set_page page (λ _. mapped)) inserted))
