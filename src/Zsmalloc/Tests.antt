-- ===== src/Zsmalloc/Tests.antt =====
-- Runs of zsmalloc.c, and the theorems on it at concrete zspages.
use compcache.Common.{
  ℕ, zero, suc, inl, sym, ◌-◌, ◌+◌, ◌*◌, ◌^◌, ◌≤◌, ◌<◌, ◌≡◌, ◌≢◌, refl, true, false, none, some, [],
  ◌∷◌, ◌==◌, if◌then◌else◌, arith, update,
}
use compcache.Zsmalloc.{
  Kernel, Links, Page, Memory, State, SizeClass, get_zspage_mapping, get_size_class_index,
  get_fullness_group, set_zspage_mapping, obj_handle_to_location, get_first_page, get_next_page,
}
use compcache.Zsmalloc.Groups.{fix_fullness_group}
use compcache.Zsmalloc.Zspage.{alloc_zspage, init_zspage}
use compcache.Zsmalloc.Objects.{zs_malloc, zs_free, find_get_zspage}
use compcache.Zsmalloc.Classes.{order_from, zeroed, usedpc, get_zspage_order}
use compcache.Zsmalloc.Order.{get_zspage_order_lem}
use compcache.Zsmalloc.Fullness.{IsFixed}
use compcache.Zsmalloc.Fault.{zs_malloc-bug}
use compcache.Zsmalloc.Chain.{IsChain, IsIndexed, Absent, init_zspage-IsIndexed}
use compcache.Zsmalloc.Listed.{IsListed}
use compcache.Zsmalloc.Ring.{IsLinked}
use compcache.Zsmalloc.OnList.{IsOnList, IsOther}
use compcache.Zsmalloc.Moved.{IsMoved, fix_fullness_group_lem}
use compcache.Zsmalloc.RoundTrip.{IsRestored, zs_malloc-zs_free}

abbrev point : (entry prev next : ℕ) → Links → Links
point entry prev next l = record {
  next = update (update l.next prev entry) entry next;
  prev = update (update l.prev next entry) entry prev;
}

abbrev drop : ℕ → Links → Links
drop entry l = record {
  next = update l.next (l.prev entry) (l.next entry);
  prev = update l.prev (l.next entry) (l.prev entry);
}

abbrev alone : ℕ → Links → Links
alone entry l = record { next = update l.next entry entry; prev = update l.prev entry entry }

-- Pages that are named by their frame numbers, and lists as <linux/list.h> has them.
abbrev kernel : Kernel
kernel = record {
  init_list_head = alone;
  list_add = λ entry head l. point entry head (l.next head) l;
  list_add_tail = λ entry head l. point entry (l.prev head) head l;
  list_del = drop;
  list_del_init = λ entry l. alone entry (drop entry l);
  list_empty = λ head l. l.next head == head;
  page_to_pfn = λ page. page;
  pfn_to_page = λ pfn. pfn;
  kmap_atomic = λ page. page * 4096;
  reset_page_mapcount = λ inuse objects. (65535, 65535);
}

abbrev blank : Page
blank = record {
  first = false;
  last = false;
  mapping = 0;
  freelist = 0;
  inuse = 0;
  objects = 0;
  private = 0;
  first_page = 0;
}

-- Page 5 is a zspage of class 5, whose objects have 112 bytes, with 9 of 36 objects in use, and is
-- the only one of its group. The head of its free list is its object 3.
abbrev zspage : Page
zspage = record blank {
  first = true;
  last = true;
  mapping = 5 * 2 ^ 4 + 1;
  freelist = 5 * 2 ^ 30 + 3;
  inuse = 9;
  objects = 36;
}

abbrev memory : Memory
memory = record {
  pages = update (λ i. blank) 5 zspage;
  words = λ page i. 0;
  links = record { next = λ i. i; prev = λ i. i };
  freed = [];
}

abbrev class5 : SizeClass
class5 = record zeroed {
  size = 112;
  index = 5;
  zspage_order = 1;
  fullness_list = update (λ g. 0) 1 5;
}

abbrev state : State
state = record { classes = update (λ i. zeroed) 5 class5; mem = memory }

get_zspage_order_lem_example :
    (1 ≤ get_zspage_order 1536)
    × (get_zspage_order 1536 ≤ 4)
    × ((j : ℕ) → 1 ≤ j → j ≤ 4 → usedpc j 1536 ≤ usedpc (get_zspage_order 1536) 1536)
    × ((j : ℕ)
        → 1 ≤ j
        → j < get_zspage_order 1536
        → usedpc j 1536 < usedpc (get_zspage_order 1536) 1536)
get_zspage_order_lem_example = get_zspage_order_lem 1536

order_of_1536 : get_zspage_order 1536 ≡ 3
unfolding get_zspage_order order_from usedpc
order_of_1536 = refl

-- `alloc_vm_area` gives every class its area.
abbrev vm : ℕ → ℕ
vm i = i + 100

-- It fails for class 2.
abbrev short : ℕ → ℕ
short i = if i == 2 then 0 else i + 100

abbrev fresh_pages : ℕ → ℕ
fresh_pages i = if i == 0 then 9 else 0

abbrev class94 : SizeClass
class94 = record zeroed { size = 1536; index = 94; zspage_order = 3 }

abbrev state94 : State
state94 = record { classes = update (λ i. zeroed) 94 class94; mem = memory }

zs_malloc-bug_example :
    (zs_malloc kernel fresh_pages 0 1530 state94 ≡ none)
    × ((memory.pages 9).inuse ≡ 0
        → (m : Memory) × (alloc_zspage kernel fresh_pages class94 memory ≡ some (9, m))
          × (m.freed ≡ 9 ∷ [])
          × ((group : ℕ) → set_zspage_mapping 94 group (m.pages 9) ≡ none))
    × ((memory.pages 9).inuse ≢ 0 → alloc_zspage kernel fresh_pages class94 memory ≡ none)
unfolding get_size_class_index find_get_zspage
zs_malloc-bug_example =
    zs_malloc-bug kernel fresh_pages 0 1530 state94 (omega arith) (omega arith)
      (refl, refl, omega arith) (ground arith) refl

abbrev pair : Memory
pair = record memory {
  pages =
      update (update (λ i. blank) 7 (record blank { last = true; first_page = 6 })) 6
        (record blank { first = true; private = 7 });
}

state-IsListed : IsListed 5 5 1 state
unfolding get_zspage_mapping
state-IsListed = record { real = ground arith; mapping = refl; listed = λ l. ground arith }

-- One more object is in use than the group of the zspage says, and its class has page 8 in the other list.
abbrev stale : State
stale = record state {
  classes =
      update (λ i. zeroed) 5 (record class5 { fullness_list = update (update (λ g. 0) 1 5) 0 8 });
  mem = record memory { pages = update (λ i. blank) 5 (record zspage { inuse = 10 }) };
}

kernel-IsLinked : IsLinked kernel
kernel-IsLinked = record {
  list_add_tail = λ entry head l. refl;
  list_del_init = λ entry l. refl;
  list_empty = λ head l. refl;
}

stale-IsOnList : IsOnList 5 5 1 [] stale
stale-IsOnList = record {
  ring = (refl, refl);
  apart = tt;
  real = (ground arith, tt);
  head = λ l. inl refl;
  alone = λ l. refl;
}

-- The other list of the class has page 8.
stale-IsOther : (g : ℕ) → g < 2 → g ≢ 1 → IsOther 5 5 g [] (8 ∷ []) stale
stale-IsOther zero lt ne = record {
  ring = (refl, refl);
  head = refl;
  other = (ground arith, tt);
  apart = (tt, tt);
  real = (ground arith, tt);
}
stale-IsOther (suc zero) lt ne = absurd (ne refl)
stale-IsOther (suc (suc g)) lt ne = absurd (omega arith)

fix_fullness_group_lem_example :
    (g : ℕ) × (t : State) × (fix_fullness_group kernel 5 stale ≡ some (g, t))
    × (get_zspage_mapping (t.mem.pages 5) ≡ some (5, g))
    × (g ≡ 1 → IsOnList 5 5 g [] t)
    × (g ≢ 1 → IsMoved 5 5 1 [] (8 ∷ []) g t)
    × IsFixed 5 stale g t
unfolding get_zspage_mapping
fix_fullness_group_lem_example =
    fix_fullness_group_lem kernel 5 5 1 [] (λ g. 8 ∷ []) stale kernel-IsLinked refl stale-IsOnList
      stale-IsOther

zs_malloc-zs_free_example :
    (t u : State) × (zs_malloc kernel fresh_pages 0 100 state ≡ some (5 * 2 ^ 30 + 3, t))
    × (zs_free kernel (5 * 2 ^ 30 + 3) t ≡ some u)
    × IsRestored 5 state u
unfolding get_first_page get_fullness_group get_size_class_index find_get_zspage
    obj_handle_to_location
zs_malloc-zs_free_example =
    zs_malloc-zs_free kernel 0 5 1 5 5 3 state state-IsListed refl refl (ground arith)
      (ground arith) (omega arith) refl fresh_pages 100 (omega arith) (omega arith) refl refl refl

-- Pages 5, 6 and 7 are a zspage for objects of 1536 bytes.
abbrev three : Memory
three = record memory {
  pages = λ i.
      if i == 5
      then record blank { first = true; private = 6 }
      else record blank { last = i == 7; first_page = 5 };
  links = record { next = λ i. i + 1; prev = λ i. i - 1 };
}

init_zspage-IsIndexed_example :
    (m : Memory) × (init_zspage kernel 5 1536 three ≡ some m)
    × IsIndexed 1536 5 m 4096 (6 ∷ (7 ∷ []))
    × ((i : ℕ) → Absent i (6 ∷ (7 ∷ [])) → m.pages i ≡ three.pages i)
    × IsChain m 5 (5 ∷ (6 ∷ (7 ∷ [])))
    × (m.freed ≡ [])
unfolding get_next_page
init_zspage-IsIndexed_example =
    init_zspage-IsIndexed kernel 5 1536 (6 ∷ (7 ∷ [])) three (omega arith) (omega arith) refl
      (refl, ground arith, (refl, ground arith, (refl, ground arith, refl)))
      ((ground arith, (ground arith, tt)), ((ground arith, tt), (tt, tt))) (sym order_of_1536)
