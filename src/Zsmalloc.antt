-- ===== src/Zsmalloc.antt =====
-- sub-projects/allocators/zsmalloc-kmod/zsmalloc.c and zsmalloc_int.h: the pages of a zspage, its
-- handles, its mapping word and its fullness group. A page is the address of its `struct page`, 0 for
-- NULL. A `BUG_ON` that fires is `none`.
pub mod Groups
pub mod Zspage
pub mod Objects
pub mod Classes
pub mod Order
pub mod Handles
pub mod Create
pub mod Fullness
pub mod Start
pub mod InitPage
pub mod Chain
pub mod Fault
pub mod Ring
pub mod Listed
pub mod OnList
pub mod Moved
pub mod RoundTrip
mod Tests
use compcache.Common.{
  ℕ, zero, suc, ◌+◌, ◌-◌, ◌*◌, ◌/◌, ◌%◌, ◌^◌, Bool, true, false, Option, none, some, List, [], ◌∷◌,
  ltb, leb, ◌==◌, not, if◌then◌else◌, update, ◌≡◌, refl,
}

abbrev pub page_size : ℕ
page_size = 4096

-- `ZS_MIN_ALLOC_SIZE`
abbrev pub min_alloc_size : ℕ
min_alloc_size = 32

-- `ZS_MAX_ALLOC_SIZE`
abbrev pub max_alloc_size : ℕ
max_alloc_size = page_size

-- `ZS_SIZE_CLASS_DELTA`
abbrev pub size_class_delta : ℕ
size_class_delta = 16

-- `ZS_SIZE_CLASSES`
abbrev pub size_classes : ℕ
size_classes = (max_alloc_size - min_alloc_size) / size_class_delta + 1

abbrev pub max_zspage_order : ℕ
max_zspage_order = 4

-- `enum fullness_group`, by its values: the constants of the groups that have a list come first, and
-- `_ZS_NR_FULLNESS_GROUPS` is their number.
abbrev pub zs_almost_full : ℕ
zs_almost_full = 0

abbrev pub zs_almost_empty : ℕ
zs_almost_empty = 1

abbrev pub nr_fullness_groups : ℕ
nr_fullness_groups = 2

abbrev pub zs_empty : ℕ
zs_empty = 3

abbrev pub zs_full : ℕ
zs_full = 4

abbrev pub fullness_threshold_frac : ℕ
fullness_threshold_frac = 4

-- `OBJ_INDEX_BITS` on a 64-bit machine whose `MAX_PHYSMEM_BITS` is 46.
abbrev pub obj_index_bits : ℕ
obj_index_bits = 30

-- The `lru` lists, by page: the page of the entry that follows, and of the one before.
pub record Links : Type 0 where
  pub next : ℕ → ℕ
  pub prev : ℕ → ℕ

-- What the code uses of the kernel: <linux/list.h> on the `lru` entries of pages, the number of a page
-- frame, and what `reset_page_mapcount` leaves in the fields `inuse` and `objects`, which lie over the
-- map count of a page.
pub record Kernel : Type 0 where
  pub init_list_head : ℕ → Links → Links
  pub list_add : (entry head : ℕ) → Links → Links
  pub list_add_tail : (entry head : ℕ) → Links → Links
  pub list_del : ℕ → Links → Links
  pub list_del_init : ℕ → Links → Links
  pub list_empty : ℕ → Links → Bool
  pub page_to_pfn : ℕ → ℕ
  pub pfn_to_page : ℕ → ℕ
  pub kmap_atomic : ℕ → ℕ
  pub reset_page_mapcount : (inuse objects : ℕ) → ℕ × ℕ

-- The fields of a `struct page`. `first` and `last` are its bits PG_private and PG_private_2, and
-- `freelist` is the field that a sub-page uses under its other name `index`.
pub record Page : Type 0 where
  pub first : Bool
  pub last : Bool
  pub mapping : ℕ
  pub freelist : ℕ
  pub inuse : ℕ
  pub objects : ℕ
  pub private : ℕ
  pub first_page : ℕ

-- `words page i` is the `struct link_free` in the `i`-th eight bytes of a page. `freed` is what
-- `__free_page` was called on, the latest first.
pub record Memory : Type 0 where
  pub pages : ℕ → Page
  pub words : ℕ → ℕ → ℕ
  pub links : Links
  pub freed : List ℕ

abbrev pub set_page : ℕ → (Page → Page) → Memory → Memory
set_page p f m = record m { pages = update m.pages p (f (m.pages p)) }

abbrev pub write_link : (page i handle : ℕ) → Memory → Memory
write_link page i handle m = record m {
  words = update m.words page (update (m.words page) i handle);
}

-- `struct size_class`. `vm` is the address of its area, 0 for NULL, and `vm_ptes` the pages mapped in
-- it; the lock is only recorded where a function returns with it held.
pub record SizeClass : Type 0 where
  pub size : ℕ
  pub index : ℕ
  pub zspage_order : ℕ
  pub locked : Bool
  pub vm : ℕ
  pub vm_ptes : ℕ × ℕ
  pub vm_addr : ℕ
  pub pages_allocated : ℕ
  pub fullness_list : ℕ → ℕ

-- A pool, with the memory that it stands in.
pub record State : Type 0 where
  pub classes : ℕ → SizeClass
  pub mem : Memory

abbrev pub set_class : ℕ → (SizeClass → SizeClass) → State → State
set_class i f s = record s { classes = update s.classes i (f (s.classes i)) }

abbrev pub with_mem : (Memory → Memory) → State → State
with_mem f s = record s { mem = f s.mem }

infixl 5 ◌>>=◌ ◌>>◌
abbrev pub ◌>>=◌ {ℓ κ} : {A : Type ℓ} {B : Type κ} → Option A → (A → Option B) → Option B
none >>= f = none
some a >>= f = f a

abbrev pub ◌>>◌ {ℓ} : {B : Type ℓ} → Option (Unit {0}) → Option B → Option B
m >> k = m >>= λ _. k

abbrev pub bug_on : Bool → Option (Unit {0})
bug_on true = none
bug_on false = some tt

-- The index of the class, and the fullness group.
unfoldable pub get_zspage_mapping : Page → Option (ℕ × ℕ)
get_zspage_mapping p = do bug_on (not p.first); some (p.mapping / 2 ^ 4 % 2 ^ 28, p.mapping % 2 ^ 4)

unfoldable pub set_zspage_mapping : (class_idx fullness : ℕ) → Page → Option Page
set_zspage_mapping class_idx fullness p = do
  bug_on (not p.first)
  some (record p { mapping = class_idx % 2 ^ 28 * 2 ^ 4 + fullness % 2 ^ 4 })

-- `DIV_ROUND_UP` is the quotient rounded up.
unfoldable pub get_size_class_index : ℕ → ℕ
get_size_class_index size =
    if ltb min_alloc_size size
    then (size - min_alloc_size + (size_class_delta - 1)) / size_class_delta
    else 0

unfoldable pub get_fullness_group : Page → Option ℕ
get_fullness_group p = do
  bug_on (not p.first)
  some (
      if p.inuse == 0
      then zs_empty
      else (if p.inuse == p.objects
          then zs_full
          else (if leb p.inuse (p.objects / fullness_threshold_frac)
              then zs_almost_empty
              else zs_almost_full)))

unfoldable pub get_first_page : Memory → ℕ → ℕ
get_first_page m page = if (m.pages page).first then page else (m.pages page).first_page

unfoldable pub get_next_page : Memory → ℕ → ℕ
get_next_page m page =
    let p = m.pages page in if p.last then 0 else (if p.first then p.private else m.links.next page)

unfoldable pub obj_location_to_handle : Kernel → (page obj_idx : ℕ) → Option ℕ
obj_location_to_handle k page obj_idx =
    if page == 0
    then (do bug_on (not (obj_idx == 0)); some 0)
    else some (k.page_to_pfn page * 2 ^ obj_index_bits % 2 ^ 64 + obj_idx % 2 ^ obj_index_bits)

unfoldable pub obj_handle_to_location : Kernel → ℕ → ℕ × ℕ
obj_handle_to_location k handle =
    (k.pfn_to_page (handle / 2 ^ obj_index_bits), handle % 2 ^ obj_index_bits)

unfoldable pub obj_idx_to_offset : Page → (obj_idx class_size : ℕ) → ℕ
obj_idx_to_offset p obj_idx class_size =
    let off = if p.first then 0 else p.freelist in (off + obj_idx * class_size) % 2 ^ 64

-- A chain that returns a value has returned one at its first step.
pub bind-some {ℓ κ} :
    {A : Type ℓ} {B : Type κ} (m : Option A) (f : A → Option B) {b : B}
    → (m >>= f) ≡ some b
    → (a : A) × (m ≡ some a) × (f a ≡ some b)
bind-some (some a) f h = (a, refl, h)
bind-some none f h = cc

pub bug_on-false : (b : Bool) → bug_on b ≡ some tt → b ≡ false
bug_on-false true e = cc
bug_on-false false e = refl
