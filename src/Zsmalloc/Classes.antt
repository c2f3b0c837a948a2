-- ===== src/Zsmalloc/Classes.antt =====
-- zsmalloc.c: the size classes of a pool, made by `zs_create_pool` and torn down by `zs_destroy_pool`.
use compcache.Common.{
  ℕ, zero, suc, ◌+◌, ◌-◌, ◌*◌, ◌/◌, ◌%◌, Bool, true, false, Option, none, some, List, [], ◌∷◌, ltb,
  ◌==◌, ◌&&◌, if◌then◌else◌, update,
}
use compcache.Zsmalloc.{
  SizeClass, page_size, min_alloc_size, max_alloc_size, size_class_delta, size_classes,
  max_zspage_order,
}

-- How much of a zspage of `i` pages objects use, in percent. A class size is not 0.
unfoldable pub usedpc : (i class_size : ℕ) → ℕ
usedpc i class_size =
    let zspage_size = i * page_size in
    let waste = zspage_size % class_size in (zspage_size - waste) * 100 / zspage_size

-- The rounds of the loop from the `i`-th on.
unfoldable pub order_from : (n i max_usedpc max_usedpc_order class_size : ℕ) → ℕ
order_from zero i max_usedpc max_usedpc_order class_size = max_usedpc_order
order_from (suc n) i max_usedpc max_usedpc_order class_size =
    let better = ltb max_usedpc (usedpc i class_size) in
    order_from n (suc i) (if better then usedpc i class_size else max_usedpc)
      (if better then i else max_usedpc_order) class_size

unfoldable pub get_zspage_order : ℕ → ℕ
get_zspage_order class_size = order_from max_zspage_order 1 0 1 class_size

-- A class as `kzalloc` leaves it.
abbrev pub zeroed : SizeClass
zeroed = record {
  size = 0;
  index = 0;
  zspage_order = 0;
  locked = false;
  vm = 0;
  vm_ptes = (0, 0);
  vm_addr = 0;
  pages_allocated = 0;
  fullness_list = λ g. 0;
}

abbrev pub class_size : ℕ → ℕ
class_size i =
    let size = min_alloc_size + i * size_class_delta in
    if ltb max_alloc_size size then max_alloc_size else size

abbrev pub made : (i vm : ℕ) → SizeClass → SizeClass
made i vm c = record c {
  size = class_size i;
  index = i;
  zspage_order = get_zspage_order (class_size i);
  vm = vm;
}

-- The classes from the `i`-th on, where `alloc_vm_area` returns `vm i`, 0 for NULL. The Boolean says
-- that all calls returned an area.
unfoldable pub create_from : (vm : ℕ → ℕ) → (n i : ℕ) → (ℕ → SizeClass) → Bool × (ℕ → SizeClass)
create_from vm zero i classes = (true, classes)
create_from vm (suc n) i classes =
    let classes' = update classes i (made i (vm i) (classes i)) in
    if vm i == 0 then (false, classes') else create_from vm n (suc i) classes'

-- What `free_vm_area` is called on, in the order of the calls.
unfoldable pub destroy_from : (n i : ℕ) → (ℕ → SizeClass) → List ℕ
destroy_from zero i classes = []
destroy_from (suc n) i classes =
    let rest = destroy_from n (suc i) classes in
    if (classes i).vm == 0 then rest else (classes i).vm ∷ rest

unfoldable pub zs_destroy_pool : (ℕ → SizeClass) → List ℕ
zs_destroy_pool classes = destroy_from size_classes 0 classes

-- The pool, or `none` for NULL, and the areas that are freed. `name` says that the pool has a name, and
-- `memory` that `kzalloc` returned memory.
unfoldable pub zs_create_pool :
    (name memory : Bool) → (vm : ℕ → ℕ) → Option (ℕ → SizeClass) × List ℕ
zs_create_pool name memory vm =
    if name && memory
    then (let (done, classes) = create_from vm size_classes 0 (λ i. zeroed) in
        if done then (some classes, []) else (none, zs_destroy_pool classes))
    else (none, [])
