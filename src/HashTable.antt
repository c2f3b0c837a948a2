-- ===== src/HashTable.antt =====
-- sub-projects/lib: the hash table of hashtable.c and the linked lists of list.h.
--
-- Items are numbers, and 0 is NULL; the node in an item stands for the item (`hlist_entry`). The
-- fields of all items are functions of the item. Where a node's `pprev` points is a place.
pub mod Hash
pub mod Chain
pub mod Find
mod Tests
use compcache.Common.{
  ℕ, zero, suc, ◌+◌, ◌-◌, ◌*◌, ◌/◌, ◌%◌, ◌^◌, Bool, true, false, ◌&&◌, ◌==◌, if◌then◌else◌, update,
  add32, sub32, add64, sub64,
}

-- What a `struct hlist_node **` points at: nothing, the `first` of a list head, the `next` of a node.
pub data Place : Type 0 where
  nowhere : Place
  first_of : ℕ → Place
  next_of : ℕ → Place

-- `struct hash_table`, with the fields of its `struct hash_item`s. The lock is not modelled.
pub record Table : Type 0 where
  pub order : ℕ
  pub size : ℕ
  pub count_items : ℕ
  pub allocated : Bool
  pub first : ℕ → ℕ
  pub next : ℕ → ℕ
  pub pprev : ℕ → Place
  pub key_lo : ℕ → ℕ
  pub key_hi : ℕ → ℕ

-- `n <<= k`
abbrev pub shl64 : ℕ → ℕ → ℕ
shl64 n k = n * 2 ^ k % 2 ^ 64

-- The sum before the final shift.
unfoldable pub hash_sum : ℕ → ℕ
hash_sum val =
    let n1 = shl64 val 18 in
    let n2 = shl64 n1 33 in
    let n3 = shl64 n2 3 in
    let n4 = shl64 n3 3 in
    let n5 = shl64 n4 4 in
    let n6 = shl64 n5 2 in add64 (add64 (sub64 (add64 (sub64 (sub64 val n1) n2) n3) n4) n5) n6

-- For 1 to 64 bits. With 0 bits C leaves the shift undefined.
unfoldable pub hash_64 : ℕ → ℕ → ℕ
hash_64 val bits = hash_sum val / 2 ^ (64 - bits)

unfoldable pub hash_128 : ℕ → ℕ → ℕ → ℕ
hash_128 lo hi bits = add64 (shl64 (hash_64 lo (bits / 2)) (bits / 2)) (hash_64 hi (bits / 2))

unfoldable pub key_isequal_128 : (lo hi lo' hi' : ℕ) → Bool
key_isequal_128 lo hi lo' hi' = (lo == lo') && (hi == hi')

unfoldable pub hlist_unhashed : Place → Bool
hlist_unhashed nowhere = true
hlist_unhashed (first_of i) = false
hlist_unhashed (next_of n) = false

-- `*p = node`
unfoldable pub write_place : Place → ℕ → Table → Table
write_place nowhere node t = t
write_place (first_of i) node t = record t { first = update t.first i node }
write_place (next_of n) node t = record t { next = update t.next n node }

-- `if (node) node->pprev = p`
abbrev pub point_back : ℕ → Place → Table → Table
point_back node p t = if node == 0 then t else record t { pprev = update t.pprev node p }

-- `__hlist_del`
unfoldable pub hlist_del : ℕ → Table → Table
hlist_del n t = point_back (t.next n) (t.pprev n) (write_place (t.pprev n) (t.next n) t)

unfoldable pub init_hlist_node : ℕ → Table → Table
init_hlist_node n t = record t { next = update t.next n 0; pprev = update t.pprev n nowhere }

unfoldable pub hlist_del_init : ℕ → Table → Table
hlist_del_init n t = if hlist_unhashed (t.pprev n) then t else init_hlist_node n (hlist_del n t)

unfoldable pub hlist_add_head : ℕ → ℕ → Table → Table
hlist_add_head n i t =
    let old = t.first i in
    let linked = record t { next = update t.next n old } in
    let back = point_back old (next_of n) linked in
    record back { first = update back.first i n; pprev = update back.pprev n (first_of i) }

unfoldable pub hlist_add_after : (n new : ℕ) → Table → Table
hlist_add_after n new t =
    let linked = record t { next = update (update t.next new (t.next n)) n new } in
    let back = record linked { pprev = update linked.pprev new (next_of n) } in
    point_back (back.next new) (next_of new) back

-- The loop `hlist_for_each` of `ht_find_key`, with fuel: 0, as for a key that is not there, when the
-- fuel runs out.
unfoldable pub find_from : ℕ → Table → (lo hi : ℕ) → ℕ → ℕ
find_from zero t lo hi node = 0
find_from (suc fuel) t lo hi node =
    let rest = find_from fuel t lo hi (t.next node) in
    if node == 0
    then 0
    else (if key_isequal_128 (t.key_lo node) (t.key_hi node) lo hi then node else rest)

-- The node with the key, or 0.
unfoldable pub ht_find_key : ℕ → Table → (lo hi : ℕ) → ℕ
ht_find_key fuel t lo hi = find_from fuel t lo hi (t.first (hash_128 lo hi t.order))

-- What `ht_find_item` returns: whether it found the key, and the item.
pub record Lookup : Type 0 where
  pub found : Bool
  pub item : ℕ

unfoldable pub ht_find_item : ℕ → Table → (lo hi item : ℕ) → Lookup
ht_find_item fuel t lo hi item =
    let node = ht_find_key fuel t lo hi in
    if node == 0
    then record { found = false; item = item }
    else record { found = true; item = node }

unfoldable pub ht_insert_item : ℕ → Table → Table
ht_insert_item item t =
    let t' = hlist_add_head item (hash_128 (t.key_lo item) (t.key_hi item) t.order) t in
    record t' { count_items = add32 t'.count_items 1 }

unfoldable pub ht_remove_item : ℕ → Table → Table
ht_remove_item item t =
    let t' = hlist_del_init item t in record t' { count_items = sub32 t'.count_items 1 }

-- The loop over the `n` list heads from `i` on.
unfoldable pub init_heads : ℕ → ℕ → (ℕ → ℕ) → ℕ → ℕ
init_heads zero i first = first
init_heads (suc n) i first = init_heads n (suc i) (update first i 0)

-- For an order of at most 30, beyond which `1 << order` overflows. `memory` is whether `malloc` gives
-- memory, and the Boolean of the result says that it did.
unfoldable pub ht_create : Bool → ℕ → Table → Bool × Table
ht_create memory order t =
    let size = 2 ^ order in
    let t' = record t { size = size; order = order; count_items = 0; allocated = memory } in
    if memory then (true, record t' { first = init_heads size 0 t.first }) else (false, t')

unfoldable pub ht_destroy : Table → Table
ht_destroy t = record t { allocated = false }
