-- ===== src/HashTable/Find.antt =====
-- `ht_insert_item`, `ht_find_item` and `ht_remove_item` of hashtable.c together.
use compcache.Common.{ℕ, suc, ◌+◌, ◌%◌, ◌^◌, ◌≡◌, ◌≢◌, ap, ◌∙◌, true, false, ◌==◌, arith}
use compcache.HashTable.{
  Table, nowhere, key_isequal_128, hash_128, hlist_add_head, find_from, ht_find_key, ht_find_item,
  ht_insert_item, ht_remove_item,
}
use compcache.HashTable.Chain.{hlist_add_head-IsAdded, hlist_del_init-IsDeleted}

find_from-first :
    (fuel node lo hi : ℕ) (t : Table)
    → node ≢ 0
    → t.key_lo node ≡ lo
    → t.key_hi node ≡ hi
    → find_from (suc fuel) t lo hi node ≡ node
unfolding find_from key_isequal_128
find_from-first fuel node lo hi t ne a b = ground arith

ht_find_item-first :
    (fuel node lo hi out : ℕ) (t : Table)
    → node ≢ 0
    → t.key_lo node ≡ lo
    → t.key_hi node ≡ hi
    → t.first (hash_128 lo hi t.order) ≡ node
    → ht_find_item (suc fuel) t lo hi out ≡ record { found = true; item = node }
unfolding ht_find_item ht_find_key
ht_find_item-first fuel node lo hi out t ne a b f =
    let n : (node == 0) ≡ false = ground arith in
    rw (f, find_from-first fuel node lo hi t ne a b, n)

-- An item, not NULL, that was just inserted is found under its key, in any table and with any fuel
-- but 0: no other item is reached before it.
pub ht_find_item-insert :
    (fuel item out : ℕ) (t : Table)
    → item ≢ 0
    → ht_find_item (suc fuel) (ht_insert_item item t) (t.key_lo item) (t.key_hi item) out
      ≡ record { found = true; item = item }
unfolding ht_insert_item
ht_find_item-insert fuel item out t ne =
    let i = hash_128 (t.key_lo item) (t.key_hi item) t.order in
    let a = hlist_add_head-IsAdded item i t in
    let same : (i == i) ≡ true = ground arith in
    ht_find_item-first fuel item (t.key_lo item) (t.key_hi item) out _ ne
      (ap (λ f. f item) a.key_lo) (ap (λ f. f item) a.key_hi)
      (ap (λ o. (hlist_add_head item i t).first (hash_128 (t.key_lo item) (t.key_hi item) o))
          a.order
        ∙ ap (λ f. f i) a.first
        ∙ rw same)

-- Removing the item that was inserted last gives each list its old first item, and the count its
-- old value modulo 2 ^ 32; the item's node is unhashed, and no other node's successor has changed.
pub remove-insert :
    (item : ℕ) (t : Table)
    → let i = hash_128 (t.key_lo item) (t.key_hi item) t.order in
      let t' = ht_remove_item item (ht_insert_item item t) in
      ((j : ℕ) → t'.first j ≡ t.first j)
      × (t'.count_items ≡ t.count_items % 2 ^ 32)
      × (t'.pprev item ≡ nowhere)
      × ((n : ℕ) → n ≢ item → t'.next n ≡ t.next n)
unfolding ht_remove_item ht_insert_item
remove-insert item t =
    let i = hash_128 (t.key_lo item) (t.key_hi item) t.order in
    let h = hlist_add_head item i t in
    let a = hlist_add_head-IsAdded item i t in
    let counted = record h { count_items = (h.count_items + 1) % 2 ^ 32 } in
    let d = hlist_del_init-IsDeleted item i counted a.own in
    let first = λ (j : ℕ). ap (λ f. f j) a.first in
    let next = λ (n : ℕ). ap (λ f. f n) a.next in
    let here = λ (j : ℕ) (e : j ≡ i). ap t.first e in
    (
      λ j. ap (λ f. f j) d.first ∙ ground (arith, first j, next item, here j),
      omega (arith, d.count, a.count),
      d.own,
      λ n other. ap (λ f. f n) d.next ∙ ground (arith, next n),
    )
