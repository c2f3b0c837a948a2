-- ===== src/HashTable/Tests.antt =====
-- Runs of the hash table, and the theorems at concrete tables.
use compcache.Common.{ℕ, ◌*◌, ◌/◌, ◌-◌, ◌%◌, ◌^◌, ◌≡◌, ◌≢◌, true, arith}
use compcache.HashTable.{Table, nowhere, hash_64, ht_insert_item, ht_remove_item}
use compcache.HashTable.Hash.{hash_64_lem}
use compcache.HashTable.Find.{remove-insert}

-- An empty table of 16 lists. The key of item `n` is <n, 5>.
abbrev sixteen : Table
sixteen = record {
  order = 4;
  size = 16;
  count_items = 0;
  allocated = true;
  first = λ i. 0;
  next = λ n. 0;
  pprev = λ n. nowhere;
  key_lo = λ n. n;
  key_hi = λ n. 5;
}

hash_64_lem_example : hash_64 12345 16 ≡ 12345 * 0x9e37fffffffc0001 % 2 ^ 64 / 2 ^ (64 - 16)
hash_64_lem_example = hash_64_lem 12345 16 (omega arith) (omega arith) (omega arith)

remove-insert_example :
    ((j : ℕ) → (ht_remove_item 9 (ht_insert_item 9 sixteen)).first j ≡ sixteen.first j)
    × ((ht_remove_item 9 (ht_insert_item 9 sixteen)).count_items ≡ sixteen.count_items % 2 ^ 32)
    × ((ht_remove_item 9 (ht_insert_item 9 sixteen)).pprev 9 ≡ nowhere)
    × ((n : ℕ) → n ≢ 9 → (ht_remove_item 9 (ht_insert_item 9 sixteen)).next n ≡ sixteen.next n)
remove-insert_example = remove-insert 9 sixteen
