-- ===== src/HashTable/Chain.antt =====
-- `hlist_add_head` and `hlist_del_init` of list.h, field by field.
use compcache.Common.{ℕ, ◌≡◌, refl, inl, inr, ◌==◌, update, arith, Bool-cases}
use compcache.HashTable.{
  Table, nowhere, first_of, hlist_unhashed, hlist_add_head, hlist_del, hlist_del_init,
  init_hlist_node, write_place,
}

module _ (n i : ℕ) (t : Table) where
  -- What `hlist_add_head` leaves in each field.
  pub record IsAdded (t' : Table) : Type 0 where
    pub order : t'.order ≡ t.order
    pub count : t'.count_items ≡ t.count_items
    pub key_lo : t'.key_lo ≡ t.key_lo
    pub key_hi : t'.key_hi ≡ t.key_hi
    pub first : t'.first ≡ update t.first i n
    pub next : t'.next ≡ update t.next n (t.first i)
    pub own : t'.pprev n ≡ first_of i

  pub hlist_add_head-IsAdded : IsAdded (hlist_add_head n i t)
  unfolding hlist_add_head
  hlist_add_head-IsAdded = elim (Bool-cases (t.first i == 0)) [
    | inl e ↦ rw e (record {
      order = refl;
      count = refl;
      key_lo = refl;
      key_hi = refl;
      first = refl;
      next = refl;
      own = ground arith;
    })
    | inr e ↦ rw e (record {
      order = refl;
      count = refl;
      key_lo = refl;
      key_hi = refl;
      first = refl;
      next = refl;
      own = ground arith;
    })
  ]

-- What `hlist_del_init` leaves of a node that is the first of list `i`.
pub record IsDeleted (n i : ℕ) (t t' : Table) : Type 0 where
  pub count : t'.count_items ≡ t.count_items
  pub first : t'.first ≡ update t.first i (t.next n)
  pub next : t'.next ≡ update t.next n 0
  pub own : t'.pprev n ≡ nowhere

pub hlist_del_init-IsDeleted :
    (n i : ℕ) (t : Table) → t.pprev n ≡ first_of i → IsDeleted n i t (hlist_del_init n t)
unfolding hlist_del_init hlist_unhashed hlist_del write_place init_hlist_node
hlist_del_init-IsDeleted n i t e = elim (Bool-cases (t.next n == 0)) [
  | inl z ↦ rw (e, z) (record { count = refl; first = refl; next = refl; own = ground arith })
  | inr z ↦ rw (e, z) (record { count = refl; first = refl; next = refl; own = ground arith })
]
