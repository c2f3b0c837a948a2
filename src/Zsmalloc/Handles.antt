-- ===== src/Zsmalloc/Handles.antt =====
-- zsmalloc.c: handles, the mapping word and the index of a size class are read back as written.
use compcache.Common.{
  ℕ, ◌+◌, ◌*◌, ◌/◌, ◌%◌, ◌^◌, ◌≤◌, ◌<◌, ◌≡◌, ◌≢◌, inl, inr, refl, false, none, some, ltb, ◌==◌,
  if◌then◌else◌, arith, Bool-cases,
}
use compcache.Zsmalloc.{
  Kernel, Page, get_zspage_mapping, set_zspage_mapping, get_size_class_index,
  obj_location_to_handle, obj_handle_to_location, size_classes, max_alloc_size, ◌>>=◌,
}
use compcache.Zsmalloc.Classes.{class_size}

-- For every request of 1 to `ZS_MAX_ALLOC_SIZE` bytes, the index is one of a class, whose objects are
-- large enough for the request, and the objects of every class before it are too small.
pub get_size_class_index-least :
    (size : ℕ)
    → 0 < size
    → size ≤ max_alloc_size
    → let i = get_size_class_index size in
      (i < size_classes) × (size ≤ class_size i) × ((j : ℕ) → j < i → class_size j < size)
unfolding get_size_class_index
get_size_class_index-least size lo hi = elim (Bool-cases (ltb 32 size)) [
  | inl big ↦ rw big (ground arith, ground arith, λ j l. ground arith)
  | inr small ↦ rw small (ground arith, ground arith, λ j l. ground arith)
]

-- Where the page frames are numbered below 2^34 and the number gives back the page, a handle made of a
-- page that is not NULL and an index below 2^30 decodes to that page and that index.
pub location-handle :
    (k : Kernel) (page obj_idx : ℕ)
    → k.pfn_to_page (k.page_to_pfn page) ≡ page
    → k.page_to_pfn page < 2 ^ 34
    → page ≢ 0
    → obj_idx < 2 ^ 30
    → (obj_location_to_handle k page obj_idx >>= λ h. some (obj_handle_to_location k h))
      ≡ some (page, obj_idx)
unfolding obj_location_to_handle obj_handle_to_location
location-handle k page obj_idx back small ne low =
    let z : (page == 0) ≡ false = ground arith in
    let pfn : (k.page_to_pfn page * 2 ^ 30 % 2 ^ 64 + obj_idx % 2 ^ 30) / 2 ^ 30
        ≡ k.page_to_pfn page =
      omega arith in
    let idx : (k.page_to_pfn page * 2 ^ 30 % 2 ^ 64 + obj_idx % 2 ^ 30) % 2 ^ 30 ≡ obj_idx =
      omega arith in
    rw (z, pfn, idx, back) refl

-- On the first page of a zspage, a class index below 2^28 and a fullness group below 16 are read back
-- from the mapping word as they were written; on any other page both functions are a BUG.
pub mapping-roundtrip :
    (p : Page) (class_idx fullness : ℕ)
    → class_idx < 2 ^ 28
    → fullness < 2 ^ 4
    → (set_zspage_mapping class_idx fullness p >>= get_zspage_mapping)
      ≡ (if p.first then some (class_idx, fullness) else none)
unfolding set_zspage_mapping get_zspage_mapping
mapping-roundtrip p class_idx fullness a b = elim (Bool-cases p.first) [
  | inl f ↦
      let idx : (class_idx % 2 ^ 28 * 2 ^ 4 + fullness % 2 ^ 4) / 2 ^ 4 % 2 ^ 28 ≡ class_idx =
        omega arith in
      let group : (class_idx % 2 ^ 28 * 2 ^ 4 + fullness % 2 ^ 4) % 2 ^ 4 ≡ fullness =
        omega arith in
      rw (f, idx, group) refl
  | inr n ↦ rw n refl
]
