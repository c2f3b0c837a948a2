-- ===== src/Zsmalloc/Listed.antt =====
-- `fix_fullness_group` of zsmalloc.c runs into no BUG for a zspage that its size class has in a list.
use compcache.Common.{
  ℕ, ◌<◌, ◌≡◌, ◌≢◌, inl, inr, refl, ap, ◌∙◌, true, false, some, leb, ◌==◌, arith, Bool-cases, subst,
}
use compcache.Zsmalloc.{
  Kernel, Page, State, set_page, with_mem, get_zspage_mapping, set_zspage_mapping,
  get_fullness_group,
}
use compcache.Zsmalloc.Groups.{insert_zspage, remove_zspage, fix_fullness_group}
use compcache.Zsmalloc.Fullness.{fix_fullness_group-IsFixed}

-- A zspage whose group has a list is one in a list that is not empty.
pub record IsListed (page class_idx group : ℕ) (s : State) : Type 0 where
  pub real : page ≢ 0
  pub mapping : get_zspage_mapping (s.mem.pages page) ≡ some (class_idx, group)
  pub listed : group < 2 → (s.classes class_idx).fullness_list group ≢ 0

pub mapping-first : (p : Page) (r : ℕ × ℕ) → get_zspage_mapping p ≡ some r → p.first ≡ true
unfolding get_zspage_mapping
mapping-first p r e = elim (Bool-cases p.first) [ inl f ↦ f | inr n ↦ absurd (cc (rw n at e)) ]

remove_zspage-total :
    (k : Kernel) (page class_idx group : ℕ) (s : State)
    → IsListed page class_idx group s
    → (t : State) × (remove_zspage k page class_idx group s ≡ some t) × (t.mem.pages ≡ s.mem.pages)
unfolding remove_zspage
remove_zspage-total k page class_idx group s v =
    let f = mapping-first (s.mem.pages page) _ v.mapping in
    elim (Bool-cases (leb 2 group)) [
      | inl out ↦ rw (f, out) (_, refl, refl)
      | inr inside ↦
          let l = v.listed (ground arith) in
          let z : ((s.classes class_idx).fullness_list group == 0) ≡ false = ground arith in
          rw (f, inside, z) (_, refl, refl)
    ]

insert_zspage-total :
    (k : Kernel) (page class_idx group : ℕ) (s : State)
    → (s.mem.pages page).first ≡ true
    → page ≢ 0
    → (t : State) × (insert_zspage k page class_idx group s ≡ some t)
      × (t.mem.pages ≡ s.mem.pages)
      × (group < 2 → (t.classes class_idx).fullness_list group ≢ 0)
unfolding insert_zspage
insert_zspage-total k page class_idx group s f ne =
    let self : (class_idx == class_idx) ≡ true = ground arith in
    let self' : (group == group) ≡ true = ground arith in
    elim (Bool-cases (leb 2 group)) [
      | inl out ↦ rw (f, out) (_, refl, refl, λ l. absurd (ground arith))
      | inr inside ↦ elim (Bool-cases ((s.classes class_idx).fullness_list group == 0)) [
        | inl z ↦ rw (f, inside, z) (_, refl, refl, λ l. rw (self, self') ne)
        | inr n ↦ rw (f, inside, n) (_, refl, refl, λ l. rw (self, self') ne)
      ]
    ]

pub group_some : (p : Page) → p.first ≡ true → (g : ℕ) × (get_fullness_group p ≡ some g)
unfolding get_fullness_group
group_some p f = rw f (_, refl)

pub set_some :
    (p : Page) (c g : ℕ) → p.first ≡ true → (q : Page) × (set_zspage_mapping c g p ≡ some q)
unfolding set_zspage_mapping
set_some p c g f = rw f (_, refl)

-- Where its zspage is listed, `fix_fullness_group` runs into no BUG, and the zspage is listed after it.
pub fix_fullness_group-total :
    (k : Kernel) (page class_idx group : ℕ) (s : State)
    → IsListed page class_idx group s
    → (g : ℕ) × (t : State) × (fix_fullness_group k page s ≡ some (g, t))
      × IsListed page class_idx g t
unfolding fix_fullness_group
fix_fullness_group-total k page class_idx group s v =
    let f = mapping-first (s.mem.pages page) _ v.mapping in
    let (newfg, n) = group_some (s.mem.pages page) f in
    elim (Bool-cases (newfg == group)) [
      | inl same ↦
          let q : group ≡ newfg = ground arith in
          (newfg, s, rw (v.mapping, n, same) refl, subst (λ g. IsListed page class_idx g s) q v)
      | inr moved ↦
          let (removed, e, p) = remove_zspage-total k page class_idx group s v in
          let f' : (removed.mem.pages page).first ≡ true =
            ap (λ (r : ℕ → Page). (r page).first) p ∙ f in
          let (inserted, e', p', l) =
            insert_zspage-total k page class_idx newfg removed f' v.real in
          let (mapped, e'') =
            set_some (inserted.mem.pages page) class_idx newfg
              (ap (λ (r : ℕ → Page). (r page).first) p' ∙ f') in
          let t = with_mem (set_page page (λ _. mapped)) inserted in
          let all : fix_fullness_group k page s ≡ some (newfg, t) =
            rw (v.mapping, n, moved, e, e', e'') refl in
          (
            newfg,
            t,
            all,
            record {
              real = v.real;
              mapping = (fix_fullness_group-IsFixed k page s all).mapping ∙ rw v.mapping refl;
              listed = l;
            },
          )
    ]

-- What a client may change on a first page without the zspage leaving its list.
pub listed_same :
    {page class_idx group : ℕ} {s : State} (t : State)
    → IsListed page class_idx group s
    → (t.mem.pages page).first ≡ (s.mem.pages page).first
    → (t.mem.pages page).mapping ≡ (s.mem.pages page).mapping
    → t.classes ≡ s.classes
    → IsListed page class_idx group t
unfolding get_zspage_mapping
listed_same {page} {class_idx} {group} {s} t v f m c = record {
  real = v.real;
  mapping = rw (f, m) v.mapping;
  listed = rw c v.listed;
}
