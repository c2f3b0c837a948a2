-- ===== src/Zsmalloc/Fullness.antt =====
-- `fix_fullness_group` of zsmalloc.c: the mapping word of a zspage says its fullness group.
use compcache.Common.{
  ℕ, ◌^◌, ◌<◌, ◌≡◌, ◌≢◌, inl, inr, refl, sym, ap, ◌∙◌, true, false, some, leb, ◌==◌, not, arith,
  Bool-cases, some-inj, subst,
}
use compcache.Zsmalloc.{
  Kernel, Page, State, set_page, set_class, with_mem, get_zspage_mapping, set_zspage_mapping,
  get_fullness_group, ◌>>=◌, bug_on, bind-some,
}
use compcache.Zsmalloc.Groups.{set_head, insert_zspage, remove_zspage, fix_fullness_group}
use compcache.Zsmalloc.Handles.{mapping-roundtrip}

-- The functions on the lists of zspages change no page's own fields, no link word, and free nothing.
pub record IsRelisted (s t : State) : Type 0 where
  pub pages : t.mem.pages ≡ s.mem.pages
  pub words : t.mem.words ≡ s.mem.words
  pub freed : t.mem.freed ≡ s.mem.freed
  pub size : (i : ℕ) → (t.classes i).size ≡ (s.classes i).size

size-set_head :
    (class_idx fullness head i : ℕ) (s : State)
    → ((set_class class_idx (set_head fullness head) s).classes i).size ≡ (s.classes i).size
size-set_head class_idx fullness head i s = elim (Bool-cases (i == class_idx)) [
  | inl e ↦
      let q : i ≡ class_idx = ground arith in rw e (ap (λ (j : ℕ). (s.classes j).size) (sym q))
  | inr n ↦ rw n refl
]

insert_zspage-IsRelisted :
    (k : Kernel) (page class_idx fullness : ℕ) (s : State) {t : State}
    → insert_zspage k page class_idx fullness s ≡ some t
    → IsRelisted s t
unfolding insert_zspage
insert_zspage-IsRelisted k page class_idx fullness s {t} e =
    let (_, _, e') = bind-some (bug_on (not (s.mem.pages page).first)) _ e in
    elim (Bool-cases (leb 2 fullness)) [
      | inl out ↦
          subst (IsRelisted s) (some-inj (rw out at e'))
            (record { pages = refl; words = refl; freed = refl; size = λ i. refl })
      | inr listed ↦ elim (Bool-cases ((s.classes class_idx).fullness_list fullness == 0)) [
        | inl z ↦ subst (IsRelisted s) (some-inj (rw (listed, z) at e')) (record {
          pages = refl;
          words = refl;
          freed = refl;
          size = λ i. size-set_head class_idx fullness page i s;
        })
        | inr n ↦ subst (IsRelisted s) (some-inj (rw (listed, n) at e')) (record {
          pages = refl;
          words = refl;
          freed = refl;
          size = λ i. size-set_head class_idx fullness page i s;
        })
      ]
    ]

remove_zspage-IsRelisted :
    (k : Kernel) (page class_idx fullness : ℕ) (s : State) {t : State}
    → remove_zspage k page class_idx fullness s ≡ some t
    → IsRelisted s t
unfolding remove_zspage
remove_zspage-IsRelisted k page class_idx fullness s {t} e =
    let (_, _, e') = bind-some (bug_on (not (s.mem.pages page).first)) _ e in
    elim (Bool-cases (leb 2 fullness)) [
      | inl out ↦
          subst (IsRelisted s) (some-inj (rw out at e'))
            (record { pages = refl; words = refl; freed = refl; size = λ i. refl })
      | inr listed ↦
          let (_, _, e'') =
            bind-some (bug_on ((s.classes class_idx).fullness_list fullness == 0)) _
              (rw listed at e') in
          subst (IsRelisted s) (some-inj e'') (record {
            pages = refl;
            words = refl;
            freed = refl;
            size = λ i. size-set_head class_idx fullness _ i s;
          })
    ]

-- Relisted twice.
IsRelisted-trans : {a b c : State} → IsRelisted a b → IsRelisted b c → IsRelisted a c
IsRelisted-trans v w = record {
  pages = w.pages ∙ v.pages;
  words = w.words ∙ v.words;
  freed = w.freed ∙ v.freed;
  size = λ i. w.size i ∙ v.size i;
}

-- Of the page's own fields only the mapping word has changed.
abbrev pub AllButMapping : Page → Page → Type 0
AllButMapping p q =
    (p.first ≡ q.first)
    × (p.last ≡ q.last)
    × (p.freelist ≡ q.freelist)
    × (p.inuse ≡ q.inuse)
    × (p.objects ≡ q.objects)
    × (p.private ≡ q.private)
    × (p.first_page ≡ q.first_page)

-- The zspage is in the fullness group `g`, and the word of its first page says so.
pub record IsFixed (page : ℕ) (s : State) (g : ℕ) (t : State) : Type 0 where
  pub group : get_fullness_group (t.mem.pages page) ≡ some g
  pub mapping :
      get_zspage_mapping (t.mem.pages page)
      ≡ (get_zspage_mapping (s.mem.pages page) >>= λ c. some (c.0, g))
  pub own : AllButMapping (t.mem.pages page) (s.mem.pages page)
  pub others : (i : ℕ) → i ≢ page → t.mem.pages i ≡ s.mem.pages i
  pub words : t.mem.words ≡ s.mem.words
  pub freed : t.mem.freed ≡ s.mem.freed
  pub size : (i : ℕ) → (t.classes i).size ≡ (s.classes i).size

get_fullness_group-lt : (p : Page) (g : ℕ) → get_fullness_group p ≡ some g → g < 16
unfolding get_fullness_group
get_fullness_group-lt p g e = ground arith

get_fullness_group-same :
    (p q : Page) → AllButMapping p q → get_fullness_group p ≡ get_fullness_group q
unfolding get_fullness_group
get_fullness_group-same p q (a, _, _, b, c, _, _) = rw (a, b, c) refl

get_zspage_mapping-lt :
    (p : Page) (c g : ℕ) → get_zspage_mapping p ≡ some (c, g) → (p.first ≡ true) × (c < 2 ^ 28)
unfolding get_zspage_mapping
get_zspage_mapping-lt p c g e = elim (Bool-cases p.first) [
  | inl f ↦ (f, omega (arith, ap (λ (o : ℕ × ℕ). o.0) (some-inj (rw f at e))))
  | inr n ↦ absurd (cc (rw n at e))
]

set_zspage_mapping-own :
    (p q : Page) (c g : ℕ) → set_zspage_mapping c g p ≡ some q → AllButMapping q p
unfolding set_zspage_mapping
set_zspage_mapping-own p q c g e = elim (Bool-cases p.first) [
  | inl f ↦
      subst (λ r. AllButMapping r p) (some-inj (rw f at e))
        (sym f, refl, refl, refl, refl, refl, refl)
  | inr n ↦ absurd (cc (rw n at e))
]

unmoved :
    (page : ℕ) (s : State) (c currfg newfg : ℕ)
    → get_zspage_mapping (s.mem.pages page) ≡ some (c, currfg)
    → get_fullness_group (s.mem.pages page) ≡ some newfg
    → newfg ≡ currfg
    → IsFixed page s newfg s
unmoved page s c currfg newfg m n q = record {
  group = n;
  mapping = rw m (ap (λ x. some (c, x)) (sym q));
  own = (refl, refl, refl, refl, refl, refl, refl);
  others = λ i _. refl;
  words = refl;
  freed = refl;
  size = λ i. refl;
}

-- The word is written last.
remapped :
    (k : Kernel) (page : ℕ) (s inserted : State) (mapped : Page) (c currfg newfg : ℕ)
    → IsRelisted s inserted
    → get_zspage_mapping (s.mem.pages page) ≡ some (c, currfg)
    → get_fullness_group (s.mem.pages page) ≡ some newfg
    → set_zspage_mapping c newfg (inserted.mem.pages page) ≡ some mapped
    → IsFixed page s newfg (with_mem (set_page page (λ _. mapped)) inserted)
remapped k page s inserted mapped c currfg newfg v m n e =
    let self : (page == page) ≡ true = ground arith in
    let at_page : inserted.mem.pages page ≡ s.mem.pages page =
      ap (λ (f : ℕ → Page). f page) v.pages in
    let own : AllButMapping mapped (s.mem.pages page) =
      subst (AllButMapping mapped) at_page
        (set_zspage_mapping-own (inserted.mem.pages page) mapped c newfg e) in
    let (f, lt) = get_zspage_mapping-lt (s.mem.pages page) c currfg m in
    let trip =
      mapping-roundtrip (inserted.mem.pages page) c newfg lt
        (get_fullness_group-lt (s.mem.pages page) newfg n) in
    record {
      group = rw self (get_fullness_group-same mapped (s.mem.pages page) own ∙ n);
      mapping = rw (self, m) (rw (e, at_page, f) at trip);
      own = rw self own;
      others = λ i d.
          let q : (i == page) ≡ false = ground arith in rw q (ap (λ (f : ℕ → Page). f i) v.pages);
      words = v.words;
      freed = v.freed;
      size = v.size;
    }

-- Where `fix_fullness_group` runs into no BUG, it returns the group of the zspage, after it the word of
-- the first page has that group and the class index that it had, and it has changed no other field
-- of that page, no other page, no link word of a free object, and no object size of a class.
pub fix_fullness_group-IsFixed :
    (k : Kernel) (page : ℕ) (s : State) {g : ℕ} {t : State}
    → fix_fullness_group k page s ≡ some (g, t)
    → IsFixed page s g t
unfolding fix_fullness_group
fix_fullness_group-IsFixed k page s {g} {t} e =
    let ((c, currfg), m, e1) = bind-some (get_zspage_mapping (s.mem.pages page)) _ e in
    let (newfg, n, e2) = bind-some (get_fullness_group (s.mem.pages page)) _ e1 in
    elim (Bool-cases (newfg == currfg)) [
      | inl same ↦
          subst (λ (o : ℕ × State). IsFixed page s o.0 o.1) (some-inj (rw same at e2))
            (unmoved page s c currfg newfg m n (ground arith))
      | inr moved ↦
          let (removed, e3, e4) = bind-some (remove_zspage k page c currfg s) _ (rw moved at e2) in
          let (inserted, e5, e6) = bind-some (insert_zspage k page c newfg removed) _ e4 in
          let (mapped, e7, e8) =
            bind-some (set_zspage_mapping c newfg (inserted.mem.pages page)) _ e6 in
          let v =
            IsRelisted-trans (remove_zspage-IsRelisted k page c currfg s e3)
              (insert_zspage-IsRelisted k page c newfg removed e5) in
          subst (λ (o : ℕ × State). IsFixed page s o.0 o.1) (some-inj e8)
            (remapped k page s inserted mapped c currfg newfg v m n e7)
    ]
