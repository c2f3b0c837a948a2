-- ===== src/Zsmalloc/Moved.antt =====
-- `fix_fullness_group` of zsmalloc.c moves a zspage from one fullness list to another, as <linux/list.h>
-- links them.
use compcache.Common.{
  ℕ, ◌<◌, ◌≡◌, ◌≢◌, inl, inr, refl, sym, ap, ◌∙◌, true, false, some, List, [], ◌∷◌, leb, ltb, ◌==◌,
  arith, Bool-cases, subst, if◌then◌else◌,
}
use compcache.Zsmalloc.{Kernel, Page, State, set_class, set_page, with_mem, get_zspage_mapping}
use compcache.Zsmalloc.Groups.{
  set_head, set_links, insert_zspage, remove_zspage, fix_fullness_group,
}
use compcache.Zsmalloc.Fullness.{IsFixed, fix_fullness_group-IsFixed}
use compcache.Zsmalloc.Ring.{IsLinked, IsRing, Without, IsIn, add_before, add_before-IsRing}
use compcache.Zsmalloc.Listed.{mapping-first, group_some, set_some}
use compcache.Zsmalloc.OnList.{IsOnList, IsOther, IsApart, IsLeft, remove_zspage-IsRemoved}

-- What `insert_zspage` makes of the list `xs`, with `h` its head.
record IsInserted (page class_idx group : ℕ) (xs : List ℕ) (s t : State) : Type 0 where
  pages : t.mem.pages ≡ s.mem.pages
  on_list : IsOnList page class_idx group (if ltb group 2 then xs else []) t
  first : group < 2 → (t.classes class_idx).fullness_list group ≡ page
  others :
      (ys : List ℕ)
      → Without page ys
      → (group < 2 → IsApart ys xs)
      → IsRing s.mem.links ys
      → IsRing t.mem.links ys
  lists :
      (g : ℕ)
      → g ≢ group
      → (t.classes class_idx).fullness_list g ≡ (s.classes class_idx).fullness_list g

insert_zspage-IsInserted :
    (k : Kernel) (page class_idx group : ℕ) (rest xs : List ℕ) (s : State)
    → IsLinked k
    → (s.mem.pages page).first ≡ true
    → page ≢ 0
    → IsRing s.mem.links (page ∷ [])
    → (group < 2 → IsOther page class_idx group rest xs s)
    → (t : State) × (insert_zspage k page class_idx group s ≡ some t)
      × IsInserted page class_idx group xs s t
unfolding insert_zspage
insert_zspage-IsInserted k page class_idx group rest xs s linked f ne alone other =
    let self : (class_idx == class_idx) ≡ true = ground arith in
    let self' : (group == group) ≡ true = ground arith in
    elim (Bool-cases (leb 2 group)) [
      | inl out ↦
          let none_listed : ltb group 2 ≡ false = ground arith in
          (
            s,
            rw (f, out) refl,
            record {
              pages = refl;
              on_list = rw none_listed (record {
                ring = alone;
                apart = tt;
                real = (ne, tt);
                head = λ lt. absurd (ground arith);
                alone = λ le. refl;
              });
              first = λ lt. absurd (ground arith);
              others = λ ys w a r. r;
              lists = λ g ne. refl;
            },
          )
      | inr inside ↦ listed xs (other (ground arith)) inside
    ]
  where
    listed :
        (xs : List ℕ)
        → IsOther page class_idx group rest xs s
        → leb 2 group ≡ false
        → (t : State) × (insert_zspage k page class_idx group s ≡ some t)
          × IsInserted page class_idx group xs s t
    listed [] v inside =
        let self : (class_idx == class_idx) ≡ true = ground arith in
        let self' : (group == group) ≡ true = ground arith in
        let lt : ltb group 2 ≡ true = ground arith in
        let z : ((s.classes class_idx).fullness_list group == 0) ≡ true = ground (arith, v.head) in
        (
          set_class class_idx (set_head group page) s,
          rw (f, inside, z) refl,
          record {
            pages = refl;
            on_list = rw lt (record {
              ring = alone;
              apart = tt;
              real = (ne, tt);
              head = λ l. rw (self, self') (inl refl);
              alone = λ le. refl;
            });
            first = λ l. rw (self, self') refl;
            others = λ ys w a r. r;
            lists = λ g n.
                let other : (g == group) ≡ false = ground (arith, n) in rw (self, other) refl;
          },
        )
    listed (h ∷ xs) v inside =
        let self : (class_idx == class_idx) ≡ true = ground arith in
        let self' : (group == group) ≡ true = ground arith in
        let lt : ltb group 2 ≡ true = ground arith in
        let z : (h == 0) ≡ false = ground (arith, v.real.0) in
        let (ring, others) = add_before-IsRing s.mem.links page h xs v.ring v.apart.0 v.other in
        (
          set_class class_idx (set_head group page) (with_mem (set_links (add_before page h)) s),
          rw (f, inside, v.head, z, linked.list_add_tail page h s.mem.links) refl,
          record {
            pages = refl;
            on_list = rw lt (record {
              ring = ring;
              apart = v.other;
              real = (ne, v.real);
              head = λ l. rw (self, self') (inl refl);
              alone = λ le. absurd (ground arith);
            });
            first = λ l. rw (self, self') refl;
            others = λ ys w a r. others ys w (a (ground arith)).1 r;
            lists = λ g n.
                let other : (g == group) ≡ false = ground (arith, n) in rw (self, other) refl;
          },
        )

-- A list is left alone where neither its ring nor its head changes.
IsLeft-kept :
    (class_idx group : ℕ) (rest : List ℕ) (s t : State)
    → (t.classes class_idx).fullness_list group ≡ (s.classes class_idx).fullness_list group
    → (IsRing s.mem.links rest → IsRing t.mem.links rest)
    → IsLeft class_idx group rest s
    → IsLeft class_idx group rest t
IsLeft-kept class_idx group [] s t h r v = h ∙ v
IsLeft-kept class_idx group (y ∷ ys) s t h r (i, v) = (subst (λ x. IsIn x (y ∷ ys)) (sym h) i, r v)

-- Where a zspage stands after `fix_fullness_group` has moved it.
pub record IsMoved (page class_idx group : ℕ) (rest xs : List ℕ) (g : ℕ) (t : State) : Type 0 where
  pub now : IsOnList page class_idx g (if ltb g 2 then xs else []) t
  pub first : g < 2 → (t.classes class_idx).fullness_list g ≡ page
  pub left : group < 2 → IsLeft class_idx group rest t

insert_zspage-IsMoved :
    (k : Kernel) (page class_idx group g : ℕ) (rest xs : List ℕ) (s : State)
    → IsLinked k
    → (s.mem.pages page).first ≡ true
    → g ≢ group
    → IsOnList page class_idx group rest s
    → (g < 2 → IsOther page class_idx g rest xs s)
    → (s1 t : State) × (remove_zspage k page class_idx group s ≡ some s1)
      × (insert_zspage k page class_idx g s1 ≡ some t)
      × (t.mem.pages ≡ s.mem.pages)
      × IsMoved page class_idx group rest xs g t
insert_zspage-IsMoved k page class_idx group g rest xs s linked f ne v other =
    let (s1, e, r) = remove_zspage-IsRemoved k page class_idx group rest s linked f v in
    let f1 : (s1.mem.pages page).first ≡ true = ap (λ (m : ℕ → Page). (m page).first) r.pages ∙ f in
    let other1 : g < 2 → IsOther page class_idx g rest xs s1 = λ lt. record {
      ring = r.others xs (other lt).other (other lt).ring;
      head = r.lists g ne ∙ (other lt).head;
      other = (other lt).other;
      apart = (other lt).apart;
      real = (other lt).real;
    } in
    let (t, e', i) =
      insert_zspage-IsInserted k page class_idx g rest xs s1 linked f1 v.real.0 r.alone other1 in
    (
      s1,
      t,
      e,
      e',
      i.pages ∙ r.pages,
      record {
        now = i.on_list;
        first = i.first;
        left = λ lt.
            IsLeft-kept class_idx group rest s1 t (i.lists group (λ q. ne (sym q)))
              (i.others rest v.apart (λ l. (other l).apart)) (r.left lt);
      },
    )

-- The lists do not see the word of the zspage.
IsMoved-mapped :
    (page class_idx group : ℕ) (rest xs : List ℕ) (g : ℕ) (t : State) (p : Page)
    → IsMoved page class_idx group rest xs g t
    → IsMoved page class_idx group rest xs g (with_mem (set_page page (λ _. p)) t)
IsMoved-mapped page class_idx group rest xs g t p v = record {
  now = record {
    ring = v.now.ring;
    apart = v.now.apart;
    real = v.now.real;
    head = v.now.head;
    alone = v.now.alone;
  };
  first = v.first;
  left = λ lt. IsLeft-kept class_idx group rest t _ refl (λ r. r) (v.left lt);
}

-- Where the list functions are those of <linux/list.h>, the list of its group, if it has one, has the
-- zspage, followed around the ring by `rest`, a zspage of a group without a list is linked with itself,
-- and each other list of its class is a ring `others g` from its head on, without the
-- zspage, whose head is nowhere else in it and not in `rest`: `fix_fullness_group` runs into no BUG and
-- returns the group that the zspage is now in, and the word of its first page then has that group and the
-- class index that it had. If the group is the same, the zspage is on its list as before. If not, the list
-- of the new group, if it has one, has the zspage as its head, followed by all that was in that list, in
-- its order; the list of the old group, if it had one, has `rest`, in its order around the ring, or is NULL
-- if there is none. No other field of that page, no other page, no link word of a free object and no
-- object size of a class has changed.
pub fix_fullness_group_lem :
    (k : Kernel) (page class_idx group : ℕ) (rest : List ℕ) (others : ℕ → List ℕ) (s : State)
    → IsLinked k
    → get_zspage_mapping (s.mem.pages page) ≡ some (class_idx, group)
    → IsOnList page class_idx group rest s
    → ((g : ℕ) → g < 2 → g ≢ group → IsOther page class_idx g rest (others g) s)
    → (g : ℕ) × (t : State) × (fix_fullness_group k page s ≡ some (g, t))
      × (get_zspage_mapping (t.mem.pages page) ≡ some (class_idx, g))
      × (g ≡ group → IsOnList page class_idx g rest t)
      × (g ≢ group → IsMoved page class_idx group rest (others g) g t)
      × IsFixed page s g t
unfolding fix_fullness_group
fix_fullness_group_lem k page class_idx group rest others s linked mapping v other =
    let f = mapping-first (s.mem.pages page) _ mapping in
    let (g, n) = group_some (s.mem.pages page) f in
    elim (Bool-cases (g == group)) [
      | inl same ↦
          let q : group ≡ g = ground arith in
          let all : fix_fullness_group k page s ≡ some (g, s) = rw (mapping, n, same) refl in
          (
            g,
            s,
            all,
            mapping ∙ rw q refl,
            (λ e. subst (λ g. IsOnList page class_idx g rest s) q v),
            (λ ne. absurd (ne (sym q))),
            fix_fullness_group-IsFixed k page s all,
          )
      | inr moved ↦
          let ne : g ≢ group = ground arith in
          let (s1, t, e, e', p, m) =
            insert_zspage-IsMoved k page class_idx group g rest (others g) s linked f ne v
              (λ lt. other g lt ne) in
          let (mapped, e'') =
            set_some (t.mem.pages page) class_idx g (ap (λ (r : ℕ → Page). (r page).first) p ∙ f) in
          let u = with_mem (set_page page (λ _. mapped)) t in
          let all : fix_fullness_group k page s ≡ some (g, u) =
            rw (mapping, n, moved, e, e', e'') refl in
          let fixed = fix_fullness_group-IsFixed k page s all in
          (
            g,
            u,
            all,
            fixed.mapping ∙ rw mapping refl,
            (λ q. absurd (ne q)),
            (λ _. IsMoved-mapped page class_idx group rest (others g) g t mapped m),
            fixed,
          )
    ]
