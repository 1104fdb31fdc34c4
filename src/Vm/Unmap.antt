-- ===== src/Vm/Unmap.antt =====
-- `uvmunmap` of kernel/vm.c on the address spaces, where it frees the memory.
use mit_operating_system_eng.Base.{
  ◌≤◌, ℕ, zero, suc, ◌/◌, ◌%◌, ◌<◌, ◌≡◌, ◌≢◌, refl, ap, ◌∙◌, ◌⊎◌, inl, inr, true, false, ◌&&◌, some,
  ◌∷◌, ◌==◌, if◌then◌else◌, Bool-cases, Option-cases, has, arith,
}
use mit_operating_system_eng.Kalloc.Pages.{is_page}
use mit_operating_system_eng.Mmap.{trapframe}
use mit_operating_system_eng.Vm.{Mem, maxva, valid, pte_pa, px, set_pte, page_size}
use mit_operating_system_eng.Vm.Entries.{Labels, Tables, reach, pte_at, root-Serves, reach-Serves}
use mit_operating_system_eng.Vm.Slots.{set-view, reach-page}
use mit_operating_system_eng.Vm.Map.{in_pages}

-- Each page that is mapped below the trapframe of an address space is a page of memory of its own,
-- so that no two pages share one, and none is a page-table page or free.
pub record Frames (end : ℕ) (l : Labels) (m : Mem) : Type 0 where
  pub owned :
      (r va : ℕ)
      → l.level r ≡ 3
      → va < trapframe
      → valid (pte_at m r va) ≡ true
      → (is_page end (pte_pa (pte_at m r va)) ≡ true)
        × (l.level (pte_pa (pte_at m r va)) ≡ 4)
        × (l.prefix (pte_pa (pte_at m r va)) ≡ va / 4096)
        × (l.root (pte_pa (pte_at m r va)) ≡ r)

reach-table :
    (m n : Mem) (va level t : ℕ) → m.table ≡ n.table → reach m va level t ≡ reach n va level t
unfolding reach
reach-table m n va zero t e = refl
reach-table m n va (suc level) t e =
    rw (e, reach-table m n va level (pte_pa (n.table t (px (suc level) va))) e) refl

pub pte_at-table : (m n : Mem) (r va : ℕ) → m.table ≡ n.table → pte_at m r va ≡ pte_at n r va
pte_at-table m n r va e = elim (Option-cases (reach n va 2 r)) [
  | inl missing ↦ rw (reach-table m n va 2 r e, missing) refl
  | inr (t, there) ↦ rw (reach-table m n va 2 r e, there, e) refl
]

-- The labels after page `p` has been freed.
abbrev pub forget : Labels → ℕ → Labels
forget l p = record l { level = λ q. if p == q then 0 else l.level q }

-- The `pages` pages from `va` on are not mapped any more, and the memory of those that were is free.
pub record Freed (end : ℕ) (l : Labels) (m : Mem) (r va pages : ℕ) (k : Labels) (n : Mem)
    : Type 0 where
  pub tables : Tables end k n
  pub frames : Frames end k n
  pub bytes : n.byte ≡ m.byte
  pub roots : (s : ℕ) → l.level s ≡ 3 → k.level s ≡ 3
  pub others : (p : ℕ) → l.level p ≢ 4 → k.level p ≡ l.level p
  pub keeps : (t i : ℕ) → 2 ≤ l.level t → l.level t ≤ 3 → n.table t i ≡ m.table t i
  pub view :
      (s vb : ℕ)
      → l.level s ≡ 3
      → vb < maxva
      → pte_at n s vb
        ≡ (if in_pages r va pages s vb && valid (pte_at m s vb) then 0 else pte_at m s vb)
  pub kept : (p : ℕ) → has p m.free ≡ true → has p n.free ≡ true
  pub freed :
      (vb : ℕ)
      → in_pages r va pages r vb ≡ true
      → valid (pte_at m r vb) ≡ true
      → has (pte_pa (pte_at m r vb)) n.free ≡ true
  pub only :
      (p : ℕ)
      → has p n.free ≡ true
      → (has p m.free ≡ true)
        ⊎ ((vb : ℕ) × (in_pages r va pages r vb ≡ true)
            × (valid (pte_at m r vb) ≡ true)
            × (pte_pa (pte_at m r vb) ≡ p))

-- Nothing is mapped in the pages.
pub Freed-none :
    (end : ℕ) (l : Labels) (m : Mem) (r va pages : ℕ)
    → Tables end l m
    → Frames end l m
    → ((vb : ℕ) → in_pages r va pages r vb ≡ true → valid (pte_at m r vb) ≡ false)
    → Freed end l m r va pages l m
Freed-none end l m r va pages tables frames clear = record {
  tables = tables;
  frames = frames;
  bytes = refl;
  roots = λ s h. h;
  others = λ p h. refl;
  keeps = λ t i up le. refl;
  view = λ s vb h lt. elim (Bool-cases (in_pages r va pages s vb)) [
    | inl hit ↦
        let is_r : s ≡ r = ground arith in
        let bad : valid (pte_at m s vb) ≡ false = rw is_r (clear vb (rw is_r at hit)) in
        rw (hit, bad) refl
    | inr out ↦ rw out refl
  ];
  kept = λ p h. h;
  freed = λ vb hit v. absurd (cc (clear vb hit, v));
  only = λ p h. inl h;
}

-- The page `p` of the address has been unmapped and freed.
module _ (end : ℕ) (l : Labels) (m : Mem) (r va t : ℕ) (tables : Tables end l m)
    (frames : Frames end l m) (is_root : l.level r ≡ 3) (lt : va < trapframe)
    (aligned : va % page_size ≡ 0) (there : reach m va 2 r ≡ some t)
    (is_valid : valid (m.table t (px 0 va)) ≡ true) where
  abbrev pub frame : ℕ
  frame = pte_pa (m.table t (px 0 va))

  abbrev pub less : Mem
  less = set_pte t (px 0 va) 0 (record m { free = frame ∷ m.free })

  pub same-pte : (vb : ℕ) → vb / 4096 ≡ va / 4096 → pte_at m r vb ≡ m.table t (px 0 va)
  same-pte vb page =
      let found = reach-page m vb va 2 r page (omega arith) ∙ there in
      let i : px 0 vb ≡ px 0 va = omega arith in rw found (ap (m.table t) i)

  pub frame-owned :
      (is_page end frame ≡ true)
      × (l.level frame ≡ 4)
      × (l.prefix frame ≡ va / 4096)
      × (l.root frame ≡ r)
  frame-owned = let e = same-pte va refl in rw e at (frames.owned r va is_root lt (rw e is_valid))

  less-view :
      (s vb : ℕ)
      → l.level s ≡ 3
      → vb < maxva
      → pte_at less s vb ≡ (if s == r && (vb / 4096 == va / 4096) then 0 else pte_at m s vb)
  less-view s vb h lt2 =
      pte_at-table less (set_pte t (px 0 va) 0 m) s vb refl
      ∙ set-view end l m r va t 0 s vb tables is_root (omega arith) there h lt2

  less-Tables : Tables end (forget l frame) less
  less-Tables =
      let (page, four, pre, own) = frame-owned in
      let u =
        reach-Serves end l m r va 2 r t tables (omega arith)
          (root-Serves end l m r va tables is_root (omega arith)) there in
      let last = u.at in
      record {
        top = λ s h. tables.top s (ground arith);
        down = λ a j up le lt2 v.
            let was : l.level a ≡ (forget l frame).level a = ground arith in
            let same : less.table a j ≡ m.table a j = ground arith in
            let d = tables.down a j (ground arith) (ground arith) lt2 (rw same at v) in
            rw same (ground arith);
        free = record {
          pages = (page, tables.free.pages);
          distinct = (ground (arith, tables.spare frame), tables.free.distinct);
        };
        spare = λ q h. ground (arith, tables.spare q);
      }

  less-Frames : Frames end (forget l frame) less
  less-Frames =
      let (page, four, pre, own) = frame-owned in
      record {
        owned = λ s vb h lt2 v.
            let h3 : l.level s ≡ 3 = ground arith in
            let e = less-view s vb h3 (omega arith) in
            elim (Bool-cases (s == r && (vb / 4096 == va / 4096))) [
              | inl hit ↦ absurd (cc (rw hit at e, v))
              | inr out ↦
                  let same : pte_at less s vb ≡ pte_at m s vb = rw out at e in
                  let o = frames.owned s vb h3 lt2 (rw same at v) in rw same (ground arith)
            ];
      }

  pub less-Freed : Freed end l m r va 1 (forget l frame) less
  less-Freed =
      let (page, four, pre, own) = frame-owned in
      let at_va = same-pte va refl in
      record {
        tables = less-Tables;
        frames = less-Frames;
        bytes = refl;
        roots = λ s h. ground arith;
        others = λ q h. ground arith;
        keeps = λ a i up le.
            let u =
              reach-Serves end l m r va 2 r t tables (omega arith)
                (root-Serves end l m r va tables is_root (omega arith)) there in
            let last = u.at in ground arith;
        view = λ s vb h lt2.
            let e = less-view s vb h lt2 in
            let test : in_pages r va 1 s vb ≡ (s == r && (vb / 4096 == va / 4096)) = ground arith in
            elim (Bool-cases (s == r && (vb / 4096 == va / 4096))) [
              | inl hit ↦
                  let is_r : s ≡ r = ground arith in
                  let here : pte_at m s vb ≡ m.table t (px 0 va) =
                    rw is_r (same-pte vb (ground arith)) in
                  e ∙ rw (test, hit, here, is_valid) refl
              | inr out ↦ e ∙ rw (test, out) refl
            ];
        kept = λ q h. ground arith;
        freed = λ vb hit v. let e = same-pte vb (ground arith) in rw e (ground arith);
        only = λ q h. elim (Bool-cases (frame == q)) [
          | inl is_q ↦
              let same : frame ≡ q = ground arith in
              inr (va, ground arith, rw at_va is_valid, rw at_va same)
          | inr other ↦ inl (ground arith)
        ];
      }
