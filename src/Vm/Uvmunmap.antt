-- ===== src/Vm/Uvmunmap.antt =====
-- The loop of `uvmunmap` of kernel/vm.c, and `uvmdealloc`.
use mit_operating_system_eng.Base.{
  ℕ, zero, suc, ◌+◌, ◌-◌, ◌*◌, ◌/◌, ◌%◌, ◌≤◌, ◌<◌, ◌≡◌, refl, ap, ◌∙◌, inl, inr, true, false, not,
  ◌&&◌, ◌∷◌, ltb, leb, ◌==◌, Bool-cases, Option-cases, ok, arith,
}
use mit_operating_system_eng.Kalloc.Pages.{kfree-ok}
use mit_operating_system_eng.Mmap.{trapframe}
use mit_operating_system_eng.Vm.{
  Mem, maxva, valid, pte_pa, px, set_pte, walk, unmap_page, unmap_from, uvmunmap, uvmdealloc,
  page_size, page_up,
}
use mit_operating_system_eng.Vm.Entries.{Labels, Tables, reach, pte_at, descend-false}
use mit_operating_system_eng.Vm.Map.{in_pages}
use mit_operating_system_eng.Vm.Slots.{reach-page}
use mit_operating_system_eng.Vm.Unmap.{Frames, Freed, Freed-none, forget, less-Freed, frame-owned}

pub walk-false : (m : Mem) (r va : ℕ) → va < maxva → walk r va false m ≡ ok (reach m va 2 r, m)
unfolding walk
walk-false m r va lt =
    let below : leb maxva va ≡ false = ground arith in rw (below, descend-false m va 2 r) refl

unmap_page_lem :
    (end : ℕ) (l : Labels) (m : Mem) (r va : ℕ)
    → Tables end l m
    → Frames end l m
    → l.level r ≡ 3
    → va < trapframe
    → va % page_size ≡ 0
    → (n : Mem) × (k : Labels) × (unmap_page end r va true m ≡ ok n) × Freed end l m r va 1 k n
unfolding unmap_page
unmap_page_lem end l m r va tables frames is_root lt aligned =
    let w = walk-false m r va (omega arith) in
    elim (Option-cases (reach m va 2 r)) [
      | inl missing ↦ (
        m,
        l,
        rw (unmap_page, w, missing) refl,
        Freed-none end l m r va 1 tables frames (λ vb hit.
            let e = reach-page m vb va 2 r (ground arith) (omega arith) ∙ missing in rw e refl),
      )
      | inr (t, there) ↦ elim (Bool-cases (valid (m.table t (px 0 va)))) [
        | inr bad ↦ (
          m,
          l,
          rw (unmap_page, w, there, bad) refl,
          Freed-none end l m r va 1 tables frames (λ vb hit.
              let e = reach-page m vb va 2 r (ground arith) (omega arith) ∙ there in
              let i : px 0 vb ≡ px 0 va = ground arith in
              rw e (ap (λ j. valid (m.table t j)) i ∙ bad)),
        )
        | inl v ↦
            let (page, _, _, _) =
              frame-owned end l m r va t tables frames is_root lt aligned there v in
            (
              set_pte t (px 0 va) 0 (record m { free = pte_pa (m.table t (px 0 va)) ∷ m.free }),
              forget l (pte_pa (m.table t (px 0 va))),
              rw (unmap_page, w, there, v, kfree-ok end (pte_pa (m.table t (px 0 va))) m.free page)
                  refl,
              less-Freed end l m r va t tables frames is_root lt aligned there v,
            )
      ]
    ]

-- First one page, then `j` more.
module _ (end : ℕ) (l : Labels) (m : Mem) (r va j : ℕ) (k : Labels) (n : Mem) (g : Labels) (o : Mem)
    (x : Freed end l m r va 1 k n) (y : Freed end k n r (va + page_size) j g o)
    (is_root : l.level r ≡ 3) (fits : va + page_size * suc j ≤ trapframe) where
  later : (vb : ℕ) → in_pages r (va + page_size) j r vb ≡ true → pte_at n r vb ≡ pte_at m r vb
  later vb hit =
      let e = x.view r vb is_root (ground arith) in
      let out : in_pages r va 1 r vb ≡ false = ground arith in e ∙ rw out refl

  Freed-more : Freed end l m r va (suc j) g o
  Freed-more = record {
    tables = y.tables;
    frames = y.frames;
    bytes = y.bytes ∙ x.bytes;
    roots = λ s h. y.roots s (x.roots s h);
    others = λ p h. ground (arith, x.others p, y.others p);
    keeps = λ t i up le.
        let same = x.others t (omega arith) in
        y.keeps t i (omega arith) (omega arith) ∙ x.keeps t i up le;
    view = λ s vb h lt.
        let first = x.view s vb h lt in
        let next = y.view s vb (x.roots s h) lt in
        next
        ∙ rw first (elim (Bool-cases (in_pages r va 1 s vb && valid (pte_at m s vb))) [
          | inl hit ↦
              let all : (in_pages r va (suc j) s vb && valid (pte_at m s vb)) ≡ true =
                ground arith in
              let out : in_pages r (va + page_size) j s vb ≡ false = ground arith in
              rw (hit, all, out) refl
          | inr out ↦
              let same : (in_pages r (va + page_size) j s vb && valid (pte_at m s vb))
                  ≡ (in_pages r va (suc j) s vb && valid (pte_at m s vb)) =
                ground arith in
              rw (out, same) refl
        ]);
    kept = λ p h. y.kept p (x.kept p h);
    freed = λ vb hit v. elim (Bool-cases (in_pages r va 1 r vb)) [
      | inl here ↦ y.kept (pte_pa (pte_at m r vb)) (x.freed vb here v)
      | inr out ↦
          let there : in_pages r (va + page_size) j r vb ≡ true = ground arith in
          let e = later vb there in rw e at (y.freed vb there (rw e v))
    ];
    only = λ p h. elim (y.only p h) [
      | inl was ↦ elim (x.only p was) [
        | inl old ↦ inl old
        | inr (vb, hit, v, e) ↦ inr (vb, ground arith, v, e)
      ]
      | inr (vb, hit, v, e) ↦
          let same = later vb hit in inr (vb, ground arith, rw same at v, rw same at e)
    ];
  }

unmap_from-next :
    (pages end r va : ℕ) (m n : Mem)
    → unmap_page end r va true m ≡ ok n
    → unmap_from end r va (suc pages) true m ≡ unmap_from end r (va + page_size) pages true n
unfolding unmap_from
unmap_from-next pages end r va m n e = rw (unmap_from, e) refl

unmap_from_lem :
    (pages : ℕ) (end : ℕ) (l : Labels) (m : Mem) (r va : ℕ)
    → Tables end l m
    → Frames end l m
    → l.level r ≡ 3
    → va % page_size ≡ 0
    → va + page_size * pages ≤ trapframe
    → (n : Mem) × (k : Labels) × (unmap_from end r va pages true m ≡ ok n)
      × Freed end l m r va pages k n
unfolding unmap_from
unmap_from_lem zero end l m r va tables frames is_root aligned fits =
    (m, l, refl, Freed-none end l m r va 0 tables frames (λ vb hit. absurd (ground arith)))
unmap_from_lem (suc pages) end l m r va tables frames is_root aligned fits =
    let (n, k, e, x) = unmap_page_lem end l m r va tables frames is_root (omega arith) aligned in
    let (o, g, f, y) =
      unmap_from_lem pages end k n r (va + page_size) x.tables x.frames (x.roots r is_root)
        (omega arith) (omega arith) in
    (
      o,
      g,
      unmap_from-next pages end r va m n e ∙ f,
      Freed-more end l m r va pages k n g o x y is_root fits,
    )

-- `uvmunmap` with `do_free`, below the trapframe of an address space whose pages of memory are its
-- own, does not panic. It unmaps exactly the pages of the range that are mapped, and frees exactly
-- their memory. All other entries of all address spaces stay, and the invariants hold again.
pub uvmunmap_lem :
    (end : ℕ) (l : Labels) (m : Mem) (r va pages : ℕ)
    → Tables end l m
    → Frames end l m
    → l.level r ≡ 3
    → va % page_size ≡ 0
    → va + page_size * pages ≤ trapframe
    → (n : Mem) × (k : Labels) × (uvmunmap end r va pages true m ≡ ok n)
      × Freed end l m r va pages k n
unfolding uvmunmap
uvmunmap_lem end l m r va pages tables frames is_root aligned fits =
    let fine : not (va % page_size == 0) ≡ false = ground arith in
    rw fine (unmap_from_lem pages end l m r va tables frames is_root aligned fits)

-- `uvmdealloc` to a smaller size, both below the trapframe, does not panic, answers the new size
-- and unmaps and frees exactly the pages that lie wholly above it, up to the old size.
pub uvmdealloc_lem :
    (end : ℕ) (l : Labels) (m : Mem) (r oldsz newsz : ℕ)
    → Tables end l m
    → Frames end l m
    → l.level r ≡ 3
    → newsz < oldsz
    → oldsz ≤ trapframe
    → (n : Mem) × (k : Labels) × (uvmdealloc end r oldsz newsz m ≡ ok (newsz, n))
      × Freed end l m r (page_up newsz) ((page_up oldsz - page_up newsz) / page_size) k n
unfolding uvmdealloc
uvmdealloc_lem end l m r oldsz newsz tables frames is_root less_ fits =
    let test : leb oldsz newsz ≡ false = ground arith in
    let pages = (page_up oldsz - page_up newsz) / page_size in
    let (n, k, e, x) =
      uvmunmap_lem end l m r (page_up newsz) pages tables frames is_root (omega arith)
        (omega arith) in
    elim (Bool-cases (ltb (page_up newsz) (page_up oldsz))) [
      | inl more ↦ (n, k, rw (test, more, e) refl, x)
      | inr same ↦
          let nothing : pages ≡ 0 = ground arith in
          (
            m,
            l,
            rw (test, same) refl,
            Freed-none end l m r (page_up newsz) pages tables frames
                (λ vb hit. absurd (ground arith)),
          )
    ]
