-- ===== src/Mmap/Unmapped.antt =====
-- The layout after `sys_munmap` of kernel/sysproc.c.
use mit_operating_system_eng.Base.{
  ℕ, ◌-◌, ◌%◌, ◌^◌, ◌≤◌, ◌<◌, ◌≡◌, refl, sym, ◌∙◌, ap, ◌⊎◌, true, false, not, ◌||◌, inl, inr, none,
  some, List, [], ◌∷◌, ◌++◌, All, ◌==◌, Bool-cases, Option-cases, ne→eqb, ok, arith,
}
use mit_operating_system_eng.Mmap.{Vma, Proc, page_size, trapframe}
use mit_operating_system_eng.Mmap.Unmap.{
  Cut, Io, Found, Munmap, cut, meets, find_vma, move_base, munmap_found, round_end, sys_munmap,
}
use mit_operating_system_eng.Mmap.Region.{fits, Disjoint, Fits, Layout}
use mit_operating_system_eng.Mmap.Munmap.{
  All-hit, Disjoint-middle, Fits-middle, find_vma-some, find_vma-none, find_vma-none-inv, Inside,
  overlap-Inside, cut-Within, cut-fits,
}
use mit_operating_system_eng.Mmap.MunmapFound.{
  uvmunmap_vma-some, close_if-frame, ok-eq, munmap_found-ok,
}

-- The range of a call that is in order.
pub record InRange (addr end : ℕ) (p : Proc) : Type 0 where
  pub some_pages : addr < end
  pub whole : addr % page_size ≡ 0
  pub whole_end : end % page_size ≡ 0
  pub below_top : end ≤ trapframe
  pub inside : All (λ v. meets v addr end ≡ true → Inside addr end v) p.vma

module _ (addr end : ℕ) (p : Proc) (layout : Layout p) (range : InRange addr end p) where
  open range use {some_pages, whole, whole_end, below_top, inside}

  -- With no region in the range, moving `mmap_base` past it is harmless.
  none-Layout : All (λ v. meets v addr end ≡ false) p.vma → Layout (move_base addr end p)
  none-Layout away = elim (Bool-cases (addr == p.mmap_base)) [
    | inl e ↦
        let heap : p.sz ≤ p.mmap_base = layout.heap in
        rw e (record {
          heap = ground arith;
          top = below_top;
          aligned = whole_end;
          regions = both p.vma layout.regions away e;
          apart = layout.apart;
        })
    | inr e ↦ rw e layout
  ]
    where
      both :
          (vs : List Vma)
          → Fits p.mmap_base vs
          → All (λ v. meets v addr end ≡ false) vs
          → (addr == p.mmap_base) ≡ true
          → Fits end vs
      both [] f a e = tt
      both (v ∷ vs) f a e = (
        let here : fits p.mmap_base v ≡ true = f.0 in
            let off : meets v addr end ≡ false = a.0 in ground arith,
        both vs f.1 a.1 e,
      )

  found-Layout :
      (r : Found) (q : Proc)
      → find_vma addr end p.vma ≡ some r
      → ((addr ≡ r.hit.start) ⊎ (end ≡ r.hit.end))
      → q.sz ≡ p.sz
      → q.mmap_base ≡ p.mmap_base
      → q.vma ≡ r.before ++ ((cut r.hit addr end).left ∷ r.after)
      → Layout (move_base addr end q)
  found-Layout r q at ends same_sz same_base same_vma =
      let (split, hit) = find_vma-some addr end p.vma r at in
      let v = r.hit in
      let fit : Fits p.mmap_base (r.before ++ (v ∷ r.after)) = rw split at layout.regions in
      let apart : Disjoint (r.before ++ (v ∷ r.after)) = rw split at layout.apart in
      let within : Inside addr end v = All-hit _ r.before r.after v (rw split at inside) hit in
      let fit_v : fits p.mmap_base v ≡ true = All-hit _ r.before r.after v fit in
      let left = cut-fits v addr end within some_pages ends p.mmap_base whole whole_end fit_v in
      let disjoint =
        Disjoint-middle r.before r.after v (cut v addr end).left
          (cut-Within v addr end within some_pages ends) apart in
      let heap : p.sz ≤ p.mmap_base = layout.heap in
      elim (Bool-cases (addr == p.mmap_base)) [
        | inl e ↦
            rw (same_base, e, same_vma)
              (record {
                heap = rw same_sz (ground arith);
                top = below_top;
                aligned = whole_end;
                regions =
                    Fits-middle p.mmap_base end r.before r.after v (cut v addr end).left fit apart
                      (λ w f c. ground arith) (left.1 (ground arith));
                apart = disjoint;
              })
        | inr e ↦
            rw (same_base, e)
              (record {
                heap = rw same_sz heap;
                top = layout.top;
                aligned = layout.aligned;
                regions = rw same_vma (
                    Fits-middle p.mmap_base p.mmap_base r.before r.after v (cut v addr end).left fit
                      apart (λ w f c. f) (left.0 (ground arith)));
                apart = rw same_vma disjoint;
              })
      ]

-- `sys_munmap` keeps the layout well formed, whatever its result, where the range is not empty,
-- consists of whole pages below the trapframe, and lies inside each region that it meets.
pub sys_munmap-Layout :
    (io : Io) (addr len : ℕ) (p : Proc) (d : Munmap)
    → Layout p
    → InRange addr (round_end addr len) p
    → sys_munmap io addr len p ≡ ok d
    → Layout d.proc
unfolding sys_munmap
sys_munmap-Layout io addr len p d layout range e =
    elim (Bool-cases (addr == 0 || (len == 0 || not (addr % page_size == 0)))) [
      | inl bad ↦
          let same : d.proc ≡ p = sym (ap (λ (m : Munmap). m.proc) (ok-eq (rw bad at e))) in
          rw same layout
      | inr good ↦ elim (Option-cases (find_vma addr end p.vma)) [
        | inl nothing ↦
            let same : d.proc ≡ move_base addr end p =
              sym (ap (λ (m : Munmap). m.proc) (ok-eq (rw (good, nothing) at e))) in
            rw same (none-Layout addr end p layout range (find_vma-none-inv addr end p.vma nothing))
        | inr (r, there) ↦ found r there (rw (good, there) at e)
      ]
    ]
  where
    end : ℕ
    end = round_end addr len

    found :
        (r : Found)
        → find_vma addr end p.vma ≡ some r
        → munmap_found io addr end r p ≡ ok d
        → Layout d.proc
    found r there x = elim (munmap_found-ok io addr end r p d x) [
      | inl same ↦ rw same layout
      | inr (c, cut_at, q, closed, same) ↦
          let (from, to, ov, is_cut) = uvmunmap_vma-some io r.hit addr end c cut_at in
          let (split, hit) = find_vma-some addr end p.vma r there in
          let within : Inside addr end r.hit =
            All-hit _ r.before r.after r.hit (rw split at range.inside) hit in
          let (is_from, is_to, ends) = overlap-Inside r.hit addr end from to within ov in
          let (sz, base, table) = close_if-frame c.closed r.hit.f _ q closed in
          let same_cut : cut r.hit from to ≡ cut r.hit addr end = rw (is_from, is_to) refl in
          rw same (
            found-Layout addr end p layout range r q there ends sz base
              (table ∙ ap (λ (l : Cut). r.before ++ (l.left ∷ r.after)) (is_cut ∙ same_cut)))
    ]

none_below :
    (vs : List Vma) (end : ℕ) → Fits trapframe vs → All (λ v. meets v trapframe end ≡ false) vs
none_below [] end f = tt
none_below (v ∷ vs) end f =
    (let here : fits trapframe v ≡ true = f.0 in ground arith, none_below vs end f.1)

-- With nothing mapped, unmapping at the trapframe succeeds and moves `mmap_base` above it, out of
-- the layout.
pub sys_munmap_over_trapframe :
    (io : Io) (len : ℕ) (p : Proc)
    → 0 < len
    → len ≤ 2 ^ 31 - 4096
    → Layout p
    → p.mmap_base ≡ trapframe
    → (d : Munmap) × (sys_munmap io trapframe len p ≡ ok d)
      × (d.result ≡ true)
      × (trapframe < d.proc.mmap_base)
      × ¬ Layout d.proc
unfolding sys_munmap
sys_munmap_over_trapframe io len p pos small layout base =
    let above : trapframe < round_end trapframe len = ground arith in
    let none_there =
      find_vma-none trapframe (round_end trapframe len) p.vma
        (none_below p.vma (round_end trapframe len) (rw base at layout.regions)) in
    let moved : move_base trapframe (round_end trapframe len) p
        ≡ record p { mmap_base = round_end trapframe len } =
      ground arith in
    (
      record {
        result = true;
        proc = move_base trapframe (round_end trapframe len) p;
        unmapped = none;
        writes = [];
      },
      rw (ne→eqb len 0 (omega arith), none_there) refl,
      refl,
      rw moved above,
      λ l.
          let top : (move_base trapframe (round_end trapframe len) p).mmap_base ≤ trapframe =
            l.top in
          absurd (omega (arith, ap (λ (q : Proc). q.mmap_base) moved)),
    )
