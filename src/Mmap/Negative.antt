-- ===== src/Mmap/Negative.antt =====
-- `sys_mmap` of kernel/sysproc.c at a negative length.
use mit_operating_system_eng.Base.{
  ℕ, zero, suc, ◌+◌, ◌-◌, ◌*◌, ◌%◌, ◌^◌, ◌≤◌, ◌<◌, ◌≡◌, ◌≢◌, ap, Option, true, false, not, ◌&&◌,
  ◌||◌, some, List, [], ◌∷◌, length, set, All, ltb, leb, ◌==◌, ne→eqb, Outcome, ok, arith,
}
use mathlib.Core.Path.{ap₂, subst}
use mit_operating_system_eng.Mmap.{
  Vma, Proc, page_size, trapframe, round_len, can_read, can_write, is_shared, find_free, fd_file,
  place, sys_mmap,
}
use mit_operating_system_eng.Mmap.Region.{fits, Fits, Layout}
use mit_operating_system_eng.Mmap.Layout.{new_start, find_free-le}

placed-cong :
    (a b : ℕ) (q : Proc)
    → a ≡ b
    → ◌≡◌ {A = Outcome (Option ℕ × Proc)} (ok (some a, q)) (ok (some b, q))
placed-cong a b q e = ap (λ s. ok (some s, q)) e

-- A region of length -n: it starts above `base`, where it ends.
abbrev pub reversed : ℕ → ℕ → ℕ → ℕ → ℕ → ℕ → Vma
reversed base n prot flags f offset = record {
  valid = true;
  start = base + n;
  end = base;
  prot = prot;
  flags = flags;
  f = f;
  offset = offset;
}

-- What `place` does at a negative length of whole pages, once a region is mapped.
place-negative :
    (k prot flags f offset : ℕ) (p : Proc)
    → 0 < k
    → k < 2 ^ 18
    → p.mmap_base % page_size ≡ 0
    → p.mmap_base + page_size * k < trapframe
    → p.sz ≤ p.mmap_base
    → find_free p.vma ≢ length p.vma
    → (p.files f).ref ≢ 0
    → (q : Proc) × (place (2 ^ 32 - page_size * k) prot flags f offset p
        ≡ ok (some (p.mmap_base + page_size * k), q))
      × (q.mmap_base ≡ p.mmap_base + page_size * k)
      × (q.vma
          ≡ set p.vma (find_free p.vma) (reversed p.mmap_base (page_size * k) prot flags f offset))
unfolding place
place-negative k prot flags f offset p pos small aligned room heap free counted =
    let at : new_start (2 ^ 32 - page_size * k) p ≡ p.mmap_base + page_size * k = ground arith in
    let good : (ltb (new_start (2 ^ 32 - page_size * k) p) p.sz
          || leb trapframe (new_start (2 ^ 32 - page_size * k) p))
        ≡ false =
      rw at (ground arith) in
    let size : round_len (2 ^ 32 - page_size * k) ≡ 2 ^ 64 - page_size * k = ground arith in
    let stop : (new_start (2 ^ 32 - page_size * k) p + round_len (2 ^ 32 - page_size * k)) % 2 ^ 64
        ≡ p.mmap_base =
      rw (at, size) (omega arith) in
    rw (good, ne→eqb (find_free p.vma) (length p.vma) free, ne→eqb (p.files f).ref 0 counted)
      (
        _,
        placed-cong _ _ _ at,
        at,
        ap₂
            (λ (start end : ℕ). set p.vma (find_free p.vma) (record {
              valid = true;
              start = start;
              end = end;
              prot = prot;
              flags = flags;
              f = f;
              offset = offset;
            }))
            at stop,
      )

All-set-new :
    (P : Vma → Type 0) (vs : List Vma) (i : ℕ) (v : Vma) → i < length vs → All P (set vs i v) → P v
All-set-new P [] i v lt h = absurd (omega arith)
All-set-new P (w ∷ ws) zero v lt h = h.0
All-set-new P (w ∷ ws) (suc i) v lt h = All-set-new P ws i v (omega arith) h.1

-- In a well-formed layout, with a slot free and an open file that may be mapped so, `sys_mmap`
-- accepts a negative length of whole pages that leads from `mmap_base` to below the trapframe: it
-- answers an address above `mmap_base`, makes that the new `mmap_base`, over whatever is mapped in
-- between, and puts in the slot a region that starts there and ends at the old `mmap_base`, so that
-- the layout is broken.
pub sys_mmap-negative :
    (k prot flags fd f offset : ℕ) (p : Proc)
    → 0 < k
    → k < 2 ^ 18
    → Layout p
    → p.mmap_base + page_size * k < trapframe
    → find_free p.vma ≢ length p.vma
    → fd_file fd p ≡ ok f
    → (p.files f).ref ≢ 0
    → (can_read prot && not (p.files f).readable) ≡ false
    → (can_write prot && not (p.files f).writable && is_shared flags) ≡ false
    → (q : Proc) × (sys_mmap 0 (2 ^ 32 - page_size * k) prot flags fd offset p
        ≡ ok (some (p.mmap_base + page_size * k), q))
      × (q.mmap_base ≡ p.mmap_base + page_size * k)
      × (q.vma
          ≡ set p.vma (find_free p.vma) (reversed p.mmap_base (page_size * k) prot flags f offset))
      × ¬ Layout q
unfolding sys_mmap
sys_mmap-negative k prot flags fd f offset p pos small layout room free open_file counted readable
      writable =
    let whole : p.mmap_base % page_size ≡ 0 = layout.aligned in
    let heap : p.sz ≤ p.mmap_base = layout.heap in
    let (q, e, base, slots) =
      place-negative k prot flags f offset p pos small whole room heap free counted in
    let some_len : ((2 ^ 32 - page_size * k) == 0 || not (0 == 0)) ≡ false = ground arith in
    let slot : find_free p.vma < length p.vma = omega (arith, find_free-le p.vma) in
    (
      q,
      rw (some_len, open_file, readable, writable) e,
      base,
      slots,
      λ l.
          let all : Fits q.mmap_base (
              set p.vma (find_free p.vma)
                (reversed p.mmap_base (page_size * k) prot flags f offset)) =
            subst (Fits q.mmap_base) slots l.regions in
          let here =
            All-set-new (λ v. fits q.mmap_base v ≡ true) p.vma (find_free p.vma) _ slot all in
          absurd (ground arith),
    )
