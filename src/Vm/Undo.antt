-- ===== src/Vm/Undo.antt =====
-- How `uvmalloc` of kernel/vm.c takes back what it has mapped.
use mit_operating_system_eng.Base.{
  ℕ, zero, suc, ◌+◌, ◌-◌, ◌*◌, ◌/◌, ◌%◌, ◌≤◌, ◌<◌, ◌≡◌, refl, ap, ◌∙◌, ◌⊎◌, inl, inr, true, false,
  leb, ◌==◌, Bool-cases, has, ok, arith,
}
use mit_operating_system_eng.Mmap.{trapframe}
use mit_operating_system_eng.Vm.{Mem, maxva, valid, pte_pa, uvmdealloc, page_size, page_up}
use mit_operating_system_eng.Vm.Entries.{Labels, Tables, pte_at}
use mit_operating_system_eng.Vm.Map.{in_pages, Unmapped}
use mit_operating_system_eng.Vm.Unmap.{Frames, Freed, Freed-none}
use mit_operating_system_eng.Vm.Uvmunmap.{uvmdealloc_lem}
use mit_operating_system_eng.Vm.Fresh.{Alloced}

-- Page `p` is a page of the page tables that the pages labelled in `l` lead to: behind an entry of
-- one of them, or behind an entry of a page that a root leads to.
abbrev pub IsTable : Labels → Mem → ℕ → Type 0
IsTable l n p =
    (t : ℕ) × (i : ℕ) × (i < 512)
    × (2 ≤ l.level t)
    × (l.level t ≤ 3)
    × (valid (n.table t i) ≡ true)
    × ((pte_pa (n.table t i) ≡ p)
        ⊎ ((l.level t ≡ 3)
            × (j : ℕ) × (j < 512)
            × (valid (n.table (pte_pa (n.table t i)) j) ≡ true)
            × (pte_pa (n.table (pte_pa (n.table t i)) j) ≡ p)))

-- The address spaces are those of before, and so is the memory, but for pages that page tables still
-- lead to.
pub record Undone (end : ℕ) (l : Labels) (m : Mem) (k : Labels) (n : Mem) : Type 0 where
  pub tables : Tables end k n
  pub frames : Frames end k n
  pub view :
      (s vb : ℕ)
      → l.level s ≡ 3
      → vb < maxva
      → (pte_at n s vb ≡ pte_at m s vb)
        ⊎ ((valid (pte_at n s vb) ≡ false) × (valid (pte_at m s vb) ≡ false))
  pub bytes : (p : ℕ) → has p m.free ≡ false → n.byte p ≡ m.byte p
  pub given : (p : ℕ) → has p m.free ≡ true → (has p n.free ≡ true) ⊎ IsTable l n p

Alloced-IsTable :
    (end : ℕ) (l : Labels) (m : Mem) (r va j perm : ℕ) (k : Labels) (n : Mem) (p : ℕ)
    → Alloced end l m r va j perm k n
    → l.level p ≡ 0
    → 0 < k.level p
    → k.level p ≤ 2
    → (o : Mem) → ((t i : ℕ) → 2 ≤ k.level t → k.level t ≤ 3 → o.table t i ≡ n.table t i)
    → IsTable l o p
Alloced-IsTable end l m r va j perm k n p x fresh some_ le o keeps =
    let (t, i, lt, up, v, to) = x.linked p fresh some_ le in
    let same : o.table t i ≡ n.table t i = keeps t i (omega arith) (omega arith) in
    elim (Bool-cases (l.level t == 0)) [
      | inr old ↦
          let (was, _, _) = x.old t (ground arith) in
          (t, i, lt, omega arith, omega arith, rw same v, inl (rw same to))
      | inl new ↦
          let low : k.level t ≤ 2 = elim (Bool-cases (k.level t == 3)) [
            | inl three ↦ let root = x.was_root t (ground arith) in absurd (ground arith)
            | inr other ↦ ground arith
          ] in
          let (s, a, lt2, up2, v2, to2) = x.linked t (ground arith) (omega arith) low in
          let same2 : o.table s a ≡ n.table s a = keeps s a (omega arith) (omega arith) in
          let root = x.was_root s (omega arith) in
          let is_t : pte_pa (o.table s a) ≡ t = rw same2 to2 in
          (
            s,
            a,
            lt2,
            omega arith,
            omega arith,
            rw same2 v2,
            inr (root, i, lt, rw (is_t, same) v, rw (is_t, same) to),
          )
    ]

pub undo :
    (end : ℕ) (l : Labels) (m : Mem) (r va j perm : ℕ) (k : Labels) (n : Mem) (g : Labels) (o : Mem)
    → l.level r ≡ 3
    → va + page_size * j ≤ trapframe
    → Unmapped m r va j
    → Alloced end l m r va j perm k n
    → Freed end k n r va j g o
    → ((p : ℕ) → has p m.free ≡ true → l.level p ≡ 0)
    → Undone end l m g o
undo end l m r va j perm k n g o is_root fits clear x y fresh =
    let (r3, _, _) = x.old r (ground arith) in
    record {
      tables = y.tables;
      frames = y.frames;
      view = λ s vb h lt.
          let (s3, _, _) = x.old s (ground arith) in
          let e = y.view s vb (s3 ∙ h) lt in
          elim (Bool-cases (in_pages r va j s vb)) [
            | inl hit ↦
                let is_r : s ≡ r = ground arith in
                let hit_r : in_pages r va j r vb ≡ true = rw is_r at hit in
                let (is_pte, _, _) = x.inside vb hit_r in
                let v : valid (pte_at n s vb) ≡ true = rw is_r (rw is_pte (ground arith)) in
                let gone : pte_at o s vb ≡ 0 = rw (hit, v) at e in
                let before : valid (pte_at m s vb) ≡ false =
                  rw is_r (clear vb (ground arith) (ground arith)) in
                inr (rw gone refl, before)
            | inr out ↦ inl ((rw out at e) ∙ x.outside s vb h lt out)
          ];
      bytes = λ p h. ap (λ (b : ℕ → ℕ → ℕ). b p) y.bytes ∙ x.bytes p h;
      given = λ p h. elim (x.given p h) [
        | inl free ↦ inl (y.kept p free)
        | inr used ↦ elim used [
          | inl (some_, le) ↦
              inr (Alloced-IsTable end l m r va j perm k n p x (fresh p h) some_ le o y.keeps)
          | inr (vb, hit, e) ↦
              let (is_pte, _, _) = x.inside vb hit in
              let v : valid (pte_at n r vb) ≡ true = rw is_pte (ground arith) in
              inl (rw e at (y.freed vb hit v))
        ]
      ];
    }

-- `uvmdealloc` to the first of `j` pages.
pub dealloc_back :
    (end : ℕ) (l : Labels) (m : Mem) (r va j : ℕ)
    → Tables end l m
    → Frames end l m
    → l.level r ≡ 3
    → va % page_size ≡ 0
    → va + page_size * j ≤ trapframe
    → (sz : ℕ) × (n : Mem) × (k : Labels) × (uvmdealloc end r (va + page_size * j) va m
        ≡ ok (sz, n))
      × Freed end l m r va j k n
unfolding uvmdealloc
dealloc_back end l m r va zero tables frames is_root aligned fits =
    let test : leb (va + page_size * zero) va ≡ true = ground arith in
    (
      va + page_size * zero,
      m,
      l,
      rw test refl,
      Freed-none end l m r va 0 tables frames (λ vb hit. absurd (ground arith)),
    )
dealloc_back end l m r va (suc j) tables frames is_root aligned fits =
    let (n, k, e, x) =
      uvmdealloc_lem end l m r (va + page_size * suc j) va tables frames is_root (omega arith)
        fits in
    let low : page_up va ≡ va = omega arith in
    let count : (page_up (va + page_size * suc j) - va) / page_size ≡ suc j = omega arith in
    (va, n, k, e, rw (low, count) at x)
