-- ===== src/Vm/Tests.antt =====
-- Instances of the theorems about kernel/vm.c.
use mit_operating_system_eng.Base.{
  ℕ, ◌+◌, ◌*◌, ◌/◌, ◌%◌, ◌^◌, ◌≤◌, ◌<◌, ◌≡◌, refl, ◌∙◌, inl, inr, Bool, true, false, not, Option,
  none, [], ◌∷◌, ltb, ◌==◌, if◌then◌else◌, ok, Bool-cases, arith,
}
use mit_operating_system_eng.Vm.{
  Mem, pte_of, page_size, mappages, uvmunmap, uvmalloc, copyout, copyin,
}
use mit_operating_system_eng.Vm.Entries.{Labels, Tables, reach, pte_at}
use mit_operating_system_eng.Vm.Map.{Unmapped, Answer}
use mit_operating_system_eng.Vm.Mappages.{mappages_lem}
use mit_operating_system_eng.Vm.Unmap.{Frames, Freed}
use mit_operating_system_eng.Vm.Uvmunmap.{uvmunmap_lem}
use mit_operating_system_eng.Vm.Uvmalloc.{Grown, uvmalloc_lem}
use mit_operating_system_eng.Vm.CopyPage.{writable_at}
use mit_operating_system_eng.Vm.Copyout.{Copied, copyout_lem}
use mit_operating_system_eng.Vm.Copyin.{copyin-copyout}

abbrev kernel_end : ℕ
kernel_end = 2 ^ 31 + 100000

-- Page `i` of the memory above the kernel.
abbrev page : ℕ → ℕ
page i = 2 ^ 31 + 4096 * (100 + i)

-- The root is page 0. Page 1 is behind its first entry, page 2 behind that of page 1, and page 3
-- behind that of page 2, for user addresses 0 to 4095. Pages 4 to 6 are free.
abbrev memory : Mem
memory = record {
  table = λ t i.
      if not (i == 0)
      then 0
      else if t == page 0
      then pte_of (page 1) 0
      else if t == page 1
      then pte_of (page 2) 0
      else if t == page 2
      then pte_of (page 3) 22
      else 0;
  byte = λ p i. i;
  free = page 4 ∷ page 5 ∷ page 6 ∷ [];
}

abbrev labels : Labels
labels = record {
  level = λ p.
      if p == page 0
      then 3
      else if p == page 1
      then 2
      else if p == page 2
      then 1
      else if p == page 3
      then 4
      else 0;
  prefix = λ p. 0;
  root = λ p. page 0;
}

memory-Tables : Tables kernel_end labels memory
memory-Tables = record {
  top = λ r h. ground arith;
  down = λ t i up le lt v. ground arith;
  free = record { pages = (refl, (refl, (refl, tt))); distinct = (refl, (refl, (refl, tt))) };
  spare = λ p h. ground arith;
}

-- Only the first page of the address space is mapped.
memory-pte :
    (va : ℕ)
    → va < 2 ^ 38
    → pte_at memory (page 0) va ≡ (if va / 4096 == 0 then pte_of (page 3) 22 else 0)
unfolding reach
memory-pte va lt = elim (Bool-cases (va / 2 ^ 30 % 512 == 0)) [
  | inl one ↦ elim (Bool-cases (va / 2 ^ 21 % 512 == 0)) [
    | inl two ↦ ground arith
    | inr out ↦ ground arith
  ]
  | inr out ↦ ground arith
]

root-only : (r : ℕ) → labels.level r ≡ 3 → r ≡ page 0
root-only r h = ground arith

memory-Frames : Frames kernel_end labels memory
memory-Frames = record {
  owned = λ r va h lt v.
      let same = root-only r h in
      let e = memory-pte va (omega arith) in
      elim (Bool-cases (va / 4096 == 0)) [
        | inl first ↦
            let is_pte : pte_at memory r va ≡ pte_of (page 3) 22 = rw same (e ∙ rw first refl) in
            rw is_pte (refl, refl, ground arith, ground arith)
        | inr other ↦
            let nothing : pte_at memory r va ≡ 0 = rw same (e ∙ rw other refl) in
            absurd (cc (rw nothing at v))
      ];
}

-- Nothing is mapped from the second page on.
memory-Unmapped :
    (va pages : ℕ) → 4096 ≤ va → va + 4096 * pages ≤ 2 ^ 38 → Unmapped memory (page 0) va pages
memory-Unmapped va pages le fits vb from to =
    let other : (vb / 4096 == 0) ≡ false = ground arith in
    let nothing : pte_at memory (page 0) vb ≡ 0 = memory-pte vb (omega arith) ∙ rw other refl in
    rw nothing refl

mappages_lem_example :
    (done : Bool) × (n : Mem) × (mappages (page 0) 8192 (page_size * 2) (page 50) 6 memory
      ≡ ok (done, n))
    × Answer kernel_end labels memory (page 0) 8192 (page 50) 6 2 done n
mappages_lem_example =
    mappages_lem kernel_end labels memory (page 0) 8192 2 (page 50) 6 memory-Tables refl refl
      (omega arith) (omega arith) (memory-Unmapped 8192 2 (omega arith) (omega arith))

uvmunmap_lem_example :
    (n : Mem) × (k : Labels) × (uvmunmap kernel_end (page 0) 0 2 true memory ≡ ok n)
    × Freed kernel_end labels memory (page 0) 0 2 k n
uvmunmap_lem_example =
    uvmunmap_lem kernel_end labels memory (page 0) 0 2 memory-Tables memory-Frames refl refl
      (omega arith)

clear : (i : ℕ) → 4096 + page_size * i < 9000 + page_size → Unmapped memory (page 0) 4096 i
clear i lt = memory-Unmapped 4096 i (omega arith) (omega arith)

uvmalloc_lem_example :
    (sz : ℕ) × (n : Mem) × (uvmalloc kernel_end (page 0) 4096 9000 4 memory ≡ ok (sz, n))
    × Grown kernel_end labels memory (page 0) 4096 9000 22 sz n
uvmalloc_lem_example =
    uvmalloc_lem kernel_end labels memory (page 0) 4096 9000 4 memory-Tables memory-Frames refl
      (omega arith) (omega arith) refl (omega arith) clear

memory-writable : (vb : ℕ) → 100 ≤ vb → vb < 100 + 200 → writable_at memory (page 0) vb ≡ true
memory-writable vb from to =
    let first : (vb / 4096 == 0) ≡ true = ground arith in
    let is_pte : pte_at memory (page 0) vb ≡ pte_of (page 3) 22 =
      memory-pte vb (omega arith) ∙ rw first refl in
    rw is_pte refl

abbrev no_fault : ℕ → Mem → Option ℕ × Mem
no_fault va m = (none, m)

copyout_lem_example :
    (n : Mem) × (copyout no_fault (page 0) 100 (λ i. i) 200 memory ≡ ok (true, n))
    × Copied labels memory (page 0) 100 0 200 (λ i. i) n
copyout_lem_example =
    copyout_lem kernel_end labels no_fault (page 0) 100 (λ i. i) 200 memory (omega arith)
      memory-Frames refl (omega arith) memory-writable

copyin-copyout_example :
    (n : Mem) × (got : ℕ → ℕ) × (copyout no_fault (page 0) 100 (λ i. i) 200 memory ≡ ok (true, n))
    × (copyin no_fault (page 0) 100 (λ i. 0) 200 n ≡ (true, got, n))
    × ((i : ℕ) → got i ≡ (if ltb i 200 then i else 0))
copyin-copyout_example =
    copyin-copyout kernel_end labels no_fault (page 0) 100 (λ i. i) (λ i. 0) 200 memory
      (omega arith) memory-Frames refl (omega arith) memory-writable
