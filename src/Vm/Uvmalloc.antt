-- ===== src/Vm/Uvmalloc.antt =====
-- `uvmalloc` of kernel/vm.c on the address spaces.
use mit_operating_system_eng.Base.{
  ℕ, zero, suc, ◌+◌, ◌*◌, ◌/◌, ◌%◌, ◌≤◌, ◌<◌, ◌≡◌, refl, sym, ap, ◌∙◌, inl, inr, Bool, true, false,
  ◌&&◌, some, ◌∷◌, ltb, leb, Bool-cases, has, ok, arith,
}
use mit_operating_system_eng.Mmap.{trapframe}
use mit_operating_system_eng.Vm.{
  Mem, clear_page, take_page, mappages, alloc_from, uvmalloc, page_size, page_up,
}
use mit_operating_system_eng.Vm.Entries.{Labels, Tables}
use mit_operating_system_eng.Vm.Map.{Unmapped}
use mit_operating_system_eng.Vm.Unmap.{Frames}
use mit_operating_system_eng.Vm.Fresh.{Alloced}
use mit_operating_system_eng.Vm.Rounds.{
  Alloced-none, Alloced-more, out_of_memory, not_mapped, is_mapped, alloc-Round,
}
use mit_operating_system_eng.Vm.Undo.{Undone, undo, dealloc_back}

-- `newsz` lies in the last of the `j` pages.
abbrev pub covers : ℕ → ℕ → ℕ → Bool
covers va j newsz = leb newsz (va + page_size * j) && ltb (va + page_size * j) (newsz + page_size)

-- What `uvmalloc` leaves, where it answers `sz`.
pub data Grown (end : ℕ) (l : Labels) (m : Mem) (r va newsz perm : ℕ) : ℕ → Mem → Type 0 where
  grows :
      (j : ℕ) (k : Labels) (n : Mem)
      → covers va j newsz ≡ true
      → Alloced end l m r va j perm k n
      → Grown end l m r va newsz perm newsz n
  fails : (k : Labels) (n : Mem) → Undone end l m k n → Grown end l m r va newsz perm 0 n

alloc_from-stop :
    (rounds end r a oldsz newsz xperm : ℕ) (n : Mem)
    → leb newsz a ≡ true
    → alloc_from rounds end r a oldsz newsz xperm n ≡ ok (newsz, n)
unfolding alloc_from
alloc_from-stop zero end r a oldsz newsz xperm n h = refl
alloc_from-stop (suc rounds) end r a oldsz newsz xperm n h = rw h refl

alloc_from-next :
    (rounds end r a oldsz newsz xperm p : ℕ) (n f o : Mem)
    → leb newsz a ≡ false
    → take_page n ≡ some (p, f)
    → mappages r a page_size p (18 + xperm) (clear_page p f) ≡ ok (true, o)
    → alloc_from (suc rounds) end r a oldsz newsz xperm n
      ≡ alloc_from rounds end r (a + page_size) oldsz newsz xperm o
unfolding alloc_from
alloc_from-next rounds end r a oldsz newsz xperm p n f o more taken e =
    rw (alloc_from, more, taken, e) refl

alloc_from_lem :
    (rounds : ℕ) (end : ℕ) (l : Labels) (m : Mem) (r va j newsz xperm : ℕ) (k : Labels) (n : Mem)
    → l.level r ≡ 3
    → va % page_size ≡ 0
    → newsz ≤ trapframe
    → va + page_size * j < newsz + page_size
    → newsz < va + page_size * (j + rounds)
    → xperm < 1000
    → ((i : ℕ) → va + page_size * i < newsz + page_size → Unmapped m r va i)
    → ((p : ℕ) → has p m.free ≡ true → l.level p ≡ 0)
    → Alloced end l m r va j (18 + xperm) k n
    → (sz : ℕ) × (o : Mem) × (alloc_from rounds end r (va + page_size * j) va newsz xperm n
        ≡ ok (sz, o))
      × Grown end l m r va newsz (18 + xperm) sz o
unfolding alloc_from
alloc_from_lem zero end l m r va j newsz xperm k n is_root aligned fits last enough small clear
      fresh x =
    (newsz, n, refl, grows j k n (ground arith) x)
alloc_from_lem (suc rounds) end l m r va j newsz xperm k n is_root aligned fits last enough small
      clear fresh x =
    let a = va + page_size * j in
    let (r3, _, _) = x.old r (ground arith) in
    elim (Bool-cases (leb newsz a)) [
      | inl stop ↦ (
        newsz,
        n,
        alloc_from-stop (suc rounds) end r a va newsz xperm n stop,
        grows j k n (ground arith) x,
      )
      | inr more ↦
          let in_memory : a + page_size ≤ trapframe = ground arith in
          let free : Unmapped n r a 1 = λ vb from to.
            let same = x.outside r vb is_root (omega arith) (ground arith) in
            rw same (clear (suc j) (ground arith) vb (omega arith) (omega arith)) in
          elim (alloc-Round end k n r a (18 + xperm) x.tables x.frames (r3 ∙ is_root) (omega arith)
            in_memory (omega arith) free) [
              | out_of_memory full ↦
                  let (sz, o, g, e, y) =
                    dealloc_back end k n r va j x.tables x.frames (r3 ∙ is_root) aligned
                      (omega arith) in
                  (
                    0,
                    o,
                    rw (alloc_from, more, full, e) refl,
                    fails g o (
                        undo end l m r va j (18 + xperm) k n g o is_root (omega arith)
                          (clear j last) x y fresh),
                  )
              | not_mapped p f n2 k2 taken e back z ↦
                  let same : j + 0 ≡ j = omega arith in
                  let n3 = record n2 { free = p ∷ n2.free } in
                  let all : Alloced end l m r va j (18 + xperm) k2 n3 = rw same at (
                    Alloced-more end l m r va j 0 (18 + xperm) k n k2 n3 is_root (omega arith) x
                      z) in
                  let (r4, _, _) = all.old r (ground arith) in
                  let (sz, o, g, d, y) =
                    dealloc_back end k2 n3 r va j all.tables all.frames (r4 ∙ is_root) aligned
                      (omega arith) in
                  (
                    0,
                    o,
                    rw (alloc_from, more, taken, e, back, d) refl,
                    fails g o (
                        undo end l m r va j (18 + xperm) k2 n3 g o is_root (omega arith)
                          (clear j last) all y fresh),
                  )
              | is_mapped p f n2 k2 taken e z ↦
                  let same : j + 1 ≡ suc j = omega arith in
                  let all : Alloced end l m r va (suc j) (18 + xperm) k2 n2 = rw same at (
                    Alloced-more end l m r va j 1 (18 + xperm) k n k2 n2 is_root (omega arith) x
                      z) in
                  let (sz, o, d, y) =
                    alloc_from_lem rounds end l m r va (suc j) newsz xperm k2 n2 is_root aligned
                      fits (ground arith) (omega arith) small clear fresh all in
                  let next : va + page_size * suc j ≡ a + page_size = omega arith in
                  (
                    sz,
                    o,
                    alloc_from-next rounds end r a va newsz xperm p n f n2 more taken e
                        ∙ ap (λ (b : ℕ). alloc_from rounds end r b va newsz xperm n2) (sym next)
                        ∙ d,
                    y,
                  )
            ]
    ]

-- `uvmalloc` from `oldsz` up to `newsz`, where nothing is mapped in between and `xperm` holds no other
-- bit than PTE_W and PTE_X, does not panic. Either
-- it answers `newsz`, and has mapped exactly the pages that the new size adds, each to a page of
-- zeros of its own that was free, or it answers 0 and has taken everything back: all address spaces
-- are as before, and each page of memory that was free is free again, or is a page of page tables
-- that an entry of a page-table page of before leads to, at once or through one more page. The bytes
-- of memory that was in use are not touched.
pub uvmalloc_lem :
    (end : ℕ) (l : Labels) (m : Mem) (r oldsz newsz xperm : ℕ)
    → Tables end l m
    → Frames end l m
    → l.level r ≡ 3
    → oldsz ≤ newsz
    → newsz ≤ trapframe
    → xperm % 4 ≡ 0
    → xperm < 16
    → ((i : ℕ) → page_up oldsz + page_size * i < newsz + page_size → Unmapped m r (page_up oldsz) i)
    → (sz : ℕ) × (n : Mem) × (uvmalloc end r oldsz newsz xperm m ≡ ok (sz, n))
      × Grown end l m r (page_up oldsz) newsz (18 + xperm) sz n
unfolding uvmalloc
uvmalloc_lem end l m r oldsz newsz xperm tables frames is_root grow fits bits small clear =
    let test : ltb newsz oldsz ≡ false = ground arith in
    let a = page_up oldsz in
    let start : a + page_size * 0 ≡ a = omega arith in
    let (sz, n, e, g) =
      alloc_from_lem (newsz / page_size + 1) end l m r a 0 newsz xperm l m is_root (omega arith)
        fits (omega arith) (omega arith) (omega arith) clear tables.spare
        (Alloced-none end l m r a (18 + xperm) tables frames) in
    (sz, n, rw test (rw start at e), g)
