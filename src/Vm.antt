-- ===== src/Vm.antt =====
-- kernel/vm.c: the three-level page tables of kernel/riscv.h, and user memory.
-- A `pte_t` is a number; a page of physical memory holds either 512 entries or 4096 bytes. `none`
-- is the null pointer, and the entry that `walk` points to is PX(0, va) of the page it answers.
pub mod Entries
pub mod Grow
pub mod Walk
pub mod Slots
pub mod Map
pub mod Mappages
pub mod Unmap
pub mod Uvmunmap
pub mod Fresh
pub mod Rounds
pub mod Undo
pub mod Uvmalloc
pub mod CopyPage
pub mod Copyout
pub mod Copyin
mod Tests
use mit_operating_system_eng.Base.{
  ℕ, zero, suc, ◌+◌, ◌-◌, ◌*◌, ◌/◌, ◌%◌, ◌^◌, min, Bool, true, false, not, ◌&&◌, ◌||◌, Option, none,
  some, List, [], ◌∷◌, update, ltb, leb, ◌==◌, if◌then◌else◌, Outcome, ok, panic,
}
use mit_operating_system_eng.Kalloc.{kalloc, kfree}

abbrev pub page_size : ℕ
page_size = 4096

abbrev pub maxva : ℕ
maxva = 2 ^ 38

pub record Mem : Type 0 where
  pub table : ℕ → ℕ → ℕ
  pub byte : ℕ → ℕ → ℕ
  pub free : List ℕ

abbrev pub valid : ℕ → Bool
valid pte = pte % 2 == 1

abbrev pub writable : ℕ → Bool
writable pte = pte / 4 % 2 == 1

abbrev pub is_user : ℕ → Bool
is_user pte = pte / 16 % 2 == 1

-- PTE2PA
abbrev pub pte_pa : ℕ → ℕ
pte_pa pte = pte / 1024 * 4096

-- `PA2PTE(pa) | perm | PTE_V`, for `perm` below 1024: the bits of `perm` but the lowest, which is
-- set, and below them nothing of the address.
abbrev pub pte_of : ℕ → ℕ → ℕ
pte_of pa perm = pa / 4096 * 1024 + (perm / 2 * 2 + 1)

-- PX
abbrev pub px : ℕ → ℕ → ℕ
px level va = va / 2 ^ (12 + 9 * level) % 512

abbrev pub page_down : ℕ → ℕ
page_down a = a / page_size * page_size

abbrev pub page_up : ℕ → ℕ
page_up a = (a + page_size - 1) % 2 ^ 64 / page_size * page_size

-- `memset(p, 0, PGSIZE)` of a page of entries, and of a page of bytes.
abbrev pub clear_table : ℕ → Mem → Mem
clear_table p m = record m { table = update m.table p (λ i. 0) }

abbrev pub clear_page : ℕ → Mem → Mem
clear_page p m = record m { byte = update m.byte p (λ i. 0) }

abbrev pub set_pte : ℕ → ℕ → ℕ → Mem → Mem
set_pte t i pte m = record m { table = update m.table t (update (m.table t) i pte) }

-- A page from `kalloc`.
unfoldable pub take_page : Mem → Option (ℕ × Mem)
unfolding kalloc
take_page m =
    let (page, rest) = kalloc m.free in
    elim page [ none ↦ none | some p ↦ some (p, record m { free = rest }) ]

-- The body of the loop of `walk`: the next page-table page.
unfoldable pub follow : Bool → ℕ → ℕ → Mem → Option (ℕ × Mem)
follow alloc t i m =
    if valid (m.table t i)
    then some (pte_pa (m.table t i), m)
    else if not alloc
    then none
    else elim (take_page m) [
      | none ↦ none
      | some (p, n) ↦ some (p, set_pte t i (pte_of p 0) (clear_table p n))
    ]

-- The loop, from `level` down.
unfoldable pub descend : Bool → ℕ → ℕ → ℕ → Mem → Option ℕ × Mem
descend alloc va zero t m = (some t, m)
descend alloc va (suc level) t m = elim (follow alloc t (px (suc level) va) m) [
  | none ↦ (none, m)
  | some (u, n) ↦ descend alloc va level u n
]

unfoldable pub walk : ℕ → ℕ → Bool → Mem → Outcome (Option ℕ × Mem)
walk t va alloc m = if leb maxva va then panic else ok (descend alloc va 2 t m)

-- `none` is the result 0.
unfoldable pub walkaddr : ℕ → ℕ → Mem → Option ℕ
walkaddr t va m =
    let (last, n) = descend false va 2 t m in
    if leb maxva va then none else elim last [
      | none ↦ none
      | some u ↦
          let pte = n.table u (px 0 va) in
          if not (valid pte) then none else if not (is_user pte) then none else some (pte_pa pte)
    ]

-- The loop of `mappages`, with `k` rounds to go at most. `false` is the result -1.
unfoldable pub map_from : ℕ → ℕ → ℕ → ℕ → ℕ → ℕ → Mem → Outcome (Bool × Mem)
map_from zero t a last pa perm m = panic
map_from (suc k) t a last pa perm m = elim (walk t a true m) [
  | panic ↦ panic
  | ok (none, n) ↦ ok (false, n)
  | ok (some u, n) ↦
      if valid (n.table u (px 0 a))
      then panic
      else if a == last
      then ok (true, set_pte u (px 0 a) (pte_of pa perm) n)
      else map_from k t ((a + page_size) % 2 ^ 64) last (pa + page_size) perm
          (set_pte u (px 0 a) (pte_of pa perm) n)
]

unfoldable pub mappages : ℕ → ℕ → ℕ → ℕ → ℕ → Mem → Outcome (Bool × Mem)
mappages t va size pa perm m =
    if not (va % page_size == 0)
    then panic
    else if not (size % page_size == 0)
    then panic
    else if size == 0
    then panic
    else map_from (size / page_size) t va ((va + size - page_size) % 2 ^ 64) pa perm m

unfoldable pub uvmcreate : Mem → Option ℕ × Mem
uvmcreate m = elim (take_page m) [ none ↦ (none, m) | some (p, n) ↦ (some p, clear_table p n) ]

-- The body of the loop of `uvmunmap`.
unfoldable pub unmap_page : ℕ → ℕ → ℕ → Bool → Mem → Outcome Mem
unmap_page end t a do_free m = elim (walk t a false m) [
  | panic ↦ panic
  | ok (none, n) ↦ ok n
  | ok (some u, n) ↦
      if not (valid (n.table u (px 0 a)))
      then ok n
      else if do_free
      then elim (kfree end (pte_pa (n.table u (px 0 a))) n.free) [
        | panic ↦ panic
        | ok l ↦ ok (set_pte u (px 0 a) 0 (record n { free = l }))
      ]
      else ok (set_pte u (px 0 a) 0 n)
]

-- The loop, over the next `npages` pages.
unfoldable pub unmap_from : ℕ → ℕ → ℕ → ℕ → Bool → Mem → Outcome Mem
unmap_from end t a zero do_free m = ok m
unmap_from end t a (suc npages) do_free m = elim (unmap_page end t a do_free m) [
  | panic ↦ panic
  | ok n ↦ unmap_from end t (a + page_size) npages do_free n
]

unfoldable pub uvmunmap : ℕ → ℕ → ℕ → ℕ → Bool → Mem → Outcome Mem
uvmunmap end t va npages do_free m =
    if not (va % page_size == 0) then panic else unmap_from end t va npages do_free m

unfoldable pub uvmdealloc : ℕ → ℕ → ℕ → ℕ → Mem → Outcome (ℕ × Mem)
uvmdealloc end t oldsz newsz m =
    if leb oldsz newsz
    then ok (oldsz, m)
    else if ltb (page_up newsz) (page_up oldsz)
    then elim (uvmunmap end t (page_up newsz) ((page_up oldsz - page_up newsz) / page_size) true
        m) [ panic ↦ panic | ok n ↦ ok (newsz, n) ]
    else ok (newsz, m)

-- The loop of `uvmalloc` from the page `a` on, with `k` rounds to go at most. `perm` holds PTE_W
-- and PTE_X at most.
unfoldable pub alloc_from : ℕ → ℕ → ℕ → ℕ → ℕ → ℕ → ℕ → Mem → Outcome (ℕ × Mem)
alloc_from zero end t a oldsz newsz xperm m = ok (newsz, m)
alloc_from (suc k) end t a oldsz newsz xperm m =
    if leb newsz a then ok (newsz, m) else elim (take_page m) [
      | none ↦ elim (uvmdealloc end t a oldsz m) [ panic ↦ panic | ok (sz, n) ↦ ok (0, n) ]
      | some (mem, n) ↦ elim (mappages t a page_size mem (18 + xperm) (clear_page mem n)) [
        | panic ↦ panic
        | ok (true, n2) ↦ alloc_from k end t (a + page_size) oldsz newsz xperm n2
        | ok (false, n2) ↦ elim (kfree end mem n2.free) [
          | panic ↦ panic
          | ok l ↦ elim (uvmdealloc end t a oldsz (record n2 { free = l })) [
            | panic ↦ panic
            | ok (sz, n3) ↦ ok (0, n3)
          ]
        ]
      ]
    ]

unfoldable pub uvmalloc : ℕ → ℕ → ℕ → ℕ → ℕ → Mem → Outcome (ℕ × Mem)
uvmalloc end t oldsz newsz xperm m =
    if ltb newsz oldsz
    then ok (oldsz, m)
    else alloc_from (newsz / page_size + 1) end t (page_up oldsz) (page_up oldsz) newsz xperm m

-- `PTE_U` is taken from an entry; the entry is followed without a test of PTE_V.
unfoldable pub uvmclear : ℕ → ℕ → Mem → Outcome Mem
uvmclear t va m = elim (walk t va false m) [
  | panic ↦ panic
  | ok (none, n) ↦ panic
  | ok (some u, n) ↦
      let pte = n.table u (px 0 va) in
      ok (set_pte u (px 0 va) (if is_user pte then pte - 16 else pte) n)
]

-- The page of a user address, from `walkaddr` or else from `vmfault`, of which `fault` says what it
-- answers at a page and what it leaves.
unfoldable pub user_page : (ℕ → Mem → Option ℕ × Mem) → ℕ → ℕ → Mem → Option ℕ × Mem
user_page fault t va0 m = elim (walkaddr t va0 m) [
  | none ↦ fault va0 m
  | some pa ↦ if pa == 0 then fault va0 m else (some pa, m)
]

-- `memmove` of `n` bytes of the source from `pos` on to offset `at` of a page.
abbrev pub fill_page : ℕ → ℕ → ℕ → ℕ → (ℕ → ℕ) → Mem → Mem
fill_page p at pos n src m = record m {
  byte =
      update m.byte p (λ i. if leb at i && ltb i (at + n) then src (pos + i - at) else m.byte p i);
}

-- One piece of `copyout`: the page that is found is written, if its entry has PTE_W. Without a
-- page-table page the code follows a null pointer.
unfoldable pub copy_piece : ℕ → ℕ → ℕ → ℕ → (ℕ → ℕ) → Option ℕ × Mem → Outcome (Bool × Mem)
copy_piece t dstva pos n src (none, m) = ok (false, m)
copy_piece t dstva pos n src (some pa, m) = elim (walk t (page_down dstva) false m) [
  | panic ↦ panic
  | ok (none, m2) ↦ panic
  | ok (some u, m2) ↦
      if not (writable (m2.table u (px 0 (page_down dstva))))
      then ok (false, m2)
      else ok (true, fill_page pa (dstva - page_down dstva) pos n src m2)
]

abbrev pub piece_len : ℕ → ℕ → ℕ
piece_len va len = min (page_size - (va - page_down va)) len

-- `false` is the result -1. Each of the `k` rounds copies one byte at least.
unfoldable pub copyout_from :
    ℕ → (ℕ → Mem → Option ℕ × Mem) → ℕ → ℕ → ℕ → (ℕ → ℕ) → ℕ → Mem → Outcome (Bool × Mem)
copyout_from zero fault t dstva pos src len m = ok (true, m)
copyout_from (suc k) fault t dstva pos src len m =
    if len == 0
    then ok (true, m)
    else if leb maxva (page_down dstva)
    then ok (false, m)
    else elim (copy_piece t dstva pos (piece_len dstva len) src
        (user_page fault t (page_down dstva) m)) [
          | panic ↦ panic
          | ok (false, m2) ↦ ok (false, m2)
          | ok (true, m2) ↦
              copyout_from k fault t (page_down dstva + page_size) (pos + piece_len dstva len) src
                (len - piece_len dstva len) m2
        ]

unfoldable pub copyout :
    (ℕ → Mem → Option ℕ × Mem) → ℕ → ℕ → (ℕ → ℕ) → ℕ → Mem → Outcome (Bool × Mem)
copyout fault t dstva src len m = copyout_from len fault t dstva 0 src len m

-- `memmove` of `n` bytes of a page from offset `at` on to the destination at `pos`.
abbrev pub take_bytes : (ℕ → ℕ) → ℕ → ℕ → ℕ → (ℕ → ℕ) → ℕ → ℕ
take_bytes bytes at pos n dst i =
    if leb pos i && ltb i (pos + n) then bytes (at + i - pos) else dst i

unfoldable pub copyin_from :
    ℕ → (ℕ → Mem → Option ℕ × Mem) → ℕ → ℕ → ℕ → (ℕ → ℕ) → ℕ → Mem → Bool × (ℕ → ℕ) × Mem
copyin_from zero fault t srcva pos dst len m = (true, dst, m)
copyin_from (suc k) fault t srcva pos dst len m =
    let (page, m2) = user_page fault t (page_down srcva) m in
    if len == 0 then (true, dst, m) else elim page [
      | none ↦ (false, dst, m2)
      | some pa ↦
          copyin_from k fault t ((page_down srcva + page_size) % 2 ^ 64) (pos + piece_len srcva len)
            (take_bytes (m2.byte pa) (srcva - page_down srcva) pos (piece_len srcva len) dst)
            (len - piece_len srcva len) m2
    ]

unfoldable pub copyin :
    (ℕ → Mem → Option ℕ × Mem) → ℕ → ℕ → (ℕ → ℕ) → ℕ → Mem → Bool × (ℕ → ℕ) × Mem
copyin fault t srcva dst len m = copyin_from len fault t srcva 0 dst len m
