-- ===== src/Mmap.antt =====
-- Memory-mapped files: `sys_mmap` and `sys_munmap` of kernel/sysproc.c, `uvmunmap_vma` of
-- kernel/vm.c, over the `struct VMA`s of kernel/proc.h.
-- A `uint64` is a number below 2 ^ 64 and an `int` its bit pattern; page tables, inodes and
-- `writei` enter as what the code observes of them.
pub mod Unmap
pub mod Region
pub mod Layout
pub mod Negative
pub mod Munmap
pub mod MunmapFound
pub mod Unmapped
pub mod WriteBack
pub mod Fault
mod Tests
use mit_operating_system_eng.Base.{
  ℕ, zero, suc, ◌+◌, ◌-◌, ◌*◌, ◌/◌, ◌%◌, ◌^◌, min, Bool, true, false, not, ◌&&◌, ◌||◌, Option, none,
  some, List, [], ◌∷◌, ◌++◌, length, get_elem?, set, update, ltb, leb, ◌==◌, if◌then◌else◌, Outcome,
  ok, panic,
}

abbrev pub page_size : ℕ
page_size = 4096

abbrev pub nvma : ℕ
nvma = 16

-- MAXVA - 2 * PGSIZE
abbrev pub trapframe : ℕ
trapframe = 2 ^ 38 - 8192

pub record Vma : Type 0 where
  pub valid : Bool
  pub start : ℕ
  pub end : ℕ
  pub prot : ℕ
  pub flags : ℕ
  pub f : ℕ
  pub offset : ℕ

-- The fields of `struct file` that the calls read or write.
pub record File : Type 0 where
  pub ref : ℕ
  pub readable : Bool
  pub writable : Bool

-- The fields of `struct proc`, with the file table.
pub record Proc : Type 0 where
  pub sz : ℕ
  pub mmap_base : ℕ
  pub vma : List Vma
  pub ofile : List (Option ℕ)
  pub files : ℕ → File

abbrev pub page_down : ℕ → ℕ
page_down a = a - a % page_size

-- PGROUNDUP of an `int`, converted to `uint64` with its sign.
abbrev pub sign_extend : ℕ → ℕ
sign_extend w = if ltb w (2 ^ 31) then w else w + 2 ^ 64 - 2 ^ 32

abbrev pub round_len : ℕ → ℕ
round_len len = sign_extend (page_down ((len + 4095) % 2 ^ 32))

-- The tests `prot & PROT_READ`, `prot & PROT_WRITE`, `prot & PROT_EXEC` and `flags & MAP_SHARED`.
abbrev pub can_read : ℕ → Bool
can_read prot = prot % 2 == 1

abbrev pub can_write : ℕ → Bool
can_write prot = prot / 2 % 2 == 1

abbrev pub can_exec : ℕ → Bool
can_exec prot = prot / 4 % 2 == 1

abbrev pub is_shared : ℕ → Bool
is_shared flags = flags % 2 == 1

-- The index of the first slot that is not in use, counted from `i`; the length where there is none.
pub find_free : List Vma → ℕ
find_free [] = 0
find_free (v ∷ vs) = let rest = find_free vs in if v.valid then suc rest else 0

-- The descriptor's file; out of range or with no file there the code follows a bad pointer.
pub fd_file : ℕ → Proc → Outcome ℕ
fd_file fd p = elim (get_elem? p.ofile fd) [
  | none ↦ panic
  | some o ↦ elim o [ none ↦ panic | some f ↦ ok f ]
]

-- `filedup` panics where the file is not open.
pub filedup : ℕ → Proc → Outcome Proc
filedup f p =
    if (p.files f).ref == 0
    then panic
    else ok
        (record p { files = update p.files f (record (p.files f) { ref = (p.files f).ref + 1 }) })

-- The part of `sys_mmap` that places the region, for a file that may be mapped so. `none` is the
-- result -1.
pub place : ℕ → ℕ → ℕ → ℕ → ℕ → Proc → Outcome (Option ℕ × Proc)
unfolding find_free filedup
place len prot flags f offset p =
    let size = round_len len in
    let start = page_down ((p.mmap_base + 2 ^ 64 - size) % 2 ^ 64) in
    let i = find_free p.vma in
    if ltb start p.sz || leb trapframe start
    then ok (none, p)
    else if i == length p.vma
    then ok (none, p)
    else elim (filedup f p) [
      | panic ↦ panic
      | ok q ↦ ok (
        some start,
        record q {
          vma = set p.vma i (record {
            valid = true;
            start = start;
            end = (start + size) % 2 ^ 64;
            prot = prot;
            flags = flags;
            f = f;
            offset = offset;
          });
          mmap_base = start;
        },
      )
    ]

pub sys_mmap : ℕ → ℕ → ℕ → ℕ → ℕ → ℕ → Proc → Outcome (Option ℕ × Proc)
sys_mmap addr len prot flags fd offset p =
    if len == 0 || not (addr == 0) then ok (none, p) else elim (fd_file fd p) [
      | panic ↦ panic
      | ok f ↦
          if can_read prot && not (p.files f).readable
          then ok (none, p)
          else if can_write prot && not (p.files f).writable && is_shared flags
          then ok (none, p)
          else place len prot flags f offset p
    ]
