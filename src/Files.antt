-- ===== src/Files.antt =====
-- kernel/file.c and the descriptor calls of kernel/sysfile.c: the table of open files and one process's
-- descriptors. What the pipe, the device and the inode layer answer to a read or a write is a
-- parameter; `none` stands for the result -1. The length of a call is not negative.
pub mod Counts
pub mod Calls
pub mod Transfers
pub mod Writes
pub mod Session
mod Tests
use mit_operating_system_eng.Base.{
  ℕ, zero, suc, ◌+◌, ◌-◌, ◌/◌, ◌%◌, ◌^◌, Bool, true, false, not, ◌&&◌, ◌||◌, Option, none, some,
  List, [], ◌∷◌, get_elem?, set, ltb, ◌==◌, if◌then◌else◌, update, Outcome, ok, panic,
}
use mit_operating_system_eng.Process.{find}

abbrev pub nfile : ℕ
nfile = 100

abbrev pub nofile : ℕ
nofile = 16

abbrev pub ndev : ℕ
ndev = 10

pub data Kind : Type 0 where
  fd_none fd_pipe fd_inode fd_device : Kind

-- `struct file`; `object` is the pipe or the inode, `major` the bit pattern of a `short`.
pub record File : Type 0 where
  pub kind : Kind
  pub ref : ℕ
  pub readable : Bool
  pub writable : Bool
  pub object : ℕ
  pub off : ℕ
  pub major : ℕ

pub record State : Type 0 where
  pub file : ℕ → File
  pub ofile : List (Option ℕ)

abbrev pub set_file : ℕ → File → State → State
set_file f x s = record s { file = update s.file f x }

unfoldable pub filealloc : State → Option ℕ × State
filealloc s = elim (find nfile 0 (λ f. (s.file f).ref == 0)) [
  | none ↦ (none, s)
  | some f ↦ (some f, set_file f (record (s.file f) { ref = 1 }) s)
]

unfoldable pub filedup : ℕ → State → Outcome State
filedup f s =
    if (s.file f).ref == 0
    then panic
    else ok (set_file f (record (s.file f) { ref = (s.file f).ref + 1 }) s)

-- What the last close does to the object of the file.
pub data End : Type 0 where
  keeps : End
  pipe_closes : ℕ → Bool → End
  inode_puts : ℕ → End

abbrev pub end_of : File → End
end_of f = elim f.kind [
  | fd_none ↦ keeps
  | fd_pipe ↦ pipe_closes f.object f.writable
  | fd_inode ↦ inode_puts f.object
  | fd_device ↦ inode_puts f.object
]

unfoldable pub fileclose : ℕ → State → Outcome (End × State)
fileclose f s =
    let x = s.file f in
    if x.ref == 0
    then panic
    else if ltb 0 (x.ref - 1)
    then ok (keeps, set_file f (record x { ref = x.ref - 1 }) s)
    else ok (end_of x, set_file f (record x { ref = 0; kind = fd_none }) s)

-- The answers of the layers below: of the pipe, of the device, if it has the routine, and of the
-- inode at an offset of the caller's bytes, an offset of the file and a length.
pub record Layers : Type 0 where
  pub pipe : Option ℕ
  pub has_device : Bool
  pub device : Option ℕ
  pub inode : ℕ → ℕ → ℕ → Option ℕ

-- `f->off += r` where `r` is positive.
abbrev pub advance : ℕ → Option ℕ → State → State
advance f none s = s
advance f (some r) s = set_file f (record (s.file f) { off = ((s.file f).off + r) % 2 ^ 32 }) s

unfoldable pub fileread : Layers → ℕ → ℕ → State → Outcome (Option ℕ × State)
fileread l f n s =
    let x = s.file f in
    if not x.readable then ok (none, s) else elim x.kind [
      | fd_none ↦ panic
      | fd_pipe ↦ ok (l.pipe, s)
      | fd_inode ↦ ok (l.inode 0 x.off n, advance f (l.inode 0 x.off n) s)
      | fd_device ↦ ok (if ltb x.major ndev && l.has_device then l.device else none, s)
    ]

-- The most bytes that one transaction writes: ((MAXOPBLOCKS-1-1-2) / 2) * BSIZE.
abbrev pub max_write : ℕ
max_write = 3072

abbrev pub chunk : ℕ → ℕ
chunk n = if ltb max_write n then max_write else n

-- The loop of `filewrite` with `i` of `n` bytes written, on fuel.
unfoldable pub write_loop : (ℕ → ℕ → ℕ → Option ℕ) → ℕ → ℕ → ℕ → ℕ → State → ℕ × State
write_loop writei zero f i n s = (i, s)
write_loop writei (suc fuel) f i n s =
    let n1 = chunk (n - i) in
    let r = writei i (s.file f).off n1 in
    let s' = advance f r s in
    let more = write_loop writei fuel f (i + n1) n s' in
    if not (ltb i n)
    then (i, s)
    else if elim r [ none ↦ false | some k ↦ k == n1 ]
    then more
    else (i, s')

unfoldable pub filewrite : Layers → ℕ → ℕ → State → Outcome (Option ℕ × State)
filewrite l f n s =
    let x = s.file f in
    let (i, s') = write_loop l.inode n f 0 n s in
    if not x.writable then ok (none, s) else elim x.kind [
      | fd_none ↦ panic
      | fd_pipe ↦ ok (l.pipe, s)
      | fd_inode ↦ ok (if i == n then some n else none, s')
      | fd_device ↦ ok (if ltb x.major ndev && l.has_device then l.device else none, s)
    ]

-- `fd` is the bit pattern of an `int`.
unfoldable pub argfd : ℕ → State → Option ℕ
argfd fd s =
    if ltb fd nofile then elim (get_elem? s.ofile fd) [ none ↦ none | some o ↦ o ] else none

-- The first free entry of a list of descriptors, and the list with the file there.
unfoldable pub place : ℕ → List (Option ℕ) → Option (ℕ × List (Option ℕ))
place f [] = none
place f (none ∷ fds) = some (0, some f ∷ fds)
place f (some g ∷ fds) = elim (place f fds) [ none ↦ none | some r ↦ some (r.0 + 1, some g ∷ r.1) ]

unfoldable pub fdalloc : ℕ → State → Option (ℕ × State)
fdalloc f s = elim (place f s.ofile) [ none ↦ none | some r ↦ some (r.0, record s { ofile = r.1 }) ]

unfoldable pub sys_dup : ℕ → State → Outcome (Option ℕ × State)
sys_dup fd s = elim (argfd fd s) [
  | none ↦ ok (none, s)
  | some f ↦ elim (fdalloc f s) [
    | none ↦ ok (none, s)
    | some r ↦ elim (filedup f r.1) [ panic ↦ panic | ok s' ↦ ok (some r.0, s') ]
  ]
]

unfoldable pub sys_close : ℕ → State → Outcome (Option End × State)
sys_close fd s = elim (argfd fd s) [
  | none ↦ ok (none, s)
  | some f ↦ elim (fileclose f (record s { ofile = set s.ofile fd none })) [
    | panic ↦ panic
    | ok r ↦ ok (some r.0, r.1)
  ]
]

unfoldable pub sys_read : Layers → ℕ → ℕ → State → Outcome (Option ℕ × State)
sys_read l fd n s = elim (argfd fd s) [ none ↦ ok (none, s) | some f ↦ fileread l f n s ]

unfoldable pub sys_write : Layers → ℕ → ℕ → State → Outcome (Option ℕ × State)
sys_write l fd n s = elim (argfd fd s) [ none ↦ ok (none, s) | some f ↦ filewrite l f n s ]

-- The inode that `create` or `namei` of `sys_open` answers, locked.
pub record Inode : Type 0 where
  pub ip : ℕ
  pub is_dir : Bool
  pub is_file : Bool
  pub is_device : Bool
  pub major : ℕ

-- `O_WRONLY`, `O_RDWR`, `O_CREATE` and `O_TRUNC` are 1, 2, 0x200 and 0x400.
abbrev pub has_bit : ℕ → ℕ → Bool
has_bit omode b = omode / b % 2 == 1

abbrev pub opened : ℕ → Inode → File → File
opened omode ip x = record x {
  kind = if ip.is_device then fd_device else fd_inode;
  major = if ip.is_device then ip.major else x.major;
  off = if ip.is_device then x.off else 0;
  object = ip.ip;
  readable = not (has_bit omode 1);
  writable = has_bit omode 1 || has_bit omode 2;
}

-- `sys_open` from the call of `filealloc` on: the descriptor, and whether the file is truncated.
unfoldable pub open_inode : ℕ → Inode → Option ℕ × State → Outcome (Option (ℕ × Bool) × State)
open_inode omode ip (none, s) = ok (none, s)
open_inode omode ip (some f, s) = elim (fdalloc f s) [
  | none ↦ elim (fileclose f s) [ panic ↦ panic | ok r ↦ ok (none, r.1) ]
  | some r ↦
      ok (
        some (r.0, has_bit omode 1024 && ip.is_file),
        set_file f (opened omode ip (r.1.file f)) r.1,
      )
]

unfoldable pub sys_open : ℕ → Option Inode → State → Outcome (Option (ℕ × Bool) × State)
sys_open omode none s = ok (none, s)
sys_open omode (some ip) s =
    if not (has_bit omode 512) && ip.is_dir && not (omode == 0)
    then ok (none, s)
    else if ip.is_device && not (ltb ip.major ndev)
    then ok (none, s)
    else open_inode omode ip (filealloc s)
