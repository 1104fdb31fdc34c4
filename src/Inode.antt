-- ===== src/Inode.antt =====
-- kernel/fs.c: the allocation of blocks and the contents of inodes, over the blocks as the buffer
-- cache shows them. A block is seen as 8192 bits, 1024 bytes or 256 words, whichever the code
-- reads; bit `bi` is bit `bi % 8` of byte `bi / 8`. `none` is block number 0.
pub mod Blocks
pub mod Balloc
pub mod Slots
pub mod Enter
pub mod Bmap
pub mod Present
pub mod Copy
pub mod Pieces
pub mod WriteLoop
pub mod Writei
pub mod ReadPieces
pub mod ReadLoop
pub mod Readi
pub mod RoundTrip
pub mod Trunc
pub mod TruncDirect
pub mod TruncTable
pub mod Gone
pub mod Itrunc
mod Tests
use mit_operating_system_eng.Base.{
  ℕ, zero, suc, ◌+◌, ◌-◌, ◌*◌, ◌/◌, ◌%◌, ◌^◌, min, Bool, true, false, not, ◌&&◌, ◌||◌, Option, none,
  some, update, ltb, leb, ◌==◌, if◌then◌else◌, Outcome, ok, panic,
}

abbrev pub bsize : ℕ
bsize = 1024

abbrev pub ndirect : ℕ
ndirect = 12

abbrev pub nindirect : ℕ
nindirect = 256

-- MAXFILE
abbrev pub max_file : ℕ
max_file = 268

-- BPB
abbrev pub bits_per_block : ℕ
bits_per_block = 8192

-- The fields of `struct inode` and `struct dinode` that the calls read or write.
pub record Inode : Type 0 where
  pub kind : ℕ
  pub nlink : ℕ
  pub size : ℕ
  pub addrs : ℕ → ℕ

-- The superblock's `size`, the bitmap blocks from `bmapstart` on, the blocks as bytes and as words,
-- the inodes in memory and those on the disk.
pub record Fs : Type 0 where
  pub size : ℕ
  pub bit : ℕ → ℕ → Bool
  pub byte : ℕ → ℕ → ℕ
  pub word : ℕ → ℕ → ℕ
  pub inode : ℕ → Inode
  pub dinode : ℕ → Inode

unfoldable pub bzero : ℕ → Fs → Fs
bzero b fs = record fs { byte = update fs.byte b (λ i. 0); word = update fs.word b (λ i. 0) }

abbrev pub set_bit : ℕ → ℕ → Bool → Fs → Fs
set_bit block bi v fs = record fs { bit = update fs.bit block (update (fs.bit block) bi v) }

-- The inner loop of `balloc`, with `k` rounds to go at most: the first bit that is clear.
unfoldable pub scan_bits : ℕ → ℕ → ℕ → Fs → Option ℕ
scan_bits zero b bi fs = none
scan_bits (suc k) b bi fs =
    let rest = scan_bits k b (bi + 1) fs in
    if ltb bi bits_per_block && ltb (b + bi) fs.size
    then if not (fs.bit (b / bits_per_block) bi) then some bi else rest
    else none

-- The outer loop, with `k` rounds to go at most.
unfoldable pub scan_blocks : ℕ → ℕ → Fs → Option ℕ
scan_blocks zero b fs = none
scan_blocks (suc k) b fs =
    let rest = scan_blocks k (b + bits_per_block) fs in
    if ltb b fs.size
    then elim (scan_bits bits_per_block b 0 fs) [ some bi ↦ some (b + bi) | none ↦ rest ]
    else none

unfoldable pub balloc : Fs → Option ℕ × Fs
balloc fs = elim (scan_blocks (fs.size / bits_per_block + 1) 0 fs) [
  | none ↦ (none, fs)
  | some b ↦ (some b, bzero b (set_bit (b / bits_per_block) (b % bits_per_block) true fs))
]

unfoldable pub bfree : ℕ → Fs → Outcome Fs
bfree b fs =
    if not (fs.bit (b / bits_per_block) (b % bits_per_block))
    then panic
    else ok (set_bit (b / bits_per_block) (b % bits_per_block) false fs)

abbrev pub set_addr : ℕ → ℕ → ℕ → Fs → Fs
set_addr ino i a fs =
    let ip = fs.inode ino in
    record fs { inode = update fs.inode ino (record ip { addrs = update ip.addrs i a }) }

abbrev pub set_word : ℕ → ℕ → ℕ → Fs → Fs
set_word b j a fs = record fs { word = update fs.word b (update (fs.word b) j a) }

-- A new block is entered, where there is one.
abbrev pub enter : (ℕ → Fs → Fs) → Option ℕ × Fs → Option ℕ × Fs
enter f (none, fs) = (none, fs)
enter f (some b, fs) = (some b, f b fs)

-- `ip->addrs[i]`, with a new block where there is none.
unfoldable pub inode_block : ℕ → ℕ → Fs → Option ℕ × Fs
inode_block ino i fs =
    let addr = (fs.inode ino).addrs i in
    if not (addr == 0) then (some addr, fs) else enter (λ b n. set_addr ino i b n) (balloc fs)

-- Entry `j` of the indirect block `a`, with a new block where there is none.
unfoldable pub indirect_block : ℕ → ℕ → Fs → Option ℕ × Fs
indirect_block a j fs =
    let addr = fs.word a j in
    if not (addr == 0) then (some addr, fs) else enter (λ b n. set_word a j b n) (balloc fs)

-- The rest of `bmap`, with the indirect block or without.
unfoldable pub through : ℕ → Option ℕ × Fs → Option ℕ × Fs
through j (none, fs) = (none, fs)
through j (some a, fs) = indirect_block a j fs

unfoldable pub bmap : ℕ → ℕ → Fs → Outcome (Option ℕ × Fs)
bmap ino bn fs =
    if ltb bn ndirect
    then ok (inode_block ino bn fs)
    else if ltb (bn - ndirect) nindirect
    then ok (through (bn - ndirect) (inode_block ino ndirect fs))
    else panic

unfoldable pub iupdate : ℕ → Fs → Fs
iupdate ino fs = record fs { dinode = update fs.dinode ino (fs.inode ino) }

-- The loop of `itrunc` over the direct blocks from `i` on.
unfoldable pub trunc_direct : ℕ → ℕ → ℕ → Fs → Outcome Fs
trunc_direct zero ino i fs = ok fs
trunc_direct (suc k) ino i fs =
    let addr = (fs.inode ino).addrs i in
    elim (if addr == 0 then ok fs else bfree addr fs) [
      | panic ↦ panic
      | ok n ↦ trunc_direct k ino (i + 1) (if addr == 0 then n else set_addr ino i 0 n)
    ]

-- The loop over the entries of the indirect block `a` from `j` on.
unfoldable pub trunc_indirect : ℕ → ℕ → ℕ → Fs → Outcome Fs
trunc_indirect zero a j fs = ok fs
trunc_indirect (suc k) a j fs = elim (if fs.word a j == 0 then ok fs else bfree (fs.word a j) fs) [
  | panic ↦ panic
  | ok n ↦ trunc_indirect k a (j + 1) n
]

unfoldable pub set_size : ℕ → ℕ → Fs → Fs
set_size ino n fs = record fs { inode = update fs.inode ino (record (fs.inode ino) { size = n }) }

-- The part of `itrunc` for the indirect block.
unfoldable pub trunc_table : ℕ → Fs → Outcome Fs
trunc_table ino fs =
    let a = (fs.inode ino).addrs ndirect in
    if a == 0 then ok fs else elim (trunc_indirect nindirect a 0 fs) [
      | panic ↦ panic
      | ok n ↦ elim (bfree a n) [ panic ↦ panic | ok o ↦ ok (set_addr ino ndirect 0 o) ]
    ]

unfoldable pub itrunc : ℕ → Fs → Outcome Fs
itrunc ino fs = elim (trunc_direct ndirect ino 0 fs) [
  | panic ↦ panic
  | ok n ↦ elim (trunc_table ino n) [ panic ↦ panic | ok o ↦ ok (iupdate ino (set_size ino 0 o)) ]
]

-- What `either_copyin` can copy: the bytes of the source, and how many of `m` bytes from position
-- `s` on it copies before it fails; all of them where it succeeds.
pub record Source : Type 0 where
  pub bytes : ℕ → ℕ
  pub readable : ℕ → ℕ → ℕ

-- `either_copyin` to offset `at` of a block.
abbrev pub copy_bytes : ℕ → ℕ → ℕ → ℕ → Source → Fs → Fs
copy_bytes b at s count src fs = record fs {
  byte =
      update fs.byte b
        (λ i. if leb at i && ltb i (at + count) then src.bytes (s + i - at) else fs.byte b i);
}

-- The loop of `writei`, with `k` rounds to go at most: the bytes written, and the new offset.
-- `readable` counts what is copied of the piece at `tot`, also where the copy fails.
unfoldable pub write_from : ℕ → ℕ → ℕ → ℕ → ℕ → Source → Fs → Outcome (ℕ × ℕ × Fs)
write_from zero ino tot off n src fs = ok (tot, off, fs)
write_from (suc k) ino tot off n src fs =
    if not (ltb tot n) then ok (tot, off, fs) else elim (bmap ino (off / bsize) fs) [
      | panic ↦ panic
      | ok (none, fs2) ↦ ok (tot, off, fs2)
      | ok (some b, fs2) ↦
          let m = min (n - tot) (bsize - off % bsize) in
          let count = min m (src.readable tot m) in
          let fs3 = copy_bytes b (off % bsize) tot count src fs2 in
          if ltb count m
          then ok (tot, off, fs3)
          else write_from k ino (tot + m) ((off + m) % 2 ^ 32) n src fs3
    ]

-- The end of `writei`, after the loop.
unfoldable pub finish : ℕ → ℕ × ℕ × Fs → Option ℕ × Fs
finish ino (tot, off, fs) =
    (some tot, iupdate ino (if ltb (fs.inode ino).size off then set_size ino off fs else fs))

-- `none` is the result -1.
unfoldable pub writei : ℕ → ℕ → ℕ → Source → Fs → Outcome (Option ℕ × Fs)
writei ino off n src fs =
    if ltb (fs.inode ino).size off || ltb ((off + n) % 2 ^ 32) off
    then ok (none, fs)
    else if ltb (max_file * bsize) ((off + n) % 2 ^ 32)
    then ok (none, fs)
    else elim (write_from n ino 0 off n src fs) [ panic ↦ panic | ok r ↦ ok (finish ino r) ]

-- Where `either_copyout` copies to: the bytes there, and how many of `m` bytes to position `s` on it
-- copies before it fails.
pub record Target : Type 0 where
  pub bytes : ℕ → ℕ
  pub writable : ℕ → ℕ → ℕ

-- `either_copyout` of the bytes of a block from `at` on.
abbrev pub deliver : (ℕ → ℕ) → ℕ → ℕ → ℕ → Target → Target
deliver block at s count dst = record dst {
  bytes = λ i. if leb s i && ltb i (s + count) then block (at + i - s) else dst.bytes i;
}

-- The loop of `readi`; `none` is the result -1.
unfoldable pub read_from : ℕ → ℕ → ℕ → ℕ → ℕ → Target → Fs → Outcome (Option ℕ × Target × Fs)
read_from zero ino tot off n dst fs = ok (some tot, dst, fs)
read_from (suc k) ino tot off n dst fs =
    if not (ltb tot n) then ok (some tot, dst, fs) else elim (bmap ino (off / bsize) fs) [
      | panic ↦ panic
      | ok (none, fs2) ↦ ok (some tot, dst, fs2)
      | ok (some b, fs2) ↦
          let m = min (n - tot) (bsize - off % bsize) in
          let count = min m (dst.writable tot m) in
          let dst2 = deliver (fs2.byte b) (off % bsize) tot count dst in
          if ltb count m
          then ok (none, dst2, fs2)
          else read_from k ino (tot + m) ((off + m) % 2 ^ 32) n dst2 fs2
    ]

unfoldable pub readi : ℕ → ℕ → ℕ → Target → Fs → Outcome (Option ℕ × Target × Fs)
readi ino off n dst fs =
    let size = (fs.inode ino).size in
    if ltb size off || ltb ((off + n) % 2 ^ 32) off
    then ok (some 0, dst, fs)
    else let n2 = if ltb size ((off + n) % 2 ^ 32) then size - off else n in
      read_from n2 ino 0 off n2 dst fs
