-- ===== src/Inode/Blocks.antt =====
-- The blocks that the inodes of kernel/fs.c own.
use mit_operating_system_eng.Base.{
  ℕ, ◌-◌, ◌/◌, ◌%◌, ◌<◌, ◌≡◌, ◌≢◌, Bool, true, ltb, ◌==◌, if◌then◌else◌,
}
use mit_operating_system_eng.Inode.{Fs, bits_per_block, bsize, ndirect, max_file}

-- The bit of a block in the bitmap.
abbrev pub used : Fs → ℕ → Bool
used fs b = fs.bit (b / bits_per_block) (b % bits_per_block)

-- The slots of an inode: those of its data blocks, and slot 268 of the indirect block. What a slot
-- holds is a block number, 0 for none.
unfoldable pub slot : Fs → ℕ → ℕ → ℕ
slot fs ino s =
    let a = (fs.inode ino).addrs in
    if ltb s ndirect
    then a s
    else if s == max_file
    then a ndirect
    else if a ndirect == 0
    then 0
    else fs.word (a ndirect) (s - ndirect)

-- The owner of each block: an inode and a slot.
pub record Owner : Type 0 where
  pub ino : ℕ → ℕ
  pub at : ℕ → ℕ

-- Each block that is the value of a slot is a block of the disk, marked in the bitmap, and the
-- value of no other slot. Block 0 is marked.
pub record Owned (o : Owner) (fs : Fs) : Type 0 where
  pub boot : used fs 0 ≡ true
  pub owned :
      (ino s : ℕ)
      → s < 269
      → slot fs ino s ≢ 0
      → (used fs (slot fs ino s) ≡ true)
        × (slot fs ino s < fs.size)
        × (o.ino (slot fs ino s) ≡ ino)
        × (o.at (slot fs ino s) ≡ s)

-- The byte of a file at an offset, 0 where there is no block.
abbrev pub byte_at : Fs → ℕ → ℕ → ℕ
byte_at fs ino off =
    let b = slot fs ino (off / bsize) in if b == 0 then 0 else fs.byte b (off % bsize)
