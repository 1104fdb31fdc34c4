-- ===== src/Inode/Tests.antt =====
-- Instances of the theorems about inodes and blocks of kernel/fs.c.
use mit_operating_system_eng.Base.{
  ℕ, ◌+◌, ◌≤◌, ◌<◌, ◌≡◌, refl, ◌⊎◌, ◌&&◌, Option, none, some, ltb, ◌==◌, if◌then◌else◌, Outcome, ok,
  panic, arith,
}
use mit_operating_system_eng.Inode.{
  Fs, Source, Target, bmap, writei, readi, itrunc, write_from, finish, inode_block,
}
use mit_operating_system_eng.Inode.Blocks.{slot, Owner, Owned}
use mit_operating_system_eng.Inode.RoundTrip.{readi-writei}
use mit_operating_system_eng.Inode.Itrunc.{Truncated, itrunc_lem}

-- A disk of 60 blocks, of which 30 are in use. Inode 1 has block 20, the indirect block 21 and in
-- it block 22.
abbrev addresses : ℕ → ℕ
addresses i = if i == 0 then 20 else if i == 12 then 21 else 0

abbrev disk : Fs
disk = record {
  size = 60;
  bit = λ b i. ltb i 30;
  byte = λ b i. b + i;
  word = λ b i. if b == 21 && i == 0 then 22 else 0;
  inode = λ i. record {
    kind = 2;
    nlink = 1;
    size = if i == 1 then 12500 else 0;
    addrs = λ j. if i == 1 then addresses j else 0;
  };
  dinode = λ i. record { kind = 2; nlink = 1; size = 0; addrs = λ j. 0 };
}

abbrev owner : Owner
owner = record { ino = λ b. 1; at = λ b. if b == 20 then 0 else if b == 21 then 268 else 12 }

disk-Owned : Owned owner disk
unfolding slot
disk-Owned = record { boot = refl; owned = λ i s lt some_. ground arith }

abbrev letters : Source
letters = record { bytes = λ i. i + 97; readable = λ s m. m }

abbrev buffer : Target
buffer = record { bytes = λ i. 0; writable = λ s m. m }

itrunc_lem_example : (n : Fs) × (itrunc 1 disk ≡ ok n) × Truncated owner disk 1 n
itrunc_lem_example = itrunc_lem owner disk 1 disk-Owned

abbrev state : Outcome (Option ℕ × Fs) → Fs
state (ok (r, fs)) = fs
state panic = disk

abbrev written : Fs
written = state (writei 1 1000 5 letters disk)

five-written : writei 1 1000 5 letters disk ≡ ok (some 5, written)
unfolding writei write_from finish bmap inode_block
five-written = refl

readi-writei_example :
    (r : Option ℕ) × (dst' : Target) × (fs2 : Fs) × (readi 1 1000 5 buffer written
      ≡ ok (r, dst', fs2))
    × (((r ≡ some 5) × ((i : ℕ) → i < 5 → dst'.bytes i ≡ i + 97))
        ⊎ ((r ≡ none) × (s : ℕ) × (m : ℕ) × (s + m ≤ 5) × (0 < m) × (m < m)))
readi-writei_example =
    readi-writei owner disk 1 1000 5 letters buffer written disk-Owned (omega arith) (omega arith)
      five-written
