-- ===== src/Inode/Copy.antt =====
-- A piece of data that `writei` of kernel/fs.c copies into a block.
use mit_operating_system_eng.Base.{
  ℕ, ◌+◌, ◌-◌, ◌*◌, ◌/◌, ◌%◌, ◌≤◌, ◌<◌, ◌≡◌, ◌≢◌, refl, inl, inr, true, false, ◌&&◌, ltb, leb, ◌==◌,
  if◌then◌else◌, Bool-cases, arith,
}
use mit_operating_system_eng.Inode.{Fs, bsize, max_file, Source, copy_bytes}
use mit_operating_system_eng.Inode.Blocks.{slot, Owner, Owned, byte_at}

pub copy-Owned :
    (q : Owner) (fs : Fs) (b at s count : ℕ) (src : Source)
    → Owned q fs
    → Owned q (copy_bytes b at s count src fs)
unfolding slot
copy-Owned q fs b at s count src owned = record { boot = owned.boot; owned = owned.owned }

pub copy-slot :
    (fs : Fs) (b at s count : ℕ) (src : Source) (i t : ℕ)
    → slot (copy_bytes b at s count src fs) i t ≡ slot fs i t
unfolding slot
copy-slot fs b at s count src i t = refl

-- A piece that is copied into the block of the file at its offset.
pub copy-view :
    (q : Owner) (fs : Fs) (ino off b s count : ℕ) (src : Source) (i p : ℕ)
    → Owned q fs
    → slot fs ino (off / bsize) ≡ b
    → b ≢ 0
    → off % bsize + count ≤ bsize
    → off < max_file * bsize
    → p < max_file * bsize
    → byte_at (copy_bytes b (off % bsize) s count src fs) i p ≡ (
        if i == ino && (leb off p && ltb p (off + count))
        then src.bytes (s + (p - off))
        else byte_at fs i p)
copy-view q fs ino off b s count src i p owned here some_ fits lt lt2 =
    let same = copy-slot fs b (off % bsize) s count src i (p / bsize) in
    elim (Bool-cases (i == ino && off / bsize == p / bsize)) [
      | inl hit ↦
          let is_ino : i ≡ ino = ground arith in
          let block : p / bsize ≡ off / bsize = ground arith in
          let is_b : slot fs i (p / bsize) ≡ b = rw (is_ino, block) here in
          let not_zero : (b == 0) ≡ false = ground arith in
          let self : (b == b) ≡ true = ground arith in
          let test : (leb (off % bsize) (p % bsize) && ltb (p % bsize) (off % bsize + count))
              ≡ (i == ino && (leb off p && ltb p (off + count))) =
            ground arith in
          elim (Bool-cases (i == ino && (leb off p && ltb p (off + count)))) [
            | inl inside ↦
                let pos : s + p % bsize - off % bsize ≡ s + (p - off) = ground arith in
                rw (same, is_b, not_zero, self, test, inside, pos) refl
            | inr outside ↦ rw (same, is_b, not_zero, self, test, outside) refl
          ]
      | inr out ↦
          let outside : (i == ino && (leb off p && ltb p (off + count))) ≡ false = ground arith in
          elim (Bool-cases (slot fs i (p / bsize) == 0)) [
            | inl none_ ↦ rw (same, none_, outside) refl
            | inr there ↦
                let (_, _, x, y) = owned.owned i (p / bsize) (omega arith) (ground arith) in
                let (_, _, z, w) = owned.owned ino (off / bsize) (omega arith) (rw here some_) in
                let z_ : q.ino b ≡ ino = rw here at z in
                let w_ : q.at b ≡ off / bsize = rw here at w in
                let other : (b == slot fs i (p / bsize)) ≡ false = ground arith in
                rw (same, there, other, outside) refl
          ]
    ]
