-- ===== src/Inode/Slots.antt =====
-- What the slots of the inodes hold after `bmap` of kernel/fs.c has entered a block.
use mit_operating_system_eng.Base.{
  ℕ, ◌+◌, ◌-◌, ◌<◌, ◌≡◌, ◌≢◌, refl, sym, ◌∙◌, inl, inr, ◌&&◌, ◌==◌, if◌then◌else◌, Bool-cases,
  arith,
}
use mit_operating_system_eng.Inode.{Fs, ndirect, nindirect, max_file, set_addr, set_word}
use mit_operating_system_eng.Inode.Blocks.{slot, Owner, Owned}
use mit_operating_system_eng.Inode.Balloc.{NewBlock}

-- An indirect block is not the block that was free.
table-old :
    (o : Owner) (fs : Fs) (b : ℕ) (m : Fs) (i : ℕ)
    → Owned o fs
    → NewBlock fs b m
    → (fs.inode i).addrs ndirect ≢ 0
    → ((fs.inode i).addrs ndirect ≢ b)
      × (m.word ((fs.inode i).addrs ndirect) ≡ fs.word ((fs.inode i).addrs ndirect))
unfolding slot
table-old o fs b m i owned new some_ =
    let (mark, _, _, _) = owned.owned i 268 (omega arith) some_ in
    let other : (fs.inode i).addrs ndirect ≢ b = ground (arith, new.clear) in
    (other, new.words ((fs.inode i).addrs ndirect) other)

pub slots-direct :
    (o : Owner) (fs : Fs) (ino s b : ℕ) (m : Fs) (i t : ℕ)
    → Owned o fs
    → NewBlock fs b m
    → s < ndirect
    → t < 269
    → slot (set_addr ino s b m) i t ≡ (if i == ino && t == s then b else slot fs i t)
unfolding slot
slots-direct o fs ino s b m i t owned new lt lt2 =
    rw (new.inodes) (elim (Bool-cases ((fs.inode i).addrs ndirect == 0)) [
      | inl none_ ↦ ground arith
      | inr some_ ↦
          let (other, keep) = table-old o fs b m i owned new (ground arith) in ground arith
    ])

pub slots-table :
    (o : Owner) (fs : Fs) (ino b : ℕ) (m : Fs) (i t : ℕ)
    → Owned o fs
    → NewBlock fs b m
    → (fs.inode ino).addrs ndirect ≡ 0
    → t < 269
    → slot (set_addr ino ndirect b m) i t ≡ (if i == ino && t == max_file then b else slot fs i t)
unfolding slot
slots-table o fs ino b m i t owned new empty lt2 =
    let zeros : m.word b (t - 12) ≡ 0 = rw (new.zero_words) refl in
    rw (new.inodes) (elim (Bool-cases ((fs.inode i).addrs ndirect == 0)) [
      | inl none_ ↦ ground arith
      | inr some_ ↦
          let (other, keep) = table-old o fs b m i owned new (ground arith) in ground arith
    ])

-- Two inodes do not share an indirect block.
apart :
    (o : Owner) (fs : Fs) (i j : ℕ)
    → Owned o fs
    → (fs.inode i).addrs ndirect ≢ 0
    → (fs.inode i).addrs ndirect ≡ (fs.inode j).addrs ndirect
    → i ≡ j
unfolding slot
apart o fs i j owned some_ same =
    let (_, _, x, _) = owned.owned i 268 (omega arith) some_ in
    let (_, _, y, _) = owned.owned j 268 (omega arith) (rw (sym same) some_) in sym x ∙ rw same y

pub slots-word :
    (o : Owner) (fs : Fs) (ino j b : ℕ) (m : Fs) (i t : ℕ)
    → Owned o fs
    → NewBlock fs b m
    → (fs.inode ino).addrs ndirect ≢ 0
    → j < nindirect
    → t < 269
    → slot (set_word ((fs.inode ino).addrs ndirect) j b m) i t
      ≡ (if i == ino && t == j + ndirect then b else slot fs i t)
unfolding slot
slots-word o fs ino j b m i t owned new some_ lt lt2 =
    rw (new.inodes) (elim (Bool-cases ((fs.inode i).addrs ndirect == 0)) [
      | inl none_ ↦ ground arith
      | inr there ↦
          let (other, keep) = table-old o fs b m i owned new (ground arith) in
          elim (Bool-cases ((fs.inode i).addrs ndirect == (fs.inode ino).addrs ndirect)) [
            | inl shared ↦
                let is_ino = apart o fs i ino owned (ground arith) (ground arith) in ground arith
            | inr two ↦ ground arith
          ]
    ])
