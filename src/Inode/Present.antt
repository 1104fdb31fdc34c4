-- ===== src/Inode/Present.antt =====
-- Slots that `bmap` of kernel/fs.c finds a block in.
use mit_operating_system_eng.Base.{
  ℕ, ◌<◌, ◌≡◌, ◌≢◌, sym, ◌∙◌, inl, inr, false, ◌&&◌, none, some, ◌==◌, ok, Bool-cases, arith,
}
use mit_operating_system_eng.Inode.{Fs, max_file, inode_block, indirect_block, through, bmap}
use mit_operating_system_eng.Inode.Blocks.{slot, Owner}
use mit_operating_system_eng.Inode.Enter.{Entered, Unchanged}

-- The inode has lost no data block.
abbrev pub Keeps : Fs → Fs → ℕ → Type 0
Keeps fs n ino = (t : ℕ) → t < max_file → slot n ino t ≡ 0 → slot fs ino t ≡ 0

pub Unchanged-Keeps : (fs : Fs) (q : Owner) (n : Fs) (ino : ℕ) → Unchanged fs q n → Keeps fs n ino
Unchanged-Keeps fs q n ino u t lt e = sym (u.slots ino t lt) ∙ e

pub Entered-Keeps :
    (o : Owner) (fs : Fs) (ino s b : ℕ) (q : Owner) (n : Fs)
    → Entered o fs ino s b q n
    → Keeps fs n ino
Entered-Keeps o fs ino s b q n x t lt e = elim (Bool-cases (t == s)) [
  | inl here ↦ let is_b = x.here in let some_b = x.some_block in absurd (ground (arith, e))
  | inr other ↦
      let out : (ino == ino && t == s) ≡ false = ground arith in sym (x.others ino t lt out) ∙ e
]

present :
    (fs : Fs) (ino bn : ℕ)
    → bn < max_file
    → slot fs ino bn ≢ 0
    → bmap ino bn fs ≡ ok (some (slot fs ino bn), fs)
unfolding bmap slot inode_block through indirect_block
present fs ino bn lt some_ = ground arith

-- Where `bmap` finds no block, there was none in the slot.
pub bmap-missing :
    (fs fs2 : Fs) (ino bn : ℕ)
    → bn < max_file
    → bmap ino bn fs ≡ ok (none, fs2)
    → slot fs ino bn ≡ 0
bmap-missing fs fs2 ino bn lt e = elim (Bool-cases (slot fs ino bn == 0)) [
  | inl none_ ↦ ground arith
  | inr some_ ↦ absurd (cc (sym (present fs ino bn lt (ground arith)) ∙ e))
]
