-- ===== src/Inode/Enter.antt =====
-- An inode of kernel/fs.c gets a block in one of its slots.
use mit_operating_system_eng.Base.{
  ℕ, ◌*◌, ◌/◌, ◌%◌, ◌<◌, ◌≡◌, ◌≢◌, refl, ap, ◌∙◌, inl, inr, true, false, ◌&&◌, ◌==◌, if◌then◌else◌,
  Bool-cases, arith,
}
use mit_operating_system_eng.Inode.{Fs, Inode, bsize, max_file}
use mit_operating_system_eng.Inode.Blocks.{used, slot, Owner, Owned, byte_at}
use mit_operating_system_eng.Inode.Balloc.{NewBlock}

-- Slot `s` of the inode is block `b`, and no file's contents have changed.
pub record Entered (o : Owner) (fs : Fs) (ino s b : ℕ) (q : Owner) (n : Fs) : Type 0 where
  pub owned : Owned q n
  pub here : slot n ino s ≡ b
  pub some_block : b ≢ 0
  pub others : (i t : ℕ) → t < max_file → (i == ino && t == s) ≡ false → slot n i t ≡ slot fs i t
  pub view : (i off : ℕ) → off < max_file * bsize → byte_at n i off ≡ byte_at fs i off
  pub sizes : (i : ℕ) → (n.inode i).size ≡ (fs.inode i).size
  pub disk : n.size ≡ fs.size

-- No block is free, and no slot of a data block and no file's contents have changed.
pub record Unchanged (fs : Fs) (q : Owner) (n : Fs) : Type 0 where
  pub owned : Owned q n
  pub full : (c : ℕ) → c < n.size → used n c ≡ true
  pub slots : (i t : ℕ) → t < max_file → slot n i t ≡ slot fs i t
  pub view : (i off : ℕ) → off < max_file * bsize → byte_at n i off ≡ byte_at fs i off
  pub sizes : (i : ℕ) → (n.inode i).size ≡ (fs.inode i).size
  pub disk : n.size ≡ fs.size

pub Unchanged-refl :
    (o : Owner) (fs : Fs)
    → Owned o fs
    → ((c : ℕ) → c < fs.size → used fs c ≡ true)
    → Unchanged fs o fs
Unchanged-refl o fs owned full = record {
  owned = owned;
  full = full;
  slots = λ i t lt. refl;
  view = λ i off lt. refl;
  sizes = λ i. refl;
  disk = refl;
}

pub Entered-old :
    (o : Owner) (fs : Fs) (ino s b : ℕ)
    → Owned o fs
    → slot fs ino s ≡ b
    → b ≢ 0
    → Entered o fs ino s b o fs
Entered-old o fs ino s b owned here some_ = record {
  owned = owned;
  here = here;
  some_block = some_;
  others = λ i t lt out. refl;
  view = λ i off lt. refl;
  sizes = λ i. refl;
  disk = refl;
}

-- The slot was empty and has got a new block.
pub Entered-new :
    (o : Owner) (fs : Fs) (ino s b : ℕ) (m n : Fs)
    → Owned o fs
    → NewBlock fs b m
    → s < 269
    → slot fs ino s ≡ 0
    → n.bit ≡ m.bit
    → n.byte ≡ m.byte
    → n.size ≡ m.size
    → ((i : ℕ) → (n.inode i).size ≡ (m.inode i).size)
    → ((i t : ℕ) → t < 269 → slot n i t ≡ (if i == ino && t == s then b else slot fs i t))
    → Entered o fs ino s b
        (record {
          ino = λ c. if c == b then ino else o.ino c;
          at = λ c. if c == b then s else o.at c;
        })
        n
Entered-new o fs ino s b m n owned new lt empty bits bytes size sizes slots =
    let not_null : b ≢ 0 = λ z. let boot = owned.boot in let c = new.clear in cc in
    record {
      owned = record {
        boot = rw bits (new.marks 0 ∙ ground (arith, owned.boot));
        owned = λ i t lt2 some_.
            let e = slots i t lt2 in
            elim (Bool-cases (i == ino && t == s)) [
              | inl hit ↦
                  let is_b : slot n i t ≡ b = rw hit at e in
                  let mark : used n b ≡ true = rw bits (new.marks b ∙ ground arith) in
                  let below : b < n.size = rw (size, new.size) new.below in
                  rw is_b (mark, below, ground arith, ground arith)
              | inr out ↦
                  let same : slot n i t ≡ slot fs i t = rw out at e in
                  let (mark, below, x, y) = owned.owned i t lt2 (rw same at some_) in
                  let other : (slot fs i t == b) ≡ false = ground (arith, new.clear) in
                  let mark2 : used n (slot fs i t) ≡ true =
                    rw bits (new.marks (slot fs i t) ∙ rw other mark) in
                  let below2 : slot fs i t < n.size = rw (size, new.size) below in
                  rw (same, other) (mark2, below2, x, y)
            ];
      };
      here = slots ino s lt ∙ ground arith;
      some_block = not_null;
      others = λ i t lt2 out. slots i t (omega arith) ∙ rw out refl;
      view = λ i off lt2.
          let e = slots i (off / bsize) (omega arith) in
          elim (Bool-cases (i == ino && off / bsize == s)) [
            | inl hit ↦
                let is_b : slot n i (off / bsize) ≡ b = rw hit at e in
                let some_ : (b == 0) ≡ false = ground arith in
                let was : slot fs i (off / bsize) ≡ 0 =
                  let x : i ≡ ino = ground arith in
                  let y : off / bsize ≡ s = ground arith in rw (x, y) empty in
                let zero_byte : n.byte b (off % bsize) ≡ 0 = rw (bytes, new.zeros) refl in
                rw (is_b, some_, was) zero_byte
            | inr out ↦
                let same : slot n i (off / bsize) ≡ slot fs i (off / bsize) = rw out at e in
                elim (Bool-cases (slot fs i (off / bsize) == 0)) [
                  | inl none_ ↦ rw (same, none_) refl
                  | inr some_ ↦
                      let (mark, _, _, _) =
                        owned.owned i (off / bsize) (omega arith) (ground arith) in
                      let other : slot fs i (off / bsize) ≢ b = ground (arith, new.clear) in
                      let keep = new.bytes (slot fs i (off / bsize)) other in
                      rw (same, some_, bytes, keep) refl
                ]
          ];
      sizes = λ i. sizes i ∙ ap (λ (f : ℕ → Inode). (f i).size) new.inodes;
      disk = size ∙ new.size;
    }
