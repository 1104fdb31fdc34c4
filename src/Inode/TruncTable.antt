-- ===== src/Inode/TruncTable.antt =====
-- The part of `itrunc` of kernel/fs.c that frees the indirect block and its entries.
use mit_operating_system_eng.Base.{
  ℕ, ◌+◌, ◌-◌, ◌≤◌, ◌<◌, ◌≡◌, ◌≢◌, refl, sym, ◌∙◌, inl, inr, Bool, true, false, not, ◌&&◌, ◌||◌,
  ◌==◌, if◌then◌else◌, ok, Bool-cases, arith,
}
use mit_operating_system_eng.Inode.{
  Fs, ndirect, nindirect, max_file, set_addr, bfree, trunc_indirect, trunc_table,
}
use mit_operating_system_eng.Inode.Blocks.{used, slot, Owner, Owned}
use mit_operating_system_eng.Inode.Balloc.{bfree_lem}
use mit_operating_system_eng.Inode.Trunc.{among, among-miss, Listed, Swept, trunc_indirect_lem}
use mit_operating_system_eng.Inode.TruncDirect.{Cleared}

pub slots-differ :
    (o : Owner) (fs : Fs) (i j s t : ℕ)
    → Owned o fs
    → s < 269
    → t < 269
    → slot fs i s ≢ 0
    → slot fs i s ≡ slot fs j t
    → (i ≡ j) × (s ≡ t)
slots-differ o fs i j s t owned lt lt2 some_ same =
    let (_, _, a, b) = owned.owned i s lt some_ in
    let (_, _, c, d) = owned.owned j t lt2 (rw (sym same) some_) in
    (sym a ∙ rw same c, sym b ∙ rw same d)

pub slot-direct : (fs : Fs) (i t : ℕ) → t < ndirect → slot fs i t ≡ (fs.inode i).addrs t
unfolding slot
slot-direct fs i t lt = ground arith

pub slot-table : (fs : Fs) (i : ℕ) → slot fs i max_file ≡ (fs.inode i).addrs ndirect
unfolding slot
slot-table fs i = refl

pub empty-word :
    (fs : Fs) (i t : ℕ)
    → ndirect ≤ t
    → t < max_file
    → (fs.inode i).addrs ndirect ≡ 0
    → slot fs i t ≡ 0
unfolding slot
empty-word fs i t le lt none_ = ground arith

pub slot-word :
    (fs : Fs) (i j : ℕ)
    → j < nindirect
    → (fs.inode i).addrs ndirect ≢ 0
    → slot fs i (j + ndirect) ≡ fs.word ((fs.inode i).addrs ndirect) j
unfolding slot
slot-word fs i j lt some_ = let index : j + ndirect - ndirect ≡ j = omega arith in ground arith

-- Before and after the direct blocks are freed, the values are marked and different.
pub direct-Listed :
    (o : Owner) (fs : Fs) (ino : ℕ) → Owned o fs → Listed fs (λ i. (fs.inode ino).addrs i) 0 ndirect
direct-Listed o fs ino owned = record {
  marked = λ i x y h.
      let e = slot-direct fs ino i (omega arith) in
      let (mark, _, _, _) = owned.owned ino i (omega arith) (rw e h) in rw e at mark;
  apart = λ i t x y z w h same.
      let e = slot-direct fs ino i (omega arith) in
      let e2 = slot-direct fs ino t (omega arith) in
      let (_, at) =
        slots-differ o fs ino ino i t owned (omega arith) (omega arith) (rw e h)
          (e ∙ (same ∙ sym e2)) in
      at;
}

table-Listed :
    (o : Owner) (fs : Fs) (ino : ℕ) (n : Fs)
    → Owned o fs
    → (fs.inode ino).addrs ndirect ≢ 0
    → Swept fs (λ i. (fs.inode ino).addrs i) 0 ndirect n
    → Listed n (fs.word ((fs.inode ino).addrs ndirect)) 0 nindirect
table-Listed o fs ino n owned some_ s = record {
  marked = λ i x y h.
      let e = slot-word fs ino i (omega arith) some_ in
      let (mark, _, _, _) = owned.owned ino (i + ndirect) (omega arith) (rw e h) in
      let was : used fs (fs.word ((fs.inode ino).addrs ndirect) i) ≡ true = rw e at mark in
      let miss =
        among-miss ndirect (λ i. (fs.inode ino).addrs i) 0
          (fs.word ((fs.inode ino).addrs ndirect) i)
          (λ j z w same.
            let d = slot-direct fs ino j (omega arith) in
            let (_, at) =
              slots-differ o fs ino ino (i + ndirect) j owned (omega arith) (omega arith) (rw e h)
                (e ∙ (sym same ∙ sym d)) in
            absurd (omega arith)) in
      s.marks (fs.word ((fs.inode ino).addrs ndirect) i) ∙ rw (was, miss) refl;
  apart = λ i t x y z w h same.
      let e = slot-word fs ino i (omega arith) some_ in
      let e2 = slot-word fs ino t (omega arith) some_ in
      let (_, at) =
        slots-differ o fs ino ino (i + ndirect) (t + ndirect) owned (omega arith) (omega arith)
          (rw e h) (e ∙ (same ∙ sym e2)) in
      omega arith;
}

-- The indirect block is marked still when its entries have been freed.
table-marked :
    (o : Owner) (fs : Fs) (ino : ℕ) (n m : Fs)
    → Owned o fs
    → (fs.inode ino).addrs ndirect ≢ 0
    → Swept fs (λ i. (fs.inode ino).addrs i) 0 ndirect n
    → ((c : ℕ)
        → used m c
          ≡ (used n c && not (among nindirect (fs.word ((fs.inode ino).addrs ndirect)) 0 c)))
    → used m ((fs.inode ino).addrs ndirect) ≡ true
table-marked o fs ino n m owned some_ s marks =
    let a = (fs.inode ino).addrs ndirect in
    let e = slot-table fs ino in
    let (mark, _, _, _) = owned.owned ino max_file (omega arith) (rw e some_) in
    let was : used fs a ≡ true = rw e at mark in
    let miss =
      among-miss ndirect (λ i. (fs.inode ino).addrs i) 0 a
        (λ j z w same.
          let d = slot-direct fs ino j (omega arith) in
          let (_, at) =
            slots-differ o fs ino ino max_file j owned (omega arith) (omega arith) (rw e some_)
              (e ∙ (sym same ∙ sym d)) in
          absurd (omega arith)) in
    let miss2 = among-miss nindirect (fs.word a) 0 a (λ j z w same.
      let d = slot-word fs ino j (omega arith) some_ in
      let (_, at) =
        slots-differ o fs ino ino max_file (j + ndirect) owned (omega arith) (omega arith)
          (rw e some_) (e ∙ (sym same ∙ sym d)) in
      absurd (omega arith)) in
    marks a ∙ rw (miss2, s.marks a, was, miss) refl

-- The blocks that are freed with the indirect block `a`.
abbrev pub table_blocks : Fs → ℕ → ℕ → Bool
table_blocks fs a c = not (a == 0) && (among nindirect (fs.word a) 0 c || (a == c))

Swept-words :
    (fs n m : Fs) (a : ℕ)
    → n.word a ≡ fs.word a
    → Swept n (n.word a) 0 nindirect m
    → (c : ℕ) → used m c ≡ (used n c && not (among nindirect (fs.word a) 0 c))
Swept-words fs n m a e s c = let x = s.marks c in rw e at x

pub record TableGone (fs : Fs) (ino : ℕ) (n o : Fs) : Type 0 where
  pub marks :
      (c : ℕ) → used o c ≡ (used n c && not (table_blocks fs ((fs.inode ino).addrs ndirect) c))
  pub words : o.word ≡ n.word
  pub bytes : o.byte ≡ n.byte
  pub disk : o.size ≡ n.size
  pub addrs : (t : ℕ) → (o.inode ino).addrs t ≡ (if t == ndirect then 0 else (n.inode ino).addrs t)
  pub others : (i : ℕ) → i ≢ ino → o.inode i ≡ n.inode i

trunc_table-eq :
    (ino a : ℕ) (n m p : Fs)
    → (n.inode ino).addrs ndirect ≡ a
    → (a == 0) ≡ false
    → trunc_indirect nindirect a 0 n ≡ ok m
    → bfree a m ≡ ok p
    → trunc_table ino n ≡ ok (set_addr ino ndirect 0 p)
unfolding trunc_table
trunc_table-eq ino a n m p same some_ e f = rw (same, some_, e, same, f) refl

pub trunc_table_lem :
    (o : Owner) (fs : Fs) (ino : ℕ) (n : Fs)
    → Owned o fs
    → Swept fs (λ i. (fs.inode ino).addrs i) 0 ndirect n
    → Cleared fs ino 0 ndirect n
    → (m : Fs) × (trunc_table ino n ≡ ok m) × TableGone fs ino n m
unfolding trunc_table
trunc_table_lem o fs ino n owned s z =
    let a = (fs.inode ino).addrs ndirect in
    let same : (n.inode ino).addrs ndirect ≡ a = z.addrs ndirect in
    elim (Bool-cases (a == 0)) [
      | inl none_ ↦ (
        n,
        rw (same, none_) refl,
        record {
          marks = λ c. rw none_ (ground arith);
          words = refl;
          bytes = refl;
          disk = refl;
          addrs = λ t. ground arith;
          others = λ i h. refl;
        },
      )
      | inr some_ ↦
          let words : n.word a ≡ fs.word a = let w = s.words in rw w refl in
          let listed = table-Listed o fs ino n owned (ground arith) s in
          let (m, e, sw, inodes) = trunc_indirect_lem nindirect a 0 n (rw words listed) in
          let marks1 = Swept-words fs n m a words sw in
          let mark_a = table-marked o fs ino n m owned (ground arith) s marks1 in
          let (p, f, marks, bytes, words2, inodes2, disk) = bfree_lem a m mark_a in
          (
            set_addr ino ndirect 0 p,
            trunc_table-eq ino a n m p same some_ e f,
            record {
              marks = λ c. let x = marks1 c in marks c ∙ ground arith;
              words = words2 ∙ sw.words;
              bytes = bytes ∙ sw.bytes;
              disk = disk ∙ sw.disk;
              addrs = λ t. let i = inodes2 ∙ inodes in rw i (ground arith);
              others = λ i h. let j = inodes2 ∙ inodes in rw j (ground arith);
            },
          )
    ]
