-- ===== src/Inode/Gone.antt =====
-- The blocks of an inode of kernel/fs.c after the loops of `itrunc`.
use mit_operating_system_eng.Base.{
  ℕ, ◌+◌, ◌-◌, ◌≤◌, ◌<◌, ◌≡◌, ◌≢◌, refl, ◌∙◌, inl, inr, true, false, not, ◌&&◌, ltb, ◌==◌,
  Bool-cases, arith,
}
use mit_operating_system_eng.Inode.{Fs, ndirect, nindirect, max_file}
use mit_operating_system_eng.Inode.Blocks.{used, slot}
use mit_operating_system_eng.Inode.Trunc.{among, among-hit, among-miss}
use mit_operating_system_eng.Inode.TruncTable.{
  slot-direct, slot-table, slot-word, empty-word, table_blocks,
}

-- The marks and the slots when both parts have gone.
pub record BothGone (fs : Fs) (ino : ℕ) (n : Fs) : Type 0 where
  pub marks :
      (c : ℕ)
      → used n c ≡ (
          used fs c
          && (not (among ndirect (λ i. (fs.inode ino).addrs i) 0 c)
              && not (table_blocks fs ((fs.inode ino).addrs ndirect) c)))
  pub words : n.word ≡ fs.word
  pub bytes : n.byte ≡ fs.byte
  pub disk : n.size ≡ fs.size
  pub addrs : (t : ℕ) → t ≤ ndirect → (n.inode ino).addrs t ≡ 0
  pub others : (i : ℕ) → i ≢ ino → (n.inode i).addrs ≡ (fs.inode i).addrs

pub gone-slot :
    (fs : Fs) (ino : ℕ) (n : Fs) (t : ℕ) → BothGone fs ino n → t < 269 → slot n ino t ≡ 0
unfolding slot
gone-slot fs ino n t g lt =
    let a = g.addrs ndirect (omega arith) in
    elim (Bool-cases (ltb t ndirect)) [
      | inl low ↦ let x = g.addrs t (ground arith) in rw low x
      | inr high ↦ rw (high, a) (ground arith)
    ]

pub gone-others :
    (fs : Fs) (ino : ℕ) (n : Fs) (i t : ℕ) → BothGone fs ino n → i ≢ ino → slot n i t ≡ slot fs i t
unfolding slot
gone-others fs ino n i t g other = let e = g.others i other in let w = g.words in rw (e, w) refl

pub gone-freed :
    (fs : Fs) (ino : ℕ) (n : Fs) (t : ℕ)
    → BothGone fs ino n
    → t < 269
    → slot fs ino t ≢ 0
    → used n (slot fs ino t) ≡ false
gone-freed fs ino n t g lt some_ =
    let m = g.marks (slot fs ino t) in
    let a = (fs.inode ino).addrs ndirect in
    let table = slot-table fs ino in
    elim (Bool-cases (ltb t ndirect)) [
      | inl low ↦
          let e = slot-direct fs ino t (ground arith) in
          let hit =
            among-hit ndirect (λ i. (fs.inode ino).addrs i) 0 t (omega arith) (ground arith)
              (rw e at some_) in
          let hit2 : among ndirect (λ i. (fs.inode ino).addrs i) 0 (slot fs ino t) ≡ true =
            rw e hit in
          m ∙ rw hit2 (ground arith)
      | inr high ↦ elim (Bool-cases (t == max_file)) [
        | inl is_table ↦
            let same : slot fs ino t ≡ a = let x : t ≡ max_file = ground arith in rw x table in
            let self : table_blocks fs a (slot fs ino t) ≡ true = ground arith in
            m ∙ rw self (ground arith)
        | inr word ↦ elim (Bool-cases (a == 0)) [
          | inl none_ ↦
              absurd (some_ (empty-word fs ino t (ground arith) (ground arith) (ground arith)))
          | inr there ↦
              let index : t - ndirect + ndirect ≡ t = ground arith in
              let e : slot fs ino t ≡ fs.word a (t - ndirect) =
                rw index at (slot-word fs ino (t - ndirect) (ground arith) (ground arith)) in
              let hit =
                among-hit nindirect (fs.word a) 0 (t - ndirect) (omega arith) (ground arith)
                  (rw e at some_) in
              let hit2 : among nindirect (fs.word a) 0 (slot fs ino t) ≡ true = rw e hit in
              let gone : table_blocks fs a (slot fs ino t) ≡ true = rw hit2 (ground arith) in
              m ∙ rw gone (ground arith)
        ]
      ]
    ]

pub gone-kept :
    (fs : Fs) (ino : ℕ) (n : Fs) (c : ℕ)
    → BothGone fs ino n
    → ((t : ℕ) → t < 269 → slot fs ino t ≡ c → c ≡ 0)
    → used n c ≡ used fs c
gone-kept fs ino n c g not_it =
    let m = g.marks c in
    let a = (fs.inode ino).addrs ndirect in
    let table = slot-table fs ino in
    let miss =
      among-miss ndirect (λ i. (fs.inode ino).addrs i) 0 c
        (λ i x y same.
          let e = slot-direct fs ino i (omega arith) in same ∙ not_it i (omega arith) (e ∙ same)) in
    let not_table : table_blocks fs a c ≡ false = elim (Bool-cases (a == 0)) [
      | inl none_ ↦ rw none_ refl
      | inr there ↦
          let some_a : a ≢ 0 = ground arith in
          let miss2 = among-miss nindirect (fs.word a) 0 c (λ i x y same.
            let e = slot-word fs ino i (omega arith) some_a in
            same ∙ not_it (i + ndirect) (omega arith) (e ∙ same)) in
          let other : (a == c) ≡ false = elim (Bool-cases (a == c)) [
            | inr d ↦ d
            | inl is_c ↦
                let same : a ≡ c = ground arith in
                absurd (some_a (same ∙ not_it max_file (omega arith) (table ∙ same)))
          ] in
          rw (there, miss2, other) refl
    ] in
    m ∙ rw (miss, not_table) (ground arith)
