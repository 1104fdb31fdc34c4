-- ===== src/Inode/Bmap.antt =====
-- `bmap` of kernel/fs.c on the contents of files.
use mit_operating_system_eng.Base.{
  ℕ, ◌+◌, ◌-◌, ◌<◌, ◌≡◌, ◌≢◌, refl, ◌∙◌, ◌⊎◌, inl, inr, true, Option, none, some, ltb, ◌==◌, ok,
  Bool-cases, arith,
}
use mit_operating_system_eng.Inode.{
  Fs, ndirect, nindirect, max_file, set_addr, set_word, inode_block, indirect_block, through, bmap,
}
use mit_operating_system_eng.Inode.Blocks.{slot, Owner, Owned}
use mit_operating_system_eng.Inode.Balloc.{balloc_lem}
use mit_operating_system_eng.Inode.Slots.{slots-direct, slots-table, slots-word}
use mit_operating_system_eng.Inode.Enter.{
  Entered, Unchanged, Unchanged-refl, Entered-old, Entered-new,
}

-- What a step that looks a block up leaves: the block is in the slot, or none is free.
abbrev pub Looked : Owner → Fs → ℕ → ℕ → Option ℕ × Fs → Type 0
Looked o fs ino s r =
    ((n : Fs) × (q : Owner) × (r ≡ (none, n)) × Unchanged fs q n)
    ⊎ ((b : ℕ) × (n : Fs) × (q : Owner) × (r ≡ (some b, n)) × Entered o fs ino s b q n)

direct-Looked :
    (o : Owner) (fs : Fs) (ino s : ℕ)
    → Owned o fs
    → s < ndirect
    → Looked o fs ino s (inode_block ino s fs)
unfolding inode_block slot
direct-Looked o fs ino s owned lt =
    let test : ltb s ndirect ≡ true = ground arith in
    let at : slot fs ino s ≡ (fs.inode ino).addrs s = rw test refl in
    elim (Bool-cases ((fs.inode ino).addrs s == 0)) [
      | inr some_ ↦ inr (
        (fs.inode ino).addrs s,
        fs,
        o,
        rw (inode_block, some_) refl,
        Entered-old o fs ino s ((fs.inode ino).addrs s) owned at (ground arith),
      )
      | inl none_ ↦ elim (balloc_lem fs) [
        | inl (full, all) ↦
            inl (fs, o, rw (inode_block, none_, full) refl, Unchanged-refl o fs owned all)
        | inr (b, m, e, new) ↦ inr (
          b,
          set_addr ino s b m,
          _,
          rw (inode_block, none_, e) refl,
          Entered-new o fs ino s b m (set_addr ino s b m) owned new (omega arith)
              (at ∙ ground arith) refl refl refl (λ i. ground arith)
              (λ i t lt2. slots-direct o fs ino s b m i t owned new lt lt2),
        )
      ]
    ]

table-Looked :
    (o : Owner) (fs : Fs) (ino : ℕ)
    → Owned o fs
    → Looked o fs ino max_file (inode_block ino ndirect fs)
unfolding inode_block slot
table-Looked o fs ino owned =
    let at : slot fs ino max_file ≡ (fs.inode ino).addrs ndirect = refl in
    elim (Bool-cases ((fs.inode ino).addrs ndirect == 0)) [
      | inr some_ ↦ inr (
        (fs.inode ino).addrs ndirect,
        fs,
        o,
        rw (inode_block, some_) refl,
        Entered-old o fs ino max_file ((fs.inode ino).addrs ndirect) owned at (ground arith),
      )
      | inl none_ ↦
          let empty : (fs.inode ino).addrs ndirect ≡ 0 = ground arith in
          elim (balloc_lem fs) [
            | inl (full, all) ↦
                inl (fs, o, rw (inode_block, none_, full) refl, Unchanged-refl o fs owned all)
            | inr (b, m, e, new) ↦ inr (
              b,
              set_addr ino ndirect b m,
              _,
              rw (inode_block, none_, e) refl,
              Entered-new o fs ino max_file b m (set_addr ino ndirect b m) owned new (omega arith)
                  (at ∙ empty) refl refl refl (λ i. ground arith)
                  (λ i t lt2. slots-table o fs ino b m i t owned new empty lt2),
            )
          ]
    ]

entry-Looked :
    (o : Owner) (fs : Fs) (ino a j : ℕ)
    → Owned o fs
    → slot fs ino max_file ≡ a
    → a ≢ 0
    → j < nindirect
    → Looked o fs ino (j + ndirect) (indirect_block a j fs)
unfolding indirect_block slot
entry-Looked o fs ino a j owned is_a some_a lt =
    let table : (fs.inode ino).addrs ndirect ≡ a = is_a in
    let index : j + ndirect - ndirect ≡ j = omega arith in
    let at : slot fs ino (j + ndirect) ≡ fs.word a j = ground arith in
    elim (Bool-cases (fs.word a j == 0)) [
      | inr some_ ↦ inr (
        fs.word a j,
        fs,
        o,
        rw (indirect_block, some_) refl,
        Entered-old o fs ino (j + ndirect) (fs.word a j) owned at (ground arith),
      )
      | inl none_ ↦ elim (balloc_lem fs) [
        | inl (full, all) ↦
            inl (fs, o, rw (indirect_block, none_, full) refl, Unchanged-refl o fs owned all)
        | inr (b, m, e, new) ↦ inr (
          b,
          set_word a j b m,
          _,
          rw (indirect_block, none_, e) refl,
          Entered-new o fs ino (j + ndirect) b m (set_word a j b m) owned new (omega arith)
              (at ∙ ground arith) refl refl refl (λ i. refl)
              (λ i t lt2.
                rw table at (slots-word o fs ino j b m i t owned new (rw table some_a) lt lt2)),
        )
      ]
    ]

through-Looked :
    (o : Owner) (fs : Fs) (ino j : ℕ) (r : Option ℕ × Fs)
    → j < nindirect
    → Looked o fs ino max_file r
    → Looked o fs ino (j + ndirect) (through j r)
unfolding through
through-Looked o fs ino j r lt looked = elim looked [
  | inl (n, q, e, same) ↦ rw e (inl (n, q, refl, same))
  | inr (a, n, q, e, x) ↦ elim (entry-Looked q n ino a j x.owned x.here x.some_block lt) [
    | inl (n2, q2, e2, y) ↦ rw e (
        inl (
          n2,
          q2,
          e2,
          record {
            owned = y.owned;
            full = y.full;
            slots = λ i t lt2. y.slots i t lt2 ∙ x.others i t lt2 (ground arith);
            view = λ i off lt2. y.view i off lt2 ∙ x.view i off lt2;
            sizes = λ i. y.sizes i ∙ x.sizes i;
            disk = y.disk ∙ x.disk;
          },
        ))
    | inr (b, n2, q2, e2, y) ↦ rw e (
        inr (
          b,
          n2,
          q2,
          e2,
          record {
            owned = y.owned;
            here = y.here;
            some_block = y.some_block;
            others = λ i t lt2 out. y.others i t lt2 out ∙ x.others i t lt2 (ground arith);
            view = λ i off lt2. y.view i off lt2 ∙ x.view i off lt2;
            sizes = λ i. y.sizes i ∙ x.sizes i;
            disk = y.disk ∙ x.disk;
          },
        ))
  ]
]

pub bmap_lem :
    (o : Owner) (fs : Fs) (ino bn : ℕ)
    → Owned o fs
    → bn < max_file
    → (r : Option ℕ × Fs) × (bmap ino bn fs ≡ ok r) × Looked o fs ino bn r
unfolding bmap
bmap_lem o fs ino bn owned lt = elim (Bool-cases (ltb bn ndirect)) [
  | inl low ↦ (inode_block ino bn fs, rw low refl, direct-Looked o fs ino bn owned (ground arith))
  | inr high ↦
      let test : ltb (bn - ndirect) nindirect ≡ true = ground arith in
      let index : bn - ndirect + ndirect ≡ bn = ground arith in
      let looked =
        through-Looked o fs ino (bn - ndirect) (inode_block ino ndirect fs) (ground arith)
          (table-Looked o fs ino owned) in
      (
        through (bn - ndirect) (inode_block ino ndirect fs),
        rw (high, test) refl,
        rw index at looked,
      )
]
