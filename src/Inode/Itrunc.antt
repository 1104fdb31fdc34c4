-- ===== src/Inode/Itrunc.antt =====
-- `itrunc` of kernel/fs.c on the blocks of an inode and of the others.
use mit_operating_system_eng.Base.{
  ℕ, ◌*◌, ◌/◌, ◌<◌, ◌≡◌, ◌≢◌, refl, sym, ◌∙◌, inl, inr, Bool, true, false, not, ◌&&◌, ◌==◌, ok,
  Bool-cases, arith,
}
use mit_operating_system_eng.Inode.{
  Fs, bsize, ndirect, max_file, trunc_direct, trunc_table, itrunc, set_size, iupdate,
}
use mit_operating_system_eng.Inode.Blocks.{used, slot, Owner, Owned, byte_at}
use mit_operating_system_eng.Inode.Trunc.{among, Swept}
use mit_operating_system_eng.Inode.TruncDirect.{Cleared, trunc_direct_lem}
use mit_operating_system_eng.Inode.TruncTable.{
  slots-differ, direct-Listed, table_blocks, TableGone, trunc_table_lem,
}
use mit_operating_system_eng.Inode.Gone.{BothGone, gone-slot, gone-others, gone-freed, gone-kept}

-- What `itrunc` leaves.
pub record Truncated (o : Owner) (fs : Fs) (ino : ℕ) (n : Fs) : Type 0 where
  pub owned : Owned o n
  pub gone : (t : ℕ) → t < 269 → slot n ino t ≡ 0
  pub others : (i t : ℕ) → i ≢ ino → t < 269 → slot n i t ≡ slot fs i t
  pub freed : (t : ℕ) → t < 269 → slot fs ino t ≢ 0 → used n (slot fs ino t) ≡ false
  pub kept : (c : ℕ) → ((t : ℕ) → t < 269 → slot fs ino t ≡ c → c ≡ 0) → used n c ≡ used fs c
  pub view : (i p : ℕ) → i ≢ ino → p < max_file * bsize → byte_at n i p ≡ byte_at fs i p
  pub size : (n.inode ino).size ≡ 0
  pub on_disk : n.dinode ino ≡ n.inode ino

and_assoc : (a b c : Bool) → ((a && b) && c) ≡ (a && (b && c))
and_assoc true b c = refl
and_assoc false b c = refl

emptied :
    (ino : ℕ) (m : Fs)
    → let n = iupdate ino (set_size ino 0 m) in
      ((n.inode ino).size ≡ 0) × (n.dinode ino ≡ n.inode ino)
unfolding iupdate set_size
emptied ino m = (ground arith, ground arith)

gone-Truncated :
    (o : Owner) (fs : Fs) (ino : ℕ) (n : Fs)
    → Owned o fs
    → BothGone fs ino n
    → (n.inode ino).size ≡ 0
    → n.dinode ino ≡ n.inode ino
    → Truncated o fs ino n
gone-Truncated o fs ino n owned g size on_disk = record {
  owned = record {
    boot = gone-kept fs ino n 0 g (λ t lt e. refl) ∙ owned.boot;
    owned = λ i t lt some_. elim (Bool-cases (i == ino)) [
      | inl is_ino ↦
          let same : i ≡ ino = ground arith in absurd (some_ (rw same (gone-slot fs ino n t g lt)))
      | inr other ↦
          let e = gone-others fs ino n i t g (ground arith) in
          let some_2 : slot fs i t ≢ 0 = rw e at some_ in
          let (mark, below, x, y) = owned.owned i t lt some_2 in
          let keep = gone-kept fs ino n (slot fs i t) g (λ s lt2 same.
            let (is_ino, _) = slots-differ o fs i ino t s owned lt lt2 some_2 (sym same) in
            absurd (ground arith)) in
          let disk = g.disk in rw e (keep ∙ mark, rw disk below, x, y)
    ];
  };
  gone = λ t lt. gone-slot fs ino n t g lt;
  others = λ i t h lt. gone-others fs ino n i t g h;
  freed = λ t lt h. gone-freed fs ino n t g lt h;
  kept = λ c h. gone-kept fs ino n c g h;
  view = λ i p h lt.
      let e = gone-others fs ino n i (p / bsize) g h in let b = g.bytes in rw (e, b) refl;
  size = size;
  on_disk = on_disk;
}

BothGone-join :
    (fs : Fs) (ino : ℕ) (n m : Fs)
    → Swept fs (λ i. (fs.inode ino).addrs i) 0 ndirect n
    → Cleared fs ino 0 ndirect n
    → TableGone fs ino n m
    → BothGone fs ino (iupdate ino (set_size ino 0 m))
unfolding iupdate set_size
BothGone-join fs ino n m s z g = record {
  marks = λ c.
      let x = s.marks c in
      let y = g.marks c in
      y
      ∙ rw x (
          and_assoc (used fs c) (not (among ndirect (λ i. (fs.inode ino).addrs i) 0 c))
            (not (table_blocks fs ((fs.inode ino).addrs ndirect) c)));
  words = g.words ∙ s.words;
  bytes = g.bytes ∙ s.bytes;
  disk = g.disk ∙ s.disk;
  addrs = λ t le. let x = z.addrs t in let y = g.addrs t in ground arith;
  others = λ i h. let x = z.others i h in let y = g.others i h in ground arith;
}

itrunc-eq :
    (ino : ℕ) (fs n m : Fs)
    → trunc_direct ndirect ino 0 fs ≡ ok n
    → trunc_table ino n ≡ ok m
    → itrunc ino fs ≡ ok (iupdate ino (set_size ino 0 m))
unfolding itrunc
itrunc-eq ino fs n m e d = rw (itrunc, e, d) refl

-- `itrunc` does not panic. After it the inode has no block and size 0, in memory and on the disk,
-- exactly the blocks that it had are free, data blocks and indirect block, and no slot, block or
-- byte of any other inode has changed.
pub itrunc_lem :
    (o : Owner) (fs : Fs) (ino : ℕ)
    → Owned o fs
    → (n : Fs) × (itrunc ino fs ≡ ok n) × Truncated o fs ino n
itrunc_lem o fs ino owned =
    let (n, e, s, z) =
      trunc_direct_lem ndirect ino 0 (λ i. (fs.inode ino).addrs i) fs (λ i x y. refl)
        (direct-Listed o fs ino owned) in
    let (m, d, g) = trunc_table_lem o fs ino n owned s z in
    (
      iupdate ino (set_size ino 0 m),
      itrunc-eq ino fs n m e d,
      gone-Truncated o fs ino (iupdate ino (set_size ino 0 m)) owned
          (BothGone-join fs ino n m s z g) (emptied ino m).0 (emptied ino m).1,
    )
