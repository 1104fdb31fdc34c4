-- ===== src/Inode/Readi.antt =====
-- `readi` of kernel/fs.c on the contents of files.
use mit_operating_system_eng.Base.{
  ℕ, ◌+◌, ◌-◌, ◌*◌, ◌/◌, ◌%◌, ◌^◌, min, ◌≤◌, ◌<◌, ◌≡◌, refl, ◌∙◌, ◌⊎◌, inl, inr, true, false, ◌||◌,
  Option, none, some, ltb, if◌then◌else◌, ok, Bool-cases, arith,
}
use mit_operating_system_eng.Inode.{Fs, bsize, max_file, Target, read_from, readi}
use mit_operating_system_eng.Inode.Blocks.{used, slot, Owner, Owned, byte_at}
use mit_operating_system_eng.Inode.ReadPieces.{Read, Read-none}
use mit_operating_system_eng.Inode.ReadLoop.{read_from_lem}

-- How many bytes of the file there are to read.
abbrev pub available : ℕ → ℕ → ℕ → ℕ
available size off n = min n (size - off)

-- What `readi` leaves that answers `r`, where `n` bytes are available.
pub record Delivered (fs : Fs) (ino off n : ℕ) (dst : Target) (r : Option ℕ) (q : Owner)
    (dst' : Target) (fs' : Fs) : Type 0 where
  pub owned : Owned q fs'
  pub view : (i p : ℕ) → p < max_file * bsize → byte_at fs' i p ≡ byte_at fs i p
  pub sizes : (i : ℕ) → (fs'.inode i).size ≡ (fs.inode i).size
  pub bytes :
      (tot : ℕ)
      → r ≡ some tot
      → (tot ≤ n) × ((i : ℕ) → i < tot → dst'.bytes i ≡ byte_at fs ino (off + i))
  pub rest : (i : ℕ) → n ≤ i → dst'.bytes i ≡ dst.bytes i
  pub reason :
      (r ≡ some n)
      ⊎ (((t : ℕ) × (r ≡ some t)
            × (t < n)
            × (slot fs ino ((off + t) / bsize) ≡ 0)
            × ((c : ℕ) → c < fs'.size → used fs' c ≡ true))
          ⊎ ((r ≡ none) × (s : ℕ) × (m : ℕ) × (s + m ≤ n) × (0 < m) × (dst.writable s m < m)))

Read-Delivered :
    (fs : Fs) (ino off n : ℕ) (dst : Target) (r : Option ℕ) (q : Owner) (dst' : Target) (fs' : Fs)
    → Read fs ino 0 off n dst r q dst' fs'
    → Delivered fs ino off n dst r q dst' fs'
Read-Delivered fs ino off n dst r q dst' fs' w = record {
  owned = w.owned;
  view = w.view;
  sizes = w.sizes;
  bytes = λ tot e.
      let (_, to, all) = w.bytes tot e in
      (to, λ i lt. let start : i - 0 ≡ i = omega arith in rw start at (all i (omega arith) lt));
  rest = w.after;
  reason = elim w.reason [
    | inl done ↦ inl done
    | inr stop ↦ elim stop [
      | inl (t, e, lt, missing, full) ↦
          let start : t - 0 ≡ t = omega arith in inr (inl (t, e, lt, rw start at missing, full))
      | inr short ↦ inr (inr short)
    ]
  ];
}

readi-in :
    (ino off n m : ℕ) (dst : Target) (fs : Fs)
    → (ltb (fs.inode ino).size off || ltb ((off + n) % 2 ^ 32) off) ≡ false
    → (if ltb (fs.inode ino).size ((off + n) % 2 ^ 32) then (fs.inode ino).size - off else n) ≡ m
    → readi ino off n dst fs ≡ read_from m ino 0 off m dst fs
unfolding readi
readi-in ino off n m dst fs first count = rw (first, count) refl

-- `readi` of a file that is no larger than the largest file, where the sum of offset and length does
-- not wrap, changes the contents and the size of no file. It answers how many bytes it has copied out, and these are the bytes of the file from the
-- offset on, in order; past the bytes that are there it writes nothing. It answers fewer than there
-- are only where the block of the next byte is missing and none is free, and -1 only where the target
-- cannot be written at some of the bytes.
pub readi_lem :
    (o : Owner) (fs : Fs) (ino off n : ℕ) (dst : Target)
    → Owned o fs
    → (fs.inode ino).size ≤ max_file * bsize
    → off < 2 ^ 32
    → n < 2 ^ 32
    → off + n < 2 ^ 32
    → (r : Option ℕ) × (dst' : Target) × (fs' : Fs) × (q : Owner) × (readi ino off n dst fs
        ≡ ok (r, dst', fs'))
      × Delivered fs ino off (available (fs.inode ino).size off n) dst r q dst' fs'
unfolding readi
readi_lem o fs ino off n dst owned small lt lt_n lt_sum =
    let m = available (fs.inode ino).size off n in
    elim (Bool-cases (ltb (fs.inode ino).size off || ltb ((off + n) % 2 ^ 32) off)) [
      | inl past ↦
          let nothing : 0 ≡ m = ground arith in
          (
            some 0,
            dst,
            fs,
            o,
            rw past refl,
            Read-Delivered fs ino off m dst (some 0) o dst fs (
                Read-none o fs fs ino 0 off m dst owned (omega arith) (λ i p lt2. refl) (λ i. refl)
                  (inl nothing)),
          )
      | inr first ↦
          let count : (if ltb (fs.inode ino).size ((off + n) % 2 ^ 32)
                then (fs.inode ino).size - off
                else n)
              ≡ m =
            ground arith in
          let (r, dst', fs', q, e, w) =
            read_from_lem m o fs ino 0 off m dst owned (omega arith) (omega arith) (ground arith) in
          (
            r,
            dst',
            fs',
            q,
            readi-in ino off n m dst fs first count ∙ e,
            Read-Delivered fs ino off m dst r q dst' fs' w,
          )
    ]
