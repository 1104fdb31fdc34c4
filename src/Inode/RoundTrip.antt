-- ===== src/Inode/RoundTrip.antt =====
-- What `writei` of kernel/fs.c has written, `readi` reads.
use mit_operating_system_eng.Base.{
  ℕ, ◌+◌, ◌-◌, ◌*◌, ◌≤◌, ◌<◌, ◌≡◌, sym, ap, ◌∙◌, ◌⊎◌, inl, inr, Option, none, some, ok, arith,
}
use mit_operating_system_eng.Inode.{Fs, bsize, max_file, Source, Target, writei, readi}
use mit_operating_system_eng.Inode.Blocks.{Owner, Owned}
use mit_operating_system_eng.Inode.Writei.{Written, writei_lem}
use mit_operating_system_eng.Inode.Readi.{available, Delivered, readi_lem}

-- Where `writei` of `n` bytes within the largest file has written all of them, `readi` of `n` bytes
-- at the same offset copies out the bytes that were written, in order, and says `n`; or it says -1,
-- and then the target cannot be written at some bytes among those `n`.
pub readi-writei :
    (o : Owner) (fs : Fs) (ino off n : ℕ) (src : Source) (dst : Target) (fs1 : Fs)
    → Owned o fs
    → (fs.inode ino).size ≤ max_file * bsize
    → off + n ≤ max_file * bsize
    → writei ino off n src fs ≡ ok (some n, fs1)
    → (r : Option ℕ) × (dst' : Target) × (fs2 : Fs) × (readi ino off n dst fs1 ≡ ok (r, dst', fs2))
      × (((r ≡ some n) × ((i : ℕ) → i < n → dst'.bytes i ≡ src.bytes i))
          ⊎ ((r ≡ none) × (s : ℕ) × (m : ℕ) × (s + m ≤ n) × (0 < m) × (dst.writable s m < m)))
readi-writei o fs ino off n src dst fs1 owned small fits done =
    elim (writei_lem o fs ino off n src owned (omega arith) (omega arith)) [
      | inl (_, refused) ↦ absurd (cc (sym done ∙ refused))
      | inr (tot, fs', q, e, w) ↦
          let same = sym done ∙ e in
          let is_fs : fs' ≡ fs1 = cc in
          let is_n : tot ≡ n = cc in
          let w1 : Written fs ino off n src n q fs1 = rw (is_fs, is_n) at w in
          let size = w1.size in
          let (r, dst', fs2, p, f, d) =
            readi_lem q fs1 ino off n dst w1.owned (omega arith) (omega arith) (omega arith)
              (omega arith) in
          let all : available (fs1.inode ino).size off n ≡ n = omega arith in
          let d1 : Delivered fs1 ino off n dst r p dst' fs2 = rw all at d in
          (
            r,
            dst',
            fs2,
            f,
            elim d1.reason [
              | inl whole ↦ inl (
                whole,
                λ i lt.
                    let (le, bytes) = d1.bytes n whole in
                    let place : off + i - off ≡ i = omega arith in
                    bytes i lt
                    ∙ (w1.inside (off + i) (omega arith) (omega arith) ∙ ap src.bytes place),
              )
              | inr stop ↦ elim stop [
                | inl (t, is_t, lt, missing, full) ↦
                    absurd (w1.placed (off + t) (omega arith) (omega arith) missing)
                | inr refused ↦ inr refused
              ]
            ],
          )
    ]
