-- ===== src/Inode/ReadLoop.antt =====
-- The loop of `readi` of kernel/fs.c.
use mit_operating_system_eng.Base.{
  ℕ, zero, suc, ◌+◌, ◌-◌, ◌*◌, ◌/◌, ◌%◌, ◌^◌, ◌≤◌, ◌<◌, ◌≡◌, refl, ◌∙◌, inl, inr, true, false, not,
  Option, none, some, ltb, ok, Bool-cases, arith,
}
use mit_operating_system_eng.Inode.{Fs, bsize, max_file, bmap, Target, deliver, read_from}
use mit_operating_system_eng.Inode.Blocks.{Owner, Owned}
use mit_operating_system_eng.Inode.Bmap.{bmap_lem}
use mit_operating_system_eng.Inode.Present.{Entered-Keeps, bmap-missing}
use mit_operating_system_eng.Inode.Pieces.{piece}
use mit_operating_system_eng.Inode.ReadPieces.{delivered, Read, Read-none, Read-short, Read-next}

next-eq :
    (k ino tot off n b : ℕ) (dst : Target) (fs fs2 : Fs)
    → tot < n
    → bmap ino (off / bsize) fs ≡ ok (some b, fs2)
    → ltb (delivered dst n tot off) (piece n tot off) ≡ false
    → off + piece n tot off < 2 ^ 32
    → read_from (suc k) ino tot off n dst fs
      ≡ read_from k ino
          (tot + piece n tot off)
          (off + piece n tot off)
          n
          (deliver (fs2.byte b) (off % bsize) tot (delivered dst n tot off) dst)
          fs2
unfolding read_from
next-eq k ino tot off n b dst fs fs2 lt e whole small =
    let more : not (ltb tot n) ≡ false = ground arith in
    let up : (off + piece n tot off) % 2 ^ 32 ≡ off + piece n tot off = omega arith in
    rw (read_from, more, e, whole, up) refl

short-eq :
    (k ino tot off n b : ℕ) (dst : Target) (fs fs2 : Fs)
    → tot < n
    → bmap ino (off / bsize) fs ≡ ok (some b, fs2)
    → ltb (delivered dst n tot off) (piece n tot off) ≡ true
    → read_from (suc k) ino tot off n dst fs
      ≡ ok (none, deliver (fs2.byte b) (off % bsize) tot (delivered dst n tot off) dst, fs2)
unfolding read_from
short-eq k ino tot off n b dst fs fs2 lt e short =
    let more : not (ltb tot n) ≡ false = ground arith in rw (read_from, more, e, short) refl

full-eq :
    (k ino tot off n : ℕ) (dst : Target) (fs fs2 : Fs)
    → tot < n
    → bmap ino (off / bsize) fs ≡ ok (none, fs2)
    → read_from (suc k) ino tot off n dst fs ≡ ok (some tot, dst, fs2)
unfolding read_from
full-eq k ino tot off n dst fs fs2 lt e =
    let more : not (ltb tot n) ≡ false = ground arith in rw (read_from, more, e) refl

done-eq :
    (k ino tot off n : ℕ) (dst : Target) (fs : Fs)
    → n ≤ tot
    → read_from k ino tot off n dst fs ≡ ok (some tot, dst, fs)
unfolding read_from
done-eq zero ino tot off n dst fs le = refl
done-eq (suc k) ino tot off n dst fs le =
    let stop : not (ltb tot n) ≡ true = ground arith in rw stop refl

pub read_from_lem :
    (k : ℕ) (o : Owner) (fs : Fs) (ino tot off n : ℕ) (dst : Target)
    → Owned o fs
    → tot ≤ n
    → n ≤ tot + k
    → off + (n - tot) ≤ max_file * bsize
    → (r : Option ℕ) × (dst' : Target) × (fs' : Fs) × (q : Owner) × (read_from k ino tot off n dst
          fs
        ≡ ok (r, dst', fs'))
      × Read fs ino tot off n dst r q dst' fs'
read_from_lem zero o fs ino tot off n dst owned le enough fits = (
  some tot,
  dst,
  fs,
  o,
  done-eq 0 ino tot off n dst fs (omega arith),
  Read-none o fs fs ino tot off n dst owned le (λ i p lt. refl) (λ i. refl) (inl (omega arith)),
)
read_from_lem (suc k) o fs ino tot off n dst owned le enough fits = elim (Bool-cases (ltb tot n)) [
  | inr stop ↦ (
    some tot,
    dst,
    fs,
    o,
    done-eq (suc k) ino tot off n dst fs (ground arith),
    Read-none o fs fs ino tot off n dst owned le (λ i p lt. refl) (λ i. refl) (inl (ground arith)),
  )
  | inl more ↦
      let lt : tot < n = ground arith in
      let (r, e, looked) = bmap_lem o fs ino (off / bsize) owned (omega arith) in
      elim looked [
        | inl (fs2, q, none_, same) ↦ (
          some tot,
          dst,
          fs2,
          q,
          full-eq k ino tot off n dst fs fs2 lt (rw none_ at e),
          Read-none q fs fs2 ino tot off n dst same.owned le same.view same.sizes (
              inr (
                lt,
                bmap-missing fs fs2 ino (off / bsize) (omega arith) (rw none_ at e),
                same.full,
              )),
        )
        | inr (b, fs2, q, some_, x) ↦
            let e2 : bmap ino (off / bsize) fs ≡ ok (some b, fs2) = rw some_ at e in
            let dst2 = deliver (fs2.byte b) (off % bsize) tot (delivered dst n tot off) dst in
            elim (Bool-cases (ltb (delivered dst n tot off) (piece n tot off))) [
              | inl short ↦ (
                none,
                dst2,
                fs2,
                q,
                short-eq k ino tot off n b dst fs fs2 lt e2 short,
                Read-short q fs fs2 ino tot off n b dst x.owned x.here x.some_block x.view x.sizes
                    lt fits short,
              )
              | inr whole ↦
                  let (r2, dst', fs', p, f, w) =
                    read_from_lem k q fs2 ino (tot + piece n tot off) (off + piece n tot off) n dst2
                      x.owned (omega arith) (omega arith) (omega arith) in
                  (
                    r2,
                    dst',
                    fs',
                    p,
                    next-eq k ino tot off n b dst fs fs2 lt e2 whole (omega arith) ∙ f,
                    Read-next q fs fs2 ino tot off n b dst x.owned x.here x.some_block x.view
                        x.sizes lt fits r2 p dst' fs'
                        (Entered-Keeps o fs ino (off / bsize) b q fs2 x) whole w,
                  )
            ]
      ]
]
