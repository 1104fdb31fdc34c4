-- ===== src/Inode/WriteLoop.antt =====
-- The loop of `writei` of kernel/fs.c.
use mit_operating_system_eng.Base.{
  ℕ, zero, suc, ◌+◌, ◌-◌, ◌*◌, ◌/◌, ◌%◌, ◌≤◌, ◌<◌, ◌≡◌, refl, ◌∙◌, inl, inr, some, ltb, ok,
  Bool-cases, arith,
}
use mit_operating_system_eng.Inode.{Fs, bsize, max_file, bmap, Source, copy_bytes, write_from}
use mit_operating_system_eng.Inode.Blocks.{Owner, Owned}
use mit_operating_system_eng.Inode.Bmap.{bmap_lem}
use mit_operating_system_eng.Inode.Present.{Unchanged-Keeps, Entered-Keeps}
use mit_operating_system_eng.Inode.Copy.{copy-Owned}
use mit_operating_system_eng.Inode.Pieces.{
  piece, copied, Wrote, next-eq, short-eq, full-eq, done-eq, Wrote-none, Wrote-short, Wrote-next,
}

pub write_from_lem :
    (k : ℕ) (o : Owner) (fs : Fs) (ino tot off n : ℕ) (src : Source)
    → Owned o fs
    → tot ≤ n
    → n ≤ tot + k
    → off + (n - tot) ≤ max_file * bsize
    → (tot' : ℕ) × (off' : ℕ) × (fs' : Fs) × (q : Owner) × (write_from k ino tot off n src fs
        ≡ ok (tot', off', fs'))
      × Wrote fs ino tot off n src tot' off' q fs'
write_from_lem zero o fs ino tot off n src owned le enough fits = (
  tot,
  off,
  fs,
  o,
  done-eq 0 ino tot off n src fs (omega arith),
  Wrote-none o fs fs ino tot off n src owned le (λ i p lt. refl) (λ i. refl) refl (λ t h e. e)
      (inl (omega arith)),
)
write_from_lem (suc k) o fs ino tot off n src owned le enough fits = elim (Bool-cases (ltb tot n)) [
  | inr stop ↦ (
    tot,
    off,
    fs,
    o,
    done-eq (suc k) ino tot off n src fs (ground arith),
    Wrote-none o fs fs ino tot off n src owned le (λ i p lt. refl) (λ i. refl) refl (λ t h e. e)
        (inl (ground arith)),
  )
  | inl more ↦
      let lt : tot < n = ground arith in
      let (r, e, looked) = bmap_lem o fs ino (off / bsize) owned (omega arith) in
      elim looked [
        | inl (fs2, q, none_, same) ↦ (
          tot,
          off,
          fs2,
          q,
          full-eq k ino tot off n src fs fs2 lt (rw none_ at e),
          Wrote-none q fs fs2 ino tot off n src same.owned le same.view same.sizes same.disk
              (Unchanged-Keeps fs q fs2 ino same) (inr (inl same.full)),
        )
        | inr (b, fs2, q, some_, x) ↦
            let m = piece n tot off in
            let e2 : bmap ino (off / bsize) fs ≡ ok (some b, fs2) = rw some_ at e in
            elim (Bool-cases (ltb (copied src n tot off) (piece n tot off))) [
              | inl short ↦ (
                tot,
                off,
                copy_bytes b (off % bsize) tot (copied src n tot off) src fs2,
                q,
                short-eq k ino tot off n b src fs fs2 lt e2 short,
                Wrote-short q fs fs2 ino tot off n b src x.owned x.here x.some_block x.view x.sizes
                    x.disk (Entered-Keeps o fs ino (off / bsize) b q fs2 x) lt fits short,
              )
              | inr whole ↦
                  let fs3 = copy_bytes b (off % bsize) tot (copied src n tot off) src fs2 in
                  let (tot', off', fs', p, f, w) =
                    write_from_lem k q fs3 ino (tot + piece n tot off) (off + piece n tot off) n src
                      (copy-Owned q fs2 b (off % bsize) tot (copied src n tot off) src x.owned)
                      (omega arith) (omega arith) (omega arith) in
                  (
                    tot',
                    off',
                    fs',
                    p,
                    next-eq k ino tot off n b src fs fs2 lt e2 whole (omega arith) ∙ f,
                    Wrote-next q fs fs2 ino tot off n b src x.owned x.here x.some_block x.view
                        x.sizes x.disk (Entered-Keeps o fs ino (off / bsize) b q fs2 x) lt fits tot'
                        off' p fs' whole w,
                  )
            ]
      ]
]
