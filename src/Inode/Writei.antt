-- ===== src/Inode/Writei.antt =====
-- `writei` of kernel/fs.c on the contents of files.
use mit_operating_system_eng.Base.{
  ℕ, ◌+◌, ◌-◌, ◌*◌, ◌/◌, ◌%◌, ◌^◌, max, ◌≤◌, ◌<◌, ◌≡◌, ◌≢◌, refl, sym, ap, ◌∙◌, ◌⊎◌, inl, inr, true,
  false, ◌&&◌, ◌||◌, none, some, ltb, leb, ◌==◌, ok, Bool-cases, arith,
}
use mit_operating_system_eng.Inode.{Fs, bsize, max_file, Source, finish, writei, iupdate, set_size}
use mit_operating_system_eng.Inode.Blocks.{used, slot, Owner, Owned, byte_at}
use mit_operating_system_eng.Inode.Pieces.{piece, Wrote}
use mit_operating_system_eng.Inode.WriteLoop.{write_from_lem}

-- What `writei` leaves that answers `tot`.
pub record Written (fs : Fs) (ino off n : ℕ) (src : Source) (tot : ℕ) (q : Owner) (fs' : Fs)
    : Type 0 where
  pub may : off ≤ (fs.inode ino).size
  pub fits : off + n ≤ max_file * bsize
  pub owned : Owned q fs'
  pub to : tot ≤ n
  pub inside : (p : ℕ) → off ≤ p → p < off + tot → byte_at fs' ino p ≡ src.bytes (p - off)
  pub outside :
      (i p : ℕ)
      → p < max_file * bsize
      → (i == ino && (leb off p && ltb p (off + n))) ≡ false
      → byte_at fs' i p ≡ byte_at fs i p
  pub placed : (p : ℕ) → off ≤ p → p < off + tot → slot fs' ino (p / bsize) ≢ 0
  pub size : (fs'.inode ino).size ≡ max (fs.inode ino).size (off + tot)
  pub sizes : (i : ℕ) → i ≢ ino → (fs'.inode i).size ≡ (fs.inode i).size
  pub on_disk : fs'.dinode ino ≡ fs'.inode ino
  pub reason :
      (tot ≡ n)
      ⊎ (((c : ℕ) → c < fs'.size → used fs' c ≡ true)
          ⊎ ((m : ℕ) × (0 < m) × (src.readable tot m < m)))

-- The end of `writei` sets the size and the inode on the disk.
record Finished (ino off : ℕ) (fs n : Fs) : Type 0 where
  slots : (i t : ℕ) → slot n i t ≡ slot fs i t
  byte : n.byte ≡ fs.byte
  bit : n.bit ≡ fs.bit
  disk : n.size ≡ fs.size
  size : (n.inode ino).size ≡ max (fs.inode ino).size off
  sizes : (i : ℕ) → i ≢ ino → (n.inode i).size ≡ (fs.inode i).size
  on_disk : n.dinode ino ≡ n.inode ino

finish-Finished :
    (ino tot off : ℕ) (fs : Fs)
    → (n : Fs) × (finish ino (tot, off, fs) ≡ (some tot, n)) × Finished ino off fs n
unfolding finish iupdate set_size slot
finish-Finished ino tot off fs = elim (Bool-cases (ltb (fs.inode ino).size off)) [
  | inl grow ↦ (
    iupdate ino (set_size ino off fs),
    rw grow refl,
    record {
      slots = λ i t. ground arith;
      byte = refl;
      bit = refl;
      disk = refl;
      size = ground arith;
      sizes = λ i h. ground arith;
      on_disk = ground arith;
    },
  )
  | inr keep ↦ (
    iupdate ino fs,
    rw keep refl,
    record {
      slots = λ i t. refl;
      byte = refl;
      bit = refl;
      disk = refl;
      size = ground arith;
      sizes = λ i h. refl;
      on_disk = ground arith;
    },
  )
]

Finished-view :
    (ino off : ℕ) (fs n : Fs) (i p : ℕ) → Finished ino off fs n → byte_at n i p ≡ byte_at fs i p
Finished-view ino off fs n i p f = let e = f.slots i (p / bsize) in let b = f.byte in rw (e, b) refl

Finished-Owned :
    (q : Owner) (ino off : ℕ) (fs n : Fs) → Finished ino off fs n → Owned q fs → Owned q n
Finished-Owned q ino off fs n f owned = record {
  boot = rw f.bit owned.boot;
  owned = λ i t lt some_.
      let e = f.slots i t in
      let (a, b, c, d) = owned.owned i t lt (rw e at some_) in rw (e, f.bit, f.disk) (a, b, c, d);
}

finish-Written :
    (fs : Fs) (ino off n : ℕ) (src : Source) (tot off' : ℕ) (q : Owner) (fs2 fs' : Fs)
    → Wrote fs ino 0 off n src tot off' q fs2
    → Finished ino off' fs2 fs'
    → off ≤ (fs.inode ino).size
    → off + n ≤ max_file * bsize
    → Written fs ino off n src tot q fs'
finish-Written fs ino off n src tot off' q fs2 fs' w g may fits =
    let at = w.at in
    let end : off' ≡ off + tot = omega arith in
    record {
      may = may;
      fits = fits;
      owned = Finished-Owned q ino off' fs2 fs' g w.owned;
      to = w.to;
      inside = λ p x y.
          let from_start : 0 + (p - off) ≡ p - off = omega arith in
          Finished-view ino off' fs2 fs' ino p g
          ∙ (w.inside p x (omega arith) ∙ ap src.bytes from_start);
      outside = λ i p x out. Finished-view ino off' fs2 fs' i p g ∙ w.outside i p x (ground arith);
      placed = λ p x y gone. w.placed p x (omega arith) (sym (g.slots ino (p / bsize)) ∙ gone);
      size =
          let s = w.sizes ino in
          let z : (fs'.inode ino).size ≡ max (fs.inode ino).size off' = rw s at g.size in
          rw end at z;
      sizes = λ i other. g.sizes i other ∙ w.sizes i;
      on_disk = g.on_disk;
      reason = elim w.reason [
        | inl all ↦ inl all
        | inr stop ↦ elim stop [
          | inl full ↦ inr (inl (λ c lt. let d = g.disk in rw g.bit (full c (rw d at lt))))
          | inr short ↦ inr (inr (piece n tot off', omega arith, short))
        ]
      ];
    }

pub writei_lem :
    (o : Owner) (fs : Fs) (ino off n : ℕ) (src : Source)
    → Owned o fs
    → off < 2 ^ 32
    → n < 2 ^ 32
    → ((((fs.inode ino).size < off) ⊎ (max_file * bsize < off + n))
        × (writei ino off n src fs ≡ ok (none, fs)))
      ⊎ ((tot : ℕ) × (fs' : Fs) × (q : Owner) × (writei ino off n src fs ≡ ok (some tot, fs'))
          × Written fs ino off n src tot q fs')
unfolding writei
writei_lem o fs ino off n src owned small small_n =
    elim (Bool-cases (ltb (fs.inode ino).size off || ltb ((off + n) % 2 ^ 32) off)) [
      | inl refused ↦
          let why : ((fs.inode ino).size < off) ⊎ (max_file * bsize < off + n) =
            elim (Bool-cases (ltb (fs.inode ino).size off)) [
              | inl past ↦ inl (ground arith)
              | inr in_ ↦ inr (ground arith)
            ] in
          inl (why, rw refused refl)
      | inr first ↦ elim (Bool-cases (ltb (max_file * bsize) ((off + n) % 2 ^ 32))) [
        | inl large ↦ inl (inr (ground arith), rw (first, large) refl)
        | inr fits ↦
            let (tot, off', fs2, q, e, w) =
              write_from_lem n o fs ino 0 off n src owned (omega arith) (omega arith)
                (ground arith) in
            let (fs', f, g) = finish-Finished ino tot off' fs2 in
            let lt : off + n ≤ max_file * bsize = ground arith in
            inr (
              tot,
              fs',
              q,
              rw (first, fits, e) (ap ok f),
              finish-Written fs ino off n src tot off' q fs2 fs' w g (ground arith) lt,
            )
      ]
    ]
