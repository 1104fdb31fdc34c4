-- ===== src/Inode/Pieces.antt =====
-- The pieces that the loop of `writei` of kernel/fs.c copies.
use mit_operating_system_eng.Base.{
  ℕ, zero, suc, ◌+◌, ◌-◌, ◌*◌, ◌/◌, ◌%◌, ◌^◌, min, ◌≤◌, ◌<◌, ◌≡◌, ◌≢◌, refl, sym, ap, ◌∙◌, ◌⊎◌, inl,
  inr, true, false, not, ◌&&◌, none, some, ltb, leb, ◌==◌, if◌then◌else◌, ok, Bool-cases, arith,
}
use mit_operating_system_eng.Inode.{Fs, bsize, max_file, bmap, Source, copy_bytes, write_from}
use mit_operating_system_eng.Inode.Blocks.{used, slot, Owner, Owned, byte_at}
use mit_operating_system_eng.Inode.Copy.{copy-slot, copy-Owned, copy-view}
use mit_operating_system_eng.Inode.Present.{Keeps}

-- The length of the piece at an offset, and what is copied of it.
abbrev pub piece : ℕ → ℕ → ℕ → ℕ
piece n tot off = min (n - tot) (bsize - off % bsize)

abbrev pub copied : Source → ℕ → ℕ → ℕ → ℕ
copied src n tot off = min (piece n tot off) (src.readable tot (piece n tot off))

-- What the loop leaves that starts at `tot` and `off`, where it stops at `tot'` and `off'`.
pub record Wrote (fs : Fs) (ino tot off n : ℕ) (src : Source) (tot' off' : ℕ) (q : Owner) (fs' : Fs)
    : Type 0 where
  pub owned : Owned q fs'
  pub from : tot ≤ tot'
  pub to : tot' ≤ n
  pub at : off' ≡ off + (tot' - tot)
  pub inside : (p : ℕ) → off ≤ p → p < off' → byte_at fs' ino p ≡ src.bytes (tot + (p - off))
  pub outside :
      (i p : ℕ)
      → p < max_file * bsize
      → (i == ino && (leb off p && ltb p (off + (n - tot)))) ≡ false
      → byte_at fs' i p ≡ byte_at fs i p
  pub placed : (p : ℕ) → off ≤ p → p < off' → slot fs' ino (p / bsize) ≢ 0
  pub keeps : Keeps fs fs' ino
  pub sizes : (i : ℕ) → (fs'.inode i).size ≡ (fs.inode i).size
  pub disk : fs'.size ≡ fs.size
  pub reason :
      (tot' ≡ n)
      ⊎ (((c : ℕ) → c < fs'.size → used fs' c ≡ true)
          ⊎ (src.readable tot' (piece n tot' off') < piece n tot' off'))

pub next-eq :
    (k ino tot off n b : ℕ) (src : Source) (fs fs2 : Fs)
    → tot < n
    → bmap ino (off / bsize) fs ≡ ok (some b, fs2)
    → ltb (copied src n tot off) (piece n tot off) ≡ false
    → off + piece n tot off < 2 ^ 32
    → write_from (suc k) ino tot off n src fs
      ≡ write_from k ino
          (tot + piece n tot off)
          (off + piece n tot off)
          n
          src
          (copy_bytes b (off % bsize) tot (copied src n tot off) src fs2)
unfolding write_from
next-eq k ino tot off n b src fs fs2 lt e whole small =
    let more : not (ltb tot n) ≡ false = ground arith in
    let up : (off + piece n tot off) % 2 ^ 32 ≡ off + piece n tot off = omega arith in
    rw (write_from, more, e, whole, up) refl

pub short-eq :
    (k ino tot off n b : ℕ) (src : Source) (fs fs2 : Fs)
    → tot < n
    → bmap ino (off / bsize) fs ≡ ok (some b, fs2)
    → ltb (copied src n tot off) (piece n tot off) ≡ true
    → write_from (suc k) ino tot off n src fs
      ≡ ok (tot, off, copy_bytes b (off % bsize) tot (copied src n tot off) src fs2)
unfolding write_from
short-eq k ino tot off n b src fs fs2 lt e short =
    let more : not (ltb tot n) ≡ false = ground arith in rw (write_from, more, e, short) refl

pub full-eq :
    (k ino tot off n : ℕ) (src : Source) (fs fs2 : Fs)
    → tot < n
    → bmap ino (off / bsize) fs ≡ ok (none, fs2)
    → write_from (suc k) ino tot off n src fs ≡ ok (tot, off, fs2)
unfolding write_from
full-eq k ino tot off n src fs fs2 lt e =
    let more : not (ltb tot n) ≡ false = ground arith in rw (write_from, more, e) refl

pub done-eq :
    (k ino tot off n : ℕ) (src : Source) (fs : Fs)
    → n ≤ tot
    → write_from k ino tot off n src fs ≡ ok (tot, off, fs)
unfolding write_from
done-eq zero ino tot off n src fs le = refl
done-eq (suc k) ino tot off n src fs le =
    let stop : not (ltb tot n) ≡ true = ground arith in rw stop refl

-- The loop stops at once.
pub Wrote-none :
    (q : Owner) (fs fs2 : Fs) (ino tot off n : ℕ) (src : Source)
    → Owned q fs2
    → tot ≤ n
    → ((i p : ℕ) → p < max_file * bsize → byte_at fs2 i p ≡ byte_at fs i p)
    → ((i : ℕ) → (fs2.inode i).size ≡ (fs.inode i).size)
    → fs2.size ≡ fs.size
    → Keeps fs fs2 ino
    → (tot ≡ n)
      ⊎ (((c : ℕ) → c < fs2.size → used fs2 c ≡ true)
          ⊎ (src.readable tot (piece n tot off) < piece n tot off))
    → Wrote fs ino tot off n src tot off q fs2
Wrote-none q fs fs2 ino tot off n src owned le view sizes disk keeps reason = record {
  owned = owned;
  from = omega arith;
  to = le;
  at = omega arith;
  inside = λ p x y. absurd (omega arith);
  outside = λ i p lt out. view i p lt;
  placed = λ p x y. absurd (omega arith);
  keeps = keeps;
  sizes = sizes;
  disk = disk;
  reason = reason;
}

-- A piece has been copied into block `b`, and the loop goes on or stops.
module _ (q : Owner) (fs fs2 : Fs) (ino tot off n b : ℕ) (src : Source) (owned : Owned q fs2)
    (here : slot fs2 ino (off / bsize) ≡ b) (some_block : b ≢ 0)
    (view : (i p : ℕ) → p < max_file * bsize → byte_at fs2 i p ≡ byte_at fs i p)
    (sizes : (i : ℕ) → (fs2.inode i).size ≡ (fs.inode i).size) (disk : fs2.size ≡ fs.size)
    (keeps : Keeps fs fs2 ino) (more : tot < n) (fits : off + (n - tot) ≤ max_file * bsize) where
  abbrev after : Fs
  after = copy_bytes b (off % bsize) tot (copied src n tot off) src fs2

  seen :
      (i p : ℕ)
      → p < max_file * bsize
      → byte_at after i p ≡ (
          if i == ino && (leb off p && ltb p (off + copied src n tot off))
          then src.bytes (tot + (p - off))
          else byte_at fs i p)
  seen i p lt =
      let v = view i p lt in
      let e =
        copy-view q fs2 ino off b tot (copied src n tot off) src i p owned here some_block
          (omega arith) (omega arith) lt in
      rw v at e

  same : (i t : ℕ) → slot fs2 i t ≡ slot after i t
  same i t = sym (copy-slot fs2 b (off % bsize) tot (copied src n tot off) src i t)

  pub Wrote-short :
      ltb (copied src n tot off) (piece n tot off) ≡ true
      → Wrote fs ino tot off n src tot off q after
  Wrote-short short = record {
    owned = copy-Owned q fs2 b (off % bsize) tot (copied src n tot off) src owned;
    from = omega arith;
    to = omega arith;
    at = omega arith;
    inside = λ p x y. absurd (omega arith);
    outside = λ i p lt out.
        let e = seen i p lt in
        let no_ : (i == ino && (leb off p && ltb p (off + copied src n tot off))) ≡ false =
          ground arith in
        rw no_ at e;
    placed = λ p x y. absurd (omega arith);
    keeps = λ t lt e. keeps t lt (same ino t ∙ e);
    sizes = sizes;
    disk = disk;
    reason = inr (inr (ground arith));
  }

  pub Wrote-next :
      (tot' off' : ℕ) (o : Owner) (fs' : Fs)
      → ltb (copied src n tot off) (piece n tot off) ≡ false
      → Wrote after ino (tot + piece n tot off) (off + piece n tot off) n src tot' off' o fs'
      → Wrote fs ino tot off n src tot' off' o fs'
  Wrote-next tot' off' o fs' whole w =
      let all : copied src n tot off ≡ piece n tot off = ground arith in
      let from = w.from in
      let to = w.to in
      let at = w.at in
      record {
        owned = w.owned;
        from = omega arith;
        to = to;
        at = omega arith;
        inside = λ p x y. elim (Bool-cases (ltb p (off + piece n tot off))) [
          | inl first ↦
              let keep = w.outside ino p (omega arith) (ground arith) in
              let e = seen ino p (omega arith) in
              let yes_ : (ino == ino && (leb off p && ltb p (off + copied src n tot off))) ≡ true =
                ground arith in
              keep ∙ rw yes_ at e
          | inr later ↦
              let place : tot + piece n tot off + (p - (off + piece n tot off)) ≡ tot + (p - off) =
                ground arith in
              w.inside p (ground arith) y ∙ ap src.bytes place
        ];
        outside = λ i p lt out.
            let e = seen i p lt in
            let no_ : (i == ino && (leb off p && ltb p (off + copied src n tot off))) ≡ false =
              ground arith in
            w.outside i p lt (ground arith) ∙ rw no_ at e;
        placed = λ p x y. elim (Bool-cases (ltb p (off + piece n tot off))) [
          | inl first ↦ λ gone.
              let block : p / bsize ≡ off / bsize = ground arith in
              let was = w.keeps (off / bsize) (omega arith) (rw block at gone) in
              some_block (sym here ∙ same ino (off / bsize) ∙ was)
          | inr later ↦ w.placed p (ground arith) y
        ];
        keeps = λ t lt e. keeps t lt (same ino t ∙ w.keeps t lt e);
        sizes = λ i. w.sizes i ∙ sizes i;
        disk = w.disk ∙ disk;
        reason = w.reason;
      }
