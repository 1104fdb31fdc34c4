-- ===== src/Inode/ReadPieces.antt =====
-- The pieces that the loop of `readi` of kernel/fs.c copies out.
use mit_operating_system_eng.Base.{
  ℕ, ◌+◌, ◌-◌, ◌*◌, ◌/◌, ◌%◌, min, ◌≤◌, ◌<◌, ◌≡◌, ◌≢◌, refl, sym, ap, ◌∙◌, ◌⊎◌, inl, inr, true,
  false, ◌&&◌, Option, none, some, ltb, leb, ◌==◌, Bool-cases, some-injective, arith,
}
use mit_operating_system_eng.Inode.{Fs, bsize, max_file, Target, deliver}
use mit_operating_system_eng.Inode.Blocks.{used, slot, Owner, Owned, byte_at}
use mit_operating_system_eng.Inode.Present.{Keeps}
use mit_operating_system_eng.Inode.Pieces.{piece}

abbrev pub delivered : Target → ℕ → ℕ → ℕ → ℕ
delivered dst n tot off = min (piece n tot off) (dst.writable tot (piece n tot off))

-- What the loop leaves that starts at `tot` and `off`, where it answers `r`.
pub record Read (fs : Fs) (ino tot off n : ℕ) (dst : Target) (r : Option ℕ) (q : Owner)
    (dst' : Target) (fs' : Fs) : Type 0 where
  pub owned : Owned q fs'
  pub view : (i p : ℕ) → p < max_file * bsize → byte_at fs' i p ≡ byte_at fs i p
  pub sizes : (i : ℕ) → (fs'.inode i).size ≡ (fs.inode i).size
  pub same_target : dst'.writable ≡ dst.writable
  pub before : (i : ℕ) → i < tot → dst'.bytes i ≡ dst.bytes i
  pub after : (i : ℕ) → n ≤ i → dst'.bytes i ≡ dst.bytes i
  pub bytes :
      (tot' : ℕ)
      → r ≡ some tot'
      → (tot ≤ tot')
        × (tot' ≤ n)
        × ((i : ℕ) → tot ≤ i → i < tot' → dst'.bytes i ≡ byte_at fs ino (off + (i - tot)))
  pub reason :
      (r ≡ some n)
      ⊎ (((t : ℕ) × (r ≡ some t)
            × (t < n)
            × (slot fs ino ((off + (t - tot)) / bsize) ≡ 0)
            × ((c : ℕ) → c < fs'.size → used fs' c ≡ true))
          ⊎ ((r ≡ none) × (s : ℕ) × (m : ℕ) × (s + m ≤ n) × (0 < m) × (dst.writable s m < m)))

pub Read-none :
    (q : Owner) (fs fs2 : Fs) (ino tot off n : ℕ) (dst : Target)
    → Owned q fs2
    → tot ≤ n
    → ((i p : ℕ) → p < max_file * bsize → byte_at fs2 i p ≡ byte_at fs i p)
    → ((i : ℕ) → (fs2.inode i).size ≡ (fs.inode i).size)
    → (tot ≡ n)
      ⊎ ((tot < n) × (slot fs ino (off / bsize) ≡ 0) × ((c : ℕ) → c < fs2.size → used fs2 c ≡ true))
    → Read fs ino tot off n dst (some tot) q dst fs2
Read-none q fs fs2 ino tot off n dst owned le view sizes reason = record {
  owned = owned;
  view = view;
  sizes = sizes;
  same_target = refl;
  before = λ i h. refl;
  after = λ i h. refl;
  bytes = λ tot' e.
      let same : tot ≡ tot' = some-injective e in
      (omega arith, omega arith, λ i x y. absurd (omega arith));
  reason = elim reason [
    | inl all ↦ inl (ap some all)
    | inr stop ↦
        let here : off + (tot - tot) ≡ off = omega arith in
        inr (inl (tot, refl, stop.0, rw here stop.1, stop.2))
  ];
}

-- A piece of block `b` has been copied out, and the loop goes on or stops.
module _ (q : Owner) (fs fs2 : Fs) (ino tot off n b : ℕ) (dst : Target) (owned : Owned q fs2)
    (here : slot fs2 ino (off / bsize) ≡ b) (some_block : b ≢ 0)
    (view : (i p : ℕ) → p < max_file * bsize → byte_at fs2 i p ≡ byte_at fs i p)
    (sizes : (i : ℕ) → (fs2.inode i).size ≡ (fs.inode i).size) (more : tot < n)
    (fits : off + (n - tot) ≤ max_file * bsize) where
  abbrev pub dst2 : Target
  dst2 = deliver (fs2.byte b) (off % bsize) tot (delivered dst n tot off) dst

  pub Read-short :
      ltb (delivered dst n tot off) (piece n tot off) ≡ true
      → Read fs ino tot off n dst none q dst2 fs2
  Read-short short = record {
    owned = owned;
    view = view;
    sizes = sizes;
    same_target = refl;
    before = λ i h. ground arith;
    after = λ i h. ground arith;
    bytes = λ tot' e. absurd (cc e);
    reason = inr (inr (refl, tot, piece n tot off, omega arith, omega arith, ground arith));
  }

  -- A byte of the piece is that of the file.
  byte-first :
      (i : ℕ)
      → tot ≤ i
      → i < tot + piece n tot off
      → fs2.byte b (off % bsize + i - tot) ≡ byte_at fs ino (off + (i - tot))
  byte-first i x y =
      let v = view ino (off + (i - tot)) (omega arith) in
      let block : (off + (i - tot)) / bsize ≡ off / bsize = omega arith in
      let pos : (off + (i - tot)) % bsize ≡ off % bsize + i - tot = omega arith in
      let not_zero : (b == 0) ≡ false = ground arith in
      let now : byte_at fs2 ino (off + (i - tot)) ≡ fs2.byte b (off % bsize + i - tot) =
        rw (block, here, not_zero, pos) refl in
      sym now ∙ v

  pub Read-next :
      (r : Option ℕ) (o : Owner) (dst' : Target) (fs' : Fs)
      → Keeps fs fs2 ino
      → ltb (delivered dst n tot off) (piece n tot off) ≡ false
      → Read fs2 ino (tot + piece n tot off) (off + piece n tot off) n dst2 r o dst' fs'
      → Read fs ino tot off n dst r o dst' fs'
  Read-next r o dst' fs' keeps whole w =
      let all : delivered dst n tot off ≡ piece n tot off = ground arith in
      record {
        owned = w.owned;
        view = λ i p lt. w.view i p lt ∙ view i p lt;
        sizes = λ i. w.sizes i ∙ sizes i;
        same_target = w.same_target;
        before = λ i h. w.before i (omega arith) ∙ ground arith;
        after = λ i h. w.after i h ∙ ground arith;
        bytes = λ tot' e.
            let (from, to, later) = w.bytes tot' e in
            (
              omega arith,
              to,
              λ i x y. elim (Bool-cases (ltb i (tot + piece n tot off))) [
                | inl first ↦
                    let inside : (leb tot i && ltb i (tot + delivered dst n tot off)) ≡ true =
                      ground arith in
                    w.before i (ground arith) ∙ rw inside (byte-first i x (ground arith))
                | inr rest ↦
                    let place : off + piece n tot off + (i - (tot + piece n tot off))
                        ≡ off + (i - tot) =
                      ground arith in
                    let v = view ino (off + (i - tot)) (omega arith) in
                    later i (ground arith) y ∙ rw place v
              ],
            );
        reason = elim w.reason [
          | inl done ↦ inl done
          | inr stop ↦ elim stop [
            | inl (t, e, lt, missing, full) ↦
                let (from, _, _) = w.bytes t e in
                let place : off + piece n tot off + (t - (tot + piece n tot off))
                    ≡ off + (t - tot) =
                  omega arith in
                inr (inl (t, e, lt, keeps _ (omega arith) (rw place at missing), full))
            | inr short ↦ inr (inr short)
          ]
        ];
      }
