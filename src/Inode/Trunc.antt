-- ===== src/Inode/Trunc.antt =====
-- The blocks that the loops of `itrunc` of kernel/fs.c free, and the loop over the indirect block.
use mit_operating_system_eng.Base.{
  ℕ, zero, suc, ◌+◌, ◌≤◌, ◌<◌, ◌≡◌, ◌≢◌, refl, ◌∙◌, inl, inr, Bool, true, false, not, ◌&&◌, ◌||◌,
  ◌==◌, if◌then◌else◌, ok, Bool-cases, arith,
}
use mit_operating_system_eng.Inode.{Fs, bfree, trunc_indirect}
use mit_operating_system_eng.Inode.Blocks.{used}
use mit_operating_system_eng.Inode.Balloc.{bfree_lem}

-- The block is one of the `k` values of `f` from `j` on.
unfoldable pub among : ℕ → (ℕ → ℕ) → ℕ → ℕ → Bool
among zero f j c = false
among (suc k) f j c = let rest = among k f (j + 1) c in (f j == c && not (f j == 0)) || rest

pub among-hit :
    (k : ℕ) (f : ℕ → ℕ) (j i : ℕ) → j ≤ i → i < j + k → f i ≢ 0 → among k f j (f i) ≡ true
unfolding among
among-hit zero f j i x y h = absurd (omega arith)
among-hit (suc k) f j i x y h = elim (Bool-cases (j == i)) [
  | inl here ↦ let same : j ≡ i = ground arith in rw same (ground arith)
  | inr later ↦ let rest = among-hit k f (j + 1) i (ground arith) (omega arith) h in ground arith
]

pub among-miss :
    (k : ℕ) (f : ℕ → ℕ) (j c : ℕ)
    → ((i : ℕ) → j ≤ i → i < j + k → f i ≡ c → f i ≡ 0)
    → among k f j c ≡ false
unfolding among
among-miss zero f j c h = refl
among-miss (suc k) f j c h =
    let rest = among-miss k f (j + 1) c (λ i x y. h i (omega arith) (omega arith)) in
    let here = h j (omega arith) (omega arith) in ground arith

-- The values are marked, and different.
pub record Listed (fs : Fs) (f : ℕ → ℕ) (j k : ℕ) : Type 0 where
  pub marked : (i : ℕ) → j ≤ i → i < j + k → f i ≢ 0 → used fs (f i) ≡ true
  pub apart : (i t : ℕ) → j ≤ i → i < j + k → j ≤ t → t < j + k → f i ≢ 0 → f i ≡ f t → i ≡ t

pub record Swept (fs : Fs) (f : ℕ → ℕ) (j k : ℕ) (n : Fs) : Type 0 where
  pub marks : (c : ℕ) → used n c ≡ (used fs c && not (among k f j c))
  pub words : n.word ≡ fs.word
  pub bytes : n.byte ≡ fs.byte
  pub disk : n.size ≡ fs.size

-- The first value is freed, where it is not 0.
pub free_first :
    (fs : Fs) (f : ℕ → ℕ) (j k : ℕ)
    → Listed fs f j (suc k)
    → (n : Fs) × ((if f j == 0 then ok fs else bfree (f j) fs) ≡ ok n)
      × Listed n f (j + 1) k
      × ((c : ℕ) → used n c ≡ (used fs c && not (f j == c && not (f j == 0))))
      × (n.word ≡ fs.word)
      × (n.byte ≡ fs.byte)
      × (n.inode ≡ fs.inode)
      × (n.size ≡ fs.size)
free_first fs f j k l = elim (Bool-cases (f j == 0)) [
  | inl zero_ ↦ (
    fs,
    rw zero_ refl,
    record {
      marked = λ i x y. l.marked i (omega arith) (omega arith);
      apart = λ i t x y z w. l.apart i t (omega arith) (omega arith) (omega arith) (omega arith);
    },
    λ c. ground arith,
    refl,
    refl,
    refl,
    refl,
  )
  | inr some_ ↦
      let mark = l.marked j (omega arith) (omega arith) (ground arith) in
      let (n, e, marks, bytes, words, inodes, disk) = bfree_lem (f j) fs mark in
      (
        n,
        rw some_ e,
        record {
          marked = λ i x y h.
              let was = l.marked i (omega arith) (omega arith) h in
              let other : f i ≢ f j = λ same.
                let e =
                  l.apart i j (omega arith) (omega arith) (omega arith) (omega arith) h same in
                omega arith in
              marks (f i) ∙ ground arith;
          apart =
              λ i t x y z w. l.apart i t (omega arith) (omega arith) (omega arith) (omega arith);
        },
        λ c. marks c ∙ ground arith,
        words,
        bytes,
        inodes,
        disk,
      )
]

pub trunc_indirect_lem :
    (k a j : ℕ) (fs : Fs)
    → Listed fs (fs.word a) j k
    → (n : Fs) × (trunc_indirect k a j fs ≡ ok n)
      × Swept fs (fs.word a) j k n
      × (n.inode ≡ fs.inode)
unfolding trunc_indirect among
trunc_indirect_lem zero a j fs l =
    (fs, refl, record { marks = λ c. ground arith; words = refl; bytes = refl; disk = refl }, refl)
trunc_indirect_lem (suc k) a j fs l =
    let (n, e, rest, marks, words, bytes, inodes, disk) = free_first fs (fs.word a) j k l in
    let same : n.word a ≡ fs.word a = rw words refl in
    let (o, d, s, i) = trunc_indirect_lem k a (j + 1) n (rw same rest) in
    (
      o,
      rw (trunc_indirect, e) d,
      record {
        marks = λ c. let x = s.marks c in let y = marks c in let z = rw same at x in ground arith;
        words = s.words ∙ words;
        bytes = s.bytes ∙ bytes;
        disk = s.disk ∙ disk;
      },
      i ∙ inodes,
    )
