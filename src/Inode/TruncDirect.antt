-- ===== src/Inode/TruncDirect.antt =====
-- The loop of `itrunc` of kernel/fs.c over the direct blocks.
use mit_operating_system_eng.Base.{
  ℕ, zero, suc, ◌+◌, ◌≤◌, ◌<◌, ◌≡◌, ◌≢◌, refl, ap, ◌∙◌, inl, inr, not, ◌&&◌, ltb, leb, ◌==◌,
  if◌then◌else◌, ok, Bool-cases, arith,
}
use mit_operating_system_eng.Inode.{Fs, set_addr, bfree, trunc_direct}
use mit_operating_system_eng.Inode.Blocks.{used}
use mit_operating_system_eng.Inode.Trunc.{among, Listed, Swept, free_first}

-- The addresses from `j` on are 0, and the other inodes are as they were.
pub record Cleared (fs : Fs) (ino j k : ℕ) (n : Fs) : Type 0 where
  pub addrs :
      (t : ℕ)
      → (n.inode ino).addrs t ≡ (if leb j t && ltb t (j + k) then 0 else (fs.inode ino).addrs t)
  pub others : (i : ℕ) → i ≢ ino → n.inode i ≡ fs.inode i

trunc_direct-next :
    (k ino j x : ℕ) (fs n : Fs)
    → (fs.inode ino).addrs j ≡ x
    → (if x == 0 then ok fs else bfree x fs) ≡ ok n
    → trunc_direct (suc k) ino j fs
      ≡ trunc_direct k ino (j + 1) (if x == 0 then n else set_addr ino j 0 n)
unfolding trunc_direct
trunc_direct-next k ino j x fs n at e =
    let same : (if (fs.inode ino).addrs j == 0 then ok fs else bfree ((fs.inode ino).addrs j) fs)
        ≡ ok n =
      rw at e in
    rw (trunc_direct, same)
      (ap (λ y. trunc_direct k ino (j + 1) (if y == 0 then n else set_addr ino j 0 n)) at)

-- One round of the loop.
record First (fs : Fs) (ino : ℕ) (f : ℕ → ℕ) (j k : ℕ) (n : Fs) : Type 0 where
  step : (rounds : ℕ) → trunc_direct (suc rounds) ino j fs ≡ trunc_direct rounds ino (j + 1) n
  rest : Listed n f (j + 1) k
  marks : (c : ℕ) → used n c ≡ (used fs c && not (f j == c && not (f j == 0)))
  words : n.word ≡ fs.word
  bytes : n.byte ≡ fs.byte
  disk : n.size ≡ fs.size
  addrs : (t : ℕ) → (n.inode ino).addrs t ≡ (if j == t then 0 else (fs.inode ino).addrs t)
  others : (i : ℕ) → i ≢ ino → n.inode i ≡ fs.inode i

clear-First :
    (fs : Fs) (ino : ℕ) (f : ℕ → ℕ) (j k : ℕ)
    → (fs.inode ino).addrs j ≡ f j
    → Listed fs f j (suc k)
    → (n : Fs) × First fs ino f j k n
clear-First fs ino f j k at l =
    let (n, e, rest, marks, words, bytes, inodes, disk) = free_first fs f j k l in
    elim (Bool-cases (f j == 0)) [
      | inl zero_ ↦ (
        n,
        record {
          step = λ rounds. trunc_direct-next rounds ino j (f j) fs n at e ∙ rw zero_ refl;
          rest = rest;
          marks = marks;
          words = words;
          bytes = bytes;
          disk = disk;
          addrs = λ t. rw inodes (ground arith);
          others = λ i h. rw inodes refl;
        },
      )
      | inr some_ ↦ (
        set_addr ino j 0 n,
        record {
          step = λ rounds. trunc_direct-next rounds ino j (f j) fs n at e ∙ rw some_ refl;
          rest = record { marked = rest.marked; apart = rest.apart };
          marks = marks;
          words = words;
          bytes = bytes;
          disk = disk;
          addrs = λ t. rw inodes (ground arith);
          others = λ i h. rw inodes (ground arith);
        },
      )
    ]

pub trunc_direct_lem :
    (k ino j : ℕ) (f : ℕ → ℕ) (fs : Fs)
    → ((i : ℕ) → j ≤ i → i < j + k → (fs.inode ino).addrs i ≡ f i)
    → Listed fs f j k
    → (n : Fs) × (trunc_direct k ino j fs ≡ ok n) × Swept fs f j k n × Cleared fs ino j k n
unfolding trunc_direct among
trunc_direct_lem zero ino j f fs is_f l = (
  fs,
  refl,
  record { marks = λ c. ground arith; words = refl; bytes = refl; disk = refl },
  record { addrs = λ t. ground arith; others = λ i h. refl },
)
trunc_direct_lem (suc k) ino j f fs is_f l =
    let (n, one) = clear-First fs ino f j k (is_f j (omega arith) (omega arith)) l in
    let (o, d, s, z) =
      trunc_direct_lem k ino (j + 1) f n (λ i x y. one.addrs i ∙ ground (arith, is_f i)) one.rest in
    (
      o,
      one.step k ∙ d,
      record {
        marks = λ c. let x = s.marks c in let y = one.marks c in ground arith;
        words = s.words ∙ one.words;
        bytes = s.bytes ∙ one.bytes;
        disk = s.disk ∙ one.disk;
      },
      record {
        addrs = λ t. let x = z.addrs t in let y = one.addrs t in ground arith;
        others = λ i h. z.others i h ∙ one.others i h;
      },
    )
