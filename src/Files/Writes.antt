-- ===== src/Files/Writes.antt =====
-- The loop of `filewrite` of kernel/file.c, where each chunk is written.
use mit_operating_system_eng.Base.{
  ℕ, zero, suc, ◌+◌, ◌-◌, ◌%◌, ◌^◌, ◌≤◌, ◌<◌, ◌≡◌, refl, ◌∙◌, inl, inr, true, Option, some, ltb,
  ◌==◌, Bool-cases, ok, arith,
}
use mit_operating_system_eng.Files.{
  fd_inode, State, Layers, advance, max_write, chunk, write_loop, filewrite,
}

-- `writei` writes what it is asked to, up to what one transaction holds.
abbrev pub IsWhole : (ℕ → ℕ → ℕ → Option ℕ) → Type 0
IsWhole writei = (i off n : ℕ) → n ≤ max_write → writei i off n ≡ some n

chunk_range :
    (i n : ℕ) → i < n → (i + chunk (n - i) ≤ n) × (0 < chunk (n - i)) × (chunk (n - i) ≤ max_write)
chunk_range i n h = ground arith

module _ (writei : ℕ → ℕ → ℕ → Option ℕ) (whole : IsWhole writei) (f n : ℕ) where
  write_loop-whole :
      (fuel i : ℕ) (s : State)
      → i ≤ n
      → n ≤ i + fuel
      → (s.file f).off < 2 ^ 32
      → ((write_loop writei fuel f i n s).0 ≡ n)
        × (((write_loop writei fuel f i n s).1.file f).off ≡ ((s.file f).off + (n - i)) % 2 ^ 32)
  unfolding write_loop
  write_loop-whole zero i s h g w = (omega arith, omega arith)
  write_loop-whole (suc fuel) i s h g w = elim (Bool-cases (ltb i n)) [
    | inr e ↦ rw e (ground arith)
    | inl e ↦
        let (less, more, small) = chunk_range i n (ground arith) in
        let n1 = chunk (n - i) in
        let done = whole i (s.file f).off n1 small in
        let self : (n1 == n1) ≡ true = ground arith in
        let here : (f == f) ≡ true = ground arith in
        let next = advance f (some n1) s in
        let (all, moved) =
          write_loop-whole fuel (i + n1) next less (omega arith) (rw here (omega arith)) in
        let sum : ((s.file f).off + n1) % 2 ^ 32 + (n - (i + n1))
            ≡ ((s.file f).off + n1) % 2 ^ 32 + (n - i - n1) =
          omega arith in
        let off_moved : ((write_loop writei fuel f (i + n1) n next).1.file f).off
            ≡ (((s.file f).off + n1) % 2 ^ 32 + (n - (i + n1))) % 2 ^ 32 =
          rw here at moved in
        let total : (((s.file f).off + n1) % 2 ^ 32 + (n - (i + n1))) % 2 ^ 32
            ≡ ((s.file f).off + (n - i)) % 2 ^ 32 =
          omega arith in
        rw (e, done, self) (all, off_moved ∙ total)
  ]

-- A write of `n` bytes to a writable inode whose layer writes all it is asked to goes through, in chunks
-- that fit a transaction each, and moves the offset by `n`.
pub filewrite-whole :
    (l : Layers) (f n : ℕ) (s : State)
    → IsWhole l.inode
    → (s.file f).kind ≡ fd_inode
    → (s.file f).writable ≡ true
    → (s.file f).off < 2 ^ 32
    → (filewrite l f n s ≡ ok (some n, (write_loop l.inode n f 0 n s).1))
      × (((write_loop l.inode n f 0 n s).1.file f).off ≡ ((s.file f).off + n) % 2 ^ 32)
unfolding filewrite
filewrite-whole l f n s whole kind may w =
    let (all, moved) = write_loop-whole l.inode whole f n n 0 s (omega arith) (omega arith) w in
    let same : (n == n) ≡ true = ground arith in
    let none_before : n - 0 ≡ n = omega arith in
    (rw (filewrite, may, kind, all, same) refl, rw none_before at moved)
