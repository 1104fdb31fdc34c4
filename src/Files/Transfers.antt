-- ===== src/Files/Transfers.antt =====
-- `sys_read` and `sys_write` keep the counts exact, and find a file that they know how to use.
use mit_operating_system_eng.Base.{
  ℕ, zero, suc, ◌+◌, ◌-◌, ◌≡◌, ◌≢◌, refl, inl, inr, Bool, true, false, not, ◌&&◌, Option, none,
  some, ltb, ◌==◌, if◌then◌else◌, Bool-cases, Option-cases, arith,
}
use mit_operating_system_eng.Files.{
  ndev, Kind, fd_none, fd_pipe, fd_inode, fd_device, State, Layers, advance, fileread, filewrite,
  write_loop, chunk, argfd, sys_read, sys_write,
}
use mit_operating_system_eng.Files.Counts.{Counted}
-- The call returns, and the counts are exact after it.
use mit_operating_system_eng.Files.Calls.{Works, unchanged, count-some}

Counted-if :
    {A : Type 0} {other : ℕ → ℕ} (b : Bool) (x y : A × State)
    → Counted other x.1
    → Counted other y.1
    → Counted other (if b then x else y).1
Counted-if true x y p q = p
Counted-if false x y p q = q

advance-Counted :
    (other : ℕ → ℕ) (f : ℕ) (r : Option ℕ) (s : State)
    → Counted other s
    → Counted other (advance f r s)
advance-Counted other f none s c = c
advance-Counted other f (some r) s c = record {
  exact = λ g. ground (arith, c.exact g);
  typed = λ g h. ground (arith, c.typed g);
}

write_loop-Counted :
    (other : ℕ → ℕ) (writei : ℕ → ℕ → ℕ → Option ℕ) (fuel f i n : ℕ) (s : State)
    → Counted other s
    → Counted other (write_loop writei fuel f i n s).1
unfolding write_loop
write_loop-Counted other writei zero f i n s c = c
write_loop-Counted other writei (suc fuel) f i n s c =
    let n1 = chunk (n - i) in
    let r = writei i (s.file f).off n1 in
    let moved = advance-Counted other f r s c in
    search
      (Counted-if, write_loop-Counted other writei fuel f (i + n1) n (advance f r s) moved, moved)

-- A call on a descriptor finds a file of a kind that it knows.
known :
    (other : ℕ → ℕ) (fd f : ℕ) (s : State)
    → Counted other s
    → argfd fd s ≡ some f
    → (s.file f).kind ≢ fd_none
known other fd f s c a = c.typed f (let n = count-some fd f s a in let e = c.exact f in omega arith)

fileread-Works :
    (other : ℕ → ℕ) (l : Layers) (f n : ℕ) (s : State) (k : Kind)
    → (s.file f).kind ≡ k
    → k ≢ fd_none
    → Counted other s
    → Works other (fileread l f n s)
unfolding fileread
fileread-Works other l f n s k e some_kind c = elim (Bool-cases (not (s.file f).readable)) [
  | inl b ↦ unchanged {s = s} _ none (rw b refl) c
  | inr b ↦
      elim k as (λ k. (s.file f).kind ≡ k → k ≢ fd_none → Works other (fileread l f n s)) [
        | fd_none ↦ λ q h. absurd (h refl)
        | fd_pipe ↦ λ q h. unchanged {s = s} _ l.pipe (rw (fileread, b, q) refl) c
        | fd_inode ↦ λ q h.
            unchanged {s = advance f (l.inode 0 (s.file f).off n) s} _ (l.inode 0 (s.file f).off n)
              (rw (fileread, b, q) refl) (advance-Counted other f (l.inode 0 (s.file f).off n) s c)
        | fd_device ↦ λ q h.
            unchanged {s = s} _
              (if ltb (s.file f).major ndev && l.has_device then l.device else none)
              (rw (fileread, b, q) refl) c
      ]
        e some_kind
]

filewrite-Works :
    (other : ℕ → ℕ) (l : Layers) (f n : ℕ) (s : State) (k : Kind)
    → (s.file f).kind ≡ k
    → k ≢ fd_none
    → Counted other s
    → Works other (filewrite l f n s)
unfolding filewrite
filewrite-Works other l f n s k e some_kind c = elim (Bool-cases (not (s.file f).writable)) [
  | inl b ↦ unchanged {s = s} _ none (rw b refl) c
  | inr b ↦
      elim k as (λ k. (s.file f).kind ≡ k → k ≢ fd_none → Works other (filewrite l f n s)) [
        | fd_none ↦ λ q h. absurd (h refl)
        | fd_pipe ↦ λ q h. unchanged {s = s} _ l.pipe (rw (filewrite, b, q) refl) c
        | fd_inode ↦ λ q h.
            unchanged {s = (write_loop l.inode n f 0 n s).1} _
              (if (write_loop l.inode n f 0 n s).0 == n then some n else none)
              (rw (filewrite, b, q) refl) (write_loop-Counted other l.inode n f 0 n s c)
        | fd_device ↦ λ q h.
            unchanged {s = s} _
              (if ltb (s.file f).major ndev && l.has_device then l.device else none)
              (rw (filewrite, b, q) refl) c
      ]
        e some_kind
]

pub sys_read-Works :
    (other : ℕ → ℕ) (l : Layers) (fd n : ℕ) (s : State)
    → Counted other s
    → Works other (sys_read l fd n s)
unfolding sys_read
sys_read-Works other l fd n s c = elim (Option-cases (argfd fd s)) [
  | inl a ↦ unchanged {s = s} _ none (rw (sys_read, a) refl) c
  | inr (f, a) ↦
      let w = fileread-Works other l f n s (s.file f).kind refl (known other fd f s c a) c in
      unchanged _ w.answer (rw (sys_read, a) w.returns) w.counted
]

pub sys_write-Works :
    (other : ℕ → ℕ) (l : Layers) (fd n : ℕ) (s : State)
    → Counted other s
    → Works other (sys_write l fd n s)
unfolding sys_write
sys_write-Works other l fd n s c = elim (Option-cases (argfd fd s)) [
  | inl a ↦ unchanged {s = s} _ none (rw (sys_write, a) refl) c
  | inr (f, a) ↦
      let w = filewrite-Works other l f n s (s.file f).kind refl (known other fd f s c a) c in
      unchanged _ w.answer (rw (sys_write, a) w.returns) w.counted
]
