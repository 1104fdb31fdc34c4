-- ===== src/Files/Calls.antt =====
-- The descriptor calls of kernel/sysfile.c keep the counts of kernel/file.c exact, and do not panic.
use mit_operating_system_eng.Base.{
  ℕ, ◌+◌, ◌-◌, ◌<◌, ◌≡◌, ◌≢◌, refl, inl, inr, true, false, not, ◌&&◌, Option, none, some, List, set,
  ltb, ◌==◌, Bool-cases, Option-cases, Outcome, ok, arith,
}
use mit_operating_system_eng.Process.{find}
use mit_operating_system_eng.Process.Sweep.{find-some}
use mit_operating_system_eng.Files.{
  nfile, ndev, fd_none, State, set_file, filealloc, filedup, keeps, end_of, fileclose, argfd, place,
  fdalloc, sys_dup, sys_close, Inode, has_bit, opened, open_inode, sys_open,
}
use mit_operating_system_eng.Files.Counts.{
  one, count, Counted, count-place, count-clear, argfd-some,
}

-- The call returns, and the counts are exact after it.
pub record Works {A : Type 0} (other : ℕ → ℕ) (o : Outcome (A × State)) : Type 0 where
  pub answer : A
  pub after : State
  pub returns : o ≡ ok (answer, after)
  pub counted : Counted other after

pub unchanged :
    {A : Type 0} {other : ℕ → ℕ} {s : State} (o : Outcome (A × State)) (r : A)
    → o ≡ ok (r, s)
    → Counted other s
    → Works other o
unchanged o r e c = record { answer = r; after = _; returns = e; counted = c }

-- A file that a descriptor names is referred to.
pub count-some : (fd f : ℕ) (s : State) → argfd fd s ≡ some f → 0 < count f s.ofile
count-some fd f s e =
    let split = count-clear f f fd s.ofile (argfd-some fd f s e) in
    let self : one f f ≡ 1 = ground arith in omega (arith, split, self)

dup-Counted :
    (other : ℕ → ℕ) (f k : ℕ) (s : State) (fds : List (Option ℕ))
    → 0 < count f s.ofile
    → place f s.ofile ≡ some (k, fds)
    → Counted other s
    → Counted other
        (set_file f (record (s.file f) { ref = (s.file f).ref + 1 }) (record s { ofile = fds }))
dup-Counted other f k s fds named e c = record {
  exact = λ g. ground (arith, c.exact g, count-place f g k s.ofile fds e);
  typed = λ g h. ground (arith, c.typed g, c.exact g);
}

pub sys_dup-Works :
    (other : ℕ → ℕ) (fd : ℕ) (s : State) → Counted other s → Works other (sys_dup fd s)
unfolding sys_dup fdalloc filedup
sys_dup-Works other fd s c = elim (Option-cases (argfd fd s)) [
  | inl a ↦ unchanged _ none (rw (sys_dup, a) refl) c
  | inr (f, a) ↦ elim (Option-cases (place f s.ofile)) [
    | inl b ↦ unchanged _ none (rw (sys_dup, a, fdalloc, b) refl) c
    | inr ((k, fds), b) ↦
        let named = count-some fd f s a in
        let used : ((s.file f).ref == 0) ≡ false = ground (arith, c.exact f) in
        unchanged _ (some k) (rw (sys_dup, a, fdalloc, b, filedup, used) refl)
          (dup-Counted other f k s fds named b c)
  ]
]

module _ (other : ℕ → ℕ) (f : ℕ) (s : State)
    (c : (g : ℕ) → (s.file g).ref ≡ one f g + count g s.ofile + other g)
    (typed : (g : ℕ) → 0 < (s.file g).ref → g ≢ f → (s.file g).kind ≢ fd_none)
    (own : 1 < (s.file f).ref → (s.file f).kind ≢ fd_none) where
  -- One reference more than the descriptors account for is given back.
  pub fileclose-Works : Works other (fileclose f s)
  unfolding fileclose
  fileclose-Works =
      let self : one f f ≡ 1 = ground arith in
      let used : ((s.file f).ref == 0) ≡ false = ground (arith, c f) in
      elim (Bool-cases (ltb 0 ((s.file f).ref - 1))) [
        | inl b ↦
            unchanged {s = set_file f (record (s.file f) { ref = (s.file f).ref - 1 }) s} _ keeps
              (rw (used, b) refl)
              (record {
                exact = λ g. ground (arith, c g);
                typed = λ g h. ground (arith, typed g, own);
              })
        | inr b ↦
            unchanged {s = set_file f (record (s.file f) { ref = 0; kind = fd_none }) s} _
              (end_of (s.file f)) (rw (used, b) refl)
              (record { exact = λ g. ground (arith, c g); typed = λ g h. ground (arith, typed g) })
      ]

pub sys_close-Works :
    (other : ℕ → ℕ) (fd : ℕ) (s : State) → Counted other s → Works other (sys_close fd s)
unfolding sys_close
sys_close-Works other fd s c = elim (Option-cases (argfd fd s)) [
  | inl a ↦ unchanged _ none (rw (sys_close, a) refl) c
  | inr (f, a) ↦
      let left = record s { ofile = set s.ofile fd none } in
      let w =
        fileclose-Works other f left
          (λ g. ground (arith, c.exact g, count-clear f g fd s.ofile (argfd-some fd f s a)))
          (λ g h _. c.typed g h) (λ h. c.typed f (omega arith)) in
      unchanged _ (some w.answer) (rw (sys_close, a, w.returns) refl) w.counted
]

opened-Counted :
    (other : ℕ → ℕ) (f k omode : ℕ) (ip : Inode) (s : State) (fds : List (Option ℕ))
    → (s.file f).ref ≡ 0
    → place f s.ofile ≡ some (k, fds)
    → Counted other s
    → Counted other (
        set_file f
          (opened omode ip (record (s.file f) { ref = 1 }))
          (set_file f (record (s.file f) { ref = 1 }) (record s { ofile = fds })))
opened-Counted other f k omode ip s fds unused e c = record {
  exact = λ g. ground (arith, c.exact g, count-place f g k s.ofile fds e);
  typed = λ g h. ground (arith, c.typed g);
}

filealloc-none :
    (s : State) → find nfile 0 (λ f. (s.file f).ref == 0) ≡ none → filealloc s ≡ (none, s)
unfolding filealloc
filealloc-none s e = rw (filealloc, e) refl

filealloc-some :
    (s : State) (f : ℕ)
    → find nfile 0 (λ f. (s.file f).ref == 0) ≡ some f
    → filealloc s ≡ (some f, set_file f (record (s.file f) { ref = 1 }) s)
unfolding filealloc
filealloc-some s f e = rw (filealloc, e) refl

open_inode-Works :
    (other : ℕ → ℕ) (f omode : ℕ) (ip : Inode) (s : State)
    → (s.file f).ref ≡ 0
    → Counted other s
    → Works other (open_inode omode ip (some f, set_file f (record (s.file f) { ref = 1 }) s))
unfolding open_inode fdalloc
open_inode-Works other f omode ip s unused c =
    let taken = set_file f (record (s.file f) { ref = 1 }) s in
    let self : (f == f) ≡ true = ground arith in
    elim (Option-cases (place f s.ofile)) [
      | inl b ↦
          let w =
            fileclose-Works other f taken (λ g. ground (arith, c.exact g))
              (λ g h n. ground (arith, c.typed g)) (λ h. ground arith) in
          unchanged _ none (rw (open_inode, fdalloc, b, w.returns) refl) w.counted
      | inr ((k, fds), b) ↦
          unchanged
            {s = set_file f (opened omode ip (record (s.file f) { ref = 1 }))
              (record taken { ofile = fds })}
            _ (some (k, has_bit omode 1024 && ip.is_file)) (rw (open_inode, fdalloc, b, self) refl)
            (opened-Counted other f k omode ip s fds unused b c)
    ]

pub sys_open-Works :
    (other : ℕ → ℕ) (omode : ℕ) (node : Option Inode) (s : State)
    → Counted other s
    → Works other (sys_open omode node s)
unfolding sys_open open_inode
sys_open-Works other omode none s c = unchanged _ none refl c
sys_open-Works other omode (some ip) s c =
    elim (Bool-cases (not (has_bit omode 512) && ip.is_dir && not (omode == 0))) [
      | inl a ↦ unchanged {s = s} _ none (rw a refl) c
      | inr a ↦ elim (Bool-cases (ip.is_device && not (ltb ip.major ndev))) [
        | inl b ↦ unchanged {s = s} _ none (rw (a, b) refl) c
        | inr b ↦ elim (Option-cases (find nfile 0 (λ f. (s.file f).ref == 0))) [
          | inl e ↦ unchanged {s = s} _ none (rw (a, b, filealloc-none s e) refl) c
          | inr (f, e) ↦
              let (hit, _, _) = find-some nfile 0 f (λ f. (s.file f).ref == 0) e in
              let w = open_inode-Works other f omode ip s (ground arith) c in
              unchanged _ w.answer (rw (a, b, filealloc-some s f e) w.returns) w.counted
        ]
      ]
    ]
