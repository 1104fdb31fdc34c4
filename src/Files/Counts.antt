-- ===== src/Files/Counts.antt =====
-- The reference counts of kernel/file.c: each is the number of descriptors that name the file and of
-- the references held elsewhere, and no descriptor call panics.
use mit_operating_system_eng.Base.{
  ℕ, zero, suc, ◌+◌, ◌<◌, ◌≡◌, ◌≢◌, refl, sym, ap, ◌∙◌, inl, inr, Option, none, some, List, [], ◌∷◌,
  get_elem?, set, ltb, ◌==◌, if◌then◌else◌, Bool-cases, Option-cases, some-injective, arith,
}
use mit_operating_system_eng.Files.{nofile, fd_none, State, argfd, place}

abbrev pub one : ℕ → ℕ → ℕ
one f g = if f == g then 1 else 0

unfoldable pub count : ℕ → List (Option ℕ) → ℕ
count f [] = 0
count f (none ∷ fds) = count f fds
count f (some g ∷ fds) = one g f + count f fds

-- `other` counts the references that are not descriptors of this process.
pub record Counted (other : ℕ → ℕ) (s : State) : Type 0 where
  pub exact : (f : ℕ) → (s.file f).ref ≡ count f s.ofile + other f
  pub typed : (f : ℕ) → 0 < (s.file f).ref → (s.file f).kind ≢ fd_none

pub count-place :
    (f g k : ℕ) (fds fds' : List (Option ℕ))
    → place f fds ≡ some (k, fds')
    → count g fds' ≡ one f g + count g fds
unfolding place count
count-place f g k [] fds' e = absurd (cc e)
count-place f g k (none ∷ fds) fds' e =
    let same : some f ∷ fds ≡ fds' = ap (λ (r : ℕ × List (Option ℕ)). r.1) (some-injective e) in
    sym (ap (count g) same)
count-place f g k (some h ∷ fds) fds' e = elim (Option-cases (place f fds)) [
  | inl none_free ↦ absurd (cc (rw (place, none_free) at e))
  | inr ((j, rest), found) ↦
      let same : some h ∷ rest ≡ fds' =
        ap (λ (r : ℕ × List (Option ℕ)). r.1) (some-injective (rw (place, found) at e)) in
      let more = count-place f g j fds rest found in sym (ap (count g) same) ∙ omega (arith, more)
]

pub count-clear :
    (f g fd : ℕ) (fds : List (Option ℕ))
    → get_elem? fds fd ≡ some (some f)
    → count g fds ≡ one f g + count g (set fds fd none)
unfolding count
count-clear f g fd [] e = absurd (cc e)
count-clear f g zero (none ∷ fds) e = absurd (cc e)
count-clear f g zero (some h ∷ fds) e = let same : h ≡ f = cc e in rw same refl
count-clear f g (suc fd) (none ∷ fds) e = count-clear f g fd fds e
count-clear f g (suc fd) (some h ∷ fds) e = omega (arith, count-clear f g fd fds e)

pub argfd-some : (fd f : ℕ) (s : State) → argfd fd s ≡ some f → get_elem? s.ofile fd ≡ some (some f)
unfolding argfd
argfd-some fd f s e = elim (Bool-cases (ltb fd nofile)) [
  | inr b ↦ absurd (cc (rw b at e))
  | inl b ↦ elim (Option-cases (get_elem? s.ofile fd)) [
    | inl c ↦ absurd (cc (rw (b, c) at e))
    | inr (o, c) ↦ c ∙ ap some (rw (b, c) at e)
  ]
]
