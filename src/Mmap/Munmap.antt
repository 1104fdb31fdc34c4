-- ===== src/Mmap/Munmap.antt =====
-- `sys_munmap` of kernel/sysproc.c keeps the regions of a process apart, where the range it is
-- given lies within a region.
use mit_operating_system_eng.Base.{
  ℕ, ◌%◌, ◌≤◌, ◌<◌, ◌≡◌, ◌≢◌, refl, ap, ◌⊎◌, true, false, inl, inr, none, some, List, [], ◌∷◌, ◌++◌,
  All, All-mono, Bool-cases, Option-cases, arith,
}
use mit_operating_system_eng.Mmap.{Vma, page_size}
use mit_operating_system_eng.Mmap.Unmap.{Found, overlap, cut, meets, find_vma}
use mit_operating_system_eng.Mmap.Region.{clash, fits, Disjoint, Fits, clash_symm}

All-middle {κ} :
    (P : Vma → Type κ) (xs ys : List Vma) (v v' : Vma)
    → All P (xs ++ (v ∷ ys))
    → P v'
    → All P (xs ++ (v' ∷ ys))
All-middle P [] ys v v' h q = (q, h.1)
All-middle P (x ∷ xs) ys v v' h q = (h.0, All-middle P xs ys v v' h.1 q)

pub All-hit {κ} : (P : Vma → Type κ) (xs ys : List Vma) (v : Vma) → All P (xs ++ (v ∷ ys)) → P v
All-hit P [] ys v h = h.0
All-hit P (x ∷ xs) ys v h = All-hit P xs ys v h.1

-- `v'` lies within `v`.
abbrev pub Within : Vma → Vma → Type 0
Within v' v = (w : Vma) → clash v w ≡ false → clash v' w ≡ false

pub Disjoint-middle :
    (xs ys : List Vma) (v v' : Vma)
    → Within v' v
    → Disjoint (xs ++ (v ∷ ys))
    → Disjoint (xs ++ (v' ∷ ys))
Disjoint-middle [] ys v v' inside d = (All-mono _ _ ys inside d.0, d.1)
Disjoint-middle (x ∷ xs) ys v v' inside d = (
  All-middle _ xs ys v v' d.0 (clash_symm v' x (inside x (clash_symm x v (All-hit _ xs ys v d.0)))),
  Disjoint-middle xs ys v v' inside d.1,
)

-- With one region given up, a property of the others follows from their not overlapping it.
pub Fits-middle :
    (base base' : ℕ) (xs ys : List Vma) (v v' : Vma)
    → Fits base (xs ++ (v ∷ ys))
    → Disjoint (xs ++ (v ∷ ys))
    → ((w : Vma) → fits base w ≡ true → clash v w ≡ false → fits base' w ≡ true)
    → fits base' v' ≡ true
    → Fits base' (xs ++ (v' ∷ ys))
Fits-middle base base' [] ys v v' f d step q = (q, both ys f.1 d.0)
  where
    both : (ws : List Vma) → Fits base ws → All (λ w. clash v w ≡ false) ws → Fits base' ws
    both [] f d = tt
    both (w ∷ ws) f d = (step w f.0 d.0, both ws f.1 d.1)
Fits-middle base base' (x ∷ xs) ys v v' f d step q = (
  step x f.0 (clash_symm x v (All-hit _ xs ys v d.0)),
  Fits-middle base base' xs ys v v' f.1 d.1 step q,
)

pub find_vma-some :
    (addr end : ℕ) (vs : List Vma) (r : Found)
    → find_vma addr end vs ≡ some r
    → (vs ≡ r.before ++ (r.hit ∷ r.after)) × (meets r.hit addr end ≡ true)
unfolding find_vma
find_vma-some addr end [] r e = cc
find_vma-some addr end (v ∷ vs) r e = elim (Bool-cases (meets v addr end)) [
  | inl hit ↦ let q = rw hit at e in ground arith
  | inr miss ↦ elim (Option-cases (find_vma addr end vs)) [
    | inl none_there ↦ absurd (cc (rw (miss, none_there) at e))
    | inr (r', there) ↦
        let q = rw (miss, there) at e in
        let (split, hit) = find_vma-some addr end vs r' there in
        let same : r ≡ record r' { before = v ∷ r'.before } = cc q in
        rw same (ap (λ l. v ∷ l) split, hit)
  ]
]

-- Where no region meets the range, none is found.
pub find_vma-none :
    (addr end : ℕ) (vs : List Vma)
    → All (λ v. meets v addr end ≡ false) vs
    → find_vma addr end vs ≡ none
unfolding find_vma
find_vma-none addr end [] h = refl
find_vma-none addr end (v ∷ vs) h = rw (h.0, find_vma-none addr end vs h.1) refl

pub find_vma-none-inv :
    (addr end : ℕ) (vs : List Vma)
    → find_vma addr end vs ≡ none
    → All (λ v. meets v addr end ≡ false) vs
unfolding find_vma
find_vma-none-inv addr end [] e = tt
find_vma-none-inv addr end (v ∷ vs) e = (ground arith, find_vma-none-inv addr end vs (ground arith))

-- The range lies within the region.
abbrev pub Inside : ℕ → ℕ → Vma → Type 0
Inside addr end v = (v.start ≤ addr) × (end ≤ v.end)

pub overlap-Inside :
    (v : Vma) (addr end from to : ℕ)
    → Inside addr end v
    → overlap v addr end ≡ some (from, to)
    → (from ≡ addr) × (to ≡ end) × ((addr ≡ v.start) ⊎ (end ≡ v.end))
unfolding overlap
overlap-Inside v addr end from to i e = ground arith

-- What is left of a region lies within it and stays well formed.
module _ (v : Vma) (addr end : ℕ) (inside : Inside addr end v) (some_pages : addr < end)
    (ends : (addr ≡ v.start) ⊎ (end ≡ v.end)) where
  pub cut-Within : Within (cut v addr end).left v
  unfolding cut
  cut-Within w h = ground arith

  pub cut-fits :
      (base : ℕ)
      → addr % page_size ≡ 0
      → end % page_size ≡ 0
      → fits base v ≡ true
      → (addr ≢ base → fits base (cut v addr end).left ≡ true)
        × (addr ≡ base → fits end (cut v addr end).left ≡ true)
  unfolding cut
  cut-fits base p q f = ground arith
