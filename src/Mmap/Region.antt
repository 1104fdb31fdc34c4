-- ===== src/Mmap/Region.antt =====
-- What holds of the regions of a process: each lies between `mmap_base` and the trapframe, whole
-- pages of them, and no two overlap.
use mit_operating_system_eng.Base.{
  ℕ, zero, suc, ◌%◌, ◌≤◌, ◌≡◌, Bool, true, false, not, ◌&&◌, ◌||◌, List, [], ◌∷◌, set, All,
  All-mono, ltb, leb, ◌==◌, arith,
}
use mit_operating_system_eng.Mmap.{Vma, Proc, page_size, trapframe}

-- The regions share an address.
abbrev pub clash : Vma → Vma → Bool
clash v w = v.valid && (w.valid && (ltb v.start w.end && ltb w.start v.end))

-- A region in use lies above `base` and below the trapframe, and consists of whole pages.
abbrev pub fits : ℕ → Vma → Bool
fits base v =
    not v.valid
    || (leb base v.start
        && (ltb v.start v.end
            && (leb v.end trapframe && (v.start % page_size == 0 && v.end % page_size == 0))))

abbrev pub Disjoint : List Vma → Type 0
Disjoint [] = Unit
Disjoint (v ∷ vs) = All (λ w. clash v w ≡ false) vs × Disjoint vs

abbrev pub Fits : ℕ → List Vma → Type 0
Fits base vs = All (λ v. fits base v ≡ true) vs

-- The layout of the address space that the heap and the mapped regions share.
pub record Layout (p : Proc) : Type 0 where
  pub heap : p.sz ≤ p.mmap_base
  pub top : p.mmap_base ≤ trapframe
  pub aligned : p.mmap_base % page_size ≡ 0
  pub regions : Fits p.mmap_base p.vma
  pub apart : Disjoint p.vma

pub All-set {κ} :
    (P : Vma → Type κ) (vs : List Vma) (i : ℕ) (v : Vma) → All P vs → P v → All P (set vs i v)
All-set P [] i v h q = tt
All-set P (w ∷ ws) zero v h q = (q, h.1)
All-set P (w ∷ ws) (suc i) v h q = (h.0, All-set P ws i v h.1 q)

pub clash_symm : (v w : Vma) → clash v w ≡ false → clash w v ≡ false
clash_symm v w h = ground arith

-- A region that clashes with none may be put in any slot.
pub Disjoint-set :
    (vs : List Vma) (i : ℕ) (v : Vma)
    → Disjoint vs
    → All (λ w. clash v w ≡ false) vs
    → Disjoint (set vs i v)
Disjoint-set [] i v d h = tt
Disjoint-set (w ∷ ws) zero v d h = (h.1, d.1)
Disjoint-set (w ∷ ws) (suc i) v d h =
    (All-set (λ x. clash w x ≡ false) ws i v d.0 (clash_symm v w h.0), Disjoint-set ws i v d.1 h.1)

-- Regions above a bound stay above a lower one.
pub Fits-mono : (base base' : ℕ) (vs : List Vma) → base' ≤ base → Fits base vs → Fits base' vs
Fits-mono base base' vs h = All-mono _ _ vs (λ v q. ground arith)

-- What lies below `base` clashes with no region.
pub clear_below :
    (base : ℕ) (v : Vma) (vs : List Vma)
    → v.end ≤ base
    → Fits base vs
    → All (λ w. clash v w ≡ false) vs
clear_below base v vs h = All-mono _ _ vs (λ w q. ground arith)
