-- ===== src/Kalloc/Pages.antt =====
-- The free pages of kernel/kalloc.c.
use mit_operating_system_eng.Base.{
  ℕ, zero, suc, ◌+◌, ◌*◌, ◌/◌, ◌%◌, ◌≤◌, ◌<◌, ◌≡◌, refl, ◌⊎◌, inl, inr, Bool, true, false, not,
  ◌&&◌, ◌||◌, Option, none, some, List, [], ◌∷◌, ltb, leb, ◌==◌, ok, panic, Bool-cases, has,
  Distinct, All, arith,
}
use mit_operating_system_eng.Kalloc.{
  phystop, page_size, kfree, kalloc, free_from, page_up, freerange, kinit,
}

-- A page that may be on the free list.
abbrev pub is_page : ℕ → ℕ → Bool
is_page end pa = pa % page_size == 0 && (leb end pa && ltb pa phystop)

-- The free list holds pages, and none twice.
pub record IsFree (end : ℕ) (freelist : List ℕ) : Type 0 where
  pub pages : All (λ pa. is_page end pa ≡ true) freelist
  pub distinct : Distinct freelist

-- The pages below `p` of a range from `from` on.
abbrev pub in_range : ℕ → ℕ → ℕ → Bool
in_range from p pa = pa % page_size == 0 && (leb from pa && ltb pa p)

-- The state of the loop at page `p`: the free list holds the pages of the range below it.
record Filled (end from p : ℕ) (freelist : List ℕ) : Type 0 where
  free : IsFree end freelist
  exact : (pa : ℕ) → has pa freelist ≡ in_range from p pa

Filled-next :
    (end from p : ℕ) (freelist : List ℕ)
    → p % page_size ≡ 0
    → from ≤ p
    → end ≤ p
    → p < phystop
    → Filled end from p freelist
    → Filled end from (p + page_size) (p ∷ freelist)
Filled-next end from p freelist aligned le low high f = record {
  free = record {
    pages = (ground arith, f.free.pages);
    distinct = (ground (arith, f.exact p), f.free.distinct);
  };
  exact = λ pa. ground (arith, f.exact pa);
}

pub kfree-ok : (end pa : ℕ) (l : List ℕ) → is_page end pa ≡ true → kfree end pa l ≡ ok (pa ∷ l)
unfolding kfree
kfree-ok end pa l h =
    let accepted : (not (pa % page_size == 0) || (ltb pa end || leb phystop pa)) ≡ false =
      ground arith in
    rw accepted refl

kfree-panic : (end pa : ℕ) (l : List ℕ) → is_page end pa ≡ false → kfree end pa l ≡ panic
unfolding kfree
kfree-panic end pa l h =
    let refused : (not (pa % page_size == 0) || (ltb pa end || leb phystop pa)) ≡ true =
      ground arith in
    rw refused refl

-- The loop stops at `phystop`, having freed every page.
free_from-Filled :
    (end from k p : ℕ) (l : List ℕ)
    → p % page_size ≡ 0
    → from ≤ p
    → end ≤ p
    → p ≤ phystop
    → phystop ≤ p + page_size * k
    → Filled end from p l
    → (l' : List ℕ) × (free_from end phystop k p l ≡ ok l') × Filled end from phystop l'
unfolding free_from
free_from-Filled end from zero p l aligned le low high enough f =
    let at : p ≡ phystop = omega arith in (l, refl, rw at at f)
free_from-Filled end from (suc k) p l aligned le low high enough f =
    elim (Bool-cases (leb (p + page_size) phystop)) [
      | inl more ↦
          let next = Filled-next end from p l aligned le low (ground arith) f in
          rw (more, kfree-ok end p l (ground arith))
            (free_from-Filled end from k (p + page_size) (p ∷ l) (omega arith) (omega arith)
              (omega arith) (ground arith) (omega arith) next)
      | inr last ↦ let at : p ≡ phystop = ground arith in rw last (l, refl, rw at at f)
    ]

-- `kinit` does not panic, and frees each page of memory between the kernel and PHYSTOP, once.
pub kinit_lem :
    (end : ℕ)
    → end ≤ phystop
    → (l : List ℕ) × (kinit end ≡ ok l) × IsFree end l × ((pa : ℕ) → has pa l ≡ is_page end pa)
unfolding kinit freerange
kinit_lem end le =
    let up : end ≤ page_up end = omega arith in
    let start : Filled end (page_up end) (page_up end) [] = record {
      free = record { pages = tt; distinct = tt };
      exact = λ pa. ground arith;
    } in
    let (l, done, f) =
      free_from-Filled end (page_up end) (phystop / page_size) (page_up end) [] (omega arith)
        (omega arith) up (omega arith) (omega arith) start in
    (l, done, f.free, λ pa. let e = f.exact pa in ground arith)

-- What `kalloc` does with the free list.
pub data Taken (end : ℕ) (l : List ℕ) : Option ℕ × List ℕ → Type 0 where
  out_of_memory : ((pa : ℕ) → has pa l ≡ false) → Taken end l (none, l)
  page :
      (r : ℕ) (rest : List ℕ)
      → is_page end r ≡ true
      → has r rest ≡ false
      → ((pa : ℕ) → has pa l ≡ ((r == pa) || has pa rest))
      → IsFree end rest
      → Taken end l (some r, rest)

-- `kalloc` answers the null pointer exactly if no page is free, and else takes one page off the
-- free list, which then holds all the others.
pub kalloc_lem : (end : ℕ) (l : List ℕ) → IsFree end l → Taken end l (kalloc l)
unfolding kalloc
kalloc_lem end [] f = out_of_memory (λ pa. refl)
kalloc_lem end (r ∷ rs) f =
    page r rs f.pages.0 f.distinct.0 (λ pa. refl)
      (record { pages = f.pages.1; distinct = f.distinct.1 })

-- `kfree` puts a page that is not free on the free list, and panics exactly if the address is not
-- that of a page between the kernel and PHYSTOP.
pub kfree_lem :
    (end pa : ℕ) (l : List ℕ)
    → IsFree end l
    → has pa l ≡ false
    → ((is_page end pa ≡ true) × (kfree end pa l ≡ ok (pa ∷ l)) × IsFree end (pa ∷ l))
      ⊎ ((is_page end pa ≡ false) × (kfree end pa l ≡ panic))
kfree_lem end pa l f absent = elim (Bool-cases (is_page end pa)) [
  | inl h ↦
      inl (h, kfree-ok end pa l h, record { pages = (h, f.pages); distinct = (absent, f.distinct) })
  | inr h ↦ inr (h, kfree-panic end pa l h)
]
