-- ===== src/Vm/Mappages.antt =====
-- The loop of `mappages` of kernel/vm.c.
use mit_operating_system_eng.Base.{
  ℕ, zero, suc, ◌+◌, ◌-◌, ◌*◌, ◌/◌, ◌%◌, ◌^◌, ◌≤◌, ◌<◌, ◌≡◌, refl, ◌∙◌, inl, inr, Bool, true, false,
  not, some, ◌==◌, ok, arith,
}
use mit_operating_system_eng.Vm.{
  Mem, maxva, valid, pte_of, px, set_pte, walk, map_from, mappages, page_size,
}
use mit_operating_system_eng.Vm.Entries.{Labels, Tables}
use mit_operating_system_eng.Vm.Map.{in_pages, Mapped-more, Answer, Unmapped, map_round}

map_from-next :
    (rounds r va last pa perm u : ℕ) (m n : Mem)
    → walk r va true m ≡ ok (some u, n)
    → valid (n.table u (px 0 va)) ≡ false
    → (va == last) ≡ false
    → va + page_size < 2 ^ 64
    → map_from (suc rounds) r va last pa perm m
      ≡ map_from rounds r
          (va + page_size)
          last
          (pa + page_size)
          perm
          (set_pte u (px 0 va) (pte_of pa perm) n)
unfolding map_from
map_from-next rounds r va last pa perm u m n e clear go_on lt =
    let next : (va + page_size) % 2 ^ 64 ≡ va + page_size = omega arith in
    rw (map_from, e, clear, go_on, next) refl

map_from_lem :
    (pages : ℕ) (end : ℕ) (l : Labels) (m : Mem) (r va pa perm last : ℕ)
    → Tables end l m
    → l.level r ≡ 3
    → va % page_size ≡ 0
    → last ≡ va + page_size * pages
    → last < maxva
    → Unmapped m r va (suc pages)
    → (done : Bool) × (n : Mem) × (map_from (suc pages) r va last pa perm m ≡ ok (done, n))
      × Answer end l m r va pa perm (suc pages) done n
unfolding map_from
map_from_lem zero end l m r va pa perm last tables is_root aligned at lt free =
    elim (map_round end l m r va pa perm tables is_root aligned (omega arith)
      (free va (omega arith) (omega arith))) [
        | inl (n, k, e, g) ↦ (
          false,
          n,
          rw (map_from, e) refl,
          record { j = 0; k = k; all = inr (omega arith); whole = λ f. absurd (cc f); mapped = g },
        )
        | inr (u, n, k, e, clear, g) ↦
            let stop : (va == last) ≡ true = ground arith in
            (
              true,
              set_pte u (px 0 va) (pte_of pa perm) n,
              rw (map_from, e, clear, stop) refl,
              record { j = 1; k = k; all = inl refl; whole = λ f. refl; mapped = g },
            )
      ]
map_from_lem (suc pages) end l m r va pa perm last tables is_root aligned at lt free =
    elim (map_round end l m r va pa perm tables is_root aligned (omega arith)
      (free va (omega arith) (omega arith))) [
        | inl (n, k, e, g) ↦ (
          false,
          n,
          rw (map_from, e) refl,
          record { j = 0; k = k; all = inr (omega arith); whole = λ f. absurd (cc f); mapped = g },
        )
        | inr (u, n, k, e, clear, g) ↦
            let go_on : (va == last) ≡ false = ground arith in
            let n1 = set_pte u (px 0 va) (pte_of pa perm) n in
            let (r3, _, _) = g.ext.old r (ground arith) in
            let rest : Unmapped n1 r (va + page_size) (suc pages) = λ vb from to.
              let seen = g.view r vb is_root (omega arith) in
              let out : in_pages r va 1 r vb ≡ false = ground arith in
              rw (seen, out) (free vb (omega arith) (omega arith)) in
            let (done, o, f, a) =
              map_from_lem pages end k n1 r (va + page_size) (pa + page_size) perm last g.tables
                (r3 ∙ is_root) (omega arith) (omega arith) lt rest in
            (
              done,
              o,
              map_from-next (suc pages) r va last pa perm u m n e clear go_on (omega arith) ∙ f,
              record {
                j = suc a.j;
                k = a.k;
                all = elim a.all [ inl d ↦ inl d | inr less ↦ inr (omega arith) ];
                whole = λ d. let j = a.whole d in omega arith;
                mapped = Mapped-more end l m r va pa perm a.j k n1 a.k o g a.mapped;
              },
            )
      ]

-- In page tables that are well-formed, with no page of the range mapped, `mappages` does not panic.
-- If it answers 0, each page of the range is mapped to the page of memory at the same offset from
-- `pa`, and if it answers -1 only some first pages of the range are. No other entry changes, in any
-- address space, the page tables stay well-formed and no page of user memory is touched.
pub mappages_lem :
    (end : ℕ) (l : Labels) (m : Mem) (r va pages pa perm : ℕ)
    → Tables end l m
    → l.level r ≡ 3
    → va % page_size ≡ 0
    → 0 < pages
    → va + page_size * pages ≤ maxva
    → Unmapped m r va pages
    → (done : Bool) × (n : Mem) × (mappages r va (page_size * pages) pa perm m ≡ ok (done, n))
      × Answer end l m r va pa perm pages done n
unfolding mappages
mappages_lem end l m r va zero pa perm tables is_root aligned some_ fits free = absurd (omega arith)
mappages_lem end l m r va (suc pages) pa perm tables is_root aligned some_ fits free =
    let a : not (va % page_size == 0) ≡ false = ground arith in
    let b : not (page_size * suc pages % page_size == 0) ≡ false = ground arith in
    let c : (page_size * suc pages == 0) ≡ false = ground arith in
    let d : page_size * suc pages / page_size ≡ suc pages = omega arith in
    let e : (va + page_size * suc pages - page_size) % 2 ^ 64 ≡ va + page_size * pages =
      omega arith in
    rw (a, b, c, d, e)
      (map_from_lem pages end l m r va pa perm (va + page_size * pages) tables is_root aligned refl
        (omega arith) free)
