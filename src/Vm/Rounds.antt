-- ===== src/Vm/Rounds.antt =====
-- Rounds of the loop of `uvmalloc` of kernel/vm.c.
use mit_operating_system_eng.Base.{
  ℕ, ◌+◌, ◌*◌, ◌%◌, ◌≤◌, ◌<◌, ◌≡◌, refl, ap, ◌∙◌, inl, inr, true, false, none, some, ◌∷◌, ◌==◌,
  Bool-cases, has, ok, arith,
}
use mit_operating_system_eng.Kalloc.{kfree}
use mit_operating_system_eng.Kalloc.Pages.{kfree-ok}
use mit_operating_system_eng.Mmap.{trapframe}
use mit_operating_system_eng.Vm.{Mem, valid, pte_pa, clear_page, take_page, mappages, page_size}
use mit_operating_system_eng.Vm.Entries.{Labels, Tables, pte_at}
use mit_operating_system_eng.Vm.Grow.{take_page_lem}
use mit_operating_system_eng.Vm.Map.{in_pages, Unmapped}
use mit_operating_system_eng.Vm.Mappages.{mappages_lem}
use mit_operating_system_eng.Vm.Unmap.{Frames}
use mit_operating_system_eng.Vm.Fresh.{Alloced, cleared-Tables, cleared-pte, refused, granted, own}

pub Alloced-none :
    (end : ℕ) (l : Labels) (m : Mem) (r va perm : ℕ)
    → Tables end l m
    → Frames end l m
    → Alloced end l m r va 0 perm l m
Alloced-none end l m r va perm tables frames = record {
  tables = tables;
  frames = frames;
  old = λ p h. (refl, refl, refl);
  outside = λ s vb h lt out. refl;
  inside = λ vb hit. absurd (ground arith);
  keeps = λ t i h v. refl;
  was_root = λ s h. h;
  linked = λ p h used le. absurd (omega arith);
  bytes = λ p h. refl;
  spare = λ p h. h;
  given = λ p h. inl h;
}

-- First `j` pages, then `i` more.
pub Alloced-more :
    (end : ℕ) (l : Labels) (m : Mem) (r va j i perm : ℕ) (k : Labels) (n : Mem) (g : Labels)
    (o : Mem)
    → l.level r ≡ 3
    → va + page_size * (j + i) ≤ trapframe
    → Alloced end l m r va j perm k n
    → Alloced end k n r (va + page_size * j) i perm g o
    → Alloced end l m r va (j + i) perm g o
Alloced-more end l m r va j i perm k n g o is_root fits x y =
    let (r3, _, _) = x.old r (ground arith) in
    record {
      tables = y.tables;
      frames = y.frames;
      old = λ p h. ground (arith, x.old p h, y.old p);
      outside = λ s vb h lt out.
          let (s3, _, _) = x.old s (ground arith) in
          y.outside s vb (s3 ∙ h) lt (ground arith) ∙ x.outside s vb h lt (ground arith);
      inside = λ vb hit. elim (Bool-cases (in_pages r va j r vb)) [
        | inl first ↦
            let same : pte_at o r vb ≡ pte_at n r vb =
              y.outside r vb (r3 ∙ is_root) (ground arith) (ground arith) in
            let (is_pte, was_free, zeros) = x.inside vb first in
            let v : valid (pte_at n r vb) ≡ true = rw is_pte (ground arith) in
            let (_, four, _, _) = x.frames.owned r vb (r3 ∙ is_root) (ground arith) v in
            let taken : has (pte_pa (pte_at n r vb)) n.free ≡ false =
              ground (arith, x.tables.spare (pte_pa (pte_at n r vb))) in
            rw same (
              is_pte,
              was_free,
              λ q. ap (λ (b : ℕ → ℕ). b q) (y.bytes (pte_pa (pte_at n r vb)) taken) ∙ zeros q,
            )
        | inr later ↦
            let (is_pte, was_free, zeros) = y.inside vb (ground arith) in
            (is_pte, x.spare (pte_pa (pte_at o r vb)) was_free, zeros)
      ];
      keeps = λ t a h v.
          let (same, _, _) = x.old t (ground arith) in
          let first = x.keeps t a h v in
          let v2 : valid (n.table t a) ≡ true = rw first v in y.keeps t a (ground arith) v2 ∙ first;
      was_root = λ s h. x.was_root s (y.was_root s h);
      linked = λ p h used le. elim (Bool-cases (k.level p == 0)) [
        | inl later ↦ y.linked p (ground arith) used le
        | inr first ↦
            let (same_p, _, _) = y.old p (ground arith) in
            let (t, a, lt, up, v, to) = x.linked p h (ground arith) (ground arith) in
            let (same_t, _, _) = y.old t (omega arith) in
            let stays = y.keeps t a (ground arith) v in
            (t, a, lt, omega arith, rw stays v, rw stays to)
      ];
      bytes = λ p h. y.bytes p (ground (arith, x.spare p)) ∙ x.bytes p h;
      spare = λ p h. x.spare p (y.spare p h);
      given = λ p h. elim (x.given p h) [
        | inl free ↦ elim (y.given p free) [
          | inl still ↦ inl still
          | inr used ↦ elim used [
            | inl table ↦ inr (inl table)
            | inr (vb, hit, e) ↦ inr (inr (vb, ground arith, e))
          ]
        ]
        | inr used ↦ elim used [
          | inl table ↦ inr (inl (ground (arith, y.old p)))
          | inr (vb, hit, e) ↦
              let same : pte_at o r vb ≡ pte_at n r vb =
                y.outside r vb (r3 ∙ is_root) (ground arith) (ground arith) in
              inr (inr (vb, ground arith, rw same e))
        ]
      ];
    }

-- One round of the loop: no page is left, or `mappages` fails, or the page is mapped.
pub data Round (end : ℕ) (l : Labels) (m : Mem) (r va perm : ℕ) : Type 0 where
  out_of_memory : take_page m ≡ none → Round end l m r va perm
  not_mapped :
      (p : ℕ) (f n : Mem) (k : Labels)
      → take_page m ≡ some (p, f)
      → mappages r va page_size p perm (clear_page p f) ≡ ok (false, n)
      → kfree end p n.free ≡ ok (p ∷ n.free)
      → Alloced end l m r va 0 perm k (record n { free = p ∷ n.free })
      → Round end l m r va perm
  is_mapped :
      (p : ℕ) (f n : Mem) (k : Labels)
      → take_page m ≡ some (p, f)
      → mappages r va page_size p perm (clear_page p f) ≡ ok (true, n)
      → Alloced end l m r va 1 perm k n
      → Round end l m r va perm

pub alloc-Round :
    (end : ℕ) (l : Labels) (m : Mem) (r va perm : ℕ)
    → Tables end l m
    → Frames end l m
    → l.level r ≡ 3
    → va % page_size ≡ 0
    → va + page_size ≤ trapframe
    → perm < 1024
    → Unmapped m r va 1
    → Round end l m r va perm
alloc-Round end l m r va perm tables frames is_root aligned fits small free =
    let lt : va < trapframe = omega arith in
    elim (take_page_lem end m tables.free) [
      | inl full ↦ out_of_memory full
      | inr (p, f, taken, page) ↦
          let t =
            cleared-Tables end l m r va p perm f tables frames is_root lt aligned page small in
          let clear : Unmapped (clear_page p f) r va 1 = λ vb from to.
            let same =
              cleared-pte end l m r va p perm f tables frames is_root lt aligned page small r vb in
            rw same (free vb from to) in
          let (done, n, e, a) =
            mappages_lem end l (clear_page p f) r va 1 p perm t is_root aligned (omega arith)
              (omega arith) clear in
          elim (Bool-cases done) [
            | inl yes_ ↦
                let all : a.j ≡ 1 = a.whole yes_ in
                is_mapped p f n
                  (own end l m r va p perm f tables frames is_root lt aligned page small a.k) taken
                  (rw yes_ at e)
                  (granted end l m r va p perm f tables frames is_root lt aligned page small a.k n
                    (rw all at a.mapped))
            | inr no_ ↦
                let nothing : a.j ≡ 0 = elim a.all [
                  | inl d ↦ absurd (cc (d, no_))
                  | inr less ↦ omega arith
                ] in
                let g =
                  refused end l m r va p perm f tables frames is_root lt aligned page small a.k n
                    (rw nothing at a.mapped) in
                not_mapped p f n a.k taken (rw no_ at e) (kfree-ok end p n.free page.page) g
          ]
    ]
