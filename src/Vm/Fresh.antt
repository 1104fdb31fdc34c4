-- ===== src/Vm/Fresh.antt =====
-- The address spaces of kernel/vm.c after a round of the loop of `uvmalloc`, which maps a new page.
use mit_operating_system_eng.Base.{
  ℕ, ◌+◌, ◌-◌, ◌*◌, ◌/◌, ◌%◌, ◌≤◌, ◌<◌, ◌≡◌, ◌≢◌, refl, sym, ap, ◌∙◌, ◌⊎◌, inl, inr, true, false,
  ◌∷◌, ◌==◌, if◌then◌else◌, Bool-cases, has, arith,
}
use mit_operating_system_eng.Mmap.{trapframe}
use mit_operating_system_eng.Vm.{Mem, maxva, valid, pte_pa, pte_of, clear_page, page_size}
use mit_operating_system_eng.Vm.Entries.{Linked, Labels, Tables, pte_at}
use mit_operating_system_eng.Vm.Grow.{Page}
use mit_operating_system_eng.Vm.Map.{in_pages, pte_for, Mapped}
use mit_operating_system_eng.Vm.Unmap.{Frames, pte_at-table}

-- The `j` pages from `va` on, which were not mapped, are mapped to pages of zeros that were free.
pub record Alloced (end : ℕ) (l : Labels) (m : Mem) (r va j perm : ℕ) (k : Labels) (n : Mem)
    : Type 0 where
  pub tables : Tables end k n
  pub frames : Frames end k n
  pub old :
      (p : ℕ)
      → l.level p ≢ 0
      → (k.level p ≡ l.level p) × (k.prefix p ≡ l.prefix p) × (k.root p ≡ l.root p)
  pub outside :
      (s vb : ℕ)
      → l.level s ≡ 3
      → vb < maxva
      → in_pages r va j s vb ≡ false
      → pte_at n s vb ≡ pte_at m s vb
  pub inside :
      (vb : ℕ)
      → in_pages r va j r vb ≡ true
      → (pte_at n r vb ≡ pte_of (pte_pa (pte_at n r vb)) perm)
        × (has (pte_pa (pte_at n r vb)) m.free ≡ true)
        × ((o : ℕ) → n.byte (pte_pa (pte_at n r vb)) o ≡ 0)
  pub keeps : (t i : ℕ) → 2 ≤ l.level t → valid (m.table t i) ≡ true → n.table t i ≡ m.table t i
  -- There are no new roots, and each new page of page tables is linked to those above it.
  pub was_root : (s : ℕ) → k.level s ≡ 3 → l.level s ≡ 3
  pub linked : (p : ℕ) → l.level p ≡ 0 → 0 < k.level p → k.level p ≤ 2 → Linked k n p
  pub bytes : (p : ℕ) → has p m.free ≡ false → n.byte p ≡ m.byte p
  pub spare : (p : ℕ) → has p n.free ≡ true → has p m.free ≡ true
  -- A page that is not free any more is a page-table page or one of those.
  pub given :
      (p : ℕ)
      → has p m.free ≡ true
      → (has p n.free ≡ true)
        ⊎ (((0 < k.level p) × (k.level p ≤ 2))
            ⊎ ((vb : ℕ) × (in_pages r va j r vb ≡ true) × (pte_pa (pte_at n r vb) ≡ p)))

-- Page `p` was taken from the free list and cleared before the call of `mappages`.
module _ (end : ℕ) (l : Labels) (m : Mem) (r va p perm : ℕ) (f : Mem) (tables : Tables end l m)
    (frames : Frames end l m) (is_root : l.level r ≡ 3) (lt : va < trapframe)
    (aligned : va % page_size ≡ 0) (page : Page end m p f) (small : perm < 1024) where
  abbrev pub cleared : Mem
  cleared = clear_page p f

  pub cleared-Tables : Tables end l cleared
  cleared-Tables = record {
    top = tables.top;
    down = λ t i up le lt2 v.
        let e : f.table t i ≡ m.table t i = rw page.table refl in
        rw e (tables.down t i up le lt2 (rw e at v));
    free = page.free;
    spare = λ q h. tables.spare q (page.spare q h);
  }

  pub cleared-pte : (s vb : ℕ) → pte_at cleared s vb ≡ pte_at m s vb
  cleared-pte s vb = pte_at-table cleared m s vb page.table

  seen :
      (j : ℕ) (k : Labels) (n : Mem) (s vb : ℕ)
      → Mapped end l cleared r va p perm j k n
      → l.level s ≡ 3
      → vb < maxva
      → pte_at n s vb ≡ (if in_pages r va j s vb then pte_for va p perm vb else pte_at m s vb)
  seen j k n s vb g h lt2 = let was = cleared-pte s vb in g.view s vb h lt2 ∙ rw was refl

  bytes-kept :
      (j : ℕ) (k : Labels) (n : Mem) (q : ℕ)
      → Mapped end l cleared r va p perm j k n
      → has q m.free ≡ false
      → n.byte q ≡ m.byte q
  bytes-kept j k n q g h =
      let used = page.was_free in
      let other : (p == q) ≡ false = ground arith in
      ap (λ (b : ℕ → ℕ → ℕ). b q) g.ext.bytes ∙ rw other (ap (λ (b : ℕ → ℕ → ℕ). b q) page.byte)

  kept-table :
      (j : ℕ) (k : Labels) (n : Mem) (t i : ℕ)
      → Mapped end l cleared r va p perm j k n
      → 2 ≤ l.level t
      → valid (m.table t i) ≡ true
      → n.table t i ≡ m.table t i
  kept-table j k n t i g h v =
      let same : cleared.table t i ≡ m.table t i = rw page.table refl in
      g.ext.keeps t i h (rw same v) ∙ same

  -- A root of after was one of before.
  was-root :
      (j : ℕ) (k : Labels) (n : Mem) (s : ℕ)
      → Mapped end l cleared r va p perm j k n
      → k.level s ≡ 3
      → l.level s ≡ 3
  was-root j k n s g h = ground (arith, g.ext.tables_only s, g.ext.old s)

  -- `mappages` has failed, and the page is freed again.
  pub refused :
      (k : Labels) (n : Mem)
      → Mapped end l cleared r va p perm 0 k n
      → Alloced end l m r va 0 perm k (record n { free = p ∷ n.free })
  refused k n g =
      let zero_level = tables.spare p page.was_free in
      let still = g.ext.fresh p zero_level page.taken in
      let absent : has p n.free ≡ false = ground (arith, g.ext.spare p, page.taken) in
      record {
        tables = record {
          top = g.tables.top;
          down = g.tables.down;
          free = record {
            pages = (page.page, g.tables.free.pages);
            distinct = (absent, g.tables.free.distinct);
          };
          spare = λ q h. ground (arith, g.tables.spare q);
        };
        frames = record {
          owned = λ s vb h lt2 v.
              let h3 = was-root 0 k n s g h in
              let out : in_pages r va 0 s vb ≡ false = ground arith in
              let e : pte_at (record n { free = p ∷ n.free }) s vb ≡ pte_at m s vb =
                pte_at-table (record n { free = p ∷ n.free }) n s vb refl
                ∙ rw out at (seen 0 k n s vb g h3 (omega arith)) in
              let (a, b, c, d) = frames.owned s vb h3 lt2 (rw e at v) in
              let o = g.ext.old (pte_pa (pte_at m s vb)) (ground arith) in
              rw e (a, o.0 ∙ b, o.1 ∙ c, o.2 ∙ d);
        };
        old = g.ext.old;
        outside = λ s vb h lt2 out.
            pte_at-table (record n { free = p ∷ n.free }) n s vb refl
            ∙ rw out at (seen 0 k n s vb g h lt2);
        inside = λ vb hit. absurd (ground arith);
        keeps = λ t i h v. kept-table 0 k n t i g h v;
        was_root = λ s h. was-root 0 k n s g h;
        linked = λ q h used le. g.ext.linked q h used;
        bytes = λ q h. bytes-kept 0 k n q g h;
        spare = λ q h. ground (arith, g.ext.spare q, page.spare q, page.was_free);
        given = λ q h. elim (page.others q h) [
          | inl is_p ↦ inl (ground arith)
          | inr there ↦ elim (g.ext.given q there) [
            | inl free ↦ inl (ground arith)
            | inr used ↦ inr (inl (used, g.ext.tables_only q (tables.spare q h)))
          ]
        ];
      }

  -- The labels after the page has become memory of the address space.
  abbrev pub own : Labels → Labels
  own k = record {
    level = λ q. if p == q then 4 else k.level q;
    prefix = λ q. if p == q then va / 4096 else k.prefix q;
    root = λ q. if p == q then r else k.root q;
  }

  -- `mappages` has mapped the page.
  pub granted :
      (k : Labels) (n : Mem)
      → Mapped end l cleared r va p perm 1 k n
      → Alloced end l m r va 1 perm (own k) n
  granted k n g =
      let zero_level = tables.spare p page.was_free in
      let still = g.ext.fresh p zero_level page.taken in
      let absent : has p n.free ≡ false = ground (arith, g.ext.spare p, page.taken) in
      let is_page = page.page in
      let pte_ok : valid (pte_of p perm) ≡ true = ground arith in
      let pa_ok : pte_pa (pte_of p perm) ≡ p = ground arith in
      let zeros : n.byte p ≡ (λ o. 0) = ap (λ (b : ℕ → ℕ → ℕ). b p) g.ext.bytes ∙ ground arith in
      let here = seen 1 k n in
      record {
        tables = record {
          top = λ s h. ground (arith, g.tables.top s);
          down = λ t i up le lt2 v.
              let d = g.tables.down t i (ground arith) (ground arith) lt2 v in ground arith;
          free = g.tables.free;
          spare = λ q h. ground (arith, g.tables.spare q);
        };
        frames = record {
          owned = λ s vb h lt2 v.
              let hk : k.level s ≡ 3 = ground arith in
              let h3 = was-root 1 k n s g hk in
              let e = here s vb g h3 (omega arith) in
              elim (Bool-cases (in_pages r va 1 s vb)) [
                | inl hit ↦
                    let pos : p + (vb - va) / page_size * page_size ≡ p = ground arith in
                    let is_p : pte_at n s vb ≡ pte_of p perm = e ∙ rw (hit, pos) refl in
                    rw (is_p, pa_ok) (ground arith)
                | inr out ↦
                    let was : pte_at n s vb ≡ pte_at m s vb = rw out at e in
                    let (a, b, c, d) = frames.owned s vb h3 lt2 (rw was at v) in
                    let o = g.ext.old (pte_pa (pte_at m s vb)) (ground arith) in
                    let other : (p == pte_pa (pte_at m s vb)) ≡ false = ground arith in
                    rw (was, other) (a, o.0 ∙ b, o.1 ∙ c, o.2 ∙ d)
              ];
        };
        old = λ q h. ground (arith, g.ext.old q);
        outside = λ s vb h lt2 out. let e = here s vb g h lt2 in rw out at e;
        inside = λ vb hit.
            let e = here r vb g is_root (ground arith) in
            let pos : p + (vb - va) / page_size * page_size ≡ p = ground arith in
            let is_p : pte_at n r vb ≡ pte_of p perm = e ∙ rw (hit, pos) refl in
            rw (is_p, pa_ok) (refl, page.was_free, λ o. ap (λ (b : ℕ → ℕ). b o) zeros);
        keeps = λ t i h v. kept-table 1 k n t i g h v;
        was_root = λ s h. was-root 1 k n s g (ground arith);
        linked = λ q h used le.
            let (t, i, lt3, up, v, to) = g.ext.linked q h (ground arith) in
            (t, i, lt3, ground arith, v, to);
        bytes = λ q h. bytes-kept 1 k n q g h;
        spare = λ q h. page.spare q (g.ext.spare q h);
        given = λ q h. elim (page.others q h) [
          | inl is_p ↦
              let e = here r va g is_root (omega arith) in
              let pos : p + (va - va) / page_size * page_size ≡ p = omega arith in
              let hit : in_pages r va 1 r va ≡ true = ground arith in
              let now : pte_at n r va ≡ pte_of p perm = e ∙ rw (hit, pos) refl in
              inr (inr (va, hit, rw now (pa_ok ∙ sym is_p)))
          | inr there ↦ elim (g.ext.given q there) [
            | inl free ↦ inl free
            | inr used ↦
                let tables_only = g.ext.tables_only q (tables.spare q h) in
                inr (inl (ground arith, ground arith))
          ]
        ];
      }
