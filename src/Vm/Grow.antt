-- ===== src/Vm/Grow.antt =====
-- `follow`, the step of `walk` in kernel/vm.c that allocates a page-table page: what it leaves of the
-- entries of all address spaces.
use mit_operating_system_eng.Base.{
  sym, ap, ℕ, zero, suc, ◌+◌, ◌-◌, ◌*◌, ◌%◌, ◌≤◌, ◌<◌, ◌≡◌, ◌≢◌, refl, ◌∙◌, ◌⊎◌, inl, inr, true,
  false, ◌&&◌, none, some, List, [], ◌∷◌, ◌==◌, if◌then◌else◌, Bool-cases, has, arith,
}
use mit_operating_system_eng.Kalloc.{kalloc}
use mit_operating_system_eng.Kalloc.Pages.{IsFree, is_page}
use mit_operating_system_eng.Vm.{
  Mem, maxva, valid, pte_pa, pte_of, px, set_pte, clear_table, take_page,
}
use mit_operating_system_eng.Vm.Entries.{
  Linked, Labels, Tables, Serves, reach, entry, pte_at, root-Serves, next-Serves,
}

-- What a call of `kalloc` leaves.
pub record Page (end : ℕ) (m : Mem) (p : ℕ) (n : Mem) : Type 0 where
  pub table : n.table ≡ m.table
  pub byte : n.byte ≡ m.byte
  pub page : is_page end p ≡ true
  pub was_free : has p m.free ≡ true
  pub taken : has p n.free ≡ false
  pub spare : (q : ℕ) → has q n.free ≡ true → has q m.free ≡ true
  pub others : (q : ℕ) → has q m.free ≡ true → (q ≡ p) ⊎ (has q n.free ≡ true)
  pub free : IsFree end n.free

taken :
    (end : ℕ) (m : Mem) (l : List ℕ)
    → m.free ≡ l
    → IsFree end l
    → (take_page m ≡ none) ⊎ ((p : ℕ) × (n : Mem) × (take_page m ≡ some (p, n)) × Page end m p n)
unfolding take_page kalloc
taken end m [] e f = inl (rw e refl)
taken end m (p ∷ ps) e f = inr (
  p,
  record m { free = ps },
  rw e refl,
  record {
    table = refl;
    byte = refl;
    page = f.pages.0;
    was_free = rw e (ground arith);
    taken = f.distinct.0;
    spare = λ q h. rw e (ground arith);
    others = λ q h. let was : has q (p ∷ ps) ≡ true = rw e at h in ground arith;
    free = record { pages = f.pages.1; distinct = f.distinct.1 };
  },
)

pub take_page_lem :
    (end : ℕ) (m : Mem)
    → IsFree end m.free
    → (take_page m ≡ none) ⊎ ((p : ℕ) × (n : Mem) × (take_page m ≡ some (p, n)) × Page end m p n)
take_page_lem end m f = taken end m m.free refl f

-- A step only takes pages off the free list, and gives them new labels, those of page tables.
pub record Extends (l : Labels) (m : Mem) (k : Labels) (n : Mem) : Type 0 where
  pub old :
      (p : ℕ)
      → l.level p ≢ 0
      → (k.level p ≡ l.level p) × (k.prefix p ≡ l.prefix p) × (k.root p ≡ l.root p)
  pub tables_only : (p : ℕ) → l.level p ≡ 0 → k.level p ≤ 2
  pub bytes : n.byte ≡ m.byte
  pub spare : (p : ℕ) → has p n.free ≡ true → has p m.free ≡ true
  pub fresh : (p : ℕ) → l.level p ≡ 0 → has p m.free ≡ false → k.level p ≡ 0
  pub given : (p : ℕ) → has p m.free ≡ true → (has p n.free ≡ true) ⊎ (0 < k.level p)
  pub keeps : (t i : ℕ) → 2 ≤ l.level t → valid (m.table t i) ≡ true → n.table t i ≡ m.table t i
  -- A new page of page tables is linked to those above it.
  pub linked : (p : ℕ) → l.level p ≡ 0 → 0 < k.level p → Linked k n p

pub Extends-refl : (l : Labels) (m : Mem) → Extends l m l m
Extends-refl l m = record {
  old = λ p h. (refl, refl, refl);
  tables_only = λ p h. ground arith;
  bytes = refl;
  spare = λ p h. h;
  fresh = λ p h f. h;
  given = λ p h. inl h;
  keeps = λ t i h v. refl;
  linked = λ p h used. absurd (omega arith);
}

pub Extends-trans :
    (l : Labels) (m : Mem) (k : Labels) (n : Mem) (j : Labels) (o : Mem)
    → Extends l m k n
    → Extends k n j o
    → Extends l m j o
Extends-trans l m k n j o x y = record {
  old = λ p h. ground (arith, x.old p h, y.old p);
  tables_only = λ p h. ground (arith, x.tables_only p h, y.tables_only p, y.old p);
  bytes = y.bytes ∙ x.bytes;
  spare = λ p h. x.spare p (y.spare p h);
  fresh = λ p h f. y.fresh p (x.fresh p h f) (ground (arith, x.spare p));
  given = λ p h. elim (x.given p h) [
    | inl still ↦ y.given p still
    | inr used ↦ inr (ground (arith, y.old p))
  ];
  keeps = λ t i h v.
      let (same, _, _) = x.old t (ground arith) in
      let first = x.keeps t i h v in
      let v2 : valid (n.table t i) ≡ true = rw first v in y.keeps t i (ground arith) v2 ∙ first;
  linked = λ p h used. elim (Bool-cases (k.level p == 0)) [
    | inl later ↦ y.linked p (ground arith) used
    | inr first ↦
        let (t, i, lt, up, v, to) = x.linked p h (ground arith) in
        let (same_p, _, _) = y.old p (ground arith) in
        let (same_t, _, _) = y.old t (omega arith) in
        let stays = y.keeps t i (ground arith) v in
        (t, i, lt, same_t ∙ (up ∙ ap (λ (a : ℕ). a + 1) (sym same_p)), rw stays v, rw stays to)
  ];
}

-- It keeps the entries that the address spaces have.
pub record Kept (l : Labels) (m : Mem) (k : Labels) (n : Mem) : Type 0 where
  pub ext : Extends l m k n
  pub stays : (t i : ℕ) → l.level t ≢ 0 → valid (m.table t i) ≡ true → n.table t i ≡ m.table t i
  pub view : (r va : ℕ) → l.level r ≡ 3 → va < maxva → pte_at n r va ≡ pte_at m r va

pub Kept-refl : (l : Labels) (m : Mem) → Kept l m l m
Kept-refl l m = record { ext = Extends-refl l m; stays = λ t i h v. refl; view = λ r va h lt. refl }

pub Kept-trans :
    (l : Labels) (m : Mem) (k : Labels) (n : Mem) (j : Labels) (o : Mem)
    → Kept l m k n
    → Kept k n j o
    → Kept l m j o
Kept-trans l m k n j o x y = record {
  ext = Extends-trans l m k n j o x.ext y.ext;
  stays = λ t i h v.
      let first = x.stays t i h v in
      let (same, _, _) = x.ext.old t h in y.stays t i (ground arith) (rw first v) ∙ first;
  view = λ r va h lt.
      let (same, _, _) = x.ext.old r (ground arith) in y.view r va (same ∙ h) lt ∙ x.view r va h lt;
}

-- The labels after page `p` has become the table behind entry `i` of page `t`.
abbrev pub relabel : Labels → ℕ → ℕ → ℕ → Labels
relabel l p t i = record {
  level = λ q. if p == q then l.level t - 1 else l.level q;
  prefix = λ q. if p == q then l.prefix t * 512 + i else l.prefix q;
  root = λ q. if p == q then l.root t else l.root q;
}

empty : (va level p : ℕ) (m : Mem) → m.table p ≡ (λ i. 0) → entry m va (reach m va level p) ≡ 0
unfolding reach
empty va zero p m e = rw e refl
empty va (suc level) p m e = rw e refl

-- `follow` has put the new page `p` behind entry `i` of page `t`, which was not valid.
module _ (end : ℕ) (l : Labels) (m n : Mem) (p t i : ℕ) (tables : Tables end l m)
    (same : n.table ≡ m.table) (is_page : p % 4096 ≡ 0) (fresh : l.level p ≡ 0)
    (high : 2 ≤ l.level t) (low : l.level t ≤ 3) (bad : valid (m.table t i) ≡ false) where
  abbrev pub grown : Mem
  grown = set_pte t i (pte_of p 0) (clear_table p n)

  grown-table :
      (u j : ℕ) → u ≢ p → grown.table u j ≡ (if t == u && i == j then pte_of p 0 else m.table u j)
  grown-table u j h = rw same (ground arith)

  -- What a walk finds from a page of before is what it found.
  grown-view :
      (s va level u : ℕ)
      → level ≤ 2
      → Serves l s va level u
      → entry grown va (reach grown va level u) ≡ entry m va (reach m va level u)
  unfolding reach
  grown-view s va zero u le serves =
      let a = serves.at in grown-table u (px 0 va) (ground arith) ∙ ground arith
  grown-view s va (suc level) u le serves =
      let a = serves.at in
      let here = grown-table u (px (suc level) va) (ground arith) in
      elim (Bool-cases (t == u && i == px (suc level) va)) [
        | inl new ↦
            let is_t : t ≡ u = ground arith in
            let is_i : i ≡ px (suc level) va = ground arith in
            let shut : valid (m.table u (px (suc level) va)) ≡ false = rw (is_t, is_i) at bad in
            let lead : grown.table u (px (suc level) va) ≡ pte_of p 0 = rw new at here in
            let open_ : valid (pte_of p 0) ≡ true = ground arith in
            let to : pte_pa (pte_of p 0) ≡ p = omega arith in
            rw (lead, open_, to, shut) (empty va level p grown (ground arith))
        | inr other ↦
            let keep : grown.table u (px (suc level) va) ≡ m.table u (px (suc level) va) =
              rw other at here in
            elim (Bool-cases (valid (m.table u (px (suc level) va)))) [
              | inl v ↦
                  rw (keep, v)
                    (grown-view s va level (pte_pa (m.table u (px (suc level) va))) (omega arith)
                      (next-Serves end l m s va level u tables (omega arith) serves v))
              | inr shut ↦ rw (keep, shut) refl
            ]
      ]

  pub grown-Kept :
      i < 512
      → n.byte ≡ m.byte
      → has p m.free ≡ true
      → ((q : ℕ) → has q n.free ≡ true → has q m.free ≡ true)
      → ((q : ℕ) → has q m.free ≡ true → (q ≡ p) ⊎ (has q n.free ≡ true))
      → Kept l m (relabel l p t i) grown
  grown-Kept in_page bytes was_free spare others = record {
    ext = record {
      old = λ q h. ground arith;
      tables_only = λ q h. ground arith;
      bytes = bytes;
      spare = spare;
      fresh = λ q h f. ground arith;
      given = λ q h. elim (others q h) [ inl is_p ↦ inr (ground arith) | inr still ↦ inl still ];
      keeps = λ u j h v. grown-table u j (ground arith) ∙ ground arith;
      linked = λ q h used.
          let is_p : q ≡ p = ground arith in
          let lead : grown.table t i ≡ pte_of p 0 = grown-table t i (ground arith) ∙ ground arith in
          let to : pte_pa (pte_of p 0) ≡ p = omega arith in
          (t, i, in_page, rw is_p (ground arith), rw lead (ground arith), rw (lead, is_p) to);
    };
    stays = λ u j h v. grown-table u j (ground arith) ∙ ground arith;
    view = λ r va is_root lt.
        grown-view r va 2 r (omega arith) (root-Serves end l m r va tables is_root lt);
  }

  pub grown-Tables :
      ((q : ℕ) → has q n.free ≡ true → has q m.free ≡ true)
      → has p n.free ≡ false
      → IsFree end n.free
      → Tables end (relabel l p t i) grown
  grown-Tables spare taken free = record {
    top = λ r h. ground (arith, tables.top r);
    down = λ u j up le lt v. elim (Bool-cases (u == p)) [
      | inl at ↦
          let is_p : u ≡ p = ground arith in
          let zero_page : grown.table p j ≡ 0 = ground arith in
          absurd (cc (rw (is_p, zero_page) at v))
      | inr other ↦
          let here = grown-table u j (ground arith) in
          elim (Bool-cases (t == u && i == j)) [
            | inl new ↦
                let lead : grown.table u j ≡ pte_of p 0 = rw new at here in
                let to : pte_pa (pte_of p 0) ≡ p = omega arith in rw (lead, to) (ground arith)
            | inr old ↦
                let keep : grown.table u j ≡ m.table u j = rw old at here in
                let d = tables.down u j (ground arith) (ground arith) lt (rw keep at v) in
                rw keep (ground arith)
          ]
    ];
    free = free;
    spare = λ q h. let was = tables.spare q (spare q h) in ground arith;
  }
