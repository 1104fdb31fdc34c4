-- ===== src/Vm/Walk.antt =====
-- `walk` of kernel/vm.c with allocation: the entries of all address spaces stay, and the entry for
-- the address is there.
use mit_operating_system_eng.Base.{
  ℕ, zero, suc, ◌%◌, ◌≤◌, ◌<◌, ◌≡◌, refl, sym, ◌∙◌, ◌⊎◌, inl, inr, true, false, Option, none, some,
  leb, Bool-cases, some-injective, ok, arith,
}
use mit_operating_system_eng.Vm.{
  Mem, maxva, valid, pte_pa, pte_of, px, set_pte, clear_table, take_page, descend, follow, walk,
}
use mit_operating_system_eng.Vm.Entries.{
  Labels, Tables, Serves, reach, root-Serves, next-Serves, follow-valid,
}
use mit_operating_system_eng.Vm.Grow.{
  take_page_lem, Kept, Kept-refl, Kept-trans, relabel, grown-Kept, grown-Tables,
}

-- What a walk from page `t`, `level` levels up, leaves, where it answers `o`.
pub record Walked (end : ℕ) (l : Labels) (m : Mem) (r va level t : ℕ) (o : Option ℕ) (k : Labels)
    (n : Mem) : Type 0 where
  pub kept : Kept l m k n
  pub tables : Tables end k n
  pub found : (u : ℕ) → o ≡ some u → Serves k r va 0 u × (reach n va level t ≡ some u)

follow-take :
    (t i p : ℕ) (m n : Mem)
    → valid (m.table t i) ≡ false
    → take_page m ≡ some (p, n)
    → follow true t i m ≡ some (p, set_pte t i (pte_of p 0) (clear_table p n))
unfolding follow
follow-take t i p m n bad e = rw (bad, e) refl

follow-full :
    (t i : ℕ) (m : Mem)
    → valid (m.table t i) ≡ false
    → take_page m ≡ none
    → follow true t i m ≡ none
unfolding follow
follow-full t i m bad e = rw (bad, e) refl

-- The walk has got from page `t` to page `u`, one level down.
record Stepped (end : ℕ) (l : Labels) (m : Mem) (r va level t u : ℕ) (k : Labels) (n : Mem)
    : Type 0 where
  kept : Kept l m k n
  tables : Tables end k n
  serves : Serves k r va level u
  is_valid : valid (n.table t (px (suc level) va)) ≡ true
  leads : pte_pa (n.table t (px (suc level) va)) ≡ u

follow_lem :
    (end : ℕ) (l : Labels) (m : Mem) (r va level t : ℕ)
    → Tables end l m
    → level < 2
    → Serves l r va (suc level) t
    → (follow true t (px (suc level) va) m ≡ none)
      ⊎ ((u : ℕ) × (n : Mem) × (k : Labels) × (follow true t (px (suc level) va) m ≡ some (u, n))
          × Stepped end l m r va level t u k n)
follow_lem end l m r va level t tables lt serves =
    let i = px (suc level) va in
    let a = serves.at in
    elim (Bool-cases (valid (m.table t i))) [
      | inl v ↦ inr (
        pte_pa (m.table t i),
        m,
        l,
        follow-valid true t i m v,
        record {
          kept = Kept-refl l m;
          tables = tables;
          serves = next-Serves end l m r va level t tables lt serves v;
          is_valid = v;
          leads = refl;
        },
      )
      | inr bad ↦ elim (take_page_lem end m tables.free) [
        | inl full ↦ inl (follow-full t i m bad full)
        | inr (p, free, taken, page) ↦
            let is_page : p % 4096 ≡ 0 = let h = page.page in ground arith in
            let fresh = tables.spare p page.was_free in
            let n = set_pte t i (pte_of p 0) (clear_table p free) in
            let k = relabel l p t i in
            let is_new : n.table t i ≡ pte_of p 0 = ground arith in
            let v : valid (n.table t i) ≡ true = rw is_new (ground arith) in
            let to : pte_pa (n.table t i) ≡ p = rw is_new (omega arith) in
            let all =
              grown-Tables end l m free p t i tables page.table is_page fresh (omega arith)
                (omega arith) bad page.spare page.taken page.free in
            let kept =
              grown-Kept end l m free p t i tables page.table is_page fresh (omega arith)
                (omega arith) bad (omega arith) page.byte page.was_free page.spare page.others in
            let again : Serves k r va (suc level) t = record {
              at = ground arith;
              prefix = ground (arith, serves.prefix);
              root = ground (arith, serves.root);
            } in
            let under = next-Serves end k n r va level t all lt again v in
            inr (
              p,
              n,
              k,
              follow-take t i p m free bad taken,
              record {
                kept = kept;
                tables = all;
                serves = rw to at under;
                is_valid = v;
                leads = to;
              },
            )
      ]
    ]

reach-valid :
    (va level t u : ℕ) (m : Mem)
    → valid (m.table t (px (suc level) va)) ≡ true
    → pte_pa (m.table t (px (suc level) va)) ≡ u
    → reach m va (suc level) t ≡ reach m va level u
unfolding reach
reach-valid va level t u m v to = rw (v, to) refl

descend_lem :
    (end : ℕ) (l : Labels) (m : Mem) (r va level t : ℕ)
    → Tables end l m
    → level ≤ 2
    → Serves l r va level t
    → (o : Option ℕ) × (n : Mem) × (k : Labels) × (descend true va level t m ≡ (o, n))
      × Walked end l m r va level t o k n
unfolding descend reach
descend_lem end l m r va zero t tables le serves = (
  some t,
  m,
  l,
  refl,
  record {
    kept = Kept-refl l m;
    tables = tables;
    found = λ u e. let same : t ≡ u = some-injective e in rw (sym same) (serves, refl);
  },
)
descend_lem end l m r va (suc level) t tables le serves =
    let a = serves.at in
    elim (follow_lem end l m r va level t tables (omega arith) serves) [
      | inl stop ↦ (
        none,
        m,
        l,
        rw (descend, stop) refl,
        record { kept = Kept-refl l m; tables = tables; found = λ u f. absurd (cc f) },
      )
      | inr (u, n1, k1, step, s) ↦
          let (o, n, k, e, w) =
            descend_lem end k1 n1 r va level u s.tables (omega arith) s.serves in
          let (same, _, _) = s.kept.ext.old t (ground arith) in
          let stays = w.kept.stays t (px (suc level) va) (ground arith) s.is_valid in
          let there = reach-valid va level t u n (rw stays s.is_valid) (rw stays s.leads) in
          (
            o,
            n,
            k,
            rw (descend, step) e,
            record {
              kept = Kept-trans l m k1 n1 k n s.kept w.kept;
              tables = w.tables;
              found = λ q f. let (x, h) = w.found q f in (x, there ∙ h);
            },
          )
    ]

-- `walk` does not panic for an address below MAXVA.
pub walk_lem :
    (end : ℕ) (l : Labels) (m : Mem) (r va : ℕ)
    → Tables end l m
    → l.level r ≡ 3
    → va < maxva
    → (o : Option ℕ) × (n : Mem) × (k : Labels) × (walk r va true m ≡ ok (o, n))
      × Walked end l m r va 2 r o k n
unfolding walk
walk_lem end l m r va tables is_root lt =
    let below : leb maxva va ≡ false = ground arith in
    let (o, n, k, e, w) =
      descend_lem end l m r va 2 r tables (omega arith)
        (root-Serves end l m r va tables is_root lt) in
    (o, n, k, rw (below, e) refl, w)
