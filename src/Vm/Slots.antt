-- ===== src/Vm/Slots.antt =====
-- What a write to the last entry for an address does to the address spaces of kernel/vm.c.
use mit_operating_system_eng.Base.{
  ℕ, zero, suc, ◌/◌, ◌≤◌, ◌<◌, ◌≡◌, refl, ◌∙◌, inl, inr, false, ◌&&◌, some, ◌==◌, if◌then◌else◌,
  Bool-cases, Option-cases, arith,
}
use mit_operating_system_eng.Vm.{Mem, maxva, valid, pte_pa, px, set_pte}
use mit_operating_system_eng.Vm.Entries.{
  Labels, Tables, Serves, reach, pte_at, root-Serves, next-Serves, reach-Serves, same-slot,
}

-- The addresses of a page have the same entry.
px-page : (level va vb : ℕ) → va / 4096 ≡ vb / 4096 → level < 3 → px level va ≡ px level vb
px-page zero va vb e lt = omega arith
px-page (suc zero) va vb e lt = omega arith
px-page (suc (suc zero)) va vb e lt = omega arith
px-page (suc (suc (suc level))) va vb e lt = absurd (omega arith)

pub reach-page :
    (m : Mem) (va vb level t : ℕ)
    → va / 4096 ≡ vb / 4096
    → level ≤ 2
    → reach m va level t ≡ reach m vb level t
unfolding reach
reach-page m va vb zero t e le = refl
reach-page m va vb (suc level) t e le =
    let same = px-page (suc level) va vb e (omega arith) in
    elim (Bool-cases (valid (m.table t (px (suc level) vb)))) [
      | inl v ↦
          rw (same, v)
            (reach-page m va vb level (pte_pa (m.table t (px (suc level) vb))) e (omega arith))
      | inr bad ↦ rw (same, bad) refl
    ]

module _ (end : ℕ) (l : Labels) (m : Mem) (t i pte : ℕ) (tables : Tables end l m)
    (last : l.level t ≡ 1) where
  abbrev after : Mem
  after = set_pte t i pte m

  pub set-Tables : Tables end l after
  set-Tables = record {
    top = tables.top;
    down = λ u j up le lt v.
        let same : after.table u j ≡ m.table u j = ground arith in
        rw same (tables.down u j up le lt (rw same at v));
    free = tables.free;
    spare = tables.spare;
  }

  reach-set :
      (s vb level u : ℕ)
      → level ≤ 2
      → Serves l s vb level u
      → reach after vb level u ≡ reach m vb level u
  unfolding reach
  reach-set s vb zero u le serves = refl
  reach-set s vb (suc level) u le serves =
      let a = serves.at in
      let same : after.table u (px (suc level) vb) ≡ m.table u (px (suc level) vb) = ground arith in
      elim (Bool-cases (valid (m.table u (px (suc level) vb)))) [
        | inl v ↦
            rw (same, v)
              (reach-set s vb level (pte_pa (m.table u (px (suc level) vb))) (omega arith)
                (next-Serves end l m s vb level u tables (omega arith) serves v))
        | inr bad ↦ rw (same, bad) refl
      ]

-- Exactly the entry for the page of the address changes, in the address space of the root.
pub set-view :
    (end : ℕ) (l : Labels) (m : Mem) (r va t pte s vb : ℕ)
    → Tables end l m
    → l.level r ≡ 3
    → va < maxva
    → reach m va 2 r ≡ some t
    → l.level s ≡ 3
    → vb < maxva
    → pte_at (set_pte t (px 0 va) pte m) s vb
      ≡ (if s == r && (vb / 4096 == va / 4096) then pte else pte_at m s vb)
set-view end l m r va t pte s vb tables is_root lt found is_root2 lt2 =
    let serves =
      reach-Serves end l m r va 2 r t tables (omega arith)
        (root-Serves end l m r va tables is_root lt) found in
    let top = root-Serves end l m s vb tables is_root2 lt2 in
    let same = reach-set end l m t (px 0 va) pte tables serves.at s vb 2 s (omega arith) top in
    elim (Bool-cases (s == r && (vb / 4096 == va / 4096))) [
      | inl hit ↦
          let is_r : s ≡ r = ground arith in
          let page : vb / 4096 ≡ va / 4096 = ground arith in
          let there : reach m vb 2 s ≡ some t =
            rw is_r (reach-page m vb va 2 r page (omega arith) ∙ found) in
          rw (hit, same, there) (ground arith)
      | inr other ↦ elim (Option-cases (reach m vb 2 s)) [
        | inl missing ↦ rw (other, same, missing) refl
        | inr (u, there) ↦
            let serves_u = reach-Serves end l m s vb 2 s u tables (omega arith) top there in
            let apart : (t == u && (px 0 va == px 0 vb)) ≡ false =
              elim (Bool-cases (t == u && (px 0 va == px 0 vb))) [
                | inr no_ ↦ no_
                | inl hit ↦
                    let is_u : u ≡ t = ground arith in
                    let (x, y) =
                      same-slot l s vb r va t (rw is_u at serves_u) serves (ground arith) in
                    absurd (ground arith)
              ] in
            rw (other, same, there) (ground arith)
      ]
    ]
