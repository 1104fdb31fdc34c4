-- ===== src/Vm/Entries.antt =====
-- The page tables of kernel/vm.c as a map from the pages of each address space to entries, and the
-- invariant that makes them one. A page of physical memory has a ghost label: its level (3 for
-- the root of an address space, 2 and 1 for the pages below, 4 for user memory, 0 for none of
-- these), the addresses it serves as the bits above, and its root.
use mit_operating_system_eng.Base.{
  ℕ, zero, suc, ◌+◌, ◌*◌, ◌/◌, ◌^◌, ◌≤◌, ◌<◌, ◌≡◌, refl, sym, ◌∙◌, inl, inr, Bool, true, false,
  Option, none, some, if◌then◌else◌, Bool-cases, some-injective, has, arith,
}
use mit_operating_system_eng.Kalloc.Pages.{IsFree}
use mit_operating_system_eng.Vm.{Mem, maxva, valid, pte_pa, px, descend, follow}

pub record Labels : Type 0 where
  pub level : ℕ → ℕ
  pub prefix : ℕ → ℕ
  pub root : ℕ → ℕ

-- The page-table page with the last entry for `va`, found from a page `level` levels above.
unfoldable pub reach : Mem → ℕ → ℕ → ℕ → Option ℕ
reach m va zero t = some t
reach m va (suc level) t =
    let rest = reach m va level (pte_pa (m.table t (px (suc level) va))) in
    if valid (m.table t (px (suc level) va)) then rest else none

abbrev pub entry : Mem → ℕ → Option ℕ → ℕ
entry m va none = 0
entry m va (some t) = m.table t (px 0 va)

-- The entry for an address, 0 where there is none.
abbrev pub pte_at : Mem → ℕ → ℕ → ℕ
pte_at m r va = entry m va (reach m va 2 r)

-- The bits of an address above those that index a page of the level.
abbrev pub above : ℕ → ℕ → ℕ
above level va = va / 2 ^ (21 + 9 * level)

-- Page `t` is a page-table page of root `r` that serves `va`, `level` levels above the last one.
pub record Serves (l : Labels) (r va level t : ℕ) : Type 0 where
  pub at : l.level t ≡ level + 1
  pub prefix : l.prefix t ≡ above level va
  pub root : l.root t ≡ r

pub record Tables (end : ℕ) (l : Labels) (m : Mem) : Type 0 where
  pub top : (r : ℕ) → l.level r ≡ 3 → (l.prefix r ≡ 0) × (l.root r ≡ r)
  pub down :
      (t i : ℕ)
      → 2 ≤ l.level t
      → l.level t ≤ 3
      → i < 512
      → valid (m.table t i) ≡ true
      → (l.level (pte_pa (m.table t i)) + 1 ≡ l.level t)
        × (l.prefix (pte_pa (m.table t i)) ≡ l.prefix t * 512 + i)
        × (l.root (pte_pa (m.table t i)) ≡ l.root t)
  pub free : IsFree end m.free
  pub spare : (p : ℕ) → has p m.free ≡ true → l.level p ≡ 0

-- Page `p` is behind an entry of a page one level up.
abbrev pub Linked : Labels → Mem → ℕ → Type 0
Linked l m p =
    (t : ℕ) × (i : ℕ) × (i < 512)
    × (l.level t ≡ l.level p + 1)
    × (valid (m.table t i) ≡ true)
    × (pte_pa (m.table t i) ≡ p)

above-px :
    (level va : ℕ) → level < 2 → above (suc level) va * 512 + px (suc level) va ≡ above level va
above-px zero va h = omega arith
above-px (suc zero) va h = omega arith
above-px (suc (suc level)) va h = absurd (omega arith)

-- A root serves all addresses, and a valid entry leads to a page that serves the address.
pub root-Serves :
    (end : ℕ) (l : Labels) (m : Mem) (r va : ℕ)
    → Tables end l m
    → l.level r ≡ 3
    → va < maxva
    → Serves l r va 2 r
root-Serves end l m r va tables is_root small =
    let (p, q) = tables.top r is_root in record { at = is_root; prefix = omega arith; root = q }

pub next-Serves :
    (end : ℕ) (l : Labels) (m : Mem) (r va level t : ℕ)
    → Tables end l m
    → level < 2
    → Serves l r va (suc level) t
    → valid (m.table t (px (suc level) va)) ≡ true
    → Serves l r va level (pte_pa (m.table t (px (suc level) va)))
next-Serves end l m r va level t tables lt serves v =
    let a = serves.at in
    let (x, y, z) = tables.down t (px (suc level) va) (omega arith) (omega arith) (omega arith) v in
    let up = above-px level va lt in
    record { at = omega arith; prefix = y ∙ rw (serves.prefix) up; root = z ∙ serves.root }

pub reach-Serves :
    (end : ℕ) (l : Labels) (m : Mem) (r va level t u : ℕ)
    → Tables end l m
    → level ≤ 2
    → Serves l r va level t
    → reach m va level t ≡ some u
    → Serves l r va 0 u
unfolding reach
reach-Serves end l m r va zero t u tables le serves e =
    let same : t ≡ u = some-injective e in rw (sym same) serves
reach-Serves end l m r va (suc level) t u tables le serves e =
    elim (Bool-cases (valid (m.table t (px (suc level) va)))) [
      | inl v ↦
          reach-Serves end l m r va level (pte_pa (m.table t (px (suc level) va))) u tables
            (omega arith) (next-Serves end l m r va level t tables (omega arith) serves v)
            (rw v at e)
      | inr bad ↦ absurd (cc (rw bad at e))
    ]

pub follow-valid :
    (alloc : Bool) (t i : ℕ) (m : Mem)
    → valid (m.table t i) ≡ true
    → follow alloc t i m ≡ some (pte_pa (m.table t i), m)
unfolding follow
follow-valid alloc t i m v = rw v refl

follow-false : (t i : ℕ) (m : Mem) → valid (m.table t i) ≡ false → follow false t i m ≡ none
unfolding follow
follow-false t i m bad = rw bad refl

pub descend-valid :
    (alloc : Bool) (va level t : ℕ) (m : Mem)
    → valid (m.table t (px (suc level) va)) ≡ true
    → descend alloc va (suc level) t m
      ≡ descend alloc va level (pte_pa (m.table t (px (suc level) va))) m
unfolding descend
descend-valid alloc va level t m v = rw (descend, follow-valid alloc t (px (suc level) va) m v) refl

-- Without allocation `walk` only looks.
pub descend-false :
    (m : Mem) (va level t : ℕ) → descend false va level t m ≡ (reach m va level t, m)
unfolding descend reach
descend-false m va zero t = refl
descend-false m va (suc level) t = elim (Bool-cases (valid (m.table t (px (suc level) va)))) [
  | inl v ↦
      descend-valid false va level t m v
      ∙ rw v (descend-false m va level (pte_pa (m.table t (px (suc level) va))))
  | inr bad ↦
      let stop : follow false t (px (suc level) va) m ≡ none = follow-false t _ m bad in
      rw (descend, stop, bad) refl
]

-- Two addresses with the same entry are in the same page of the same address space.
pub same-slot :
    (l : Labels) (r va s vb t : ℕ)
    → Serves l r va 0 t
    → Serves l s vb 0 t
    → px 0 va ≡ px 0 vb
    → (r ≡ s) × (va / 4096 ≡ vb / 4096)
same-slot l r va s vb t x y e =
    let p : above 0 va ≡ above 0 vb = sym x.prefix ∙ y.prefix in (sym x.root ∙ y.root, omega arith)
