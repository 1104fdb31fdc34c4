-- ===== src/Vm/Map.antt =====
-- The address spaces of kernel/vm.c after one round of the loop of `mappages`, and after more.
use mit_operating_system_eng.Base.{
  ℕ, suc, ◌+◌, ◌-◌, ◌*◌, ◌/◌, ◌%◌, ◌≤◌, ◌<◌, ◌≡◌, refl, ◌∙◌, ◌⊎◌, inl, inr, Bool, true, false, ◌&&◌,
  Option, none, some, ltb, leb, ◌==◌, if◌then◌else◌, Bool-cases, Option-cases, ok, arith,
}
use mit_operating_system_eng.Vm.{Mem, maxva, valid, pte_of, px, set_pte, walk, page_size}
use mit_operating_system_eng.Vm.Entries.{Labels, Tables, pte_at}
use mit_operating_system_eng.Vm.Grow.{Extends, Extends-trans}
use mit_operating_system_eng.Vm.Walk.{Walked, walk_lem}
use mit_operating_system_eng.Vm.Slots.{set-Tables, set-view}

-- The address is in the `k` pages from `va` on of the address space `r`.
abbrev pub in_pages : ℕ → ℕ → ℕ → ℕ → ℕ → Bool
in_pages r va k s vb = s == r && (leb va vb && ltb vb (va + page_size * k))

-- The entry of an address in pages from `va` on that are mapped to memory from `pa` on.
abbrev pub pte_for : ℕ → ℕ → ℕ → ℕ → ℕ
pte_for va pa perm vb = pte_of (pa + (vb - va) / page_size * page_size) perm

-- The first `j` of the pages from `va` on are mapped, and no other entry has changed.
pub record Mapped (end : ℕ) (l : Labels) (m : Mem) (r va pa perm j : ℕ) (k : Labels) (n : Mem)
    : Type 0 where
  pub ext : Extends l m k n
  pub tables : Tables end k n
  pub view :
      (s vb : ℕ)
      → l.level s ≡ 3
      → vb < maxva
      → pte_at n s vb ≡ (if in_pages r va j s vb then pte_for va pa perm vb else pte_at m s vb)

Mapped-none :
    (end : ℕ) (l : Labels) (m : Mem) (r va pa perm : ℕ) (o : Option ℕ) (k : Labels) (n : Mem)
    → Walked end l m r va 2 r o k n
    → Mapped end l m r va pa perm 0 k n
Mapped-none end l m r va pa perm o k n w = record {
  ext = w.kept.ext;
  tables = w.tables;
  view = λ s vb h lt.
      let out : in_pages r va 0 s vb ≡ false = ground arith in rw out (w.kept.view s vb h lt);
}

one-page :
    (r va pa perm s vb x : ℕ)
    → va % page_size ≡ 0
    → (if s == r && (vb / 4096 == va / 4096) then pte_of pa perm else x)
      ≡ (if in_pages r va 1 s vb then pte_for va pa perm vb else x)
one-page r va pa perm s vb x aligned =
    let same : (s == r && (vb / 4096 == va / 4096)) ≡ in_pages r va 1 s vb = ground arith in
    elim (Bool-cases (in_pages r va 1 s vb)) [
      | inl hit ↦
          let here : pa + (vb - va) / page_size * page_size ≡ pa = ground arith in
          rw (same, hit, here) refl
      | inr out ↦ rw (same, out) refl
    ]

more-pages :
    (r va pa perm j s vb x : ℕ)
    → (if in_pages r (va + page_size) j s vb
        then pte_for (va + page_size) (pa + page_size) perm vb
        else if in_pages r va 1 s vb
        then pte_for va pa perm vb
        else x)
      ≡ (if in_pages r va (suc j) s vb then pte_for va pa perm vb else x)
more-pages r va pa perm j s vb x = elim (Bool-cases (in_pages r (va + page_size) j s vb)) [
  | inl hit ↦
      let all : in_pages r va (suc j) s vb ≡ true = ground arith in
      let place : pa + page_size + (vb - (va + page_size)) / page_size * page_size
          ≡ pa + (vb - va) / page_size * page_size =
        ground arith in
      rw (hit, all, place) refl
  | inr out ↦
      let rest : in_pages r va 1 s vb ≡ in_pages r va (suc j) s vb = ground arith in
      rw (out, rest) refl
]

-- One round of the loop.
module _ (end : ℕ) (l : Labels) (m : Mem) (r va pa perm : ℕ) (is_root : l.level r ≡ 3)
    (lt : va < maxva) (aligned : va % page_size ≡ 0) where
  Mapped-one :
      (u : ℕ) (k : Labels) (n : Mem)
      → Walked end l m r va 2 r (some u) k n
      → Mapped end l m r va pa perm 1 k (set_pte u (px 0 va) (pte_of pa perm) n)
  Mapped-one u k n w =
      let (serves, found) = w.found u refl in
      let (r3, _, _) = w.kept.ext.old r (ground arith) in
      record {
        ext = record {
          old = w.kept.ext.old;
          tables_only = w.kept.ext.tables_only;
          bytes = w.kept.ext.bytes;
          spare = w.kept.ext.spare;
          fresh = w.kept.ext.fresh;
          given = w.kept.ext.given;
          keeps = λ t i h v.
              let (same, _, _) = w.kept.ext.old t (ground arith) in
              let leaf = serves.at in let there = w.kept.ext.keeps t i h v in ground arith;
          linked = λ p h used.
              let (t, i, lt3, up, v, to) = w.kept.ext.linked p h used in
              let leaf = serves.at in
              let same : (set_pte u (px 0 va) (pte_of pa perm) n).table t i ≡ n.table t i =
                ground arith in
              (t, i, lt3, up, rw same v, rw same to);
        };
        tables = set-Tables end k n u (px 0 va) (pte_of pa perm) w.tables serves.at;
        view = λ s vb h lt2.
            let (s3, _, _) = w.kept.ext.old s (ground arith) in
            let now =
              set-view end k n r va u (pte_of pa perm) s vb w.tables (r3 ∙ is_root) lt found
                (s3 ∙ h) lt2 in
            let was = w.kept.view s vb h lt2 in
            now ∙ rw was (one-page r va pa perm s vb (pte_at m s vb) aligned);
      }

pub Mapped-more :
    (end : ℕ) (l : Labels) (m : Mem) (r va pa perm j : ℕ) (k : Labels) (n : Mem) (g : Labels)
    (o : Mem)
    → Mapped end l m r va pa perm 1 k n
    → Mapped end k n r (va + page_size) (pa + page_size) perm j g o
    → Mapped end l m r va pa perm (suc j) g o
Mapped-more end l m r va pa perm j k n g o x y = record {
  ext = Extends-trans l m k n g o x.ext y.ext;
  tables = y.tables;
  view = λ s vb h lt.
      let (s3, _, _) = x.ext.old s (ground arith) in
      let first = x.view s vb h lt in
      let next = y.view s vb (s3 ∙ h) lt in
      next ∙ rw first (more-pages r va pa perm j s vb (pte_at m s vb));
}

-- What `mappages` answers, over `pages` pages: 0 where it maps them all.
pub record Answer (end : ℕ) (l : Labels) (m : Mem) (r va pa perm pages : ℕ) (done : Bool) (n : Mem)
    : Type 0 where
  pub j : ℕ
  pub k : Labels
  pub all : (done ≡ true) ⊎ (j < pages)
  pub whole : done ≡ true → j ≡ pages
  pub mapped : Mapped end l m r va pa perm j k n

-- None of the pages is mapped.
abbrev pub Unmapped : Mem → ℕ → ℕ → ℕ → Type 0
Unmapped m r va pages =
    (vb : ℕ) → va ≤ vb → vb < va + page_size * pages → valid (pte_at m r vb) ≡ false

-- One round of the loop of `mappages`.
pub map_round :
    (end : ℕ) (l : Labels) (m : Mem) (r va pa perm : ℕ)
    → Tables end l m
    → l.level r ≡ 3
    → va % page_size ≡ 0
    → va < maxva
    → valid (pte_at m r va) ≡ false
    → ((n : Mem) × (k : Labels) × (walk r va true m ≡ ok (none, n))
        × Mapped end l m r va pa perm 0 k n)
      ⊎ ((u : ℕ) × (n : Mem) × (k : Labels) × (walk r va true m ≡ ok (some u, n))
          × (valid (n.table u (px 0 va)) ≡ false)
          × Mapped end l m r va pa perm 1 k (set_pte u (px 0 va) (pte_of pa perm) n))
map_round end l m r va pa perm tables is_root aligned lt free =
    let (o, n, k, e, w) = walk_lem end l m r va tables is_root lt in
    elim (Option-cases o) [
      | inl full ↦ inl (n, k, rw full at e, Mapped-none end l m r va pa perm o k n w)
      | inr (u, there) ↦
          let (serves, found) = w.found u there in
          let same = w.kept.view r va is_root lt in
          let clear : valid (n.table u (px 0 va)) ≡ false =
            let here : n.table u (px 0 va) ≡ pte_at m r va = rw found at same in rw here free in
          inr (
            u,
            n,
            k,
            rw there at e,
            clear,
            Mapped-one end l m r va pa perm is_root lt aligned u k n (rw there at w),
          )
    ]
