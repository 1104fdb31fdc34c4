-- ===== src/Vm/CopyPage.antt =====
-- User memory of kernel/vm.c as the bytes of address spaces, and a piece of `copyout` in it.
use mit_operating_system_eng.Base.{
  ℕ, ◌+◌, ◌-◌, ◌/◌, ◌%◌, ◌≤◌, ◌<◌, ◌≡◌, ◌≢◌, refl, sym, ap, ◌∙◌, inl, inr, Bool, true, false, not,
  ◌&&◌, Option, some, ltb, leb, ◌==◌, if◌then◌else◌, Bool-cases, Option-cases, ok, arith,
}
use mit_operating_system_eng.Mmap.{trapframe}
use mit_operating_system_eng.Vm.{
  Mem, maxva, valid, writable, is_user, pte_pa, px, page_down, page_size, walkaddr, user_page,
  fill_page, copy_piece,
}
use mit_operating_system_eng.Vm.Entries.{Labels, reach, pte_at, descend-false}
use mit_operating_system_eng.Vm.Slots.{reach-page}
use mit_operating_system_eng.Vm.Unmap.{Frames, pte_at-table}
use mit_operating_system_eng.Vm.Uvmunmap.{walk-false}

-- The byte at an address of an address space.
abbrev pub user_byte : Mem → ℕ → ℕ → ℕ
user_byte m r va = m.byte (pte_pa (pte_at m r va)) (va % page_size)

-- The process may read, and write, at an address.
abbrev pub readable_at : Mem → ℕ → ℕ → Bool
readable_at m r va = valid (pte_at m r va) && is_user (pte_at m r va)

abbrev pub writable_at : Mem → ℕ → ℕ → Bool
writable_at m r va = readable_at m r va && writable (pte_at m r va)

pub pte_at-page : (m : Mem) (r va vb : ℕ) → va / 4096 ≡ vb / 4096 → pte_at m r va ≡ pte_at m r vb
pte_at-page m r va vb e =
    let same = reach-page m va vb 2 r e (omega arith) in
    let i : px 0 va ≡ px 0 vb = omega arith in
    elim (Option-cases (reach m vb 2 r)) [
      | inl missing ↦ rw (same, missing) refl
      | inr (t, there) ↦ rw (same, there) (ap (m.table t) i)
    ]

walkaddr_lem :
    (m : Mem) (r va : ℕ)
    → va < maxva
    → readable_at m r va ≡ true
    → walkaddr r va m ≡ some (pte_pa (pte_at m r va))
unfolding walkaddr
walkaddr_lem m r va lt may =
    let below : leb maxva va ≡ false = ground arith in
    let d = descend-false m va 2 r in
    elim (Option-cases (reach m va 2 r)) [
      | inl missing ↦ absurd (cc (rw missing at may))
      | inr (t, there) ↦
          let a : (valid (m.table t (px 0 va)) && is_user (m.table t (px 0 va))) ≡ true =
            rw there at may in
          let v : not (valid (m.table t (px 0 va))) ≡ false = ground arith in
          let u : not (is_user (m.table t (px 0 va))) ≡ false = ground arith in
          rw (below, d, there, d, v, u) refl
    ]

pub user_page_lem :
    (fault : ℕ → Mem → Option ℕ × Mem) (m : Mem) (r va : ℕ)
    → va < maxva
    → readable_at m r va ≡ true
    → pte_pa (pte_at m r va) ≢ 0
    → user_page fault r va m ≡ (some (pte_pa (pte_at m r va)), m)
unfolding user_page
user_page_lem fault m r va lt may some_ =
    let test : (pte_pa (pte_at m r va) == 0) ≡ false = ground arith in
    rw (user_page, walkaddr_lem m r va lt may, test) refl

pub copy_piece_lem :
    (m : Mem) (r va pos n : ℕ) (src : ℕ → ℕ) (pa : ℕ)
    → va < maxva
    → writable_at m r (page_down va) ≡ true
    → copy_piece r va pos n src (some pa, m)
      ≡ ok (true, fill_page pa (va - page_down va) pos n src m)
unfolding copy_piece
copy_piece_lem m r va pos n src pa lt may =
    let w = walk-false m r (page_down va) (omega arith) in
    elim (Option-cases (reach m (page_down va) 2 r)) [
      | inl missing ↦ absurd (cc (rw missing at may))
      | inr (t, there) ↦
          let a : (valid (m.table t (px 0 (page_down va)))
                && is_user (m.table t (px 0 (page_down va)))
                && writable (m.table t (px 0 (page_down va))))
              ≡ true =
            rw there at may in
          let v : not (writable (m.table t (px 0 (page_down va)))) ≡ false = ground arith in
          rw (copy_piece, w, there, v) refl
    ]

-- A piece that is written to the page of an address of `r` changes just the bytes at its addresses.
pub fill_page-view :
    (end : ℕ) (l : Labels) (m : Mem) (r va pos n : ℕ) (src : ℕ → ℕ) (s vb : ℕ)
    → Frames end l m
    → l.level r ≡ 3
    → l.level s ≡ 3
    → va < trapframe
    → vb < trapframe
    → va % page_size + n ≤ page_size
    → valid (pte_at m r (page_down va)) ≡ true
    → valid (pte_at m s vb) ≡ true
    → user_byte
        (fill_page (pte_pa (pte_at m r (page_down va))) (va - page_down va) pos n src m)
        s
        vb
      ≡ (if s == r && (leb va vb && ltb vb (va + n))
          then src (pos + (vb - va))
          else user_byte m s vb)
fill_page-view end l m r va pos n src s vb frames is_root is_root2 lt lt2 fits v w =
    let pa = pte_pa (pte_at m r (page_down va)) in
    let filled = fill_page pa (va - page_down va) pos n src m in
    let same = pte_at-table filled m s vb refl in
    elim (Bool-cases (s == r && (vb / 4096 == va / 4096))) [
      | inl hit ↦
          let is_r : s ≡ r = ground arith in
          let at : pte_at m s vb ≡ pte_at m r (page_down va) =
            rw is_r (pte_at-page m r vb (page_down va) (ground arith)) in
          let self : (pa == pa) ≡ true = ground arith in
          let test : (leb (va - page_down va) (vb % page_size)
                && ltb (vb % page_size) (va - page_down va + n))
              ≡ (s == r && (leb va vb && ltb vb (va + n))) =
            ground arith in
          elim (Bool-cases (s == r && (leb va vb && ltb vb (va + n)))) [
            | inl inside ↦
                let place : pos + vb % page_size - (va - page_down va) ≡ pos + (vb - va) =
                  ground arith in
                rw (same, at, self, test, inside, place) refl
            | inr outside ↦
                rw (same, at, self, test, outside)
                  (ap (λ e. m.byte (pte_pa e) (vb % page_size)) (sym at))
          ]
      | inr out ↦
          let outside : (s == r && (leb va vb && ltb vb (va + n))) ≡ false = ground arith in
          let (_, _, a, b) = frames.owned r (page_down va) is_root (omega arith) v in
          let (_, _, c, d) = frames.owned s vb is_root2 lt2 w in
          let other : (pa == pte_pa (pte_at m s vb)) ≡ false =
            elim (Bool-cases (pa == pte_pa (pte_at m s vb))) [
              | inr no_ ↦ no_
              | inl shared ↦
                  let e : pa ≡ pte_pa (pte_at m s vb) = ground arith in
                  let is_r : s ≡ r = sym d ∙ (sym (ap l.root e) ∙ b) in
                  let is_page_ : page_down va / 4096 ≡ vb / 4096 = sym a ∙ (ap l.prefix e ∙ c) in
                  absurd (ground arith)
            ] in
          rw (same, other, outside) refl
    ]
