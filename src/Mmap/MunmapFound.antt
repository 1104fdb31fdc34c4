-- ===== src/Mmap/MunmapFound.antt =====
-- The outcomes of `sys_munmap` of kernel/sysproc.c where there is a region to unmap.
use mit_operating_system_eng.Base.{
  ℕ, ◌≡◌, refl, sym, ap, ◌⊎◌, Bool, true, false, inl, inr, Option, none, some, ◌∷◌, ◌++◌,
  if◌then◌else◌, Option-cases, Outcome, ok, panic, arith,
}
use mit_operating_system_eng.Mmap.{Vma, Proc}
use mit_operating_system_eng.Mmap.Unmap.{
  Cut, Io, Found, Munmap, overlap, cut, uvmunmap_vma, fileclose, move_base, munmap_found,
}

pub uvmunmap_vma-some :
    (io : Io) (v : Vma) (addr end : ℕ) (c : Cut)
    → (uvmunmap_vma io v addr end).0 ≡ some c
    → (from : ℕ) × (to : ℕ) × (overlap v addr end ≡ some (from, to)) × (c ≡ cut v from to)
unfolding uvmunmap_vma
uvmunmap_vma-some io v addr end c e = elim (Option-cases (overlap v addr end)) [
  | inl q ↦ absurd (cc (rw (q, uvmunmap_vma) at e))
  | inr (ft, q) ↦ (ft.0, ft.1, q, ground arith)
]

-- `fileclose` changes the file alone.
fileclose-frame :
    (f : ℕ) (p q : Proc)
    → fileclose f p ≡ ok q
    → (q.sz ≡ p.sz) × (q.mmap_base ≡ p.mmap_base) × (q.vma ≡ p.vma)
unfolding fileclose
fileclose-frame f p q e = ground arith

pub close_if-frame :
    (b : Bool) (f : ℕ) (p q : Proc)
    → (if b then fileclose f p else ok p) ≡ ok q
    → (q.sz ≡ p.sz) × (q.mmap_base ≡ p.mmap_base) × (q.vma ≡ p.vma)
close_if-frame true f p q e = fileclose-frame f p q e
close_if-frame false f p q e = (cc e, cc e, cc e)

pub ok-eq : {A : Type 0} {a b : A} → ok a ≡ ok b → a ≡ b
ok-eq e = cc

-- The process after `munmap_found`: as it was, or with the region cut.
pub munmap_found-ok :
    (io : Io) (addr end : ℕ) (r : Found) (p : Proc) (d : Munmap)
    → munmap_found io addr end r p ≡ ok d
    → (d.proc ≡ p)
      ⊎ ((c : Cut) × ((uvmunmap_vma io r.hit addr end).0 ≡ some c)
          × (q : Proc) × ((if c.closed
                then fileclose r.hit.f (record p { vma = r.before ++ (c.left ∷ r.after) })
                else ok (record p { vma = r.before ++ (c.left ∷ r.after) }))
              ≡ ok q)
          × (d.proc ≡ move_base addr end q))
unfolding munmap_found
munmap_found-ok io addr end r p d e = go (uvmunmap_vma io r.hit addr end).0 refl e
  where
    closing : Cut → Outcome Proc
    closing c =
        if c.closed
        then fileclose r.hit.f (record p { vma = r.before ++ (c.left ∷ r.after) })
        else ok (record p { vma = r.before ++ (c.left ∷ r.after) })

    after :
        (c : Cut) (o : Outcome Proc)
        → closing c ≡ o
        → (elim o [
          | panic ↦ panic
          | ok q ↦ ok (record {
            result = true;
            proc = move_base addr end q;
            unmapped = some c;
            writes = (uvmunmap_vma io r.hit addr end).1;
          })
        ])
          ≡ ok d
        → (q : Proc) × (closing c ≡ ok q) × (d.proc ≡ move_base addr end q)
    after c panic w x = absurd (cc x)
    after c (ok q) w x = (q, w, sym (ap (λ (m : Munmap). m.proc) (ok-eq x)))

    go :
        (o : Option Cut)
        → (uvmunmap_vma io r.hit addr end).0 ≡ o
        → (elim o [
          | none ↦ ok (record {
            result = false;
            proc = p;
            unmapped = none;
            writes = (uvmunmap_vma io r.hit addr end).1;
          })
          | some c ↦ elim (closing c) [
            | panic ↦ panic
            | ok q ↦ ok (record {
              result = true;
              proc = move_base addr end q;
              unmapped = some c;
              writes = (uvmunmap_vma io r.hit addr end).1;
            })
          ]
        ])
          ≡ ok d
        → (d.proc ≡ p)
          ⊎ ((c : Cut) × ((uvmunmap_vma io r.hit addr end).0 ≡ some c)
              × (q : Proc) × (closing c ≡ ok q)
              × (d.proc ≡ move_base addr end q))
    go none w x = inl (sym (ap (λ (m : Munmap). m.proc) (ok-eq x)))
    go (some c) w x = let (q, y, z) = after c (closing c) refl x in inr (c, w, q, y, z)
