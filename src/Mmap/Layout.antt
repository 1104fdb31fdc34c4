-- ===== src/Mmap/Layout.antt =====
-- `sys_mmap` of kernel/sysproc.c keeps the regions of a process apart.
use mit_operating_system_eng.Base.{
  ℕ, ◌+◌, ◌-◌, ◌%◌, ◌^◌, ◌≤◌, ◌<◌, ◌≡◌, ◌≢◌, refl, update, true, false, not, ◌&&◌, ◌||◌, inl, inr,
  none, some, List, [], ◌∷◌, length, set, All, ltb, leb, ◌==◌, if◌then◌else◌, Bool-cases, Outcome,
  ok, panic, arith,
}
use mit_operating_system_eng.Mmap.{
  Vma, Proc, page_size, trapframe, round_len, page_down, can_read, can_write, is_shared, find_free,
  fd_file, place, sys_mmap,
}
use mit_operating_system_eng.Mmap.Region.{
  clash, fits, Layout, All-set, Disjoint-set, Fits-mono, clear_below,
}

-- A positive length that can be rounded up to pages within an `int`.
abbrev pub IsLength : ℕ → Type 0
IsLength len = (0 < len) × (len ≤ 2 ^ 31 - 4096)

abbrev pub region : ℕ → ℕ → ℕ → ℕ → ℕ → ℕ → Vma
region start len prot flags f offset = record {
  valid = true;
  start = start;
  end = start + round_len len;
  prot = prot;
  flags = flags;
  f = f;
  offset = offset;
}

-- What a successful placement at `s` has done.
pub record Placed (len prot flags f offset s : ℕ) (p p' : Proc) : Type 0 where
  pub layout : Layout p'
  pub below : s + round_len len ≡ p.mmap_base
  pub enough : len ≤ round_len len
  pub base : p'.mmap_base ≡ s
  pub slot : p'.vma ≡ set p.vma (find_free p.vma) (region s len prot flags f offset)
  pub there_is_one : find_free p.vma < length p.vma
  pub unmapped : All (λ w. clash (region s len prot flags f offset) w ≡ false) p.vma
  pub same_sz : p'.sz ≡ p.sz
  pub counted : (p'.files f).ref ≡ (p.files f).ref + 1

round_len-positive :
    (len : ℕ)
    → IsLength len
    → (round_len len % page_size ≡ 0) × (len ≤ round_len len) × (round_len len < 2 ^ 31)
round_len-positive len h = ground arith

pub find_free-le : (vs : List Vma) → find_free vs ≤ length vs
unfolding find_free
find_free-le [] = omega arith
find_free-le (v ∷ vs) = ground (arith, find_free-le vs)

abbrev pub new_start : ℕ → Proc → ℕ
new_start len p = page_down ((p.mmap_base + 2 ^ 64 - round_len len) % 2 ^ 64)

-- An accepted start lies just below `mmap_base`: the subtraction has not wrapped.
new_start_lem :
    (len : ℕ) (p : Proc)
    → IsLength len
    → p.mmap_base ≤ trapframe
    → p.mmap_base % page_size ≡ 0
    → (ltb (new_start len p) p.sz || leb trapframe (new_start len p)) ≡ false
    → (new_start len p + round_len len ≡ p.mmap_base)
      × (p.sz ≤ new_start len p)
      × ((new_start len p + round_len len) % 2 ^ 64 ≡ new_start len p + round_len len)
      × (new_start len p % page_size ≡ 0)
new_start_lem len p h top aligned e =
    facts (round_len len) (round_len-positive len h).0 (round_len-positive len h).2 e
  where
    facts :
        (size : ℕ)
        → size % page_size ≡ 0
        → size < 2 ^ 31
        → let s = page_down ((p.mmap_base + 2 ^ 64 - size) % 2 ^ 64) in
          (ltb s p.sz || leb trapframe s) ≡ false
          → (s + size ≡ p.mmap_base)
            × (p.sz ≤ s)
            × ((s + size) % 2 ^ 64 ≡ s + size)
            × (s % page_size ≡ 0)
    facts size q r e = ground arith

-- Where the placement succeeds, and what it then returns.
place-eq_some :
    (len prot flags f offset s : ℕ) (p p' : Proc)
    → IsLength len
    → p.mmap_base ≤ trapframe
    → p.mmap_base % page_size ≡ 0
    → place len prot flags f offset p ≡ ok (some s, p')
    → (s ≡ new_start len p)
      × ((ltb (new_start len p) p.sz || leb trapframe (new_start len p)) ≡ false)
      × (find_free p.vma ≢ length p.vma)
      × ((p.files f).ref ≢ 0)
      × (p' ≡ record p {
        files = update p.files f (record (p.files f) { ref = (p.files f).ref + 1 });
        vma = set p.vma (find_free p.vma) (region (new_start len p) len prot flags f offset);
        mmap_base = new_start len p;
      })
unfolding place
place-eq_some len prot flags f offset s p p' h top aligned e =
    elim (Bool-cases (ltb (new_start len p) p.sz || leb trapframe (new_start len p))) [
      | inl bad ↦ absurd (cc (rw bad at e))
      | inr good ↦ elim (Bool-cases (find_free p.vma == length p.vma)) [
        | inl full ↦ absurd (cc (rw (good, full) at e))
        | inr room ↦ elim (Bool-cases ((p.files f).ref == 0)) [
          | inl closed ↦ absurd (cc (rw (good, room, closed) at e))
          | inr counted ↦
              let q = rw (good, room, counted, (new_start_lem len p h top aligned good).2) at e in
              (cc q, good, ground arith, ground arith, cc q)
        ]
      ]
    ]

place-Placed :
    (len prot flags f offset s : ℕ) (p p' : Proc)
    → IsLength len
    → Layout p
    → place len prot flags f offset p ≡ ok (some s, p')
    → Placed len prot flags f offset s p p'
place-Placed len prot flags f offset s p p' h layout e =
    let (at, good, room, counted, same) =
      place-eq_some len prot flags f offset s p p' h layout.top layout.aligned e in
    let (below, heap, wraps, aligned) = new_start_lem len p h layout.top layout.aligned good in
    let (even, enough, small) = round_len-positive len h in
    let free = find_free-le p.vma in
    let v = region (new_start len p) len prot flags f offset in
    let clear = clear_below p.mmap_base v p.vma (omega arith) layout.regions in
    let top : p.mmap_base ≤ trapframe = layout.top in
    let whole : p.mmap_base % page_size ≡ 0 = layout.aligned in
    let size : 0 < len = h.0 in
    rw (at, same)
      (record {
        layout = record {
          heap = heap;
          top = omega arith;
          aligned = aligned;
          regions =
              All-set _ p.vma (find_free p.vma) v
                (Fits-mono p.mmap_base (new_start len p) p.vma (omega arith) layout.regions)
                (fits_new (new_start len p) (round_len len) p.mmap_base below (omega arith) top
                  aligned whole);
          apart = Disjoint-set p.vma (find_free p.vma) v layout.apart clear;
        };
        below = below;
        enough = enough;
        base = refl;
        slot = refl;
        there_is_one = omega arith;
        unmapped = clear;
        same_sz = refl;
        counted = ground arith;
      })
  where
    fits_new :
        (s size base : ℕ)
        → s + size ≡ base
        → 0 < size
        → base ≤ trapframe
        → s % page_size ≡ 0
        → base % page_size ≡ 0
        → fits s (record {
          valid = true;
          start = s;
          end = s + size;
          prot = prot;
          flags = flags;
          f = f;
          offset = offset;
        })
          ≡ true
    fits_new s size base e pos top q r = ground arith

-- Which calls `sys_mmap` accepts.
pub sys_mmap-eq_some :
    (addr len prot flags fd offset s : ℕ) (p p' : Proc)
    → sys_mmap addr len prot flags fd offset p ≡ ok (some s, p')
    → (f : ℕ) × (fd_file fd p ≡ ok f)
      × (addr ≡ 0)
      × (len ≢ 0)
      × ((can_read prot && not (p.files f).readable) ≡ false)
      × ((can_write prot && not (p.files f).writable && is_shared flags) ≡ false)
      × (place len prot flags f offset p ≡ ok (some s, p'))
unfolding sys_mmap
sys_mmap-eq_some addr len prot flags fd offset s p p' e = accept (fd_file fd p) refl e
  where
    accept :
        (o : Outcome ℕ)
        → fd_file fd p ≡ o
        → (if len == 0 || not (addr == 0) then ok (none, p) else elim o [
          | panic ↦ panic
          | ok f ↦
              if can_read prot && not (p.files f).readable
              then ok (none, p)
              else if can_write prot && not (p.files f).writable && is_shared flags
              then ok (none, p)
              else place len prot flags f offset p
        ])
          ≡ ok (some s, p')
        → (f : ℕ) × (fd_file fd p ≡ ok f)
          × (addr ≡ 0)
          × (len ≢ 0)
          × ((can_read prot && not (p.files f).readable) ≡ false)
          × ((can_write prot && not (p.files f).writable && is_shared flags) ≡ false)
          × (place len prot flags f offset p ≡ ok (some s, p'))
    accept panic q r = absurd (ground arith)
    accept (ok f) q r = (f, q, ground arith, ground arith, ground arith, ground arith, ground arith)

-- A successful `sys_mmap` of a positive length puts a region of whole pages, at least as long,
-- directly below the lowest address that was mapped. It overlaps neither the heap nor any region,
-- takes a slot that exists, counts a reference to the file, and allows reading and shared writing
-- only where the file does; the layout stays well formed.
pub sys_mmap-Placed :
    (addr len prot flags fd offset s : ℕ) (p p' : Proc)
    → IsLength len
    → Layout p
    → sys_mmap addr len prot flags fd offset p ≡ ok (some s, p')
    → (f : ℕ) × (fd_file fd p ≡ ok f)
      × Placed len prot flags f offset s p p'
      × ((can_read prot && not (p.files f).readable) ≡ false)
      × ((can_write prot && not (p.files f).writable && is_shared flags) ≡ false)
sys_mmap-Placed addr len prot flags fd offset s p p' h layout e =
    let (f, at, zero_addr, some_len, readable, writable, placed) =
      sys_mmap-eq_some addr len prot flags fd offset s p p' e in
    (f, at, place-Placed len prot flags f offset s p p' h layout placed, readable, writable)
