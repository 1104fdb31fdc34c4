-- ===== src/Mmap/WriteBack.antt =====
-- The write-back of dirty pages by `uvmunmap_vma` of kernel/vm.c.
use mit_operating_system_eng.Base.{
  ℕ, zero, suc, ◌+◌, ◌-◌, ◌*◌, ◌%◌, ◌^◌, ◌≤◌, ◌<◌, ◌≡◌, refl, sym, min, Bool, true, false, some,
  List, [], ◌∷◌, ◌++◌, ltb, leb, ◌==◌, eqb_self, Bool-cases, inl, inr, arith,
}
use mit_operating_system_eng.Mmap.{page_size}
use mit_operating_system_eng.Mmap.Unmap.{Io, Write, max_write, write_chunks, write_pages}

-- The calls copy the bytes from address `va` on to the offsets from `off` up to `last`, in order
-- and with no gap.
pub Chain : ℕ → ℕ → ℕ → List Write → Type 0
Chain va off last [] = off ≡ last
Chain va off last (w ∷ ws) = (w.va ≡ va) × (w.off ≡ off) × Chain (va + w.n) (off + w.n) last ws

-- `writei` writes all that it is asked to.
abbrev pub Full : Io → ℕ → Type 0
Full io f = (va off n : ℕ) → io.writei f va off n ≡ some n

Chain-snoc :
    (va off last : ℕ) (ws : List Write) (w : Write)
    → Chain va off last ws
    → w.va + off ≡ va + last
    → w.off ≡ last
    → Chain va off (last + w.n) (ws ++ (w ∷ []))
unfolding Chain
Chain-snoc va off last [] w c e q = (omega (arith, c), omega (arith, c), omega (arith, c))
Chain-snoc va off last (x ∷ ws) w c e q =
    (c.0, c.1, Chain-snoc (va + x.n) (off + x.n) last ws w c.2 (omega arith) q)

Chain-to : (va off a b : ℕ) (ws : List Write) → a ≡ b → Chain va off a ws → Chain va off b ws
Chain-to va off a b ws e c = rw (sym e) c

next_pages :
    (dirty : ℕ → Bool) (b : Bool) (k addr : ℕ)
    → ((j : ℕ) → j < suc k → dirty (addr + page_size * j) ≡ b)
    → (dirty addr ≡ b) × ((j : ℕ) → j < k → dirty (addr + page_size + page_size * j) ≡ b)
next_pages dirty b k addr h =
    let first : addr ≡ addr + page_size * 0 = omega arith in
    (
      rw first (h 0 (omega arith)),
      λ j l.
          let next : addr + page_size + page_size * j ≡ addr + page_size * suc j = omega arith in
          rw next (h (suc j) (omega arith)),
    )

module _ (io : Io) (f va0 off0 : ℕ) (full : Full io f) where
  write_chunks-round :
      (va rounds i n off : ℕ) (ws : List Write)
      → i < n
      → off + min (n - i) max_write < 2 ^ 32
      → write_chunks io f va (suc rounds) i n off ws
        ≡ write_chunks io f va rounds
            (i + min (n - i) max_write)
            n
            (off + min (n - i) max_write)
            (ws ++ (record { va = va + i; off = off; n = min (n - i) max_write } ∷ []))
  unfolding write_chunks
  write_chunks-round va rounds i n off ws h small =
      let room : ltb i n ≡ true = ground arith in
      let exact : (off + min (n - i) max_write) % 2 ^ 32 ≡ off + min (n - i) max_write =
        omega arith in
      rw (room, full (va + i) off (min (n - i) max_write), eqb_self (min (n - i) max_write), exact)
        refl

  -- One round of the inner loop writes `m` bytes.
  write_chunks-step :
      (va rounds i n off m i' off' : ℕ) (ws : List Write)
      → i < n
      → off + m < 2 ^ 32
      → min (n - i) max_write ≡ m
      → i + m ≡ i'
      → off + m ≡ off'
      → write_chunks io f va (suc rounds) i n off ws
        ≡ write_chunks io f va rounds i' n off'
            (ws ++ (record { va = va + i; off = off; n = m } ∷ []))
  write_chunks-step va rounds i n off m i' off' ws h small chunk next next_off =
      rw (write_chunks-round va rounds i n off ws h (omega arith), chunk, next, next_off) refl

  write_chunks-done :
      (va rounds n off : ℕ) (ws : List Write)
      → write_chunks io f va rounds n n off ws ≡ record { went = true; off = off; writes = ws }
  unfolding write_chunks
  write_chunks-done va zero n off ws = rw (eqb_self n) refl
  write_chunks-done va (suc k) n off ws =
      let over : ltb n n ≡ false = ground arith in rw (over, eqb_self n) refl

  -- Two rounds write a page.
  write_chunks-page :
      (va n off : ℕ) (ws : List Write)
      → n ≤ page_size
      → off + n < 2 ^ 32
      → Chain va0 off0 off ws
      → (0 < n → va + off0 ≡ va0 + off)
      → let done = write_chunks io f va 2 0 n off ws in
        (done.went ≡ true) × (done.off ≡ off + n) × Chain va0 off0 (off + n) done.writes
  write_chunks-page va n off ws fits small chain aligned = elim (Bool-cases (n == 0)) [
    | inl e ↦ empty n (ground arith)
    | inr e ↦ elim (Bool-cases (leb n max_write)) [
      | inl l ↦
          let one =
            write_chunks-step va 1 0 n off n n (off + n) ws (ground arith) small (ground arith)
              (omega arith) refl in
          let at = aligned (ground arith) in
          rw (one, write_chunks-done va 1 n (off + n) _)
            (refl, refl, Chain-snoc va0 off0 off ws _ chain (omega (arith, at)) refl)
      | inr l ↦
          let more : max_write < n = ground arith in
          let at = aligned (omega arith) in
          let one =
            write_chunks-step va 1 0 n off max_write max_write (off + max_write) ws (omega arith)
              (omega arith) (omega arith) refl refl in
          let two =
            write_chunks-step va 0 max_write n (off + max_write) (n - max_write) n (off + n)
              (ws ++ (record { va = va + 0; off = off; n = max_write } ∷ [])) (omega arith)
              (omega arith) (omega arith) (omega arith) (omega arith) in
          let first =
            Chain-snoc va0 off0 off ws (record { va = va + 0; off = off; n = max_write }) chain
              (omega (arith, at)) refl in
          let both =
            Chain-snoc va0 off0 (off + max_write) _
              (record { va = va + max_write; off = off + max_write; n = n - max_write }) first
              (omega (arith, at)) refl in
          rw (one, two, write_chunks-done va 0 n (off + n) _)
            (refl, refl, Chain-to va0 off0 _ (off + n) _ (omega arith) both)
    ]
  ]
    where
      empty :
          (n : ℕ)
          → n ≡ 0
          → let done = write_chunks io f va 2 0 n off ws in
            (done.went ≡ true) × (done.off ≡ off + n) × Chain va0 off0 (off + n) done.writes
      empty n z =
          rw (z, write_chunks-done va 2 0 off ws)
            (refl, omega arith, Chain-to va0 off0 off _ ws (omega arith) chain)

  -- Dirty pages are written in order, up to the size of the file.
  write_pages-dirty :
      (k addr off : ℕ) (ws : List Write)
      → ((j : ℕ) → j < k → io.dirty (addr + page_size * j) ≡ true)
      → off ≤ io.size f
      → io.size f < 2 ^ 31
      → Chain va0 off0 off ws
      → (off < io.size f → addr + off0 ≡ va0 + off)
      → let done = write_pages io f k addr off ws in
        (done.went ≡ true) × Chain va0 off0 (min (io.size f) (off + page_size * k)) done.writes
  unfolding write_pages
  write_pages-dirty zero addr off ws dirty le small chain aligned =
      (refl, Chain-to va0 off0 off _ ws (omega arith) chain)
  write_pages-dirty (suc k) addr off ws dirty le small chain aligned =
      let (here, later) = next_pages io.dirty true k addr dirty in
      let left : (io.size f + 2 ^ 32 - off) % 2 ^ 32 ≡ io.size f - off = omega arith in
      let fine : leb (2 ^ 31) (io.size f - off) ≡ false = ground arith in
      let n = min (io.size f - off) page_size in
      let page =
        write_chunks-page addr n off ws (omega arith) (omega arith) chain
          (λ h. aligned (omega arith)) in
      let next = write_chunks io f addr 2 0 n off ws in
      let rest =
        write_pages-dirty k (addr + page_size) (off + n) next.writes later (omega arith) small
          page.2 (λ h. let at = aligned (omega arith) in omega (arith, at)) in
      rw (write_pages, here, left, fine, page.0, page.1)
        (
          rest.0,
          Chain-to va0 off0 _ (min (io.size f) (off + page_size * suc k)) _ (omega arith) rest.1,
        )

-- Pages that are not dirty are passed over, and `off` stays.
write_pages-clean :
    (io : Io) (f j k m addr off : ℕ) (ws : List Write)
    → m ≡ j + k
    → ((i : ℕ) → i < j → io.dirty (addr + page_size * i) ≡ false)
    → write_pages io f m addr off ws ≡ write_pages io f k (addr + page_size * j) off ws
unfolding write_pages
write_pages-clean io f zero k m addr off ws e clean =
    let same : m ≡ k = omega arith in
    let at : addr + page_size * 0 ≡ addr = omega arith in rw (same, at) refl
write_pages-clean io f (suc j) k zero addr off ws e clean = absurd (omega arith)
write_pages-clean io f (suc j) k (suc m) addr off ws e clean =
    let (here, later) = next_pages io.dirty false j addr clean in
    let next : addr + page_size + page_size * j ≡ addr + page_size * suc j = omega arith in
    let rest = write_pages-clean io f j k m (addr + page_size) off ws (omega arith) later in
    rw (write_pages, here) (rw next at rest)

-- Where `writei` writes all that it is asked to, the write-back of `k` dirty pages from address
-- `addr` and file offset `off` goes through. It writes each byte of the file from `off` on, up to
-- the end of the pages or of the file, once and in order, from the address that maps it.
pub write_pages_lem :
    (io : Io) (f k addr off : ℕ)
    → Full io f
    → ((j : ℕ) → j < k → io.dirty (addr + page_size * j) ≡ true)
    → off ≤ io.size f
    → io.size f < 2 ^ 31
    → let done = write_pages io f k addr off [] in
      (done.went ≡ true) × Chain addr off (min (io.size f) (off + page_size * k)) done.writes
unfolding Chain
write_pages_lem io f k addr off full dirty le small =
    write_pages-dirty io f addr off full k addr off [] dirty le small refl (λ h. refl)

-- Where `j` pages that are not dirty come first, the `k` dirty pages after them are written to the
-- file from `off` on, the offset of the first page, and not from `off + page_size * j`, where the
-- file is mapped at their address.
pub write_pages_after_clean :
    (io : Io) (f j k addr off : ℕ)
    → Full io f
    → ((i : ℕ) → i < j → io.dirty (addr + page_size * i) ≡ false)
    → ((i : ℕ) → i < k → io.dirty (addr + page_size * j + page_size * i) ≡ true)
    → off ≤ io.size f
    → io.size f < 2 ^ 31
    → Chain
        (addr + page_size * j)
        off
        (min (io.size f) (off + page_size * k))
        (write_pages io f (j + k) addr off []).writes
write_pages_after_clean io f j k addr off full clean dirty le small =
    let rest = write_pages_lem io f k (addr + page_size * j) off full dirty le small in
    rw (write_pages-clean io f j k (j + k) addr off [] refl clean) rest.1
