-- ===== src/Vm/Copyout.antt =====
-- `copyout` of kernel/vm.c in user memory that is mapped.
use mit_operating_system_eng.Base.{
  ℕ, zero, suc, ◌+◌, ◌-◌, ◌≤◌, ◌<◌, ◌≡◌, ◌≢◌, refl, ◌∙◌, inl, inr, true, false, ◌&&◌, Option, ltb,
  leb, ◌==◌, if◌then◌else◌, Bool-cases, ok, arith,
}
use mit_operating_system_eng.Mmap.{trapframe}
use mit_operating_system_eng.Vm.{
  Mem, maxva, valid, pte_pa, page_down, page_size, user_page, fill_page, copy_piece, piece_len,
  copyout_from, copyout,
}
use mit_operating_system_eng.Vm.Entries.{Labels, pte_at}
use mit_operating_system_eng.Vm.Unmap.{Frames, pte_at-table}
use mit_operating_system_eng.Vm.CopyPage.{
  user_byte, readable_at, writable_at, pte_at-page, user_page_lem, copy_piece_lem, fill_page-view,
}

-- The bytes at the `len` addresses from `dstva` on are those of the source, and no other byte of
-- user memory has changed.
pub record Copied (l : Labels) (m : Mem) (r dstva pos len : ℕ) (src : ℕ → ℕ) (n : Mem)
    : Type 0 where
  pub table : n.table ≡ m.table
  pub free : n.free ≡ m.free
  pub bytes :
      (s vb : ℕ)
      → l.level s ≡ 3
      → vb < trapframe
      → valid (pte_at m s vb) ≡ true
      → user_byte n s vb ≡ (
          if s == r && (leb dstva vb && ltb vb (dstva + len))
          then src (pos + (vb - dstva))
          else user_byte m s vb)

copyout-next :
    (k : ℕ) (fault : ℕ → Mem → Option ℕ × Mem) (t dstva pos : ℕ) (src : ℕ → ℕ) (len : ℕ)
    (m m2 : Mem)
    → (len == 0) ≡ false
    → leb maxva (page_down dstva) ≡ false
    → copy_piece t dstva pos (piece_len dstva len) src (user_page fault t (page_down dstva) m)
      ≡ ok (true, m2)
    → copyout_from (suc k) fault t dstva pos src len m
      ≡ copyout_from k fault t
          (page_down dstva + page_size)
          (pos + piece_len dstva len)
          src
          (len - piece_len dstva len)
          m2
unfolding copyout_from
copyout-next k fault t dstva pos src len m m2 some_ below e =
    rw (copyout_from, some_, below, e) refl

pub Frames-bytes :
    (end : ℕ) (l : Labels) (m n : Mem) → n.table ≡ m.table → Frames end l m → Frames end l n
Frames-bytes end l m n e frames = record {
  owned = λ r va h lt v.
      let same = pte_at-table n m r va e in rw same (frames.owned r va h lt (rw same at v));
}

-- A first piece, and the others.
Copied-more :
    (end : ℕ) (l : Labels) (m : Mem) (r dstva pos len : ℕ) (src : ℕ → ℕ) (n : Mem)
    → Frames end l m
    → l.level r ≡ 3
    → 0 < len
    → dstva + len ≤ trapframe
    → valid (pte_at m r (page_down dstva)) ≡ true
    → let c = piece_len dstva len in
      Copied l
        (fill_page (pte_pa (pte_at m r (page_down dstva))) (dstva - page_down dstva) pos c src m)
        r
        (page_down dstva + page_size)
        (pos + c)
        (len - c)
        src
        n
      → Copied l m r dstva pos len src n
Copied-more end l m r dstva pos len src n frames is_root more fits v y =
    let c = piece_len dstva len in
    let va0 = page_down dstva in
    let n1 = fill_page (pte_pa (pte_at m r va0)) (dstva - va0) pos c src m in
    record {
      table = y.table;
      free = y.free;
      bytes = λ s vb h lt w.
          let same = pte_at-table n1 m s vb refl in
          let later = y.bytes s vb h lt (rw same w) in
          let first =
            fill_page-view end l m r dstva pos c src s vb frames is_root h (omega arith) lt
              (omega arith) v w in
          elim (Bool-cases
            (s == r && (leb (va0 + page_size) vb && ltb vb (va0 + page_size + (len - c))))) [
              | inl hit ↦
                  let all : (s == r && (leb dstva vb && ltb vb (dstva + len))) ≡ true =
                    ground arith in
                  let place : pos + c + (vb - (va0 + page_size)) ≡ pos + (vb - dstva) =
                    ground arith in
                  later ∙ rw (hit, all, place) refl
              | inr out ↦
                  let test : (s == r && (leb dstva vb && ltb vb (dstva + c)))
                      ≡ (s == r && (leb dstva vb && ltb vb (dstva + len))) =
                    ground arith in
                  later ∙ rw (out, first, test) refl
            ];
    }

copyout_from_lem :
    (k : ℕ) (end : ℕ) (l : Labels) (fault : ℕ → Mem → Option ℕ × Mem) (r dstva pos : ℕ)
    (src : ℕ → ℕ) (len : ℕ) (m : Mem)
    → 0 < end
    → Frames end l m
    → l.level r ≡ 3
    → dstva + len ≤ trapframe
    → len ≤ k
    → ((vb : ℕ) → dstva ≤ vb → vb < dstva + len → writable_at m r vb ≡ true)
    → (n : Mem) × (copyout_from k fault r dstva pos src len m ≡ ok (true, n))
      × Copied l m r dstva pos len src n
unfolding copyout_from
copyout_from_lem zero end l fault r dstva pos src len m some_ frames is_root fits enough may = (
  m,
  refl,
  record {
    table = refl;
    free = refl;
    bytes = λ s vb h lt v.
        let out : (s == r && (leb dstva vb && ltb vb (dstva + len))) ≡ false = ground arith in
        rw out refl;
  },
)
copyout_from_lem (suc k) end l fault r dstva pos src len m some_ frames is_root fits enough may =
    elim (Bool-cases (len == 0)) [
      | inl nothing ↦ (
        m,
        rw nothing refl,
        record {
          table = refl;
          free = refl;
          bytes = λ s vb h lt v.
              let out : (s == r && (leb dstva vb && ltb vb (dstva + len))) ≡ false = ground arith in
              rw out refl;
        },
      )
      | inr more ↦
          let c = piece_len dstva len in
          let va0 = page_down dstva in
          let below : leb maxva va0 ≡ false = ground arith in
          let same = pte_at-page m r va0 dstva (omega arith) in
          let w : writable_at m r va0 ≡ true = rw same (may dstva (omega arith) (ground arith)) in
          let v : valid (pte_at m r va0) ≡ true = ground arith in
          let u : readable_at m r va0 ≡ true = ground arith in
          let (page, _, _, _) = frames.owned r va0 is_root (ground arith) v in
          let not_null : pte_pa (pte_at m r va0) ≢ 0 = ground arith in
          let found = user_page_lem fault m r va0 (ground arith) u not_null in
          let n1 = fill_page (pte_pa (pte_at m r va0)) (dstva - va0) pos c src m in
          let piece : copy_piece r dstva pos c src (user_page fault r va0 m) ≡ ok (true, n1) =
            rw found
              (copy_piece_lem m r dstva pos c src (pte_pa (pte_at m r va0)) (ground arith) w) in
          let may1 : (vb : ℕ)
              → va0 + page_size ≤ vb
              → vb < va0 + page_size + (len - c)
              → writable_at n1 r vb ≡ true =
            λ vb from to.
              let e = pte_at-table n1 m r vb refl in rw e (may vb (omega arith) (omega arith)) in
          let (n, d, y) =
            copyout_from_lem k end l fault r (va0 + page_size) (pos + c) src (len - c) n1 some_
              (Frames-bytes end l m n1 refl frames) is_root (ground arith) (ground arith) may1 in
          (
            n,
            copyout-next k fault r dstva pos src len m n1 more below piece ∙ d,
            Copied-more end l m r dstva pos len src n frames is_root (ground arith) fits v y,
          )
    ]

-- Where a process may write at `len` addresses from `dstva` on, below the trapframe, `copyout`
-- succeeds. The bytes there are those of the source, in order, and no other byte of the memory
-- of any process has changed, nor has any page table.
pub copyout_lem :
    (end : ℕ) (l : Labels) (fault : ℕ → Mem → Option ℕ × Mem) (r dstva : ℕ) (src : ℕ → ℕ) (len : ℕ)
    (m : Mem)
    → 0 < end
    → Frames end l m
    → l.level r ≡ 3
    → dstva + len ≤ trapframe
    → ((vb : ℕ) → dstva ≤ vb → vb < dstva + len → writable_at m r vb ≡ true)
    → (n : Mem) × (copyout fault r dstva src len m ≡ ok (true, n)) × Copied l m r dstva 0 len src n
unfolding copyout
copyout_lem end l fault r dstva src len m some_ frames is_root fits may =
    copyout_from_lem len end l fault r dstva 0 src len m some_ frames is_root fits (omega arith) may
