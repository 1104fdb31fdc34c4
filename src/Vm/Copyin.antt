-- ===== src/Vm/Copyin.antt =====
-- `copyin` of kernel/vm.c in user memory that is mapped, and what it reads after `copyout`.
use mit_operating_system_eng.Base.{
  ℕ, zero, suc, ◌+◌, ◌-◌, ◌%◌, ◌^◌, ◌≤◌, ◌<◌, ◌≡◌, refl, sym, ap, ◌∙◌, inl, inr, true, false, ◌&&◌,
  Option, some, ltb, leb, ◌==◌, if◌then◌else◌, Bool-cases, ok, arith,
}
use mit_operating_system_eng.Mmap.{trapframe}
use mit_operating_system_eng.Vm.{
  Mem, valid, pte_pa, page_down, page_size, user_page, piece_len, take_bytes, copyin_from, copyin,
  copyout,
}
use mit_operating_system_eng.Vm.Entries.{Labels, pte_at}
use mit_operating_system_eng.Vm.Unmap.{Frames, pte_at-table}
use mit_operating_system_eng.Vm.CopyPage.{
  user_byte, readable_at, writable_at, pte_at-page, user_page_lem,
}
use mit_operating_system_eng.Vm.Copyout.{copyout_lem, Frames-bytes}

-- The bytes at the `len` addresses from `srcva` on are at the destination from `pos` on, and the
-- other bytes there are as before.
pub Fetched : Mem → ℕ → ℕ → ℕ → (ℕ → ℕ) → ℕ → (ℕ → ℕ) → Type 0
Fetched m r srcva pos dst len got =
    (i : ℕ)
    → got i ≡ (if leb pos i && ltb i (pos + len) then user_byte m r (srcva + (i - pos)) else dst i)

copyin-next :
    (k : ℕ) (fault : ℕ → Mem → Option ℕ × Mem) (t srcva pos : ℕ) (dst : ℕ → ℕ) (len : ℕ) (m : Mem)
    (pa : ℕ)
    → (len == 0) ≡ false
    → page_down srcva + page_size < 2 ^ 64
    → user_page fault t (page_down srcva) m ≡ (some pa, m)
    → copyin_from (suc k) fault t srcva pos dst len m
      ≡ copyin_from k fault t
          (page_down srcva + page_size)
          (pos + piece_len srcva len)
          (take_bytes (m.byte pa) (srcva - page_down srcva) pos (piece_len srcva len) dst)
          (len - piece_len srcva len)
          m
unfolding copyin_from
copyin-next k fault t srcva pos dst len m pa some_ small e =
    let next : (page_down srcva + page_size) % 2 ^ 64 ≡ page_down srcva + page_size = omega arith in
    rw (copyin_from, some_, e, next, e) refl

Fetched-more :
    (m : Mem) (r srcva pos : ℕ) (dst : ℕ → ℕ) (len : ℕ) (got : ℕ → ℕ)
    → 0 < len
    → let c = piece_len srcva len in
      Fetched m r
        (page_down srcva + page_size)
        (pos + c)
        (take_bytes
          (m.byte (pte_pa (pte_at m r (page_down srcva))))
          (srcva - page_down srcva)
          pos
          c
          dst)
        (len - c)
        got
      → Fetched m r srcva pos dst len got
unfolding Fetched
Fetched-more m r srcva pos dst len got more y i =
    let c = piece_len srcva len in
    let e = y i in
    elim (Bool-cases (leb pos i && ltb i (pos + c))) [
      | inl first ↦
          let out : (leb (pos + c) i && ltb i (pos + c + (len - c))) ≡ false = ground arith in
          let all : (leb pos i && ltb i (pos + len)) ≡ true = ground arith in
          let at = pte_at-page m r (srcva + (i - pos)) (page_down srcva) (ground arith) in
          let place : srcva - page_down srcva + i - pos ≡ (srcva + (i - pos)) % page_size =
            ground arith in
          e
          ∙ rw (out, first, all, place)
              (ap (λ z. m.byte (pte_pa z) ((srcva + (i - pos)) % page_size)) (sym at))
      | inr later ↦
          let test : (leb (pos + c) i && ltb i (pos + c + (len - c)))
              ≡ (leb pos i && ltb i (pos + len)) =
            ground arith in
          elim (Bool-cases (leb pos i && ltb i (pos + len))) [
            | inl hit ↦
                let place : page_down srcva + page_size + (i - (pos + c)) ≡ srcva + (i - pos) =
                  ground arith in
                e ∙ rw (test, hit, place) refl
            | inr miss ↦ e ∙ rw (test, miss, later) refl
          ]
    ]

copyin_from_lem :
    (k : ℕ) (end : ℕ) (l : Labels) (fault : ℕ → Mem → Option ℕ × Mem) (r srcva pos : ℕ)
    (dst : ℕ → ℕ) (len : ℕ) (m : Mem)
    → 0 < end
    → Frames end l m
    → l.level r ≡ 3
    → srcva + len ≤ trapframe
    → len ≤ k
    → ((vb : ℕ) → srcva ≤ vb → vb < srcva + len → readable_at m r vb ≡ true)
    → (got : ℕ → ℕ) × (copyin_from k fault r srcva pos dst len m ≡ (true, got, m))
      × Fetched m r srcva pos dst len got
unfolding copyin_from Fetched
copyin_from_lem zero end l fault r srcva pos dst len m some_ frames is_root fits enough may = (
  dst,
  refl,
  λ i. let out : (leb pos i && ltb i (pos + len)) ≡ false = ground arith in rw out refl,
)
copyin_from_lem (suc k) end l fault r srcva pos dst len m some_ frames is_root fits enough may =
    elim (Bool-cases (len == 0)) [
      | inl nothing ↦ (
        dst,
        rw nothing refl,
        λ i. let out : (leb pos i && ltb i (pos + len)) ≡ false = ground arith in rw out refl,
      )
      | inr more ↦
          let c = piece_len srcva len in
          let va0 = page_down srcva in
          let same = pte_at-page m r va0 srcva (omega arith) in
          let u : readable_at m r va0 ≡ true = rw same (may srcva (omega arith) (ground arith)) in
          let (page, _, _, _) = frames.owned r va0 is_root (ground arith) (ground arith) in
          let found = user_page_lem fault m r va0 (ground arith) u (ground arith) in
          let dst1 = take_bytes (m.byte (pte_pa (pte_at m r va0))) (srcva - va0) pos c dst in
          let (got, d, y) =
            copyin_from_lem k end l fault r (va0 + page_size) (pos + c) dst1 (len - c) m some_
              frames is_root (ground arith) (ground arith)
              (λ vb from to. may vb (omega arith) (omega arith)) in
          (
            got,
            copyin-next k fault r srcva pos dst len m (pte_pa (pte_at m r va0)) more (omega arith)
                  found
                ∙ d,
            Fetched-more m r srcva pos dst len got (ground arith) y,
          )
    ]

-- Where a process may write at `len` addresses from `va` on, below the trapframe, `copyin` of them
-- after a `copyout` to them succeeds and gives the bytes that were copied out, in order; it changes
-- no memory, and writes no other byte of its destination.
pub copyin-copyout :
    (end : ℕ) (l : Labels) (fault : ℕ → Mem → Option ℕ × Mem) (r va : ℕ) (src dst : ℕ → ℕ) (len : ℕ)
    (m : Mem)
    → 0 < end
    → Frames end l m
    → l.level r ≡ 3
    → va + len ≤ trapframe
    → ((vb : ℕ) → va ≤ vb → vb < va + len → writable_at m r vb ≡ true)
    → (n : Mem) × (got : ℕ → ℕ) × (copyout fault r va src len m ≡ ok (true, n))
      × (copyin fault r va dst len n ≡ (true, got, n))
      × ((i : ℕ) → got i ≡ (if ltb i len then src i else dst i))
unfolding copyin Fetched
copyin-copyout end l fault r va src dst len m some_ frames is_root fits may =
    let (n, e, x) = copyout_lem end l fault r va src len m some_ frames is_root fits may in
    let frames2 = Frames-bytes end l m n x.table frames in
    let readable : (vb : ℕ) → va ≤ vb → vb < va + len → readable_at n r vb ≡ true = λ vb from to.
      let same = pte_at-table n m r vb x.table in
      let w = may vb from to in let u : readable_at m r vb ≡ true = ground arith in rw same u in
    let (got, d, y) =
      copyin_from_lem len end l fault r va 0 dst len n some_ frames2 is_root fits (omega arith)
        readable in
    (
      n,
      got,
      e,
      d,
      λ i. elim (Bool-cases (ltb i len)) [
        | inl hit ↦
            let w = may (va + (i - 0)) (omega arith) (ground arith) in
            let v : valid (pte_at m r (va + (i - 0))) ≡ true = ground arith in
            let b = x.bytes r (va + (i - 0)) is_root (ground arith) v in
            let in_ : (leb 0 i && ltb i (0 + len)) ≡ true = ground arith in
            let in2 : (r == r && (leb va (va + (i - 0)) && ltb (va + (i - 0)) (va + len))) ≡ true =
              ground arith in
            let place : 0 + (va + (i - 0) - va) ≡ i = ground arith in
            y i ∙ rw (in_, hit) (b ∙ rw (in2, place) refl)
        | inr miss ↦
            let out : (leb 0 i && ltb i (0 + len)) ≡ false = ground arith in
            y i ∙ rw (out, miss) refl
      ],
    )
