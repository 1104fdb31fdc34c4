-- ===== src/Bcache/Split.antt =====
-- The two searches of kernel/bio.c through the list of buffers.
use mit_operating_system_eng.Base.{
  ℕ, ◌≡◌, refl, sym, ap, Bool, true, false, none, some, List, [], ◌∷◌, All, Bool-cases,
  Option-cases, inl, inr, Outcome, ok, panic, eqb→eq, ◌+◌, ◌%◌, ◌^◌,
}
use mit_operating_system_eng.Bcache.{Buf, Place, whole, first, last, hits, unused, bget}

some-eq : {a b : Place} → some a ≡ some b → a ≡ b
some-eq e = cc

abbrev pub None : (Buf → Bool) → List Buf → Type 0
None p bs = All (λ b. p b ≡ false) bs

pub first-none : (p : Buf → Bool) (bs : List Buf) → first p bs ≡ none → None p bs
unfolding first
first-none p [] e = tt
first-none p (b ∷ bs) e = elim (Bool-cases (p b)) [
  | inl yes_b ↦ absurd (cc (rw yes_b at e))
  | inr no_b ↦ elim (Option-cases (first p bs)) [
    | inl q ↦ (no_b, first-none p bs q)
    | inr (s, q) ↦ absurd (cc (rw (no_b, q) at e))
  ]
]

pub first-some :
    (p : Buf → Bool) (bs : List Buf) (s : Place)
    → first p bs ≡ some s
    → (bs ≡ whole s) × (p s.buf ≡ true) × None p s.before
unfolding first
first-some p [] s e = absurd (cc e)
first-some p (b ∷ bs) s e = elim (Bool-cases (p b)) [
  | inl yes_b ↦ let same = some-eq (rw yes_b at e) in rw (sym same) (refl, yes_b, tt)
  | inr no_b ↦ elim (Option-cases (first p bs)) [
    | inl q ↦ absurd (cc (rw (no_b, q) at e))
    | inr (r, q) ↦
        let (split, hit, clear) = first-some p bs r q in
        let same = some-eq (rw (no_b, q) at e) in
        rw (sym same) (ap (λ l. b ∷ l) split, hit, (no_b, clear))
  ]
]

pub last-none : (p : Buf → Bool) (bs : List Buf) → last p bs ≡ none → None p bs
unfolding last
last-none p [] e = tt
last-none p (b ∷ bs) e = elim (Option-cases (last p bs)) [
  | inl q ↦ elim (Bool-cases (p b)) [
    | inl yes_b ↦ absurd (cc (rw (q, yes_b) at e))
    | inr no_b ↦ (no_b, last-none p bs q)
  ]
  | inr (s, q) ↦ absurd (cc (rw q at e))
]

pub last-some :
    (p : Buf → Bool) (bs : List Buf) (s : Place)
    → last p bs ≡ some s
    → (bs ≡ whole s) × (p s.buf ≡ true) × None p s.after
unfolding last
last-some p [] s e = absurd (cc e)
last-some p (b ∷ bs) s e = elim (Option-cases (last p bs)) [
  | inl q ↦ elim (Bool-cases (p b)) [
    | inl yes_b ↦
        let same = some-eq (rw (q, yes_b) at e) in rw (sym same) (refl, yes_b, last-none p bs q)
    | inr no_b ↦ absurd (cc (rw (q, no_b) at e))
  ]
  | inr (r, q) ↦
      let (split, hit, clear) = last-some p bs r q in
      let same = some-eq (rw q at e) in rw (sym same) (ap (λ l. b ∷ l) split, hit, clear)
]

-- The two outcomes of `bget` that give a buffer, and the one that does not.
pub data Get (dev blockno : ℕ) (c : List Buf) : Outcome Place → Type 0 where
  cached :
      (s : Place)
      → c ≡ whole s
      → hits dev blockno s.buf ≡ true
      → None (hits dev blockno) s.before
      → Get dev blockno c
          (ok (record s { buf = record (s.buf) { refcnt = (s.buf.refcnt + 1) % 2 ^ 32 } }))
  recycled :
      (s : Place)
      → c ≡ whole s
      → None (hits dev blockno) c
      → s.buf.refcnt ≡ 0
      → None unused s.after
      → Get dev blockno c (
          ok (record s {
            buf = record (s.buf) { dev = dev; blockno = blockno; valid = false; refcnt = 1 };
          }))
  exhausted : None (hits dev blockno) c → None unused c → Get dev blockno c panic

-- `bget` gives the cached buffer of the block and counts the caller. If there is none it gives the
-- least recently used of the buffers that nobody uses, now named for the block, not valid and counted
-- once, with its bytes as they were, and it panics exactly if all are in use.
pub bget_lem : (dev blockno : ℕ) (c : List Buf) → Get dev blockno c (bget dev blockno c)
unfolding bget
bget_lem dev blockno c = elim (Option-cases (first (hits dev blockno) c)) [
  | inr (s, q) ↦
      let (split, hit, clear) = first-some _ c s q in rw (bget, q) (cached s split hit clear)
  | inl q ↦
      let absent = first-none _ c q in
      elim (Option-cases (last unused c)) [
        | inr (s, l) ↦
            let (split, free, busy) = last-some _ c s l in
            rw (bget, q, l) (recycled s split absent (eqb→eq s.buf.refcnt 0 free) busy)
        | inl l ↦ rw (bget, q, l) (exhausted absent (last-none _ c l))
      ]
]
