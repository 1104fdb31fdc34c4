-- ===== src/Bcache/Use.antt =====
-- `bread` and `brelse` of kernel/bio.c: a caller sees the block that the cache shows, and neither
-- changes what it shows.
use mit_operating_system_eng.Base.{
  ℕ, ◌+◌, ◌-◌, ◌%◌, ◌^◌, ◌<◌, ◌≡◌, ◌≢◌, refl, sym, ◌∙◌, inl, inr, true, false, ◌&&◌, List, [], ◌∷◌,
  ◌++◌, ◌==◌, Bool-cases, All, All-at, All-remove, All-append, Outcome, ok, panic, arith,
}
use mit_operating_system_eng.Bcache.{Buf, Place, whole, hits, load, bget, bread, brelse}
use mit_operating_system_eng.Bcache.Split.{None, Get, cached, recycled, bget_lem}
use mit_operating_system_eng.Bcache.View.{
  shown, lookup, lookup-replace, lookup-at, lookup-recycle, lookup-skip, Unique-Alone, Unique-apart,
  Unique, Clean, IsCache, same_block, recycled-IsCache,
}

-- The counts are far from their end.
abbrev pub Few : List Buf → Type 0
Few c = All (λ b. b.refcnt + 1 < 2 ^ 32) c

-- What a caller of `bread` has, the cache `c` before it.
pub record Has (disk : ℕ → ℕ → List ℕ) (dev blockno : ℕ) (c : List Buf) (s : Place) : Type 0 where
  pub hit : hits dev blockno s.buf ≡ true
  pub valid : s.buf.valid ≡ true
  pub bytes : s.buf.bytes ≡ lookup disk c dev blockno
  pub used : s.buf.refcnt ≢ 0
  pub same : (d n : ℕ) → d ≢ 0 → lookup disk (whole s) d n ≡ lookup disk c d n
  pub cache : IsCache disk (whole s)

module _ (disk : ℕ → ℕ → List ℕ) (dev blockno : ℕ) where
  -- `load` makes a buffer valid and shows what it showed.
  load-shown :
      (d n : ℕ) (b : Buf) → hits d n b ≡ true → shown disk d n (load disk b) ≡ shown disk d n b
  load-shown d n b h =
      let is_dev : b.dev ≡ d = ground arith in
      let is_block : b.blockno ≡ n = ground arith in
      elim (Bool-cases b.valid) [ inl v ↦ rw v refl | inr v ↦ rw (v, is_dev, is_block) refl ]

  loaded-Has :
      (c : List Buf) (s : Place)
      → dev ≢ 0
      → hits dev blockno s.buf ≡ true
      → None (hits dev blockno) s.before
      → s.buf.refcnt ≢ 0
      → IsCache disk (whole s)
      → ((d n : ℕ) → d ≢ 0 → lookup disk (whole s) d n ≡ lookup disk c d n)
      → Has disk dev blockno c (record s { buf = load disk s.buf })
  loaded-Has c s nz hit before used cache same = elim (Bool-cases s.buf.valid) [
    | inl v ↦ simp v (record {
      hit = hit;
      valid = v;
      used = used;
      same = same;
      cache = cache;
      bytes = at_valid v;
    })
    | inr v ↦ simp v (record {
      hit = hit;
      valid = refl;
      used = used;
      cache =
          same_block disk s.before s.after s.buf s.buf.refcnt true (disk s.buf.dev s.buf.blockno)
            (inl used) cache;
      bytes = at_invalid v;
      same = same_loaded v;
    })
  ]
    where
      shows : lookup disk c dev blockno ≡ shown disk dev blockno s.buf
      shows =
          sym (same dev blockno nz) ∙ lookup-at disk dev blockno s.before s.after s.buf before hit

      at_valid : s.buf.valid ≡ true → s.buf.bytes ≡ lookup disk c dev blockno
      at_valid v = rw v at (sym shows)

      at_invalid : s.buf.valid ≡ false → disk s.buf.dev s.buf.blockno ≡ lookup disk c dev blockno
      at_invalid v =
          let is_dev : s.buf.dev ≡ dev = ground arith in
          let is_block : s.buf.blockno ≡ blockno = ground arith in
          rw (is_dev, is_block) (rw v at (sym shows))

      same_loaded :
          s.buf.valid ≡ false
          → (d n : ℕ) → d ≢ 0
          → lookup disk
              (s.before
                ++ (record (s.buf) { bytes = disk s.buf.dev s.buf.blockno; valid = true }
                    ∷ s.after))
              d
              n
            ≡ lookup disk c d n
      same_loaded v d n h =
          sym (
            lookup-replace disk d n s.before s.after s.buf _ refl (λ e.
              let is_dev : s.buf.dev ≡ d = ground arith in
              let is_block : s.buf.blockno ≡ n = ground arith in rw (v, is_dev, is_block) refl))
          ∙ same d n h

hit_self : (dev blockno : ℕ) → (dev == dev && blockno == blockno) ≡ true
hit_self dev blockno = ground arith

-- `bread` of a block gives a valid buffer of it, in use, with the bytes that the cache showed. It
-- changes what the cache shows of no block, and each block keeps one buffer at most.
pub bread-Has :
    (disk : ℕ → ℕ → List ℕ) (dev blockno : ℕ) (c : List Buf) (s : Place)
    → dev ≢ 0
    → IsCache disk c
    → Few c
    → bread disk dev blockno c ≡ ok s
    → Has disk dev blockno c s
unfolding bread
bread-Has disk dev blockno c s nz inv few e = got (bget dev blockno c) (bget_lem dev blockno c) e
  where
    ok-eq : {a b : Place} → ok a ≡ ok b → a ≡ b
    ok-eq q = cc

    got :
        (o : Outcome Place)
        → Get dev blockno c o
        → (elim o [ ok s ↦ ok (record s { buf = load disk s.buf }) | panic ↦ panic ]) ≡ ok s
        → Has disk dev blockno c s
    got panic g q = absurd (cc q)
    got (ok t) (cached r split hit before) q =
        let few_r : (r.buf.refcnt + 1) % 2 ^ 32 ≢ 0 =
          let f = All-at (λ b. b.refcnt + 1 < 2 ^ 32) r.before r.after r.buf (rw split at few) in
          λ z. omega arith in
        let inv_r : IsCache disk (whole r) = rw split at inv in
        rw (sym (ok-eq q)) (
          loaded-Has disk dev blockno c t nz hit before few_r
            (same_block disk r.before r.after r.buf ((r.buf.refcnt + 1) % 2 ^ 32) r.buf.valid
              r.buf.bytes (inl few_r) inv_r)
            (λ d n h.
              rw split
                (sym (lookup-replace disk d n r.before r.after r.buf t.buf refl (λ e. refl)))))
    got (ok t) (recycled r split absent free busy) q =
        let inv_r : IsCache disk (whole r) = rw split at inv in
        let absent_r : None (hits dev blockno) (whole r) = rw split at absent in
        rw (sym (ok-eq q)) (
          loaded-Has disk dev blockno c t nz (hit_self dev blockno)
            (All-append _ r.before (r.buf ∷ r.after) absent_r).0 (omega arith)
            (recycled-IsCache disk r.before r.after r.buf dev blockno absent_r inv_r)
            (λ d n h.
              rw split
                (lookup-recycle disk r.before r.after r.buf dev blockno d n h free absent_r inv_r)))

-- A buffer may be moved to the front.
lookup-front :
    (disk : ℕ → ℕ → List ℕ) (xs ys : List Buf) (b : Buf) (refcnt d n : ℕ)
    → d ≢ 0
    → Unique (xs ++ (b ∷ ys))
    → lookup disk (record b { refcnt = refcnt } ∷ (xs ++ ys)) d n ≡ lookup disk (xs ++ (b ∷ ys)) d n
lookup-front disk xs ys b refcnt d n h u = elim (Bool-cases (hits d n b)) [
  | inl hit ↦
      lookup-at disk d n [] (xs ++ ys) (record b { refcnt = refcnt }) tt hit
      ∙ sym (lookup-at disk d n xs ys b (Unique-Alone d n xs ys b h hit u).0 hit)
  | inr miss ↦
      lookup-skip disk d n [] (xs ++ ys) (record b { refcnt = refcnt }) miss
      ∙ sym (lookup-skip disk d n xs ys b miss)
]

-- `brelse` changes what the cache shows of no block, and each block keeps one buffer at most, where
-- the last user leaves a buffer that is clean.
pub brelse_lem :
    (disk : ℕ → ℕ → List ℕ) (s : Place)
    → IsCache disk (whole s)
    → s.buf.refcnt ≢ 0
    → s.buf.refcnt < 2 ^ 32
    → Clean disk (record (s.buf) { refcnt = s.buf.refcnt - 1 })
    → IsCache disk (brelse s)
      × ((d n : ℕ) → d ≢ 0 → lookup disk (brelse s) d n ≡ lookup disk (whole s) d n)
unfolding brelse
brelse_lem disk s inv used word clean =
    let less : (s.buf.refcnt + 2 ^ 32 - 1) % 2 ^ 32 ≡ s.buf.refcnt - 1 = omega arith in
    elim (Bool-cases ((s.buf.refcnt - 1) == 0)) [
      | inl zero_now ↦
          let (rest, apart) = Unique-apart s.before s.after s.buf inv.unique in
          rw (less, zero_now)
            (
              record {
                unique = (apart, rest);
                clean = (clean, All-remove _ s.before s.after s.buf inv.clean);
              },
              λ d n h. lookup-front disk s.before s.after s.buf (s.buf.refcnt - 1) d n h inv.unique,
            )
      | inr still ↦
          rw (less, still)
            (
              same_block disk s.before s.after s.buf (s.buf.refcnt - 1) s.buf.valid s.buf.bytes
                  clean inv,
              λ d n h. sym (lookup-replace disk d n s.before s.after s.buf _ refl (λ e. refl)),
            )
    ]
