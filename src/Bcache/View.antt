-- ===== src/Bcache/View.antt =====
-- What the buffers of kernel/bio.c show of the disk.
use mit_operating_system_eng.Base.{
  ℕ, ◌≡◌, ◌≢◌, refl, sym, ◌∙◌, ◌⊎◌, inl, inr, Bool, true, false, not, ◌&&◌, List, [], ◌∷◌, ◌++◌,
  ◌==◌, if◌then◌else◌, Bool-cases, All, All-mono, All-at, All-replace, All-remove, All-append,
  arith,
}
use mit_operating_system_eng.Bcache.{Buf, hits, recycle}
use mit_operating_system_eng.Bcache.Split.{None}

module _ (disk : ℕ → ℕ → List ℕ) where
  -- What a buffer shows of block `n` of device `d`, where it hits it.
  abbrev pub shown : ℕ → ℕ → Buf → List ℕ
  shown d n b = if b.valid then b.bytes else disk d n

  -- What the cache shows of it: the first buffer that hits, or the disk.
  unfoldable pub lookup : List Buf → ℕ → ℕ → List ℕ
  lookup [] d n = disk d n
  lookup (b ∷ bs) d n = let rest = lookup bs d n in if hits d n b then shown d n b else rest

  pub lookup-replace :
      (d n : ℕ) (xs ys : List Buf) (b b' : Buf)
      → hits d n b ≡ hits d n b'
      → (hits d n b ≡ true → shown d n b ≡ shown d n b')
      → lookup (xs ++ (b ∷ ys)) d n ≡ lookup (xs ++ (b' ∷ ys)) d n
  unfolding lookup
  lookup-replace d n [] ys b b' h e = elim (Bool-cases (hits d n b)) [
    | inl hit ↦ let hit' = sym h ∙ hit in rw (hit, hit') (e hit)
    | inr miss ↦ let miss' = sym h ∙ miss in rw (miss, miss') refl
  ]
  lookup-replace d n (x ∷ xs) ys b b' h e = rw (lookup-replace d n xs ys b b' h e) refl

  pub lookup-absent : (d n : ℕ) (bs : List Buf) → None (hits d n) bs → lookup bs d n ≡ disk d n
  unfolding lookup
  lookup-absent d n [] h = refl
  lookup-absent d n (b ∷ bs) h = rw h.0 (lookup-absent d n bs h.1)

  pub lookup-at :
      (d n : ℕ) (xs ys : List Buf) (b : Buf)
      → None (hits d n) xs
      → hits d n b ≡ true
      → lookup (xs ++ (b ∷ ys)) d n ≡ shown d n b
  unfolding lookup
  lookup-at d n [] ys b h e = rw e refl
  lookup-at d n (x ∷ xs) ys b h e = rw h.0 (lookup-at d n xs ys b h.1 e)

  pub lookup-skip :
      (d n : ℕ) (xs ys : List Buf) (b : Buf)
      → hits d n b ≡ false
      → lookup (xs ++ (b ∷ ys)) d n ≡ lookup (xs ++ ys) d n
  unfolding lookup
  lookup-skip d n [] ys b e = rw e refl
  lookup-skip d n (x ∷ xs) ys b e = rw (lookup-skip d n xs ys b e) refl

-- Two buffers of one block. Device 0 does not exist; unused buffers start with it.
abbrev pub clash : Buf → Buf → Bool
clash b c = not (b.dev == 0) && hits b.dev b.blockno c

abbrev pub Unique : List Buf → Type 0
Unique [] = Unit
Unique (b ∷ bs) = All (λ c. clash b c ≡ false) bs × Unique bs

pub Unique-Alone :
    (d n : ℕ) (xs ys : List Buf) (b : Buf)
    → d ≢ 0
    → hits d n b ≡ true
    → Unique (xs ++ (b ∷ ys))
    → None (hits d n) xs × None (hits d n) ys
Unique-Alone d n [] ys b h e u = (tt, All-mono _ _ ys (λ c q. ground arith) u.0)
Unique-Alone d n (x ∷ xs) ys b h e u =
    let (clear, later) = Unique-Alone d n xs ys b h e u.1 in
    let apart = All-at (λ c. clash x c ≡ false) xs ys b u.0 in ((ground arith, clear), later)

pub clash_symm : (b c : Buf) → clash b c ≡ false → clash c b ≡ false
clash_symm b c h = ground arith

pub Unique-apart :
    (xs ys : List Buf) (b : Buf)
    → Unique (xs ++ (b ∷ ys))
    → Unique (xs ++ ys) × All (λ c. clash b c ≡ false) (xs ++ ys)
Unique-apart [] ys b u = (u.1, u.0)
Unique-apart (x ∷ xs) ys b u =
    let (rest, apart) = Unique-apart xs ys b u.1 in
    ((All-remove _ xs ys b u.0, rest), (clash_symm x b (All-at _ xs ys b u.0), apart))

pub Unique-insert :
    (xs ys : List Buf) (b : Buf)
    → Unique (xs ++ ys)
    → All (λ c. clash b c ≡ false) (xs ++ ys)
    → Unique (xs ++ (b ∷ ys))
Unique-insert [] ys b u a = (a, u)
Unique-insert (x ∷ xs) ys b u a =
    (All-insert xs ys b u.0 (clash_symm b x a.0), Unique-insert xs ys b u.1 a.1)
  where
    All-insert :
        (xs ys : List Buf) (b : Buf)
        → All (λ c. clash x c ≡ false) (xs ++ ys)
        → clash x b ≡ false
        → All (λ c. clash x c ≡ false) (xs ++ (b ∷ ys))
    All-insert [] ys b h q = (q, h)
    All-insert (z ∷ zs) ys b h q = (h.0, All-insert zs ys b h.1 q)

-- A buffer that nobody uses may be recycled: what it shows is on the disk.
abbrev pub Clean : (ℕ → ℕ → List ℕ) → Buf → Type 0
Clean disk b = (b.refcnt ≢ 0) ⊎ ((b.valid ≡ false) ⊎ (b.bytes ≡ disk b.dev b.blockno))

-- Each block has one buffer at most, unused buffers are clean, and the counts are far from their end.
pub record IsCache (disk : ℕ → ℕ → List ℕ) (c : List Buf) : Type 0 where
  pub unique : Unique c
  pub clean : All (Clean disk) c

module _ (disk : ℕ → ℕ → List ℕ) where
  -- A buffer takes the place of one of the same block that shows the same.
  pub same_block :
      (xs ys : List Buf) (b : Buf) (refcnt : ℕ) (valid : Bool) (bytes : List ℕ)
      → let b' = record b { refcnt = refcnt; valid = valid; bytes = bytes } in
        Clean disk b' → IsCache disk (xs ++ (b ∷ ys)) → IsCache disk (xs ++ (b' ∷ ys))
  same_block xs ys b refcnt valid bytes clean inv =
      let (rest, apart) = Unique-apart xs ys b inv.unique in
      record {
        unique = Unique-insert xs ys _ rest apart;
        clean = All-replace _ xs ys b _ inv.clean clean;
      }

  pub recycled-IsCache :
      (xs ys : List Buf) (b : Buf) (dev blockno : ℕ)
      → None (hits dev blockno) (xs ++ (b ∷ ys))
      → IsCache disk (xs ++ (b ∷ ys))
      → IsCache disk (xs ++ (recycle dev blockno b ∷ ys))
  recycled-IsCache xs ys b dev blockno absent inv = record {
    unique =
        Unique-insert xs ys _ (Unique-apart xs ys b inv.unique).0
          (All-mono _ _ (xs ++ ys) (λ c q. ground arith) (All-remove _ xs ys b absent));
    clean = All-replace _ xs ys b _ inv.clean (inl (omega arith));
  }

  -- Recycling a clean buffer shows the same disk.
  pub lookup-recycle :
      (xs ys : List Buf) (b : Buf) (dev blockno d n : ℕ)
      → d ≢ 0
      → b.refcnt ≡ 0
      → None (hits dev blockno) (xs ++ (b ∷ ys))
      → IsCache disk (xs ++ (b ∷ ys))
      → lookup disk (xs ++ (recycle dev blockno b ∷ ys)) d n ≡ lookup disk (xs ++ (b ∷ ys)) d n
  lookup-recycle xs ys b dev blockno d n nz free absent inv =
      let absent_before = (All-append _ xs (b ∷ ys) absent).0 in
      let (rest, apart) = Unique-apart xs ys b inv.unique in
      elim (Bool-cases (dev == d && blockno == n)) [
        | inl same ↦
            let (is_dev, is_block) = both same in
            let before = rw (is_dev, is_block) at absent_before in
            lookup-at disk d n xs ys (recycle dev blockno b) before same
            ∙ sym (lookup-absent disk d n (xs ++ (b ∷ ys)) (rw (is_dev, is_block) at absent))
        | inr other ↦
            lookup-skip disk d n xs ys (recycle dev blockno b) other
            ∙ sym (old (Bool-cases (hits d n b)))
      ]
    where
      both : (dev == d && blockno == n) ≡ true → (dev ≡ d) × (blockno ≡ n)
      both e = (ground arith, ground arith)

      on_disk : hits d n b ≡ true → Clean disk b → shown disk d n b ≡ disk d n
      on_disk hit (inl used) = absurd (used free)
      on_disk hit (inr (inl invalid)) = rw invalid refl
      on_disk hit (inr (inr bytes)) =
          let is_dev : b.dev ≡ d = ground arith in
          let is_block : b.blockno ≡ n = ground arith in
          elim (Bool-cases b.valid) [
            | inl v ↦ rw v (bytes ∙ rw (is_dev, is_block) refl)
            | inr v ↦ rw v refl
          ]

      All-join :
          (xs ys : List Buf) → None (hits d n) xs → None (hits d n) ys → None (hits d n) (xs ++ ys)
      All-join [] ys h g = g
      All-join (x ∷ xs) ys h g = (h.0, All-join xs ys h.1 g)

      -- The buffer showed the disk, and no other buffer hits its block.
      old :
          (hits d n b ≡ true) ⊎ (hits d n b ≡ false)
          → lookup disk (xs ++ (b ∷ ys)) d n ≡ lookup disk (xs ++ ys) d n
      old (inr miss) = lookup-skip disk d n xs ys b miss
      old (inl hit) =
          let (before, after) = Unique-Alone d n xs ys b nz hit inv.unique in
          lookup-at disk d n xs ys b before hit
          ∙ on_disk hit (All-at _ xs ys b inv.clean)
          ∙ sym (lookup-absent disk d n (xs ++ ys) (All-join xs ys before after))
