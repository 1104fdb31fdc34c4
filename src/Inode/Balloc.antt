-- ===== src/Inode/Balloc.antt =====
-- `balloc` and `bfree` of kernel/fs.c.
use mit_operating_system_eng.Base.{
  ℕ, zero, suc, ◌+◌, ◌*◌, ◌/◌, ◌%◌, ◌≤◌, ◌<◌, ◌≡◌, ◌≢◌, refl, sym, ◌⊎◌, inl, inr, true, false, ◌&&◌,
  none, some, ltb, ◌==◌, if◌then◌else◌, ok, Bool-cases, Option-cases, some-injective, arith,
}
use mit_operating_system_eng.Inode.{
  Fs, bits_per_block, bzero, set_bit, scan_bits, scan_blocks, balloc, bfree,
}
use mit_operating_system_eng.Inode.Blocks.{used}

scan_bits-none :
    (k b bi c : ℕ) (fs : Fs)
    → scan_bits k b bi fs ≡ none
    → b % bits_per_block ≡ 0
    → bits_per_block ≤ bi + k
    → b + bi ≤ c
    → c < b + bits_per_block
    → c < fs.size
    → used fs c ≡ true
unfolding scan_bits
scan_bits-none zero b bi c fs e aligned enough from to below = absurd (omega arith)
scan_bits-none (suc k) b bi c fs e aligned enough from to below =
    let more : (ltb bi bits_per_block && ltb (b + bi) fs.size) ≡ true = ground arith in
    elim (Bool-cases (fs.bit (b / bits_per_block) bi)) [
      | inr clear ↦ absurd (cc (rw (more, clear) at e))
      | inl set_ ↦ elim (Bool-cases (b + bi == c)) [
        | inl here ↦
            let block : c / bits_per_block ≡ b / bits_per_block = ground arith in
            let bit : c % bits_per_block ≡ bi = ground arith in ground arith
        | inr later ↦
            scan_bits-none k b (bi + 1) c fs (rw (more, set_) at e) aligned (omega arith)
              (ground arith) to below
      ]
    ]

scan_bits-some :
    (k b bi c : ℕ) (fs : Fs)
    → scan_bits k b bi fs ≡ some c
    → b % bits_per_block ≡ 0
    → (used fs (b + c) ≡ false) × (b + c < fs.size)
unfolding scan_bits
scan_bits-some zero b bi c fs e aligned = absurd (cc e)
scan_bits-some (suc k) b bi c fs e aligned =
    elim (Bool-cases (ltb bi bits_per_block && ltb (b + bi) fs.size)) [
      | inr stop ↦ absurd (cc (rw stop at e))
      | inl more ↦ elim (Bool-cases (fs.bit (b / bits_per_block) bi)) [
        | inr clear ↦
            let same : bi ≡ c = some-injective (rw (more, clear) at e) in
            let block : (b + c) / bits_per_block ≡ b / bits_per_block = ground arith in
            let bit : (b + c) % bits_per_block ≡ bi = ground arith in (ground arith, ground arith)
        | inl set_ ↦ scan_bits-some k b (bi + 1) c fs (rw (more, set_) at e) aligned
      ]
    ]

scan_blocks-none :
    (k b c : ℕ) (fs : Fs)
    → scan_blocks k b fs ≡ none
    → b % bits_per_block ≡ 0
    → b ≤ c
    → c < fs.size
    → fs.size ≤ b + bits_per_block * k
    → used fs c ≡ true
unfolding scan_blocks
scan_blocks-none zero b c fs e aligned from below enough = absurd (omega arith)
scan_blocks-none (suc k) b c fs e aligned from below enough =
    let more : ltb b fs.size ≡ true = ground arith in
    elim (Option-cases (scan_bits bits_per_block b 0 fs)) [
      | inr (bi, hit) ↦ absurd (cc (rw (more, hit) at e))
      | inl none_ ↦ elim (Bool-cases (ltb c (b + bits_per_block))) [
        | inl here ↦
            scan_bits-none bits_per_block b 0 c fs none_ aligned (omega arith) (omega arith)
              (ground arith) below
        | inr later ↦
            scan_blocks-none k (b + bits_per_block) c fs (rw (more, none_) at e) (omega arith)
              (ground arith) below (omega arith)
      ]
    ]

scan_blocks-some :
    (k b c : ℕ) (fs : Fs)
    → scan_blocks k b fs ≡ some c
    → b % bits_per_block ≡ 0
    → (used fs c ≡ false) × (c < fs.size)
unfolding scan_blocks
scan_blocks-some zero b c fs e aligned = absurd (cc e)
scan_blocks-some (suc k) b c fs e aligned = elim (Bool-cases (ltb b fs.size)) [
  | inr stop ↦ absurd (cc (rw stop at e))
  | inl more ↦ elim (Option-cases (scan_bits bits_per_block b 0 fs)) [
    | inr (bi, hit) ↦
        let same : b + bi ≡ c = some-injective (rw (more, hit) at e) in
        rw (sym same) (scan_bits-some bits_per_block b 0 bi fs hit aligned)
    | inl none_ ↦ scan_blocks-some k (b + bits_per_block) c fs (rw (more, none_) at e) (omega arith)
  ]
]

-- Block `b`, which was not marked, is, and it is filled with zeros; all else stays.
pub record NewBlock (fs : Fs) (b : ℕ) (n : Fs) : Type 0 where
  pub clear : used fs b ≡ false
  pub below : b < fs.size
  pub zeros : n.byte b ≡ (λ i. 0)
  pub zero_words : n.word b ≡ (λ i. 0)
  pub marks : (c : ℕ) → used n c ≡ (if c == b then true else used fs c)
  pub bytes : (c : ℕ) → c ≢ b → n.byte c ≡ fs.byte c
  pub words : (c : ℕ) → c ≢ b → n.word c ≡ fs.word c
  pub inodes : n.inode ≡ fs.inode
  pub dinodes : n.dinode ≡ fs.dinode
  pub size : n.size ≡ fs.size

-- `balloc` answers 0 only if every block is marked, and else a block that was not, which it marks
-- and fills with zeros; no other block, mark or inode changes.
pub balloc_lem :
    (fs : Fs)
    → ((balloc fs ≡ (none, fs)) × ((c : ℕ) → c < fs.size → used fs c ≡ true))
      ⊎ ((b : ℕ) × (n : Fs) × (balloc fs ≡ (some b, n)) × NewBlock fs b n)
unfolding balloc bzero
balloc_lem fs = elim (Option-cases (scan_blocks (fs.size / bits_per_block + 1) 0 fs)) [
  | inl none_ ↦ inl (
    rw (balloc, none_) refl,
    λ c h.
        scan_blocks-none (fs.size / bits_per_block + 1) 0 c fs none_ (omega arith) (omega arith) h
          (omega arith),
  )
  | inr (b, hit) ↦
      let (clear, below) =
        scan_blocks-some (fs.size / bits_per_block + 1) 0 b fs hit (omega arith) in
      inr (
        b,
        bzero b (set_bit (b / bits_per_block) (b % bits_per_block) true fs),
        rw (balloc, hit) refl,
        record {
          clear = clear;
          below = below;
          zeros = ground arith;
          zero_words = ground arith;
          marks = λ c. ground arith;
          bytes = λ c h. ground arith;
          words = λ c h. ground arith;
          inodes = refl;
          dinodes = refl;
          size = refl;
        },
      )
]

pub bfree_lem :
    (b : ℕ) (fs : Fs)
    → used fs b ≡ true
    → (n : Fs) × (bfree b fs ≡ ok n)
      × ((c : ℕ) → used n c ≡ (if c == b then false else used fs c))
      × (n.byte ≡ fs.byte)
      × (n.word ≡ fs.word)
      × (n.inode ≡ fs.inode)
      × (n.size ≡ fs.size)
unfolding bfree
bfree_lem b fs h = (
  set_bit (b / bits_per_block) (b % bits_per_block) false fs,
  rw h refl,
  λ c. ground arith,
  refl,
  refl,
  refl,
  refl,
)
