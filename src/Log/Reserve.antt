-- ===== src/Log/Reserve.antt =====
-- The reservation of log space in `begin_op`, `log_write` and `end_op` of kernel/log.c, with any
-- number of system calls at work.
use mit_operating_system_eng.Base.{
  ℕ, suc, ◌+◌, ◌*◌, ◌≤◌, ◌<◌, ◌≡◌, refl, ap, inl, inr, true, false, some, List, [], ◌∷◌, ◌++◌,
  length, length-append, set, has, ◌==◌, Bool-cases, ne→eqb, ok, arith,
}
use mit_operating_system_eng.Log.{
  Machine, log_blocks, max_op_blocks, begin_op, log_write, scan, record_block, bpin,
}

-- Where `scan` finds the block, writing it again changes nothing.
scan-has :
    (b : ℕ) (xs : List ℕ) (i : ℕ)
    → has b xs ≡ true
    → (k : ℕ) × (scan b xs i ≡ i + k) × (k < length xs) × (set xs k b ≡ xs)
unfolding scan
scan-has b [] i h = absurd (ground arith)
scan-has b (x ∷ xs) i h = elim (Bool-cases (x == b)) [
  | inl e ↦ (0, rw e (omega arith), omega arith, ground arith)
  | inr ne ↦
      let (k, at, lt, same) = scan-has b xs (suc i) (ground arith) in
      (suc k, rw ne (omega (arith, at)), omega arith, ap (λ t. x ∷ t) same)
]

scan-not_has : (b : ℕ) (xs : List ℕ) (i : ℕ) → has b xs ≡ false → scan b xs i ≡ i + length xs
unfolding scan
scan-not_has b [] i h = omega arith
scan-not_has b (x ∷ xs) i h = ground (arith, scan-not_has b xs (suc i))

-- Absorption: a block that the transaction has already is not added again.
pub record_block-has : (b : ℕ) (m : Machine) → has b m.block ≡ true → record_block b m ≡ m
unfolding record_block
record_block-has b m h =
    let (k, at, lt, same) = scan-has b m.block 0 h in
    let here : scan b m.block 0 ≡ k = omega (arith, at) in
    rw here (rw (ne→eqb k (length m.block) (omega arith)) (ap (λ t. record m { block = t }) same))

pub record_block-new :
    (b : ℕ) (m : Machine)
    → has b m.block ≡ false
    → record_block b m ≡ record m { dev = bpin b m.dev; block = m.block ++ (b ∷ []) }
unfolding record_block
record_block-new b m h =
    let here : scan b m.block 0 ≡ length m.block = omega (arith, scan-not_has b m.block 0 h) in
    ground arith

-- When `begin_op` lets a call in, there is room for it beside the others.
pub begin_op-eq_some :
    (m m' : Machine)
    → length m.block ≤ log_blocks
    → m.outstanding ≤ 3
    → begin_op m ≡ some m'
    → (length m.block + (m.outstanding + 1) * max_op_blocks ≤ log_blocks)
      × (m' ≡ record m { outstanding = m.outstanding + 1 })
unfolding begin_op
begin_op-eq_some m m' small few e = ground arith

-- With a block left to write, `log_write` does not panic, and does what `record_block` does.
pub log_write-ok :
    (b : ℕ) (m : Machine)
    → length m.block < log_blocks
    → 0 < m.outstanding
    → m.outstanding ≤ 3
    → log_write b m ≡ ok (record_block b m)
unfolding log_write
log_write-ok b m room some_op few = ground arith

pub length-record_block :
    (b : ℕ) (m : Machine)
    → let m' = record_block b m in
      (length m'.block ≤ length m.block + 1)
      × (m'.outstanding ≡ m.outstanding)
      × (m'.committing ≡ m.committing)
length-record_block b m = elim (Bool-cases (has b m.block)) [
  | inl q ↦ rw (record_block-has b m q) (omega arith, refl, refl)
  | inr q ↦
      rw (record_block-new b m q) (omega (arith, length-append {0} m.block (b ∷ [])), refl, refl)
]
