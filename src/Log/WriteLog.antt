-- ===== src/Log/WriteLog.antt =====
-- The loop of `write_log` of kernel/log.c: it fills the slots with the cached blocks.
use mit_operating_system_eng.Base.{
  ℕ, suc, ◌+◌, ◌≤◌, ◌<◌, ◌≡◌, ◌≢◌, refl, sym, ◌∙◌, Bool, true, ◌&&◌, inl, inr, List, [], ◌∷◌,
  length, has, has-All, ap, update_ne, update_self, ltb, leb, ◌==◌, if◌then◌else◌, Bool-cases,
  eqb→eq, arith,
}
use mit_operating_system_eng.Log.{Disk, Device, log_blocks, slot, bwrite, write_log_from}
use mit_operating_system_eng.Log.Install.{
  is_home, AllHome, home_of, slots_of, home-ne-slot, SameOff, Traced, bwrite-Traced,
}

abbrev pub is_slot : ℕ → ℕ → Bool
is_slot start b = ltb start b && leb b (start + log_blocks)

-- Only slots from `tail` on are written.
write_log_from-other :
    (start : ℕ) (tail : ℕ) (bs : List ℕ) (m : Device) (b : ℕ)
    → ((i : ℕ) → tail ≤ i → i < tail + length bs → slot start i ≢ b)
    → ((write_log_from start tail bs m).disk b ≡ m.disk b)
      × ((write_log_from start tail bs m).view b ≡ m.view b)
unfolding write_log_from bwrite
write_log_from-other start tail [] m b off = (refl, refl)
write_log_from-other start tail (x ∷ bs) m b off =
    let here = off tail (omega arith) (omega arith) in
    let rest =
      write_log_from-other start (suc tail) bs (bwrite (slot start tail) (m.view x) m) b
        (λ i lo hi. off i (omega arith) (omega arith)) in
    (rest.0 ∙ update_ne m.disk _ b _ here, rest.1 ∙ update_ne m.view _ b _ here)

pub write_log_from-home :
    (start : ℕ) (tail : ℕ) (bs : List ℕ) (m : Device) (b : ℕ)
    → tail + length bs ≤ log_blocks
    → is_home start b ≡ true
    → ((write_log_from start tail bs m).disk b ≡ m.disk b)
      × ((write_log_from start tail bs m).view b ≡ m.view b)
write_log_from-home start tail bs m b few h =
    write_log_from-other start tail bs m b
      λ i lo hi e. home-ne-slot start b i h (omega arith) (sym e)

pub write_log_from-header :
    (start : ℕ) (tail : ℕ) (bs : List ℕ) (m : Device)
    → ((write_log_from start tail bs m).disk start ≡ m.disk start)
      × ((write_log_from start tail bs m).view start ≡ m.view start)
write_log_from-header start tail bs m =
    write_log_from-other start tail bs m start λ i lo hi e. omega arith

module _ {P : Disk → Type 0} {W : ℕ → Bool} {e : Disk}
    (keeps : (d : Disk) → SameOff W d e → P d) where
  pub write_log_from-Traced :
      (start : ℕ) (tail : ℕ) (bs : List ℕ) (m : Device)
      → ((i : ℕ) → i < log_blocks → W (slot start i) ≡ true)
      → tail + length bs ≤ log_blocks
      → Traced P W e m
      → Traced P W e (write_log_from start tail bs m)
  unfolding write_log_from bwrite
  write_log_from-Traced start tail [] m inside few t = t
  write_log_from-Traced start tail (x ∷ bs) m inside few t =
      write_log_from-Traced start (suc tail) bs _ inside (omega arith)
        (bwrite-Traced keeps (slot start tail) (m.view x) m (inside tail (omega arith)) t)

-- In the slots that were written, disk and cache agree.
pub write_log_from-coherent :
    (start : ℕ) (tail : ℕ) (bs : List ℕ) (m : Device) (i : ℕ)
    → tail ≤ i
    → i < tail + length bs
    → let m' = write_log_from start tail bs m in m'.disk (slot start i) ≡ m'.view (slot start i)
unfolding write_log_from bwrite
write_log_from-coherent start tail [] m i lo hi = absurd (omega arith)
write_log_from-coherent start tail (x ∷ bs) m i lo hi = elim (Bool-cases (tail == i)) [
  | inl e ↦
      let rest =
        write_log_from-other start (suc tail) bs (bwrite (slot start tail) (m.view x) m)
          (slot start i) (λ j lo' hi' q. omega (arith, eqb→eq tail i e)) in
      rest.0 ∙ ground (arith, eqb→eq tail i e) ∙ sym rest.1
  | inr ne ↦ write_log_from-coherent start (suc tail) bs _ i (ground arith) (omega arith)
]

-- Copying the slots home gives each block of the list its cached data.
pub write_log_from-home_of :
    (start : ℕ) (tail : ℕ) (bs : List ℕ) (m : Device) (base : Disk) (b : ℕ)
    → AllHome start bs
    → tail + length bs ≤ log_blocks
    → home_of (slots_of start (write_log_from start tail bs m).disk) base tail bs b
      ≡ (if has b bs then m.view b else base b)
unfolding write_log_from bwrite home_of
write_log_from-home_of start tail [] m base b h few = refl
write_log_from-home_of start tail (x ∷ bs) m base b h few = elim (Bool-cases (x == b)) [
  | inl e ↦
      let rest =
        write_log_from-other start (suc tail) bs (bwrite (slot start tail) (m.view x) m)
          (slot start tail) (λ j lo hi q. omega arith) in
      rw e (rest.0 ∙ update_self m.disk (slot start tail) (m.view x) ∙ ap m.view (eqb→eq x b e))
  | inr ne ↦ rw ne (
      write_log_from-home_of start (suc tail) bs (bwrite (slot start tail) (m.view x) m) base b h.1
        (omega arith)
      ∙ elim (Bool-cases (has b bs)) [
        | inl q ↦ rw q (
            update_ne m.view _ b _
              λ p. home-ne-slot start b tail (has-All _ bs b h.1 q) (omega arith) (sym p))
        | inr q ↦ rw q refl
      ])
]
