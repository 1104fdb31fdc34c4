-- ===== src/Log/Install.antt =====
-- The loops of kernel/log.c that copy between log slots and home blocks: what they leave on the
-- disk, and which blocks they write.
use mit_operating_system_eng.Base.{
  ℕ, suc, ◌+◌, ◌≤◌, ◌<◌, ◌≡◌, ◌≢◌, refl, ◌∙◌, Bool, true, false, ◌||◌, inl, inr, List, [], ◌∷◌,
  length, All, has, Distinct, update, update_ne, ltb, ◌==◌, if◌then◌else◌, Bool-cases, eqb→eq,
  arith,
}
use mit_operating_system_eng.Log.{
  Block, Disk, Device, log_blocks, slot, bwrite, bunpin, install_one, install_from,
}

-- A block outside the log area.
abbrev pub is_home : ℕ → ℕ → Bool
is_home start b = ltb b start || ltb (start + log_blocks) b

abbrev pub AllHome : ℕ → List ℕ → Type 0
AllHome start bs = All (λ b. is_home start b ≡ true) bs

-- What block `b` holds once `slots` are copied home over `base`.
unfoldable pub home_of : (ℕ → Block) → Disk → ℕ → List ℕ → ℕ → Block
home_of slots base tail [] b = base b
home_of slots base tail (x ∷ xs) b =
    if x == b then slots tail else home_of slots base (suc tail) xs b

pub home_of-base :
    (slots : ℕ → Block) (d d' : Disk) (tail : ℕ) (bs : List ℕ) (b : ℕ)
    → d b ≡ d' b
    → home_of slots d tail bs b ≡ home_of slots d' tail bs b
unfolding home_of
home_of-base slots d d' tail [] b h = h
home_of-base slots d d' tail (x ∷ xs) b h =
    ground (arith, home_of-base slots d d' (suc tail) xs b h)

-- At a block of the list the base does not matter.
pub home_of-has :
    (slots : ℕ → Block) (d d' : Disk) (tail : ℕ) (bs : List ℕ) (b : ℕ)
    → has b bs ≡ true
    → home_of slots d tail bs b ≡ home_of slots d' tail bs b
unfolding home_of
home_of-has slots d d' tail [] b h = ground arith
home_of-has slots d d' tail (x ∷ xs) b h = ground (arith, home_of-has slots d d' (suc tail) xs b)

pub home_of-not_has :
    (slots : ℕ → Block) (d : Disk) (tail : ℕ) (bs : List ℕ) (b : ℕ)
    → has b bs ≡ false
    → home_of slots d tail bs b ≡ d b
unfolding home_of
home_of-not_has slots d tail [] b h = refl
home_of-not_has slots d tail (x ∷ xs) b h = ground (arith, home_of-not_has slots d (suc tail) xs b)

-- Only the slots of the list matter.
pub home_of-slots :
    (slots slots' : ℕ → Block) (d : Disk) (tail : ℕ) (bs : List ℕ) (b : ℕ)
    → ((i : ℕ) → i < tail + length bs → slots i ≡ slots' i)
    → home_of slots d tail bs b ≡ home_of slots' d tail bs b
unfolding home_of
home_of-slots slots slots' d tail [] b same = refl
home_of-slots slots slots' d tail (x ∷ xs) b same = ground (
  arith,
  same tail (omega arith),
  home_of-slots slots slots' d (suc tail) xs b (λ i h. same i (omega arith)),
)

pub home-ne-slot : (start b i : ℕ) → is_home start b ≡ true → i < log_blocks → b ≢ slot start i
home-ne-slot start b i h lt e = ground arith

home_of-step :
    (slots : ℕ → Block) (d : Disk) (tail x : ℕ) (bs : List ℕ) (b : ℕ)
    → has x bs ≡ false
    → home_of slots (update d x (slots tail)) (suc tail) bs b ≡ home_of slots d tail (x ∷ bs) b
unfolding home_of
home_of-step slots d tail x bs b out = elim (Bool-cases (x == b)) [
  | inl e ↦
      rw
        (
          e,
          home_of-not_has slots (update d x (slots tail)) (suc tail) bs b
              (rw (eqb→eq x b e) at out),
        )
        (ground arith)
  | inr e ↦ rw e (home_of-base slots (update d x (slots tail)) d (suc tail) bs b (ground arith))
]

abbrev pub slots_of : ℕ → Disk → ℕ → Block
slots_of start d i = d (slot start i)

-- A write to a home block leaves the slots alone.
slots-update :
    (start x : ℕ) (v : Disk) (w : Block) (d : Disk) (tail : ℕ) (bs : List ℕ) (b : ℕ)
    → is_home start x ≡ true
    → tail + length bs ≤ log_blocks
    → home_of (slots_of start (update v x w)) d tail bs b ≡ home_of (slots_of start v) d tail bs b
slots-update start x v w d tail bs b h few =
    home_of-slots (slots_of start (update v x w)) (slots_of start v) d tail bs b
      λ i lt. update_ne v x (slot start i) w (home-ne-slot start x i h (omega arith))

-- `install_trans` leaves the log's copies on the disk.
pub install_from-disk :
    (start : ℕ) (rec : Bool) (tail : ℕ) (bs : List ℕ) (m : Device)
    → AllHome start bs
    → Distinct bs
    → tail + length bs ≤ log_blocks
    → (b : ℕ)
    → (install_from start rec tail bs m).disk b ≡ home_of (slots_of start m.view) m.disk tail bs b
unfolding install_from install_one home_of
install_from-disk start rec tail [] m h dist few b = refl
install_from-disk start true tail (x ∷ bs) m h dist few b =
    install_from-disk start true (suc tail) bs (install_one start true tail x m) h.1 dist.1
      (omega arith) b
    ∙ slots-update start x m.view _ _ (suc tail) bs b h.0 (omega arith)
    ∙ home_of-step (slots_of start m.view) m.disk tail x bs b dist.0
install_from-disk start false tail (x ∷ bs) m h dist few b =
    install_from-disk start false (suc tail) bs (install_one start false tail x m) h.1 dist.1
      (omega arith) b
    ∙ slots-update start x m.view _ _ (suc tail) bs b h.0 (omega arith)
    ∙ home_of-step (slots_of start m.view) m.disk tail x bs b dist.0

-- It leaves the cache as it leaves the disk.
pub install_from-view :
    (start : ℕ) (rec : Bool) (tail : ℕ) (bs : List ℕ) (m : Device)
    → AllHome start bs
    → Distinct bs
    → tail + length bs ≤ log_blocks
    → (b : ℕ)
    → (install_from start rec tail bs m).view b ≡ home_of (slots_of start m.view) m.view tail bs b
unfolding install_from install_one home_of
install_from-view start rec tail [] m h dist few b = refl
install_from-view start true tail (x ∷ bs) m h dist few b =
    install_from-view start true (suc tail) bs (install_one start true tail x m) h.1 dist.1
      (omega arith) b
    ∙ slots-update start x m.view _ _ (suc tail) bs b h.0 (omega arith)
    ∙ home_of-step (slots_of start m.view) m.view tail x bs b dist.0
install_from-view start false tail (x ∷ bs) m h dist few b =
    install_from-view start false (suc tail) bs (install_one start false tail x m) h.1 dist.1
      (omega arith) b
    ∙ slots-update start x m.view _ _ (suc tail) bs b h.0 (omega arith)
    ∙ home_of-step (slots_of start m.view) m.view tail x bs b dist.0

-- Two disks that agree at every block outside `W`.
abbrev pub SameOff : (ℕ → Bool) → Disk → Disk → Type 0
SameOff W d e = (b : ℕ) → W b ≡ false → d b ≡ e b

-- The durable states that a phase goes through: all satisfy `P`, and differ from `e` inside `W` only.
pub record Traced (P : Disk → Type 0) (W : ℕ → Bool) (e : Disk) (m : Device) : Type 0 where
  pub before : All P m.past
  pub now : SameOff W m.disk e

module _ {P : Disk → Type 0} {W : ℕ → Bool} {e : Disk}
    (keeps : (d : Disk) → SameOff W d e → P d) where
  pub bwrite-Traced :
      (b : ℕ) (w : Block) (m : Device) → W b ≡ true → Traced P W e m → Traced P W e (bwrite b w m)
  unfolding bwrite
  bwrite-Traced b w m inside t = record {
    before = (keeps m.disk t.now, t.before);
    now = λ c out. update_ne m.disk b c w (λ q. cc) ∙ t.now c out;
  }

  pub install_from-Traced :
      (start : ℕ) (rec : Bool) (tail : ℕ) (bs : List ℕ) (m : Device)
      → All (λ b. W b ≡ true) bs
      → Traced P W e m
      → Traced P W e (install_from start rec tail bs m)
  unfolding install_from install_one bunpin
  install_from-Traced start rec tail [] m inside t = t
  install_from-Traced start true tail (x ∷ bs) m inside t =
      install_from-Traced start true (suc tail) bs _ inside.1 (bwrite-Traced x _ m inside.0 t)
  install_from-Traced start false tail (x ∷ bs) m inside t =
      let step = bwrite-Traced x (m.view (slot start tail)) m inside.0 t in
      install_from-Traced start false (suc tail) bs _ inside.1
        (record { before = step.before; now = step.now })
