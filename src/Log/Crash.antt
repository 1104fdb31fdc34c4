-- ===== src/Log/Crash.antt =====
-- Crashes during `commit` and `recover_from_log` of kernel/log.c.
use mit_operating_system_eng.Base.{
  ℕ, ◌+◌, ◌≤◌, ◌<◌, ◌≡◌, ◌≢◌, ◌∙◌, inl, inr, true, false, List, [], length, has, has-All, Distinct,
  Bool-cases, arith,
}
use mit_operating_system_eng.Log.{Block, Disk, Machine, log_blocks, slot, header_blocks, initlog}
use mit_operating_system_eng.Log.Install.{
  is_home, AllHome, home_of, home_of-slots, home_of-base, home_of-has, slots_of, SameOff,
}

-- What the file system holds on a disk: the home blocks, with those that a committed transaction
-- has in the log taken from there.
unfoldable pub logical : ℕ → Disk → ℕ → Block
logical start d b = home_of (slots_of start d) d 0 (header_blocks (d start)) b

-- The header names distinct blocks outside the log, no more than there are slots.
pub record IsSound (start : ℕ) (d : Disk) : Type 0 where
  pub home : AllHome start (header_blocks (d start))
  pub distinct : Distinct (header_blocks (d start))
  pub few : length (header_blocks (d start)) ≤ log_blocks

-- The machine that starts from a disk.
abbrev pub power_on : Disk → Machine
power_on d = record {
  dev = record { disk = d; view = d; past = []; pins = λ _. 0 };
  start = 0;
  outstanding = 0;
  committing = false;
  block = [];
}

abbrev pub reboot : ℕ → Disk → Machine
reboot start d = initlog start (power_on d)

-- On the home blocks `d` holds what `v` does, logically, and can be recovered.
pub record Holds (start : ℕ) (v : Disk) (d : Disk) : Type 0 where
  pub sound : IsSound start d
  pub same : (b : ℕ) → is_home start b ≡ true → logical start d b ≡ v b

pub home-ne-start : (start b : ℕ) → is_home start b ≡ true → start ≢ b
home-ne-start start b h e = ground arith

pub not_has_of_away :
    (start : ℕ) (bs : List ℕ) (b : ℕ)
    → AllHome start bs
    → is_home start b ≡ false
    → has b bs ≡ false
not_has_of_away start bs b h away = elim (Bool-cases (has b bs)) [
  | inl q ↦ cc (has-All _ bs b h q)
  | inr q ↦ q
]

-- Changes to home blocks that the header names do not change what a disk holds.
pub Holds-install :
    (start : ℕ) (v e d : Disk)
    → Holds start v e
    → SameOff (λ b. has b (header_blocks (e start))) d e
    → Holds start v d
unfolding logical
Holds-install start v e d hold off = record {
  sound = record {
    home = rw same_header hold.sound.home;
    distinct = rw same_header hold.sound.distinct;
    few = rw same_header hold.sound.few;
  };
  same = λ b h. rw same_header (
      home_of-slots (slots_of start d) (slots_of start e) d 0 names b same_slots
      ∙ move b
      ∙ hold.same b h);
}
  where
    names : List ℕ
    names = header_blocks (e start)

    away : (b : ℕ) → is_home start b ≡ false → d b ≡ e b
    away b q = off b (not_has_of_away start names b hold.sound.home q)

    same_header : d start ≡ e start
    same_header = away start (ground arith)

    same_slots : (i : ℕ) → i < 0 + length names → d (slot start i) ≡ e (slot start i)
    same_slots i lt =
        let few : length names ≤ log_blocks = hold.sound.few in away (slot start i) (ground arith)

    move : (b : ℕ) → home_of (slots_of start e) d 0 names b ≡ home_of (slots_of start e) e 0 names b
    move b = elim (Bool-cases (has b names)) [
      | inl q ↦ home_of-has _ d e 0 names b q
      | inr q ↦ home_of-base _ d e 0 names b (off b q)
    ]

-- A disk whose header is empty holds what its home blocks do.
pub Holds-empty :
    (start : ℕ) (v d : Disk)
    → header_blocks (d start) ≡ []
    → ((b : ℕ) → is_home start b ≡ true → d b ≡ v b)
    → Holds start v d
unfolding logical home_of
Holds-empty start v d empty same = record {
  sound = record { home = rw empty tt; distinct = rw empty tt; few = rw empty (omega arith) };
  same = λ b h. rw empty (same b h);
}
