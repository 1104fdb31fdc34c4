-- ===== src/Log/Recover.antt =====
-- `recover_from_log` of kernel/log.c, run to its end or cut off by another crash.
use mit_operating_system_eng.Base.{
  ℕ, ◌+◌, ◌≤◌, ◌≡◌, refl, ◌∙◌, true, List, [], ◌∷◌, length, All, has, update, update_ne,
  update_self, arith,
}
use mit_operating_system_eng.Log.{
  Disk, Device, Machine, log_blocks, bwrite, overlay, header_blocks, write_block_list, install_from,
  initlog,
}
use mit_operating_system_eng.Log.Header.{header_blocks-clear}
use mit_operating_system_eng.Log.Install.{
  is_home, SameOff, Traced, install_from-disk, install_from-Traced,
}
use mit_operating_system_eng.Log.Crash.{
  logical, power_on, reboot, Holds, home-ne-start, Holds-install, Holds-empty,
}

-- Every number of a list is in it.
pub All-has :
    (xs ys : List ℕ) → ((x : ℕ) → has x xs ≡ true → has x ys ≡ true) → All (λ x. has x ys ≡ true) xs
All-has [] ys h = tt
All-has (x ∷ xs) ys h = (h x (ground arith), All-has xs ys (λ y q. h y (ground arith)))

pub erase-header :
    (start : ℕ) (d : Device) → header_blocks ((write_block_list start [] d).disk start) ≡ []
unfolding write_block_list bwrite
erase-header start d =
    rw (update_self d.disk start (overlay (0 ∷ []) (d.view start)))
      (header_blocks-clear (d.view start))

-- Erasing the header leaves the home blocks, and what they hold is what the disk holds.
pub Holds-erase :
    (start : ℕ) (v : Disk) (d : Device)
    → ((b : ℕ) → is_home start b ≡ true → d.disk b ≡ v b)
    → let d' = write_block_list start [] d in
      Holds start v d'.disk × ((b : ℕ) → is_home start b ≡ true → d'.disk b ≡ v b)
unfolding write_block_list bwrite
Holds-erase start v d same = (Holds-empty start v _ (erase-header start d) home, home)
  where
    home :
        (b : ℕ)
        → is_home start b ≡ true
        → update d.disk start (overlay (0 ∷ []) (d.view start)) b ≡ v b
    home b h = update_ne d.disk start b _ (home-ne-start start b h) ∙ same b h

-- What a recovery, complete or not, leaves.
pub record Recovered (start : ℕ) (v : Disk) (m : Machine) : Type 0 where
  pub held : Holds start v m.disk
  pub held_before : All (Holds start v) m.past
  pub installed : (b : ℕ) → is_home start b ≡ true → m.disk b ≡ v b
  pub cleared : m.block ≡ []
  pub erased : header_blocks (m.disk start) ≡ []

-- Recovery of a disk that logically holds `v` copies `v` to the home blocks and clears the header, in
-- memory and on the disk;
-- the disk logically holds `v` after each of its writes, so that a recovery that crashes can be
-- run again.
pub initlog-Recovered :
    (start : ℕ) (v d : Disk) → Holds start v d → Recovered start v (reboot start d)
unfolding initlog logical
initlog-Recovered start v d hold = record {
  held = ended.0;
  held_before = (keeps (installed).disk trace.now, trace.before);
  installed = ended.1;
  cleared = refl;
  erased = erase-header start installed;
}
  where
    names : List ℕ
    names = header_blocks (d start)

    installed : Device
    installed = install_from start true 0 names (power_on d).dev

    keeps : (e : Disk) → SameOff (λ b. has b names) e d → Holds start v e
    keeps e off = Holds-install start v d e hold off

    trace : Traced (Holds start v) (λ b. has b names) d installed
    trace =
        install_from-Traced keeps start true 0 names (power_on d).dev
          (All-has names names (λ x q. q)) (record { before = tt; now = λ b q. refl })

    fits : 0 + length names ≤ log_blocks
    fits = let few : length names ≤ log_blocks = hold.sound.few in omega arith

    ended :
        Holds start v (write_block_list start [] installed).disk
        × ((b : ℕ) → is_home start b ≡ true → (write_block_list start [] installed).disk b ≡ v b)
    ended = Holds-erase start v installed λ b h.
        install_from-disk start true 0 names (power_on d).dev hold.sound.home hold.sound.distinct
          fits b
        ∙ hold.same b h
