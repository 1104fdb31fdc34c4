-- ===== src/Log/Commit.antt =====
-- `commit` of kernel/log.c is atomic: a crash between any two of its writes leaves a disk from
-- which recovery restores all blocks of the transaction or none.
use mit_operating_system_eng.Base.{
  ℕ, ◌+◌, ◌≤◌, ◌<◌, ◌≡◌, ◌≢◌, refl, sym, ◌∙◌, ◌⊎◌, inl, inr, true, false, [], ◌∷◌, length, ap, All,
  has, Distinct, update_ne, update_self, Bool-cases, arith,
}
use mit_operating_system_eng.Log.{
  Block, Disk, Device, Machine, log_blocks, slot, bwrite, overlay, header_blocks, write_block_list,
  install_from, write_log_from,
}
use mit_operating_system_eng.Log.Header.{header_blocks-overlay, length-overlay}
use mit_operating_system_eng.Log.Install.{
  is_home, AllHome, home_of, home_of-slots, home_of-has, home_of-not_has, slots_of, SameOff, Traced,
  install_from-disk, install_from-view, install_from-Traced,
}
use mit_operating_system_eng.Log.WriteLog.{
  is_slot, write_log_from-home, write_log_from-header, write_log_from-Traced,
  write_log_from-coherent, write_log_from-home_of,
}
use mit_operating_system_eng.Log.Crash.{
  logical, Holds, home-ne-start, not_has_of_away, Holds-install, Holds-empty,
}
use mit_operating_system_eng.Log.Recover.{All-has, Holds-erase}

-- A block is BSIZE bytes, 256 words.
abbrev pub block_words : ℕ
block_words = 256

-- What holds when `commit` is called: the log on disk is empty, the blocks to commit are distinct
-- home blocks that fit the log, and only they differ from the disk in the cache.
pub record IsReady (m : Machine) : Type 0 where
  pub empty : header_blocks (m.disk m.start) ≡ []
  pub words : length (m.view m.start) ≡ block_words
  pub home : AllHome m.start m.block
  pub distinct : Distinct m.block
  pub few : length m.block ≤ log_blocks
  pub clean : (b : ℕ) → is_home m.start b ≡ true → has b m.block ≡ false → m.disk b ≡ m.view b

-- What a disk holds at a crash: all of the old contents, or all of the new.
abbrev pub OldOrNew : Machine → Disk → Type 0
OldOrNew m d = Holds m.start m.disk d ⊎ Holds m.start m.view d

module _ (m : Machine) (ready : IsReady m) where
  open ready use {empty, words, home, distinct, few, clean}

  -- after `write_log`
  abbrev pub logged : Device
  logged = write_log_from m.start 0 m.block m.dev

  -- after the first `write_head`
  abbrev pub committed : Device
  committed = write_block_list m.start m.block logged

  -- after `install_trans`
  abbrev pub installed : Device
  installed = install_from m.start false 0 m.block committed

  fits : 0 + length m.block ≤ log_blocks
  fits = omega arith

  logged-keeps : (d : Disk) → SameOff (is_slot m.start) d m.disk → OldOrNew m d
  logged-keeps d off = inl (
      Holds-empty m.start m.disk d (rw (off m.start (ground arith)) empty)
        λ b h. off b (ground arith))

  header : Block
  header = overlay (length m.block ∷ m.block) (logged.view m.start)

  header-blocks : header_blocks header ≡ m.block
  unfolding header
  header-blocks =
      header_blocks-overlay m.block (logged.view m.start)
        (rw (write_log_from-header m.start 0 m.block m.dev).1 (omega arith))

  -- The first `write_head` changes the header block alone.
  committed-header : committed.disk m.start ≡ header
  unfolding write_block_list bwrite header
  committed-header = update_self logged.disk m.start _

  committed-other :
      (b : ℕ)
      → m.start ≢ b
      → (committed.disk b ≡ logged.disk b) × (committed.view b ≡ logged.view b)
  unfolding write_block_list bwrite
  committed-other b ne =
      (update_ne logged.disk m.start b _ ne, update_ne logged.view m.start b _ ne)

  -- Outside the transaction the disk holds what the cache does; the slots hold the transaction.
  committed-home_of :
      (b : ℕ)
      → is_home m.start b ≡ true
      → home_of (slots_of m.start committed.disk) committed.disk 0 m.block b ≡ m.view b
  committed-home_of b h =
      home_of-slots (slots_of m.start committed.disk) (slots_of m.start logged.disk) committed.disk
        0 m.block b (λ i lt. (committed-other (slot m.start i) (λ e. omega arith)).0)
      ∙ write_log_from-home_of m.start 0 m.block m.dev committed.disk b home fits
      ∙ elim (Bool-cases (has b m.block)) [
        | inl q ↦ rw q refl
        | inr q ↦ rw q (
            (committed-other b (home-ne-start m.start b h)).0
            ∙ (write_log_from-home m.start 0 m.block m.dev b fits h).0
            ∙ clean b h q)
      ]

  committed-Holds : Holds m.start m.view committed.disk
  unfolding logical
  committed-Holds = record {
    sound = record {
      home = rw (committed-header, header-blocks) home;
      distinct = rw (committed-header, header-blocks) distinct;
      few = rw (committed-header, header-blocks) few;
    };
    same = λ b h. rw (committed-header, header-blocks) (committed-home_of b h);
  }

  installed-keeps : (d : Disk) → SameOff (λ b. has b m.block) d committed.disk → OldOrNew m d
  installed-keeps d off = inr (
      Holds-install m.start m.view committed.disk d committed-Holds
        (rw (committed-header, header-blocks) off))

  -- `install_trans` reads the slots through the cache, which agrees with the disk there.
  committed-coherent :
      (i : ℕ)
      → i < 0 + length m.block
      → committed.view (slot m.start i) ≡ committed.disk (slot m.start i)
  committed-coherent i lt =
      let other = committed-other (slot m.start i) (λ e. omega arith) in
      other.1
      ∙ sym (write_log_from-coherent m.start 0 m.block m.dev i (omega arith) lt)
      ∙ sym other.0

  committed-slots :
      (b : ℕ)
      → is_home m.start b ≡ true
      → home_of (slots_of m.start committed.view) committed.disk 0 m.block b ≡ m.view b
  committed-slots b h =
      home_of-slots (slots_of m.start committed.view) (slots_of m.start committed.disk)
        committed.disk 0 m.block b committed-coherent
      ∙ committed-home_of b h

  installed-disk : (b : ℕ) → is_home m.start b ≡ true → installed.disk b ≡ m.view b
  installed-disk b h =
      install_from-disk m.start false 0 m.block committed home distinct fits b ∙ committed-slots b h

  -- The cache of a block outside the transaction is as before.
  installed-view : (b : ℕ) → is_home m.start b ≡ true → installed.view b ≡ m.view b
  installed-view b h =
      install_from-view m.start false 0 m.block committed home distinct fits b
      ∙ elim (Bool-cases (has b m.block)) [
        | inl q ↦
            home_of-has (slots_of m.start committed.view) committed.view committed.disk 0 m.block b
              q
            ∙ committed-slots b h
        | inr q ↦
            home_of-not_has (slots_of m.start committed.view) committed.view 0 m.block b q
            ∙ (committed-other b (home-ne-start m.start b h)).1
            ∙ (write_log_from-home m.start 0 m.block m.dev b fits h).1
      ]

  pub erased-Holds :
      Holds m.start m.view (write_block_list m.start [] installed).disk
      × ((b : ℕ)
          → is_home m.start b ≡ true
          → (write_block_list m.start [] installed).disk b ≡ m.view b)
  erased-Holds = Holds-erase m.start m.view installed installed-disk

  pub erased-view :
      (b : ℕ) → is_home m.start b ≡ true → (write_block_list m.start [] installed).view b ≡ m.view b
  unfolding write_block_list bwrite
  erased-view b h =
      update_ne installed.view m.start b _ (home-ne-start m.start b h) ∙ installed-view b h

  -- The header block keeps its size.
  pub erased-words : length ((write_block_list m.start [] installed).view m.start) ≡ block_words
  unfolding write_block_list bwrite
  erased-words =
      ap length (update_self installed.view m.start _)
      ∙ length-overlay (0 ∷ []) (installed.view m.start)
      ∙ ap length (
          install_from-view m.start false 0 m.block committed home distinct fits m.start
          ∙ home_of-not_has (slots_of m.start committed.view) committed.view 0 m.block m.start
              (not_has_of_away m.start m.block m.start home (ground arith))
          ∙ update_self logged.view m.start _)
      ∙ length-overlay (length m.block ∷ m.block) (logged.view m.start)
      ∙ ap length (write_log_from-header m.start 0 m.block m.dev).1
      ∙ words

-- The durable states on the way, from a commit that starts with no write behind it.
module _ (m : Machine) (ready : IsReady m) (fresh : m.past ≡ []) where
  logged-Traced : Traced (OldOrNew m) (is_slot m.start) m.disk (logged m ready)
  logged-Traced =
      write_log_from-Traced (logged-keeps m ready) m.start 0 m.block m.dev (λ i lt. ground arith)
        (fits m ready) (record { before = rw fresh tt; now = λ b q. refl })

  installed-Traced :
      Traced (OldOrNew m) (λ b. has b m.block) (committed m ready).disk (installed m ready)
  unfolding write_block_list bwrite
  installed-Traced =
      install_from-Traced (installed-keeps m ready) m.start false 0 m.block (committed m ready)
        (All-has m.block m.block (λ x q. q))
        (record {
          before =
              (logged-keeps m ready (logged m ready).disk logged-Traced.now, logged-Traced.before);
          now = λ b q. refl;
        })

  pub erased-past : All (OldOrNew m) (write_block_list m.start [] (installed m ready)).past
  unfolding write_block_list bwrite
  erased-past = (
    installed-keeps m ready (installed m ready).disk installed-Traced.now,
    installed-Traced.before,
  )
