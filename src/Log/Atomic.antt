-- ===== src/Log/Atomic.antt =====
-- The transactions of kernel/log.c: what a commit leaves, at its end and at a crash.
use mit_operating_system_eng.Base.{
  ℕ, ◌≡◌, ◌⊎◌, inl, inr, true, false, List, [], ◌∷◌, length, All, All-mono, ltb, Bool-cases, arith,
  refl,
}
use mit_operating_system_eng.Log.{Disk, Machine, header_blocks, commit}
use mit_operating_system_eng.Log.Install.{is_home}
use mit_operating_system_eng.Log.Crash.{Holds-empty, reboot}
use mit_operating_system_eng.Log.Recover.{Recovered, initlog-Recovered, erase-header}
use mit_operating_system_eng.Log.Commit.{
  IsReady, OldOrNew, installed, erased-Holds, erased-past, erased-view,
}

-- What a complete commit leaves: an empty log, and a disk that agrees with the cache.
pub record Committed (m m' : Machine) : Type 0 where
  pub block_empty : m'.block ≡ []
  pub header_empty : header_blocks (m'.disk m.start) ≡ []
  pub on_disk : (b : ℕ) → is_home m.start b ≡ true → m'.disk b ≡ m.view b
  pub in_cache : (b : ℕ) → is_home m.start b ≡ true → m'.view b ≡ m.view b

pub empty_block : (xs : List ℕ) → ltb 0 (length xs) ≡ false → xs ≡ []
empty_block [] h = refl
empty_block (x ∷ xs) h = absurd (ground arith)

nothing_to_write :
    (m : Machine)
    → IsReady m
    → m.block ≡ []
    → (b : ℕ) → is_home m.start b ≡ true
    → m.disk b ≡ m.view b
nothing_to_write m ready e b h = ready.clean b h (rw e refl)

-- A commit that runs to its end copies the cached blocks to their homes and empties the log, in
-- memory and on the disk.
pub commit-Committed : (m : Machine) → IsReady m → Committed m (commit m)
unfolding commit
commit-Committed m ready = elim (Bool-cases (ltb 0 (length m.block))) [
  | inl more ↦ rw more (record {
    block_empty = refl;
    header_empty = erase-header m.start (installed m ready);
    on_disk = (erased-Holds m ready).1;
    in_cache = erased-view m ready;
  })
  | inr none_left ↦ rw none_left (record {
    block_empty = empty_block m.block none_left;
    header_empty = ready.empty;
    on_disk = nothing_to_write m ready (empty_block m.block none_left);
    in_cache = λ b h. refl;
  })
]

commit-OldOrNew :
    (m : Machine) → IsReady m → m.past ≡ [] → All (OldOrNew m) ((commit m).disk ∷ (commit m).past)
unfolding commit
commit-OldOrNew m ready fresh = elim (Bool-cases (ltb 0 (length m.block))) [
  | inl more ↦ rw more (inr (erased-Holds m ready).0, erased-past m ready fresh)
  | inr none_left ↦
      rw none_left (inl (Holds-empty m.start m.disk m.disk ready.empty (λ b h. refl)), rw fresh tt)
]

-- The blocks after recovery are those before the transaction, or those that it commits.
abbrev pub AllOrNothing : Machine → Disk → Type 0
AllOrNothing m d =
    Recovered m.start m.disk (reboot m.start d) ⊎ Recovered m.start m.view (reboot m.start d)

recovers : (m : Machine) (d : Disk) → OldOrNew m d → AllOrNothing m d
recovers m d (inl old) = inl (initlog-Recovered m.start m.disk d old)
recovers m d (inr new) = inr (initlog-Recovered m.start m.view d new)

-- If the machine crashes before, between or after any of the writes of `commit`, then `initlog`
-- restores on the home blocks either everything as it was on the disk before the commit or
-- everything as it was in the cache.
-- `past` counts the writes from the start of the commit.
pub commit_crash :
    (m : Machine)
    → IsReady m
    → m.past ≡ []
    → All (AllOrNothing m) ((commit m).disk ∷ (commit m).past)
commit_crash m ready fresh =
    All-mono (OldOrNew m) (AllOrNothing m) ((commit m).disk ∷ (commit m).past) (recovers m)
      (commit-OldOrNew m ready fresh)
