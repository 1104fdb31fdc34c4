-- ===== src/Log/Tests.antt =====
-- Runs of kernel/log.c on a small disk, and instances of the theorems about it.
use mit_operating_system_eng.Base.{
  ◌≡◌, refl, true, false, none, some, List, [], ◌∷◌, length, replicate, All, update, ◌==◌,
  if◌then◌else◌, arith,
}
use mit_operating_system_eng.Log.{
  Disk, Machine, Stage, copying, heading, installing, clearing, act, begin_op, end_commit,
  header_blocks, commit, install_from, write_log_from,
}
use mit_operating_system_eng.Log.Install.{home_of}
use mit_operating_system_eng.Log.Crash.{Holds, logical, reboot}
use mit_operating_system_eng.Log.Recover.{Recovered, initlog-Recovered}
use mit_operating_system_eng.Log.Commit.{IsReady}
use mit_operating_system_eng.Log.Atomic.{AllOrNothing, commit_crash}
use mit_operating_system_eng.Log.Session.{System}

-- The log starts at block 2; every other block holds its number.
abbrev plain : Disk
plain b = if b == 2 then replicate 256 0 else b ∷ []

-- Block 100 has new data in the cache.
abbrev cached : Disk
cached = update plain 100 (7 ∷ [])

abbrev busy : Machine
busy = record {
  dev = record { disk = plain; view = cached; past = []; pins = λ b. if 100 == b then 1 else 0 };
  start = 2;
  outstanding = 1;
  committing = false;
  block = 100 ∷ [];
}

busy-IsReady : IsReady busy
unfolding header_blocks
busy-IsReady = record {
  empty = refl;
  words = refl;
  home = (refl, tt);
  distinct = (refl, tt);
  few = omega arith;
  clean = λ b h out. ground arith;
}

commit_crash_example : All (AllOrNothing busy) ((commit busy).disk ∷ (commit busy).past)
commit_crash_example = commit_crash busy busy-IsReady refl

-- `commit` makes four writes: the slot, the header, the home block and the header again.
commit_writes : length (commit busy).past ≡ 4
unfolding commit install_from write_log_from
commit_writes = refl

-- A disk whose log holds block 100, not yet copied home.
abbrev logged : Disk
logged b = if b == 2 then 1 ∷ 100 ∷ [] else if b == 3 then 7 ∷ [] else b ∷ []

abbrev copied : Disk
copied = update logged 100 (7 ∷ [])

logged-Holds : Holds 2 copied logged
unfolding header_blocks logical home_of
logged-Holds = record {
  sound = record { home = (refl, tt); distinct = (refl, tt); few = omega arith };
  same = λ b h. ground arith;
}

initlog-Recovered_example : Recovered 2 copied (reboot 2 logged)
initlog-Recovered_example = initlog-Recovered 2 copied logged logged-Holds

-- One call at work, that may still write nine blocks.
abbrev working : System
working = record { m = busy; budgets = 9 ∷ []; committer = none }

-- It is the last one out, and goes on to commit.
abbrev last_out : System
last_out = record {
  m = record busy { outstanding = 0; committing = true };
  budgets = [];
  committer = some (copying ∷ heading ∷ installing ∷ clearing ∷ heading ∷ []);
}

abbrev after : Stage → List Stage → System → System
after c cs s = record s { m = act c s.m; committer = some cs }

abbrev erased : System
erased = after heading [] (
    after clearing (heading ∷ []) (
      after installing (clearing ∷ heading ∷ []) (
        after heading (installing ∷ clearing ∷ heading ∷ [])
          (after copying (heading ∷ installing ∷ clearing ∷ heading ∷ []) last_out))))

abbrev committed : System
committed = record erased { m = end_commit erased.m; committer = none }

-- The next call begins.
abbrev again : System
again = record { m = record (committed.m) { outstanding = 1 }; budgets = 10 ∷ []; committer = none }

-- Nobody begins while the call commits.
shut_out : begin_op last_out.m ≡ none
unfolding begin_op
shut_out = refl
