-- ===== src/Files/Tests.antt =====
-- Runs of the descriptor calls, and an instance of the theorem about them.
use mit_operating_system_eng.Base.{
  ◌≡◌, refl, true, false, Option, none, some, List, [], ◌∷◌, replicate, Outcome, ok, panic, arith,
}
use mit_operating_system_eng.Process.{find}
use mit_operating_system_eng.Files.{
  fd_none, File, State, Layers, Inode, filealloc, filedup, fileclose, argfd, place, fdalloc,
  sys_dup, sys_close, sys_write, filewrite, write_loop, open_inode, sys_open,
}
use mit_operating_system_eng.Files.Counts.{count, Counted}
use mit_operating_system_eng.Files.Session.{
  Call, opens, dups, closes, writes, run, Lasts, run-Lasts,
}

abbrev closed_file : File
closed_file = record {
  kind = fd_none;
  ref = 0;
  readable = false;
  writable = false;
  object = 0;
  off = 0;
  major = 0;
}

abbrev bare : State
bare = record { file = λ f. closed_file; ofile = replicate 16 none }

bare-Counted : Counted (λ f. 0) bare
unfolding count
bare-Counted = record { exact = λ f. refl; typed = λ f h. absurd (omega arith) }

-- Each write to the inode goes through.
abbrev whole : Layers
whole = record { pipe = none; has_device = false; device = none; inode = λ i off n. some n }

abbrev node : Option Inode
node = some (record { ip = 5; is_dir = false; is_file = true; is_device = false; major = 0 })

abbrev calls : List Call
calls = opens 1 node ∷ dups 0 ∷ writes whole 1 4000 ∷ closes 0 ∷ []

run-Lasts_example : Lasts (λ f. 0) (run calls bare)
run-Lasts_example = run-Lasts (λ f. 0) calls bare bare-Counted

abbrev or_bare : Outcome State → State
or_bare panic = bare
or_bare (ok s) = s

written :
    (((or_bare (run calls bare)).file 0).ref ≡ 1) × (((or_bare (run calls bare)).file 0).off ≡ 4000)
unfolding run filealloc filedup fileclose argfd place fdalloc sys_dup sys_close sys_write filewrite
    write_loop open_inode sys_open find
written = (refl, refl)
