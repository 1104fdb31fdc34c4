-- ===== src/Process/Tests.antt =====
-- Runs of kernel/proc.c, and instances of the theorems about it.
use mit_operating_system_eng.Base.{
  ℕ, ◌≡◌, refl, true, false, Option, none, some, [], replicate, arith, Outcome, ok, panic,
}
use mit_operating_system_eng.Process.{
  Proc, Table, unused, running, no_chan, nproc, find, each, procinit, dispatch, kkill, wakeup,
  is_unused, yield_cpu,
}
use mit_operating_system_eng.Process.Inv.{Inv}
use mit_operating_system_eng.Process.Life.{
  Memory, launch, dup_files, mapped_files, open_files, copy_fds, copy_vmas, release_all,
  close_files, unmap_all, userinit, allocproc, kfork, kexit, exit_locked, reparent_from, reaped,
  kwait,
}
use mit_operating_system_eng.Process.Reach.{Blank, Reach, here, next, run, fork, yield, booted-Inv}
use mit_operating_system_eng.Process.Exit.{Exited, kexit_lem}
use mit_operating_system_eng.Process.Kill.{kkill_zero}
use mit_operating_system_eng.Process.Reap.{Answer, kwait_lem}

abbrev blank_proc : Proc
blank_proc = record {
  state = unused;
  chan = no_chan;
  killed = false;
  xstate = 0;
  pid = 0;
  parent = none;
  sz = 0;
  trapframe = false;
  pagetable = false;
  ofile = replicate 16 none;
  cwd = none;
  name = [];
  mmap_base = 0;
  vma = [];
}

abbrev blank : Table
blank = record { procs = λ i. blank_proc; next_pid = 1; init = 0; refs = λ i. 0; irefs = λ i. 0 }

abbrev memory : Memory
memory = record { trapframe_page = true; page_table = true; copied = true }

abbrev or_blank : Option Table → Table
or_blank none = blank
or_blank (some t) = t

abbrev left : Outcome Table → Table
left panic = blank
left (ok t) = t

abbrev forked : Outcome (Option ℕ × Table) → Table
forked panic = blank
forked (ok (r, t)) = t

-- Init runs, forks and yields, and its child runs.
abbrev booted : Table
booted = or_blank (userinit memory 1 (procinit blank))

abbrev init_turn : Table
init_turn = or_blank (dispatch 0 booted)

abbrev two : Table
two = forked (kfork 0 memory init_turn)

abbrev turn : Table
turn = or_blank (dispatch 1 (yield_cpu 0 two))

two_pids : ((two.procs 0).pid ≡ 1) × ((two.procs 1).pid ≡ 2) × ((turn.procs 1).state ≡ running)
unfolding kfork userinit dispatch allocproc find procinit yield_cpu launch each dup_files
    mapped_files open_files
two_pids = (refl, refl, refl)

blank-Blank : Blank blank
blank-Blank = record { pids = λ k h. refl; parents = λ k h. refl; first_pid = refl }

boots : userinit memory 1 (procinit blank) ≡ some booted
unfolding userinit allocproc find procinit each
boots = refl

turn-reached : Reach booted turn
unfolding kfork userinit dispatch allocproc find procinit yield_cpu launch each dup_files
    mapped_files open_files
turn-reached =
    next
      (next
        (next (next here (run 0 refl))
          (fork 0 memory (some 2) (omega arith, refl) (omega arith) refl))
        (yield 0 (omega arith, refl)))
      (run 1 refl)

turn-Inv : Inv turn
turn-Inv = booted-Inv memory 1 blank booted turn blank-Blank boots turn-reached

booted-Inv_example : Inv turn
booted-Inv_example = booted-Inv memory 1 blank booted turn blank-Blank boots turn-reached

-- The child exits with status 7 while init is runnable.
abbrev exited : Table
exited = left (kexit 1 7 (λ i. true) turn)

turn_runs : (turn.procs 1).state ≡ running
unfolding kfork userinit dispatch allocproc find procinit yield_cpu launch each dup_files
    mapped_files open_files
turn_runs = refl

exits : kexit 1 7 (λ i. true) turn ≡ ok exited
unfolding kfork userinit dispatch allocproc find procinit yield_cpu launch each dup_files
    mapped_files open_files kexit release_all close_files unmap_all copy_fds copy_vmas
exits = refl

kexit_lem_example : Exited 1 7 turn exited
kexit_lem_example = kexit_lem 1 7 (λ i. true) turn exited (omega arith) turn_runs turn-Inv exits

-- Init reaps the child.
kwait_lem_example : Answer 0 true exited (kwait 0 true exited)
kwait_lem_example = kwait_lem 0 true exited

reaps_child : (kwait 0 true exited).0 ≡ reaped 2 7
unfolding kfork userinit dispatch allocproc find procinit yield_cpu launch each dup_files
    mapped_files open_files kexit release_all close_files unmap_all copy_fds copy_vmas kwait
    exit_locked reparent_from wakeup
reaps_child = refl

-- The slot after the two processes.
abbrev born_killed : Table
born_killed = (allocproc memory (kkill 0 turn).1).1

third_free : find nproc 0 (λ k. is_unused (turn.procs k).state) ≡ some 2
unfolding kfork userinit dispatch allocproc find procinit yield_cpu launch each dup_files
    mapped_files open_files
third_free = refl

third_allocated : allocproc memory (kkill 0 turn).1 ≡ (some 2, born_killed)
unfolding kfork userinit dispatch allocproc find procinit yield_cpu launch each dup_files
    mapped_files open_files kkill
third_allocated = refl

kkill_zero_example : ((kkill 0 turn).0 ≡ true) × ((born_killed.procs 2).killed ≡ true)
kkill_zero_example = kkill_zero memory 2 turn born_killed turn-Inv third_free third_allocated
