-- ===== src/Process/Life.antt =====
-- The life of a process in kernel/proc.c: `allocproc`, `freeproc`, `kfork`, `kexit`, `kwait`.
use mit_operating_system_eng.Base.{
  ℕ, zero, suc, ◌+◌, ◌-◌, ◌%◌, ◌^◌, Bool, true, false, not, ◌&&◌, ◌||◌, Option, none, some, List,
  [], ◌∷◌, ◌++◌, ◌==◌, if◌then◌else◌, update, Outcome, ok, panic,
}
use mit_operating_system_eng.Mmap.{Vma, trapframe}
use mit_operating_system_eng.Process.{
  Proc, Table, unused, used, runnable, zombie, is_unused, is_zombie, no_chan, of_proc, nproc, put,
  find, wakeup, sleep,
}

abbrev pub free : Proc → Proc
free p = record p {
  trapframe = false;
  pagetable = false;
  sz = 0;
  pid = 0;
  parent = none;
  name = [];
  chan = no_chan;
  killed = false;
  xstate = 0;
  state = unused;
}

unfoldable pub freeproc : ℕ → Table → Table
freeproc i t = put i (free (t.procs i)) t

-- What the allocations of a fork answer: the trapframe's page, the page table, and `uvmcopy`.
pub record Memory : Type 0 where
  pub trapframe_page : Bool
  pub page_table : Bool
  pub copied : Bool

abbrev pub allocpid : Table → ℕ × Table
allocpid t = (t.next_pid, record t { next_pid = (t.next_pid + 1) % 2 ^ 32 })

-- Slot `i` for a new process, before its memory is allocated.
abbrev pub claim : ℕ → Table → Table
claim i t = let (pid, t') = allocpid t in put i (record (t'.procs i) { pid = pid; state = used }) t'

-- The slot with its memory.
abbrev pub prepared : ℕ → Table → Table
prepared i t =
    let t' = claim i t in
    put i (record (t'.procs i) { trapframe = true; pagetable = true; mmap_base = trapframe }) t'

unfoldable pub allocproc : Memory → Table → Option ℕ × Table
allocproc m t = elim (find nproc 0 (λ i. is_unused (t.procs i).state)) [
  | none ↦ (none, t)
  | some i ↦
      if not m.trapframe_page || not m.page_table
      then (none, freeproc i (claim i t))
      else (some i, prepared i t)
]

-- The first process, in the slot it is given, with the inode `root` as its directory.
abbrev pub first_process : ℕ → Option ℕ × Table → Option Table
first_process root (none, t) = none
first_process root (some i, t) =
    some (record (put i (record (t.procs i) { cwd = some root; state = runnable }) t) { init = i })

unfoldable pub userinit : Memory → ℕ → Table → Option Table
userinit m root t = first_process root (allocproc m t)

-- `filedup` of each file of a list.
unfoldable pub dup_files : List ℕ → (ℕ → ℕ) → Outcome (ℕ → ℕ)
dup_files [] refs = ok refs
dup_files (f ∷ fs) refs = if refs f == 0 then panic else dup_files fs (update refs f (refs f + 1))

-- The files that the table of descriptors, or the regions in use, refer to.
unfoldable pub open_files : List (Option ℕ) → List ℕ
open_files [] = []
open_files (none ∷ fds) = open_files fds
open_files (some f ∷ fds) = f ∷ open_files fds

unfoldable pub mapped_files : List Vma → List ℕ
mapped_files [] = []
mapped_files (v ∷ vs) = let rest = mapped_files vs in if v.valid then v.f ∷ rest else rest

-- The parent's descriptors over the child's.
unfoldable pub copy_fds : List (Option ℕ) → List (Option ℕ) → List (Option ℕ)
copy_fds [] old = old
copy_fds (fd ∷ fds) [] = []
copy_fds (none ∷ fds) (o ∷ old) = o ∷ copy_fds fds old
copy_fds (some f ∷ fds) (o ∷ old) = some f ∷ copy_fds fds old

unfoldable pub copy_vmas : List Vma → List Vma → List Vma
copy_vmas [] old = old
copy_vmas (v ∷ vs) [] = []
copy_vmas (v ∷ vs) (o ∷ old) = let rest = copy_vmas vs old in if v.valid then v ∷ rest else o ∷ rest

-- `idup` of the directory, if there is one.
abbrev pub dup_cwd : Option ℕ → (ℕ → ℕ) → ℕ → ℕ
dup_cwd none irefs = irefs
dup_cwd (some ip) irefs = update irefs ip (irefs ip + 1)

-- The child of `p` in its slot, which `allocproc` has set up as `np`.
abbrev pub child : ℕ → Proc → Proc → Proc
child me p np = record np {
  sz = p.sz;
  vma = copy_vmas p.vma np.vma;
  ofile = copy_fds p.ofile np.ofile;
  cwd = p.cwd;
  name = p.name;
  parent = some me;
  state = runnable;
}

-- `kfork` after the slot is allocated.
unfoldable pub launch : ℕ → Memory → Option ℕ × Table → Outcome (Option ℕ × Table)
launch me m (none, t) = ok (none, t)
launch me m (some i, t) =
    if not m.copied
    then ok (none, freeproc i t)
    else elim (dup_files (mapped_files (t.procs me).vma ++ open_files (t.procs me).ofile) t.refs) [
      | panic ↦ panic
      | ok refs ↦ ok (
        some (t.procs i).pid,
        record t {
          procs = update t.procs i (child me (t.procs me) (t.procs i));
          refs = refs;
          irefs = dup_cwd (t.procs me).cwd t.irefs;
        },
      )
    ]

-- `kfork` by process `me`: the child's pid, or `none` for -1.
unfoldable pub kfork : ℕ → Memory → Table → Outcome (Option ℕ × Table)
kfork me m t = launch me m (allocproc m t)

abbrev pub is_child : ℕ → Proc → Bool
is_child me p = elim p.parent [ none ↦ false | some q ↦ q == me ]

-- `reparent`: each child goes to init, which is woken.
unfoldable pub reparent_from : ℕ → ℕ → Table → Table
reparent_from zero me t = t
reparent_from (suc n) me t =
    let t' = reparent_from n me t in
    let given =
      wakeup me (of_proc t'.init) (put n (record (t'.procs n) { parent = some t'.init }) t') in
    if is_child me (t'.procs n) then given else t'

-- `fileclose` of each file of a list, as far as the counts go.
unfoldable pub close_files : List ℕ → (ℕ → ℕ) → Outcome (ℕ → ℕ)
close_files [] refs = ok refs
close_files (f ∷ fs) refs =
    if refs f == 0 then panic else close_files fs (update refs f (refs f - 1))

-- The loop over the regions; `done` says for each whether `uvmunmap_vma` succeeds.
pub record Unmapped : Type 0 where
  pub vma : List Vma
  pub mmap_base : ℕ
  pub closed : List ℕ

unfoldable pub unmap_all : (ℕ → Bool) → ℕ → ℕ → List Vma → Unmapped
unmap_all done i base [] = record { vma = []; mmap_base = base; closed = [] }
unmap_all done i base (v ∷ vs) =
    let base' = if v.start == base then v.end else base in
    let skipped = unmap_all done (i + 1) base vs in
    let rest = unmap_all done (i + 1) base' vs in
    if not v.valid
    then record skipped { vma = v ∷ skipped.vma }
    else if done i
    then record rest { vma = record v { valid = false } ∷ rest.vma; closed = v.f ∷ rest.closed }
    else record rest { vma = v ∷ rest.vma }

unfoldable pub clear_fds : List (Option ℕ) → List (Option ℕ)
clear_fds [] = []
clear_fds (fd ∷ fds) = none ∷ clear_fds fds

abbrev pub put_cwd : Option ℕ → (ℕ → ℕ) → ℕ → ℕ
put_cwd none irefs = irefs
put_cwd (some ip) irefs = update irefs ip (irefs ip - 1)

-- `kexit` before it takes `wait_lock`: the files, the regions and the directory are let go.
unfoldable pub release_all : ℕ → (ℕ → Bool) → Table → Outcome Table
release_all me done t =
    let p = t.procs me in
    let u = unmap_all done 0 p.mmap_base p.vma in
    elim (close_files (open_files p.ofile ++ u.closed) t.refs) [
      | panic ↦ panic
      | ok refs ↦ ok (record t {
        procs = update t.procs me (record p {
          ofile = clear_fds p.ofile;
          vma = u.vma;
          mmap_base = u.mmap_base;
          cwd = none;
        });
        refs = refs;
        irefs = put_cwd p.cwd t.irefs;
      })
    ]

abbrev pub wake_parent : ℕ → Table → Table
wake_parent me t = elim (t.procs me).parent [
  | none ↦ wakeup me no_chan t
  | some q ↦ wakeup me (of_proc q) t
]

-- The rest of `kexit`, under `wait_lock`, up to the switch.
unfoldable pub exit_locked : ℕ → ℕ → Table → Table
exit_locked me status t =
    let t' = wake_parent me (reparent_from nproc me t) in
    put me (record (t'.procs me) { xstate = status; state = zombie }) t'

unfoldable pub kexit : ℕ → ℕ → (ℕ → Bool) → Table → Outcome Table
kexit me status done t =
    if me == t.init
    then panic
    else elim (release_all me done t) [ panic ↦ panic | ok t' ↦ ok (exit_locked me status t') ]

-- How a round of `kwait` ends: a child is reaped, the result is -1, or the caller sleeps.
pub data Wait : Type 0 where
  reaped : ℕ → ℕ → Wait
  fails : Wait
  sleeps : Wait

-- `copied` says whether the status can be copied out.
unfoldable pub kwait : ℕ → Bool → Table → Wait × Table
kwait me copied t =
    elim (find nproc 0 (λ i. is_child me (t.procs i) && is_zombie (t.procs i).state)) [
      | some i ↦
          if copied then (reaped (t.procs i).pid (t.procs i).xstate, freeproc i t) else (fails, t)
      | none ↦ elim (find nproc 0 (λ i. is_child me (t.procs i))) [
        | none ↦ (fails, t)
        | some i ↦ if (t.procs me).killed then (fails, t) else (sleeps, sleep me (of_proc me) t)
      ]
    ]
