-- ===== src/Process/Reach.antt =====
-- The steps of kernel/proc.c in any order, from the first process on. A step is a call, or a round of
-- its loop up to a switch; process `me` runs while it takes one.
use mit_operating_system_eng.Base.{
  ℕ, ◌+◌, ◌^◌, ◌<◌, ◌≡◌, refl, ap, sym, ◌∙◌, inl, inr, Bool, true, not, ◌||◌, Option, none, some,
  ltb, ◌==◌, Bool-cases, Option-cases, some-injective, update, arith, ok,
}
use mit_operating_system_eng.Process.{
  Proc, Table, unused, running, runnable, Chan, at, nproc, put, find, procinit, wakeup, sleep,
  dispatch, yield_cpu, kkill, setkilled, growproc, is_unused,
}
use mit_operating_system_eng.Process.Sweep.{find-some, each_lem}
use mit_operating_system_eng.Process.Inv.{Inv}
use mit_operating_system_eng.Process.Calls.{
  Inv-kept, Kept-same, wakeup-Inv, sleep-Inv, dispatch-Inv, yield_cpu-Inv, setkilled-Inv, kkill-Inv,
  growproc-Inv,
}
use mit_operating_system_eng.Process.Life.{Memory, prepared, userinit, kfork, kexit, kwait}
use mit_operating_system_eng.Process.Fork.{kfork-Inv, allocproc-none, allocproc-some}
use mit_operating_system_eng.Process.Reap.{kwait-Inv}
use mit_operating_system_eng.Process.Exit.{kexit_lem}

-- `me` runs.
abbrev pub Runs : ℕ → Table → Type 0
Runs me t = (me < nproc) × ((t.procs me).state ≡ running)

-- `wakeup` is also called by interrupt handlers while no process runs: then `me` is no index.
pub data Step : Table → Table → Type 0 where
  fork :
      {t t' : Table} (me : ℕ) (m : Memory) (r : Option ℕ)
      → Runs me t
      → t.next_pid + 1 < 2 ^ 31
      → kfork me m t ≡ ok (r, t')
      → Step t t'
  exit :
      {t t' : Table} (me status : ℕ) (done : ℕ → Bool)
      → Runs me t
      → kexit me status done t ≡ ok t'
      → Step t t'
  wait : {t : Table} (me : ℕ) (copied : Bool) → Runs me t → Step t (kwait me copied t).1
  sleep_on : {t : Table} (me a : ℕ) → Runs me t → Step t (sleep me (at a) t)
  wake : {t : Table} (me : ℕ) (chan : Chan) → Step t (wakeup me chan t)
  run : {t t' : Table} (i : ℕ) → dispatch i t ≡ some t' → Step t t'
  yield : {t : Table} (me : ℕ) → Runs me t → Step t (yield_cpu me t)
  kill : {t : Table} (pid : ℕ) → Step t (kkill pid t).1
  mark : {t : Table} (i : ℕ) → Step t (setkilled i t)
  grow : {t : Table} (me n grown : ℕ) → Runs me t → Step t (growproc me n grown t).1

pub data Reach (t : Table) : Table → Type 0 where
  here : Reach t t
  next : {t' t'' : Table} → Reach t t' → Step t' t'' → Reach t t''

pub Step-Inv : {t t' : Table} → Step t t' → Inv t → Inv t'
Step-Inv (fork {t} {t'} me m r (lt, is) small e) inv = kfork-Inv me m t t' r lt is small e inv
Step-Inv (exit {t} {t'} me status done (lt, is) e) inv =
    (kexit_lem me status done t t' lt is inv e).inv
Step-Inv (wait {t} me copied (lt, is)) inv = kwait-Inv me copied t lt is inv
Step-Inv (sleep_on {t} me a (lt, is)) inv = sleep-Inv me a t is inv
Step-Inv (wake {t} me chan) inv = wakeup-Inv me chan t inv
Step-Inv (run {t} {t'} i e) inv = dispatch-Inv i t t' e inv
Step-Inv (yield {t} me (lt, is)) inv = yield_cpu-Inv me t is inv
Step-Inv (kill {t} pid) inv = kkill-Inv pid t inv
Step-Inv (mark {t} i) inv = setkilled-Inv i t inv
Step-Inv (grow {t} me n grown r) inv = growproc-Inv me n grown t inv

pub Reach-Inv : {t t' : Table} → Reach t t' → Inv t → Inv t'
Reach-Inv here inv = inv
Reach-Inv (next r s) inv = Step-Inv s (Reach-Inv r inv)

-- The table before `procinit`: what is not initialised is zero, and `nextpid` is 1.
pub record Blank (t : Table) : Type 0 where
  pub pids : (k : ℕ) → k < nproc → (t.procs k).pid ≡ 0
  pub parents : (k : ℕ) → k < nproc → (t.procs k).parent ≡ none
  pub first_pid : t.next_pid ≡ 1

-- The only process in use is init.
Inv-first :
    (i : ℕ) (p : Proc) (t : Table)
    → i < nproc
    → ((k : ℕ) → k < nproc → (t.procs k).state ≡ unused)
    → p.state ≡ runnable
    → p.pid ≡ 1
    → p.parent ≡ none
    → Blank t
    → Inv (record t { procs = update t.procs i p; next_pid = 2; init = i })
Inv-first i p t lt unborn s pid parent b = record {
  init_range = lt;
  init_alive = ground arith;
  init_root = ground arith;
  cleared = λ k h e. ground (arith, b.pids k h, b.parents k h);
  settled = λ k h e. ground (arith, unborn k h);
  pid_range = λ k h e. ground (arith, unborn k h);
  pid_unique = λ k j h g e q. ground (arith, unborn k h, unborn j g, b.pids j g);
  parent_alive = λ k q h e. ground (arith, b.parents k h);
  has_parent = λ k h e n. ground (arith, unborn k h);
  awake = λ k q h e z w. ground (arith, b.parents k h);
}

blank_unused :
    (t : Table) (k : ℕ) → k < nproc → (procinit t).procs k ≡ record (t.procs k) { state = unused }
unfolding procinit
blank_unused t k h =
    let test : ltb k nproc ≡ true = ground arith in
    each_lem nproc (λ i p. record p { state = unused }) t.procs k ∙ rw test refl

Blank-procinit : (t : Table) → Blank t → Blank (procinit t)
unfolding procinit
Blank-procinit t b = record {
  pids = λ k h. ap (λ (p : Proc). p.pid) (blank_unused t k h) ∙ b.pids k h;
  parents = λ k h. ap (λ (p : Proc). p.parent) (blank_unused t k h) ∙ b.parents k h;
  first_pid = b.first_pid;
}

first_process-Inv :
    (i root : ℕ) (t : Table)
    → i < nproc
    → ((k : ℕ) → k < nproc → (t.procs k).state ≡ unused)
    → Blank t
    → Inv
        (record (put i
          (record ((prepared i t).procs i) { cwd = some root; state = runnable })
          (prepared i t)) { init = i })
first_process-Inv i root t lt unborn b =
    let self : (i == i) ≡ true = ground arith in
    let p = record ((prepared i t).procs i) { cwd = some root; state = runnable } in
    let pid : p.pid ≡ 1 = rw (self, b.first_pid) refl in
    let parent : p.parent ≡ none = rw self (b.parents i lt) in
    Inv-kept (record t { procs = update t.procs i p; next_pid = 2; init = i }) _ refl
      (rw b.first_pid refl)
      (λ k h. elim (Bool-cases (i == k)) [
        | inl e ↦ rw e (Kept-same k p)
        | inr e ↦ rw e (Kept-same k (t.procs k))
      ])
      (Inv-first i p t lt unborn refl pid parent b)

userinit-Inv :
    (m : Memory) (root : ℕ) (t t' : Table)
    → Blank t
    → userinit m root (procinit t) ≡ some t'
    → Inv t'
unfolding userinit
userinit-Inv m root t t' blank e =
    let t1 = procinit t in
    let b = Blank-procinit t blank in
    let unborn = λ (k : ℕ) (h : k < nproc). ap (λ (p : Proc). p.state) (blank_unused t k h) in
    elim (Option-cases (find nproc 0 (λ i. is_unused (t1.procs i).state))) [
      | inl c ↦ absurd (cc (rw (userinit, allocproc-none m t1 c) at e))
      | inr (i, c) ↦
          let (_, _, below) = find-some nproc 0 i (λ i. is_unused (t1.procs i).state) c in
          elim (Bool-cases (not m.trapframe_page || not m.page_table)) [
            | inl d ↦ absurd (cc (rw (userinit, allocproc-some m i t1 c, d) at e))
            | inr d ↦
                rw (sym (some-injective (rw (userinit, allocproc-some m i t1 c, d) at e)))
                  (first_process-Inv i root t1 below unborn b)
          ]
    ]

-- Whatever steps the processes take after `userinit`, in any order, while pids do not run out: pids
-- are unique, parents are alive, every process but init has one, and no parent sleeps in `kwait`
-- while a child of it is a zombie.
pub booted-Inv :
    (m : Memory) (root : ℕ) (t t' t'' : Table)
    → Blank t
    → userinit m root (procinit t) ≡ some t'
    → Reach t' t''
    → Inv t''
booted-Inv m root t t' t'' blank e r = Reach-Inv r (userinit-Inv m root t t' blank e)
