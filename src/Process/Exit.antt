-- ===== src/Process/Exit.antt =====
-- `kexit` of kernel/proc.c: the children go to init, the parent is awake, and the caller is a zombie.
use mit_operating_system_eng.Base.{
  ℕ, ◌<◌, ◌≡◌, ◌≢◌, refl, ap, sym, ◌∙◌, inl, inr, Bool, true, Option, List, none, some, ltb, ◌==◌,
  if◌then◌else◌, Bool-cases, Option-cases, update, arith, ok, Outcome-cases, ◌++◌, ok-injective,
}
use mit_operating_system_eng.Mmap.{Vma}
use mit_operating_system_eng.Process.{
  Proc, Table, running, zombie, Chan, no_chan, of_proc, nproc, put, wakeup,
}
use mit_operating_system_eng.Process.Sweep.{wakeup-at}
use mit_operating_system_eng.Process.Inv.{Inv, Waits}
use mit_operating_system_eng.Process.Calls.{Inv-kept, Kept-other, Kept-same, wakeup-Inv}
use mit_operating_system_eng.Process.Life.{
  close_files, open_files, unmap_all, clear_fds, release_all, is_child, reparent_from, wake_parent,
  exit_locked, kexit,
}
use mit_operating_system_eng.Process.Adopt.{wakeup-Waits, wakeup-me, wake-parent, Inv-zombie}
use mit_operating_system_eng.Process.Reparent.{Given, reparent_from-Given}

-- `kexit` before `wait_lock`: of the caller, only what the invariant does not read changes.
record Released (me : ℕ) (t t' : Table) : Type 0 where
  pub inv : Inv t'
  pub init : t'.init ≡ t.init
  pub state : (t'.procs me).state ≡ (t.procs me).state
  pub parents : (k : ℕ) → (t'.procs k).parent ≡ (t.procs k).parent

released :
    (me : ℕ) (t : Table) (refs irefs : ℕ → ℕ) (vma : List Vma) (base : ℕ)
    → Inv t
    → Released me t (record t {
      procs = update t.procs me (record (t.procs me) {
        ofile = clear_fds (t.procs me).ofile;
        vma = vma;
        mmap_base = base;
        cwd = none;
      });
      refs = refs;
      irefs = irefs;
    })
released me t refs irefs vma base inv =
    let self : (me == me) ≡ true = ground arith in
    record {
      inv =
          Inv-kept t _ refl refl
            (λ k h. elim (Bool-cases (me == k)) [
              | inl e ↦
                  let same : me ≡ k = ground arith in
                  rw (e, same) (Kept-other k _ _ refl refl refl refl)
              | inr e ↦ rw e (Kept-same k (t.procs k))
            ])
            inv;
      init = refl;
      state = rw self refl;
      parents = λ k. elim (Bool-cases (me == k)) [
        | inl e ↦ let same : me ≡ k = ground arith in rw (e, same) refl
        | inr e ↦ rw e refl
      ];
    }

release_all-Released :
    (me : ℕ) (done : ℕ → Bool) (t t' : Table)
    → Inv t
    → release_all me done t ≡ ok t'
    → Released me t t'
unfolding release_all
release_all-Released me done t t' inv e =
    elim (Outcome-cases (
      close_files
        (open_files (t.procs me).ofile
          ++ (unmap_all done 0 (t.procs me).mmap_base (t.procs me).vma).closed)
        t.refs)) [
          | inl c ↦ absurd (cc (rw (release_all, c) at e))
          | inr (refs, c) ↦
              rw (sym (ok-injective (rw (release_all, c) at e))) (released me t refs _ _ _ inv)
        ]

-- Where `kexit` returns from its loop, the table still holds together, the caller is a zombie with
-- its status, and its children are init's.
pub record Exited (me status : ℕ) (t t' : Table) : Type 0 where
  pub inv : Inv t'
  pub state : (t'.procs me).state ≡ zombie
  pub xstate : (t'.procs me).xstate ≡ status
  pub parents :
      (k : ℕ)
      → k < nproc
      → (t'.procs k).parent ≡ (if is_child me (t.procs k) then some t.init else (t.procs k).parent)

-- After the wakeup of the caller's parent, that does not wait.
record Woken (me : ℕ) (t t' : Table) : Type 0 where
  pub inv : Inv t'
  pub init : t'.init ≡ t.init
  pub caller : t'.procs me ≡ t.procs me
  pub parents : (k : ℕ) → k < nproc → (t'.procs k).parent ≡ (t.procs k).parent
  pub calm : (q : ℕ) → (t.procs me).parent ≡ some q → ¬ Waits t' q

wakeup-parent :
    (me k : ℕ) (chan : Chan) (t : Table)
    → k < nproc
    → ((wakeup me chan t).procs k).parent ≡ (t.procs k).parent
wakeup-parent me k chan t h =
    ap (λ (p : Proc). p.parent) (wakeup-at me k chan t h) ∙ wake-parent me k chan (t.procs k)

some_same : (p q : ℕ) → some p ≡ some q → p ≡ q
some_same p q e = cc e

wake_parent-Woken : (me : ℕ) (t : Table) → me < nproc → Inv t → Woken me t (wake_parent me t)
unfolding wakeup
wake_parent-Woken me t lt inv = elim (Option-cases (t.procs me).parent) [
  | inl e ↦
      rw (wake_parent, e)
        (record {
          inv = wakeup-Inv me no_chan t inv;
          init = refl;
          caller = wakeup-me me no_chan t lt;
          parents = λ k h. wakeup-parent me k no_chan t h;
          calm = λ q e'. absurd (cc (e, e'));
        })
  | inr (q, e) ↦
      let (range, _, apart) = inv.parent_alive me q lt e in
      rw (wake_parent, e)
        (record {
          inv = wakeup-Inv me (of_proc q) t inv;
          init = refl;
          caller = wakeup-me me (of_proc q) t lt;
          parents = λ k h. wakeup-parent me k (of_proc q) t h;
          calm = λ p e'.
              let same : q ≡ p = some_same q p (sym e ∙ e') in
              rw (sym same) (wakeup-Waits me q t range apart);
        })
]

own_parent :
    (me : ℕ) (p : Proc) (init : ℕ)
    → me ≢ init
    → ¬ ((if is_child me p then some init else p.parent) ≡ some me)
own_parent me p init other e = elim (Bool-cases (is_child me p)) [
  | inl c ↦ let s = rw c at e in other (sym (some_same init me s))
  | inr c ↦
      let s : p.parent ≡ some me = rw c at e in
      let self : (me == me) ≡ true = ground arith in cc (rw (s, self) at c)
]

zombie-Exited :
    (me status : ℕ) (t t' t'' : Table)
    → me < nproc
    → me ≢ t.init
    → (t.procs me).state ≡ running
    → Given nproc me t t'
    → Woken me t' t''
    → Exited me status t (put me (record (t''.procs me) { xstate = status; state = zombie }) t'')
zombie-Exited me status t t' t'' lt other is g w =
    let self : (me == me) ≡ true = ground arith in
    let entry = w.caller ∙ g.caller in
    let up = λ (k : ℕ) (h : k < nproc).
      let below : ltb k nproc ≡ true = ground arith in
      w.parents k h ∙ (rw below at (g.parents k h)) in
    record {
      inv =
          Inv-zombie me status t'' lt (λ e. other (e ∙ (w.init ∙ g.init))) (rw (entry, is) refl)
            (λ k h e. own_parent me (t.procs k) t.init other (sym (up k h) ∙ e))
            (λ q e. w.calm q (sym (w.parents me lt) ∙ e)) w.inv;
      state = rw self refl;
      xstate = rw self refl;
      parents = λ k h. elim (Bool-cases (me == k)) [
        | inl e ↦
            let same : me ≡ k = ground arith in
            rw e (ap (λ (x : ℕ). (t''.procs x).parent) same ∙ up k h)
        | inr e ↦ rw e (up k h)
      ];
    }

exit_locked-Exited :
    (me status : ℕ) (t : Table)
    → me < nproc
    → me ≢ t.init
    → (t.procs me).state ≡ running
    → Inv t
    → Exited me status t (exit_locked me status t)
unfolding exit_locked
exit_locked-Exited me status t lt other is inv =
    let g = reparent_from-Given nproc me t (omega arith) lt other inv in
    zombie-Exited me status t (reparent_from nproc me t) (wake_parent me (reparent_from nproc me t))
      lt other is g (wake_parent-Woken me (reparent_from nproc me t) lt g.inv)

exit_parent :
    (me init init' : ℕ) (p q : Proc) (r : Option ℕ)
    → init' ≡ init
    → q.parent ≡ p.parent
    → r ≡ (if is_child me q then some init' else q.parent)
    → r ≡ (if is_child me p then some init else p.parent)
exit_parent me init init' p q r i e f = rw (i, e) at f

-- Where `kexit` of a running process does not panic, the process is a zombie with its status, every
-- child of it is a child of init, the other parents are as before, and the table holds together.
pub kexit_lem :
    (me status : ℕ) (done : ℕ → Bool) (t t' : Table)
    → me < nproc
    → (t.procs me).state ≡ running
    → Inv t
    → kexit me status done t ≡ ok t'
    → Exited me status t t'
unfolding kexit
kexit_lem me status done t t' lt is inv e = elim (Bool-cases (me == t.init)) [
  | inl b ↦ absurd (cc (rw (kexit, b) at e))
  | inr b ↦ elim (Outcome-cases (release_all me done t)) [
    | inl c ↦ absurd (cc (rw (kexit, b, c) at e))
    | inr (t1, c) ↦
        let r = release_all-Released me done t t1 inv c in
        let other : me ≢ t1.init = λ q. let bad : me ≡ t.init = q ∙ r.init in ground (arith, bad) in
        let x = exit_locked-Exited me status t1 lt other (r.state ∙ is) r.inv in
        let result = ok-injective (rw (kexit, b, c) at e) in
        rw (sym result) (record {
          inv = x.inv;
          state = x.state;
          xstate = x.xstate;
          parents = λ k h.
              exit_parent me t.init t1.init (t.procs k) (t1.procs k) _ r.init (r.parents k)
                (x.parents k h);
        })
  ]
]
