-- ===== src/Process/Reap.antt =====
-- `kwait` of kernel/proc.c: what a round of its loop answers, and what it keeps of the table.
use mit_operating_system_eng.Base.{
  ℕ, ◌<◌, ◌≡◌, ◌≢◌, refl, inl, inr, Bool, true, false, ◌&&◌, none, some, [], ◌==◌, Bool-cases,
  Option-cases, update, arith,
}
use mit_operating_system_eng.Process.{
  Proc, Table, State, unused, used, sleeping, runnable, running, zombie, is_zombie, no_chan,
  of_proc, nproc, find, sleep,
}
use mit_operating_system_eng.Process.Sweep.{find-some, find-none}
use mit_operating_system_eng.Process.Inv.{Inv, Inv-put}
use mit_operating_system_eng.Process.Born.{freeproc-Inv}
use mit_operating_system_eng.Process.Reparent.{child-parent}
use mit_operating_system_eng.Process.Calls.{Inv-if}
use mit_operating_system_eng.Process.Life.{freeproc, is_child, Wait, reaped, fails, sleeps, kwait}

pub zombie_state : (s : State) → is_zombie s ≡ true → s ≡ zombie
zombie_state unused e = absurd (cc e)
zombie_state used e = absurd (cc e)
zombie_state sleeping e = absurd (cc e)
zombie_state runnable e = absurd (cc e)
zombie_state running e = absurd (cc e)
zombie_state zombie e = refl

child_zombie :
    (me : ℕ) (p : Proc)
    → p.parent ≡ some me
    → p.state ≡ zombie
    → ¬ ((is_child me p && is_zombie p.state) ≡ false)
child_zombie me p q z e = ground (arith, e)

pub kwait-Inv :
    (me : ℕ) (copied : Bool) (t : Table)
    → me < nproc
    → (t.procs me).state ≡ running
    → Inv t
    → Inv (kwait me copied t).1
unfolding kwait sleep
kwait-Inv me copied t lt is inv =
    elim (Option-cases
      (find nproc 0 (λ i. is_child me (t.procs i) && is_zombie (t.procs i).state))) [
        | inr (i, e) ↦
            let (hit, _, below) =
              find-some nproc 0 i (λ i. is_child me (t.procs i) && is_zombie (t.procs i).state) e in
            let dead = zombie_state (t.procs i).state (ground arith) in
            let kept = freeproc-Inv i t below (rw dead refl) inv in
            rw (kwait, e)
              (Inv-if copied (reaped (t.procs i).pid (t.procs i).xstate, freeproc i t) (fails, t)
                kept inv)
        | inl e ↦ elim (Option-cases (find nproc 0 (λ i. is_child me (t.procs i)))) [
          | inl e' ↦ rw (kwait, e, e') inv
          | inr (i, e') ↦
              let p = record (t.procs me) { chan = of_proc me; state = sleeping } in
              let kept =
                Inv-put t me p lt refl refl (rw is refl) refl
                  (λ k h q z _. child_zombie me (t.procs k) q z (
                    find-none nproc 0 k
                      (λ i. is_child me (t.procs i) && is_zombie (t.procs i).state) e (omega arith)
                      h))
                  inv in
              rw (kwait, e, e')
                (Inv-if (t.procs me).killed (fails, t) (sleeps, sleep me (of_proc me) t) inv kept)
        ]
      ]

-- The table with the slot of a process freed: nothing is left of it but the lists that the next
-- process in the slot gets written over.
abbrev pub without : ℕ → Table → Table
without i t = record t {
  procs = update t.procs i (record (t.procs i) {
    trapframe = false;
    pagetable = false;
    sz = 0;
    pid = 0;
    parent = none;
    name = [];
    chan = no_chan;
    killed = false;
    xstate = 0;
    state = unused;
  });
}

-- The table with process `me` asleep on its own address.
abbrev pub waiting : ℕ → Table → Table
waiting me t = record t {
  procs = update t.procs me (record (t.procs me) { chan = of_proc me; state = sleeping });
}

freeproc-without : (i : ℕ) (t : Table) → freeproc i t ≡ without i t
unfolding freeproc
freeproc-without i t = refl

sleep-waiting : (me : ℕ) (t : Table) → sleep me (of_proc me) t ≡ waiting me t
unfolding sleep
sleep-waiting me t = refl

-- What a round of `kwait` may answer, and the table that it leaves.
pub data Answer (me : ℕ) (copied : Bool) (t : Table) : Wait × Table → Type 0 where
  reaps :
      (i : ℕ)
      → i < nproc
      → (t.procs i).parent ≡ some me
      → (t.procs i).state ≡ zombie
      → copied ≡ true
      → Answer me copied t (reaped (t.procs i).pid (t.procs i).xstate, without i t)
  uncopied :
      (i : ℕ)
      → i < nproc
      → (t.procs i).parent ≡ some me
      → (t.procs i).state ≡ zombie
      → copied ≡ false
      → Answer me copied t (fails, t)
  childless : ((k : ℕ) → k < nproc → (t.procs k).parent ≢ some me) → Answer me copied t (fails, t)
  interrupted :
      ((k : ℕ) → k < nproc → (t.procs k).parent ≡ some me → (t.procs k).state ≢ zombie)
      → (t.procs me).killed ≡ true
      → Answer me copied t (fails, t)
  waits :
      (i : ℕ)
      → i < nproc
      → (t.procs i).parent ≡ some me
      → ((k : ℕ) → k < nproc → (t.procs k).parent ≡ some me → (t.procs k).state ≢ zombie)
      → (t.procs me).killed ≡ false
      → Answer me copied t (sleeps, waiting me t)

no_child : (me : ℕ) (p : Proc) → is_child me p ≡ false → p.parent ≢ some me
no_child me p e q = let self : (me == me) ≡ true = ground arith in cc (rw (q, self) at e)

-- A round of `kwait` answers the pid and status of a zombie child and leaves its slot unused, with
-- its memory, parent, pid, channel, status and killed mark cleared and all other slots as they were;
-- it fails and changes nothing where the status cannot be copied out, there is no child, or no child
-- is a zombie and the caller is killed; and it leaves the caller asleep on its own address only where
-- a child is left, none is a zombie and the caller is not killed.
pub kwait_lem : (me : ℕ) (copied : Bool) (t : Table) → Answer me copied t (kwait me copied t)
unfolding kwait
kwait_lem me copied t =
    let ripe = λ (i : ℕ). is_child me (t.procs i) && is_zombie (t.procs i).state in
    let is_mine = λ (i : ℕ). is_child me (t.procs i) in
    elim (Option-cases (find nproc 0 ripe)) [
      | inr (i, e) ↦
          let (hit, _, below) = find-some nproc 0 i ripe e in
          let dead = zombie_state (t.procs i).state (ground arith) in
          let mine = child-parent me (t.procs i) (ground arith) in
          elim (Bool-cases copied) [
            | inl c ↦ rw (kwait, e, c, freeproc-without i t) (reaps i below mine dead refl)
            | inr c ↦ rw (kwait, e, c) (uncopied i below mine dead refl)
          ]
      | inl e ↦
          let unripe =
            λ (k : ℕ) (h : k < nproc) (q : (t.procs k).parent ≡ some me)
                (z : (t.procs k).state ≡ zombie).
              child_zombie me (t.procs k) q z (find-none nproc 0 k ripe e (omega arith) h) in
          elim (Option-cases (find nproc 0 is_mine)) [
            | inl e' ↦
                rw (kwait, e, e')
                  (childless (λ k h.
                    no_child me (t.procs k) (find-none nproc 0 k is_mine e' (omega arith) h)))
            | inr (i, e') ↦
                let (hit, _, below) = find-some nproc 0 i is_mine e' in
                elim (Bool-cases (t.procs me).killed) [
                  | inl c ↦ rw (kwait, e, e', c) (interrupted unripe c)
                  | inr c ↦
                      rw (kwait, e, e', c, sleep-waiting me t)
                        (waits i below (child-parent me (t.procs i) hit) unripe c)
                ]
          ]
    ]
