-- ===== src/Process/Adopt.antt =====
-- One process of kernel/proc.c gets init as its parent.
use mit_operating_system_eng.Base.{
  ℕ, ◌<◌, ◌≡◌, ◌≢◌, refl, ap, sym, ◌∙◌, inl, inr, true, false, not, ◌&&◌, none, some, ◌==◌,
  Bool-cases, arith,
}
use mit_operating_system_eng.Process.{
  Proc, Table, sleeping, zombie, is_sleeping, Chan, of_proc, same_chan, nproc, put, wake, wakeup,
}
use mit_operating_system_eng.Process.Sweep.{wakeup-at}
use mit_operating_system_eng.Process.Inv.{Inv, Waits, alive}
use mit_operating_system_eng.Process.Calls.{Inv-kept, Kept-same, wakeup-Inv}

-- Who waits for a child is awake after the wakeup that is meant for it.
wake-Waits :
    (me q : ℕ) (p : Proc)
    → (q == me) ≡ false
    → ¬ (
        ((wake me (of_proc q) q p).state ≡ sleeping) × ((wake me (of_proc q) q p).chan ≡ of_proc q))
wake-Waits me q p other w =
    elim (Bool-cases (not (q == me) && (is_sleeping p.state && same_chan p.chan (of_proc q)))) [
      | inl e ↦ let s = rw e at w.0 in cc s
      | inr e ↦
          let s : p.state ≡ sleeping = rw e at w.0 in
          let c : p.chan ≡ of_proc q = rw e at w.1 in
          let self : (q == q) ≡ true = ground arith in cc (rw (other, s, c, self) at e)
    ]

pub wakeup-Waits : (me q : ℕ) (t : Table) → q < nproc → q ≢ me → ¬ Waits (wakeup me (of_proc q) t) q
wakeup-Waits me q t lt other w =
    let here = wakeup-at me q (of_proc q) t lt in
    wake-Waits me q (t.procs q) (ground arith)
      (sym (ap (λ (p : Proc). p.state) here) ∙ w.0, sym (ap (λ (p : Proc). p.chan) here) ∙ w.1)

-- A process that no wakeup is meant for, since it makes the call, keeps its entry.
pub wakeup-me :
    (me : ℕ) (chan : Chan) (t : Table) → me < nproc → (wakeup me chan t).procs me ≡ t.procs me
wakeup-me me chan t lt =
    let self : (me == me) ≡ true = ground arith in wakeup-at me me chan t lt ∙ rw self refl

pub wake-parent : (me k : ℕ) (chan : Chan) (p : Proc) → (wake me chan k p).parent ≡ p.parent
wake-parent me k chan p =
    elim (Bool-cases (not (k == me) && (is_sleeping p.state && same_chan p.chan chan))) [
      | inl e ↦ rw e refl
      | inr e ↦ rw e refl
    ]

-- Process `n` gets init as its parent, which does not wait.
Inv-adopted :
    (n : ℕ) (t : Table)
    → n < nproc
    → n ≢ t.init
    → (t.procs n).parent ≢ none
    → ¬ Waits t t.init
    → Inv t
    → Inv (put n (record (t.procs n) { parent = some t.init }) t)
Inv-adopted n t lt other has calm inv = record {
  init_range = inv.init_range;
  init_alive = ground (arith, inv.init_alive);
  init_root = ground (arith, inv.init_root);
  cleared = λ k h e. ground (arith, inv.cleared k h);
  settled = λ k h e. ground (arith, inv.settled k h);
  pid_range = λ k h e. ground (arith, inv.pid_range k h);
  pid_unique = λ k j h g e q. ground (arith, inv.pid_unique k j h g);
  parent_alive = λ k q h e. ground (arith, inv.parent_alive k q h);
  has_parent = λ k h e n. ground (arith, inv.has_parent k h);
  awake = λ k q h e z w. ground (arith, inv.awake k q h);
}

-- A process that is nobody's parent, and whose parent does not wait, becomes a zombie.
pub Inv-zombie :
    (me status : ℕ) (t : Table)
    → me < nproc
    → me ≢ t.init
    → alive (t.procs me).state ≡ true
    → ((k : ℕ) → k < nproc → (t.procs k).parent ≢ some me)
    → ((q : ℕ) → (t.procs me).parent ≡ some q → ¬ Waits t q)
    → Inv t
    → Inv (put me (record (t.procs me) { xstate = status; state = zombie }) t)
Inv-zombie me status t lt other was childless calm inv = record {
  init_range = inv.init_range;
  init_alive = ground (arith, inv.init_alive);
  init_root = ground (arith, inv.init_root);
  cleared = λ k h e. ground (arith, inv.cleared k h);
  settled = λ k h e. ground (arith, inv.settled k h);
  pid_range = λ k h e. ground (arith, inv.pid_range k h, inv.pid_range me lt);
  pid_unique = λ k j h g e q. ground (arith, inv.pid_unique k j h g);
  parent_alive = λ k q h e. ground (arith, inv.parent_alive k q h, childless k h);
  has_parent = λ k h e n. ground (arith, inv.has_parent k h);
  awake = λ k q h e z w. ground (arith, inv.awake k q h, calm q);
}

-- The wakeup and the change of parent may be swapped.
wake_adopt :
    (me k init : ℕ) (chan : Chan) (p : Proc)
    → wake me chan k (record p { parent = some init })
      ≡ record (wake me chan k p) { parent = some init }
wake_adopt me k init chan p =
    elim (Bool-cases (not (k == me) && (is_sleeping p.state && same_chan p.chan chan))) [
      | inl e ↦ rw e refl
      | inr e ↦ rw e refl
    ]

wakeup_adopt :
    (me n k : ℕ) (t : Table)
    → n < nproc
    → k < nproc
    → (wakeup me (of_proc t.init) (put n (record (t.procs n) { parent = some t.init }) t)).procs k
      ≡ (put n
            (record ((wakeup me (of_proc t.init) t).procs n) { parent = some t.init })
            (wakeup me (of_proc t.init) t)).procs
          k
wakeup_adopt me n k t lt h =
    let left =
      wakeup-at me k (of_proc t.init) (put n (record (t.procs n) { parent = some t.init }) t) h in
    let right = wakeup-at me k (of_proc t.init) t h in
    elim (Bool-cases (n == k)) [
      | inl e ↦
          let same : n ≡ k = ground arith in
          rw (left, e, same, right) (wake_adopt me k t.init (of_proc t.init) (t.procs k))
      | inr e ↦ rw (left, e, right) refl
    ]

-- One child goes to init, which is woken.
pub Inv-given :
    (me n : ℕ) (t : Table)
    → n < nproc
    → me ≢ t.init
    → (t.procs n).parent ≡ some me
    → Inv t
    → Inv (wakeup me (of_proc t.init) (put n (record (t.procs n) { parent = some t.init }) t))
unfolding wakeup
Inv-given me n t lt other up inv =
    let t1 = wakeup me (of_proc t.init) t in
    let has : (t1.procs n).parent ≡ some me =
      ap (λ (p : Proc). p.parent) (wakeup-at me n (of_proc t.init) t lt)
      ∙ (wake-parent me n (of_proc t.init) (t.procs n) ∙ up) in
    let given =
      Inv-adopted n t1 lt (λ e. absurd (cc (e, up, inv.init_root))) (λ e. absurd (cc (has, e)))
        (wakeup-Waits me t.init t inv.init_range (λ e. other (sym e)))
        (wakeup-Inv me (of_proc t.init) t inv) in
    Inv-kept _ _ refl refl (λ k h. rw (wakeup_adopt me n k t lt h) (Kept-same k _)) given
