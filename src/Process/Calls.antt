-- ===== src/Process/Calls.antt =====
-- The calls of kernel/proc.c that leave each process its pid and its parent: `wakeup`, `sleep`, the
-- scheduler, `yield`, `kkill`, `setkilled`, `growproc`.
use mit_operating_system_eng.Base.{
  ℕ, ◌<◌, ◌≡◌, refl, ap, sym, ◌∙◌, ◌⊎◌, inl, inr, Bool, true, false, not, ◌&&◌, some, ◌==◌,
  if◌then◌else◌, Bool-cases, Option-cases, arith,
}
use mit_operating_system_eng.Process.{
  Proc, Table, State, unused, used, sleeping, runnable, running, zombie, is_sleeping, is_runnable,
  Chan, no_chan, of_proc, at, same_chan, nproc, put, find, wake, wakeup, sleep, dispatch, yield_cpu,
  kkill, setkilled, growproc,
}
use mit_operating_system_eng.Process.Sweep.{wakeup-at}
use mit_operating_system_eng.Process.Inv.{Inv, alive, in_use}

-- Entry `k` goes from `p` to `q` without being born, dying, or starting to wait for a child.
pub record Kept (k : ℕ) (p q : Proc) : Type 0 where
  pub same_pid : q.pid ≡ p.pid
  pub same_parent : q.parent ≡ p.parent
  pub states : (q.state ≡ p.state) ⊎ ((alive q.state ≡ true) × (alive p.state ≡ true))
  pub waiting :
      q.state ≡ sleeping → q.chan ≡ of_proc k → (p.state ≡ sleeping) × (p.chan ≡ of_proc k)

pub alive-in_use : (s : State) → alive s ≡ true → in_use s ≡ true
alive-in_use unused e = absurd (cc e)
alive-in_use used e = refl
alive-in_use sleeping e = refl
alive-in_use runnable e = refl
alive-in_use running e = refl
alive-in_use zombie e = refl

module _ (t t' : Table) (init : t'.init ≡ t.init) (next : t'.next_pid ≡ t.next_pid)
    (kept : (k : ℕ) → k < nproc → Kept k (t.procs k) (t'.procs k)) where
  alive-kept :
      (k : ℕ) → k < nproc → alive (t.procs k).state ≡ true → alive (t'.procs k).state ≡ true
  alive-kept k lt e = elim (kept k lt).states [ inl s ↦ rw s e | inr (a, b) ↦ a ]

  in_use-kept :
      (k : ℕ) → k < nproc → in_use (t'.procs k).state ≡ true → in_use (t.procs k).state ≡ true
  in_use-kept k lt e = elim (kept k lt).states [
    | inl s ↦ rw s at e
    | inr (a, b) ↦ alive-in_use (t.procs k).state b
  ]

  dead-kept :
      (k : ℕ) (s : State)
      → k < nproc
      → alive s ≡ false
      → (t'.procs k).state ≡ s
      → (t.procs k).state ≡ s
  dead-kept k s lt no_life e = elim (kept k lt).states [
    | inl same ↦ sym same ∙ e
    | inr (a, b) ↦ absurd (cc (a, ap alive e, no_life))
  ]

  pub Inv-kept : Inv t → Inv t'
  Inv-kept inv = record {
    init_range = rw init inv.init_range;
    init_alive = rw init (alive-kept t.init inv.init_range inv.init_alive);
    init_root = rw init ((kept t.init inv.init_range).same_parent ∙ inv.init_root);
    cleared = λ k h e.
        let (a, b) = inv.cleared k h (dead-kept k unused h refl e) in
        ((kept k h).same_pid ∙ a, (kept k h).same_parent ∙ b);
    settled = λ k h e. inv.settled k h (dead-kept k used h refl e);
    pid_range = λ k h e.
        let (a, b) = inv.pid_range k h (in_use-kept k h e) in
        (rw (kept k h).same_pid a, rw ((kept k h).same_pid, next) b);
    pid_unique = λ k j h g e q.
        inv.pid_unique k j h g (in_use-kept k h e)
          (sym (kept k h).same_pid ∙ q ∙ (kept j g).same_pid);
    parent_alive = λ k q h e.
        let (a, b, c) = inv.parent_alive k q h (sym (kept k h).same_parent ∙ e) in
        (a, alive-kept q a b, c);
    has_parent = λ k h e n r.
        inv.has_parent k h (in_use-kept k h e) (λ s. n (s ∙ sym init))
          (sym (kept k h).same_parent ∙ r);
    awake = λ k q h e z w.
        let up = sym (kept k h).same_parent ∙ e in
        let (a, b, c) = inv.parent_alive k q h up in
        inv.awake k q h up (dead-kept k zombie h refl z) ((kept q a).waiting w.0 w.1);
  }

pub Kept-same : (k : ℕ) (p : Proc) → Kept k p p
Kept-same k p = record {
  same_pid = refl;
  same_parent = refl;
  states = inl refl;
  waiting = λ s c. (s, c);
}

-- A process that is alive before and after, and does not wait for a child.
Kept-alive :
    (k : ℕ) (p q : Proc)
    → q.pid ≡ p.pid
    → q.parent ≡ p.parent
    → alive q.state ≡ true
    → alive p.state ≡ true
    → ¬ ((q.state ≡ sleeping) × (q.chan ≡ of_proc k))
    → Kept k p q
Kept-alive k p q pid parent a b calm = record {
  same_pid = pid;
  same_parent = parent;
  states = inr (a, b);
  waiting = λ s c. absurd (calm (s, c));
}

-- Only fields that the invariant does not read are changed.
pub Kept-other :
    (k : ℕ) (p q : Proc)
    → q.pid ≡ p.pid
    → q.parent ≡ p.parent
    → q.state ≡ p.state
    → q.chan ≡ p.chan
    → Kept k p q
Kept-other k p q pid parent s c = record {
  same_pid = pid;
  same_parent = parent;
  states = inl s;
  waiting = λ a b. (sym s ∙ a, sym c ∙ b);
}

pub Inv-set : (t : Table) (i : ℕ) (p : Proc) → Kept i (t.procs i) p → Inv t → Inv (put i p t)
Inv-set t i p kept = Inv-kept t (put i p t) refl refl (λ k h. elim (Bool-cases (i == k)) [
  | inl e ↦
      let same : i ≡ k = ground arith in
      let self : (i == i) ≡ true = ground arith in rw (sym same, self) kept
  | inr e ↦ rw e (Kept-same k (t.procs k))
])

awake_state : (s : State) → is_sleeping s ≡ true → s ≡ sleeping
awake_state unused e = absurd (cc e)
awake_state used e = absurd (cc e)
awake_state sleeping e = refl
awake_state runnable e = absurd (cc e)
awake_state running e = absurd (cc e)
awake_state zombie e = absurd (cc e)

pub runnable_state : (s : State) → is_runnable s ≡ true → s ≡ runnable
runnable_state unused e = absurd (cc e)
runnable_state used e = absurd (cc e)
runnable_state sleeping e = absurd (cc e)
runnable_state runnable e = refl
runnable_state running e = absurd (cc e)
runnable_state zombie e = absurd (cc e)

Kept-wake : (me k : ℕ) (chan : Chan) (p : Proc) → Kept k p (wake me chan k p)
Kept-wake me k chan p =
    elim (Bool-cases (not (k == me) && (is_sleeping p.state && same_chan p.chan chan))) [
      | inl e ↦
          let s : p.state ≡ sleeping = awake_state p.state (ground arith) in
          rw e (
            Kept-alive k p (record p { state = runnable }) refl refl refl (rw s refl) (λ w. cc w.0))
      | inr e ↦ rw e (Kept-same k p)
    ]

pub wakeup-Inv : (me : ℕ) (chan : Chan) (t : Table) → Inv t → Inv (wakeup me chan t)
unfolding wakeup
wakeup-Inv me chan t =
    Inv-kept t (wakeup me chan t) refl refl
      (λ k h. rw (wakeup-at me k chan t h) (Kept-wake me k chan (t.procs k)))

pub sleep-Inv :
    (me a : ℕ) (t : Table) → (t.procs me).state ≡ running → Inv t → Inv (sleep me (at a) t)
unfolding sleep
sleep-Inv me a t is =
    Inv-set t me (record (t.procs me) { chan = at a; state = sleeping })
      (Kept-alive me (t.procs me) (record (t.procs me) { chan = at a; state = sleeping }) refl refl
        refl (rw is refl) (λ w. cc w.1))

pub dispatch-Inv : (i : ℕ) (t t' : Table) → dispatch i t ≡ some t' → Inv t → Inv t'
unfolding dispatch
dispatch-Inv i t t' e inv = elim (Bool-cases (is_runnable (t.procs i).state)) [
  | inl b ↦
      let next = record (t.procs i) { state = running; chan = no_chan } in
      let was : (t.procs i).state ≡ runnable = runnable_state (t.procs i).state b in
      let result : put i next t ≡ t' = cc (rw b at e) in
      rw (sym result) (
        Inv-set t i next (Kept-alive i (t.procs i) next refl refl refl (rw was refl) (λ w. cc w.0))
          inv)
  | inr b ↦ absurd (cc (rw b at e))
]

pub yield_cpu-Inv :
    (me : ℕ) (t : Table) → (t.procs me).state ≡ running → Inv t → Inv (yield_cpu me t)
unfolding yield_cpu
yield_cpu-Inv me t is =
    Inv-set t me (record (t.procs me) { state = runnable })
      (Kept-alive me (t.procs me) (record (t.procs me) { state = runnable }) refl refl refl
        (rw is refl) (λ w. cc w.0))

pub setkilled-Inv : (i : ℕ) (t : Table) → Inv t → Inv (setkilled i t)
unfolding setkilled
setkilled-Inv i t =
    Inv-set t i (record (t.procs i) { killed = true }) (Kept-other i _ _ refl refl refl refl)

Kept-kill :
    (i : ℕ) (p : Proc)
    → Kept i p (
        if is_sleeping p.state
        then record p { killed = true; state = runnable }
        else record p { killed = true })
Kept-kill i p = elim (Bool-cases (is_sleeping p.state)) [
  | inl e ↦
      let was = awake_state p.state e in
      rw e (
        Kept-alive i p (record p { killed = true; state = runnable }) refl refl refl (rw was refl)
          (λ w. cc w.0))
  | inr e ↦ rw e (Kept-other i p (record p { killed = true }) refl refl refl refl)
]

pub kkill-Inv : (pid : ℕ) (t : Table) → Inv t → Inv (kkill pid t).1
unfolding kkill
kkill-Inv pid t inv = elim (Option-cases (find nproc 0 (λ i. (t.procs i).pid == pid))) [
  | inl e ↦ rw (kkill, e) inv
  | inr (i, e) ↦ rw (kkill, e) (Inv-set t i _ (Kept-kill i (t.procs i)) inv)
]

-- Both branches keep the invariant.
pub Inv-if {ℓ} :
    {A : Type ℓ} (b : Bool) (x y : A × Table) → Inv x.1 → Inv y.1 → Inv (if b then x else y).1
Inv-if true x y p q = p
Inv-if false x y p q = q

Inv-size : (me sz : ℕ) (t : Table) → Inv t → Inv (put me (record (t.procs me) { sz = sz }) t)
Inv-size me sz t =
    Inv-set t me _
      (Kept-other me (t.procs me) (record (t.procs me) { sz = sz }) refl refl refl refl)

pub growproc-Inv : (me n grown : ℕ) (t : Table) → Inv t → Inv (growproc me n grown t).1
unfolding growproc
growproc-Inv me n grown t inv = search (Inv-if, Inv-size)
