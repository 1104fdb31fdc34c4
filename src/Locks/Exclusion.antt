-- ===== src/Locks/Exclusion.antt =====
-- The spin lock of kernel/spinlock.c: whatever the CPUs do in whatever order, one of them holds it.
use mit_operating_system_eng.Base.{
  ℕ, ◌<◌, ◌≡◌, ◌≢◌, refl, sym, ap, ◌∙◌, inl, inr, Bool, true, false, not, some, ◌==◌, if◌then◌else◌,
  Bool-cases, Option-cases, Outcome-cases, ok-injective, ok, panic, arith,
}
use mit_operating_system_eng.Locks.{
  Spinlock, Stage, outside, spinning, taken, inside, leaving, System, initlock, push_off, pop_off,
  holding, acquire_from, swap, note_cpu, release_from, unlock,
}

-- The CPU has the lock.
abbrev pub has : Stage → Bool
has outside = false
has spinning = false
has _ = true

-- The CPU runs code of its own, from which it may call.
abbrev pub may_call : Stage → Bool
may_call outside = true
may_call inside = true
may_call _ = false

pub data Step : System → System → Type 0 where
  acquires :
      {s s' : System} (me : ℕ)
      → may_call (s.stage me) ≡ true
      → acquire_from me s ≡ ok s'
      → Step s s'
  spins : {s : System} (me : ℕ) → s.stage me ≡ spinning → Step s (swap me s)
  notes : {s : System} (me : ℕ) → s.stage me ≡ taken → Step s (note_cpu me s)
  releases :
      {s s' : System} (me : ℕ)
      → may_call (s.stage me) ≡ true
      → release_from me s ≡ ok s'
      → Step s s'
  unlocks : {s s' : System} (me : ℕ) → s.stage me ≡ leaving → unlock me s ≡ ok s' → Step s s'

pub data Reach : System → Type 0 where
  start : (s : System) → s.lk ≡ initlock → ((c : ℕ) → s.stage c ≡ outside) → Reach s
  next : {s s' : System} → Reach s → Step s s' → Reach s'

pub record Inv (s : System) : Type 0 where
  pub locked : (c : ℕ) → has (s.stage c) ≡ true → s.lk.locked ≡ true
  pub single : (c d : ℕ) → has (s.stage c) ≡ true → has (s.stage d) ≡ true → c ≡ d
  pub noted : (c : ℕ) → s.stage c ≡ inside → s.lk.cpu ≡ some c
  pub named : (c : ℕ) → s.lk.cpu ≡ some c → s.stage c ≡ inside
  -- Interrupts are off from the call of `acquire` to the end of `release`.
  pub quiet : (c : ℕ) → s.stage c ≢ outside → ((s.cpus c).intr ≡ false) × (0 < (s.cpus c).noff)

start-Inv : (s : System) → s.lk ≡ initlock → ((c : ℕ) → s.stage c ≡ outside) → Inv s
start-Inv s e out = record {
  locked = λ c h. ground (arith, out c);
  single = λ c d h k. ground (arith, out c);
  noted = λ c h. absurd (cc (h, out c));
  named = λ c h. absurd (cc (h, ap (λ (l : Spinlock). l.cpu) e));
  quiet = λ c h. absurd (h (out c));
}

holding-cpu : (me : ℕ) (lk : Spinlock) → holding me lk ≡ true → lk.cpu ≡ some me
unfolding holding
holding-cpu me lk e = elim (Option-cases lk.cpu) [
  | inl a ↦ absurd (ground (arith, rw a at e))
  | inr (c, a) ↦ let e' = rw a at e in let same : c ≡ me = ground (arith, e') in a ∙ ap some same
]

inside-holding : (me : ℕ) (s : System) → Inv s → s.stage me ≡ inside → holding me s.lk ≡ true
unfolding holding
inside-holding me s inv is =
    let self : (me == me) ≡ true = ground arith in
    let held : s.lk.locked ≡ true = inv.locked me (rw is refl) in
    rw (held, inv.noted me is, self) refl

Inv-if : (b : Bool) (x y : System) → Inv x → (b ≡ false → Inv y) → Inv (if b then x else y)
Inv-if true x y p q = p
Inv-if false x y p q = q refl

swap-Inv : (me : ℕ) (s : System) → s.stage me ≡ spinning → Inv s → Inv (swap me s)
unfolding swap
swap-Inv me s is inv = Inv-if s.lk.locked s _ inv (λ e. record {
  locked = λ c h. refl;
  single = λ c d h k. ground (arith, inv.locked c, inv.locked d);
  noted = λ c h. ground (arith, inv.noted c, inv.locked c);
  named = λ c h. ground (arith, inv.named c, inv.locked c);
  quiet = λ c h. ground (arith, inv.quiet c);
})

note_cpu-Inv : (me : ℕ) (s : System) → s.stage me ≡ taken → Inv s → Inv (note_cpu me s)
unfolding note_cpu
note_cpu-Inv me s is inv = record {
  locked = λ c h. ground (arith, inv.locked c, inv.locked me);
  single = λ c d h k. ground (arith, inv.single c d, inv.single me d, inv.single c me);
  noted = λ c h. ground (arith, inv.noted c, inv.single c me);
  named = λ c h. ground (arith, inv.named c);
  quiet = λ c h. ground (arith, inv.quiet c);
}

acquire_from-Inv :
    (me : ℕ) (s s' : System)
    → may_call (s.stage me) ≡ true
    → acquire_from me s ≡ ok s'
    → Inv s
    → Inv s'
unfolding acquire_from push_off
acquire_from-Inv me s s' call e inv = elim (Bool-cases (holding me s.lk)) [
  | inl b ↦ absurd (cc (rw (acquire_from, b) at e))
  | inr b ↦ rw (sym (ok-injective (rw (acquire_from, b) at e))) (record {
    locked = λ c h. ground (arith, inv.locked c);
    single = λ c d h k. ground (arith, inv.single c d);
    noted = λ c h. ground (arith, inv.noted c);
    named = λ c h.
        let here = inv.named c h in
        elim (Bool-cases (me == c)) [
          | inl same ↦
              let is_me : c ≡ me = ground arith in
              absurd (cc (b, inside-holding me s inv (sym (ap s.stage is_me) ∙ here)))
          | inr other ↦ rw other here
        ];
    quiet = λ c h. ground (arith, inv.quiet c);
  })
]

release_from-Inv :
    (me : ℕ) (s s' : System)
    → may_call (s.stage me) ≡ true
    → release_from me s ≡ ok s'
    → Inv s
    → Inv s'
unfolding release_from
release_from-Inv me s s' call e inv = elim (Bool-cases (not (holding me s.lk))) [
  | inl b ↦ absurd (cc (rw (release_from, b) at e))
  | inr b ↦
      let mine : s.lk.cpu ≡ some me = holding-cpu me s.lk (ground arith) in
      let here = inv.named me mine in
      rw (sym (ok-injective (rw (release_from, b) at e))) (record {
        locked = λ c h. ground (arith, inv.locked c, inv.locked me);
        single = λ c d h k. ground (arith, inv.single c d, inv.single me d, inv.single c me);
        noted = λ c h. ground (arith, inv.noted c, inv.single c me);
        named = λ c h. ground (arith, inv.named c);
        quiet = λ c h. ground (arith, inv.quiet c);
      })
]

unlock-Inv : (me : ℕ) (s s' : System) → s.stage me ≡ leaving → unlock me s ≡ ok s' → Inv s → Inv s'
unfolding unlock
unlock-Inv me s s' is e inv = elim (Outcome-cases (pop_off (s.cpus me))) [
  | inl b ↦ absurd (cc (rw (unlock, b) at e))
  | inr (c', b) ↦ rw (sym (ok-injective (rw (unlock, b) at e))) (record {
    locked = λ c h. ground (arith, inv.single c me);
    single = λ c d h k. ground (arith, inv.single c d);
    noted = λ c h. ground (arith, inv.noted c);
    named = λ c h. ground (arith, inv.named c);
    quiet = λ c h. ground (arith, inv.quiet c);
  })
]

Step-Inv : {s s' : System} → Step s s' → Inv s → Inv s'
Step-Inv (acquires {s} {s'} me call e) inv = acquire_from-Inv me s s' call e inv
Step-Inv (spins {s} me is) inv = swap-Inv me s is inv
Step-Inv (notes {s} me is) inv = note_cpu-Inv me s is inv
Step-Inv (releases {s} {s'} me call e) inv = release_from-Inv me s s' call e inv
Step-Inv (unlocks {s} {s'} me is e) inv = unlock-Inv me s s' is e inv

pub Reach-Inv : {s : System} → Reach s → Inv s
Reach-Inv (start s e out) = start-Inv s e out
Reach-Inv (next r step) = Step-Inv step (Reach-Inv r)

-- What the callers rely on.
pub record Safe (s : System) : Type 0 where
  pub exclusive : (c d : ℕ) → has (s.stage c) ≡ true → has (s.stage d) ≡ true → c ≡ d
  pub undisturbed : (c : ℕ) → s.stage c ≢ outside → (s.cpus c).intr ≡ false
  pub acquirable : (c : ℕ) → s.stage c ≡ outside → acquire_from c s ≢ panic
  pub no_reentry : (c : ℕ) → s.stage c ≡ inside → acquire_from c s ≡ panic
  pub releasable : (c : ℕ) → s.stage c ≡ inside → release_from c s ≢ panic
  pub unlockable : (c : ℕ) → s.stage c ≡ leaving → unlock c s ≢ panic

Inv-Safe : (s : System) → Inv s → Safe s
unfolding acquire_from release_from unlock pop_off
Inv-Safe s inv = record {
  exclusive = inv.single;
  undisturbed = λ c h. (inv.quiet c h).0;
  acquirable = λ c is e. elim (Bool-cases (holding c s.lk)) [
    | inl b ↦ cc (is, inv.named c (holding-cpu c s.lk b))
    | inr b ↦ cc (rw (acquire_from, b) at e)
  ];
  no_reentry = λ c is. rw (inside-holding c s inv is) refl;
  releasable = λ c is e. cc (rw (release_from, inside-holding c s inv is) at e);
  unlockable = λ c is e.
      let (off, nested) = inv.quiet c (λ q. absurd (cc (is, q))) in
      let counted : ((s.cpus c).noff == 0) ≡ false = ground arith in
      cc (rw (unlock, pop_off, off, counted) at e);
}

-- In every state that CPUs bring a spin lock to by the atomic steps of `acquire` and `release`, one of
-- them has it at most, interrupts are off on each that wants or has it, `acquire` panics just for the
-- CPU inside, and `release` by the CPU inside does not panic.
pub Reach-Safe : (s : System) → Reach s → Safe s
Reach-Safe s r = Inv-Safe s (Reach-Inv r)
