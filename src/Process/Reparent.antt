-- ===== src/Process/Reparent.antt =====
-- `reparent` of kernel/proc.c: the children of a process that exits go to init.
use mit_operating_system_eng.Base.{
  ℕ, zero, suc, ◌≤◌, ◌<◌, ◌≡◌, ◌≢◌, refl, ap, ◌∙◌, inl, inr, true, false, ◌&&◌, some, ltb, ◌==◌,
  if◌then◌else◌, Bool-cases, Option-cases, arith,
}
use mit_operating_system_eng.Process.{Proc, Table, of_proc, nproc, put, wakeup}
use mit_operating_system_eng.Process.Sweep.{wakeup-at}
use mit_operating_system_eng.Process.Inv.{Inv}
use mit_operating_system_eng.Process.Life.{is_child, reparent_from}
use mit_operating_system_eng.Process.Adopt.{wakeup-me, wake-parent, Inv-given}

-- What `reparent` has done to the first `n` entries, for a caller that runs.
pub record Given (n me : ℕ) (t t' : Table) : Type 0 where
  pub inv : Inv t'
  pub init : t'.init ≡ t.init
  pub caller : t'.procs me ≡ t.procs me
  pub parents :
      (k : ℕ)
      → k < nproc
      → (t'.procs k).parent
        ≡ (if ltb k n && is_child me (t.procs k) then some t.init else (t.procs k).parent)

pub child-parent : (me : ℕ) (p : Proc) → is_child me p ≡ true → p.parent ≡ some me
child-parent me p e = elim (Option-cases p.parent) [
  | inl a ↦ absurd (cc (rw a at e))
  | inr (q, a) ↦ let same = rw a at e in let here : q ≡ me = ground arith in a ∙ ap some here
]

-- The entry that the loop comes to still has its parent.
Given-entry :
    (n me : ℕ) (t t' : Table)
    → n < nproc
    → Given n me t t'
    → (t'.procs n).parent ≡ (t.procs n).parent
Given-entry n me t t' lt g =
    let out : ltb n n ≡ false = ground arith in let p = g.parents n lt in rw out at p

Given-skip :
    (n me : ℕ) (t t' : Table)
    → n < nproc
    → is_child me (t'.procs n) ≡ false
    → Given n me t t'
    → Given (suc n) me t t'
Given-skip n me t t' lt e g = record {
  inv = g.inv;
  init = g.init;
  caller = g.caller;
  parents = λ k h. elim (Bool-cases (n == k)) [
    | inl same ↦
        let is_k : n ≡ k = ground arith in
        let entry : (t'.procs k).parent ≡ (t.procs k).parent =
          rw is_k at (Given-entry n me t t' lt g) in
        let other : is_child me (t.procs k) ≡ false = rw (is_k, entry) at e in
        rw (entry, other) (ground arith)
    | inr apart ↦ let test : ltb k (suc n) ≡ ltb k n = ground arith in rw test (g.parents k h)
  ];
}

Given-parents :
    (n me k : ℕ) (t t' : Table)
    → n < nproc
    → k < nproc
    → is_child me (t'.procs n) ≡ true
    → Given n me t t'
    → ((put n (record (t'.procs n) { parent = some t'.init }) t').procs k).parent
      ≡ (if ltb k (suc n) && is_child me (t.procs k) then some t.init else (t.procs k).parent)
Given-parents n me k t t' lt h e g = elim (Bool-cases (n == k)) [
  | inl same ↦
      let is_k : n ≡ k = ground arith in
      let entry : (t'.procs k).parent ≡ (t.procs k).parent =
        rw is_k at (Given-entry n me t t' lt g) in
      let other : is_child me (t.procs k) ≡ true = rw (is_k, entry) at e in
      let test : ltb k (suc n) ≡ true = ground arith in rw (same, other, test) (ap some g.init)
  | inr apart ↦
      let test : ltb k (suc n) ≡ ltb k n = ground arith in rw (apart, test) (g.parents k h)
]

Given-more :
    (n me : ℕ) (t t' : Table)
    → n < nproc
    → me < nproc
    → me ≢ t.init
    → is_child me (t'.procs n) ≡ true
    → Given n me t t'
    → Given
        (suc n)
        me
        t
        (wakeup me (of_proc t'.init) (put n (record (t'.procs n) { parent = some t'.init }) t'))
unfolding wakeup
Given-more n me t t' lt lt' not_init e g =
    let (_, _, ne) = g.inv.parent_alive n me lt (child-parent me (t'.procs n) e) in
    let apart : (n == me) ≡ false = ground arith in
    let up = child-parent me (t'.procs n) e in
    let next = put n (record (t'.procs n) { parent = some t'.init }) t' in
    record {
      inv = Inv-given me n t' lt (λ s. not_init (s ∙ g.init)) up g.inv;
      init = g.init;
      caller = wakeup-me me (of_proc t'.init) next lt' ∙ (rw apart refl ∙ g.caller);
      parents = λ k h.
          ap (λ (p : Proc). p.parent) (wakeup-at me k (of_proc t'.init) next h)
          ∙ (wake-parent me k (of_proc t'.init) (next.procs k)
              ∙ Given-parents n me k t t' lt h e g);
    }

pub reparent_from-Given :
    (n me : ℕ) (t : Table)
    → n ≤ nproc
    → me < nproc
    → me ≢ t.init
    → Inv t
    → Given n me t (reparent_from n me t)
unfolding reparent_from
reparent_from-Given zero me t lt lt' other inv = record {
  inv = inv;
  init = refl;
  caller = refl;
  parents = λ k h. ground arith;
}
reparent_from-Given (suc n) me t lt lt' other inv =
    let before = reparent_from-Given n me t (omega arith) lt' other inv in
    elim (Bool-cases (is_child me ((reparent_from n me t).procs n))) [
      | inl e ↦ rw e (Given-more n me t _ lt lt' other e before)
      | inr e ↦ rw e (Given-skip n me t _ lt e before)
    ]
