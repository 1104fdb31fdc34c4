-- ===== src/Process/Fork.antt =====
-- Birth and reaping in kernel/proc.c: `kfork` and `kwait` keep what holds of the table.
use mit_operating_system_eng.Base.{
  ℕ, ◌+◌, ◌%◌, ◌^◌, ◌<◌, ◌≡◌, refl, sym, inl, inr, Bool, true, false, not, ◌||◌, Option, none, some,
  ◌++◌, ◌==◌, if◌then◌else◌, Bool-cases, Option-cases, update, arith, Outcome, ok, panic,
  Outcome-cases,
}
use mit_operating_system_eng.Process.{Proc, Table, unused, running, is_unused, nproc, find}
use mit_operating_system_eng.Process.Sweep.{find-some}
use mit_operating_system_eng.Process.Inv.{Inv, alive}
use mit_operating_system_eng.Process.Calls.{Inv-kept, Kept-same}
use mit_operating_system_eng.Process.Life.{
  freeproc, Memory, claim, prepared, allocproc, dup_files, open_files, mapped_files, dup_cwd, child,
  launch, kfork,
}
use mit_operating_system_eng.Process.Born.{unused_state, born, Inv-vacant, Inv-born}

-- Only slot `i` and the next pid have changed.
Inv-slot :
    (i : ℕ) (t t' : Table)
    → t'.init ≡ t.init
    → t'.next_pid ≡ t.next_pid + 1
    → ((k : ℕ) → (i == k) ≡ false → t'.procs k ≡ t.procs k)
    → Inv (born i (t'.procs i) t)
    → Inv t'
Inv-slot i t t' init next other = Inv-kept (born i (t'.procs i) t) t' init next (λ k _.
    elim (Bool-cases (i == k)) [
      | inl e ↦ let same : i ≡ k = ground arith in rw (e, sym same) (Kept-same i (t'.procs i))
      | inr e ↦ rw (e, other k e) (Kept-same k (t.procs k))
    ])

-- The table that a call leaves, if it does not panic.
abbrev Keeps : Outcome (Option ℕ × Table) → Type 0
Keeps panic = Unit
Keeps (ok (r, t)) = Inv t

Keeps-if :
    (b : Bool) (x y : Outcome (Option ℕ × Table)) → Keeps x → Keeps y → Keeps (if b then x else y)
Keeps-if true x y p q = p
Keeps-if false x y p q = q

-- The slot that `allocproc` takes is given back.
pub Inv-unclaimed :
    (i : ℕ) (t : Table)
    → i < nproc
    → (t.procs i).state ≡ unused
    → t.next_pid + 1 < 2 ^ 31
    → Inv t
    → Inv (freeproc i (claim i t))
unfolding freeproc
Inv-unclaimed i t lt vacant small inv =
    let self : (i == i) ≡ true = ground arith in
    let empty =
      Inv-vacant i ((freeproc i (claim i t)).procs i) t lt vacant (rw self refl) (rw self refl)
        (rw self refl) inv in
    Inv-slot i t (freeproc i (claim i t)) refl (ground arith) (λ k e. rw e refl) empty

-- The slot of `allocproc`, given to a child.
module _ (i me : ℕ) (p q : Proc) (t t' : Table) where
  pub Inv-child :
      i < nproc
      → me < nproc
      → (t.procs i).state ≡ unused
      → alive (t.procs me).state ≡ true
      → q.pid ≡ t.next_pid
      → t'.init ≡ t.init
      → t'.next_pid ≡ t.next_pid + 1
      → t'.procs i ≡ child me p q
      → ((k : ℕ) → (i == k) ≡ false → t'.procs k ≡ t.procs k)
      → Inv t
      → Inv t'
  Inv-child lt lt' vacant a pid init next here other inv =
      Inv-slot i t t' init next other
        (rw here (Inv-born i me (child me p q) t lt lt' vacant a refl pid refl inv))

pub allocproc-none :
    (m : Memory) (t : Table)
    → find nproc 0 (λ i. is_unused (t.procs i).state) ≡ none
    → allocproc m t ≡ (none, t)
unfolding allocproc
allocproc-none m t e = rw (allocproc, e) refl

pub allocproc-some :
    (m : Memory) (i : ℕ) (t : Table)
    → find nproc 0 (λ i. is_unused (t.procs i).state) ≡ some i
    → allocproc m t ≡ (
        if not m.trapframe_page || not m.page_table
        then (none, freeproc i (claim i t))
        else (some i, prepared i t))
unfolding allocproc
allocproc-some m i t e = rw (allocproc, e) refl

launch-Keeps :
    (me i : ℕ) (m : Memory) (t : Table)
    → i < nproc
    → me < nproc
    → (t.procs i).state ≡ unused
    → (t.procs me).state ≡ running
    → t.next_pid + 1 < 2 ^ 31
    → Inv t
    → Keeps (launch me m (some i, prepared i t))
unfolding launch freeproc
launch-Keeps me i m t lt lt' vacant is small inv =
    let self : (i == i) ≡ true = ground arith in
    let wrap : (t.next_pid + 1) % 2 ^ 32 ≡ t.next_pid + 1 = ground arith in
    let empty =
      Inv-vacant i ((freeproc i (prepared i t)).procs i) t lt vacant (rw self refl) (rw self refl)
        (rw self refl) inv in
    let back = Inv-slot i t (freeproc i (prepared i t)) refl wrap (λ k e. rw e refl) empty in
    elim (Bool-cases (not m.copied)) [
      | inl b ↦ rw b back
      | inr b ↦
          elim (Outcome-cases (
            dup_files
              (mapped_files ((prepared i t).procs me).vma
                ++ open_files ((prepared i t).procs me).ofile)
              t.refs)) [
                | inl e ↦ rw (b, e) tt
                | inr (refs, e) ↦
                    rw (b, e)
                      (Inv-child i me ((prepared i t).procs me) ((prepared i t).procs i) t
                        (record (prepared i t) {
                          procs =
                              update (prepared i t).procs i
                                (child me ((prepared i t).procs me) ((prepared i t).procs i));
                          refs = refs;
                          irefs = dup_cwd ((prepared i t).procs me).cwd t.irefs;
                        })
                        lt lt' vacant (rw is refl) (rw self refl) refl wrap (rw self refl)
                        (λ k d. rw d refl) inv)
              ]
    ]

kfork-Keeps :
    (me : ℕ) (m : Memory) (t : Table)
    → me < nproc
    → (t.procs me).state ≡ running
    → t.next_pid + 1 < 2 ^ 31
    → Inv t
    → Keeps (kfork me m t)
unfolding kfork launch
kfork-Keeps me m t lt is small inv =
    elim (Option-cases (find nproc 0 (λ i. is_unused (t.procs i).state))) [
      | inl e ↦ rw (kfork, allocproc-none m t e, launch) inv
      | inr (i, e) ↦
          let (hit, _, below) = find-some nproc 0 i (λ i. is_unused (t.procs i).state) e in
          let vacant = unused_state (t.procs i).state hit in
          elim (Bool-cases (not m.trapframe_page || not m.page_table)) [
            | inl b ↦
                rw (kfork, allocproc-some m i t e, b, launch)
                  (Inv-unclaimed i t below vacant small inv)
            | inr b ↦
                rw (kfork, allocproc-some m i t e, b)
                  (launch-Keeps me i m t below lt vacant is small inv)
          ]
    ]

-- `kfork` by a running process keeps what holds of the table while pids do not run out.
pub kfork-Inv :
    (me : ℕ) (m : Memory) (t t' : Table) (r : Option ℕ)
    → me < nproc
    → (t.procs me).state ≡ running
    → t.next_pid + 1 < 2 ^ 31
    → kfork me m t ≡ ok (r, t')
    → Inv t
    → Inv t'
kfork-Inv me m t t' r lt is small e inv = rw e at (kfork-Keeps me m t lt is small inv)
