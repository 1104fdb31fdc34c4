-- ===== src/Files/Session.antt =====
-- Any sequence of a process's descriptor calls.
use mit_operating_system_eng.Base.{ℕ, ◌≡◌, refl, ap, Option, List, [], ◌∷◌, Outcome, ok, panic}
use mit_operating_system_eng.Files.{
  State, Layers, sys_dup, sys_close, sys_read, sys_write, Inode, sys_open,
}
use mit_operating_system_eng.Files.Counts.{Counted}
-- The call returns, and the counts are exact after it.
use mit_operating_system_eng.Files.Calls.{Works, sys_dup-Works, sys_close-Works, sys_open-Works}
use mit_operating_system_eng.Files.Transfers.{sys_read-Works, sys_write-Works}

-- The calls of a process on its descriptors.
pub data Call : Type 0 where
  opens : ℕ → Option Inode → Call
  dups closes : ℕ → Call
  reads writes : Layers → ℕ → ℕ → Call

abbrev pub leaves : {A : Type 0} → Outcome (A × State) → Outcome State
leaves panic = panic
leaves (ok r) = ok r.1

abbrev pub call : Call → State → Outcome State
call (opens omode node) s = leaves (sys_open omode node s)
call (dups fd) s = leaves (sys_dup fd s)
call (closes fd) s = leaves (sys_close fd s)
call (reads l fd n) s = leaves (sys_read l fd n s)
call (writes l fd n) s = leaves (sys_write l fd n s)

unfoldable pub run : List Call → State → Outcome State
run [] s = ok s
run (c ∷ cs) s = elim (call c s) [ panic ↦ panic | ok s' ↦ run cs s' ]

pub record Lasts (other : ℕ → ℕ) (o : Outcome State) : Type 0 where
  pub after : State
  pub returns : o ≡ ok after
  pub counted : Counted other after

lasts :
    {A : Type 0} {other : ℕ → ℕ} (o : Outcome (A × State)) → Works other o → Lasts other (leaves o)
lasts o w = record { after = w.after; returns = ap leaves w.returns; counted = w.counted }

call-Lasts : (other : ℕ → ℕ) (c : Call) (s : State) → Counted other s → Lasts other (call c s)
call-Lasts other (opens omode node) s h =
    lasts (sys_open omode node s) (sys_open-Works other omode node s h)
call-Lasts other (dups fd) s h = lasts (sys_dup fd s) (sys_dup-Works other fd s h)
call-Lasts other (closes fd) s h = lasts (sys_close fd s) (sys_close-Works other fd s h)
call-Lasts other (reads l fd n) s h = lasts (sys_read l fd n s) (sys_read-Works other l fd n s h)
call-Lasts other (writes l fd n) s h = lasts (sys_write l fd n s) (sys_write-Works other l fd n s h)

-- Where the reference counts are exact, and files in use have a kind, every sequence of `sys_open`,
-- `sys_dup`, `sys_close`, `sys_read` and `sys_write` goes through without a panic and leaves them so.
pub run-Lasts :
    (other : ℕ → ℕ) (cs : List Call) (s : State) → Counted other s → Lasts other (run cs s)
unfolding run
run-Lasts other [] s h = record { after = s; returns = refl; counted = h }
run-Lasts other (c ∷ cs) s h =
    let first = call-Lasts other c s h in
    let rest = run-Lasts other cs first.after first.counted in
    record {
      after = rest.after;
      returns = rw (run, first.returns) rest.returns;
      counted = rest.counted;
    }
