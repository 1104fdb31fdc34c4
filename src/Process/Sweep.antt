-- ===== src/Process/Sweep.antt =====
-- The loops of kernel/proc.c over the process table.
use mit_operating_system_eng.Base.{
  ℕ, zero, suc, ◌+◌, ◌≤◌, ◌<◌, ◌≡◌, refl, ◌∙◌, inl, inr, Bool, true, false, none, some, ltb, ◌==◌,
  if◌then◌else◌, Bool-cases, arith,
}
use mit_operating_system_eng.Process.{Proc, Table, Chan, nproc, each, find, wake, wakeup}

-- The loop has applied its body to each entry below `n`.
pub each_lem :
    (n : ℕ) (f : ℕ → Proc → Proc) (procs : ℕ → Proc) (i : ℕ)
    → each n f procs i ≡ (if ltb i n then f i (procs i) else procs i)
unfolding each
each_lem zero f procs i = ground arith
each_lem (suc n) f procs i = elim (Bool-cases (n == i)) [
  | inl e ↦
      let same : n ≡ i = ground arith in
      let before = each_lem n f procs n in
      let out : ltb n n ≡ false = ground arith in
      let test : ltb i (suc n) ≡ true = ground arith in
      let here : each n f procs n ≡ procs n = rw out at before in rw (e, test, here, same) refl
  | inr e ↦
      let before = each_lem n f procs i in
      let test : ltb i (suc n) ≡ ltb i n = ground arith in rw (e, test) before
]

pub find-some :
    (n i k : ℕ) (test : ℕ → Bool) → find n i test ≡ some k → (test k ≡ true) × (i ≤ k) × (k < i + n)
unfolding find
find-some zero i k test e = absurd (cc e)
find-some (suc n) i k test e = elim (Bool-cases (test i)) [
  | inl here ↦ let same : i ≡ k = cc (rw here at e) in (rw same at here, omega arith, omega arith)
  | inr later ↦
      let (hit, from, to) = find-some n (i + 1) k test (rw later at e) in
      (hit, omega arith, omega arith)
]

pub find-none :
    (n i k : ℕ) (test : ℕ → Bool) → find n i test ≡ none → i ≤ k → k < i + n → test k ≡ false
unfolding find
find-none zero i k test e from to = absurd (omega arith)
find-none (suc n) i k test e from to = elim (Bool-cases (test i)) [
  | inl here ↦ absurd (cc (rw here at e))
  | inr later ↦ elim (Bool-cases (i == k)) [
    | inl same ↦ let is_k : i ≡ k = ground arith in rw is_k at later
    | inr other ↦ find-none n (i + 1) k test (rw later at e) (ground arith) (omega arith)
  ]
]

pub wakeup-at :
    (me i : ℕ) (chan : Chan) (t : Table)
    → i < nproc
    → (wakeup me chan t).procs i ≡ wake me chan i (t.procs i)
unfolding wakeup
wakeup-at me i chan t h =
    let test : ltb i nproc ≡ true = ground arith in
    each_lem nproc (wake me chan) t.procs i ∙ rw test refl
