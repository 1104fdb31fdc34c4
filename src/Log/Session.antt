-- ===== src/Log/Session.antt =====
-- System calls that share the log of kernel/log.c, interleaved in any order.
use mit_operating_system_eng.Base.{
  ℕ, suc, ◌+◌, ◌*◌, ◌≤◌, ◌≡◌, ◌↔◌, ap, ◌∙◌, Bool, true, false, Option, none, some, if◌then◌else◌,
  List, [], ◌∷◌, ◌++◌, length, length-append, ok, arith, All,
}
use mit_operating_system_eng.Log.{
  Block, Machine, Stage, log_blocks, max_op_blocks, act, stages, begin_op, end_op, end_commit,
  log_write, record_block, fill,
}
use mit_operating_system_eng.Log.Install.{is_home}
use mit_operating_system_eng.Log.Reserve.{begin_op-eq_some, log_write-ok, length-record_block}

abbrev pub sum : List ℕ → ℕ
sum [] = 0
sum (x ∷ xs) = x + sum xs

pub sum-append : (xs ys : List ℕ) → sum (xs ++ ys) ≡ sum xs + sum ys
sum-append [] ys = omega arith
sum-append (x ∷ xs) ys = omega (arith, sum-append xs ys)

-- The system calls between `begin_op` and `end_op`; each number is how many more blocks that call
-- may still write. `committer` is what the call that commits, if there is one, has still to do.
pub record System : Type 0 where
  pub m : Machine
  pub budgets : List ℕ
  pub committer : Option (List Stage)

-- What the file system does with the log. A call writes at most `max_op_blocks` blocks. Between
-- the two stretches of `end_op` under the lock, and between the calls of `commit`, any other step
-- may come.
pub data Step (s t : System) : Type 0 where
  begin :
      begin_op s.m ≡ some t.m
      → t.budgets ≡ max_op_blocks ∷ s.budgets
      → t.committer ≡ s.committer
      → Step s t
  write :
      (xs ys : List ℕ) (k b : ℕ) (content : Block)
      → s.budgets ≡ xs ++ (suc k ∷ ys)
      → is_home s.m.start b ≡ true
      → log_write b (fill b content s.m) ≡ ok t.m
      → t.budgets ≡ xs ++ (k ∷ ys)
      → t.committer ≡ s.committer
      → Step s t
  finish :
      (xs ys : List ℕ) (k : ℕ) (last : Bool)
      → s.budgets ≡ xs ++ (k ∷ ys)
      → end_op s.m ≡ ok (last, t.m)
      → t.budgets ≡ xs ++ ys
      → t.committer ≡ (if last then some (stages t.m) else s.committer)
      → Step s t
  work :
      (c : Stage) (cs : List Stage)
      → s.committer ≡ some (c ∷ cs)
      → t.m ≡ act c s.m
      → t.budgets ≡ s.budgets
      → t.committer ≡ some cs
      → Step s t
  done :
      s.committer ≡ some []
      → t.m ≡ end_commit s.m
      → t.budgets ≡ s.budgets
      → t.committer ≡ none
      → Step s t

-- There is room in the log for all that the calls at work may still write.
pub record HasRoom (s : System) : Type 0 where
  pub counted : s.m.outstanding ≡ length s.budgets
  pub idle : s.m.committing ≡ false
  pub room : length s.m.block + sum s.budgets ≤ log_blocks
  pub few : length s.budgets ≤ 3
  pub capped : All (λ x. x ≤ max_op_blocks) s.budgets

sum-le-length : (xs : List ℕ) → All (λ x. x ≤ max_op_blocks) xs → sum xs ≤ max_op_blocks * length xs
sum-le-length [] h = omega arith
sum-le-length (x ∷ xs) h = omega (arith, sum-le-length xs h.1)

pub All-append {κ} : (P : ℕ → Type κ) (xs ys : List ℕ) → All P (xs ++ ys) ↔ (All P xs × All P ys)
All-append P [] ys = (λ h. (tt, h), λ h. h.1)
All-append P (x ∷ xs) ys = (
  λ h. ((h.0, ((All-append P xs ys).0 h.1).0), ((All-append P xs ys).0 h.1).1),
  λ h. (h.0.0, (All-append P xs ys).1 (h.0.1, h.1)),
)

pub begin-HasRoom :
    (s t : System)
    → HasRoom s
    → begin_op s.m ≡ some t.m
    → t.budgets ≡ max_op_blocks ∷ s.budgets
    → HasRoom t
begin-HasRoom s t h e q =
    let fits : length s.m.block ≤ log_blocks = omega arith in
    let (room, same) = begin_op-eq_some s.m t.m fits (omega arith) e in
    let total = sum-le-length s.budgets h.capped in
    record {
      counted = rw (q, same) (omega arith);
      idle = rw same h.idle;
      room = rw (q, same) (omega arith);
      few = rw q (omega arith);
      capped = rw q (omega arith, h.capped);
    }

-- A step of `write` does what `record_block` does, and never panics.
pub write-ok :
    (s : System) (xs ys : List ℕ) (k b : ℕ) (content : Block)
    → HasRoom s
    → s.budgets ≡ xs ++ (suc k ∷ ys)
    → log_write b (fill b content s.m) ≡ ok (record_block b (fill b content s.m))
unfolding fill
write-ok s xs ys k b content h q =
    let len = ap length q ∙ length-append xs (suc k ∷ ys) in
    let tot = ap sum q ∙ sum-append xs (suc k ∷ ys) in
    log_write-ok b (fill b content s.m) (omega arith) (omega arith) (omega arith)

pub write-HasRoom :
    (s t : System) (xs ys : List ℕ) (k b : ℕ) (content : Block)
    → HasRoom s
    → s.budgets ≡ xs ++ (suc k ∷ ys)
    → t.m ≡ record_block b (fill b content s.m)
    → t.budgets ≡ xs ++ (k ∷ ys)
    → HasRoom t
unfolding fill
write-HasRoom s t xs ys k b content h q e r =
    let old_len = ap length q ∙ length-append xs (suc k ∷ ys) in
    let old_sum = ap sum q ∙ sum-append xs (suc k ∷ ys) in
    let new_len = ap length r ∙ length-append xs (k ∷ ys) in
    let new_sum = ap sum r ∙ sum-append xs (k ∷ ys) in
    let grown = length-record_block b (fill b content s.m) in
    let caps = (All-append (λ x. x ≤ max_op_blocks) xs (suc k ∷ ys)).0 (rw q at h.capped) in
    record {
      counted = rw e (omega arith);
      idle = rw e (grown.2 ∙ h.idle);
      room = rw e (omega arith);
      few = omega arith;
      capped =
          rw r
            ((All-append (λ x. x ≤ max_op_blocks) xs (k ∷ ys)).1 (caps.0, (omega arith, caps.1.1)));
    }
