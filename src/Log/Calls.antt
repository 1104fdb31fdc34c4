-- ===== src/Log/Calls.antt =====
-- System calls that share the log of kernel/log.c, in any order of their steps.
use mit_operating_system_eng.Base.{
  some-injective, ok-injective, ℕ, suc, ◌-◌, ◌≤◌, ◌<◌, ◌≡◌, ◌≢◌, refl, sym, ap, ◌∙◌, inl, inr, Bool,
  true, false, none, some, List, [], ◌∷◌, ◌++◌, length, length-append, ◌==◌, if◌then◌else◌,
  Bool-cases, ok, arith,
}
use mathlib.Core.Path.{subst}
use mit_operating_system_eng.Log.{
  Machine, Stage, act, stages, log_blocks, max_op_blocks, begin_op, end_op, end_commit, leave,
  commit,
}
use mit_operating_system_eng.Log.Commit.{IsReady}
use mit_operating_system_eng.Log.Atomic.{commit-Committed}
use mit_operating_system_eng.Log.Reserve.{begin_op-eq_some}
use mit_operating_system_eng.Log.Session.{
  System, Step, begin, write, finish, work, done, HasRoom, All-append, begin-HasRoom, write-ok,
  write-HasRoom, sum, sum-append,
}
use mit_operating_system_eng.Log.Invariant.{Pinned, record_block-IsReady, record_block-Pinned}
use mit_operating_system_eng.Log.Closing.{
  run, run-stages, act-frame, Open, Closed, Inv, IsReady-count, commit-IsReady, commit-pins,
  end_op-eq_ok, no_budget, length-zero,
}

-- The last call out leaves a commit to be done.
last-Closed :
    (s t : System)
    → Open s
    → s.m.outstanding ≡ 1
    → t.m ≡ record (s.m) { outstanding = 0; committing = true }
    → t.budgets ≡ []
    → t.committer ≡ some (stages t.m)
    → Closed t
last-Closed s t inv one same alone somebody =
    let busy = record (s.m) { outstanding = 0; committing = true } in
    let ready' : IsReady busy = IsReady-count s.m 0 true inv.ready in
    let emptied = (commit-Committed busy ready').block_empty in
    let end : run (stages t.m) t.m ≡ commit busy = run-stages t.m ∙ ap commit same in
    record {
      rest = stages t.m;
      somebody = somebody;
      alone = alone;
      busy = rw same refl;
      none_out = rw same refl;
      ready = rw end (commit-IsReady busy ready');
      pinned = λ b. rw (end, emptied) (commit-pins busy ready' inv.pinned b);
      emptied = rw end emptied;
    }

finish-HasRoom :
    (s t : System) (xs ys : List ℕ) (k : ℕ)
    → HasRoom s
    → s.budgets ≡ xs ++ (k ∷ ys)
    → t.m ≡ record (s.m) { outstanding = s.m.outstanding - 1 }
    → t.budgets ≡ xs ++ ys
    → HasRoom t
finish-HasRoom s t xs ys k h q same r =
    let old_len = ap length q ∙ length-append xs (k ∷ ys) in
    let old_sum = ap sum q ∙ sum-append xs (k ∷ ys) in
    let new_len = ap length r ∙ length-append xs ys in
    let new_sum = ap sum r ∙ sum-append xs ys in
    let caps = (All-append (λ x. x ≤ max_op_blocks) xs (k ∷ ys)).0 (rw q at h.capped) in
    record {
      counted = rw same (omega arith);
      idle = rw same h.idle;
      room = rw same (omega arith);
      few = omega arith;
      capped = rw r ((All-append (λ x. x ≤ max_op_blocks) xs ys).1 (caps.0, caps.1.1));
    }

-- A call that ends.
finish-Inv :
    (s t : System) (xs ys : List ℕ) (k : ℕ) (last : Bool)
    → Open s
    → s.budgets ≡ xs ++ (k ∷ ys)
    → end_op s.m ≡ ok (last, t.m)
    → t.budgets ≡ xs ++ ys
    → t.committer ≡ (if last then some (stages t.m) else s.committer)
    → Inv t
unfolding leave
finish-Inv s t xs ys k last inv q e r c =
    let h = inv.has_room in
    let old_len = ap length q ∙ length-append xs (k ∷ ys) in
    let new_len = ap length r ∙ length-append xs ys in
    let out = end_op-eq_ok s.m t.m last h.idle (omega arith) (omega arith) e in
    let is_last = ap (λ (a : Bool × Machine). a.0) out in
    let is_m = ap (λ (a : Bool × Machine). a.1) out in
    elim (Bool-cases (s.m.outstanding - 1 == 0)) [
      | inl zero_left ↦
          let one : s.m.outstanding ≡ 1 = ground arith in
          let yes_last : last ≡ true = rw zero_left at is_last in
          let m_now : t.m ≡ record (s.m) { outstanding = s.m.outstanding - 1; committing = true } =
            rw zero_left at is_m in
          let nothing : s.m.outstanding - 1 ≡ 0 = omega arith in
          inr (
            last-Closed s t inv one (rw nothing at m_now) (length-zero t.budgets (omega arith))
              (rw yes_last at c))
      | inr some_left ↦
          let not_last : last ≡ false = rw some_left at is_last in
          let m_now : t.m ≡ record (s.m) { outstanding = s.m.outstanding - 1 } =
            rw some_left at is_m in
          inl (record {
            nobody = (rw not_last at c) ∙ inv.nobody;
            has_room = finish-HasRoom s t xs ys k h q m_now r;
            ready = rw m_now (IsReady-count s.m _ _ inv.ready);
            pinned = rw m_now inv.pinned;
          })
    ]

Open-Inv : {s t : System} → Step s t → Open s → Inv t
Open-Inv {s} {t} (begin e q c) inv =
    let h = inv.has_room in
    let same = (begin_op-eq_some s.m t.m (omega arith) (omega arith) e).1 in
    inl (record {
      nobody = c ∙ inv.nobody;
      has_room = begin-HasRoom s t h e q;
      ready = rw same (IsReady-count s.m _ _ inv.ready);
      pinned = rw same inv.pinned;
    })
Open-Inv {s} {t} (write xs ys k b content q home e r c) inv =
    let h = inv.has_room in
    let len = ap sum q ∙ sum-append xs (suc k ∷ ys) in
    let same = sym (ok-injective (sym (write-ok s xs ys k b content h q) ∙ e)) in
    let room : length s.m.block < log_blocks = omega arith in
    inl (record {
      nobody = c ∙ inv.nobody;
      has_room = write-HasRoom s t xs ys k b content h q same r;
      ready = rw same (record_block-IsReady s.m b content home room inv.ready inv.pinned);
      pinned = rw same (record_block-Pinned s.m b content home room inv.ready inv.pinned);
    })
Open-Inv {s} {t} (finish xs ys k last q e r c) inv = finish-Inv s t xs ys k last inv q e r c
Open-Inv (work c cs at e q r) inv = absurd (cc (sym inv.nobody ∙ at))
Open-Inv (done at e q r) inv = absurd (cc (sym inv.nobody ∙ at))

-- While a call commits, `begin_op` lets nobody in.
begin_op-committing : (m m' : Machine) → m.committing ≡ true → begin_op m ≢ some m'
unfolding begin_op
begin_op-committing m m' busy e = absurd (cc (rw busy at e))

work-Closed :
    (s t : System) (c : Stage) (cs : List Stage)
    → Closed s
    → s.committer ≡ some (c ∷ cs)
    → t.m ≡ act c s.m
    → t.budgets ≡ s.budgets
    → t.committer ≡ some cs
    → Closed t
work-Closed s t c cs inv at e q r =
    let is_rest : inv.rest ≡ c ∷ cs = some-injective (sym inv.somebody ∙ at) in
    let frame = act-frame c s.m in
    let same : run inv.rest s.m ≡ run cs t.m =
      ap (λ (l : List Stage). run l s.m) is_rest ∙ ap (run cs) (sym e) in
    record {
      rest = cs;
      somebody = r;
      alone = q ∙ inv.alone;
      busy = rw e (frame.0 ∙ inv.busy);
      none_out = rw e (frame.1 ∙ inv.none_out);
      ready = subst IsReady same inv.ready;
      pinned = subst Pinned same inv.pinned;
      emptied = subst (λ (m : Machine). m.block ≡ []) same inv.emptied;
    }

done-Open :
    (s t : System)
    → Closed s
    → s.committer ≡ some []
    → t.m ≡ end_commit s.m
    → t.budgets ≡ s.budgets
    → t.committer ≡ none
    → Open t
unfolding end_commit
done-Open s t inv at e q r =
    let is_rest : inv.rest ≡ [] = some-injective (sym inv.somebody ∙ at) in
    let same : run inv.rest s.m ≡ s.m = ap (λ (l : List Stage). run l s.m) is_rest in
    let ready : IsReady s.m = subst IsReady same inv.ready in
    let pinned : Pinned s.m = subst Pinned same inv.pinned in
    let empty : s.m.block ≡ [] = subst (λ (m : Machine). m.block ≡ []) same inv.emptied in
    let alone : t.budgets ≡ [] = q ∙ inv.alone in
    record {
      nobody = r;
      has_room = record {
        counted = rw (e, alone) inv.none_out;
        idle = rw e refl;
        room = rw (e, alone, empty) (omega arith);
        few = rw alone (omega arith);
        capped = rw alone tt;
      };
      ready = rw e (IsReady-count s.m s.m.outstanding false ready);
      pinned = rw e pinned;
    }

Closed-Inv : {s t : System} → Step s t → Closed s → Inv t
Closed-Inv {s} {t} (begin e q c) inv = absurd (begin_op-committing s.m t.m inv.busy e)
Closed-Inv {s} (write xs ys k b content q home e r c) inv =
    absurd (no_budget s.budgets xs ys (suc k) q inv.alone)
Closed-Inv {s} (finish xs ys k last q e r c) inv = absurd (no_budget s.budgets xs ys k q inv.alone)
Closed-Inv {s} {t} (work c cs at e q r) inv = inr (work-Closed s t c cs inv at e q r)
Closed-Inv {s} {t} (done at e q r) inv = inl (done-Open s t inv at e q r)

pub data Reach (s : System) : System → Type 0 where
  here : Reach s s
  later : {t u : System} → Reach s t → Step t u → Reach s u

pub Reach-Inv : {s t : System} → Inv s → Reach s t → Inv t
Reach-Inv inv here = inv
Reach-Inv inv (later r st) = elim (Reach-Inv inv r) [
  | inl at_work ↦ Open-Inv st at_work
  | inr commits ↦ Closed-Inv st commits
]
