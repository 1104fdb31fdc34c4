-- ===== src/Log/Closing.antt =====
-- A commit of kernel/log.c that a system call makes with the log's lock let go.
use mit_operating_system_eng.Base.{
  ok-injective, ℕ, ◌+◌, ◌-◌, ◌%◌, ◌^◌, ◌≤◌, ◌<◌, ◌≡◌, ◌≢◌, ◌⊎◌, refl, sym, ap, ◌∙◌, inl, inr, Bool,
  true, false, none, some, List, [], ◌∷◌, ◌++◌, length, length-append, ltb, Bool-cases, ok, ◌>>◌,
  panic_if, arith,
}
use mit_operating_system_eng.Log.{
  Machine, Stage, copying, heading, installing, clearing, act, stages, end_op, leave, commit,
  write_block_list, bwrite,
}
use mit_operating_system_eng.Log.Commit.{IsReady, block_words, erased-words}
use mit_operating_system_eng.Log.Atomic.{commit-Committed, empty_block}
use mit_operating_system_eng.Log.Session.{System, HasRoom}
use mit_operating_system_eng.Log.Invariant.{Pinned, write_log_from-pins, install_from-pins}

commit-frame :
    (m : Machine)
    → ((commit m).start ≡ m.start)
      × ((commit m).outstanding ≡ m.outstanding)
      × ((commit m).committing ≡ m.committing)
unfolding commit
commit-frame m = elim (Bool-cases (ltb 0 (length m.block))) [
  | inl e ↦ rw e (refl, refl, refl)
  | inr e ↦ rw e (refl, refl, refl)
]

commit-words : (m : Machine) → IsReady m → length ((commit m).view m.start) ≡ block_words
unfolding commit
commit-words m ready = elim (Bool-cases (ltb 0 (length m.block))) [
  | inl e ↦ rw e (erased-words m ready)
  | inr e ↦ rw e ready.words
]

-- The commit gives back every pin.
pub commit-pins : (m : Machine) → IsReady m → Pinned m → (b : ℕ) → (commit m).pins b ≡ 0
unfolding commit write_block_list bwrite
commit-pins m ready pinned b = elim (Bool-cases (ltb 0 (length m.block))) [
  | inl e ↦ rw e (
      install_from-pins m.start 0 m.block _ b ready.distinct
      ∙ rw (write_log_from-pins m.start 0 m.block m.dev) (ground (arith, pinned b)))
  | inr e ↦ rw e (pinned b ∙ rw (empty_block m.block e) refl)
]

pub commit-IsReady : (m : Machine) → IsReady m → IsReady (commit m)
commit-IsReady m ready =
    let done = commit-Committed m ready in
    let at = (commit-frame m).0 in
    record {
      empty = rw at done.header_empty;
      words = rw at (commit-words m ready);
      home = rw done.block_empty tt;
      distinct = rw done.block_empty tt;
      few = rw done.block_empty (omega arith);
      clean = λ b h out. done.on_disk b (rw at at h) ∙ sym (done.in_cache b (rw at at h));
    }

-- What a committing call still does.
abbrev pub run : List Stage → Machine → Machine
run [] m = m
run (c ∷ cs) m = run cs (act c m)

pub run-stages : (m : Machine) → run (stages m) m ≡ commit m
unfolding stages act commit
run-stages m = elim (Bool-cases (ltb 0 (length m.block))) [ inl e ↦ rw e refl | inr e ↦ rw e refl ]

pub act-frame :
    (c : Stage) (m : Machine)
    → ((act c m).committing ≡ m.committing) × ((act c m).outstanding ≡ m.outstanding)
unfolding act
act-frame copying m = (refl, refl)
act-frame heading m = (refl, refl)
act-frame installing m = (refl, refl)
act-frame clearing m = (refl, refl)

-- Calls are at work, and none commits: there is room for what they may write, the machine is ready
-- to commit, and the logged buffers are pinned.
pub record Open (s : System) : Type 0 where
  pub nobody : s.committer ≡ none
  pub has_room : HasRoom s
  pub ready : IsReady s.m
  pub pinned : Pinned s.m

-- A call commits, and no other is at work; what it has still to do ends in an empty log, ready
-- and with nothing pinned.
pub record Closed (s : System) : Type 0 where
  pub rest : List Stage
  pub somebody : s.committer ≡ some rest
  pub alone : s.budgets ≡ []
  pub busy : s.m.committing ≡ true
  pub none_out : s.m.outstanding ≡ 0
  pub ready : IsReady (run rest s.m)
  pub pinned : Pinned (run rest s.m)
  pub emptied : (run rest s.m).block ≡ []

abbrev pub Inv : System → Type 0
Inv s = Open s ⊎ Closed s

pub IsReady-count :
    (m : Machine) (o : ℕ) (c : Bool)
    → IsReady m
    → IsReady (record m { outstanding = o; committing = c })
IsReady-count m o c r = record {
  empty = r.empty;
  words = r.words;
  home = r.home;
  distinct = r.distinct;
  few = r.few;
  clean = r.clean;
}

pub end_op-eq_ok :
    (m m' : Machine) (last : Bool)
    → m.committing ≡ false
    → 0 < m.outstanding
    → m.outstanding ≤ 3
    → end_op m ≡ ok (last, m')
    → (last, m') ≡ leave (m.outstanding - 1) m
unfolding end_op
end_op-eq_ok m m' last idle some_op few e =
    let left : (m.outstanding + 2 ^ 32 - 1) % 2 ^ 32 ≡ m.outstanding - 1 = omega arith in
    sym (ok-injective (rw left at (sym passes ∙ e)))
  where
    passes : end_op m ≡ ok (leave ((m.outstanding + 2 ^ 32 - 1) % 2 ^ 32) m)
    passes = ap (λ c. panic_if c >> ok (leave ((m.outstanding + 2 ^ 32 - 1) % 2 ^ 32) m)) idle

pub no_budget : (bs xs ys : List ℕ) (k : ℕ) → bs ≡ xs ++ (k ∷ ys) → bs ≢ []
no_budget bs xs ys k q e = omega (arith, ap length q ∙ length-append xs (k ∷ ys), ap length e)

pub length-zero : (bs : List ℕ) → length bs ≡ 0 → bs ≡ []
length-zero [] h = refl
length-zero (b ∷ bs) h = absurd (omega arith)
