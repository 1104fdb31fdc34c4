-- ===== src/Log/Invariant.antt =====
-- What holds between the steps of the system calls that share the log of kernel/log.c.
use mit_operating_system_eng.Base.{
  ℕ, suc, ◌-◌, ◌<◌, ◌≡◌, refl, sym, ap, ◌∙◌, inl, inr, true, false, ◌||◌, List, [], ◌∷◌, ◌++◌,
  length, length-append, has, has-append, Distinct, update_ne, ◌==◌, if◌then◌else◌, Bool-cases,
  eqb→eq, arith,
}
use mit_operating_system_eng.Log.{
  Block, Device, Machine, log_blocks, record_block, fill, bpin, install_from, write_log_from,
}
use mit_operating_system_eng.Log.Install.{is_home}
use mit_operating_system_eng.Log.Crash.{home-ne-start}
use mit_operating_system_eng.Log.Commit.{IsReady}
use mit_operating_system_eng.Log.Reserve.{record_block-has, record_block-new}
use mit_operating_system_eng.Log.Session.{All-append}

-- Each block of the transaction is pinned once, so that its buffer is not recycled.
abbrev pub Pinned : Machine → Type 0
Pinned m = (b : ℕ) → m.pins b ≡ (if has b m.block then 1 else 0)

pub write_log_from-pins :
    (start tail : ℕ) (bs : List ℕ) (d : Device) → (write_log_from start tail bs d).pins ≡ d.pins
unfolding write_log_from
write_log_from-pins start tail [] d = refl
write_log_from-pins start tail (x ∷ bs) d = write_log_from-pins start (suc tail) bs _

pub install_from-pins :
    (start tail : ℕ) (bs : List ℕ) (d : Device) (b : ℕ)
    → Distinct bs
    → (install_from start false tail bs d).pins b ≡ (if has b bs then d.pins b - 1 else d.pins b)
unfolding install_from
install_from-pins start tail [] d b h = refl
install_from-pins start tail (x ∷ bs) d b h =
    install_from-pins start (suc tail) bs _ b h.1 ∙ elim (Bool-cases (x == b)) [
      | inl e ↦ rw (e, rw (eqb→eq x b e) at h.0) (ap (λ t. d.pins t - 1) (eqb→eq x b e))
      | inr e ↦ rw e refl
    ]

pub has_append_one : (c : ℕ) (xs : List ℕ) (b : ℕ) → has c (xs ++ (b ∷ [])) ≡ (has c xs || (b == c))
has_append_one c xs b = ground (arith, has-append c xs (b ∷ []))

Distinct-append_one :
    (xs : List ℕ) (b : ℕ) → Distinct xs → has b xs ≡ false → Distinct (xs ++ (b ∷ []))
Distinct-append_one [] b h q = (refl, tt)
Distinct-append_one (x ∷ xs) b h q =
    (ground (arith, has_append_one x xs b), Distinct-append_one xs b h.1 (ground arith))

module _ (m : Machine) (b : ℕ) (content : Block) (home : is_home m.start b ≡ true)
    (room : length m.block < log_blocks) (ready : IsReady m) (pinned : Pinned m) where
  -- `log_write` keeps what a commit relies on.
  pub record_block-IsReady : IsReady (record_block b (fill b content m))
  unfolding fill bpin
  record_block-IsReady = elim (Bool-cases (has b m.block)) [
    | inl old ↦ rw (record_block-has b (fill b content m) old) (record {
      empty = ready.empty;
      words =
          ap length (update_ne m.view b m.start content (λ e. home-ne-start m.start b home (sym e)))
          ∙ ready.words;
      home = ready.home;
      distinct = ready.distinct;
      few = ready.few;
      clean = λ c h out.
          ready.clean c h out ∙ sym (update_ne m.view b c content (λ e. cc (rw e at old)));
    })
    | inr new ↦ rw (record_block-new b (fill b content m) new) (record {
      empty = ready.empty;
      words =
          ap length (update_ne m.view b m.start content (λ e. home-ne-start m.start b home (sym e)))
          ∙ ready.words;
      home =
          (All-append (λ c. is_home m.start c ≡ true) m.block (b ∷ [])).1 (ready.home, (home, tt));
      distinct = Distinct-append_one m.block b ready.distinct new;
      few = omega (arith, length-append {0} m.block (b ∷ []));
      clean = λ c h out.
          let apart = has_append_one c m.block b in
          ready.clean c h (ground arith) ∙ sym (update_ne m.view b c content (ground arith));
    })
  ]

  pub record_block-Pinned : Pinned (record_block b (fill b content m))
  unfolding fill bpin
  record_block-Pinned c = elim (Bool-cases (has b m.block)) [
    | inl old ↦ rw (record_block-has b (fill b content m) old) (pinned c)
    | inr new ↦
        rw (record_block-new b (fill b content m) new)
          (ground (arith, has_append_one c m.block b, pinned b, pinned c))
  ]
