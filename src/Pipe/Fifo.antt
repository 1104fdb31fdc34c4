-- ===== src/Pipe/Fifo.antt =====
-- `pipewrite` and `piperead` of kernel/pipe.c move bytes through a queue.
use mit_operating_system_eng.Base.{
  ℕ, zero, suc, ◌+◌, ◌<◌, ◌≡◌, ◌≢◌, refl, sym, ap, ◌∙◌, ◌⊎◌, inl, inr, Bool, true, false, not, ◌||◌,
  Option, none, some, List, [], ◌∷◌, ◌++◌, length, Bool-cases, arith,
}
use mathlib.Core.List.{append-nil, append_assoc}
use mit_operating_system_eng.Pipe.{
  Pipe, pipe_size, Reply, returns, fails, sleeps, Got, skip, next_byte, is_empty, read_from,
  piperead,
}
use mit_operating_system_eng.Pipe.Window.{
  empty-contents, held, contents, IsValid, skip-contents, skip-IsValid,
}

-- The bytes at the `k` offsets from `i` on, up to the first that cannot be copied.
abbrev pub bytes_in : (ℕ → Option ℕ) → ℕ → ℕ → List ℕ
bytes_in copyin i zero = []
bytes_in copyin i (suc k) = elim (copyin i) [ none ↦ [] | some ch ↦ ch ∷ bytes_in copyin (i + 1) k ]

-- Why the loop stopped after `k` of `n` bytes from offset `i`, begun at `pi`, with `pi'` left.
abbrev pub Stopped : (ℕ → Option ℕ) → Bool → ℕ → ℕ → ℕ → Pipe → Pipe → Reply → Type 0
Stopped copyin killed n i k pi pi' (returns j) = (j ≡ i + k) × ((k ≡ n) ⊎ (copyin (i + k) ≡ none))
Stopped copyin killed n i k pi pi' fails = (k ≡ 0) × ((not pi.readopen || killed) ≡ true)
Stopped copyin killed n i k pi pi' (sleeps j) = (j ≡ i + k) × (k < n) × (held pi' ≡ pipe_size)

-- What a run of the loop has done: `k` bytes are appended to those in the pipe.
pub record Wrote (copyin : ℕ → Option ℕ) (killed : Bool) (n i : ℕ) (pi : Pipe) (r : Reply × Pipe)
    : Type 0 where
  pub k : ℕ
  pub valid : IsValid r.1
  pub appended : contents r.1 ≡ contents pi ++ bytes_in copyin i k
  pub copied : length (bytes_in copyin i k) ≡ k
  pub stopped : Stopped copyin killed n i k pi r.1 r.0

-- What the copy loop of `piperead` has done: `taken` is delivered after `out`, and `lost` is gone.
pub record Read (copyout : ℕ → Bool) (n i : ℕ) (out : List ℕ) (pi : Pipe) (g : Got) : Type 0 where
  pub taken : List ℕ
  pub lost : List ℕ
  pub valid : IsValid g.pipe
  pub delivered : g.bytes ≡ out ++ taken
  pub counted : g.count ≡ i + length taken
  pub kept : contents pi ≡ taken ++ (lost ++ contents g.pipe)
  pub why :
      ((lost ≡ []) × ((length taken ≡ n) ⊎ (contents g.pipe ≡ [])))
      ⊎ ((length lost ≡ 1) × (copyout g.count ≡ false))

pub read_from-Read :
    (copyout : ℕ → Bool) (n i : ℕ) (out : List ℕ) (pi : Pipe)
    → IsValid pi
    → Read copyout n i out pi (read_from copyout n i out pi)
unfolding read_from
read_from-Read copyout zero i out pi v = record {
  taken = [];
  lost = [];
  valid = v;
  delivered = sym (append-nil out);
  counted = omega arith;
  kept = refl;
  why = inl (refl, inl refl);
}
read_from-Read copyout (suc n) i out pi v = elim (Bool-cases (is_empty pi)) [
  | inl e ↦ rw e (record {
    taken = [];
    lost = [];
    valid = v;
    delivered = sym (append-nil out);
    counted = omega arith;
    kept = refl;
    why = inl (refl, inr (empty-contents v e));
  })
  | inr ne ↦ rw ne (elim (Bool-cases (copyout i)) [
    | inl good ↦
        let ch = next_byte pi in
        let r = read_from-Read copyout n (i + 1) (out ++ (ch ∷ [])) (skip pi) (skip-IsValid v ne) in
        rw good (record {
          taken = ch ∷ r.taken;
          lost = r.lost;
          valid = r.valid;
          delivered = r.delivered ∙ append_assoc out (ch ∷ []) r.taken;
          counted = omega (arith, r.counted);
          kept = skip-contents v ne ∙ ap (λ l. ch ∷ l) r.kept;
          why = elim r.why [
            | inl (none_lost, inl all) ↦ inl (none_lost, inl (ap suc all))
            | inl (none_lost, inr rest) ↦ inl (none_lost, inr rest)
            | inr bad ↦ inr bad
          ];
        })
    | inr bad ↦ rw bad (record {
      taken = [];
      lost = next_byte pi ∷ [];
      valid = skip-IsValid v ne;
      delivered = sym (append-nil out);
      counted = omega arith;
      kept = skip-contents v ne;
      why = inr (refl, bad);
    })
  ])
]

-- How a round of `piperead` ends.
abbrev pub ReadRound : (ℕ → Bool) → Bool → ℕ → Pipe → Reply × List ℕ × Pipe → Type 0
ReadRound copyout killed n pi (returns c, bytes, pi') =
    Read copyout n 0 [] pi (record { count = c; bytes = bytes; pipe = pi' })
    × ((contents pi ≢ []) ⊎ (pi.writeopen ≡ false))
ReadRound copyout killed n pi (fails, bytes, pi') =
    (killed ≡ true) × (contents pi ≡ []) × (pi.writeopen ≡ true) × (bytes ≡ []) × (pi' ≡ pi)
ReadRound copyout killed n pi (sleeps c, bytes, pi') =
    (killed ≡ false) × (contents pi ≡ []) × (pi.writeopen ≡ true) × (bytes ≡ []) × (pi' ≡ pi)

-- `piperead` takes bytes from the front of the pipe: it delivers the first of them in order and says
-- how many, until it has `n` or the pipe is empty. Where a byte cannot be copied out it stops, and
-- that byte is gone. On an empty pipe it sleeps, or fails if killed, as long as a writer is left.
pub piperead_lem :
    (copyout : ℕ → Bool) (killed : Bool) (n : ℕ) (pi : Pipe)
    → IsValid pi
    → ReadRound copyout killed n pi (piperead copyout killed n pi)
unfolding piperead
piperead_lem copyout killed n pi v = elim (Bool-cases (is_empty pi)) [
  | inl e ↦ elim (Bool-cases pi.writeopen) [
    | inl open_end ↦
        simp (e, open_end)
          (elim (Bool-cases killed) [
            | inl dead ↦ rw dead (refl, empty-contents v e, open_end, refl, refl)
            | inr live ↦ rw live (refl, empty-contents v e, open_end, refl, refl)
          ])
    | inr closed ↦ simp (e, closed) (read_from-Read copyout n 0 [] pi v, inr refl)
  ]
  | inr ne ↦
      rw ne (read_from-Read copyout n 0 [] pi v, inl (λ q. cc (sym (skip-contents v ne) ∙ q)))
]
