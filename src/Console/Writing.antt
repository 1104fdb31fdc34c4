-- ===== src/Console/Writing.antt =====
-- `consolewrite` of kernel/console.c sends the bytes of the caller in order, 32 at a time.
use mathlib.Core.List.{append-nil, append_assoc}
use mit_operating_system_eng.Base.{
  ℕ, zero, suc, ◌+◌, ◌-◌, ◌≤◌, ◌<◌, ◌≡◌, sym, ◌∙◌, ◌⊎◌, inl, inr, Bool, false, Option, none, some,
  List, ◌++◌, ltb, if◌then◌else◌, Bool-cases, arith,
}
use mit_operating_system_eng.Console.{write_from, consolewrite}
use mit_operating_system_eng.Console.Slices.{slice, slice-append}

-- `either_copyin` of `n` bytes from offset `i` of the caller's bytes `src`, which works where `ok` says.
abbrev pub copies : (ℕ → ℕ) → (ℕ → ℕ → Bool) → ℕ → ℕ → Option (List ℕ)
copies src ok i n = if ok i n then some (slice src i n) else none

abbrev pub chunk : ℕ → ℕ
chunk n = if ltb n 32 then n else 32

chunk_range : (i n : ℕ) → i < n → (i + chunk (n - i) ≤ n) × (0 < chunk (n - i))
chunk_range i n h = ground arith

-- `k` bytes from offset `i` on were sent: all of them, or those before a chunk that cannot be read.
pub record Sent (ok : ℕ → ℕ → Bool) (src : ℕ → ℕ) (i n : ℕ) (out : List ℕ) (r : ℕ × List ℕ)
    : Type 0 where
  pub from : i ≤ r.0
  pub bound : r.0 ≤ n
  pub sent : r.1 ≡ out ++ slice src i (r.0 - i)
  pub stop : (r.0 ≡ n) ⊎ (ok r.0 (chunk (n - r.0)) ≡ false)

module _ (src : ℕ → ℕ) (ok : ℕ → ℕ → Bool) where
  nothing_more :
      (i n : ℕ) (out : List ℕ)
      → i ≤ n
      → (i ≡ n) ⊎ (ok i (chunk (n - i)) ≡ false)
      → Sent ok src i n out (i, out)
  unfolding slice
  nothing_more i n out h stop =
      let none_sent : i - i ≡ 0 = omega arith in
      record {
        from = omega arith;
        bound = h;
        sent = rw none_sent (sym (append-nil out));
        stop = stop;
      }

  -- A chunk, and then the rest.
  chunk-Sent :
      (i m n : ℕ) (out : List ℕ) (r : ℕ × List ℕ)
      → Sent ok src (i + m) n (out ++ slice src i m) r
      → Sent ok src i n out r
  chunk-Sent i m n out r t =
      let a = t.from in
      let parts : r.0 - i ≡ m + (r.0 - (i + m)) = omega arith in
      record {
        from = omega arith;
        bound = t.bound;
        sent =
            t.sent
            ∙ rw (parts, slice-append src i m (r.0 - (i + m)))
                (append_assoc out (slice src i m) (slice src (i + m) (r.0 - (i + m))));
        stop = t.stop;
      }

  write_from-Sent :
      (fuel i n : ℕ) (out : List ℕ)
      → i ≤ n
      → n ≤ i + fuel
      → Sent ok src i n out (write_from (copies src ok) fuel i n out)
  unfolding write_from
  write_from-Sent zero i n out h g = nothing_more i n out h (inl (omega arith))
  write_from-Sent (suc fuel) i n out h g = elim (Bool-cases (ltb i n)) [
    | inr e ↦ rw e (nothing_more i n out h (inl (ground arith)))
    | inl e ↦ elim (Bool-cases (ok i (chunk (n - i)))) [
      | inr c ↦ rw (e, c) (nothing_more i n out h (inr c))
      | inl c ↦
          let (less, some_sent) = chunk_range i n (ground arith) in
          rw (e, c)
            (chunk-Sent i (chunk (n - i)) n out _ (
              write_from-Sent fuel (i + chunk (n - i)) n (out ++ slice src i (chunk (n - i)))
                (omega arith) (omega arith)))
    ]
  ]

  -- `consolewrite` sends the caller's bytes in order, without loss, until all are sent or the next
  -- chunk cannot be copied in, and answers how many it has sent.
  pub consolewrite_lem :
      (n : ℕ) (out : List ℕ) → Sent ok src 0 n out (consolewrite (copies src ok) n out)
  unfolding consolewrite
  consolewrite_lem n out = write_from-Sent n 0 n out (omega arith) (omega arith)
