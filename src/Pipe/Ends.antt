-- ===== src/Pipe/Ends.antt =====
-- `pipeclose` of kernel/pipe.c and what the other end then sees.
use mit_operating_system_eng.Base.{
  ℕ, suc, ◌≡◌, ◌↔◌, refl, sym, ap, ◌∙◌, Bool, true, false, ◌&&◌, Option, none, some, List, [], ◌∷◌,
  ◌++◌, length, length-append, if◌then◌else◌, arith,
}
use mit_operating_system_eng.Pipe.{
  Pipe, Reply, returns, fails, Got, Chan, at_nread, at_nwrite, is_empty, write_from, pipewrite,
  read_from, piperead, pipeclose,
}
use mit_operating_system_eng.Pipe.Window.{contents, IsValid}
use mit_operating_system_eng.Pipe.Fifo.{Read, read_from-Read}

length-zero : (xs : List ℕ) → length xs ≡ 0 → xs ≡ []
length-zero [] h = refl
length-zero (x ∷ xs) h = absurd (omega arith)

-- The page is freed exactly when the other end is closed already; otherwise the end is marked
-- closed and the bytes stay.
pub pipeclose_lem :
    (writable : Bool) (pi : Pipe)
    → (((pipeclose writable pi).1 ≡ none)
        ↔ ((if writable then pi.readopen else pi.writeopen) ≡ false))
      × ((pi' : Pipe)
          → (pipeclose writable pi).1 ≡ some pi'
          → (contents pi' ≡ contents pi)
            × ((if writable then pi'.writeopen else pi'.readopen) ≡ false)
            × ((if writable then pi'.readopen else pi'.writeopen) ≡ true))
unfolding pipeclose contents
pipeclose_lem true pi = ground arith
pipeclose_lem false pi = ground arith

-- Once the reader has closed its end, no byte can be written.
pipewrite_after_close :
    (copyin : ℕ → Option ℕ) (killed : Bool) (n : ℕ) (pi pi' : Pipe) (c : Chan)
    → pipeclose false pi ≡ (c, some pi')
    → pipewrite copyin killed (suc n) pi' ≡ (fails, pi')
unfolding pipeclose pipewrite write_from
pipewrite_after_close copyin killed n pi pi' c e =
    let left = ap (λ (a : Chan × Option Pipe). a.1) e in ground arith

close_writer :
    (pi pi' : Pipe) (c : Chan)
    → pipeclose true pi ≡ (c, some pi')
    → (c ≡ at_nread) × (pi' ≡ record pi { writeopen = false })
unfolding pipeclose
close_writer pi pi' c e =
    let woken = ap (λ (a : Chan × Option Pipe). a.0) e in
    let left = ap (λ (a : Chan × Option Pipe). a.1) e in ground arith

close_reader :
    (pi pi' : Pipe) (c : Chan)
    → pipeclose false pi ≡ (c, some pi')
    → (c ≡ at_nwrite) × (pi' ≡ record pi { readopen = false })
unfolding pipeclose
close_reader pi pi' c e =
    let woken = ap (λ (a : Chan × Option Pipe). a.0) e in
    let left = ap (λ (a : Chan × Option Pipe). a.1) e in ground arith

IsValid-closed : (pi : Pipe) → IsValid pi → IsValid (record pi { writeopen = false })
IsValid-closed pi v = record {
  size = v.size;
  small = v.small;
  read_word = v.read_word;
  write_word = v.write_word;
}

contents-closed : (pi : Pipe) → contents (record pi { writeopen = false }) ≡ contents pi
unfolding contents
contents-closed pi = refl

-- A read of a pipe that no writer is left of: what it says and delivers, and the pipe after it.
pub record Drained (copyout : ℕ → Bool) (n : ℕ) (pi : Pipe) (r : Reply × List ℕ × Pipe)
    : Type 0 where
  pub got : Got
  pub answer : r ≡ (returns got.count, got.bytes, got.pipe)
  pub read : Read copyout n 0 [] pi got
  pub at_end : contents pi ≡ [] → (got.count ≡ 0) × (got.bytes ≡ [])

nothing_to_read :
    (copyout : ℕ → Bool) (n : ℕ) (pi : Pipe) (g : Got)
    → Read copyout n 0 [] pi g
    → contents pi ≡ []
    → (g.count ≡ 0) × (g.bytes ≡ [])
nothing_to_read copyout n pi g r none_left =
    let whole = ap length (sym none_left ∙ r.kept) in
    let parts = length-append r.taken (r.lost ++ contents g.pipe) in
    let nothing : length r.taken ≡ 0 = omega arith in
    let same : r.taken ≡ [] = length-zero r.taken nothing in
    (omega (arith, r.counted), r.delivered ∙ same)

-- A read of a pipe whose writers are gone never waits.
piperead-Drained :
    (copyout : ℕ → Bool) (killed : Bool) (n : ℕ) (pi : Pipe)
    → IsValid pi
    → pi.writeopen ≡ false
    → Drained copyout n pi (piperead copyout killed n pi)
unfolding piperead
piperead-Drained copyout killed n pi v closed =
    let read = read_from-Read copyout n 0 [] pi v in
    let runs : (is_empty pi && pi.writeopen) ≡ false = ground arith in
    record {
      got = read_from copyout n 0 [] pi;
      answer = rw runs refl;
      read = read;
      at_end = nothing_to_read copyout n pi (read_from copyout n 0 [] pi) read;
    }

-- Of a pipe with both ends open: the reader's close wakes those who sleep on `nwrite`, where writers
-- sleep, and from then on no byte can be written; the writer's close wakes those who sleep on
-- `nread`, where readers sleep, and keeps the bytes. A read after that never waits: it delivers the
-- bytes that are left from the first on, in order, and says how many, until it has `n`, or none is
-- left, or one cannot be copied out, which is lost; at the end it says 0.
pub after_close :
    (copyin : ℕ → Option ℕ) (copyout : ℕ → Bool) (killed : Bool) (n : ℕ)
    (pi unread unwritten : Pipe) (c d : Chan)
    → IsValid pi
    → pipeclose false pi ≡ (c, some unread)
    → pipeclose true pi ≡ (d, some unwritten)
    → (c ≡ at_nwrite)
      × (pipewrite copyin killed (suc n) unread ≡ (fails, unread))
      × (d ≡ at_nread)
      × (contents unwritten ≡ contents pi)
      × Drained copyout n unwritten (piperead copyout killed n unwritten)
after_close copyin copyout killed n pi unread unwritten c d v e e' =
    let (wakes_writer, _) = close_reader pi unread c e in
    let (wakes_reader, now) = close_writer pi unwritten d e' in
    (
      wakes_writer,
      pipewrite_after_close copyin killed n pi unread c e,
      wakes_reader,
      rw now (contents-closed pi),
      piperead-Drained copyout killed n unwritten (rw now (IsValid-closed pi v)) (rw now refl),
    )
