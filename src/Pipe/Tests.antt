-- ===== src/Pipe/Tests.antt =====
-- Runs of kernel/pipe.c, and instances of the theorems about it.
use mit_operating_system_eng.Base.{
  ℕ, ◌-◌, ◌^◌, ◌≡◌, refl, true, false, Option, some, [], ◌∷◌, replicate, get_elem?, ltb, arith,
}
use mit_operating_system_eng.Pipe.{
  Pipe, Chan, at_nread, at_nwrite, fails, fresh, write_from, pipewrite, read_from, piperead,
  pipeclose,
}
use mit_operating_system_eng.Pipe.Window.{contents, IsValid}
use mit_operating_system_eng.Pipe.Fifo.{ReadRound, piperead_lem}
use mit_operating_system_eng.Pipe.Ends.{Drained, after_close}

-- Both counts are about to wrap.
abbrev wrapping : Pipe
wrapping = record {
  content = replicate 512 5;
  nread = 2 ^ 32 - 2;
  nwrite = 2 ^ 32 - 2;
  readopen = true;
  writeopen = true;
}

abbrev source : ℕ → Option ℕ
source = get_elem? (7 ∷ 8 ∷ 9 ∷ [])

wrapping-IsValid : IsValid wrapping
wrapping-IsValid = record {
  size = refl;
  small = omega arith;
  read_word = omega arith;
  write_word = omega arith;
}

write_wraps : (pipewrite source false 3 wrapping).1.nwrite ≡ 1
unfolding pipewrite write_from
write_wraps = refl

-- A read of two bytes whose second cannot be copied out loses that byte.
read_loses : (piperead (λ i. ltb i 1) false 2 (pipewrite source false 3 wrapping).1).1 ≡ 7 ∷ []
unfolding pipewrite write_from piperead read_from
read_loses = refl

piperead_lem_example :
    ReadRound (λ i. true) false 2 wrapping (piperead (λ i. true) false 2 wrapping)
piperead_lem_example = piperead_lem (λ i. true) false 2 wrapping wrapping-IsValid

-- A new pipe has both ends open, so closing one does not free it.
close_fresh :
    pipeclose false (fresh []) ≡ (at_nwrite, some (record (fresh []) { readopen = false }))
unfolding pipeclose fresh
close_fresh = refl

-- Three bytes are left, over the wrap of the counts.
abbrev three_left : Pipe
three_left = record wrapping { nwrite = 1 }

three_left-IsValid : IsValid three_left
three_left-IsValid = record {
  size = refl;
  small = omega arith;
  read_word = omega arith;
  write_word = omega arith;
}

after_close_example :
    (◌≡◌ {A = Chan} at_nwrite at_nwrite)
    × (pipewrite source false 3 (record three_left { readopen = false })
        ≡ (fails, record three_left { readopen = false }))
    × (◌≡◌ {A = Chan} at_nread at_nread)
    × (contents (record three_left { writeopen = false }) ≡ contents three_left)
    × Drained
        (λ i. true)
        2
        (record three_left { writeopen = false })
        (piperead (λ i. true) false 2 (record three_left { writeopen = false }))
unfolding pipeclose
after_close_example =
    after_close source (λ i. true) false 2 three_left (record three_left { readopen = false })
      (record three_left { writeopen = false }) at_nwrite at_nread three_left-IsValid refl refl
