-- ===== src/Bcache/Tests.antt =====
-- Runs of kernel/bio.c, and instances of the theorems about it.
use mit_operating_system_eng.Base.{
  ℕ, ◌≡◌, ◌≢◌, refl, inl, inr, true, false, List, [], ◌∷◌, ok, arith,
}
use mit_operating_system_eng.Bcache.{Buf, Place, whole, first, last, bget, bread, brelse}
use mit_operating_system_eng.Bcache.Split.{Get, bget_lem}
use mit_operating_system_eng.Bcache.View.{IsCache, lookup}
use mit_operating_system_eng.Bcache.Use.{Has, bread-Has, brelse_lem}

abbrev disk : ℕ → ℕ → List ℕ
disk dev n = n ∷ []

-- A dirty buffer in use, a clean one and one that was never used.
abbrev dirty : Buf
dirty = record { id = 2; valid = true; dev = 1; blockno = 7; refcnt = 1; bytes = 99 ∷ [] }

abbrev clean : Buf
clean = record { id = 1; valid = true; dev = 1; blockno = 8; refcnt = 0; bytes = 8 ∷ [] }

abbrev new : Buf
new = record { id = 0; valid = false; dev = 0; blockno = 0; refcnt = 0; bytes = [] }

abbrev three : List Buf
three = dirty ∷ clean ∷ new ∷ []

three-IsCache : IsCache disk three
three-IsCache = record {
  unique = ((refl, (refl, tt)), ((refl, tt), (tt, tt)));
  clean = (inl (omega arith), (inr (inr refl), (inr (inl refl), tt)));
}

abbrev read_nine : Place
read_nine = record {
  before = dirty ∷ clean ∷ [];
  buf = record { id = 0; valid = true; dev = 1; blockno = 9; refcnt = 1; bytes = 9 ∷ [] };
  after = [];
}

reads_nine : bread disk 1 9 three ≡ ok read_nine
unfolding bread bget first last
reads_nine = refl

bget_lem_example : Get 1 7 three (bget 1 7 three)
bget_lem_example = bget_lem 1 7 three

bread-Has_example : Has disk 1 9 three read_nine
bread-Has_example =
    bread-Has disk 1 9 three read_nine (omega arith) three-IsCache
      (omega arith, (omega arith, (omega arith, tt))) reads_nine

read_nine-IsCache : IsCache disk (whole read_nine)
read_nine-IsCache =
    (bread-Has disk 1 9 three read_nine (omega arith) three-IsCache
      (omega arith, (omega arith, (omega arith, tt))) reads_nine).cache

-- The buffer goes to the front.
brelse_lem_example :
    IsCache disk (brelse read_nine)
    × ((d n : ℕ) → d ≢ 0 → lookup disk (brelse read_nine) d n ≡ lookup disk (whole read_nine) d n)
brelse_lem_example =
    brelse_lem disk read_nine read_nine-IsCache (omega arith) (omega arith) (inr (inr refl))
