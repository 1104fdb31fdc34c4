-- ===== src/Kalloc.antt =====
-- kernel/kalloc.c, the allocator of physical pages. The free list that runs through the pages is
-- the list of their addresses; the bytes that fill a page to catch dangling references are left out.
mod Tests
pub mod Pages
use mit_operating_system_eng.Base.{
  ℕ, zero, suc, ◌+◌, ◌-◌, ◌*◌, ◌/◌, ◌%◌, ◌^◌, Bool, true, false, not, ◌||◌, Option, none, some,
  List, [], ◌∷◌, ltb, leb, ◌==◌, if◌then◌else◌, Outcome, ok, panic,
}

-- KERNBASE + 128 * 1024 * 1024
abbrev pub phystop : ℕ
phystop = 2 ^ 31 + 128 * 1024 * 1024

abbrev pub page_size : ℕ
page_size = 4096

-- `end` is the first address after the kernel, which the linker sets.
unfoldable pub kfree : ℕ → ℕ → List ℕ → Outcome (List ℕ)
kfree end pa freelist =
    if not (pa % page_size == 0) || (ltb pa end || leb phystop pa)
    then panic
    else ok (pa ∷ freelist)

-- `none` is the null pointer.
unfoldable pub kalloc : List ℕ → Option ℕ × List ℕ
kalloc [] = (none, [])
kalloc (r ∷ rs) = (some r, rs)

-- The loop of `freerange` from page `p` on, with `k` rounds to go at most.
unfoldable pub free_from : ℕ → ℕ → ℕ → ℕ → List ℕ → Outcome (List ℕ)
free_from end pa_end zero p freelist = ok freelist
free_from end pa_end (suc k) p freelist =
    if leb (p + page_size) pa_end
    then elim (kfree end p freelist) [
      | panic ↦ panic
      | ok l ↦ free_from end pa_end k (p + page_size) l
    ]
    else ok freelist

abbrev pub page_up : ℕ → ℕ
page_up a = (a + 4095) / page_size * page_size

-- The rounds are enough for all pages up to `pa_end`.
unfoldable pub freerange : ℕ → ℕ → ℕ → List ℕ → Outcome (List ℕ)
freerange end pa_start pa_end freelist =
    free_from end pa_end (pa_end / page_size) (page_up pa_start) freelist

unfoldable pub kinit : ℕ → Outcome (List ℕ)
kinit end = freerange end end phystop []
