-- ===== src/Mmap/Tests.antt =====
-- Runs of the calls on mapped files, and instances of the theorems about them.
use mit_operating_system_eng.Base.{
  ℕ, ◌+◌, ◌-◌, ◌*◌, ◌^◌, ◌<◌, ◌≡◌, ◌≢◌, refl, ◌⊎◌, min, true, false, not, ◌&&◌, ◌||◌, none, some,
  [], ◌∷◌, length, set, replicate, update, ◌==◌, ok, panic, arith,
}
use mit_operating_system_eng.Mmap.{
  Vma, Proc, page_size, trapframe, can_read, can_write, is_shared, find_free, fd_file, filedup,
  place, sys_mmap,
}
use mit_operating_system_eng.Mmap.Unmap.{
  Io, Munmap, overlap, cut, write_pages, uvmunmap_vma, find_vma, munmap_found, round_end,
  sys_munmap,
}
use mit_operating_system_eng.Mmap.Region.{Layout}
use mit_operating_system_eng.Mmap.Layout.{Placed, sys_mmap-Placed}
use mit_operating_system_eng.Mmap.Negative.{reversed, sys_mmap-negative}
use mit_operating_system_eng.Mmap.Unmapped.{InRange, sys_munmap-Layout, sys_munmap_over_trapframe}
use mit_operating_system_eng.Mmap.WriteBack.{Chain, write_pages_lem, write_pages_after_clean}
use mit_operating_system_eng.Mmap.Fault.{
  Env, Mapping, killed, mapped, region_of, vmfault, FilePage, vmfault_lem,
}

abbrev free_slot : Vma
free_slot = record { valid = false; start = 0; end = 0; prot = 0; flags = 0; f = 0; offset = 0 }

-- A process with an open file and nothing mapped.
abbrev empty : Proc
empty = record {
  sz = 8192;
  mmap_base = trapframe;
  vma = free_slot ∷ free_slot ∷ [];
  ofile = none ∷ some 1 ∷ [];
  files = λ f. record { ref = 1; readable = true; writable = f == 1 };
}

-- Two pages of file 1, from byte 4096 on, shared, for reading and writing.
abbrev two_pages : Vma
two_pages = record {
  valid = true;
  start = trapframe - 8192;
  end = trapframe;
  prot = 3;
  flags = 1;
  f = 1;
  offset = 4096;
}

abbrev one_region : Proc
one_region = record empty {
  mmap_base = trapframe - 8192;
  vma = two_pages ∷ free_slot ∷ [];
  files = λ f. record { ref = 2; readable = true; writable = f == 1 };
}

-- The second page alone is dirty; the file has five pages, and `writei` writes all.
abbrev io : Io
io = record { dirty = λ a. a == trapframe - 4096; size = λ f. 20480; writei = λ f va off n. some n }

empty-Layout : Layout empty
empty-Layout = record {
  heap = omega arith;
  top = omega arith;
  aligned = refl;
  regions = (refl, (refl, tt));
  apart = ((refl, tt), (tt, tt));
}

one_region-Layout : Layout one_region
one_region-Layout = record {
  heap = omega arith;
  top = omega arith;
  aligned = refl;
  regions = (refl, (refl, tt));
  apart = ((refl, tt), (tt, tt));
}

abbrev after_mmap : Proc
after_mmap = record empty {
  files = update empty.files 1 (record { ref = 2; readable = true; writable = true });
  vma = two_pages ∷ free_slot ∷ [];
  mmap_base = trapframe - 8192;
}

maps_two_pages : sys_mmap 0 5000 3 1 1 4096 empty ≡ ok (some (trapframe - 8192), after_mmap)
unfolding sys_mmap fd_file place filedup find_free
maps_two_pages = refl

-- File 2 is not open.
refuses_bad_fd : sys_mmap 0 5000 3 1 0 4096 empty ≡ panic
unfolding sys_mmap fd_file
refuses_bad_fd = refl

sys_mmap-Placed_example :
    (f : ℕ) × (fd_file 1 empty ≡ ok f)
    × Placed 5000 3 1 f 4096 (trapframe - 8192) empty after_mmap
    × ((can_read 3 && not (empty.files f).readable) ≡ false)
    × ((can_write 3 && not (empty.files f).writable && is_shared 1) ≡ false)
sys_mmap-Placed_example =
    sys_mmap-Placed 0 5000 3 1 1 4096 (trapframe - 8192) empty after_mmap (omega arith, omega arith)
      empty-Layout maps_two_pages

one_is_free : find_free one_region.vma ≢ length one_region.vma
unfolding find_free
one_is_free e = absurd (omega (arith, e))

-- One page less than nothing is accepted, and the region's first page is above `mmap_base` after it.
sys_mmap-negative_example :
    (q : Proc) × (sys_mmap 0 (2 ^ 32 - page_size * 1) 3 1 1 0 one_region
      ≡ ok (some (trapframe - 8192 + page_size * 1), q))
    × (q.mmap_base ≡ trapframe - 8192 + page_size * 1)
    × (q.vma
        ≡ set one_region.vma
            (find_free one_region.vma)
            (reversed (trapframe - 8192) (page_size * 1) 3 1 1 0))
    × ¬ Layout q
unfolding fd_file
sys_mmap-negative_example =
    sys_mmap-negative 1 3 1 1 1 0 one_region (omega arith) (omega arith) one_region-Layout
      (omega arith) one_is_free refl (omega arith) refl refl

-- The first page of the two is unmapped.
abbrev first_page : Munmap
first_page = record {
  result = true;
  proc = record one_region {
    mmap_base = trapframe - 4096;
    vma = record two_pages { start = trapframe - 4096; offset = 8192 } ∷ free_slot ∷ [];
  };
  unmapped = some (record {
    first = trapframe - 8192;
    npages = 1;
    closed = false;
    left = record two_pages { start = trapframe - 4096; offset = 8192 };
  });
  writes = [];
}

unmaps_first_page : sys_munmap io (trapframe - 8192) 4096 one_region ≡ ok first_page
unfolding sys_munmap find_vma munmap_found uvmunmap_vma overlap cut write_pages
unmaps_first_page = refl

in_range : InRange (trapframe - 8192) (round_end (trapframe - 8192) 4096) one_region
in_range = record {
  some_pages = omega arith;
  whole = refl;
  whole_end = refl;
  below_top = omega arith;
  inside = ((λ e. (omega arith, omega arith)), ((λ e. absurd (ground arith)), tt));
}

sys_munmap-Layout_example : Layout first_page.proc
sys_munmap-Layout_example =
    sys_munmap-Layout io (trapframe - 8192) 4096 one_region first_page one_region-Layout in_range
      unmaps_first_page

sys_munmap_over_trapframe_example :
    (d : Munmap) × (sys_munmap io trapframe 4096 empty ≡ ok d)
    × (d.result ≡ true)
    × (trapframe < d.proc.mmap_base)
    × ¬ Layout d.proc
sys_munmap_over_trapframe_example =
    sys_munmap_over_trapframe io 4096 empty (omega arith) (omega arith) empty-Layout refl

-- Both pages from `a` on are dirty.
abbrev dirty_io : Io
dirty_io = record io { dirty = λ a. true }

write_pages_lem_example :
    let done = write_pages dirty_io 1 2 (trapframe - 8192) 13000 [] in
    (done.went ≡ true)
    × Chain (trapframe - 8192) 13000 (min 20480 (13000 + page_size * 2)) done.writes
write_pages_lem_example =
    write_pages_lem dirty_io 1 2 (trapframe - 8192) 13000 (λ va off n. refl) (λ j h. refl)
      (omega arith) (omega arith)

-- The second page goes to the offset of the first.
write_pages_after_clean_example :
    Chain
      (trapframe - 4096)
      4096
      (min 20480 (4096 + page_size * 1))
      (write_pages io 1 (1 + 1) (trapframe - 8192) 4096 []).writes
write_pages_after_clean_example =
    write_pages_after_clean io 1 1 1 (trapframe - 8192) 4096 (λ va off n. refl)
      (λ i h. ground arith) (λ i h. ground arith) (omega arith) (omega arith)

abbrev env : Env
env = record {
  kalloc = some (2 ^ 31);
  mappages = λ va. ok true;
  ismapped = λ va. false;
  contents = λ f. replicate 20000 7;
}

in_two_pages : region_of (trapframe - 5) one_region.vma ≡ some two_pages
unfolding region_of
in_two_pages = refl

vmfault_lem_example :
    ((true ≡ false)
      × (can_write 3 ≡ false)
      × (vmfault env one_region (trapframe - 5) true ≡ killed))
    ⊎ (((true || can_write 3) ≡ true)
        × (m : Mapping) × (vmfault env one_region (trapframe - 5) true ≡ mapped m)
        × FilePage env two_pages (trapframe - 5) (2 ^ 31) 7 m)
vmfault_lem_example =
    vmfault_lem env one_region two_pages (trapframe - 5) (2 ^ 31) true 7 one_region-Layout
      (omega arith) in_two_pages (omega arith) refl refl (omega arith)
