-- ===== src/Kalloc/Tests.antt =====
-- Instances of the theorems about kernel/kalloc.c.
use mit_operating_system_eng.Base.{ℕ, ◌+◌, ◌^◌, ◌≡◌, List, ok, has, arith}
use mit_operating_system_eng.Kalloc.{kinit}
use mit_operating_system_eng.Kalloc.Pages.{is_page, IsFree, kinit_lem}

abbrev kernel_end : ℕ
kernel_end = 2 ^ 31 + 100000

kinit_lem_example :
    (l : List ℕ) × (kinit kernel_end ≡ ok l)
    × IsFree kernel_end l
    × ((pa : ℕ) → has pa l ≡ is_page kernel_end pa)
kinit_lem_example = kinit_lem kernel_end (omega arith)
