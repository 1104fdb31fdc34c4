-- ===== src/Mmap/Unmap.antt =====
-- `sys_munmap` of kernel/sysproc.c and `uvmunmap_vma` of kernel/vm.c.
use mit_operating_system_eng.Base.{
  ℕ, zero, suc, ◌+◌, ◌-◌, ◌/◌, ◌%◌, ◌^◌, min, Bool, true, false, not, ◌&&◌, ◌||◌, Option, none,
  some, List, [], ◌∷◌, ◌++◌, update, ltb, leb, ◌==◌, if◌then◌else◌, Outcome, ok, panic,
}
use mit_operating_system_eng.Mmap.{Vma, Proc, page_size, page_down, sign_extend, is_shared}

-- What `uvmunmap_vma` does to the region once the pages are written back: the pages that it
-- unmaps, whether the file is closed and the slot freed, and the region that stays.
pub record Cut : Type 0 where
  pub first : ℕ
  pub npages : ℕ
  pub closed : Bool
  pub left : Vma

-- The overlap of [addr, end) with the region; at `none` the code refuses.
unfoldable pub overlap : Vma → ℕ → ℕ → Option (ℕ × ℕ)
overlap v addr end =
    let from = if ltb v.start addr then addr else v.start in
    let to = if ltb end v.end then end else v.end in
    if not v.valid
    then none
    else if leb v.end addr || leb end v.start
    then none
    else if not (from == v.start) && not (to == v.end)
    then none
    else some (from, to)

unfoldable pub cut : Vma → ℕ → ℕ → Cut
cut v from to = record {
  first = from;
  npages = (to - from) / page_size;
  closed = from == v.start && to == v.end;
  left =
      if from == v.start
      then (if to == v.end
          then record v { valid = false }
          else record v { offset = (v.offset + (to - v.start)) % 2 ^ 32; start = to })
      else record v { end = from };
}

-- What `uvmunmap_vma` observes: which pages are present and dirty, the size of each file's inode,
-- and how many bytes `writei` writes to a file from an address at an offset (`none` for -1).
pub record Io : Type 0 where
  pub dirty : ℕ → Bool
  pub size : ℕ → ℕ
  pub writei : ℕ → ℕ → ℕ → ℕ → Option ℕ

-- A call of `writei`: `n` bytes from address `va` at offset `off`.
pub record Write : Type 0 where
  pub va : ℕ
  pub off : ℕ
  pub n : ℕ

-- The loops answer whether they went through, and list the calls.
pub record Written : Type 0 where
  pub went : Bool
  pub off : ℕ
  pub writes : List Write

-- ((MAXOPBLOCKS - 1 - 1 - 2) / 2) * BSIZE
abbrev pub max_write : ℕ
max_write = 3072

-- The chunks of a page from byte `i` on; a page of at most 4096 bytes takes two rounds.
unfoldable pub write_chunks : Io → ℕ → ℕ → ℕ → ℕ → ℕ → ℕ → List Write → Written
write_chunks io f va zero i n off ws = record { went = i == n; off = off; writes = ws }
write_chunks io f va (suc rounds) i n off ws =
    let n1 = min (n - i) max_write in
    let ws' = ws ++ (record { va = va + i; off = off; n = n1 } ∷ []) in
    if ltb i n
    then elim (io.writei f (va + i) off n1) [
      | none ↦ record { went = false; off = off; writes = ws' }
      | some r ↦ elim (r == n1) [
        | true ↦ write_chunks io f va rounds (i + r) n ((off + r) % 2 ^ 32) ws'
        | false ↦ record { went = false; off = (off + r) % 2 ^ 32; writes = ws' }
      ]
    ]
    else record { went = i == n; off = off; writes = ws }

-- The pages from `addr` on. A page that is not present or not dirty is passed over.
unfoldable pub write_pages : Io → ℕ → ℕ → ℕ → ℕ → List Write → Written
write_pages io f zero addr off ws = record { went = true; off = off; writes = ws }
write_pages io f (suc k) addr off ws = elim (io.dirty addr) [
  | false ↦ write_pages io f k (addr + page_size) off ws
  | true ↦
      let size = (io.size f + 2 ^ 32 - off) % 2 ^ 32 in
      let page = write_chunks io f addr 2 0 (min size page_size) off ws in
      let rest = write_pages io f k (addr + page_size) page.off page.writes in
      if leb (2 ^ 31) size
      then record { went = true; off = off; writes = ws }
      else if page.went
      then rest
      else page
]

-- What `uvmunmap_vma` leaves; `none` for its result -1.
unfoldable pub uvmunmap_vma : Io → Vma → ℕ → ℕ → Option Cut × List Write
uvmunmap_vma io v addr end = elim (overlap v addr end) [
  | none ↦ (none, [])
  | some (from, to) ↦
      let pages = (to - from + 4095) / page_size in
      let saved = write_pages io v.f pages from ((v.offset + (from - v.start)) % 2 ^ 32) [] in
      if not (is_shared v.flags)
      then (some (cut v from to), [])
      else if saved.went
      then (some (cut v from to), saved.writes)
      else (none, saved.writes)
]

-- The first region that [addr, end) meets, with the regions before and after it.
abbrev pub meets : Vma → ℕ → ℕ → Bool
meets v addr end = v.valid && (ltb addr v.end && ltb v.start end)

pub record Found : Type 0 where
  pub before : List Vma
  pub hit : Vma
  pub after : List Vma

unfoldable pub find_vma : ℕ → ℕ → List Vma → Option Found
find_vma addr end [] = none
find_vma addr end (v ∷ vs) =
    let rest = find_vma addr end vs in
    if meets v addr end
    then some (record { before = []; hit = v; after = vs })
    else elim rest [ none ↦ none | some r ↦ some (record r { before = v ∷ r.before }) ]

-- `fileclose` of a file with more than one reference drops one; what it does at the last one is
-- the file table's.
unfoldable pub fileclose : ℕ → Proc → Outcome Proc
fileclose f p =
    if (p.files f).ref == 0
    then panic
    else ok
        (record p { files = update p.files f (record (p.files f) { ref = (p.files f).ref - 1 }) })

abbrev pub move_base : ℕ → ℕ → Proc → Proc
move_base addr end p = if addr == p.mmap_base then record p { mmap_base = end } else p

pub record Munmap : Type 0 where
  pub result : Bool
  pub proc : Proc
  pub unmapped : Option Cut
  pub writes : List Write

-- The case of `sys_munmap` with a region to unmap.
unfoldable pub munmap_found : Io → ℕ → ℕ → Found → Proc → Outcome Munmap
munmap_found io addr end found p =
    let (done, ws) = uvmunmap_vma io found.hit addr end in
    elim done [
      | none ↦ ok (record { result = false; proc = p; unmapped = none; writes = ws })
      | some c ↦
          let p' = record p { vma = found.before ++ (c.left ∷ found.after) } in
          elim (if c.closed then fileclose found.hit.f p' else ok p') [
            | panic ↦ panic
            | ok q ↦ ok (record {
              result = true;
              proc = move_base addr end q;
              unmapped = some c;
              writes = ws;
            })
          ]
    ]

abbrev pub round_end : ℕ → ℕ → ℕ
round_end addr len = page_down ((addr + sign_extend len + 4095) % 2 ^ 64)

unfoldable pub sys_munmap : Io → ℕ → ℕ → Proc → Outcome Munmap
sys_munmap io addr len p =
    let end = round_end addr len in
    if addr == 0 || (len == 0 || not (addr % page_size == 0))
    then ok (record { result = false; proc = p; unmapped = none; writes = [] })
    else elim (find_vma addr end p.vma) [
      | none ↦
          ok (record { result = true; proc = move_base addr end p; unmapped = none; writes = [] })
      | some found ↦ munmap_found io addr end found p
    ]
