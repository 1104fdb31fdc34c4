-- ===== src/Mmap/Fault.antt =====
-- `vmfault` of kernel/vm.c, with what it uses of `readi` of kernel/fs.c.
-- What `kalloc`, `mappages` and `ismapped` answer is given by an environment.
use mit_operating_system_eng.Base.{
  ℕ, ◌+◌, ◌-◌, ◌%◌, ◌^◌, ◌≤◌, ◌<◌, ◌≡◌, refl, ◌⊎◌, sym, ◌∙◌, Bool, true, false, not, ◌&&◌, ◌||◌,
  Option, Outcome, ok, panic, none, some, List, [], ◌∷◌, ◌++◌, length, take, drop, replicate,
  get_or, ltb, leb, if◌then◌else◌, Bool-cases, inl, inr, get_or-past, get_or-zeros, get_or-drop,
  length-drop, length-take, get_or-filled, arith,
}
use mit_operating_system_eng.Mmap.{Vma, Proc, page_size, page_down, can_read, can_write, can_exec}
use mit_operating_system_eng.Mmap.Region.{fits, Fits, Layout}

-- The page that `kalloc` gives (`none` for 0), whether `mappages` succeeds at an address or panics
-- because it is mapped already, which pages are mapped, and the bytes of each file's inode.
pub record Env : Type 0 where
  pub kalloc : Option ℕ
  pub mappages : ℕ → Outcome Bool
  pub ismapped : ℕ → Bool
  pub contents : ℕ → List ℕ

-- The bytes that `readi` copies, for `n` bytes at offset `off`, where `bmap` finds every block.
pub readi : List ℕ → ℕ → ℕ → List ℕ
readi bytes off n =
    let size = length bytes in
    let sum = (off + n) % 2 ^ 32 in
    if ltb size off || ltb sum off
    then []
    else take (if ltb size sum then size - off else n) (drop off bytes)

-- PTE_R, PTE_W, PTE_X and PTE_U
pub record Perm : Type 0 where
  pub r : Bool
  pub w : Bool
  pub x : Bool
  pub u : Bool

-- The page of physical memory that is mapped, the address, the permissions and the contents.
pub record Mapping : Type 0 where
  pub mem : ℕ
  pub va : ℕ
  pub perm : Perm
  pub bytes : List ℕ

-- A panic, the result 0 (the page is freed again where there was one), the result -1, with the
-- process marked as killed, or the address of the page.
pub data Fault : Type 0 where
  panics : Fault
  refused : Fault
  killed : Fault
  mapped : Mapping → Fault

-- The first valid region with the address.
unfoldable pub region_of : ℕ → List Vma → Option Vma
region_of va [] = none
region_of va (v ∷ vs) =
    let rest = region_of va vs in
    if not v.valid then rest else if leb v.start va && ltb va v.end then some v else rest

-- The branch of `vmfault` for a mapped file.
pub file_page : Env → Vma → ℕ → Fault
file_page env v va = elim env.kalloc [
  | none ↦ refused
  | some mem ↦
      let off = va - v.start in
      let bytes = readi (env.contents v.f) ((v.offset + off) % 2 ^ 32) page_size in
      elim (env.mappages va) [
        | panic ↦ panics
        | ok done ↦
            if done
            then mapped (record {
              mem = mem;
              va = va;
              perm = record {
                r = can_read v.prot;
                w = can_write v.prot;
                x = can_exec v.prot;
                u = true;
              };
              bytes = bytes ++ replicate (page_size - length bytes) 0;
            })
            else refused
      ]
]

-- The branch for memory that `sbrk` has allocated lazily.
pub zero_page : Env → ℕ → Fault
zero_page env va = elim env.kalloc [
  | none ↦ refused
  | some mem ↦ elim (env.mappages va) [
    | panic ↦ panics
    | ok done ↦
        if done
        then mapped (record {
          mem = mem;
          va = va;
          perm = record { r = true; w = true; x = false; u = true };
          bytes = replicate page_size 0;
        })
        else refused
  ]
]

pub vmfault : Env → Proc → ℕ → Bool → Fault
vmfault env p va read =
    if leb p.sz va
    then elim (region_of va p.vma) [
      | none ↦ refused
      | some v ↦
          if not read && not (can_write v.prot) then killed else file_page env v (page_down va)
    ]
    else if env.ismapped (page_down va)
    then refused
    else zero_page env (page_down va)

-- A page of the file, filled up with zeros.
readi-page :
    (bytes : List ℕ) (off i : ℕ)
    → off + page_size < 2 ^ 32
    → i < page_size
    → let got = readi bytes off page_size in
      (length got ≤ page_size)
      × (get_or (got ++ replicate (page_size - length got) 0) i 0 ≡ get_or bytes (off + i) 0)
unfolding readi
readi-page bytes off i small h =
    let sum : (off + page_size) % 2 ^ 32 ≡ off + page_size = omega arith in
    let up : ltb (off + page_size) off ≡ false = ground arith in
    elim (Bool-cases (ltb (length bytes) off)) [
      | inl past ↦
          let beyond : length bytes ≤ off + i = ground arith in
          rw (past)
            (omega arith, get_or-zeros page_size i ∙ sym (get_or-past bytes (off + i) beyond))
      | inr within ↦
          let n = if ltb (length bytes) (off + page_size) then length bytes - off else page_size in
          let len = length-drop bytes off in
          let bound : n ≤ page_size = ground arith in
          let all : n ≤ i → length (drop off bytes) ≤ n = λ l. ground arith in
          rw (within, sum, up)
            (
              omega (arith, length-take n (drop off bytes)),
              get_or-filled (drop off bytes) n _ i all ∙ get_or-drop bytes off i (off + i) refl,
            )
    ]

region_of-some :
    (va base : ℕ) (vs : List Vma) (v : Vma)
    → Fits base vs
    → region_of va vs ≡ some v
    → (v.valid ≡ true)
      × (v.start ≤ va)
      × (va < v.end)
      × (v.start % page_size ≡ 0)
      × (v.end % page_size ≡ 0)
unfolding region_of
region_of-some va base [] v fit e = absurd (cc e)
region_of-some va base (w ∷ ws) v fit e =
    elim (Bool-cases (w.valid && (leb w.start va && ltb va w.end))) [
      | inl here ↦
          let f : fits base w ≡ true = fit.0 in
          let is_w : w ≡ v = ground arith in
          rw (sym is_w) (ground arith, ground arith, ground arith, ground arith, ground arith)
      | inr other ↦ region_of-some va base ws v fit.1 (ground arith)
    ]

file_page_lem :
    (env : Env) (v : Vma) (va mem : ℕ)
    → env.kalloc ≡ some mem
    → env.mappages va ≡ ok true
    → let got = readi (env.contents v.f) ((v.offset + (va - v.start)) % 2 ^ 32) page_size in
      (m : Mapping) × (file_page env v va ≡ mapped m)
      × (m.mem ≡ mem)
      × (m.va ≡ va)
      × (m.bytes ≡ got ++ replicate (page_size - length got) 0)
      × (m.perm
          ≡ record { r = can_read v.prot; w = can_write v.prot; x = can_exec v.prot; u = true })
unfolding file_page
file_page_lem env v va mem page fine = rw (page, fine) (_, refl, refl, refl, refl, refl)

-- What the page at `m` is, byte `i` of it included, for the region `v` with the address `va`.
pub record FilePage (env : Env) (v : Vma) (va mem i : ℕ) (m : Mapping) : Type 0 where
  pub is_mem : m.mem ≡ mem
  pub is_va : m.va ≡ page_down va
  pub from : v.start ≤ m.va
  pub to : m.va + page_size ≤ v.end
  pub byte : get_or m.bytes i 0 ≡ get_or (env.contents v.f) (v.offset + (m.va + i - v.start)) 0
  pub is_perm :
      m.perm ≡ record { r = can_read v.prot; w = can_write v.prot; x = can_exec v.prot; u = true }

-- A page fault in a mapped region, where `kalloc` gives a page and `mappages` succeeds, kills the
-- process if it is a write and the region is read-only. Else it maps the page of the address, which
-- lies in the region, with the rights of the region. Byte `i` of it is the byte of the file at the
-- offset where the region maps its address, and zero past the end of the file.
pub vmfault_lem :
    (env : Env) (p : Proc) (v : Vma) (va mem : ℕ) (read : Bool) (i : ℕ)
    → Layout p
    → p.sz ≤ va
    → region_of va p.vma ≡ some v
    → v.offset + (v.end - v.start) + page_size < 2 ^ 32
    → env.kalloc ≡ some mem
    → env.mappages (page_down va) ≡ ok true
    → i < page_size
    → ((read ≡ false) × (can_write v.prot ≡ false) × (vmfault env p va read ≡ killed))
      ⊎ (((read || can_write v.prot) ≡ true)
          × (m : Mapping) × (vmfault env p va read ≡ mapped m)
          × FilePage env v va mem i m)
unfolding vmfault
vmfault_lem env p v va mem read i layout heap at small page fine h =
    let past : leb p.sz va ≡ true = ground arith in
    elim (Bool-cases (read || can_write v.prot)) [
      | inr may_not ↦
          let kill : (not read && not (can_write v.prot)) ≡ true = ground arith in
          inl (ground arith, ground arith, rw (past, at, kill) refl)
      | inl may ↦
          let stay : (not read && not (can_write v.prot)) ≡ false = ground arith in
          let (m, is_mapped, is_mem, is_va, bytes, perm) =
            file_page_lem env v (page_down va) mem page fine in
          let (valid, from, to, even, even_end) =
            region_of-some va p.mmap_base p.vma v layout.regions at in
          let first : v.start ≤ page_down va = ground arith in
          let last : page_down va + page_size ≤ v.end = ground arith in
          let off : (v.offset + (page_down va - v.start)) % 2 ^ 32
              ≡ v.offset + (page_down va - v.start) =
            ground arith in
          let content =
            readi-page (env.contents v.f) (v.offset + (page_down va - v.start)) i (ground arith)
              h in
          let place : v.offset + (page_down va - v.start) + i
              ≡ v.offset + (page_down va + i - v.start) =
            ground arith in
          inr (
            may,
            m,
            rw (past, at, stay) is_mapped,
            record {
              is_mem = is_mem;
              is_va = is_va;
              from = rw is_va first;
              to = rw is_va last;
              byte = rw (bytes, off, is_va) (rw place at content.1);
              is_perm = perm;
            },
          )
    ]
