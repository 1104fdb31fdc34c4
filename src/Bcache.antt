-- ===== src/Bcache.antt =====
-- kernel/bio.c, the buffer cache: the list of buffers from the most to the least recently used, as
-- it stands from `head.next` to `head.prev`. A buffer is known by `id`, its place in `bcache.buf`.
-- The sleep locks of the buffers are left out: a call holds the buffer from `bread` to `brelse`.
pub mod Split
pub mod View
pub mod Use
pub mod Start
mod Tests
use mit_operating_system_eng.Base.{
  ℕ, zero, suc, ◌+◌, ◌-◌, ◌%◌, ◌^◌, Bool, true, false, not, ◌&&◌, Option, none, some, List, [], ◌∷◌,
  ◌++◌, ◌==◌, if◌then◌else◌, Outcome, ok, panic,
}

pub record Buf : Type 0 where
  pub id : ℕ
  pub valid : Bool
  pub dev : ℕ
  pub blockno : ℕ
  pub refcnt : ℕ
  pub bytes : List ℕ

-- `binit` puts each of the NBUF buffers at the front in turn; nothing is in them.
unfoldable pub buffers : ℕ → List Buf
buffers zero = []
buffers (suc k) =
    record { id = k; valid = false; dev = 0; blockno = 0; refcnt = 0; bytes = [] } ∷ buffers k

unfoldable pub binit : List Buf
binit = buffers 30

-- A place in the list: the buffers before it, the one at it, and those after it.
pub record Place : Type 0 where
  pub before : List Buf
  pub buf : Buf
  pub after : List Buf

abbrev pub whole : Place → List Buf
whole s = s.before ++ (s.buf ∷ s.after)

-- The search from `head.next` on.
unfoldable pub first : (Buf → Bool) → List Buf → Option Place
first p [] = none
first p (b ∷ bs) =
    let rest = first p bs in
    if p b
    then some (record { before = []; buf = b; after = bs })
    else elim rest [ none ↦ none | some s ↦ some (record s { before = b ∷ s.before }) ]

-- The search from `head.prev` back.
unfoldable pub last : (Buf → Bool) → List Buf → Option Place
last p [] = none
last p (b ∷ bs) = elim (last p bs) [
  | some s ↦ some (record s { before = b ∷ s.before })
  | none ↦ if p b then some (record { before = []; buf = b; after = bs }) else none
]

abbrev pub hits : ℕ → ℕ → Buf → Bool
hits dev blockno b = b.dev == dev && b.blockno == blockno

abbrev pub unused : Buf → Bool
unused b = b.refcnt == 0

abbrev pub recycle : ℕ → ℕ → Buf → Buf
recycle dev blockno b = record b { dev = dev; blockno = blockno; valid = false; refcnt = 1 }

-- `bget`: where the buffer stands in the list that is left.
unfoldable pub bget : ℕ → ℕ → List Buf → Outcome Place
bget dev blockno c = elim (first (hits dev blockno) c) [
  | some s ↦ ok (record s { buf = record (s.buf) { refcnt = (s.buf.refcnt + 1) % 2 ^ 32 } })
  | none ↦ elim (last unused c) [
    | some s ↦ ok (record s { buf = recycle dev blockno s.buf })
    | none ↦ panic
  ]
]

-- The read of a block that `bread` makes where the buffer is not valid.
abbrev pub load : (ℕ → ℕ → List ℕ) → Buf → Buf
load disk b = if b.valid then b else record b { bytes = disk b.dev b.blockno; valid = true }

unfoldable pub bread : (ℕ → ℕ → List ℕ) → ℕ → ℕ → List Buf → Outcome Place
bread disk dev blockno c = elim (bget dev blockno c) [
  | ok s ↦ ok (record s { buf = load disk s.buf })
  | panic ↦ panic
]

-- `brelse` of the buffer at a place of the list.
unfoldable pub brelse : Place → List Buf
brelse s =
    let b = record (s.buf) { refcnt = (s.buf.refcnt + 2 ^ 32 - 1) % 2 ^ 32 } in
    if unused b then b ∷ (s.before ++ s.after) else s.before ++ (b ∷ s.after)
