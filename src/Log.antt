-- ===== src/Log.antt =====
-- kernel/log.c, the redo log, over the contract of kernel/bio.c: `view b` is what `bread` returns
-- for block `b`, and `disk b` is what survives a crash. `bwrite` makes the two agree.
-- The blocks are lists of `uint` words; the log only moves them, and reads the header's words.
-- `past` is no state of the program: it keeps each durable state that a write has replaced, so
-- that a crash between any two writes can be stated.
pub mod Header
pub mod Install
pub mod WriteLog
pub mod Crash
pub mod Recover
pub mod Commit
pub mod Atomic
pub mod Reserve
pub mod Session
pub mod Invariant
pub mod Closing
pub mod Calls
mod Tests
use mit_operating_system_eng.Base.{
  ℕ, zero, suc, ◌+◌, ◌-◌, ◌*◌, ◌%◌, ◌^◌, Bool, true, false, not, ◌&&◌, ◌||◌, Option, none, some,
  List, [], ◌∷◌, ◌++◌, length, get_or, set, take, drop, update, ltb, leb, ◌==◌, if◌then◌else◌,
  Outcome, ok, panic, ◌>>=◌, ◌>>◌, panic_if,
}

abbrev pub max_op_blocks : ℕ
max_op_blocks = 10

abbrev pub log_blocks : ℕ
log_blocks = 30

abbrev pub Block : Type 0
Block = List ℕ

abbrev pub Disk : Type 0
Disk = ℕ → Block

-- The device behind its cache; `pins b` counts the pins of the buffer of block `b`.
pub record Device : Type 0 where
  pub disk : Disk
  pub view : Disk
  pub past : List Disk
  pub pins : ℕ → ℕ

-- The device and `struct log`; `block` is the first `n` entries of `lh.block`.
-- `outstanding` is the bit pattern of an `int`.
pub record Machine : Type 0 where
  pub dev : Device
  pub open dev use *
  pub start : ℕ
  pub outstanding : ℕ
  pub committing : Bool
  pub block : List ℕ

abbrev pub slot : ℕ → ℕ → ℕ
slot start tail = start + tail + 1

-- `bwrite` of a buffer that holds `content`
pub bwrite : ℕ → Block → Device → Device
bwrite b content d = record d {
  disk = update d.disk b content;
  view = update d.view b content;
  past = d.disk ∷ d.past;
}

pub bpin : ℕ → Device → Device
bpin b d = record d { pins = update d.pins b (d.pins b + 1) }

pub bunpin : ℕ → Device → Device
bunpin b d = record d { pins = update d.pins b (d.pins b - 1) }

-- Put the words `xs` over the first words of a block.
pub overlay : List ℕ → Block → Block
overlay [] ys = ys
overlay (x ∷ xs) [] = []
overlay (x ∷ xs) (y ∷ ys) = x ∷ overlay xs ys

-- `n` and `block[0..n)` of a header block.
pub header_blocks : Block → List ℕ
header_blocks h = take (get_or h 0 0) (drop 1 h)

pub read_head : Machine → Machine
read_head m = record m { block = header_blocks (m.view m.start) }

-- The header with `bs` in it.
pub write_block_list : ℕ → List ℕ → Device → Device
unfolding overlay bwrite
write_block_list start bs d = bwrite start (overlay (length bs ∷ bs) (d.view start)) d

pub write_head : Machine → Machine
unfolding write_block_list
write_head m = record m { dev = write_block_list m.start m.block m.dev }

pub install_one : ℕ → Bool → ℕ → ℕ → Device → Device
unfolding bwrite bunpin
install_one start recovering tail b d =
    let d' = bwrite b (d.view (slot start tail)) d in if recovering then d' else bunpin b d'

-- the loop of `install_trans` from `tail` on, over the blocks that are left
pub install_from : ℕ → Bool → ℕ → List ℕ → Device → Device
unfolding install_one
install_from start recovering tail [] d = d
install_from start recovering tail (b ∷ bs) d =
    install_from start recovering (suc tail) bs (install_one start recovering tail b d)

pub install_trans : Bool → Machine → Machine
install_trans recovering m = record m { dev = install_from m.start recovering 0 m.block m.dev }

pub clear_block : Machine → Machine
clear_block m = record m { block = [] }

pub recover_from_log : Machine → Machine
unfolding read_head install_trans clear_block write_head
recover_from_log m = write_head (clear_block (install_trans true (read_head m)))

pub initlog : ℕ → Machine → Machine
unfolding recover_from_log
initlog logstart m = recover_from_log (record m { start = logstart })

-- the loop of `write_log`
pub write_log_from : ℕ → ℕ → List ℕ → Device → Device
unfolding bwrite
write_log_from start tail [] d = d
write_log_from start tail (b ∷ bs) d =
    write_log_from start (suc tail) bs (bwrite (slot start tail) (d.view b) d)

pub write_log : Machine → Machine
write_log m = record m { dev = write_log_from m.start 0 m.block m.dev }

pub commit : Machine → Machine
unfolding write_log write_head install_trans clear_block
commit m =
    if ltb 0 (length m.block)
    then write_head (clear_block (install_trans false (write_head (write_log m))))
    else m

-- One round of the loop of `begin_op`; at `none` the caller sleeps on `&log` and tries again.
pub begin_op : Machine → Option Machine
begin_op m =
    if m.committing
    then none
    else if ltb log_blocks need && ltb need (2 ^ 31)
    then none
    else some (record m { outstanding = (m.outstanding + 1) % 2 ^ 32 })
  where
    need : ℕ
    need = (length m.block + (m.outstanding + 1) * max_op_blocks) % 2 ^ 32

-- The calls that `commit` makes, which the log's lock does not cover.
pub data Stage : Type 0 where
  copying heading installing clearing : Stage

pub act : Stage → Machine → Machine
unfolding write_log write_head install_trans clear_block
act copying m = write_log m
act heading m = write_head m
act installing m = install_trans false m
act clearing m = clear_block m

-- The calls that a `commit` makes, in order.
pub stages : Machine → List Stage
stages m =
    if ltb 0 (length m.block) then copying ∷ heading ∷ installing ∷ clearing ∷ heading ∷ [] else []

-- `outstanding` is `left`; whether this call is to commit.
pub leave : ℕ → Machine → Bool × Machine
leave left m =
    if left == 0
    then (true, record m { outstanding = left; committing = true })
    else (false, record m { outstanding = left })

-- `end_op` up to its first release of the lock. Where it answers `true` the call goes on with
-- `commit` and `end_commit`.
pub end_op : Machine → Outcome (Bool × Machine)
unfolding leave
end_op m = do panic_if m.committing; ok (leave ((m.outstanding + 2 ^ 32 - 1) % 2 ^ 32) m)

-- The second stretch of `end_op` under the lock.
pub end_commit : Machine → Machine
end_commit m = record m { committing = false }

-- the index at which the loop of `log_write` stops
pub scan : ℕ → List ℕ → ℕ → ℕ
scan b [] i = i
scan b (x ∷ xs) i = let rest = scan b xs (suc i) in if x == b then i else rest

-- The stores of a caller into a buffer that it holds, before it calls `log_write`.
pub fill : ℕ → Block → Machine → Machine
fill b content m = record m { dev = record (m.dev) { view = update m.view b content } }

pub record_block : ℕ → Machine → Machine
unfolding scan bpin
record_block b m =
    let i = scan b m.block 0 in
    if i == length m.block
    then record m { dev = bpin b m.dev; block = m.block ++ (b ∷ []) }
    else record m { block = set m.block i b }

pub log_write : ℕ → Machine → Outcome Machine
unfolding record_block
log_write b m = do
  panic_if (leb log_blocks (length m.block))
  panic_if (m.outstanding == 0 || leb (2 ^ 31) m.outstanding)
  ok (record_block b m)
