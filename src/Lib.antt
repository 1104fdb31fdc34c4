-- ===== src/Lib.antt =====
-- The xv6 kernel (xv6-labs-2025/kernel), with the memory-mapped files of the mmap lab.
--
-- Parts and files
--
-- * Log.antt and Log/: kernel/log.c, the redo log under the file system. A system call brackets its
--   block writes with `begin_op` and `end_op`; the last one to end runs `commit`. `Machine` is
--   `struct log` with the block device, whose two faces are what the cache of kernel/bio.c shows
--   (`view`) and what survives a crash (`disk`). `bread`, `brelse` and the locks of a buffer have no
--   trace in it; `bwrite`, `bpin` and `bunpin` have. `past` lists the durable states that writes have
--   replaced, so that a crash between any two writes can be spoken of. Header, Install and WriteLog
--   hold the lemmas on one routine each; Crash, Recover, Commit and Atomic those on crashes and
--   commits; Reserve, Session, Invariant, Closing and Calls follow interleaved system calls, which are
--   steps of a relation on a `System`: the two stretches of `end_op` under the lock and the calls of
--   `commit` between them are steps of their own.
-- * Pipe.antt and Pipe/: kernel/pipe.c. A call is a function of the pipe that ends in a `Reply`:
--   it returns, fails, or sleeps and goes on from there once it is woken. Window reads the ring as
--   the list of the bytes in it, Fifo and Ends use that list.
-- * Mmap.antt and Mmap/: `sys_mmap` and `sys_munmap` of kernel/sysproc.c, `uvmunmap_vma` and `vmfault`
--   of kernel/vm.c, over `struct VMA` of kernel/proc.h. Unmap has the second system call and the
--   write-back, Fault the page fault handler. Region says when the regions of a process are laid out
--   well; Layout, Negative, Munmap, MunmapFound and Unmapped follow that layout through the two calls, and
--   WriteBack follows the bytes that go back to the file.
-- * Bcache.antt and Bcache/: kernel/bio.c, the list of buffers in the order of their last use. Split
--   follows the two searches of `bget`, View says what the buffers show of the disk, Use and Start
--   that the operations keep it. Log.antt relies on that view.
-- * Inode.antt and Inode/: the blocks and contents of inodes in kernel/fs.c, from `balloc` and `bfree`
--   over `bmap` and `itrunc` to `readi` and `writei`. Blocks says what it means that no block has two
--   owners, with a ghost owner for each block, and what byte a file has at an offset. Balloc, Slots,
--   Enter, Bmap and Present follow a block from the bitmap into an inode; Copy, Pieces, WriteLoop and Writei,
--   ReadPieces, ReadLoop and Readi follow the pieces of a transfer, and RoundTrip reads what was
--   written; Trunc, TruncDirect, TruncTable, Gone and Itrunc are about `itrunc`.
-- * Vm.antt and Vm/: the page tables and user memory of kernel/vm.c, over pages of physical memory and
--   the free list of Kalloc.antt. Entries reads the three levels as a map from addresses to entries,
--   with a ghost label for each page, and Slots says what a write does to that map; Grow and Walk are
--   about `walk`, Map and Mappages about `mappages`, Unmap and Uvmunmap about `uvmunmap` and
--   `uvmdealloc`, Fresh, Rounds, Undo and Uvmalloc about `uvmalloc`, CopyPage, Copyout and Copyin
--   about `copyout` and `copyin`.
-- * Kalloc.antt and Kalloc/: kernel/kalloc.c, whose free list is a list of page addresses.
-- * Pathname.antt and Pathname/: `skipelem` of kernel/fs.c on the bytes of a path, and the elements
--   that the loop of `namex` takes off it, on fuel: the length of the path is enough.
-- * Process.antt and Process/: kernel/proc.c, the table of processes. Life has `allocproc`, `freeproc`,
--   `kfork`, `kexit` and `kwait`; Inv says what holds of the table; Sweep follows the loops over it,
--   and Calls, Born, Fork, Reap, Adopt, Reparent and Exit the calls; Reach lets the calls come in any
--   order, each as one step, from `userinit` on; Kill is about `kkill`.
-- * Console.antt and Console/: kernel/console.c. Ring reads the ring of typed bytes as two lists, the
--   lines handed over and the line being edited; Editor is the editor that typing is to be, Keys
--   and Typing tie the two; Reading and Writing are about the calls of processes.
-- * Locks.antt and Locks/: kernel/spinlock.c and kernel/sleeplock.c. Exclusion lets CPUs take a spin
--   lock and release it in any order of atomic steps, Nesting matches `push_off` with `pop_off`.
-- * Files.antt and Files/: kernel/file.c and the descriptor calls of kernel/sysfile.c, over the table
--   of files and one process's descriptors. Counts, Calls and Transfers follow the reference counts
--   through the calls, Session lets them come in any order.
-- * Printf.antt and Printf/: `printint` of kernel/printf.c; Digits reads its digits back.
-- * Strings.antt and Strings/: kernel/string.c over a memory that gives each address its byte. Copy,
--   Compare and Names are about moves, comparisons and null-terminated strings.
-- * Grep.antt and Grep/: the matcher of user/grep.c. Pattern parses a pattern and says which words it
--   has, Sound and Matching tie the matcher to that.
-- * Base.antt and Base/: Booleans, lists over the native numbers, functions with one value replaced,
--   and `Outcome`, a value or a panic.
-- Tests modules hold runs at concrete inputs.
--
-- Numbers, loops and errors
--
-- A `uint` or `uint64` is a natural number, with its wrap-around written out as a remainder; an `int`
-- is its bit pattern where its sign matters. Loops recurse on what they have left to do: the blocks
-- of the header, the bytes of a call, the pages of a range. The inner loop of the write-back runs on
-- two rounds, which are enough for a page, since a round writes up to 3072 bytes. The
-- loop that kills a line runs on 128 rounds, as many as the ring has bytes, and those of `consolewrite`
-- and `filewrite` on as many as bytes are to be written; `printint` fills its buffer in 20 rounds,
-- which are enough for 64 bits in base 10 or 16. `mappages` and `uvmalloc` run on as many rounds as
-- their range has pages, `readi`, `writei`, `copyin` and `copyout` on as many as bytes are to be
-- copied, since a round copies one at least. The result -1 is `none`, `false` or a constructor, and a
-- panic, or a pointer that leads nowhere, is `panic`.
--
-- What enters from outside
--
-- The contents of blocks are lists of words, and the log moves them unread but for its header.
-- `copyin`, `copyout` and `killed` in pipes, and `writei`, the dirty bits, `kalloc`, `mappages` and
-- `ismapped` in mapped files, `kalloc`, `uvmalloc`, `uvmcopy` and `copyout` in processes, and what
-- pipes, devices and inodes answer to the file table, enter as the answers that they give; so do
-- `either_copyin` and `either_copyout` in inodes, and `vmfault` in `copyin` and `copyout`. In mapped
-- files `readi` is over the bytes of the inode, and every block is taken to be found. The bits, words,
-- inodes and bytes of a block are separate views of it in Inode.antt, as are the entries and the bytes
-- of a page in Vm.antt: a write through one is not seen through another.
--
-- Not modelled
--
-- What other CPUs do to the process table while a call has let its locks go: a call of kernel/proc.c
-- is one step. In pipes, a change of `killed` during one run of a call, and the wakeups that `pipewrite`
-- and `piperead` make. The sleep locks of buffers, the table of inodes in memory, `ialloc` and the directories
-- of kernel/fs.c, `filestat`, `sys_pipe` and the calls on paths; `freewalk`, `uvmfree`, `uvmcopy`,
-- `copyinstr` and the kernel's own page table; the formats of `printf`, `exec`, the dispatch of system
-- calls and the user programs but grep's matcher; the device drivers, the boot code and the assembly,
-- whose behaviour is the hardware's.
pub mod Base
pub mod Bcache
pub mod Console
pub mod Files
pub mod Grep
pub mod Inode
pub mod Kalloc
pub mod Locks
pub mod Log
pub mod Pathname
pub mod Pipe
pub mod Printf
pub mod Process
pub mod Strings
pub mod Vm
pub mod Mmap
