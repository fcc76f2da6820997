-- ===== src/Lib.antt =====
-- Verification of rumicos, a small x86-64 kernel with processes, pipes, signals and files.
--
-- The frame allocator (crates/memory) hands out the memory of the memory map. A process
-- (crates/proc) owns a table of descriptors, a set of pending signals and an address space. A
-- descriptor holds a vnode (crates/fs); a pipe is two vnodes over one ring. A call that must wait
-- sleeps on a wait queue of the scheduler (crates/sched), and each CPU takes the next thread from
-- its run queue. The shell (userspace/shell) turns a line into a pipeline. Signals are looked at on
-- the way back to user mode, after a system call and after an interrupt.
--
-- Fd            crates/proc/src/fd.rs, with the reference counts of crates/fs/src/vnode.rs and
--               sys_close of crates/fs/src/syscall.rs
--   Fd/Balance  counts and holders over any sequence of calls; Fd/Lowest: which descriptor a call
--               hands out; Fd/Slots and Fd/Refs: the lemmas on the table and on the counts
-- Pipe          crates/fs/src/pipe.rs: PipeRing, pipe_read and pipe_write, the releases
--   Pipe/Contents, Pipe/Stream   the ring as a list of bytes; Pipe/Rounds: what a call answers;
--   Pipe/Wakeup the same calls step by step, with the sequence numbers and the decision to sleep;
--               Wakeup/Locked, Wakeup/Places: a locked section, a place; Wakeup/Reader and
--               Wakeup/Writer with ReaderEffects and WriterEffects: who may sleep; Wakeup/Alone:
--               a call that nobody interrupts
-- Frames        crates/memory/src/buddy.rs: the free lists of a node in the memory that they hand out,
--               alloc_order, free_order, with the memory as a function from addresses
--   Frames/Blocks, Frames/Chains, Frames/Lists   blocks and what they cover, one list, the eleven;
--               Frames/Alloc: what an allocation takes; Frames/Ledger: any sequence of calls
--   Frames/Region   add_region, the exclusions and init, with the proofs in Region/Tiles,
--               Region/Excluded and Region/Start; Frames/Low: alloc_frame_below_4g
-- Cow           crates/proc/src/cow.rs: the counts of shared frames
--   Cow/Slots, Cow/Claims   one bucket, and the table over any sequence of calls; Cow/Full: a bucket
--               without a free slot
-- Paging        crates/paging/src/entry.rs and address.rs: entries and addresses as bit fields
--   Paging/Fields, Paging/Indices   what an entry gives back, the parts of an address
--   Paging/Walk crates/paging/src/table.rs: translate and map_page; Walk/Mapped: what is mapped is
--               found
-- Process       crates/proc/src/ptable.rs, the children of crates/proc/src/process.rs with
--               Process::exit, crates/proc/src/wait.rs, and sys_kill of crates/proc/src/syscall.rs
--   Process/Table, Process/Family   the table of pids, the list of children; Process/Exits: what an
--               exit changes; Process/Reap, Process/Reports: what wait4 answers; Process/Kill: sys_kill
--   Process/Sleep   exit and wait4 step by step; Sleep/Kept, Sleep/Effects: what a step changes for a
--               parent; Sleep/Looks, Sleep/Justified: when wait4 may sleep
-- Signal        crates/proc/src/signal.rs: PendingSet, decide_next_signal, the layout of the frame
--   Signal/Pending, Signal/Decide, Signal/Layout   the proofs about them
--   Signal/Registers, Signal/Delivery   the register sets of crates/cpu and crates/proc, delivery
--               on both paths and sys_sigreturn of crates/proc/src/syscall.rs
-- AddressSpace  crates/proc/src/vma.rs and the areas of crates/proc/src/address_space.rs: find_vma,
--               mmap, munmap, fork_cow
-- Mmap          sys_mmap and sys_munmap of crates/proc/src/vma.rs, over the descriptors, the
--               areas and the reference counts of the vnodes
--   Mmap/Mappings, Mmap/Referenced   counts and mappings; Mmap/Forked: an inherited mapping
-- RunQueue      crates/sched/src/queue.rs: RingQueue and MlfqQueue with push, pop and steal_into,
--               and the searches of crates/sched/src/steal.rs
--   RunQueue/Ring, RunQueue/Levels, RunQueue/Steal   rings as lists, levels, a steal
--   RunQueue/Placement, RunQueue/Busiest   the searches; RunQueue/Boost: boost_all, with the proofs
--               in Boost/Kept and Boost/Drained
-- Ipc           crates/ipc/src/spsc.rs: the ring between one producer and one consumer
--   Ipc/Wrap, Ipc/Order, Ipc/Progress   counters that wrap, the order of the values, calls that run
--               alone
-- Shell         userspace/shell/src/parse.rs: the tokens of a line and parse_line
--   Shell/Progress: a token takes bytes off the line; Shell/Rounds, Shell/Bounds: what is accepted
-- Base          lists over the native numbers, Boolean tests, bits of words, integers, stores
--
-- Functions keep the names of the source; a method is a function in the module of its type.
-- State goes in and comes out: the table, the counts, the pipe or the space is an argument and a
-- part of the result. A section under a lock is one step; where calls race outside their locks
-- (Pipe/Wakeup, Process/Sleep, Ipc), every load, store, bump and wakeup is a step, and the steps
-- of all callers interleave; a function of a whole round (read_round, write_entry, the releases,
-- exit, sys_wait4) is that round run alone. An `i32` or `i64` result is an integer, an unsigned
-- word a natural number with its wrap-around written out.
--
-- Bounds and fuel. The search of mmap runs on gap_fuel rounds, one more than the pages below the
-- end of its region, which is enough. The boost of a level runs on 256 rounds, one more than a
-- ring holds threads. parse_line runs on one round more than the line has bytes, which is
-- enough. take_any takes the schedule of the exchanges that fail as a list, and its search for
-- the lowest bit runs over the 64 digits of the word. The events between a sample and the
-- decision to sleep are a list of fewer than 2 ^ 32, the range of its sequence number. The stack
-- pointers of the round trips have room for a frame of 295 bytes. The tiling of a region runs on
-- one round for each of its frames, and the recursion around the exclusions is no deeper than
-- the range has bytes.
--
-- Not modelled: the contents of frames other than free ones and tables, the wait queues behind a
-- wakeup, locks and the memory order of atomics, context switches and other assembly, device
-- registers, and the parts of the kernel that no file above names. The counts of pipe ends (Fd)
-- and of mapped files (Mmap) are followed apart, each with the references from elsewhere as a
-- parameter.
pub mod Base
pub mod Frames
pub mod Cow
pub mod Fd
pub mod Pipe
pub mod Signal
pub mod AddressSpace
pub mod Mmap
pub mod RunQueue
pub mod Paging
pub mod Process
pub mod Ipc
pub mod Shell
