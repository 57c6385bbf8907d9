-- ===== src/Lib.antt =====
-- The kernel of this repository is xv6 for x86 with paging to a swap file: each process keeps at most
-- MAX_PSYC_PAGES (16) of its pages in physical memory and chooses a victim by one of the policies
-- SCFIFO, NFUA, LAPA and AQ.
--
-- The parts and their files:
--  * Prelude and its children: tests on numbers, arrays as lists, results (`ok`, `panic`, and `fault`
--    for a read or write outside an array or through a null pointer) and bits of words.
--  * Memory: memory as a function from addresses to words, and the address macros of mmu.h and
--    memlayout.h.
--  * Vm: `walk` is `walkpgdir` of vm.c without allocation; Vm/Map is walkpgdir with allocation and
--    mappages.
--  * Kalloc: the physical page allocator, kalloc.c; its free list lies in the memory.
--  * Space: address spaces of vm.c: setupkvm, deallocuvm, freevm, clearpteu, copyuvm and uva2ka;
--    Space/Grow is allocuvm, and growproc of proc.c.
--  * Paging: `struct page` and `struct proc` of proc.h, the queue of resident pages (fixQueue, insert,
--    removeAQ) and the queue of free offsets of proc.c; Paging/Scfifo is removeSCFIFO, Paging/Aging is
--    removeNFUA, removeLAPA and agePages, Paging/Pages is deallocatePage and advanceQueue.
--  * Swap: selectPage and swapToFile of vm.c, and in Swap/Fault the page fault of trap.c.
--  * SwapDisk: writeToSwapFile and readFromSwapFile of fs.c with filewrite and fileread of file.c, over
--    the inode of the swap file and the disk of Fs/Inode.
--  * Disk: the disk and what bio.c shows of it to the log.
--  * Bcache: the buffer cache of bio.c over the disk in memory of memide.c; Bcache/Runs compares any
--    sequence of its calls with an array of blocks.
--  * Log: log.c, with crashes between any two writes and with the operations of several processes.
--  * Pipe: pipe.c. A call is one step, up to where it returns or sleeps; Pipe/Order is the calls of
--    several readers and writers in any order.
--  * Process: the process table of proc.c as a state machine. An operation holds ptable.lock while it
--    works on the table, so it is one step; fork is one step from the slot it takes to the child that
--    may run, since no other process acts on the slot in between but kill.
--  * Grep: the matcher of grep.c.
--  * File: the table of open files of file.c; File/Counts compares its counts with the handles that
--    processes hold.
--  * Fs: balloc and bfree of fs.c on the free map, and in Fs/Names skipelem with the loop of namex
--    over the names of a path; Fs/Inode is bmap, readi, writei, iupdate and ilock on a file that is no
--    device.
--  * Syscall: the arguments of system calls, syscall.c.
--  * Strings: the copies and comparisons of string.c, on memory of bytes.
--  * Printing: printf.c, cprintf of console.c and atoi of ulib.c.
--  * Console: the line buffer of console.c; Console/Keys compares consoleintr with an editor of one
--    line, Console/Reading is consoleread.
--  * Lock: spinlock.c, as the steps of several processors at one lock.
--  * Shell: the command parser of sh.c.
--  * Tests: the theorems at concrete inputs.
--
-- Functions keep their names, in snake case; -1 in a queue is `none`. A queue of a process is an array
-- of 16 slots, and `Holds q live` says that it holds the items `live` from its start on.
--
-- Loops that run over an array are recursive on it or on the rounds left. Loops over linked memory
-- have fuel: `freerange` has one round for each page of the address space, more than it can use, and
-- `get_current_capacity` needs one round more than there are free pages. The loop of `deallocuvm`
-- has a round for each page below the old size and one more. The depth of the parser's
-- recursion is bounded by four for each byte of the line and four more, and printing a number takes at
-- most one round for each of its 32 bits.
--
-- Not modelled: the locks inside the other parts (an operation that holds its lock throughout is one
-- step), interrupts, the
-- devices, the sleep locks of buffers and inodes with their panics, the wrap-around of `nextpid`,
-- and the parts of the kernel and the user programs that no file above names.
pub mod Prelude
pub mod Memory
pub mod Vm
pub mod Paging
pub mod Kalloc
pub mod Disk
pub mod Log
pub mod Pipe
pub mod Strings
pub mod Tests
pub mod Process
pub mod Grep
pub mod File
pub mod Fs
pub mod Bcache
pub mod Syscall
pub mod Swap
pub mod Printing
pub mod Shell
pub mod Space
pub mod Console
pub mod Lock
pub mod SwapDisk
