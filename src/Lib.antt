-- ===== src/Lib.antt =====
-- Nachos, the instructional operating system under nachos-csci402/code, and the MIPS machine that it
-- runs on: a model of its parts and the laws that make each of them correct.
--
-- The parts and how they meet. The machine (machine/) runs user programs: `OneInstruction` fetches
-- through `ReadMem`, which translates by a page table or a TLB, and hands exceptions to the kernel's
-- handler. The kernel (threads/) schedules threads and gives them semaphores, locks and conditions,
-- all of which keep their waiters in lists. The file system (filesys/) takes sectors from a free map,
-- which is a bit map (userprog/), enters them in a file's header, and names files in a directory; an
-- open file reads and writes its sectors on the disk (machine/), which asks the clock for an
-- interrupt when a request is done. A user program is loaded from a file, holds its open files in a
-- table, and calls the kernel by an exception (userprog/); the kernel then copies bytes between the
-- program's memory and its own, and reads and writes files.
-- A post office (network/) hands messages to the network device (machine/) and sorts those that come in
-- into mailboxes. The passport office (threads/threadtest.cc) is a program over the kernel's locks and
-- conditions.
-- Paths below are relative to nachos-csci402/code.
--
-- - Base, Bits: shared names, lists and integers over native numbers, and the bits of a number.
-- - BitMap: userprog/bitmap.cc. `BitMap` is the class with its array of words; a member function has
--   its name in lower case. `none` is a failed ASSERT.
-- - FileSys.FileHeader: filesys/filehdr.cc. The table `dataSectors` is a list; an entry is an
--   integer, as `Find` may answer -1; a write out of the table is `none`.
-- - FileSys.Directory: filesys/directory.cc. A name is a list of characters, read up to its first 0;
--   `strncmp` and `strncpy` are C's.
-- - FileSys.Store: filesys/synchdisk.cc, the disk's sectors as a list of lists of bytes.
-- - FileSys.OpenFile: filesys/openfile.cc. What `new char` hands out in `WriteAt` is an argument.
--   Children: Contents sees a file as its bytes; Read, Write and Seek are about the methods;
--   Fresh joins them to what `Allocate` hands out.
-- - FileSys.System: filesys/filesys.cc. A `FileSystem` is the free map, the directory and the header
--   in each sector, each kept as what it stands for. Space says when a disk is in order; Create,
--   Remove and Format are about one operation each, Steps about any number of them.
-- - Disk: machine/disk.cc. The head, the track buffer and the requests; times are ticks, and
--   `timeAfter` an `int`. Latency sees a request as the pass of a sector below the head, Request joins
--   the disk to the clock.
-- - AddrSpace: userprog/addrspace.cc, the table of open files; Paging is the page table that an address
--   space gives the machine, Load the constructor with the loading of a program, `InitRegisters` and
--   `StartProcess` of userprog/progtest.cc up to the run of the program.
-- - Syscall: userprog/exception.cc, the system calls of a program over the file system of filesys/. A
--   `Process` is the machine, the disk and the open files; `Given` is what `new char` and `scanf` hand
--   out. Dispatch is `ExceptionHandler`. Memory and Copy follow bytes of the program's memory; Transfer,
--   Create and Handles are about the calls, Registers and Return about how they end, Start about how a
--   program begins.
-- - Machine: machine/machine.cc. The registers are a list of 40 words below 2 ^ 32; the kernel's
--   `ExceptionHandler` is an argument, a `Handler`, which may change the machine or not come back.
-- - Machine.Translate, Machine.Memory: machine/translate.cc. `mainMemory` is a list of bytes, and the
--   host is little-endian with signed characters.
-- - Mips: machine/mipssim.h and mipssim.cc. `decode` is `Instruction::Decode`; `exec` is the switch of
--   `OneInstruction`, cut into runs of cases; `advance` is what follows it; `mult` is `Mult`.
-- - Threads: threads/list.cc, scheduler.cc, thread.cc, synch.cc and synchlist.cc. A thread is a
--   number. Operations run with interrupts off, so each is a function up to the `Sleep` in it, and
--   what follows `Sleep` is a function of its own. `Threads.Semaphore.Wakeup` has the steps of all the
--   threads that use
--   one semaphore, in any order, and `Threads.SynchList.Fifo` those of one synchronized list.
--   Switch is `Run` with user programs, their registers and page tables, the fenceposts of the stacks
--   and the thread that has finished.
-- - Interrupt: machine/interrupt.cc. A handler is an argument, `Handlers`, as the code calls it through a
--   pointer; `Interrupt.Calls.ComesBack` says what a device's handler does to the clock: it schedules
--   interrupts to come and asks for a yield. `OneTick` and `Idle` are cut at the calls of `Yield` and
--   `Halt`.
-- - Devices: machine/console.cc, whose two files are the characters that are left in one and those that
--   went to the other, and machine/timer.cc, where `Random` is an argument. Console.Stream follows the
--   input through any calls of a console.
-- - Network: machine/network.cc and network/post.cc. Device is the network device, whose socket is the
--   host's; Post is the post office with its mailboxes; Packets and Delivery join two machines. A
--   `char` array is a list of bytes, and what `new char` hands out is an argument.
-- - Office: threads/threadtest.cc, the passport office. A thread's code is cut at the calls in which it
--   may sleep, and each piece is a function: `join_line` of Application, Picture, Passport and Cashier
--   for a customer, `run` for a clerk, with what `rand` gives as an argument; it gives the calls of
--   locks and conditions that it makes, and `none` for an access outside of an array or to the front
--   of an empty queue. System puts the pieces of all threads together in any order, woken or not;
--   Monitors follows the locks from piece to piece; Manager is the manager's round.
-- - Tests: the theorems at concrete inputs.
--
-- Bounds and fuel. Words of 32 bits are numbers below 2 ^ 32 with `% 2 ^ 32` written out where C wraps
-- around. The loops of the source run a known number of times, and are recursions on what is left:
-- 32 rounds in `mult_loop`, the bits of a map, the sectors of a file, the entries of a table. None
-- runs out before the loop's own condition ends it. The loop over `CheckIfDue` runs on fuel: one more
-- than the interrupts that are due is enough, as what a handler schedules is never due at once. The
-- loop of `copyin` that reads a byte again runs on fuel too: one round is enough where the byte is in
-- the program's pages, and a fault halts the machine.
--
-- Not modelled. The chain of a `List` stands for its elements linked by `next`; their allocation and
-- the pointer `last` are left out. `Sleep` stops where it would call `Interrupt::Idle`, and setting
-- the interrupt level has no effect in Threads. The build is that without USER_PROGRAM where threads
-- are concerned, but in Threads.Switch. The bytes of the free map, the directory and the headers in
-- their sectors are left
-- out: `FetchFrom` and `WriteBack` copy the structures as they are. So are the lock and the semaphore
-- of filesys/synchdisk.cc, the lock of the table of open files and the messages that the system calls
-- print, and around the mailboxes of a post office its lock, semaphores and synchronized
-- lists. Of the passport office the output, the menus, the counts of money, which no one adds to, the
-- senators, which nothing acts on, and the tests of the locks are left out, and the counts of a line
-- are unbounded integers. machine/sysdep.cc only calls the host for files, sockets and signals, and the
-- start-up reads flags and makes the global objects. The tools under bin/ are programs of their own.
pub mod Base
pub mod Bits
pub mod BitMap
pub mod FileSys
pub mod Machine
pub mod Mips
pub mod Threads
pub mod AddrSpace
pub mod Interrupt
pub mod Disk
pub mod Syscall
pub mod Network
pub mod Devices
pub mod Office
pub mod Tests
