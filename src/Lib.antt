-- ===== src/Lib.antt =====
-- A model of the kernel of Embedded Xinu (the Raspberry Pi build of this repository), and what holds
-- of it.
--
-- The program's parts. The kernel keeps one table of queue entries in which every thread queue is a
-- doubly linked list between two sentinels: the ready list, the sleep queue, and one queue for each
-- semaphore. A thread is an entry of the thread table. The scheduler takes the first thread of the
-- ready list, which is ordered by descending priority. Semaphores, messages, sleeping and suspension
-- move threads between the ready list and the other queues, and then call the scheduler. The kernel
-- heap is a list of free blocks through the memory itself.
--
-- Which file models which part:
--  - Kernel: the tables and variables (include/thread.h, include/queue.h, include/semaphore.h,
--    system/initialize.c) as the record `Kernel`, and the monad that kernel functions run in. An
--    index outside of a table is a `fault`; a loop that has no rounds left is `out_of_fuel`.
--  - Queue: system/queue.c, system/getitem.c, system/insert.c, system/insertd.c, system/queinit.c and
--    the macros of include/queue.h. Below it, Chain and Contents say when the links hold a list of
--    threads, Links computes the writes, Fifo, Ends, Sorted, Delta and Init are about the operations,
--    and System is about all queues at once.
--  - Thread: system/ready.c, system/resched.c, system/resume.c, system/suspend.c, system/chprio.c,
--    system/getprio.c, system/gettid.c, system/yield.c. Thread/Message has system/send.c,
--    system/receive.c, system/recvclr.c, system/recvtime.c and system/unsleep.c; Thread/Clock has
--    system/sleep.c, system/wakeup.c and system/clkhandler.c. Thread/Scheduled has the scheduler's
--    invariant, Thread/Ready, Thread/Waiting, Thread/Resched, Thread/Preempt, Thread/Wake,
--    Thread/Deliver and Thread/Sleep its operations.
--  - Semaphore: system/wait.c, system/signal.c, system/signaln.c, system/semcreate.c,
--    system/semfree.c, system/semcount.c. Semaphore/Waiters has the invariant of one semaphore,
--    Semaphore/Signal, Semaphore/Wait, Semaphore/Block and Semaphore/Free the operations on it, and
--    Semaphore/Release the parts of `signal`.
--  - Memory: system/memget.c, system/memfree.c, system/stkget.c and the macros of include/memory.h.
--    Memory/Blocks has the list of free blocks and first fit, Memory/FirstFit what first fit gives,
--    Memory/Get the refinement of `memget`. Memory/Coalesce has giving bytes back to that list,
--    Memory/Link and Memory/Walk compute `memfree` at a place and the search for it, Memory/Free is
--    the refinement. Memory/LastFit, Memory/Highest and Memory/Stack are about `stkget`.
--  - Netaddr: network/netaddr/netaddrmask.c, network/netaddr/netaddrhost.c,
--    network/netaddr/netaddrequal.c and lib/libxc/memcmp.c.
--  - Route: the routing table, network/route/rtAdd.c, network/route/rtAlloc.c,
--    network/route/rtLookup.c, network/route/rtRemove.c, network/route/rtClear.c,
--    network/route/rtDefault.c and the loop of network/route/rtInit.c; `rt_add` is `rtAdd`, and so on.
--    Route/Lookup, Route/Add, Route/Change and Route/Mask are about the operations.
--  - Strings: the string and memory functions of lib/libxc, with Strings/Length and Strings/Copy.
--  - Checksum: network/net/netChksum.c; Checksum/Sum says what it adds up to.
--  - Monitor: system/moncreate.c, system/monfree.c, system/lock.c, system/unlock.c and
--    system/moncount.c; Monitor/Nested is about nested locks, Monitor/Overtaken about an order of
--    steps of three calls. NMON is an argument.
--  - Mailbox: mailbox/mailboxInit.c, mailbox/mailboxAlloc.c, mailbox/mailboxSend.c,
--    mailbox/mailboxReceive.c, mailbox/mailboxCount.c and mailbox/mailboxFree.c. Mailbox/Ring is
--    about the messages as a list, Mailbox/Send and Mailbox/Receive about the operations.
--  - Thread/Create: system/create.c; Thread/Create/Search has the search for an entry, Thread/Create/Made
--    the steps, Thread/Create/Created and Thread/Create/Room the results. Thread/Context is
--    system/platforms/arm-rpi/setupStack.c, with Words, Layout and Bounds below it.
--  - Kill: system/kill.c, system/userret.c and system/xdone.c; Kill/Left has the parts, Kill/Ended the
--    results. Thread/Removal is about taking a thread out of the middle of a queue.
--  - Critical: system/platforms/arm-rpi/CriticalSection.c, and `disable` and `restore` of
--    system/platforms/arm-rpi/intutils.S; Critical/Nested is about sections inside of sections.
--  - Start: `sysinit` of system/initialize.c up to the clock, and `clkinit` of
--    system/platforms/arm-rpi/dispatch.c; Start/Empty has the loops, Start/Started the result.
--  - Pool: system/bufpool.c and include/bufpool.h; Pool/Buffers is about the free buffers as a list.
--  - Base: the signed integers, lists and tests over the native numbers.
--  - Examples: small states, and each result at one of them.
--
-- Correspondence. A function of the C code is the definition of the same name, a macro too. A table
-- is a function of its index; `quetab[i].next = v` is `set_next i v`. An `int` is an integer of
-- unlimited size, except where the comments of a file say that a computation is done modulo 2^32;
-- counts, keys and priorities are not bounded. Addresses and sizes of the heap are numbers below
-- 2^32. The headers of free blocks and the words of allocated blocks are kept apart, in `mem` and in
-- `words`; where `create` writes the first context of a thread, the writes reach both.
-- The critical sections that bracket a kernel function make it one step, so they have no counterpart
-- in the definitions. `kill` leaves its section early: what other threads do between its steps is an
-- argument, and only the switch at its end is taken as one step. The context switch is the change of
-- `thrcurrent`: `resched` answers at the point where the old thread stops, and a function that goes on
-- after it, like `receive`, takes what the other threads do meanwhile as an argument.
--
-- Bounds and fuel. A walk along a queue is given NTHREAD + 1 rounds, which is enough because a queue
-- holds every thread at most once; a walk along the free list is given one round for each address up
-- to the end of the heap and one more, which is enough because the blocks lie apart. The search for a
-- free thread is given NTHREAD rounds, as in the code, and the walk along a thread's name as many as
-- its caller says. The theorems on these operations say that they answer, so that they do not run out.
--
-- Not modelled: the start of the devices and most of the platform code, interrupts and the registers
-- that the context switch saves, the device drivers, the protocols of the network stack, the shell and
-- the applications, which are input and output or stand on the parts above.
pub mod Base
pub mod Checksum
pub mod Critical
pub mod Kernel
pub mod Kill
pub mod Mailbox
pub mod Memory
pub mod Monitor
pub mod Netaddr
pub mod Pool
pub mod Queue
pub mod Route
pub mod Semaphore
pub mod Start
pub mod Strings
pub mod Thread
pub mod Examples
