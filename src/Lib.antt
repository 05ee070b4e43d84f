-- ===== src/Lib.antt =====
-- HellfireOS: a verification library of the kernel.
--
-- The program is a realtime kernel for small processors, with a C library. Tasks are control blocks in
-- a table; a task that can run stands on the run queue, or on the realtime queue when it has a period,
-- and a delayed task on the delay queue. The timer's interrupt counts delays down and calls the
-- realtime scheduler and then the best effort one; the task calls and the synchronisation objects move
-- tasks between states and queues.
--
-- Base          the library's names, Boolean tests, arrays as lists, 32-bit words
-- Alloc         the interface of sys/lib/malloc.c that the other parts use
-- Queue         sys/lib/queue.c, every operation; Valid has the invariant
-- Kernel        sys/include/kernel.h: control blocks, globals, and commands on them
-- Scheduler     sys/kernel/scheduler.c: delay queue, round robin, lottery, priority
-- Rma           sched_rma of scheduler.c: Sort and Order have its sort, Account its second loop, Elect
--               the whole
-- Dispatch      dispatch_isr of scheduler.c, and hf_yield of sys/kernel/task.c
-- System        the invariant of the whole kernel, and the calls that keep it
-- Task          sys/kernel/task.c: state, priority, block, resume, delay
-- Spawn         hf_spawn and hf_kill of sys/kernel/task.c
-- Semaphore     sys/sync/semaphore.c
-- Mutex         sys/sync/mutex.c, the spinlock, and in Peterson the filter lock
-- Condvar       sys/sync/condvar.c
-- Processor     sys/kernel/processor.c, and hf_id and hf_name of sys/kernel/task.c
-- Boot          sys/kernel/main.c, the state that the kernel starts from
-- NodeList      sys/lib/list.c
-- Libc          lib/libc/libc.c: strings, memory, numbers; Arithmetic has the integer routines of 32
--               bits, and Wide those of 64 bits
-- Crc           lib/misc/crc.c
-- Disk          drivers/device/device.c and drivers/block/ramdisk.c
-- Heap          sys/lib/malloc.c with MEM_ALLOC 3; Seg has the chain of headers as a list of items, Scan,
--               Merge and Search the loops of hf_malloc
-- Net           net/ustack: ip.c; Udp has udp.c, Input icmp.c and ip_in, Arp arp.c, Interface
--               netif_send and netif_recv of eth_netif.c; the others have lemmas and theorems
-- Uudp          net/uudp/uudp.c: what a socket receives
-- Examples      small concrete states
--
-- A definition bears the name of the C function where it models a whole one. A value of 8, 16 or
-- 32 bits is its bit pattern, a natural number, and the wrap-around is written out. A kernel call
-- is a function from the kernel's state to a result, a panic, or a fault, which is an access that
-- C does not define. A section between _di and _ei is one step. Context switches are left out:
-- what a task does after it has given up the processor is a later call, and hf_condwait, which
-- goes on after a switch, has the other tasks' doings as an argument. A loop whose end depends on
-- the data runs on fuel, and the theorems about it say how much is enough: as many rounds as tasks
-- stand before the first one that can run, nodes in a list, digits in a number, blocks in the
-- heap, or words in a packet. For the division and the product the rounds are fixed, by the bits
-- of a word, and proved to be enough.
--
-- Not modelled: the allocators of MEM_ALLOC 0 to 2, the hardware layers but _set_task_sp and
-- _set_task_tp, console output, floating point, the service task of the network stack, the rest of
-- uudp.c, the other drivers, the file system, and the applications.
pub mod Base
pub mod Alloc
pub mod Heap
pub mod Queue
pub mod Kernel
pub mod Scheduler
pub mod Rma
pub mod Dispatch
pub mod Task
pub mod Spawn
pub mod Semaphore
pub mod Mutex
pub mod Condvar
pub mod Libc
pub mod Processor
pub mod Boot
pub mod NodeList
pub mod Crc
pub mod Disk
pub mod Net
pub mod Uudp
pub mod System
mod Examples
