-- ===== src/Lib.antt =====
-- pico-toolkit: a small real-time system for the two cores of the RP2040, modelled from its C
-- code.
--
-- Base holds what the modules share: tests on numbers, lists of addresses, memory as functions,
-- counters and bits. Links is toolkit-support/include/pico/toolkit/linked-list.h (paths are
-- below src/), with nodes as addresses and a heap of their pointers; Links/Ring says which
-- sequence of nodes a list head stands for, Links/Insert, Remove and Walk what each function
-- does to it, and Links/Sched treats the scheduler's own copy of the same list (sched_list_* of
-- pico-scheduler/scheduler.c).
--
-- Scheduler is pico-scheduler/scheduler.c. Scheduler/Queue has the priority queues twice,
-- pointer by pointer and on sequences of tasks; Queue/Refine relates the two, and Queue/Order
-- is about priorities. Scheduler/State has the data (struct task, struct futex, struct
-- scheduler and the core-local variables) and the operations on queues and timers; from there
-- on a queue is a sequence. Scheduler/Service has the service handlers (scheduler_*_svc),
-- Scheduler/Wake the wake-up of waiters with priority inheritance (Wake/Drain: a wake of all),
-- Scheduler/Switch the context switch and the tick, Scheduler/Api the functions that tasks and
-- interrupts call, Api/Futex those on futexes, and Api/Critical the critical section; Api/Reach
-- has the states that all of these lead to. Scheduler/Invariant states what holds between
-- services, and its children show that each service keeps it. A handler runs under the
-- scheduler's spin lock, so it is one step; where the idle loop of scheduler_switch lets go of
-- the lock, the changes by others are an argument. Everything that a call leaves in r0 of a
-- saved frame is the field r0 of the task.
--
-- Atomic is pico-atomic/pico-atomic.c: one function for each function and width;
-- Atomic/Exclusion has the two-bit lock step by step, for both cores in any order.
--
-- Rtos is the layer of pico-cmsis-rtos2 above the scheduler, as far as it is modelled:
-- Rtos/Semaphore (cmsis-rtos2-semaphore.c) runs acquires and releases of any number of threads,
-- one atomic access at a time; Rtos/Deque (cmsis-rtos2-deque.c) has the ring buffer and its
-- waits, with what others do during a wait and the answer of the last osEventFlagsSet as
-- arguments, and Deque/Contents the sequence that a deque holds; Rtos/Mutex
-- (cmsis-rtos2-mutex.c) has acquire and the two releases; Rtos/EventFlags
-- (cmsis-rtos2-eventflags.c) set, clear and the wait, and EventFlags/Met what a wait asks for,
-- bit by bit; Rtos/Pool (cmsis-rtos2-pool.c) the free list of a memory pool; Rtos/Kernel
-- (cmsis-rtos2-kernel.c) the kernel's states and its lock, on top of the scheduler's.
--
-- Rtos/MessageQueue (cmsis-rtos2-message-queue.c) is on top of Rtos/Pool, with the list of its
-- messages as a sequence of blocks; Rtos/Timer (cmsis-rtos2-timer.c) has the calls and the tick
-- hook, whose queue is the number of messages that it still takes (no put fails but for want of
-- room, else the hook aborts); Timer/Tick and Timer/Posts are about the hook, and Timer/Restart
-- has the list pointer by pointer.
--
-- Rtos/Objects has the creation and deletion of semaphores, event flags and mutexes, with the
-- kernel's lists of resources. Rtos/Thread (cmsis-rtos2-thread.c) has the states of a thread
-- and the calls that go to the scheduler, and Thread/End the reaper and the join, which clean
-- up after a thread; Thread/Cleanup, Reaper and Joins say what they leave.
--
-- Threads is pico-threads/threads.c: Threads/Mutex runs any number of threads on one mutex, one
-- atomic access at a time, Threads/Specific is tss_* and what thrd_exit does with the keys
-- (Specific/Destructors: with destructors that change the storage), Threads/Condition is cnd_*
-- with what others do before a wait as an argument, and the timed calls, Threads/Life the
-- creation, exit, join and reaping of threads.
--
-- Fault is pico-fault/backtrace.c on a memory of words: the search of the unwind index,
-- Fault/Unwind the interpreter of unwind instructions, Fault/Frames the frames and the
-- backtrace.
--
-- Multicore is multicore-support/multicore-irq.c: what a core does for a command, and in
-- Multicore/Commands the fifos, their handler and the routing of each request
-- (Commands/Requests: which core each function reaches); the SDK's functions on the interrupt
-- controller are a parameter (Hardware). Multicore/Nmi is pico-nmi/nmi.c.
--
-- Numbers are natural numbers, with the wrap-around of C written out. A null pointer is none.
-- Fuel bounds the loops that do not follow a list: the walks of a list pointer by pointer (a
-- length above that of the list is enough), the waking of waiters and the expiry of timers
-- (each round takes one entry away, so the length is enough), the search of the unwind index
-- (its length and one: a round makes the interval shorter), the interpreter of unwind
-- instructions (1,023 turns: a table has at most 1,022 bytes), a backtrace (the room of the
-- buffer), the tick hook of the timers (the room of the queue) and the reaper (two looks, when
-- no other thread ends meanwhile).
--
-- Not modelled: assembly, the stack frames but for r0, thread-local storage, the hooks of
-- applications, the creation and deletion of the other objects of the RTOS layer, the output of
-- faults, the start of the second core and of the main thread, and the glue to the C library.
-- The trace output of pico-rtt is a copy of SEGGER's.
pub mod Base
pub mod Links
pub mod Scheduler
pub mod Atomic
pub mod Fault
pub mod Multicore
pub mod Rtos
pub mod Threads
