-- ===== src/Lib.antt =====
-- Verification of the Zephyr kernel benchmark: programs that time kernel calls with a cycle
-- counter. The benchmark harness (BMTH), Zephyr and the processor are not part of the repository.
-- What their calls return is a parameter, and what the code relies on of them is stated in the
-- records KernelDoc and SchedulerDoc.
--
-- Window.antt says what a sample is. Every call to the harness is recorded as a mark; a monitor
-- reads the marks and accepts a series only if each of its windows is opened, the counter reset, a
-- start and a stop captured, exactly these two fed to the series and the window closed.
--
-- The simulated kernel (src/zephyr_api_simulation and the zephyr_sim.c files below
-- src/task_switching) repeats the kernel's chains of calls on a kernel object of its own, to time
-- the halves of a switch. Sim/Machine.antt has its state, a monad in which a null access is a
-- fault, and the parameters; Sim/Calls.antt the calls that leave the repository; Sim/Kernel.antt
-- the files sim_init.c, sim_kswap.h and sim_sched.c, function by function under their own names.
-- Sim/Swap.antt and Sim/Event.antt have the probes that several zephyr_sim.c files share word for
-- word, Sim/Sem.antt the statics of the semaphore files, Sim/Probe.antt what is around every probe,
-- with the rule for its counted loop. Sim/Main.antt has what the main() functions share, the set-up
-- of the harness before the probes and the creation of I_Task behind them; Main.antt below
-- EventBlock, SemBlock, EventPreempt, SemPreempt and TaskPreempt is main() of that test, with the
-- three probes of its simulation in a row. Sim/Swap/Kept.antt has what the swap probe leaves as it
-- was. EventBlock.antt, EventPreempt.antt, SemBlock.antt, SemPreempt.antt and TaskPreempt.antt are
-- the files task_switching/event_block/zephyr_sim.c and its four neighbours. The assembler fillers,
-- the padding and the volatile reloads, which exist for the timing, have no effect on the state and
-- are left out. The simulation's event, semaphore and threads are the only ones that are passed, so
-- pointers to them are fixed; a thread pointer may be null. The options and events masks that the
-- code does not use are left out.
--
-- The inter-thread communication tests (src/itc) are in Itc. Itc/Kernel.antt has the kernel's
-- operations and the scheduler as parameters; an operation that may pend takes effect when it
-- returns. Itc/Handover.antt has the protocol of fifo.c, lifo.c, stack.c and msgq.c as one
-- statement per step of a thread: T_SendUp, T_RecvUp, T_ArmUp and the three of the other direction.
-- The scheduler is given all threads and picks the next one to run a statement. Itc/Self.antt has
-- T_Self. Itc/Fifo.antt, Itc/Lifo.antt, Itc/Stack.antt and Itc/Msgq.antt are the four files, with
-- the object that each thread names, which in msgq.c the releaser chooses for both at every step,
-- and whether a put to a full one fails, as for a stack, or pends; Itc/Msgq/Buffers.antt has the
-- storage of the queues and Itc/Outliers.antt the sum of the outliers with which I_Task ends. In
-- the proofs, Itc/Handover/States.antt has the states between two statements, Arming.antt and
-- Passing.antt beside it the statements, Round.antt their chain, Sweep.antt what a round leaves,
-- Fed.antt the counts and Steps.antt the loops. The number of statements run is exact, (1 + 12 *
-- 50000) * 9 + 1: twelve for a round, one for the start of a step, one to post the end; a deadlock
-- before that would be a run that gives nothing. The threads are taken from the return of their
-- wait for the start event on.
--
-- The scenario threads of src/task_switching/event_block, sem_block, event_preempt and sem_preempt
-- (time_task_switch_event.c and time_task_switch_sem.c) are in the file Tasks.antt below
-- EventBlock, SemBlock, EventPreempt and SemPreempt, each C function as the program of its calls;
-- Threads.antt beside it has the whole run. Scenario/Kernel.antt has the kernel's operations as
-- parameters and what is documented of them, as their effect on a view of the state
-- (Scenario/Kernel/State.antt): the counts of the semaphores, the posted events, the contents of
-- the pipes and mailboxes and the status of each thread; Scenario/Doc.antt has the hypothesis that
-- a kernel has these effects. A call that pends takes effect when it returns; in particular a write
-- to a pipe that does not fit as a whole waits with all its bytes. Scenario/Program/Calls.antt has
-- programs, Scenario/Program.antt the system of five threads, Scenario/Run.antt runs in parts and
-- rounds, Scenario/Refine.antt the run over any kernel as the run over the view,
-- Scenario/Tally.antt a monitor of the marks that counts timed and stray samples,
-- Scenario/Rounds.antt what a round leaves, Scenario/Whole.antt and Scenario/Complete.antt a test
-- from I_Task's start to its signals. The numbers of calls are exact, so a deadlock before the end
-- would be a run that gives nothing. The build is the one without dummy load, which the default of
-- every benchmark_testcases.h amounts to; the loops on dummy_count are then empty and left out, and
-- TEST_SB_HAS_WAITER is a parameter. BMTH_signalize_jitter_detected() is taken to return.
--
-- The threads of task_switching/task_change/time_task_switch.c share a priority and pass the
-- processor on by k_yield(). TaskChange/Ready.antt has a kernel with its ready queue for them: a
-- thread is put behind those of its priority, and the head of the queue runs. In which order
-- k_event_post() makes several waiting threads ready is not documented; it is a parameter.
-- TaskChange/Tasks.antt has the C functions and the system, TaskChange/Refine.antt the run over any
-- kernel as the run over the view, TaskChange/States.antt and TaskChange/Turns.antt the states
-- between two turns and the turns, for the sizes of the pool that TaskChange/Pool.antt lists,
-- TaskChange/Counts.antt what a round adds to the counts, TaskChange/Loops.antt the loops, which
-- end with iteration_count, TaskChange/Whole.antt the whole run, without dummies for either order
-- and with them for the one in which the threads began to wait, TaskChange/Reversed.antt the first
-- sample where the waiting threads are made ready the other way round.
--
-- The asynchronous tests itc/pipe/pipe_async.c and itc/mailbox/mailbox_async.c are programs of the
-- same kind, in Itc/PipeAsync.antt and Itc/MailboxAsync.antt, with I_Task from its start in the
-- file Start.antt below and the run of the whole test in Whole.antt. Itc/Async/Course.antt has the
-- parts of such a test, Itc/Async/Outcome.antt what it leaves. Scenario/Sweep.antt has a sweep over
-- the nine message sizes, Itc/Async.antt the three phases of a test. A pipe is the number of bytes
-- in it, of which a read takes what it can, and a mailbox the sizes of its messages; what a match
-- writes to the descriptors is left out, since arm_descriptors() sets it again before it is read.
-- The sender and the releaser wait for the same start event, which one post gives to both:
-- Start.antt has that wait as two calls, as below.
--
-- The synchronous tests itc/pipe/pipe_sync.c and itc/mailbox/mailbox_sync.c are in
-- Itc/PipeSync.antt and Itc/MailboxSync.antt, whole from the start of I_Task on, with the run in
-- the file Whole.antt below. A call in which two threads meet is two calls here, one up to where it
-- may pend and one for its return: the waits that one post ends (Scenario/Kernel/Waiting.antt), the
-- transfer through a pipe without a ring (Scenario/Kernel/RingLess.antt) and the put of a message.
-- Itc/Sync.antt has what the two files share, Itc/Sync/Course.antt the parts of a test,
-- Itc/Sync/Samples.antt and Itc/Sync/Complete.antt what it leaves. Scenario/TwoStops.antt is the
-- monitor for a window with two stops, one for each of two series, and Scenario/Measured.antt what
-- a sweep adds to a number read off the marks. I_Task creates its threads by number, the number
-- standing for the C function.
--
-- The threads of task_switching/task_preempt/time_task_switch.c are in TaskPreempt/Tasks.antt,
-- those of irt/time_interrupt_response.c with its interrupt handler in Irt.antt;
-- TaskPreempt/Threads.antt and Irt/Whole.antt have the whole run, Irt/Released.antt a round in
-- which the handler releases a thread. Their loops end when iteration_count, which the harness
-- keeps, says so: Scenario/Guarded.antt has the hypothesis on it and a loop with such a test,
-- Scenario/GuardedWhole.antt a test with two of them. The handler is a thread above all others that
-- goes on when its line is enabled and pending (Scenario/Kernel/Line.antt).
--
-- The memory tests (src/mem): Mem/Heap.antt is the walk over the chunks of a heap in
-- mem_zephyr_heap.h, with fuel, Mem/HeapAdapters.antt the adapters k_heap/k_heap.c,
-- k_malloc/k_malloc.c and sys_heap/sys_heap.c, Mem/Slab.antt the adapter mem_slab/mem_slab.c,
-- Mem/Requests.antt any sequence of its allocations and frees, and Mem/Blocks.antt the pools and
-- the space readers of mem_blocks/mem_blocks.c, Mem/BlockCalls.antt its allocation calls. Zephyr's
-- heaps and slabs, the kernel's private heap.h, the count of set bits, __builtin_ctz() and the
-- sizes of Zephyr's structures are parameters.
--
-- Numbers: uint32_t arithmetic is on the natural numbers with its wrap-around written out, an int
-- is a sign and a number. Loops are structural recursion on the count.
--
-- Examples/Board.antt, Examples/Counts.antt and Examples/Desk.antt have a concrete board, kernel
-- and scheduler that behave as documented, Examples/Simulation.antt, Examples/Main.antt,
-- Examples/Handover.antt, Examples/Tasks.antt, Examples/Async.antt, Examples/Sync.antt,
-- Examples/Guarded.antt, Examples/Change.antt, Examples/Mem.antt, Examples/Slab.antt and
-- Examples/Blocks.antt each theorem at a concrete state.
--
-- Not modelled: main() of the tests of src/itc, src/irt and src/mem and of task_change, which sets
-- up the harness and creates I_Task; the dummy load but for task_change, which the default builds
-- leave out or never create; I_Task of the memory tests, which hands over to the memory harness and
-- signals what it reports; the thread creation in I_Task of fifo.c, lifo.c, stack.c and msgq.c,
-- which is that of pipe_async.c but for the object; the buffers' contents; the port to the harness
-- (bmth_port.c, bmth_config.h), which configures and toggles three LEDs through Zephyr's driver and
-- says which register the counter is.
mod Prelude
pub mod Window
pub mod Sim
pub mod EventBlock
pub mod EventPreempt
pub mod SemBlock
pub mod SemPreempt
pub mod TaskPreempt
pub mod TaskChange
pub mod Itc
pub mod Irt
pub mod Scenario
pub mod Mem
mod Examples
