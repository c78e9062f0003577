-- ===== src/Lib.antt =====
-- The simulator of an operating system: a kernel that schedules processes, CPUs that run them, a
-- memory with multilevel paging, and IO devices, as programs that talk over HTTP. A request's
-- handler runs as one step on the state of its program; what another program answers, the time, and
-- the order that sort.Slice gives equal keys are arguments.
--
-- The memory (memoria/storage/storage.go). Memoria.State is the package's variables; the handlers
-- are functions on them that return, fail with an error, or panic (Base.Outcome).
--   Memoria/Frames, Malloc: allocateMemory, deallocateMemory, InitializeUserMemory.
--   Memoria/Process: CreateProcess, DeleteProcess, process_data.Deallocate, GetInstruction.
--   Memoria/Access: HasPage, GetFromMemory, WriteToMemory, GetPage, WritePage.
--   Memoria/Address: LogicAddressToFrame. Memoria/Dump: the rows of Memory_Dump.
--   Memoria/Swap: formatSwapData, addToSwap, getFromSwap, removeFromSwap, SuspendProcess,
--   UnSuspendProcess. The swap file is the text in it; what the file system allows is an argument.
--   Memoria/Requests, Handlers, SwapRequests: HandlerFunc and the handlers of memoria/memoria.go.
--   Memoria/Scan, Ownership, Invariant, Lookup, Removal, Touched, Regained: the frames that
--   processes own, and what is sound; Allocation, Deallocation, Lifecycle, Deletion, Isolation,
--   PageIo: the theorems. SwapFile: the text of a list of blocks; SwapPages: the text of a page;
--   PageRuns, Reads, PageReads, Writes: what reading and writing pages returns and changes;
--   SwapOut, SwapIn, Unsuspension, SwapRoundTrip, SwapTwice: the theorems of the swap file.
--
-- The CPU. Cpu/Address: sum and FromIntToLogicalAddres (cpu/memory/mmu.go). Cpu/Tlb: findFrame,
-- AddEntryTLB, InitTLB, ClearTLB (cpu/memory/tlb.go). Cpu/Odometer, Translation and TlbLaws hold
-- their theorems; Translation puts the CPU's addresses and the memory's tables together.
--   Cpu/State: the variables (cpu/config/config.go). Cpu/Memory: the requests to the memory program
--   (cpu/memory/memoryConection.go), whose replies are the parameter MemoryProgram, and Traducir.
--   Cpu/Cache, CacheAccess: cpu/memory/cache.go. Cpu/Buffers: its slices. Cpu/Mmu: WriteMemory and
--   ReadMemory (cpu/memory/mmu.go).
--   Cpu/Cycle: cpu/cpu.go, over Peers, the replies to a fetch, a syscall and a report.
--   Cpu/Serving: what the CPU relies on in the memory program; Translating, DirectAccess and Rounds
--   are the theorems on it. Marks, Clock: the victim that CLOCK finds.
--   Wire: the texts of the requests (fromLogicAddrToString) and what the handlers of
--   memoria/memoria.go read in them. Attached is the memory program as the storage behind those
--   handlers, with Memoria/Reads and Writes, and EndToEnd the CPU on it.
--   Keeping, KeepingCache, KeepingWrites, KeepingMmu and KeepingCycle go through every operation for
--   what it leaves alone and for the rounds of its loops; Endings has the theorems on the cycle.
--
-- The kernel. A process is named by its pid, and Kernel.State has the heap that pointers to
-- processes go to, a queue for each state, the CPUs, the devices and MTSQueue.
--   Kernel/Pcb: utils/pcb/pcb.go. Kernel/Queues: kernel/queues/queues.go.
--   Kernel/Shared: kernel/shared and the helpers of kernel/globals/globals.go.
--   Kernel/Api: kernel/api/kernel_api.go. Kernel/Devices: the IO handlers of kernel/kernel.go.
--   Kernel/Requests: the tests of the queries of both. Kernel/Scheduler: turns of LTS, STS and MTS,
--   and sendToWait (kernel/scheduler/scheduler.go). Kernel/Interrupts: the interrupts of STS.
--   Kernel/Placement, Moves: the place of a process, which is the queue of its state; Preservation,
--   Syscalls, SyscallsPlaced, DevicesPlaced, Disconnections, Turns, Preemption, Reports, Times: the
--   theorems on each handler and each turn of a scheduler; Policy, Longest: which process and which
--   CPU the schedulers take.
--   Kernel/Steps: the whole kernel, as main of kernel/kernel.go starts it: a step for each
--   handler, scheduler and goroutine, in any order. What only wakes or holds back a scheduler is
--   not looked at, so that every order of the program is there. Known, KnownSteps, KnownHandlers,
--   KnownDevices, StepsPlaced, Sound, Reachable: what each step keeps; Closing: when the kernel
--   closes; Stranded: a CPU and a process that it loses sight of.
--
-- The IO program (io/io.go). Io/Connection: the arguments, createKernelConnection, notifyKernel
-- with notifyIOFinished, and notifyIODisconnected; what it does that others see is a list of events.
-- Io/Script: the loop against the replies of recieveIO in kernel/kernel.go.
--
-- Utils/Codeutils is utils/codeutils/codeutils.go. Utils/Strings and Utils/Strconv are the parts of
-- Go's strings and strconv that the programs use, a text being a list of code points.
-- Base has the tests on numbers, lists, integers, and results that the programs share, and each
-- Samples file runs the theorems on concrete values.
--
-- Bounds and fuel. Addresses and pids are natural numbers, and Go's int is never overrun by them;
-- the size of a process is an integer, since nothing checks its sign; Atoi reads what fits 64 bits,
-- and the sleep of an IO wraps in them. The estimate of a burst is computed in float64: that
-- arithmetic is a parameter. Most loops are structural. The printing of a number has the number
-- itself as fuel, and the readers of the swap file the length of its text and one, each round
-- taking two bytes at least, so that neither runs out. The sweeps of CLOCK have one round more than
-- there are entries, and the loops over the pages of a read or a write one more than there are
-- bytes, which is enough where a page is not empty. The cycle of the CPU, which ends only where
-- something ends it, runs for as many rounds as there are choices of `select`, and an IO instance
-- for as many as there are replies.
--
-- Not modelled: the dump files, HTTP itself, the servers and their shutdown, logs, configuration
-- files, the build script, channels that only wake a scheduler, mutexes and delays other than the
-- sleeps of the IO program. Interleavings inside a handler are out of the model for that reason.
pub mod Base
pub mod Utils
pub mod Memoria
pub mod Cpu
pub mod Kernel
pub mod Io
