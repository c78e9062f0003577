-- ===== src/Kernel.antt =====
-- The kernel program: its queues of processes, schedulers and handlers. pcb.go of utils/ is here too,
-- as only the kernel uses it.
pub mod Pcb
pub mod State
pub mod Queues
pub mod Placement
pub mod Moves
pub mod Shared
pub mod Api
pub mod Devices
pub mod Scheduler
pub mod Preservation
pub mod Turns
pub mod Reports
pub mod SyscallsPlaced
pub mod DevicesPlaced
pub mod Times
pub mod Disconnections
pub mod Interrupts
pub mod Requests
pub mod Preemption
pub mod Syscalls
pub mod Known
pub mod KnownSteps
pub mod KnownHandlers
pub mod KnownDevices
pub mod Steps
pub mod StepsPlaced
pub mod Sound
pub mod Reachable
pub mod Closing
pub mod Stranded
pub mod Policy
pub mod Longest
pub mod Runs
pub mod Insertion
pub mod Samples
