-- ===== src/Cpu.antt =====
-- The CPU program: the instruction cycle of cpu/cpu.go, and the MMU, the TLB and the page cache of
-- cpu/memory.
pub mod Address
pub mod Odometer
pub mod Translation
pub mod Tlb
pub mod TlbLaws
pub mod State
pub mod Memory
pub mod Cache
pub mod Buffers
pub mod CacheAccess
pub mod Mmu
pub mod Serving
pub mod Translating
pub mod Wire
pub mod DirectAccess
pub mod Cycle
pub mod Rounds
pub mod Keeping
pub mod KeepingCache
pub mod KeepingWrites
pub mod KeepingMmu
pub mod KeepingCycle
pub mod Endings
pub mod Attached
pub mod EndToEnd
pub mod AttachedSamples
pub mod Marks
pub mod Clock
pub mod Samples
pub mod CycleSamples
