-- ===== src/Memoria.antt =====
-- The memory program: memoria/storage/storage.go, behind the handlers of memoria/memoria.go.
pub mod State
pub mod Frames
pub mod Scan
pub mod Ownership
pub mod Malloc
pub mod Process
pub mod Access
pub mod Address
pub mod Invariant
pub mod Allocation
pub mod Deallocation
pub mod Lifecycle
pub mod Removal
pub mod Deletion
pub mod Lookup
pub mod Isolation
pub mod PageIo
pub mod Dump
pub mod Swap
pub mod SwapFile
pub mod SwapPages
pub mod Touched
pub mod Reads
pub mod PageReads
pub mod Writes
pub mod PageRuns
pub mod SwapOut
pub mod SwapIn
pub mod Regained
pub mod Unsuspension
pub mod SwapRoundTrip
pub mod SwapTwice
pub mod Requests
pub mod Handlers
pub mod SwapRequests
pub mod Samples
pub mod SwapSamples
