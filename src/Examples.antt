-- ===== src/Examples.antt =====
-- The theorems at concrete states, and tests of the definitions.
mod Setup
mod Queues
mod Scheduling
mod Texts
mod Sync
mod Tasks
mod Kernels
mod Numbers
mod Disks
mod Packets
mod Heaps
mod Systems
mod Sockets
