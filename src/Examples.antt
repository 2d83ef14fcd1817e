-- ===== src/Examples.antt =====
-- Small kernel states, the theorems at them, and runs of the code.
pub mod Boot
pub mod Creation
pub mod Heap
pub mod Mailboxes
pub mod Monitors
pub mod Pools
pub mod Queues
pub mod Routes
pub mod Sections
pub mod Texts
pub mod Threads
