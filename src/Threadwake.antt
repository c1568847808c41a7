-- ===== src/Threadwake.antt =====
-- whooshd/runtime/threadwake: the reuse of a prompt's cached state between requests.
pub mod Index
pub mod Operations
pub mod Order
pub mod Eviction
pub mod Calls
pub mod Soundness
pub mod Reads
pub mod Tips
pub mod Stores
pub mod KvLifecycle
pub mod Reuse
pub mod Fallback
pub mod Rehits
pub mod Policy
pub mod Metadata
pub mod Graph
