-- ===== src/Util.antt =====
-- switchflow/util: the buffer of a connection, the queue between threads, and what keeps objects
-- that are allocated beforehand.
pub mod Buffer
pub mod Queue
pub mod PooledList
pub mod MemoryManager
