-- ===== src/Store/Locking.antt =====
-- `write_lock` of src/store.rs. A writing operation is a program of statements; the lock is taken
-- before the first and dropped after the last. Other tasks run between any two statements.
pub mod Programs
pub mod Machine
pub mod Statements
pub mod Serial
pub mod Reads
pub mod Progress
