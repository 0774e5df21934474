-- ===== src/Sync.antt =====
-- The two classes that the threads wait on: JPGuard of src/common/JPGuard.cpp and Notifier of
-- src/common/Notifier.hpp. Each operation runs under its mutex and is one step; a wait is the test
-- of its predicate, which a thread repeats until it holds.
pub mod Guard
pub mod Notifier
mod Tests
