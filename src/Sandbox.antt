-- ===== src/Sandbox.antt =====
-- The sandbox of the process on Linux: sec/landlock and fs/os/rlimit.c.
pub mod Text
pub mod Paths
pub mod Access
pub mod Landlock
pub mod Limits
pub mod Apply
pub mod Matrix
pub mod Legacy
mod Tests
