-- ===== src/Tests.antt =====
-- The theorems at concrete tasks, servers and daemons.
pub mod Changes
pub mod Runs
pub mod Modules
pub mod Networks
pub mod Plugins
pub mod Disks
pub mod Keys
pub mod Cloud
