-- ===== src/Ipa.antt =====
-- lib/python/ipa.py and the modules built on it.
pub mod Values
pub mod Client
pub mod Clean
pub mod Diff
pub mod Session
pub mod Hooks
pub mod Texts
pub mod Ensure
pub mod Enablable
pub mod Classes
