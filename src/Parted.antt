-- ===== src/Parted.antt =====
-- lib/modules/parted.py. A text is the list of its code points.
pub mod Failures
pub mod Units
pub mod Info
pub mod Machine
pub mod Run
