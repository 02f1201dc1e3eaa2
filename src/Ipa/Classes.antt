-- ===== src/Ipa/Classes.antt =====
-- The modules for single kinds of object: lib/modules/ipa_*.py.
pub mod Zone
pub mod Record
pub mod Ca
pub mod Group
pub mod Words
pub mod Queueing
pub mod Caacl
pub mod Service
pub mod User
pub mod Cert
pub mod Quiet
pub mod Modules
