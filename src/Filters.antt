-- ===== src/Filters.antt =====
-- lib/filter_plugins: the Jinja2 filters. A text is the list of its code points.
pub mod Escape
pub mod Domain
pub mod Cert
pub mod Hosts
pub mod Format
