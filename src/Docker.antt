-- ===== src/Docker.antt =====
-- lib/modules/docker_network.py: the networks of a Docker daemon.
pub mod Config
pub mod Manager
