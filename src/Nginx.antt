-- ===== src/Nginx.antt =====
-- The web server's files that the orchestrator changes: internal/nginx.
pub mod MainConf
