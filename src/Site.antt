-- ===== src/Site.antt =====
-- backend/internal/site: what names a site, its branches and its files.
pub mod Handle
pub mod Naming
pub mod Paths
