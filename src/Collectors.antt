-- ===== src/Collectors.antt =====
-- backend/app/collectors: the plug-in contract, its errors, its registry and the collectors.
pub mod Contract
pub mod Context
pub mod Caching
pub mod Errors
pub mod Registry
pub mod ArchiveUrls
pub mod Wayback
pub mod CommonCrawl
pub mod Crtsh
pub mod Metadata
pub mod Ripestat
pub mod DnsDoh
pub mod Rdap
pub mod Technology
