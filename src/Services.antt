-- ===== src/Services.antt =====
-- backend/app/services
pub mod Retention
pub mod Diff
pub mod Cache
pub mod Search
pub mod CsvExport
pub mod Subdomains
