-- ===== src/Examples.antt =====
-- Concrete inputs for the theorems, and tests of the definitions.
pub mod Gateway
pub mod Jobs
pub mod Services
pub mod Api
pub mod Collectors
pub mod Rdap
pub mod Seeding
pub mod CommonCrawl
