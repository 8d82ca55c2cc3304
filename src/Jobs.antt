-- ===== src/Jobs.antt =====
-- backend/app/jobs: the queue of jobs, their dispatch, and what a crash leaves.
pub mod Status
pub mod Service
pub mod WorkerLock
pub mod Events
pub mod World
pub mod Queue
pub mod Tasks
pub mod Dispatch
pub mod Startup
