-- ===== src/Api.antt =====
-- backend/app/api: the handlers that change the state of the jobs, those that read it, and the event stream.
pub mod Jobs
pub mod JobReads
pub mod Catalog
pub mod EventStream
