-- ===== src/Models/Db.antt =====
-- The rows of backend/app/models/db.py and the tables that hold them. Identifiers are only compared,
-- so they are numbers: `new_uuid` draws them from a counter, which keeps them distinct, and times are
-- whole clock ticks.
use recon_ledger.Prelude.{ℕ, Bool, Option, List, Text, find, ◌==◌}
use recon_ledger.Models.Enums.{TargetType, JobStatus, CollectorStatus, Category, Confidence}
use recon_ledger.Models.Json.{Json}

pub record Job : Type 0 where
  pub id : ℕ
  pub target_input : Text
  pub target_normalized : Text
  pub target_type : TargetType
  pub status : JobStatus
  pub scope_note : Option Text
  pub attestation_text : Text
  pub attestation_version : Text
  pub attestation_time : ℕ
  pub selected_sources : List Text
  pub created_at : ℕ
  pub started_at : Option ℕ
  pub finished_at : Option ℕ

-- The texts in `safe_error_message`: the format string and its arguments.
pub data Message : Type 0 where
  no_safety_boundary unexpected_internal_error : Message
  not_registered was_cancelled : Text → Message
  does_not_support : Text → Text → Message
  missing_credential : Text → Text → Message
  credential_rejected : Text → Message
  provider_is_unavailable could_not_parse : Text → Text → Message
  exceeded_time_budget : Text → Message
  -- the free text of a `CollectorError` that a collector builds itself
  of_text : Text → Message

pub record CollectorRun : Type 0 where
  pub id : ℕ
  pub job_id : ℕ
  pub collector : Text
  pub status : CollectorStatus
  pub attempt_count : ℕ
  pub cache_hit : Bool
  pub finding_count : ℕ
  pub safe_error_code : Option Text
  pub safe_error_message : Option Message
  pub started_at : Option ℕ
  pub finished_at : Option ℕ

pub record Finding : Type 0 where
  pub id : ℕ
  pub job_id : ℕ
  pub collector : Text
  pub category : Category
  pub kind : Text
  pub title : Text
  pub summary : Text
  pub normalized_value : Json
  pub raw_evidence : Json
  pub source_url : Text
  pub provider_observed_at : Option ℕ
  pub retrieved_at : ℕ
  pub confidence : Option Confidence
  pub fingerprint : Text

pub record CacheEntry : Type 0 where
  pub cache_key : Text
  pub collector : Text
  pub schema_version : Text
  pub credential_scope_hash : Option Text
  pub status : Text
  pub response : Json
  pub normalized_findings : Json
  pub retrieved_at : ℕ
  pub expires_at : ℕ
  pub etag : Option Text
  pub last_modified : Option Text

-- The payloads that the program emits.
pub data Payload : Type 0 where
  empty : Payload
  finished_job : JobStatus → Payload
  finished_collector : CollectorStatus → ℕ → Payload

pub data EventType : Type 0 where
  collector_started collector_finished job_finished : EventType

pub record JobEvent : Type 0 where
  pub id : ℕ
  pub job_id : ℕ
  pub collector : Option Text
  pub event_type : EventType
  pub payload : Payload
  pub created_at : ℕ

pub record Database : Type 0 where
  pub jobs : List Job
  pub runs : List CollectorRun
  pub findings : List Finding
  pub events : List JobEvent
  pub cache : List CacheEntry
  -- the next value of `new_uuid`, and of the autoincrement key of job_events
  pub next_id : ℕ
  pub next_event_id : ℕ

-- `session.get(Job, job_id)`
unfoldable pub get_job : ℕ → Database → Option Job
unfolding find
get_job j db = find (λ r. r.id == j) db.jobs

-- `session.get(CollectorRun, run_id)`
unfoldable pub get_run : ℕ → Database → Option CollectorRun
unfolding find
get_run i db = find (λ r. r.id == i) db.runs
