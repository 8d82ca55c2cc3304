-- ===== src/Jobs/Events.antt =====
-- backend/app/jobs/events.py: a row in job_events, with the next autoincrement id.
use recon_ledger.Prelude.{ℕ, ◌+◌, Option, [], ◌∷◌, ◌++◌, Text}
use recon_ledger.Models.Db.{EventType, Payload, Database}

unfoldable pub emit : ℕ → ℕ → Option Text → EventType → Payload → Database → Database
emit now job_id collector event_type payload db = record db {
  events =
      db.events
      ++ record {
        id = db.next_event_id;
        job_id = job_id;
        collector = collector;
        event_type = event_type;
        payload = payload;
        created_at = now;
      }
        ∷ [];
  next_event_id = db.next_event_id + 1;
}
