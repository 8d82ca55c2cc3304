-- ===== src/Jobs/World.antt =====
-- The state that `JobRunner` of backend/app/jobs/runner.py works on, and what it asks of its
-- surroundings.
use recon_ledger.Prelude.{
  ℕ, ◌+◌, Bool, true, false, ◌||◌, Option, none, some, List, [], ◌∷◌, ◌==◌, Text,
}
use recon_ledger.Models.Db.{Job, CollectorRun, CacheEntry, Database}
use recon_ledger.Security.Errors.{GatewayError, Formatting}
use recon_ledger.Collectors.Contract.{CollectedFinding}
use recon_ledger.Collectors.Errors.{CollectorError}
use recon_ledger.Collectors.Registry.{CollectorRegistry}

-- How `await collector.run(context)` ends. The flag is `context.cache_hit`.
pub data Outcome : Type 0 where
  returned : List CollectedFinding → Bool → Outcome
  raised : CollectorError → Bool → Outcome
  gateway_raised : GatewayError → Bool → Outcome
  unexpected : Bool → Outcome

pub record Surroundings : Type 0 where
  -- the readings of `utcnow()`, in the order in which the transactions take them
  pub clock : ℕ → ℕ
  -- `settings.retention_days`
  pub retention : ℕ
  -- whether the connection of a sweep has foreign keys enabled
  pub cascade : Bool
  pub registry : CollectorRegistry
  -- whether `seed_deny_list_for_target` returns
  pub seeds : Job → Bool
  -- what the named collector does for a job, and the cache entries that it leaves
  pub collect : Text → ℕ → Database → Outcome × List CacheEntry
  pub formatting : Formatting
  -- whether the transaction that adds these findings commits
  pub stores : List CollectedFinding → Bool

-- Where a call of `retry_collector` stands that has found its job idle. It has yet to look up the
-- collector's run, or to write to the row that it has loaded.
pub data Stage : Type 0 where
  selecting : Stage
  writing : CollectorRun → Stage

-- Such a call, with the job's row as it was loaded.
pub record Retry : Type 0 where
  pub job_id : ℕ
  pub collector : Text
  pub loaded : Job
  pub stage : Stage

pub record World : Type 0 where
  pub db : Database
  -- `_cancellation_events`: the jobs in flight, and whether their event is set
  pub active : List (ℕ × Bool)
  -- the calls of `retry_collector` that are under way, past their check of `is_active`
  pub retries : List Retry
  -- how many times the clock has been read
  pub ticks : ℕ

-- A transaction that reads the clock once.
unfoldable pub at_now : Surroundings → (ℕ → Database → Database) → World → World
at_now env f w = record w { db = f (env.clock w.ticks) w.db; ticks = w.ticks + 1 }

-- `_cancellation_events.get(job_id)`
unfoldable pub cancellation : ℕ → List (ℕ × Bool) → Option Bool
cancellation j [] = none
cancellation j ((k, b) ∷ rest) = elim (k == j) [ true ↦ some b | false ↦ cancellation j rest ]

-- `_cancellation_events[job_id] = event`, in an event's given state
unfoldable pub put_cancellation : ℕ → Bool → List (ℕ × Bool) → List (ℕ × Bool)
put_cancellation j b [] = (j, b) ∷ []
put_cancellation j b ((k, c) ∷ rest) = elim (k == j) [
  | true ↦ (j, b) ∷ rest
  | false ↦ (k, c) ∷ put_cancellation j b rest
]

-- `_cancellation_events.pop(job_id, None)`
unfoldable pub pop_cancellation : ℕ → List (ℕ × Bool) → List (ℕ × Bool)
pop_cancellation j [] = []
pop_cancellation j ((k, c) ∷ rest) =
    let rest' = pop_cancellation j rest in elim (k == j) [ true ↦ rest' | false ↦ (k, c) ∷ rest' ]

-- `cancellation.is_set()`, for a job whose event is at hand
unfoldable pub is_set : ℕ → List (ℕ × Bool) → Bool
unfolding cancellation
is_set j active = elim (cancellation j active) [ none ↦ false | some b ↦ b ]

-- `job_id in self._cancellation_events`
unfoldable pub in_flight : ℕ → List (ℕ × Bool) → Bool
in_flight j [] = false
in_flight j ((k, b) ∷ rest) = k == j || in_flight j rest

unfoldable pub is_active : ℕ → World → Bool
unfolding in_flight
is_active j w = in_flight j w.active
