-- ===== src/Examples/Api.antt =====
-- The event stream and the worker lock on concrete inputs.
use recon_ledger.Prelude.{
  ◌*◌, ◌≤◌, ℕ, true, false, none, some, List, [], ◌∷◌, any, ◌==◌, ◌≡◌, refl, arith, codes,
}
use recon_ledger.Models.Enums.{JobStatus}
use recon_ledger.Models.Db.{JobEvent, Database, EventType, Payload, get_job}
use recon_ledger.Api.EventStream.{
  is_over, sse_event_stream, IsAscending, sse_event_stream-IsAscending,
}
use recon_ledger.Api.EventStream.Delivery.{has_event, IsUpTo, sse_event_stream-any}
use recon_ledger.Jobs.WorkerLock.{
  Locked, Kill, delivered, holder, ok, already_running, acquire, acquire-acquire,
}
use recon_ledger.Security.RateLimiter.{grants, serve, new_limiter, grants-bound}
use recon_ledger.Collectors.ArchiveUrls.{Urls}
use recon_ledger.Examples.Jobs.{job}

abbrev event : ℕ → JobEvent
event i = record {
  id = i;
  job_id = 1;
  collector = none;
  event_type = EventType.collector_started;
  payload = Payload.empty;
  created_at = 0;
}

abbrev found : List JobEvent → Database
found events = record {
  jobs = job 1 JobStatus.running 10 ∷ [];
  runs = [];
  findings = [];
  events = events;
  cache = [];
  next_id = 100;
  next_event_id = 10;
}

abbrev first_poll : Database
first_poll = found (event 2 ∷ event 1 ∷ [])

abbrev second_poll : Database
second_poll = found (event 2 ∷ event 1 ∷ event 3 ∷ [])

sse_event_stream-IsAscending_example :
    IsAscending 1 (sse_event_stream 1 1 (first_poll ∷ second_poll ∷ []))
sse_event_stream-IsAscending_example =
    sse_event_stream-IsAscending 1 1 (first_poll ∷ second_poll ∷ [])
      (((refl, tt), (tt, tt)), (((refl, (refl, tt)), ((refl, tt), (tt, tt))), tt))

still_running : is_over (get_job 1 first_poll) ≡ false
unfolding get_job
still_running = refl

in_order : IsUpTo 1 second_poll first_poll
unfolding any
in_order i m h k l = ground arith

third_is_there : has_event 1 3 second_poll ≡ true
unfolding any
third_is_there = refl

sse_event_stream-any_example :
    any (λ x. x.id == 3) (sse_event_stream 1 1 (first_poll ∷ second_poll ∷ [])) ≡ true
sse_event_stream-any_example =
    sse_event_stream-any 3 1 1 (first_poll ∷ []) second_poll [] (still_running, tt) (in_order, tt)
      third_is_there (omega arith)

-- Every process answers.
abbrev kill : ℕ → Kill
kill p = delivered

abbrev free : Locked
free = record { file = none; acquired = false }

abbrev held : Locked
held = record { file = some (holder 7); acquired = true }

-- what the second process sees
abbrev taken : Locked
taken = record { file = some (holder 7); acquired = false }

got : acquire 7 kill false free ≡ ok held
unfolding acquire
got = refl

acquire-acquire_example : acquire 8 kill false taken ≡ already_running 7
acquire-acquire_example = acquire-acquire 7 8 kill kill free taken held (omega arith) got refl refl

-- 2 requests per 3 ticks, a burst of one
grants-bound_example : grants (5 ∷ 6 ∷ 9 ∷ []) (serve (1 ∷ 4 ∷ []) (new_limiter 2 3 1 0)) * 3 ≤ 13
grants-bound_example =
    grants-bound 2 3 1 0 (1 ∷ 4 ∷ []) (5 ∷ 6 ∷ 9 ∷ [])
      (omega arith, (omega arith, (omega arith, tt)))

-- every URL is on one host
abbrev pub urls : Urls
urls = record {
  urlsplit = λ t.
      some (record { scheme = codes "https"; netloc = codes "www.a.com"; path = []; query = [] });
  urlunsplit = λ p. p.netloc;
  lower = λ t. t;
  isalnum = λ t. true;
}
