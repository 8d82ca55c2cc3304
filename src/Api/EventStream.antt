-- ===== src/Api/EventStream.antt =====
-- `_sse_event_stream` of backend/app/api/jobs.py: the events that one connection sends, by the states of
-- the database that its polls find.
pub mod Delivery
use recon_ledger.Prelude.{
  ℕ, ◌<◌, Bool, true, false, ◌&&◌, ◌||◌, Option, none, some, List, [], ◌∷◌, ◌++◌, filter, any, ltb,
  ◌==◌, if◌then◌else◌, ◌≡◌, refl, arith, All, All-filter, All-filter_self, Bool-cases, inl, inr,
  ◌∙◌,
}
use recon_ledger.Models.Enums.{is_terminal_job}
use recon_ledger.Models.Db.{Job, JobEvent, Database, get_job}

-- `ORDER BY id`
unfoldable pub insert_by_id : JobEvent → List JobEvent → List JobEvent
insert_by_id e [] = e ∷ []
insert_by_id e (x ∷ xs) =
    let rest = insert_by_id e xs in if ltb x.id e.id then x ∷ rest else e ∷ x ∷ xs

unfoldable pub order_by_id : List JobEvent → List JobEvent
unfolding insert_by_id
order_by_id [] = []
order_by_id (e ∷ es) = insert_by_id e (order_by_id es)

unfoldable pub new_events : ℕ → ℕ → Database → List JobEvent
unfolding order_by_id filter
new_events j seen db = order_by_id (filter (λ e. e.job_id == j && ltb seen e.id) db.events)

-- `seen_id` after the loop over the new events
unfoldable pub seen_after : ℕ → List JobEvent → ℕ
seen_after seen [] = seen
seen_after seen (e ∷ es) = seen_after e.id es

-- `job is None or job.status in TERMINAL_JOB_STATUSES`
abbrev pub is_over : Option Job → Bool
is_over none = true
is_over (some job) = is_terminal_job job.status

unfoldable pub sse_event_stream : ℕ → ℕ → List Database → List JobEvent
unfolding new_events seen_after get_job
sse_event_stream j seen [] = []
sse_event_stream j seen (db ∷ polls) =
    let new = new_events j seen db in
    let rest = sse_event_stream j (seen_after seen new) polls in
    new ++ (if is_over (get_job j db) then [] else rest)

-- Each event has a larger number than the one before.
abbrev pub IsAscending : ℕ → List JobEvent → Type 0
IsAscending n [] = Unit
IsAscending n (e ∷ es) = (n < e.id) × IsAscending e.id es

-- The primary key of the table.
abbrev pub HasDistinctIds : List JobEvent → Type 0
HasDistinctIds [] = Unit
HasDistinctIds (e ∷ es) = All (λ x. (x.id == e.id) ≡ false) es × HasDistinctIds es

filter-HasDistinctIds :
    (p : JobEvent → Bool) (es : List JobEvent) → HasDistinctIds es → HasDistinctIds (filter p es)
unfolding filter
filter-HasDistinctIds p [] h = tt
filter-HasDistinctIds p (e ∷ es) h = elim (Bool-cases (p e)) [
  | inl b ↦ rw b (All-filter _ p es h.0, filter-HasDistinctIds p es h.1)
  | inr b ↦ rw b (filter-HasDistinctIds p es h.1)
]

All-insert :
    (P : JobEvent → Type 0) (e : JobEvent) (es : List JobEvent)
    → P e
    → All P es
    → All P (insert_by_id e es)
unfolding insert_by_id
All-insert P e [] h k = (h, tt)
All-insert P e (x ∷ xs) h k = elim (Bool-cases (ltb x.id e.id)) [
  | inl b ↦ rw b (k.0, All-insert P e xs h k.1)
  | inr b ↦ rw b (h, k)
]

All-order : (P : JobEvent → Type 0) (es : List JobEvent) → All P es → All P (order_by_id es)
unfolding order_by_id
All-order P [] h = tt
All-order P (e ∷ es) h = All-insert P e (order_by_id es) h.0 (All-order P es h.1)

insert-IsAscending :
    (n : ℕ) (e : JobEvent) (es : List JobEvent)
    → n < e.id
    → All (λ x. (x.id == e.id) ≡ false) es
    → IsAscending n es
    → IsAscending n (insert_by_id e es)
unfolding insert_by_id
insert-IsAscending n e [] h d k = (h, tt)
insert-IsAscending n e (x ∷ xs) h d k = elim (Bool-cases (ltb x.id e.id)) [
  | inl b ↦ rw b (k.0, insert-IsAscending x.id e xs (ground arith) d.1 k.1)
  | inr b ↦ let apart = d.0 in rw b (h, (ground arith, k.1))
]

order-IsAscending :
    (n : ℕ) (es : List JobEvent)
    → All (λ e. ltb n e.id ≡ true) es
    → HasDistinctIds es
    → IsAscending n (order_by_id es)
unfolding order_by_id
order-IsAscending n [] h d = tt
order-IsAscending n (e ∷ es) h d =
    let above = h.0 in
    insert-IsAscending n e (order_by_id es) (ground arith) (All-order _ es d.0)
      (order-IsAscending n es h.1 d.1)

new_events-IsAscending :
    (j seen : ℕ) (db : Database)
    → HasDistinctIds db.events
    → IsAscending seen (new_events j seen db)
unfolding new_events
new_events-IsAscending j seen db d =
    let p = λ (e : JobEvent). e.job_id == j && ltb seen e.id in
    order-IsAscending seen (filter p db.events)
      (All-filter_self _ p db.events (λ e h. ground arith)) (filter-HasDistinctIds p db.events d)

append-IsAscending :
    (n : ℕ) (xs ys : List JobEvent)
    → IsAscending n xs
    → IsAscending (seen_after n xs) ys
    → IsAscending n (xs ++ ys)
unfolding seen_after
append-IsAscending n [] ys h k = k
append-IsAscending n (x ∷ xs) ys h k = (h.0, append-IsAscending x.id xs ys h.1 k)

IsAscending-if :
    (n : ℕ) (b : Bool) (es : List JobEvent)
    → IsAscending n es
    → IsAscending n (if b then [] else es)
IsAscending-if n true es h = tt
IsAscending-if n false es h = h

-- Whatever the polls find, if no two events have one key: a connection sends events with ever larger
-- numbers, all larger than the client's last one, so it sends none twice and none again.
pub sse_event_stream-IsAscending :
    (j seen : ℕ) (polls : List Database)
    → All (λ db. HasDistinctIds db.events) polls
    → IsAscending seen (sse_event_stream j seen polls)
unfolding sse_event_stream
sse_event_stream-IsAscending j seen [] h = tt
sse_event_stream-IsAscending j seen (db ∷ polls) h =
    let new = new_events j seen db in
    append-IsAscending seen new _ (new_events-IsAscending j seen db h.0) (
      IsAscending-if (seen_after seen new) (is_over (get_job j db)) _
        (sse_event_stream-IsAscending j (seen_after seen new) polls h.1))
