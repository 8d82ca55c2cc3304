-- ===== src/Jobs/Queue/Claims.antt =====
-- `claim_next_queued_job` of backend/app/jobs/runner.py: which job is claimed, and what that leaves.
use recon_ledger.Prelude.{
  Bool, leb, not, ◌||◌, ℕ, ◌≤◌, true, false, ◌&&◌, Option, none, some, List, [], ◌∷◌, length,
  filter, find, update_where, any, ltb, ◌==◌, if◌then◌else◌, ◌≡◌, ◌≢◌, refl, arith, All, All-imp,
  Bool-cases, inl, inr, Option-cases, sym,
}
use recon_ledger.Models.Enums.{is_queued}
use recon_ledger.Models.Db.{Job, Database, get_job}
use recon_ledger.Jobs.Queue.{earliest_queued, start_job, claim, claim_next_queued_job}

-- The primary key of the table.
abbrev pub HasDistinctIds : List Job → Type 0
HasDistinctIds [] = Unit
HasDistinctIds (j ∷ js) = All (λ k. (k.id == j.id) ≡ false) js × HasDistinctIds js

All-earliest :
    (P : Job → Type 0) (js : List Job) (k : Job) → All P js → earliest_queued js ≡ some k → P k
unfolding earliest_queued
All-earliest P [] k h e = absurd (cc)
All-earliest P (j ∷ js) k h e = ground (arith, All-earliest P js k h.1)

earliest-is_queued :
    (js : List Job) (k : Job) → earliest_queued js ≡ some k → is_queued k.status ≡ true
unfolding earliest_queued
earliest-is_queued [] k e = absurd (cc)
earliest-is_queued (j ∷ js) k e = ground (arith, earliest-is_queued js k)

earliest-none :
    (js : List Job) → any (λ j. is_queued j.status) js ≡ true → earliest_queued js ≢ none
unfolding earliest_queued any
earliest-none [] h e = absurd (cc)
earliest-none (j ∷ js) h e = ground (arith, earliest-none js)

-- The row that is found by its key.
find-earliest :
    (js : List Job) (k : Job)
    → HasDistinctIds js
    → earliest_queued js ≡ some k
    → find (λ j. j.id == k.id) js ≡ some k
unfolding earliest_queued find
find-earliest [] k d e = absurd (cc)
find-earliest (j ∷ js) k d e =
    ground (arith, find-earliest js k d.1, All-earliest (λ i. (i.id == j.id) ≡ false) js k d.0)

-- Distinct keys: of the others none passes the UPDATE's test.
filter-none :
    (i : ℕ) (js : List Job)
    → All (λ k. (k.id == i) ≡ false) js
    → length (filter (λ k. k.id == i && is_queued k.status) js) ≡ 0
unfolding filter
filter-none i [] h = refl
filter-none i (j ∷ js) h = ground (arith, filter-none i js h.1)

filter-found :
    (js : List Job) (k : Job)
    → HasDistinctIds js
    → find (λ j. j.id == k.id) js ≡ some k
    → is_queued k.status ≡ true
    → length (filter (λ j. j.id == k.id && is_queued j.status) js) ≡ 1
unfolding find filter
filter-found [] k d e q = absurd (cc)
filter-found (j ∷ js) k d e q = elim (Bool-cases (j.id == k.id)) [
  | inl h ↦
      let others =
        All-imp {P = λ i. (i.id == j.id) ≡ false} {Q = λ i. (i.id == k.id) ≡ false}
          (λ i g. ground arith) js d.0 in
      ground (arith, filter-none k.id js others)
  | inr h ↦ ground (arith, filter-found js k d.1)
]

find-started :
    (now i : ℕ) (js : List Job) (k : Job)
    → find (λ j. j.id == i) js ≡ some k
    → is_queued k.status ≡ true
    → find (λ j. j.id == i) (update_where (λ j. j.id == i && is_queued j.status) (start_job now) js)
      ≡ some (start_job now k)
unfolding find update_where
find-started now i [] k e q = absurd (cc)
find-started now i (j ∷ js) k e q = ground (arith, find-started now i js k)

-- What the search over some rows says of one of them.
abbrev pub IsLeast : Option Job → Job → Type 0
IsLeast none i = is_queued i.status ≡ false
IsLeast (some k) i = is_queued i.status ≡ true → k.created_at ≤ i.created_at

abbrev step : Job → Option Job → Option Job
step j o =
    if is_queued j.status
    then elim o [
      | none ↦ some j
      | some k ↦ if ltb k.created_at j.created_at then some k else some j
    ]
    else o

IsLeast-step : (j i : Job) (o : Option Job) → IsLeast o i → IsLeast (step j o) i
IsLeast-step j i none h = elim (Bool-cases (is_queued j.status)) [
  | inl e ↦ rw e (λ q. absurd (cc))
  | inr e ↦ rw e h
]
IsLeast-step j i (some k) h = elim (Bool-cases (is_queued j.status)) [
  | inl e ↦ elim (Bool-cases (ltb k.created_at j.created_at)) [
    | inl l ↦ rw (e, l) h
    | inr l ↦ rw (e, l) (λ q. ground (arith, h q))
  ]
  | inr e ↦ rw e h
]

IsLeast-step_head : (j : Job) (o : Option Job) → IsLeast (step j o) j
IsLeast-step_head j none = elim (Bool-cases (is_queued j.status)) [
  | inl e ↦ rw e (λ q. omega arith)
  | inr e ↦ rw e e
]
IsLeast-step_head j (some k) = elim (Bool-cases (is_queued j.status)) [
  | inl e ↦ elim (Bool-cases (ltb k.created_at j.created_at)) [
    | inl l ↦ rw (e, l) (λ q. ground arith)
    | inr l ↦ rw (e, l) (λ q. omega arith)
  ]
  | inr e ↦ rw e (λ q. absurd (cc))
]

earliest-IsLeast : (js : List Job) → All (IsLeast (earliest_queued js)) js
unfolding earliest_queued
earliest-IsLeast [] = tt
earliest-IsLeast (j ∷ js) = (
  IsLeast-step_head j (earliest_queued js),
  All-imp (λ i. IsLeast-step j i (earliest_queued js)) js (earliest-IsLeast js),
)

-- `i` does not wait, or was not created before `k`.
abbrev pub is_no_earlier : Job → Job → Bool
is_no_earlier k i = not (is_queued i.status) || leb k.created_at i.created_at

is_no_earlier-IsLeast : (k i : Job) → IsLeast (some k) i → is_no_earlier k i ≡ true
is_no_earlier-IsLeast k i h = elim (Bool-cases (is_queued i.status)) [
  | inl e ↦ let le = h e in ground arith
  | inr e ↦ ground arith
]

-- What claiming promises when `k` is the earliest queued job.
abbrev pub IsClaimed : ℕ → Database → Job → Type 0
IsClaimed now db k =
    let r = claim_next_queued_job now db in
    (is_queued k.status ≡ true)
    × All (λ i. is_no_earlier k i ≡ true) db.jobs
    × (r.0 ≡ some k.id)
    × (get_job k.id r.1 ≡ some (start_job now k))

claim-found :
    (now : ℕ) (db : Database) (k : Job)
    → HasDistinctIds db.jobs
    → find (λ j. j.id == k.id) db.jobs ≡ some k
    → is_queued k.status ≡ true
    → ((claim now k.id db).0 ≡ some k.id)
      × (get_job k.id (claim now k.id db).1 ≡ some (start_job now k))
unfolding claim get_job
claim-found now db k d e q =
    (rw (filter-found db.jobs k d e q) refl, find-started now k.id db.jobs k e q)

claim_next-claim :
    (now : ℕ) (db : Database) (k : Job)
    → earliest_queued db.jobs ≡ some k
    → claim_next_queued_job now db ≡ claim now k.id db
unfolding claim_next_queued_job
claim_next-claim now db k e = rw (claim_next_queued_job, e) refl

-- When a job is queued, and no two jobs have one key, `claim_next_queued_job` claims a queued job that
-- was created no later than any other queued one, and leaves it running, started now.
pub claim_next-IsClaimed :
    (now : ℕ) (db : Database)
    → HasDistinctIds db.jobs
    → any (λ j. is_queued j.status) db.jobs ≡ true
    → (k : Job) × IsClaimed now db k
claim_next-IsClaimed now db d h = elim (Option-cases (earliest_queued db.jobs)) [
  | inl e ↦ absurd (earliest-none db.jobs h e)
  | inr (k, e) ↦
      let q = earliest-is_queued db.jobs k e in
      let least : All (IsLeast (some k)) db.jobs = rw (sym e) (earliest-IsLeast db.jobs) in
      let c = claim-found now db k d (find-earliest db.jobs k d e) q in
      let same = claim_next-claim now db k e in
      (k, (q, All-imp (is_no_earlier-IsLeast k) db.jobs least, rw same c.0, rw same c.1))
]
