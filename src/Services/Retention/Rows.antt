-- ===== src/Services/Retention/Rows.antt =====
-- What the retention sweep leaves of the rows that hang on a job.
use recon_ledger.Prelude.{
  ℕ, ◌-◌, ◌≤◌, ◌<◌, ltb, Option, none, some, Bool, true, false, ◌&&◌, List, [], ◌∷◌, filter, find,
  delete_where, any, ◌==◌, ◌≡◌, refl, ap, ==_iff, arith, All, Bool-cases, inl, inr,
}
use recon_ledger.Models.Enums.{JobStatus, is_terminal_job}
use recon_ledger.Models.Db.{Job, CollectorRun, Finding, JobEvent, Database, get_job}
use recon_ledger.Services.Retention.{belongs_to_any, delete_jobs, is_expired_job, sweep}

-- A job that no DELETE names keeps its row ...
get_job-delete :
    (p : Job → Bool) (j : ℕ) (jobs : List Job)
    → belongs_to_any (filter p jobs) j ≡ false
    → find (λ k. k.id == j) (delete_where p jobs) ≡ find (λ k. k.id == j) jobs
unfolding find delete_where filter belongs_to_any any
get_job-delete p j [] h = refl
get_job-delete p j (k ∷ jobs) h = elim (Bool-cases (p k)) [
  | inl e ↦ ground (arith, get_job-delete p j jobs)
  | inr e ↦ ground (arith, get_job-delete p j jobs)
]

-- ... and all that hangs on it.
rows-kept :
    {A : Type 0} (owner : A → ℕ) (gone : ℕ → Bool) (j : ℕ) (xs : List A)
    → gone j ≡ false
    → filter (λ x. owner x == j) (delete_where (λ x. gone (owner x)) xs)
      ≡ filter (λ x. owner x == j) xs
unfolding filter delete_where
rows-kept owner gone j [] h = refl
rows-kept owner gone j (x ∷ xs) h = elim (Bool-cases (owner x == j)) [
  | inl e ↦
      let same : gone (owner x) ≡ gone j = ap gone ((==_iff (owner x) j).0 e) in
      ground (arith, rows-kept owner gone j xs)
  | inr e ↦ elim (Bool-cases (gone (owner x))) [
    | inl g ↦ ground (arith, rows-kept owner gone j xs)
    | inr g ↦ ground (arith, rows-kept owner gone j xs)
  ]
]

-- A job that is not to go keeps its row and all rows that hang on it.
abbrev pub IsKept : ℕ → Database → Database → Type 0
IsKept j db db' =
    (get_job j db' ≡ get_job j db)
    × (filter (λ r. r.job_id == j) db'.runs ≡ filter (λ r. r.job_id == j) db.runs)
    × (filter (λ f. f.job_id == j) db'.findings ≡ filter (λ f. f.job_id == j) db.findings)
    × (filter (λ e. e.job_id == j) db'.events ≡ filter (λ e. e.job_id == j) db.events)

-- The job is queued or running, or has ended at the cutoff or later, or has no finish time.
abbrev EndedSince : ℕ → Option ℕ → Type 0
EndedSince cutoff none = Unit
EndedSince cutoff (some t) = cutoff ≤ t

abbrev MayStay : ℕ → JobStatus → Option ℕ → Type 0
MayStay cutoff JobStatus.queued finished = Unit
MayStay cutoff JobStatus.running finished = Unit
MayStay cutoff _ finished = EndedSince cutoff finished

-- The job is neither queued nor running, and it has ended before the cutoff.
abbrev EndedBefore : ℕ → Option ℕ → Type 0
EndedBefore cutoff none = true ≡ false
EndedBefore cutoff (some t) = t < cutoff

abbrev MustGo : ℕ → JobStatus → Option ℕ → Type 0
MustGo cutoff JobStatus.queued finished = true ≡ false
MustGo cutoff JobStatus.running finished = true ≡ false
MustGo cutoff _ finished = EndedBefore cutoff finished

-- What holds of each job with this key.
abbrev AllWithKey : ℕ → (JobStatus → Option ℕ → Type 0) → List Job → Type 0
AllWithKey j P = All (λ k. (k.id == j) ≡ true → P k.status k.finished_at)

is_old : ℕ → Option ℕ → Bool
is_old cutoff o = elim o [ none ↦ false | some t ↦ ltb t cutoff ]

EndedSince-is_old : (c : ℕ) (o : Option ℕ) → EndedSince c o → is_old c o ≡ false
unfolding is_old
EndedSince-is_old c none h = refl
EndedSince-is_old c (some t) h = ground arith

EndedBefore-is_old : (c : ℕ) (o : Option ℕ) → EndedBefore c o → is_old c o ≡ true
unfolding is_old
EndedBefore-is_old c none h = absurd (cc)
EndedBefore-is_old c (some t) h = ground arith

MayStay-expired :
    (c : ℕ) (s : JobStatus) (o : Option ℕ)
    → MayStay c s o
    → (is_terminal_job s && is_old c o) ≡ false
MayStay-expired c JobStatus.queued o h = refl
MayStay-expired c JobStatus.running o h = refl
MayStay-expired c JobStatus.completed o h = EndedSince-is_old c o h
MayStay-expired c JobStatus.completed_with_warnings o h = EndedSince-is_old c o h
MayStay-expired c JobStatus.failed o h = EndedSince-is_old c o h
MayStay-expired c JobStatus.canceled o h = EndedSince-is_old c o h

MustGo-expired :
    (c : ℕ) (s : JobStatus) (o : Option ℕ) → MustGo c s o → (is_terminal_job s && is_old c o) ≡ true
MustGo-expired c JobStatus.queued o h = absurd (cc)
MustGo-expired c JobStatus.running o h = absurd (cc)
MustGo-expired c JobStatus.completed o h = EndedBefore-is_old c o h
MustGo-expired c JobStatus.completed_with_warnings o h = EndedBefore-is_old c o h
MustGo-expired c JobStatus.failed o h = EndedBefore-is_old c o h
MustGo-expired c JobStatus.canceled o h = EndedBefore-is_old c o h

none_expired :
    (c j : ℕ) (jobs : List Job)
    → AllWithKey j (MayStay c) jobs
    → belongs_to_any (filter (is_expired_job c) jobs) j ≡ false
unfolding belongs_to_any filter any is_expired_job is_old
none_expired c j [] h = refl
none_expired c j (k ∷ jobs) h = elim (Bool-cases (k.id == j)) [
  | inl e ↦
      let stays : (is_terminal_job k.status && is_old c k.finished_at) ≡ false =
        MayStay-expired c k.status k.finished_at (h.0 e) in
      rw stays (none_expired c j jobs h.1)
  | inr e ↦ elim (Bool-cases (is_expired_job c k)) [
    | inl g ↦ ground (arith, none_expired c j jobs h.1)
    | inr g ↦ ground (arith, none_expired c j jobs h.1)
  ]
]

get_job-expired :
    (c j : ℕ) (jobs : List Job)
    → AllWithKey j (MustGo c) jobs
    → find (λ k. k.id == j) (delete_where (is_expired_job c) jobs) ≡ none
unfolding find delete_where filter is_expired_job is_old
get_job-expired c j [] h = refl
get_job-expired c j (k ∷ jobs) h = elim (Bool-cases (k.id == j)) [
  | inl e ↦
      let goes : (is_terminal_job k.status && is_old c k.finished_at) ≡ true =
        MustGo-expired c k.status k.finished_at (h.0 e) in
      rw goes (get_job-expired c j jobs h.1)
  | inr e ↦ elim (Bool-cases (is_expired_job c k)) [
    | inl g ↦ ground (arith, get_job-expired c j jobs h.1)
    | inr g ↦ ground (arith, get_job-expired c j jobs h.1)
  ]
]

-- What the sweep decides on the jobs with a key.
abbrev pub IsSwept : ℕ → ℕ → Database → Database → Type 0
IsSwept cutoff j db db' =
    (AllWithKey j (MayStay cutoff) db.jobs → IsKept j db db')
    × (AllWithKey j (MustGo cutoff) db.jobs → get_job j db' ≡ none)

-- A job that is queued or running, or that has not ended before the start of the retention time, keeps its
-- row, its collector runs, its findings and its events, whether foreign keys are enabled or not. A job
-- that has ended before is gone.
pub sweep-IsSwept :
    (cascade : Bool) (retention now j : ℕ) (db : Database)
    → IsSwept (now - retention) j db (sweep cascade retention now db)
unfolding sweep delete_jobs get_job
sweep-IsSwept cascade retention now j db =
    let p = is_expired_job (now - retention) in
    let gone = λ (k : ℕ). cascade && belongs_to_any (filter p db.jobs) k in
    (
      λ h.
          let idle : belongs_to_any (filter p db.jobs) j ≡ false =
            none_expired (now - retention) j db.jobs h in
          let stays : gone j ≡ false = ground arith in
          (
            get_job-delete p j db.jobs idle,
            rows-kept (λ (r : CollectorRun). r.job_id) gone j db.runs stays,
            rows-kept (λ (f : Finding). f.job_id) gone j db.findings stays,
            rows-kept (λ (e : JobEvent). e.job_id) gone j db.events stays,
          ),
      λ h. get_job-expired (now - retention) j db.jobs h,
    )
