-- ===== src/Jobs/Service/Creation.antt =====
-- What `create_job` has added when it accepts a request.
use recon_ledger.Prelude.{
  ℕ, suc, Bool, true, false, not, List, [], ◌∷◌, ◌++◌, map, filter, if◌then◌else◌, ◌≡◌, refl, ap,
  arith, All, Bool-cases, inl, inr, Text, mem_text,
}
use recon_ledger.Models.Enums.{JobStatus, CollectorStatus}
use recon_ledger.Models.Db.{Job, CollectorRun, Database}
use recon_ledger.Collectors.Registry.{CollectorRegistry}
use recon_ledger.Security.Targets.{ClassifiedTarget, Classified, Unicode, classify_target}
use recon_ledger.Security.Targets
use recon_ledger.Security.Targets.Validity.{IsTarget, IsValid, classify_target-IsValid}
use recon_ledger.Jobs.Service.{
  JobCreateRequest, Created, created, refused, known_names, queued_runs, add_job, add_known,
  add_classified, create_job, new_job,
}

-- a run that waits for this job, of a registered collector
abbrev pub IsWaiting : CollectorRegistry → Job → CollectorRun → Type 0
IsWaiting registry j r =
    (r.job_id ≡ j.id)
    × (r.status ≡ CollectorStatus.queued)
    × (mem_text r.collector (known_names registry) ≡ true)

-- the target that a job is for
abbrev pub IsTargetOf : Unicode → JobCreateRequest → Job → ClassifiedTarget → Type 0
IsTargetOf u request j t =
    (classify_target u false request.target ≡ Targets.ok t)
    × (t.assessable ≡ true)
    × IsTarget u t.target_type t.original_input t.normalized t.assessable
    × (j.target_type ≡ t.target_type)
    × (j.target_normalized ≡ t.normalized)

-- What is promised of a job that was created.
abbrev pub IsCreated : Unicode → JobCreateRequest → CollectorRegistry → Database → Created → Type 0
IsCreated u request registry db (refused e) = Unit
IsCreated u request registry db (created j db') =
    (request.attestation_confirmed ≡ true)
    × (j.status ≡ JobStatus.queued)
    × ((t : ClassifiedTarget) × IsTargetOf u request j t)
    × (db'.jobs ≡ db.jobs ++ j ∷ [])
    × ((rs : List CollectorRun) × (db'.runs ≡ db.runs ++ rs)
        × (map (λ r. r.collector) rs ≡ request.selected_sources)
        × All (IsWaiting registry j) rs)

map-queued_runs :
    (job n : ℕ) (names : List Text) → map (λ r. r.collector) (queued_runs job n names) ≡ names
unfolding queued_runs
map-queued_runs job n [] = refl
map-queued_runs job n (name ∷ names) = ap (λ rest. name ∷ rest) (map-queued_runs job (suc n) names)

filter-known :
    (p : Text → Bool) (names : List Text)
    → filter (λ name. not (p name)) names ≡ []
    → All (λ name. p name ≡ true) names
unfolding filter
filter-known p [] h = tt
filter-known p (name ∷ names) h = elim (Bool-cases (p name)) [
  | inl e ↦ (e, ground (arith, filter-known p names))
  | inr e ↦ absurd (ground arith)
]

module _ (u : Unicode) (now : ℕ) (request : JobCreateRequest) (registry : CollectorRegistry)
    (db : Database) where
  queued_runs-IsWaiting :
      (t : ClassifiedTarget) (n : ℕ) (names : List Text)
      → All (λ name. mem_text name (known_names registry) ≡ true) names
      → All (IsWaiting registry (new_job db.next_id now request t)) (queued_runs db.next_id n names)
  unfolding queued_runs
  queued_runs-IsWaiting t n [] h = tt
  queued_runs-IsWaiting t n (name ∷ names) h =
      ((refl, refl, h.0), queued_runs-IsWaiting t (suc n) names h.1)

  add_known-IsCreated :
      (t : ClassifiedTarget) (unknown : List Text)
      → request.attestation_confirmed ≡ true
      → classify_target u false request.target ≡ Targets.ok t
      → t.assessable ≡ true
      → IsTarget u t.target_type t.original_input t.normalized t.assessable
      → filter (λ name. not (mem_text name (known_names registry))) request.selected_sources
        ≡ unknown
      → IsCreated u request registry db (add_known now request t db unknown)
  unfolding add_known add_job
  add_known-IsCreated t [] confirmed e a valid known = (
    confirmed,
    refl,
    (t, (e, a, valid, refl, refl)),
    refl,
    (
      queued_runs db.next_id (suc db.next_id) request.selected_sources,
      refl,
      map-queued_runs db.next_id (suc db.next_id) request.selected_sources,
      queued_runs-IsWaiting t (suc db.next_id) request.selected_sources (
          filter-known (λ name. mem_text name (known_names registry)) request.selected_sources
            known),
    ),
  )
  add_known-IsCreated t (name ∷ names) confirmed e a valid known = tt

  IsCreated-if :
      (b : Bool) (x y : Created)
      → (b ≡ true → IsCreated u request registry db x)
      → (b ≡ false → IsCreated u request registry db y)
      → IsCreated u request registry db (if b then x else y)
  IsCreated-if true x y h k = h refl
  IsCreated-if false x y h k = k refl

  add_classified-IsCreated :
      (c : Classified)
      → request.attestation_confirmed ≡ true
      → classify_target u false request.target ≡ c
      → IsValid u c
      → IsCreated u request registry db (add_classified now request registry db c)
  unfolding add_classified
  add_classified-IsCreated (Targets.err e) confirmed h valid = tt
  add_classified-IsCreated (Targets.ok t) confirmed h valid =
      IsCreated-if (not t.assessable) _ _ (λ _. tt)
        (λ a. add_known-IsCreated t _ confirmed h (ground arith) valid refl)

  -- A job that `create_job` creates has a confirmed attestation, is queued, and stands for a valid,
  -- assessable target; it is added to the jobs, and with it one queued run for each selected source, in
  -- their order, each of a registered collector.
  pub create_job-IsCreated : IsCreated u request registry db (create_job u now request registry db)
  unfolding create_job
  create_job-IsCreated =
      IsCreated-if (not request.attestation_confirmed) _ _ (λ _. tt)
        (λ c.
          add_classified-IsCreated (classify_target u false request.target) (ground arith) refl
            (classify_target-IsValid u request.target))
