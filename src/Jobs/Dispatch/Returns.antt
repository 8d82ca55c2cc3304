-- ===== src/Jobs/Dispatch/Returns.antt =====
-- `run_job` returns.
use recon_ledger.Prelude.{
  ℕ, zero, suc, Bool, true, false, ◌&&◌, not, Option, none, some, List, [], ◌∷◌, filter, any, ◌==◌,
  if◌then◌else◌, ◌≡◌, refl, arith, All, All-imp, All-filter, All-map, All-append, All-append_split,
  ◌++◌, Bool-cases, inl, inr,
}
use recon_ledger.Models.Enums.{TargetType, is_pending}
use recon_ledger.Models.Db.{Job, CollectorRun, get_job}
use recon_ledger.Collectors.Contract.{CollectedFinding}
use recon_ledger.Jobs.World.{Surroundings, World, put_cancellation}
use recon_ledger.Jobs.Tasks.{Task, waiting, advance}
use recon_ledger.Jobs.Dispatch.{
  Turn, task, request, is_crashed, is_deferred, tasks_of, pending_tasks, turn_at, run_schedule,
  complete_task, complete, gather, Ran, returned, raised, dispatch, run_found, run_job,
}
use recon_ledger.Jobs.Dispatch.Alive.{
  is_present, is_present_self, IsAlive, advance-IsAlive, advance-others,
}

-- a turn of a coroutine
abbrev pub is_task : Turn → Bool
is_task (task i) = true
is_task (request q) = false

any-is_crashed :
    (ts : List Task)
    → All (λ t. is_crashed t.phase ≡ false) ts
    → any (λ t. is_crashed t.phase) ts ≡ false
unfolding any
any-is_crashed [] h = refl
any-is_crashed (t ∷ ts) h = ground (arith, any-is_crashed ts h.1)

module _ (env : Surroundings) (j : ℕ) (target : TargetType)
    (takes : (fs : List CollectedFinding) → env.stores fs ≡ true) where
  -- the same of several turns
  All-advance :
      (t : Task) (ts : List Task) (w : World)
      → All (IsAlive w) ts
      → All (IsAlive (advance env j target t w).1) ts
  All-advance t ts w h = All-imp (λ u. advance-others env j target t u w) ts h

  complete_task-IsAlive :
      (t : Task) (us : List Task) (w : World)
      → IsAlive w t
      → All (IsAlive w) us
      → IsAlive (complete_task env j target t w).1 (complete_task env j target t w).0
        × All (IsAlive (complete_task env j target t w).1) us
  unfolding complete_task
  complete_task-IsAlive t us w h k =
      let r1 = advance env j target t w in
      let r2 = advance env j target r1.0 r1.1 in
      let r3 = advance env j target r2.0 r2.1 in
      let r4 = advance env j target r3.0 r3.1 in
      let h1 = advance-IsAlive env j target t w takes h in
      let h2 = advance-IsAlive env j target r1.0 r1.1 takes h1 in
      let h3 = advance-IsAlive env j target r2.0 r2.1 takes h2 in
      let h4 = advance-IsAlive env j target r3.0 r3.1 takes h3 in
      let k3 = All-advance r2.0 us r2.1 (All-advance r1.0 us r1.1 (All-advance t us w k)) in
      (
        advance-IsAlive env j target r4.0 r4.1 takes h4,
        All-advance r4.0 us r4.1 (All-advance r3.0 us r3.1 k3),
      )

  -- what is left of the coroutines after some of them, and after all
  complete-IsAlive :
      (ts us : List Task) (w : World)
      → All (IsAlive w) ts
      → All (IsAlive w) us
      → All (λ t. is_crashed t.phase ≡ false) (complete env j target ts w).0
        × All (IsAlive (complete env j target ts w).1) us
  unfolding complete
  complete-IsAlive [] us w h k = (tt, k)
  complete-IsAlive (t ∷ ts) us w h k =
      let c = complete_task-IsAlive t (ts ++ us) w h.0 (All-append _ ts us h.1 k) in
      let both = All-append_split _ ts us c.1 in
      let rest = complete-IsAlive ts us (complete_task env j target t w).1 both.0 both.1 in
      rw c.0.1 ((c.0.1, rest.0), rest.1)

  turn_at-IsAlive :
      (i : ℕ) (ts us : List Task) (w : World)
      → All (IsAlive w) ts
      → All (IsAlive w) us
      → All (IsAlive (turn_at env j target i ts w).1) (turn_at env j target i ts w).0
        × All (IsAlive (turn_at env j target i ts w).1) us
  unfolding turn_at
  turn_at-IsAlive i [] us w h k = (tt, k)
  turn_at-IsAlive zero (t ∷ ts) us w h k =
      ((advance-IsAlive env j target t w takes h.0, All-advance t ts w h.1), All-advance t us w k)
  turn_at-IsAlive (suc i) (t ∷ ts) us w h k =
      let r = turn_at-IsAlive i ts (t ∷ us) w h.1 (h.0, k) in ((r.1.0, r.0), r.1.1)

  BothAlive-if :
      (b : Bool) (us : List Task) (x y : List Task × World)
      → All (IsAlive x.1) x.0 × All (IsAlive x.1) us
      → All (IsAlive y.1) y.0 × All (IsAlive y.1) us
      → All (IsAlive (if b then x else y).1) (if b then x else y).0
        × All (IsAlive (if b then x else y).1) us
  BothAlive-if true us x y h k = h
  BothAlive-if false us x y h k = k

  run_schedule-IsAlive :
      (s : List Turn) (ts us : List Task) (w : World)
      → All (λ t. is_task t ≡ true) s
      → All (IsAlive w) ts
      → All (IsAlive w) us
      → All (IsAlive (run_schedule env j target s ts w).1) (run_schedule env j target s ts w).0
        × All (IsAlive (run_schedule env j target s ts w).1) us
  unfolding run_schedule
  run_schedule-IsAlive [] ts us w a h k = (h, k)
  run_schedule-IsAlive (task i ∷ s) ts us w a h k =
      let r = turn_at-IsAlive i ts us w h k in
      let q = turn_at env j target i ts w in
      BothAlive-if (any (λ t. is_crashed t.phase) q.0) us _ _ r
        (run_schedule-IsAlive s q.0 us q.1 a.1 r.0 r.1)
  run_schedule-IsAlive (request q ∷ s) ts us w a h k = absurd (ground arith)

  gather-IsAlive :
      (s : List Turn) (ts us : List Task) (w : World)
      → All (λ t. is_task t ≡ true) s
      → All (IsAlive w) ts
      → All (IsAlive w) us
      → (any (λ t. is_crashed t.phase) (gather env j target s ts w).0 ≡ false)
        × All (IsAlive (gather env j target s ts w).1) us
  unfolding gather
  gather-IsAlive s ts us w a h k =
      let r = run_schedule-IsAlive s ts us w a h k in
      let q = run_schedule env j target s ts w in
      let c = complete-IsAlive q.0 us q.1 r.0 r.1 in
      rw (any-is_crashed q.0 (All-imp (λ t h. h.1) q.0 r.0))
        (any-is_crashed (complete env j target q.0 q.1).0 c.0, c.1)

tasks_of-IsAlive : (j : ℕ) (w : World) → All (IsAlive w) (tasks_of j w.db.runs)
unfolding tasks_of
tasks_of-IsAlive j w =
    let p = λ (r : CollectorRun). r.job_id == j && is_pending r.status in
    All-map (IsAlive w)
      (λ (r : CollectorRun). record { run_id = r.id; collector = r.collector; phase = waiting })
      (filter p w.db.runs)
      (All-imp {P = λ (r : CollectorRun). is_present r.id w.db.runs ≡ true} (λ r h. (h, refl))
        (filter p w.db.runs) (All-filter _ p w.db.runs (is_present_self w.db.runs)))

abbrev pub HasReturned : Ran → Type 0
HasReturned (returned w) = Unit
HasReturned (raised w) = true ≡ false

HasReturned-if :
    (b : Bool) (x y : Ran) → b ≡ false → HasReturned y → HasReturned (if b then x else y)
HasReturned-if true x y e h = absurd (cc)
HasReturned-if false x y e h = h

module _ (env : Surroundings) (j : ℕ) (schedule later : List Turn)
    (takes : (fs : List CollectedFinding) → env.stores fs ≡ true) where
  dispatch-HasReturned :
      (target : TargetType) (pending : List Task) (w : World)
      → All (λ t. is_task t ≡ true) schedule
      → All (λ t. is_task t ≡ true) later
      → All (IsAlive w) pending
      → HasReturned (dispatch env schedule later j target pending w)
  unfolding dispatch
  dispatch-HasReturned target pending w a b h =
      let ds = filter is_deferred pending in
      let ts = filter (λ t. not (is_deferred t)) pending in
      let g = gather env j target schedule ts w in
      let first =
        gather-IsAlive env j target takes schedule ts ds w a (All-filter _ _ pending h)
          (All-filter _ _ pending h) in
      let second = gather-IsAlive env j target takes later ds [] g.1 b first.1 tt in
      HasReturned-if (any (λ t. is_crashed t.phase) g.0) _ _ first.0 (
        HasReturned-if (any (λ t. is_crashed t.phase) (gather env j target later ds g.1).0) _ _
          second.0 tt)

  run_found-HasReturned :
      (w : World) (pending : List Task) (o : Option Job)
      → All (λ t. is_task t ≡ true) schedule
      → All (λ t. is_task t ≡ true) later
      → All (IsAlive w) pending
      → HasReturned (run_found env schedule later j pending w o)
  unfolding run_found
  run_found-HasReturned w pending none a b h = tt
  run_found-HasReturned w pending (some job) a b h = elim (Bool-cases (env.seeds job)) [
    | inl e ↦ rw e (dispatch-HasReturned job.target_type pending w a b h)
    | inr e ↦ rw e tt
  ]

  -- Whatever the collectors return or raise, and however they are interleaved: `run_job` returns, if no
  -- request of the API comes in between and the database takes the findings that they return.
  pub run_job-HasReturned :
      (w : World)
      → All (λ t. is_task t ≡ true) schedule
      → All (λ t. is_task t ≡ true) later
      → HasReturned (run_job env schedule later j w)
  unfolding run_job pending_tasks
  run_job-HasReturned w a b =
      run_found-HasReturned (record w { active = put_cancellation j false w.active })
        (tasks_of j w.db.runs) (get_job j w.db) a b (tasks_of-IsAlive j w)
