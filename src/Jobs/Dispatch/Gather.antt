-- ===== src/Jobs/Dispatch/Gather.antt =====
-- `gather` under any interleaving: the runs stay covered.
use recon_ledger.Prelude.{
  ℕ, zero, suc, Bool, true, false, if◌then◌else◌, ◌&&◌, ◌||◌, not, Option, none, some, List, [],
  ◌∷◌, any, ◌==◌, ◌≡◌, refl, arith, All, All-imp,
}
use recon_ledger.Models.Enums.{TargetType}
use recon_ledger.Models.Db.{CollectorRun, get_run}
use recon_ledger.Collectors.Contract.{CollectedFinding}
use recon_ledger.Jobs.World.{Surroundings, World}
use recon_ledger.Jobs.Tasks.{
  Task, Phase, waiting, started, collecting, persisting, finishing, finished, crashed, turn,
  advance, begin_run, persist,
}
use recon_ledger.Jobs.Dispatch.{
  Turn, task, request, is_finished, is_crashed, turn_at, run_schedule, complete_task, complete,
  gather, answer,
}
use recon_ledger.Jobs.Dispatch.Coverage.{is_open, covered, IsSound, advance-Keeps}
use recon_ledger.Jobs.Dispatch.Requests.{IsSteady, answer-IsSteady}

-- the runs that are open elsewhere or by this task
abbrev with_task : (ℕ → Bool) → Task → ℕ → Bool
with_task others t i = others i || (t.run_id == i && not (is_finished t.phase))

covered-with_task :
    (j : ℕ) (others : ℕ → Bool) (t : Task) (ts : List Task) (r : CollectorRun)
    → covered j others (t ∷ ts) r ≡ covered j (with_task others t) ts r
unfolding is_open any
covered-with_task j others t ts r = ground arith

IsSteady-push :
    (j : ℕ) (others : ℕ → Bool) (t : Task) (ts : List Task) (w : World)
    → IsSteady j others (t ∷ ts) w
    → IsSteady j (with_task others t) ts w
IsSteady-push j others t ts w h =
    (All-imp (λ r c. cc (covered-with_task j others t ts r, c)) w.db.runs h.0, h.1)

IsSteady-pop :
    (j : ℕ) (others : ℕ → Bool) (t : Task) (ts : List Task) (w : World)
    → IsSteady j (with_task others t) ts w
    → IsSteady j others (t ∷ ts) w
IsSteady-pop j others t ts w h =
    (All-imp (λ r c. cc (covered-with_task j others t ts r, c)) w.db.runs h.0, h.1)

abbrev IsUntouched : World → World → Type 0
IsUntouched w w' = (w'.active ≡ w.active) × (w'.retries ≡ w.retries)

module _ (env : Surroundings) (j : ℕ) (target : TargetType) where
  -- A turn leaves the jobs in flight and the retries that are under way as they are.
  begin_run-IsUntouched :
      (t : Task) (w : World) (o : Option CollectorRun) → IsUntouched w (begin_run env j t w o).1
  unfolding begin_run
  begin_run-IsUntouched t w none = (refl, refl)
  begin_run-IsUntouched t w (some r) = (refl, refl)

  persist-IsUntouched :
      (t : Task) (fs : List CollectedFinding) (hit : Bool) (w : World) (b : Bool)
      → IsUntouched w (persist env j t fs hit w b).1
  unfolding persist
  persist-IsUntouched t fs hit w true = (refl, refl)
  persist-IsUntouched t fs hit w false = (refl, refl)

  turn-IsUntouched : (p : Phase) (t : Task) (w : World) → IsUntouched w (turn env p j target t w).1
  unfolding turn
  turn-IsUntouched waiting t w = begin_run-IsUntouched t w (get_run t.run_id w.db)
  turn-IsUntouched started t w = (refl, refl)
  turn-IsUntouched collecting t w = (refl, refl)
  turn-IsUntouched (persisting fs hit) t w = persist-IsUntouched t fs hit w (env.stores fs)
  turn-IsUntouched (finishing v) t w = (refl, refl)
  turn-IsUntouched finished t w = (refl, refl)
  turn-IsUntouched crashed t w = (refl, refl)

  advance-IsUntouched : (t : Task) (w : World) → IsUntouched w (advance env j target t w).1
  unfolding advance
  advance-IsUntouched t w = turn-IsUntouched t.phase t w

  -- What holds of the tasks and the world between two turns.
  abbrev pub IsRunning : (ℕ → Bool) → List Task × World → Type 0
  IsRunning others (ts, w) = All IsSound ts × IsSteady j others ts w

  IsRunning-if :
      (others : ℕ → Bool) (b : Bool) (x y : List Task × World)
      → IsRunning others x
      → IsRunning others y
      → IsRunning others (if b then x else y)
  IsRunning-if others true x y h k = h
  IsRunning-if others false x y h k = k

  advance-IsRunning :
      (others : ℕ → Bool) (t : Task) (ts : List Task) (w : World)
      → IsRunning others (t ∷ ts, w)
      → let (t', w') = advance env j target t w in IsRunning others (t' ∷ ts, w')
  advance-IsRunning others t ts w h =
      let k = advance-Keeps env j target others ts t w h.0.0 h.1.0 in
      let same = advance-IsUntouched t w in
      ((k.1, h.0.1), (k.0, (rw same.0 h.1.1.0, rw same.1 h.1.1.1)))

  turn_at-IsRunning :
      (others : ℕ → Bool) (i : ℕ) (ts : List Task) (w : World)
      → IsRunning others (ts, w)
      → IsRunning others (turn_at env j target i ts w)
  unfolding turn_at
  turn_at-IsRunning others i [] w h = h
  turn_at-IsRunning others zero (t ∷ ts) w h = advance-IsRunning others t ts w h
  turn_at-IsRunning others (suc i) (t ∷ ts) w h =
      let ih =
        turn_at-IsRunning (with_task others t) i ts w (h.0.1, IsSteady-push j others t ts w h.1) in
      let r = turn_at env j target i ts w in ((h.0.0, ih.0), IsSteady-pop j others t r.0 r.1 ih.1)

  run_schedule-IsRunning :
      (others : ℕ → Bool) (s : List Turn) (ts : List Task) (w : World)
      → IsRunning others (ts, w)
      → IsRunning others (run_schedule env j target s ts w)
  unfolding run_schedule
  run_schedule-IsRunning others [] ts w h = h
  run_schedule-IsRunning others (task i ∷ s) ts w h =
      let r = turn_at env j target i ts w in
      let k = turn_at-IsRunning others i ts w h in
      IsRunning-if others (any (λ t. is_crashed t.phase) r.0) _ _ k
        (run_schedule-IsRunning others s r.0 r.1 k)
  run_schedule-IsRunning others (request q ∷ s) ts w h =
      run_schedule-IsRunning others s ts (answer env q w)
        (h.0, answer-IsSteady j others ts env q w h.1)

  complete_task-IsRunning :
      (others : ℕ → Bool) (t : Task) (ts : List Task) (w : World)
      → IsRunning others (t ∷ ts, w)
      → let (t', w') = complete_task env j target t w in IsRunning others (t' ∷ ts, w')
  unfolding complete_task
  complete_task-IsRunning others t ts w h0 =
      let r1 = advance env j target t w in
      let r2 = advance env j target r1.0 r1.1 in
      let r3 = advance env j target r2.0 r2.1 in
      let r4 = advance env j target r3.0 r3.1 in
      let h1 = advance-IsRunning others t ts w h0 in
      let h2 = advance-IsRunning others r1.0 ts r1.1 h1 in
      let h3 = advance-IsRunning others r2.0 ts r2.1 h2 in
      let h4 = advance-IsRunning others r3.0 ts r3.1 h3 in advance-IsRunning others r4.0 ts r4.1 h4

  complete-IsRunning :
      (others : ℕ → Bool) (ts : List Task) (w : World)
      → IsRunning others (ts, w)
      → IsRunning others (complete env j target ts w)
  unfolding complete
  complete-IsRunning others [] w h = h
  complete-IsRunning others (t ∷ ts) w h =
      let r = complete_task env j target t w in
      let k = complete_task-IsRunning others t ts w h in
      let ih =
        complete-IsRunning (with_task others r.0) ts r.1
          (k.0.1, IsSteady-push j others r.0 ts r.1 k.1) in
      let e = complete env j target ts r.1 in
      IsRunning-if others (is_crashed r.0.phase) _ _ k
        ((k.0.0, ih.0), IsSteady-pop j others r.0 e.0 e.1 ih.1)

  pub gather-IsRunning :
      (others : ℕ → Bool) (s : List Turn) (ts : List Task) (w : World)
      → IsRunning others (ts, w)
      → IsRunning others (gather env j target s ts w)
  unfolding gather
  gather-IsRunning others s ts w h =
      let r = run_schedule env j target s ts w in
      let k = run_schedule-IsRunning others s ts w h in
      IsRunning-if others (any (λ t. is_crashed t.phase) r.0) _ _ k
        (complete-IsRunning others r.0 r.1 k)
