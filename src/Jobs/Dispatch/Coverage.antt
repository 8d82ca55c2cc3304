-- ===== src/Jobs/Dispatch/Coverage.antt =====
-- While a job is dispatched, each of its collector runs has ended or has a task that is still open.
use recon_ledger.Prelude.{
  ℕ, Bool, true, false, ◌&&◌, ◌||◌, not, Option, none, some, List, [], ◌∷◌, any, update_where, ◌==◌,
  if◌then◌else◌, ◌≡◌, refl, arith, All, All-imp, Text,
}
use recon_ledger.Models.Enums.{TargetType, is_terminal_collector}
use recon_ledger.Models.Db.{CollectorRun, get_run}
use recon_ledger.Collectors.Contract.{CollectorMetadata, CollectedFinding}
use recon_ledger.Collectors.Errors.{
  resulting_status, resulting_status-is_terminal, translate_gateway_error,
}
use recon_ledger.Collectors.Registry
use recon_ledger.Collectors.Registry.{supports}
use recon_ledger.Jobs.World.{
  Outcome, returned, raised, gateway_raised, unexpected, Surroundings, World, is_set,
}
use recon_ledger.Jobs.Tasks.{
  Task, Phase, waiting, started, collecting, persisting, finishing, finished, crashed, Verdict,
  failure, of_error, start_run, finish_run, after_collect, check_found, begin_run, persist, turn,
  advance,
}
use recon_ledger.Jobs.Dispatch.{is_finished}

unfoldable pub is_open : ℕ → List Task → Bool
is_open i ts = any (λ t. t.run_id == i && not (is_finished t.phase)) ts

-- `others` stands for the runs with an open task elsewhere
abbrev pub covered : ℕ → (ℕ → Bool) → List Task → CollectorRun → Bool
covered j others ts r =
    not (r.job_id == j) || (is_terminal_collector r.status || (others r.id || is_open r.id ts))

abbrev pub AllCovered : ℕ → (ℕ → Bool) → List Task → World → Type 0
AllCovered j others ts w = All (λ r. covered j others ts r ≡ true) w.db.runs

-- A verdict that is about to be written ends its run.
abbrev pub IsSoundPhase : Phase → Type 0
IsSoundPhase (finishing v) = is_terminal_collector v.status ≡ true
IsSoundPhase _ = Unit

abbrev pub IsSound : Task → Type 0
IsSound t = IsSoundPhase t.phase

-- What a phase leads to neither ends the task unseen nor carries an unsound verdict.
abbrev IsSafePhase : Phase → Type 0
IsSafePhase p = (is_finished p ≡ false) × IsSoundPhase p

IsSafePhase-if :
    (b : Bool) (p q : Phase) → IsSafePhase p → IsSafePhase q → IsSafePhase (if b then p else q)
IsSafePhase-if true p q h k = h
IsSafePhase-if false p q h k = k

module _ (env : Surroundings) where
  check_found-IsSafePhase :
      (target : TargetType) (name : Text) (b : Bool) (c : Option CollectorMetadata)
      → IsSafePhase (check_found env target name b c)
  unfolding check_found failure of_error resulting_status
  check_found-IsSafePhase target name b none = (refl, refl)
  check_found-IsSafePhase target name b (some c) =
      IsSafePhase-if (not (supports c target)) _ _ (refl, refl)
        (IsSafePhase-if b _ _ (refl, refl) (refl, tt))

  after_collect-IsSafePhase : (name : Text) (o : Outcome) → IsSafePhase (after_collect env name o)
  unfolding after_collect failure of_error
  after_collect-IsSafePhase name (returned fs hit) = (refl, tt)
  after_collect-IsSafePhase name (raised e hit) = (refl, resulting_status-is_terminal e)
  after_collect-IsSafePhase name (gateway_raised e hit) =
      (refl, resulting_status-is_terminal (translate_gateway_error env.formatting name e))
  after_collect-IsSafePhase name (unexpected hit) = (refl, refl)

-- a task that changes its phase and does not end is as open as it was
is_open-phase :
    (i : ℕ) (t : Task) (p : Phase) (ts : List Task)
    → is_finished t.phase ≡ false
    → is_finished p ≡ false
    → is_open i (record t { phase = p } ∷ ts) ≡ is_open i (t ∷ ts)
unfolding is_open any
is_open-phase i t p ts h k = ground arith

covered-finish :
    (j now : ℕ) (others : ℕ → Bool) (v : Verdict) (t : Task) (ts : List Task) (r : CollectorRun)
    → is_terminal_collector v.status ≡ true
    → covered j others (t ∷ ts) r ≡ true
    → covered j others
        (record t { phase = finished } ∷ ts)
        (if r.id == t.run_id then finish_run v now r else r)
      ≡ true
unfolding is_open any
covered-finish j now others v t ts r ends h = ground arith

covered-if_start :
    (j now : ℕ) (others : ℕ → Bool) (t : Task) (ts : List Task) (r : CollectorRun)
    → is_finished t.phase ≡ false
    → covered j others (t ∷ ts) r ≡ true
    → covered j others
        (record t { phase = started } ∷ ts)
        (if r.id == t.run_id then start_run now r else r)
      ≡ true
unfolding is_open any
covered-if_start j now others t ts r open_ h = ground arith

covered_rows-start :
    (j now : ℕ) (others : ℕ → Bool) (t : Task) (ts : List Task) (runs : List CollectorRun)
    → is_finished t.phase ≡ false
    → All (λ r. covered j others (t ∷ ts) r ≡ true) runs
    → All
        (λ r. covered j others (record t { phase = started } ∷ ts) r ≡ true)
        (update_where (λ r. r.id == t.run_id) (start_run now) runs)
unfolding update_where
covered_rows-start j now others t ts [] open_ h = tt
covered_rows-start j now others t ts (r ∷ runs) open_ h = (
  covered-if_start j now others t ts r open_ h.0,
  covered_rows-start j now others t ts runs open_ h.1,
)

covered_rows-finish :
    (j now : ℕ) (others : ℕ → Bool) (v : Verdict) (t : Task) (ts : List Task)
    (runs : List CollectorRun)
    → is_terminal_collector v.status ≡ true
    → All (λ r. covered j others (t ∷ ts) r ≡ true) runs
    → All
        (λ r. covered j others (record t { phase = finished } ∷ ts) r ≡ true)
        (update_where (λ r. r.id == t.run_id) (finish_run v now) runs)
unfolding update_where
covered_rows-finish j now others v t ts [] ends h = tt
covered_rows-finish j now others v t ts (r ∷ runs) ends h = (
  covered-finish j now others v t ts r ends h.0,
  covered_rows-finish j now others v t ts runs ends h.1,
)

-- What one turn must keep.
abbrev Keeps : ℕ → (ℕ → Bool) → List Task → Task × World → Type 0
Keeps j others ts (t, w) = AllCovered j others (t ∷ ts) w × IsSound t

module _ (env : Surroundings) (j : ℕ) (target : TargetType) (others : ℕ → Bool)
    (ts : List Task) where
  same_runs :
      (t : Task) (q : Phase) (runs : List CollectorRun)
      → is_finished t.phase ≡ false
      → is_finished q ≡ false
      → All (λ r. covered j others (t ∷ ts) r ≡ true) runs
      → All (λ r. covered j others (record t { phase = q } ∷ ts) r ≡ true) runs
  same_runs t q runs h k = All-imp (λ r c. ground (arith, is_open-phase r.id t q ts h k, c)) runs

  begin_run-Keeps :
      (t : Task) (w : World) (o : Option CollectorRun)
      → is_finished t.phase ≡ false
      → AllCovered j others (t ∷ ts) w
      → Keeps j others ts (begin_run env j t w o)
  unfolding begin_run
  begin_run-Keeps t w none open_ h = (same_runs t crashed w.db.runs open_ refl h, tt)
  begin_run-Keeps t w (some r) open_ h =
      (covered_rows-start j (env.clock w.ticks) others t ts w.db.runs open_ h, tt)

  persist-Keeps :
      (t : Task) (fs : List CollectedFinding) (hit : Bool) (w : World) (b : Bool)
      → is_finished t.phase ≡ false
      → AllCovered j others (t ∷ ts) w
      → Keeps j others ts (persist env j t fs hit w b)
  unfolding persist
  persist-Keeps t fs hit w true open_ h = (same_runs t _ w.db.runs open_ refl h, refl)
  persist-Keeps t fs hit w false open_ h = (same_runs t crashed w.db.runs open_ refl h, tt)

  turn-Keeps :
      (p : Phase) (t : Task) (w : World)
      → t.phase ≡ p
      → IsSoundPhase p
      → AllCovered j others (t ∷ ts) w
      → Keeps j others ts (turn env p j target t w)
  unfolding turn
  turn-Keeps waiting t w e s h = begin_run-Keeps t w (get_run t.run_id w.db) (rw e) h
  turn-Keeps started t w e s h =
      let safe =
        check_found-IsSafePhase env target t.collector (is_set j w.active)
          (Registry.get env.registry t.collector) in
      (same_runs t _ w.db.runs (rw e) safe.0 h, safe.1)
  turn-Keeps collecting t w e s h =
      let safe = after_collect-IsSafePhase env t.collector (env.collect t.collector j w.db).0 in
      (same_runs t _ w.db.runs (rw e) safe.0 h, safe.1)
  turn-Keeps (persisting fs hit) t w e s h = persist-Keeps t fs hit w (env.stores fs) (rw e) h
  turn-Keeps (finishing v) t w e s h =
      (covered_rows-finish j (env.clock w.ticks) others v t ts w.db.runs s h, tt)
  turn-Keeps finished t w e s h = (h, rw e tt)
  turn-Keeps crashed t w e s h = (h, rw e tt)

  pub advance-Keeps :
      (t : Task) (w : World)
      → IsSound t
      → AllCovered j others (t ∷ ts) w
      → Keeps j others ts (advance env j target t w)
  unfolding advance
  advance-Keeps t w s h = turn-Keeps t.phase t w refl s h
