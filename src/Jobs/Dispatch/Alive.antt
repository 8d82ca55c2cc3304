-- ===== src/Jobs/Dispatch/Alive.antt =====
-- While nobody deletes its row and the database takes its findings, no exception leaves a coroutine,
-- turn by turn.
use recon_ledger.Prelude.{
  ℕ, Bool, true, false, not, Option, none, some, List, [], ◌∷◌, any, find, update_where, ◌==◌,
  if◌then◌else◌, ◌≡◌, ◌≢◌, refl, arith, All, All-imp, Text,
}
use recon_ledger.Models.Enums.{TargetType}
use recon_ledger.Models.Db.{CollectorRun, get_run}
use recon_ledger.Collectors.Contract.{CollectorMetadata, CollectedFinding}
use recon_ledger.Collectors.Registry.{supports}
use recon_ledger.Jobs.World.{Surroundings, World, Outcome, put_cancellation, is_set}
use recon_ledger.Jobs.World
use recon_ledger.Jobs.Tasks.{
  Task, Phase, waiting, started, collecting, persisting, finishing, finished, crashed, Verdict,
  start_run, finish_run, start_collector, finish_collector, after_collect, check_found,
  check_collector, begin_run, persist, turn, advance,
}
use recon_ledger.Jobs.Dispatch.{is_crashed}

unfoldable pub is_present : ℕ → List CollectorRun → Bool
is_present i runs = any (λ r. r.id == i) runs

is_present-start :
    (i k now : ℕ) (runs : List CollectorRun)
    → is_present i (update_where (λ r. r.id == k) (start_run now) runs) ≡ is_present i runs
unfolding is_present any update_where
is_present-start i k now [] = refl
is_present-start i k now (r ∷ runs) = ground (arith, is_present-start i k now runs)

is_present-finish :
    (i k now : ℕ) (v : Verdict) (runs : List CollectorRun)
    → is_present i (update_where (λ r. r.id == k) (finish_run v now) runs) ≡ is_present i runs
unfolding is_present any update_where
is_present-finish i k now v [] = refl
is_present-finish i k now v (r ∷ runs) = ground (arith, is_present-finish i k now v runs)

pub is_present_self : (runs : List CollectorRun) → All (λ r. is_present r.id runs ≡ true) runs
unfolding is_present any
is_present_self [] = tt
is_present_self (r ∷ runs) = (
  ground arith,
  All-imp {P = λ (x : CollectorRun). is_present x.id runs ≡ true} (λ x h. ground arith) runs
      (is_present_self runs),
)

-- The row of a coroutine's run is there, and it has not failed.
abbrev pub IsAlive : World → Task → Type 0
IsAlive w t = (is_present t.run_id w.db.runs ≡ true) × (is_crashed t.phase ≡ false)

found-is_present :
    (i : ℕ) (runs : List CollectorRun)
    → is_present i runs ≡ true
    → find (λ r. r.id == i) runs ≢ none
unfolding is_present any find
found-is_present i [] h e = absurd (cc)
found-is_present i (r ∷ runs) h e = ground (arith, found-is_present i runs)

IsAlive-if :
    (b : Bool) (p q : Phase)
    → is_crashed p ≡ false
    → is_crashed q ≡ false
    → is_crashed (if b then p else q) ≡ false
IsAlive-if true p q h k = h
IsAlive-if false p q h k = k

module _ (env : Surroundings) where
  check_found-is_crashed :
      (target : TargetType) (name : Text) (b : Bool) (c : Option CollectorMetadata)
      → is_crashed (check_found env target name b c) ≡ false
  unfolding check_found
  check_found-is_crashed target name b none = refl
  check_found-is_crashed target name b (some c) =
      IsAlive-if (not (supports c target)) _ _ refl (IsAlive-if b _ _ refl refl)

  after_collect-is_crashed :
      (name : Text) (o : Outcome) → is_crashed (after_collect env name o) ≡ false
  unfolding after_collect
  after_collect-is_crashed name (World.returned fs hit) = refl
  after_collect-is_crashed name (World.raised e hit) = refl
  after_collect-is_crashed name (World.gateway_raised e hit) = refl
  after_collect-is_crashed name (World.unexpected hit) = refl

module _ (env : Surroundings) (j : ℕ) (target : TargetType) where
  -- The database takes whatever findings come.
  abbrev TakesAll : Type 0
  TakesAll = (fs : List CollectedFinding) → env.stores fs ≡ true

  -- A turn leaves every row in its place ...
  begin_run-is_present :
      (i : ℕ) (t : Task) (w : World) (o : Option CollectorRun)
      → is_present i (begin_run env j t w o).1.db.runs ≡ is_present i w.db.runs
  unfolding begin_run start_collector
  begin_run-is_present i t w none = refl
  begin_run-is_present i t w (some r) = is_present-start i t.run_id (env.clock w.ticks) w.db.runs

  persist-is_present :
      (i : ℕ) (t : Task) (fs : List CollectedFinding) (hit : Bool) (w : World) (b : Bool)
      → is_present i (persist env j t fs hit w b).1.db.runs ≡ is_present i w.db.runs
  unfolding persist
  persist-is_present i t fs hit w true = refl
  persist-is_present i t fs hit w false = refl

  turn-is_present :
      (p : Phase) (i : ℕ) (t : Task) (w : World)
      → is_present i (turn env p j target t w).1.db.runs ≡ is_present i w.db.runs
  unfolding turn finish_collector
  turn-is_present waiting i t w = begin_run-is_present i t w (get_run t.run_id w.db)
  turn-is_present started i t w = refl
  turn-is_present collecting i t w = refl
  turn-is_present (persisting fs hit) i t w = persist-is_present i t fs hit w (env.stores fs)
  turn-is_present (finishing v) i t w = is_present-finish i t.run_id (env.clock w.ticks) v w.db.runs
  turn-is_present finished i t w = refl
  turn-is_present crashed i t w = refl

  -- ... and the coroutine at the same run.
  begin_run-run_id :
      (t : Task) (w : World) (o : Option CollectorRun) → (begin_run env j t w o).0.run_id ≡ t.run_id
  unfolding begin_run
  begin_run-run_id t w none = refl
  begin_run-run_id t w (some r) = refl

  persist-run_id :
      (t : Task) (fs : List CollectedFinding) (hit : Bool) (w : World) (b : Bool)
      → (persist env j t fs hit w b).0.run_id ≡ t.run_id
  unfolding persist
  persist-run_id t fs hit w true = refl
  persist-run_id t fs hit w false = refl

  turn-run_id : (p : Phase) (t : Task) (w : World) → (turn env p j target t w).0.run_id ≡ t.run_id
  unfolding turn
  turn-run_id waiting t w = begin_run-run_id t w (get_run t.run_id w.db)
  turn-run_id started t w = refl
  turn-run_id collecting t w = refl
  turn-run_id (persisting fs hit) t w = persist-run_id t fs hit w (env.stores fs)
  turn-run_id (finishing v) t w = refl
  turn-run_id finished t w = refl
  turn-run_id crashed t w = refl

  begin_run-is_crashed :
      (t : Task) (w : World) (o : Option CollectorRun)
      → o ≢ none
      → is_crashed (begin_run env j t w o).0.phase ≡ false
  unfolding begin_run
  begin_run-is_crashed t w none h = absurd (h refl)
  begin_run-is_crashed t w (some r) h = refl

  persist-is_crashed :
      (t : Task) (fs : List CollectedFinding) (hit : Bool) (w : World) (b : Bool)
      → b ≡ true
      → is_crashed (persist env j t fs hit w b).0.phase ≡ false
  unfolding persist
  persist-is_crashed t fs hit w true e = refl
  persist-is_crashed t fs hit w false e = absurd (cc)

  turn-is_crashed :
      (p : Phase) (t : Task) (w : World)
      → t.phase ≡ p
      → TakesAll
      → IsAlive w t
      → is_crashed (turn env p j target t w).0.phase ≡ false
  unfolding turn check_collector get_run
  turn-is_crashed waiting t w e takes h =
      begin_run-is_crashed t w (get_run t.run_id w.db) (found-is_present t.run_id w.db.runs h.0)
  turn-is_crashed started t w e takes h = check_found-is_crashed env target t.collector _ _
  turn-is_crashed collecting t w e takes h = after_collect-is_crashed env t.collector _
  turn-is_crashed (persisting fs hit) t w e takes h =
      persist-is_crashed t fs hit w (env.stores fs) (takes fs)
  turn-is_crashed (finishing v) t w e takes h = refl
  turn-is_crashed finished t w e takes h = h.1
  turn-is_crashed crashed t w e takes h = h.1

  pub advance-IsAlive :
      (t : Task) (w : World)
      → TakesAll
      → IsAlive w t
      → IsAlive (advance env j target t w).1 (advance env j target t w).0
  unfolding advance
  advance-IsAlive t w takes h = (
    rw (turn-run_id t.phase t w) (rw (turn-is_present t.phase t.run_id t w) h.0),
    turn-is_crashed t.phase t w refl takes h,
  )

  pub advance-others :
      (t u : Task) (w : World) → IsAlive w u → IsAlive (advance env j target t w).1 u
  unfolding advance
  advance-others t u w h = (rw (turn-is_present t.phase u.run_id t w) h.0, h.1)
