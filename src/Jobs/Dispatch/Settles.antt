-- ===== src/Jobs/Dispatch/Settles.antt =====
-- When no coroutine is left by an exception, `gather` has run each to its end.
use recon_ledger.Prelude.{
  ℕ, ◌-◌, ◌≤◌, Bool, true, false, ◌||◌, not, Option, none, some, List, [], ◌∷◌, any, if◌then◌else◌,
  ◌≡◌, refl, arith, All, Text,
}
use recon_ledger.Models.Enums.{TargetType}
use recon_ledger.Models.Db.{CollectorRun, get_run}
use recon_ledger.Jobs.World.{
  Surroundings, World, in_flight, put_cancellation, pop_cancellation, is_set, Outcome,
}
use recon_ledger.Jobs.World
use recon_ledger.Collectors.Contract.{CollectorMetadata, CollectedFinding}
use recon_ledger.Collectors.Registry.{supports}
use recon_ledger.Jobs.Tasks.{
  Task, Phase, waiting, started, collecting, persisting, finishing, finished, crashed, turn,
  advance, begin_run, persist, check_found, after_collect,
}
use recon_ledger.Jobs.Dispatch.{
  Turn, is_finished, is_crashed, complete_task, complete, gather, run_schedule,
}

-- how many turns a coroutine still needs at most
abbrev turns_left : Phase → ℕ
turns_left waiting = 5
turns_left started = 4
turns_left collecting = 3
turns_left (persisting fs hit) = 2
turns_left (finishing v) = 1
turns_left finished = 0
turns_left crashed = 0

abbrev pub is_settled : Phase → Bool
is_settled p = is_finished p || is_crashed p

turns_left-if :
    (b : Bool) (p q : Phase) (n : ℕ)
    → turns_left p ≤ n
    → turns_left q ≤ n
    → turns_left (if b then p else q) ≤ n
turns_left-if true p q n h k = h
turns_left-if false p q n h k = k

module _ (env : Surroundings) where
  check_found-turns_left :
      (target : TargetType) (name : Text) (b : Bool) (c : Option CollectorMetadata)
      → turns_left (check_found env target name b c) ≤ 3
  unfolding check_found
  check_found-turns_left target name b none = omega arith
  check_found-turns_left target name b (some c) =
      turns_left-if (not (supports c target)) _ _ 3 (omega arith)
        (turns_left-if b _ _ 3 (omega arith) (omega arith))

  after_collect-turns_left : (name : Text) (o : Outcome) → turns_left (after_collect env name o) ≤ 2
  unfolding after_collect
  after_collect-turns_left name (World.returned fs hit) = omega arith
  after_collect-turns_left name (World.raised e hit) = omega arith
  after_collect-turns_left name (World.gateway_raised e hit) = omega arith
  after_collect-turns_left name (World.unexpected hit) = omega arith

module _ (env : Surroundings) (j : ℕ) (target : TargetType) where
  begin_run-turns_left :
      (t : Task) (w : World) (o : Option CollectorRun)
      → turns_left (begin_run env j t w o).0.phase ≤ 4
  unfolding begin_run
  begin_run-turns_left t w none = omega arith
  begin_run-turns_left t w (some r) = omega arith

  persist-turns_left :
      (t : Task) (fs : List CollectedFinding) (hit : Bool) (w : World) (b : Bool)
      → turns_left (persist env j t fs hit w b).0.phase ≤ 1
  unfolding persist
  persist-turns_left t fs hit w true = omega arith
  persist-turns_left t fs hit w false = omega arith

  turn-turns_left :
      (p : Phase) (t : Task) (w : World)
      → t.phase ≡ p
      → turns_left (turn env p j target t w).0.phase ≤ turns_left p - 1
  unfolding turn
  turn-turns_left waiting t w e = begin_run-turns_left t w (get_run t.run_id w.db)
  turn-turns_left started t w e = check_found-turns_left env target t.collector _ _
  turn-turns_left collecting t w e = after_collect-turns_left env t.collector _
  turn-turns_left (persisting fs hit) t w e = persist-turns_left t fs hit w (env.stores fs)
  turn-turns_left (finishing v) t w e = omega arith
  turn-turns_left finished t w e = rw e (omega arith)
  turn-turns_left crashed t w e = rw e (omega arith)

  advance-turns_left :
      (t : Task) (w : World)
      → turns_left (advance env j target t w).0.phase ≤ turns_left t.phase - 1
  unfolding advance
  advance-turns_left t w = turn-turns_left t.phase t w refl

  turns_left-le : (p : Phase) → turns_left p ≤ 5
  turns_left-le waiting = omega arith
  turns_left-le started = omega arith
  turns_left-le collecting = omega arith
  turns_left-le (persisting fs hit) = omega arith
  turns_left-le (finishing v) = omega arith
  turns_left-le finished = omega arith
  turns_left-le crashed = omega arith

  is_settled_of_zero : (p : Phase) → turns_left p ≤ 0 → is_settled p ≡ true
  is_settled_of_zero waiting h = absurd (omega arith)
  is_settled_of_zero started h = absurd (omega arith)
  is_settled_of_zero collecting h = absurd (omega arith)
  is_settled_of_zero (persisting fs hit) h = absurd (omega arith)
  is_settled_of_zero (finishing v) h = absurd (omega arith)
  is_settled_of_zero finished h = refl
  is_settled_of_zero crashed h = refl

  complete_task-is_settled :
      (t : Task) (w : World) → is_settled (complete_task env j target t w).0.phase ≡ true
  unfolding complete_task
  complete_task-is_settled t w =
      let r1 = advance env j target t w in
      let r2 = advance env j target r1.0 r1.1 in
      let r3 = advance env j target r2.0 r2.1 in
      let r4 = advance env j target r3.0 r3.1 in
      is_settled_of_zero (advance env j target r4.0 r4.1).0.phase (
        omega (
          arith,
          turns_left-le t.phase,
          advance-turns_left t w,
          advance-turns_left r1.0 r1.1,
          advance-turns_left r2.0 r2.1,
          advance-turns_left r3.0 r3.1,
          advance-turns_left r4.0 r4.1,
        ))

  -- When no coroutine has crashed, they were all run.
  Settled-if :
      (b : Bool) (x y : List Task × World)
      → (b ≡ true → any (λ t. is_crashed t.phase) x.0 ≡ true)
      → (any (λ t. is_crashed t.phase) y.0 ≡ false → All (λ t. is_settled t.phase ≡ true) y.0)
      → any (λ t. is_crashed t.phase) (if b then x else y).0 ≡ false
      → All (λ t. is_settled t.phase ≡ true) (if b then x else y).0
  Settled-if true x y h k e = absurd (ground (arith, h refl))
  Settled-if false x y h k e = k e

  any-is_crashed_head :
      (t : Task) (ts : List Task)
      → is_crashed t.phase ≡ true
      → any (λ t. is_crashed t.phase) (t ∷ ts) ≡ true
  unfolding any
  any-is_crashed_head t ts h = ground arith

  any-is_crashed_tail :
      (t : Task) (ts : List Task)
      → any (λ t. is_crashed t.phase) (t ∷ ts) ≡ false
      → any (λ t. is_crashed t.phase) ts ≡ false
  unfolding any
  any-is_crashed_tail t ts h = ground arith

  complete-is_settled :
      (ts : List Task) (w : World)
      → any (λ t. is_crashed t.phase) (complete env j target ts w).0 ≡ false
      → All (λ t. is_settled t.phase ≡ true) (complete env j target ts w).0
  unfolding complete
  complete-is_settled [] w h = tt
  complete-is_settled (t ∷ ts) w h =
      let r = complete_task env j target t w in
      let next = complete env j target ts r.1 in
      Settled-if (is_crashed r.0.phase) (r.0 ∷ ts, r.1) (r.0 ∷ next.0, next.1)
        (any-is_crashed_head r.0 ts)
        (λ e. (
          complete_task-is_settled t w,
          complete-is_settled ts r.1 (any-is_crashed_tail r.0 next.0 e),
        ))
        h

  pub gather-is_settled :
      (s : List Turn) (ts : List Task) (w : World)
      → any (λ t. is_crashed t.phase) (gather env j target s ts w).0 ≡ false
      → All (λ t. is_settled t.phase ≡ true) (gather env j target s ts w).0
  unfolding gather
  gather-is_settled s ts w h =
      let r = run_schedule env j target s ts w in
      Settled-if (any (λ t. is_crashed t.phase) r.0) r (complete env j target r.0 r.1) (λ e. e)
        (complete-is_settled r.0 r.1) h
