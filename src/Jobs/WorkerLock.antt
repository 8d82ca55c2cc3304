-- ===== src/Jobs/WorkerLock.antt =====
-- backend/app/jobs/worker_lock.py: the PID file that keeps a second worker out. `str` of a process's
-- number is read back by `int` as that number; what else the file may hold is `unreadable`.
use recon_ledger.Prelude.{
  ℕ, ◌<◌, Bool, true, false, ◌&&◌, Option, none, some, ◌==◌, ltb, if◌then◌else◌, ◌≡◌, refl,
  Bool-cases, inl, inr, lt→ltb, ap, ◌∙◌,
}

-- What `int(text.strip())` makes of the file; `not_positive` is a number below one.
pub data LockFile : Type 0 where
  unreadable not_positive : LockFile
  holder : ℕ → LockFile

-- How `os.kill(pid, 0)` ends; `unsupported` is an AttributeError.
pub data Kill : Type 0 where
  delivered os_error unsupported : Kill

-- The file system, and the lock object of one process.
pub record Locked : Type 0 where
  pub file : Option LockFile
  pub acquired : Bool

pub data Acquired : Type 0 where
  ok : Locked → Acquired
  already_running : ℕ → Acquired

abbrev pub answers : Kill → Bool
answers delivered = true
answers os_error = false
answers unsupported = true

-- `me` is `os.getpid()`
unfoldable pub pid_is_alive : ℕ → (ℕ → Kill) → ℕ → Bool
pid_is_alive me kill pid = if pid == me then true else answers (kill pid)

abbrev pub write_pid : ℕ → Locked → Acquired
write_pid me l = ok (record l { file = some (holder me); acquired = true })

-- the tests on the file
unfoldable pub acquire_from : ℕ → (ℕ → Kill) → Locked → Option LockFile → Acquired
unfolding pid_is_alive
acquire_from me kill l none = write_pid me l
acquire_from me kill l (some unreadable) = write_pid me l
acquire_from me kill l (some not_positive) = write_pid me l
acquire_from me kill l (some (holder pid)) =
    if ltb 0 pid && pid_is_alive me kill pid then already_running pid else write_pid me l

unfoldable pub acquire : ℕ → (ℕ → Kill) → Bool → Locked → Acquired
unfolding acquire_from
acquire me kill external_worker_configured l =
    if external_worker_configured then ok l else acquire_from me kill l l.file

unfoldable pub release : Locked → Locked
release l = record { file = if l.acquired then none else l.file; acquired = false }

-- What the file says once a process has it.
abbrev IsHeld : ℕ → Acquired → Type 0
IsHeld me (ok l) = (l.file ≡ some (holder me)) × (l.acquired ≡ true)
IsHeld me (already_running pid) = Unit

IsHeld-if :
    (me : ℕ) (b : Bool) (x y : Acquired)
    → IsHeld me x
    → IsHeld me y
    → IsHeld me (if b then x else y)
IsHeld-if me true x y h k = h
IsHeld-if me false x y h k = k

acquire_from-IsHeld :
    (me : ℕ) (kill : ℕ → Kill) (l : Locked) (o : Option LockFile)
    → IsHeld me (acquire_from me kill l o)
unfolding acquire_from
acquire_from-IsHeld me kill l none = (refl, refl)
acquire_from-IsHeld me kill l (some unreadable) = (refl, refl)
acquire_from-IsHeld me kill l (some not_positive) = (refl, refl)
acquire_from-IsHeld me kill l (some (holder pid)) =
    IsHeld-if me (ltb 0 pid && pid_is_alive me kill pid) _ _ tt (refl, refl)

pid_is_alive-answers :
    (q p : ℕ) (kill : ℕ → Kill) → answers (kill p) ≡ true → pid_is_alive q kill p ≡ true
unfolding pid_is_alive
pid_is_alive-answers q p kill h = elim (Bool-cases (p == q)) [ inl e ↦ rw e refl | inr e ↦ rw e h ]

acquire_from-held :
    (q p : ℕ) (kill : ℕ → Kill) (l : Locked)
    → 0 < p
    → answers (kill p) ≡ true
    → acquire_from q kill l (some (holder p)) ≡ already_running p
unfolding acquire_from
acquire_from-held q p kill l positive alive =
    rw (lt→ltb 0 p positive, pid_is_alive-answers q p kill alive) refl

acquire-acquire_from :
    (q : ℕ) (kill : ℕ → Kill) (l : Locked) (o : Option LockFile)
    → l.file ≡ o
    → acquire q kill false l ≡ acquire_from q kill l o
unfolding acquire
acquire-acquire_from q kill l o e = ap (acquire_from q kill l) e

acquire-IsHeld : (me : ℕ) (kill : ℕ → Kill) (l : Locked) → IsHeld me (acquire me kill false l)
unfolding acquire
acquire-IsHeld me kill l = acquire_from-IsHeld me kill l l.file

held-file :
    (me : ℕ) (a : Acquired) (held : Locked)
    → IsHeld me a
    → a ≡ ok held
    → held.file ≡ some (holder me)
held-file me (ok l) held h e = cc (h.0, e)
held-file me (already_running pid) held h e = absurd (cc)

module _ (p q : ℕ) (kill kill' : ℕ → Kill) (l m held : Locked) where
  -- When a process has acquired the lock, a process that then finds its file is refused, as long as the
  -- holder answers to signal 0; numbers of processes are positive.
  pub acquire-acquire :
      0 < p
      → acquire p kill false l ≡ ok held
      → m.file ≡ held.file
      → kill' p ≡ delivered
      → acquire q kill' false m ≡ already_running p
  acquire-acquire positive got same alive =
      let file : m.file ≡ some (holder p) =
        same ∙ held-file p (acquire p kill false l) held (acquire-IsHeld p kill l) got in
      acquire-acquire_from q kill' m (some (holder p)) file
      ∙ acquire_from-held q p kill' m positive (ap answers alive)
