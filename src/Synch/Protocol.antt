-- ===== src/Synch/Protocol.antt =====
-- A lock of code/threads/synch.cc and the threads that use it, in any order and with any switch between
-- them. No device interrupt is pending, so that Interrupt::Idle halts the machine.
use nachos_lab.Base.{
  ℕ, Bool, true, false, none, ◌≡◌, ◌≢◌, ◌⊎◌, Result, ok, err, halted, if◌then◌else◌,
}
use nachos_lab.Threads.{Threads, yield, update}
use nachos_lab.Synch.{Semaphore, Lock, new_lock, p, v, take, is_held_by_current_thread}

-- Where a thread is in its use of the lock: in P (asleep, or awake and about to test again), after P, in
-- the part between Acquire and Release, and in Release after `heldthread = NULL`.
pub data Stage : Type 0 where
  outside acquiring acquired holding releasing : Stage

pub record System : Type 0 where
  pub threads : Threads
  pub lock : Lock
  pub stage : ℕ → Stage

abbrev pub idle : Threads → Result Threads
idle t = err halted

-- The stage of the running thread.
abbrev pub here : System → Stage
here s = s.stage s.threads.current_thread

abbrev pub at_stage : System → Stage → ℕ → Stage
at_stage s x = update s.stage s.threads.current_thread x

abbrev pub asks : Stage → Bool
asks outside = true
asks acquiring = true
asks acquired = false
asks holding = false
asks releasing = false

-- The test of Release; where it fails, the call does nothing.
unfoldable pub release_test : System → System
release_test s =
    if is_held_by_current_thread s.lock s.threads
    then record s { lock = record s.lock { held_thread = none }; stage = at_stage s releasing }
    else s

-- A thread that holds the lock does not ask for it again, and while a thread is awake in P no other
-- thread can run.
pub data Step : System → System → Type 0 where
  gets :
      {s : System} {sem : Semaphore} {threads : Threads}
      → asks (here s) ≡ true
      → p idle 1 s.lock.lock s.threads ≡ ok (true, sem, threads)
      → Step s (record {
        threads = threads;
        lock = record s.lock { lock = sem };
        stage = at_stage s acquired;
      })
  sleeps :
      {s : System} {sem : Semaphore} {threads : Threads}
      → asks (here s) ≡ true
      → p idle 1 s.lock.lock s.threads ≡ ok (false, sem, threads)
      → Step s (record {
        threads = threads;
        lock = record s.lock { lock = sem };
        stage = at_stage s acquiring;
      })
  takes :
      {s : System}
      → here s ≡ acquired
      → Step s (record s { lock = take s.lock s.threads; stage = at_stage s holding })
  tests : {s : System} → (here s ≡ outside) ⊎ (here s ≡ holding) → Step s (release_test s)
  gives :
      {s : System}
      → here s ≡ releasing
      → Step s (record {
        threads = (v s.lock.lock s.threads).1;
        lock = record s.lock { lock = (v s.lock.lock s.threads).0 };
        stage = at_stage s outside;
      })
  switches :
      {s : System} {threads : Threads}
      → here s ≢ acquiring
      → yield s.threads ≡ ok threads
      → Step s (record s { threads = threads })

-- A new lock, and any threads that have not called it.
abbrev pub initial : Threads → System
initial t = record { threads = t; lock = new_lock; stage = λ u. outside }

pub data Reachable (t : Threads) : System → Type 0 where
  begin : Reachable t (initial t)
  later : {s s' : System} → Reachable t s → Step s s' → Reachable t s'
