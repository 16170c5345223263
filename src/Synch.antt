-- ===== src/Synch.antt =====
-- code/threads/synch.cc: semaphores, locks and condition variables, over the threads of thread.cc. The
-- calls run with interrupts off, so that nothing comes between two statements but a switch to another
-- thread. A queue, a List of list.cc, is the sequence of its items.
pub mod Protocol
pub mod Exclusion
pub mod Waiting
pub mod Awake
pub mod Broadcast
mod Tests
use nachos_lab.Base.{
  ℕ, zero, suc, ◌+◌, ◌-◌, Bool, true, false, not, Option, none, some, List, [], ◌∷◌, ◌++◌, ◌==◌,
  if◌then◌else◌, Result, ok, err, ◌>>=◌,
}
use nachos_lab.Threads.{Threads, ready_to_run, sleep}

pub record Semaphore : Type 0 where
  pub value : ℕ
  pub queue : List ℕ

-- `heldthread`, with NULL for none.
pub record Lock : Type 0 where
  pub lock : Semaphore
  pub held_thread : Option ℕ

pub record Condition : Type 0 where
  pub waiting_list : List ℕ

-- `idle` and `calls` are those of Thread::Sleep.
module _ (idle : Threads → Result Threads) (calls : ℕ) where
  -- The test of the loop in Semaphore::P: true where the thread gets through, false where it has gone
  -- to sleep, and is to make the test again when it runs again.
  unfoldable pub p : Semaphore → Threads → Result (Bool × Semaphore × Threads)
  unfolding sleep
  p s t =
      if s.value == 0
      then (do
        t1 ← sleep idle calls t
        ok (false, record s { queue = s.queue ++ t.current_thread ∷ [] }, t1))
      else ok (true, record s { value = s.value - 1 }, t)

-- The thread that Remove takes from the queue, if any, is ready.
unfoldable pub wake : List ℕ → Threads → List ℕ × Threads
unfolding ready_to_run
wake [] t = ([], t)
wake (first ∷ rest) t = (rest, ready_to_run t first)

unfoldable pub v : Semaphore → Threads → Semaphore × Threads
unfolding wake
v s t = let (queue, t1) = wake s.queue t in (record { value = s.value + 1; queue = queue }, t1)

unfoldable pub new_lock : Lock
new_lock = record { lock = record { value = 1; queue = [] }; held_thread = none }

abbrev pub is_held_by_current_thread : Lock → Threads → Bool
is_held_by_current_thread l t = elim l.held_thread [ none ↦ false | some h ↦ t.current_thread == h ]

-- What Acquire does after P.
unfoldable pub take : Lock → Threads → Lock
take l t = record l { held_thread = some t.current_thread }

unfoldable pub release : Lock → Threads → Lock × Threads
unfolding v
release l t =
    if is_held_by_current_thread l t
    then (record { lock = (v l.lock t).0; held_thread = none }, (v l.lock t).1)
    else (l, t)

-- Condition::Wait, up to the call of Acquire that the thread makes when it runs again.
unfoldable pub wait :
    (Threads → Result Threads)
    → ℕ
    → Condition
    → Lock
    → Threads
    → Result (Condition × Lock × Threads)
unfolding release sleep
wait idle calls c l t = do
  let (l1, t1) = release l t
  t2 ← sleep idle calls t1
  ok (record { waiting_list = c.waiting_list ++ t.current_thread ∷ [] }, l1, t2)

unfoldable pub signal : Condition → Threads → Condition × Threads
unfolding wake
signal c t = let (waiting, t1) = wake c.waiting_list t in (record { waiting_list = waiting }, t1)

-- The loop of Broadcast, with at most `n` rounds: each calls Signal.
unfoldable pub broadcast_loop : ℕ → Condition → Threads → Condition × Threads
unfolding signal
broadcast_loop zero c t = (c, t)
broadcast_loop (suc n) c t =
    let (c1, t1) = signal c t in
    let rest = broadcast_loop n c1 t1 in elim c.waiting_list [ [] ↦ (c, t) | _ ∷ _ ↦ rest ]
