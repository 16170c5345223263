-- ===== src/SynchList.antt =====
-- code/threads/synchlist.cc: a list that many threads use, as a monitor with the lock `lock` and the
-- condition `listEmpty` of code/threads/synch.cc. At most one thread is between Acquire and Release, so
-- that a state has one place for it; a thread that is woken in Wait takes the lock again before it
-- goes on. The calls of Wait and Signal run with interrupts off, so that each is one step.
pub mod Order
pub mod Wakeup
mod Tests
use nachos_lab.Base.{
  ℕ, List, [], ◌∷◌, ◌++◌, Option, none, some, ◌≡◌, ◌≢◌, Result, ok, err, assert, zero, suc,
}

-- Where the thread is that holds the lock: in Append before `list->Append`, before Signal, before
-- Release, or, with its number, in Remove before the test of the loop and after the loop. `free` is no
-- such thread.
pub data Place : Type 0 where
  free : Place
  appending : ℕ → Place
  signalling : Place
  leaving : Place
  testing : ℕ → Place
  taking : ℕ → Place

-- `waiting` is the list of `listEmpty`, and `woken` the threads that Signal has made ready and that ask
-- for the lock in Wait. `appended` and `removed` are the items of all calls so far.
pub record SynchList : Type 0 where
  pub list : List ℕ
  pub place : Place
  pub waiting : List ℕ
  pub woken : List ℕ
  pub appended : List ℕ
  pub removed : List ℕ

unfoldable pub init : SynchList
init = record { list = []; place = free; waiting = []; woken = []; appended = []; removed = [] }

unfoldable pub append_item : ℕ → SynchList → SynchList
append_item item s = record s {
  list = s.list ++ item ∷ [];
  place = signalling;
  appended = s.appended ++ item ∷ [];
}

-- `listEmpty->Signal(lock)`, with the list of waiters.
unfoldable pub signal_waiter : List ℕ → SynchList → SynchList
signal_waiter [] s = record s { place = leaving }
signal_waiter (first ∷ rest) s = record s {
  place = leaving;
  waiting = rest;
  woken = s.woken ++ first ∷ [];
}

-- `while (list->IsEmpty()) listEmpty->Wait(lock);`, one test, with the items: Wait releases the lock.
unfoldable pub test_empty : ℕ → List ℕ → SynchList → SynchList
test_empty thread [] s = record s { place = free; waiting = s.waiting ++ thread ∷ [] }
test_empty thread (_ ∷ _) s = record s { place = taking thread }

-- `item = list->Remove(); ASSERT(item != NULL);`, with the items: NULL is 0, and what Remove gives for a
-- list with nothing in it.
unfoldable pub remove_item : List ℕ → SynchList → Result SynchList
remove_item [] s = err assert
remove_item (zero ∷ rest) s = err assert
remove_item (suc n ∷ rest) s =
    let item = suc n in
    ok (record s { list = rest; place = leaving; removed = s.removed ++ item ∷ [] })

-- The next statement of the thread at a place.
unfoldable pub run_at : Place → SynchList → Result SynchList
unfolding append_item signal_waiter test_empty remove_item
run_at free s = ok s
run_at (appending item) s = ok (append_item item s)
run_at signalling s = ok (signal_waiter s.waiting s)
run_at leaving s = ok (record s { place = free })
run_at (testing thread) s = ok (test_empty thread s.list s)
run_at (taking thread) s = remove_item s.list s

unfoldable pub run_holder : SynchList → Result SynchList
unfolding run_at
run_holder s = run_at s.place s

-- A thread takes the free lock, in Append, in Remove, or in Wait; or the one that has it goes on.
pub data Step (s : SynchList) : SynchList → Type 0 where
  append : (item : ℕ) → s.place ≡ free → Step s (record s { place = appending item })
  remove : (thread : ℕ) → s.place ≡ free → Step s (record s { place = testing thread })
  wakes :
      (before after : List ℕ) (thread : ℕ)
      → s.place ≡ free
      → s.woken ≡ before ++ thread ∷ after
      → Step s (record s { place = testing thread; woken = before ++ after })
  runs : (s' : SynchList) → run_holder s ≡ ok s' → Step s s'

pub data Reachable : SynchList → Type 0 where
  begin : Reachable init
  later : {s s' : SynchList} → Reachable s → Step s s' → Reachable s'
