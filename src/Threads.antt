-- ===== src/Threads.antt =====
-- code/threads/thread.cc and scheduler.cc: the threads of the kernel and the one processor they share.
-- A pointer to a thread is its number; the ready list, a List of list.cc, is the sequence of its
-- items. The calls run with interrupts off, so that each is one step of the system.
pub mod Fair
pub mod Census
pub mod Finish
pub mod Switch
mod Tests
use nachos_lab.Base.{
  ℕ, zero, suc, ◌+◌, Bool, true, false, Option, none, some, List, [], ◌∷◌, ◌++◌, ◌==◌,
  if◌then◌else◌, set, length, Result, ok, err, hang, ◌>>=◌, ◌>>◌, check,
}

pub data ThreadStatus : Type 0 where
  just_created running ready blocked : ThreadStatus

-- `in_run` are the threads that SWITCH has left inside Scheduler::Run, where they will go on; the
-- others have not run yet, and begin in ThreadRoot. `pids` is `new_add_pid` of each thread.
pub record Threads : Type 0 where
  pub current_thread : ℕ
  pub ready_list : List ℕ
  pub status : ℕ → ThreadStatus
  pub in_run : ℕ → Bool
  pub thread_to_be_destroyed : Option ℕ
  pub global_thread_list : List (Option ℕ)
  pub pids : ℕ → ℕ

abbrev pub max_thread_num : ℕ
max_thread_num = 128

-- A function with another value at one number.
abbrev pub update : {A : Type 0} → (ℕ → A) → ℕ → A → ℕ → A
update f t v u = if t == u then v else f u

-- `GlobalThreadList[i] == NULL`, and `== thread`
abbrev pub is_empty_slot : Option ℕ → Bool
is_empty_slot none = true
is_empty_slot (some t) = false

abbrev pub is_slot_of : ℕ → Option ℕ → Bool
is_slot_of thread none = false
is_slot_of thread (some t) = t == thread

-- GlobalThreadManager::AddNewThreadtoList, from slot `i` on: the slot that is taken.
unfoldable pub add_loop : List (Option ℕ) → ℕ → ℕ → Option ℕ × List (Option ℕ)
add_loop [] i thread = (none, [])
add_loop (slot ∷ slots) i thread =
    let (place, rest) = add_loop slots (i + 1) thread in
    if is_empty_slot slot then (some i, some thread ∷ slots) else (place, slot ∷ rest)

-- The pid of the thread is its slot.
abbrev pub placed : Threads → ℕ → Option ℕ × List (Option ℕ) → Bool × Threads
placed s thread (none, slots) = (false, s)
placed s thread (some i, slots) =
    (true, record s { global_thread_list = slots; pids = update s.pids thread i })

unfoldable pub add_new_thread_to_list : Threads → ℕ → Bool × Threads
unfolding add_loop
add_new_thread_to_list s thread = placed s thread (add_loop s.global_thread_list 0 thread)

-- GlobalThreadManager::RemoveThreadFromList.
unfoldable pub remove_loop : List (Option ℕ) → ℕ → Bool × List (Option ℕ)
remove_loop [] thread = (false, [])
remove_loop (slot ∷ slots) thread =
    let (done, rest) = remove_loop slots thread in
    if is_slot_of thread slot then (true, none ∷ slots) else (done, slot ∷ rest)

unfoldable pub remove_thread_from_list : Threads → ℕ → Bool × Threads
unfolding remove_loop
remove_thread_from_list s thread =
    let (done, slots) = remove_loop s.global_thread_list thread in
    (done, record s { global_thread_list = slots })

-- Thread::~Thread, less the stack and the address space.
unfoldable pub delete_thread : Threads → ℕ → Result Threads
unfolding remove_thread_from_list
delete_thread s thread = do
  let s1 = (remove_thread_from_list s thread).1
  check (if thread == s1.current_thread then false else true)
  ok s1

-- Thread::Thread: where the list is full, the constructor calls the destructor.
unfoldable pub new_thread : Threads → ℕ → Result Threads
unfolding add_new_thread_to_list delete_thread
new_thread s thread =
    let s1 : Threads = record s {
      status = update s.status thread just_created;
      in_run = update s.in_run thread false;
    } in
    let (added, s2) = add_new_thread_to_list s1 thread in
    if added then ok s2 else delete_thread s2 thread

unfoldable pub set_status : Threads → ℕ → ThreadStatus → Threads
set_status s thread st = record s { status = update s.status thread st }

unfoldable pub ready_to_run : Threads → ℕ → Threads
unfolding set_status
ready_to_run s thread =
    set_status (record s { ready_list = s.ready_list ++ thread ∷ [] }) thread ready

unfoldable pub find_next_to_run : Threads → Option ℕ × Threads
find_next_to_run s = elim s.ready_list [
  | [] ↦ (none, s)
  | t ∷ ts ↦ (some t, record s { ready_list = ts })
]

-- The end of Scheduler::Run, in the thread that SWITCH has gone to, where it was left there.
unfoldable pub after_switch : Threads → Result Threads
unfolding delete_thread
after_switch s = elim s.thread_to_be_destroyed [
  | none ↦ ok s
  | some t ↦ do s1 ← delete_thread s t; ok (record s1 { thread_to_be_destroyed = none })
]

unfoldable pub run : Threads → ℕ → Result Threads
unfolding set_status after_switch
run s next =
    let s1 : Threads = record s {
      in_run = update s.in_run s.current_thread true;
      current_thread = next;
    } in
    let s2 = set_status s1 next running in if s1.in_run next then after_switch s2 else ok s2

-- Thread::Fork, after the stack is allocated.
unfoldable pub fork : Threads → ℕ → Threads
unfolding ready_to_run
fork s thread = ready_to_run s thread

-- Thread::Yield, of the running thread.
unfoldable pub yield : Threads → Result Threads
unfolding find_next_to_run ready_to_run run
yield s =
    let (next, s1) = find_next_to_run s in
    elim next [ none ↦ ok s1 | some t ↦ run (ready_to_run s1 s1.current_thread) t ]

-- `idle` is Interrupt::Idle, with what the handlers of the interrupts do to the threads.
module _ (idle : Threads → Result Threads) where
  -- The loop of Thread::Sleep, with `n` calls of Idle left.
  unfoldable pub sleep_loop : ℕ → Threads → Result Threads
  unfolding find_next_to_run run
  sleep_loop zero s =
      let (next, s1) = find_next_to_run s in elim next [ some t ↦ run s1 t | none ↦ err hang ]
  sleep_loop (suc n) s =
      let (next, s1) = find_next_to_run s in
      elim next [ some t ↦ run s1 t | none ↦ idle s1 >>= sleep_loop n ]

  unfoldable pub sleep : ℕ → Threads → Result Threads
  unfolding sleep_loop set_status
  sleep n s = sleep_loop n (set_status s s.current_thread blocked)

  unfoldable pub finish : ℕ → Threads → Result Threads
  unfolding sleep
  finish n s = sleep n (record s { thread_to_be_destroyed = some s.current_thread })
