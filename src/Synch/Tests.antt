-- ===== src/Synch/Tests.antt =====
-- The theorems of the lock at two threads, of which one holds it and the other waits.
use nachos_lab.Base.{
  ℕ, ◌<◌, ◌≤◌, ◌≡◌, refl, arith, true, false, none, some, [], ◌∷◌, ◌++◌, inr, ◌==◌, if◌then◌else◌,
}
use nachos_lab.Threads.{Threads, running, ready, yield}
use nachos_lab.Synch.{p, v, take, new_lock, broadcast_loop}
use nachos_lab.Synch.Protocol.{
  acquiring, System, Reachable, release_test, initial, gets, sleeps, takes, tests, gives, switches,
  begin, later,
}
use nachos_lab.Synch.Exclusion.{inside, mutual_exclusion}
use nachos_lab.Synch.Waiting.{count, census, Step-census}
use nachos_lab.Synch.Awake.{line, no_lost_wakeup}
use nachos_lab.Synch.Broadcast.{broadcast_loop-wakes}

abbrev three : Threads
three = record {
  current_thread = 1;
  ready_list = 2 ∷ 3 ∷ [];
  status = λ t. if t == 1 then running else ready;
  in_run = λ t. false;
  thread_to_be_destroyed = none;
  global_thread_list = some 1 ∷ some 2 ∷ some 3 ∷ [];
  pids = λ t. t;
}

-- Thread 1 takes the lock and yields; 2 and 3 ask for it and sleep, and 1 runs again.
unfoldable held : (s : System) × Reachable three s
unfolding p take new_lock yield
held = (
  _,
  later
      (later
        (later (later (later begin (gets refl refl)) (takes refl))
          (switches (λ e. ground arith) refl))
        (sleeps refl refl))
      (sleeps refl refl),
)

tests_held :
    (inside (held.0.stage 1) ≡ true)
    × (held.0.lock.lock.queue ≡ 2 ∷ 3 ∷ [])
    × (held.0.threads.current_thread ≡ 1)
unfolding held
tests_held = (refl, refl, refl)

-- Thread 1 releases the lock: 2 is ready, and 3 waits.
unfoldable freed : (s : System) × Reachable three s
unfolding held release_test v
freed = (_, later (later held.1 (tests (inr refl))) (gives refl))

mutual_exclusion_example : (◌≡◌ {A = ℕ} 1 1) × (held.0.lock.lock.value ≡ 0)
unfolding held
mutual_exclusion_example = mutual_exclusion three held.1 1 1 refl refl

tests_Step_census : count 2 (census (release_test held.0)) ≡ count 2 (census held.0)
unfolding held
tests_Step_census = Step-census (tests {s = held.0} (inr refl)) 2

once : (t : ℕ) → count t (census (initial three)) ≤ 1
unfolding count new_lock
once t = ground arith

no_lost_wakeup_example : (t : ℕ) × (0 < count t (line freed.0)) × (freed.0.stage t ≡ acquiring)
unfolding freed count
no_lost_wakeup_example = no_lost_wakeup three once freed.1 refl 3 (omega arith)

tests_broadcast_loop-wakes :
    ((broadcast_loop 2 (record { waiting_list = 7 ∷ 8 ∷ [] }) three).0.waiting_list ≡ [])
    × ((broadcast_loop 2 (record { waiting_list = 7 ∷ 8 ∷ [] }) three).1.ready_list
        ≡ three.ready_list ++ 7 ∷ 8 ∷ [])
    × ((broadcast_loop 2 (record { waiting_list = 7 ∷ 8 ∷ [] }) three).1.current_thread ≡ 1)
tests_broadcast_loop-wakes = broadcast_loop-wakes (7 ∷ 8 ∷ []) 2 three (omega arith)
