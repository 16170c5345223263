-- ===== src/Threads/Tests.antt =====
-- The theorems of the threads at a kernel with three of them.
use nachos_lab.Base.{
  ℕ, ◌+◌, ◌-◌, ◌>>=◌, ◌≡◌, refl, arith, true, Option, none, some, List, [], ◌∷◌, Result, ok, err,
  halted, get_elem?, set, ◌==◌, if◌then◌else◌,
}
use nachos_lab.Threads.{
  Threads, running, ready, add_new_thread_to_list, remove_thread_from_list, new_thread, finish,
}
use nachos_lab.Threads.Fair.{yield_times, yield_times-reaches}
use nachos_lab.Threads.Census.{free_slots, add_new_thread_to_list-takes, remove-add_new}
use nachos_lab.Threads.Finish.{cleaned, left, finish-next}

-- Thread 1 runs, 2 and 3 are ready; 2 has run before.
abbrev kernel : Threads
kernel = record {
  current_thread = 1;
  ready_list = 2 ∷ 3 ∷ [];
  status = λ t. if t == 1 then running else ready;
  in_run = λ t. t == 2;
  thread_to_be_destroyed = none;
  global_thread_list = some 1 ∷ some 2 ∷ some 3 ∷ none ∷ none ∷ [];
  pids = λ t. t - 1;
}

abbrev nothing : Threads → Result Threads
nothing t = err halted

-- The list of all threads after a run.
abbrev everyone : Result Threads → List (Option ℕ)
everyone (ok s) = s.global_thread_list
everyone (err e) = []

-- Thread 1 ends and 2 runs, which destroys it; with 3 first in the list, 1 stays in the list of all.
tests_finish :
    (everyone (finish nothing 0 kernel) ≡ none ∷ some 2 ∷ some 3 ∷ none ∷ none ∷ [])
    × (everyone (finish nothing 0 (record kernel { ready_list = 3 ∷ [] }))
        ≡ some 1 ∷ some 2 ∷ some 3 ∷ none ∷ none ∷ [])
    × (everyone (new_thread kernel 9) ≡ some 1 ∷ some 2 ∷ some 3 ∷ some 9 ∷ none ∷ [])
unfolding finish new_thread
tests_finish = (refl, refl, refl)

-- Two threads in a row that end before the next has run: the first stays in the list for good.
tests_forgotten :
    everyone (do
      s1 ← finish nothing 0 (record kernel { ready_list = 3 ∷ 4 ∷ 2 ∷ [] })
      s2 ← finish nothing 0 s1
      finish nothing 0 s2)
    ≡ some 1 ∷ some 2 ∷ some 3 ∷ none ∷ none ∷ []
unfolding finish
tests_forgotten = refl

yield_times-reaches_example :
    (s' : Threads) × (yield_times 2 kernel ≡ ok s') × (s'.current_thread ≡ 3)
yield_times-reaches_example = yield_times-reaches 1 kernel 3 refl refl

tests_add_new_thread_to_list_takes :
    (k : ℕ) × (s' : Threads) × (add_new_thread_to_list kernel 9 ≡ (true, s'))
    × (get_elem? kernel.global_thread_list k ≡ some none)
    × (s'.global_thread_list ≡ set kernel.global_thread_list k (some 9))
    × (s'.pids 9 ≡ k)
    × (free_slots s'.global_thread_list + 1 ≡ free_slots kernel.global_thread_list)
unfolding free_slots
tests_add_new_thread_to_list_takes = add_new_thread_to_list-takes kernel 9 (omega arith)

tests_remove_add_new :
    (s' : Threads) × (add_new_thread_to_list kernel 9 ≡ (true, s'))
    × ((remove_thread_from_list s' 9).0 ≡ true)
    × ((remove_thread_from_list s' 9).1.global_thread_list ≡ kernel.global_thread_list)
unfolding free_slots
tests_remove_add_new =
    remove-add_new kernel 9 (omega arith) (refl, (refl, (refl, (refl, (refl, tt)))))

finish-next_example :
    finish nothing 0 kernel
    ≡ ok (if kernel.in_run 2 then cleaned kernel 2 (3 ∷ []) 0 else left kernel 2 (3 ∷ []))
finish-next_example =
    finish-next nothing 0 kernel 2 (3 ∷ []) 0 refl (omega arith) refl (λ j h. absurd (omega arith))
