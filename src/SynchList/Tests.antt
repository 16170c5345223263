-- ===== src/SynchList/Tests.antt =====
-- A thread that waits in Remove, and one that appends an item: code/threads/synchlist.cc.
use nachos_lab.Base.{
  ◌+◌, ◌≤◌, [], ◌∷◌, ◌++◌, ◌≡◌, refl, ◌⊎◌, ok, ◌>>=◌, length, ℕ, List, err, assert,
}
use nachos_lab.SynchList.{
  leaving, testing, SynchList, init, run_holder, append, remove, wakes, runs, Reachable, begin,
  later, taking,
}
use nachos_lab.SynchList.Order.{first_in_first_out}
use nachos_lab.SynchList.Wakeup.{on_the_way, no_item_left}

-- Thread 2 waits, 7 and 8 are appended, and the thread has the lock again.
abbrev woken : SynchList
woken = record {
  list = 7 ∷ 8 ∷ [];
  place = testing 2;
  waiting = [];
  woken = [];
  appended = 7 ∷ 8 ∷ [];
  removed = [];
}

woken-Reachable : Reachable woken
unfolding init run_holder
woken-Reachable =
    let asleep = later (later begin (remove 2 refl)) (runs _ refl) in
    let first =
      later (later (later (later asleep (append 7 refl)) (runs _ refl)) (runs _ refl))
        (runs _ refl) in
    let second =
      later (later (later (later first (append 8 refl)) (runs _ refl)) (runs _ refl))
        (runs _ refl) in
    later second (wakes [] [] 2 refl refl)

-- It takes the first item.
tests_remove :
    (run_holder woken >>= run_holder)
    ≡ ok (record woken { list = 8 ∷ []; place = leaving; removed = 7 ∷ [] })
unfolding run_holder
tests_remove = refl

first_in_first_out_example :
    (woken.appended ≡ woken.removed ++ woken.list)
    × (((s' : SynchList) × (run_holder woken ≡ ok s'))
        ⊎ ((thread : ℕ) × (rest : List ℕ) × (woken.place ≡ taking thread)
            × (woken.list ≡ 0 ∷ rest)
            × (run_holder woken ≡ err assert)))
first_in_first_out_example = first_in_first_out woken-Reachable

no_item_left_example :
    (woken.waiting ≡ []) ⊎ (length woken.list ≤ length woken.woken + on_the_way woken.place)
no_item_left_example = no_item_left woken-Reachable
