-- ===== src/ThreadTest/Tests.antt =====
-- A producer and a consumer, and four philosophers: code/threads/threadtest.cc.
use nachos_lab.Base.{
  ℕ, ◌≤◌, Option, none, get_or, set, List, [], ◌∷◌, ◌≡◌, refl, some, inl, inr, All,
}
use nachos_lab.Base.Int.{pos}
use nachos_lab.ThreadTest.{
  Shared, initial, claims, enters, changes, leaves, producer, consumer, run_worker, Reachable,
  begin, later,
}
use nachos_lab.ThreadTest.Buffer.{inside, total, buffer_bounded}
use nachos_lab.ThreadTest.Philosophers.{Act, thinks, takes_other, eats, Table, philosopher}
use nachos_lab.ThreadTest.Ends.{statements_left, Runs, stays, goes, runs_end}
use nachos_lab.ThreadTest.Stuck.{IsResting, IsStuck, no_deadlock}

-- The consumer waits from the start, and the producer is about to give back `mutex`.
abbrev half : Shared
half = record { itemnum = pos 1; empty = 9; full = 0; mutex = 0 }

half-Reachable : Reachable (producer leaves 1 ∷ consumer claims 1 ∷ []) half
unfolding run_worker
half-Reachable =
    let r0 = begin (producer claims 1 ∷ consumer claims 1 ∷ []) (inl refl, (inr refl, tt)) in
    let r1 = later [] (consumer claims 1 ∷ []) (producer claims 1) (producer enters 1) r0 refl in
    let r2 = later [] (consumer claims 1 ∷ []) (producer enters 1) (producer changes 1) r1 refl in
    later [] (consumer claims 1 ∷ []) (producer changes 1) (producer leaves 1) r2 refl

buffer_bounded_example :
    ((n : ℕ) × (half.itemnum ≡ pos n) × (n ≤ 10))
    × (total inside (producer leaves 1 ∷ consumer claims 1 ∷ []) ≤ 1)
buffer_bounded_example = buffer_bounded half-Reachable

-- Two consumers wait for an item.
waiting : All (IsStuck initial) (consumer claims 1 ∷ consumer claims 1 ∷ [])
unfolding run_worker
waiting = (refl, (refl, tt))

no_deadlock_example : All (IsResting initial) (consumer claims 1 ∷ consumer claims 1 ∷ [])
no_deadlock_example =
    no_deadlock (begin (consumer claims 1 ∷ consumer claims 1 ∷ []) (inr refl, (inr refl, tt)))
      waiting

abbrev Seats : Type 0
Seats = List (Act × ℕ) × Table

abbrev seated : Option (Act × ℕ × Table) → ℕ → List (Act × ℕ) → Option Seats
seated none which seats = none
seated (some (act, i, t)) which seats = some (set seats which (act, i), t)

-- The philosophers with these numbers, a statement each.
abbrev run_schedule : List ℕ → Seats → Option Seats
run_schedule [] (seats, t) = some (seats, t)
run_schedule (which ∷ rest) (seats, t) =
    let here = get_or seats which (thinks, 0) in
    elim (seated (philosopher which here.0 here.1 t) which seats) [
      | none ↦ none
      | some next ↦ run_schedule rest next
    ]

abbrev table : Table
table = record { mutex = 1; chopsticks = 1 ∷ 1 ∷ 1 ∷ 1 ∷ [] }

-- Philosopher 0 eats; 1 has `mutex` and waits for the chopstick between them; and neither 0, which asks
-- for `mutex` to give it back, nor the others can go on.
abbrev taken : Table
taken = record { mutex = 0; chopsticks = 0 ∷ 1 ∷ 1 ∷ 0 ∷ [] }

tests_deadlock :
    (run_schedule
        (0 ∷ 0 ∷ 0 ∷ 0 ∷ 1 ∷ [])
        ((thinks, 0) ∷ (thinks, 0) ∷ (thinks, 0) ∷ (thinks, 0) ∷ [], table)
      ≡ some ((eats, 0) ∷ (takes_other, 0) ∷ (thinks, 0) ∷ (thinks, 0) ∷ [], taken))
    × ((philosopher 0 eats 0 taken ≡ none)
        × ((philosopher 1 takes_other 0 taken ≡ none)
            × ((philosopher 2 thinks 0 taken ≡ none) × (philosopher 3 thinks 0 taken ≡ none))))
unfolding philosopher
tests_deadlock = (refl, (refl, (refl, (refl, refl))))

-- The three statements of the producer above.
three : Runs 3 (producer claims 1 ∷ consumer claims 1 ∷ []) initial
unfolding run_worker
three =
    goes {s' = record initial { empty = 9 }} [] (consumer claims 1 ∷ []) (producer claims 1)
      (producer enters 1) refl
      (goes {s' = record initial { empty = 9; mutex = 0 }} [] (consumer claims 1 ∷ [])
        (producer enters 1) (producer changes 1) refl
        (goes [] (consumer claims 1 ∷ []) (producer changes 1) (producer leaves 1) refl
          (stays (producer leaves 1 ∷ consumer claims 1 ∷ []) half)))

runs_end_example : 3 ≤ total statements_left (producer claims 1 ∷ consumer claims 1 ∷ [])
runs_end_example =
    runs_end (begin (producer claims 1 ∷ consumer claims 1 ∷ []) (inl refl, (inr refl, tt))) three
