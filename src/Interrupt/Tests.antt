-- ===== src/Interrupt/Tests.antt =====
-- The theorems of the interrupts at a clock with two interrupts, and a handler that schedules itself.
use nachos_lab.Base.{◌+◌, ◌<◌, ◌≤◌, ◌≡◌, refl, arith, true, false, [], ◌∷◌, Result, ok, ◌>>=◌}
use nachos_lab.Base.Yields.{Yields, yields, Yields->>=}
use nachos_lab.Interrupt.{
  PendingInterrupt, Interrupt, int_off, int_on, system_mode, timer_int, disk_int, schedule,
  time_of_next_interrupt, timer_expired, due_loop, one_tick, idle,
}
use nachos_lab.Interrupt.Time.{
  IsClock, IsSorted, schedule-IsClock, timer_expired-IsClock, one_tick-IsClock,
  sorted_insert-IsSorted,
}
use nachos_lab.Interrupt.Due.{
  Ends, ends, due, IsHandled, AllLater, due-sorted_insert, due_loop-AllLater,
}

abbrev disk : PendingInterrupt
disk = record { handler = 1; arg = 0; when = 205; type = disk_int }

abbrev timer : PendingInterrupt
timer = record { handler = 0; arg = 0; when = 300; type = timer_int }

abbrev clock : Interrupt
clock = record {
  level = int_on;
  pending = disk ∷ timer ∷ [];
  in_handler = false;
  yield_on_return = false;
  status = system_mode;
  total_ticks = 200;
  idle_ticks = 50;
  system_ticks = 100;
  user_ticks = 50;
}

clock-IsClock : IsClock clock
clock-IsClock = record { accounted = refl; sorted = ((omega arith, tt), ((tt, tt))) }

-- A handler that schedules the timer again.
abbrev again : PendingInterrupt → Interrupt → Unit {0} → Result (Interrupt × Unit {0})
again p s w = do s1 ← schedule s 0 0 100 timer_int; ok (s1, w)

abbrev nobody : Interrupt → Unit {0} → Result (Interrupt × Unit {0})
nobody s w = ok (s, w)

again-IsClock :
    (p : PendingInterrupt) (s : Interrupt) (w : Unit {0})
    → IsClock s
    → Yields (λ r. IsClock r.0) (again p s w)
again-IsClock p s w c = Yields->>= (schedule-IsClock s 0 0 100 timer_int c) (λ s1 d. yields d)

-- A tick makes the disk's interrupt due; with nothing to run, the clock is advanced to it.
tests_ticks :
    (one_tick again nobody 3 clock tt
      ≡ ok (
        record clock {
          pending = timer ∷ record { handler = 0; arg = 0; when = 310; type = timer_int } ∷ [];
          total_ticks = 210;
          system_ticks = 110;
        },
        tt,
      ))
    × (idle again nobody 3 (record clock { level = int_off }) tt
        ≡ ok (
          record clock {
            level = int_off;
            pending = timer ∷ record { handler = 0; arg = 0; when = 305; type = timer_int } ∷ [];
            total_ticks = 205;
            idle_ticks = 55;
          },
          tt,
        ))
unfolding one_tick idle schedule
tests_ticks = (refl, refl)

one_tick-IsClock_example : Yields (λ r. IsClock r.0) (one_tick again nobody 3 clock tt)
one_tick-IsClock_example =
    one_tick-IsClock again nobody again-IsClock (λ s w c. yields c) 3 clock tt clock-IsClock

tests_timer_expired-IsClock :
    (s' : Interrupt) × (timer_expired 0 0 true 777 clock ≡ ok s')
    × IsClock s'
    × (0 < time_of_next_interrupt true 777)
    × (time_of_next_interrupt true 777 ≤ 200)
tests_timer_expired-IsClock = timer_expired-IsClock 0 0 777 true clock clock-IsClock

again-IsHandled :
    (p : PendingInterrupt) (s : Interrupt) (w : Unit {0})
    → IsSorted s.pending
    → Ends (λ r. IsHandled s r.0) (again p s w)
unfolding schedule
again-IsHandled p s w sorted = ends (record {
  level = refl;
  clock = refl;
  sorted = sorted_insert-IsSorted _ s.pending sorted;
  fewer = omega (
    arith,
    due-sorted_insert s.total_ticks
        (record { handler = 0; arg = 0; when = s.total_ticks + 100; type = timer_int }) s.pending
        (omega arith),
  );
})

-- Both interrupts are due at tick 400.
abbrev late : Interrupt
late = record clock { level = int_off; total_ticks = 400 }

due_loop-AllLater_example :
    Ends (λ r. (r.0.total_ticks ≡ 400) × AllLater r.0) (due_loop again nobody 3 late tt)
unfolding due
due_loop-AllLater_example =
    due_loop-AllLater again nobody again-IsHandled 3 late tt
      (record { level = refl; busy = refl; sorted = clock-IsClock.sorted }) (omega arith)
