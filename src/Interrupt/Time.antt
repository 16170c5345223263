-- ===== src/Interrupt/Time.antt =====
-- The clock and the list of pending interrupts of code/machine/interrupt.cc and timer.cc.
use nachos_lab.Base.{
  ℕ, zero, suc, ◌+◌, ◌-◌, ◌≤◌, ◌<◌, ◌≡◌, refl, arith, Bool, true, false, ◌&&◌, List, [], ◌∷◌, ltb,
  All, lt→ltb, Bool-cases, inl, inr, Result, ok,
}
use nachos_lab.Base.Yields.{Yields, yields, fails, Yields->>=, Yields-if, Yields-check}
use nachos_lab.Interrupt.{
  PendingInterrupt, Interrupt, IntType, MachineStatus, idle_mode, system_mode, user_mode, int_off,
  int_on, sorted_insert, scheduled, schedule, timer_int, advance_in, time_of_next_interrupt,
  timer_expired, advance, fire, fire_unless_done, check_first, check_if_due, due_loop, one_tick,
  is_idle, is_timer, is_empty, is_off,
}

-- No interrupt is earlier than the one before it.
abbrev pub IsSorted : List PendingInterrupt → Type 0
IsSorted [] = Unit {0}
IsSorted (p ∷ ps) = All (λ q. p.when ≤ q.when) ps × IsSorted ps

module _ (P : PendingInterrupt → Type 0) where
  pub All-sorted_insert :
      (n : PendingInterrupt) (ps : List PendingInterrupt)
      → P n
      → All P ps
      → All P (sorted_insert n ps)
  All-sorted_insert n [] h a = (h, tt)
  All-sorted_insert n (p ∷ ps) h (x, a) = elim (Bool-cases (ltb n.when p.when)) [
    | inl e ↦ rw e (h, (x, a))
    | inr e ↦ rw e (x, All-sorted_insert n ps h a)
  ]

  pub All-imp :
      (Q : PendingInterrupt → Type 0) (ps : List PendingInterrupt)
      → ((p : PendingInterrupt) → P p → Q p)
      → All P ps
      → All Q ps
  All-imp Q [] f a = tt
  All-imp Q (p ∷ ps) f (h, a) = (f p h, All-imp Q ps f a)

pub sorted_insert-IsSorted :
    (n : PendingInterrupt) (ps : List PendingInterrupt)
    → IsSorted ps
    → IsSorted (sorted_insert n ps)
sorted_insert-IsSorted n [] s = (tt, tt)
sorted_insert-IsSorted n (p ∷ ps) (before, s) = elim (Bool-cases (ltb n.when p.when)) [
  | inl e ↦
      let h : n.when ≤ p.when = ground arith in
      rw e (
        (h, All-imp (λ q. p.when ≤ q.when) (λ q. n.when ≤ q.when) ps (λ q l. omega arith) before),
        (before, s),
      )
  | inr e ↦
      let h : p.when ≤ n.when = ground arith in
      rw e (All-sorted_insert (λ q. p.when ≤ q.when) n ps h before, sorted_insert-IsSorted n ps s)
]

-- Every tick is counted once, and the list is in order.
pub record IsClock (s : Interrupt) : Type 0 where
  pub accounted : s.total_ticks ≡ s.idle_ticks + s.system_ticks + s.user_ticks
  pub sorted : IsSorted s.pending

scheduled-IsClock :
    (s : Interrupt) (handler arg from_now : ℕ) (type : IntType)
    → IsClock s
    → IsClock (scheduled s handler arg from_now type)
scheduled-IsClock s handler arg from_now type c = record {
  accounted = c.accounted;
  sorted = sorted_insert-IsSorted _ s.pending c.sorted;
}

pub schedule-IsClock :
    (s : Interrupt) (handler arg from_now : ℕ) (type : IntType)
    → IsClock s
    → Yields IsClock (schedule s handler arg from_now type)
unfolding schedule
schedule-IsClock s handler arg from_now type c =
    Yields-check (ltb 0 from_now) (yields (scheduled-IsClock s handler arg from_now type c))

advance_in-IsClock :
    (status : MachineStatus) (s : Interrupt) → IsClock s → IsClock (advance_in status s)
advance_in-IsClock system_mode s c = record {
  accounted = omega (arith, c.accounted);
  sorted = c.sorted;
}
advance_in-IsClock user_mode s c = record {
  accounted = omega (arith, c.accounted);
  sorted = c.sorted;
}
advance_in-IsClock idle_mode s c = record {
  accounted = omega (arith, c.accounted);
  sorted = c.sorted;
}

pub advance-IsClock : (s : Interrupt) → IsClock s → IsClock (advance s)
unfolding advance
advance-IsClock s c = advance_in-IsClock s.status s c

-- The timer: its next interrupt is 1 to 200 ticks away, so that the ASSERT of Schedule holds, and the
-- clock stays in order.
pub timer_expired-IsClock :
    (timer_handler this random : ℕ) (randomize : Bool) (s : Interrupt)
    → IsClock s
    → (s' : Interrupt) × (timer_expired timer_handler this randomize random s ≡ ok s')
      × IsClock s'
      × (0 < time_of_next_interrupt randomize random)
      × (time_of_next_interrupt randomize random ≤ 200)
unfolding timer_expired schedule time_of_next_interrupt
timer_expired-IsClock timer_handler this random randomize s c =
    let delay = time_of_next_interrupt randomize random in
    let h : 0 < delay = positive randomize random in
    (
      scheduled s timer_handler this delay timer_int,
      rw (lt→ltb 0 delay h) refl,
      scheduled-IsClock s timer_handler this delay timer_int c,
      h,
      at_most randomize random,
    )
  where
    positive : (randomize : Bool) (random : ℕ) → 0 < time_of_next_interrupt randomize random
    positive true random = omega arith
    positive false random = omega arith

    at_most : (randomize : Bool) (random : ℕ) → time_of_next_interrupt randomize random ≤ 200
    at_most true random = omega arith
    at_most false random = omega arith

module _ {World : Type 0} (call : PendingInterrupt → Interrupt → World → Result (Interrupt × World))
    (yield : Interrupt → World → Result (Interrupt × World))
    (call-IsClock : (p : PendingInterrupt) (s : Interrupt) (w : World)
      → IsClock s
      → Yields (λ r. IsClock r.0) (call p s w))
    (yield-IsClock : (s : Interrupt) (w : World)
      → IsClock s
      → Yields (λ r. IsClock r.0) (yield s w)) where
  fire-IsClock :
      (p : PendingInterrupt) (s : Interrupt) (w : World)
      → IsClock s
      → Yields (λ r. IsClock r.1) (fire call yield p s w)
  unfolding fire
  fire-IsClock p s w c =
      Yields->>= (call-IsClock p _ w (record { accounted = c.accounted; sorted = c.sorted }))
        (λ r d. yields (record { accounted = d.accounted; sorted = d.sorted }))

  fire_unless_done-IsClock :
      (p : PendingInterrupt) (ps : List PendingInterrupt) (s : Interrupt) (w : World)
      → IsSorted (p ∷ ps)
      → s.total_ticks ≡ s.idle_ticks + s.system_ticks + s.user_ticks
      → Yields (λ r. IsClock r.1) (fire_unless_done call yield p ps s w)
  unfolding fire_unless_done
  fire_unless_done-IsClock p ps s w (before, sorted) accounted =
      Yields-if (is_idle s.status && is_timer p.type && is_empty ps)
        (λ _.
          yields (record { accounted = accounted; sorted = sorted_insert-IsSorted p ps sorted }))
        (λ _.
          fire-IsClock p (record s { pending = ps }) w
            (record { accounted = accounted; sorted = sorted }))

  check_first-IsClock :
      (advance_clock : Bool) (p : PendingInterrupt) (ps : List PendingInterrupt) (s : Interrupt)
      (w : World)
      → IsSorted (p ∷ ps)
      → s.total_ticks ≡ s.idle_ticks + s.system_ticks + s.user_ticks
      → Yields (λ r. IsClock r.1) (check_first call yield advance_clock p ps s w)
  unfolding check_first
  check_first-IsClock advance_clock p ps s w sorted accounted =
      Yields-if (advance_clock && ltb s.total_ticks p.when)
        (λ e.
          fire_unless_done-IsClock p ps
            (record s {
              idle_ticks = s.idle_ticks + (p.when - s.total_ticks);
              total_ticks = p.when;
            })
            w sorted (ground (arith, accounted)))
        (λ _.
          Yields-if (ltb s.total_ticks p.when)
            (λ _.
              yields
                (record { accounted = accounted; sorted = sorted_insert-IsSorted p ps (sorted.1) }))
            (λ _. fire_unless_done-IsClock p ps s w sorted accounted))

  pub check_if_due-IsClock :
      (advance_clock : Bool) (s : Interrupt) (w : World)
      → IsClock s
      → Yields (λ r. IsClock r.1) (check_if_due call yield advance_clock s w)
  unfolding check_if_due
  check_if_due-IsClock advance_clock s w c =
      Yields-check (is_off s.level) (first s.pending c.sorted refl)
    where
      first :
          (ps : List PendingInterrupt)
          → IsSorted ps
          → s.pending ≡ ps
          → Yields {X = Bool × Interrupt × World}
              (λ r. IsClock r.1)
              (elim ps [
                | [] ↦ ok (false, s, w)
                | p ∷ ps ↦ check_first call yield advance_clock p ps s w
              ])
      first [] sorted e = yields c
      first (p ∷ ps) sorted e = check_first-IsClock advance_clock p ps s w sorted c.accounted

  pub due_loop-IsClock :
      (n : ℕ) (s : Interrupt) (w : World)
      → IsClock s
      → Yields (λ r. IsClock r.0) (due_loop call yield n s w)
  unfolding due_loop
  due_loop-IsClock zero s w c = fails tt
  due_loop-IsClock (suc n) s w c =
      Yields->>= (check_if_due-IsClock false s w c)
        (λ (fired, s1, w1) d. Yields-if fired (λ _. due_loop-IsClock n s1 w1 d) (λ _. yields d))

  -- OneTick: the total is the sum of the three counters and the list of pending interrupts is in order,
  -- where the handlers and the yield keep that.
  pub one_tick-IsClock :
      (n : ℕ) (s : Interrupt) (w : World)
      → IsClock s
      → Yields (λ r. IsClock r.0) (one_tick call yield n s w)
  unfolding one_tick
  one_tick-IsClock n s w c =
      let a = advance-IsClock s c in
      Yields->>=
        (due_loop-IsClock n (record (advance s) { level = int_off }) w
          (record { accounted = a.accounted; sorted = a.sorted }))
        (λ (s1, w1) d.
          Yields-if s1.yield_on_return
            (λ _.
              Yields->>=
                (yield-IsClock
                  (record s1 { level = int_on; yield_on_return = false; status = system_mode }) w1
                  (record { accounted = d.accounted; sorted = d.sorted }))
                (λ r e. yields (record { accounted = e.accounted; sorted = e.sorted })))
            (λ _. yields (record { accounted = d.accounted; sorted = d.sorted })))
