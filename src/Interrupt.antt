-- ===== src/Interrupt.antt =====
-- code/machine/interrupt.cc and timer.cc: the simulated time, the interrupts that are to come, and the
-- hardware timer. The numbers of ticks are below 2 ^ 31, and the list `pending`, a sorted List of
-- list.cc, is the sequence of its items.
pub mod Time
pub mod Due
mod Tests
use nachos_lab.Base.{
  ℕ, zero, suc, ◌+◌, ◌-◌, ◌*◌, ◌%◌, Bool, true, false, not, ◌&&◌, ◌||◌, List, [], ◌∷◌, ltb,
  if◌then◌else◌, Result, ok, err, hang, halted, ◌>>=◌, ◌>>◌, check,
}

pub data IntStatus : Type 0 where
  int_off int_on : IntStatus

pub data MachineStatus : Type 0 where
  idle_mode system_mode user_mode : MachineStatus

pub data IntType : Type 0 where
  timer_int disk_int console_write_int console_read_int network_send_int network_recv_int : IntType

-- `handler` is the number of the procedure.
pub record PendingInterrupt : Type 0 where
  pub handler : ℕ
  pub arg : ℕ
  pub when : ℕ
  pub type : IntType

-- The last four are the counters of `stats`.
pub record Interrupt : Type 0 where
  pub level : IntStatus
  pub pending : List PendingInterrupt
  pub in_handler : Bool
  pub yield_on_return : Bool
  pub status : MachineStatus
  pub total_ticks : ℕ
  pub idle_ticks : ℕ
  pub system_ticks : ℕ
  pub user_ticks : ℕ

pub init : Interrupt
init = record {
  level = int_off;
  pending = [];
  in_handler = false;
  yield_on_return = false;
  status = system_mode;
  total_ticks = 0;
  idle_ticks = 0;
  system_ticks = 0;
  user_ticks = 0;
}

abbrev pub system_tick : ℕ
system_tick = 10

abbrev pub user_tick : ℕ
user_tick = 1

abbrev pub timer_ticks : ℕ
timer_ticks = 100

abbrev pub is_off : IntStatus → Bool
is_off int_off = true
is_off int_on = false

abbrev pub is_idle : MachineStatus → Bool
is_idle idle_mode = true
is_idle system_mode = false
is_idle user_mode = false

abbrev pub is_timer : IntType → Bool
is_timer timer_int = true
is_timer disk_int = false
is_timer console_write_int = false
is_timer console_read_int = false
is_timer network_send_int = false
is_timer network_recv_int = false

abbrev pub is_empty : List PendingInterrupt → Bool
is_empty [] = true
is_empty (p ∷ ps) = false

-- SortedInsert: behind those that are not later.
abbrev pub sorted_insert : PendingInterrupt → List PendingInterrupt → List PendingInterrupt
sorted_insert n [] = n ∷ []
sorted_insert n (p ∷ ps) = if ltb n.when p.when then n ∷ p ∷ ps else p ∷ sorted_insert n ps

abbrev pub scheduled : Interrupt → ℕ → ℕ → ℕ → IntType → Interrupt
scheduled s handler arg from_now type = record s {
  pending =
      sorted_insert
        (record { handler = handler; arg = arg; when = s.total_ticks + from_now; type = type })
        s.pending;
}

unfoldable pub schedule : Interrupt → ℕ → ℕ → ℕ → IntType → Result Interrupt
schedule s handler arg from_now type = do
  check (ltb 0 from_now)
  ok (scheduled s handler arg from_now type)

unfoldable pub yield_on_return : Interrupt → Result Interrupt
yield_on_return s = do check s.in_handler; ok (record s { yield_on_return = true })

-- Timer::TimeOfNextInterrupt; `random` is the next value of Random().
unfoldable pub time_of_next_interrupt : Bool → ℕ → ℕ
time_of_next_interrupt randomize random =
    if randomize then 1 + random % (timer_ticks * 2) else timer_ticks

-- Timer::TimerExpired, up to the call of the kernel's own handler; `timer_handler` is the number of
-- TimerHandler, and `this` its argument.
unfoldable pub timer_expired : ℕ → ℕ → Bool → ℕ → Interrupt → Result Interrupt
unfolding schedule time_of_next_interrupt
timer_expired timer_handler this randomize random s =
    schedule s timer_handler this (time_of_next_interrupt randomize random) timer_int

-- The clock of OneTick.
abbrev pub advance_in : MachineStatus → Interrupt → Interrupt
advance_in system_mode s = record s {
  total_ticks = s.total_ticks + system_tick;
  system_ticks = s.system_ticks + system_tick;
}
advance_in user_mode s = record s {
  total_ticks = s.total_ticks + user_tick;
  user_ticks = s.user_ticks + user_tick;
}
advance_in idle_mode s = record s {
  total_ticks = s.total_ticks + user_tick;
  user_ticks = s.user_ticks + user_tick;
}

unfoldable pub advance : Interrupt → Interrupt
advance s = advance_in s.status s

-- `call` is a handler's call, with the `DelayedLoad(0, 0)` of the machine before it, and `yield` is that
-- of the running thread; both act on the rest of the kernel, `World`, too.
module _ {World : Type 0} (call : PendingInterrupt → Interrupt → World → Result (Interrupt × World))
    (yield : Interrupt → World → Result (Interrupt × World)) where
  -- The end of CheckIfDue.
  unfoldable pub fire : PendingInterrupt → Interrupt → World → Result (Bool × Interrupt × World)
  fire p s w = do
    (s1, w1) ← call p (record s { in_handler = true; status = system_mode }) w
    ok (true, record s1 { status = s.status; in_handler = false }, w1)

  -- CheckIfDue with the first of the list removed from it; the clock may have been advanced.
  unfoldable pub fire_unless_done :
      PendingInterrupt
      → List PendingInterrupt
      → Interrupt
      → World
      → Result (Bool × Interrupt × World)
  unfolding fire
  fire_unless_done p ps s w =
      if is_idle s.status && is_timer p.type && is_empty ps
      then ok (false, record s { pending = sorted_insert p ps }, w)
      else fire p (record s { pending = ps }) w

  unfoldable pub check_first :
      Bool
      → PendingInterrupt
      → List PendingInterrupt
      → Interrupt
      → World
      → Result (Bool × Interrupt × World)
  unfolding fire_unless_done
  check_first advance_clock p ps s w =
      if advance_clock && ltb s.total_ticks p.when
      then fire_unless_done p ps
          (record s { idle_ticks = s.idle_ticks + (p.when - s.total_ticks); total_ticks = p.when })
          w
      else if ltb s.total_ticks p.when
      then ok (false, record s { pending = sorted_insert p ps }, w)
      else fire_unless_done p ps s w

  unfoldable pub check_if_due : Bool → Interrupt → World → Result (Bool × Interrupt × World)
  unfolding check_first
  check_if_due advance_clock s w = do
    check (is_off s.level)
    elim s.pending [ [] ↦ ok (false, s, w) | p ∷ ps ↦ check_first advance_clock p ps s w ]

  -- `while (CheckIfDue(FALSE));`, with at most `n` rounds.
  unfoldable pub due_loop : ℕ → Interrupt → World → Result (Interrupt × World)
  unfolding check_if_due
  due_loop zero s w = err hang
  due_loop (suc n) s w = do
    (fired, s1, w1) ← check_if_due false s w
    if fired then due_loop n s1 w1 else ok (s1, w1)

  unfoldable pub one_tick : ℕ → Interrupt → World → Result (Interrupt × World)
  unfolding advance due_loop
  one_tick n s w = do
    (s1, w1) ← due_loop n (record (advance s) { level = int_off }) w
    let s2 : Interrupt = record s1 { level = int_on }
    if s2.yield_on_return
        then (do
          (s3, w3) ← yield (record s2 { yield_on_return = false; status = system_mode }) w1
          ok (record s3 { status = s.status }, w3))
        else ok (s2, w1)

  unfoldable pub set_level :
      ℕ → IntStatus → Interrupt → World → Result (IntStatus × Interrupt × World)
  unfolding one_tick
  set_level n now s w = do
    check (is_off now || not s.in_handler)
    let s1 : Interrupt = record s { level = now }
    if not (is_off now) && is_off s.level
        then (do (s2, w2) ← one_tick n s1 w; ok (s.level, s2, w2))
        else ok (s.level, s1, w)

  unfoldable pub idle : ℕ → Interrupt → World → Result (Interrupt × World)
  unfolding check_if_due due_loop
  idle n s w = do
    (fired, s1, w1) ← check_if_due true (record s { status = idle_mode }) w
    if fired
        then (do
          (s2, w2) ← due_loop n s1 w1
          ok (record s2 { yield_on_return = false; status = system_mode }, w2))
        else err halted
