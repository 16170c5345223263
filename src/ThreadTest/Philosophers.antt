-- ===== src/ThreadTest/Philosophers.antt =====
-- The philosophers of code/threads/threadtest.cc that ask a server for both chopsticks: Philosopher with
-- server_get and server_ret. A semaphore is its value, as for the producers.
use nachos_lab.Base.{
  ℕ, zero, suc, ◌+◌, ◌-◌, ◌%◌, List, Option, none, some, ltb, if◌then◌else◌, get_or, set,
}

-- The semaphores `mutex` and `chopsticks`.
pub record Table : Type 0 where
  pub mutex : ℕ
  pub chopsticks : List ℕ

-- The P or V that a philosopher is at: the first P of `mutex` with the test of the loop, the two of
-- server_get, the V of `mutex`, its second P, the two of server_ret, and the last V.
pub data Act : Type 0 where
  thinks : Act
  takes_other : Act
  takes_own : Act
  begins : Act
  eats : Act
  returns_other : Act
  returns_own : Act
  ends : Act

-- A semaphore after P, unless the thread has to wait.
abbrev pub down : ℕ → Option ℕ
down zero = none
down (suc n) = some n

abbrev pub other : ℕ → ℕ
other which = (which + 4 - 1) % 4

-- A statement of the philosopher `which`, with the value of `i`.
unfoldable pub philosopher : ℕ → Act → ℕ → Table → Option (Act × ℕ × Table)
philosopher which thinks i t =
    if ltb i 10
    then elim (down t.mutex) [
      | none ↦ none
      | some m ↦ some (takes_other, i, record t { mutex = m })
    ]
    else none
philosopher which takes_other i t = elim (down (get_or t.chopsticks (other which) 0)) [
  | none ↦ none
  | some c ↦ some (takes_own, i, record t { chopsticks = set t.chopsticks (other which) c })
]
philosopher which takes_own i t = elim (down (get_or t.chopsticks which 0)) [
  | none ↦ none
  | some c ↦ some (begins, i, record t { chopsticks = set t.chopsticks which c })
]
philosopher which begins i t = some (eats, i, record t { mutex = t.mutex + 1 })
philosopher which eats i t = elim (down t.mutex) [
  | none ↦ none
  | some m ↦ some (returns_other, i, record t { mutex = m })
]
philosopher which returns_other i t = some (
  returns_own,
  i,
  record t {
    chopsticks = set t.chopsticks (other which) (get_or t.chopsticks (other which) 0 + 1);
  },
)
philosopher which returns_own i t =
    some
      (ends, i, record t { chopsticks = set t.chopsticks which (get_or t.chopsticks which 0 + 1) })
philosopher which ends i t = some (thinks, i + 1, record t { mutex = t.mutex + 1 })
