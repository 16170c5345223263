-- ===== src/ThreadTest.antt =====
-- The producers and consumers of code/threads/threadtest.cc with semaphores: any number of threads that
-- run Producer_semaphore and Consumer_semaphore. A semaphore is its value: a thread that sleeps in P
-- tests the value again when it runs, and is at the same statement until it gets through.
pub mod Buffer
pub mod Stuck
pub mod Ends
pub mod Philosophers
mod Tests
use nachos_lab.Base.{
  ℕ, zero, suc, ◌+◌, ◌-◌, ◌≡◌, List, [], ◌∷◌, ◌++◌, Option, none, some, ltb, leb, ◌&&◌,
  if◌then◌else◌, All, ◌⊎◌,
}
use nachos_lab.Base.Int.{ℤ, pos, negsuc}

-- `itemnum` and the semaphores that the threads share.
pub record Shared : Type 0 where
  pub itemnum : ℤ
  pub empty : ℕ
  pub full : ℕ
  pub mutex : ℕ

abbrev pub initial : Shared
initial = record { itemnum = pos 0; empty = 10; full = 0; mutex = 1 }

abbrev pub increment : ℤ → ℤ
increment (pos n) = pos (n + 1)
increment (negsuc zero) = pos 0
increment (negsuc (suc n)) = negsuc n

abbrev pub decrement : ℤ → ℤ
decrement (pos zero) = negsuc 0
decrement (pos (suc n)) = pos n
decrement (negsuc n) = negsuc (suc n)

-- The statement that a thread is at: the P of `empty` or `full` with the test of its loop, the P of
-- `mutex`, the change of `itemnum`, the V of `mutex`, and the V of `full` or `empty`.
pub data Statement : Type 0 where
  claims : Statement
  enters : Statement
  changes : Statement
  leaves : Statement
  signals : Statement

-- A thread, with the value of `loop`.
pub data Worker : Type 0 where
  producer : Statement → ℕ → Worker
  consumer : Statement → ℕ → Worker

-- A statement of Producer_semaphore; none where the thread has to wait or its loop has ended.
unfoldable pub produce : Statement → ℕ → Shared → Option (Worker × Shared)
produce claims loop s =
    if leb loop 5 && ltb 0 s.empty
    then some (producer enters loop, record s { empty = s.empty - 1 })
    else none
produce enters loop s =
    if ltb 0 s.mutex then some (producer changes loop, record s { mutex = s.mutex - 1 }) else none
produce changes loop s = some (producer leaves loop, record s { itemnum = increment s.itemnum })
produce leaves loop s = some (producer signals loop, record s { mutex = s.mutex + 1 })
produce signals loop s = some (producer claims (loop + 1), record s { full = s.full + 1 })

-- A statement of Consumer_semaphore.
unfoldable pub consume : Statement → ℕ → Shared → Option (Worker × Shared)
consume claims loop s =
    if leb loop 10 && ltb 0 s.full
    then some (consumer enters loop, record s { full = s.full - 1 })
    else none
consume enters loop s =
    if ltb 0 s.mutex then some (consumer changes loop, record s { mutex = s.mutex - 1 }) else none
consume changes loop s = some (consumer leaves loop, record s { itemnum = decrement s.itemnum })
consume leaves loop s = some (consumer signals loop, record s { mutex = s.mutex + 1 })
consume signals loop s = some (consumer claims (loop + 1), record s { empty = s.empty + 1 })

unfoldable pub run_worker : Worker → Shared → Option (Worker × Shared)
unfolding produce consume
run_worker (producer statement loop) s = produce statement loop s
run_worker (consumer statement loop) s = consume statement loop s

-- A thread that has not begun.
abbrev pub IsNew : Worker → Type 0
IsNew w = (w ≡ producer claims 1) ⊎ (w ≡ consumer claims 1)

-- Threads, in any number, and any order of their statements.
pub data Reachable : List Worker → Shared → Type 0 where
  begin : (ws : List Worker) → All IsNew ws → Reachable ws initial
  later :
      {s s' : Shared} (before after : List Worker) (w w' : Worker)
      → Reachable (before ++ w ∷ after) s
      → run_worker w s ≡ some (w', s')
      → Reachable (before ++ w' ∷ after) s'
