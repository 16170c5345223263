-- ===== src/Synch/Waiting.antt =====
-- The threads that wait for a lock of code/threads/synch.cc: no step loses one.
use nachos_lab.Base.{
  ℕ, ◌+◌, ◌≡◌, inl, inr, refl, ap, arith, List, [], ◌∷◌, ◌++◌, ◌==◌, Bool-cases, if◌then◌else◌,
}
use nachos_lab.Threads.{ready_to_run, set_status}
use nachos_lab.Threads.Switch.{sleep-line, yield-line, List-cases}
use nachos_lab.Synch.{Semaphore, v, wake, take, is_held_by_current_thread}
use nachos_lab.Synch.Protocol.{
  System, release_test, Step, gets, sleeps, takes, tests, gives, switches,
}
use nachos_lab.Synch.Exclusion.{p-true, p-false}

-- How often a thread stands in a list.
unfoldable pub count : ℕ → List ℕ → ℕ
count t [] = 0
count t (x ∷ xs) = (if t == x then 1 else 0) + count t xs

pub count-append : (t : ℕ) (xs ys : List ℕ) → count t (xs ++ ys) ≡ count t xs + count t ys
unfolding count
count-append t [] ys = omega arith
count-append t (x ∷ xs) ys = omega (arith, count-append t xs ys)

-- The running thread, the ready ones, and those that wait for the lock.
abbrev pub census : System → List ℕ
census s = s.threads.current_thread ∷ s.threads.ready_list ++ s.lock.lock.queue

tests-census : (s : System) (t : ℕ) → (count t (census (release_test s)) ≡ count t (census s))
unfolding release_test
tests-census s t = elim (Bool-cases (is_held_by_current_thread s.lock s.threads)) [
  | inl e ↦ rw e refl
  | inr e ↦ rw e refl
]

gives-census :
    (s : System) (t : ℕ)
    → count t (
        (v s.lock.lock s.threads).1.current_thread ∷ (v s.lock.lock s.threads).1.ready_list
        ++ (v s.lock.lock s.threads).0.queue)
      ≡ count t (census s)
unfolding v wake count ready_to_run set_status
gives-census s t = elim (List-cases s.lock.lock.queue) [
  | inl e ↦ rw e refl
  | inr (x, xs, e) ↦ rw e (
      omega (
        arith,
        count-append t (s.threads.ready_list ++ x ∷ []) xs,
        count-append t s.threads.ready_list (x ∷ []),
        count-append t s.threads.ready_list (x ∷ xs),
      ))
]

-- No step loses a thread or doubles it.
pub Step-census : {s s' : System} → Step s s' → (t : ℕ) → count t (census s') ≡ count t (census s)
unfolding count take
Step-census {s} (gets {sem} {threads} asked done) t =
    let (value, queue, same) = p-true s.lock.lock s.threads sem threads done in
    rw (same, queue) refl
Step-census {s} (sleeps {sem} {threads} asked done) t =
    let (zero_value, changed, slept) = p-false s.lock.lock s.threads sem threads done in
    let c = s.threads.current_thread in
    let line = sleep-line s.threads threads slept in
    let queue : sem.queue ≡ s.lock.lock.queue ++ c ∷ [] = ap (λ (q : Semaphore). q.queue) changed in
    rw (queue, line)
      (omega (
        arith,
        count-append t threads.ready_list (s.lock.lock.queue ++ c ∷ []),
        count-append t s.lock.lock.queue (c ∷ []),
        count-append t threads.ready_list s.lock.lock.queue,
      ))
Step-census {s} (takes stage) t = refl
Step-census {s} (tests stage) t = tests-census s t
Step-census {s} (gives stage) t = gives-census s t
Step-census {s} (switches {threads} stage done) t = elim (yield-line s.threads threads done) [
  | inl (e, same) ↦ rw (same.current, same.ready_list) refl
  | inr (xs, before, now) ↦
      let c = s.threads.current_thread in
      rw (before, now)
        (omega (
          arith,
          count-append t (xs ++ c ∷ []) s.lock.lock.queue,
          count-append t xs (c ∷ []),
          count-append t xs s.lock.lock.queue,
        ))
]
