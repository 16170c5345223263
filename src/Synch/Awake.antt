-- ===== src/Synch/Awake.antt =====
-- The threads that wait for a lock of code/threads/synch.cc: none sleeps on while the lock is free and
-- nobody is on the way to it.
use nachos_lab.Base.{
  ℕ, ◌+◌, ◌<◌, ◌≤◌, ◌≡◌, ◌≢◌, ◌⊎◌, inl, inr, refl, sym, ◌∙◌, ap, arith, true, false, none, List, [],
  ◌∷◌, ◌++◌, ◌==◌, ==_refl, ==_iff, Bool-cases, ok, ℕ_discrete,
}
use nachos_lab.Threads.{Threads, update, ready_to_run, set_status}
use nachos_lab.Threads.Switch.{yield-line}
use nachos_lab.Synch.{Semaphore, Lock, new_lock, p, v, wake, take, is_held_by_current_thread}
use nachos_lab.Synch.Protocol.{
  Stage, outside, acquiring, acquired, holding, releasing, System, idle, here, at_stage,
  release_test, Step, Reachable, initial, gets, sleeps, takes, tests, gives, switches, begin, later,
}
use nachos_lab.Synch.Exclusion.{
  p-true, p-false, update_self, update-other, IsExclusive, Reachable-IsExclusive,
}
use nachos_lab.Synch.Waiting.{count, count-append, census, Step-census}

-- The threads that are running or ready.
abbrev pub line : System → List ℕ
line s = s.threads.current_thread ∷ s.threads.ready_list

pub record IsAwake (s : System) : Type 0 where
  pub once : (t : ℕ) → count t (census s) ≤ 1
  pub queued : (t : ℕ) → 0 < count t s.lock.lock.queue → s.stage t ≡ acquiring
  pub woken :
      s.lock.lock.value ≡ 1
      → (s.lock.lock.queue ≡ []) ⊎ ((t : ℕ) × (0 < count t (line s)) × (s.stage t ≡ acquiring))

-- The running thread waits for nothing.
running_out :
    (s : System)
    → IsAwake s
    → (t : ℕ) → 0 < count t s.lock.lock.queue
    → s.threads.current_thread ≢ t
unfolding count
running_out s a t h same =
    let c = s.threads.current_thread in
    let here_too : (t == c) ≡ true = (==_iff t c).1 (sym same) in
    ground (arith, a.once t, count-append t s.threads.ready_list s.lock.lock.queue)

queued_on :
    (s : System) (x : Stage)
    → IsAwake s
    → (t : ℕ) → 0 < count t s.lock.lock.queue
    → at_stage s x t ≡ acquiring
queued_on s x a t h =
    update-other s.stage s.threads.current_thread x t (running_out s a t h) ∙ a.queued t h

-- A step that changes only the stage of a thread that is not in P.
stays :
    (s : System) (l : Lock) (x : Stage)
    → IsAwake s
    → l.lock ≡ s.lock.lock
    → here s ≢ acquiring
    → ((t : ℕ)
        → count t (census (record s { lock = l; stage = at_stage s x })) ≡ count t (census s))
    → IsAwake (record s { lock = l; stage = at_stage s x })
stays s l x a same ne kept =
    let c = s.threads.current_thread in
    let value : l.lock.value ≡ s.lock.lock.value = ap (λ (q : Semaphore). q.value) same in
    let queue : l.lock.queue ≡ s.lock.lock.queue = ap (λ (q : Semaphore). q.queue) same in
    record {
      once = λ t. omega (arith, kept t, a.once t);
      queued = λ t h. queued_on s x a t (rw queue at h);
      woken = λ one. elim (a.woken (sym value ∙ one)) [
        | inl none_waits ↦ inl (queue ∙ none_waits)
        | inr (t, runs, on_the_way) ↦
            inr (t, runs, update-other s.stage c x t (λ e. ne (rw e on_the_way)) ∙ on_the_way)
      ];
    }

gets-IsAwake :
    (s : System) (sem : Semaphore) (threads : Threads)
    → IsExclusive s
    → IsAwake s
    → p idle 1 s.lock.lock s.threads ≡ ok (true, sem, threads)
    → ((t : ℕ)
        → count t (
            census (record {
              threads = threads;
              lock = record s.lock { lock = sem };
              stage = at_stage s acquired;
            }))
          ≡ count t (census s))
    → IsAwake (record {
      threads = threads;
      lock = record s.lock { lock = sem };
      stage = at_stage s acquired;
    })
gets-IsAwake s sem threads i a done kept =
    let (value, queue, same) = p-true s.lock.lock s.threads sem threads done in
    record {
      once = λ t. omega (arith, kept t, a.once t);
      queued = λ t h. queued_on s acquired a t (rw queue at h);
      woken = λ one. absurd (omega (arith, value, i.at_most));
    }

sleeps-IsAwake :
    (s : System) (sem : Semaphore) (threads : Threads)
    → IsAwake s
    → p idle 1 s.lock.lock s.threads ≡ ok (false, sem, threads)
    → ((t : ℕ)
        → count t (
            census (record {
              threads = threads;
              lock = record s.lock { lock = sem };
              stage = at_stage s acquiring;
            }))
          ≡ count t (census s))
    → IsAwake (record {
      threads = threads;
      lock = record s.lock { lock = sem };
      stage = at_stage s acquiring;
    })
unfolding count
sleeps-IsAwake s sem threads a done kept =
    let c = s.threads.current_thread in
    let (zero_value, changed, slept) = p-false s.lock.lock s.threads sem threads done in
    let queue : sem.queue ≡ s.lock.lock.queue ++ c ∷ [] = ap (λ (q : Semaphore). q.queue) changed in
    let value : sem.value ≡ s.lock.lock.value = ap (λ (q : Semaphore). q.value) changed in
    record {
      once = λ t. omega (arith, kept t, a.once t);
      queued = λ t h. elim (ℕ_discrete c t) [
        | yes e ↦ rw (← e) (update_self s.stage c acquiring)
        | no ne ↦
            let other : (t == c) ≡ false = ground arith in
            let grown = rw queue at h in
            let before : 0 < count t s.lock.lock.queue =
              ground (arith, grown, count-append t s.lock.lock.queue (c ∷ [])) in
            queued_on s acquiring a t before
      ];
      woken = λ one. absurd (omega (arith, value, zero_value));
    }

-- V, by the queue that it finds.
gives-IsAwake :
    (s : System) (q : List ℕ)
    → s.lock.lock.queue ≡ q
    → IsAwake s
    → ((t : ℕ)
        → count t (
            (wake q s.threads).1.current_thread ∷ (wake q s.threads).1.ready_list
            ++ (wake q s.threads).0)
          ≡ count t (census s))
    → IsAwake (record {
      threads = (wake q s.threads).1;
      lock = record s.lock {
        lock = record { value = s.lock.lock.value + 1; queue = (wake q s.threads).0 };
      };
      stage = at_stage s outside;
    })
unfolding wake ready_to_run set_status count
gives-IsAwake s [] e a kept = record {
  once = λ t. omega (arith, kept t, a.once t);
  queued = λ t h. absurd (omega arith);
  woken = λ one. inl refl;
}
gives-IsAwake s (x ∷ xs) e a kept =
    let first : 0 < count x s.lock.lock.queue = rw e (rw (==_refl x) (omega arith)) in
    record {
      once = λ t. omega (arith, kept t, a.once t);
      queued = λ t h. queued_on s outside a t (rw e (omega arith));
      woken = λ one. inr (
        x,
        rw (count-append x s.threads.ready_list (x ∷ [])) (rw (==_refl x) (omega arith)),
        queued_on s outside a x first,
      );
    }

-- A switch keeps the threads that are running or ready.
line-kept :
    (s : System) (threads : Threads) (t : ℕ)
    → nachos_lab.Threads.yield s.threads ≡ ok threads
    → count t (threads.current_thread ∷ threads.ready_list) ≡ count t (line s)
unfolding count
line-kept s threads t done = elim (yield-line s.threads threads done) [
  | inl (e, same) ↦ rw (same.current, same.ready_list) refl
  | inr (xs, before, now) ↦
      let c = s.threads.current_thread in
      rw (before, now) (omega (arith, count-append t xs (c ∷ [])))
]

tested : (s : System) → IsAwake s → here s ≢ acquiring → IsAwake (release_test s)
unfolding release_test
tested s a ne = elim (Bool-cases (is_held_by_current_thread s.lock s.threads)) [
  | inl e ↦ rw e (stays s (record s.lock { held_thread = none }) releasing a refl ne (λ t. refl))
  | inr e ↦ rw e a
]

pub Step-IsAwake : {s s' : System} → Step s s' → IsExclusive s → IsAwake s → IsAwake s'
unfolding take v
Step-IsAwake {s} (gets {sem} {threads} asked done) i a =
    gets-IsAwake s sem threads i a done (Step-census (gets {s = s} asked done))
Step-IsAwake {s} (sleeps {sem} {threads} asked done) i a =
    sleeps-IsAwake s sem threads a done (Step-census (sleeps {s = s} asked done))
Step-IsAwake {s} (takes stage) i a =
    stays s (take s.lock s.threads) holding a refl (λ e. ground (arith, stage)) (λ t. refl)
Step-IsAwake {s} (tests stage) i a =
    tested s a (λ e. elim stage [ inl o ↦ ground arith | inr h ↦ ground arith ])
Step-IsAwake {s} (gives stage) i a =
    gives-IsAwake s s.lock.lock.queue refl a (Step-census (gives {s = s} stage))
Step-IsAwake {s} (switches {threads} stage done) i a = record {
  once = λ t. omega (arith, Step-census (switches {s = s} stage done) t, a.once t);
  queued = a.queued;
  woken = λ one. elim (a.woken one) [
    | inl none_waits ↦ inl none_waits
    | inr (t, runs, way) ↦ inr (t, omega (arith, line-kept s threads t done), way)
  ];
}

Reachable-IsAwake :
    (threads : Threads) {s : System}
    → ((t : ℕ) → count t (census (initial threads)) ≤ 1)
    → Reachable threads s
    → IsAwake s
unfolding new_lock count
Reachable-IsAwake threads once begin = record {
  once = once;
  queued = λ t h. absurd (omega arith);
  woken = λ one. inl refl;
}
Reachable-IsAwake threads once (later r step) =
    Step-IsAwake step (Reachable-IsExclusive threads r) (Reachable-IsAwake threads once r)

-- No wakeup is lost: in every state that distinct threads can reach with a new lock, where the lock is
-- free and a thread waits in its queue, some thread that is running or ready is in P, on the way to
-- the test that the free lock lets through.
pub no_lost_wakeup :
    (threads : Threads) {s : System}
    → ((t : ℕ) → count t (census (initial threads)) ≤ 1)
    → Reachable threads s
    → s.lock.lock.value ≡ 1
    → (u : ℕ) → 0 < count u s.lock.lock.queue
    → (t : ℕ) × (0 < count t (line s)) × (s.stage t ≡ acquiring)
unfolding count
no_lost_wakeup threads {s} once r one u waits =
    elim ((Reachable-IsAwake threads once r).woken one) [
      | inl none_waits ↦ absurd (omega (arith, rw none_waits at waits))
      | inr found ↦ found
    ]
