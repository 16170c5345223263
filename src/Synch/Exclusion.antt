-- ===== src/Synch/Exclusion.antt =====
-- Mutual exclusion of the locks of code/threads/synch.cc.
use nachos_lab.Base.{
  ℕ, ◌+◌, ◌-◌, ◌≤◌, ◌≡◌, ◌≢◌, inl, inr, refl, sym, ◌∙◌, ap, arith, Bool, true, false, none, some,
  [], ◌∷◌, ◌++◌, ◌==◌, ==_iff, ==_refl, Bool-cases, ok, ℕ_discrete, >>=-eq-ok, Option-cases,
}
use nachos_lab.Threads.{Threads, update, sleep}
use nachos_lab.Synch.{Semaphore, Lock, new_lock, p, v, take, is_held_by_current_thread}
use nachos_lab.Synch.Protocol.{
  Stage, outside, acquiring, acquired, holding, releasing, System, idle, here, at_stage, asks,
  release_test, Step, Reachable, gets, sleeps, takes, tests, gives, switches, begin, later,
}

-- Is the thread between P and V?
abbrev pub inside : Stage → Bool
inside outside = false
inside acquiring = false
inside acquired = true
inside holding = true
inside releasing = true

pub record IsExclusive (s : System) : Type 0 where
  pub at_most : s.lock.lock.value ≤ 1
  pub free : s.lock.lock.value ≡ 1 → (t : ℕ) → inside (s.stage t) ≡ false
  pub single : (t u : ℕ) → inside (s.stage t) ≡ true → inside (s.stage u) ≡ true → t ≡ u
  pub held : (t : ℕ) → s.lock.held_thread ≡ some t → s.stage t ≡ holding

-- P gets through only where the value is not zero, and takes one from it.
pub p-true :
    (s : Semaphore) (t : Threads) (sem : Semaphore) (t' : Threads)
    → p idle 1 s t ≡ ok (true, sem, t')
    → (sem.value + 1 ≡ s.value) × (sem.queue ≡ s.queue) × (t' ≡ t)
unfolding p
p-true s t sem t' h = elim (Bool-cases (s.value == 0)) [
  | inl z ↦
      let (t1, slept, done) = >>=-eq-ok (sleep idle 1 t) _ (rw z at h) in
      let no : ◌≡◌ {A = Bool} false true = cc in absurd (ground arith)
  | inr nz ↦
      let h' = rw nz at h in
      let e : (true, record s { value = s.value - 1 }, t) ≡ (true, sem, t') = cc in
      (
        ground (arith, ap (λ (r : Bool × Semaphore × Threads). r.1.value) e),
        sym (ap (λ (r : Bool × Semaphore × Threads). r.1.queue) e),
        sym (ap (λ (r : Bool × Semaphore × Threads). r.2) e),
      )
]

pub p-false :
    (s : Semaphore) (t : Threads) (sem : Semaphore) (t' : Threads)
    → p idle 1 s t ≡ ok (false, sem, t')
    → (s.value ≡ 0)
      × (sem ≡ record s { queue = s.queue ++ t.current_thread ∷ [] })
      × (sleep idle 1 t ≡ ok t')
unfolding p
p-false s t sem t' h = elim (Bool-cases (s.value == 0)) [
  | inl z ↦
      let (t1, slept, done) = >>=-eq-ok (sleep idle 1 t) _ (rw z at h) in
      let e : (false, record s { queue = s.queue ++ t.current_thread ∷ [] }, t1)
          ≡ (false, sem, t') =
        cc in
      let same : t1 ≡ t' = ap (λ (r : Bool × Semaphore × Threads). r.2) e in
      (
        (==_iff s.value 0).0 z,
        sym (ap (λ (r : Bool × Semaphore × Threads). r.1) e),
        slept ∙ ap ok same,
      )
  | inr nz ↦
      let h' = rw nz at h in
      let e : (true, record s { value = s.value - 1 }, t) ≡ (false, sem, t') = cc in
      let no : ◌≡◌ {A = Bool} true false = ap (λ (r : Bool × Semaphore × Threads). r.0) e in
      absurd (ground arith)
]

-- The stages after the running thread `c` has changed its own.
module _ (f : ℕ → Stage) (c : ℕ) (x : Stage) where
  pub update_self : update f c x c ≡ x
  update_self = rw (==_refl c) refl

  pub update-other : (t : ℕ) → c ≢ t → update f c x t ≡ f t
  update-other t ne = elim (Bool-cases (c == t)) [
    | inl e ↦ absurd (ne ((==_iff c t).0 e))
    | inr e ↦ rw e refl
  ]

  only_one : ((t : ℕ) → inside (f t) ≡ false) → (t : ℕ) → inside (update f c x t) ≡ true → t ≡ c
  only_one none_in t h = elim (ℕ_discrete c t) [
    | yes e ↦ sym e
    | no ne ↦
        let no : true ≡ false = sym (rw (update-other t ne) at h) ∙ none_in t in
        absurd (ground arith)
  ]

  same_inside : inside x ≡ inside (f c) → (t : ℕ) → inside (update f c x t) ≡ inside (f t)
  same_inside e t = elim (ℕ_discrete c t) [
    | yes q ↦ rw (← q) (rw update_self e)
    | no ne ↦ rw (update-other t ne) refl
  ]

  none_inside :
      ((t : ℕ) → inside (f t) ≡ true → t ≡ c)
      → inside x ≡ false
      → (t : ℕ) → inside (update f c x t) ≡ false
  none_inside alone out t = elim (ℕ_discrete c t) [
    | yes q ↦ rw (← q) (rw update_self out)
    | no ne ↦ rw (update-other t ne) (elim (Bool-cases (inside (f t))) [
      | inl yes_in ↦ absurd (ne (sym (alone t yes_in)))
      | inr not_in ↦ not_in
    ])
  ]

-- A change of one thread's stage that keeps it on its side of P and V.
moves-IsExclusive :
    (s : System) (l : Lock) (x : Stage)
    → IsExclusive s
    → l.lock.value ≡ s.lock.lock.value
    → inside x ≡ inside (here s)
    → ((t : ℕ) → l.held_thread ≡ some t → at_stage s x t ≡ holding)
    → (threads : Threads)
    → IsExclusive (record { threads = threads; lock = l; stage = at_stage s x })
moves-IsExclusive s l x i value side held threads =
    let c = s.threads.current_thread in
    let kept = same_inside s.stage c x side in
    record {
      at_most = omega (arith, i.at_most, value);
      free = λ one t. kept t ∙ i.free (sym value ∙ one) t;
      single = λ t u a b. i.single t u (sym (kept t) ∙ a) (sym (kept u) ∙ b);
      held = held;
    }

-- Nobody holds the lock unless a thread is inside.
unheld :
    (s : System) → IsExclusive s → s.lock.lock.value ≡ 1 → (t : ℕ) → s.lock.held_thread ≢ some t
unheld s i one t h = let stage = i.held t h in let out = i.free one t in ground (arith, stage)

pub asks-outside : (x : Stage) → asks x ≡ true → (inside x ≡ false) × (x ≢ holding)
asks-outside outside h = (refl, λ e. ground arith)
asks-outside acquiring h = (refl, λ e. ground arith)
asks-outside acquired h = absurd (ground arith)
asks-outside holding h = absurd (ground arith)
asks-outside releasing h = absurd (ground arith)

-- A thread that holds the lock is not one that does something else.
held_by_other :
    (s : System) (x : Stage)
    → IsExclusive s
    → here s ≢ holding
    → (t : ℕ) → s.lock.held_thread ≡ some t
    → at_stage s x t ≡ holding
held_by_other s x i ne t h =
    let apart : s.threads.current_thread ≢ t = λ e. ne (rw e (i.held t h)) in
    update-other s.stage s.threads.current_thread x t apart ∙ i.held t h

is_held-some :
    (l : Lock) (t : Threads)
    → is_held_by_current_thread l t ≡ true
    → l.held_thread ≡ some t.current_thread
is_held-some l t h = elim (Option-cases l.held_thread) [
  | inl e ↦ absurd (ground (arith, rw e at h))
  | inr (u, e) ↦ e ∙ ap some (sym ((==_iff t.current_thread u).0 (rw e at h)))
]

-- Every step keeps the exclusion.
pub Step-IsExclusive : {s s' : System} → Step s s' → IsExclusive s → IsExclusive s'
unfolding take release_test v
Step-IsExclusive {s} (gets {sem} {threads} asked done) i =
    let c = s.threads.current_thread in
    let (value, queue, same) = p-true s.lock.lock s.threads sem threads done in
    let one : s.lock.lock.value ≡ 1 = omega (arith, value, i.at_most) in
    let alone = only_one s.stage c acquired (i.free one) in
    record {
      at_most = omega (arith, value, i.at_most);
      free = λ again. absurd (omega (arith, value, i.at_most));
      single = λ t u a b. alone t a ∙ sym (alone u b);
      held = λ t h. absurd (unheld s i one t h);
    }
Step-IsExclusive {s} (sleeps {sem} {threads} asked done) i =
    let (zero_value, changed, slept) = p-false s.lock.lock s.threads sem threads done in
    let (out, other) = asks-outside (here s) asked in
    moves-IsExclusive s (record s.lock { lock = sem }) acquiring i
      (ap (λ (q : Semaphore). q.value) changed) (sym out) (held_by_other s acquiring i other)
      threads
Step-IsExclusive {s} (takes stage) i =
    let c = s.threads.current_thread in
    moves-IsExclusive s (take s.lock s.threads) holding i refl (rw stage refl)
      (λ t h. let q : c ≡ t = cc in rw (← q) (update_self s.stage c holding)) s.threads
Step-IsExclusive {s} (tests stage) i =
    elim (Bool-cases (is_held_by_current_thread s.lock s.threads)) [
      | inl e ↦
          let mine = i.held s.threads.current_thread (is_held-some s.lock s.threads e) in
          rw e (
            moves-IsExclusive s (record s.lock { held_thread = none }) releasing i refl
              (rw mine refl) (λ t h. cc) s.threads)
      | inr e ↦ rw e i
    ]
Step-IsExclusive {s} (gives stage) i =
    let c = s.threads.current_thread in
    let side : inside (here s) ≡ true = rw stage refl in
    let alone : (t : ℕ) → inside (s.stage t) ≡ true → t ≡ c = λ t a. i.single t c a side in
    let out = none_inside s.stage c outside alone refl in
    record {
      at_most = elim (ℕ_discrete s.lock.lock.value 1) [
        | yes one ↦ absurd (ground (arith, i.free one c))
        | no ne ↦ omega (arith, i.at_most)
      ];
      free = λ one t. out t;
      single = λ t u a b. absurd (ground (arith, out t));
      held = λ t h.
          let holds = i.held t h in
          let mine : t ≡ c = alone t (rw holds refl) in absurd (ground (arith, rw mine at holds));
    }
Step-IsExclusive {s} (switches stage done) i = record {
  at_most = i.at_most;
  free = i.free;
  single = i.single;
  held = i.held;
}

pub Reachable-IsExclusive : (t : Threads) {s : System} → Reachable t s → IsExclusive s
unfolding new_lock
Reachable-IsExclusive t begin = record {
  at_most = omega arith;
  free = λ one u. refl;
  single = λ u w a b. absurd (ground arith);
  held = λ u h. cc;
}
Reachable-IsExclusive t (later r step) = Step-IsExclusive step (Reachable-IsExclusive t r)

-- Mutual exclusion: in every state that threads can reach with a new lock, by any sequence of calls of
-- Acquire and Release and of switches between the threads, at most one thread is between the P of
-- Acquire and the V of Release; and where one is, the value of the semaphore is 0.
pub mutual_exclusion :
    (threads : Threads) {s : System}
    → Reachable threads s
    → (t u : ℕ) → inside (s.stage t) ≡ true
    → inside (s.stage u) ≡ true
    → (t ≡ u) × (s.lock.lock.value ≡ 0)
mutual_exclusion threads {s} r t u a b =
    let i = Reachable-IsExclusive threads r in
    (
      i.single t u a b,
      elim (ℕ_discrete s.lock.lock.value 1) [
        | yes one ↦ absurd (ground (arith, i.free one t))
        | no ne ↦ omega (arith, i.at_most)
      ],
    )
