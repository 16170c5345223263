-- ===== src/Threads/Switch.antt =====
-- What a switch between threads, Scheduler::Run of code/threads/scheduler.cc, leaves of the ready list.
use nachos_lab.Base.{
  ℕ, ◌≡◌, refl, ◌∙◌, sym, ap, true, false, some, List, [], ◌∷◌, ◌++◌, Result, ok, err, halted, ◌==◌,
  >>=-eq-ok, Bool-cases, Option-cases, inl, inr, if◌then◌else◌, check, ◌⊎◌,
}
use nachos_lab.Threads.Finish.{sleep_loop-cons}
use nachos_lab.Threads.{
  Threads, run, sleep, sleep_loop, yield, update, after_switch, delete_thread,
  remove_thread_from_list, set_status, ready_to_run, blocked,
}

-- The same thread runs, and the same threads are ready.
pub record SameLine (s s' : Threads) : Type 0 where
  pub current : s'.current_thread ≡ s.current_thread
  pub ready_list : s'.ready_list ≡ s.ready_list

equal-SameLine : {s s' : Threads} → ok s ≡ ok s' → SameLine s s'
equal-SameLine {s} {s'} h =
    let e : s ≡ s' = cc in
    record {
      current = sym (ap (λ (x : Threads). x.current_thread) e);
      ready_list = sym (ap (λ (x : Threads). x.ready_list) e);
    }

delete_thread-SameLine :
    (s : Threads) (t : ℕ) (s' : Threads) → delete_thread s t ≡ ok s' → SameLine s s'
unfolding delete_thread remove_thread_from_list
delete_thread-SameLine s t s' h =
    let (u, checked, done) =
      >>=-eq-ok (check (if t == s.current_thread then false else true)) _ h in
    let r = equal-SameLine done in record { current = r.current; ready_list = r.ready_list }

after_switch-SameLine : (s s' : Threads) → after_switch s ≡ ok s' → SameLine s s'
unfolding after_switch
after_switch-SameLine s s' h = elim (Option-cases s.thread_to_be_destroyed) [
  | inl e ↦
      let r = equal-SameLine (rw e at h) in
      record { current = r.current; ready_list = r.ready_list }
  | inr (t, e) ↦
      let (s1, deleted, done) =
        >>=-eq-ok (delete_thread (record s { thread_to_be_destroyed = some t }) t) _ (rw e at h) in
      let r = equal-SameLine done in
      let d = delete_thread-SameLine _ t s1 deleted in
      record { current = r.current ∙ d.current; ready_list = r.ready_list ∙ d.ready_list }
]

pub run-line :
    (s : Threads) (next : ℕ) (s' : Threads)
    → run s next ≡ ok s'
    → (s'.current_thread ≡ next) × (s'.ready_list ≡ s.ready_list)
unfolding run set_status
run-line s next s' h = elim (Bool-cases (update s.in_run s.current_thread true next)) [
  | inl old ↦ let r = after_switch-SameLine _ s' (rw old at h) in (r.current, r.ready_list)
  | inr new ↦ let r = equal-SameLine (rw new at h) in (r.current, r.ready_list)
]

-- A list is empty, or has a first item.
pub List-cases : (rs : List ℕ) → (rs ≡ []) ⊎ ((x : ℕ) × (xs : List ℕ) × (rs ≡ x ∷ xs))
List-cases [] = inl refl
List-cases (x ∷ xs) = inr (x, xs, refl)

sleep_loop-nil : (s : Threads) → s.ready_list ≡ [] → sleep_loop (λ t. err halted) 1 s ≡ err halted
unfolding sleep_loop
sleep_loop-nil s e = rw e refl

-- Where no interrupt is pending, a thread can sleep only if another is ready, and the first of them runs.
pub sleep-line :
    (s s' : Threads)
    → sleep (λ t. err halted) 1 s ≡ ok s'
    → s.ready_list ≡ s'.current_thread ∷ s'.ready_list
unfolding sleep set_status
sleep-line s s' h =
    let asleep = set_status s s.current_thread blocked in
    elim (List-cases s.ready_list) [
      | inl e ↦
          let no : ◌≡◌ {A = Result Threads} (err halted) (ok s') =
            sym (sleep_loop-nil asleep e) ∙ h in
          cc
      | inr (x, xs, e) ↦
          let (now, rest) =
            run-line (record asleep { ready_list = xs }) x s'
              (sym (sleep_loop-cons (λ t. err halted) 1 asleep x xs e) ∙ h) in
          rw (now, rest) e
    ]

yield-nil : (s : Threads) → s.ready_list ≡ [] → yield s ≡ ok s
unfolding yield
yield-nil s e = rw e refl

yield-run :
    (s : Threads) (x : ℕ) (xs : List ℕ)
    → s.ready_list ≡ x ∷ xs
    → yield s ≡ run (ready_to_run (record s { ready_list = xs }) s.current_thread) x
unfolding yield
yield-run s x xs e = rw e refl

-- A thread that yields goes to the end of the ready list, and the first of the list runs.
pub yield-line :
    (s s' : Threads)
    → yield s ≡ ok s'
    → ((s.ready_list ≡ []) × SameLine s s')
      ⊎ ((xs : List ℕ) × (s.ready_list ≡ s'.current_thread ∷ xs)
          × (s'.ready_list ≡ xs ++ s.current_thread ∷ []))
unfolding ready_to_run set_status
yield-line s s' h = elim (List-cases s.ready_list) [
  | inl e ↦ inl (e, equal-SameLine (sym (yield-nil s e) ∙ h))
  | inr (x, xs, e) ↦
      let (now, rest) = run-line _ x s' (sym (yield-run s x xs e) ∙ h) in inr (xs, rw now e, rest)
]
