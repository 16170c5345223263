-- ===== src/Threads/Finish.antt =====
-- Thread::Finish of code/threads/thread.cc with Scheduler::Run of scheduler.cc: who destroys a thread.
use nachos_lab.Base.{
  ℕ, zero, suc, ◌≡◌, ◌≢◌, refl, ◌∙◌, true, false, none, some, List, ◌∷◌, Result, ok, ◌==◌,
  Bool-cases, inl, inr, if◌then◌else◌, arith, Option, [], set, get_elem?, ◌<◌, ap,
}
use nachos_lab.Threads.{Threads, finish, sleep_loop, run, update, remove_loop, blocked, running}

-- The state in which the next thread runs, while the one that has finished still stands in the list of
-- all threads.
abbrev pub left : Threads → ℕ → List ℕ → Threads
left s next rest = record s {
  in_run = update s.in_run s.current_thread true;
  current_thread = next;
  ready_list = rest;
  status = update (update s.status s.current_thread blocked) next running;
  thread_to_be_destroyed = some s.current_thread;
}

-- The same, with the thread destroyed and its slot `k` free.
abbrev pub cleaned : Threads → ℕ → List ℕ → ℕ → Threads
cleaned s next rest k = record (left s next rest) {
  thread_to_be_destroyed = none;
  global_thread_list = set s.global_thread_list k none;
}

-- RemoveThreadFromList frees the first slot of the thread, and no other.
remove_loop-first :
    (slots : List (Option ℕ)) (k thread : ℕ)
    → get_elem? slots k ≡ some (some thread)
    → ((j : ℕ) → j < k → get_elem? slots j ≢ some (some thread))
    → (remove_loop slots thread).1 ≡ set slots k none
unfolding remove_loop
remove_loop-first [] k thread here first = cc
remove_loop-first (none ∷ slots) zero thread here first = cc
remove_loop-first (none ∷ slots) (suc k) thread here first =
    ap (λ (r : List (Option ℕ)). none ∷ r)
      (remove_loop-first slots k thread here (λ j h. first (suc j) (omega arith)))
remove_loop-first (some t ∷ slots) zero thread here first =
    let q : t ≡ thread = cc in let same : (t == thread) ≡ true = ground arith in rw same refl
remove_loop-first (some t ∷ slots) (suc k) thread here first =
    let ne : t ≢ thread = λ q. first 0 (omega arith) (ap (λ (z : ℕ). some (some z)) q) in
    let other : (t == thread) ≡ false = ground arith in
    rw other (
      ap (λ (r : List (Option ℕ)). some t ∷ r)
        (remove_loop-first slots k thread here (λ j h. first (suc j) (omega arith))))

pub sleep_loop-cons :
    (idle : Threads → Result Threads) (n : ℕ) (s : Threads) (next : ℕ) (rest : List ℕ)
    → s.ready_list ≡ next ∷ rest
    → sleep_loop idle n s ≡ run (record s { ready_list = rest }) next
unfolding sleep_loop
sleep_loop-cons idle zero s next rest e = rw e refl
sleep_loop-cons idle (suc n) s next rest e = rw e refl

module _ (idle : Threads → Result Threads) (n : ℕ) (s : Threads) (next : ℕ) (rest : List ℕ)
    (k : ℕ) where
  -- Finish, where another thread is the first that is ready, and the thread that calls it has its first
  -- slot in the list of all threads at `k`. Where the next thread was switched out inside Run, it destroys
  -- the one that has finished: slot `k` is free, every other slot is as it was, and no thread is noted.
  -- Where the next thread runs for the first time, it does not: the list of all threads is as it was, and
  -- the finished thread is noted, over any thread that was noted before.
  pub finish-next :
      s.ready_list ≡ next ∷ rest
      → next ≢ s.current_thread
      → get_elem? s.global_thread_list k ≡ some (some s.current_thread)
      → ((j : ℕ) → j < k → get_elem? s.global_thread_list j ≢ some (some s.current_thread))
      → finish idle n s ≡ ok (if s.in_run next then cleaned s next rest k else left s next rest)
  unfolding finish run
  finish-next e ne here first =
      let other : (s.current_thread == next) ≡ false = ground arith in
      let noted : Threads = record s {
        status = update s.status s.current_thread blocked;
        thread_to_be_destroyed = some s.current_thread;
      } in
      let ran : run (record noted { ready_list = rest }) next
          ≡ ok (if s.in_run next then cleaned s next rest k else left s next rest) =
        elim (Bool-cases (s.in_run next)) [
          | inl old ↦
              rw (other, old)
                (ap
                  (λ (slots : List (Option ℕ)).
                    ok (record (cleaned s next rest k) { global_thread_list = slots }))
                  (remove_loop-first s.global_thread_list k s.current_thread here first))
          | inr new ↦ rw (other, new) refl
        ] in
      sleep_loop-cons idle n noted next rest e ∙ ran
